-- ===== src/Router/Hardware.antt =====
-- `sr_handle_hwinfo` of sr_vns_comm.c: the interfaces as the server describes them, one entry after the
-- other, in the byte order of the network.
pub mod Setup
use cs.Base.{ℕ, List, [], ◌∷◌, Run, done, ◌>>=◌}
use cs.Bytes.{Mac}
use cs.Router.State.{Iface, Instance}
use cs.Router.Interfaces.{sr_add_interface, sr_set_ether_addr, sr_set_ether_ip}

-- c_hw_entry, by its key. The keys for fixed addresses, speeds, subnets and masks, and all others, have
-- no effect.
pub data HwEntry : Type 0 where
  hw_interface : List ℕ → HwEntry
  hw_ether_ip : ℕ → HwEntry
  hw_ether : Mac → HwEntry
  hw_other : ℕ → HwEntry

unfoldable pub handle_entry : Iface → Instance → HwEntry → Run Instance
handle_entry junk sr (hw_interface name) = done (sr_add_interface junk sr name)
handle_entry junk sr (hw_ether_ip ip) = sr_set_ether_ip sr ip
handle_entry junk sr (hw_ether addr) = sr_set_ether_addr sr addr
handle_entry junk sr (hw_other key) = done sr

-- `junk` is what malloc leaves in a new interface.
unfoldable pub sr_handle_hwinfo : Iface → Instance → List HwEntry → Run Instance
unfolding handle_entry
sr_handle_hwinfo junk sr [] = done sr
sr_handle_hwinfo junk sr (e ∷ es) = do sr' ← handle_entry junk sr e; sr_handle_hwinfo junk sr' es
