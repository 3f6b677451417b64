-- ===== src/Router/Send.antt =====
-- sr_vns_comm.c: `sr_send_packet` and the checks of addresses. The socket is what the code does not
-- control: a frame counts as sent when it is handed to `write`. No caller reads the result.
pub mod Laws
use cs.Base.{
  ℕ, List, ◌∷◌, Bool, false, not, ◌&&◌, Option, none, some, ◌==◌, ltb, if◌then◌else◌, take, Run,
  done, ◌>>=◌, deref,
}
use cs.Bytes.{Buf, load16, load32, load_mac, mac_eq, htons, copy_of}
use cs.Router.State.{Iface, Instance}
use cs.Router.Interfaces.{sr_get_interface}

unfoldable pub match_iface : Buf → Option Iface → Run Bool
match_iface buf none = done false
match_iface buf (some iface) = do shost ← load_mac buf 6; done (mac_eq shost iface.addr)

unfoldable pub sr_ether_addrs_match_interface : Instance → Buf → List ℕ → Run Bool
unfolding match_iface
sr_ether_addrs_match_interface sr buf name = match_iface buf (sr_get_interface sr name)

abbrev pub with_frame : Instance → Buf → ℕ → List ℕ → Instance
with_frame sr buf len iface = record sr {
  sent = record { buf = buf; len = len; iface = take 16 iface } ∷ sr.sent;
}

unfoldable pub sr_send_packet : Instance → Buf → ℕ → List ℕ → Run Instance
unfolding sr_ether_addrs_match_interface
sr_send_packet sr buf len iface = if ltb len 14 then done sr else do
  sr_pkt ← copy_of buf len
  matches ← sr_ether_addrs_match_interface sr buf iface
  done (if matches then with_frame sr sr_pkt len iface else sr)

-- An ARP request for another address than the one of the interface it came in by is dropped before
-- `sr_handlepacket`. Without the interface the assertion fails, which is a fault here.
unfoldable pub sr_arp_req_not_for_us : Instance → Buf → ℕ → List ℕ → Run Bool
sr_arp_req_not_for_us sr packet len interface = if ltb len 42 then done false else do
  iface ← deref (sr_get_interface sr interface)
  ether_type ← load16 packet 12
  ar_op ← load16 packet 20
  ar_tip ← load32 packet 38
  done (ether_type == htons 0x0806 && (ar_op == htons 1 && not (ar_tip == iface.ip)))
