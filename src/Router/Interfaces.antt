-- ===== src/Router/Interfaces.antt =====
-- sr_if.c, and the searches of the interface list in sr_router.c (`ip_2_iface`, `mac_2_iface`; the
-- code behind their first `return` is never reached).
pub mod Laws
use cs.Base.{
  ℕ, List, [], ◌∷◌, Bool, Option, none, some, ◌==◌, if◌then◌else◌, take, str_eq, Run, done, fault,
}
use cs.Bytes.{Mac, mac_eq, htonl}
use cs.Router.State.{Iface, Instance}

abbrev pub name_len : ℕ
name_len = 32

-- strncmp(a, b, sr_IFACE_NAMELEN) == 0
abbrev pub same_name : List ℕ → List ℕ → Bool
same_name a b = str_eq (take name_len a) (take name_len b)

unfoldable pub find_name : List ℕ → List Iface → Option Iface
find_name name [] = none
find_name name (w ∷ ws) = if same_name w.name name then some w else find_name name ws

unfoldable pub sr_get_interface : Instance → List ℕ → Option Iface
unfolding find_name str_eq
sr_get_interface sr name = find_name name sr.if_list

-- `junk` is what malloc leaves in the new element.
unfoldable pub append_interface : Iface → List ℕ → List Iface → List Iface
append_interface junk name [] = record junk { name = take name_len name } ∷ []
append_interface junk name (w ∷ ws) = w ∷ append_interface junk name ws

unfoldable pub sr_add_interface : Iface → Instance → List ℕ → Instance
unfolding append_interface
sr_add_interface junk sr name = record sr { if_list = append_interface junk name sr.if_list }

unfoldable pub update_last : (Iface → Iface) → List Iface → Run (List Iface)
update_last f [] = fault
update_last f (w ∷ []) = done (f w ∷ [])
update_last f (w ∷ v ∷ ws) = elim (update_last f (v ∷ ws)) [ done r ↦ done (w ∷ r) | fault ↦ fault ]

abbrev pub with_list : Instance → Run (List Iface) → Run Instance
with_list sr (done l) = done (record sr { if_list = l })
with_list sr fault = fault

unfoldable pub sr_set_ether_addr : Instance → Mac → Run Instance
unfolding update_last
sr_set_ether_addr sr addr = with_list sr (update_last (λ w. record w { addr = addr }) sr.if_list)

unfoldable pub sr_set_ether_ip : Instance → ℕ → Run Instance
unfolding update_last
sr_set_ether_ip sr ip = with_list sr (update_last (λ w. record w { ip = ip }) sr.if_list)

unfoldable pub find_ip : ℕ → List Iface → Option Iface
find_ip ip [] = none
find_ip ip (w ∷ ws) = if htonl w.ip == htonl ip then some w else find_ip ip ws

unfoldable pub ip_2_iface : Instance → ℕ → Option Iface
unfolding find_ip
ip_2_iface sr ip = find_ip ip sr.if_list

unfoldable pub find_mac : Mac → List Iface → Option Iface
find_mac mac [] = none
find_mac mac (w ∷ ws) = if mac_eq w.addr mac then some w else find_mac mac ws

unfoldable pub mac_2_iface : Instance → Mac → Option Iface
unfolding find_mac
mac_2_iface sr mac = find_mac mac sr.if_list
