-- ===== src/Router/Interfaces/Laws.antt =====
-- What the searches of the interface list return.
use cs.Base.{◌≡◌, List, [], ◌∷◌, some, true, arith, Bool-cases, inl, inr, ap, ◌∙◌, sym}
use cs.Bytes.{Mac, mac_eq}
use cs.Router.State.{Iface, Instance}
use cs.Router.Interfaces.{find_mac, mac_2_iface}

eq_of_mac_eq : (a b : Mac) → mac_eq a b ≡ true → a ≡ b
eq_of_mac_eq a b h = ground arith

find_mac-addr : (m : Mac) (ws : List Iface) (w : Iface) → find_mac m ws ≡ some w → w.addr ≡ m
unfolding find_mac
find_mac-addr m [] w e = cc
find_mac-addr m (v ∷ ws) w e = elim (Bool-cases (mac_eq v.addr m)) [
  | inl hit ↦
      let same : v ≡ w = ground arith in ap (λ x. x.addr) (sym same) ∙ eq_of_mac_eq v.addr m hit
  | inr miss ↦ find_mac-addr m ws w (ground arith)
]

pub mac_2_iface-addr :
    (sr : Instance) (m : Mac) {w : Iface} → mac_2_iface sr m ≡ some w → w.addr ≡ m
unfolding mac_2_iface
mac_2_iface-addr sr m {w} e = find_mac-addr m sr.if_list w e
