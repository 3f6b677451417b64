-- ===== src/Router/Hardware/Setup.antt =====
-- The interface list that the description of the hardware leaves.
use mathlib.Core.List.{map, append_assoc, append-nil}
use cs.Base.{
  ℕ, zero, suc, ◌≡◌, refl, sym, ◌++◌, ap, ◌∙◌, List, [], ◌∷◌, true, false, none, some, take,
  str_eq_refl, done, ◌>>=◌, Bool-cases, inl, inr,
}
use cs.Bytes.{Mac}
use cs.Router.State.{Iface, Instance}
use cs.Router.Hardware.{
  HwEntry, hw_interface, hw_ether, hw_ether_ip, handle_entry, sr_handle_hwinfo,
}
use cs.Router.Interfaces.{
  name_len, same_name, find_name, sr_get_interface, append_interface, sr_add_interface, update_last,
  sr_set_ether_addr, sr_set_ether_ip,
}

take-take : (n : ℕ) (xs : List ℕ) → take n (take n xs) ≡ take n xs
take-take zero xs = refl
take-take (suc n) [] = refl
take-take (suc n) (x ∷ xs) = ap (λ l. x ∷ l) (take-take n xs)

append_interface_lem :
    (junk : Iface) (name : List ℕ) (l : List Iface)
    → append_interface junk name l ≡ l ++ (record junk { name = take name_len name } ∷ [])
unfolding append_interface
append_interface_lem junk name [] = refl
append_interface_lem junk name (w ∷ ws) = ap (λ l. w ∷ l) (append_interface_lem junk name ws)

update_last_lem :
    (f : Iface → Iface) (l : List Iface) (x : Iface)
    → update_last f (l ++ (x ∷ [])) ≡ done (l ++ (f x ∷ []))
unfolding update_last
update_last_lem f [] x = refl
update_last_lem f (w ∷ []) x = refl
update_last_lem f (w ∷ v ∷ ws) x = rw (update_last_lem f (v ∷ ws) x)

find_name-other :
    (name : List ℕ) (l : List Iface) (x : Iface)
    → same_name x.name name ≡ false
    → find_name name (l ++ (x ∷ [])) ≡ find_name name l
unfolding find_name
find_name-other name [] x h = rw h
find_name-other name (w ∷ ws) x h = elim (Bool-cases (same_name w.name name)) [
  | inl hit ↦ rw hit
  | inr miss ↦ rw miss (find_name-other name ws x h)
]

find_name-new :
    (name : List ℕ) (l : List Iface) (x : Iface)
    → same_name x.name name ≡ true
    → find_name name l ≡ none
    → find_name name (l ++ (x ∷ [])) ≡ some x
unfolding find_name
find_name-new name [] x h fresh = rw h
find_name-new name (w ∷ ws) x h fresh = elim (Bool-cases (same_name w.name name)) [
  | inl hit ↦ absurd (taken (rw hit at fresh))
  | inr miss ↦ rw miss (find_name-new name ws x h (rw miss at fresh))
]
  where
    taken : some w ≡ none → ⊥
    taken e = cc

-- An interface as the server describes it.
pub record Card : Type 0 where
  pub name : List ℕ
  pub addr : Mac
  pub ip : ℕ

abbrev pub iface_of : Card → Iface
iface_of c = record { name = take name_len c.name; addr = c.addr; ip = c.ip }

abbrev pub entries_of : List Card → List HwEntry
entries_of [] = []
entries_of (c ∷ cs) = hw_interface c.name ∷ hw_ether c.addr ∷ hw_ether_ip c.ip ∷ entries_of cs

same_name-take : (name : List ℕ) → same_name (take name_len name) name ≡ true
same_name-take name = rw (take-take name_len name) (str_eq_refl (take name_len name))

-- The interfaces in the order of their entries, behind those that were there, each with its name and
-- both addresses: that is what `sr_handle_hwinfo` makes of any number of them, whatever new memory held.
pub sr_handle_hwinfo-entries_of :
    (junk : Iface) (sr : Instance) (cards : List Card)
    → sr_handle_hwinfo junk sr (entries_of cards)
      ≡ done (record sr { if_list = sr.if_list ++ map iface_of cards })
unfolding sr_handle_hwinfo handle_entry sr_add_interface sr_set_ether_addr sr_set_ether_ip ◌>>=◌
sr_handle_hwinfo-entries_of junk sr [] =
    ap (λ l. done (record sr { if_list = l })) (sym (append-nil sr.if_list))
sr_handle_hwinfo-entries_of junk sr (c ∷ cs) =
    let sr' = record sr { if_list = sr.if_list ++ (iface_of c ∷ []) } in
    rw
      (
        append_interface_lem junk c.name sr.if_list,
        update_last_lem (λ w. record w { addr = c.addr }) sr.if_list
            (record junk { name = take name_len c.name }),
        update_last_lem (λ w. record w { ip = c.ip }) sr.if_list
            (record junk { name = take name_len c.name; addr = c.addr }),
      )
      (sr_handle_hwinfo-entries_of junk sr' cs
        ∙ ap (λ l. done (record sr { if_list = l }))
            (append_assoc sr.if_list (iface_of c ∷ []) (map iface_of cs)))

-- A new interface is found by its name, which no interface had, with both addresses. A look-up of a
-- name that differs in the first 32 characters finds what it found before.
pub hwinfo-found :
    (junk : Iface) (sr : Instance) (c : Card)
    → sr_get_interface sr c.name ≡ none
    → (sr' : Instance) × (sr_handle_hwinfo junk sr (entries_of (c ∷ [])) ≡ done sr')
      × (sr_get_interface sr' c.name ≡ some (iface_of c))
      × ((other : List ℕ)
          → same_name (take name_len c.name) other ≡ false
          → sr_get_interface sr' other ≡ sr_get_interface sr other)
unfolding sr_get_interface
hwinfo-found junk sr c fresh = (
  record sr { if_list = sr.if_list ++ (iface_of c ∷ []) },
  sr_handle_hwinfo-entries_of junk sr (c ∷ []),
  find_name-new c.name sr.if_list (iface_of c) (same_name-take c.name) fresh,
  λ other differs. find_name-other other sr.if_list (iface_of c) differs,
)
