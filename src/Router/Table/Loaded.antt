-- ===== src/Router/Table/Loaded.antt =====
-- What `sr_load_rt` makes of a file, whole or broken.
use mathlib.Core.List.{append_assoc, append-nil}
use cs.Base.{
  ℕ, ◌<◌, ◌≡◌, refl, sym, ap, ◌∙◌, Bool, true, false, List, [], ◌∷◌, ◌++◌, length, take, lt→ltb,
  none, some, done, ◌>>=◌, ◌>>◌,
}
use cs.Router.State.{Rt, Instance}
use cs.Router.Interfaces.{name_len}
use cs.Router.Routes.{append_route, entry, sr_add_rt_entry}
use cs.Router.Table.{
  Fields, Library, assign, cleared_once, addresses, add_entry, load_lines, sr_load_rt,
}

-- The fields of a line: four, each short enough for its array.
pub record HasFields (c : Library) (line : List ℕ) (f : Fields) : Type 0 where
  pub scanned : c.scan line ≡ f.dest ∷ f.gw ∷ f.mask ∷ f.iface ∷ []
  pub dest_fits : length f.dest < 32
  pub gw_fits : length f.gw < 32
  pub mask_fits : length f.mask < 32
  pub iface_fits : length f.iface < 32

-- A line that describes the route `r`, with three readable addresses.
pub record IsEntry (c : Library) (line : List ℕ) (f : Fields) (r : Rt) : Type 0 where
  pub fields : HasFields c line f
  pub dest_of : c.aton f.dest ≡ some r.dest
  pub gw_of : c.aton f.gw ≡ some r.gw
  pub mask_of : c.aton f.mask ≡ some r.mask
  pub name_of : r.interface ≡ take name_len f.iface

-- Lines that describe the given routes, one by one.
pub data Entries (c : Library) : List (List ℕ) → List Rt → Type 0 where
  no_entries : Entries c [] []
  entry_added :
      {lines : List (List ℕ)} {rs : List Rt} (line : List ℕ) (f : Fields) (r : Rt)
      → IsEntry c line f r
      → Entries c lines rs
      → Entries c (line ∷ lines) (r ∷ rs)

-- A line one of whose addresses cannot be read.
pub record IsBad (c : Library) (line : List ℕ) (f : Fields) : Type 0 where
  pub fields : HasFields c line f
  pub unread : addresses c f ≡ none

append_route_lem : (r : Rt) (l : List Rt) → append_route r l ≡ l ++ (r ∷ [])
unfolding append_route
append_route_lem r [] = refl
append_route_lem r (w ∷ ws) = ap (λ l. w ∷ l) (append_route_lem r ws)

assign_lem :
    (c : Library) (line : List ℕ) (f g : Fields)
    → HasFields c line f
    → assign g (c.scan line) ≡ done f
unfolding ◌>>=◌ ◌>>◌
assign_lem c line f g h = rw (
  h.scanned,
  lt→ltb (length f.dest) 32 h.dest_fits,
  lt→ltb (length f.gw) 32 h.gw_fits,
  lt→ltb (length f.mask) 32 h.mask_fits,
  lt→ltb (length f.iface) 32 h.iface_fits,
)

addresses_lem :
    (c : Library) (line : List ℕ) (f : Fields) (r : Rt)
    → IsEntry c line f r
    → addresses c f ≡ some (r.dest, r.gw, r.mask)
addresses_lem c line f r h = rw (h.dest_of, h.gw_of, h.mask_of)

same_route :
    (f : Fields) (r : Rt)
    → r.interface ≡ take name_len f.iface
    → entry r.dest r.gw r.mask f.iface ≡ r
same_route f r e = ap (λ (n : List ℕ). record r { interface = n }) (sym e)

add_entry_lem :
    (c : Library) (line : List ℕ) (f : Fields) (r : Rt) (loaded : Bool) (sr : Instance)
    → IsEntry c line f r
    → add_entry loaded sr f (r.dest, r.gw, r.mask)
      ≡ record sr { routing_table = (cleared_once loaded sr).routing_table ++ (r ∷ []) }
unfolding sr_add_rt_entry
add_entry_lem c line f r false sr h =
    ap (λ (l : List Rt). record sr { routing_table = l })
      (append_route_lem (entry r.dest r.gw r.mask f.iface) []
        ∙ ap (λ q. q ∷ []) (same_route f r h.name_of))
add_entry_lem c line f r true sr h =
    ap (λ (l : List Rt). record sr { routing_table = l })
      (append_route_lem (entry r.dest r.gw r.mask f.iface) sr.routing_table
        ∙ ap (λ q. sr.routing_table ++ (q ∷ [])) (same_route f r h.name_of))

step :
    (c : Library) (line : List ℕ) (f g : Fields) (r : Rt) (loaded : Bool) (sr : Instance)
    (rest : List (List ℕ))
    → IsEntry c line f r
    → load_lines c loaded sr g (line ∷ rest)
      ≡ load_lines c true
          (record sr { routing_table = (cleared_once loaded sr).routing_table ++ (r ∷ []) })
          f
          rest
unfolding load_lines ◌>>=◌
step c line f g r loaded sr rest h = rw (
  assign_lem c line f g h.fields,
  addresses_lem c line f r h,
  add_entry_lem c line f r loaded sr h,
)

bad_line :
    (c : Library) (line : List ℕ) (f g : Fields) (loaded : Bool) (sr : Instance)
    (rest : List (List ℕ))
    → IsBad c line f
    → load_lines c loaded sr g (line ∷ rest) ≡ done (sr, false)
unfolding load_lines ◌>>=◌
bad_line c line f g loaded sr rest h = rw (assign_lem c line f g h.fields, h.unread)

-- What the table holds after the lines for `rs`: the old routes go once there is a new one.
abbrev pub replaced : List Rt → List Rt → List Rt
replaced old [] = old
replaced old (r ∷ rs) = r ∷ rs

last_fields :
    {c : Library} {lines : List (List ℕ)} {rs : List Rt} → Entries c lines rs → Fields → Fields
last_fields no_entries g = g
last_fields (entry_added line f r h p) g = last_fields p f

load_rest :
    (c : Library) (sr : Instance) (g : Fields) {lines : List (List ℕ)} {rs : List Rt}
    (rest : List (List ℕ))
    → (p : Entries c lines rs)
    → load_lines c true sr g (lines ++ rest)
      ≡ load_lines c true
          (record sr { routing_table = sr.routing_table ++ rs })
          (last_fields p g)
          rest
unfolding last_fields
load_rest c sr g rest no_entries =
    ap (λ (l : List Rt). load_lines c true (record sr { routing_table = l }) g rest)
      (sym (append-nil sr.routing_table))
load_rest c sr g {lines} {rs} rest (entry_added {lines = ls} {rs = qs} line f r h p) =
    step c line f g r true sr (ls ++ rest) h
    ∙ load_rest c (record sr { routing_table = sr.routing_table ++ (r ∷ []) }) f rest p
    ∙ ap
        (λ (l : List Rt).
          load_lines c true (record sr { routing_table = l }) (last_fields p f) rest)
        (append_assoc sr.routing_table (r ∷ []) qs)

-- A file of routes, and the same with a line behind them whose addresses cannot be read. The table then holds
-- the file's routes in their order and no others, with the second file those in front of the broken line. Only
-- the first file counts as loaded. A file with no route leaves the table as it was.
pub sr_load_rt-Entries :
    (c : Library) (junk f : Fields) (sr : Instance) {lines : List (List ℕ)} {rs : List Rt}
    (line : List ℕ) (rest : List (List ℕ))
    → Entries c lines rs
    → IsBad c line f
    → (sr_load_rt c junk sr (some lines)
        ≡ done (record sr { routing_table = replaced sr.routing_table rs }, true))
      × (sr_load_rt c junk sr (some (lines ++ (line ∷ rest)))
          ≡ done (record sr { routing_table = replaced sr.routing_table rs }, false))
unfolding sr_load_rt load_lines
sr_load_rt-Entries c junk f sr line rest no_entries bad =
    (refl, bad_line c line f junk false sr rest bad)
sr_load_rt-Entries c junk f sr line rest (entry_added {lines = ls} {rs = qs} first g r h p) bad =
    let one = record sr { routing_table = r ∷ [] } in
    let whole = record sr { routing_table = r ∷ qs } in
    (
      ap (λ l. load_lines c false sr junk (first ∷ l)) (sym (append-nil ls))
          ∙ step c first g junk r false sr (ls ++ []) h
          ∙ load_rest c one g [] p,
      step c first g junk r false sr (ls ++ (line ∷ rest)) h
          ∙ load_rest c one g (line ∷ rest) p
          ∙ bad_line c line f (last_fields p g) true whole rest bad,
    )

blank_line :
    (c : Library) (line : List ℕ) (f : Fields) (r : Rt) (blank : List ℕ) (sr : Instance)
    → IsEntry c line f r
    → c.scan blank ≡ []
    → load_lines c true sr f (blank ∷ [])
      ≡ done (record sr { routing_table = sr.routing_table ++ (r ∷ []) }, true)
unfolding load_lines ◌>>=◌
blank_line c line f r blank sr h e =
    rw (e, addresses_lem c line f r h, add_entry_lem c line f r true sr h)

-- A line with no fields, such as an empty one, behind a route adds the route before it once more.
pub sr_load_rt-blank :
    (c : Library) (junk f : Fields) (sr : Instance) {lines : List (List ℕ)} {rs : List Rt} (r : Rt)
    (line blank : List ℕ)
    → Entries c lines rs
    → IsEntry c line f r
    → c.scan blank ≡ []
    → sr_load_rt c junk sr (some (lines ++ (line ∷ blank ∷ [])))
      ≡ done (record sr { routing_table = rs ++ (r ∷ r ∷ []) }, true)
unfolding sr_load_rt
sr_load_rt-blank c junk f sr r line blank no_entries h e =
    step c line f junk r false sr (blank ∷ []) h
    ∙ blank_line c line f r blank (record sr { routing_table = r ∷ [] }) h e
sr_load_rt-blank c junk f sr r line blank (entry_added {lines = ls} {rs = qs} first g q k p) h e =
    let one = record sr { routing_table = q ∷ [] } in
    let most = record sr { routing_table = q ∷ qs } in
    step c first g junk q false sr (ls ++ (line ∷ blank ∷ [])) k
    ∙ load_rest c one g (line ∷ blank ∷ []) p
    ∙ step c line f (last_fields p g) r true most (blank ∷ []) h
    ∙ blank_line c line f r blank (record sr { routing_table = q ∷ (qs ++ (r ∷ [])) }) h e
    ∙ ap (λ (l : List Rt). done (record sr { routing_table = l }, true))
        (append_assoc (q ∷ qs) (r ∷ []) (r ∷ []))
