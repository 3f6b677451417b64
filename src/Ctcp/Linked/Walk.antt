-- ===== src/Ctcp/Linked/Walk.antt =====
-- The loops of ctcp_linked_list.c: `ll_find` and `ll_destroy`.
use cs.Base.{
  ◌%◌, ◌^◌, ℕ, ◌≡◌, ◌≢◌, ◌<◌, refl, none, Option, done, [], ◌∷◌, arith, length, suc, zero, ◌==◌,
  if◌then◌else◌,
}
use cs.Ctcp.Linked.{
  ll_front, ll_back, ll_length, ll_create, Node, Store, null, write, put_header, find_from, ll_find,
  free_from, ll_destroy,
}
use cs.Ctcp.Linked.Cells.{ne_test, Cells, first, last, has}
use cs.Ctcp.Linked.Links.{Links, Links-write}
use cs.Ctcp.Linked.Shape.{on-Represents, Represents, on, fields, step, header_lem}

-- The address of the first cell with the object.
abbrev pub address_of : ℕ → Cells → ℕ
address_of o [] = null
address_of o ((p, v) ∷ xs) = if v == o then p else address_of o xs

find_from_lem :
    (fuel o start : ℕ) (s : Store) (xs : Cells)
    → Links s.nodes start xs null
    → length xs < fuel
    → find_from fuel (first xs null) o s ≡ done (address_of o xs, s)
unfolding find_from
find_from_lem (suc fuel) o start s [] k b = refl
find_from_lem (suc fuel) o start s ((p, v) ∷ xs) k b =
    ground (arith, find_from_lem fuel o p s xs k.3)
find_from_lem zero o start s xs k b = elim b [ ]

-- On a list and an object that is not null, with more fuel than the list has nodes, ll_find ends, changes
-- nothing, and yields the first node with the object, or null where there is none.
pub ll_find_lem :
    (fuel l o : ℕ) (s : Store) (xs : Cells)
    → Represents s l xs
    → o ≢ null
    → length xs < fuel
    → ll_find fuel l o s ≡ done (address_of o xs, s)
unfolding ll_find
ll_find_lem fuel l o s xs r no_o b =
    rw (ne_test l null r.ne_null, ne_test o null no_o)
      (step _ (header_lem s l xs r) (find_from_lem fuel o null s xs r.links b))

-- The nodes of the cells, given back.
abbrev freed : (ℕ → Option Node) → Cells → ℕ → Option Node
freed h [] = h
freed h ((p, _) ∷ xs) = freed (write h p none) xs

free_from_lem :
    (fuel start : ℕ) (s : Store) (xs : Cells)
    → Links s.nodes start xs null
    → length xs < fuel
    → free_from fuel (first xs null) s ≡ done (tt, record s { nodes = freed s.nodes xs })
unfolding free_from
free_from_lem (suc fuel) start s [] k b = refl
free_from_lem (suc fuel) start s ((p, v) ∷ xs) k b = ground (
  arith,
  free_from_lem fuel p (record s { nodes = write s.nodes p none }) xs
      (Links-write s.nodes p none p xs null k.2 k.3),
)
free_from_lem zero start s xs k b = elim b [ ]

-- The node at an address after the loop.
freed_lem :
    (h : ℕ → Option Node) (xs : Cells) (a : ℕ) → freed h xs a ≡ (if has a xs then none else h a)
unfolding write
freed_lem h [] a = refl
freed_lem h ((p, v) ∷ xs) a = ground (arith, freed_lem (write h p none) xs a)

-- On a list, with more fuel than it has nodes, ll_destroy ends and gives back the header and every node of
-- the list: no other header or node changes.
pub ll_destroy_lem :
    (fuel l : ℕ) (s : Store) (xs : Cells)
    → Represents s l xs
    → length xs < fuel
    → (t : Store) × (ll_destroy fuel l s ≡ done (tt, t))
      × (t.lists l ≡ none)
      × ((a : ℕ) → t.nodes a ≡ (if has a xs then none else s.nodes a))
      × ((a : ℕ) → a ≢ l → t.lists a ≡ s.lists a)
unfolding ll_destroy put_header
ll_destroy_lem fuel l s xs r b = (
  record { nodes = freed s.nodes xs; lists = write s.lists l none },
  rw (ne_test l null r.ne_null)
      (step _ (header_lem s l xs r) (step _ (free_from_lem fuel null s xs r.links b) refl)),
  unfold write in ground arith,
  freed_lem s.nodes xs,
  λ a e. unfold write in ground arith,
)

-- ll_front and ll_back yield the first and the last node, and ll_length the number of nodes in 32 bits.
pub ends_lem :
    (l : ℕ) (s : Store) (xs : Cells)
    → Represents s l xs
    → (ll_front l s ≡ done (first xs null, s))
      × (ll_back l s ≡ done (last xs null, s))
      × (ll_length l s ≡ done (length xs % 2 ^ 32, s))
unfolding ll_front ll_back ll_length
ends_lem l s xs r = let e = header_lem s l xs r in (step _ e refl, step _ e refl, step _ e refl)

-- A new list is empty.
pub ll_create-Represents :
    (l : ℕ) (s : Store) → l ≢ null → (t : Store) × (ll_create l s ≡ done (l, t)) × Represents t l []
unfolding ll_create put_header
ll_create-Represents l s ne = (
  on s.lists l s.nodes (fields []),
  rw (ne_test l null ne) (step _ refl refl),
  on-Represents s.lists l s.nodes [] ne tt,
)
