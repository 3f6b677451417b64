-- ===== src/Ctcp/Linked/Examples.antt =====
-- Two lists on one heap: at 1 the nodes at 10 and 20, and at 2 the node at 30.
use cs.Base.{ℕ, ◌≡◌, ◌==◌, if◌then◌else◌, none, some, Option, done, [], ◌∷◌, arith, refl}
use cs.Ctcp.Linked.{Node, node, LinkedList, Store, ll_add, ll_remove}
use cs.Ctcp.Linked.Cells.{Cells}
use cs.Ctcp.Linked.Shape.{Represents}
use cs.Ctcp.Linked.Others.{ll_add-both, ll_remove-both}

abbrev nodes : ℕ → Option Node
nodes a =
    if a == 10
    then some (node 20 0 7)
    else if a == 20
    then some (node 0 10 8)
    else if a == 30
    then some (node 0 0 9)
    else none

abbrev lists : ℕ → Option LinkedList
lists a =
    if a == 1
    then some (record { head = 10; tail = 20; length = 2 })
    else if a == 2
    then some (record { head = 30; tail = 30; length = 1 })
    else none

abbrev store : Store
store = record { nodes = nodes; lists = lists }

abbrev two_cells : Cells
two_cells = (10, 7) ∷ (20, 8) ∷ []

abbrev one_cell : Cells
one_cell = (30, 9) ∷ []

two_cells-Represents : Represents store 1 two_cells
two_cells-Represents = record {
  ne_null = omega arith;
  head_at = refl;
  links = (omega arith, refl, refl, (omega arith, refl, refl, tt));
}

one_cell-Represents : Represents store 2 one_cell
one_cell-Represents = record {
  ne_null = omega arith;
  head_at = refl;
  links = (omega arith, refl, refl, tt);
}

ll_add-both_example :
    (t : Store) × (ll_add 1 5 40 store ≡ done (40, t))
    × Represents t 1 ((10, 7) ∷ (20, 8) ∷ (40, 5) ∷ [])
    × Represents t 2 one_cell
ll_add-both_example =
    ll_add-both store 1 2 one_cell (omega arith) one_cell-Represents 5 40 two_cells
      two_cells-Represents (refl, tt) (omega arith) (omega arith) refl

ll_remove-both_example :
    (t : Store) × (ll_remove 1 10 store ≡ done (7, t))
    × Represents t 1 ((20, 8) ∷ [])
    × Represents t 2 one_cell
    × (t.nodes 10 ≡ none)
ll_remove-both_example =
    ll_remove-both store 1 2 one_cell (omega arith) one_cell-Represents 10 7 [] ((20, 8) ∷ [])
      two_cells-Represents (refl, tt)
