-- ===== src/Ctcp/Sys/Connections/Examples.antt =====
-- A server with three connections, of which the last but one, or the last, is to be deleted.
use cs.Base.{
  ◌≡◌, refl, Bool, true, false, ◌==◌, if◌then◌else◌, [], ◌∷◌, some, none, done, fault, arith,
}
use cs.Ctcp.Sys.Connections.{local_variable, next_of, Cells, delete_all_connections}
use cs.Ctcp.Sys.Connections.Chain.{Chain}
use cs.Ctcp.Sys.Connections.Deleted.{delete_all_connections-Chain, delete_all_connections-first}

-- Connections at 1, 2 and 3, in this order.
abbrev three : Bool → Bool → Cells
three newest middle a =
    if a == 1
    then some (record { next = 2; prev = local_variable; delete_me = newest })
    else if a == 2
    then some (record { next = 3; prev = next_of 1; delete_me = middle })
    else if a == 3
    then some (record { next = 0; prev = next_of 2; delete_me = false })
    else none

three-Chain :
    (newest middle : Bool)
    → Chain (three newest middle) local_variable ((1, newest) ∷ (2, middle) ∷ (3, false) ∷ [])
three-Chain newest middle = (
  (λ e. absurd (omega arith)),
  refl,
  refl,
  ((λ e. absurd (omega arith)), refl, refl, ((λ e. absurd (omega arith)), refl, refl, tt)),
)

delete_all_connections-Chain_example :
    (h' : Cells) × (delete_all_connections 5 (record { head = 1; cells = three false true })
      ≡ done (some (record { head = 1; cells = h' })))
    × Chain h' local_variable ((1, false) ∷ (3, false) ∷ [])
delete_all_connections-Chain_example =
    delete_all_connections-Chain 5 (three false true) local_variable 1 ((2, true) ∷ (3, false) ∷ [])
      (omega arith) (three-Chain false true)

delete_all_connections-first_example :
    delete_all_connections 5 (record { head = 1; cells = three true false }) ≡ fault
delete_all_connections-first_example =
    delete_all_connections-first 5 (three true false) 1 ((2, false) ∷ (3, false) ∷ []) (omega arith)
      (three-Chain true false)
