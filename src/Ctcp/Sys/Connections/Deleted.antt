-- ===== src/Ctcp/Sys/Connections/Deleted.antt =====
-- Which connections `delete_all_connections` leaves.
use cs.Base.{
  ℕ, zero, suc, ◌+◌, ◌<◌, ◌≡◌, refl, sym, ◌∙◌, Bool, true, false, ◌==◌, [], ◌∷◌, length, some, done,
  fault, ◌>>=◌, arith,
}
use cs.Ctcp.Sys.Connections.{
  Prev, local_variable, next_of, Cells, relink_prev, store_next, conn_free, delete_loop,
  delete_all_connections,
}
use cs.Ctcp.Sys.Connections.Chain.{Marks, first, has, Chain, out_cons, conn_free-Chain}

-- The connections that are not to be deleted, in their order.
abbrev pub keep : Marks → Marks
keep [] = []
keep ((a, true) ∷ l) = keep l
keep ((a, false) ∷ l) = (a, false) ∷ keep l

has-keep : (x : ℕ) (l : Marks) → has x l ≡ false → has x (keep l) ≡ false
has-keep x [] out = refl
has-keep x ((a, true) ∷ l) out = has-keep x l (out_cons x a true l out).1
has-keep x ((a, false) ∷ l) out = ground (arith, has-keep x l (out_cons x a false l out).1)

-- The loop behind a connection that stays.
delete_loop-Chain :
    (n : ℕ) (h : Cells) (head : ℕ) (prev : Prev) (p : ℕ) (dp : Bool) (l : Marks)
    → length l < n
    → has head l ≡ false
    → Chain h prev ((p, dp) ∷ l)
    → (h' : Cells) × (delete_loop n (record { head = head; cells = h }) (first l)
        ≡ done (some (record { head = head; cells = h' })))
      × Chain h' prev ((p, dp) ∷ keep l)
      × ((x : ℕ) → has x ((p, dp) ∷ l) ≡ false → h' x ≡ h x)
unfolding delete_loop ◌>>=◌
delete_loop-Chain zero h head prev p dp l enough out c = absurd (omega arith)
delete_loop-Chain (suc n) h head prev p dp [] enough out c = (h, refl, c, λ x o. refl)
delete_loop-Chain (suc n) h head prev p dp ((a, true) ∷ l) enough out
      (ppos, phere, pout, (apos, ahere, aout, c)) =
    let (other, rest) = out_cons head a true l out in
    let goes : (a == 0) ≡ false = ground arith in
    let (h1, freed, c1, f1) =
      conn_free-Chain h head prev p dp a true l (λ e. other (sym e))
        (ppos, phere, pout, (apos, ahere, aout, c)) in
    let (h2, looped, c2, f2) = delete_loop-Chain n h1 head prev p dp l (omega arith) rest c1 in
    (
      h2,
      rw (goes, ahere, freed, looped) refl,
      c2,
      λ x o.
          let (np, o') = out_cons x p dp ((a, true) ∷ l) o in
          f2 x (ground (arith, (out_cons x a true l o').1)) ∙ f1 x o,
    )
delete_loop-Chain (suc n) h head prev p dp ((a, false) ∷ l) enough out
      (ppos, phere, pout, (apos, ahere, aout, c)) =
    let (other, rest) = out_cons head a false l out in
    let goes : (a == 0) ≡ false = ground arith in
    let (h1, looped, c1, f1) =
      delete_loop-Chain n h head (next_of p) a false l (omega arith) rest (apos, ahere, aout, c) in
    (
      h1,
      rw (goes, ahere, looped) refl,
      (ppos, f1 p pout ∙ phere, has-keep p ((a, false) ∷ l) pout, c1),
      λ x o. f1 x (out_cons x p dp ((a, false) ∷ l) o).1,
    )

-- When the first connection is to stay, `delete_all_connections` comes to its end and leaves exactly the connections
-- that were not to be deleted, in their order and linked both ways. One turn of the loop for each connection and one more is enough.
pub delete_all_connections-Chain :
    (n : ℕ) (h : Cells) (prev : Prev) (a : ℕ) (l : Marks)
    → length l + 1 < n
    → Chain h prev ((a, false) ∷ l)
    → (h' : Cells) × (delete_all_connections n (record { head = a; cells = h })
        ≡ done (some (record { head = a; cells = h' })))
      × Chain h' prev (keep ((a, false) ∷ l))
unfolding delete_all_connections delete_loop ◌>>=◌
delete_all_connections-Chain zero h prev a l enough c = absurd (omega arith)
delete_all_connections-Chain (suc n) h prev a l enough (pos, here, out, c) =
    let goes : (a == 0) ≡ false = ground arith in
    let (h', looped, c', f) =
      delete_loop-Chain n h a prev a false l (omega arith) out (pos, here, out, c) in
    (h', rw (goes, here, looped) refl, c')

-- When the first connection, which `conn_add` has put there, is to be deleted, `delete_all_connections` is undefined
-- behaviour: it stores through the address of a local variable of a call that has returned.
pub delete_all_connections-first :
    (n : ℕ) (h : Cells) (a : ℕ) (l : Marks)
    → 0 < n
    → Chain h local_variable ((a, true) ∷ l)
    → delete_all_connections n (record { head = a; cells = h }) ≡ fault
unfolding delete_all_connections delete_loop conn_free store_next relink_prev ◌>>=◌
delete_all_connections-first zero h a l some_fuel c = absurd (omega arith)
delete_all_connections-first (suc n) h a [] some_fuel (pos, here, out, c) =
    let goes : (a == 0) ≡ false = ground arith in rw (goes, here) refl
delete_all_connections-first (suc n) h a ((b, e) ∷ l) some_fuel
      (pos, here, out, (bpos, bhere, bout, c)) =
    let goes : (a == 0) ≡ false = ground arith in
    let behind : (b == 0) ≡ false = ground arith in rw (goes, here, behind, bhere) refl
