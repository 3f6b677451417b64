-- ===== src/Ctcp/Sys/Connections/Chain.antt =====
-- What a chain of connections in memory stands for, and what the operations on a single one do to it.
use cs.Base.{
  ℕ, ◌≡◌, ◌≢◌, refl, sym, ◌∙◌, Bool, true, false, ◌||◌, ◌==◌, List, [], ◌∷◌, Option, none, some,
  done, ◌>>=◌, arith,
}
use cs.Ctcp.Sys.Connections.{
  Prev, local_variable, next_of, Cell, Cells, set, cell, relink_prev, conn_add, store_next,
  conn_free,
}

-- Connections in the order of the list: where each lies, and whether it is to be deleted.
abbrev pub Marks : Type 0
Marks = List (ℕ × Bool)

abbrev pub first : Marks → ℕ
first [] = 0
first ((a, d) ∷ l) = a

abbrev pub has : ℕ → Marks → Bool
has x [] = false
has x ((a, d) ∷ l) = (x == a) || has x l

-- The chain from a connection on, given what its `prev` holds.
abbrev pub Chain : Cells → Prev → Marks → Type 0
Chain h prev [] = Unit
Chain h prev ((a, d) ∷ l) =
    (a ≢ 0)
    × (h a ≡ some (record { next = first l; prev = prev; delete_me = d }))
    × (has a l ≡ false)
    × Chain h (next_of a) l

pub set_here : (h : Cells) (a : ℕ) (c : Option Cell) → set h a c a ≡ c
set_here h a c = ground arith

pub set_other : (h : Cells) (a : ℕ) (c : Option Cell) (x : ℕ) → x ≢ a → set h a c x ≡ h x
set_other h a c x e = ground arith

pub Chain-same :
    (h h' : Cells) (prev : Prev) (l : Marks)
    → ((x : ℕ) → has x l ≡ true → h' x ≡ h x)
    → Chain h prev l
    → Chain h' prev l
Chain-same h h' prev [] s c = tt
Chain-same h h' prev ((a, d) ∷ l) s (pos, here, out, c) = (
  pos,
  s a (ground arith) ∙ here,
  out,
  Chain-same h h' (next_of a) l (λ x k. s x (ground (arith, k))) c,
)

pub cell-at : (h : Cells) (a : ℕ) {c : Cell} → a ≢ 0 → h a ≡ some c → cell h a ≡ done c
cell-at h a {c} pos e = let out : (a == 0) ≡ false = ground arith in rw (out, e) refl

pub out_cons :
    (x a : ℕ) (d : Bool) (l : Marks) → has x ((a, d) ∷ l) ≡ false → (x ≢ a) × (has x l ≡ false)
out_cons x a d l out = (ground arith, ground arith)

-- What lies outside of a chain differs from every address in it.
pub outside : (x y : ℕ) (l : Marks) → has x l ≡ false → has y l ≡ true → y ≢ x
outside x y l out inside e = cc

-- A connection that is not the first is taken out: the one in front of it is linked to those behind it.
pub conn_free-Chain :
    (h : Cells) (head : ℕ) (prev : Prev) (p : ℕ) (dp : Bool) (a : ℕ) (d : Bool) (l : Marks)
    → a ≢ head
    → Chain h prev ((p, dp) ∷ (a, d) ∷ l)
    → (h' : Cells) × (conn_free (record { head = head; cells = h }) a
        ≡ done (record { head = head; cells = h' }))
      × Chain h' prev ((p, dp) ∷ l)
      × ((x : ℕ) → has x ((p, dp) ∷ (a, d) ∷ l) ≡ false → h' x ≡ h x)
unfolding conn_free relink_prev store_next ◌>>=◌
conn_free-Chain h head prev p dp a d [] other (ppos, phere, pout, (apos, ahere, aout, c)) =
    let other' : (a == head) ≡ false = ground arith in
    let (apart, _) = out_cons p a d [] pout in
    let h1 = set h p (some (record { next = 0; prev = prev; delete_me = dp })) in
    let h2 = set h1 a none in
    (
      h2,
      rw (cell-at h a apos ahere, cell-at h p ppos phere, other') refl,
      (ppos, set_other h1 a none p apart ∙ set_here h p _, refl, tt),
      λ x out.
          let (np, rest) = out_cons x p dp ((a, d) ∷ []) out in
          let (na, _) = out_cons x a d [] rest in set_other h1 a none x na ∙ set_other h p _ x np,
    )
conn_free-Chain h head prev p dp a d ((b, e) ∷ l) other
      (ppos, phere, pout, (apos, ahere, aout, (bpos, bhere, bout, c))) =
    let other' : (a == head) ≡ false = ground arith in
    let behind : (b == 0) ≡ false = ground arith in
    let (pa, prest) = out_cons p a d ((b, e) ∷ l) pout in
    let (pb, pl) = out_cons p b e l prest in
    let (ab, al) = out_cons a b e l aout in
    let h0 = set h b (some (record { next = first l; prev = next_of p; delete_me = e })) in
    let h1 = set h0 p (some (record { next = b; prev = prev; delete_me = dp })) in
    let h2 = set h1 a none in
    let phere' : h0 p ≡ some (record { next = a; prev = prev; delete_me = dp }) =
      set_other h b _ p pb ∙ phere in
    (
      h2,
      rw (cell-at h a apos ahere, behind, bhere, cell-at h0 p ppos phere', other') refl,
      (
        ppos,
        set_other h1 a none p pa ∙ set_here h0 p _,
        ground arith,
        (
          bpos,
          set_other h1 a none b (λ q. ab (sym q))
              ∙ set_other h0 p _ b (λ q. pb (sym q))
              ∙ set_here h b _,
          bout,
          Chain-same h h2 (next_of b) l
              (λ x inside.
                set_other h1 a none x (outside a x l al inside)
                ∙ set_other h0 p _ x (outside p x l pl inside)
                ∙ set_other h b _ x (outside b x l bout inside))
              c,
        ),
      ),
      λ x out.
          let (np, rest) = out_cons x p dp ((a, d) ∷ (b, e) ∷ l) out in
          let (na, rest') = out_cons x a d ((b, e) ∷ l) rest in
          let (nb, _) = out_cons x b e l rest' in
          set_other h1 a none x na ∙ set_other h0 p _ x np ∙ set_other h b _ x nb,
    )

-- A new connection becomes the first of the list, in front of those that were there.
pub conn_add-Chain :
    (h : Cells) (prev : Prev) (a : ℕ) (c : Cell) (l : Marks)
    → a ≢ 0
    → has a l ≡ false
    → h a ≡ some c
    → Chain h prev l
    → (h' : Cells) × (conn_add (record { head = first l; cells = h }) a
        ≡ done (record { head = a; cells = h' }))
      × Chain h' local_variable ((a, c.delete_me) ∷ l)
unfolding conn_add relink_prev ◌>>=◌
conn_add-Chain h prev a c [] pos out here chain =
    let new : (a == 0) ≡ false = ground arith in
    (
      set h a (some (record c { prev = local_variable; next = 0 })),
      rw (new, here) refl,
      (pos, set_here h a _, refl, tt),
    )
conn_add-Chain h prev a c ((b, e) ∷ l) pos out here (bpos, bhere, bout, chain) =
    let (ab, al) = out_cons a b e l out in
    let new : (a == b) ≡ false = ground arith in
    let old : (b == 0) ≡ false = ground arith in
    let h1 = set h a (some (record c { prev = local_variable; next = b })) in
    let h2 = set h1 b (some (record { next = first l; prev = next_of a; delete_me = e })) in
    let bhere' : h1 b ≡ some (record { next = first l; prev = prev; delete_me = e }) =
      set_other h a _ b (λ q. ab (sym q)) ∙ bhere in
    (
      h2,
      rw (new, cell-at h a pos here, old, bhere') refl,
      (
        pos,
        set_other h1 b _ a ab ∙ set_here h a _,
        out,
        (
          bpos,
          set_here h1 b _,
          bout,
          Chain-same h h2 (next_of b) l
              (λ x inside.
                set_other h1 b _ x (outside b x l bout inside)
                ∙ set_other h a _ x (outside a x l al inside))
              chain,
        ),
      ),
    )
