-- ===== src/Ctcp/Linked/Cells.antt =====
-- What a list of ctcp_linked_list.c stands for: the address and the object of each node, in order.
use cs.Base.{
  ◌≢◌, ℕ, ◌≡◌, refl, Bool, true, false, ◌||◌, ◌⊎◌, inl, inr, List, [], ◌∷◌, ◌++◌, arith, ◌==◌, ap,
}

abbrev pub Cells : Type 0
Cells = List (ℕ × ℕ)

abbrev pub has : ℕ → Cells → Bool
has a [] = false
has a ((p, _) ∷ xs) = (a == p) || has a xs

infix 40 ◌∈◌ ◌∉◌
abbrev pub ◌∈◌ : ℕ → Cells → Type 0
a ∈ xs = has a xs ≡ true

abbrev pub ◌∉◌ : ℕ → Cells → Type 0
a ∉ xs = has a xs ≡ false

-- The address of the first node, and of the last; `stop` and `start` where there is none.
abbrev pub first : Cells → ℕ → ℕ
first [] stop = stop
first ((p, _) ∷ xs) stop = p

abbrev pub last : Cells → ℕ → ℕ
last [] start = start
last ((p, _) ∷ xs) start = last xs p

pub first-append : (xs ys : Cells) (stop : ℕ) → first (xs ++ ys) stop ≡ first xs (first ys stop)
first-append [] ys stop = refl
first-append (x ∷ xs) ys stop = refl

pub last-append : (xs ys : Cells) (start : ℕ) → last (xs ++ ys) start ≡ last ys (last xs start)
last-append [] ys start = refl
last-append ((p, _) ∷ xs) ys start = last-append xs ys p

pub has-append : (a : ℕ) (xs ys : Cells) → has a (xs ++ ys) ≡ (has a xs || has a ys)
has-append a [] ys = refl
has-append a ((p, _) ∷ xs) ys = ground (arith, has-append a xs ys)

-- The node at the end, taken off.
pub snoc-cases : (xs : Cells) → (xs ≡ []) ⊎ ((ys : Cells) × (c : ℕ × ℕ) × (xs ≡ ys ++ c ∷ []))
snoc-cases [] = inl refl
snoc-cases (x ∷ xs) = elim (snoc-cases xs) [
  | inl e ↦ inr ([], x, ap (λ zs. x ∷ zs) e)
  | inr (ys, c, e) ↦ inr (x ∷ ys, c, ap (λ zs. x ∷ zs) e)
]

pub ne_test : (a b : ℕ) → a ≢ b → (a == b) ≡ false
ne_test a b h = ground arith

pub not-mem_uncons : (a q u : ℕ) (xs : Cells) → a ∉ ((q, u) ∷ xs) → (a ≢ q) × (a ∉ xs)
not-mem_uncons a q u xs out = (ground arith, ground arith)

pub not-mem_parts :
    (a p v : ℕ) (xs ys : Cells) → a ∉ (xs ++ (p, v) ∷ ys) → (a ∉ xs) × (a ≢ p) × (a ∉ ys)
not-mem_parts a p v xs ys out =
    let e = has-append a xs ((p, v) ∷ ys) in (ground arith, ground arith, ground arith)

pub last-ne : (q u : ℕ) (xs : Cells) (p : ℕ) → p ∉ ((q, u) ∷ xs) → p ≢ last xs q
last-ne q u [] p out = ground arith
last-ne q u ((a, b) ∷ xs) p out = last-ne a b xs p (ground arith)

pub first-more :
    (xs : Cells) (c : ℕ × ℕ) (ys : Cells) (a : ℕ)
    → first ((xs ++ c ∷ []) ++ ys) a ≡ first (xs ++ c ∷ []) a
first-more [] c ys a = refl
first-more (x ∷ xs) c ys a = refl
