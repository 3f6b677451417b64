-- ===== src/Ctcp/Linked/Links.antt =====
-- The pointers of the nodes of ctcp_linked_list.c, and how a write to one node changes them.
use cs.Base.{ℕ, ◌≡◌, ◌≢◌, refl, none, some, [], ◌∷◌, ◌++◌, arith, Option}
use cs.Ctcp.Linked.{Node, node, null, write}
use cs.Ctcp.Linked.Cells.{Cells, ◌∉◌, first, last, first-append, has-append}

pub write_self : {A : Type 0} (h : ℕ → Option A) (p : ℕ) (c : Option A) → write h p c p ≡ c
unfolding write
write_self h p c = ground arith

pub write_other :
    {A : Type 0} (h : ℕ → Option A) (p : ℕ) (c : Option A) (a : ℕ) → a ≢ p → write h p c a ≡ h a
unfolding write
write_other h p c a e = ground arith

-- From `start` to `stop` each cell's node points to its neighbours, and no address comes twice.
abbrev pub Links : (ℕ → Option Node) → ℕ → Cells → ℕ → Type 0
Links h start [] stop = Unit
Links h start ((p, v) ∷ xs) stop =
    (p ≢ null) × (h p ≡ some (node (first xs stop) start v)) × (p ∉ xs) × Links h p xs stop

-- Two heaps agree at the addresses of the cells.
abbrev pub Agree : (ℕ → Option Node) → (ℕ → Option Node) → Cells → Type 0
Agree g h [] = Unit
Agree g h ((p, _) ∷ xs) = (g p ≡ h p) × Agree g h xs

pub Links-frame :
    (g h : ℕ → Option Node) (start : ℕ) (xs : Cells) (stop : ℕ)
    → Agree g h xs
    → Links h start xs stop
    → Links g start xs stop
Links-frame g h start [] stop a l = tt
Links-frame g h start ((p, v) ∷ xs) stop a l =
    (l.0, ground arith, l.2, Links-frame g h p xs stop a.1 l.3)

pub Agree-write :
    (h : ℕ → Option Node) (p : ℕ) (c : Option Node) (xs : Cells) → p ∉ xs → Agree (write h p c) h xs
unfolding write
Agree-write h p c [] out = tt
Agree-write h p c ((q, _) ∷ xs) out = (ground arith, Agree-write h p c xs (ground arith))

pub Links-write :
    (h : ℕ → Option Node) (p : ℕ) (c : Option Node) (start : ℕ) (xs : Cells) (stop : ℕ)
    → p ∉ xs
    → Links h start xs stop
    → Links (write h p c) start xs stop
Links-write h p c start xs stop out l = Links-frame _ h start xs stop (Agree-write h p c xs out) l

module _ (h : ℕ → Option Node) where
  -- A node that is not in use is none of the cells.
  pub Links-fresh :
      (start : ℕ) (xs : Cells) (stop a : ℕ) → h a ≡ none → Links h start xs stop → a ∉ xs
  Links-fresh start [] stop a e l = refl
  Links-fresh start ((p, v) ∷ xs) stop a e l = ground (arith, Links-fresh p xs stop a e l.3)

  pub Links-at :
      (start : ℕ) (xs : Cells) (p v : ℕ) (ys : Cells) (stop : ℕ)
      → Links h start (xs ++ (p, v) ∷ ys) stop
      → (p ≢ null) × (h p ≡ some (node (first ys stop) (last xs start) v)) × (p ∉ xs) × (p ∉ ys)
  Links-at start [] p v ys stop l = (l.0, l.1, refl, l.2)
  Links-at start ((q, u) ∷ xs) p v ys stop l =
      let r = Links-at q xs p v ys stop l.3 in
      (r.0, r.1, ground (arith, has-append q xs ((p, v) ∷ ys)), r.3)

  pub Links-split :
      (start : ℕ) (xs ys : Cells) (stop : ℕ)
      → Links h start (xs ++ ys) stop
      → Links h start xs (first ys stop) × Links h (last xs start) ys stop
  Links-split start [] ys stop l = (tt, l)
  Links-split start ((p, v) ∷ xs) ys stop l =
      let r = Links-split p xs ys stop l.3 in
      ((l.0, rw (← first-append xs ys stop) l.1, ground (arith, has-append p xs ys), r.0), r.1)

-- No address of the one is among the other.
abbrev pub Apart : Cells → Cells → Type 0
Apart [] ys = Unit
Apart ((p, _) ∷ xs) ys = (p ∉ ys) × Apart xs ys

pub Apart-append :
    (h : ℕ → Option Node) (start : ℕ) (xs ys : Cells) (stop : ℕ)
    → Links h start (xs ++ ys) stop
    → Apart xs ys
Apart-append h start [] ys stop l = tt
Apart-append h start ((p, v) ∷ xs) ys stop l =
    (ground (arith, has-append p xs ys), Apart-append h p xs ys stop l.3)

pub Links-join :
    (h : ℕ → Option Node) (start : ℕ) (xs ys : Cells) (stop : ℕ)
    → Apart xs ys
    → Links h start xs (first ys stop)
    → Links h (last xs start) ys stop
    → Links h start (xs ++ ys) stop
Links-join h start [] ys stop d l k = k
Links-join h start ((p, v) ∷ xs) ys stop d l k = (
  l.0,
  rw (first-append xs ys stop) l.1,
  ground (arith, has-append p xs ys),
  Links-join h p xs ys stop d.1 l.3 k,
)

-- `last->next = r`.
pub Links-set_next :
    (h : ℕ → Option Node) (start : ℕ) (xs : Cells) (p v s r : ℕ)
    → Links h start (xs ++ (p, v) ∷ []) s
    → Links (write h p (some (node r (last xs start) v))) start (xs ++ (p, v) ∷ []) r
unfolding write
Links-set_next h start [] p v s r l = (l.0, ground arith, refl, tt)
Links-set_next h start ((q, u) ∷ xs) p v s r l = (
  l.0,
  ground (
    arith,
    has-append q xs ((p, v) ∷ []),
    first-append xs ((p, v) ∷ []) s,
    first-append xs ((p, v) ∷ []) r,
  ),
  l.2,
  Links-set_next h q xs p v s r l.3,
)

-- `first->prev = r`.
pub Links-set_prev :
    (h : ℕ → Option Node) (start p v : ℕ) (xs : Cells) (stop r : ℕ)
    → Links h start ((p, v) ∷ xs) stop
    → Links (write h p (some (node (first xs stop) r v))) r ((p, v) ∷ xs) stop
Links-set_prev h start p v xs stop r l =
    (l.0, unfold write in ground arith, l.2, Links-write h p _ p xs stop l.2 l.3)

pub Apart-nil : (xs : Cells) → Apart xs []
Apart-nil [] = tt
Apart-nil (x ∷ xs) = (refl, Apart-nil xs)

pub Apart-cons : (p o : ℕ) (xs ys : Cells) → p ∉ xs → Apart xs ys → Apart xs ((p, o) ∷ ys)
Apart-cons p o [] ys out d = tt
Apart-cons p o ((q, _) ∷ xs) ys out d = (ground arith, Apart-cons p o xs ys (ground arith) d.1)

pub Apart-uncons : (p o : ℕ) (xs ys : Cells) → Apart xs ((p, o) ∷ ys) → Apart xs ys
Apart-uncons p o [] ys d = tt
Apart-uncons p o ((q, _) ∷ xs) ys d = (ground arith, Apart-uncons p o xs ys d.1)

pub Apart-symm : (xs ys : Cells) → Apart xs ys → Apart ys xs
Apart-symm [] ys d = Apart-nil ys
Apart-symm ((p, o) ∷ xs) ys d = Apart-cons p o ys xs d.0 (Apart-symm xs ys d.1)

-- A change outside cells apart from these.
pub Agree-Apart :
    (g h : ℕ → Option Node) (xs ys : Cells)
    → ((a : ℕ) → a ∉ ys → g a ≡ h a)
    → Apart xs ys
    → Agree g h xs
Agree-Apart g h [] ys k d = tt
Agree-Apart g h ((p, _) ∷ xs) ys k d = (k p d.0, Agree-Apart g h xs ys k d.1)

pub Apart-one : (p o : ℕ) (xs : Cells) → p ∉ xs → Apart xs ((p, o) ∷ [])
Apart-one p o [] out = tt
Apart-one p o ((q, _) ∷ xs) out = (ground arith, Apart-one p o xs (ground arith))

pub first-ne_null :
    (h : ℕ → Option Node) (xs : Cells) (q u : ℕ)
    → Links h null (xs ++ (q, u) ∷ []) null
    → first (xs ++ (q, u) ∷ []) null ≢ null
first-ne_null h [] q u k = k.0
first-ne_null h (x ∷ xs) q u k = k.0
