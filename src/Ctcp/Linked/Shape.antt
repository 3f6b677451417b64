-- ===== src/Ctcp/Linked/Shape.antt =====
-- A list on the heap of ctcp_linked_list.c, and what each pointer step does to it.
use mathlib.Core.Path.{fun_ext}
use cs.Base.{
  ℕ, Run, sym, ◌≡◌, ◌≢◌, refl, none, some, Option, done, arith, ◌%◌, ◌^◌, ◌∙◌, ap, length,
}
use cs.Ctcp.Linked.{
  Node, node, Cmd, and_then, Store, LinkedList, null, write, load, free, store, set_next, set_prev,
  header, put_header, set_head, set_tail, set_length,
}
use cs.Ctcp.Linked.Cells.{Cells, first, last, ◌∉◌}
use cs.Ctcp.Linked.Links.{Links}

abbrev pub fields : Cells → LinkedList
fields xs = record { head = first xs null; tail = last xs null; length = length xs % 2 ^ 32 }

-- A list header, by its fields.
abbrev pub ends : ℕ → ℕ → ℕ → LinkedList
ends a b n = record { head = a; tail = b; length = n }

-- The list header at `l` and the nodes that it leads to.
pub record Represents (s : Store) (l : ℕ) (xs : Cells) : Type 0 where
  pub ne_null : l ≢ null
  pub head_at : s.lists l ≡ some (fields xs)
  pub links : Links s.nodes null xs null

-- A step leaves alone the other lists' headers, and the nodes that are none of the cells.
pub record Spares (s t : Store) (l : ℕ) (xs : Cells) : Type 0 where
  pub headers : (a : ℕ) → a ≢ l → t.lists a ≡ s.lists a
  pub others : (a : ℕ) → a ∉ xs → t.nodes a ≡ s.nodes a

write_twice :
    {A : Type 0} (h : ℕ → Option A) (p : ℕ) (c d : Option A) → write (write h p c) p d ≡ write h p d
unfolding write
write_twice h p c d = fun_ext λ a. ground arith

write_same : {A : Type 0} (h : ℕ → Option A) (p : ℕ) (c : Option A) → h p ≡ c → write h p c ≡ h
unfolding write
write_same h p c e = fun_ext λ a. ground arith

-- The store with one header and the nodes in view.
abbrev pub on : (ℕ → Option LinkedList) → ℕ → (ℕ → Option Node) → LinkedList → Store
on f l h d = record { nodes = h; lists = write f l (some d) }

pub step :
    {A B : Type 0} {m : Run (A × Store)} (k : A → Cmd B) {t : Store} {a : A} {r : Run (B × Store)}
    → m ≡ done (a, t)
    → k a t ≡ r
    → and_then m k ≡ r
unfolding and_then
step k e d = rw (e, and_then) d

module _ (f : ℕ → Option LinkedList) (l : ℕ) (ne : l ≢ null) (h : ℕ → Option Node)
    (d : LinkedList) where
  pub header_on : header l (on f l h d) ≡ done (d, on f l h d)
  unfolding header write
  header_on = ground arith

  pub set_head_on :
      (p : ℕ) → set_head l p (on f l h d) ≡ done (tt, on f l h (record d { head = p }))
  unfolding set_head put_header
  set_head_on p =
      step _ header_on (rw (write_twice f l (some d) (some (record d { head = p }))) refl)

  pub set_tail_on :
      (p : ℕ) → set_tail l p (on f l h d) ≡ done (tt, on f l h (record d { tail = p }))
  unfolding set_tail put_header
  set_tail_on p =
      step _ header_on (rw (write_twice f l (some d) (some (record d { tail = p }))) refl)

  pub set_length_on :
      (g : ℕ → ℕ)
      → set_length l g (on f l h d)
        ≡ done (tt, on f l h (record d { length = g d.length % 2 ^ 32 }))
  unfolding set_length put_header
  set_length_on g =
      step _ header_on
        (rw (write_twice f l (some d) (some (record d { length = g d.length % 2 ^ 32 }))) refl)

module _ (s : Store) (p q r v : ℕ) (ne : p ≢ null) (e : s.nodes p ≡ some (node q r v)) where
  pub load_lem : load p s ≡ done (node q r v, s)
  unfolding load
  load_lem = ground arith

  pub set_next_lem :
      (a : ℕ) → set_next p a s ≡ done (tt, record s { nodes = write s.nodes p (some (node a r v)) })
  unfolding set_next store
  set_next_lem a = step _ load_lem refl

  pub set_prev_lem :
      (a : ℕ) → set_prev p a s ≡ done (tt, record s { nodes = write s.nodes p (some (node q a v)) })
  unfolding set_prev store
  set_prev_lem a = step _ load_lem refl

  pub free_lem : free p s ≡ done (tt, record s { nodes = write s.nodes p none })
  unfolding free store
  free_lem = step _ load_lem refl

pub Represents-on :
    (s : Store) (l : ℕ) (xs : Cells) → Represents s l xs → s ≡ on s.lists l s.nodes (fields xs)
Represents-on s l xs r =
    ap (λ (f : ℕ → Option LinkedList). record { nodes = s.nodes; lists = f })
      (sym (write_same s.lists l (some (fields xs)) r.head_at))

pub on-Represents :
    (f : ℕ → Option LinkedList) (l : ℕ) (h : ℕ → Option Node) (xs : Cells)
    → l ≢ null
    → Links h null xs null
    → Represents (on f l h (fields xs)) l xs
unfolding write
on-Represents f l h xs ne k = record { ne_null = ne; head_at = ground arith; links = k }

-- A step that wrote the header at `l` and the nodes of the cells only.
pub on-Spares :
    (s : Store) (l : ℕ) (h : ℕ → Option Node) (d : LinkedList) (xs : Cells)
    → ((a : ℕ) → a ∉ xs → h a ≡ s.nodes a)
    → Spares s (on s.lists l h d) l xs
unfolding write
on-Spares s l h d xs k = record { headers = λ a ne. ground arith; others = k }

-- The operation `m` ends with `r`, the list at `l` then stands for `ys`, and of what stood before only
-- the header at `l` and the nodes of `zs` may have changed.
abbrev pub Yields : Cmd ℕ → Store → ℕ → ℕ → Cells → Cells → Type 0
Yields m s l r ys zs = (t : Store) × (m s ≡ done (r, t)) × Represents t l ys × Spares s t l zs

pub Yields-on :
    (m : Cmd ℕ) (s : Store) (l r : ℕ) (g : ℕ → Option Node) (xs ys zs : Cells)
    → Represents s l xs
    → m (on s.lists l s.nodes (fields xs)) ≡ done (r, on s.lists l g (fields ys))
    → Links g null ys null
    → ((a : ℕ) → a ∉ zs → g a ≡ s.nodes a)
    → Yields m s l r ys zs
Yields-on m s l r g xs ys zs rep e k keep = (
  on s.lists l g (fields ys),
  ap m (Represents-on s l xs rep) ∙ e,
  on-Represents s.lists l g ys rep.ne_null k,
  on-Spares s l g (fields ys) zs keep,
)

pub header_lem :
    (s : Store) (l : ℕ) (xs : Cells) → Represents s l xs → header l s ≡ done (fields xs, s)
unfolding header
header_lem s l xs r = let n = r.ne_null in let e = r.head_at in ground arith
