-- ===== src/Ctcp/Linked/Insert.antt =====
-- `ll_add`, `ll_add_front` and `ll_add_after` of ctcp_linked_list.c on the list that they change.
use mathlib.Core.Path.{subst}
use cs.Base.{
  if◌then◌else◌, ◌==◌, ℕ, ◌≡◌, ◌≢◌, refl, none, some, Option, done, [], ◌∷◌, ◌++◌, arith, ◌%◌, ◌^◌,
  ◌+◌, length, inl, inr, ap, length-append, sym, ◌∙◌,
}
use cs.Ctcp.Linked.{
  and_then, node, Node, Store, LinkedList, null, grown, write, store, ll_create_node, link_only,
  link_back, link_front, ll_add, ll_add_front,
}
use cs.Ctcp.Linked.Cells.{
  ne_test, first-more, Cells, first, last, last-append, has-append, snoc-cases,
}
use cs.Ctcp.Linked.Links.{
  Apart-one, first-ne_null, Links-write, Links-fresh, Links-at, Links-join, Links-set_next,
  Links-set_prev,
}
use cs.Ctcp.Linked.Shape.{
  Represents, Yields, Yields-on, on, fields, ends, step, header_on, set_head_on, set_tail_on,
  set_length_on, set_next_lem, set_prev_lem,
}

module _ (f : ℕ → Option LinkedList) (l : ℕ) (ne : l ≢ null) (h : ℕ → Option Node) (o p : ℕ)
    (fr : p ≢ null) where
  abbrev pub with_node : ℕ → Option Node
  with_node = write h p (some (node null null o))

  link_only_lem :
      (a b n : ℕ)
      → link_only l p (on f l with_node (ends a b n)) ≡ done (tt, on f l with_node (ends p p n))
  unfolding link_only
  link_only_lem a b n =
      step _ (set_head_on f l ne with_node (ends a b n) p)
        (set_tail_on f l ne with_node (ends p b n) p)

  link_back_lem :
      (a q n b u : ℕ)
      → q ≢ null
      → p ≢ q
      → h q ≡ some (node null b u)
      → link_back l p (on f l with_node (ends a q n))
        ≡ done (
          tt,
          on f l
              (write (write with_node q (some (node p b u))) p (some (node null q o)))
              (ends a p n),
        )
  unfolding link_back write
  link_back_lem a q n b u nq npq e = step _ (header_on f l ne with_node (ends a q n)) (
      step _ (set_next_lem (on f l with_node (ends a q n)) q null b u nq (ground arith) p) (
        step _
          (set_prev_lem (on f l (write with_node q (some (node p b u))) (ends a q n)) p null null o
            fr (ground arith) q)
          (set_tail_on f l ne _ (ends a q n) p)))

  link_front_lem :
      (q b n x u : ℕ)
      → q ≢ null
      → p ≢ q
      → h q ≡ some (node x null u)
      → link_front l p (on f l with_node (ends q b n))
        ≡ done (
          tt,
          on f l
              (write (write with_node p (some (node q null o))) q (some (node x p u)))
              (ends p b n),
        )
  unfolding link_front write
  link_front_lem q b n x u nq npq e = step _ (header_on f l ne with_node (ends q b n)) (
      step _ (set_next_lem (on f l with_node (ends q b n)) p null null o fr (ground arith) q) (
        step _
          (set_prev_lem (on f l (write with_node p (some (node q null o))) (ends q b n)) q x null u
            nq (ground arith) p)
          (set_head_on f l ne _ (ends q b n) p)))

  pub ll_create_node_lem :
      (d : LinkedList) → ll_create_node o p (on f l h d) ≡ done (p, on f l with_node d)
  unfolding ll_create_node store and_then
  ll_create_node_lem d = rw (ne_test p null fr)

  module _ (no_o : o ≢ null) (d e : LinkedList) (g : ℕ → Option Node) where
    abbrev longer : LinkedList
    longer = record e { length = (e.length + 1) % 2 ^ 32 }

    ll_add_lem :
        (if d.head == null then link_only l p else link_back l p) (on f l with_node d)
          ≡ done (tt, on f l g e)
        → ll_add l o p (on f l h d) ≡ done (p, on f l g longer)
    unfolding ll_add
    ll_add_lem k =
        rw (ne_test l null ne, ne_test o null no_o)
          (step _ (ll_create_node_lem d) (
            step _ (header_on f l ne with_node d)
              (step _ k (step _ (set_length_on f l ne g e grown) refl))))

    ll_add_front_lem :
        (if d.head == null then link_only l p else link_front l p) (on f l with_node d)
          ≡ done (tt, on f l g e)
        → ll_add_front l o p (on f l h d) ≡ done (p, on f l g longer)
    unfolding ll_add_front
    ll_add_front_lem k =
        rw (ne_test l null ne, ne_test o null no_o)
          (step _ (ll_create_node_lem d) (
            step _ (header_on f l ne with_node d)
              (step _ k (step _ (set_length_on f l ne g e grown) refl))))

-- The header that `length++` leaves.
pub longer-fields :
    (a b : ℕ) (xs ys : Cells)
    → length ys ≡ length xs + 1
    → first ys null ≡ a
    → last ys null ≡ b
    → record (ends a b (length xs % 2 ^ 32)) { length = (length xs % 2 ^ 32 + 1) % 2 ^ 32 }
      ≡ fields ys
longer-fields a b xs ys e u v = ground arith

module _ (s : Store) (l o p : ℕ) (no_o : o ≢ null) (fr : p ≢ null) (unused : s.nodes p ≡ none) where
  add-nil : Represents s l [] → Yields (ll_add l o p) s l p ((p, o) ∷ []) ((p, o) ∷ [])
  unfolding write
  add-nil r =
      let g = write s.nodes p (some (node null null o)) in
      Yields-on (ll_add l o p) s l p g [] ((p, o) ∷ []) ((p, o) ∷ []) r
        (ll_add_lem s.lists l r.ne_null s.nodes o p fr no_o (fields []) (ends p p 0) g
          (link_only_lem s.lists l r.ne_null s.nodes o p fr null null 0))
        (fr, ground arith, refl, tt) (λ a out. ground arith)

  add-snoc :
      (ys : Cells) (q u : ℕ)
      → Represents s l (ys ++ (q, u) ∷ [])
      → Yields
          (ll_add l o p)
          s
          l
          p
          ((ys ++ (q, u) ∷ []) ++ (p, o) ∷ [])
          ((p, o) ∷ (ys ++ (q, u) ∷ []))
  unfolding write
  add-snoc ys q u r =
      let xs : Cells = ys ++ (q, u) ∷ [] in
      let c = Links-at s.nodes null ys q u [] null r.links in
      let out = Links-fresh s.nodes null xs null p unused r.links in
      let g : ℕ → Option Node =
        write (write s.nodes p (some (node null null o))) q (some (node p (last ys null) u)) in
      let g' : ℕ → Option Node = write g p (some (node null q o)) in
      let a = first xs null in
      let n = length xs % 2 ^ 32 in
      let end : last xs null ≡ q = last-append ys ((q, u) ∷ []) null in
      let other : p ≢ q = ground (arith, has-append p ys ((q, u) ∷ [])) in
      Yields-on (ll_add l o p) s l p g' xs (xs ++ (p, o) ∷ []) ((p, o) ∷ xs) r
        (ap (λ (b : ℕ). ll_add l o p (on s.lists l s.nodes (ends a b n))) end
          ∙ ll_add_lem s.lists l r.ne_null s.nodes o p fr no_o (ends a q n) (ends a p n) g' (
              rw (ne_test a null (first-ne_null s.nodes ys q u r.links)) (
                link_back_lem s.lists l r.ne_null s.nodes o p fr a q n (last ys null) u c.0 other
                  c.1))
          ∙ ap (λ (d : LinkedList). done (p, on s.lists l g' d))
              (longer-fields a p xs (xs ++ (p, o) ∷ []) (length-append xs ((p, o) ∷ []))
                (first-more ys (q, u) ((p, o) ∷ []) null) (last-append xs ((p, o) ∷ []) null)))
        (Links-join g' null xs ((p, o) ∷ []) null (Apart-one p o xs out)
          (Links-write g p _ null xs p out (
            Links-set_next _ null ys q u null p (Links-write s.nodes p _ null xs null out r.links)))
          (fr, ground (arith, end), refl, tt))
        (λ a no_a. ground (arith, has-append a ys ((q, u) ∷ [])))

  -- ll_add puts a new node with the object at the end of the list.
  pub ll_add-Represents :
      (xs : Cells)
      → Represents s l xs
      → Yields (ll_add l o p) s l p (xs ++ (p, o) ∷ []) ((p, o) ∷ xs)
  ll_add-Represents xs r = elim (snoc-cases xs) [
    | inl e ↦
        subst
          (λ (zs : Cells).
            Represents s l zs → Yields (ll_add l o p) s l p (zs ++ (p, o) ∷ []) ((p, o) ∷ zs))
          (sym e) add-nil r
    | inr (ys, (q, u), e) ↦
        subst
          (λ (zs : Cells).
            Represents s l zs → Yields (ll_add l o p) s l p (zs ++ (p, o) ∷ []) ((p, o) ∷ zs))
          (sym e) (add-snoc ys q u) r
  ]

  -- ll_add_front puts it before the others.
  pub ll_add_front-Represents :
      (xs : Cells)
      → Represents s l xs
      → Yields (ll_add_front l o p) s l p ((p, o) ∷ xs) ((p, o) ∷ xs)
  unfolding write
  ll_add_front-Represents [] r =
      let g = write s.nodes p (some (node null null o)) in
      Yields-on (ll_add_front l o p) s l p g [] ((p, o) ∷ []) ((p, o) ∷ []) r
        (ll_add_front_lem s.lists l r.ne_null s.nodes o p fr no_o (fields []) (ends p p 0) g
          (link_only_lem s.lists l r.ne_null s.nodes o p fr null null 0))
        (fr, ground arith, refl, tt) (λ a out. ground arith)
  ll_add_front-Represents ((q, u) ∷ ys) r =
      let xs : Cells = (q, u) ∷ ys in
      let k = r.links in
      let out = Links-fresh s.nodes null xs null p unused k in
      let other : p ≢ q = ground arith in
      let h : ℕ → Option Node =
        write (write s.nodes p (some (node null null o))) p (some (node q null o)) in
      let g : ℕ → Option Node = write h q (some (node (first ys null) p u)) in
      let n = length xs % 2 ^ 32 in
      Yields-on (ll_add_front l o p) s l p g xs ((p, o) ∷ xs) ((p, o) ∷ xs) r
        (ll_add_front_lem s.lists l r.ne_null s.nodes o p fr no_o (fields xs) (ends p (last ys q) n)
            g
            (rw (ne_test q null k.0) (
              link_front_lem s.lists l r.ne_null s.nodes o p fr q (last ys q) n (first ys null) u
                k.0 other k.1))
          ∙ ap (λ (d : LinkedList). done (p, on s.lists l g d))
              (longer-fields p (last ys q) xs ((p, o) ∷ xs) (omega arith) refl refl))
        (
          fr,
          ground arith,
          out,
          Links-set_prev h null q u ys null p
              (Links-write _ p _ null xs null out (Links-write s.nodes p _ null xs null out k)),
        )
        (λ a no_a. ground arith)
