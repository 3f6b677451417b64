-- ===== src/Ctcp/Linked/After.antt =====
-- `ll_add_after` of ctcp_linked_list.c on the list that holds the node.
use mathlib.Core.Path.{subst}
use cs.Base.{
  ℕ, ◌≡◌, ◌≢◌, refl, none, some, Option, done, [], ◌∷◌, ◌++◌, arith, ◌%◌, ◌^◌, ◌+◌, length, ap,
  length-append, sym, ◌∙◌, ◌==◌, if◌then◌else◌, ==_refl,
}
use cs.Ctcp.Linked.{
  Cmd, pure, node, Node, Store, LinkedList, null, grown, write, set_prev, set_tail, link_after,
  ll_add_after,
}
use cs.Ctcp.Linked.Cells.{
  Cells, ne_test, first, last, last-append, has-append, first-more, last-ne, not-mem_uncons,
  not-mem_parts, ◌∉◌,
}
use cs.Ctcp.Linked.Links.{
  Links, Links-write, Links-fresh, Links-at, Links-split, Links-join, Links-set_next, write_self,
  write_other, Links-set_prev, Links-frame, Agree-Apart, Apart-append, Apart-cons, Apart,
}
use cs.Ctcp.Linked.Insert.{longer-fields, ll_create_node_lem}
use cs.Ctcp.Linked.Shape.{
  Represents, Yields, Yields-on, on, fields, ends, step, header_on, set_tail_on, set_length_on,
  load_lem, set_next_lem, set_prev_lem,
}

-- The heap when the nodes at `q` and at the new `p` point at each other, and `x` comes behind them.
abbrev linked : (ℕ → Option Node) → ℕ → ℕ → ℕ → ℕ → ℕ → Option Node
linked h q p o x =
    write (write (write h p (some (node null null o))) p (some (node null q o))) p
      (some (node x q o))

linked_other : (h : ℕ → Option Node) (q p o x a : ℕ) → a ≢ p → linked h q p o x a ≡ h a
linked_other h q p o x a e = write_other _ p _ a e ∙ write_other _ p _ a e ∙ write_other h p _ a e

Links-linked :
    (h : ℕ → Option Node) (q p o x a : ℕ) (zs : Cells) (b : ℕ)
    → p ∉ zs
    → Links h a zs b
    → Links (linked h q p o x) a zs b
Links-linked h q p o x a zs b out k =
    Links-write _ p _ a zs b out (Links-write _ p _ a zs b out (Links-write h p _ a zs b out k))

-- The step that tells the successor.
abbrev tell : ℕ → ℕ → Cmd (Unit {0})
tell p x = if x == null then pure tt else set_prev x p

module _ (f : ℕ → Option LinkedList) (l : ℕ) (h : ℕ → Option Node) (d : LinkedList)
    (q p o : ℕ) where
  abbrev Told : Cells → Type 0
  Told zs =
      (g : ℕ → Option Node) × (tell p (first zs null) (on f l (linked h q p o (first zs null)) d)
        ≡ done (tt, on f l g d))
      × Links g p zs null
      × ((a : ℕ) → a ∉ zs → g a ≡ linked h q p o (first zs null) a)

  told : (zs : Cells) → p ∉ zs → Links h q zs null → Told zs
  told [] out k = (linked h q p o null, refl, tt, λ a _. refl)
  told ((r, w) ∷ ws) out k =
      let i = not-mem_uncons p r w ws out in
      (
        write (linked h q p o r) r (some (node (first ws null) p w)),
        rw (ne_test r null k.0) (
            set_prev_lem (on f l (linked h q p o r) d) r (first ws null) q w k.0
              (linked_other h q p o r r (λ j. i.0 (sym j)) ∙ k.1) p),
        Links-set_prev (linked h q p o r) q r w ws null p
            (Links-linked h q p o r q ((r, w) ∷ ws) null out k),
        λ a e. write_other (linked h q p o r) r _ a (not-mem_uncons a r w ws e).0,
      )

  link_after_lem :
      (x b u : ℕ) (g : ℕ → Option Node)
      → q ≢ null
      → p ≢ null
      → q ≢ p
      → h q ≡ some (node x b u)
      → g q ≡ some (node x b u)
      → tell p x (on f l (linked h q p o x) d) ≡ done (tt, on f l g d)
      → link_after l q p (on f l (write h p (some (node null null o))) d)
        ≡ done (tt, on f l (write g q (some (node p b u))) d)
  unfolding link_after
  link_after_lem x b u g nq fr other at_q at_g k =
      step _
        (load_lem (on f l (write h p (some (node null null o))) d) q x b u nq
          (write_other h p _ q other ∙ at_q))
        (step _
          (set_prev_lem (on f l (write h p (some (node null null o))) d) p null null o fr
            (write_self h p _) q)
          (step _ (set_next_lem _ p null q o fr (write_self _ p _) x)
            (step _ k (set_next_lem (on f l g d) q x b u nq at_g p))))

module _ (f : ℕ → Option LinkedList) (l : ℕ) (ne : l ≢ null) (h : ℕ → Option Node)
    (q p o a n : ℕ) where
  tail_lem :
      (zs : Cells)
      → q ∉ zs
      → (if q == last zs q then set_tail l p else pure tt) (on f l h (ends a (last zs q) n))
        ≡ done (tt, on f l h (ends a (last zs p) n))
  tail_lem [] out = rw (==_refl q) (set_tail_on f l ne h (ends a q n) p)
  tail_lem ((r, w) ∷ ws) out = rw (ne_test q (last ws r) (last-ne r w ws q out)) refl

  ll_add_after_lem :
      (zs : Cells) (g : ℕ → Option Node)
      → q ≢ null
      → p ≢ null
      → o ≢ null
      → q ∉ zs
      → link_after l q p (on f l (write g p (some (node null null o))) (ends a (last zs q) n))
        ≡ done (tt, on f l h (ends a (last zs q) n))
      → ll_add_after l q o p (on f l g (ends a (last zs q) n))
        ≡ done (p, on f l h (ends a (last zs p) ((n + 1) % 2 ^ 32)))
  unfolding ll_add_after
  ll_add_after_lem zs g nq fr no_o out k =
      let d = ends a (last zs q) n in
      rw (ne_test l null ne, ne_test q null nq, ne_test o null no_o)
        (step _ (ll_create_node_lem f l ne g o p fr d) (
          step _ (header_on f l ne (write g p (some (node null null o))) d) (
            step _ k (
              step _ (tail_lem zs out)
                (step _ (set_length_on f l ne h (ends a (last zs p) n) grown) refl)))))

Apart-last : (ys : Cells) (q u : ℕ) (zs : Cells) → Apart (ys ++ (q, u) ∷ []) zs → q ∉ zs
Apart-last [] q u zs d = d.0
Apart-last (y ∷ ys) q u zs d = Apart-last ys q u zs d.1

not-mem_append : (a : ℕ) (xs ys : Cells) → a ∉ (xs ++ ys) → (a ∉ xs) × (a ∉ ys)
not-mem_append a xs ys out = let e = has-append a xs ys in (ground arith, ground arith)

module _ (s : Store) (l q u o p : ℕ) (ys zs : Cells) where
  abbrev upto : Cells
  upto = ys ++ (q, u) ∷ []

  end_lem : last upto null ≡ q
  end_lem = last-append ys ((q, u) ∷ []) null

  fields-upto :
      (xs : Cells)
      → fields (upto ++ xs) ≡ ends (first upto null) (last xs q) (length (upto ++ xs) % 2 ^ 32)
  fields-upto xs = ground (arith, first-more ys (q, u) xs null, last-append upto xs null, end_lem)

  longer_upto :
      record (ends (first upto null) (last zs p) (length (upto ++ zs) % 2 ^ 32)) {
        length = (length (upto ++ zs) % 2 ^ 32 + 1) % 2 ^ 32;
      }
      ≡ fields (upto ++ (p, o) ∷ zs)
  longer_upto =
      longer-fields (first upto null) (last zs p) (upto ++ zs) (upto ++ (p, o) ∷ zs)
        (omega (arith, length-append {0} upto zs, length-append {0} upto ((p, o) ∷ zs)))
        (first-more ys (q, u) ((p, o) ∷ zs) null) (last-append upto ((p, o) ∷ zs) null)

  -- The cells with the new one in their middle.
  inserted :
      (g : ℕ → Option Node)
      → p ≢ null
      → p ∉ upto
      → p ∉ zs
      → q ∉ zs
      → q ≢ p
      → Apart upto zs
      → Links g null upto (first zs null)
      → g p ≡ some (node (first zs null) q o)
      → Links g p zs null
      → Links (write g q (some (node p (last ys null) u))) null (upto ++ (p, o) ∷ zs) null
  inserted g fr out out_z q_z other apart k e m =
      Links-join _ null upto ((p, o) ∷ zs) null (Apart-cons p o upto zs out apart)
        (Links-set_next g null ys q u (first zs null) p k)
        (
          fr,
          rw end_lem (write_other g q _ p (λ i. other (sym i)) ∙ e),
          out_z,
          Links-write g q _ p zs null q_z m,
        )

  -- With an object and a new node, both not null, ll_add_after on a node of a list puts the new node right
  -- behind it and returns it; the header and the nodes of other lists stay as they are.
  pub ll_add_after-Represents :
      Represents s l (upto ++ zs)
      → o ≢ null
      → p ≢ null
      → s.nodes p ≡ none
      → Yields (ll_add_after l q o p) s l p (upto ++ (p, o) ∷ zs) ((p, o) ∷ (upto ++ zs))
  ll_add_after-Represents r no_o fr unused =
      let ne = r.ne_null in
      let out = Links-fresh s.nodes null (upto ++ zs) null p unused r.links in
      let out_p = not-mem_append p upto zs out in
      let apart = Apart-append s.nodes null upto zs null r.links in
      let q_z = Apart-last ys q u zs apart in
      let d = Links-split s.nodes null upto zs null r.links in
      let c = Links-at s.nodes null ys q u [] (first zs null) d.0 in
      let other : q ≢ p = λ i. (not-mem_parts p q u ys [] out_p.0).1 (sym i) in
      let n : ℕ = length (upto ++ zs) % 2 ^ 32 in
      let e = ends (first upto null) (last zs q) n in
      let (g, run_g, links_g, keep_g) =
        told s.lists l s.nodes e q p o zs out_p.1
          (subst (λ (a : ℕ). Links s.nodes a zs null) end_lem d.1) in
      let at_g = keep_g q q_z ∙ linked_other s.nodes q p o _ q other ∙ c.1 in
      let keep : (a : ℕ) → a ∉ ((p, o) ∷ zs) → g a ≡ s.nodes a = λ a i.
        let m = not-mem_uncons a p o zs i in keep_g a m.1 ∙ linked_other s.nodes q p o _ a m.0 in
      let before =
        Links-frame g s.nodes null upto (first zs null)
          (Agree-Apart g s.nodes upto ((p, o) ∷ zs) keep (Apart-cons p o upto zs out_p.0 apart))
          d.0 in
      let h : ℕ → Option Node = write g q (some (node p (last ys null) u)) in
      Yields-on (ll_add_after l q o p) s l p h (upto ++ zs) (upto ++ (p, o) ∷ zs)
        ((p, o) ∷ (upto ++ zs)) r
        (ap (λ (y : LinkedList). ll_add_after l q o p (on s.lists l s.nodes y)) (fields-upto zs)
          ∙ ll_add_after_lem s.lists l ne h q p o (first upto null) n zs s.nodes c.0 fr no_o q_z
              (link_after_lem s.lists l s.nodes e q p o _ _ u g c.0 fr other c.1 at_g run_g)
          ∙ ap (λ (y : LinkedList). done (p, on s.lists l h y)) longer_upto)
        (inserted g fr out_p.0 out_p.1 q_z other apart before (keep_g p out_p.1 ∙ write_self _ p _)
          links_g)
        (λ a i.
          let m = not-mem_uncons a p o (upto ++ zs) i in
          let m' = not-mem_append a upto zs m.1 in
          write_other g q _ a (not-mem_parts a q u ys [] m'.0).1
          ∙ keep_g a m'.1
          ∙ linked_other s.nodes q p o _ a m.0)
