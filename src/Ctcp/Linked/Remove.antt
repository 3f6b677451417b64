-- ===== src/Ctcp/Linked/Remove.antt =====
-- `ll_remove` of ctcp_linked_list.c on the list that holds the node.
use mathlib.Core.Path.{subst}
use cs.Base.{
  ==_refl, ℕ, ◌≡◌, ◌≢◌, refl, none, some, Option, done, [], ◌∷◌, ◌++◌, arith, ◌%◌, ◌^◌, ◌+◌, ◌-◌,
  length, inl, inr, ap, length-append, sym, ◌∙◌,
}
use cs.Ctcp.Linked.{
  node, Node, Store, LinkedList, null, shrunk, write, unlink_next, unlink_prev, ll_remove,
}
use cs.Ctcp.Linked.Cells.{
  ne_test, not-mem_uncons, not-mem_parts, last-ne, Cells, first, last, first-append, last-append,
  snoc-cases, ◌∉◌,
}
use cs.Ctcp.Linked.Links.{
  write_self, write_other, Links, Links-write, Links-frame, Links-at, Links-split, Links-join,
  Links-set_next, Agree-Apart, Apart-uncons, Apart-symm, Links-set_prev, Apart-append, Apart,
}
use cs.Ctcp.Linked.Shape.{
  Spares, Represents, Represents-on, on-Represents, on-Spares, on, fields, ends, step, header_on,
  set_head_on, set_tail_on, set_length_on, load_lem, set_next_lem, set_prev_lem, free_lem,
}

first-ne : (xs : Cells) (q u p : ℕ) → p ∉ (xs ++ (q, u) ∷ []) → p ≢ first (xs ++ (q, u) ∷ []) p
first-ne [] q u p out = ground arith
first-ne ((a, _) ∷ xs) q u p out = ground arith

module _ (f : ℕ → Option LinkedList) (l : ℕ) (ne : l ≢ null) (h : ℕ → Option Node) (p v : ℕ)
    (b n : ℕ) (fr : p ≢ null) where
  -- The step leads from `ys` past the node at `p`.
  abbrev Passed : Cells → ℕ → Type 0
  Passed ys x =
      (g : ℕ → Option Node) × (unlink_next l p (on f l h (ends (first ys p) b n))
        ≡ done (tt, on f l g (ends (first ys x) b n)))
      × Links g null ys x
      × ((a : ℕ) → a ∉ ys → g a ≡ h a)

  Passed-nil : (x : ℕ) → h p ≡ some (node x null v) → Passed [] x
  unfolding unlink_next
  Passed-nil x e = (
    h,
    step _ (header_on f l ne h (ends p b n)) (
        step _ (load_lem (on f l h (ends p b n)) p x null v fr e)
          (rw (==_refl p) (set_head_on f l ne h (ends p b n) x))),
    tt,
    λ a o. refl,
  )

  Passed-snoc :
      (ws : Cells) (q u x : ℕ)
      → Links h null (ws ++ (q, u) ∷ []) p
      → p ∉ (ws ++ (q, u) ∷ [])
      → h p ≡ some (node x q v)
      → Passed (ws ++ (q, u) ∷ []) x
  unfolding unlink_next
  Passed-snoc ws q u x k out e =
      let c = Links-at h null ws q u [] p k in
      let a = first (ws ++ (q, u) ∷ []) p in
      let same : first (ws ++ (q, u) ∷ []) x ≡ a =
        first-append ws ((q, u) ∷ []) x ∙ sym (first-append ws ((q, u) ∷ []) p) in
      (
        write h q (some (node x (last ws null) u)),
        rw same (
            step _ (header_on f l ne h (ends a b n)) (
              step _ (load_lem (on f l h (ends a b n)) p x q v fr e) (
                rw (ne_test p a (first-ne ws q u p out))
                  (set_next_lem (on f l h (ends a b n)) q p (last ws null) u c.0 c.1 x)))),
        Links-set_next h null ws q u p x k,
        λ a o. write_other h q _ a (not-mem_parts a q u ws [] o).1,
      )

  passed :
      (ys : Cells) (x : ℕ)
      → Links h null ys p
      → p ∉ ys
      → h p ≡ some (node x (last ys null) v)
      → Passed ys x
  passed ys x = elim (snoc-cases ys) [
    | inl i ↦
        subst
          (λ (zs : Cells).
            Links h null zs p → p ∉ zs → h p ≡ some (node x (last zs null) v) → Passed zs x)
          (sym i) (λ _ _. Passed-nil x)
    | inr (ws, (q, u), i) ↦
        subst
          (λ (zs : Cells).
            Links h null zs p → p ∉ zs → h p ≡ some (node x (last zs null) v) → Passed zs x)
          (sym i)
          (λ k out e. Passed-snoc ws q u x k out (rw (← last-append ws ((q, u) ∷ []) null) e))
  ]

-- The step leads from `zs` back past the node at `p`, to the address `y`.
module _ (f : ℕ → Option LinkedList) (l : ℕ) (ne : l ≢ null) (h : ℕ → Option Node) (p v a n y : ℕ)
    (fr : p ≢ null) where
  abbrev Bypassed : Cells → Type 0
  Bypassed zs =
      (g : ℕ → Option Node) × (unlink_prev l p (on f l h (ends a (last zs p) n))
        ≡ done (tt, on f l g (ends a (last zs y) n)))
      × Links g y zs null
      × ((b : ℕ) → b ∉ zs → g b ≡ h b)

  bypassed :
      (zs : Cells)
      → Links h p zs null
      → p ∉ zs
      → h p ≡ some (node (first zs null) y v)
      → Bypassed zs
  unfolding unlink_prev
  bypassed [] k out e = (
    h,
    step _ (header_on f l ne h (ends a p n)) (
        step _ (load_lem (on f l h (ends a p n)) p null y v fr e)
          (rw (==_refl p) (set_tail_on f l ne h (ends a p n) y))),
    tt,
    λ a o. refl,
  )
  bypassed ((q, u) ∷ ws) k out e = (
    write h q (some (node (first ws null) y u)),
    step _ (header_on f l ne h (ends a (last ws q) n)) (
        step _ (load_lem (on f l h (ends a (last ws q) n)) p q y v fr e) (
          rw (ne_test p (last ws q) (last-ne q u ws p out))
            (set_prev_lem (on f l h (ends a (last ws q) n)) q (first ws null) p u k.0 k.1 y))),
    Links-set_prev h p q u ws null y k,
    λ b o. write_other h q _ b (not-mem_uncons b q u ws o).0,
  )

shrunk-fields :
    (a b : ℕ) (xs ys : Cells)
    → length xs ≡ length ys + 1
    → first ys null ≡ a
    → last ys null ≡ b
    → record (ends a b (length xs % 2 ^ 32)) {
      length = (length xs % 2 ^ 32 + (2 ^ 32 - 1)) % 2 ^ 32;
    }
      ≡ fields ys
shrunk-fields a b xs ys e u v = ground arith

fields_whole :
    (ys zs : Cells) (p v : ℕ)
    → fields (ys ++ (p, v) ∷ zs)
      ≡ ends (first ys p) (last zs p) (length (ys ++ (p, v) ∷ zs) % 2 ^ 32)
fields_whole ys zs p v =
    ground (arith, first-append ys ((p, v) ∷ zs) null, last-append ys ((p, v) ∷ zs) null)

module _ (s : Store) (l p v : ℕ) (ys zs : Cells) where
  abbrev whole : Cells
  whole = ys ++ (p, v) ∷ zs

  abbrev before : LinkedList
  before = ends (first ys p) (last zs p) (length whole % 2 ^ 32)

  abbrev middle : LinkedList
  middle = ends (first ys (first zs null)) (last zs p) (length whole % 2 ^ 32)

  abbrev after : LinkedList
  after = ends (first ys (first zs null)) (last zs (last ys null)) (length whole % 2 ^ 32)

  -- The steps of `ll_remove`, one after the other.
  ll_remove_lem :
      (g k : ℕ → Option Node) (a b c d : ℕ)
      → l ≢ null
      → p ≢ null
      → s.nodes p ≡ some (node a b v)
      → k p ≡ some (node c d v)
      → unlink_next l p (on s.lists l s.nodes before) ≡ done (tt, on s.lists l g middle)
      → unlink_prev l p (on s.lists l g middle) ≡ done (tt, on s.lists l k after)
      → ll_remove l p (on s.lists l s.nodes (fields whole))
        ≡ done (v, on s.lists l (write k p none) (fields (ys ++ zs)))
  unfolding ll_remove
  ll_remove_lem g k a b c d ne fr at at_k run_g run_k =
      ap (λ (e : LinkedList). ll_remove l p (on s.lists l s.nodes e)) (fields_whole ys zs p v)
      ∙ rw (ne_test l null ne, ne_test p null fr)
          (step _ (load_lem (on s.lists l s.nodes before) p a b v fr at) (
            step _ run_g (
              step _ run_k (
                step _ (free_lem (on s.lists l k after) p c d v fr at_k)
                  (step _ (set_length_on s.lists l ne (write k p none) after shrunk) refl)))))
      ∙ ap (λ (e : LinkedList). done (v, on s.lists l (write k p none) e))
          (shrunk-fields (first ys (first zs null)) (last zs (last ys null)) whole (ys ++ zs)
            (omega (arith, length-append {0} ys ((p, v) ∷ zs), length-append {0} ys zs))
            (first-append ys zs null) (last-append ys zs null))

  -- The list without the node.
  joined :
      (g k : ℕ → Option Node)
      → p ∉ ys
      → p ∉ zs
      → Apart ys zs
      → Links g null ys (first zs null)
      → Links k (last ys null) zs null
      → ((a : ℕ) → a ∉ zs → k a ≡ g a)
      → Links (write k p none) null (ys ++ zs) null
  joined g k out_y out_z apart links_g links_k keep =
      Links-join (write k p none) null ys zs null apart
        (Links-write k p none null ys (first zs null) out_y
          (Links-frame k g null ys (first zs null) (Agree-Apart k g ys zs keep apart) links_g))
        (Links-write k p none (last ys null) zs null out_z links_k)

  -- ll_remove returns the object of the node, takes the node out of the list, and gives it back.
  pub ll_remove-Represents :
      Represents s l whole
      → (t : Store) × (ll_remove l p s ≡ done (v, t))
        × Represents t l (ys ++ zs)
        × Spares s t l whole
        × (t.nodes p ≡ none)
  ll_remove-Represents r =
      let ne = r.ne_null in
      let c = Links-at s.nodes null ys p v zs null r.links in
      let d = Links-split s.nodes null ys ((p, v) ∷ zs) null r.links in
      let n : ℕ = length whole % 2 ^ 32 in
      let apart : Apart ys zs =
        Apart-uncons p v ys zs (Apart-append s.nodes null ys ((p, v) ∷ zs) null r.links) in
      let (g, run_g, links_g, keep_g) =
        passed s.lists l ne s.nodes p v (last zs p) n c.0 ys (first zs null) d.0 c.2 c.1 in
      let at_g = keep_g p c.2 ∙ c.1 in
      let rest_g =
        Links-frame g s.nodes p zs null
          (Agree-Apart g s.nodes zs ys keep_g (Apart-symm ys zs apart)) d.1.3 in
      let (k, run_k, links_k, keep_k) =
        bypassed s.lists l ne g p v (first ys (first zs null)) n (last ys null) c.0 zs rest_g c.3
          at_g in
      (
        on s.lists l (write k p none) (fields (ys ++ zs)),
        ap (ll_remove l p) (Represents-on s l whole r)
            ∙ ll_remove_lem g k _ _ _ _ ne c.0 c.1 (keep_k p c.3 ∙ at_g) run_g run_k,
        on-Represents s.lists l _ (ys ++ zs) ne (joined g k c.2 c.3 apart links_g links_k keep_k),
        on-Spares s l _ (fields (ys ++ zs)) whole (λ b out.
            let m = not-mem_parts b p v ys zs out in
            write_other k p none b m.1 ∙ keep_k b m.2 ∙ keep_g b m.0),
        write_self k p none,
      )
