-- ===== src/Ctcp/Linked/Others.antt =====
-- Two lists of ctcp_linked_list.c on one heap, as a connection has them: an operation on the one leaves
-- the other alone.
use cs.Base.{ℕ, ◌≡◌, ◌≢◌, none, done, [], ◌∷◌, ◌++◌, ◌∙◌}
use cs.Ctcp.Linked.{Store, null, ll_add, ll_remove}
use cs.Ctcp.Linked.Cells.{Cells}
use cs.Ctcp.Linked.Links.{Links-fresh, Links-frame, Agree-Apart, Apart, Apart-cons}
use cs.Ctcp.Linked.Shape.{Represents, Spares}
use cs.Ctcp.Linked.Insert.{ll_add-Represents}
use cs.Ctcp.Linked.Remove.{ll_remove-Represents}

Represents-Spares :
    (s t : Store) (l m : ℕ) (xs ys : Cells)
    → Spares s t l xs
    → m ≢ l
    → Apart ys xs
    → Represents s m ys
    → Represents t m ys
Represents-Spares s t l m xs ys k ne apart r = record {
  ne_null = r.ne_null;
  head_at = k.headers m ne ∙ r.head_at;
  links =
      Links-frame t.nodes s.nodes null ys null (Agree-Apart t.nodes s.nodes ys xs k.others apart)
        r.links;
}

module _ (s : Store) (l m : ℕ) (ys : Cells) (ne : m ≢ l) (other : Represents s m ys) where
  -- With an object and a new node, both not null, ll_add on a list appends the node to it, and a second
  -- list that shares no node with the first keeps its nodes and objects, also if the first is empty.
  pub ll_add-both :
      (o p : ℕ) (xs : Cells)
      → Represents s l xs
      → Apart ys xs
      → o ≢ null
      → p ≢ null
      → s.nodes p ≡ none
      → (t : Store) × (ll_add l o p s ≡ done (p, t))
        × Represents t l (xs ++ (p, o) ∷ [])
        × Represents t m ys
  ll_add-both o p xs r apart no_o fr unused =
      let (t, e, k, spares) = ll_add-Represents s l o p no_o fr unused xs r in
      let out = Links-fresh s.nodes null ys null p unused other.links in
      (
        t,
        e,
        k,
        Represents-Spares s t l m ((p, o) ∷ xs) ys spares ne (Apart-cons p o ys xs out apart) other,
      )

  -- ll_remove on a list returns the object of the node, takes exactly this node out of the list and gives
  -- its memory back, wherever in the list it stands; a second list that shares no node with the first
  -- keeps its nodes and objects.
  pub ll_remove-both :
      (p v : ℕ) (xs zs : Cells)
      → Represents s l (xs ++ (p, v) ∷ zs)
      → Apart ys (xs ++ (p, v) ∷ zs)
      → (t : Store) × (ll_remove l p s ≡ done (v, t))
        × Represents t l (xs ++ zs)
        × Represents t m ys
        × (t.nodes p ≡ none)
  ll_remove-both p v xs zs r apart =
      let (t, e, k, spares, gone) = ll_remove-Represents s l p v xs zs r in
      (t, e, k, Represents-Spares s t l m (xs ++ (p, v) ∷ zs) ys spares ne apart other, gone)
