-- ===== src/Router/Table/Verified.antt =====
-- What `sr_verify_routing_table` checks, and what forwarding gains by it.
use mathlib.Core.Path.{subst}
use cs.Base.{
  ℕ, ◌≡◌, ◌≢◌, ◌↔◌, refl, List, [], ◌∷◌, All, Option, none, some, Option-cases, inl, inr, ◌==◌, ltb,
  if◌then◌else◌, arith, bit_and, if-both,
}
use cs.Router.State.{Iface, Rt, Instance}
use cs.Router.Interfaces.{find_name, sr_get_interface}
use cs.Router.Routes.{prefer, best_loop, target_ip_2_iface}
use cs.Router.Table.{missing, sr_verify_routing_table}

-- A route whose interface exists.
abbrev pub IsBacked : List Iface → Rt → Type 0
IsBacked ifs r = (i : Iface) × (find_name r.interface ifs ≡ some i)

missing-IsBacked : (ifs : List Iface) (rs : List Rt) → missing ifs rs ≡ 0 → All (IsBacked ifs) rs
unfolding missing
missing-IsBacked ifs [] h = tt
missing-IsBacked ifs (r ∷ rs) h = elim (Option-cases (find_name r.interface ifs)) [
  | inl e ↦ absurd (omega (arith, rw e at h))
  | inr (i, e) ↦ ((i, e), missing-IsBacked ifs rs (rw e at h))
]

IsBacked-missing : (ifs : List Iface) (rs : List Rt) → All (IsBacked ifs) rs → missing ifs rs ≡ 0
unfolding missing
IsBacked-missing ifs [] h = refl
IsBacked-missing ifs (r ∷ rs) ((i, e), h) = rw e (IsBacked-missing ifs rs h)

-- The check succeeds exactly when there are interfaces, there are routes, and every route's interface exists.
pub sr_verify_routing_table-IsBacked :
    (sr : Instance)
    → (sr_verify_routing_table sr ≡ 0)
      ↔ ((sr.if_list ≢ []) × (sr.routing_table ≢ []) × All (IsBacked sr.if_list) sr.routing_table)
unfolding sr_verify_routing_table
sr_verify_routing_table-IsBacked sr = by sr.if_list sr.routing_table
  where
    by :
        (ifs : List Iface) (rs : List Rt)
        → (sr_verify_routing_table (record sr { if_list = ifs; routing_table = rs }) ≡ 0)
          ↔ ((ifs ≢ []) × (rs ≢ []) × All (IsBacked ifs) rs)
    by [] rs = (λ h. absurd (omega (arith, h)), λ h. absurd (h.0 refl))
    by (i ∷ ifs) [] = (λ h. absurd (omega (arith, h)), λ h. absurd (h.1 refl))
    by (i ∷ ifs) (r ∷ rs) = (
      λ h. ((λ e. cc), (λ e. cc), missing-IsBacked (i ∷ ifs) (r ∷ rs) h),
      λ h. IsBacked-missing (i ∷ ifs) (r ∷ rs) h.2,
    )

-- What holds of every route holds of the best one.
abbrev OfBest : (Rt → Type 0) → Option Rt → Type 0
OfBest P none = Unit
OfBest P (some r) = P r

prefer-OfBest :
    (P : Rt → Type 0) (best : Option Rt) (r : Rt) → OfBest P best → P r → P (prefer best r)
prefer-OfBest P none r h k = k
prefer-OfBest P (some b) r h k = if-both P (ltb _ _) k h

best_loop-OfBest :
    (P : Rt → Type 0) (dst : ℕ) (rs : List Rt) (best : Option Rt)
    → All P rs
    → OfBest P best
    → OfBest P (best_loop dst rs best)
unfolding best_loop
best_loop-OfBest P dst [] best h k = k
best_loop-OfBest P dst (r ∷ rs) best h k =
    best_loop-OfBest P dst rs (if bit_and dst r.mask == r.dest then some (prefer best r) else best)
      h.1 (if-both (OfBest P) (bit_and dst r.mask == r.dest) (prefer-OfBest P best r k h.0) k)

-- Once the table is verified, every address that some route matches has an interface to go out by.
pub verified-target :
    (sr : Instance) (dst : ℕ) (r : Rt)
    → sr_verify_routing_table sr ≡ 0
    → best_loop dst sr.routing_table none ≡ some r
    → (i : Iface) × (target_ip_2_iface sr dst ≡ some i)
unfolding target_ip_2_iface sr_get_interface
verified-target sr dst r h e =
    let backed = (sr_verify_routing_table-IsBacked sr).0 h in
    found (
      subst (OfBest (IsBacked sr.if_list)) e
        (best_loop-OfBest (IsBacked sr.if_list) dst sr.routing_table none backed.2 tt))
  where
    found : IsBacked sr.if_list r → (i : Iface) × (target_ip_2_iface sr dst ≡ some i)
    found (i, k) = (i, rw (e, target_ip_2_iface) k)
