-- ===== src/Router/Routes/Best.antt =====
-- The loop of `find_best_route` and `target_ip_2_iface` against its specification: the best route is
-- the first of the longest among the entries that match.
use mathlib.Core.List.{append_assoc, append-nil}
use cs.Base.{
  ℕ, ◌≤◌, ◌<◌, ◌≡◌, refl, List, [], ◌∷◌, ◌++◌, Option, none, some, ◌==◌, bit_and, arith, All,
  All-append, All-mono, ==_iff, Bool-cases, Option-cases, ◌⊎◌, inl, inr, ltb,
}
use cs.Bytes.{htonl}
use cs.Router.State.{Rt, Instance}
use cs.Router.Interfaces.{sr_get_interface}
use cs.Router.Routes.{prefer, best_loop, find_best_route, target_ip_2_iface}

abbrev pub Matches : ℕ → Rt → Type 0
Matches dst r = bit_and dst r.mask ≡ r.dest

-- The masks are compared as numbers in host order.
abbrev pub prefix : Rt → ℕ
prefix r = htonl r.mask

-- `r` stands in the table, matches, is longer than every match before it and no shorter than any
-- behind it.
pub record IsBest (dst : ℕ) (rs : List Rt) (r : Rt) : Type 0 where
  pub before : List Rt
  pub after : List Rt
  pub split : rs ≡ before ++ (r ∷ after)
  pub hit : Matches dst r
  pub longer : All (λ s. Matches dst s → prefix s < prefix r) before
  pub longest : All (λ s. Matches dst s → prefix s ≤ prefix r) after

-- What the loop finds in the entries `rs`.
abbrev pub Finds : ℕ → List Rt → Option Rt → Type 0
Finds dst rs none = All (λ s. ¬ (Matches dst s)) rs
Finds dst rs (some r) = IsBest dst rs r

module _ (dst : ℕ) (rs : List Rt) (route : Rt) where
  -- A route that does not match changes nothing.
  Finds-skip :
      (best : Option Rt)
      → ¬ (Matches dst route)
      → Finds dst rs best
      → Finds dst (rs ++ (route ∷ [])) best
  Finds-skip none miss f = All-append _ rs (route ∷ []) f (miss, tt)
  Finds-skip (some b) miss f = record {
    before = f.before;
    after = f.after ++ (route ∷ []);
    split = rw f.split (append_assoc f.before (b ∷ f.after) (route ∷ []));
    hit = f.hit;
    longer = f.longer;
    longest = All-append _ f.after (route ∷ []) f.longest ((λ m. absurd (miss m)), tt);
  }

  -- A longer match takes over.
  Finds-longer :
      (b : Rt)
      → Matches dst route
      → prefix b < prefix route
      → IsBest dst rs b
      → IsBest dst (rs ++ (route ∷ [])) route
  Finds-longer b m longer f = record {
    before = rs;
    after = [];
    split = refl;
    hit = m;
    longer = rw f.split (
        All-append _ f.before (b ∷ f.after)
          (All-mono _ _ f.before (λ r h k. omega (arith, h k)) f.longer)
          ((λ k. longer), All-mono _ _ f.after (λ r h k. omega (arith, h k)) f.longest));
    longest = tt;
  }

  -- Any other match is passed over.
  Finds-keep :
      (b : Rt) → prefix route ≤ prefix b → IsBest dst rs b → IsBest dst (rs ++ (route ∷ [])) b
  Finds-keep b h f = record {
    before = f.before;
    after = f.after ++ (route ∷ []);
    split = rw f.split (append_assoc f.before (b ∷ f.after) (route ∷ []));
    hit = f.hit;
    longer = f.longer;
    longest = All-append _ f.after (route ∷ []) f.longest ((λ m. h), tt);
  }

  Finds-prefer :
      (best : Option Rt)
      → Matches dst route
      → Finds dst rs best
      → IsBest dst (rs ++ (route ∷ [])) (prefer best route)
  Finds-prefer none m f = record {
    before = rs;
    after = [];
    split = refl;
    hit = m;
    longer = All-mono _ _ rs (λ r h k. absurd (h k)) f;
    longest = tt;
  }
  Finds-prefer (some b) m f = elim (Bool-cases (ltb (prefix b) (prefix route))) [
    | inl less ↦ rw less (Finds-longer b m (ground arith) f)
    | inr more ↦ rw more (Finds-keep b (ground arith) f)
  ]

best_loop-Finds :
    (dst : ℕ) (seen rest : List Rt) (best : Option Rt)
    → Finds dst seen best
    → Finds dst (seen ++ rest) (best_loop dst rest best)
unfolding best_loop
best_loop-Finds dst seen [] best f = rw append-nil f
best_loop-Finds dst seen (r ∷ rest) best f = elim (Bool-cases (bit_and dst r.mask == r.dest)) [
  | inl hit ↦
      rw (hit, ← append_assoc seen (r ∷ []) rest)
        (best_loop-Finds dst (seen ++ (r ∷ [])) rest (some (prefer best r))
          (Finds-prefer dst seen r best ((==_iff _ _).0 hit) f))
  | inr miss ↦
      rw (miss, ← append_assoc seen (r ∷ []) rest)
        (best_loop-Finds dst (seen ++ (r ∷ [])) rest best
          (Finds-skip dst seen r best (λ m. ground arith) f))
]

-- From an empty start the loop finds the best route of the table, or none when none matches.
pub best_loop_lem : (dst : ℕ) (rs : List Rt) → Finds dst rs (best_loop dst rs none)
best_loop_lem dst rs = best_loop-Finds dst [] rs none tt

-- What the two searches of the table yield.
pub record IsRouted (sr : Instance) (dst : ℕ) (r : Rt) : Type 0 where
  pub best : IsBest dst sr.routing_table r
  pub gateway : find_best_route sr dst ≡ r.gw
  pub interface : target_ip_2_iface sr dst ≡ sr_get_interface sr r.interface

pub record IsUnrouted (sr : Instance) (dst : ℕ) : Type 0 where
  pub no_match : All (λ r. ¬ (Matches dst r)) sr.routing_table
  pub gateway : find_best_route sr dst ≡ 0
  pub interface : target_ip_2_iface sr dst ≡ none

-- For each destination `find_best_route` gives the gateway, and `target_ip_2_iface` the interface, of
-- one and the same entry: the first of those with the longest mask among the entries that match. With
-- no match they give 0 and no interface.
pub find_best_route-IsRouted :
    (sr : Instance) (dst : ℕ) → ((r : Rt) × IsRouted sr dst r) ⊎ IsUnrouted sr dst
unfolding find_best_route target_ip_2_iface
find_best_route-IsRouted sr dst = elim (Option-cases (best_loop dst sr.routing_table none)) [
  | inl e ↦ inr (record {
    no_match = rw e at (best_loop_lem dst sr.routing_table);
    gateway = rw (find_best_route, e);
    interface = rw (target_ip_2_iface, e);
  })
  | inr (r, e) ↦ inl (
    r,
    record {
      best = rw e at (best_loop_lem dst sr.routing_table);
      gateway = rw (find_best_route, e);
      interface = rw (target_ip_2_iface, e);
    },
  )
]
