-- ===== src/Router/Routes.antt =====
-- The routing table: sr_rt.c, and the longest-prefix match of sr_router.c (`find_best_route` and
-- `target_ip_2_iface`, which run the same loop).
pub mod Best
use cs.Base.{ℕ, List, [], ◌∷◌, ◌++◌, Option, none, some, ◌==◌, ltb, if◌then◌else◌, take, bit_and}
use cs.Bytes.{htonl}
use cs.Router.State.{Iface, Rt, Instance}
use cs.Router.Interfaces.{name_len, sr_get_interface}

-- `best_route` after a matching entry.
abbrev pub prefer : Option Rt → Rt → Rt
prefer none route = route
prefer (some best) route = if ltb (htonl best.mask) (htonl route.mask) then route else best

unfoldable pub best_loop : ℕ → List Rt → Option Rt → Option Rt
best_loop dst [] best = best
best_loop dst (route ∷ rest) best =
    best_loop dst rest
      (if bit_and dst route.mask == route.dest then some (prefer best route) else best)

-- The gateway of the best route, or 0.
unfoldable pub find_best_route : Instance → ℕ → ℕ
find_best_route sr dst = elim (best_loop dst sr.routing_table none) [
  | none ↦ 0
  | some best ↦ best.gw
]

unfoldable pub target_ip_2_iface : Instance → ℕ → Option Iface
target_ip_2_iface sr ip = elim (best_loop ip sr.routing_table none) [
  | none ↦ none
  | some best ↦ sr_get_interface sr best.interface
]

abbrev pub entry : ℕ → ℕ → ℕ → List ℕ → Rt
entry dest gw mask name = record {
  dest = dest;
  gw = gw;
  mask = mask;
  interface = take name_len name;
}

unfoldable pub append_route : Rt → List Rt → List Rt
append_route r [] = r ∷ []
append_route r (w ∷ ws) = w ∷ append_route r ws

unfoldable pub sr_add_rt_entry : Instance → ℕ → ℕ → ℕ → List ℕ → Instance
unfolding append_route
sr_add_rt_entry sr dest gw mask name = record sr {
  routing_table = append_route (entry dest gw mask name) sr.routing_table;
}
