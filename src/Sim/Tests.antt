-- ===== src/Sim/Tests.antt =====
-- Two nodes that hear each other.
use old_radio.Base.{ℕ, ◌≡◌, refl, List, [], ◌∷◌, arith}
use old_radio.Base.Run.{ok, load}
use old_radio.Loc.{loc_zero, loc_dist2}
use old_radio.Node.{Node, awake, node_route_mfr, route_loop, scan}
use old_radio.Sim.{sim_route_test_one, hop_loop}
use old_radio.Sim.Routes.{Route, sim_route_test_one-Route}

abbrev beside : ℕ → ℕ → Node
beside id other = record {
  id = id;
  status = awake;
  neigh_table =
      record { neigh = record { id = other; stratum = 1; loc = loc_zero }; expiry = 30000000 } ∷ [];
  virtloc = loc_zero;
  flood_timeout = 0;
  wake_time = 0;
}

abbrev pair : List Node
pair = beside 0 1 ∷ beside 1 0 ∷ []

pair-route : sim_route_test_one pair 1 0 1 ≡ ok 1
unfolding sim_route_test_one hop_loop node_route_mfr route_loop scan loc_dist2
pair-route = refl

sim_route_test_one-Route_example :
    (target : Node) × (load pair 0 ≡ ok target) × Route pair 0 target.virtloc 1 1 1
sim_route_test_one-Route_example = sim_route_test_one-Route pair 1 0 1 1 pair-route (omega arith)
