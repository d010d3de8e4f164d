-- ===== src/Sim/Routes.antt =====
-- radio2/src/sim.c: what sim_route_test_one finds is a route.
use mathlib.Core.Path.{subst}
use old_radio.Base.{
  ℕ, zero, suc, ◌+◌, ◌<◌, ◌≡◌, refl, ap, ◌∙◌, inl, inr, List, ◌==◌, ==_iff, arith, Bool-cases,
}
use old_radio.Base.Run.{Run, ok, load, ◌>>=◌, ok_inj}
use old_radio.Loc.{Loc}
use old_radio.Neigh.{neigh_id_invalid}
use old_radio.Node.{Node, node_route_mfr}
use old_radio.Sim.{hop_loop, sim_route_test_one}

-- `n` hops lead from a node to `dest`, each the one that its node chooses.
pub data Route (nodes : List Node) (dest : ℕ) (loc : Loc) (maxstrat : ℕ) : ℕ → ℕ → Type 0 where
  last :
      (hop : ℕ) (node : Node)
      → load nodes hop ≡ ok node
      → node_route_mfr node dest loc maxstrat ≡ ok dest
      → Route nodes dest loc maxstrat 1 hop
  onward :
      (n hop next : ℕ) (node : Node)
      → load nodes hop ≡ ok node
      → node_route_mfr node dest loc maxstrat ≡ ok next
      → Route nodes dest loc maxstrat n next
      → Route nodes dest loc maxstrat (suc n) hop

bind-cases {ℓ κ} :
    {A : Type ℓ} {B : Type κ} (m : Run A) (f : A → Run B) (b : B)
    → (m >>= f) ≡ ok b
    → (a : A) × (m ≡ ok a) × (f a ≡ ok b)
bind-cases (ok a) f b h = (a, refl, h)
bind-cases Run.abort f b h = ground (arith, h)
bind-cases Run.fault f b h = ground (arith, h)
bind-cases Run.out_of_fuel f b h = ground (arith, h)

hop_loop-Route :
    (rounds : ℕ) (nodes : List Node) (i : ℕ) (target : Node) (dest maxstrat hop found : ℕ)
    → hop_loop rounds nodes i target dest maxstrat hop ≡ ok found
    → 0 < found
    → (n : ℕ) × (found + 1 ≡ i + n) × Route nodes dest target.virtloc maxstrat n hop
unfolding hop_loop
hop_loop-Route zero nodes i target dest maxstrat hop found e pos_found =
    absurd (omega (arith, ok_inj 0 found e))
hop_loop-Route (suc rounds) nodes i target dest maxstrat hop found e pos_found =
    let (node, loaded, rest) = bind-cases (load nodes hop) _ found e in
    let (next, routed, tail) =
      bind-cases (node_route_mfr node dest target.virtloc maxstrat) _ found rest in
    elim (Bool-cases (next == dest)) [
      | inl there ↦
          let done : ok i ≡ ok found = rw there at tail in
          let arrived : next ≡ dest = (==_iff next dest).0 there in
          (1, omega (arith, ok_inj i found done), last hop node loaded (routed ∙ ap ok arrived))
      | inr further ↦ elim (Bool-cases (next == neigh_id_invalid)) [
        | inl lost ↦
            let none_found : ok 0 ≡ ok found = rw (further, lost) at tail in
            absurd (omega (arith, ok_inj 0 found none_found))
        | inr going ↦
            let more : hop_loop rounds nodes (i + 1) target dest maxstrat next ≡ ok found =
              rw (further, going) at tail in
            let (n, count, route) =
              hop_loop-Route rounds nodes (i + 1) target dest maxstrat next found more pos_found in
            (suc n, omega (arith, count), onward n hop next node loaded routed route)
      ]
    ]

-- A number above zero that sim_route_test_one returns is the length of a route: so many hops, each the
-- one that node_route_mfr chooses at the node reached, lead from the first node to the second.
pub sim_route_test_one-Route :
    (nodes : List Node) (node1 node2 maxstrat found : ℕ)
    → sim_route_test_one nodes node1 node2 maxstrat ≡ ok found
    → 0 < found
    → (target : Node) × (load nodes node2 ≡ ok target)
      × Route nodes node2 target.virtloc maxstrat found node1
unfolding sim_route_test_one
sim_route_test_one-Route nodes node1 node2 maxstrat found e pos_found =
    let (target, loaded, rest) = bind-cases (load nodes node2) _ found e in
    let (n, count, route) =
      hop_loop-Route 99 nodes 1 target node2 maxstrat node1 found rest pos_found in
    let same : n ≡ found = omega arith in
    (
      target,
      loaded,
      subst (λ (m : ℕ). Route nodes node2 target.virtloc maxstrat m node1) same route,
    )
