-- ===== src/Sim.antt =====
-- radio2/src/sim.c: the simulator's medium, which delivers a node's packets and timers through the queue
-- of events, and its test of routes. `rand` is a parameter, as in Loc. main's loop, which runs the nodes
-- on the events, is not modelled.
pub mod Routes
mod Tests
use old_radio.Base.{
  ℕ, zero, suc, ◌+◌, ◌-◌, ◌*◌, ◌%◌, ◌^◌, List, [], ◌∷◌, Option, none, some, Bool, true, false, ◌&&◌,
  not, ltb, ◌==◌, if◌then◌else◌, length,
}
use old_radio.Base.Run.{Run, ok, out_of_fuel, ◌>>=◌, load}
use old_radio.Loc.{Rand}
use old_radio.Neigh.{neigh_id_invalid}
use old_radio.Node.{Node, node_route_mfr}
use old_radio.Packet.{Heap, Packet, packet_clone}
use old_radio.Event.{Event, Queue, queue_insert}
use old_radio.Topo.{TopoEntry, TopoIter, topo_iter_new, topo_iter_next}

abbrev pub sim_prop_delay_base : ℕ
sim_prop_delay_base = 1000

abbrev pub sim_prop_delay_perbyte : ℕ
sim_prop_delay_perbyte = 1000

abbrev pub sim_prop_delay_min : ℕ
sim_prop_delay_min = 1000

abbrev pub sim_prop_delay_fuzz : ℕ
sim_prop_delay_fuzz = 1000

abbrev pub sim_timer_delay_fuzz : ℕ
sim_timer_delay_fuzz = 1000

-- The loop of sim_route_test_one from `i` on, with the rounds that are left. 0 stands for no route.
unfoldable pub hop_loop : ℕ → List Node → ℕ → Node → ℕ → ℕ → ℕ → Run ℕ
hop_loop zero nodes i target node2 maxstrat hop = ok 0
hop_loop (suc rounds) nodes i target node2 maxstrat hop = load nodes hop >>= λ node.
    node_route_mfr node node2 target.virtloc maxstrat >>= λ next.
    let rest = hop_loop rounds nodes (i + 1) target node2 maxstrat next in
    if next == node2 then ok i else (if next == neigh_id_invalid then ok 0 else rest)

unfoldable pub sim_route_test_one : List Node → ℕ → ℕ → ℕ → Run ℕ
unfolding hop_loop
sim_route_test_one nodes node1 node2 maxstrat =
    load nodes node2 >>= λ target. hop_loop 99 nodes 1 target node2 maxstrat node1

abbrev pub counted : ℕ → ℕ → ℕ → ℕ
counted forth back success = if not (forth == 0) && not (back == 0) then success + 1 else success

-- The loop of sim_route_test over the nodes from `i` on: the two counts that it prints.
unfoldable pub route_test_loop : ℕ → List Node → ℕ → ℕ → ℕ → Run (ℕ × ℕ)
unfolding sim_route_test_one
route_test_loop zero nodes i success1 success2 = ok (success1, success2)
route_test_loop (suc left) nodes i success1 success2 = do
  h11 ← sim_route_test_one nodes i 0 1
  h12 ← sim_route_test_one nodes 0 i 1
  h21 ← sim_route_test_one nodes i 0 2
  h22 ← sim_route_test_one nodes 0 i 2
  route_test_loop left nodes (i + 1) (counted h11 h12 success1) (counted h21 h22 success2)

unfoldable pub sim_route_test : List Node → Run (ℕ × ℕ)
unfolding route_test_loop
sim_route_test nodes = route_test_loop (length nodes - 1) nodes 1 1 1

-- What the medium works on.
pub record Sim : Type 0 where
  pub queue : Queue
  pub packets : Heap
  pub seed : ℕ

module _ (rand : Rand) where
  -- The delay is a `long`, which packets of the sizes that there are do not make overflow.
  unfoldable pub sim_prop_delay : ℕ → Packet → ℕ → ℕ × ℕ
  sim_prop_delay vtime packet seed =
      let (r, next) = rand seed in
      let delay =
        sim_prop_delay_base + sim_prop_delay_perbyte * packet.size + r % sim_prop_delay_fuzz in
      (
        (vtime + (if ltb delay sim_prop_delay_min then sim_prop_delay_min else delay)) % 2 ^ 64,
        next,
      )

  unfoldable pub sim_timer_delay : ℕ → ℕ → ℕ × ℕ
  sim_timer_delay vtime seed =
      let (r, next) = rand seed in ((vtime + r % sim_timer_delay_fuzz) % 2 ^ 64, next)

  module _ (Prob : Type 0) (impossible : Prob) (eschaton : ℕ) where
    -- One link of the loop in sim_callback: the packet is on its way to the link's other end.
    unfoldable pub deliver : Sim → ℕ → ℕ → Packet → Option ℕ → ℕ → Run Sim
    unfolding sim_prop_delay
    deliver sim vtime p packet extra dst =
        let (at, next) = sim_prop_delay vtime packet sim.seed in
        let queued : Run Sim = packet_clone p sim.packets >>= λ (copy, packets).
        queue_insert sim.queue
          (record { vtime = at; node = some dst; packet = some copy; extra = extra })
        >>= λ queue. ok (record { queue = queue; packets = packets; seed = next }) in
        if ltb at eschaton then queued else ok (record sim { seed = next })

    -- The loop of sim_callback, on fuel; `slots` is the fuel of each search.
    unfoldable pub link_loop :
        ℕ
        → ℕ
        → List (TopoEntry Prob impossible)
        → TopoIter Prob impossible
        → Sim
        → ℕ
        → ℕ
        → Packet
        → Option ℕ
        → Run Sim
    unfolding deliver
    link_loop zero slots table iter sim vtime p packet extra = out_of_fuel
    link_loop (suc fuel) slots table iter sim vtime p packet extra =
        topo_iter_next Prob impossible slots table iter >>= λ (found, moved). elim found [
          | none ↦ ok sim
          | some t ↦ deliver sim vtime p packet extra t.dst >>= λ after.
              link_loop fuel slots table moved after vtime p packet extra
        ]

    unfoldable pub sim_callback_timer : Sim → ℕ → ℕ → Option ℕ → Run Sim
    unfolding sim_timer_delay
    sim_callback_timer sim id vtime extra =
        let (at, next) = sim_timer_delay vtime sim.seed in
        let queued : Run Sim =
          queue_insert sim.queue
            (record { vtime = at; node = some id; packet = none; extra = extra })
          >>= λ queue. ok (record sim { queue = queue; seed = next }) in
        if ltb at eschaton then queued else ok (record sim { seed = next })

    unfoldable pub sim_callback_packet :
        ℕ → List (TopoEntry Prob impossible) → Sim → ℕ → ℕ → ℕ → Packet → Option ℕ → Run Sim
    unfolding link_loop
    sim_callback_packet slots table sim id vtime p packet extra =
        link_loop (slots + 1) slots table (topo_iter_new Prob impossible id) sim vtime p packet
          extra
