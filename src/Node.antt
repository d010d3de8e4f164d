-- ===== src/Node.antt =====
-- radio2/src/node.c and node.h: a node, which wakes on a beacon, keeps its neighbours, routes data packets
-- and sends beacons. What a packet holds is its message; the layout of its bytes is not modelled.
-- Node_callback is taken to be registered, as the handlers assert; its calls are the result's `calls`, in
-- order. The delay of the next timer, a `float` that depends on one rand(), is the parameter `jitter`.
mod Route
mod Beacon
mod Keeping
mod Waking
pub mod Handlers
mod Tests
use old_radio.Base.{
  ℕ, zero, suc, ◌+◌, ◌-◌, ◌*◌, ◌/◌, ◌%◌, ◌^◌, List, [], ◌∷◌, ◌++◌, Option, none, some, Bool, true,
  false, ◌&&◌, ◌||◌, not, ltb, leb, ◌==◌, if◌then◌else◌, length,
}
use old_radio.Base.Run.{Run, ok, abort, fault, out_of_fuel, ◌>>=◌, ◌>>◌, assert, load}
use old_radio.Base.Int.{ℤ, pos, ◌-ℤ◌}
use old_radio.Loc.{Loc, Rand, loc_dist2, loc_perturb, loc_zero}
use old_radio.Neigh.{
  Neigh, NeighTable, neigh_id_invalid, neigh_stratum_inf, neigh_table_new, neigh_table_insert,
}
use old_radio.Neigh.Live.{live}
use old_radio.Virtloc.{Floats, virtloc_init, virtloc_recalc}

-- The NODE_STATUS constants.
pub data Status : Type 0 where
  asleep : Status
  waking : Status
  awake : Status
  root : Status

pub record Node : Type 0 where
  pub id : ℕ
  pub status : Status
  pub neigh_table : NeighTable
  pub virtloc : Loc
  pub flood_timeout : ℕ
  pub wake_time : ℕ

pub record PacketData : Type 0 where
  pub src : ℕ
  pub dst : ℕ
  pub hop : ℕ
  pub srcloc : Loc
  pub dstloc : Loc
  pub ttl : ℤ
  pub vtime : ℕ

-- By packet type, with the packet's length and what its bytes hold; `unknown` is any other type, or no bytes.
-- The entries of a beacon are those that stand in the packet's memory behind its header.
pub data Message : Type 0 where
  beacon : ℕ → Status → List Neigh → Message
  flood : Message
  data_packet : ℕ → PacketData → Message
  unknown : Message

-- A call of Node_callback: without a packet it asks for a timer.
pub data Call : Type 0 where
  timer : ℕ → Call
  send : ℕ → Message → Call

pub record Out : Type 0 where
  pub node : Node
  pub calls : List Call
  pub seed : ℕ

abbrev pub flood_period : ℕ
flood_period = 1 * 1000000

abbrev pub beacon_period : ℕ
beacon_period = 1 * 1000000

abbrev pub wakeup_period : ℕ
wakeup_period = 2500000

abbrev pub node_ttl_max : ℕ
node_ttl_max = 100

abbrev pub node_beacon_size : ℕ
node_beacon_size = 200

abbrev pub node_beacon_maxstrat : ℕ
node_beacon_maxstrat = 2

-- sizeof(neigh_t), packed.
abbrev pub neigh_size : ℕ
neigh_size = 15

-- sizeof(node_beacon_header_t) and sizeof(packet_data_t), packed.
abbrev pub header_size : ℕ
header_size = 2

abbrev pub packet_data_size : ℕ
packet_data_size = 43

-- The `maxneigh` of node_beacon.
abbrev pub maxneigh : ℕ
maxneigh = (node_beacon_size - 2) / neigh_size

abbrev pub later : ℕ → ℕ → ℕ
later vtime delay = (vtime + delay) % 2 ^ 64

-- The scan of node_route_mfr: the neighbour that it ends with. A stratum is allowed if it is below
-- `strata`, which is maxstrat + 1.
unfoldable pub scan : List Neigh → ℕ → Loc → ℕ → ℕ → Option Neigh → Option Neigh
scan [] dest_id dest_loc strata min_dist2 min_neigh = min_neigh
scan (n ∷ ns) dest_id dest_loc strata min_dist2 min_neigh =
    let dist2 = loc_dist2 n.loc dest_loc in
    let allowed = ltb n.stratum strata in
    let nearer = allowed && ltb dist2 min_dist2 in
    let rest =
      scan ns dest_id dest_loc strata (if nearer then dist2 else min_dist2)
        (if nearer then some n else min_neigh) in
    if allowed && (n.id == dest_id) then some n else rest

-- node_route_mfr, on fuel: a path to a neighbour of a higher stratum is looked for among the lower ones.
unfoldable pub route_loop : ℕ → Node → ℕ → Loc → ℕ → Run ℕ
unfolding scan
route_loop zero node dest_id dest_loc strata = out_of_fuel
route_loop (suc fuel) node dest_id dest_loc strata =
    elim (scan (live node.neigh_table) dest_id dest_loc strata (loc_dist2 node.virtloc dest_loc)
      none) [
        | none ↦ ok neigh_id_invalid
        | some n ↦
            let deeper = route_loop fuel node n.id n.loc n.stratum in
            if n.stratum == 1 then ok n.id else deeper
      ]

unfoldable pub node_route_mfr : Node → ℕ → Loc → ℕ → Run ℕ
unfolding route_loop
node_route_mfr node dest_id dest_loc maxstrat =
    route_loop (maxstrat + 2) node dest_id dest_loc (maxstrat + 1)

-- Whether node_beacon lists a neighbour.
abbrev pub listed : Neigh → Bool
listed n =
    (leb 1 n.stratum && leb n.stratum node_beacon_maxstrat) || (n.stratum == neigh_stratum_inf)

-- The loop of node_beacon over the neighbours in use, from `nneigh` entries.
unfoldable pub beacon_loop : List Neigh → ℕ → List Neigh
beacon_loop [] nneigh = []
beacon_loop (n ∷ ns) nneigh =
    let rest = beacon_loop ns (if listed n then nneigh + 1 else nneigh) in
    if ltb nneigh maxneigh then (if listed n then n ∷ rest else rest) else []

unfoldable pub node_beacon : Node → Message
unfolding beacon_loop
node_beacon node =
    let neighs : List Neigh =
      record { id = node.id; stratum = 0; loc = node.virtloc }
      ∷ beacon_loop (live node.neigh_table) 1 in
    beacon (header_size + neigh_size * length neighs) node.status neighs
