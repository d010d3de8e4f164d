-- ===== src/Node/Tests.antt =====
-- A node with three neighbours.
use old_radio.Base.{ℕ, ◌+◌, ◌*◌, ◌%◌, ◌≤◌, ◌≡◌, refl, List, [], ◌∷◌, take, map, length, arith}
use old_radio.Base.Run.{ok, fault}
use old_radio.Base.Int.{pos}
use old_radio.Loc.{Loc, Rand, loc_zero}
use old_radio.Neigh.{Neigh, NeighEntry, NeighTable}
use old_radio.Neigh.Table.{IsTable}
use old_radio.Neigh.Live.{live}
use old_radio.Node.{
  Node, Message, PacketData, Out, asleep, awake, beacon, node_route_mfr, node_beacon, neigh_size,
  node_beacon_size,
}
use old_radio.Node.Handlers.{node_receive, node_receive_beacon, counted}
use old_radio.Node.Route.{Hop, node_route_mfr-Hop}
use old_radio.Node.Beacon.{listing, node_beacon-take}
use old_radio.Node.Keeping.{Kept}
use old_radio.Node.Waking.{node_receive-Kept}

abbrev at : ℕ → Loc
at x = record { x = pos x; y = pos 0; z = pos 0 }

abbrev known_at : ℕ → ℕ → ℕ → NeighEntry
known_at id stratum x = record {
  neigh = record { id = id; stratum = stratum; loc = at x };
  expiry = 30000000;
}

abbrev test_table : NeighTable
test_table = known_at 2 1 10 ∷ known_at 3 2 40 ∷ known_at 4 1 30 ∷ []

abbrev test_node : Node
test_node = record {
  id = 1;
  status = asleep;
  neigh_table = test_table;
  virtloc = loc_zero;
  flood_timeout = 0;
  wake_time = 0;
}

abbrev dice : Rand
dice seed = (seed, (seed * 5 + 3) % 16)

abbrev no_packet : PacketData
no_packet = record {
  src = 0;
  dst = 0;
  hop = 0;
  srcloc = loc_zero;
  dstloc = loc_zero;
  ttl = pos 0;
  vtime = 0;
}

test_table-IsTable : IsTable test_table
test_table-IsTable = record { short = omega arith; unique = (refl, (refl, (refl, tt))) }

node_route_mfr-Hop_example :
    (hop : ℕ) × (node_route_mfr test_node 3 (at 40) 2 ≡ ok hop) × Hop test_node hop
node_route_mfr-Hop_example = node_route_mfr-Hop test_node 3 (at 40) 2

node_beacon-take_example :
    (neighs : List Neigh) × (node_beacon test_node
      ≡ beacon
          (2 + neigh_size * (1 + length neighs))
          asleep
          (record { id = 1; stratum = 0; loc = loc_zero } ∷ neighs))
    × (neighs ≡ take 12 (listing (live test_table)))
    × (2 + neigh_size * length (1 ∷ map (λ (n : Neigh). n.id) neighs) ≤ node_beacon_size)
node_beacon-take_example = node_beacon-take test_node

abbrev heard : Message
heard = beacon 17 awake (record { id = 9; stratum = 0; loc = at 5 } ∷ [])

-- A beacon of one byte passes the test of its length, and has 286331153 entries.
one_byte_test :
    node_receive dice 3
      (λ r. r)
      (record test_node { status = awake })
      1000
      (beacon 1 awake (record { id = 9; stratum = 0; loc = at 5 } ∷ []))
      no_packet
      1
    ≡ fault
unfolding node_receive node_receive_beacon counted
one_byte_test = refl

node_receive-Kept_example :
    (out : Out) × (node_receive dice 3 (λ r. 500000 + r) test_node 1000 heard no_packet 1 ≡ ok out)
    × Kept test_node out.node
node_receive-Kept_example =
    node_receive-Kept dice 3 (λ r. 500000 + r) test_node 1000 heard no_packet 1 test_table-IsTable
      (omega arith, omega arith) (omega arith)
