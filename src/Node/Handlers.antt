-- ===== src/Node/Handlers.antt =====
-- radio2/src/node.c: what a node does when it is made, when a packet arrives and when its timer runs out.
use old_radio.Base.{
  ℕ, ◌+◌, ◌-◌, ◌/◌, ◌%◌, ◌^◌, List, [], ◌∷◌, ◌++◌, length, take, Bool, true, false, ◌&&◌, ◌||◌, not,
  ltb, leb, ◌==◌, if◌then◌else◌,
}
use old_radio.Base.Run.{Run, ok, ◌>>=◌, ◌>>◌, load, assert, within}
use old_radio.Base.Int.{pos, ◌-ℤ◌, to_i32, pos_part, signed32}
use old_radio.Loc.{Rand, loc_perturb, loc_zero}
use old_radio.Neigh.{
  Neigh, NeighTable, neigh_id_invalid, neigh_stratum_inf, neigh_table_new, neigh_table_insert,
}
use old_radio.Virtloc.{Floats, virtloc_init, virtloc_recalc}
use old_radio.Node.{
  Status, Node, PacketData, Message, Out, asleep, waking, awake, root, beacon, flood, data_packet,
  unknown, timer, send, neigh_size, header_size, packet_data_size, flood_period, beacon_period,
  wakeup_period, node_ttl_max, later, node_route_mfr, node_beacon,
}

abbrev pub is_asleep : Status → Bool
is_asleep asleep = true
is_asleep waking = false
is_asleep awake = false
is_asleep root = false

abbrev pub is_waking : Status → Bool
is_waking asleep = false
is_waking waking = true
is_waking awake = false
is_waking root = false

abbrev pub is_root : Status → Bool
is_root asleep = false
is_root waking = false
is_root awake = false
is_root root = true

-- The entries of a beacon that its length counts, as an `int`; reading past the packet's memory is a fault.
unfoldable pub counted : ℕ → List Neigh → Run (List Neigh)
counted body neighs =
    let nneigh = pos_part (signed32 (body / neigh_size % 2 ^ 32)) in
    within (leb nneigh (length neighs)) >> ok (take nneigh neighs)

abbrev pub quiet : Node → ℕ → Out
quiet node seed = record { node = node; calls = []; seed = seed }

-- The loop that looks for the node in the list that a beacon carries.
unfoldable pub seen_self : ℕ → List Neigh → Bool
seen_self id [] = false
seen_self id (n ∷ ns) =
    ((n.id == id) && ((n.stratum == 1) || (n.stratum == neigh_stratum_inf))) || seen_self id ns

-- The loop that records what a beacon carries; the stratum has 8 bits.
unfoldable pub record_loop : ℕ → ℕ → List Neigh → NeighTable → Run NeighTable
record_loop id vtime [] table = ok table
record_loop id vtime (n ∷ ns) table =
    let known : Bool = not (n.id == id) && not (n.stratum == neigh_stratum_inf) in
    let nnn : Neigh = record n { stratum = (n.stratum + 1) % 2 ^ 8 } in
    (if known then neigh_table_insert table nnn vtime else ok table) >>= λ next.
    record_loop id vtime ns next

module _ (rand : Rand) (dims : ℕ) (jitter : ℕ → ℕ) where
  unfoldable pub node_set_status : Node → ℕ → Status → ℕ → Out
  node_set_status node vtime status seed =
      let (r, next) = rand seed in
      let changed : Node = record node { status = status } in
      if is_asleep status
      then quiet changed seed
      else if is_root status
      then record { node = changed; calls = timer vtime ∷ []; seed = seed }
      else record { node = changed; calls = timer (later vtime (jitter r)) ∷ []; seed = next }

  -- `opt_root` and `opt_awake`: whether node_opts has an R, and an A.
  unfoldable pub node_init : ℕ → Bool → Bool → ℕ → Out
  unfolding node_set_status
  node_init id opt_root opt_awake seed =
      let (loc, next) = virtloc_init rand dims id seed in
      let node : Node = record {
        id = id;
        status = asleep;
        neigh_table = neigh_table_new;
        virtloc = loc;
        flood_timeout = 0;
        wake_time = 0;
      } in
      if opt_root && (id == 0)
      then node_set_status node 0 root next
      else if opt_awake
      then node_set_status node 0 awake next
      else quiet node next

  -- A node that a beacon wakes.
  unfoldable pub wake : Node → ℕ → Neigh → ℕ → Out
  unfolding node_set_status
  wake node vtime sender seed =
      let o = node_set_status node vtime waking seed in
      let (near, next) = loc_perturb rand dims sender.loc 5 o.seed in
      record {
        node = record o.node { wake_time = later vtime wakeup_period; virtloc = near };
        calls = o.calls ++ timer (later vtime beacon_period) ∷ [];
        seed = next;
      }

  -- The rest of node_receive_beacon: neighbours are recorded only from a beacon that lists this node.
  unfoldable pub record_beacon : Out → ℕ → Neigh → List Neigh → Run Out
  unfolding seen_self record_loop
  record_beacon o vtime sender neighs =
      let one_way : Neigh = record sender { stratum = neigh_stratum_inf } in
      (if seen_self o.node.id neighs
        then record_loop o.node.id vtime neighs o.node.neigh_table
        else neigh_table_insert o.node.neigh_table one_way vtime)
      >>= λ table. ok (record o { node = record o.node { neigh_table = table } })

  -- `size` is packet->length; the subtraction of the header's wraps at 64 bits.
  unfoldable pub node_receive_beacon : Node → ℕ → ℕ → Status → List Neigh → ℕ → Run Out
  unfolding wake record_beacon counted
  node_receive_beacon node vtime size sender_status neighs seed =
      let body = (size + 2 ^ 64 - header_size) % 2 ^ 64 in
      assert (body % neigh_size == 0)
      >> (load neighs 0 >>= λ sender.
          let recorded : Out → Run Out =
            λ o. counted body neighs >>= λ heard. record_beacon o vtime sender heard in
          if is_asleep node.status
          then (if is_waking sender_status
              then ok (quiet node seed)
              else recorded (wake node vtime sender seed))
          else recorded (quiet node seed))

  unfoldable pub node_send_data : Node → ℕ → PacketData → ℕ → Out
  node_send_data node vtime packet seed = record {
    node = node;
    calls = send vtime (data_packet packet_data_size packet) ∷ [];
    seed = seed;
  }

  unfoldable pub node_forward_data : Node → ℕ → PacketData → ℕ → Run Out
  unfolding node_send_data
  node_forward_data node vtime packet seed =
      node_route_mfr node packet.dst packet.dstloc 1 >>= λ hop.
      let sent : PacketData = record packet { ttl = to_i32 (packet.ttl -ℤ pos 1); hop = hop } in
      ok (if hop == neigh_id_invalid then quiet node seed else node_send_data node vtime sent seed)

  unfoldable pub node_receive_data : Node → ℕ → ℕ → PacketData → ℕ → Run Out
  unfolding node_forward_data
  node_receive_data node vtime size packet seed =
      assert (leb packet_data_size size)
      >> (if not (packet.hop == node.id)
          then ok (quiet node seed)
          else if packet.dst == node.id
          then ok (quiet node seed)
          else node_forward_data node vtime packet seed)

  unfoldable pub node_send_flood : Node → ℕ → ℕ → Out
  node_send_flood node vtime seed =
      if ltb node.flood_timeout vtime
      then record {
        node = record node { flood_timeout = later vtime flood_period };
        calls = send vtime flood ∷ [];
        seed = seed;
      }
      else quiet node seed

  -- `reply` has the fields that the function leaves unset.
  unfoldable pub node_receive_flood : Node → ℕ → PacketData → ℕ → Out
  unfolding node_send_flood node_send_data
  node_receive_flood node vtime reply seed =
      let o = node_send_flood node vtime seed in
      let sent : PacketData = record reply { src = o.node.id; srcloc = o.node.virtloc } in
      let answer = node_send_data o.node vtime sent o.seed in
      record answer { calls = o.calls ++ answer.calls }

  unfoldable pub node_receive : Node → ℕ → Message → PacketData → ℕ → Run Out
  unfolding node_receive_beacon node_receive_flood node_receive_data
  node_receive node vtime (beacon size status neighs) reply seed =
      node_receive_beacon node vtime size status neighs seed
  node_receive node vtime flood reply seed = ok (node_receive_flood node vtime reply seed)
  node_receive node vtime (data_packet size packet) reply seed =
      node_receive_data node vtime size packet seed
  node_receive node vtime unknown reply seed = ok (quiet node seed)

  unfoldable pub node_timer : Floats → Node → ℕ → ℕ → Out
  unfolding node_set_status
  node_timer floats node vtime seed =
      let o =
        if is_waking node.status && leb node.wake_time vtime
        then node_set_status node vtime awake seed
        else quiet node seed in
      let (loc, next) = virtloc_recalc floats rand dims o.node.virtloc o.node.neigh_table o.seed in
      let moved : Node = record o.node { virtloc = loc } in
      let (r, last) = rand next in
      record {
        node = moved;
        calls = o.calls ++ send vtime (node_beacon moved) ∷ timer (later vtime (jitter r)) ∷ [];
        seed = last;
      }

  unfoldable pub node_route_test : Node → ℕ → ℕ → Run Out
  unfolding node_forward_data
  node_route_test node vtime seed =
      node_forward_data node vtime
        (record {
          src = node.id;
          dst = 0;
          hop = 0;
          srcloc = node.virtloc;
          dstloc = loc_zero;
          ttl = pos node_ttl_max;
          vtime = vtime;
        })
        seed
