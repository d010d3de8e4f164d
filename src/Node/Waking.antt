-- ===== src/Node/Waking.antt =====
-- radio2/src/node.c: the states of a node, and what packets do to it.
use mathlib.Core.Path.{subst}
use old_radio.Base.{
  ℕ, ◌+◌, ◌≤◌, ◌<◌, ◌≡◌, refl, sym, ap, ◌∙◌, inl, inr, List, [], ◌∷◌, true, ◌==◌, ltb, length, leb,
  ◌*◌, arith, Bool-cases,
}
use old_radio.Base.Run.{ok}
use old_radio.Base.Int.{pos, ◌-ℤ◌, to_i32}
use old_radio.Loc.{Rand}
use old_radio.Neigh.{Neigh, neigh_max, neigh_id_invalid}
use old_radio.Neigh.Table.{IsTable}
use old_radio.Node.{
  Status, Node, PacketData, Message, Out, beacon, flood, data_packet, unknown, neigh_size,
  packet_data_size,
}
use old_radio.Node.Handlers.{
  is_asleep, is_waking, quiet, wake, node_receive_beacon, node_send_data, node_forward_data,
  node_receive_data, node_send_flood, node_receive_flood, node_receive,
}
use old_radio.Node.Route.{node_route_mfr-Hop}
use old_radio.Node.Keeping.{
  Wakes, stays, carried, IsSent, Kept, asleep_or, Wakes-waking, whole_beacon, record_beacon-Kept,
  wake-same,
}

module _ (rand : Rand) (dims : ℕ) (jitter : ℕ → ℕ) where
  receive_beacon-Kept :
      (node : Node) (vtime size : ℕ) (status : Status) (neighs : List Neigh) (seed : ℕ)
      → IsTable node.neigh_table
      → 0 < length neighs
      → size ≡ 2 + neigh_size * length neighs
      → length node.neigh_table + length neighs ≤ neigh_max
      → (out : Out) × (node_receive_beacon rand dims jitter node vtime size status neighs seed
          ≡ ok out)
        × Kept node out.node
  unfolding node_receive_beacon
  receive_beacon-Kept node vtime size status [] seed valid some_one whole room =
      absurd (omega arith)
  receive_beacon-Kept node vtime size status (n ∷ ns) seed valid some_one whole room =
      let (wanted, heard_all) = whole_beacon size (n ∷ ns) (omega arith) whole in
      elim (asleep_or node.status) [
        | inl sleeping ↦
            let test : is_asleep node.status ≡ true = ap is_asleep sleeping in
            elim (Bool-cases (is_waking status)) [
              | inl ignored ↦ (
                quiet node seed,
                rw (wanted, test, ignored),
                record { same_id = refl; wakes_only = stays node.status; table = valid },
              )
              | inr heard ↦
                  let o = wake rand dims jitter node vtime n seed in
                  let (id, woken, same) = wake-same rand dims jitter node vtime n seed in
                  let (out, recorded, out_id, out_status, last) =
                    record_beacon-Kept rand dims jitter o vtime n (n ∷ ns)
                      (subst IsTable (sym same) valid) some_one
                      (omega (arith, room, ap length same)) in
                  (
                    out,
                    rw (wanted, test, heard, heard_all) recorded,
                    record {
                      same_id = out_id ∙ id;
                      wakes_only =
                          Wakes-waking node.status out.node.status sleeping (out_status ∙ woken);
                      table = last;
                    },
                  )
            ]
        | inr up ↦
            let (out, recorded, out_id, out_status, last) =
              record_beacon-Kept rand dims jitter (quiet node seed) vtime n (n ∷ ns) valid some_one
                room in
            (
              out,
              rw (wanted, up, heard_all) recorded,
              record {
                same_id = out_id;
                wakes_only = subst (Wakes node.status) (sym out_status) (stays node.status);
                table = last;
              },
            )
      ]

  unchanged : (node after : Node) → after ≡ node → IsTable node.neigh_table → Kept node after
  unchanged node after e valid =
      subst (Kept node) (sym e)
        (record { same_id = refl; wakes_only = stays node.status; table = valid })

  forward-same :
      (node : Node) (vtime : ℕ) (packet : PacketData) (seed : ℕ)
      → (out : Out) × (node_forward_data rand dims jitter node vtime packet seed ≡ ok out)
        × (out.node ≡ node)
  unfolding node_forward_data node_send_data
  forward-same node vtime packet seed =
      let (hop, routed, kind) = node_route_mfr-Hop node packet.dst packet.dstloc 1 in
      elim (Bool-cases (hop == neigh_id_invalid)) [
        | inl nowhere ↦ (quiet node seed, rw (routed, nowhere), refl)
        | inr there ↦
            let sent : PacketData = record packet {
              ttl = to_i32 (packet.ttl -ℤ pos 1);
              hop = hop;
            } in
            (node_send_data rand dims jitter node vtime sent seed, rw (routed, there), refl)
      ]

  receive_data-same :
      (node : Node) (vtime size : ℕ) (packet : PacketData) (seed : ℕ)
      → packet_data_size ≤ size
      → (out : Out) × (node_receive_data rand dims jitter node vtime size packet seed ≡ ok out)
        × (out.node ≡ node)
  unfolding node_receive_data
  receive_data-same node vtime size packet seed long =
      let whole : leb packet_data_size size ≡ true = ground arith in
      elim (Bool-cases (packet.hop == node.id)) [
        | inr elsewhere ↦ (quiet node seed, rw (whole, elsewhere), refl)
        | inl here ↦ elim (Bool-cases (packet.dst == node.id)) [
          | inl arrived ↦ (quiet node seed, rw (whole, here, arrived), refl)
          | inr onward ↦
              let (out, sent, same) = forward-same node vtime packet seed in
              (out, rw (whole, here, onward) sent, same)
        ]
      ]

  -- A packet of the length that nodes send (for a beacon, that of its header and of its entries, at least
  -- one; for a data packet, at least packet_data_t's) at a node whose table is well formed and has room for
  -- all that the packet carries: node_receive returns. It changes no id; the status stays, or goes from
  -- asleep to waking; and the table stays well formed.
  pub node_receive-Kept :
      (node : Node) (vtime : ℕ) (message : Message) (reply : PacketData) (seed : ℕ)
      → IsTable node.neigh_table
      → IsSent message
      → length node.neigh_table + length (carried message) ≤ neigh_max
      → (out : Out) × (node_receive rand dims jitter node vtime message reply seed ≡ ok out)
        × Kept node out.node
  unfolding node_receive node_receive_flood node_send_flood node_send_data
  node_receive-Kept node vtime (beacon size status neighs) reply seed valid sent room =
      receive_beacon-Kept node vtime size status neighs seed valid sent.0 sent.1 room
  node_receive-Kept node vtime flood reply seed valid sent room =
      elim (Bool-cases (ltb node.flood_timeout vtime)) [
        | inl due ↦ (
          node_receive_flood rand dims jitter node vtime reply seed,
          refl,
          rw due (record { same_id = refl; wakes_only = stays node.status; table = valid }),
        )
        | inr early ↦ (
          node_receive_flood rand dims jitter node vtime reply seed,
          refl,
          rw early (record { same_id = refl; wakes_only = stays node.status; table = valid }),
        )
      ]
  node_receive-Kept node vtime (data_packet size packet) reply seed valid sent room =
      let (out, received, same) = receive_data-same node vtime size packet seed sent in
      (out, received, unchanged node out.node same valid)
  node_receive-Kept node vtime unknown reply seed valid sent room = (
    quiet node seed,
    refl,
    record { same_id = refl; wakes_only = stays node.status; table = valid },
  )
