-- ===== src/Node/Keeping.antt =====
-- radio2/src/node.c: what the parts of node_receive_beacon keep of a node.
use mathlib.Core.Path.{subst}
use old_radio.Base.{
  ℕ, ◌+◌, ◌%◌, ◌^◌, ◌≤◌, ◌<◌, ◌≡◌, refl, sym, ap, ◌⊎◌, inl, inr, List, [], ◌∷◌, true, false, ◌&&◌,
  not, ◌==◌, ltb, length, leb, take_all, ◌*◌, ◌-◌, ◌/◌, arith, Bool-cases,
}
use old_radio.Base.Run.{ok}
use old_radio.Loc.{Rand}
use old_radio.Neigh.{Neigh, NeighTable, neigh_max, neigh_stratum_inf}
use old_radio.Neigh.Table.{IsTable, neigh_table_insert_lem}
use old_radio.Node.{
  Status, Node, Message, Out, asleep, waking, awake, root, beacon, flood, data_packet, unknown,
  neigh_size, packet_data_size,
}
use old_radio.Node.Handlers.{
  counted, is_asleep, seen_self, record_loop, node_set_status, wake, record_beacon,
}

record_loop-IsTable :
    (id vtime : ℕ) (ns : List Neigh) (table : NeighTable)
    → IsTable table
    → length table + length ns ≤ neigh_max
    → (out : NeighTable) × (record_loop id vtime ns table ≡ ok out) × IsTable out
unfolding record_loop
record_loop-IsTable id vtime [] table valid room = (table, refl, valid)
record_loop-IsTable id vtime (n ∷ ns) table valid room =
    let nnn : Neigh = record n { stratum = (n.stratum + 1) % 2 ^ 8 } in
    elim (Bool-cases (not (n.id == id) && not (n.stratum == neigh_stratum_inf))) [
      | inl known ↦
          let (next, inserted, kept, at_id, elsewhere, size) =
            neigh_table_insert_lem table nnn vtime valid (inl (omega arith)) in
          let (out, recorded, last) = record_loop-IsTable id vtime ns next kept (omega arith) in
          (out, rw (record_loop, known, inserted) recorded, last)
      | inr passed ↦
          let (out, recorded, last) = record_loop-IsTable id vtime ns table valid (omega arith) in
          (out, rw (record_loop, passed) recorded, last)
    ]

-- What a packet may do to a node's status.
pub data Wakes : Status → Status → Type 0 where
  stays : (s : Status) → Wakes s s
  wakes : Wakes asleep waking

-- The entries that a packet carries.
abbrev pub carried : Message → List Neigh
carried (beacon size status neighs) = neighs
carried flood = []
carried (data_packet size packet) = []
carried unknown = []

-- A packet of the length that nodes send: a beacon has that of its entries, of which it carries its sender,
-- and a data packet has at least packet_data_t's.
abbrev pub IsSent : Message → Type 0
IsSent (beacon size status neighs) = (0 < length neighs) × (size ≡ 2 + neigh_size * length neighs)
IsSent flood = Unit
IsSent (data_packet size packet) = packet_data_size ≤ size
IsSent unknown = Unit

-- What a handler keeps.
pub record Kept (before after : Node) : Type 0 where
  pub same_id : after.id ≡ before.id
  pub wakes_only : Wakes before.status after.status
  pub table : IsTable after.neigh_table

pub asleep_or : (s : Status) → (s ≡ asleep) ⊎ (is_asleep s ≡ false)
asleep_or asleep = inl refl
asleep_or waking = inr refl
asleep_or awake = inr refl
asleep_or root = inr refl

pub Wakes-waking : (s t : Status) → s ≡ asleep → t ≡ waking → Wakes s t
Wakes-waking s t h k =
    subst (λ (a : Status). Wakes a t) (sym h) (subst (Wakes asleep) (sym k) wakes)

-- The test of node_receive_beacon passes on a beacon with the length of its entries, and it reads them all.
pub whole_beacon :
    (size : ℕ) (neighs : List Neigh)
    → length neighs ≤ neigh_max
    → size ≡ 2 + neigh_size * length neighs
    → ((size + 2 ^ 64 - 2) % 2 ^ 64 % neigh_size == 0 ≡ true)
      × (counted ((size + 2 ^ 64 - 2) % 2 ^ 64) neighs ≡ ok neighs)
unfolding counted
whole_beacon size neighs few whole =
    let count : (size + 2 ^ 64 - 2) % 2 ^ 64 / neigh_size % 2 ^ 32 ≡ length neighs = omega arith in
    let small : ltb (length neighs) (2 ^ 31) ≡ true = ground arith in
    let all : leb (length neighs) (length neighs) ≡ true = ground arith in
    (ground arith, rw (count, small, all) (ap ok (take_all (length neighs) neighs refl)))

module _ (rand : Rand) (dims : ℕ) (jitter : ℕ → ℕ) where
  pub record_beacon-Kept :
      (o : Out) (vtime : ℕ) (sender : Neigh) (neighs : List Neigh)
      → IsTable o.node.neigh_table
      → 0 < length neighs
      → length o.node.neigh_table + length neighs ≤ neigh_max
      → (out : Out) × (record_beacon rand dims jitter o vtime sender neighs ≡ ok out)
        × (out.node.id ≡ o.node.id)
        × (out.node.status ≡ o.node.status)
        × IsTable out.node.neigh_table
  unfolding record_beacon
  record_beacon-Kept o vtime sender neighs valid some_one room =
      let with_table : NeighTable → Out =
        λ t. record o { node = record o.node { neigh_table = t } } in
      elim (Bool-cases (seen_self o.node.id neighs)) [
        | inl seen ↦
            let (out, recorded, last) =
              record_loop-IsTable o.node.id vtime neighs o.node.neigh_table valid room in
            (with_table out, rw (seen, recorded), refl, refl, last)
        | inr unseen ↦
            let (out, inserted, last, at_id, elsewhere, size) =
              neigh_table_insert_lem o.node.neigh_table
                (record sender { stratum = neigh_stratum_inf }) vtime valid (inl (omega arith)) in
            (with_table out, rw (unseen, inserted), refl, refl, last)
      ]

  pub wake-same :
      (node : Node) (vtime : ℕ) (sender : Neigh) (seed : ℕ)
      → let o = wake rand dims jitter node vtime sender seed in
        (o.node.id ≡ node.id) × (o.node.status ≡ waking) × (o.node.neigh_table ≡ node.neigh_table)
  unfolding wake node_set_status
  wake-same node vtime sender seed = (refl, refl, refl)
