-- ===== src/Node/Beacon.antt =====
-- radio2/src/node.c: what a beacon lists.
use old_radio.Base.{
  ℕ, zero, suc, ◌+◌, ◌*◌, ◌≤◌, ◌≡◌, refl, sym, ap, List, [], ◌∷◌, true, false, ltb, if◌then◌else◌,
  length, take, map, length-map, length-take, arith, Bool-cases, inl, inr,
}
use old_radio.Neigh.{Neigh}
use old_radio.Neigh.Live.{live}
use old_radio.Node.{
  Node, beacon, listed, maxneigh, neigh_size, node_beacon_size, beacon_loop, node_beacon,
}

abbrev pub listing : List Neigh → List Neigh
listing [] = []
listing (n ∷ ns) = if listed n then n ∷ listing ns else listing ns

take_nil : (m : ℕ) → take {A = Neigh} m [] ≡ []
take_nil zero = refl
take_nil (suc m) = refl

beacon_loop-take :
    (ns : List Neigh) (nneigh m : ℕ)
    → m + nneigh ≡ maxneigh
    → beacon_loop ns nneigh ≡ take m (listing ns)
unfolding beacon_loop
beacon_loop-take [] nneigh m h = sym (take_nil m)
beacon_loop-take (n ∷ ns) nneigh zero h =
    let full : ltb nneigh maxneigh ≡ false = ground arith in rw full
beacon_loop-take (n ∷ ns) nneigh (suc m) h =
    let room : ltb nneigh maxneigh ≡ true = ground arith in
    elim (Bool-cases (listed n)) [
      | inl shown ↦ rw (room, shown) (ap (◌∷◌ n) (beacon_loop-take ns (nneigh + 1) m (omega arith)))
      | inr hidden ↦ rw (room, hidden) (beacon_loop-take ns nneigh (suc m) h)
    ]

-- A beacon carries the node's status, the node itself with stratum 0, and behind it the first twelve of
-- the neighbours in use whose stratum is 1, 2 or NEIGH_STRATUM_INF: its length is that of the header and
-- these entries, and fits the buffer of node_beacon.
pub node_beacon-take :
    (node : Node)
    → (neighs : List Neigh) × (node_beacon node
        ≡ beacon
            (2 + neigh_size * (1 + length neighs))
            node.status
            (record { id = node.id; stratum = 0; loc = node.virtloc } ∷ neighs))
      × (neighs ≡ take 12 (listing (live node.neigh_table)))
      × (2 + neigh_size * length (node.id ∷ map (λ (n : Neigh). n.id) neighs) ≤ node_beacon_size)
unfolding node_beacon
node_beacon-take node =
    let ns = live node.neigh_table in
    let first = beacon_loop-take ns 1 12 refl in
    (
      beacon_loop ns 1,
      ap
          (λ (size : ℕ).
            beacon (2 + neigh_size * size) node.status
              (record { id = node.id; stratum = 0; loc = node.virtloc } ∷ beacon_loop ns 1))
          {x = length (record { id = node.id; stratum = 0; loc = node.virtloc } ∷ beacon_loop ns 1)}
          {y = 1 + length (beacon_loop ns 1)} (omega arith),
      first,
      omega (
        arith,
        length-map (λ (n : Neigh). n.id) (beacon_loop ns 1),
        ap length first,
        length-take 12 (listing ns),
      ),
    )
