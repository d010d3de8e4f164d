-- ===== src/Node/Route.antt =====
-- radio2/src/node.c: the recursion of node_route_mfr ends, at a neighbour that the radio reaches.
use old_radio.Base.{
  ℕ, zero, suc, ◌+◌, ◌<◌, ◌≡◌, refl, ◌⊎◌, inl, inr, List, [], ◌∷◌, Option, none, some, Bool, true,
  false, ◌&&◌, ltb, ◌==◌, if◌then◌else◌, get_elem?, arith, ltb→lt, Option-cases, ℕ_discrete,
}
use old_radio.Base.Run.{ok}
use old_radio.Loc.{Loc, loc_dist2}
use old_radio.Neigh.{Neigh, neigh_id_invalid}
use old_radio.Neigh.Live.{live}
use old_radio.Node.{Node, scan, route_loop, node_route_mfr}

abbrev pub Holds : List Neigh → Neigh → Type 0
Holds ns n = (i : ℕ) × (get_elem? ns i ≡ some n)

if-cases {ℓ} :
    {A : Type ℓ} (c : Bool) (x y v : A)
    → (if c then x else y) ≡ v
    → ((c ≡ true) × (x ≡ v)) ⊎ ((c ≡ false) × (y ≡ v))
if-cases true x y v h = inl (refl, h)
if-cases false x y v h = inr (refl, h)

and-left : (a b : Bool) → (a && b) ≡ true → a ≡ true
and-left true b h = refl
and-left false b h = h

-- The neighbour that the scan ends with is the one it starts with, or an allowed one of the list.
scan-cases :
    (ns : List Neigh) (dest_id : ℕ) (dest_loc : Loc) (strata min_dist2 : ℕ)
    (min_neigh : Option Neigh) (n : Neigh)
    → scan ns dest_id dest_loc strata min_dist2 min_neigh ≡ some n
    → (min_neigh ≡ some n) ⊎ (Holds ns n × (n.stratum < strata))
unfolding scan
scan-cases [] dest_id dest_loc strata min_dist2 min_neigh n h = inl h
scan-cases (x ∷ ns) dest_id dest_loc strata min_dist2 min_neigh n h =
    let dist2 = loc_dist2 x.loc dest_loc in
    let allowed = ltb x.stratum strata in
    let nearer = allowed && ltb dist2 min_dist2 in
    let best = if nearer then some x else min_neigh in
    let here : allowed ≡ true → some x ≡ some n → Holds (x ∷ ns) n × (n.stratum < strata) =
      λ a e. ((0, e), ground (arith, ltb→lt x.stratum strata a, e)) in
    elim (if-cases (allowed && (x.id == dest_id)) (some x) _ (some n) h) [
      | inl (hit, e) ↦ inr (here (and-left _ _ hit) e)
      | inr (miss, e) ↦
          elim (scan-cases ns dest_id dest_loc strata (if nearer then dist2 else min_dist2) best n
            e) [
              | inl first ↦ elim (if-cases nearer (some x) min_neigh (some n) first) [
                | inl (near, e') ↦ inr (here (and-left _ _ near) e')
                | inr (far, e') ↦ inl e'
              ]
              | inr ((i, at_i), low) ↦ inr ((suc i, at_i), low)
            ]
    ]

-- Where a packet is sent next.
pub data Hop (node : Node) : ℕ → Type 0 where
  no_route : Hop node neigh_id_invalid
  neighbour : (n : Neigh) → Holds (live node.neigh_table) n → n.stratum ≡ 1 → Hop node n.id

route_loop-Hop :
    (fuel : ℕ) (node : Node) (dest_id : ℕ) (dest_loc : Loc) (strata : ℕ)
    → strata < fuel
    → (hop : ℕ) × (route_loop fuel node dest_id dest_loc strata ≡ ok hop) × Hop node hop
unfolding route_loop
route_loop-Hop zero node dest_id dest_loc strata h = absurd (omega arith)
route_loop-Hop (suc fuel) node dest_id dest_loc strata h =
    let ns = live node.neigh_table in
    let start = loc_dist2 node.virtloc dest_loc in
    elim (Option-cases (scan ns dest_id dest_loc strata start none)) [
      | inl gone ↦ (neigh_id_invalid, rw (route_loop, gone), no_route)
      | inr (n, found) ↦ elim (scan-cases ns dest_id dest_loc strata start none n found) [
        | inl bad ↦ absurd (ground (arith, bad))
        | inr (held, low) ↦ elim (ℕ_discrete n.stratum 1) [
          | yes one ↦
              let test : (n.stratum == 1) ≡ true = ground arith in
              (n.id, rw (route_loop, found, test), neighbour n held one)
          | no deeper ↦
              let test : (n.stratum == 1) ≡ false = ground arith in
              let (hop, returns, kind) =
                route_loop-Hop fuel node n.id n.loc n.stratum (omega arith) in
              (hop, rw (route_loop, found, test) returns, kind)
        ]
      ]
    ]

-- node_route_mfr returns, whatever the neighbour table holds: either NODE_ID_INVALID, or the id of a
-- neighbour in use of stratum 1, one that the radio itself reaches.
pub node_route_mfr-Hop :
    (node : Node) (dest_id : ℕ) (dest_loc : Loc) (maxstrat : ℕ)
    → (hop : ℕ) × (node_route_mfr node dest_id dest_loc maxstrat ≡ ok hop) × Hop node hop
unfolding node_route_mfr
node_route_mfr-Hop node dest_id dest_loc maxstrat =
    route_loop-Hop (maxstrat + 2) node dest_id dest_loc (maxstrat + 1) (omega arith)
