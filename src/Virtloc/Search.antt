-- ===== src/Virtloc/Search.antt =====
-- radio2/src/virtloc.c: the search never goes up, and the location follows it by limited steps.
use old_radio.Base.{
  ℕ, zero, suc, ◌≡◌, ◌≤◌, ◌<◌, ◌+◌, ◌*◌, ◌^◌, dec_lt, leb, arith, true, false, Bool-cases, inl, inr,
}
use old_radio.Loc.{Loc, Rand, loc_dist2, loc_perturb, loc_move_towards}
use native.Mathlib.Nat.{le_trans}
use old_radio.Virtloc.Reach.{IsWithin, IsWithin-wider, climb-IsWithin}
use old_radio.Virtloc.Moves.{
  IsStep, stepped, moved_squares, moved_squares-near, moved_squares-far, moved_squares-none,
}
use old_radio.Neigh.{NeighTable}
use old_radio.Virtloc.{Floats, move_limit, energy, climb, virtloc_recalc}

-- `<=` orders the energies that occur: it fails only at a NaN.
pub record IsOrder (floats : Floats) : Type 0 where
  pub reflexive : (a : floats.Double) → floats.at_most a a ≡ true
  pub transitive :
      (a b c : floats.Double)
      → floats.at_most a b ≡ true
      → floats.at_most b c ≡ true
      → floats.at_most a c ≡ true

at_most_tests : (d l : ℕ) → (d ≤ l → leb d l ≡ true) × (l < d → leb d l ≡ false)
at_most_tests d l = (λ h. ground arith, λ h. ground arith)

loc_move_towards-steps :
    (floats : Floats) (loc target : Loc)
    → (loc_dist2 loc target ≤ 10000 → loc_move_towards floats.step loc target move_limit ≡ target)
      × (10000 < loc_dist2 loc target
          → loc_move_towards floats.step loc target move_limit ≡ stepped floats loc target)
unfolding loc_move_towards
loc_move_towards-steps floats loc target =
    let tests = at_most_tests (loc_dist2 loc target) 10000 in
    (λ near. rw (tests.0 near), λ far. rw (tests.1 far))

module _ (floats : Floats) (order : IsOrder floats) (rand : Rand) (dims : ℕ)
    (table : NeighTable) where
  climb-at_most :
      (rounds : ℕ) (loc : Loc) (seed : ℕ)
      → floats.at_most
          (energy floats
            (climb floats rand dims table rounds loc (energy floats loc table) seed).0
            table)
          (energy floats loc table)
        ≡ true
  unfolding climb
  climb-at_most zero loc seed = order.reflexive _
  climb-at_most (suc rounds) loc seed =
      let (newloc, next) = loc_perturb rand dims loc 1 seed in
      elim (Bool-cases (floats.at_most (energy floats newloc table) (energy floats loc table))) [
        | inl better ↦
            rw (climb, better)
              (order.transitive _ (energy floats newloc table) _ (climb-at_most rounds newloc next)
                better)
        | inr worse ↦ rw (climb, worse) (climb-at_most rounds loc next)
      ]

  -- From a location whose coordinates have at most 18 bits: with an energy of zero, virtloc_recalc leaves it
  -- and calls no rand(). Otherwise it has found a target whose energy is at most that of the location. With a
  -- squared distance of at most 100 * 100 the location becomes the target; else the `float` step moves each
  -- coordinate by its difference to the target, scaled by the squares of MOVE_LIMIT and of the distance. If
  -- that step moves a coordinate by at most two more than the product (where its numbers have 20 bits), then
  -- the moves of the three coordinates, each less two, have squares that add up to 100 * 100 at most.
  pub virtloc_recalc-at_most :
      (loc : Loc) (seed : ℕ)
      → IsStep floats
      → IsWithin (2 ^ 18) loc
      → (floats.is_zero (energy floats loc table) ≡ true
          → virtloc_recalc floats rand dims loc table seed ≡ (loc, seed))
        × (floats.is_zero (energy floats loc table) ≡ false
            → (target : Loc) × (next : ℕ) × (floats.at_most
                  (energy floats target table)
                  (energy floats loc table)
                ≡ true)
              × (loc_dist2 loc target ≤ 10000
                  → virtloc_recalc floats rand dims loc table seed ≡ (target, next))
              × (10000 < loc_dist2 loc target
                  → virtloc_recalc floats rand dims loc table seed
                    ≡ (stepped floats loc target, next)))
        × (moved_squares loc (virtloc_recalc floats rand dims loc table seed).0 ≤ 10000)
  unfolding virtloc_recalc
  virtloc_recalc-at_most loc seed step near_zero =
      let r = climb floats rand dims table 999 loc (energy floats loc table) seed in
      let steps = loc_move_towards-steps floats loc r.0 in
      let wide : IsWithin (2 ^ 18 + 3 * 999) loc = IsWithin-wider (omega arith) near_zero in
      let reached : IsWithin (2 ^ 18 + 3 * 999) r.0 =
        climb-IsWithin floats rand dims table 999 (2 ^ 18) loc (energy floats loc table) seed
          (omega arith) near_zero in
      (
        λ rest. rw rest,
        λ moves. (
          r.0,
          r.1,
          climb-at_most 999 loc seed,
          λ near. rw (moves, steps.0 near),
          λ far. rw (moves, steps.1 far),
        ),
        elim (Bool-cases (floats.is_zero (energy floats loc table))) [
          | inl rest ↦ rw rest (omega (arith, moved_squares-none loc))
          | inr moves ↦ elim (dec_lt 10000 (loc_dist2 loc r.0)) [
            | yes far ↦
                rw (moves, steps.1 far)
                  (moved_squares-far floats step (2 ^ 18 + 3 * 999) loc r.0 (omega arith) wide
                    reached far)
            | no near ↦
                rw (moves, steps.0 (omega arith))
                  (le_trans
                    (moved_squares-near (2 ^ 18 + 3 * 999) loc r.0 (omega arith) wide reached)
                    (omega arith))
          ]
        ],
      )
