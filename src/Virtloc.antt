-- ===== src/Virtloc.antt =====
-- radio2/src/virtloc.c: a node's virtual location, which a random search moves to where the energy of
-- the links to its neighbours is lower. The `double`s and what is computed with them are a parameter.
mod Reach
mod Moves
mod Search
mod Tests
use old_radio.Base.{
  ℕ, zero, suc, List, [], ◌∷◌, Bool, true, false, ◌&&◌, ◌||◌, not, leb, ◌==◌, if◌then◌else◌,
}
use old_radio.Base.Int.{ℤ}
use old_radio.Loc.{Loc, Rand, loc_dist2, loc_zero, loc_perturb, loc_move_towards}
use old_radio.Neigh.{Neigh, NeighTable, neigh_stratum_inf}
use old_radio.Neigh.Live.{live}

-- The numbers of type double: `attract d` is K_ATTRACT * d, `repel d` is K_REPEL / (sqrt(d) + 1), and
-- `step` moves a coordinate in loc_move_towards.
pub record Floats : Type 1 where
  pub Double : Type 0
  pub nought : Double
  pub add : Double → Double → Double
  pub attract : ℕ → Double
  pub repel : ℕ → Double
  pub is_zero : Double → Bool
  pub at_most : Double → Double → Bool
  pub step : ℕ → ℕ → ℤ → ℤ → ℤ

abbrev pub initial_perturb : ℕ
initial_perturb = 10

abbrev pub move_limit : ℕ
move_limit = 100

unfoldable pub virtloc_init : Rand → ℕ → ℕ → ℕ → Loc × ℕ
virtloc_init rand dims id seed =
    if id == 0 then (loc_zero, seed) else loc_perturb rand dims loc_zero initial_perturb seed

module _ (floats : Floats) where
  -- The loop of energy over the neighbours in use, from its two variables.
  unfoldable pub energy_loop : Loc → List Neigh → floats.Double → Bool → floats.Double
  energy_loop loc [] sum valid = if valid then sum else floats.nought
  energy_loop loc (n ∷ ns) sum valid =
      let dist2 = loc_dist2 loc n.loc in
      let ignored = (n.stratum == 0) || (n.stratum == neigh_stratum_inf) in
      let term = if n.stratum == 1 then floats.attract dist2 else floats.repel dist2 in
      energy_loop loc ns (if ignored then sum else floats.add sum term)
        (valid || (not ignored && (n.stratum == 1)))

  unfoldable pub energy : Loc → NeighTable → floats.Double
  unfolding energy_loop
  energy loc table = energy_loop loc (live table) floats.nought false

  -- The loop of virtloc_recalc, with the rounds that are left: the location, and rand's state.
  unfoldable pub climb : Rand → ℕ → NeighTable → ℕ → Loc → floats.Double → ℕ → Loc × ℕ
  climb rand dims table zero oldloc oldenergy seed = (oldloc, seed)
  climb rand dims table (suc rounds) oldloc oldenergy seed =
      let (newloc, next) = loc_perturb rand dims oldloc 1 seed in
      let newenergy = energy newloc table in
      let better = floats.at_most newenergy oldenergy in
      climb rand dims table rounds (if better then newloc else oldloc)
        (if better then newenergy else oldenergy) next

  unfoldable pub virtloc_recalc : Rand → ℕ → Loc → NeighTable → ℕ → Loc × ℕ
  unfolding climb
  virtloc_recalc rand dims loc table seed =
      let (target, next) = climb rand dims table 999 loc (energy loc table) seed in
      if floats.is_zero (energy loc table)
      then (loc, seed)
      else (loc_move_towards floats.step loc target move_limit, next)
