-- ===== src/Beacon/Recalc.antt =====
-- radio/serial/beacon.c: beacon_recalc moves the node to where its energy is lower. `repel` is what
-- `ener += K_REPEL / (sqrt(dist2) + 1)` makes of the squared distance and the energy, in double arithmetic.
-- What it prints is left out. beacon_init has made entry 0, so that the table is not empty.
use old_radio.Base.{
  ℕ, zero, suc, ◌+◌, ◌%◌, ◌^◌, List, [], ◌∷◌, ◌||◌, not, ltb, leb, ◌==◌, if◌then◌else◌,
}
use old_radio.Base.Int.{ℤ, pos, ◌+ℤ◌, ◌-ℤ◌, to_i32}
use old_radio.Loc.{Loc, Rand, loc_dist2}
use old_radio.Beacon.{Neighbour, maxstrat, strat_inf, expire_loop}

-- One coordinate that is moved by -1, 0 or 1.
abbrev pub nudged : ℤ → ℕ → ℤ
nudged a r = to_i32 (a +ℤ pos (r % 3) -ℤ pos 1)

unfoldable pub nudge : Rand → Loc → ℕ → Loc × ℕ
nudge rand v seed =
    let (rx, after_x) = rand seed in
    let (ry, after_y) = rand after_x in
    let (rz, after_z) = rand after_y in
    (record { x = nudged v.x rx; y = nudged v.y ry; z = nudged v.z rz }, after_z)

module _ (repel : ℕ → ℕ → ℕ) where
  -- The loop over the entries behind the first; the sum of the squares is that of loc_dist2.
  unfoldable pub calc_energy : Loc → List Neighbour → ℕ → ℕ
  unfolding loc_dist2
  calc_energy vloc [] ener = ener
  calc_energy vloc (n ∷ ns) ener =
      let ignored = not n.active || ((n.stratum == 0) || (n.stratum == strat_inf)) in
      let dist2 = loc_dist2 vloc n.vloc in
      let nearer = (ener + dist2) % 2 ^ 64 in
      let farther = if leb n.stratum maxstrat then repel dist2 ener else ener in
      calc_energy vloc ns (if ignored then ener else (if n.stratum == 1 then nearer else farther))

  -- The rounds of the search that are left: the location, and rand's state. `oldenergy` is the energy of
  -- `oldvloc`.
  unfoldable pub settle : Rand → List Neighbour → ℕ → Loc → ℕ → Loc × ℕ
  unfolding calc_energy nudge
  settle rand ns zero oldvloc seed = (oldvloc, seed)
  settle rand ns (suc rounds) oldvloc seed =
      let (newvloc, next) = nudge rand oldvloc seed in
      let better = leb (calc_energy newvloc ns 0) (calc_energy oldvloc ns 0) in
      settle rand ns rounds (if better then newvloc else oldvloc) next

  unfoldable pub beacon_recalc : Rand → ℕ → List Neighbour → ℕ → List Neighbour × ℕ
  unfolding settle expire_loop
  beacon_recalc rand now [] seed = ([], seed)
  beacon_recalc rand now (me ∷ others) seed =
      let ns = expire_loop now others in
      let (found, next) = settle rand ns 100 me.vloc seed in
      let lower = ltb (calc_energy found ns 0) (calc_energy me.vloc ns 0) in
      (record me { vloc = if lower then found else me.vloc } ∷ ns, next)
