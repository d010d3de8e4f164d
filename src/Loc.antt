-- ===== src/Loc.antt =====
-- radio2/src/loc.c and loc.h: locations, with coordinates of 32 bits. Their differences wrap at 32 bits,
-- and the products at 64, as a two's complement machine computes them. `rand` is a parameter, a function
-- from its state to a number and the next state; so is what the code computes with `float`.
use old_radio.Base.{ℕ, ◌*◌, ◌+◌, ◌%◌, ◌^◌, ltb, leb, if◌then◌else◌}
use old_radio.Base.Run.{Run, ok, ◌>>◌, assert}
use old_radio.Base.Int.{ℤ, pos, ◌+ℤ◌, ◌-ℤ◌, ◌*ℤ◌, to_i32, to_u64}

pub record Loc : Type 0 where
  pub x : ℤ
  pub y : ℤ
  pub z : ℤ

abbrev pub Rand : Type 0
Rand = ℕ → ℕ × ℕ

unfoldable pub loc_set_dims : ℕ → Run ℕ
loc_set_dims dims = assert (leb 1 dims) >> assert (leb dims 3) >> ok dims

unfoldable pub loc_dist2 : Loc → Loc → ℕ
loc_dist2 a b =
    let dx = to_i32 (b.x -ℤ a.x) in
    let dy = to_i32 (b.y -ℤ a.y) in
    let dz = to_i32 (b.z -ℤ a.z) in to_u64 (dx *ℤ dx +ℤ dy *ℤ dy +ℤ dz *ℤ dz)

unfoldable pub loc_zero : Loc
loc_zero = record { x = pos 0; y = pos 0; z = pos 0 }

-- One coordinate, with what rand() gave.
unfoldable pub perturbed : ℕ → ℤ → ℕ → ℤ
perturbed d a r = to_i32 (a +ℤ pos (r % ((2 * d + 1) % 2 ^ 32)) -ℤ pos d)

-- `dims` is Loc_dims: rand() is called once for each of them.
unfoldable pub loc_perturb : Rand → ℕ → Loc → ℕ → ℕ → Loc × ℕ
unfolding perturbed
loc_perturb rand dims a d seed =
    let (rx, after_x) = rand seed in
    let (ry, after_y) = rand after_x in
    let (rz, after_z) = rand after_y in
    let nx = perturbed d a.x rx in
    let ny = perturbed d a.y ry in
    let nz = perturbed d a.z rz in
    if ltb 2 dims
    then (record { x = nx; y = ny; z = nz }, after_z)
    else if ltb 1 dims
    then (record { x = nx; y = ny; z = pos 0 }, after_y)
    else (record { x = nx; y = pos 0; z = pos 0 }, after_x)

-- `step limit2 dist2 a d` is the coordinate `a` moved by `d` times the float `sqrtf(limit2 / dist2)`.
unfoldable pub loc_move_towards : (ℕ → ℕ → ℤ → ℤ → ℤ) → Loc → Loc → ℕ → Loc
unfolding loc_dist2
loc_move_towards step a b dist_limit =
    let dist2 = loc_dist2 a b in
    let dist_limit2 = dist_limit * dist_limit % 2 ^ 32 in
    if leb dist2 dist_limit2 then b else record {
      x = step dist_limit2 dist2 a.x (to_i32 (b.x -ℤ a.x));
      y = step dist_limit2 dist2 a.y (to_i32 (b.y -ℤ a.y));
      z = step dist_limit2 dist2 a.z (to_i32 (b.z -ℤ a.z));
    }
