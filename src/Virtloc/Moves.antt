-- ===== src/Virtloc/Moves.antt =====
-- radio2/src/virtloc.c and loc.c: how far virtloc_recalc moves a location.
use old_radio.Base.{ℕ, ◌+◌, ◌-◌, ◌*◌, ◌^◌, ◌≤◌, ◌<◌, ◌≡◌, refl, ap, true, leb, arith}
use old_radio.Base.Int.{ℤ, pos_part, neg_part, ◌+ℤ◌, ◌-ℤ◌, ◌*ℤ◌, to_i32, to_u64}
use old_radio.Loc.{Loc, loc_dist2}
use old_radio.Virtloc.{Floats}
use old_radio.Virtloc.Reach.{abs, IsWithin, to_i32-same, square, pos-add, sub-abs}

abbrev pub sq : ℕ → ℕ
sq n = n * n

-- The difference of two coordinates, as the code computes it.
abbrev pub apart : ℤ → ℤ → ℤ
apart a b = to_i32 (b -ℤ a)

apart-abs :
    (n : ℕ) (a b : ℤ)
    → n < 2 ^ 20
    → abs a + abs b ≤ n
    → (apart a b ≡ b -ℤ a) × (abs (apart a b) ≤ n)
apart-abs n a b low h =
    let bound : abs (b -ℤ a) ≤ n = omega (arith, sub-abs b a, h) in
    let same = to_i32-same (b -ℤ a) (omega (arith, bound, low)) in
    (same, omega (arith, bound, ap abs same))

sq_mono : (a b : ℕ) → a ≤ b → sq a ≤ sq b
sq_mono a b h = grind arith

squares_fit :
    (x y z : ℤ)
    → abs x < 2 ^ 20
    → abs y < 2 ^ 20
    → abs z < 2 ^ 20
    → to_u64 (x *ℤ x +ℤ y *ℤ y +ℤ z *ℤ z) ≡ sq (abs x) + sq (abs y) + sq (abs z)
squares_fit x y z hx hy hz =
    rw
      (
        square x,
        square y,
        square z,
        pos-add (sq (abs x)) (sq (abs y)),
        pos-add (sq (abs x) + sq (abs y)) (sq (abs z)),
      )
      (omega (
        arith,
        sq_mono (abs x) (2 ^ 20) (omega arith),
        sq_mono (abs y) (2 ^ 20) (omega arith),
        sq_mono (abs z) (2 ^ 20) (omega arith),
      ))

cancel : (m l d : ℕ) → 0 < d → m * d ≤ l * d → m ≤ l
cancel m l d some h = grind arith

loc_dist2-squares :
    (n : ℕ) (a b : Loc)
    → n < 2 ^ 19
    → IsWithin n a
    → IsWithin n b
    → loc_dist2 a b ≡ sq (abs (apart a.x b.x)) + sq (abs (apart a.y b.y)) + sq (abs (apart a.z b.z))
unfolding loc_dist2
loc_dist2-squares n a b low wa wb =
    let small : (c d : ℤ) → abs c ≤ n → abs d ≤ n → abs (apart c d) < 2 ^ 20 =
      λ c d hc hd. omega (arith, (apart-abs (n + n) c d (omega arith) (omega arith)).1) in
    squares_fit (apart a.x b.x) (apart a.y b.y) (apart a.z b.z) (small a.x b.x wa.x wb.x)
      (small a.y b.y wa.y wb.y) (small a.z b.z wa.z wb.z)

-- How far a coordinate moves, less two.
abbrev pub moved : ℤ → ℤ → ℕ
moved old new = abs (new -ℤ old) - 2

abbrev pub moved_squares : Loc → Loc → ℕ
moved_squares old new = sq (moved old.x new.x) + sq (moved old.y new.y) + sq (moved old.z new.z)

-- A step from a location towards a target farther than 100 away.
abbrev pub stepped : Floats → Loc → Loc → Loc
stepped floats loc target = record {
  x = floats.step 10000 (loc_dist2 loc target) loc.x (apart loc.x target.x);
  y = floats.step 10000 (loc_dist2 loc target) loc.y (apart loc.y target.y);
  z = floats.step 10000 (loc_dist2 loc target) loc.z (apart loc.z target.z);
}

-- `a += d * sqrtf(limit2 / dist2)` moves `a` by the product, but for the cut to an integer, which is below
-- one, and for the rounding of the `float`s, which is below one too where the numbers have at most 20 bits.
pub record IsStep (floats : Floats) : Type 0 where
  pub short :
      (limit2 dist2 : ℕ) (a d : ℤ)
      → abs a < 2 ^ 20
      → abs d < 2 ^ 20
      → limit2 < dist2
      → sq (moved a (floats.step limit2 dist2 a d)) * dist2 ≤ sq (abs d) * limit2

moved-same :
    (n : ℕ) (a b : ℤ) → n < 2 ^ 20 → abs a + abs b ≤ n → sq (moved a b) ≤ sq (abs (apart a b))
moved-same n a b low h =
    let e = ap abs ((apart-abs n a b low h).0) in
    sq_mono (moved a b) (abs (apart a b)) (omega (arith, e))

pub moved_squares-near :
    (n : ℕ) (loc target : Loc)
    → n < 2 ^ 19
    → IsWithin n loc
    → IsWithin n target
    → moved_squares loc target ≤ loc_dist2 loc target
moved_squares-near n loc target low w v = omega (
  arith,
  loc_dist2-squares n loc target low w v,
  moved-same (n + n) loc.x target.x (omega arith) (omega (arith, w.x, v.x)),
  moved-same (n + n) loc.y target.y (omega arith) (omega (arith, w.y, v.y)),
  moved-same (n + n) loc.z target.z (omega arith) (omega (arith, w.z, v.z)),
)

share :
    (x y z d : ℕ) (a b c : ℕ)
    → 10000 < d
    → d ≡ a + b + c
    → x * d ≤ a * 10000
    → y * d ≤ b * 10000
    → z * d ≤ c * 10000
    → x + y + z ≤ 10000
share x y z d a b c some whole hx hy hz = cancel (x + y + z) 10000 d (omega arith) (grind arith)

pub moved_squares-far :
    (floats : Floats)
    → IsStep floats
    → (n : ℕ) (loc target : Loc) → n < 2 ^ 19
    → IsWithin n loc
    → IsWithin n target
    → 10000 < loc_dist2 loc target
    → moved_squares loc (stepped floats loc target) ≤ 10000
moved_squares-far floats step n loc target low w v far =
    let d = loc_dist2 loc target in
    let one : (a b : ℤ)
        → abs a ≤ n
        → abs b ≤ n
        → sq (moved a (floats.step 10000 d a (apart a b))) * d ≤ sq (abs (apart a b)) * 10000 =
      λ a b ha hb.
        step.short 10000 d a (apart a b) (omega arith)
          (omega (arith, (apart-abs (n + n) a b (omega arith) (omega arith)).1)) far in
    share _ _ _ d _ _ _ far (loc_dist2-squares n loc target low w v) (one loc.x target.x w.x v.x)
      (one loc.y target.y w.y v.y) (one loc.z target.z w.z v.z)

pub moved-none : (a : ℤ) → moved a a ≡ 0
unfolding ◌-ℤ◌
moved-none a =
    let enough : leb (neg_part a + pos_part a) (pos_part a + neg_part a) ≡ true = ground arith in
    rw enough (omega arith)

pub moved_squares-none : (loc : Loc) → moved_squares loc loc ≡ 0
moved_squares-none loc = rw (moved-none loc.x, moved-none loc.y, moved-none loc.z) refl
