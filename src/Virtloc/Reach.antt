-- ===== src/Virtloc/Reach.antt =====
-- radio2/src/virtloc.c and loc.c: how far the search of virtloc_recalc goes.
use native.Mathlib.Nat.{mod-lt}
use old_radio.Base.{
  ℕ, zero, suc, ◌+◌, ◌-◌, ◌*◌, ◌%◌, ◌^◌, ◌≤◌, ◌<◌, ◌≡◌, refl, ap, true, false, ltb, leb, arith,
  Bool-cases, inl, inr,
}
use old_radio.Base.Int.{ℤ, pos, negsuc, pos_part, neg_part, sub_ℕ, ◌+ℤ◌, ◌-ℤ◌, ◌*ℤ◌, to_i32}
use old_radio.Loc.{Loc, Rand, perturbed, loc_perturb}
use old_radio.Neigh.{NeighTable}
use old_radio.Virtloc.{Floats, climb, energy}

abbrev pub abs : ℤ → ℕ
abs a = pos_part a + neg_part a

above_test : (a b : ℕ) → leb a b ≡ false → b < a
above_test a b h = ground arith

sub_ℕ-abs : (m n : ℕ) → abs (sub_ℕ m n) ≤ m + n
sub_ℕ-abs m n = elim (Bool-cases (leb n m)) [
  | inl enough ↦ rw enough (omega arith)
  | inr short ↦ rw short (omega (arith, above_test n m short))
]

add-abs : (a b : ℤ) → abs (a +ℤ b) ≤ abs a + abs b
unfolding ◌+ℤ◌
add-abs a b = omega (arith, sub_ℕ-abs (pos_part a + pos_part b) (neg_part a + neg_part b))

pub sub-abs : (a b : ℤ) → abs (a -ℤ b) ≤ abs a + abs b
unfolding ◌-ℤ◌
sub-abs a b = omega (arith, sub_ℕ-abs (pos_part a + neg_part b) (neg_part a + pos_part b))

pub to_i32-same : (a : ℤ) → abs a < 2 ^ 31 → to_i32 a ≡ a
to_i32-same (pos n) h =
    let fits : n % 2 ^ 32 ≡ n = omega arith in
    let low : ltb n (2 ^ 31) ≡ true = ground arith in rw (fits, low) refl
to_i32-same (negsuc n) h =
    let fits : n % 2 ^ 32 ≡ n = omega arith in
    let high : ltb (2 ^ 32 - 1 - n) (2 ^ 31) ≡ false = ground arith in
    rw (fits, high) (ap negsuc (omega arith))

sub_ℕ-zero : (m n k : ℕ) → n ≡ 0 → m ≡ k → sub_ℕ m n ≡ pos k
sub_ℕ-zero m n k none same =
    let enough : leb n m ≡ true = ground arith in rw enough (ap pos (omega arith))

pub square : (a : ℤ) → a *ℤ a ≡ pos (abs a * abs a)
unfolding ◌*ℤ◌
square (pos n) = sub_ℕ-zero _ _ _ (grind arith) (grind arith)
square (negsuc n) = sub_ℕ-zero _ _ _ (grind arith) (grind arith)

pub pos-add : (m n : ℕ) → pos m +ℤ pos n ≡ pos (m + n)
unfolding ◌+ℤ◌
pos-add m n = sub_ℕ-zero _ _ _ (omega arith) (omega arith)

-- A location whose coordinates have at most this absolute value.
pub record IsWithin (n : ℕ) (v : Loc) : Type 0 where
  pub x : abs v.x ≤ n
  pub y : abs v.y ≤ n
  pub z : abs v.z ≤ n

perturbed-abs : (n : ℕ) (a : ℤ) (r : ℕ) → n < 2 ^ 30 → abs a ≤ n → abs (perturbed 1 a r) ≤ n + 3
unfolding perturbed
perturbed-abs n a r low h =
    let k = r % 3 in
    let few : k < 3 = mod-lt r (omega arith) in
    let sum : abs (a +ℤ pos k -ℤ pos 1) ≤ n + 3 =
      omega (arith, few, h, sub-abs (a +ℤ pos k) (pos 1), add-abs a (pos k)) in
    rw (to_i32-same (a +ℤ pos k -ℤ pos 1) (omega (arith, sum, low))) sum

module _ (rand : Rand) (dims : ℕ) where
  loc_perturb-IsWithin :
      (n : ℕ) (v : Loc) (seed : ℕ)
      → n < 2 ^ 30
      → IsWithin n v
      → IsWithin (n + 3) (loc_perturb rand dims v 1 seed).0
  unfolding loc_perturb
  loc_perturb-IsWithin n v seed low h = elim (Bool-cases (ltb 2 dims)) [
    | inl three ↦ rw three (record {
      x = perturbed-abs n v.x _ low h.x;
      y = perturbed-abs n v.y _ low h.y;
      z = perturbed-abs n v.z _ low h.z;
    })
    | inr fewer ↦ elim (Bool-cases (ltb 1 dims)) [
      | inl two ↦
          rw (fewer, two)
            (record {
              x = perturbed-abs n v.x _ low h.x;
              y = perturbed-abs n v.y _ low h.y;
              z = omega arith;
            })
      | inr one ↦
          rw (fewer, one)
            (record { x = perturbed-abs n v.x _ low h.x; y = omega arith; z = omega arith })
    ]
  ]

pub IsWithin-wider : {n m : ℕ} {v : Loc} → n ≤ m → IsWithin n v → IsWithin m v
IsWithin-wider h w = record {
  x = omega (arith, w.x);
  y = omega (arith, w.y);
  z = omega (arith, w.z);
}

pub climb-IsWithin :
    (floats : Floats) (rand : Rand) (dims : ℕ) (table : NeighTable) (rounds n : ℕ) (v : Loc)
    (e : floats.Double) (seed : ℕ)
    → n + 3 * rounds < 2 ^ 30
    → IsWithin n v
    → IsWithin (n + 3 * rounds) (climb floats rand dims table rounds v e seed).0
unfolding climb
climb-IsWithin floats rand dims table zero n v e seed low w = IsWithin-wider (omega arith) w
climb-IsWithin floats rand dims table (suc rounds) n v e seed low w =
    let (newloc, next) = loc_perturb rand dims v 1 seed in
    let newenergy = energy floats newloc table in
    elim (Bool-cases (floats.at_most newenergy e)) [
      | inl better ↦
          rw (climb, better)
            (IsWithin-wider (omega arith) (
              climb-IsWithin floats rand dims table rounds (n + 3) newloc newenergy next
                (omega arith) (loc_perturb-IsWithin rand dims n v seed (omega arith) w)))
      | inr worse ↦
          rw (climb, worse)
            (IsWithin-wider (omega arith)
              (climb-IsWithin floats rand dims table rounds n v e next (omega arith) w))
    ]
