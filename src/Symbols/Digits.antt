-- ===== src/Symbols/Digits.antt =====
-- Numbers and their digits by a base, the lowest first.
use native.Mathlib.Nat.{
  div-add-mod, add-mul-mod_self_left, mod-eq_of_lt, add-mul-div_left, div-eq_of_lt, mul-le-mul_left,
  mul_comm, one-le-pow, div-lt_iff_lt-mul,
}
use old_radio.Base.{
  ℕ, zero, suc, ◌+◌, ◌*◌, ◌/◌, ◌%◌, ◌^◌, ◌≤◌, ◌<◌, ◌≡◌, refl, ap, ◌∙◌, arith, List, [], ◌∷◌, length,
  All, two-pow-step_suc,
}

unfoldable pub value : ℕ → List ℕ → ℕ
value base [] = 0
value base (d ∷ ds) = d + base * value base ds

unfoldable pub digits : ℕ → ℕ → ℕ → List ℕ
digits base zero x = []
digits base (suc n) x = x % base ∷ digits base n (x / base)

abbrev pub AreDigits : ℕ → List ℕ → Type 0
AreDigits base ds = All (λ d. d < base) ds

pub length-digits : (base n x : ℕ) → length (digits base n x) ≡ n
unfolding digits
length-digits base zero x = refl
length-digits base (suc n) x = ap suc (length-digits base n (x / base))

pub digits-AreDigits : (base n x : ℕ) → 0 < base → AreDigits base (digits base n x)
unfolding digits
digits-AreDigits base zero x h = tt
digits-AreDigits base (suc n) x h = (omega arith, digits-AreDigits base n (x / base) h)

pub digits-value :
    (base : ℕ) (ds : List ℕ) → AreDigits base ds → digits base (length ds) (value base ds) ≡ ds
unfolding digits value
digits-value base [] h = refl
digits-value base (d ∷ ds) h =
    let low : (d + base * value base ds) % base ≡ d =
      add-mul-mod_self_left d base (value base ds) ∙ mod-eq_of_lt h.0 in
    let high : (d + base * value base ds) / base ≡ value base ds =
      omega
        (arith, add-mul-div_left d (value base ds) {y = base} (omega arith), div-eq_of_lt h.0) in
    rw (low, high) (ap (◌∷◌ d) (digits-value base ds h.1))

pub value-lt : (w : ℕ) (ds : List ℕ) → AreDigits (2 ^ w) ds → value (2 ^ w) ds < 2 ^ (w * length ds)
unfolding value
value-lt w [] h = let e : w * 0 ≡ 0 = omega arith in rw e (omega arith)
value-lt w (d ∷ ds) h =
    let v : suc (value (2 ^ w) ds) ≤ 2 ^ (w * length ds) = value-lt w ds h.1 in
    let e : 2 ^ (w * suc (length ds)) ≡ 2 ^ w * 2 ^ (w * length ds) =
      two-pow-step_suc w (length ds) in
    let m : 2 ^ w * suc (value (2 ^ w) ds) ≤ 2 ^ w * 2 ^ (w * length ds) =
      mul-le-mul_left (2 ^ w) v in
    rw e (omega (arith, h.0))

pub value-digits : (w n x : ℕ) → x < 2 ^ (w * n) → value (2 ^ w) (digits (2 ^ w) n x) ≡ x
unfolding value digits
value-digits w zero x h = let e : w * 0 ≡ 0 = omega arith in omega (arith, rw e at h)
value-digits w (suc n) x h =
    let e : 2 ^ (w * suc n) ≡ 2 ^ (w * n) * 2 ^ w =
      two-pow-step_suc w n ∙ mul_comm (2 ^ w) (2 ^ (w * n)) in
    let q : x / 2 ^ w < 2 ^ (w * n) =
      (div-lt_iff_lt-mul (one-le-pow w 2 (omega arith))).1 (rw e at h) in
    rw (value-digits w n (x / 2 ^ w) q) (omega (arith, div-add-mod x (2 ^ w)))
