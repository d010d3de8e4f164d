-- ===== src/Base/Words.antt =====
-- Shifts of machine words, and powers of two.
use Prim.Native.Nat.{ℕ, zero, suc, ◌+◌, ◌*◌, ◌/◌, ◌^◌, ◌≤◌}
use mathlib.Core.Path.{◌≡◌, ap}
use native.Mathlib.Nat.{pow-suc, pow-le-pow_right}
use native.Mathlib.Omega.{arith}

infixl 75 ◌<<<◌ ◌>>>◌
-- `x << k` before it is cut to its width, and `x >> k`.
abbrev pub ◌<<<◌ : ℕ → ℕ → ℕ
x <<< k = x * 2 ^ k

abbrev pub ◌>>>◌ : ℕ → ℕ → ℕ
x >>> k = x / 2 ^ k

pub two-pow-add : (a k : ℕ) → 2 ^ (a + k) ≡ 2 ^ a * 2 ^ k
two-pow-add a zero = let e : a + 0 ≡ a = omega arith in rw e (omega arith)
two-pow-add a (suc k) =
    let e : a + suc k ≡ suc (a + k) = omega arith in
    rw e
      (omega (arith, pow-suc 2 (a + k), two-pow-add a k, ap (λ (s : ℕ). 2 ^ a * s) (pow-suc 2 k)))

-- The next multiple of a width.
pub two-pow-step : (w i : ℕ) → 2 ^ (w * (i + 1)) ≡ 2 ^ w * 2 ^ (w * i)
two-pow-step w i = let e : w * (i + 1) ≡ w + w * i = omega arith in rw e (two-pow-add w (w * i))

pub two-pow-step_suc : (w i : ℕ) → 2 ^ (w * suc i) ≡ 2 ^ w * 2 ^ (w * i)
two-pow-step_suc w i = let e : w * suc i ≡ w + w * i = omega arith in rw e (two-pow-add w (w * i))

pub two-pow_mono : (a b : ℕ) → a ≤ b → 2 ^ a ≤ 2 ^ b
two-pow_mono a b h = pow-le-pow_right {n = 2} (omega arith) h
