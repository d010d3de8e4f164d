-- ===== src/Base/Bits.antt =====
-- Laws of `^` on machine words, at every width: the native operation has none at variables.
use Prim.Native.Nat.{
  ℕ, zero, suc, ◌+◌, ◌-◌, ◌*◌, ◌/◌, ◌%◌, ◌^◌, ◌≤◌, ◌<◌, bit_xor, digits, differ, bit_xor-bitwise,
}
use mathlib.Core.Path.{◌≡◌, refl, ap, sym, ◌∙◌}
use native.Mathlib.Nat.{pow-suc}
use native.Mathlib.Omega.{arith}

-- Fuel beyond the first number is not used.
digits_grow :
    (n a b : ℕ) → a ≤ n → digits (λ d. d) differ (suc n) a b ≡ digits (λ d. d) differ n a b
digits_grow zero zero b h = refl
digits_grow zero (suc a) b h = absurd (omega arith)
digits_grow (suc n) zero b h = refl
digits_grow (suc n) (suc a) b h = rw (digits_grow n (suc a / 2) (b / 2) (omega arith))

digits_spare :
    (k n a b m : ℕ)
    → a ≤ n
    → m ≡ k + n
    → digits (λ d. d) differ m a b ≡ digits (λ d. d) differ n a b
digits_spare zero n a b m h e = let same : m ≡ n = omega arith in rw same
digits_spare (suc k) n a b m h e =
    let more : m ≡ suc (k + n) = omega arith in
    ap (λ (f : ℕ). digits (λ d. d) differ f a b) more
    ∙ digits_grow (k + n) a b (omega arith)
    ∙ digits_spare k n a b (k + n) h refl

digits_half :
    (a b : ℕ)
    → digits (λ d. d) differ a (suc a / 2) b ≡ digits (λ d. d) differ (suc a / 2) (suc a / 2) b
digits_half a b =
    digits_spare (a - suc a / 2) (suc a / 2) (suc a / 2) b a (omega arith) (omega arith)

differ-digits : (x y : ℕ) → x < 2 → y < 2 → differ x y ≡ (x + y) % 2
differ-digits zero y p q = omega arith
differ-digits (suc zero) zero p q = omega arith
differ-digits (suc zero) (suc y) p q = let e : y ≡ 0 = omega arith in rw e
differ-digits (suc (suc x)) y p q = absurd (omega arith)

pub zero-bit_xor : (b : ℕ) → bit_xor 0 b ≡ b
zero-bit_xor b = bit_xor-bitwise 0 b

-- The lowest digit of `a ^ b`, and the rest.
pub bit_xor_step : (a b : ℕ) → bit_xor a b ≡ bit_xor (a / 2) (b / 2) * 2 + (a + b) % 2
bit_xor_step zero b = omega (arith, zero-bit_xor b, zero-bit_xor (b / 2))
bit_xor_step (suc a) b = omega (
  arith,
  bit_xor-bitwise (suc a) b,
  bit_xor-bitwise (suc a / 2) (b / 2),
  digits_half a (b / 2),
  differ-digits (suc a % 2) (b % 2) (omega arith) (omega arith),
)

bit_xor_comm_below : (n a b : ℕ) → a ≤ n → b ≤ n → bit_xor a b ≡ bit_xor b a
bit_xor_comm_below zero a b p q = let e : a ≡ b = omega arith in rw e
bit_xor_comm_below (suc n) a b p q = omega (
  arith,
  bit_xor_step a b,
  bit_xor_step b a,
  bit_xor_comm_below n (a / 2) (b / 2) (omega arith) (omega arith),
)

pub bit_xor_comm : (a b : ℕ) → bit_xor a b ≡ bit_xor b a
bit_xor_comm a b = bit_xor_comm_below (a + b) a b (omega arith) (omega arith)

pub bit_xor-zero : (a : ℕ) → bit_xor a 0 ≡ a
bit_xor-zero a = bit_xor_comm a 0 ∙ zero-bit_xor a

bit_xor_assoc_below :
    (n a b c : ℕ) → a ≤ n → b ≤ n → c ≤ n → bit_xor (bit_xor a b) c ≡ bit_xor a (bit_xor b c)
bit_xor_assoc_below zero a b c p q r =
    let ea : a ≡ 0 = omega arith in
    let eb : b ≡ 0 = omega arith in let ec : c ≡ 0 = omega arith in rw (ea, eb, ec)
bit_xor_assoc_below (suc n) a b c p q r =
    let half_left : bit_xor a b / 2 ≡ bit_xor (a / 2) (b / 2) = omega (arith, bit_xor_step a b) in
    let half_right : bit_xor b c / 2 ≡ bit_xor (b / 2) (c / 2) = omega (arith, bit_xor_step b c) in
    let halves : bit_xor (bit_xor a b / 2) (c / 2) ≡ bit_xor (a / 2) (bit_xor b c / 2) =
      rw (half_left, half_right)
        (bit_xor_assoc_below n (a / 2) (b / 2) (c / 2) (omega arith) (omega arith) (omega arith)) in
    omega (
      arith,
      bit_xor_step (bit_xor a b) c,
      bit_xor_step a (bit_xor b c),
      bit_xor_step a b,
      bit_xor_step b c,
    )

pub bit_xor_assoc : (a b c : ℕ) → bit_xor (bit_xor a b) c ≡ bit_xor a (bit_xor b c)
bit_xor_assoc a b c =
    bit_xor_assoc_below (a + b + c) a b c (omega arith) (omega arith) (omega arith)

bit_xor_self_below : (n a : ℕ) → a ≤ n → bit_xor a a ≡ 0
bit_xor_self_below zero a p = let e : a ≡ 0 = omega arith in rw e
bit_xor_self_below (suc n) a p =
    omega (arith, bit_xor_step a a, bit_xor_self_below n (a / 2) (omega arith))

pub bit_xor_self : (a : ℕ) → bit_xor a a ≡ 0
bit_xor_self a = bit_xor_self_below a a (omega arith)

-- `^` with one number is undone by itself, so it is injective.
pub bit_xor_cancel : (a b c : ℕ) → bit_xor a c ≡ bit_xor b c → a ≡ b
bit_xor_cancel a b c h = sym (undo a) ∙ ap (λ (t : ℕ). bit_xor t c) h ∙ undo b
  where
    undo : (d : ℕ) → bit_xor (bit_xor d c) c ≡ d
    undo d = bit_xor_assoc d c c ∙ ap (bit_xor d) (bit_xor_self c) ∙ bit_xor-zero d

pub bit_xor_cancel_left : (a b c : ℕ) → bit_xor c a ≡ bit_xor c b → a ≡ b
bit_xor_cancel_left a b c h = bit_xor_cancel a b c (bit_xor_comm a c ∙ h ∙ bit_xor_comm c b)

doubled_word : (k m : ℕ) → 2 * (m * 2 ^ k) ≡ m * 2 ^ suc k
doubled_word k m =
    let power : m * 2 ^ suc k ≡ m * (2 ^ k * 2) = ap (◌*◌ m) (pow-suc 2 k) in omega (arith, power)

half-field : (k q r : ℕ) → (q * 2 ^ suc k + r) / 2 ≡ q * 2 ^ k + r / 2
half-field k q r = omega (arith, doubled_word k q)

-- `^` works on the two parts of a word by themselves.
pub bit_xor_fields :
    (k h g l m : ℕ)
    → l < 2 ^ k
    → m < 2 ^ k
    → bit_xor (h * 2 ^ k + l) (g * 2 ^ k + m) ≡ bit_xor h g * 2 ^ k + bit_xor l m
bit_xor_fields zero h g l m p q =
    let el : l ≡ 0 = omega arith in
    let em : m ≡ 0 = omega arith in
    let eh : h * 2 ^ 0 + 0 ≡ h = omega arith in
    let eg : g * 2 ^ 0 + 0 ≡ g = omega arith in rw (el, em, eh, eg) (omega (arith, bit_xor_self 0))
bit_xor_fields (suc k) h g l m p q =
    let below =
      bit_xor_fields k h g (l / 2) (m / 2) (omega (arith, pow-suc 2 k))
        (omega (arith, pow-suc 2 k)) in
    let halves : bit_xor ((h * 2 ^ suc k + l) / 2) ((g * 2 ^ suc k + m) / 2)
        ≡ bit_xor h g * 2 ^ k + bit_xor (l / 2) (m / 2) =
      rw (half-field k h l, half-field k g m) below in
    omega (
      arith,
      bit_xor_step (h * 2 ^ suc k + l) (g * 2 ^ suc k + m),
      doubled_word k h,
      doubled_word k g,
      doubled_word k (bit_xor h g),
      bit_xor_step l m,
    )

pub bit_xor-lt : (k a b : ℕ) → a < 2 ^ k → b < 2 ^ k → bit_xor a b < 2 ^ k
bit_xor-lt zero a b p q =
    let ea : a ≡ 0 = omega arith in
    let eb : b ≡ 0 = omega arith in rw (ea, eb) (omega (arith, bit_xor_self 0))
bit_xor-lt (suc k) a b p q = omega (
  arith,
  pow-suc 2 k,
  bit_xor_step a b,
  bit_xor-lt k (a / 2) (b / 2) (omega (arith, pow-suc 2 k)) (omega (arith, pow-suc 2 k)),
)

-- A change of the low part, and one of the high part.
pub bit_xor_low :
    (k h l m : ℕ) → l < 2 ^ k → m < 2 ^ k → bit_xor (h * 2 ^ k + l) m ≡ h * 2 ^ k + bit_xor l m
bit_xor_low k h l m p q =
    let e : 0 * 2 ^ k + m ≡ m = omega arith in
    let zero_high : bit_xor h 0 * 2 ^ k ≡ h * 2 ^ k = ap (λ (s : ℕ). s * 2 ^ k) (bit_xor-zero h) in
    ap (bit_xor (h * 2 ^ k + l)) (sym e) ∙ omega (arith, bit_xor_fields k h 0 l m p q, zero_high)

pub bit_xor_high :
    (k h g l : ℕ) → l < 2 ^ k → bit_xor (h * 2 ^ k + l) (g * 2 ^ k) ≡ bit_xor h g * 2 ^ k + l
bit_xor_high k h g l p =
    let e : g * 2 ^ k + 0 ≡ g * 2 ^ k = omega arith in
    ap (bit_xor (h * 2 ^ k + l)) (sym e)
    ∙ omega (arith, bit_xor_fields k h g l 0 p (omega arith), bit_xor-zero l)
