-- ===== src/Crc/Poly.antt =====
-- radio2/src/crc.c against its definition: the table-driven loop computes, bit by bit, the remainder
-- by the CCITT polynomial x^16 + x^12 + x^5 + 1.
use old_radio.Base.{
  ℕ, zero, suc, ◌+◌, ◌*◌, ◌/◌, ◌%◌, ◌^◌, ◌≤◌, ◌<◌, ◌≡◌, refl, sym, ap, ◌∙◌, arith, bit_xor, true,
  false, List, [], ◌∷◌, length, take, IsBytes, leb, ◌==◌, ==_iff, if◌then◌else◌, Bool-cases, inl,
  inr, All-take,
}
use native.Mathlib.Nat.{pow-suc, one-le-pow, le-mul_of_pos_right}
use old_radio.Base.Bits.{
  bit_xor_fields, bit_xor_low, bit_xor_high, bit_xor-lt, bit_xor_comm, bit_xor_assoc, zero-bit_xor,
}
use old_radio.Base.Run.{ok}
use old_radio.Base.Tables.{all_below, holds_below}
use old_radio.Crc.{crc_step, crc16}
use old_radio.Crc.Loop.{fold, crc16-fold, crc_step-lt}
use old_radio.Crc.Step.{entry, index_lt, crc_step-eq}

-- One step of the shift register.
pub poly_step : ℕ → ℕ
poly_step r = if leb (2 ^ 15) r then bit_xor (r * 2 % 2 ^ 16) 0x1021 else r * 2

pub poly_steps : ℕ → ℕ → ℕ
poly_steps zero r = r
poly_steps (suc n) r = poly_steps n (poly_step r)

-- A byte enters the register at its high end, and eight steps follow.
pub poly_byte : ℕ → ℕ → ℕ
poly_byte r b = poly_steps 8 (bit_xor r (b * 2 ^ 8))

pub poly_bytes : ℕ → List ℕ → ℕ
poly_bytes r [] = r
poly_bytes r (b ∷ bytes) = poly_bytes (poly_byte r b) bytes

-- The table holds eight steps for each high byte.
poly_table : all_below 256 (λ x. poly_steps 8 (x * 2 ^ 8) == entry x) ≡ true
unfolding all_below poly_steps poly_step entry
poly_table = refl

poly_entry : (x : ℕ) → x < 256 → poly_steps 8 (x * 2 ^ 8) ≡ entry x
poly_entry x h = (==_iff _ _).0 (holds_below 256 _ x poly_table h)

double_xor : (a b : ℕ) → bit_xor (a * 2) (b * 2) ≡ bit_xor a b * 2
double_xor a b =
    let ea : a * 2 ≡ a * 2 ^ 1 + 0 = omega arith in
    let eb : b * 2 ≡ b * 2 ^ 1 + 0 = omega arith in
    let both = bit_xor_fields 1 a b 0 0 (omega arith) (omega arith) in
    ap (λ (s : ℕ). bit_xor s (b * 2)) ea
    ∙ ap (bit_xor (a * 2 ^ 1 + 0)) eb
    ∙ omega (arith, both, zero-bit_xor 0)

-- A part below the top bit goes through a step as a shift.
poly_step-xor :
    (a b : ℕ) → a < 2 ^ 16 → b < 2 ^ 15 → poly_step (bit_xor a b) ≡ bit_xor (poly_step a) (b * 2)
unfolding poly_step
poly_step-xor a b ha hb =
    let ea : a ≡ a / 2 ^ 15 * 2 ^ 15 + a % 2 ^ 15 = omega arith in
    let both = bit_xor_low 15 (a / 2 ^ 15) (a % 2 ^ 15) b (omega arith) hb in
    let low = bit_xor-lt 15 (a % 2 ^ 15) b (omega arith) hb in
    let e : bit_xor a b ≡ a / 2 ^ 15 * 2 ^ 15 + bit_xor (a % 2 ^ 15) b =
      ap (λ (s : ℕ). bit_xor s b) ea ∙ both in
    elim (Bool-cases (leb (2 ^ 15) a)) [
      | inl top ↦
          let ht : leb (2 ^ 15) (bit_xor a b) ≡ true = ground (arith, e, low) in
          let left : bit_xor a b * 2 % 2 ^ 16 ≡ bit_xor (a * 2 % 2 ^ 16) (b * 2) =
            let r : a * 2 % 2 ^ 16 ≡ a % 2 ^ 15 * 2 = ground arith in
            rw (r, double_xor (a % 2 ^ 15) b) (ground (arith, e, low)) in
          rw (ht, top, left)
            (bit_xor_assoc (a * 2 % 2 ^ 16) (b * 2) 0x1021
              ∙ ap (bit_xor (a * 2 % 2 ^ 16)) (bit_xor_comm (b * 2) 0x1021)
              ∙ sym (bit_xor_assoc (a * 2 % 2 ^ 16) 0x1021 (b * 2)))
      | inr flat ↦
          let ht : leb (2 ^ 15) (bit_xor a b) ≡ false = ground (arith, e, low) in
          rw (ht, flat) (sym (double_xor a b))
    ]

poly_step-lt : (r : ℕ) → r < 2 ^ 16 → poly_step r < 2 ^ 16
unfolding poly_step
poly_step-lt r h = ground (arith, bit_xor-lt 16 (r * 2 % 2 ^ 16) 0x1021)

poly_steps-xor :
    (n a b : ℕ)
    → a < 2 ^ 16
    → b * 2 ^ n < 2 ^ 16
    → poly_steps n (bit_xor a b) ≡ bit_xor (poly_steps n a) (b * 2 ^ n)
unfolding poly_steps
poly_steps-xor zero a b ha hb = let e : b * 2 ^ 0 ≡ b = omega arith in rw e
poly_steps-xor (suc n) a b ha hb =
    let e : b * 2 ^ suc n ≡ b * 2 * 2 ^ n = omega (arith, ap (λ (s : ℕ). b * s) (pow-suc 2 n)) in
    let small : b ≤ b * 2 ^ n = le-mul_of_pos_right b (one-le-pow n 2 (omega arith)) in
    let fits : b * 2 * 2 ^ n < 2 ^ 16 = omega arith in
    let hb' : b < 2 ^ 15 = omega arith in
    rw (poly_step-xor a b ha hb', e)
      (poly_steps-xor n (poly_step a) (b * 2) (poly_step-lt a ha) fits)

poly_byte-eq : (c b : ℕ) → c < 2 ^ 16 → b < 256 → crc_step c b ≡ poly_byte c b
unfolding poly_byte
poly_byte-eq c b hc hb =
    let x = bit_xor (c / 2 ^ 8) b in
    let l = c % 2 ^ 8 in
    let ec : c ≡ c / 2 ^ 8 * 2 ^ 8 + l = omega arith in
    let hx = index_lt c b hc hb in
    let enter : bit_xor c (b * 2 ^ 8) ≡ x * 2 ^ 8 + l =
      ap (λ (s : ℕ). bit_xor s (b * 2 ^ 8)) ec ∙ bit_xor_high 8 (c / 2 ^ 8) b l (omega arith) in
    let ex : x * 2 ^ 8 + 0 ≡ x * 2 ^ 8 = omega arith in
    let split : bit_xor (x * 2 ^ 8) l ≡ x * 2 ^ 8 + l =
      ap (λ (s : ℕ). bit_xor s l) (sym ex)
      ∙ bit_xor_low 8 x 0 l (omega arith) (omega arith)
      ∙ ap (λ (s : ℕ). x * 2 ^ 8 + s) (zero-bit_xor l) in
    crc_step-eq c b hc hb
    ∙ ap (λ (s : ℕ). bit_xor s (l * 2 ^ 8)) (sym (poly_entry x hx))
    ∙ sym (poly_steps-xor 8 (x * 2 ^ 8) l (omega arith) (omega arith))
    ∙ ap (poly_steps 8) (split ∙ sym enter)

fold-poly :
    (c : ℕ) (bytes : List ℕ) → c < 2 ^ 16 → IsBytes bytes → fold c bytes ≡ poly_bytes c bytes
unfolding fold poly_bytes
fold-poly c [] hc h = refl
fold-poly c (b ∷ bytes) hc h =
    fold-poly (crc_step c b) bytes (crc_step-lt c b) h.1
    ∙ ap (λ (s : ℕ). poly_bytes s bytes) (poly_byte-eq c b hc h.0)

-- On bytes that the buffer holds, crc16 returns the bit-by-bit remainder of the polynomial, from a
-- register of ones.
pub crc16-poly :
    (bytes : List ℕ) (nbyt : ℕ)
    → nbyt ≤ length bytes
    → IsBytes bytes
    → crc16 bytes nbyt ≡ ok (poly_bytes 0xffff (take nbyt bytes))
crc16-poly bytes nbyt h bs =
    crc16-fold bytes nbyt h
    ∙ ap ok (fold-poly 0xffff (take nbyt bytes) (omega arith) (All-take _ nbyt bytes bs))
