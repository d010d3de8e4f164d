-- ===== src/Crc/Step.antt =====
-- radio2/src/crc.c: one step of the table-driven loop, in its two fields of eight bits.
use old_radio.Base.{
  ℕ, ◌+◌, ◌*◌, ◌/◌, ◌%◌, ◌^◌, ◌<◌, ◌≡◌, refl, ap, ◌∙◌, arith, bit_xor, true, ltb, ltb→lt, get_or,
}
use old_radio.Base.Bits.{bit_xor-zero, bit_xor_fields, bit_xor-lt}
use old_radio.Base.Tables.{all_below, holds_below}
use old_radio.Crc.{crc_step}
use old_radio.Crc.Table.{crc_table}

-- The table's entry for a byte.
unfoldable pub entry : ℕ → ℕ
unfolding crc_table
entry x = get_or crc_table x 0

entry_table : all_below 256 (λ x. ltb (entry x) (2 ^ 16)) ≡ true
unfolding all_below entry
entry_table = refl

pub entry-lt : (x : ℕ) → x < 256 → entry x < 2 ^ 16
entry-lt x h = ltb→lt _ _ (holds_below 256 _ x entry_table h)

-- The index of the step is the high byte of the checksum, changed by the new byte.
pub index_lt : (c b : ℕ) → c < 2 ^ 16 → b < 256 → bit_xor (c / 2 ^ 8) b < 256
index_lt c b hc hb = bit_xor-lt 8 (c / 2 ^ 8) b (omega arith) hb

shift_fields : (t c : ℕ) → bit_xor t (c * 2 ^ 8) % 2 ^ 16 ≡ bit_xor (t % 2 ^ 16) (c % 2 ^ 8 * 2 ^ 8)
shift_fields t c =
    let low : c % 2 ^ 8 * 2 ^ 8 < 2 ^ 16 = omega arith in
    let et : t ≡ t / 2 ^ 16 * 2 ^ 16 + t % 2 ^ 16 = omega arith in
    let ec : c * 2 ^ 8 ≡ c / 2 ^ 8 * 2 ^ 16 + c % 2 ^ 8 * 2 ^ 8 = omega arith in
    let both =
      bit_xor_fields 16 (t / 2 ^ 16) (c / 2 ^ 8) (t % 2 ^ 16) (c % 2 ^ 8 * 2 ^ 8) (omega arith)
        low in
    let whole : bit_xor t (c * 2 ^ 8)
        ≡ bit_xor (t / 2 ^ 16) (c / 2 ^ 8) * 2 ^ 16 + bit_xor (t % 2 ^ 16) (c % 2 ^ 8 * 2 ^ 8) =
      ap (λ (s : ℕ). bit_xor s (c * 2 ^ 8)) et
      ∙ ap (bit_xor (t / 2 ^ 16 * 2 ^ 16 + t % 2 ^ 16)) ec
      ∙ both in
    omega (arith, bit_xor-lt 16 (t % 2 ^ 16) (c % 2 ^ 8 * 2 ^ 8) (omega arith) low)

-- With bytes and a 16-bit checksum no bit is lost in the index or the shift.
pub crc_step-eq :
    (c b : ℕ)
    → c < 2 ^ 16
    → b < 256
    → crc_step c b ≡ bit_xor (entry (bit_xor (c / 2 ^ 8) b)) (c % 2 ^ 8 * 2 ^ 8)
unfolding crc_step entry
crc_step-eq c b hc hb =
    let x = bit_xor (c / 2 ^ 8) b in
    let hx = index_lt c b hc hb in
    let ex : x % 2 ^ 8 ≡ x = omega arith in
    let et : entry x % 2 ^ 16 ≡ entry x = omega (arith, entry-lt x hx) in
    rw (shift_fields (entry (x % 2 ^ 8)) c, ex, et)

pub low_byte : (t l : ℕ) → bit_xor t (l * 2 ^ 8) % 2 ^ 8 ≡ t % 2 ^ 8
low_byte t l =
    let et : t ≡ t / 2 ^ 8 * 2 ^ 8 + t % 2 ^ 8 = omega arith in
    let el : l * 2 ^ 8 ≡ l * 2 ^ 8 + 0 = omega arith in
    let both = bit_xor_fields 8 (t / 2 ^ 8) l (t % 2 ^ 8) 0 (omega arith) (omega arith) in
    let whole : bit_xor t (l * 2 ^ 8) ≡ bit_xor (t / 2 ^ 8) l * 2 ^ 8 + bit_xor (t % 2 ^ 8) 0 =
      ap (λ (s : ℕ). bit_xor s (l * 2 ^ 8)) et
      ∙ ap (bit_xor (t / 2 ^ 8 * 2 ^ 8 + t % 2 ^ 8)) el
      ∙ both in
    omega (arith, bit_xor-zero (t % 2 ^ 8))
