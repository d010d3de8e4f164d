-- ===== src/Crc/Corrupt.antt =====
-- radio2/src/crc.c: the check refuses a buffer in which one byte was changed.
use old_radio.Base.{
  ℕ, zero, suc, ◌+◌, ◌-◌, ◌*◌, ◌/◌, ◌%◌, ◌^◌, ◌≤◌, ◌<◌, ◌≡◌, ◌≢◌, refl, sym, ap, ◌∙◌, arith,
  bit_xor, true, false, List, [], ◌∷◌, length, take, set, get_or, IsBytes, ◌==◌, ==_iff, dec_lt,
  length-set, if◌then◌else◌, All-take,
}
use old_radio.Base.Bits.{bit_xor_cancel, bit_xor_cancel_left}
use old_radio.Base.Run.{ok}
use old_radio.Base.Tables.{all_below, holds_below}
use old_radio.Crc.{crc_step, crc16_check}
use old_radio.Crc.Loop.{fold, crc_step-lt}
use old_radio.Crc.Step.{entry, index_lt, crc_step-eq, low_byte}
use old_radio.Crc.Stored.{stored, crc16-short, crc16_check-eq, take-set, get_or-set, set-IsBytes}

-- The first entry of the table whose low byte is `v`.
find_low : ℕ → ℕ → ℕ → ℕ
find_low zero i v = 0
find_low (suc n) i v = let rest = find_low n (i + 1) v in if entry i % 2 ^ 8 == v then i else rest

low_table : all_below 256 (λ x. find_low 256 0 (entry x % 2 ^ 8) == x) ≡ true
unfolding all_below find_low entry
low_table = refl

-- The low bytes of the table's entries are all different.
entry_low_inj : (x y : ℕ) → x < 256 → y < 256 → entry x % 2 ^ 8 ≡ entry y % 2 ^ 8 → x ≡ y
entry_low_inj x y hx hy e = sym (back x hx) ∙ ap (find_low 256 0) e ∙ back y hy
  where
    back : (z : ℕ) → z < 256 → find_low 256 0 (entry z % 2 ^ 8) ≡ z
    back z h = (==_iff _ _).0 (holds_below 256 _ z low_table h)

module _ (c d a b : ℕ) (hc : c < 2 ^ 16) (hd : d < 2 ^ 16) (ha : a < 256) (hb : b < 256)
    (same : crc_step c a ≡ crc_step d b) where
  both_fields :
      bit_xor (entry (bit_xor (c / 2 ^ 8) a)) (c % 2 ^ 8 * 2 ^ 8)
      ≡ bit_xor (entry (bit_xor (d / 2 ^ 8) b)) (d % 2 ^ 8 * 2 ^ 8)
  both_fields = sym (crc_step-eq c a hc ha) ∙ same ∙ crc_step-eq d b hd hb

  same_index : bit_xor (c / 2 ^ 8) a ≡ bit_xor (d / 2 ^ 8) b
  same_index = entry_low_inj _ _ (index_lt c a hc ha) (index_lt d b hd hb) (
      sym (low_byte (entry (bit_xor (c / 2 ^ 8) a)) (c % 2 ^ 8))
      ∙ ap (λ (s : ℕ). s % 2 ^ 8) both_fields
      ∙ low_byte (entry (bit_xor (d / 2 ^ 8) b)) (d % 2 ^ 8))

crc_step_inj_byte :
    (c a b : ℕ) → c < 2 ^ 16 → a < 256 → b < 256 → crc_step c a ≡ crc_step c b → a ≡ b
crc_step_inj_byte c a b hc ha hb same =
    bit_xor_cancel_left a b (c / 2 ^ 8) (same_index c c a b hc hc ha hb same)

crc_step_inj_crc :
    (c d b : ℕ) → c < 2 ^ 16 → d < 2 ^ 16 → b < 256 → crc_step c b ≡ crc_step d b → c ≡ d
crc_step_inj_crc c d b hc hd hb same =
    let index = same_index c d b b hc hd hb hb same in
    let high = bit_xor_cancel (c / 2 ^ 8) (d / 2 ^ 8) b index in
    let low =
      bit_xor_cancel_left (c % 2 ^ 8 * 2 ^ 8) (d % 2 ^ 8 * 2 ^ 8) (entry (bit_xor (d / 2 ^ 8) b))
        (rw index at (both_fields c d b b hc hd hb hb same)) in
    omega arith

fold_inj :
    (c d : ℕ) (bytes : List ℕ)
    → c < 2 ^ 16
    → d < 2 ^ 16
    → IsBytes bytes
    → fold c bytes ≡ fold d bytes
    → c ≡ d
unfolding fold
fold_inj c d [] hc hd h e = e
fold_inj c d (b ∷ bytes) hc hd h e =
    crc_step_inj_crc c d b hc hd h.0
      (fold_inj (crc_step c b) (crc_step d b) bytes (crc_step-lt c b) (crc_step-lt d b) h.1 e)

-- A changed byte among the first `n` changes the fold over them.
fold-set :
    (c : ℕ) (bytes : List ℕ) (n i v : ℕ)
    → c < 2 ^ 16
    → IsBytes bytes
    → v < 256
    → i < n
    → n ≤ length bytes
    → fold c (take n bytes) ≡ fold c (take n (set bytes i v))
    → get_or bytes i 0 ≡ v
unfolding fold
fold-set c bytes zero i v hc h hv p q e = absurd (omega arith)
fold-set c [] (suc n) i v hc h hv p q e = absurd (omega arith)
fold-set c (b ∷ bytes) (suc n) zero v hc h hv p q e = crc_step_inj_byte c b v hc h.0 hv (
    fold_inj (crc_step c b) (crc_step c v) (take n bytes) (crc_step-lt c b) (crc_step-lt c v)
      (All-take _ n bytes h.1) e)
fold-set c (b ∷ bytes) (suc n) (suc i) v hc h hv p q e =
    fold-set (crc_step c b) bytes n i v (crc_step-lt c b) h.1 hv (omega arith) (omega arith) e

get_or-byte : (bytes : List ℕ) (i : ℕ) → IsBytes bytes → get_or bytes i 0 < 256
get_or-byte [] i h = omega arith
get_or-byte (b ∷ bytes) zero h = h.0
get_or-byte (b ∷ bytes) (suc i) h = get_or-byte bytes i h.1

-- A changed byte of the two that hold the checksum changes what is stored.
stored-set :
    (bytes : List ℕ) (n i v : ℕ)
    → IsBytes bytes
    → v < 256
    → n ≤ length bytes
    → n ≤ i + 2
    → i < n
    → 2 ≤ n
    → stored bytes n ≡ stored (set bytes i v) n
    → get_or bytes i 0 ≡ v
unfolding stored
stored-set bytes n i v h hv fits high low two e = ground (
  arith,
  get_or-set bytes i (n - 2) v,
  get_or-set bytes i (n - 1) v,
  get_or-byte bytes (n - 2) h,
  get_or-byte bytes (n - 1) h,
)

stored-lt : (bytes : List ℕ) (n : ℕ) → IsBytes bytes → stored bytes n < 2 ^ 16
unfolding stored
stored-lt bytes n h = omega (arith, get_or-byte bytes (n - 2) h, get_or-byte bytes (n - 1) h)

stored-set_before :
    (bytes : List ℕ) (n i v : ℕ)
    → i < n - 2
    → n ≤ length bytes
    → stored (set bytes i v) n ≡ stored bytes n
unfolding stored
stored-set_before bytes n i v h k =
    ground (arith, get_or-set bytes i (n - 2) v, get_or-set bytes i (n - 1) v)

one_byte :
    (bytes : List ℕ) (n i v : ℕ)
    → IsBytes bytes
    → n ≤ length bytes
    → 2 ≤ n
    → i < n
    → v < 256
    → fold 0xffff (take (n - 2) bytes) ≡ stored bytes n
    → fold 0xffff (take (n - 2) (set bytes i v)) ≡ stored (set bytes i v) n
    → get_or bytes i 0 ≡ v
one_byte bytes n i v h fits two inside hv was now = elim (dec_lt i (n - 2)) [
  | yes early ↦
      fold-set 0xffff bytes (n - 2) i v (omega arith) h hv early (omega arith)
        (was ∙ sym (stored-set_before bytes n i v early fits) ∙ sym now)
  | no late ↦
      stored-set bytes n i v h hv fits (omega arith) inside two
        (sym was ∙ ap (fold 0xffff) (sym (take-set bytes (n - 2) i v (omega arith))) ∙ now)
]

-- A buffer of bytes that crc16_check accepts is refused after any one of the `nbyt` bytes, those of
-- the checksum included, takes another value.
pub crc16_check-corrupt :
    (bytes : List ℕ) (nbyt i v : ℕ)
    → IsBytes bytes
    → nbyt ≤ length bytes
    → crc16_check bytes nbyt ≡ ok true
    → i < nbyt
    → v < 256
    → get_or bytes i 0 ≢ v
    → crc16_check (set bytes i v) nbyt ≡ ok false
crc16_check-corrupt bytes nbyt i v h fits accepted inside hv changed = elim (dec_lt nbyt 2) [
  | yes short ↦ let refused = (crc16-short bytes nbyt short).1 in cc (sym refused ∙ accepted)
  | no long ↦
      let two : 2 ≤ nbyt = omega arith in
      let before = crc16_check-eq bytes nbyt two fits in
      let after = crc16_check-eq (set bytes i v) nbyt two (rw (length-set bytes i v) fits) in
      let agreed : (fold 0xffff (take (nbyt - 2) bytes) == stored bytes nbyt % 2 ^ 16) ≡ true =
        cc (sym before ∙ accepted) in
      let was : fold 0xffff (take (nbyt - 2) bytes) ≡ stored bytes nbyt =
        omega (arith, (==_iff _ _).0 agreed, stored-lt bytes nbyt h) in
      let bytes' = set-IsBytes bytes i v h hv in
      let differs : fold 0xffff (take (nbyt - 2) (set bytes i v)) ≢ stored (set bytes i v) nbyt =
        λ e. changed (one_byte bytes nbyt i v h fits two inside hv was e) in
      after ∙ ap ok (ground (arith, stored-lt (set bytes i v) nbyt bytes'))
]
