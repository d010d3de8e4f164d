-- ===== src/Symbols/Group.antt =====
-- radio2/src/symbols.c: one group, of up to 7 bytes in up to 8 symbols.
use native.Mathlib.Nat.{
  div-div-eq-div-mul, mul_comm, mul-le-mul_right, mod-eq_of_lt, lt_of_lt_of_le,
}
use old_radio.Base.{
  ℕ, zero, suc, ◌+◌, ◌-◌, ◌*◌, ◌/◌, ◌%◌, ◌^◌, ◌≤◌, ◌<◌, ◌≡◌, refl, sym, ap, ◌∙◌, arith, List, [],
  ◌∷◌, ◌++◌, map, length, take, IsBytes, length-take, two-pow-step, two-pow_mono, ltb, ◌==◌, false,
}
use old_radio.Base.Run.{ok}
use old_radio.Symbols.{b2s_pack, b2s_emit, b2s, s2b_pack, s2b_emit, s2b}
use old_radio.Symbols.Digits.{
  value, digits, AreDigits, length-digits, digits-AreDigits, digits-value, value-lt, value-digits,
}
use old_radio.Symbols.Codes.{code, decoded, decoded-code}

-- A group's number fits 64 bits while it is packed: `t` is what the group adds, `v` the new part.
pub grows :
    (w i d v temp : ℕ)
    → temp + (d + 2 ^ w * v) * 2 ^ (w * i) ≡ temp + d * 2 ^ (w * i) + v * 2 ^ (w * (i + 1))
grows w i d v temp = let e = ap (λ (s : ℕ). v * s) (two-pow-step w i) in omega (arith, e)

pub fits :
    (w i d temp : ℕ)
    → temp < 2 ^ (w * i)
    → d < 2 ^ w
    → w * (i + 1) ≤ 64
    → ((temp + d * 2 ^ (w * i)) % 2 ^ 64 ≡ temp + d * 2 ^ (w * i))
      × (temp + d * 2 ^ (w * i) < 2 ^ (w * (i + 1)))
fits w i d temp h k m =
    let scaled : suc d * 2 ^ (w * i) ≤ 2 ^ w * 2 ^ (w * i) = mul-le-mul_right (2 ^ (w * i)) k in
    let e = two-pow-step w i in
    let below : temp + d * 2 ^ (w * i) < 2 ^ (w * (i + 1)) = omega arith in
    let word = two-pow_mono (w * (i + 1)) 64 m in (mod-eq_of_lt (omega arith), below)

b2s_pack-value :
    (bytes : List ℕ) (left i temp : ℕ)
    → left ≤ length bytes
    → IsBytes bytes
    → temp < 2 ^ (8 * i)
    → i + left ≤ 8
    → b2s_pack bytes left i temp ≡ ok (temp + value 256 (take left bytes) * 2 ^ (8 * i))
unfolding b2s_pack value
b2s_pack-value bytes zero i temp h bs t k = ap ok (omega arith)
b2s_pack-value [] (suc left) i temp h bs t k = absurd (omega arith)
b2s_pack-value (b ∷ bytes) (suc left) i temp h bs t k =
    let f = fits 8 i b temp t bs.0 (omega arith) in
    rw f.0 (
      b2s_pack-value bytes left (i + 1) (temp + b * 2 ^ (8 * i)) (omega arith) bs.1 f.1
        (omega arith)
      ∙ ap ok (sym (grows 8 i b (value 256 (take left bytes)) temp)))

b2s_emit-digits : (n i temp : ℕ) → b2s_emit n i temp ≡ map code (digits 128 n (temp / 2 ^ (7 * i)))
unfolding b2s_emit digits code
b2s_emit-digits zero i temp = refl
b2s_emit-digits (suc n) i temp =
    let e : temp / 2 ^ (7 * i) / 128 ≡ temp / 2 ^ (7 * (i + 1)) =
      div-div-eq-div-mul temp (2 ^ (7 * i)) 128
      ∙ ap (λ (s : ℕ). temp / s) (mul_comm (2 ^ (7 * i)) 128 ∙ sym (two-pow-step 7 i)) in
    rw e (ap (◌∷◌ (code (temp / 2 ^ (7 * i) % 128))) (b2s_emit-digits n (i + 1) temp))

s2b_pack-value :
    (ds rest : List ℕ) (i temp : ℕ)
    → AreDigits 128 ds
    → temp < 2 ^ (7 * i)
    → i + length ds ≤ 8
    → s2b_pack (map code ds ++ rest) (length ds) i temp ≡ ok (temp + value 128 ds * 2 ^ (7 * i))
unfolding s2b_pack value decoded
s2b_pack-value [] rest i temp h t k = ap ok (omega arith)
s2b_pack-value (d ∷ ds) rest i temp h t k =
    let f = fits 7 i d temp t h.0 (omega arith) in
    let e : (temp + decoded (code d) * 2 ^ (7 * i)) % 2 ^ 64 ≡ temp + d * 2 ^ (7 * i) =
      rw (decoded-code d h.0) f.0 in
    rw e (
      s2b_pack-value ds rest (i + 1) (temp + d * 2 ^ (7 * i)) h.1 f.1 (omega arith)
      ∙ ap ok (sym (grows 7 i d (value 128 ds) temp)))

s2b_emit-digits : (n i temp : ℕ) → s2b_emit n i temp ≡ digits 256 n (temp / 2 ^ (8 * i))
unfolding s2b_emit digits
s2b_emit-digits zero i temp = refl
s2b_emit-digits (suc n) i temp =
    let e : temp / 2 ^ (8 * i) / 256 ≡ temp / 2 ^ (8 * (i + 1)) =
      div-div-eq-div-mul temp (2 ^ (8 * i)) 256
      ∙ ap (λ (s : ℕ). temp / s) (mul_comm (2 ^ (8 * i)) 256 ∙ sym (two-pow-step 8 i)) in
    rw e (ap (◌∷◌ (temp / 2 ^ (8 * i) % 256)) (s2b_emit-digits n (i + 1) temp))

-- The 7-bit values of a group of bytes.
pub group_digits : List ℕ → List ℕ
group_digits bytes = digits 128 (length bytes + 1) (value 256 bytes)

pub length-group_digits : (bytes : List ℕ) → length (group_digits bytes) ≡ length bytes + 1
unfolding group_digits
length-group_digits bytes = length-digits 128 (length bytes + 1) (value 256 bytes)

pub group_digits-AreDigits : (bytes : List ℕ) → AreDigits 128 (group_digits bytes)
unfolding group_digits
group_digits-AreDigits bytes =
    digits-AreDigits 128 (length bytes + 1) (value 256 bytes) (omega arith)

pub b2s-eq :
    (bytes : List ℕ) (n : ℕ)
    → 0 < n
    → n ≤ 7
    → n ≤ length bytes
    → IsBytes bytes
    → b2s bytes n ≡ ok (map code (group_digits (take n bytes)))
unfolding b2s group_digits
b2s-eq bytes n pos small h bs =
    let some_bytes : (n == 0) ≡ false = ground arith in
    let size : length (take n bytes) ≡ n = omega (arith, length-take n bytes) in
    let v = value 256 (take n bytes) in
    let packed : b2s_pack bytes n 0 0 ≡ ok v =
      b2s_pack-value bytes n 0 0 h bs (omega arith) (omega arith) ∙ ap ok (omega arith) in
    let emitted : b2s_emit (n + 1) 0 v ≡ map code (digits 128 (n + 1) v) =
      b2s_emit-digits (n + 1) 0 v ∙ ap (λ (s : ℕ). map code (digits 128 (n + 1) s)) (omega arith) in
    rw (some_bytes, packed, emitted, size)

-- Decoding a group's symbols, with others behind them, gives its bytes back.
pub s2b-group :
    (bytes rest : List ℕ)
    → 0 < length bytes
    → length bytes ≤ 7
    → IsBytes bytes
    → s2b (map code (group_digits bytes) ++ rest) (length bytes + 1) ≡ ok bytes
unfolding s2b
s2b-group bytes rest pos small bs =
    let n = length bytes in
    let v = value 256 bytes in
    let ds = group_digits bytes in
    let size = length-group_digits bytes in
    let enough : ltb (n + 1) 2 ≡ false = ground arith in
    let room : v < 2 ^ (7 * (n + 1)) =
      lt_of_lt_of_le (value-lt 8 bytes bs) (two-pow_mono (8 * n) (7 * (n + 1)) (omega arith)) in
    let back : value 128 ds ≡ v = unfold group_digits in value-digits 7 (n + 1) v room in
    let packed : s2b_pack (map code ds ++ rest) (n + 1) 0 0 ≡ ok v = rw (← size) (
      s2b_pack-value ds rest 0 0 (group_digits-AreDigits bytes) (omega arith) (omega arith)
      ∙ ap ok (omega (arith, back))) in
    let count : n + 1 - 1 ≡ n = omega arith in
    let emitted : s2b_emit n 0 v ≡ bytes =
      s2b_emit-digits n 0 v ∙ ap (digits 256 n) (omega arith) ∙ digits-value 256 bytes bs in
    rw (enough, packed, count, emitted)
