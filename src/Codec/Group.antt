-- ===== src/Codec/Group.antt =====
-- radio/serial/symbols.c: what makes a scheme and its tables fit, and one group.
use native.Mathlib.Nat.{div-div-eq-div-mul, mul_comm, mod-eq_of_lt, lt_of_lt_of_le}
use old_radio.Base.{
  ℕ, zero, suc, ◌+◌, ◌-◌, ◌*◌, ◌/◌, ◌%◌, ◌^◌, ◌≤◌, ◌<◌, ◌≡◌, refl, sym, ap, ◌∙◌, arith, inl, inr,
  List, [], ◌∷◌, ◌++◌, map, length, take, All, IsBytes, length-take, two-pow-step, two-pow_mono,
  ltb, leb, ◌==◌, true, false, Bool-cases,
}
use old_radio.Base.Run.{ok}
use old_radio.Base.Int.{ℤ, pos, to_u64}
use old_radio.Symbols.Digits.{
  value, digits, AreDigits, length-digits, digits-AreDigits, digits-value, value-lt, value-digits,
}
use old_radio.Symbols.Group.{grows, fits}
use old_radio.Codec.{Scheme, scheme, b2s_pack, b2s_emit, b2s, s2b_pack, s2b_emit, s2b, symbol_valid}

-- A group of bytes fits in one symbol more, and a group of symbols in 64 bits.
pub record IsScheme (s : Scheme) : Type 0 where
  pub positive : 0 < s.chunk_bytes
  pub one_more : s.chunk_syms ≡ s.chunk_bytes + 1
  pub at_most : s.chunk_bytes ≤ 7
  pub room : (n : ℕ) → n ≤ s.chunk_bytes → 8 * n ≤ s.bits * (n + 1)
  pub word : (n : ℕ) → n ≤ s.chunk_syms → s.bits * n < 64

pub scheme-IsScheme : (count : ℕ) → IsScheme (scheme count)
unfolding scheme
scheme-IsScheme count = elim (Bool-cases (ltb count 128)) [
  | inl few ↦ rw few (record {
    positive = omega arith;
    one_more = refl;
    at_most = omega arith;
    room = λ n h. omega arith;
    word = λ n h. omega arith;
  })
  | inr many ↦ rw many (record {
    positive = omega arith;
    one_more = refl;
    at_most = omega arith;
    room = λ n h. omega arith;
    word = λ n h. omega arith;
  })
]

-- The tables are each other's inverse on the values of a symbol's bits.
pub record IsTable (s : Scheme) (symbol_encode : ℕ → ℕ) (symbol_decode : ℕ → ℤ) : Type 0 where
  pub inverse : (d : ℕ) → d < 2 ^ s.bits → symbol_decode (symbol_encode d) ≡ pos d

module _ (s : Scheme) (symbol_encode : ℕ → ℕ) (symbol_decode : ℕ → ℤ) (is : IsScheme s)
    (table : IsTable s symbol_encode symbol_decode) where
  decoded : (d : ℕ) → d < 2 ^ s.bits → to_u64 (symbol_decode (symbol_encode d)) ≡ d
  decoded d h =
      let word = two-pow_mono s.bits 64 (omega (arith, is.word 1 (omega (arith, is.one_more)))) in
      rw (table.inverse d h) (mod-eq_of_lt (lt_of_lt_of_le h word))

  pub encode-valid :
      (ds : List ℕ)
      → AreDigits (2 ^ s.bits) ds
      → All (λ c. symbol_valid s symbol_encode symbol_decode c ≡ true) (map symbol_encode ds)
  unfolding symbol_valid
  encode-valid [] h = tt
  encode-valid (d ∷ ds) h =
      let above : ltb (d + 0) 0 ≡ false = ground arith in
      (rw (table.inverse d h.0, above), encode-valid ds h.1)

  b2s_pack-value :
      (bytes : List ℕ) (left i temp : ℕ)
      → left ≤ length bytes
      → IsBytes bytes
      → temp < 2 ^ (8 * i)
      → i + left ≤ 8
      → b2s_pack bytes left i temp ≡ ok (temp + value 256 (take left bytes) * 2 ^ (8 * i))
  unfolding b2s_pack value
  b2s_pack-value bytes zero i temp h bs t k = ap ok (omega arith)
  b2s_pack-value [] (suc left) i temp h bs t k = absurd (omega arith)
  b2s_pack-value (b ∷ bytes) (suc left) i temp h bs t k =
      let f = fits 8 i b temp t bs.0 (omega arith) in
      rw f.0 (
        b2s_pack-value bytes left (i + 1) (temp + b * 2 ^ (8 * i)) (omega arith) bs.1 f.1
          (omega arith)
        ∙ ap ok (sym (grows 8 i b (value 256 (take left bytes)) temp)))

  shifted : (w i temp : ℕ) → temp / 2 ^ (w * i) / 2 ^ w ≡ temp / 2 ^ (w * (i + 1))
  shifted w i temp =
      div-div-eq-div-mul temp (2 ^ (w * i)) (2 ^ w)
      ∙ ap (λ (m : ℕ). temp / m) (mul_comm (2 ^ (w * i)) (2 ^ w) ∙ sym (two-pow-step w i))

  b2s_emit-digits :
      (n i temp : ℕ)
      → b2s_emit s symbol_encode symbol_decode n i temp
        ≡ map symbol_encode (digits (2 ^ s.bits) n (temp / 2 ^ (s.bits * i)))
  unfolding b2s_emit digits
  b2s_emit-digits zero i temp = refl
  b2s_emit-digits (suc n) i temp = rw (shifted s.bits i temp) (
      ap (◌∷◌ (symbol_encode (temp / 2 ^ (s.bits * i) % 2 ^ s.bits)))
        (b2s_emit-digits n (i + 1) temp))

  s2b_pack-value :
      (ds rest : List ℕ) (i temp : ℕ)
      → AreDigits (2 ^ s.bits) ds
      → temp < 2 ^ (s.bits * i)
      → i + length ds ≤ s.chunk_syms
      → s2b_pack s symbol_encode symbol_decode (map symbol_encode ds ++ rest) (length ds) i temp
        ≡ ok (temp + value (2 ^ s.bits) ds * 2 ^ (s.bits * i))
  unfolding s2b_pack value
  s2b_pack-value [] rest i temp h t k = ap ok (omega arith)
  s2b_pack-value (d ∷ ds) rest i temp h t k =
      let f = fits s.bits i d temp t h.0 (omega (arith, is.word (i + 1) (omega arith))) in
      let e : (temp + to_u64 (symbol_decode (symbol_encode d)) * 2 ^ (s.bits * i)) % 2 ^ 64
          ≡ temp + d * 2 ^ (s.bits * i) =
        rw (decoded d h.0) f.0 in
      rw e (
        s2b_pack-value ds rest (i + 1) (temp + d * 2 ^ (s.bits * i)) h.1 f.1 (omega arith)
        ∙ ap ok (sym (grows s.bits i d (value (2 ^ s.bits) ds) temp)))

  s2b_emit-digits : (n i temp : ℕ) → s2b_emit n i temp ≡ digits 256 n (temp / 2 ^ (8 * i))
  unfolding s2b_emit digits
  s2b_emit-digits zero i temp = refl
  s2b_emit-digits (suc n) i temp =
      rw (shifted 8 i temp) (ap (◌∷◌ (temp / 2 ^ (8 * i) % 256)) (s2b_emit-digits n (i + 1) temp))

  -- The values of the symbols for a group of bytes.
  pub group_digits : List ℕ → List ℕ
  group_digits bytes = digits (2 ^ s.bits) (length bytes + 1) (value 256 bytes)

  pub length-group_digits : (bytes : List ℕ) → length (group_digits bytes) ≡ length bytes + 1
  unfolding group_digits
  length-group_digits bytes = length-digits (2 ^ s.bits) (length bytes + 1) (value 256 bytes)

  pub group_digits-AreDigits : (bytes : List ℕ) → AreDigits (2 ^ s.bits) (group_digits bytes)
  unfolding group_digits
  group_digits-AreDigits bytes =
      digits-AreDigits (2 ^ s.bits) (length bytes + 1) (value 256 bytes)
        (two-pow_mono 0 s.bits (omega arith))

  pub b2s-eq :
      (bytes : List ℕ) (n : ℕ)
      → 0 < n
      → n ≤ s.chunk_bytes
      → n ≤ length bytes
      → IsBytes bytes
      → b2s s symbol_encode symbol_decode bytes n
        ≡ ok (map symbol_encode (group_digits (take n bytes)))
  unfolding b2s group_digits
  b2s-eq bytes n more small h bs =
      let least = is.at_most in
      let some_bytes : (n == 0) ≡ false = ground arith in
      let allowed : leb n 8 ≡ true = ground arith in
      let size : length (take n bytes) ≡ n = omega (arith, length-take n bytes) in
      let v = value 256 (take n bytes) in
      let packed : b2s_pack bytes n 0 0 ≡ ok v =
        b2s_pack-value bytes n 0 0 h bs (omega arith) (omega arith) ∙ ap ok (omega arith) in
      let whole : v / 2 ^ (s.bits * 0) ≡ v =
        let none : s.bits * 0 ≡ 0 = omega arith in rw none (omega arith) in
      let emitted : b2s_emit s symbol_encode symbol_decode (n + 1) 0 v
          ≡ map symbol_encode (digits (2 ^ s.bits) (n + 1) v) =
        b2s_emit-digits (n + 1) 0 v
        ∙ ap (λ (m : ℕ). map symbol_encode (digits (2 ^ s.bits) (n + 1) m)) whole in
      rw (some_bytes, allowed, packed, emitted, size)

  -- Decoding a group's symbols, with others behind them, gives its bytes back.
  pub s2b-group :
      (bytes rest : List ℕ)
      → 0 < length bytes
      → length bytes ≤ s.chunk_bytes
      → IsBytes bytes
      → s2b s symbol_encode symbol_decode
          (map symbol_encode (group_digits bytes) ++ rest)
          (length bytes + 1)
        ≡ ok bytes
  unfolding s2b
  s2b-group bytes rest more small bs =
      let n = length bytes in
      let v = value 256 bytes in
      let ds = group_digits bytes in
      let size = length-group_digits bytes in
      let syms = is.one_more in
      let enough : ltb (n + 1) 2 ≡ false = ground arith in
      let allowed : ltb ((n + 1) * s.bits) 64 ≡ true =
        ground (arith, is.word (n + 1) (omega arith)) in
      let below : v < 2 ^ (s.bits * (n + 1)) =
        lt_of_lt_of_le (value-lt 8 bytes bs)
          (two-pow_mono (8 * n) (s.bits * (n + 1)) (is.room n small)) in
      let back : value (2 ^ s.bits) ds ≡ v =
        unfold group_digits in value-digits s.bits (n + 1) v below in
      let none : s.bits * 0 ≡ 0 = omega arith in
      let packed : s2b_pack s symbol_encode symbol_decode (map symbol_encode ds ++ rest) (n + 1) 0 0
          ≡ ok v =
        rw (← size) (
          s2b_pack-value ds rest 0 0 (group_digits-AreDigits bytes) (rw none (omega arith))
            (omega arith)
          ∙ ap ok (rw none (omega (arith, back)))) in
      let count : n + 1 - 1 ≡ n = omega arith in
      let emitted : s2b_emit n 0 v ≡ bytes =
        s2b_emit-digits n 0 v ∙ ap (digits 256 n) (omega arith) ∙ digits-value 256 bytes bs in
      rw (enough, allowed, packed, count, emitted)
