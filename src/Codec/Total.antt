-- ===== src/Codec/Total.antt =====
-- radio/serial/symbols.c: symbols_to_bytes returns on whatever symbols there are.
use native.Mathlib.Nat.{le_refl}
use old_radio.Base.{
  ℕ, zero, suc, ◌+◌, ◌-◌, ◌*◌, ◌≤◌, ◌<◌, ◌≡◌, refl, ap, arith, List, [], ◌∷◌, ◌++◌, Bool, length,
  drop, length-drop, length-append, ltb, ◌==◌, true, false, dec_lt, if◌then◌else◌,
}
use old_radio.Base.Run.{ok}
use old_radio.Base.Int.{ℤ}
use old_radio.Codec.{Scheme, scheme, min, s2b_pack, s2b_emit, s2b, s2b_loop, symbols_to_bytes}
use old_radio.Codec.Group.{IsScheme, scheme-IsScheme}

length-s2b_emit : (n i temp : ℕ) → length (s2b_emit n i temp) ≡ n
unfolding s2b_emit
length-s2b_emit zero i temp = refl
length-s2b_emit (suc n) i temp = ap suc (length-s2b_emit n (i + 1) temp)

shorter_of :
    (stop : Bool) (bytes tail : List ℕ) (n : ℕ)
    → length bytes ≤ n
    → length (bytes ++ tail) ≤ n
    → length (if stop then bytes else bytes ++ tail) ≤ n
shorter_of true bytes tail n h k = h
shorter_of false bytes tail n h k = k

module _ (s : Scheme) (symbol_encode : ℕ → ℕ) (symbol_decode : ℕ → ℤ) (is : IsScheme s) where
  s2b_pack-total :
      (symbols : List ℕ) (left i temp : ℕ)
      → left ≤ length symbols
      → (out : ℕ) × (s2b_pack s symbol_encode symbol_decode symbols left i temp ≡ ok out)
  unfolding s2b_pack
  s2b_pack-total symbols zero i temp h = (temp, refl)
  s2b_pack-total [] (suc left) i temp h = absurd (omega arith)
  s2b_pack-total (c ∷ symbols) (suc left) i temp h =
      s2b_pack-total symbols left (i + 1) _ (omega arith)

  s2b-total :
      (symbols : List ℕ) (n : ℕ)
      → n ≤ length symbols
      → n ≤ s.chunk_syms
      → (out : List ℕ) × (s2b s symbol_encode symbol_decode symbols n ≡ ok out)
        × (length out ≡ n - 1)
  unfolding s2b
  s2b-total symbols n h small =
      let allowed : ltb (n * s.bits) 64 ≡ true = ground (arith, is.word n small) in
      let (temp, packed) = s2b_pack-total symbols n 0 0 h in
      elim (dec_lt n 2) [
        | yes few ↦
            let test : ltb n 2 ≡ true = ground arith in ([], rw (allowed, test), omega arith)
        | no more ↦
            let test : ltb n 2 ≡ false = ground arith in
            (s2b_emit (n - 1) 0 temp, rw (allowed, test, packed), length-s2b_emit (n - 1) 0 temp)
      ]

  s2b_loop-step :
      (fuel left group : ℕ) (symbols bytes tail : List ℕ)
      → 0 < left
      → min left s.chunk_syms ≡ group
      → s2b s symbol_encode symbol_decode symbols group ≡ ok bytes
      → s2b_loop s symbol_encode symbol_decode fuel
          (drop s.chunk_syms symbols)
          (left - s.chunk_syms)
        ≡ ok tail
      → s2b_loop s symbol_encode symbol_decode (suc fuel) symbols left
        ≡ ok (if ltb (length bytes) s.chunk_bytes then bytes else bytes ++ tail)
  unfolding s2b_loop
  s2b_loop-step fuel left group symbols bytes tail more e first rest =
      let some_left : (left == 0) ≡ false = ground arith in
      elim (dec_lt (length bytes) s.chunk_bytes) [
        | yes short ↦
            let stop : ltb (length bytes) s.chunk_bytes ≡ true = ground arith in
            rw (some_left, e, first, stop)
        | no full ↦
            let go : ltb (length bytes) s.chunk_bytes ≡ false = ground arith in
            rw (some_left, e, first, go, rest)
      ]

  s2b_loop-total :
      (fuel : ℕ) (symbols : List ℕ) (left : ℕ)
      → left ≤ fuel
      → left ≤ length symbols
      → (out : List ℕ) × (s2b_loop s symbol_encode symbol_decode fuel symbols left ≡ ok out)
        × (length out ≤ left)
  s2b_loop-total zero symbols zero f h = ([], unfold s2b_loop in refl, omega arith)
  s2b_loop-total (suc fuel) symbols zero f h = ([], unfold s2b_loop in refl, omega arith)
  s2b_loop-total zero symbols (suc left) f h = absurd (omega arith)
  s2b_loop-total (suc fuel) symbols (suc left) f h =
      let positive = is.positive in
      let one_more = is.one_more in
      let n = min (suc left) s.chunk_syms in
      let below : n ≤ suc left = ground arith in
      let group : n ≤ s.chunk_syms = ground arith in
      let some_group : 0 < n = ground arith in
      let (bytes, first, size) = s2b-total symbols n (omega arith) group in
      let (tail, rest, shorter) =
        s2b_loop-total fuel (drop s.chunk_syms symbols) (suc left - s.chunk_syms) (omega arith)
          (omega (arith, length-drop s.chunk_syms symbols)) in
      let joined = length-append bytes tail in
      (
        if ltb (length bytes) s.chunk_bytes then bytes else bytes ++ tail,
        s2b_loop-step fuel (suc left) n symbols bytes tail (omega arith) refl first rest,
        shorter_of (ltb (length bytes) s.chunk_bytes) bytes tail (suc left) (omega arith)
            (omega arith),
      )

-- With either number of bits, symbols_to_bytes returns on whatever is in the buffer, with no assert failing,
-- and makes at most as many bytes as it is given symbols.
pub symbols_to_bytes-total :
    (count : ℕ) (symbol_encode : ℕ → ℕ) (symbol_decode : ℕ → ℤ) (symbols : List ℕ)
    → (out : List ℕ) × (symbols_to_bytes
          (scheme count)
          symbol_encode
          symbol_decode
          symbols
          (length symbols)
        ≡ ok out)
      × (length out ≤ length symbols)
unfolding symbols_to_bytes
symbols_to_bytes-total count symbol_encode symbol_decode symbols =
    s2b_loop-total (scheme count) symbol_encode symbol_decode (scheme-IsScheme count)
      (length symbols) symbols (length symbols) (le_refl _) (le_refl _)
