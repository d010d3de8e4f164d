-- ===== src/Codec/Steps.antt =====
-- radio/serial/symbols.c: one step of each of the loops over groups.
use old_radio.Base.{
  ℕ, zero, suc, ◌-◌, ◌≤◌, ◌<◌, ◌≡◌, refl, arith, List, [], ◌++◌, length, drop, ltb, ◌==◌, true,
  false,
}
use old_radio.Base.Run.{ok}
use old_radio.Base.Int.{ℤ}
use old_radio.Codec.{Scheme, min, b2s, b2s_loop, s2b, s2b_loop}

pub min-below : (x y : ℕ) → x < y → min x y ≡ x
min-below x y h = ground arith

pub min-above : (x y : ℕ) → y ≤ x → min x y ≡ y
min-above x y h = ground arith

module _ (s : Scheme) (symbol_encode : ℕ → ℕ) (symbol_decode : ℕ → ℤ) where
  pub s2b_loop-zero :
      (fuel : ℕ) (symbols : List ℕ) → s2b_loop s symbol_encode symbol_decode fuel symbols 0 ≡ ok []
  unfolding s2b_loop
  s2b_loop-zero zero symbols = refl
  s2b_loop-zero (suc fuel) symbols = refl

  pub b2s_loop-zero :
      (fuel : ℕ) (bytes : List ℕ) → b2s_loop s symbol_encode symbol_decode fuel bytes 0 ≡ ok []
  unfolding b2s_loop
  b2s_loop-zero zero bytes = refl
  b2s_loop-zero (suc fuel) bytes = refl

  -- One step of each loop, the other calls shut.
  pub b2s_loop-suc :
      (fuel : ℕ) (bytes : List ℕ) (left group : ℕ) (symbols more : List ℕ)
      → 0 < left
      → min left s.chunk_bytes ≡ group
      → b2s s symbol_encode symbol_decode bytes group ≡ ok symbols
      → b2s_loop s symbol_encode symbol_decode fuel
          (drop s.chunk_bytes bytes)
          (left - s.chunk_bytes)
        ≡ ok more
      → b2s_loop s symbol_encode symbol_decode (suc fuel) bytes left ≡ ok (symbols ++ more)
  unfolding b2s_loop
  b2s_loop-suc fuel bytes left group symbols more some e first rest =
      let some_left : (left == 0) ≡ false = ground arith in rw (some_left, e, first, rest)

  pub s2b_loop-last :
      (fuel : ℕ) (symbols bytes : List ℕ) (left : ℕ)
      → 0 < left
      → left < s.chunk_syms
      → s2b s symbol_encode symbol_decode symbols left ≡ ok bytes
      → length bytes < s.chunk_bytes
      → s2b_loop s symbol_encode symbol_decode (suc fuel) symbols left ≡ ok bytes
  unfolding s2b_loop
  s2b_loop-last fuel symbols bytes left some small first short =
      let some_left : (left == 0) ≡ false = ground arith in
      let stop : ltb (length bytes) s.chunk_bytes ≡ true = ground arith in
      rw (some_left, min-below left s.chunk_syms small, first, stop)

  pub s2b_loop-more :
      (fuel : ℕ) (symbols bytes tail : List ℕ) (left : ℕ)
      → 0 < left
      → s.chunk_syms ≤ left
      → s2b s symbol_encode symbol_decode symbols s.chunk_syms ≡ ok bytes
      → length bytes ≡ s.chunk_bytes
      → s2b_loop s symbol_encode symbol_decode fuel
          (drop s.chunk_syms symbols)
          (left - s.chunk_syms)
        ≡ ok tail
      → s2b_loop s symbol_encode symbol_decode (suc fuel) symbols left ≡ ok (bytes ++ tail)
  unfolding s2b_loop
  s2b_loop-more fuel symbols bytes tail left some big first full rest =
      let some_left : (left == 0) ≡ false = ground arith in
      let go : ltb (length bytes) s.chunk_bytes ≡ false = ground arith in
      rw (some_left, min-above left s.chunk_syms big, first, go, rest)
