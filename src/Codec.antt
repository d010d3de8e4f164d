-- ===== src/Codec.antt =====
-- radio/serial/symbols.c: the codec of the first radio, for 6 or for 7 bits in a symbol. The tables and
-- SYMBOL_COUNT come from a generated file and are parameters: functions, since the mask and the type
-- of a symbol keep the index inside them. Buffers are as in Symbols.
pub mod Group
pub mod Steps
pub mod RoundTrip
pub mod Total
pub mod Tests
use old_radio.Base.{
  ℕ, zero, suc, ◌+◌, ◌-◌, ◌*◌, ◌/◌, ◌%◌, ◌^◌, List, [], ◌∷◌, ◌++◌, Bool, not, ltb, leb, ◌==◌,
  if◌then◌else◌, length, drop, ◌<<<◌, ◌>>>◌,
}
use old_radio.Base.Run.{Run, ok, fault, out_of_fuel, assert, ◌>>=◌, ◌>>◌}
use old_radio.Base.Int.{ℤ, pos, ltb_ℤ, to_u64}

-- SYMBOL_BITS, SYMBOL_CHUNK_SYMS and SYMBOL_CHUNK_BYTES.
pub record Scheme : Type 0 where
  pub bits : ℕ
  pub chunk_syms : ℕ
  pub chunk_bytes : ℕ

-- The scheme for SYMBOL_COUNT symbols, which are at least 64.
unfoldable pub scheme : ℕ → Scheme
scheme count =
    if ltb count 128
    then record { bits = 6; chunk_syms = 4; chunk_bytes = 3 }
    else record { bits = 7; chunk_syms = 8; chunk_bytes = 7 }

abbrev pub min : ℕ → ℕ → ℕ
min x y = if ltb x y then x else y

-- `temp += (uint64_t)bytes[i] << (8 * i)`
unfoldable pub b2s_pack : List ℕ → ℕ → ℕ → ℕ → Run ℕ
b2s_pack bytes zero i temp = ok temp
b2s_pack [] (suc left) i temp = fault
b2s_pack (b ∷ bytes) (suc left) i temp =
    b2s_pack bytes left (i + 1) ((temp + b <<< (8 * i)) % 2 ^ 64)

-- `bytes[i] = (temp >> (8 * i)) & 0xFF`
unfoldable pub s2b_emit : ℕ → ℕ → ℕ → List ℕ
s2b_emit zero i temp = []
s2b_emit (suc left) i temp = temp >>> (8 * i) % 2 ^ 8 ∷ s2b_emit left (i + 1) temp

module _ (s : Scheme) (symbol_encode : ℕ → ℕ) (symbol_decode : ℕ → ℤ) where
  -- `symbols[i] = symbol_encode[(temp >> (SYMBOL_BITS * i)) & SYMBOL_MASK]`
  unfoldable pub b2s_emit : ℕ → ℕ → ℕ → List ℕ
  b2s_emit zero i temp = []
  b2s_emit (suc left) i temp =
      symbol_encode (temp >>> (s.bits * i) % 2 ^ s.bits) ∷ b2s_emit left (i + 1) temp

  unfoldable pub b2s : List ℕ → ℕ → Run (List ℕ)
  unfolding b2s_pack b2s_emit
  b2s bytes nbytes =
      let packed =
        assert (leb nbytes 8)
        >> (b2s_pack bytes nbytes 0 0 >>= λ temp. ok (b2s_emit (nbytes + 1) 0 temp)) in
      if nbytes == 0 then ok [] else packed

  -- The loop over groups: `left` is `nbytes - i`. The fuel is `nbytes` at first.
  unfoldable pub b2s_loop : ℕ → List ℕ → ℕ → Run (List ℕ)
  unfolding b2s
  b2s_loop zero bytes left = if left == 0 then ok [] else out_of_fuel
  b2s_loop (suc fuel) bytes left =
      let rest : Run (List ℕ) = do
        symbols ← b2s bytes (min left s.chunk_bytes)
        more ← b2s_loop fuel (drop s.chunk_bytes bytes) (left - s.chunk_bytes)
        ok (symbols ++ more)
      in if left == 0 then ok [] else rest

  unfoldable pub bytes_to_symbols : List ℕ → ℕ → Run (List ℕ)
  unfolding b2s_loop
  bytes_to_symbols bytes nbytes = b2s_loop nbytes bytes nbytes

  -- `temp += (uint64_t)symbol_decode[symbols[i]] << (SYMBOL_BITS * i)`
  unfoldable pub s2b_pack : List ℕ → ℕ → ℕ → ℕ → Run ℕ
  s2b_pack symbols zero i temp = ok temp
  s2b_pack [] (suc left) i temp = fault
  s2b_pack (c ∷ symbols) (suc left) i temp =
      s2b_pack symbols left (i + 1) ((temp + to_u64 (symbol_decode c) <<< (s.bits * i)) % 2 ^ 64)

  unfoldable pub s2b : List ℕ → ℕ → Run (List ℕ)
  unfolding s2b_pack s2b_emit
  s2b symbols nsym =
      let packed = s2b_pack symbols nsym 0 0 >>= λ temp. ok (s2b_emit (nsym - 1) 0 temp) in
      assert (ltb (nsym * s.bits) 64) >> (if ltb nsym 2 then ok [] else packed)

  -- A group of fewer than SYMBOL_CHUNK_BYTES bytes ends the loop.
  unfoldable pub s2b_loop : ℕ → List ℕ → ℕ → Run (List ℕ)
  unfolding s2b
  s2b_loop zero symbols left = if left == 0 then ok [] else out_of_fuel
  s2b_loop (suc fuel) symbols left =
      let rest : Run (List ℕ) = do
        bytes ← s2b symbols (min left s.chunk_syms)
        let more = s2b_loop fuel (drop s.chunk_syms symbols) (left - s.chunk_syms) >>= λ tail.
            ok (bytes ++ tail)
        if ltb (length bytes) s.chunk_bytes then ok bytes else more
      in if left == 0 then ok [] else rest

  unfoldable pub symbols_to_bytes : List ℕ → ℕ → Run (List ℕ)
  unfolding s2b_loop
  symbols_to_bytes symbols nsym = s2b_loop nsym symbols nsym

  unfoldable pub symbol_valid : ℕ → Bool
  symbol_valid symbol = not (ltb_ℤ (symbol_decode symbol) (pos 0))
