-- ===== src/Symbols.antt =====
-- radio2/src/symbols.c: bytes to symbols and back, in groups of up to 7 bytes and 8 symbols. A
-- pointer that is read is the rest of a list, with a fault past its end. What a function writes is
-- the list that it returns, whose length is its result; the callers give the room.
pub mod Table
pub mod Digits
pub mod Codes
pub mod Group
pub mod RoundTrip
pub mod Total
mod Tests
use old_radio.Base.{
  ℕ, zero, suc, ◌+◌, ◌-◌, ◌*◌, ◌/◌, ◌%◌, ◌^◌, List, [], ◌∷◌, ◌++◌, Bool, not, ltb, ◌==◌,
  if◌then◌else◌, get_or, length, drop, ◌<<<◌, ◌>>>◌,
}
use old_radio.Base.Run.{Run, ok, fault, ◌>>=◌}
use old_radio.Base.Int.{ℤ, pos, ltb_ℤ, to_u64}
use Table.{symbol_encode, symbol_decode}

abbrev pub symbol_start : ℕ
symbol_start = 0x55

abbrev pub symbol_end : ℕ
symbol_end = 0xaa

abbrev pub symbol_sync : ℕ
symbol_sync = 0xff

-- `temp += (uint64_t)bytes[i] << (8 * i)`
unfoldable pub b2s_pack : List ℕ → ℕ → ℕ → ℕ → Run ℕ
b2s_pack bytes zero i temp = ok temp
b2s_pack [] (suc left) i temp = fault
b2s_pack (b ∷ bytes) (suc left) i temp =
    b2s_pack bytes left (i + 1) ((temp + b <<< (8 * i)) % 2 ^ 64)

-- `symbols[i] = symbol_encode[(temp >> (7 * i)) & 0x7F]`
unfoldable pub b2s_emit : ℕ → ℕ → ℕ → List ℕ
unfolding symbol_encode
b2s_emit zero i temp = []
b2s_emit (suc left) i temp =
    get_or symbol_encode (temp >>> (7 * i) % 2 ^ 7) 0 ∷ b2s_emit left (i + 1) temp

unfoldable pub b2s : List ℕ → ℕ → Run (List ℕ)
unfolding b2s_pack b2s_emit
b2s bytes nbytes =
    let packed = b2s_pack bytes nbytes 0 0 >>= λ temp. ok (b2s_emit (nbytes + 1) 0 temp) in
    if nbytes == 0 then ok [] else packed

-- The loop over groups: `left` is `nbytes - i`. The fuel is at least `left`.
unfoldable pub b2s_loop : ℕ → List ℕ → ℕ → Run (List ℕ)
unfolding b2s
b2s_loop zero bytes left = ok []
b2s_loop (suc fuel) bytes left =
    let group = if ltb left 7 then left else 7 in
    let rest : Run (List ℕ) = do
      symbols ← b2s bytes group
      more ← b2s_loop fuel (drop 7 bytes) (left - 7)
      ok (symbols ++ more)
    in if left == 0 then ok [] else rest

unfoldable pub bytes_to_symbols : List ℕ → ℕ → Run (List ℕ)
unfolding b2s_loop
bytes_to_symbols bytes nbytes = b2s_loop nbytes bytes nbytes

-- `temp += (uint64_t)symbol_decode[symbols[i]] << (7 * i)`; a symbol is below 256, the table's length
unfoldable pub s2b_pack : List ℕ → ℕ → ℕ → ℕ → Run ℕ
unfolding symbol_decode
s2b_pack symbols zero i temp = ok temp
s2b_pack [] (suc left) i temp = fault
s2b_pack (s ∷ symbols) (suc left) i temp =
    s2b_pack symbols left (i + 1)
      ((temp + to_u64 (get_or symbol_decode s (pos 0)) <<< (7 * i)) % 2 ^ 64)

-- `bytes[i] = (temp >> (8 * i)) & 0xFF`
unfoldable pub s2b_emit : ℕ → ℕ → ℕ → List ℕ
s2b_emit zero i temp = []
s2b_emit (suc left) i temp = temp >>> (8 * i) % 2 ^ 8 ∷ s2b_emit left (i + 1) temp

unfoldable pub s2b : List ℕ → ℕ → Run (List ℕ)
unfolding s2b_pack s2b_emit
s2b symbols nsym =
    let packed = s2b_pack symbols nsym 0 0 >>= λ temp. ok (s2b_emit (nsym - 1) 0 temp) in
    if ltb nsym 2 then ok [] else packed

-- A group of fewer than 7 bytes ends the loop.
unfoldable pub s2b_loop : ℕ → List ℕ → ℕ → Run (List ℕ)
unfolding s2b
s2b_loop zero symbols left = ok []
s2b_loop (suc fuel) symbols left =
    let group = if ltb left 8 then left else 8 in
    let rest : Run (List ℕ) = do
      bytes ← s2b symbols group
      let more = s2b_loop fuel (drop 8 symbols) (left - 8) >>= λ tail. ok (bytes ++ tail)
      if ltb (length bytes) 7 then ok bytes else more
    in if left == 0 then ok [] else rest

unfoldable pub symbols_to_bytes : List ℕ → ℕ → Run (List ℕ)
unfolding s2b_loop
symbols_to_bytes symbols nsym = s2b_loop nsym symbols nsym

unfoldable pub symbol_valid : ℕ → Bool
unfolding symbol_decode
symbol_valid symbol = not (ltb_ℤ (get_or symbol_decode symbol (pos 0)) (pos 0))
