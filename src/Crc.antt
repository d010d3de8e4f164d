-- ===== src/Crc.antt =====
-- radio2/src/crc.c: the checksum of a packet. A buffer is a list of bytes, and a pointer into it is
-- the rest of the list; reading past its end is a fault.
pub mod Table
pub mod Loop
pub mod Poly
pub mod Step
pub mod Stored
pub mod Corrupt
mod Tests
use old_radio.Base.{
  ℕ, zero, suc, ◌+◌, ◌-◌, ◌*◌, ◌/◌, ◌%◌, ◌^◌, bit_xor, List, [], ◌∷◌, Bool, true, false, leb, ltb,
  ◌==◌, if◌then◌else◌, get_or, set, length, ◌<<<◌, ◌>>>◌,
}
use old_radio.Base.Run.{Run, ok, abort, fault, ◌>>=◌, ◌>>◌, assert, load}
use Table.{crc_table}

abbrev pub crc16_len : ℕ
crc16_len = 2

-- The body of the loop: `& 0xff` and `& 0xffff` are remainders. The index is below 256, the
-- table's length.
unfoldable pub crc_step : ℕ → ℕ → ℕ
unfolding crc_table
crc_step crc byte =
    let tbl_idx = bit_xor (crc >>> 8) byte % 2 ^ 8 in
    bit_xor (get_or crc_table tbl_idx 0) (crc <<< 8) % 2 ^ 16

unfoldable pub crc_loop : List ℕ → ℕ → ℕ → Run ℕ
crc_loop bytes zero crc = ok crc
crc_loop [] (suc nbyt) crc = fault
crc_loop (b ∷ bytes) (suc nbyt) crc = crc_loop bytes nbyt (crc_step crc b)

unfoldable pub crc16 : List ℕ → ℕ → Run ℕ
unfolding crc_loop crc_step
crc16 bytes nbyt = crc_loop bytes nbyt 0xffff

-- `bytes[i] = v`
abbrev pub store : List ℕ → ℕ → ℕ → Run (List ℕ)
store bytes i v = if ltb i (length bytes) then ok (set bytes i v) else fault

-- Returns the buffer with the checksum in its last two bytes, the low byte first.
unfoldable pub crc16_set : List ℕ → ℕ → Run (List ℕ)
unfolding crc16
crc16_set bytes nbyt = do
  assert (leb crc16_len nbyt)
  crc ← crc16 bytes (nbyt - 2)
  low ← store bytes (nbyt - 2) (crc % 2 ^ 8)
  store low (nbyt - 1) (crc >>> 8)

-- `crc2` is a `uint16_t`: the sum is cut to 16 bits.
unfoldable pub crc16_check : List ℕ → ℕ → Run Bool
unfolding crc16
crc16_check bytes nbyt =
    let checked : Run Bool = do
      crc1 ← crc16 bytes (nbyt - 2)
      low ← load bytes (nbyt - 2)
      high ← load bytes (nbyt - 1)
      ok (crc1 == (low + high <<< 8) % 2 ^ 16)
    in if ltb nbyt crc16_len then ok false else checked
