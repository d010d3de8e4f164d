-- ===== src/Checksum.antt =====
-- radio/serial/crc.c: the checksum of the first radio's packets. Buffers are lists, as in Crc.
pub mod Table
pub mod Same
use old_radio.Base.{
  ℕ, zero, suc, ◌+◌, ◌-◌, ◌*◌, ◌/◌, ◌%◌, ◌^◌, bit_xor, List, [], ◌∷◌, Bool, false, leb, ltb, ◌==◌,
  if◌then◌else◌, get_or, ◌<<<◌, ◌>>>◌,
}
use old_radio.Base.Run.{Run, ok, fault, ◌>>=◌, ◌>>◌, assert, load}
use old_radio.Crc.{store}
use Table.{crc_table}

-- The loop of crc16, with the bytes from `bytes` on.
unfoldable pub crc_loop : List ℕ → ℕ → ℕ → Run ℕ
unfolding crc_table
crc_loop bytes zero crc = ok crc
crc_loop [] (suc nbyt) crc = fault
crc_loop (b ∷ bytes) (suc nbyt) crc =
    let tbl_idx = bit_xor (crc >>> 8) b % 2 ^ 8 in
    crc_loop bytes nbyt (bit_xor (get_or crc_table tbl_idx 0) (crc <<< 8) % 2 ^ 16)

unfoldable pub crc16 : List ℕ → ℕ → Run ℕ
unfolding crc_loop
crc16 bytes nbyt = crc_loop bytes nbyt 0xffff

unfoldable pub crc16_set : List ℕ → ℕ → Run (List ℕ)
unfolding crc16
crc16_set bytes nbyt = do
  assert (leb 2 nbyt)
  crc ← crc16 bytes (nbyt - 2)
  low ← store bytes (nbyt - 2) (crc % 2 ^ 8)
  store low (nbyt - 1) (crc >>> 8)

unfoldable pub crc16_check : List ℕ → ℕ → Run Bool
unfolding crc16
crc16_check bytes nbyt =
    let checked : Run Bool = do
      crc1 ← crc16 bytes (nbyt - 2)
      low ← load bytes (nbyt - 2)
      high ← load bytes (nbyt - 1)
      ok (crc1 == (low + high <<< 8) % 2 ^ 16)
    in if ltb nbyt 2 then ok false else checked
