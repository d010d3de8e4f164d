-- ===== src/Checksum/Same.antt =====
-- radio/serial/crc.c: it computes what radio2/src/crc.c computes.
use old_radio.Base.{ℕ, zero, suc, ◌-◌, ◌≡◌, refl, List, [], ◌∷◌}
use old_radio.Crc
use old_radio.Crc.Table
use old_radio.Checksum.{crc_loop, crc16_set, crc16_check}
use old_radio.Checksum.Table.{crc_table}

crc_table-same : crc_table ≡ Crc.Table.crc_table
unfolding crc_table Crc.Table.crc_table
crc_table-same = refl

crc_loop-same :
    (bytes : List ℕ) (nbyt crc : ℕ) → crc_loop bytes nbyt crc ≡ Crc.crc_loop bytes nbyt crc
unfolding crc_loop Crc.crc_loop Crc.crc_step
crc_loop-same bytes zero crc = refl
crc_loop-same [] (suc nbyt) crc = refl
crc_loop-same (b ∷ bytes) (suc nbyt) crc = crc_loop-same bytes nbyt _

pub crc16_set-same : (bytes : List ℕ) (nbyt : ℕ) → crc16_set bytes nbyt ≡ Crc.crc16_set bytes nbyt
unfolding crc16_set Crc.crc16_set
crc16_set-same bytes nbyt = rw (crc_loop-same bytes (nbyt - 2) 0xffff)

pub crc16_check-same :
    (bytes : List ℕ) (nbyt : ℕ) → crc16_check bytes nbyt ≡ Crc.crc16_check bytes nbyt
unfolding crc16_check Crc.crc16_check
crc16_check-same bytes nbyt = rw (crc_loop-same bytes (nbyt - 2) 0xffff)
