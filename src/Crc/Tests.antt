-- ===== src/Crc/Tests.antt =====
-- The checks of radio2/src/crc_test.c, and the theorems on concrete buffers.
use old_radio.Base.{ℕ, ◌≡◌, refl, arith, true, false, List, [], ◌∷◌, length, take, set}
use old_radio.Base.Run.{ok}
use old_radio.Crc.{crc16, crc16_set, crc16_check}
use old_radio.Crc.Poly.{poly_bytes, crc16-poly}
use old_radio.Crc.Stored.{crc16_check-crc16_set}
use old_radio.Crc.Corrupt.{crc16_check-corrupt}

-- "123456789__"
abbrev test_string : List ℕ
test_string = 49 ∷ 50 ∷ 51 ∷ 52 ∷ 53 ∷ 54 ∷ 55 ∷ 56 ∷ 57 ∷ 95 ∷ 95 ∷ []

-- "123456789\xB1\x29"
abbrev test_sealed : List ℕ
test_sealed = 49 ∷ 50 ∷ 51 ∷ 52 ∷ 53 ∷ 54 ∷ 55 ∷ 56 ∷ 57 ∷ 0xb1 ∷ 0x29 ∷ []

crc16_test : crc16 test_string 9 ≡ ok 0x29b1
unfolding crc16
crc16_test = refl

crc16_set_test : crc16_set test_string 11 ≡ ok test_sealed
unfolding crc16_set
crc16_set_test = refl

crc16_check_test : crc16_check test_sealed 11 ≡ ok true
unfolding crc16_check
crc16_check_test = refl

crc16-poly_example : crc16 test_string 9 ≡ ok (poly_bytes 0xffff (take 9 test_string))
crc16-poly_example = crc16-poly test_string 9 (omega arith) (omega arith)

crc16_check-crc16_set_example :
    (out : List ℕ) × (crc16_set test_string 11 ≡ ok out)
    × (take 9 out ≡ take 9 test_string)
    × (length out ≡ length test_string)
    × (crc16_check out 11 ≡ ok true)
crc16_check-crc16_set_example = crc16_check-crc16_set test_string 11 (omega arith) (omega arith)

crc16_check-corrupt_example : crc16_check (set test_sealed 4 0) 11 ≡ ok false
crc16_check-corrupt_example =
    crc16_check-corrupt test_sealed 11 4 0 (omega arith) (omega arith) crc16_check_test
      (omega arith) (omega arith) (omega arith)
