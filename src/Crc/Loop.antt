-- ===== src/Crc/Loop.antt =====
-- radio2/src/crc.c: the loop of crc16 as a fold over the bytes that it reads.
use old_radio.Base.{
  ℕ, zero, suc, ◌^◌, ◌≤◌, ◌<◌, ◌≡◌, refl, List, [], ◌∷◌, ◌++◌, arith, length, take,
}
use old_radio.Base.Run.{ok, fault}
use old_radio.Crc.{crc_step, crc_loop, crc16}

unfoldable pub fold : ℕ → List ℕ → ℕ
fold crc [] = crc
fold crc (b ∷ bytes) = fold (crc_step crc b) bytes

pub crc_loop-fold :
    (bytes : List ℕ) (n crc : ℕ)
    → n ≤ length bytes
    → crc_loop bytes n crc ≡ ok (fold crc (take n bytes))
unfolding crc_loop fold
crc_loop-fold bytes zero crc h = refl
crc_loop-fold [] (suc n) crc h = absurd (omega arith)
crc_loop-fold (b ∷ bytes) (suc n) crc h = crc_loop-fold bytes n (crc_step crc b) (omega arith)

pub crc16-fold :
    (bytes : List ℕ) (n : ℕ) → n ≤ length bytes → crc16 bytes n ≡ ok (fold 0xffff (take n bytes))
unfolding crc16
crc16-fold bytes n h = crc_loop-fold bytes n 0xffff h

pub crc_step-lt : (crc b : ℕ) → crc_step crc b < 2 ^ 16
unfolding crc_step
crc_step-lt crc b = omega arith

pub fold-lt : (crc : ℕ) (bytes : List ℕ) → crc < 2 ^ 16 → fold crc bytes < 2 ^ 16
unfolding fold
fold-lt crc [] h = h
fold-lt crc (b ∷ bytes) h = fold-lt (crc_step crc b) bytes (crc_step-lt crc b)

pub fold-append : (crc : ℕ) (xs ys : List ℕ) → fold crc (xs ++ ys) ≡ fold (fold crc xs) ys
unfolding fold
fold-append crc [] ys = refl
fold-append crc (x ∷ xs) ys = fold-append (crc_step crc x) xs ys

crc_loop-overrun : (bytes : List ℕ) (n crc : ℕ) → length bytes < n → crc_loop bytes n crc ≡ fault
unfolding crc_loop
crc_loop-overrun bytes zero crc h = absurd (omega arith)
crc_loop-overrun [] (suc n) crc h = refl
crc_loop-overrun (b ∷ bytes) (suc n) crc h = crc_loop-overrun bytes n (crc_step crc b) (omega arith)

pub crc16-overrun : (bytes : List ℕ) (n : ℕ) → length bytes < n → crc16 bytes n ≡ fault
unfolding crc16
crc16-overrun bytes n h = crc_loop-overrun bytes n 0xffff h
