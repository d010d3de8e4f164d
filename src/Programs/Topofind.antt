-- ===== src/Programs/Topofind.antt =====
-- radio/serial/topofind.c: the program that says its identifier and a serial number, to find which radios
-- hear each other. Its listening loop is that of virtloc.c with other times.
use old_radio.Base.{
  ℕ, ◌+◌, ◌*◌, ◌/◌, ◌%◌, ◌^◌, ◌≤◌, ◌≡◌, refl, sym, ap, ◌∙◌, arith, List, [], ◌∷◌, ◌++◌, Option,
  none, some, true, ◌&&◌, ltb, ◌==◌, if◌then◌else◌, length, take, drop, length-drop,
}
use old_radio.Base.Run.{Run, ok, ◌>>=◌, load}
use old_radio.Crc.Stored.{crc16_check-crc16_set}
use old_radio.Checksum.{crc16_set, crc16_check}
use old_radio.Checksum.Same.{crc16_set-same}
use old_radio.Programs.Heard.{sealed-accepted, split-sealed}

-- The identifier and the serial number of a packet of `n` bytes, if it is one of these.
unfoldable pub ids_heard : List ℕ → ℕ → Run (Option (ℕ × ℕ))
ids_heard buffer n = do
  kind ← load buffer 0
  let checked : Run (Option (ℕ × ℕ)) = do
    good ← crc16_check buffer n
    b1 ← load buffer 1
    b2 ← load buffer 2
    b3 ← load buffer 3
    b4 ← load buffer 4
    ok (if good then some (b2 * 256 + b1, b4 * 256 + b3) else none)
  if ltb 2 n && (kind == 0xff) then checked else ok none

-- The packet, of 7 bytes in the buffer. `unsigned char` keeps the low byte of what is stored.
unfoldable pub ids_said : ℕ → ℕ → List ℕ → Run (List ℕ)
ids_said identifier serial buffer =
    crc16_set
      (0xff
        ∷ identifier % 256
        ∷ identifier / 256 % 256
        ∷ serial % 256
        ∷ serial / 256 % 256
        ∷ drop 5 buffer)
      7

two_bytes : (x : ℕ) → x / 256 % 256 * 256 + x % 256 ≡ x % 2 ^ 16
two_bytes x = omega arith

ids_heard-accepted :
    (b1 b2 b3 b4 : ℕ) (tail : List ℕ)
    → crc16_check (0xff ∷ b1 ∷ b2 ∷ b3 ∷ b4 ∷ tail) 7 ≡ ok true
    → ids_heard (0xff ∷ b1 ∷ b2 ∷ b3 ∷ b4 ∷ tail) 7 ≡ ok (some (b2 * 256 + b1, b4 * 256 + b3))
unfolding ids_heard
ids_heard-accepted b1 b2 b3 b4 tail good = rw good

-- What topofind says with a buffer of 1024 bytes, another topofind hears, whatever else is in its buffer:
-- the low 16 bits of the identifier and of the serial number.
pub ids_heard-said :
    (identifier serial : ℕ) (buffer rest : List ℕ)
    → length buffer ≡ 1024
    → (out : List ℕ) × (ids_said identifier serial buffer ≡ ok out)
      × (ids_heard (take 7 out ++ rest) 7 ≡ ok (some (identifier % 2 ^ 16, serial % 2 ^ 16)))
unfolding ids_said
ids_heard-said identifier serial buffer rest size =
    let b1 = identifier % 256 in
    let b2 = identifier / 256 % 256 in
    let b3 = serial % 256 in
    let b4 = serial / 256 % 256 in
    let body : List ℕ = b1 ∷ b2 ∷ b3 ∷ b4 ∷ [] in
    let packet : List ℕ = 0xff ∷ (body ++ drop 5 buffer) in
    let long : 7 ≤ length packet = omega (arith, length-drop 5 buffer) in
    let (out, returns, same, whole, accepted) = crc16_check-crc16_set packet 7 (omega arith) long in
    let sealed : crc16_set packet 7 ≡ ok out = crc16_set-same packet 7 ∙ returns in
    let (size', front, good) = sealed-accepted packet out rest 7 (omega arith) long sealed in
    let (tail, parts) = split-sealed 7 0xff out body rest refl front in
    let checked : crc16_check (0xff ∷ (body ++ tail)) 7 ≡ ok true =
      ap (λ (xs : List ℕ). crc16_check xs 7) (sym parts) ∙ good in
    (
      out,
      sealed,
      ap (λ (xs : List ℕ). ids_heard xs 7) parts
          ∙ ids_heard-accepted b1 b2 b3 b4 tail checked
          ∙ ap (λ (p : ℕ). ok (some (p, b4 * 256 + b3))) (two_bytes identifier)
          ∙ ap (λ (p : ℕ). ok (some (identifier % 2 ^ 16, p))) (two_bytes serial),
    )
