-- ===== src/Programs/Chatter.antt =====
-- radio/serial/chatter.c and tchatter.c: the programs that say a line of text and print those that they
-- hear. The text is what sprintf writes, before its NUL.
use native.Mathlib.Nat.{le_refl}
use old_radio.Base.{
  ℕ, ◌+◌, ◌-◌, ◌≤◌, ◌<◌, ◌≡◌, ◌≢◌, refl, sym, ap, ◌∙◌, arith, List, [], ◌∷◌, ◌++◌, Option, none,
  some, true, false, ltb, leb, ◌==◌, if◌then◌else◌, length, take, drop, set, All, take-append,
  length-append, length-take, length-drop, length-set,
}
use old_radio.Base.Run.{Run, ok, fault, ◌>>=◌, ◌>>◌, within}
use old_radio.Crc.{store}
use old_radio.Crc.Stored.{crc16_check-crc16_set, crc16_check-take, take-set, take-take}
use old_radio.Checksum.{crc16_set, crc16_check}
use old_radio.Checksum.Same.{crc16_set-same, crc16_check-same}
use old_radio.Programs.Heard.{sealed-accepted}

-- A string as `%s` reads it, up to its NUL.
unfoldable pub c_string : List ℕ → Run (List ℕ)
c_string [] = fault
c_string (c ∷ cs) = let rest = c_string cs >>= λ s. ok (c ∷ s) in if c == 0 then ok [] else rest

-- What tchatter prints of a packet of `n` bytes in the buffer: its text, or that its checksum is bad.
unfoldable pub thread_heard : List ℕ → ℕ → Run (Option (List ℕ))
unfolding c_string
thread_heard buffer n = crc16_check buffer n >>= λ good.
    let text : Run (Option (List ℕ)) = store buffer (n - 2) 0 >>= c_string >>= λ s. ok (some s) in
    if good then text else ok none

-- chatter puts a NUL behind the packet first, and prints nothing where there is none.
unfoldable pub text_heard : List ℕ → ℕ → Run (Option (List ℕ))
unfolding thread_heard
text_heard buffer n =
    let text = store buffer n 0 >>= λ ended. thread_heard ended n in
    if ltb 0 n then text else ok none

-- The packet: sprintf writes the text and a NUL, and crc16_set puts the checksum over the NUL.
unfoldable pub text_said : List ℕ → List ℕ → Run (List ℕ × ℕ)
text_said text buffer =
    within (leb (length text + 1) (length buffer))
    >> (crc16_set (text ++ 0 ∷ drop (length text + 1) buffer) (length text + 2) >>= λ packet.
        ok (packet, length text + 2))

c_string-set :
    (text xs : List ℕ)
    → All (λ c. c ≢ 0) text
    → take (length text) xs ≡ text
    → length text < length xs
    → c_string (set xs (length text) 0) ≡ ok text
unfolding c_string
c_string-set text [] h e k = absurd (omega arith)
c_string-set [] (x ∷ xs) h e k = refl
c_string-set (c ∷ text) (x ∷ xs) h e k =
    let (same, rest) = cons_inj x c (take (length text) xs) text e in
    let other : (c == 0) ≡ false = ground (arith, h.0) in
    rw (same, other, c_string-set text xs h.1 rest (omega arith))
  where
    head_or : List ℕ → ℕ
    head_or [] = 0
    head_or (y ∷ ys) = y

    tail_or : List ℕ → List ℕ
    tail_or [] = []
    tail_or (y ∷ ys) = ys

    cons_inj : (a b : ℕ) (xs ys : List ℕ) → a ∷ xs ≡ b ∷ ys → (a ≡ b) × (xs ≡ ys)
    cons_inj a b xs ys p = (ap head_or p, ap tail_or p)

-- A checked packet's text.
thread_heard-text :
    (text xs : List ℕ) (n : ℕ)
    → All (λ c. c ≢ 0) text
    → n ≡ length text + 2
    → n ≤ length xs
    → take (length text) xs ≡ text
    → crc16_check xs n ≡ ok true
    → thread_heard xs n ≡ ok (some text)
unfolding thread_heard
thread_heard-text text xs n h count long front good =
    let place : n - 2 ≡ length text = omega arith in
    let inside : ltb (length text) (length xs) ≡ true = ground arith in
    rw (good, place, inside, c_string-set text xs h front (omega arith))

-- The text that chatter says with its buffer of 1024 bytes, another hears, if it is at most 1021 bytes long
-- and has no NUL: text_said makes a packet, whose text text_heard and thread_heard both find, whatever is
-- behind the packet in the receiver's buffer.
pub text_heard-said :
    (text buffer rest : List ℕ)
    → length buffer ≡ 1024
    → length text ≤ 1021
    → All (λ c. c ≢ 0) text
    → 0 < length rest
    → (out : List ℕ) × (n : ℕ) × (text_said text buffer ≡ ok (out, n))
      × (text_heard (take n out ++ rest) n ≡ ok (some text))
      × (thread_heard (take n out ++ rest) n ≡ ok (some text))
unfolding text_said text_heard
text_heard-said text buffer rest size short h more =
    let n = length text + 2 in
    let behind = 0 ∷ drop (length text + 1) buffer in
    let packet = text ++ behind in
    let long : n ≤ length packet =
      omega (arith, length-append text behind, length-drop (length text + 1) buffer) in
    let (out, returns, same, whole, accepted) = crc16_check-crc16_set packet n (omega arith) long in
    let sealed : crc16_set packet n ≡ ok out = crc16_set-same packet n ∙ returns in
    let (size', kept, good) = sealed-accepted packet out rest n (omega arith) long sealed in
    let place : n - 2 ≡ length text = omega arith in
    let first : take (length text) out ≡ text =
      ap (λ (m : ℕ). take m out) (sym place) ∙ kept ∙ take-append (n - 2) text behind place in
    let heard = take n out ++ rest in
    let cut : length (take n out) ≡ n = omega (arith, length-take n out) in
    let room : n < length heard = omega (arith, length-append (take n out) rest) in
    let front : take (length text) heard ≡ text =
      sym (take-take (length text) n heard (omega arith))
      ∙ ap (take (length text)) (take-append n (take n out) rest (sym cut))
      ∙ take-take (length text) n out (omega arith)
      ∙ first in
    let ended = set heard n 0 in
    let same_size : length ended ≡ length heard = length-set heard n 0 in
    let checked : crc16_check ended n ≡ ok true =
      crc16_check-same ended n
      ∙ crc16_check-take ended heard n (omega arith) (omega arith) (omega arith)
          (take-set heard n n 0 (le_refl n))
      ∙ sym (crc16_check-same heard n)
      ∙ good in
    let fits : leb (length text + 1) (length buffer) ≡ true = ground arith in
    let any : ltb 0 n ≡ true = ground arith in
    let inside : ltb n (length heard) ≡ true = ground arith in
    (
      out,
      n,
      rw (fits, sealed),
      rw (any, inside)
          (thread_heard-text text ended n h refl (omega arith)
            (take-set heard (length text) n 0 (omega arith) ∙ front) checked),
      thread_heard-text text heard n h refl (omega arith) front good,
    )
