-- ===== src/Radio/Receive.antt =====
-- radio2/src/radio.c: radio_recv takes a frame off the line, however the reads cut it up.
use mathlib.Core.List.{append_assoc}
use Prim.Native.Nat.{min}
use old_radio.Base.{
  ℕ, zero, suc, ◌+◌, ◌-◌, ◌<◌, ◌≡◌, ◌≢◌, inl, inr, refl, sym, ap, ◌∙◌, arith, List, [], ◌∷◌, ◌++◌,
  none, some, true, false, All, leb, ltb, ◌==◌, length, take, drop, length-append, length-take,
  length-drop, take-append, All-take, All-drop, take-append-drop, take-nil, chunk_cases,
}
use old_radio.Base.Int.{pos, ltb_ℤ}
use old_radio.Base.Run.{ok}
use old_radio.Symbols.{symbol_end, symbol_valid}
use old_radio.Radio.{
  ready, Round, timeout_ms, find_end, stopped, chunk_of, recv_loop, skip_invalid, max_frame,
}

abbrev pub NoEnd : List ℕ → Type 0
NoEnd xs = All (λ c. c ≢ symbol_end) xs

pub find_end-none : (xs : List ℕ) → NoEnd xs → find_end xs ≡ none
unfolding find_end
find_end-none [] h = refl
find_end-none (x ∷ xs) h =
    let other : (x == symbol_end) ≡ false = ground (arith, h.0) in rw (other, find_end-none xs h.1)

find_end-some : (xs ys : List ℕ) → NoEnd xs → find_end (xs ++ symbol_end ∷ ys) ≡ some (length xs)
unfolding find_end
find_end-some [] ys h = refl
find_end-some (x ∷ xs) ys h =
    let other : (x == symbol_end) ≡ false = ground (arith, h.0) in
    rw (other, find_end-some xs ys h.1)

-- A round in time whose read brings something.
pub record Brings (timeout : ℕ) (r : Round) (k : ℕ) : Type 0 where
  pub in_time : ltb_ℤ (timeout_ms timeout r.now) (pos 1) ≡ false
  pub reads : r.poll ≡ ready k
  pub some_bytes : 0 < k

-- A script of such rounds, whose reads together may take `total` bytes.
pub data Feeds (timeout : ℕ) : List Round → ℕ → Type 0 where
  fed : Feeds timeout [] 0
  feed :
      {r : Round} {script : List Round} {total : ℕ} (k : ℕ)
      → Brings timeout r k
      → Feeds timeout script total
      → Feeds timeout (r ∷ script) (k + total)

module _ (timeout : ℕ) (r : Round) (script : List Round) (line received : List ℕ) (k : ℕ)
    (b : Brings timeout r k) (room : length received < max_frame)
    (bytes : 0 < length (chunk_of k line received)) where
  -- The round whose chunk holds the end symbol, and one whose chunk does not.
  recv_loop-stop :
      (i : ℕ)
      → find_end (chunk_of k line received) ≡ some i
      → recv_loop timeout (r ∷ script) line received
        ≡ ok (
          stopped (received ++ take i (chunk_of k line received)),
          drop (length (chunk_of k line received)) line,
        )
  unfolding recv_loop
  recv_loop-stop i found =
      let space : leb max_frame (length received) ≡ false = ground arith in
      let some_bytes : ltb 0 (length (chunk_of k line received)) ≡ true = ground arith in
      rw (space, b.in_time, b.reads, some_bytes, found)

  recv_loop-go :
      find_end (chunk_of k line received) ≡ none
      → recv_loop timeout (r ∷ script) line received
        ≡ recv_loop timeout script
            (drop (length (chunk_of k line received)) line)
            (received ++ chunk_of k line received)
  unfolding recv_loop
  recv_loop-go found =
      let space : leb max_frame (length received) ≡ false = ground arith in
      let some_bytes : ltb 0 (length (chunk_of k line received)) ≡ true = ground arith in
      rw (space, b.in_time, b.reads, some_bytes, found)

take-min : (m k r : ℕ) (xs : List ℕ) → m ≡ min k r → take k (take r xs) ≡ take m xs
take-min m zero r xs e = let z : m ≡ 0 = omega arith in rw z
take-min m (suc k) zero xs e = let z : m ≡ 0 = omega arith in rw z
take-min m (suc k) (suc r) [] e = sym (take-nil m)
take-min zero (suc k) (suc r) (x ∷ xs) e = absurd (omega arith)
take-min (suc m) (suc k) (suc r) (x ∷ xs) e = ap (◌∷◌ x) (take-min m k r xs (omega arith))

Feeds-nil : {timeout total : ℕ} → Feeds timeout [] total → total ≡ 0
Feeds-nil fed = refl

-- The symbols before the end symbol come out of the loop, in whatever pieces the reads bring them.
pub recv_loop-stopped :
    (timeout : ℕ) (script : List Round) (total : ℕ) (xs ys received : List ℕ)
    → Feeds timeout script total
    → NoEnd xs
    → length xs < total
    → length received + length xs < max_frame
    → (rest : List ℕ) × (recv_loop timeout script (xs ++ symbol_end ∷ ys) received
        ≡ ok (stopped (received ++ xs), rest))
recv_loop-stopped timeout [] total xs ys received f n h room = absurd (omega (arith, Feeds-nil f))
recv_loop-stopped timeout (r ∷ script) total xs ys received (feed k b f) n h room =
    let m = min k (max_frame - length received) in
    let line = xs ++ symbol_end ∷ ys in
    let chunk = chunk_of k line received in
    let cut : chunk ≡ take m line = take-min m k (max_frame - length received) line refl in
    elim (chunk_cases m xs ys symbol_end) [
      | inl (few, p, q) ↦
          let whole : chunk ≡ take m xs = cut ∙ p in
          let size : length chunk ≡ m = omega (arith, ap length whole, length-take m xs) in
          let none_yet : find_end chunk ≡ none =
            ap find_end whole ∙ find_end-none (take m xs) (All-take _ m xs n) in
          let moved : recv_loop timeout script (drop (length chunk) line) (received ++ chunk)
              ≡ recv_loop timeout script (drop m xs ++ symbol_end ∷ ys) (received ++ take m xs) =
            rw (size, whole, q) in
          let (rest, ends) =
            recv_loop-stopped timeout script _ (drop m xs) ys (received ++ take m xs) f
              (All-drop _ m xs n) (omega (arith, length-drop m xs))
              (omega
                (arith, length-drop m xs, length-append received (take m xs), length-take m xs)) in
          (
            rest,
            recv_loop-go timeout r script line received k b (omega arith) (omega arith) none_yet
                ∙ moved
                ∙ ends
                ∙ ap (λ (zs : List ℕ). ok (stopped zs, rest))
                    (append_assoc received (take m xs) (drop m xs)
                      ∙ ap (◌++◌ received) (take-append-drop m xs)),
          )
      | inr (zs, p) ↦
          let whole : chunk ≡ xs ++ symbol_end ∷ zs = cut ∙ p in
          let some_bytes : 0 < length chunk =
            omega (arith, ap length whole, length-append xs (symbol_end ∷ zs)) in
          let found : find_end chunk ≡ some (length xs) =
            ap find_end whole ∙ find_end-some xs zs n in
          let front : take (length xs) chunk ≡ xs =
            ap (take (length xs)) whole ∙ take-append (length xs) xs (symbol_end ∷ zs) refl in
          (
            drop (length chunk) line,
            recv_loop-stop timeout r script line received k b (omega arith) some_bytes (length xs)
                  found
                ∙ rw front refl,
          )
    ]

-- Symbols that are not valid, and so are skipped before a frame.
abbrev pub Invalid : List ℕ → Type 0
Invalid xs = All (λ c. (symbol_valid c ≡ false) × (c ≢ symbol_end)) xs

pub skip_invalid-append :
    (noise : List ℕ) (s : ℕ) (symbols : List ℕ)
    → Invalid noise
    → symbol_valid s ≡ true
    → skip_invalid (noise ++ s ∷ symbols) ≡ s ∷ symbols
unfolding skip_invalid
skip_invalid-append [] s symbols h v = rw v
skip_invalid-append (c ∷ noise) s symbols h v =
    rw (h.0.0) (skip_invalid-append noise s symbols h.1 v)
