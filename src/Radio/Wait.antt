-- ===== src/Radio/Wait.antt =====
-- radio2/src/radio.c: radio_wait finds the start of a frame.
use old_radio.Base.{
  ℕ, suc, ◌≤◌, ◌<◌, ◌≡◌, ◌≢◌, refl, arith, List, [], ◌∷◌, ◌++◌, true, false, All, ltb, ◌==◌, length,
}
use old_radio.Base.Run.{ok}
use old_radio.Symbols.{symbol_start}
use old_radio.Radio.{ready, Round, radio_wait}

-- Rounds before the timeout whose polls report a symbol, `n` of them.
pub data Polls (timeout : ℕ) : List Round → ℕ → Type 0 where
  polled : Polls timeout [] 0
  poll_next :
      {r : Round} {script : List Round} {n : ℕ} (k : ℕ)
      → r.now ≤ timeout
      → r.poll ≡ ready k
      → Polls timeout script n
      → Polls timeout (r ∷ script) (suc n)

Polls-nil : {timeout n : ℕ} → Polls timeout [] n → n ≡ 0
Polls-nil polled = refl

-- With a round before the timeout for each symbol up to the first Symbol_Start, radio_wait drops what
-- stands before it, reports success, and leaves what follows on the line.
pub radio_wait-start :
    (timeout : ℕ) (script : List Round) (n : ℕ) (noise line : List ℕ)
    → Polls timeout script n
    → All (λ c. c ≢ symbol_start) noise
    → length noise < n
    → radio_wait timeout script (noise ++ symbol_start ∷ line) ≡ ok (true, line)
unfolding radio_wait
radio_wait-start timeout [] n noise line p h m = absurd (omega (arith, Polls-nil p))
radio_wait-start timeout (r ∷ script) n [] line (poll_next k t e p) h m =
    let in_time : ltb timeout r.now ≡ false = ground arith in rw (in_time, e)
radio_wait-start timeout (r ∷ script) n (c ∷ noise) line (poll_next k t e p) h m =
    let in_time : ltb timeout r.now ≡ false = ground arith in
    let other : (c == symbol_start) ≡ false = ground (arith, h.0) in
    rw (in_time, e, other) (radio_wait-start timeout script _ noise line p h.1 (omega arith))
