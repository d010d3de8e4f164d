-- ===== src/Sender/Receiver.antt =====
-- radio/serial/queue.c: the receiver's thread, which hands packets to a handler, and the time that it holds
-- off. Its buffer has 1024 bytes, of which recv_packet is told of three less. A script has, for each packet
-- that a start symbol announces, what the port does while it is received and in the wait behind it.
use native.Mathlib.Nat.{mod-lt}
use old_radio.Base.{
  ℕ, ◌+◌, ◌-◌, ◌%◌, ◌^◌, ◌≤◌, ◌<◌, ◌≡◌, arith, List, [], ◌∷◌, Bool, true, false, leb, ◌==◌,
  if◌then◌else◌,
}
use old_radio.Base.Run.{Run, ok, fault, ◌>>=◌}
use old_radio.Loc.{Rand}
use old_radio.Sendrecv.{Ready, wait_packet, recv_packet}

-- queue_holdoff_min and queue_holdoff_max, below 2 ^ 31 as an `int` holds them.
pub record Holdoff : Type 0 where
  pub least : ℕ
  pub most : ℕ

abbrev pub holdoff_at_start : Holdoff
holdoff_at_start = record { least = 100; most = 500 }

unfoldable pub queue_set_holdoff : ℕ → ℕ → Holdoff → Holdoff
queue_set_holdoff least most h = record { least = least; most = most }

-- The remainder has the sign of rand(), so that a negative difference counts as a positive one; a zero
-- one stops the program.
unfoldable pub queue_rand_holdoff : Rand → Holdoff → ℕ → Run (ℕ × ℕ)
queue_rand_holdoff rand h seed =
    let (r, next) = rand seed in
    let apart = if leb h.least h.most then h.most - h.least else h.least - h.most in
    if apart == 0 then fault else ok ((h.least + r % apart) % 2 ^ 32, next)

-- queue_recv_handler is a handler or NULL.
abbrev pub handed : Bool → ℕ → List ℕ → List (List ℕ) → List (List ℕ)
handed registered n bytes calls =
    if n == 0 then calls else (if registered then bytes ∷ calls else calls)

module _ (symbol_start symbol_end symbol_sync : ℕ)
    (bytes_to_symbols symbols_to_bytes : List ℕ → ℕ → Run (List ℕ)) (symbol_valid : ℕ → Bool)
    (rand : Rand) (h : Holdoff) (registered : Bool) where
  -- The loop that runs while queue_holdoff_mutex is locked: the calls of the handler, what is left on the
  -- line, and rand's state.
  unfoldable pub receive_loop :
      List (List Ready × List Ready) → List ℕ → ℕ → Run (List (List ℕ) × (List ℕ × ℕ))
  unfolding queue_rand_holdoff
  receive_loop [] line seed = ok ([], (line, seed))
  receive_loop ((reads, waits) ∷ script) line seed = do
    ((n, bytes), left) ←
        recv_packet symbol_start symbol_end symbol_sync bytes_to_symbols symbols_to_bytes
          symbol_valid 1024 100 reads line
    (holdoff, next) ← queue_rand_holdoff rand h seed
    let (found, behind) =
        wait_packet symbol_start symbol_end symbol_sync bytes_to_symbols symbols_to_bytes
          symbol_valid waits left
    let rest : Run (List (List ℕ) × (List ℕ × ℕ)) =
        receive_loop script behind next >>= λ (calls, end).
        ok (handed registered n bytes calls, end)
    if found then rest else ok (handed registered n bytes [], (behind, next))

  -- One round of queue_receiver.
  unfoldable pub receiver_round :
      List Ready → List (List Ready × List Ready) → List ℕ → ℕ → Run (List (List ℕ) × (List ℕ × ℕ))
  unfolding receive_loop
  receiver_round waits script line seed =
      let (found, behind) =
        wait_packet symbol_start symbol_end symbol_sync bytes_to_symbols symbols_to_bytes
          symbol_valid waits line in
      let packets = receive_loop script behind seed in
      if found then packets else ok ([], (behind, seed))

-- A holdoff with two different bounds is at least the lower, and below the higher if that comes second.
pub queue_rand_holdoff_lem :
    (rand : Rand) (h : Holdoff) (seed : ℕ)
    → h.least < 2 ^ 31
    → h.most < 2 ^ 31
    → (h.least ≡ h.most → queue_rand_holdoff rand h seed ≡ fault)
      × (h.least < h.most
          → (t : ℕ) × (queue_rand_holdoff rand h seed ≡ ok (t, (rand seed).1))
            × (h.least ≤ t)
            × (t < h.most))
unfolding queue_rand_holdoff
queue_rand_holdoff_lem rand h seed low high = (
  λ same.
      let ordered : leb h.least h.most ≡ true = ground arith in
      let none_apart : (h.most - h.least == 0) ≡ true = ground arith in rw (ordered, none_apart),
  λ less.
      let r = (rand seed).0 in
      let apart = h.most - h.least in
      let ordered : leb h.least h.most ≡ true = ground arith in
      let some_apart : (apart == 0) ≡ false = ground arith in
      let below : r % apart < apart = mod-lt r (omega arith) in
      let small : (h.least + r % apart) % 2 ^ 32 ≡ h.least + r % apart = omega arith in
      (h.least + r % apart, rw (ordered, some_apart, small), omega arith, omega arith),
)
