-- ===== src/Sendrecv.antt =====
-- radio/serial/sendrecv.c: frames of the first radio. Its codec, radio/serial/symbols.c, is built with a
-- table of 6 or of 7 bits, and is a parameter here. The port is a script, as in Radio: what each `write`
-- does, and what each round of `poll` and `read` brings, the bytes themselves standing on the line.
pub mod Fit
pub mod Link
pub mod Baud
pub mod Delivery
mod Tests
pub mod DeliveryTests
use old_radio.Base.{
  ℕ, zero, suc, ◌+◌, ◌-◌, ◌*◌, ◌/◌, List, [], ◌∷◌, ◌++◌, Option, none, some, Bool, true, false, leb,
  ltb, ◌==◌, if◌then◌else◌, length, take, drop, replicate,
}
use old_radio.Base.Run.{Run, ok, within, assert, ◌>>=◌, ◌>>◌}

abbrev pub preamble : ℕ
preamble = 3

abbrev pub uartsync : ℕ
uartsync = 2

abbrev pub epilogue : ℕ
epilogue = 3

abbrev pub max_packet_bytes : ℕ
max_packet_bytes = 8192

abbrev pub max_packet_symbols : ℕ
max_packet_symbols = max_packet_bytes * 8 / 7 + preamble + uartsync + epilogue + 1

-- What `write` does: it fails, or accepts some bytes.
pub data Write : Type 0 where
  write_failed : Write
  wrote : ℕ → Write

-- What `poll` and the `read` behind it do: time out or fail, or read at most so many bytes.
pub data Ready : Type 0 where
  not_ready : Ready
  bytes_ready : ℕ → Ready

-- The end of recv_packet's loop: the packet's symbols, a timeout, or a full buffer.
pub data Gathered : Type 0 where
  gathered : List ℕ → Gathered
  timed_out : Gathered
  overrun : Gathered

-- The loop of send_packet: whether it returns 1, and what went out. A script that ends means that the
-- next write fails.
unfoldable pub send_loop : List Write → List ℕ → Bool × List ℕ
send_loop script [] = (true, [])
send_loop [] (b ∷ left) = (false, [])
send_loop (write_failed ∷ script) (b ∷ left) = (false, [])
send_loop (wrote n ∷ script) (b ∷ left) =
    let rest = send_loop script (drop n (b ∷ left)) in (rest.0, take n (b ∷ left) ++ rest.1)

-- The search for Symbol_End in what a read brought: what stands before it.
unfoldable pub before_end : ℕ → List ℕ → Option (List ℕ)
before_end symbol_end [] = none
before_end symbol_end (c ∷ cs) =
    let rest = elim (before_end symbol_end cs) as (λ o. Option (List ℕ)) [
      | none ↦ none
      | some front ↦ some (c ∷ front)
    ] in
    if c == symbol_end then some [] else rest

module _ (symbol_start symbol_end symbol_sync : ℕ)
    (bytes_to_symbols symbols_to_bytes : List ℕ → ℕ → Run (List ℕ)) (symbol_valid : ℕ → Bool) where
  -- The frame that send_packet builds in its buffer of MAX_PACKET_SYMBOLS bytes.
  unfoldable pub packet_frame : List ℕ → ℕ → Run (List ℕ)
  packet_frame bytes size =
      assert (leb size max_packet_bytes)
      >> (bytes_to_symbols bytes size >>= λ symbols.
          within (leb (preamble + uartsync + length symbols + epilogue) max_packet_symbols)
          >> ok (
              replicate preamble symbol_start
              ++ replicate uartsync symbol_sync
              ++ symbols
              ++ replicate epilogue symbol_end))

  unfoldable pub send_packet : List ℕ → ℕ → List Write → Run (Bool × List ℕ)
  unfolding packet_frame send_loop
  send_packet bytes size script = packet_frame bytes size >>= λ frame. ok (send_loop script frame)

  -- The result is the C function's, with what is left on the line.
  unfoldable pub wait_packet : List Ready → List ℕ → Bool × List ℕ
  wait_packet [] line = (false, line)
  wait_packet (not_ready ∷ script) line = (false, line)
  wait_packet (bytes_ready n ∷ script) [] = (false, [])
  wait_packet (bytes_ready n ∷ script) (c ∷ line) =
      let rest = wait_packet script line in if c == symbol_start then (true, line) else rest

  -- The loop of recv_packet, with what recv_buffer holds so far; a full buffer ends it before a poll.
  unfoldable pub gather : List Ready → List ℕ → List ℕ → Gathered × List ℕ
  unfolding before_end
  gather [] received line =
      if leb max_packet_symbols (length received) then (overrun, line) else (timed_out, line)
  gather (not_ready ∷ script) received line =
      if leb max_packet_symbols (length received) then (overrun, line) else (timed_out, line)
  gather (bytes_ready n ∷ script) received line =
      let room = max_packet_symbols - length received in
      let count = if leb room n then room else n in
      let chunk = take count line in
      let rest = gather script (received ++ chunk) (drop count line) in
      let stopped_or_rest = elim (before_end symbol_end chunk) as (λ o. Gathered × List ℕ) [
        | some front ↦ (gathered (received ++ front), drop count line)
        | none ↦ rest
      ] in
      if leb max_packet_symbols (length received) then (overrun, line) else stopped_or_rest

  unfoldable pub from_valid : List ℕ → List ℕ
  from_valid [] = []
  from_valid (c ∷ cs) = if symbol_valid c then c ∷ cs else from_valid cs

  -- What recv_packet returns: the number of bytes, and the bytes, which have to fit the caller's buffer
  -- of `room` bytes. `data_length` is not used.
  unfoldable pub recv_packet : ℕ → ℕ → List Ready → List ℕ → Run ((ℕ × List ℕ) × List ℕ)
  unfolding gather from_valid
  recv_packet room data_length script line =
      let (got, left) = gather script [] line in
      elim got [
        | timed_out ↦ ok ((0, []), left)
        | overrun ↦ ok ((0, []), left)
        | gathered received ↦
            symbols_to_bytes (from_valid received) (length (from_valid received)) >>= λ bytes.
            within (leb (length bytes) room) >> ok ((length bytes, bytes), left)
      ]

  -- One symbol is read in each round that is ready.
  unfoldable pub flush_packet : List Ready → List ℕ → List ℕ
  flush_packet [] line = line
  flush_packet (not_ready ∷ script) line = line
  flush_packet (bytes_ready n ∷ script) line = flush_packet script (drop 1 line)
