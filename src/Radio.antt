-- ===== src/Radio.antt =====
-- radio2/src/radio.c: a packet in a frame of symbols, and back. The serial device is an environment:
-- a script of what each `write`, `poll` and `read` returns. Memory past a buffer's end is a fault.
pub mod Frame
pub mod Write
pub mod Receive
pub mod Wait
pub mod Link
pub mod Overflow
mod Tests
use old_radio.Base.{
  ℕ, zero, suc, ◌+◌, ◌-◌, ◌*◌, ◌/◌, ◌%◌, ◌^◌, List, [], ◌∷◌, ◌++◌, Bool, true, false, Option, none,
  some, leb, ltb, ◌==◌, if◌then◌else◌, not, length, take, drop, replicate,
}
use old_radio.Base.Run.{Run, ok, abort, fault, ◌>>=◌, ◌>>◌, assert}
use old_radio.Base.Int.{ℤ, pos, negsuc, pos_part, ltb_ℤ, signed32}
use old_radio.Crc.{crc16_len, crc16_set, crc16_check}
use old_radio.Symbols.{
  bytes_to_symbols, symbols_to_bytes, symbol_valid, symbol_start, symbol_end, symbol_sync,
}
use old_radio.Packet.{Heap, packet_new}

abbrev pub radio_mtu : ℕ
radio_mtu = 1600

abbrev pub preamble_len : ℕ
preamble_len = 3

abbrev pub uartsync_len : ℕ
uartsync_len = 2

abbrev pub epilogue_len : ℕ
epilogue_len = 3

abbrev pub max_frame : ℕ
max_frame = (radio_mtu + 6) * 8 / 7 + preamble_len + uartsync_len + epilogue_len

-- Writing `xs` at `buffer + offset`, as memcpy, memset and the encoder do.
unfoldable pub write_at : List ℕ → ℕ → List ℕ → Run (List ℕ)
write_at buffer offset xs =
    if leb (offset + length xs) (length buffer)
    then ok (take offset buffer ++ (xs ++ drop (offset + length xs) buffer))
    else fault

-- The first `n` bytes of a source, as memcpy reads them.
unfoldable pub read_n : List ℕ → ℕ → Run (List ℕ)
read_n source n = if leb n (length source) then ok (take n source) else fault

-- The frame of a packet, up to `frame_length`. The two static buffers keep what earlier calls left.
unfoldable pub build_frame : List ℕ → List ℕ → List ℕ → ℕ → Run (List ℕ)
unfolding write_at read_n
build_frame packet_buffer send_buffer packet_data packet_length = do
  assert (leb packet_length radio_mtu)
  source ← read_n packet_data packet_length
  copied ← write_at packet_buffer 0 source
  checked ← crc16_set copied (packet_length + crc16_len)
  preamble ← write_at send_buffer 0 (replicate preamble_len symbol_start)
  synced ← write_at preamble preamble_len (replicate uartsync_len symbol_sync)
  symbols ← bytes_to_symbols checked (packet_length + crc16_len)
  filled ← write_at synced (preamble_len + uartsync_len) symbols
  let nsym = length symbols
  full ← write_at filled (preamble_len + uartsync_len + nsym) (replicate epilogue_len symbol_end)
  ok (take (preamble_len + uartsync_len + nsym + epilogue_len) full)

-- What one `write` returns: an error, or a number of bytes, at most as many as it was asked for.
pub data Written : Type 0 where
  failed : Written
  accepted : ℕ → Written

-- The loop that writes `frame[n ..]`. The result is what went out on the line and what is left; an
-- error is reported and the same bytes are tried again.
unfoldable pub write_loop : List Written → List ℕ → List ℕ × List ℕ
write_loop script [] = ([], [])
write_loop [] (b ∷ left) = ([], b ∷ left)
write_loop (failed ∷ script) (b ∷ left) = write_loop script (b ∷ left)
write_loop (accepted e ∷ script) (b ∷ left) =
    let (out, rest) = write_loop script (drop e (b ∷ left)) in (take e (b ∷ left) ++ out, rest)

unfoldable pub radio_send : List ℕ → List ℕ → List ℕ → ℕ → List Written → Run (List ℕ × List ℕ)
unfolding build_frame
radio_send packet_buffer send_buffer packet_data packet_length script = do
  frame ← build_frame packet_buffer send_buffer packet_data packet_length
  ok (write_loop script frame)

-- One round of a receiving loop: the clock, and what `poll` and `read` then do. `expired` is a poll
-- that times out, `broken` one that fails, and `ready k` a read of up to `k` bytes that have come.
pub data Poll : Type 0 where
  expired broken : Poll
  ready : ℕ → Poll

pub record Round : Type 0 where
  pub now : ℕ
  pub poll : Poll

-- `(int)((timeout - vtime) / VTIME_MILLIS)`: the subtraction wraps at 64 bits, the cast at 32.
unfoldable pub timeout_ms : ℕ → ℕ → ℤ
timeout_ms timeout now = signed32 ((timeout + 2 ^ 64 - now) % 2 ^ 64 / 1000 % 2 ^ 32)

-- radio_wait: drops symbols until a Symbol_Start has been read. The result is the C function's, with
-- what is left on the line. When the script ends the next poll times out.
unfoldable pub radio_wait : ℕ → List Round → List ℕ → Run (Bool × List ℕ)
radio_wait timeout [] line = ok (false, line)
radio_wait timeout (r ∷ script) line =
    let late = ltb timeout r.now in
    let next : Run (Bool × List ℕ) = elim r.poll [
      | expired ↦ ok (false, line)
      | broken ↦ abort
      | ready k ↦ elim line [
        | [] ↦ abort
        | c ∷ rest ↦ if c == symbol_start then ok (true, rest) else radio_wait timeout script rest
      ]
    ] in
    if late then ok (false, line) else next

abbrev pub one_more : Option ℕ → Option ℕ
one_more none = none
one_more (some i) = some (suc i)

-- The index of the first Symbol_End.
unfoldable pub find_end : List ℕ → Option ℕ
find_end [] = none
find_end (c ∷ chunk) = if c == symbol_end then some 0 else one_more (find_end chunk)

-- How the receiving loop ends: with the symbols before a Symbol_End, without one, or at once with
-- no packet because the time is up.
pub data Received : Type 0 where
  stopped overrun : List ℕ → Received
  late : Received

-- The bytes that one `read` takes: at most what was asked for, `max_frame - n`, and what has come.
abbrev pub chunk_of : ℕ → List ℕ → List ℕ → List ℕ
chunk_of k line received = take k (take (max_frame - length received) line)

-- `received` is recv_buffer up to `n`. The result has the line after it. When the script ends the
-- next poll times out.
unfoldable pub recv_loop : ℕ → List Round → List ℕ → List ℕ → Run (Received × List ℕ)
unfolding find_end timeout_ms
recv_loop timeout [] line received = ok (overrun received, line)
recv_loop timeout (r ∷ script) line received =
    let next : Run (Received × List ℕ) = elim r.poll [
      | expired ↦ ok (overrun received, line)
      | broken ↦ abort
      | ready k ↦
          let chunk = chunk_of k line received in
          let rest = drop (length chunk) line in
          assert (ltb 0 (length chunk)) >> elim (find_end chunk) [
            | some i ↦ ok (stopped (received ++ take i chunk), rest)
            | none ↦ recv_loop timeout script rest (received ++ chunk)
          ]
    ] in
    let in_time = if ltb_ℤ (timeout_ms timeout r.now) (pos 1) then ok (late, line) else next in
    if leb max_frame (length received) then ok (overrun received, line) else in_time

-- The offset of the first valid symbol, by dropping those before it.
unfoldable pub skip_invalid : List ℕ → List ℕ
skip_invalid [] = []
skip_invalid (c ∷ received) = if symbol_valid c then c ∷ received else skip_invalid received

-- The part of radio_recv after the loop. `packet_buffer` is the static buffer of 1602 bytes; what
-- the decoder writes past its end is a fault. The result is a pointer to the packet, or NULL.
unfoldable pub decode_frame : List ℕ → List ℕ → Heap → Run (Option ℕ × Heap)
unfolding skip_invalid write_at
decode_frame packet_buffer received h = do
  let valid = skip_invalid received
  bytes ← symbols_to_bytes valid (length valid)
  buffer ← write_at packet_buffer 0 bytes
  good ← crc16_check buffer (length bytes)
  let fresh : Run (Option ℕ × Heap) =
      packet_new (length bytes - crc16_len) buffer h >>= λ (p, h'). ok (some p, h')
  if good then fresh else ok (none, h)

abbrev finish : List ℕ → Heap → Received × List ℕ → Run (Option ℕ × Heap × List ℕ)
finish packet_buffer h (stopped received, line) =
    decode_frame packet_buffer received h >>= λ (p, h'). ok (p, h', line)
finish packet_buffer h (overrun received, line) = ok (none, h, line)
finish packet_buffer h (late, line) = ok (none, h, line)

unfoldable pub radio_recv : List ℕ → ℕ → List Round → List ℕ → Heap → Run (Option ℕ × Heap × List ℕ)
unfolding recv_loop decode_frame
radio_recv packet_buffer timeout script line h =
    recv_loop timeout script line [] >>= finish packet_buffer h

-- radio_flush: reads until a poll times out; the rounds' clocks are not looked at.
unfoldable pub radio_flush : List Round → List ℕ → Run (List ℕ)
radio_flush [] line = ok line
radio_flush (r ∷ script) line = elim r.poll [
  | expired ↦ ok line
  | broken ↦ abort
  | ready k ↦ elim line [ [] ↦ abort | c ∷ rest ↦ radio_flush script rest ]
]
