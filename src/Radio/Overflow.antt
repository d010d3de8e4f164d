-- ===== src/Radio/Overflow.antt =====
-- radio2/src/radio.c: what a frame that no radio_send builds does to a receiver.
use old_radio.Base.{
  ℕ, ◌+◌, ◌≤◌, ◌<◌, ◌≡◌, refl, ◌∙◌, arith, List, [], ◌∷◌, ◌++◌, false, true, All, length, leb,
}
use old_radio.Base.Run.{ok, abort, fault}
use old_radio.Symbols.{symbol_end, symbols_to_bytes}
use old_radio.Symbols.Codes.{IsCode}
use old_radio.Symbols.Total.{symbols_to_bytes-total}
use old_radio.Symbols.{symbol_valid}
use old_radio.Crc.{crc16_check}
use old_radio.Crc.Stored.{crc16_check-take}
use old_radio.Packet.{Heap, packet_new}
use old_radio.Radio.{Round, decode_frame, radio_recv, write_at}
use old_radio.Radio.Frame.{extend}
use old_radio.Radio.Receive.{Feeds, recv_loop-stopped}
use old_radio.Radio.Link.{codes-NoEnd, skip_noise}

write_at-overrun :
    (buffer : List ℕ) (xs : List ℕ) → length buffer < length xs → write_at buffer 0 xs ≡ fault
unfolding write_at
write_at-overrun buffer xs h =
    let over : leb (0 + length xs) (length buffer) ≡ false = ground arith in rw over

decode_frame-overrun :
    (packet_buffer symbols : List ℕ) (h : Heap)
    → length packet_buffer ≡ 1602
    → All IsCode symbols
    → 1832 ≤ length symbols
    → decode_frame packet_buffer symbols h ≡ fault
unfolding decode_frame
decode_frame-overrun packet_buffer symbols h room codes long =
    let (out, decoded, count, bytes) =
      symbols_to_bytes-total symbols (length symbols) (omega arith) in
    rw (
      skip_noise [] symbols tt codes (omega arith),
      decoded,
      write_at-overrun packet_buffer out (omega arith),
    )

-- A frame of 1832 to 1842 valid symbols overruns the static packet_buffer of radio_recv: it fits
-- recv_buffer, and decodes to more than the 1602 bytes that packet_buffer has.
pub radio_recv-overrun :
    (packet_buffer symbols rest : List ℕ) (timeout : ℕ) (script : List Round) (total : ℕ) (h : Heap)
    → length packet_buffer ≡ 1602
    → All IsCode symbols
    → 1832 ≤ length symbols
    → length symbols ≤ 1842
    → Feeds timeout script total
    → length symbols < total
    → radio_recv packet_buffer timeout script (symbols ++ symbol_end ∷ rest) h ≡ fault
unfolding radio_recv
radio_recv-overrun packet_buffer symbols rest timeout script total h room codes long short feeds
      enough =
    let (left, stops) =
      recv_loop-stopped timeout script total symbols rest [] feeds (codes-NoEnd symbols codes)
        enough (omega arith) in
    rw (stops, decode_frame-overrun packet_buffer symbols h room codes long)

-- The symbols of the two bytes FF FF, which are their own checksum of no bytes.
abbrev pub empty_frame : List ℕ
empty_frame = 0x36 ∷ 0x36 ∷ 0xf4 ∷ []

empty_frame-IsCode : All IsCode empty_frame
unfolding symbol_valid
empty_frame-IsCode = (
  record { byte = omega arith; valid = refl },
  (record { byte = omega arith; valid = refl }, (record { byte = omega arith; valid = refl }, tt)),
)

decode_empty :
    (packet_buffer : List ℕ) (h : Heap)
    → length packet_buffer ≡ 1602
    → decode_frame packet_buffer empty_frame h ≡ abort
unfolding decode_frame symbols_to_bytes packet_new
decode_empty packet_buffer h room =
    let (buffer, made, size, front) =
      extend packet_buffer 0 2 [] (0xff ∷ 0xff ∷ []) refl (omega arith) refl in
    let good : crc16_check buffer 2 ≡ ok true =
      crc16_check-take buffer (0xff ∷ 0xff ∷ []) 2 (omega arith) (omega arith) (omega arith) front
      ∙ (unfold crc16_check in refl) in
    rw (skip_noise [] empty_frame tt empty_frame-IsCode (omega arith), made, good)

-- A well-formed frame of no bytes makes the receiver abort: its checksum is right, and packet_new
-- asserts that the length is not zero.
pub radio_recv-empty :
    (packet_buffer rest : List ℕ) (timeout : ℕ) (script : List Round) (total : ℕ) (h : Heap)
    → length packet_buffer ≡ 1602
    → Feeds timeout script total
    → 3 < total
    → radio_recv packet_buffer timeout script (empty_frame ++ symbol_end ∷ rest) h ≡ abort
unfolding radio_recv
radio_recv-empty packet_buffer rest timeout script total h room feeds enough =
    let (left, stops) =
      recv_loop-stopped timeout script total empty_frame rest [] feeds
        (codes-NoEnd empty_frame empty_frame-IsCode) enough (omega arith) in
    rw (stops, decode_empty packet_buffer h room)
