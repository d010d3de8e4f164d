-- ===== src/Radio/Link.antt =====
-- radio2/src/radio.c: what one radio sends, another receives.
use mathlib.Core.List.{append_assoc, append-nil}
use old_radio.Base.{
  ℕ, ◌+◌, ◌-◌, ◌/◌, ◌≤◌, ◌<◌, ◌≡◌, refl, sym, ap, ◌∙◌, arith, List, [], ◌∷◌, ◌++◌, Option, none,
  some, true, All, IsBytes, length, take, drop, replicate, take_all, ◌≢◌,
}
use old_radio.Base.Run.{ok}
use old_radio.Crc.{crc16_check}
use old_radio.Crc.Stored.{crc16_check-take, take-take}
use old_radio.Symbols.{symbol_end, symbol_start, symbol_sync, symbols_to_bytes}
use old_radio.Symbols.Codes.{IsCode, IsCode-ne-end, reserved_invalid}
use old_radio.Packet.{Packet, Heap, cell, packet_new}
use old_radio.Packet.Valid.{IsValid, packet_new_lem}
use old_radio.Radio.{
  Round, stopped, recv_loop, decode_frame, radio_recv, build_frame, max_frame, write_at,
  skip_invalid, radio_wait,
}
use old_radio.Radio.Frame.{IsFrame, extend, build_frame-IsFrame}
use old_radio.Radio.Wait.{Polls, radio_wait-start}
use old_radio.Radio.Receive.{Feeds, NoEnd, Invalid, recv_loop-stopped, skip_invalid-append}

-- The packet that a receiver makes of `n` bytes.
abbrev pub packet_of : List ℕ → ℕ → Packet
packet_of source n = record { size = n; refcount = 1; bytes = take n source }

pub codes-NoEnd : (symbols : List ℕ) → All IsCode symbols → NoEnd symbols
codes-NoEnd [] h = tt
codes-NoEnd (s ∷ symbols) h = (IsCode-ne-end s h.0, codes-NoEnd symbols h.1)

pub skip_noise :
    (noise symbols : List ℕ)
    → Invalid noise
    → All IsCode symbols
    → 0 < length symbols
    → skip_invalid (noise ++ symbols) ≡ symbols
skip_noise noise [] h c pos = absurd (omega arith)
skip_noise noise (s ∷ symbols) h c pos = skip_invalid-append noise s symbols h (c.0.valid)

-- The run of decode_frame, call by call.
decoded_as :
    (packet_buffer : List ℕ) (h : Heap) (received valid bytes buffer : List ℕ) (n p : ℕ) (h' : Heap)
    → skip_invalid received ≡ valid
    → symbols_to_bytes valid (length valid) ≡ ok bytes
    → length bytes ≡ n
    → write_at packet_buffer 0 bytes ≡ ok buffer
    → crc16_check buffer n ≡ ok true
    → packet_new (n - 2) buffer h ≡ ok (p, h')
    → decode_frame packet_buffer received h ≡ ok (some p, h')
unfolding decode_frame
decoded_as packet_buffer h received valid bytes buffer n p h' skipped decoded size made good new =
    rw (skipped, decoded, made, size, good, new)

module _ (source : List ℕ) (n : ℕ) (frame : List ℕ) (f : IsFrame source n frame) (pos : 0 < n)
    (mtu : n ≤ 1600) (long : n ≤ length source) (packet_buffer : List ℕ)
    (room : length packet_buffer ≡ 1602) (h : Heap) (v : IsValid h) where
  -- The symbols of a frame, behind any that are not valid, become the packet.
  decode_frame-ok :
      (noise : List ℕ)
      → Invalid noise
      → (p : ℕ) × (h' : Heap) × (decode_frame packet_buffer (noise ++ f.symbols) h
          ≡ ok (some p, h'))
        × (cell h p ≡ none)
        × (cell h' p ≡ some (packet_of source n))
        × IsValid h'
  decode_frame-ok noise quiet =
      let skipped : skip_invalid (noise ++ f.symbols) ≡ f.symbols =
        skip_noise noise f.symbols quiet f.codes (omega (arith, f.count)) in
      let decoded : symbols_to_bytes f.symbols (length f.symbols) ≡ ok f.checked =
        ap (λ (s : List ℕ). symbols_to_bytes s (length f.symbols)) (sym (append-nil f.symbols))
        ∙ f.decodes [] in
      let (buffer, made, size, front) =
        extend packet_buffer 0 (n + 2) [] f.checked (omega (arith, f.size)) (omega arith) refl in
      let good : crc16_check buffer (n + 2) ≡ ok true =
        crc16_check-take buffer f.checked (n + 2) (omega arith) (omega arith)
          (omega (arith, f.size)) (front ∙ sym (take_all (n + 2) f.checked (sym f.size)))
        ∙ f.accepted in
      let (p, h', new, unused, there, others, v') = packet_new_lem n buffer h v pos (omega arith) in
      let bytes : take n buffer ≡ take n source =
        sym (take-take n (n + 2) buffer (omega arith)) ∙ ap (take n) front ∙ f.same in
      let n_only : n + 2 - 2 ≡ n = omega arith in
      (
        p,
        h',
        decoded_as packet_buffer h (noise ++ f.symbols) f.symbols f.checked buffer (n + 2) p h'
            skipped decoded f.size made good (rw n_only new),
        unused,
        there ∙ ap (λ (bs : List ℕ). some (record { size = n; refcount = 1; bytes = bs })) bytes,
        v',
      )

-- A frame begins with a start symbol.
frame_first :
    (symbols more frame : List ℕ)
    → frame
      ≡ replicate 3 symbol_start ++ (replicate 2 symbol_sync ++ (symbols ++ replicate 3 symbol_end))
    → frame ++ more ≡ symbol_start ∷ (drop 1 frame ++ more)
frame_first symbols more frame e =
    ap (λ (s : List ℕ). s ++ more) e
    ∙ ap (λ (s : List ℕ). symbol_start ∷ (drop 1 s ++ more)) (sym e)

frame_rest :
    (symbols more : List ℕ)
    → drop 1 (
          replicate 3 symbol_start
          ++ (replicate 2 symbol_sync ++ (symbols ++ replicate 3 symbol_end)))
        ++ more
      ≡ (symbol_start ∷ symbol_start ∷ symbol_sync ∷ symbol_sync ∷ symbols)
        ++ symbol_end ∷ symbol_end ∷ symbol_end ∷ more
frame_rest symbols more =
    ap (λ (s : List ℕ). symbol_start ∷ symbol_start ∷ symbol_sync ∷ symbol_sync ∷ s)
      (append_assoc symbols (replicate 3 symbol_end) more)

abbrev leader : List ℕ
leader = symbol_start ∷ symbol_start ∷ symbol_sync ∷ symbol_sync ∷ []

leader-Invalid : Invalid leader
leader-Invalid = (
  (reserved_invalid.0, omega arith),
  (
    (reserved_invalid.0, omega arith),
    ((reserved_invalid.2, omega arith), ((reserved_invalid.2, omega arith), tt)),
  ),
)

-- A loop that stops, and then the decoder.
received_as :
    (buffer : List ℕ) (timeout : ℕ) (script : List Round) (h : Heap)
    → {line line' xs rest : List ℕ} {r : Option ℕ × Heap} → line ≡ line'
    → recv_loop timeout script line' [] ≡ ok (stopped xs, rest)
    → decode_frame buffer xs h ≡ ok r
    → radio_recv buffer timeout script line h ≡ ok (r.0, r.1, rest)
unfolding radio_recv
received_as buffer timeout script h e stops decoded = rw (e, stops, decoded)

-- A packet of 1 to 1600 bytes that one radio sends, another receives: radio_send builds a frame within
-- its buffers; radio_wait finds the frame's first symbol behind any noise without start symbols, if it
-- has a round before the timeout for each symbol up to that one, and leaves the rest of the frame; and
-- radio_recv then returns a new packet of exactly those bytes with one reference, however the reads cut
-- the frame into pieces, if each of its rounds is in time and they bring more bytes than the rest of the
-- frame before the epilogue has.
pub radio_recv-build_frame :
    (source : List ℕ) (n : ℕ) (packet_buffer send_buffer receive_buffer : List ℕ) (h : Heap)
    (timeout : ℕ) (waits script : List Round) (polls total : ℕ) (noise more : List ℕ)
    → IsBytes source
    → 0 < n
    → n ≤ 1600
    → n ≤ length source
    → IsBytes packet_buffer
    → length packet_buffer ≡ 1602
    → length send_buffer ≡ max_frame
    → length receive_buffer ≡ 1602
    → IsValid h
    → Polls timeout waits polls
    → All (λ c. c ≢ symbol_start) noise
    → length noise < polls
    → Feeds timeout script total
    → n + 2 + (n + 8) / 7 + 4 < total
    → (frame : List ℕ) × (p : ℕ) × (h' : Heap) × (rest : List ℕ) × (build_frame packet_buffer
          send_buffer source n
        ≡ ok frame)
      × (radio_wait timeout waits (noise ++ (frame ++ more)) ≡ ok (true, drop 1 frame ++ more))
      × (radio_recv receive_buffer timeout script (drop 1 frame ++ more) h ≡ ok (some p, h', rest))
      × (cell h p ≡ none)
      × (cell h' p ≡ some (packet_of source n))
      × IsValid h'
radio_recv-build_frame source n packet_buffer send_buffer receive_buffer h timeout waits script
      polls total noise more bs pos mtu long pb psize ssize rsize v waited quiet ready feeds
      enough =
    let (frame, built, f) =
      build_frame-IsFrame packet_buffer source n psize pb mtu long bs send_buffer ssize in
    let xs = leader ++ f.symbols in
    let line : drop 1 frame ++ more ≡ xs ++ symbol_end ∷ symbol_end ∷ symbol_end ∷ more =
      ap (λ (s : List ℕ). drop 1 s ++ more) f.parts ∙ frame_rest f.symbols more in
    let clear : NoEnd xs =
      (omega arith, (omega arith, (omega arith, (omega arith, codes-NoEnd f.symbols f.codes)))) in
    let (rest, stops) =
      recv_loop-stopped timeout script total xs (symbol_end ∷ symbol_end ∷ more) [] feeds clear
        (omega (arith, f.count)) (omega (arith, f.count)) in
    let (p, h', decoded, unused, there, v') =
      decode_frame-ok source n frame f pos mtu long receive_buffer rsize h v leader
        leader-Invalid in
    let found : radio_wait timeout waits (noise ++ (frame ++ more))
        ≡ ok (true, drop 1 frame ++ more) =
      ap (λ (s : List ℕ). radio_wait timeout waits (noise ++ s))
        (frame_first f.symbols more frame f.parts)
      ∙ radio_wait-start timeout waits polls noise (drop 1 frame ++ more) waited quiet ready in
    (
      frame,
      p,
      h',
      rest,
      built,
      found,
      received_as receive_buffer timeout script h line stops decoded,
      unused,
      there,
      v',
    )
