-- ===== src/Sendrecv/Delivery.antt =====
-- radio/serial/sendrecv.c on radio/serial/symbols.c: what send_packet puts on the line, wait_packet and
-- recv_packet take off it.
use mathlib.Core.List.{append_assoc, append-nil}
use old_radio.Base.{
  ℕ, ◌+◌, ◌*◌, ◌/◌, ◌≤◌, ◌<◌, ◌≡◌, sym, ap, ◌∙◌, arith, inl, inr, List, [], ◌∷◌, ◌++◌, Bool, true,
  false, All, IsBytes, leb, if◌then◌else◌, length, take, drop, replicate, length-take, Bool-cases,
  ltb,
}
use old_radio.Base.Run.{Run, ok, fault}
use old_radio.Base.Int.{ℤ}
use old_radio.Codec.{scheme, bytes_to_symbols, symbols_to_bytes, symbol_valid}
use old_radio.Codec.Group.{IsTable}
use old_radio.Codec.RoundTrip.{codec_round_trip}
use old_radio.Sendrecv.{
  preamble, uartsync, epilogue, max_packet_bytes, max_packet_symbols, Ready, gathered, packet_frame,
  wait_packet, gather, from_valid, recv_packet,
}
use old_radio.Sendrecv.Link.{rounds, brings, Reserved, Without, wait_packet-noise, gather-found}

abbrev framed : ℕ → ℕ → ℕ → List ℕ → List ℕ
framed symbol_start symbol_end symbol_sync symbols =
    replicate preamble symbol_start
    ++ replicate uartsync symbol_sync
    ++ symbols
    ++ replicate epilogue symbol_end

module _ (symbol_start symbol_end symbol_sync : ℕ) (encode decode : List ℕ → ℕ → Run (List ℕ))
    (valid : ℕ → Bool) (reserved : Reserved symbol_start symbol_end symbol_sync valid) where
  codes-Without :
      (symbols : List ℕ) → All (λ c. valid c ≡ true) symbols → Without symbol_end symbols
  codes-Without [] h = tt
  codes-Without (c ∷ symbols) h =
      (λ e. cc (sym (h.0) ∙ ap valid e ∙ reserved.end_invalid), codes-Without symbols h.1)

  -- What stands between the first symbol of a frame and its packet is skipped.
  from_valid-frame :
      (symbols : List ℕ)
      → 0 < length symbols
      → All (λ c. valid c ≡ true) symbols
      → from_valid symbol_start symbol_end symbol_sync encode decode valid
          (symbol_start ∷ symbol_start ∷ symbol_sync ∷ symbol_sync ∷ symbols)
        ≡ symbols
  unfolding from_valid
  from_valid-frame [] some h = absurd (omega arith)
  from_valid-frame (c ∷ symbols) some h = rw (reserved.start_invalid, reserved.sync_invalid, h.0)

  recv_packet-gathered :
      (room limit : ℕ) (script : List Ready) (line received packet bytes rest : List ℕ) (size : ℕ)
      → gather symbol_start symbol_end symbol_sync encode decode valid script [] line
        ≡ (gathered received, rest)
      → from_valid symbol_start symbol_end symbol_sync encode decode valid received ≡ packet
      → decode packet (length packet) ≡ ok bytes
      → length bytes ≡ size
      → size ≤ room
      → recv_packet symbol_start symbol_end symbol_sync encode decode valid room limit script line
        ≡ ok ((size, bytes), rest)
  unfolding recv_packet
  recv_packet-gathered room limit script line received packet bytes rest size got skipped decoded
        count fits =
      let enough : leb size room ≡ true = ground arith in
      rw (recv_packet, got, skipped, decoded, count, enough, got)

  packet_frame-framed :
      (bytes symbols : List ℕ) (size : ℕ)
      → size ≤ max_packet_bytes
      → encode bytes size ≡ ok symbols
      → length symbols + 8 ≤ max_packet_symbols
      → packet_frame symbol_start symbol_end symbol_sync encode decode valid bytes size
        ≡ ok (framed symbol_start symbol_end symbol_sync symbols)
  unfolding packet_frame
  packet_frame-framed bytes symbols size small encoded fits =
      let allowed : leb size max_packet_bytes ≡ true = ground arith in
      let room : leb (preamble + uartsync + length symbols + epilogue) max_packet_symbols ≡ true =
        ground arith in
      rw (allowed, encoded, room)

  -- The packet of a frame whose first symbol is taken.
  recv_packet-framed :
      (symbols bytes more : List ℕ) (size room limit : ℕ) (script : List Ready)
      → 0 < length symbols
      → All (λ c. valid c ≡ true) symbols
      → length symbols + 8 ≤ max_packet_symbols
      → decode symbols (length symbols) ≡ ok bytes
      → length bytes ≡ size
      → size ≤ room
      → length symbols + 4 < brings script
      → (rest : List ℕ) × (recv_packet symbol_start symbol_end symbol_sync encode decode valid room
            limit script
            (drop 1 (framed symbol_start symbol_end symbol_sync symbols) ++ more)
          ≡ ok ((size, bytes), rest))
  recv_packet-framed symbols bytes more size room limit script some codes fits decoded count holds
        enough =
      let received = symbol_start ∷ symbol_start ∷ symbol_sync ∷ symbol_sync ∷ symbols in
      let clear : Without symbol_end received = (
        reserved.start_ne,
        (reserved.start_ne, (reserved.sync_ne, (reserved.sync_ne, codes-Without symbols codes))),
      ) in
      let line : drop 1 (framed symbol_start symbol_end symbol_sync symbols) ++ more
          ≡ received ++ symbol_end ∷ symbol_end ∷ symbol_end ∷ more =
        ap (λ (s : List ℕ). symbol_start ∷ symbol_start ∷ symbol_sync ∷ symbol_sync ∷ s)
          (append_assoc symbols (replicate epilogue symbol_end) more) in
      let (rest, got) =
        gather-found symbol_start symbol_end symbol_sync encode decode valid script received
          (symbol_end ∷ symbol_end ∷ more) [] clear (omega arith) (omega arith) in
      (
        rest,
        ap (recv_packet symbol_start symbol_end symbol_sync encode decode valid room limit script)
              line
            ∙ recv_packet-gathered room limit script _ received symbols bytes rest size got
                (from_valid-frame symbols some codes) decoded count holds,
      )

-- The symbols of a packet: 8 bits in each of them hold 6 or 7 of the packet's, rounded up to whole groups.
abbrev pub symbols_needed : ℕ → ℕ → ℕ
symbols_needed count size = if ltb count 128 then size + (size + 2) / 3 else size + (size + 6) / 7

-- Packets of at most 7022 bytes fit in the buffers with 6 bits as with 7.
few_groups :
    (count size groups : ℕ)
    → size ≤ 7022
    → (scheme count).chunk_bytes * groups < size + (scheme count).chunk_bytes
    → (size + groups ≤ symbols_needed count size) × (size + groups + 8 ≤ max_packet_symbols)
unfolding scheme
few_groups count size groups h k = elim (Bool-cases (ltb count 128)) [
  | inl few ↦ let k' : 3 * groups < size + 3 = rw few at k in (rw few (omega arith), omega arith)
  | inr many ↦ let k' : 7 * groups < size + 7 = rw many at k in (rw many (omega arith), omega arith)
]

many_groups :
    (count size groups : ℕ)
    → count < 128
    → size ≤ (scheme count).chunk_bytes * groups
    → size ≤ 3 * groups
unfolding scheme
many_groups count size groups six h = let few : ltb count 128 ≡ true = ground arith in rw few at h

module _ (count : ℕ) (symbol_encode : ℕ → ℕ) (symbol_decode : ℕ → ℤ) where
  abbrev pub encoder : List ℕ → ℕ → Run (List ℕ)
  encoder = bytes_to_symbols (scheme count) symbol_encode symbol_decode

  abbrev pub decoder : List ℕ → ℕ → Run (List ℕ)
  decoder = symbols_to_bytes (scheme count) symbol_encode symbol_decode

  abbrev pub validity : ℕ → Bool
  validity = symbol_valid (scheme count) symbol_encode symbol_decode

  -- With a table of less than 128 symbols, so of 6 bits, a packet of 7023 to 8192 bytes passes the assert
  -- of send_packet and runs over its buffer.
  pub packet_frame-overrun :
      (symbol_start symbol_end symbol_sync : ℕ)
      → IsTable (scheme count) symbol_encode symbol_decode
      → count < 128
      → (bytes : List ℕ) (size : ℕ) → IsBytes bytes
      → 7023 ≤ size
      → size ≤ max_packet_bytes
      → size ≤ length bytes
      → packet_frame symbol_start symbol_end symbol_sync encoder decoder validity bytes size ≡ fault
  unfolding packet_frame
  packet_frame-overrun symbol_start symbol_end symbol_sync table six bytes size bs big allowed
        long =
      let (symbols, groups, encoded, total, begun, whole, codes, decodes) =
        codec_round_trip count symbol_encode symbol_decode table bytes size long bs in
      let many = many_groups count size groups six whole in
      let passes : leb size max_packet_bytes ≡ true = ground arith in
      let over : leb (preamble + uartsync + length symbols + epilogue) max_packet_symbols ≡ false =
        ground arith in
      rw (passes, encoded, over)

  module _ (symbol_start symbol_end symbol_sync : ℕ)
      (table : IsTable (scheme count) symbol_encode symbol_decode)
      (reserved : Reserved symbol_start symbol_end symbol_sync validity) where
    -- A packet of 1 to 7022 bytes arrives, with tables of 6 or of 7 bits in which decoding undoes
    -- encoding and whose reserved symbols are not valid, the end differing from the start and the sync:
    -- send_packet builds a frame within its buffer; wait_packet finds its first symbol behind any noise
    -- without start symbols, if it is ready in more rounds than the noise has; and recv_packet then
    -- returns the packet's bytes, however its reads cut the frame up, if the rounds that are ready
    -- bring more bytes than stand in the rest of the frame before the epilogue, and the caller's buffer
    -- has room.
    pub sent-received :
        (bytes noise more : List ℕ) (size room limit : ℕ) (waits script : List Ready)
        → IsBytes bytes
        → 0 < size
        → size ≤ 7022
        → size ≤ length bytes
        → size ≤ room
        → Without symbol_start noise
        → length noise < rounds waits
        → symbols_needed count size + 4 < brings script
        → (frame : List ℕ) × (rest : List ℕ) × (packet_frame symbol_start symbol_end symbol_sync
              encoder decoder validity bytes size
            ≡ ok frame)
          × (wait_packet symbol_start symbol_end symbol_sync encoder decoder validity waits
                (noise ++ (frame ++ more))
              ≡ (true, drop 1 frame ++ more))
          × (recv_packet symbol_start symbol_end symbol_sync encoder decoder validity room limit
                script
                (drop 1 frame ++ more)
              ≡ ok ((size, take size bytes), rest))
    sent-received bytes noise more size room limit waits script bs some small long holds quiet ready
          enough =
        let (symbols, groups, encoded, total, begun, whole, codes, decodes) =
          codec_round_trip count symbol_encode symbol_decode table bytes size long bs in
        let (few, fits) = few_groups count size groups small begun in
        let decoded : decoder symbols (length symbols) ≡ ok (take size bytes) =
          ap (λ (s : List ℕ). decoder s (length symbols)) (sym (append-nil symbols)) ∙ decodes [] in
        let taken : length (take size bytes) ≡ size = omega (arith, length-take size bytes) in
        let (rest, received) =
          recv_packet-framed symbol_start symbol_end symbol_sync encoder decoder validity reserved
            symbols (take size bytes) more size room limit script (omega arith) codes (omega arith)
            decoded taken holds (omega arith) in
        (
          framed symbol_start symbol_end symbol_sync symbols,
          rest,
          packet_frame-framed symbol_start symbol_end symbol_sync encoder decoder validity reserved
              bytes symbols size (omega arith) encoded (omega arith),
          wait_packet-noise symbol_start symbol_end symbol_sync encoder decoder validity waits noise
              (drop 1 (framed symbol_start symbol_end symbol_sync symbols) ++ more) quiet ready,
          received,
        )
