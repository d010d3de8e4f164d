-- ===== src/Sender/Handed.antt =====
-- radio/serial/queue.c on sendrecv.c and symbols.c: a packet that is sent comes to the handler.
use old_radio.Base.{
  ℕ, ◌+◌, ◌≤◌, ◌<◌, ◌≡◌, arith, List, [], ◌∷◌, ◌++◌, Bool, true, false, IsBytes, ◌==◌, length, take,
  drop, ◌^◌,
}
use old_radio.Base.Run.{Run, ok}
use old_radio.Base.Int.{ℤ}
use old_radio.Loc.{Rand}
use old_radio.Codec.{scheme}
use old_radio.Codec.Group.{IsTable}
use old_radio.Sendrecv.{Ready, packet_frame, wait_packet, recv_packet}
use old_radio.Sendrecv.Link.{rounds, brings, Reserved, Without}
use old_radio.Sendrecv.Delivery.{encoder, decoder, validity, symbols_needed, sent-received}
use old_radio.Sender.Receiver.{
  Holdoff, queue_rand_holdoff, queue_rand_holdoff_lem, receive_loop, receiver_round,
}

module _ (symbol_start symbol_end symbol_sync : ℕ) (encode decode : List ℕ → ℕ → Run (List ℕ))
    (valid : ℕ → Bool) (rand : Rand) (h : Holdoff) where
  -- A round with one packet, call by call.
  round-one :
      (waits reads : List Ready) (line behind bytes left : List ℕ) (n seed t next : ℕ)
      → wait_packet symbol_start symbol_end symbol_sync encode decode valid waits line
        ≡ (true, behind)
      → recv_packet symbol_start symbol_end symbol_sync encode decode valid 1024 100 reads behind
        ≡ ok ((n, bytes), left)
      → 0 < n
      → queue_rand_holdoff rand h seed ≡ ok (t, next)
      → receiver_round symbol_start symbol_end symbol_sync encode decode valid rand h true waits
          ((reads, []) ∷ [])
          line
          seed
        ≡ ok (bytes ∷ [], (left, next))
  unfolding receiver_round receive_loop wait_packet
  round-one waits reads line behind bytes left n seed t next found got some_bytes held =
      let any : (n == 0) ≡ false = ground arith in rw (receiver_round, found, got, held, any)

module _ (count : ℕ) (symbol_encode : ℕ → ℕ) (symbol_decode : ℕ → ℤ)
    (symbol_start symbol_end symbol_sync : ℕ)
    (table : IsTable (scheme count) symbol_encode symbol_decode)
    (reserved : Reserved symbol_start symbol_end symbol_sync
      (validity count symbol_encode symbol_decode))
    (rand : Rand) (h : Holdoff) where
  -- A packet of 1 to 1024 bytes that send_packet frames comes to the handler of a radio that listens: in
  -- queue_receiver's round, if the start symbol comes in time behind noise that has none, if the reads
  -- bring more bytes than stand in the rest of the frame before its epilogue, and if nothing follows while
  -- the receiver holds off, queue_recv_handler is called once, with the packet's bytes. With a lower bound
  -- below the higher, the holdoff that rand() gives then is at least the lower and below the higher.
  pub sent-handed :
      (bytes noise more : List ℕ) (size seed : ℕ) (waits reads : List Ready)
      → IsBytes bytes
      → 0 < size
      → size ≤ 1024
      → size ≤ length bytes
      → Without symbol_start noise
      → length noise < rounds waits
      → symbols_needed count size + 4 < brings reads
      → h.least < h.most
      → h.most < 2 ^ 31
      → (frame : List ℕ) × (left : List ℕ) × (holdoff : ℕ) × (packet_frame symbol_start symbol_end
            symbol_sync
            (encoder count symbol_encode symbol_decode)
            (decoder count symbol_encode symbol_decode)
            (validity count symbol_encode symbol_decode)
            bytes
            size
          ≡ ok frame)
        × (receiver_round symbol_start symbol_end symbol_sync
              (encoder count symbol_encode symbol_decode)
              (decoder count symbol_encode symbol_decode)
              (validity count symbol_encode symbol_decode)
              rand
              h
              true
              waits
              ((reads, []) ∷ [])
              (noise ++ (frame ++ more))
              seed
            ≡ ok (take size bytes ∷ [], (left, (rand seed).1)))
        × (queue_rand_holdoff rand h seed ≡ ok (holdoff, (rand seed).1))
        × (h.least ≤ holdoff)
        × (holdoff < h.most)
  sent-handed bytes noise more size seed waits reads bs some_bytes small long quiet ready enough
        apart most =
      let (frame, left, framed, found, got) =
        sent-received count symbol_encode symbol_decode symbol_start symbol_end symbol_sync table
          reserved bytes noise more size 1024 100 waits reads bs some_bytes (omega arith) long small
          quiet ready enough in
      let (t, held, above, below) =
        (queue_rand_holdoff_lem rand h seed (omega arith) most).1 apart in
      (
        frame,
        left,
        t,
        framed,
        round-one symbol_start symbol_end symbol_sync (encoder count symbol_encode symbol_decode)
            (decoder count symbol_encode symbol_decode) (validity count symbol_encode symbol_decode)
            rand h waits reads (noise ++ (frame ++ more)) (drop 1 frame ++ more) (take size bytes)
            left size seed t (rand seed).1 found got some_bytes held,
        held,
        above,
        below,
      )
