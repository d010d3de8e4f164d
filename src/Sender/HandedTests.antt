-- ===== src/Sender/HandedTests.antt =====
-- A packet of two bytes comes to the handler.
use old_radio.Base.{ℕ, ◌+◌, ◌≡◌, ◌≤◌, ◌<◌, List, [], ◌∷◌, ◌++◌, true, take, arith}
use old_radio.Base.Run.{ok}
use old_radio.Loc.{Rand}
use old_radio.Codec.Tests.{encode, decode, encode-IsTable}
use old_radio.Sendrecv.{packet_frame}
use old_radio.Sendrecv.Delivery.{encoder, decoder, validity}
use old_radio.Sendrecv.DeliveryTests.{reserved, two_bytes, reads}
use old_radio.Sender.Receiver.{holdoff_at_start, queue_rand_holdoff, receiver_round}
use old_radio.Sender.Handed.{sent-handed}

abbrev count_up : Rand
count_up s = (s, s + 1)

sent-handed_example :
    (frame : List ℕ) × (left : List ℕ) × (holdoff : ℕ) × (packet_frame 0 1 2
        (encoder 70 encode decode)
        (decoder 70 encode decode)
        (validity 70 encode decode)
        two_bytes
        2
      ≡ ok frame)
    × (receiver_round 0 1 2
          (encoder 70 encode decode)
          (decoder 70 encode decode)
          (validity 70 encode decode)
          count_up
          holdoff_at_start
          true
          reads
          ((reads, []) ∷ [])
          ((7 ∷ []) ++ (frame ++ (9 ∷ [])))
          5
        ≡ ok (take 2 two_bytes ∷ [], (left, 6)))
    × (queue_rand_holdoff count_up holdoff_at_start 5 ≡ ok (holdoff, 6))
    × (100 ≤ holdoff)
    × (holdoff < 500)
sent-handed_example =
    sent-handed 70 encode decode 0 1 2 (encode-IsTable 70) reserved count_up holdoff_at_start
      two_bytes (7 ∷ []) (9 ∷ []) 2 5 reads reads (omega arith) (omega arith) (omega arith)
      (omega arith) (λ e. absurd (omega (arith, e)), tt) (omega arith) (omega arith) (omega arith)
      (omega arith)
