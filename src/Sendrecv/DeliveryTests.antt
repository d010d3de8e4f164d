-- ===== src/Sendrecv/DeliveryTests.antt =====
-- A packet of two bytes with tables of 6 bits that reserve the bytes 0, 1 and 2, and one too long.
use old_radio.Base.{
  ℕ, suc, zero, ◌≡◌, refl, List, [], ◌∷◌, ◌++◌, true, IsBytes, take, drop, replicate,
  length-replicate, arith,
}
use old_radio.Base.Run.{ok, fault}
use old_radio.Codec.{symbol_valid}
use old_radio.Codec.Tests.{encode, decode, encode-IsTable}
use old_radio.Sendrecv.{Ready, bytes_ready, packet_frame, wait_packet, recv_packet}
use old_radio.Sendrecv.Link.{Reserved}
use old_radio.Sendrecv.Delivery.{encoder, decoder, validity, sent-received, packet_frame-overrun}

pub reserved : Reserved 0 1 2 (validity 70 encode decode)
unfolding symbol_valid
reserved = record {
  start_invalid = refl;
  end_invalid = refl;
  sync_invalid = refl;
  start_ne = λ e. absurd (omega (arith, e));
  sync_ne = λ e. absurd (omega (arith, e));
}

abbrev pub two_bytes : List ℕ
two_bytes = 1 ∷ 200 ∷ []

abbrev pub reads : List Ready
reads = bytes_ready 4 ∷ bytes_ready 1 ∷ bytes_ready 30 ∷ []

sent-received_example :
    (frame : List ℕ) × (rest : List ℕ) × (packet_frame 0 1 2
        (encoder 70 encode decode)
        (decoder 70 encode decode)
        (validity 70 encode decode)
        two_bytes
        2
      ≡ ok frame)
    × (wait_packet 0 1 2
          (encoder 70 encode decode)
          (decoder 70 encode decode)
          (validity 70 encode decode)
          reads
          ((7 ∷ []) ++ (frame ++ (9 ∷ [])))
        ≡ (true, drop 1 frame ++ (9 ∷ [])))
    × (recv_packet 0 1 2
          (encoder 70 encode decode)
          (decoder 70 encode decode)
          (validity 70 encode decode)
          1021
          100
          reads
          (drop 1 frame ++ (9 ∷ []))
        ≡ ok ((2, take 2 two_bytes), rest))
sent-received_example =
    sent-received 70 encode decode 0 1 2 (encode-IsTable 70) reserved two_bytes (7 ∷ []) (9 ∷ []) 2
      1021 100 reads reads (omega arith) (omega arith) (omega arith) (omega arith) (omega arith)
      (λ e. absurd (omega (arith, e)), tt) (omega arith) (omega arith)

zeros-IsBytes : (n : ℕ) → IsBytes (replicate n 0)
zeros-IsBytes zero = tt
zeros-IsBytes (suc n) = (omega arith, zeros-IsBytes n)

abbrev long : ℕ
long = 8000

packet_frame-overrun_example :
    packet_frame 0 1 2
      (encoder 70 encode decode)
      (decoder 70 encode decode)
      (validity 70 encode decode)
      (replicate long 0)
      long
    ≡ fault
packet_frame-overrun_example =
    packet_frame-overrun 70 encode decode 0 1 2 (encode-IsTable 70) (omega arith) (replicate long 0)
      long (zeros-IsBytes long) (omega arith) (omega arith)
      (omega (arith, length-replicate {A = ℕ} long 0))
