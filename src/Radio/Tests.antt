-- ===== src/Radio/Tests.antt =====
-- The theorems on a packet of three bytes, and on frames that a sender does not build.
use old_radio.Base.{
  ℕ, zero, suc, ◌+◌, ◌≤◌, ◌<◌, ◌≡◌, refl, arith, List, [], ◌∷◌, ◌++◌, none, some, true, All,
  IsBytes, length, drop, replicate, length-replicate,
}
use old_radio.Base.Run.{ok, abort, fault}
use old_radio.Symbols.{symbol_start, symbol_end, symbol_valid}
use old_radio.Symbols.Codes.{IsCode}
use old_radio.Packet.{Heap, cell}
use old_radio.Packet.Valid.{IsValid}
use old_radio.Radio.{
  Written, failed, accepted, write_loop, build_frame, Round, ready, radio_wait, radio_recv,
  timeout_ms,
}
use old_radio.Radio.Write.{write_loop-all, capacity}
use old_radio.Radio.Wait.{polled, poll_next, radio_wait-start}
use old_radio.Radio.Receive.{Brings, Feeds, fed, feed}
use old_radio.Radio.Link.{packet_of, radio_recv-build_frame}
use old_radio.Radio.Overflow.{empty_frame, radio_recv-overrun, radio_recv-empty}

abbrev zeros : ℕ → List ℕ
zeros n = replicate n 0

zeros-IsBytes : (n : ℕ) → IsBytes (zeros n)
zeros-IsBytes zero = tt
zeros-IsBytes (suc n) = (omega arith, zeros-IsBytes n)

length-zeros : (n : ℕ) → length (zeros n) ≡ n
length-zeros n = length-replicate n 0

length-codes : (n : ℕ) → length {A = ℕ} (replicate n 0xf7) ≡ n
length-codes n = length-replicate n 0xf7

abbrev hi : List ℕ
hi = 104 ∷ 105 ∷ 33 ∷ []

abbrev in_time : ℕ → Round
in_time k = record { now = 0; poll = ready k }

in_time-Brings : (k : ℕ) → 0 < k → Brings 5000 (in_time k) k
unfolding timeout_ms
in_time-Brings k h = record { in_time = refl; reads = refl; some_bytes = h }

abbrev two_reads : List Round
two_reads = in_time 5 ∷ in_time 9 ∷ []

two_reads-Feeds : Feeds 5000 two_reads (5 + (9 + 0))
two_reads-Feeds =
    feed 5 (in_time-Brings 5 (omega arith)) (feed 9 (in_time-Brings 9 (omega arith)) fed)

no_packets-IsValid : IsValid []
no_packets-IsValid p k e = cc

-- The frame of "hi!": 3 bytes and 2 of checksum in 6 symbols, of which the first byte of a read may
-- be any.
radio_recv-build_frame_example :
    (frame : List ℕ) × (p : ℕ) × (h' : Heap) × (rest : List ℕ) × (build_frame
        (zeros 1602)
        (zeros 1843)
        hi
        3
      ≡ ok frame)
    × (radio_wait 5000 (in_time 1 ∷ in_time 1 ∷ []) ((0xff ∷ []) ++ (frame ++ []))
        ≡ ok (true, drop 1 frame ++ []))
    × (radio_recv (zeros 1602) 5000 two_reads (drop 1 frame ++ []) [] ≡ ok (some p, h', rest))
    × (cell [] p ≡ none)
    × (cell h' p ≡ some (packet_of hi 3))
    × IsValid h'
radio_recv-build_frame_example =
    radio_recv-build_frame hi 3 (zeros 1602) (zeros 1843) (zeros 1602) [] 5000
      (in_time 1 ∷ in_time 1 ∷ []) two_reads 2 (5 + (9 + 0)) (0xff ∷ []) [] (omega arith)
      (omega arith) (omega arith) (omega arith) (zeros-IsBytes 1602) (length-zeros 1602)
      (length-zeros 1843) (length-zeros 1602) no_packets-IsValid
      (poll_next 1 (omega arith) refl (poll_next 1 (omega arith) refl polled)) (omega arith)
      (omega arith) two_reads-Feeds (omega arith)

-- An error, and two short writes.
abbrev port : List Written
port = failed ∷ accepted 1 ∷ accepted 4 ∷ []

write_loop-all_example :
    ((write_loop port hi).0 ++ (write_loop port hi).1 ≡ hi)
    × (length hi ≤ capacity port → (write_loop port hi).1 ≡ [])
write_loop-all_example = write_loop-all port hi

radio_wait-start_example :
    radio_wait 5000 (in_time 1 ∷ in_time 1 ∷ []) (0xff ∷ symbol_start ∷ 7 ∷ []) ≡ ok (true, 7 ∷ [])
radio_wait-start_example =
    radio_wait-start 5000 (in_time 1 ∷ in_time 1 ∷ []) 2 (0xff ∷ []) (7 ∷ [])
      (poll_next 1 (omega arith) refl (poll_next 1 (omega arith) refl polled)) (omega arith)
      (omega arith)

first-IsCode : IsCode 0xf7
unfolding symbol_valid
first-IsCode = record { byte = omega arith; valid = refl }

codes-IsCode : (n : ℕ) → All IsCode (replicate n 0xf7)
codes-IsCode zero = tt
codes-IsCode (suc n) = (first-IsCode, codes-IsCode n)

abbrev one_read : List Round
one_read = in_time 2000 ∷ []

one_read-Feeds : Feeds 5000 one_read (2000 + 0)
one_read-Feeds = feed 2000 (in_time-Brings 2000 (omega arith)) fed

radio_recv-overrun_example :
    radio_recv (zeros 1602) 5000 one_read (replicate 1832 0xf7 ++ symbol_end ∷ []) [] ≡ fault
radio_recv-overrun_example =
    radio_recv-overrun (zeros 1602) (replicate 1832 0xf7) [] 5000 one_read (2000 + 0) []
      (length-zeros 1602) (codes-IsCode 1832) (omega (arith, length-codes 1832))
      (omega (arith, length-codes 1832)) one_read-Feeds (omega (arith, length-codes 1832))

radio_recv-empty_example :
    radio_recv (zeros 1602) 5000 one_read (empty_frame ++ symbol_end ∷ []) [] ≡ abort
radio_recv-empty_example =
    radio_recv-empty (zeros 1602) [] 5000 one_read (2000 + 0) [] (length-zeros 1602) one_read-Feeds
      (omega arith)
