-- ===== src/Programs/Tests.antt =====
-- A node that knows one neighbour, and what another hears of it.
use old_radio.Base.{
  ℕ, suc, zero, ◌%◌, ◌^◌, ◌+◌, ◌-◌, ◌*◌, ◌<◌, ◌≤◌, ◌≡◌, refl, List, [], ◌∷◌, ◌++◌, true, false,
  ◌&&◌, some, All, IsBytes, length, take, replicate, arith,
}
use old_radio.Base.Run.{ok}
use old_radio.Base.Int.{pos, negsuc}
use old_radio.Loc.{Loc, Rand}
use old_radio.Beacon.{Neighbour, Heard, heard_size, beacon_recv, beacon_prepare}
use old_radio.Beacon.Prepared.{IsEntry}
use old_radio.Programs.{hear, said, buffer_size, next_timeout}
use old_radio.Programs.Threads.{
  World, writer_thread, reader_thread, prepares, receives, at_start, locks_table, finds, takes_port,
  Reached, begins, continues,
}
use old_radio.Programs.Exclusive.{
  writer_has_port, writer_has_table, reader_has_port, reader_has_table, writer_blocked,
  reader_blocked, Reached-exclusive,
}
use old_radio.Codec.Tests.{encode, decode}
use old_radio.Programs.Spy.{Spy, spy_start, spy_loop, IsLine, shown, spy_loop-shown}
use old_radio.Programs.Chatter.{text_heard, thread_heard, text_said, text_heard-said}
use old_radio.Programs.Topofind.{ids_heard, ids_said, ids_heard-said}
use old_radio.Programs.Heard.{hear-said, hear-short}

abbrev entry : ℕ → ℕ → Loc → Neighbour
entry id stratum vloc = record { active = true; id = id; stratum = stratum; vloc = vloc; stamp = 0 }

abbrev place : Loc
place = record { x = pos 3; y = negsuc 6; z = pos 0 }

abbrev me : Neighbour
me = entry 300 0 place

abbrev other : Neighbour
other = entry 9 1 place

entry-IsEntry : (id stratum : ℕ) → id < 65536 → stratum < 256 → IsEntry (entry id stratum place)
entry-IsEntry id stratum h k = record {
  id = h;
  stratum = k;
  x = omega arith;
  y = omega arith;
  z = omega arith;
}

abbrev zeros : List ℕ
zeros = replicate 1024 0

hear-said_example :
    (hs : List Heard) × (out : List ℕ) × (n : ℕ) × (beacon_prepare
        (buffer_size - 1)
        (me ∷ other ∷ [])
      ≡ ok hs)
    × (said zeros (me ∷ other ∷ []) ≡ ok (out, n))
    × (n ≡ heard_size * length hs + 3)
    × (hear 9 77 (take n out ++ (5 ∷ [])) n (other ∷ []) ≡ beacon_recv 9 77 hs (other ∷ []))
hear-said_example =
    hear-said 9 77 zeros (5 ∷ []) me (other ∷ []) (other ∷ []) refl
      (
        entry-IsEntry 300 0 (omega arith) (omega arith),
        (entry-IsEntry 9 1 (omega arith) (omega arith), tt),
      )
      refl refl (omega arith)

zeros-IsBytes : (n : ℕ) → IsBytes (replicate n 0)
zeros-IsBytes zero = tt
zeros-IsBytes (suc n) = (omega arith, zeros-IsBytes n)

hear-short_example : hear 9 77 zeros 2 (other ∷ []) ≡ ok (other ∷ [])
hear-short_example = hear-short 9 77 2 zeros (other ∷ []) refl (zeros-IsBytes 1024) (omega arith)

-- A packet late in the second makes the node listen on for a holdoff.
next_timeout_test : next_timeout (λ s. (s, s + 1)) (pos 990) 5 4 ≡ (pos 104, 5)
unfolding next_timeout old_radio.Base.Int.◌-ℤ◌
next_timeout_test = refl

abbrev busy : World
busy = record {
  writer = prepares;
  reader = receives;
  port = some reader_thread;
  beacons = some writer_thread;
  out = 1 ∷ zeros;
  into = zeros;
  table = me ∷ [];
  seed = 4;
}

abbrev count_up : Rand
count_up s = (s, s + 1)

busy-Reached : Reached 300 count_up (λ d e. e) (at_start zeros zeros (me ∷ []) 4) busy
busy-Reached =
    continues _ busy (continues _ _ (continues _ _ begins (finds refl)) (takes_port refl refl))
      (locks_table refl refl)

Reached-exclusive_example :
    (writer_has_port busy.writer && reader_has_port busy.reader ≡ false)
    × (writer_has_table busy.writer && reader_has_table busy.reader ≡ false)
    × (writer_blocked busy.writer busy.port busy.beacons
          && reader_blocked busy.reader busy.port busy.beacons
        ≡ false)
Reached-exclusive_example =
    Reached-exclusive 300 count_up (λ d e. e) zeros zeros (me ∷ []) 4 busy busy-Reached

ids_heard-said_example :
    (out : List ℕ) × (ids_said 70000 513 zeros ≡ ok out)
    × (ids_heard (take 7 out ++ (5 ∷ [])) 7 ≡ ok (some (70000 % 2 ^ 16, 513 % 2 ^ 16)))
ids_heard-said_example = ids_heard-said 70000 513 zeros (5 ∷ []) refl

spy_loop-shown_example :
    (s : Spy) × (spy_loop 70 encode decode (9 ∷ 7 ∷ 1 ∷ 8 ∷ []) spy_start ≡ ok s)
    × All (IsLine 70 encode decode) s.lines
    × (length s.symbols ≤ 8)
    × (shown 70 encode decode s.lines ++ s.symbols ≡ 9 ∷ 7 ∷ 1 ∷ 8 ∷ [])
spy_loop-shown_example = spy_loop-shown 70 encode decode (9 ∷ 7 ∷ 1 ∷ 8 ∷ [])

text_heard-said_example :
    (out : List ℕ) × (n : ℕ) × (text_said (72 ∷ 105 ∷ []) zeros ≡ ok (out, n))
    × (text_heard (take n out ++ (5 ∷ [])) n ≡ ok (some (72 ∷ 105 ∷ [])))
    × (thread_heard (take n out ++ (5 ∷ [])) n ≡ ok (some (72 ∷ 105 ∷ [])))
text_heard-said_example =
    text_heard-said (72 ∷ 105 ∷ []) zeros (5 ∷ []) refl (omega arith)
      (λ e. absurd (omega (arith, e)), (λ e. absurd (omega (arith, e)), tt)) (omega arith)
