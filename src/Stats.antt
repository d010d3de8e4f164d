-- ===== src/Stats.antt =====
-- radio2/src/topostats.c: the program that says beacons and counts those it hears, by their sender. A script
-- has for each round of a loop what the port does and what the clock says behind it, and the jitter of the
-- next beacon, which the code computes with `float`.
pub mod Counts
mod Tests
use old_radio.Base.{
  ℕ, zero, suc, ◌+◌, ◌*◌, ◌%◌, ◌^◌, List, [], ◌∷◌, ◌++◌, Option, none, some, Bool, true, false,
  ◌&&◌, ltb, leb, if◌then◌else◌, length, take, set, replicate,
}
use old_radio.Base.Run.{Run, ok, fault, ◌>>=◌, ◌>>◌, within, load}
use old_radio.Base.Int.{ℤ, pos, negsuc, signed32}
use old_radio.Symbols.Digits.{value, digits}
use old_radio.Packet.{Packet, Heap, deref, packet_new, packet_free}
use old_radio.Event.{vtime_inf}
use old_radio.Radio.{Round, Written, radio_wait, radio_recv, radio_send}

abbrev pub maxid : ℕ
maxid = 255

-- `counter[n]++`, where the counters are of type `int`: past INT_MAX the program has no defined behaviour.
abbrev pub bumped : List ℕ → ℕ → Run (List ℕ)
bumped counter n =
    load counter n >>= λ c. within (ltb (c + 1) (2 ^ 31)) >> ok (set counter n (c + 1))

-- What a packet that is read as a beacon does to the counters: its id is an `int`, which is below zero where
-- its highest bit is set.
unfoldable pub count_beacon : Packet → List ℕ → Run (List ℕ)
unfolding value
count_beacon packet counter =
    within (leb 4 packet.size) >> elim (signed32 (value 256 (take 4 packet.bytes))) [
      | pos n ↦ if leb n maxid then bumped counter n else ok counter
      | negsuc n ↦ fault
    ]

-- `beacon_t`, with the three bytes that pad it.
unfoldable pub beacon_bytes : ℕ → ℕ → List ℕ → List ℕ
unfolding digits
beacon_bytes id serial padding =
    digits 256 4 id
    ++ (digits 256 4 serial
        ++ ((0x67 ∷ 0x69 ∷ 0x62 ∷ 0x62 ∷ 0x65 ∷ 0x72 ∷ 0x69 ∷ 0x73 ∷ 0x68 ∷ [])
            ++ (replicate 44 0 ++ padding)))

-- One round of the listening loop.
pub record Turn : Type 0 where
  pub waits : List Round
  pub receives : List Round
  pub after : ℕ

-- The variables of main, the line, and the heap.
pub record Stats : Type 0 where
  pub vtime : ℕ
  pub next_time : ℕ
  pub serial : ℕ
  pub counter : List ℕ
  pub line : List ℕ
  pub packets : Heap

-- A packet that radio_recv returned, or NULL.
unfoldable pub count_packet : Option ℕ → Stats → Run Stats
unfolding count_beacon
count_packet none s = ok s
count_packet (some p) s = do
  packet ← deref s.packets p
  counter ← count_beacon packet s.counter
  packets ← packet_free p s.packets
  ok (record s { counter = counter; packets = packets })

unfoldable pub hear_turn : List ℕ → ℕ → Turn → Stats → Run Stats
unfolding count_packet
hear_turn packet_buffer timeout t s = radio_wait timeout t.waits s.line >>= λ (found, line).
    let received : Run Stats =
      radio_recv packet_buffer timeout t.receives line s.packets >>= λ (p, packets, left).
      count_packet p (record s { line = left; packets = packets }) in
    if found then received else ok (record s { line = line })

-- The listening loop, up to the end of the script.
unfoldable pub hear_loop : List ℕ → ℕ → List Turn → Stats → Run Stats
unfolding hear_turn
hear_loop packet_buffer eschaton [] s = ok s
hear_loop packet_buffer eschaton (t ∷ turns) s =
    let timeout = if ltb s.next_time eschaton then s.next_time else eschaton in
    let round = hear_turn packet_buffer timeout t s >>= λ heard.
    hear_loop packet_buffer eschaton turns (record heard { vtime = t.after }) in
    if ltb s.vtime s.next_time && ltb s.vtime eschaton then round else ok s

-- What main sends when the time has come, of 64 bytes, until `npackets` are sent; `wait` is the jitter. The
-- result is what went out.
unfoldable pub announce :
    List ℕ → List ℕ → ℕ → ℕ → List ℕ → List Written → ℕ → Stats → Run (List ℕ × Stats)
unfolding beacon_bytes
announce packet_buffer send_buffer id npackets padding script wait s =
    let said : Run (List ℕ × Stats) = do
      (p, made) ← packet_new 64 (beacon_bytes id s.serial padding) s.packets
      packet ← deref made p
      (out, left) ← radio_send packet_buffer send_buffer packet.bytes packet.size script
      freed ← packet_free p made
      ok (
        out,
        record s {
          packets = freed;
          serial = s.serial + 1;
          next_time = (s.next_time + wait) % 2 ^ 64;
        },
      )
    in if ltb s.serial npackets then said else ok ([], record s { next_time = vtime_inf })

-- One round of main's loop: what the port and the clock do while it listens, in its writes, and behind.
pub record Period : Type 0 where
  pub turns : List Turn
  pub writes : List Written
  pub padding : List ℕ
  pub wait : ℕ
  pub after : ℕ

-- main's loop, up to the end of the script: what went out, and the counters in the end.
unfoldable pub stats_loop : List ℕ → List ℕ → ℕ → ℕ → ℕ → List Period → Stats → Run (List ℕ × Stats)
unfolding hear_loop announce
stats_loop packet_buffer send_buffer id npackets eschaton [] s = ok ([], s)
stats_loop packet_buffer send_buffer id npackets eschaton (t ∷ periods) s =
    let round : Run (List ℕ × Stats) = do
      heard ← hear_loop packet_buffer eschaton t.turns s
      (out, said) ← announce packet_buffer send_buffer id npackets t.padding t.writes t.wait heard
      (more, end) ←
          stats_loop packet_buffer send_buffer id npackets eschaton periods
            (record said { vtime = t.after })
      ok (out ++ more, end)
    in if ltb s.vtime eschaton then round else ok ([], s)
