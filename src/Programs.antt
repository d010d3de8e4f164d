-- ===== src/Programs.antt =====
-- radio/serial/virtloc.c: the program of the first radio that hears its neighbours' beacons, and says its
-- own when it has listened for long enough. A script has for each round of the listening loop what the port
-- does, what time() and the clock say, and whether a signal came. The test for the end of the run, and
-- what main does before its loop, are left out.
pub mod Heard
pub mod Topofind
pub mod Spy
pub mod Chatter
pub mod Matches
pub mod Threads
pub mod Exclusive
mod Tests
use old_radio.Base.{
  ℕ, zero, suc, ◌+◌, ◌-◌, ◌%◌, List, [], ◌∷◌, ◌++◌, Bool, true, false, ◌&&◌, ◌||◌, not, ltb, leb,
  ◌==◌, if◌then◌else◌, length, take, drop,
}
use old_radio.Base.Run.{Run, ok, ◌>>=◌, ◌>>◌, within, load}
use old_radio.Base.Int.{ℤ, pos, ◌-ℤ◌, ltb_ℤ}
use old_radio.Loc.{Rand}
use old_radio.Crc.{store}
use old_radio.Checksum.{crc16_set, crc16_check}
use old_radio.Beacon.{Neighbour}
use old_radio.Beacon.Recalc.{beacon_recalc}
use old_radio.Beacon.Wire.{recv_wire, prepare_wire}
use old_radio.Sendrecv.{Ready, Write, wait_packet, recv_packet, send_packet}

abbrev pub listen_timeout : ℕ
listen_timeout = 1000

abbrev pub holdoff_max : ℕ
holdoff_max = 500

abbrev pub holdoff_min : ℕ
holdoff_min = 100

abbrev pub buffer_size : ℕ
buffer_size = 1024

-- What a packet of `n` bytes in the buffer does to the table of neighbours.
unfoldable pub hear : ℕ → ℕ → List ℕ → ℕ → List Neighbour → Run (List Neighbour)
hear identifier stamp buffer n table = load buffer 0 >>= λ kind.
    let checked : Run (List Neighbour) = crc16_check buffer n >>= λ good.
    if good then recv_wire identifier stamp (drop 1 buffer) (n - 3) table else ok table in
    if ltb 0 n && (kind == 1) then checked else ok table

-- The next timeout, `elapsed` milliseconds after the listening began, and rand's state.
unfoldable pub next_timeout : Rand → ℤ → ℕ → ℕ → ℤ × ℕ
next_timeout rand elapsed n seed =
    let timeout = pos listen_timeout -ℤ elapsed in
    let (r, next) = rand seed in
    let holdoff = pos (holdoff_min + r % (holdoff_max - holdoff_min)) in
    if ltb 0 n && ltb_ℤ timeout (pos holdoff_max)
    then (if ltb_ℤ timeout holdoff then holdoff else timeout, next)
    else (timeout, seed)

-- One round of the listening loop.
pub record Round : Type 0 where
  pub waits : List Ready
  pub reads : List Ready
  pub stamp : ℕ
  pub elapsed : ℤ
  pub interrupted : Bool

pub record Station : Type 0 where
  pub table : List Neighbour
  pub buffer : List ℕ
  pub line : List ℕ
  pub seed : ℕ

-- The packet that the node says: its bytes in the buffer, and how many.
unfoldable pub said : List ℕ → List Neighbour → Run (List ℕ × ℕ)
said buffer table = do
  kind ← store buffer 0 1
  beacon ← prepare_wire (buffer_size - 1) table
  within (leb (length beacon + 1) buffer_size)
  sealed ←
      crc16_set (take 1 kind ++ (beacon ++ drop (length beacon) (drop 1 kind))) (length beacon + 3)
  ok (sealed, length beacon + 3)

module _ (symbol_start symbol_end symbol_sync : ℕ)
    (bytes_to_symbols symbols_to_bytes : List ℕ → ℕ → Run (List ℕ)) (symbol_valid : ℕ → Bool)
    (rand : Rand) (identifier : ℕ) where
  -- The part of a round before the clock is read: `n`, and what it changes.
  unfoldable pub receive : Round → Station → Run (ℕ × Station)
  unfolding hear
  receive r s =
      let (found, line) =
        wait_packet symbol_start symbol_end symbol_sync bytes_to_symbols symbols_to_bytes
          symbol_valid r.waits s.line in
      let packet : Run (ℕ × Station) = do
        ((n, bytes), left) ←
            recv_packet symbol_start symbol_end symbol_sync bytes_to_symbols symbols_to_bytes
              symbol_valid buffer_size 100 r.reads line
        let buffer = bytes ++ drop n s.buffer
        table ← hear identifier r.stamp buffer n s.table
        ok (n, record { table = table; buffer = buffer; line = left; seed = s.seed })
      in if found then packet else ok (0, record s { line = line })

  -- The loop, up to the end of the script.
  unfoldable pub listen : List Round → Station → Run Station
  unfolding receive next_timeout
  listen [] s = ok s
  listen (r ∷ rounds) s = receive r s >>= λ (n, after).
      let (timeout, seed) = next_timeout rand r.elapsed n after.seed in
      let next : Station = record after { seed = seed } in
      let rest = listen rounds next in
      if not r.interrupted && ltb_ℤ (pos 0) timeout then rest else ok next

  -- A turn of main's loop: the node listens, settles, and says its beacon. The result is send_packet's,
  -- with what went out.
  unfoldable pub turn :
      (ℕ → ℕ → ℕ) → List Round → ℕ → List Write → Station → Run ((Bool × List ℕ) × Station)
  unfolding listen beacon_recalc said
  turn repel rounds now script s = listen rounds s >>= λ heard.
      let (table, seed) = beacon_recalc repel rand now heard.table heard.seed in
      said heard.buffer table >>= λ (packet, n).
      send_packet symbol_start symbol_end symbol_sync bytes_to_symbols symbols_to_bytes symbol_valid
        packet n script
      >>= λ sent.
          ok (sent, record { table = table; buffer = packet; line = heard.line; seed = seed })
