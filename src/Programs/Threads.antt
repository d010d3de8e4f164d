-- ===== src/Programs/Threads.antt =====
-- radio/serial/tvirtloc.c: the node as two threads, a reader and a writer, with a mutex for the port and one
-- for the table of neighbours, as steps in any order. A step is what a thread does between two calls of
-- pthread_mutex_lock or unlock. What the radio brings, and the clocks, may be anything.
use old_radio.Base.{
  ℕ, ◌+◌, ◌-◌, ◌≡◌, List, ◌∷◌, ◌++◌, Option, none, some, Bool, true, false, ◌==◌, length, take,
  drop, leb, if◌then◌else◌,
}
use old_radio.Base.Run.{Run, ok, ◌>>=◌, ◌>>◌, within, load}
use old_radio.Loc.{Rand}
use old_radio.Checksum.{crc16_set, crc16_check}
use old_radio.Beacon.{Neighbour}
use old_radio.Beacon.Recalc.{beacon_recalc}
use old_radio.Beacon.Wire.{recv_wire, prepare_wire}
use old_radio.Programs.{buffer_size}

pub data Thread : Type 0 where
  writer_thread : Thread
  reader_thread : Thread

-- Where the writer is: before it locks the table, while it has it, with `n` bytes of beacons before it
-- locks the port, and while it has the port.
pub data Writer : Type 0 where
  starts : Writer
  prepares : Writer
  seals : (n : ℕ) → Writer
  sends : (n : ℕ) → Writer

-- Where the reader is: in wait_packet, before it locks the port, with the port, with an accepted packet
-- before it locks the table, while it has the table, and in the wait_packet behind a packet.
pub data Reader : Type 0 where
  waits : Reader
  found : Reader
  receives : Reader
  accepted : (n : ℕ) → Reader
  merges : (n : ℕ) → Reader
  holds_off : Reader

-- `out` and `into` are the two buffers, `port` and `beacons` who has collision_mutex and beacon_mutex.
pub record World : Type 0 where
  pub writer : Writer
  pub reader : Reader
  pub port : Option Thread
  pub beacons : Option Thread
  pub out : List ℕ
  pub into : List ℕ
  pub table : List Neighbour
  pub seed : ℕ

-- `crc16_check(buffer, n) && buffer[0] == 0x01`
unfoldable pub accepts : List ℕ → ℕ → Run Bool
accepts buffer n = crc16_check buffer n >>= λ good.
    if good then (load buffer 0 >>= λ kind. ok (kind == 1)) else ok false

-- The buffer with what beacon_prepare writes behind its first byte, and how much that is.
unfoldable pub prepared : List ℕ → List Neighbour → Run (List ℕ × ℕ)
prepared buffer table = prepare_wire (buffer_size - 1) table >>= λ beacon.
    within (leb (length beacon + 1) buffer_size)
    >> ok (take 1 buffer ++ (beacon ++ drop (length beacon + 1) buffer), length beacon)

-- At the start the writer's buffer begins with the kind of a beacon, the table is beacon_init's.
abbrev pub at_start : List ℕ → List ℕ → List Neighbour → ℕ → World
at_start out into table seed = record {
  writer = starts;
  reader = waits;
  port = none;
  beacons = none;
  out = 1 ∷ out;
  into = into;
  table = table;
  seed = seed;
}

module _ (identifier : ℕ) (rand : Rand) (repel : ℕ → ℕ → ℕ) where
  -- Behind each packet the reader asks rand() for the time to hold off.
  pub data Step (w : World) : World → Type 0 where
    locks_table :
        w.writer ≡ starts
        → w.beacons ≡ none
        → Step w (record w { writer = prepares; beacons = some writer_thread })
    prepares_beacon :
        (now n : ℕ) (out : List ℕ)
        → w.writer ≡ prepares
        → prepared w.out (beacon_recalc repel rand now w.table w.seed).0 ≡ ok (out, n)
        → Step w (record {
          writer = seals n;
          reader = w.reader;
          port = w.port;
          beacons = none;
          out = out;
          into = w.into;
          table = (beacon_recalc repel rand now w.table w.seed).0;
          seed = (beacon_recalc repel rand now w.table w.seed).1;
        })
    locks_port :
        (n : ℕ) (out : List ℕ)
        → w.writer ≡ seals n
        → crc16_set w.out (n + 3) ≡ ok out
        → w.port ≡ none
        → Step w (record w { writer = sends n; out = out; port = some writer_thread })
    sent : (n : ℕ) → w.writer ≡ sends n → Step w (record w { writer = starts; port = none })
    finds : w.reader ≡ waits → Step w (record w { reader = found })
    takes_port :
        w.reader ≡ found
        → w.port ≡ none
        → Step w (record w { reader = receives; port = some reader_thread })
    accepts_packet :
        (n : ℕ) (into : List ℕ)
        → w.reader ≡ receives
        → length into ≡ buffer_size
        → accepts into n ≡ ok true
        → Step w (record w { reader = accepted n; into = into })
    refuses_packet :
        (n : ℕ) (into : List ℕ)
        → w.reader ≡ receives
        → length into ≡ buffer_size
        → accepts into n ≡ ok false
        → Step w (record w { reader = holds_off; into = into })
    takes_table :
        (n : ℕ)
        → w.reader ≡ accepted n
        → w.beacons ≡ none
        → Step w (record w { reader = merges n; beacons = some reader_thread })
    merged :
        (n stamp : ℕ) (table : List Neighbour)
        → w.reader ≡ merges n
        → recv_wire identifier stamp (drop 1 w.into) (n - 3) w.table ≡ ok table
        → Step w (record w { reader = holds_off; beacons = none; table = table })
    hears_more :
        w.reader ≡ holds_off → Step w (record w { reader = receives; seed = (rand w.seed).1 })
    lets_go :
        w.reader ≡ holds_off
        → Step w (record w { reader = waits; port = none; seed = (rand w.seed).1 })

  pub data Reached (w : World) : World → Type 0 where
    begins : Reached w w
    continues : (v v' : World) → Reached w v → Step v v' → Reached w v'
