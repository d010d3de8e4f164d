-- ===== src/Programs/Exclusive.antt =====
-- radio/serial/tvirtloc.c: the two threads never use the port or the table at once, and never wait for
-- each other.
use old_radio.Base.{ℕ, ◌≡◌, refl, sym, List, Option, none, some, Bool, true, false, ◌&&◌}
use old_radio.Loc.{Rand}
use old_radio.Beacon.{Neighbour}
use old_radio.Programs.Threads.{
  Thread, writer_thread, reader_thread, Writer, starts, prepares, seals, sends, Reader, waits,
  found, receives, accepted, merges, holds_off, World, at_start, Step, locks_table, prepares_beacon,
  locks_port, sent, finds, takes_port, accepts_packet, refuses_packet, takes_table, merged,
  hears_more, lets_go, Reached, begins, continues,
}

unfoldable pub writer_has_port : Writer → Bool
writer_has_port starts = false
writer_has_port prepares = false
writer_has_port (seals n) = false
writer_has_port (sends n) = true

unfoldable pub writer_has_table : Writer → Bool
writer_has_table starts = false
writer_has_table prepares = true
writer_has_table (seals n) = false
writer_has_table (sends n) = false

unfoldable pub reader_has_port : Reader → Bool
reader_has_port waits = false
reader_has_port found = false
reader_has_port receives = true
reader_has_port (accepted n) = true
reader_has_port (merges n) = true
reader_has_port holds_off = true

unfoldable pub reader_has_table : Reader → Bool
reader_has_table waits = false
reader_has_table found = false
reader_has_table receives = false
reader_has_table (accepted n) = false
reader_has_table (merges n) = true
reader_has_table holds_off = false

abbrev locked : Option Thread → Bool
locked none = false
locked (some t) = true

-- A thread that is about to lock a mutex that is locked: by the mutexes of the port and of the table.
unfoldable pub writer_blocked : Writer → Option Thread → Option Thread → Bool
writer_blocked starts port beacons = locked beacons
writer_blocked prepares port beacons = false
writer_blocked (seals n) port beacons = locked port
writer_blocked (sends n) port beacons = false

unfoldable pub reader_blocked : Reader → Option Thread → Option Thread → Bool
reader_blocked waits port beacons = false
reader_blocked found port beacons = locked port
reader_blocked receives port beacons = false
reader_blocked (accepted n) port beacons = locked beacons
reader_blocked (merges n) port beacons = false
reader_blocked holds_off port beacons = false

-- Who has a mutex is who the mutex says.
abbrev Held : Option Thread → Bool → Bool → Type 0
Held none w r = (w ≡ false) × (r ≡ false)
Held (some writer_thread) w r = (w ≡ true) × (r ≡ false)
Held (some reader_thread) w r = (w ≡ false) × (r ≡ true)

record Inv (w : World) : Type 0 where
  port : Held w.port (writer_has_port w.writer) (reader_has_port w.reader)
  table : Held w.beacons (writer_has_table w.writer) (reader_has_table w.reader)

Held-exclusive : (l : Option Thread) (w r : Bool) → Held l w r → w && r ≡ false
Held-exclusive none w r h = rw (h.0) refl
Held-exclusive (some writer_thread) w r h = rw (h.0, h.1) refl
Held-exclusive (some reader_thread) w r h = rw (h.0) refl

Held-free : (l : Option Thread) → Held l false false → locked l ≡ false
Held-free none h = refl
Held-free (some writer_thread) h = cc (sym h.0)
Held-free (some reader_thread) h = cc (sym h.1)

-- While a thread has a mutex, the other has not.
Held-writer : (l : Option Thread) (r : Bool) → Held l true r → r ≡ false
Held-writer none r h = h.1
Held-writer (some writer_thread) r h = h.1
Held-writer (some reader_thread) r h = cc h.0

Held-reader : (l : Option Thread) (w : Bool) → Held l w true → w ≡ false
Held-reader none w h = h.0
Held-reader (some writer_thread) w h = cc h.1
Held-reader (some reader_thread) w h = h.0

and_false : (a : Bool) → a && false ≡ false
and_false true = refl
and_false false = refl

free_and : (a b : Bool) → a ≡ false → a && b ≡ false
free_and a b h = rw h refl

and_free : (a b : Bool) → b ≡ false → a && b ≡ false
and_free a b h = rw h (and_false a)

not_both :
    (writer : Writer) (reader : Reader) (port beacons : Option Thread)
    → Held port (writer_has_port writer) (reader_has_port reader)
    → Held beacons (writer_has_table writer) (reader_has_table reader)
    → writer_blocked writer port beacons && reader_blocked reader port beacons ≡ false
unfolding writer_blocked reader_blocked writer_has_port writer_has_table reader_has_port
    reader_has_table
not_both prepares reader port beacons h k = refl
not_both (sends n) reader port beacons h k = refl
not_both starts waits port beacons h k = and_false _
not_both starts found port beacons h k = free_and _ _ (Held-free beacons k)
not_both starts receives port beacons h k = and_false _
not_both starts (accepted n) port beacons h k = free_and _ _ (Held-free beacons k)
not_both starts (merges n) port beacons h k = and_false _
not_both starts holds_off port beacons h k = and_false _
not_both (seals m) waits port beacons h k = and_false _
not_both (seals m) found port beacons h k = free_and _ _ (Held-free port h)
not_both (seals m) receives port beacons h k = and_false _
not_both (seals m) (accepted n) port beacons h k = and_free _ _ (Held-free beacons k)
not_both (seals m) (merges n) port beacons h k = and_false _
not_both (seals m) holds_off port beacons h k = and_false _

start-Inv :
    (out into : List ℕ) (table : List Neighbour) (seed : ℕ) → Inv (at_start out into table seed)
unfolding writer_has_port writer_has_table reader_has_port reader_has_table
start-Inv out into table seed = record { port = (refl, refl); table = (refl, refl) }

module _ (identifier : ℕ) (rand : Rand) (repel : ℕ → ℕ → ℕ) where
  Step-Inv : (w w' : World) → Step identifier rand repel w w' → Inv w → Inv w'
  unfolding writer_has_port writer_has_table reader_has_port reader_has_table
  Step-Inv w w' (locks_table at free) i =
      let port = rw at at i.port in
      let table = rw (at, free) at i.table in record { port = port; table = (refl, table.1) }
  Step-Inv w w' (prepares_beacon now n out at e) i =
      let port = rw at at i.port in
      let table = rw at at i.table in
      record { port = port; table = (refl, Held-writer w.beacons _ table) }
  Step-Inv w w' (locks_port n out at e free) i =
      let port = rw (at, free) at i.port in
      let table = rw at at i.table in record { port = (refl, port.1); table = table }
  Step-Inv w w' (sent n at) i =
      let port = rw at at i.port in
      let table = rw at at i.table in
      record { port = (refl, Held-writer w.port _ port); table = table }
  Step-Inv w w' (finds at) i =
      let port = rw at at i.port in
      let table = rw at at i.table in record { port = port; table = table }
  Step-Inv w w' (takes_port at free) i =
      let port = rw (at, free) at i.port in
      let table = rw at at i.table in record { port = (port.0, refl); table = table }
  Step-Inv w w' (accepts_packet n into at size e) i =
      let port = rw at at i.port in
      let table = rw at at i.table in record { port = port; table = table }
  Step-Inv w w' (refuses_packet n into at size e) i =
      let port = rw at at i.port in
      let table = rw at at i.table in record { port = port; table = table }
  Step-Inv w w' (takes_table n at free) i =
      let port = rw at at i.port in
      let table = rw (at, free) at i.table in record { port = port; table = (table.0, refl) }
  Step-Inv w w' (merged n stamp table at e) i =
      let port = rw at at i.port in
      let table = rw at at i.table in
      record { port = port; table = (Held-reader w.beacons _ table, refl) }
  Step-Inv w w' (hears_more at) i =
      let port = rw at at i.port in
      let table = rw at at i.table in record { port = port; table = table }
  Step-Inv w w' (lets_go at) i =
      let port = rw at at i.port in
      let table = rw at at i.table in
      record { port = (Held-reader w.port _ port, refl); table = table }

  Reached-Inv : (w w' : World) → Reached identifier rand repel w w' → Inv w → Inv w'
  Reached-Inv w w' begins i = i
  Reached-Inv w w' (continues v v' before step) i = Step-Inv v w' step (Reached-Inv w v before i)

  -- In whatever order the threads run: they never have the port at once, they never have the table at
  -- once, and they never both wait for a mutex that is locked, so that there is no deadlock.
  pub Reached-exclusive :
      (out into : List ℕ) (table : List Neighbour) (seed : ℕ) (w : World)
      → Reached identifier rand repel (at_start out into table seed) w
      → (writer_has_port w.writer && reader_has_port w.reader ≡ false)
        × (writer_has_table w.writer && reader_has_table w.reader ≡ false)
        × (writer_blocked w.writer w.port w.beacons && reader_blocked w.reader w.port w.beacons
            ≡ false)
  Reached-exclusive out into table seed w reached =
      let i =
        Reached-Inv (at_start out into table seed) w reached (start-Inv out into table seed) in
      (
        Held-exclusive w.port _ _ i.port,
        Held-exclusive w.beacons _ _ i.table,
        not_both w.writer w.reader w.port w.beacons i.port i.table,
      )
