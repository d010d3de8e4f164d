-- ===== src/Event.antt =====
-- radio2/src/queue.c and queue.h: the simulator's queue of events, a binary heap in an array that is
-- resized. `events` is the array up to `nevents`: what lies behind is never read, and what a slot holds
-- before it is written is `queue_event_null`. Growing by `realloc` keeps the entries, and is taken to
-- succeed. Events are ordered by their time.
pub mod Slots
pub mod Order
pub mod Sift
pub mod Up
pub mod Down
pub mod Ops
pub mod Pop
pub mod Drain
mod Tests
use old_radio.Base.{
  ℕ, zero, suc, ◌+◌, ◌-◌, ◌*◌, ◌/◌, ◌^◌, List, [], ◌∷◌, ◌++◌, Option, none, ◌&&◌, ltb, ◌==◌,
  if◌then◌else◌, length, set, take, get_or,
}
use old_radio.Base.Run.{Run, ok, out_of_fuel, ◌>>=◌, ◌>>◌, assert, within, load}

abbrev pub vtime_inf : ℕ
vtime_inf = 2 ^ 64 - 1

-- `node`, `packet` and `extra` are pointers, which the queue only carries.
pub record Event : Type 0 where
  pub vtime : ℕ
  pub node : Option ℕ
  pub packet : Option ℕ
  pub extra : Option ℕ

abbrev pub queue_event_null : Event
queue_event_null = record { vtime = vtime_inf; node = none; packet = none; extra = none }

pub record Queue : Type 0 where
  pub size : ℕ
  pub events : List Event

abbrev pub queue_heap_size_min : ℕ
queue_heap_size_min = 1024

abbrev pub queue_heap_size_max : ℕ
queue_heap_size_max = 1024 * 1024

abbrev pub heap_parent : ℕ → ℕ
heap_parent x = (x + 1) / 2 - 1

abbrev pub heap_left : ℕ → ℕ
heap_left x = (x + 1) * 2 - 1

abbrev pub heap_right : ℕ → ℕ
heap_right x = (x + 1) * 2

abbrev pub nevents : Queue → ℕ
nevents q = length q.events

-- `_queue_resize`
unfoldable pub queue_resize : Queue → Run Queue
queue_resize q =
    let doubled =
      if ltb queue_heap_size_max (q.size * 2) then queue_heap_size_max else q.size * 2 in
    let grow = assert (ltb q.size queue_heap_size_max) >> ok (record q { size = doubled }) in
    if nevents q == q.size
    then grow
    else if ltb (nevents q) (q.size / 5) && ltb queue_heap_size_min q.size
    then ok (record q { size = q.size / 2 })
    else ok q

-- The earlier of the entries at `x` and at its child `c`, if there is such a child.
unfoldable pub earlier : List Event → ℕ → ℕ → Run ℕ
earlier a c x =
    let compared : Run ℕ = do
      child ← load a c
      other ← load a x
      ok (if ltb child.vtime other.vtime then c else x)
    in if ltb c (length a) then compared else ok x

-- The loop of `_queue_heapify`, on fuel; it starts at 0.
unfoldable pub heapify_loop : ℕ → List Event → ℕ → Run (List Event)
unfolding earlier
heapify_loop zero a i = out_of_fuel
heapify_loop (suc fuel) a i = do
  m ← earlier a (heap_left i) i
  x ← earlier a (heap_right i) m
  let sink : Run (List Event) = do
    assert (ltb x (length a))
    temp ← load a x
    other ← load a i
    heapify_loop fuel (set (set a x other) i temp) x
  if x == i then ok a else sink

unfoldable pub queue_heapify : List Event → Run (List Event)
unfolding heapify_loop
queue_heapify a = heapify_loop (length a + 1) a 0

unfoldable pub queue_new : Queue
queue_new = record { size = queue_heap_size_min; events = [] }

-- The loop of queue_insert: entries move down to `i` until the event fits there.
unfoldable pub insert_loop : ℕ → List Event → ℕ → Event → Run (List Event)
insert_loop zero a i event = out_of_fuel
insert_loop (suc fuel) a i event =
    let climb : Run (List Event) = do
      above ← load a (heap_parent i)
      let higher = insert_loop fuel (set a i above) (heap_parent i) event
      if ltb event.vtime above.vtime then higher else ok (set a i event)
    in if i == 0 then ok (set a i event) else climb

-- The slot at `nevents` has to lie within the array.
unfoldable pub queue_insert : Queue → Event → Run Queue
unfolding queue_resize insert_loop
queue_insert q event = do
  r ← queue_resize q
  let i = nevents r
  within (ltb i r.size)
  a ← insert_loop (i + 1) (r.events ++ queue_event_null ∷ []) i event
  ok (record r { events = a })

unfoldable pub queue_top : Queue → Event
queue_top q = if nevents q == 0 then queue_event_null else get_or q.events 0 queue_event_null

unfoldable pub queue_pop : Queue → Run (Event × Queue)
unfolding queue_heapify queue_resize
queue_pop q =
    let popped : Run (Event × Queue) = do
      e ← load q.events 0
      last ← load q.events (nevents q - 1)
      a ← queue_heapify (take (nevents q - 1) (set q.events 0 last))
      r ← queue_resize (record q { events = a })
      ok (e, r)
    in if nevents q == 0 then ok (queue_event_null, q) else popped
