-- ===== src/Event/Tests.antt =====
-- Runs of the queue on concrete events.
use old_radio.Base.{ℕ, ◌+◌, ◌-◌, ◌/◌, ◌<◌, ◌≤◌, ◌≡◌, none, some, List, [], ◌∷◌, Perm, arith}
use old_radio.Base.Run.{ok}
use old_radio.Event.{
  Event, queue_event_null, Queue, nevents, queue_new, queue_insert, queue_top, queue_pop,
}
use old_radio.Event.Slots.{key}
use old_radio.Event.Ops.{IsQueue, queue_new-IsQueue, queue_insert-IsQueue}
use old_radio.Event.Pop.{queue_pop-IsQueue}
use old_radio.Event.Drain.{insert_all, pop_all, InOrder, pop_all-insert_all}

abbrev at_time : ℕ → Event
at_time t = record { vtime = t; node = some 1; packet = none; extra = none }

abbrev test_events : List Event
test_events = at_time 7 ∷ at_time 3 ∷ at_time 9 ∷ at_time 1 ∷ []

pop_all-insert_all_example :
    (q : Queue) × (out : List Event) × (insert_all test_events queue_new ≡ ok q)
    × (pop_all 4 q ≡ ok out)
    × Perm out test_events
    × InOrder out
pop_all-insert_all_example = pop_all-insert_all test_events (omega arith)

queue_insert-IsQueue_example :
    (q' : Queue) × (queue_insert queue_new (at_time 5) ≡ ok q')
    × IsQueue q'
    × Perm q'.events (at_time 5 ∷ queue_new.events)
unfolding queue_new
queue_insert-IsQueue_example =
    queue_insert-IsQueue queue_new (at_time 5) queue_new-IsQueue (omega arith)

abbrev two_events : Queue
two_events = record { size = 1024; events = at_time 2 ∷ at_time 8 ∷ [] }

two_events-heap :
    (c : ℕ) → 0 < c → c < 2 → key two_events.events ((c + 1) / 2 - 1) ≤ key two_events.events c
two_events-heap c pos_c in_c = let e : c ≡ 1 = omega arith in rw e (omega arith)

two_events-IsQueue : IsQueue two_events
two_events-IsQueue = record {
  heap = two_events-heap;
  fits = omega arith;
  some_room = omega arith;
  bounded = omega arith;
}

queue_pop-IsQueue_example :
    (nevents two_events ≡ 0 → queue_pop two_events ≡ ok (queue_event_null, two_events))
    × (0 < nevents two_events
        → ((c : ℕ)
            → c < nevents two_events
            → (queue_top two_events).vtime ≤ key two_events.events c)
          × (q' : Queue) × (queue_pop two_events ≡ ok (queue_top two_events, q'))
          × IsQueue q'
          × Perm (queue_top two_events ∷ q'.events) two_events.events)
queue_pop-IsQueue_example = queue_pop-IsQueue two_events two_events-IsQueue
