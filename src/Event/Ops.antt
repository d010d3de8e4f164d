-- ===== src/Event/Ops.antt =====
-- radio2/src/queue.c: what a queue holds, and the operations that add to it.
use mathlib.Core.Path.{subst}
use mathlib.Core.List.Perm.{cons, swap, trans, cons_inv}
use old_radio.Base.{
  ℕ, ◌+◌, ◌*◌, ◌/◌, ◌<◌, ◌≤◌, ◌≡◌, sym, ap, ◌∙◌, inl, inr, true, false, ◌&&◌, List, [], ◌∷◌, ◌++◌,
  Perm, ltb, lt→ltb, ◌==◌, length, set, length-append, arith, ℕ_discrete, Bool-cases,
}
use old_radio.Base.Run.{ok}
use old_radio.Event.{
  Event, queue_event_null, Queue, queue_heap_size_min, queue_heap_size_max, heap_parent, nevents,
  queue_resize, queue_new, queue_insert,
}
use old_radio.Event.Slots.{
  slot, key, slot-set_other, slot-append, slot-append_last, perm-append_one,
}
use old_radio.Event.Order.{IsOrdered, IsHeap, Rising}
use old_radio.Event.Up.{insert_loop-Inserted}

pub record IsQueue (q : Queue) : Type 0 where
  pub heap : IsHeap q.events
  pub fits : nevents q ≤ q.size
  pub some_room : 0 < q.size
  pub bounded : q.size ≤ queue_heap_size_max

pub queue_new-IsQueue : IsQueue queue_new
unfolding queue_new
queue_new-IsQueue = record {
  heap = λ c pos_c in_c. absurd (omega arith);
  fits = omega arith;
  some_room = omega arith;
  bounded = omega arith;
}

-- Resizing leaves room behind the events, below the largest size.
pub queue_resize-room :
    (q : Queue)
    → IsQueue q
    → nevents q < queue_heap_size_max
    → (n : ℕ) × (queue_resize q ≡ ok (record q { size = n }))
      × (nevents q < n)
      × (n ≤ queue_heap_size_max)
unfolding queue_resize
queue_resize-room q valid low = elim (ℕ_discrete (nevents q) q.size) [
  | yes full ↦
      let test : (nevents q == q.size) ≡ true = ground arith in
      let grows : ltb q.size queue_heap_size_max ≡ true = ground arith in
      elim (Bool-cases (ltb queue_heap_size_max (q.size * 2))) [
        | inl cut ↦ (queue_heap_size_max, rw (queue_resize, test, grows, cut), low, omega arith)
        | inr double ↦ (
          q.size * 2,
          rw (queue_resize, test, grows, double),
          omega (arith, full, valid.some_room),
          ground (arith, double),
        )
      ]
  | no spare ↦
      let test : (nevents q == q.size) ≡ false = ground arith in
      elim (Bool-cases (ltb (nevents q) (q.size / 5) && ltb queue_heap_size_min q.size)) [
        | inl shrinks ↦
            let small : nevents q < q.size / 5 = ground (arith, shrinks) in
            (
              q.size / 2,
              rw (queue_resize, test, shrinks),
              omega (arith, small),
              omega (arith, valid.bounded),
            )
        | inr stays ↦ (
          q.size,
          rw (queue_resize, test, stays),
          omega (arith, spare, valid.fits),
          valid.bounded,
        )
      ]
]

-- The array as queue_insert finds it, with the new slot behind.
appended-Rising :
    (a : List Event) (event : Event)
    → IsHeap a
    → Rising
        (key (set (a ++ queue_event_null ∷ []) (length a) event))
        (length (a ++ queue_event_null ∷ []))
        (length a)
appended-Rising a event h =
    let size = length-append a (queue_event_null ∷ []) in
    let vt : Event → ℕ = λ e. e.vtime in
    let same : (j : ℕ)
        → j < length a
        → key (set (a ++ queue_event_null ∷ []) (length a) event) j ≡ key a j =
      λ j in_j. ap vt (
        slot-set_other (a ++ queue_event_null ∷ []) (length a) j event (λ e. absurd (omega arith))
        ∙ slot-append a (queue_event_null ∷ []) j in_j) in
    record {
      edge = λ c pos_c in_c ne.
          let held : c < length a = omega (arith, size) in
          omega (arith, same c held, same (heap_parent c) (omega arith), h c pos_c held);
      bridge = λ c in_c pos_i pos_c e. absurd (omega (arith, size));
    }

-- On a well-formed queue below its largest size, queue_insert returns a well-formed queue that holds the
-- event and what the queue held.
pub queue_insert-IsQueue :
    (q : Queue) (event : Event)
    → IsQueue q
    → nevents q < queue_heap_size_max
    → (q' : Queue) × (queue_insert q event ≡ ok q') × IsQueue q' × Perm q'.events (event ∷ q.events)
unfolding queue_insert
queue_insert-IsQueue q event valid low =
    let (n, resized, room, high) = queue_resize-room q valid low in
    let a = q.events ++ queue_event_null ∷ [] in
    let size = length-append q.events (queue_event_null ∷ []) in
    let test = lt→ltb (nevents q) n room in
    let r =
      insert_loop-Inserted (nevents q + 1) a (nevents q) event (omega arith) (omega (arith, size))
        (appended-Rising q.events event valid.heap) in
    let null : slot a (nevents q) ≡ queue_event_null = slot-append_last q.events queue_event_null in
    let last : Perm a (queue_event_null ∷ q.events) = perm-append_one q.events queue_event_null in
    let moved : Perm (queue_event_null ∷ r.out) (event ∷ a) =
      subst (λ (e : Event). Perm (e ∷ r.out) (event ∷ a)) null r.entries in
    (
      record { size = n; events = r.out },
      rw (queue_insert, resized, test, r.returns),
      record {
        heap = subst (IsOrdered (key r.out)) (sym r.size) r.heap;
        fits = omega (arith, r.size, size);
        some_room = omega arith;
        bounded = high;
      },
      cons_inv (trans moved (trans (cons event last) (swap queue_event_null event q.events))),
    )
