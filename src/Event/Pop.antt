-- ===== src/Event/Pop.antt =====
-- radio2/src/queue.c: queue_pop, and what it leaves of the heap.
use mathlib.Core.Path.{subst}
use mathlib.Core.List.Perm.{cons, swap, trans, cons_inv}
use old_radio.Base.{
  ℕ, suc, ◌-◌, ◌<◌, ◌≤◌, ◌≡◌, sym, ap, ◌∙◌, ◌≢◌, false, List, ◌∷◌, Perm, ◌==◌, length, set, take,
  length-set, length-take, arith, ℕ_discrete,
}
use old_radio.Base.Run.{Run, ok, ◌>>=◌}
use old_radio.Event.{
  Event, queue_event_null, Queue, heap_parent, nevents, queue_resize, queue_heapify, queue_top,
  queue_pop,
}
use old_radio.Event.Slots.{
  slot, key, load-slot, slot-set_same, slot-set_other, slot-take, perm-set, perm-last,
}
use old_radio.Event.Order.{IsOrdered, IsHeap, root-least, Sinking}
use old_radio.Event.Down.{heapify-Settled}
use old_radio.Event.Ops.{IsQueue, queue_resize-room}

-- The array after queue_pop has put its last event in place of the first.
module _ (a : List Event) (m : ℕ) (size : length a ≡ suc m) (h : IsHeap a) where
  topped : List Event
  topped = take m (set a 0 (slot a m))

  length-topped : length topped ≡ m
  unfolding topped
  length-topped = omega (arith, length-take m (set a 0 (slot a m)), length-set a 0 (slot a m))

  topped-entries : Perm (slot a 0 ∷ topped) a
  unfolding topped
  topped-entries =
      let b = set a 0 (slot a m) in
      let last : slot b m ≡ slot a m = elim (ℕ_discrete m 0) [
        | yes only ↦ rw only (slot-set_same a 0 (slot a 0) (omega arith))
        | no more ↦ slot-set_other a 0 m (slot a m) more
      ] in
      let whole : Perm (slot a m ∷ take m b) b =
        subst (λ (e : Event). Perm (e ∷ take m b) b) last
          (perm-last m b (omega (arith, length-set a 0 (slot a m)))) in
      cons_inv (
        trans (swap (slot a 0) (slot a m) (take m b))
          (trans (cons (slot a 0) whole) (perm-set a 0 (slot a m) (omega arith))))

  topped-Sinking : Sinking (key topped) (length topped) 0
  unfolding topped
  topped-Sinking =
      let vt : Event → ℕ = λ e. e.vtime in
      let same : (j : ℕ) → j < m → j ≢ 0 → key topped j ≡ key a j = λ j in_j ne.
        ap vt (slot-take m (set a 0 (slot a m)) j in_j ∙ slot-set_other a 0 j (slot a m) ne) in
      record {
        edge = λ c pos_c in_c ne.
            let held : c < m = omega (arith, length-topped) in
            omega (
              arith,
              same c held (omega arith),
              same (heap_parent c) (omega arith) ne,
              h c pos_c (omega arith),
            );
        bridge = λ c in_c pos_i pos_c e. absurd (omega arith);
      }

pop_some :
    (q : Queue) (m : ℕ)
    → IsQueue q
    → nevents q ≡ suc m
    → (q' : Queue) × (queue_pop q ≡ ok (slot q.events 0, q'))
      × IsQueue q'
      × Perm (slot q.events 0 ∷ q'.events) q.events
unfolding queue_pop queue_heapify topped
pop_some q m valid count =
    let a = q.events in
    let c = topped a m count valid.heap in
    let some_events : (nevents q == 0) ≡ false = ground arith in
    let index : nevents q - 1 ≡ m = omega arith in
    let r = heapify-Settled c (topped-Sinking a m count valid.heap) in
    let size = length-topped a m count valid.heap in
    let middle : Queue = record { size = q.size; events = r.out } in
    let valid_middle : IsQueue middle = record {
      heap = subst (IsOrdered (key r.out)) (sym r.size) r.heap;
      fits = omega (arith, r.size, size, valid.fits);
      some_room = valid.some_room;
      bounded = valid.bounded;
    } in
    let so_far : queue_pop q ≡ (queue_resize middle >>= λ (s : Queue). ok (slot a 0, s)) = rw (
      queue_pop,
      some_events,
      index,
      load-slot a 0 (omega arith),
      load-slot a m (omega arith),
      r.returns,
    ) in
    let (n, resized, room, high) =
      queue_resize-room middle valid_middle
        (omega (arith, r.size, size, valid.fits, valid.bounded)) in
    (
      record { size = n; events = r.out },
      so_far ∙ ap (λ (run : Run Queue). run >>= λ (s : Queue). ok (slot a 0, s)) resized,
      record {
        heap = valid_middle.heap;
        fits = omega (arith, room);
        some_room = omega arith;
        bounded = high;
      },
      trans (cons (slot a 0) r.entries) (topped-entries a m count valid.heap),
    )

-- On a well-formed queue, queue_pop returns the event that queue_top shows. Without events that is the
-- null event, and the queue stays. Otherwise no event of the queue is earlier, and a well-formed queue of
-- the other events is left.
pub queue_pop-IsQueue :
    (q : Queue)
    → IsQueue q
    → (nevents q ≡ 0 → queue_pop q ≡ ok (queue_event_null, q))
      × (0 < nevents q
          → ((c : ℕ) → c < nevents q → (queue_top q).vtime ≤ key q.events c)
            × (q' : Queue) × (queue_pop q ≡ ok (queue_top q, q'))
            × IsQueue q'
            × Perm (queue_top q ∷ q'.events) q.events)
unfolding queue_pop queue_top
queue_pop-IsQueue q valid = (
  λ none_left. rw (queue_pop, none_left),
  λ some_left.
      let count : nevents q ≡ suc (nevents q - 1) = omega arith in
      let some_events : (nevents q == 0) ≡ false = ground arith in
      let (q', popped, kept, entries) = pop_some q (nevents q - 1) valid count in
      let top : queue_top q ≡ slot q.events 0 = rw (queue_top, some_events) in
      (
        λ c in_c.
            subst (λ (e : Event). e.vtime ≤ key q.events c) (sym top)
              (root-least (key q.events) (nevents q) valid.heap c in_c),
        q',
        popped ∙ ap (λ (e : Event). ok (e, q')) (sym top),
        kept,
        subst (λ (e : Event). Perm (e ∷ q'.events) q.events) (sym top) entries,
      ),
)
