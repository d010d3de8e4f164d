-- ===== src/Event/Drain.antt =====
-- radio2/src/queue.c: a run of insertions and then of pops, and a queue that is full.
use mathlib.Core.Path.{subst}
use mathlib.Core.List.Perm.{rfl, cons, swap, trans, append_left, foldr-eq}
use mathlib.Core.List.{foldr}
use mathlib.Core.Bool.{Bool-set}
use old_radio.Base.{
  ℕ, zero, suc, ◌+◌, ◌<◌, ◌≤◌, ◌≡◌, refl, ap, ◌∙◌, Bool, true, false, ◌&&◌, List, [], ◌∷◌, ◌++◌,
  Perm, leb, ◌==◌, ltb, length, length-perm, All, arith,
}
use old_radio.Base.Run.{Run, ok, abort, ◌>>=◌}
use old_radio.Event.{
  Event, Queue, queue_heap_size_max, nevents, queue_resize, queue_new, queue_insert, queue_top,
  queue_pop,
}
use old_radio.Event.Slots.{key}
use old_radio.Event.Ops.{IsQueue, queue_new-IsQueue, queue_insert-IsQueue}
use old_radio.Event.Pop.{queue_pop-IsQueue}

-- The events in the order of the calls.
unfoldable pub insert_all : List Event → Queue → Run Queue
insert_all [] q = ok q
insert_all (e ∷ es) q = queue_insert q e >>= insert_all es

unfoldable pub pop_all : ℕ → Queue → Run (List Event)
pop_all zero q = ok []
pop_all (suc n) q = queue_pop q >>= λ r. pop_all n r.1 >>= λ es. ok (r.0 ∷ es)

abbrev pub InOrder : List Event → Type 0
InOrder [] = Unit
InOrder (e ∷ es) = All (λ (later : Event). e.vtime ≤ later.vtime) es × InOrder es

-- Whether no event is before a time: a fold, which no permutation changes.
abbrev not_before : ℕ → Event → Bool → Bool
not_before t e b = leb t e.vtime && b

abbrev none_before : ℕ → List Event → Bool
none_before t es = foldr (not_before t) true es

and-swap : (a b c : Bool) → (a && (b && c)) ≡ (b && (a && c))
and-swap true true c = refl
and-swap true false c = refl
and-swap false true c = refl
and-swap false false c = refl

none_before-perm : (t : ℕ) (xs ys : List Event) → Perm xs ys → none_before t xs ≡ none_before t ys
none_before-perm t xs ys p =
    foldr-eq Bool-set (not_before t) (λ a b c. and-swap (leb t a.vtime) (leb t b.vtime) c) p true

none_before-slots :
    (t : ℕ) (es : List Event) → ((c : ℕ) → c < length es → t ≤ key es c) → none_before t es ≡ true
none_before-slots t [] h = refl
none_before-slots t (e ∷ es) h =
    ground (arith, h 0 (omega arith), none_before-slots t es (λ c in_c. h (suc c) (omega arith)))

none_before-All :
    (t : ℕ) (es : List Event) → none_before t es ≡ true → All (λ (e : Event). t ≤ e.vtime) es
none_before-All t [] h = tt
none_before-All t (e ∷ es) h = (ground (arith, h), none_before-All t es (ground (arith, h)))

no_events : (es : List Event) → length es ≡ 0 → Perm [] es
no_events [] h = rfl
no_events (e ∷ es) h = absurd (omega arith)

pop_all-InOrder :
    (n : ℕ) (q : Queue)
    → IsQueue q
    → nevents q ≡ n
    → (out : List Event) × (pop_all n q ≡ ok out) × Perm out q.events × InOrder out
unfolding pop_all
pop_all-InOrder zero q valid count = ([], refl, no_events q.events count, tt)
pop_all-InOrder (suc n) q valid count =
    let (least, q', popped, kept, entries) = (queue_pop-IsQueue q valid).1 (omega arith) in
    let fewer : nevents q' ≡ n = omega (arith, count, length-perm entries) in
    let (out, rest, same, ordered) = pop_all-InOrder n q' kept fewer in
    let whole : Perm (queue_top q ∷ out) q.events = trans (cons (queue_top q) same) entries in
    let t = (queue_top q).vtime in
    let early : none_before t (queue_top q ∷ out) ≡ true =
      none_before-perm t (queue_top q ∷ out) q.events whole ∙ none_before-slots t q.events least in
    (
      queue_top q ∷ out,
      ap (λ (r : Run (Event × Queue)). r >>= λ p. pop_all n p.1 >>= λ es. ok (p.0 ∷ es)) popped
          ∙ ap (λ (r : Run (List Event)). r >>= λ es. ok (queue_top q ∷ es)) rest,
      whole,
      ((none_before-All t (queue_top q ∷ out) early).1, ordered),
    )

perm-behind : (e : Event) (es rest : List Event) → Perm (es ++ e ∷ rest) (e ∷ (es ++ rest))
perm-behind e [] rest = rfl
perm-behind e (x ∷ es) rest = trans (cons x (perm-behind e es rest)) (swap e x (es ++ rest))

insert_all-IsQueue :
    (es : List Event) (q : Queue)
    → IsQueue q
    → nevents q + length es ≤ queue_heap_size_max
    → (q' : Queue) × (insert_all es q ≡ ok q') × IsQueue q' × Perm q'.events (es ++ q.events)
unfolding insert_all
insert_all-IsQueue [] q valid room = (q, refl, valid, rfl)
insert_all-IsQueue (e ∷ es) q valid room =
    let (next, inserted, kept, entries) = queue_insert-IsQueue q e valid (omega arith) in
    let (q', rest, last, all) =
      insert_all-IsQueue es next kept (omega (arith, length-perm entries)) in
    (
      q',
      ap (λ (r : Run Queue). r >>= insert_all es) inserted ∙ rest,
      last,
      trans all (trans (append_left es entries) (perm-behind e es q.events)),
    )

append-nil : (es : List Event) → es ++ [] ≡ es
append-nil [] = refl
append-nil (e ∷ es) = ap (◌∷◌ e) (append-nil es)

-- Up to 2^20 events, inserted in any order into a new queue, come out of as many pops in the order of
-- their times: none is lost, and none is doubled.
pub pop_all-insert_all :
    (events : List Event)
    → length events ≤ queue_heap_size_max
    → (q : Queue) × (out : List Event) × (insert_all events queue_new ≡ ok q)
      × (pop_all (length events) q ≡ ok out)
      × Perm out events
      × InOrder out
unfolding queue_new
pop_all-insert_all events room =
    let (q, inserted, valid, entries) =
      insert_all-IsQueue events queue_new queue_new-IsQueue (omega arith) in
    let held : Perm q.events events = subst (Perm q.events) (append-nil events) entries in
    let (out, popped, same, ordered) = pop_all-InOrder (length events) q valid (length-perm held) in
    (q, out, inserted, popped, trans same held, ordered)

-- A queue that holds its largest number of events aborts on another.
pub queue_insert-full :
    (q : Queue) (event : Event)
    → q.size ≡ queue_heap_size_max
    → nevents q ≡ q.size
    → queue_insert q event ≡ abort
unfolding queue_insert queue_resize
queue_insert-full q event largest full =
    let test : (nevents q == q.size) ≡ true = ground arith in
    let no_growth : ltb q.size queue_heap_size_max ≡ false = ground arith in
    rw (queue_insert, queue_resize, test, no_growth)
