-- ===== src/Event/Up.antt =====
-- radio2/src/queue.c: the loop of queue_insert, which brings an event up to its place.
use mathlib.Core.Path.{subst}
use mathlib.Core.List.Perm.{cons, swap, trans, cons_inv}
use old_radio.Base.{
  ℕ, zero, suc, ◌<◌, ◌≡◌, sym, ap, ◌∙◌, ◌≢◌, inl, inr, true, false, List, ◌∷◌, Perm, ltb, ltb→lt,
  ◌==◌, length, set, length-set, arith, ℕ_discrete, Bool-cases,
}
use old_radio.Base.Run.{ok}
use old_radio.Event.{Event, heap_parent, insert_loop}
use old_radio.Event.Slots.{slot, key, load-slot, slot-set_same, slot-set_other, perm-set}
use old_radio.Event.Order.{IsOrdered, Rising}
use old_radio.Event.Sift.{risen}

pub record Inserted (fuel : ℕ) (a : List Event) (i : ℕ) (event : Event) : Type 0 where
  pub out : List Event
  pub returns : insert_loop fuel a i event ≡ ok out
  pub heap : IsOrdered (key out) (length a)
  pub size : length out ≡ length a
  pub entries : Perm (slot a i ∷ out) (event ∷ a)

-- One step: `above`, the parent's entry, comes down to `i`.
module _ (a : List Event) (i : ℕ) (event : Event) (inside : i < length a) (child : 0 < i)
    (lower : event.vtime < key a (heap_parent i))
    (inv : Rising (key (set a i event)) (length a) i) where
  lowered : List Event
  lowered = set a i (slot a (heap_parent i))

  lowered-Rising : Rising (key (set lowered (heap_parent i) event)) (length lowered) (heap_parent i)
  unfolding lowered
  lowered-Rising =
      let above = slot a (heap_parent i) in
      let p_ne : heap_parent i ≢ i = λ e. absurd (omega arith) in
      let size = length-set a i above in
      let at_i =
        slot-set_other lowered (heap_parent i) i event (λ e. p_ne (sym e))
        ∙ slot-set_same a i above inside in
      let at_p = slot-set_same lowered (heap_parent i) event (omega (arith, size)) in
      let before = slot-set_other a i (heap_parent i) event p_ne in
      let vt : Event → ℕ = λ e. e.vtime in
      subst (λ (n : ℕ). Rising (key (set lowered (heap_parent i) event)) n (heap_parent i))
        (sym size)
        (risen (key (set a i event)) (key (set lowered (heap_parent i) event)) (length a) i inv
          inside child (ap vt (at_i ∙ sym before)) (omega (arith, ap vt at_p, ap vt before))
          (λ j ne np. ap vt (
            slot-set_other lowered (heap_parent i) j event np
            ∙ slot-set_other a i j above ne
            ∙ sym (slot-set_other a i j event ne))))

  lowered-entries :
      (out : List Event)
      → Perm (slot lowered (heap_parent i) ∷ out) (event ∷ lowered)
      → Perm (slot a i ∷ out) (event ∷ a)
  unfolding lowered
  lowered-entries out p =
      let above = slot a (heap_parent i) in
      let p_ne : heap_parent i ≢ i = λ e. absurd (omega arith) in
      let rest : Perm (above ∷ out) (event ∷ lowered) =
        subst (λ (e : Event). Perm (e ∷ out) (event ∷ lowered))
          (slot-set_other a i (heap_parent i) above p_ne) p in
      cons_inv (
        trans (swap (slot a i) above out) (
          trans (cons (slot a i) rest) (
            trans (swap event (slot a i) lowered)
              (trans (cons event (perm-set a i above inside)) (swap above event a)))))

pub insert_loop-Inserted :
    (fuel : ℕ) (a : List Event) (i : ℕ) (event : Event)
    → i < fuel
    → i < length a
    → Rising (key (set a i event)) (length a) i
    → Inserted fuel a i event
unfolding insert_loop lowered
insert_loop-Inserted zero a i event enough inside inv = absurd (omega arith)
insert_loop-Inserted (suc fuel) a i event enough inside inv = elim (ℕ_discrete i 0) [
  | yes top ↦
      let test : (i == 0) ≡ true = ground arith in
      record {
        out = set a i event;
        returns = rw (insert_loop, test);
        heap = λ c pos_c in_c. inv.edge c pos_c in_c (omega arith);
        size = length-set a i event;
        entries = perm-set a i event inside;
      }
  | no deep ↦
      let test : (i == 0) ≡ false = ground arith in
      let read = load-slot a (heap_parent i) (omega arith) in
      elim (Bool-cases (ltb event.vtime (key a (heap_parent i)))) [
        | inl less ↦
            let child : 0 < i = omega arith in
            let lower = ltb→lt event.vtime (key a (heap_parent i)) less in
            let next = lowered a i event inside child lower inv in
            let size = length-set a i (slot a (heap_parent i)) in
            let r =
              insert_loop-Inserted fuel next (heap_parent i) event (omega arith)
                (omega (arith, size)) (lowered-Rising a i event inside child lower inv) in
            record {
              out = r.out;
              returns = rw (insert_loop, test, read, less) r.returns;
              heap = subst (IsOrdered (key r.out)) size r.heap;
              size = r.size ∙ size;
              entries = lowered-entries a i event inside child lower inv r.out r.entries;
            }
        | inr more ↦
            let before = slot-set_other a i (heap_parent i) event (λ e. absurd (omega arith)) in
            let placed = slot-set_same a i event inside in
            let vt : Event → ℕ = λ e. e.vtime in
            record {
              out = set a i event;
              returns = rw (insert_loop, test, read, more);
              heap = λ c pos_c in_c. elim (ℕ_discrete c i) [
                | yes here ↦ rw here (ground (arith, more, ap vt before, ap vt placed))
                | no other ↦ inv.edge c pos_c in_c other
              ];
              size = length-set a i event;
              entries = perm-set a i event inside;
            }
      ]
]
