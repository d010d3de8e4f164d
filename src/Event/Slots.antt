-- ===== src/Event/Slots.antt =====
-- radio2/src/queue.c: the slots of the array of events, and which entries it holds when they move.
use mathlib.Core.List.Perm.{rfl, cons, swap, trans, cons_inv}
use mathlib.Core.Path.{subst}
use old_radio.Base.{
  ℕ, zero, suc, ◌<◌, ◌≡◌, refl, ap, ◌≢◌, List, [], ◌∷◌, ◌++◌, Perm, length, set, take, get_or,
  length-set, get_elem?-eq-get_or, arith,
}
use old_radio.Base.Run.{ok, or_fault, load}
use old_radio.Event.{Event, queue_event_null}

abbrev pub slot : List Event → ℕ → Event
slot a i = get_or a i queue_event_null

abbrev pub key : List Event → ℕ → ℕ
key a i = (slot a i).vtime

pub load-slot : (a : List Event) (i : ℕ) → i < length a → load a i ≡ ok (slot a i)
load-slot a i h = ap or_fault (get_elem?-eq-get_or a i queue_event_null h)

pub slot-set_same : (a : List Event) (i : ℕ) (v : Event) → i < length a → slot (set a i v) i ≡ v
slot-set_same [] i v h = absurd (omega arith)
slot-set_same (x ∷ a) zero v h = refl
slot-set_same (x ∷ a) (suc i) v h = slot-set_same a i v (omega arith)

pub slot-set_other : (a : List Event) (i j : ℕ) (v : Event) → j ≢ i → slot (set a i v) j ≡ slot a j
slot-set_other [] i j v h = refl
slot-set_other (x ∷ a) zero zero v h = absurd (h refl)
slot-set_other (x ∷ a) zero (suc j) v h = refl
slot-set_other (x ∷ a) (suc i) zero v h = refl
slot-set_other (x ∷ a) (suc i) (suc j) v h = slot-set_other a i j v (λ e. h (ap suc e))

pub slot-append : (a b : List Event) (i : ℕ) → i < length a → slot (a ++ b) i ≡ slot a i
slot-append [] b i h = absurd (omega arith)
slot-append (x ∷ a) b zero h = refl
slot-append (x ∷ a) b (suc i) h = slot-append a b i (omega arith)

pub slot-append_last : (a : List Event) (v : Event) → slot (a ++ v ∷ []) (length a) ≡ v
slot-append_last [] v = refl
slot-append_last (x ∷ a) v = slot-append_last a v

pub slot-take : (n : ℕ) (a : List Event) (i : ℕ) → i < n → slot (take n a) i ≡ slot a i
slot-take zero a i h = absurd (omega arith)
slot-take (suc n) [] i h = refl
slot-take (suc n) (x ∷ a) zero h = refl
slot-take (suc n) (x ∷ a) (suc i) h = slot-take n a i (omega arith)

-- What a write puts in and what it takes out.
pub perm-set :
    (a : List Event) (i : ℕ) (v : Event) → i < length a → Perm (slot a i ∷ set a i v) (v ∷ a)
perm-set [] i v h = absurd (omega arith)
perm-set (x ∷ a) zero v h = swap v x a
perm-set (x ∷ a) (suc i) v h =
    trans (swap x (slot a i) (set a i v))
      (trans (cons x (perm-set a i v (omega arith))) (swap v x a))

-- An exchange of two entries.
pub perm-exchange :
    (a : List Event) (i x : ℕ)
    → i < length a
    → x < length a
    → i ≢ x
    → Perm (set (set a x (slot a i)) i (slot a x)) a
perm-exchange a i x hi hx ne =
    let b = set a x (slot a i) in
    let first : Perm (slot a x ∷ b) (slot a i ∷ a) = perm-set a x (slot a i) hx in
    let second : Perm (slot b i ∷ set b i (slot a x)) (slot a x ∷ b) =
      perm-set b i (slot a x) (omega (arith, length-set a x (slot a i))) in
    let same : slot b i ≡ slot a i = slot-set_other a x i (slot a i) ne in
    cons_inv (
      subst (λ (e : Event). Perm (e ∷ set b i (slot a x)) (slot a i ∷ a)) same (trans second first))

-- The last entry, and those before it.
pub perm-last : (n : ℕ) (a : List Event) → length a ≡ suc n → Perm (slot a n ∷ take n a) a
perm-last n [] h = absurd (omega arith)
perm-last zero (x ∷ []) h = rfl
perm-last zero (x ∷ y ∷ a) h = absurd (omega arith)
perm-last (suc n) (x ∷ a) h =
    trans (swap x (slot a n) (take n a)) (cons x (perm-last n a (omega arith)))

pub perm-append_one : (a : List Event) (v : Event) → Perm (a ++ v ∷ []) (v ∷ a)
perm-append_one [] v = rfl
perm-append_one (x ∷ a) v = trans (cons x (perm-append_one a v)) (swap v x a)
