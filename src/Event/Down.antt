-- ===== src/Event/Down.antt =====
-- radio2/src/queue.c: the loop of _queue_heapify, which brings an entry down to its place.
use mathlib.Core.Path.{subst}
use mathlib.Core.List.Perm.{rfl, trans}
use old_radio.Base.{
  ℕ, zero, suc, ◌+◌, ◌<◌, ◌≤◌, ◌≡◌, refl, sym, ap, ◌∙◌, ◌≢◌, ◌⊎◌, inl, inr, true, false, List, [],
  ◌∷◌, Perm, ltb, ltb→lt, lt→ltb, ◌==◌, length, set, length-set, arith, ℕ_discrete, dec_lt,
  Bool-cases,
}
use old_radio.Base.Run.{ok}
use old_radio.Event.{Event, heap_parent, heap_left, heap_right, earlier, heapify_loop}
use old_radio.Event.Slots.{slot, key, load-slot, slot-set_same, slot-set_other, perm-exchange}
use old_radio.Event.Order.{IsOrdered, Sinking}
use old_radio.Event.Sift.{sunk}

record Picked (a : List Event) (c x : ℕ) : Type 0 where
  out : ℕ
  returns : earlier a c x ≡ ok out
  one_of : (out ≡ x) ⊎ ((out ≡ c) × (c < length a) × (key a c < key a x))
  below_x : key a out ≤ key a x
  below_c : c < length a → key a out ≤ key a c

earlier-Picked : (a : List Event) (c x : ℕ) → x < length a → Picked a c x
unfolding earlier
earlier-Picked a c x inside = elim (dec_lt c (length a)) [
  | no outside ↦
      let test : ltb c (length a) ≡ false = ground arith in
      record {
        out = x;
        returns = rw (earlier, test);
        one_of = inl refl;
        below_x = omega arith;
        below_c = λ h. absurd (outside h);
      }
  | yes held ↦
      let test = lt→ltb c (length a) held in
      let read_c = load-slot a c held in
      let read_x = load-slot a x inside in
      elim (Bool-cases (ltb (key a c) (key a x))) [
        | inl less ↦
            let lower = ltb→lt (key a c) (key a x) less in
            record {
              out = c;
              returns = rw (earlier, test, read_c, read_x, less);
              one_of = inr (refl, held, lower);
              below_x = omega arith;
              below_c = λ h. omega arith;
            }
        | inr more ↦ record {
          out = x;
          returns = rw (earlier, test, read_c, read_x, more);
          one_of = inl refl;
          below_x = omega arith;
          below_c = λ h. ground (arith, more);
        }
      ]
]

-- The slot of least key among `i` and its children, as the loop finds it.
record Least (a : List Event) (i : ℕ) : Type 0 where
  left : ℕ
  out : ℕ
  returns_left : earlier a (heap_left i) i ≡ ok left
  returns : earlier a (heap_right i) left ≡ ok out
  one_of :
      (out ≡ i) ⊎ ((0 < out) × (out < length a) × (heap_parent out ≡ i) × (key a out < key a i))
  least : (c : ℕ) → 0 < c → c < length a → heap_parent c ≡ i → key a out ≤ key a c
  below : key a out ≤ key a i

children-Least : (a : List Event) (i : ℕ) → i < length a → Least a i
children-Least a i inside =
    let m = earlier-Picked a (heap_left i) i inside in
    let m_in : m.out < length a = elim m.one_of [
      | inl e ↦ omega arith
      | inr (e, held, lower) ↦ omega arith
    ] in
    let x = earlier-Picked a (heap_right i) m.out m_in in
    record {
      left = m.out;
      out = x.out;
      returns_left = m.returns;
      returns = x.returns;
      one_of = elim x.one_of [
        | inr (e, held, lower) ↦
            inr
              (omega arith, omega arith, omega arith, omega (arith, m.below_x, lower, ap (key a) e))
        | inl e ↦ elim m.one_of [
          | inl e' ↦ inl (e ∙ e')
          | inr (e', held, lower) ↦
              inr (omega arith, omega arith, omega arith, omega (arith, lower, ap (key a) (e ∙ e')))
        ]
      ];
      least = λ c pos_c in_c of_i. elim (ℕ_discrete c (heap_left i)) [
        | yes l ↦ rw l (omega (arith, x.below_x, m.below_c (omega arith)))
        | no nl ↦ let r : c ≡ heap_right i = omega arith in rw r (x.below_c (omega arith))
      ];
      below = omega (arith, x.below_x, m.below_x);
    }

pub record Settled (fuel : ℕ) (a : List Event) (i : ℕ) : Type 0 where
  pub out : List Event
  pub returns : heapify_loop fuel a i ≡ ok out
  pub heap : IsOrdered (key out) (length a)
  pub size : length out ≡ length a
  pub entries : Perm out a

-- One exchange with the child `x`.
module _ (a : List Event) (i x : ℕ) (inside : i < length a) (in_x : x < length a) (child : 0 < x)
    (of_i : heap_parent x ≡ i) (lower : key a x < key a i)
    (least : (c : ℕ) → 0 < c → c < length a → heap_parent c ≡ i → key a x ≤ key a c)
    (inv : Sinking (key a) (length a) i) where
  exchanged : List Event
  exchanged = set (set a x (slot a i)) i (slot a x)

  length-exchanged : length exchanged ≡ length a
  unfolding exchanged
  length-exchanged = length-set (set a x (slot a i)) i (slot a x) ∙ length-set a x (slot a i)

  exchanged-Sinking : Sinking (key exchanged) (length exchanged) x
  unfolding exchanged
  exchanged-Sinking =
      let b = set a x (slot a i) in
      let vt : Event → ℕ = λ e. e.vtime in
      let x_ne : x ≢ i = λ e. absurd (omega arith) in
      let at_i = slot-set_same b i (slot a x) (omega (arith, length-set a x (slot a i))) in
      let at_x = slot-set_other b i x (slot a x) x_ne ∙ slot-set_same a x (slot a i) in_x in
      subst (λ (n : ℕ). Sinking (key exchanged) n x) (sym length-exchanged)
        (sunk (key a) (key exchanged) (length a) i x inv child in_x of_i lower least (ap vt at_i)
          (ap vt at_x)
          (λ j ni nx.
            ap vt (slot-set_other b i j (slot a x) ni ∙ slot-set_other a x j (slot a i) nx)))

pub heapify_loop-Settled :
    (fuel : ℕ) (a : List Event) (i : ℕ)
    → i < length a
    → length a < fuel + i
    → Sinking (key a) (length a) i
    → Settled fuel a i
unfolding heapify_loop exchanged
heapify_loop-Settled zero a i inside enough inv = absurd (omega arith)
heapify_loop-Settled (suc fuel) a i inside enough inv =
    let l = children-Least a i inside in
    elim l.one_of [
      | inl stop ↦
          let test : (l.out == i) ≡ true = ground (arith, stop) in
          record {
            out = a;
            returns = rw (heapify_loop, l.returns_left, l.returns, test);
            heap = λ c pos_c in_c. elim (ℕ_discrete (heap_parent c) i) [
              | yes of_i ↦ rw of_i (omega (arith, ap (key a) stop, l.least c pos_c in_c of_i))
              | no away ↦ inv.edge c pos_c in_c away
            ];
            size = refl;
            entries = rfl;
          }
      | inr (child, in_x, of_i, lower) ↦
          let x = l.out in
          let test : (x == i) ≡ false = ground (arith, lower) in
          let held = lt→ltb x (length a) in_x in
          let size = length-exchanged a i x inside in_x child of_i lower l.least inv in
          let r =
            heapify_loop-Settled fuel (exchanged a i x inside in_x child of_i lower l.least inv) x
              (omega (arith, size)) (omega (arith, size))
              (exchanged-Sinking a i x inside in_x child of_i lower l.least inv) in
          record {
            out = r.out;
            returns =
                rw
                  (
                    heapify_loop,
                    l.returns_left,
                    l.returns,
                    test,
                    held,
                    load-slot a x in_x,
                    load-slot a i inside,
                  )
                  r.returns;
            heap = subst (IsOrdered (key r.out)) size r.heap;
            size = r.size ∙ size;
            entries = trans r.entries (perm-exchange a i x inside in_x (λ e. absurd (omega arith)));
          }
    ]

-- From the root, with the fuel that _queue_heapify has; there may be no event at all.
pub heapify-Settled : (a : List Event) → Sinking (key a) (length a) 0 → Settled (length a + 1) a 0
unfolding heapify_loop earlier
heapify-Settled [] inv = record {
  out = [];
  returns = refl;
  heap = λ c pos_c in_c. absurd (omega arith);
  size = refl;
  entries = rfl;
}
heapify-Settled (x ∷ a) inv =
    heapify_loop-Settled (length (x ∷ a) + 1) (x ∷ a) 0 (omega arith) (omega arith) inv
