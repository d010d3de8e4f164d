-- ===== src/Event/Order.antt =====
-- radio2/src/queue.c: the order of the heap, on the keys of its slots.
use old_radio.Base.{ℕ, zero, suc, ◌<◌, ◌≤◌, ◌≡◌, ◌≢◌, List, length, arith, ℕ_discrete}
use old_radio.Event.{Event, heap_parent}
use old_radio.Event.Slots.{key}

-- No key is below its parent's, among the first `n`.
abbrev pub IsOrdered : (ℕ → ℕ) → ℕ → Type 0
IsOrdered k n = (c : ℕ) → 0 < c → c < n → k (heap_parent c) ≤ k c

abbrev pub IsHeap : List Event → Type 0
IsHeap a = IsOrdered (key a) (length a)

root-least_below :
    (bound : ℕ) (k : ℕ → ℕ) (n : ℕ) → IsOrdered k n → (c : ℕ) → c ≤ bound → c < n → k 0 ≤ k c
root-least_below zero k n h c below inside = let root : c ≡ 0 = omega arith in rw root (omega arith)
root-least_below (suc bound) k n h c below inside = elim (ℕ_discrete c 0) [
  | yes root ↦ rw root (omega arith)
  | no child ↦ omega (
    arith,
    root-least_below bound k n h (heap_parent c) (omega arith) (omega arith),
    h c (omega arith) inside,
  )
]

pub root-least : (k : ℕ → ℕ) (n : ℕ) → IsOrdered k n → (c : ℕ) → c < n → k 0 ≤ k c
root-least k n h c inside = root-least_below c k n h c (omega arith) inside

-- A slot `i` whose key may be below its parent's.
pub record Rising (k : ℕ → ℕ) (n i : ℕ) : Type 0 where
  pub edge : (c : ℕ) → 0 < c → c < n → c ≢ i → k (heap_parent c) ≤ k c
  pub bridge : (c : ℕ) → c < n → 0 < i → 0 < c → heap_parent c ≡ i → k (heap_parent i) ≤ k c

-- A slot `i` whose key may be above its children's.
pub record Sinking (k : ℕ → ℕ) (n i : ℕ) : Type 0 where
  pub edge : (c : ℕ) → 0 < c → c < n → heap_parent c ≢ i → k (heap_parent c) ≤ k c
  pub bridge : (c : ℕ) → c < n → 0 < i → 0 < c → heap_parent c ≡ i → k (heap_parent i) ≤ k c
