-- ===== src/Event/Sift.antt =====
-- radio2/src/queue.c: one step up, and one step down, of the entry that is out of order.
use old_radio.Base.{ℕ, ◌<◌, ◌≤◌, ◌≡◌, ◌≢◌, arith, ℕ_discrete}
use old_radio.Event.{heap_parent}
use old_radio.Event.Order.{Rising, Sinking}

-- The key goes to the parent of `i`, whose own key comes down to `i`.
module _ (k k' : ℕ → ℕ) (n i : ℕ) (inv : Rising k n i) (inside : i < n) (child : 0 < i)
    (down : k' i ≡ k (heap_parent i)) (up : k' (heap_parent i) ≤ k (heap_parent i))
    (same : (j : ℕ) → j ≢ i → j ≢ heap_parent i → k' j ≡ k j) where
  risen-edge : (c : ℕ) → 0 < c → c < n → c ≢ heap_parent i → k' (heap_parent c) ≤ k' c
  risen-edge c pos_c in_c ne = elim (ℕ_discrete c i) [
    | yes here ↦ rw here (omega (arith, down, up))
    | no other ↦ elim (ℕ_discrete (heap_parent c) i) [
      | yes below ↦
          rw below (omega (arith, down, same c other ne, inv.bridge c in_c child pos_c below))
      | no away ↦ elim (ℕ_discrete (heap_parent c) (heap_parent i)) [
        | yes sibling ↦
            let edge : k (heap_parent i) ≤ k c = rw (← sibling) (inv.edge c pos_c in_c other) in
            rw sibling (omega (arith, up, same c other ne, edge))
        | no apart ↦
            omega
              (arith, same c other ne, same (heap_parent c) away apart, inv.edge c pos_c in_c other)
      ]
    ]
  ]

  risen-bridge :
      (c : ℕ)
      → c < n
      → 0 < heap_parent i
      → 0 < c
      → heap_parent c ≡ heap_parent i
      → k' (heap_parent (heap_parent i)) ≤ k' c
  risen-bridge c in_c deep pos_c e =
      let above = inv.edge (heap_parent i) deep (omega arith) (omega arith) in
      let top = same (heap_parent (heap_parent i)) (omega arith) (omega arith) in
      elim (ℕ_discrete c i) [
        | yes here ↦ rw here (omega (arith, down, top, above))
        | no other ↦
            let edge : k (heap_parent i) ≤ k c = rw (← e) (inv.edge c pos_c in_c other) in
            omega (arith, top, above, edge, same c other (omega arith))
      ]

  pub risen : Rising k' n (heap_parent i)
  risen = record { edge = risen-edge; bridge = risen-bridge }

-- The key goes to `x`, the child of `i` with the least key, whose key comes up to `i`.
module _ (k k' : ℕ → ℕ) (n i x : ℕ) (inv : Sinking k n i) (child : 0 < x) (inside : x < n)
    (of_i : heap_parent x ≡ i) (lower : k x < k i)
    (least : (c : ℕ) → 0 < c → c < n → heap_parent c ≡ i → k x ≤ k c) (up : k' i ≡ k x)
    (down : k' x ≡ k i) (same : (j : ℕ) → j ≢ i → j ≢ x → k' j ≡ k j) where
  sunk-edge : (c : ℕ) → 0 < c → c < n → heap_parent c ≢ x → k' (heap_parent c) ≤ k' c
  sunk-edge c pos_c in_c ne = elim (ℕ_discrete (heap_parent c) i) [
    | yes of ↦ elim (ℕ_discrete c x) [
      | yes here ↦ rw (of, here) (omega (arith, up, down, lower))
      | no other ↦ rw of (omega (arith, up, same c (omega arith) other, least c pos_c in_c of))
    ]
    | no away ↦ elim (ℕ_discrete c i) [
      | yes here ↦
          let deep : 0 < i = omega arith in
          rw here (
            omega (
              arith,
              up,
              same (heap_parent i) (omega arith) (omega arith),
              inv.bridge x inside deep child of_i,
            ))
      | no apart ↦ omega (
        arith,
        same (heap_parent c) away ne,
        same c apart (omega arith),
        inv.edge c pos_c in_c away,
      )
    ]
  ]

  sunk-bridge : (c : ℕ) → c < n → 0 < x → 0 < c → heap_parent c ≡ x → k' (heap_parent x) ≤ k' c
  sunk-bridge c in_c deep pos_c e =
      let edge : k x ≤ k c = rw (← e) (inv.edge c pos_c in_c (omega arith)) in
      rw of_i (omega (arith, up, edge, same c (omega arith) (omega arith)))

  pub sunk : Sinking k' n x
  sunk = record { edge = sunk-edge; bridge = sunk-bridge }
