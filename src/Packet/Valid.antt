-- ===== src/Packet/Valid.antt =====
-- radio2/src/packet.c: what holds of every live packet, and what each operation does to the heap.
use native.Mathlib.Nat.{mod-eq_of_lt}
use mathlib.Core.Path.{subst}
use mathlib.Core.Option.{some-injective}
use old_radio.Base.{
  ℕ, ◌+◌, ◌-◌, ◌%◌, ◌^◌, ◌≤◌, ◌<◌, ◌≡◌, ◌≢◌, sym, ap, ◌∙◌, arith, Option, none, some, List, [], ◌∷◌,
  ◌++◌, true, length, take, set, ltb, leb, ◌==◌, if◌then◌else◌, length-take, take_all, ℕ_discrete,
}
use old_radio.Base.Run.{ok, fault}
use old_radio.Packet.{Packet, Heap, cell, packet_new, packet_copy, packet_clone, packet_free}
use old_radio.Packet.Cells.{
  cell-set_self, cell-set_ne, live-lt, cell-append_ne, cell-append_new, cell-fresh,
}

-- A live packet is referred to, is not empty, and holds as many bytes as it says.
pub record IsLive (k : Packet) : Type 0 where
  pub counted : (0 < k.refcount) × (k.refcount < 2 ^ 64)
  pub filled : 0 < k.size
  pub holds : length k.bytes ≡ k.size

abbrev pub IsValid : Heap → Type 0
IsValid h = (p : ℕ) (k : Packet) → cell h p ≡ some k → IsLive k

-- Only the cell at `p` differs.
abbrev pub Elsewhere : ℕ → Heap → Heap → Type 0
Elsewhere p h h' = (q : ℕ) → p ≢ q → cell h' q ≡ cell h q

set-IsValid :
    (h : Heap) (p : ℕ) (c : Option Packet)
    → IsValid h
    → p < length h
    → ((k : Packet) → c ≡ some k → IsLive k)
    → IsValid (set h p c)
set-IsValid h p c v b l q k e = elim (ℕ_discrete p q) [
  | yes same ↦ l k (sym (cell-set_self h p c b) ∙ ap (cell (set h p c)) same ∙ e)
  | no ne ↦ v q k (sym (cell-set_ne h p q c ne) ∙ e)
]

append-IsValid : (h : Heap) (k : Packet) → IsValid h → IsLive k → IsValid (h ++ some k ∷ [])
append-IsValid h k v l q k' e = elim (ℕ_discrete (length h) q) [
  | yes same ↦
      subst IsLive
        (some-injective _ _
          (sym (cell-append_new h (some k)) ∙ ap (cell (h ++ some k ∷ [])) same ∙ e))
        l
  | no ne ↦ v q k' (sym (cell-append_ne h (some k) q ne) ∙ e)
]

-- packet_new with a size that is not zero and a source that is long enough returns a pointer that was
-- not in use, to a packet of that many bytes with one reference. The heap stays valid, and no other
-- packet changes.
pub packet_new_lem :
    (size : ℕ) (source : List ℕ) (h : Heap)
    → IsValid h
    → 0 < size
    → size ≤ length source
    → (p : ℕ) × (h' : Heap) × (packet_new size source h ≡ ok (p, h'))
      × (cell h p ≡ none)
      × (cell h' p ≡ some (record { size = size; refcount = 1; bytes = take size source }))
      × Elsewhere p h h'
      × IsValid h'
unfolding packet_new
packet_new_lem size source h v pos long =
    let full : ltb 0 size ≡ true = ground arith in
    let room : leb size (length source) ≡ true = ground arith in
    (
      length h,
      h ++ some fresh ∷ [],
      rw (full, room),
      cell-fresh h,
      cell-append_new h (some fresh),
      cell-append_ne h (some fresh),
      append-IsValid h fresh v (record {
        counted = omega arith;
        filled = pos;
        holds = omega (arith, length-take size source);
      }),
    )
  where
    fresh : Packet
    fresh = record { size = size; refcount = 1; bytes = take size source }

-- On a live packet of a valid heap, packet_clone adds one reference, up to the last that a size_t
-- counts, and changes no other packet.
pub packet_clone_lem :
    (p : ℕ) (k : Packet) (h : Heap)
    → IsValid h
    → cell h p ≡ some k
    → k.refcount + 1 < 2 ^ 64
    → (h' : Heap) × (packet_clone p h ≡ ok (p, h'))
      × (cell h' p ≡ some (record k { refcount = k.refcount + 1 }))
      × Elsewhere p h h'
      × IsValid h'
unfolding packet_clone
packet_clone_lem p k h v e small =
    let l = v p k e in
    let referred : ltb 0 k.refcount ≡ true = ground arith in
    let exact : (k.refcount + 1) % 2 ^ 64 ≡ k.refcount + 1 = mod-eq_of_lt small in
    let k' = record k { refcount = k.refcount + 1 } in
    (
      set h p (some k'),
      rw (e, referred, exact),
      cell-set_self h p (some k') (live-lt h p k e),
      λ q ne. cell-set_ne h p q (some k') ne,
      set-IsValid h p (some k') v (live-lt h p k e) λ j ej.
          subst IsLive (some-injective _ _ ej)
            (record { counted = omega arith; filled = l.filled; holds = l.holds }),
    )

-- What packet_free leaves in the cell of a packet.
pub released : Packet → Option Packet
released k = if k.refcount - 1 == 0 then none else some (record k { refcount = k.refcount - 1 })

released-IsLive : (k j : Packet) → IsLive k → released k ≡ some j → IsLive j
unfolding released
released-IsLive k j l e = ground arith

-- On a live packet of a valid heap, packet_free takes one reference away, releases the packet exactly
-- when that was the last, and changes no other packet.
pub packet_free_lem :
    (p : ℕ) (k : Packet) (h : Heap)
    → IsValid h
    → cell h p ≡ some k
    → (h' : Heap) × (packet_free p h ≡ ok h')
      × (cell h' p
          ≡ (if k.refcount == 1 then none else some (record k { refcount = k.refcount - 1 })))
      × Elsewhere p h h'
      × IsValid h'
unfolding packet_free
packet_free_lem p k h v e =
    let l = v p k e in
    let referred : ltb 0 k.refcount ≡ true = ground arith in
    let last : (k.refcount - 1 == 0) ≡ (k.refcount == 1) = ground arith in
    let b = live-lt h p k e in
    (
      set h p (released k),
      unfold released in rw (e, referred),
      cell-set_self h p (released k) b ∙ unfold released in rw last,
      λ q ne. cell-set_ne h p q (released k) ne,
      set-IsValid h p (released k) v b (λ j ej. released-IsLive k j l ej),
    )

-- Every use of a pointer that is not live, a freed one too, is a fault.
pub dangling :
    (p : ℕ) (h : Heap)
    → cell h p ≡ none
    → (packet_copy p h ≡ fault) × (packet_clone p h ≡ fault) × (packet_free p h ≡ fault)
unfolding packet_copy packet_clone packet_free
dangling p h e = (rw e, rw e, rw e)

-- packet_copy of a live packet of a valid heap makes a new packet of the same bytes with one reference
-- of its own; the packet that was copied stays as it was.
pub packet_copy_lem :
    (p : ℕ) (k : Packet) (h : Heap)
    → IsValid h
    → cell h p ≡ some k
    → (q : ℕ) × (h' : Heap) × (packet_copy p h ≡ ok (q, h'))
      × (p ≢ q)
      × (cell h' q ≡ some (record k { refcount = 1 }))
      × (cell h' p ≡ some k)
      × IsValid h'
unfolding packet_copy
packet_copy_lem p k h v e =
    let l = v p k e in
    let (q, h', made, unused, new, others, v') =
      packet_new_lem k.size k.bytes h v l.filled (omega (arith, l.holds)) in
    let ne : p ≢ q = λ same. cc (sym e ∙ ap (cell h) same ∙ unused) in
    let whole : take k.size k.bytes ≡ k.bytes = take_all k.size k.bytes (sym l.holds) in
    (q, h', rw e made, ne, rw whole at new, others p (λ same. ne (sym same)) ∙ e, v')
