-- ===== src/Packet.antt =====
-- radio2/src/packet.c: packets shared by counted references. A packet lives in a cell of a heap, a
-- pointer is the cell's index, and a freed cell is `none`: to read it is a fault. `malloc` is taken
-- to succeed, and the data pointer of packet_new not to be null.
pub mod Cells
pub mod Valid
pub mod Count
mod Tests
use old_radio.Base.{
  ℕ, zero, suc, ◌+◌, ◌-◌, ◌%◌, ◌^◌, ◌≤◌, ◌<◌, ◌≡◌, Option, none, some, List, [], ◌∷◌, ◌++◌, Bool,
  true, false, length, take, set, get_elem?, ltb, leb, ◌==◌, if◌then◌else◌, not,
}
use old_radio.Base.Run.{Run, ok, abort, fault, ◌>>=◌, ◌>>◌, assert, or_fault}

pub record Packet : Type 0 where
  pub size : ℕ
  pub refcount : ℕ
  pub bytes : List ℕ

abbrev pub Heap : Type 0
Heap = List (Option Packet)

-- The packet at a live pointer.
abbrev pub cell : Heap → ℕ → Option Packet
cell [] p = none
cell (c ∷ h) zero = c
cell (c ∷ h) (suc p) = cell h p

abbrev pub deref : Heap → ℕ → Run Packet
deref h p = or_fault (cell h p)

-- `memcpy(p->data, data, length)` reads `size` bytes of the source.
unfoldable pub packet_new : ℕ → List ℕ → Heap → Run (ℕ × Heap)
packet_new size source h = do
  assert (ltb 0 size)
  let fresh : Packet = record { size = size; refcount = 1; bytes = take size source }
  if leb size (length source) then ok (length h, h ++ some fresh ∷ []) else fault

unfoldable pub packet_copy : ℕ → Heap → Run (ℕ × Heap)
unfolding packet_new
packet_copy p h = do k ← deref h p; packet_new k.size k.bytes h

-- `refcount` is a `size_t`.
unfoldable pub packet_clone : ℕ → Heap → Run (ℕ × Heap)
packet_clone p h = do
  k ← deref h p
  assert (ltb 0 k.refcount)
  ok (p, set h p (some (record k { refcount = (k.refcount + 1) % 2 ^ 64 })))

unfoldable pub packet_free : ℕ → Heap → Run Heap
packet_free p h = do
  k ← deref h p
  assert (ltb 0 k.refcount)
  let left = k.refcount - 1
  ok (set h p (if left == 0 then none else some (record k { refcount = left })))
