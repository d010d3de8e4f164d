-- ===== src/Sender.antt =====
-- radio/serial/queue.c: the send queue, a linked list that any thread appends to and that the sender's
-- thread takes packets from. `store` is the C heap: an address is an index, a cell that was freed is
-- `none`, and addresses are not used again. Each function is the part that runs under the mutex.
pub mod Chain
pub mod Fifo
pub mod Threads
pub mod Delivery
pub mod Refines
pub mod Receiver
pub mod Handed
mod Tests
mod HandedTests
use old_radio.Base.{
  ℕ, zero, suc, ◌+◌, ◌-◌, List, [], ◌∷◌, ◌++◌, Option, none, some, Bool, true, false, leb, length,
  take, set, get_or, if◌then◌else◌,
}
use old_radio.Base.Run.{Run, ok, out_of_fuel, or_fault, within, ◌>>=◌, ◌>>◌}

-- `queue_s`
pub record Link : Type 0 where
  pub bytes : List ℕ
  pub next : Option ℕ

abbrev pub Store : Type 0
Store = List (Option Link)

-- queue_send_head and queue_send_tail.
pub record SendQueue : Type 0 where
  pub store : Store
  pub head : Option ℕ
  pub tail : Option ℕ

abbrev pub link_at : Store → ℕ → Option Link
link_at store p = get_or store p none

abbrev pub deref_link : Store → ℕ → Run Link
deref_link store p = or_fault (link_at store p)

abbrev pub link_behind : SendQueue → ℕ → Link → Option ℕ → Run SendQueue
link_behind q p new none =
    ok (record { store = q.store ++ some new ∷ []; head = some p; tail = some p })
link_behind q p new (some t) = deref_link (q.store ++ some new ∷ []) t >>= λ last. ok (record {
  store = set (q.store ++ some new ∷ []) t (some (record last { next = some p }));
  head = q.head;
  tail = some p;
})

unfoldable pub queue_send_packet : List ℕ → ℕ → SendQueue → Run SendQueue
queue_send_packet bytes size q =
    let new : Link = record { bytes = take size bytes; next = none } in
    within (leb size (length bytes)) >> link_behind q (length q.store) new q.tail

-- The loop of queue_send_get_size, on fuel.
unfoldable pub count_loop : ℕ → Store → Option ℕ → Run ℕ
count_loop zero store x = out_of_fuel
count_loop (suc fuel) store none = ok 0
count_loop (suc fuel) store (some p) =
    deref_link store p >>= λ k. count_loop fuel store k.next >>= λ n. ok (n + 1)

unfoldable pub queue_send_get_size : SendQueue → Run ℕ
unfolding count_loop
queue_send_get_size q = count_loop (length q.store + 1) q.store q.head

-- What queue_sender pops, once queue_send_head is not NULL: the link at the head `p`.
unfoldable pub sender_pop : ℕ → SendQueue → Run (Link × SendQueue)
sender_pop p q = deref_link q.store p >>= λ k.
    let left : Option ℕ = elim k.next [ none ↦ none | some n ↦ q.tail ] in
    ok (k, record { store = q.store; head = k.next; tail = left })

-- The end of queue_sender's round, after send_packet.
unfoldable pub sender_free : ℕ → SendQueue → SendQueue
sender_free p q = record q { store = set q.store p none }
