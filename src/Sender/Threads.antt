-- ===== src/Sender/Threads.antt =====
-- radio/serial/queue.c: the threads that queue packets and the thread that sends them, as steps in any
-- order. A step is what a thread does under queue_send_mutex, or the sender's round after it.
use old_radio.Base.{ℕ, ◌≡◌, List, [], ◌∷◌, ◌++◌, Option, none, some, take}
use old_radio.Base.Run.{ok}
use old_radio.Sender.{Link, SendQueue, link_at, queue_send_packet, sender_pop, sender_free}

-- `busy` is the link that the sender's thread has popped and not yet freed; `asked` and `sent` are the
-- packets that were queued and sent so far.
pub record World : Type 0 where
  pub queue : SendQueue
  pub busy : Option (ℕ × Link)
  pub asked : List (List ℕ)
  pub sent : List (List ℕ)

abbrev pub at_start : World
at_start = record {
  queue = record { store = []; head = none; tail = none };
  busy = none;
  asked = [];
  sent = [];
}

pub data Step (w : World) : World → Type 0 where
  queued :
      (bytes : List ℕ) (size : ℕ) (q : SendQueue)
      → queue_send_packet bytes size w.queue ≡ ok q
      → Step w (record {
        queue = q;
        busy = w.busy;
        asked = w.asked ++ take size bytes ∷ [];
        sent = w.sent;
      })
  popped :
      (p : ℕ) (k : Link) (q : SendQueue)
      → w.busy ≡ none
      → w.queue.head ≡ some p
      → sender_pop p w.queue ≡ ok (k, q)
      → Step w (record { queue = q; busy = some (p, k); asked = w.asked; sent = w.sent })
  transmitted :
      (p : ℕ) (k now : Link)
      → w.busy ≡ some (p, k)
      → link_at w.queue.store p ≡ some now
      → Step w (record {
        queue = sender_free p w.queue;
        busy = none;
        asked = w.asked;
        sent = w.sent ++ now.bytes ∷ [];
      })

pub data Reached : World → Type 0 where
  starts : Reached at_start
  steps : (w w' : World) → Reached w → Step w w' → Reached w'

abbrev pub in_flight : Option (ℕ × Link) → List (List ℕ)
in_flight none = []
in_flight (some b) = b.1.bytes ∷ []
