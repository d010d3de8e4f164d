-- ===== src/Sender/Refines.antt =====
-- radio/serial/queue.c: one use of the queue after another is the use of a plain list of packets.
use mathlib.Core.Path.{subst}
use old_radio.Base.{
  ℕ, zero, suc, ◌+◌, ◌≤◌, ◌<◌, ◌≡◌, refl, sym, ap, ◌∙◌, arith, List, [], ◌∷◌, ◌++◌, Option, none,
  some, length, take, All,
}
use old_radio.Base.Run.{Run, ok, ◌>>=◌}
use old_radio.Sender.{
  Store, SendQueue, queue_send_packet, queue_send_get_size, count_loop, sender_pop, sender_free,
}
use old_radio.Sender.Chain.{Held, first_of, packets, packets-append, Chain, link_at-lt, Chain-set}
use old_radio.Sender.Fifo.{Holds, send-Holds, pop-Holds}

-- What the threads do with the queue: put a packet in, ask how many wait, or take one out to send.
pub data Use : Type 0 where
  put : (bytes : List ℕ) (size : ℕ) → Use
  ask : Use
  take_out : Use

-- What they see of it: nothing, a number, or a packet if there is one.
pub data Seen : Type 0 where
  nothing : Seen
  number : ℕ → Seen
  packet : Option (List ℕ) → Seen

-- A whole round of the sender; it waits where the queue is empty.
abbrev pub take_at : SendQueue → Option ℕ → Run (SendQueue × Seen)
take_at q none = ok (q, packet none)
take_at q (some p) = sender_pop p q >>= λ (k, left). ok (sender_free p left, packet (some k.bytes))

abbrev pub use_queue : SendQueue → Use → Run (SendQueue × Seen)
use_queue q (put bytes size) = queue_send_packet bytes size q >>= λ q'. ok (q', nothing)
use_queue q ask = queue_send_get_size q >>= λ n. ok (q, number n)
use_queue q take_out = take_at q q.head

unfoldable pub uses : List Use → SendQueue → Run (List Seen)
uses [] q = ok []
uses (u ∷ us) q = use_queue q u >>= λ (q', s). uses us q' >>= λ ss. ok (s ∷ ss)

-- The same on a list of packets.
abbrev use_list : List (List ℕ) → Use → List (List ℕ) × Seen
use_list ps (put bytes size) = (ps ++ take size bytes ∷ [], nothing)
use_list ps ask = (ps, number (length ps))
use_list [] take_out = ([], packet none)
use_list (p ∷ ps) take_out = (ps, packet (some p))

unfoldable pub uses_list : List Use → List (List ℕ) → List Seen
uses_list [] ps = []
uses_list (u ∷ us) ps = let (ps', s) = use_list ps u in s ∷ uses_list us ps'

-- The caller's buffer holds the bytes that it queues.
abbrev pub InBuffer : Use → Type 0
InBuffer (put bytes size) = size ≤ length bytes
InBuffer ask = Unit
InBuffer take_out = Unit

-- The addresses rise along the queue, since each packet gets a new one at the end of the store.
abbrev Rising : ℕ → List Held → Type 0
Rising lo [] = Unit
Rising lo (c ∷ cs) = (lo ≤ c.0) × Rising (suc c.0) cs

Rising-append :
    (lo n : ℕ) (d : List ℕ) (cs : List Held)
    → lo ≤ n
    → All (λ (c : Held). c.0 < n) cs
    → Rising lo cs
    → Rising lo (cs ++ (n, d) ∷ [])
Rising-append lo n d [] h below r = (h, tt)
Rising-append lo n d (c ∷ cs) h below r = (r.0, Rising-append (suc c.0) n d cs below.0 below.1 r.1)

Rising-le : (lo lo' : ℕ) (cs : List Held) → lo' ≤ lo → Rising lo cs → Rising lo' cs
Rising-le lo lo' [] h r = tt
Rising-le lo lo' (c ∷ cs) h r = (omega (arith, r.0), r.1)

Chain-below :
    (store : Store) (cs : List Held) → Chain store cs → All (λ (c : Held). c.0 < length store) cs
Chain-below store [] chain = tt
Chain-below store (c ∷ cs) chain = (link_at-lt store c.0 _ chain.0, Chain-below store cs chain.2)

-- There are at most as many packets as the store has cells.
Rising-length :
    (lo n : ℕ) (cs : List Held)
    → lo ≤ n
    → All (λ (c : Held). c.0 < n) cs
    → Rising lo cs
    → lo + length cs ≤ n
Rising-length lo n [] h below r = omega arith
Rising-length lo n (c ∷ cs) h below r =
    omega (arith, r.0, Rising-length (suc c.0) n cs below.0 below.1 r.1)

count_loop-length :
    (fuel : ℕ) (store : Store) (cs : List Held)
    → length cs < fuel
    → Chain store cs
    → count_loop fuel store (first_of cs) ≡ ok (length cs)
unfolding count_loop
count_loop-length zero store cs h chain = absurd (omega arith)
count_loop-length (suc fuel) store [] h chain = refl
count_loop-length (suc fuel) store (c ∷ cs) h chain =
    rw (chain.0, count_loop-length fuel store cs (omega arith) chain.2) (ap ok (omega arith))

length-packets : (cs : List Held) → length (packets cs) ≡ length cs
length-packets [] = refl
length-packets (c ∷ cs) = ap suc (length-packets cs)

-- The queue stands for a list of packets.
record StandsFor (q : SendQueue) (ps : List (List ℕ)) : Type 0 where
  waiting : List Held
  holds : Holds q waiting
  rising : Rising 0 waiting
  same : ps ≡ packets waiting

-- The result of a use, which the list predicts.
abbrev Agrees : Run (SendQueue × Seen) → List (List ℕ) × Seen → Type 0
Agrees r (ps, s) = (q : SendQueue) × (r ≡ ok (q, s)) × StandsFor q ps

put-Agrees :
    (q : SendQueue) (ps : List (List ℕ)) (bytes : List ℕ) (size : ℕ)
    → size ≤ length bytes
    → StandsFor q ps
    → Agrees (use_queue q (put bytes size)) (use_list ps (put bytes size))
put-Agrees q ps bytes size h stands =
    let d = take size bytes in
    let (q', returns, kept, keeps) = send-Holds q bytes size stands.waiting stands.holds h in
    (
      q',
      rw returns,
      record {
        waiting = stands.waiting ++ (length q.store, d) ∷ [];
        holds = kept;
        rising =
            Rising-append 0 (length q.store) d stands.waiting (omega arith)
              (Chain-below q.store stands.waiting stands.holds.chain) stands.rising;
        same =
            ap (λ (l : List (List ℕ)). l ++ d ∷ []) stands.same
            ∙ sym (packets-append stands.waiting (length q.store, d));
      },
    )

ask-Agrees :
    (q : SendQueue) (ps : List (List ℕ))
    → StandsFor q ps
    → Agrees (use_queue q ask) (use_list ps ask)
unfolding queue_send_get_size
ask-Agrees q ps stands =
    let below = Chain-below q.store stands.waiting stands.holds.chain in
    let few = Rising-length 0 (length q.store) stands.waiting (omega arith) below stands.rising in
    let counted : count_loop (length q.store + 1) q.store q.head ≡ ok (length stands.waiting) =
      ap (count_loop (length q.store + 1) q.store) stands.holds.head
      ∙ count_loop-length (length q.store + 1) q.store stands.waiting (omega arith)
          stands.holds.chain in
    let size : length stands.waiting ≡ length ps =
      sym (ap length stands.same ∙ length-packets stands.waiting) in
    (q, rw (counted, size), stands)

take-Agrees :
    (q : SendQueue) (cs : List Held)
    → Holds q cs
    → Rising 0 cs
    → Agrees (take_at q (first_of cs)) (use_list (packets cs) take_out)
unfolding sender_free
take-Agrees q [] holds rising =
    (q, refl, record { waiting = []; holds = holds; rising = tt; same = refl })
take-Agrees q (c ∷ cs) holds rising =
    let (q', pops, kept, same) = pop-Holds q c cs holds in
    (
      sender_free c.0 q',
      rw pops,
      record {
        waiting = cs;
        holds = record {
          head = kept.head;
          tail = kept.tail;
          chain = Chain-set q'.store c.0 none cs holds.chain.1 kept.chain;
        };
        rising = Rising-le (suc c.0) 0 cs (omega arith) rising.1;
        same = refl;
      },
    )

use-Agrees :
    (u : Use) (q : SendQueue) (ps : List (List ℕ))
    → InBuffer u
    → StandsFor q ps
    → Agrees (use_queue q u) (use_list ps u)
use-Agrees (put bytes size) q ps h stands = put-Agrees q ps bytes size h stands
use-Agrees ask q ps h stands = ask-Agrees q ps stands
use-Agrees take_out q ps h stands =
    let taken =
      subst (λ (o : Option ℕ). Agrees (take_at q o) (use_list (packets stands.waiting) take_out))
        (sym stands.holds.head) (take-Agrees q stands.waiting stands.holds stands.rising) in
    subst (λ (l : List (List ℕ)). Agrees (take_at q q.head) (use_list l take_out)) (sym stands.same)
      taken

uses-StandsFor :
    (us : List Use) (q : SendQueue) (ps : List (List ℕ))
    → All InBuffer us
    → StandsFor q ps
    → uses us q ≡ ok (uses_list us ps)
unfolding uses uses_list
uses-StandsFor [] q ps h stands = refl
uses-StandsFor (u ∷ us) q ps h stands =
    let (q', returns, next) = use-Agrees u q ps h.0 stands in
    rw (returns, uses-StandsFor us q' (use_list ps u).0 h.1 next)

-- Whatever packets are queued, counted and taken out in whatever order, starting with an empty queue:
-- no use fails, if each packet's bytes are in the buffer that is queued, and the linked list shows what
-- a list of packets shows, to whose end a packet is appended and whose first is taken, with its length.
pub uses_refine :
    (us : List Use)
    → All InBuffer us
    → uses us (record { store = []; head = none; tail = none }) ≡ ok (uses_list us [])
uses_refine us h =
    uses-StandsFor us (record { store = []; head = none; tail = none }) [] h
      (record {
        waiting = [];
        holds = record { head = refl; tail = refl; chain = tt };
        rising = tt;
        same = refl;
      })
