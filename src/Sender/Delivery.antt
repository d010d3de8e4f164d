-- ===== src/Sender/Delivery.antt =====
-- radio/serial/queue.c: whatever the threads do, packets are sent in the order in which they were queued.
use mathlib.Core.Path.{subst}
use mathlib.Core.List.{append_assoc}
use mathlib.Core.Option.{some-injective}
use old_radio.Base.{
  ℕ, ◌≤◌, ◌≡◌, ◌≢◌, refl, sym, ap, ◌∙◌, inl, inr, List, [], ◌∷◌, ◌++◌, Option, none, some, leb,
  length, take, All-append, arith, Bool-cases, leb→le,
}
use old_radio.Base.Run.{Run, ok, ok_inj}
use old_radio.Sender.{Link, Store, SendQueue, link_at, queue_send_packet, sender_pop, sender_free}
use old_radio.Sender.Chain.{Held, first_of, packets, packets-append, Apart, link_at-lt, Chain-set}
use old_radio.Sender.Fifo.{Holds, send-Holds, pop-Holds}
use old_radio.Sender.Threads.{
  World, Step, queued, popped, transmitted, Reached, starts, steps, in_flight,
}

abbrev Flies : Store → Option (ℕ × Link) → List Held → Type 0
Flies store none cs = Unit
Flies store (some b) cs = (link_at store b.0 ≡ some b.1) × Apart b.0 cs

record Ordered (w : World) : Type 0 where
  waiting : List Held
  holds : Holds w.queue waiting
  flies : Flies w.queue.store w.busy waiting
  order : w.asked ≡ w.sent ++ (in_flight w.busy ++ packets waiting)

queued_long :
    (bytes : List ℕ) (size : ℕ) (q q' : SendQueue)
    → queue_send_packet bytes size q ≡ ok q'
    → size ≤ length bytes
unfolding queue_send_packet
queued_long bytes size q q' e = elim (Bool-cases (leb size (length bytes))) [
  | inl fits ↦ leb→le size (length bytes) fits
  | inr short ↦ let bad : Run.fault ≡ ok q' = rw short at e in ground (arith, bad)
]

queued-Flies :
    (q q' : SendQueue) (busy : Option (ℕ × Link)) (cs : List Held) (d : List ℕ)
    → ((p : ℕ) (k : Link) → Apart p cs → link_at q.store p ≡ some k → link_at q'.store p ≡ some k)
    → Flies q.store busy cs
    → Flies q'.store busy (cs ++ (length q.store, d) ∷ [])
queued-Flies q q' none cs d keeps flies = tt
queued-Flies q q' (some b) cs d keeps flies =
    let below = link_at-lt q.store b.0 b.1 flies.0 in
    (
      keeps b.0 b.1 flies.1 flies.0,
      All-append (λ (c : Held). b.0 ≢ c.0) cs ((length q.store, d) ∷ []) flies.1
          (λ e. absurd (omega arith), tt),
    )

queued-Ordered :
    (w : World) (bytes : List ℕ) (size : ℕ) (q : SendQueue)
    → queue_send_packet bytes size w.queue ≡ ok q
    → Ordered w
    → Ordered (record {
      queue = q;
      busy = w.busy;
      asked = w.asked ++ take size bytes ∷ [];
      sent = w.sent;
    })
queued-Ordered w bytes size q e o =
    let d = take size bytes in
    let new : Held = (length w.queue.store, d) in
    let (q', returns, kept, keeps) =
      send-Holds w.queue bytes size o.waiting o.holds (queued_long bytes size w.queue q e) in
    let flight = in_flight w.busy in
    let behind =
      append_assoc flight (packets o.waiting) (d ∷ [])
      ∙ ap (◌++◌ flight) (sym (packets-append o.waiting new)) in
    subst
      (λ (r : SendQueue).
        Ordered (record { queue = r; busy = w.busy; asked = w.asked ++ d ∷ []; sent = w.sent }))
      (ok_inj q' q (sym returns ∙ e))
      (record {
        waiting = o.waiting ++ new ∷ [];
        holds = kept;
        flies = queued-Flies w.queue q' w.busy o.waiting d keeps o.flies;
        order =
            ap (λ (l : List (List ℕ)). l ++ d ∷ []) o.order
            ∙ append_assoc w.sent (flight ++ packets o.waiting) (d ∷ [])
            ∙ ap (◌++◌ w.sent) behind;
      })

popped-Ordered :
    (w : World) (waiting : List Held) (p : ℕ) (k : Link) (q : SendQueue)
    → w.queue.head ≡ some p
    → sender_pop p w.queue ≡ ok (k, q)
    → Holds w.queue waiting
    → w.asked ≡ w.sent ++ packets waiting
    → Ordered (record { queue = q; busy = some (p, k); asked = w.asked; sent = w.sent })
popped-Ordered w [] p k q at e holds order =
    let bad : none ≡ some p = sym holds.head ∙ at in ground (arith, bad)
popped-Ordered w (c ∷ cs) p k q at e holds order =
    let first : c.0 ≡ p = some-injective _ _ (sym holds.head ∙ at) in
    let (q', pops, kept, same) = pop-Holds w.queue c cs holds in
    let e' : sender_pop c.0 w.queue ≡ ok (k, q) = ap (λ (r : ℕ). sender_pop r w.queue) first ∙ e in
    let popped_link : Link = record { bytes = c.1; next = first_of cs } in
    let after : ℕ → Link × SendQueue → World =
      λ r s. record { queue = s.1; busy = some (r, s.0); asked = w.asked; sent = w.sent } in
    subst (λ (r : ℕ). Ordered (after r (k, q))) first
      (subst (λ (s : Link × SendQueue). Ordered (after c.0 s))
        (ok_inj (popped_link, q') (k, q) (sym pops ∙ e'))
        (record {
          waiting = cs;
          holds = kept;
          flies = (ap (λ (t : Store). link_at t c.0) same ∙ holds.chain.0, holds.chain.1);
          order = order;
        }))

transmitted-Ordered :
    (w : World) (p : ℕ) (k now : Link)
    → w.busy ≡ some (p, k)
    → link_at w.queue.store p ≡ some now
    → Ordered w
    → Ordered (record {
      queue = sender_free p w.queue;
      busy = none;
      asked = w.asked;
      sent = w.sent ++ now.bytes ∷ [];
    })
unfolding sender_free
transmitted-Ordered w p k now b e o =
    let flies : Flies w.queue.store (some (p, k)) o.waiting =
      subst (λ (x : Option (ℕ × Link)). Flies w.queue.store x o.waiting) b o.flies in
    let same : k ≡ now = some-injective _ _ (sym flies.0 ∙ e) in
    record {
      waiting = o.waiting;
      holds = record {
        head = o.holds.head;
        tail = o.holds.tail;
        chain = Chain-set w.queue.store p none o.waiting flies.1 o.holds.chain;
      };
      flies = tt;
      order =
          o.order
          ∙ ap (λ (x : Option (ℕ × Link)). w.sent ++ (in_flight x ++ packets o.waiting)) b
          ∙ ap (λ (x : Link). w.sent ++ (x.bytes ∷ packets o.waiting)) same
          ∙ sym (append_assoc w.sent (now.bytes ∷ []) (packets o.waiting));
    }

Step-Ordered : (w w' : World) → Step w w' → Ordered w → Ordered w'
Step-Ordered w w' (queued bytes size q e) o = queued-Ordered w bytes size q e o
Step-Ordered w w' (popped p k q idle at e) o =
    popped-Ordered w o.waiting p k q at e o.holds
      (o.order ∙ ap (λ (x : Option (ℕ × Link)). w.sent ++ (in_flight x ++ packets o.waiting)) idle)
Step-Ordered w w' (transmitted p k now b e) o = transmitted-Ordered w p k now b e o

Reached-Ordered : (w : World) → Reached w → Ordered w
Reached-Ordered w starts = record {
  waiting = [];
  holds = record { head = refl; tail = refl; chain = tt };
  flies = tt;
  order = refl;
}
Reached-Ordered w (steps v w' before step) = Step-Ordered v w step (Reached-Ordered v before)

-- However the threads interleave, the packets that were queued are, in their order, those sent, then the
-- one that the sender's thread holds, and then those of the list, which is well formed: its head and tail
-- are the first and the last of its links.
pub Reached-order :
    (w : World)
    → Reached w
    → (waiting : List Held) × Holds w.queue waiting
      × (w.asked ≡ w.sent ++ (in_flight w.busy ++ packets waiting))
Reached-order w r = let o = Reached-Ordered w r in (o.waiting, o.holds, o.order)

-- No thread is ever stuck on a bad pointer: in every state that the threads reach, a packet that its
-- buffer holds is queued, a packet at the head is popped, and the link of a popped packet still holds
-- what it held, so that the sender sends the packet that was popped.
pub Reached-progress :
    (w : World)
    → Reached w
    → ((bytes : List ℕ) (size : ℕ)
        → size ≤ length bytes
        → (q : SendQueue) × (queue_send_packet bytes size w.queue ≡ ok q))
      × ((p : ℕ)
          → w.queue.head ≡ some p
          → (k : Link) × (q : SendQueue) × (sender_pop p w.queue ≡ ok (k, q)))
      × ((p : ℕ) (k : Link) → w.busy ≡ some (p, k) → link_at w.queue.store p ≡ some k)
Reached-progress w r =
    let o = Reached-Ordered w r in
    (
      λ bytes size long.
          let (q, returns, kept, keeps) = send-Holds w.queue bytes size o.waiting o.holds long in
          (q, returns),
      λ p at. head_pops w.queue o.waiting p at o.holds,
      λ p k b. (subst (λ (x : Option (ℕ × Link)). Flies w.queue.store x o.waiting) b o.flies).0,
    )
  where
    head_pops :
        (q : SendQueue) (waiting : List Held) (p : ℕ)
        → q.head ≡ some p
        → Holds q waiting
        → (k : Link) × (q' : SendQueue) × (sender_pop p q ≡ ok (k, q'))
    head_pops q [] p at holds = let bad : none ≡ some p = sym holds.head ∙ at in ground (arith, bad)
    head_pops q (c ∷ cs) p at holds =
        let first : c.0 ≡ p = some-injective _ _ (sym holds.head ∙ at) in
        let (q', pops, kept, same) = pop-Holds q c cs holds in
        (
          record { bytes = c.1; next = first_of cs },
          q',
          ap (λ (r : ℕ). sender_pop r q) (sym first) ∙ pops,
        )
