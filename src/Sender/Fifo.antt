-- ===== src/Sender/Fifo.antt =====
-- radio/serial/queue.c: appending a packet to the list, and taking the first.
use old_radio.Base.{
  ℕ, ◌≤◌, ◌≡◌, ◌≢◌, refl, sym, ap, ◌∙◌, List, [], ◌∷◌, ◌++◌, Option, none, some, Bool, true, leb,
  length, take, set, get_or-set_other, get_or-append, get_or-append_last, arith,
}
use old_radio.Base.Run.{ok, or_fault, within, ◌>>=◌, ◌>>◌}
use old_radio.Sender.{Link, SendQueue, link_at, link_behind, queue_send_packet, sender_pop}
use old_radio.Sender.Chain.{
  Held, first_of, last_of, Apart, Chain, link_at-lt, Chain-append, Chain-Apart, last_of-All,
  Chain-Extended,
}

abbrev pub tail_of : List Held → Option ℕ
tail_of [] = none
tail_of (c ∷ cs) = some (last_of c cs)

-- A queue that stands for the packets of the links.
pub record Holds (q : SendQueue) (cs : List Held) : Type 0 where
  pub head : q.head ≡ first_of cs
  pub tail : q.tail ≡ tail_of cs
  pub chain : Chain q.store cs

-- What a link that is not in the queue keeps.
abbrev pub Elsewhere : SendQueue → SendQueue → List Held → Type 0
Elsewhere q q' cs =
    (p : ℕ) (k : Link) → Apart p cs → link_at q.store p ≡ some k → link_at q'.store p ≡ some k

behind-Holds :
    (q : SendQueue) (d : List ℕ) (cs : List Held)
    → Holds q cs
    → (q' : SendQueue) × (link_behind q (length q.store) (record { bytes = d; next = none }) q.tail
        ≡ ok q')
      × Holds q' (cs ++ (length q.store, d) ∷ [])
      × Elsewhere q q' cs
behind-Holds q d [] holds =
    let new : Link = record { bytes = d; next = none } in
    let n = length q.store in
    let q' : SendQueue = record {
      store = q.store ++ some new ∷ [];
      head = some n;
      tail = some n;
    } in
    (
      q',
      ap (link_behind q n new) holds.tail,
      record {
        head = refl;
        tail = refl;
        chain = (get_or-append_last q.store (some new) none, tt, tt);
      },
      λ p k apart e. get_or-append q.store (some new ∷ []) p none (link_at-lt q.store p k e) ∙ e,
    )
behind-Holds q d (c ∷ cs) holds =
    let new : Link = record { bytes = d; next = none } in
    let n = length q.store in
    let longer = q.store ++ some new ∷ [] in
    let t = last_of c cs in
    let x =
      Chain-Extended longer n d c cs (Chain-append q.store (some new) (c ∷ cs) holds.chain)
        (Chain-Apart q.store (c ∷ cs) holds.chain) (get_or-append_last q.store (some new) none) in
    let hung : Option Link = some (record x.last { next = some n }) in
    let q' : SendQueue = record { store = set longer t hung; head = q.head; tail = some n } in
    (
      q',
      ap (link_behind q n new) holds.tail
          ∙ ap
              (λ (o : Option Link). or_fault o >>= λ last. ok (record {
                store = set longer t (some (record last { next = some n }));
                head = q.head;
                tail = some n;
              }))
              x.at_last,
      record { head = holds.head; tail = tail_behind c cs n d; chain = x.chain },
      λ p k apart e.
          get_or-set_other longer t p hung none
            (λ f. last_of-All (λ (r : ℕ). p ≢ r) c cs apart (sym f))
          ∙ get_or-append q.store (some new ∷ []) p none (link_at-lt q.store p k e)
          ∙ e,
    )
  where
    tail_behind :
        (c : Held) (cs : List Held) (n : ℕ) (d : List ℕ)
        → some n ≡ tail_of ((c ∷ cs) ++ (n, d) ∷ [])
    tail_behind c [] n d = refl
    tail_behind c (c' ∷ cs) n d = tail_behind c' cs n d

-- queue_send_packet on a well-formed queue, of a packet that the caller's buffer holds.
pub send-Holds :
    (q : SendQueue) (bytes : List ℕ) (size : ℕ) (cs : List Held)
    → Holds q cs
    → size ≤ length bytes
    → (q' : SendQueue) × (queue_send_packet bytes size q ≡ ok q')
      × Holds q' (cs ++ (length q.store, take size bytes) ∷ [])
      × Elsewhere q q' cs
unfolding queue_send_packet
send-Holds q bytes size cs holds long =
    let test : leb size (length bytes) ≡ true = ground arith in
    let (q', returns, kept, elsewhere) = behind-Holds q (take size bytes) cs holds in
    (
      q',
      ap
            (λ (b : Bool).
              within b
              >> link_behind q (length q.store) (record { bytes = take size bytes; next = none })
                  q.tail)
            test
          ∙ returns,
      kept,
      elsewhere,
    )

pub pop-Holds :
    (q : SendQueue) (c : Held) (cs : List Held)
    → Holds q (c ∷ cs)
    → (q' : SendQueue) × (sender_pop c.0 q ≡ ok (record { bytes = c.1; next = first_of cs }, q'))
      × Holds q' cs
      × (q'.store ≡ q.store)
unfolding sender_pop
pop-Holds q c [] holds = (
  record { store = q.store; head = none; tail = none },
  rw holds.chain.0,
  record { head = refl; tail = refl; chain = tt },
  refl,
)
pop-Holds q c (c' ∷ cs) holds = (
  record { store = q.store; head = some c'.0; tail = q.tail },
  rw holds.chain.0,
  record { head = refl; tail = holds.tail; chain = holds.chain.2 },
  refl,
)
