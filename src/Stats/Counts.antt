-- ===== src/Stats/Counts.antt =====
-- radio2/src/topostats.c: the counters hold how many beacons came from each id.
use old_radio.Base.{
  ℕ, ◌+◌, ◌^◌, ◌≤◌, ◌<◌, ◌≡◌, refl, sym, ap, ◌∙◌, arith, List, [], ◌∷◌, true, false, ltb, leb, ◌==◌,
  if◌then◌else◌, length, take, set, get_or, get_elem?-eq-get_or, length-set, get_or-set_same,
  get_or-set_other, All, dec_lt, ℕ_discrete,
}
use old_radio.Base.Run.{Run, ok, fault, ◌>>=◌}
use old_radio.Symbols.Digits.{value}
use old_radio.Packet.{Packet}
use old_radio.Stats.{maxid, count_beacon}

-- The id in a packet, as a number without sign.
abbrev pub sender_of : Packet → ℕ
sender_of k = value 256 (take 4 k.bytes)

-- A packet that holds an id that an `int` has as a number above or equal to zero.
pub record IsSent (k : Packet) : Type 0 where
  pub size : 4 ≤ k.size
  pub id : sender_of k < 2 ^ 31

-- The counters after some packets.
unfoldable pub count_all : List Packet → List ℕ → Run (List ℕ)
count_all [] counter = ok counter
count_all (k ∷ ks) counter = count_beacon k counter >>= count_all ks

-- How many packets an id has sent.
unfoldable pub sent_by : ℕ → List Packet → ℕ
sent_by i [] = 0
sent_by i (k ∷ ks) = (if sender_of k == i then 1 else 0) + sent_by i ks

count_beacon-known :
    (k : Packet) (counter : List ℕ)
    → IsSent k
    → length counter ≡ 256
    → sender_of k ≤ maxid
    → get_or counter (sender_of k) 0 + 1 < 2 ^ 31
    → count_beacon k counter ≡ ok (set counter (sender_of k) (get_or counter (sender_of k) 0 + 1))
unfolding count_beacon
count_beacon-known k counter is size low below =
    let room : leb 4 k.size ≡ true = ground (arith, is.size) in
    let above : ltb (sender_of k) (2 ^ 31) ≡ true = ground (arith, is.id) in
    let known : leb (sender_of k) 255 ≡ true = ground arith in
    let loaded = get_elem?-eq-get_or counter (sender_of k) 0 (omega arith) in
    let fits : ltb (get_or counter (sender_of k) 0 + 1) (2 ^ 31) ≡ true = ground arith in
    rw (room, above, known, loaded, fits)

count_beacon-unknown :
    (k : Packet) (counter : List ℕ)
    → IsSent k
    → maxid < sender_of k
    → count_beacon k counter ≡ ok counter
unfolding count_beacon
count_beacon-unknown k counter is high =
    let room : leb 4 k.size ≡ true = ground (arith, is.size) in
    let above : ltb (sender_of k) (2 ^ 31) ≡ true = ground (arith, is.id) in
    let unknown : leb (sender_of k) 255 ≡ false = ground arith in rw (room, above, unknown)

-- An id whose highest bit is set.
pub count_beacon-negative :
    (k : Packet) (counter : List ℕ)
    → 4 ≤ k.size
    → 2 ^ 31 ≤ sender_of k
    → count_beacon k counter ≡ fault
unfolding count_beacon
count_beacon-negative k counter size high =
    let room : leb 4 k.size ≡ true = ground arith in
    let below : ltb (sender_of k) (2 ^ 31) ≡ false = ground arith in rw (room, below)

-- What one packet adds to the counter of an id.
count_beacon-counts :
    (k : Packet) (counter : List ℕ)
    → IsSent k
    → length counter ≡ 256
    → ((i : ℕ) → i ≤ maxid → get_or counter i 0 + (if sender_of k == i then 1 else 0) < 2 ^ 31)
    → (out : List ℕ) × (count_beacon k counter ≡ ok out)
      × (length out ≡ 256)
      × ((i : ℕ)
          → i ≤ maxid
          → get_or out i 0 ≡ get_or counter i 0 + (if sender_of k == i then 1 else 0))
count_beacon-counts k counter is size fits = elim (dec_lt maxid (sender_of k)) [
  | yes high ↦ (
    counter,
    count_beacon-unknown k counter is high,
    size,
    λ i small. let other : (sender_of k == i) ≡ false = ground arith in rw other (omega arith),
  )
  | no low ↦ (
    set counter (sender_of k) (get_or counter (sender_of k) 0 + 1),
    count_beacon-known k counter is size (omega arith) (
        let itself : (sender_of k == sender_of k) ≡ true = ground arith in
        let small = fits (sender_of k) (omega arith) in rw itself at small),
    length-set counter (sender_of k) (get_or counter (sender_of k) 0 + 1) ∙ size,
    λ i small. elim (ℕ_discrete (sender_of k) i) [
      | yes same ↦
          let test : (sender_of k == i) ≡ true = ground arith in
          rw test (
            ap
              (λ (j : ℕ).
                get_or (set counter (sender_of k) (get_or counter (sender_of k) 0 + 1)) j 0)
              (sym same)
            ∙ get_or-set_same counter (sender_of k) (get_or counter (sender_of k) 0 + 1) 0
                (omega arith)
            ∙ ap (λ (j : ℕ). get_or counter j 0 + 1) same)
      | no other ↦
          let test : (sender_of k == i) ≡ false = ground arith in
          rw test (
            get_or-set_other counter (sender_of k) i (get_or counter (sender_of k) 0 + 1) 0 other
            ∙ omega arith)
    ],
  )
]

-- Packets whose ids have 31 bits are counted, as long as no counter passes INT_MAX: none of them makes the
-- program fault, and the counter of each id up to MAXID grows by the number of the packets that this id has
-- sent.
pub count_all-sent_by :
    (counter : List ℕ) (ks : List Packet)
    → length counter ≡ 256
    → All IsSent ks
    → ((i : ℕ) → i ≤ maxid → get_or counter i 0 + sent_by i ks < 2 ^ 31)
    → (out : List ℕ) × (count_all ks counter ≡ ok out)
      × (length out ≡ 256)
      × ((i : ℕ) → i ≤ maxid → get_or out i 0 ≡ get_or counter i 0 + sent_by i ks)
unfolding count_all sent_by
count_all-sent_by counter [] size is fits = (counter, refl, size, λ i small. omega arith)
count_all-sent_by counter (k ∷ ks) size is fits =
    let (once, first, size', adds) =
      count_beacon-counts k counter is.0 size (λ i small. omega (arith, fits i small)) in
    let (out, rest, long, total) =
      count_all-sent_by once ks size' is.1 (λ i small. omega (arith, fits i small, adds i small)) in
    (out, rw (first, rest), long, λ i small. omega (arith, adds i small, total i small))
