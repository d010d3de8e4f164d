-- ===== src/Programs/Heard.antt =====
-- radio/serial/virtloc.c: the packets that a node takes for beacons, and that one node hears what another
-- says.
use mathlib.Core.List.{append_assoc}
use mathlib.Core.Path.{subst}
use old_radio.Base.{
  ℕ, ◌+◌, ◌-◌, ◌*◌, ◌≤◌, ◌<◌, ◌≡◌, refl, sym, ap, ◌∙◌, arith, List, [], ◌∷◌, ◌++◌, true, false, All,
  IsBytes, ltb, leb, ◌==◌, ◌&&◌, length, take, drop, take-split, take-append, length-append,
  length-take, length-drop, inl, inr, Bool-cases, ℕ_discrete, dec_lt, ◌%◌, ◌^◌,
}
use old_radio.Base.Run.{ok}
use old_radio.Crc.Stored.{
  crc16_check-crc16_set, crc16_check-take, crc16_check-eq, crc16-short, stored,
}
use old_radio.Crc
use old_radio.Crc.Loop.{fold}
use old_radio.Checksum.{crc16_set, crc16_check}
use old_radio.Checksum.Same.{crc16_set-same, crc16_check-same}
use old_radio.Beacon.{Neighbour, Heard, heard_size, maxneighbours, beacon_recv, beacon_prepare}
use old_radio.Beacon.Wire.{wires, recv_wire, prepare_wire, IsHeard}
use old_radio.Beacon.Prepared.{IsEntry, recv_wire-wires, beacon_prepare-own, length-wires}
use old_radio.Programs.{hear, said, buffer_size}

-- Sealed packets are accepted, whatever stands behind them.
pub sealed-accepted :
    (packet out rest : List ℕ) (n : ℕ)
    → 2 ≤ n
    → n ≤ length packet
    → crc16_set packet n ≡ ok out
    → (length out ≡ length packet)
      × (take (n - 2) out ≡ take (n - 2) packet)
      × (crc16_check (take n out ++ rest) n ≡ ok true)
sealed-accepted packet out rest n h k e =
    let (sealed, returns, same, size, accepted) = crc16_check-crc16_set packet n h k in
    let is : sealed ≡ out =
      let p : ok sealed ≡ ok out = sym returns ∙ sym (crc16_set-same packet n) ∙ e in cc in
    let long : length (take n sealed) ≡ n = omega (arith, length-take n sealed) in
    let front : take n sealed ≡ take n (take n sealed ++ rest) =
      sym (take-append n (take n sealed) rest (sym long)) in
    let checked : crc16_check (take n sealed ++ rest) n ≡ ok true =
      crc16_check-same (take n sealed ++ rest) n
      ∙ sym (
          crc16_check-take sealed (take n sealed ++ rest) n h (omega arith)
            (omega (arith, length-append (take n sealed) rest)) front)
      ∙ accepted in
    subst
      (λ (o : List ℕ).
        (length o ≡ length packet)
        × (take (n - 2) o ≡ take (n - 2) packet)
        × (crc16_check (take n o ++ rest) n ≡ ok true))
      is (size, same, checked)

-- A packet that is accepted is a beacon's bytes behind the kind.
hear-accepted :
    (identifier stamp n : ℕ) (body rest : List ℕ) (table : List Neighbour)
    → n ≡ length body + 3
    → crc16_check (1 ∷ (body ++ rest)) n ≡ ok true
    → hear identifier stamp (1 ∷ (body ++ rest)) n table
      ≡ recv_wire identifier stamp (body ++ rest) (length body) table
unfolding hear
hear-accepted identifier stamp n body rest table count good =
    let any : ltb 0 n ≡ true = ground arith in
    let left : n - 3 ≡ length body = omega arith in rw (any, good, left)

prepare_wire-ok :
    (size : ℕ) (table : List Neighbour) (hs : List Heard)
    → beacon_prepare size table ≡ ok hs
    → prepare_wire size table ≡ ok (wires hs)
unfolding prepare_wire
prepare_wire-ok size table hs e = rw e

said-packet :
    (b n : ℕ) (bs body out : List ℕ) (table : List Neighbour)
    → prepare_wire (buffer_size - 1) table ≡ ok body
    → n ≡ length body + 3
    → length body + 1 ≤ buffer_size
    → crc16_set (1 ∷ (body ++ drop (length body) bs)) n ≡ ok out
    → said (b ∷ bs) table ≡ ok (out, n)
unfolding said
said-packet b n bs body out table prepared count room sealed =
    let kind : Crc.store (b ∷ bs) 0 1 ≡ ok (1 ∷ bs) =
      let first : ltb 0 (length (b ∷ bs)) ≡ true = ground arith in rw first in
    let fits : leb (length body + 1) buffer_size ≡ true = ground arith in
    rw (kind, prepared, fits, ← count, sealed)

-- The two parts of a sealed packet with others behind it.
pub split-sealed :
    (n kind : ℕ) (out body rest : List ℕ)
    → n ≡ length body + 3
    → take (n - 2) out ≡ kind ∷ body
    → (tail : List ℕ) × (take n out ++ rest ≡ kind ∷ (body ++ tail))
split-sealed n kind out body rest count front =
    let more = take (n - (n - 2)) (drop (n - 2) out) in
    (
      more ++ rest,
      ap (λ (xs : List ℕ). xs ++ rest) (take-split n (n - 2) out (omega arith))
          ∙ append_assoc (take (n - 2) out) more rest
          ∙ ap (λ (xs : List ℕ). xs ++ (more ++ rest)) front,
    )

-- A sealed packet of some beacons is heard as those beacons.
hear-sealed :
    (identifier stamp n : ℕ) (bs out rest : List ℕ) (h : Heard) (hs : List Heard)
    (table : List Neighbour)
    → All IsHeard (h ∷ hs)
    → n ≡ length (wires (h ∷ hs)) + 3
    → length (wires (h ∷ hs)) + 2 ≤ length bs
    → crc16_set (1 ∷ (wires (h ∷ hs) ++ drop (length (wires (h ∷ hs))) bs)) n ≡ ok out
    → hear identifier stamp (take n out ++ rest) n table
      ≡ beacon_recv identifier stamp (h ∷ hs) table
hear-sealed identifier stamp n bs out rest h hs table right count room sealed =
    let body = wires (h ∷ hs) in
    let behind = drop (length body) bs in
    let packet = 1 ∷ (body ++ behind) in
    let long : n ≤ length packet =
      omega (arith, length-append body behind, length-drop (length body) bs) in
    let (size, same, good) = sealed-accepted packet out rest n (omega arith) long sealed in
    let cut : n - 2 ≡ length (1 ∷ body) = omega arith in
    let front : take (n - 2) out ≡ 1 ∷ body = same ∙ take-append (n - 2) (1 ∷ body) behind cut in
    let (tail, parts) = split-sealed n 1 out body rest count front in
    let accepted : crc16_check (1 ∷ (body ++ tail)) n ≡ ok true =
      ap (λ (xs : List ℕ). crc16_check xs n) (sym parts) ∙ good in
    ap (λ (xs : List ℕ). hear identifier stamp xs n table) parts
    ∙ hear-accepted identifier stamp n body tail table count accepted
    ∙ recv_wire-wires identifier stamp h hs tail table right

-- The beacon that a node says, another hears: with a buffer of 1024 bytes and a table of at most MAXNEIGH
-- entries within the ranges of their types, the node's own entry the first of them, the node says a
-- packet of the beacons of beacon_prepare; and hear on the packet's bytes, whatever stands behind them
-- in the buffer, does to any other table what beacon_recv does with those beacons.
pub hear-said :
    (identifier stamp : ℕ) (buffer rest : List ℕ) (me : Neighbour) (ns table : List Neighbour)
    → length buffer ≡ buffer_size
    → All IsEntry (me ∷ ns)
    → me.active ≡ true
    → me.stratum ≡ 0
    → length (me ∷ ns) ≤ maxneighbours
    → (hs : List Heard) × (out : List ℕ) × (n : ℕ) × (beacon_prepare (buffer_size - 1) (me ∷ ns)
        ≡ ok hs)
      × (said buffer (me ∷ ns) ≡ ok (out, n))
      × (n ≡ heard_size * length hs + 3)
      × (hear identifier stamp (take n out ++ rest) n table ≡ beacon_recv identifier stamp hs table)
hear-said identifier stamp [] rest me ns table size right active top few = absurd (omega arith)
hear-said identifier stamp (b ∷ bs) rest me ns table size right active top few =
    let (hs, prepared, heard, fewer) =
      beacon_prepare-own me ns (buffer_size - 1) right active top (omega arith) in
    let own : Heard = record { id = me.id; stratum = me.stratum; vloc = me.vloc } in
    let body = wires (own ∷ hs) in
    let bytes = length-wires (own ∷ hs) in
    let n = length body + 3 in
    let behind = drop (length body) bs in
    let packet = 1 ∷ (body ++ behind) in
    let long : n ≤ length packet =
      omega (arith, length-append body behind, length-drop (length body) bs) in
    let (out, returns, same, whole, accepted) = crc16_check-crc16_set packet n (omega arith) long in
    let sealed : crc16_set packet n ≡ ok out = crc16_set-same packet n ∙ returns in
    (
      own ∷ hs,
      out,
      n,
      prepared,
      said-packet b n bs body out (me ∷ ns) (prepare_wire-ok _ _ (own ∷ hs) prepared) refl
          (omega arith) sealed,
      omega arith,
      hear-sealed identifier stamp n bs out rest own hs table heard refl (omega arith) sealed,
    )

hear-unaccepted :
    (identifier stamp b n : ℕ) (bs : List ℕ) (table : List Neighbour)
    → crc16_check (b ∷ bs) n ≡ ok false
    → hear identifier stamp (b ∷ bs) n table ≡ ok table
unfolding hear
hear-unaccepted identifier stamp b n bs table bad = elim (Bool-cases (ltb 0 n && (b == 1))) [
  | inl asks ↦ rw (asks, bad)
  | inr other ↦ rw other
]

-- Two bytes that start with the kind of a beacon are not their own checksum, that of no bytes.
kind_only :
    (b c n : ℕ) (bs : List ℕ) → n ≡ 2 → c < 256 → (b ≡ 1) → crc16_check (b ∷ (c ∷ bs)) n ≡ ok false
unfolding stored fold
kind_only b c n bs two byte one =
    let eq = crc16_check-eq (b ∷ (c ∷ bs)) 2 (omega arith) (omega arith) in
    let differ : (0xffff == (1 + c * 2 ^ 8) % 2 ^ 16) ≡ false = ground arith in
    rw (two, one) (crc16_check-same (1 ∷ (c ∷ bs)) 2 ∙ (rw one at eq) ∙ ap ok differ)

-- beacon_recv is never given a negative length: whatever is in the buffer, fewer than three bytes leave
-- the table as it is, since one byte has no checksum, and two that are a right one, that of no bytes, do
-- not start with the kind of a beacon.
pub hear-short :
    (identifier stamp n : ℕ) (buffer : List ℕ) (table : List Neighbour)
    → length buffer ≡ buffer_size
    → IsBytes buffer
    → n < 3
    → hear identifier stamp buffer n table ≡ ok table
unfolding hear
hear-short identifier stamp n [] table size bytes short = absurd (omega arith)
hear-short identifier stamp n (b ∷ []) table size bytes short = absurd (omega arith)
hear-short identifier stamp n (b ∷ (c ∷ bs)) table size bytes short = elim (dec_lt n 2) [
  | yes less ↦
      hear-unaccepted identifier stamp b n (c ∷ bs) table
        (crc16_check-same (b ∷ (c ∷ bs)) n ∙ (crc16-short (b ∷ (c ∷ bs)) n less).1)
  | no more ↦ elim (ℕ_discrete b 1) [
    | yes one ↦
        hear-unaccepted identifier stamp b n (c ∷ bs) table
          (kind_only b c n bs (omega arith) (bytes.1.0) one)
    | no other ↦
        let kind : (b == 1) ≡ false = ground arith in
        let any : ltb 0 n ≡ true = ground arith in rw (any, kind)
  ]
]
