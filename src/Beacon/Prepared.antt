-- ===== src/Beacon/Prepared.antt =====
-- radio/serial/beacon.c: what beacon_prepare writes, beacon_recv reads.
use mathlib.Core.List.{append_assoc}
use old_radio.Base.{
  ℕ, zero, suc, ◌+◌, ◌*◌, ◌/◌, ◌%◌, ◌^◌, ◌≤◌, ◌<◌, ◌≡◌, refl, sym, ap, ◌∙◌, arith, inl, inr, List,
  [], ◌∷◌, ◌++◌, All, IsBytes, All-append, length, length-append, get_elem?, some, drop,
  drop-append, ◌==◌, ltb, leb, true, false, not, ◌&&◌, ◌||◌, Bool-cases,
}
use old_radio.Base.Run.{Run, ok}
use old_radio.Beacon.{
  Neighbour, Heard, heard_size, strat_inf, maxstrat, prepare_loop, beacon_recv, beacon_prepare,
}
use old_radio.Beacon.Wire.{
  wire, wires, heards, heard_of, recv_wire, IsHeard, IsI32, heard_of-wire, word32,
}
use old_radio.Symbols.Digits.{digits, digits-AreDigits}

length-wire : (h : Heard) → length (wire h) ≡ heard_size
unfolding wire digits
length-wire h = refl

pub IsBytes-append : (xs ys : List ℕ) → IsBytes xs → IsBytes ys → IsBytes (xs ++ ys)
IsBytes-append xs ys h k = All-append (λ b. b < 256) xs ys h k

wire-IsBytes : (h : Heard) → IsHeard h → IsBytes (wire h)
unfolding wire
wire-IsBytes h is =
    let word : (n w : ℕ) → IsBytes (digits 256 n w) =
      λ n w. digits-AreDigits 256 n w (omega arith) in
    let x = digits 256 4 (word32 h.vloc.x) in
    let y = digits 256 4 (word32 h.vloc.y) in
    let z = digits 256 4 (word32 h.vloc.z) in
    let place = IsBytes-append x (y ++ z) (word 4 _) (IsBytes-append y z (word 4 _) (word 4 _)) in
    IsBytes-append (digits 256 2 h.id) (h.stratum ∷ (x ++ (y ++ z))) (word 2 h.id)
      (is.stratum, place)

pub wires-IsBytes : (hs : List Heard) → All IsHeard hs → IsBytes (wires hs)
unfolding wires
wires-IsBytes [] is = tt
wires-IsBytes (h ∷ hs) is =
    IsBytes-append (wire h) (wires hs) (wire-IsBytes h is.0) (wires-IsBytes hs is.1)

pub length-wires : (hs : List Heard) → length (wires hs) ≡ heard_size * length hs
unfolding wires
length-wires [] = refl
length-wires (h ∷ hs) =
    omega (arith, length-append (wire h) (wires hs), length-wire h, length-wires hs)

wires-cons : (h : Heard) (hs : List Heard) → wires (h ∷ hs) ≡ wire h ++ wires hs
unfolding wires
wires-cons h hs = refl

heards-suc :
    (n : ℕ) (bytes front rest : List ℕ)
    → bytes ≡ front ++ rest
    → length front ≡ heard_size
    → heards (suc n) bytes ≡ heard_of (front ++ rest) ∷ heards n rest
unfolding heards
heards-suc n bytes front rest e size =
    ap (λ (bs : List ℕ). heard_of bs ∷ heards n (drop heard_size bs)) e
    ∙ ap (λ (bs : List ℕ). heard_of (front ++ rest) ∷ heards n bs)
        (drop-append heard_size front rest (sym size))

heards-wires :
    (hs : List Heard) (rest : List ℕ) → All IsHeard hs → heards (length hs) (wires hs ++ rest) ≡ hs
heards-wires [] rest is = unfold heards in refl
heards-wires (h ∷ hs) rest is =
    let parts : wires (h ∷ hs) ++ rest ≡ wire h ++ (wires hs ++ rest) =
      ap (λ (s : List ℕ). s ++ rest) (wires-cons h hs) ∙ append_assoc (wire h) (wires hs) rest in
    heards-suc (length hs) (wires (h ∷ hs) ++ rest) (wire h) (wires hs ++ rest) parts
      (length-wire h)
    ∙ ap (λ (x : Heard). x ∷ heards (length hs) (wires hs ++ rest))
        (heard_of-wire h (wires hs ++ rest) is.0)
    ∙ ap (◌∷◌ h) (heards-wires hs rest is.1)

-- Reading the bytes of some beacons, with others behind them, is beacon_recv of the beacons.
pub recv_wire-wires :
    (identifier stamp : ℕ) (h : Heard) (hs : List Heard) (rest : List ℕ) (table : List Neighbour)
    → All IsHeard (h ∷ hs)
    → recv_wire identifier stamp (wires (h ∷ hs) ++ rest) (length (wires (h ∷ hs))) table
      ≡ beacon_recv identifier stamp (h ∷ hs) table
unfolding recv_wire
recv_wire-wires identifier stamp h hs rest table is =
    let size = length-wires (h ∷ hs) in
    let whole : (heard_size * length (h ∷ hs) % heard_size == 0) ≡ true = ground arith in
    let any : (heard_size * length (h ∷ hs) == 0) ≡ false = ground arith in
    let count : heard_size * length (h ∷ hs) / heard_size ≡ length (h ∷ hs) = omega arith in
    let read = heards-wires (h ∷ hs) rest is in rw (size, whole, any, count, read)

-- An entry of the table whose fields hold what they should.
pub record IsEntry (n : Neighbour) : Type 0 where
  pub id : n.id < 2 ^ 16
  pub stratum : n.stratum < 2 ^ 8
  pub x : IsI32 n.vloc.x
  pub y : IsI32 n.vloc.y
  pub z : IsI32 n.vloc.z

get_elem?-All :
    (ns : List Neighbour) (i : ℕ)
    → All IsEntry ns
    → i < length ns
    → (n : Neighbour) × (get_elem? ns i ≡ some n) × IsEntry n
get_elem?-All [] i h k = absurd (omega arith)
get_elem?-All (n ∷ ns) zero h k = (n, refl, h.0)
get_elem?-All (n ∷ ns) (suc i) h k = get_elem?-All ns i h.1 (omega arith)

-- The loop of beacon_prepare returns, with at most one beacon for each entry that is left.
record Prepares (left : ℕ) (run : Run (List Heard)) : Type 0 where
  beacons : List Heard
  returns : run ≡ ok beacons
  right : All IsHeard beacons
  few : length beacons ≤ left

prepare_loop-Prepares :
    (table : List Neighbour) (size : ℕ) (ns : List Neighbour) (j : ℕ)
    → All IsEntry table
    → All IsEntry ns
    → j + length ns ≤ length table
    → Prepares (length ns) (prepare_loop table size ns j)
unfolding prepare_loop
prepare_loop-Prepares table size [] j h k room = record {
  beacons = [];
  returns = refl;
  right = tt;
  few = omega arith;
}
prepare_loop-Prepares table size (n ∷ ns) j h k room =
    let skip = prepare_loop-Prepares table size ns j h k.1 (omega arith) in
    let go = prepare_loop-Prepares table size ns (j + 1) h k.1 (omega arith) in
    let (at_j, loaded, is_j) = get_elem?-All table j h (omega arith) in
    let skipped = not n.active || (leb maxstrat n.stratum && not (n.stratum == strat_inf)) in
    elim (Bool-cases (ltb (j * heard_size) size)) [
      | inr full ↦ record { beacons = []; returns = rw full; right = tt; few = omega arith }
      | inl more ↦ elim (Bool-cases skipped) [
        | inl yes_skip ↦ record {
          beacons = skip.beacons;
          returns = rw (more, yes_skip) skip.returns;
          right = skip.right;
          few = omega (arith, skip.few);
        }
        | inr no_skip ↦ record {
          beacons = record { id = n.id; stratum = at_j.stratum; vloc = n.vloc } ∷ go.beacons;
          returns = rw (more, no_skip, loaded, go.returns);
          right = (
            record { id = k.0.id; stratum = is_j.stratum; x = k.0.x; y = k.0.y; z = k.0.z },
            go.right,
          );
          few = omega (arith, go.few);
        }
      ]
    ]

-- The entry of the node itself comes first.
pub beacon_prepare-own :
    (me : Neighbour) (ns : List Neighbour) (size : ℕ)
    → All IsEntry (me ∷ ns)
    → me.active ≡ true
    → me.stratum ≡ 0
    → 0 < size
    → (hs : List Heard) × (beacon_prepare size (me ∷ ns)
        ≡ ok (record { id = me.id; stratum = me.stratum; vloc = me.vloc } ∷ hs))
      × All IsHeard (record { id = me.id; stratum = me.stratum; vloc = me.vloc } ∷ hs)
      × (length hs ≤ length ns)
unfolding beacon_prepare prepare_loop
beacon_prepare-own me ns size h active top larger =
    let go = prepare_loop-Prepares (me ∷ ns) size ns 1 h h.1 (omega arith) in
    let room : ltb (0 * heard_size) size ≡ true = ground arith in
    (
      go.beacons,
      rw (room, active, top, go.returns),
      (record { id = h.0.id; stratum = h.0.stratum; x = h.0.x; y = h.0.y; z = h.0.z }, go.right),
      go.few,
    )
