-- ===== src/Beacon/Wire.antt =====
-- radio/serial/beacon.h: a beacon as the 15 bytes of the packed struct, the low byte of a number first,
-- and beacon_recv and beacon_prepare on a buffer of them.
use old_radio.Base.{
  ℕ, zero, suc, ◌-◌, ◌/◌, ◌%◌, ◌^◌, ◌<◌, ◌≡◌, ap, ◌∙◌, arith, List, [], ◌∷◌, ◌++◌, get_or, take,
  drop, ◌==◌, ltb, true, false, if◌then◌else◌,
}
use old_radio.Base.Run.{Run, ok, ◌>>=◌, ◌>>◌, assert}
use old_radio.Base.Int.{ℤ, pos, negsuc, signed32}
use old_radio.Symbols.Digits.{value, digits, value-digits}
use old_radio.Beacon.{Neighbour, Heard, heard_size, beacon_recv, beacon_prepare}

abbrev pub word32 : ℤ → ℕ
word32 (pos n) = n % 2 ^ 32
word32 (negsuc n) = 2 ^ 32 - 1 - n % 2 ^ 32

unfoldable pub wire : Heard → List ℕ
unfolding digits
wire h =
    digits 256 2 h.id
    ++ (h.stratum
        ∷ (digits 256 4 (word32 h.vloc.x)
            ++ (digits 256 4 (word32 h.vloc.y) ++ digits 256 4 (word32 h.vloc.z))))

-- The struct at the start of a buffer that is long enough.
unfoldable pub heard_of : List ℕ → Heard
unfolding value
heard_of bytes = record {
  id = value 256 (take 2 bytes);
  stratum = get_or bytes 2 0;
  vloc = record {
    x = signed32 (value 256 (take 4 (drop 3 bytes)));
    y = signed32 (value 256 (take 4 (drop 7 bytes)));
    z = signed32 (value 256 (take 4 (drop 11 bytes)));
  };
}

unfoldable pub wires : List Heard → List ℕ
unfolding wire
wires [] = []
wires (h ∷ hs) = wire h ++ wires hs

unfoldable pub heards : ℕ → List ℕ → List Heard
unfolding heard_of
heards zero bytes = []
heards (suc n) bytes = heard_of bytes ∷ heards n (drop heard_size bytes)

-- beacon_recv of the buffer and the length. With no beacon in it, the first struct is what the buffer
-- held before, and only the assert looks at it.
unfoldable pub recv_wire : ℕ → ℕ → List ℕ → ℕ → List Neighbour → Run (List Neighbour)
unfolding heards
recv_wire identifier stamp bytes size table =
    assert (size % heard_size == 0)
    >> (if size == 0
        then assert ((heard_of bytes).stratum == 0) >> ok table
        else beacon_recv identifier stamp (heards (size / heard_size) bytes) table)

-- The bytes that beacon_prepare writes; the length that it returns is theirs.
unfoldable pub prepare_wire : ℕ → List Neighbour → Run (List ℕ)
unfolding wires
prepare_wire size table = beacon_prepare size table >>= λ hs. ok (wires hs)

-- A coordinate that an `int32_t` holds, and a beacon whose fields hold what they should.
abbrev pub IsI32 : ℤ → Type 0
IsI32 (pos n) = n < 2 ^ 31
IsI32 (negsuc n) = n < 2 ^ 31

pub record IsHeard (h : Heard) : Type 0 where
  pub id : h.id < 2 ^ 16
  pub stratum : h.stratum < 2 ^ 8
  pub x : IsI32 h.vloc.x
  pub y : IsI32 h.vloc.y
  pub z : IsI32 h.vloc.z

word32-lt : (a : ℤ) → word32 a < 2 ^ 32
word32-lt (pos n) = omega arith
word32-lt (negsuc n) = omega arith

signed32-word32 : (a : ℤ) → IsI32 a → signed32 (word32 a) ≡ a
signed32-word32 (pos n) h =
    let same : n % 2 ^ 32 ≡ n = omega arith in
    let small : ltb n (2 ^ 31) ≡ true = ground arith in rw (same, small)
signed32-word32 (negsuc n) h =
    let same : n % 2 ^ 32 ≡ n = omega arith in
    let big : ltb (2 ^ 32 - 1 - n) (2 ^ 31) ≡ false = ground arith in
    rw (same, big) (ap negsuc (omega arith))

coordinate : (a : ℤ) → IsI32 a → signed32 (value 256 (digits 256 4 (word32 a))) ≡ a
coordinate a h = ap signed32 (value-digits 8 4 (word32 a) (word32-lt a)) ∙ signed32-word32 a h

pub heard_of-wire : (h : Heard) (rest : List ℕ) → IsHeard h → heard_of (wire h ++ rest) ≡ h
unfolding heard_of wire digits
heard_of-wire h rest is =
    let id : value 256 (digits 256 2 h.id) ≡ h.id = value-digits 8 2 h.id is.id in
    rw (id, coordinate h.vloc.x is.x, coordinate h.vloc.y is.y, coordinate h.vloc.z is.z)
