-- ===== src/Codec/Tests.antt =====
-- A table that reserves the first three bytes, with 6 and with 7 bits.
use old_radio.Base.{
  ℕ, ◌+◌, ◌-◌, ◌*◌, ◌≤◌, ◌<◌, ◌≡◌, refl, ap, arith, List, [], ◌∷◌, ◌++◌, All, length, take, ltb,
  false, true, if◌then◌else◌,
}
use old_radio.Base.Run.{ok, abort}
use old_radio.Base.Int.{ℤ, pos, negsuc}
use old_radio.Codec.{scheme, bytes_to_symbols, s2b, symbols_to_bytes, symbol_valid}
use old_radio.Codec.Group.{IsTable}
use old_radio.Codec.RoundTrip.{codec_round_trip}

abbrev pub encode : ℕ → ℕ
encode d = d + 3

abbrev pub decode : ℕ → ℤ
decode c = if ltb c 3 then negsuc 0 else pos (c - 3)

pub encode-IsTable : (count : ℕ) → IsTable (scheme count) encode decode
encode-IsTable count = record {
  inverse = λ d h. let big : ltb (d + 3) 3 ≡ false = ground arith in rw big (ap pos (omega arith));
}

abbrev text : List ℕ
text = 72 ∷ 101 ∷ 108 ∷ 108 ∷ 255 ∷ []

six_test :
    bytes_to_symbols (scheme 70) encode decode text 5 ≡ ok (11 ∷ 24 ∷ 9 ∷ 30 ∷ 47 ∷ 64 ∷ 18 ∷ [])
unfolding bytes_to_symbols scheme
six_test = refl

seven_test :
    bytes_to_symbols (scheme 130) encode decode text 5 ≡ ok (75 ∷ 77 ∷ 52 ∷ 102 ∷ 121 ∷ 34 ∷ [])
unfolding bytes_to_symbols scheme
seven_test = refl

-- A group of more symbols than fit in 64 bits stops the program.
s2b_test : s2b (scheme 70) encode decode text 11 ≡ abort
unfolding s2b scheme
s2b_test = refl

codec_round_trip_example :
    (symbols : List ℕ) × (groups : ℕ) × (bytes_to_symbols (scheme 70) encode decode text 5
      ≡ ok symbols)
    × (length symbols ≡ 5 + groups)
    × ((scheme 70).chunk_bytes * groups < 5 + (scheme 70).chunk_bytes)
    × (5 ≤ (scheme 70).chunk_bytes * groups)
    × All (λ c. symbol_valid (scheme 70) encode decode c ≡ true) symbols
    × ((rest : List ℕ)
        → symbols_to_bytes (scheme 70) encode decode (symbols ++ rest) (length symbols)
          ≡ ok (take 5 text))
codec_round_trip_example =
    codec_round_trip 70 encode decode (encode-IsTable 70) text 5 (omega arith) (omega arith)
