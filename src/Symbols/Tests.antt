-- ===== src/Symbols/Tests.antt =====
-- The round trip of radio2/src/symbols_test.c on one string, and the theorems on concrete buffers.
use old_radio.Base.{
  ℕ, ◌+◌, ◌-◌, ◌/◌, ◌≡◌, refl, arith, List, [], ◌∷◌, ◌++◌, All, IsBytes, length, take,
}
use old_radio.Base.Run.{ok}
use old_radio.Symbols.{bytes_to_symbols, symbols_to_bytes}
use old_radio.Symbols.Codes.{IsCode}
use old_radio.Symbols.RoundTrip.{symbols_to_bytes-bytes_to_symbols}
use old_radio.Symbols.Total.{symbols_to_bytes-total}

abbrev text : List ℕ
text = 72 ∷ 101 ∷ 108 ∷ 108 ∷ 111 ∷ 0 ∷ 255 ∷ 128 ∷ 7 ∷ []

abbrev sent : List ℕ
sent = 154 ∷ 151 ∷ 185 ∷ 106 ∷ 75 ∷ 233 ∷ 166 ∷ 54 ∷ 247 ∷ 230 ∷ 247 ∷ []

bytes_to_symbols_test : bytes_to_symbols text 9 ≡ ok sent
unfolding bytes_to_symbols
bytes_to_symbols_test = refl

symbols_to_bytes_test : symbols_to_bytes sent 11 ≡ ok text
unfolding symbols_to_bytes
symbols_to_bytes_test = refl

symbols_to_bytes-bytes_to_symbols_example :
    (symbols : List ℕ) × (bytes_to_symbols text 9 ≡ ok symbols)
    × (length symbols ≡ 9 + (9 + 6) / 7)
    × All IsCode symbols
    × ((rest : List ℕ) → symbols_to_bytes (symbols ++ rest) (length symbols) ≡ ok (take 9 text))
symbols_to_bytes-bytes_to_symbols_example =
    symbols_to_bytes-bytes_to_symbols text 9 (omega arith) (omega arith)

symbols_to_bytes-total_example :
    (out : List ℕ) × (symbols_to_bytes sent 11 ≡ ok out)
    × (length out ≡ 11 - (11 + 7) / 8)
    × IsBytes out
symbols_to_bytes-total_example = symbols_to_bytes-total sent 11 (omega arith)
