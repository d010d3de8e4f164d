-- ===== src/Symbols/Codes.antt =====
-- radio2/src/symbols.i: the two tables are each other's inverse, and leave out the reserved symbols.
use old_radio.Base.{
  ℕ, ◌<◌, ◌≡◌, refl, sym, ap, ◌∙◌, arith, Bool, true, false, ◌&&◌, ◌≢◌, List, [], ◌∷◌, get_or, map,
  ltb, ◌==◌, All, if◌then◌else◌,
}
use old_radio.Base.Int.{pos, to_u64}
use old_radio.Base.Tables.{all_below, holds_below}
use old_radio.Symbols.{symbol_valid, symbol_start, symbol_end, symbol_sync}
use old_radio.Symbols.Table.{symbol_encode, symbol_decode}

-- `symbol_encode[d]`, and `symbol_decode[s]` as the 64-bit number that s2b adds up.
unfoldable pub code : ℕ → ℕ
unfolding symbol_encode
code d = get_or symbol_encode d 0

unfoldable pub decoded : ℕ → ℕ
unfolding symbol_decode
decoded s = to_u64 (get_or symbol_decode s (pos 0))

-- A symbol that stands for a 7-bit value.
pub record IsCode (s : ℕ) : Type 0 where
  pub byte : s < 256
  pub valid : symbol_valid s ≡ true

good : ℕ → Bool
good d = ltb (code d) 256 && (symbol_valid (code d) && (decoded (code d) == d))

good_table : all_below 128 good ≡ true
unfolding all_below good code decoded symbol_valid
good_table = refl

good_code :
    (d : ℕ) → d < 128 → (code d < 256) × (symbol_valid (code d) ≡ true) × (decoded (code d) ≡ d)
unfolding good
good_code d h = ground (arith, holds_below 128 good d good_table h)

pub code-IsCode : (d : ℕ) → d < 128 → IsCode (code d)
code-IsCode d h = record { byte = (good_code d h).0; valid = (good_code d h).1 }

pub decoded-code : (d : ℕ) → d < 128 → decoded (code d) ≡ d
decoded-code d h = (good_code d h).2

pub map-IsCode : (ds : List ℕ) → All (λ d. d < 128) ds → All IsCode (map code ds)
map-IsCode [] h = tt
map-IsCode (d ∷ ds) h = (code-IsCode d h.0, map-IsCode ds h.1)

pub reserved_invalid :
    (symbol_valid symbol_start ≡ false)
    × (symbol_valid symbol_end ≡ false)
    × (symbol_valid symbol_sync ≡ false)
unfolding symbol_valid
reserved_invalid = (refl, refl, refl)

-- No code is the end symbol.
pub IsCode-ne-end : (s : ℕ) → IsCode s → s ≢ symbol_end
IsCode-ne-end s h e = cc (sym (reserved_invalid.1) ∙ ap symbol_valid (sym e) ∙ h.valid)

recovered : ℕ → Bool
recovered s = if symbol_valid s then ltb (decoded s) 128 && (code (decoded s) == s) else true

recovered_table : all_below 256 recovered ≡ true
unfolding all_below recovered code decoded symbol_valid
recovered_table = refl

-- symbol_valid accepts a byte exactly when it is the code of a 7-bit value: a code of a value below
-- 128 is valid and decodes to that value, and a valid byte decodes to a value below 128 whose code it is.
pub symbol_valid_iff :
    ((d : ℕ) → d < 128 → (symbol_valid (code d) ≡ true) × (decoded (code d) ≡ d))
    × ((s : ℕ) → s < 256 → symbol_valid s ≡ true → (decoded s < 128) × (code (decoded s) ≡ s))
unfolding recovered
symbol_valid_iff = (
  λ d h. ((code-IsCode d h).valid, decoded-code d h),
  λ s h v. ground (arith, v, holds_below 256 recovered s recovered_table h),
)
