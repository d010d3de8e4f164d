-- ===== src/Symbols/RoundTrip.antt =====
-- radio2/src/symbols.c: whole strings, and the way back.
use mathlib.Core.List.{append_assoc, append-nil}
use native.Mathlib.Nat.{le_refl}
use old_radio.Base.{
  ℕ, zero, suc, ◌+◌, ◌-◌, ◌/◌, ◌≤◌, ◌<◌, ◌≡◌, refl, sym, ap, ◌∙◌, arith, List, [], ◌++◌, map,
  length, take, drop, All, All-append, All-take, All-drop, IsBytes, length-map, length-take,
  length-drop, length-append, drop-append, take-split, ltb, ◌==◌, true, false, dec_lt,
  if◌then◌else◌,
}
use old_radio.Base.Run.{Run, ok}
use old_radio.Symbols.{b2s, b2s_loop, bytes_to_symbols, s2b, s2b_loop, symbols_to_bytes}
use old_radio.Symbols.Codes.{code, IsCode, map-IsCode}
use old_radio.Symbols.Group.{
  group_digits, length-group_digits, group_digits-AreDigits, b2s-eq, s2b-group,
}

-- `run` encodes the bytes: it returns one symbol for each byte and one more for each group of seven
-- begun, all of them codes, and the decoding loop gives the bytes back whatever follows.
pub record Encodes (bytes : List ℕ) (run : Run (List ℕ)) : Type 0 where
  pub symbols : List ℕ
  pub returns : run ≡ ok symbols
  pub count : length symbols ≡ length bytes + (length bytes + 6) / 7
  pub codes : All IsCode symbols
  pub decodes :
      (fuel : ℕ) (rest : List ℕ)
      → length symbols ≤ fuel
      → s2b_loop fuel (symbols ++ rest) (length symbols) ≡ ok bytes

Encodes-nil : Encodes [] (ok [])
unfolding s2b_loop
Encodes-nil = record {
  symbols = [];
  returns = refl;
  count = omega arith;
  codes = tt;
  decodes = λ fuel rest h. no_symbols fuel rest;
}
  where
    no_symbols : (fuel : ℕ) (rest : List ℕ) → s2b_loop fuel rest 0 ≡ ok []
    no_symbols zero rest = refl
    no_symbols (suc fuel) rest = refl

b2s_loop-done :
    (fuel : ℕ) (bytes : List ℕ) (left : ℕ)
    → left < 7
    → b2s_loop fuel (drop 7 bytes) (left - 7) ≡ ok []
unfolding b2s_loop
b2s_loop-done zero bytes left h = refl
b2s_loop-done (suc fuel) bytes left h = let e : left - 7 ≡ 0 = omega arith in rw e

-- One step of each loop, the other calls shut.
b2s_loop-suc :
    (fuel : ℕ) (bytes : List ℕ) (left group : ℕ) (symbols more : List ℕ)
    → 0 < left
    → group ≡ (if ltb left 7 then left else 7)
    → b2s bytes group ≡ ok symbols
    → b2s_loop fuel (drop 7 bytes) (left - 7) ≡ ok more
    → b2s_loop (suc fuel) bytes left ≡ ok (symbols ++ more)
unfolding b2s_loop
b2s_loop-suc fuel bytes left group symbols more pos e first rest =
    let some_left : (left == 0) ≡ false = ground arith in rw (some_left, ← e, first, rest)

pub s2b_loop-last :
    (fuel : ℕ) (symbols bytes : List ℕ) (left : ℕ)
    → 0 < left
    → left < 8
    → s2b symbols left ≡ ok bytes
    → length bytes < 7
    → s2b_loop (suc fuel) symbols left ≡ ok bytes
unfolding s2b_loop
s2b_loop-last fuel symbols bytes left pos small first short =
    let some_left : (left == 0) ≡ false = ground arith in
    let group : ltb left 8 ≡ true = ground arith in
    let stop : ltb (length bytes) 7 ≡ true = ground arith in rw (some_left, group, first, stop)

pub s2b_loop-more :
    (fuel : ℕ) (symbols bytes tail : List ℕ) (left : ℕ)
    → 8 ≤ left
    → s2b symbols 8 ≡ ok bytes
    → length bytes ≡ 7
    → s2b_loop fuel (drop 8 symbols) (left - 8) ≡ ok tail
    → s2b_loop (suc fuel) symbols left ≡ ok (bytes ++ tail)
unfolding s2b_loop
s2b_loop-more fuel symbols bytes tail left big first full rest =
    let some_left : (left == 0) ≡ false = ground arith in
    let group : ltb left 8 ≡ false = ground arith in
    let go : ltb (length bytes) 7 ≡ false = ground arith in rw (some_left, group, first, go, rest)

-- The last group, of fewer than seven bytes.
Encodes-last :
    (fuel : ℕ) (bytes : List ℕ) (left : ℕ)
    → 0 < left
    → left < 7
    → left ≤ length bytes
    → IsBytes bytes
    → Encodes (take left bytes) (b2s_loop (suc fuel) bytes left)
Encodes-last fuel bytes left pos small h bs =
    let group = take left bytes in
    let size : length group ≡ left = omega (arith, length-take left bytes) in
    let symbols = map code (group_digits group) in
    let count : length symbols ≡ left + 1 =
      length-map code (group_digits group) ∙ omega (arith, length-group_digits group) in
    let begun : length symbols ≡ length group + 1 = omega arith in
    record {
      symbols = symbols;
      returns =
          b2s_loop-suc fuel bytes left left symbols [] pos (ground arith)
            (b2s-eq bytes left pos (omega arith) h bs) (b2s_loop-done fuel bytes left small)
          ∙ ap ok (append-nil symbols);
      count = omega arith;
      codes = map-IsCode (group_digits group) (group_digits-AreDigits group);
      decodes = elim [
        | zero ↦ λ rest k. absurd (omega arith)
        | suc f ↦ λ rest k.
            s2b_loop-last f (symbols ++ rest) group (length symbols) (omega arith) (omega arith)
              (rw begun
                (s2b-group group rest (omega arith) (omega arith) (All-take _ left bytes bs)))
              (omega arith)
      ];
    }

left_over : (xs ys : List ℕ) → length xs ≡ 8 → length (xs ++ ys) - 8 ≡ length ys
left_over xs ys h = omega (arith, length-append xs ys)

-- A full group before the rest.
Encodes-more :
    (fuel : ℕ) (bytes : List ℕ) (left : ℕ)
    → 7 ≤ left
    → left ≤ length bytes
    → IsBytes bytes
    → Encodes (take (left - 7) (drop 7 bytes)) (b2s_loop fuel (drop 7 bytes) (left - 7))
    → Encodes (take left bytes) (b2s_loop (suc fuel) bytes left)
Encodes-more fuel bytes left big h bs rest_of =
    let group = take 7 bytes in
    let size : length group ≡ 7 = omega (arith, length-take 7 bytes) in
    let head = map code (group_digits group) in
    let count : length head ≡ 8 =
      length-map code (group_digits group) ∙ omega (arith, length-group_digits group) in
    let more = rest_of.symbols in
    let whole = length-append head more in
    let cut = take-split left 7 bytes big in
    let eight : length group + 1 ≡ 8 = omega arith in
    record {
      symbols = head ++ more;
      returns =
          b2s_loop-suc fuel bytes left 7 head more (omega arith) (ground arith)
            (b2s-eq bytes 7 (omega arith) (omega arith) (omega arith) bs) rest_of.returns;
      count = omega (
        arith,
        rest_of.count,
        ap length cut,
        length-append group (take (left - 7) (drop 7 bytes)),
      );
      codes =
          All-append IsCode head more
            (map-IsCode (group_digits group) (group_digits-AreDigits group)) rest_of.codes;
      decodes = elim [
        | zero ↦ λ rest k. absurd (omega arith)
        | suc f ↦ λ rest k.
            rw (append_assoc head more rest, cut)
              (s2b_loop-more f (head ++ (more ++ rest)) group (take (left - 7) (drop 7 bytes))
                (length (head ++ more)) (omega arith)
                (rw eight at (
                  s2b-group group (more ++ rest) (omega arith) (omega arith)
                    (All-take _ 7 bytes bs)))
                size
                (rw (drop-append 8 head (more ++ rest) (sym count), left_over head more count)
                  (rest_of.decodes f rest (omega arith))))
      ];
    }

b2s_loop-zero : (fuel : ℕ) (bytes : List ℕ) → b2s_loop fuel bytes 0 ≡ ok []
unfolding b2s_loop
b2s_loop-zero zero bytes = refl
b2s_loop-zero (suc fuel) bytes = refl

b2s_loop-Encodes :
    (fuel : ℕ) (bytes : List ℕ) (left : ℕ)
    → left ≤ fuel
    → left ≤ length bytes
    → IsBytes bytes
    → Encodes (take left bytes) (b2s_loop fuel bytes left)
b2s_loop-Encodes fuel bytes zero f h bs = rw (b2s_loop-zero fuel bytes) Encodes-nil
b2s_loop-Encodes zero bytes (suc left) f h bs = absurd (omega arith)
b2s_loop-Encodes (suc fuel) bytes (suc left) f h bs =
    let rest =
      b2s_loop-Encodes fuel (drop 7 bytes) (suc left - 7) (omega arith)
        (omega (arith, length-drop 7 bytes)) (All-drop _ 7 bytes bs) in
    elim (dec_lt (suc left) 7) [
      | yes small ↦ Encodes-last fuel bytes (suc left) (omega arith) small h bs
      | no big ↦ Encodes-more fuel bytes (suc left) (omega arith) h bs rest
    ]

-- On bytes, bytes_to_symbols returns. The symbols are one for each byte and one more for each group
-- of seven begun; each is the code of a 7-bit value, so none is a reserved symbol; and
-- symbols_to_bytes on them, whatever stands behind them in the buffer, returns the bytes.
pub symbols_to_bytes-bytes_to_symbols :
    (bytes : List ℕ) (nbytes : ℕ)
    → nbytes ≤ length bytes
    → IsBytes bytes
    → (symbols : List ℕ) × (bytes_to_symbols bytes nbytes ≡ ok symbols)
      × (length symbols ≡ nbytes + (nbytes + 6) / 7)
      × All IsCode symbols
      × ((rest : List ℕ)
          → symbols_to_bytes (symbols ++ rest) (length symbols) ≡ ok (take nbytes bytes))
unfolding bytes_to_symbols symbols_to_bytes
symbols_to_bytes-bytes_to_symbols bytes nbytes h bs =
    let e = b2s_loop-Encodes nbytes bytes nbytes (le_refl _) h bs in
    let size : length (take nbytes bytes) ≡ nbytes = omega (arith, length-take nbytes bytes) in
    (
      e.symbols,
      e.returns,
      e.count ∙ omega arith,
      e.codes,
      λ rest. e.decodes (length e.symbols) rest (le_refl _),
    )
