-- ===== src/Codec/RoundTrip.antt =====
-- radio/serial/symbols.c: whole strings, and the way back, with either number of bits.
use mathlib.Core.List.{append_assoc, append-nil}
use native.Mathlib.Nat.{le_refl}
use old_radio.Base.{
  ℕ, zero, suc, ◌+◌, ◌-◌, ◌*◌, ◌≤◌, ◌<◌, ◌≡◌, refl, sym, ap, ◌∙◌, arith, List, [], ◌++◌, map,
  length, take, drop, All, All-append, All-take, All-drop, IsBytes, length-map, length-take,
  length-drop, length-append, drop-append, take-split, true, dec_lt,
}
use old_radio.Base.Run.{Run, ok}
use old_radio.Base.Int.{ℤ}
use old_radio.Codec.{
  Scheme, scheme, b2s_loop, bytes_to_symbols, s2b_loop, symbols_to_bytes, symbol_valid,
}
use old_radio.Codec.Steps.{
  min-below, min-above, s2b_loop-zero, b2s_loop-zero, b2s_loop-suc, s2b_loop-last, s2b_loop-more,
}
use old_radio.Codec.Group.{
  IsScheme, scheme-IsScheme, IsTable, encode-valid, group_digits, length-group_digits,
  group_digits-AreDigits, b2s-eq, s2b-group,
}

module _ (s : Scheme) (symbol_encode : ℕ → ℕ) (symbol_decode : ℕ → ℤ) (is : IsScheme s)
    (table : IsTable s symbol_encode symbol_decode) where
  abbrev Valid : ℕ → Type 0
  Valid c = symbol_valid s symbol_encode symbol_decode c ≡ true

  -- `run` encodes the bytes: it returns valid symbols, one for each byte and one more for each group
  -- begun, and the decoding loop gives the bytes back whatever follows.
  record Encodes (bytes : List ℕ) (run : Run (List ℕ)) : Type 0 where
    symbols : List ℕ
    returns : run ≡ ok symbols
    groups : ℕ
    count : length symbols ≡ length bytes + groups
    begun : s.chunk_bytes * groups < length bytes + s.chunk_bytes
    whole : length bytes ≤ s.chunk_bytes * groups
    codes : All Valid symbols
    decodes :
        (fuel : ℕ) (rest : List ℕ)
        → length symbols ≤ fuel
        → s2b_loop s symbol_encode symbol_decode fuel (symbols ++ rest) (length symbols) ≡ ok bytes

  Encodes-nil : Encodes [] (ok [])
  Encodes-nil = record {
    symbols = [];
    returns = refl;
    groups = 0;
    count = refl;
    begun = omega (arith, is.positive);
    whole = omega arith;
    codes = tt;
    decodes = λ fuel rest h. s2b_loop-zero s symbol_encode symbol_decode fuel rest;
  }

  -- The last group, of fewer bytes than fit in one.
  Encodes-last :
      (fuel : ℕ) (bytes : List ℕ) (left : ℕ)
      → 0 < left
      → left < s.chunk_bytes
      → left ≤ length bytes
      → IsBytes bytes
      → Encodes (take left bytes) (b2s_loop s symbol_encode symbol_decode (suc fuel) bytes left)
  Encodes-last fuel bytes left some small h bs =
      let group = take left bytes in
      let size : length group ≡ left = omega (arith, length-take left bytes) in
      let ds = group_digits s symbol_encode symbol_decode is table group in
      let symbols = map symbol_encode ds in
      let count : length symbols ≡ length group + 1 =
        length-map symbol_encode ds
        ∙ length-group_digits s symbol_encode symbol_decode is table group in
      let more = is.one_more in
      let empty : left - s.chunk_bytes ≡ 0 = omega arith in
      record {
        symbols = symbols;
        returns =
            b2s_loop-suc s symbol_encode symbol_decode fuel bytes left left symbols [] some
              (min-below left s.chunk_bytes small)
              (b2s-eq s symbol_encode symbol_decode is table bytes left some (omega arith) h bs)
              (rw empty
                (b2s_loop-zero s symbol_encode symbol_decode fuel (drop s.chunk_bytes bytes)))
            ∙ ap ok (append-nil symbols);
        groups = 1;
        count = count;
        begun = omega arith;
        whole = omega arith;
        codes =
            encode-valid s symbol_encode symbol_decode is table ds
              (group_digits-AreDigits s symbol_encode symbol_decode is table group);
        decodes = elim [
          | zero ↦ λ rest k. absurd (omega arith)
          | suc f ↦ λ rest k.
              s2b_loop-last s symbol_encode symbol_decode f (symbols ++ rest) group (length symbols)
                (omega arith) (omega arith)
                (rw count (
                  s2b-group s symbol_encode symbol_decode is table group rest (omega arith)
                    (omega arith) (All-take _ left bytes bs)))
                (omega arith)
        ];
      }

  -- A full group before the rest.
  Encodes-more :
      (fuel : ℕ) (bytes : List ℕ) (left : ℕ)
      → 0 < left
      → s.chunk_bytes ≤ left
      → left ≤ length bytes
      → IsBytes bytes
      → Encodes (take (left - s.chunk_bytes) (drop s.chunk_bytes bytes)) (
          b2s_loop s symbol_encode symbol_decode fuel
            (drop s.chunk_bytes bytes)
            (left - s.chunk_bytes))
      → Encodes (take left bytes) (b2s_loop s symbol_encode symbol_decode (suc fuel) bytes left)
  Encodes-more fuel bytes left some big h bs rest_of =
      let group = take s.chunk_bytes bytes in
      let size : length group ≡ s.chunk_bytes = omega (arith, length-take s.chunk_bytes bytes) in
      let ds = group_digits s symbol_encode symbol_decode is table group in
      let head = map symbol_encode ds in
      let full = is.one_more in
      let positive = is.positive in
      let count : length head ≡ s.chunk_syms =
        length-map symbol_encode ds
        ∙ omega (arith, length-group_digits s symbol_encode symbol_decode is table group) in
      let more = rest_of.symbols in
      let whole = length-append head more in
      let cut = take-split left s.chunk_bytes bytes big in
      let begun : length group + 1 ≡ s.chunk_syms = omega arith in
      let tail = take (left - s.chunk_bytes) (drop s.chunk_bytes bytes) in
      let longer : length (take left bytes) ≡ s.chunk_bytes + length tail =
        omega (arith, ap length cut, length-append group tail) in
      let left_over : length (head ++ more) - s.chunk_syms ≡ length more = omega arith in
      record {
        symbols = head ++ more;
        returns =
            b2s_loop-suc s symbol_encode symbol_decode fuel bytes left s.chunk_bytes head more some
              (min-above left s.chunk_bytes big)
              (b2s-eq s symbol_encode symbol_decode is table bytes s.chunk_bytes positive
                (omega arith) (omega arith) bs)
              rest_of.returns;
        groups = rest_of.groups + 1;
        count = omega (arith, rest_of.count, longer);
        begun = omega (arith, rest_of.begun, longer);
        whole = omega (arith, rest_of.whole, longer);
        codes =
            All-append Valid head more
              (encode-valid s symbol_encode symbol_decode is table ds
                (group_digits-AreDigits s symbol_encode symbol_decode is table group))
              rest_of.codes;
        decodes = elim [
          | zero ↦ λ rest k. absurd (omega arith)
          | suc f ↦ λ rest k.
              rw (append_assoc head more rest, cut)
                (s2b_loop-more s symbol_encode symbol_decode f (head ++ (more ++ rest)) group
                  (take (left - s.chunk_bytes) (drop s.chunk_bytes bytes)) (length (head ++ more))
                  (omega arith) (omega arith)
                  (rw begun at (
                    s2b-group s symbol_encode symbol_decode is table group (more ++ rest)
                      (omega arith) (omega arith) (All-take _ s.chunk_bytes bytes bs)))
                  size
                  (rw (drop-append s.chunk_syms head (more ++ rest) (sym count), left_over)
                    (rest_of.decodes f rest (omega arith))))
        ];
      }

  b2s_loop-Encodes :
      (fuel : ℕ) (bytes : List ℕ) (left : ℕ)
      → left ≤ fuel
      → left ≤ length bytes
      → IsBytes bytes
      → Encodes (take left bytes) (b2s_loop s symbol_encode symbol_decode fuel bytes left)
  b2s_loop-Encodes fuel bytes zero f h bs =
      rw (b2s_loop-zero s symbol_encode symbol_decode fuel bytes) Encodes-nil
  b2s_loop-Encodes zero bytes (suc left) f h bs = absurd (omega arith)
  b2s_loop-Encodes (suc fuel) bytes (suc left) f h bs =
      let positive = is.positive in
      let rest =
        b2s_loop-Encodes fuel (drop s.chunk_bytes bytes) (suc left - s.chunk_bytes) (omega arith)
          (omega (arith, length-drop s.chunk_bytes bytes)) (All-drop _ s.chunk_bytes bytes bs) in
      elim (dec_lt (suc left) s.chunk_bytes) [
        | yes small ↦ Encodes-last fuel bytes (suc left) (omega arith) small h bs
        | no big ↦ Encodes-more fuel bytes (suc left) (omega arith) (omega arith) h bs rest
      ]

-- Whatever the number of symbols that the generated tables have, 64 or more for 6 bits and 128 or more
-- for 7: if decoding undoes encoding on the values of so many bits, bytes_to_symbols returns on bytes,
-- with no assert failing; all its symbols are valid; and symbols_to_bytes on them, whatever stands
-- behind them, returns the bytes. The symbols are one for each byte and one more for each group begun.
pub codec_round_trip :
    (count : ℕ) (symbol_encode : ℕ → ℕ) (symbol_decode : ℕ → ℤ)
    → IsTable (scheme count) symbol_encode symbol_decode
    → (bytes : List ℕ) (nbytes : ℕ) → nbytes ≤ length bytes
    → IsBytes bytes
    → (symbols : List ℕ) × (groups : ℕ) × (bytes_to_symbols
          (scheme count)
          symbol_encode
          symbol_decode
          bytes
          nbytes
        ≡ ok symbols)
      × (length symbols ≡ nbytes + groups)
      × ((scheme count).chunk_bytes * groups < nbytes + (scheme count).chunk_bytes)
      × (nbytes ≤ (scheme count).chunk_bytes * groups)
      × All (λ c. symbol_valid (scheme count) symbol_encode symbol_decode c ≡ true) symbols
      × ((rest : List ℕ)
          → symbols_to_bytes
              (scheme count)
              symbol_encode
              symbol_decode
              (symbols ++ rest)
              (length symbols)
            ≡ ok (take nbytes bytes))
unfolding bytes_to_symbols symbols_to_bytes
codec_round_trip count symbol_encode symbol_decode table bytes nbytes h bs =
    let e =
      b2s_loop-Encodes (scheme count) symbol_encode symbol_decode (scheme-IsScheme count) table
        nbytes bytes nbytes (le_refl _) h bs in
    let size : length (take nbytes bytes) ≡ nbytes = omega (arith, length-take nbytes bytes) in
    (
      e.symbols,
      e.groups,
      e.returns,
      omega (arith, e.count),
      omega (arith, e.begun),
      omega (arith, e.whole),
      e.codes,
      λ rest. e.decodes (length e.symbols) rest (le_refl _),
    )
