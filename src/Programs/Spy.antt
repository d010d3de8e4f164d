-- ===== src/Programs/Spy.antt =====
-- radio/serial/spy.c: the program that shows the symbols on the air, in groups of up to eight that are all
-- valid or all not, and the bytes of the valid ones.
use old_radio.Base.{
  ℕ, ◌≤◌, ◌<◌, ◌≡◌, refl, sym, ap, ◌∙◌, arith, inl, inr, List, [], ◌∷◌, ◌++◌, Bool, true, false,
  ◌&&◌, ◌||◌, not, ltb, leb, ◌==◌, if◌then◌else◌, length, length-append, All, All-append,
  Bool-cases,
}
use mathlib.Core.List.{append_assoc, append-nil}
use mathlib.Core.Path.{subst}
use old_radio.Base.Run.{Run, ok, ◌>>=◌, ◌>>◌, within}
use old_radio.Base.Int.{ℤ}
use old_radio.Codec.{scheme, symbols_to_bytes, symbol_valid}
use old_radio.Codec.Total.{symbols_to_bytes-total}

-- A line that is printed: the symbols, whether they are valid, and the bytes, which are empty if not.
pub record Line : Type 0 where
  pub symbols : List ℕ
  pub valid : Bool
  pub bytes : List ℕ

-- `symbols` up to `nsym`, `valid`, and the lines so far.
pub record Spy : Type 0 where
  pub symbols : List ℕ
  pub valid : Bool
  pub lines : List Line

abbrev pub spy_start : Spy
spy_start = record { symbols = []; valid = false; lines = [] }

-- The size of `symbols` and of `bytes`.
abbrev pub room : ℕ
room = 10

or-false : (a b : Bool) → a || b ≡ false → (a ≡ false) × (b ≡ false)
or-false true b h = cc h
or-false false b h = (refl, h)

agree : (a b : Bool) → (a && not b) || (not a && b) ≡ false → a ≡ b
agree true true h = refl
agree true false h = cc h
agree false true h = cc h
agree false false h = refl

module _ (count : ℕ) (symbol_encode : ℕ → ℕ) (symbol_decode : ℕ → ℤ) where
  abbrev pub is_valid : ℕ → Bool
  is_valid x = symbol_valid (scheme count) symbol_encode symbol_decode x

  abbrev pub ends_group : Spy → Bool → Bool
  ends_group s x_valid =
      (length s.symbols == 8) || ((x_valid && not s.valid) || (not x_valid && s.valid))

  unfoldable pub show : Spy → Bool → Run Spy
  show s x_valid =
      (if s.valid
        then symbols_to_bytes (scheme count) symbol_encode symbol_decode s.symbols
            (length s.symbols)
        else ok [])
      >>= λ bytes.
          within (leb (length bytes) room)
          >> ok (record {
            symbols = [];
            valid = x_valid;
            lines = s.lines ++ record { symbols = s.symbols; valid = s.valid; bytes = bytes } ∷ [];
          })

  -- The part of the loop behind a read that brings a symbol.
  unfoldable pub spy_step : ℕ → Spy → Run Spy
  unfolding show
  spy_step x s = (if ends_group s (is_valid x) then show s (is_valid x) else ok s) >>= λ next.
      within (ltb (length next.symbols) room)
      >> ok (record next { symbols = next.symbols ++ x ∷ [] })

  unfoldable pub spy_loop : List ℕ → Spy → Run Spy
  unfolding spy_step
  spy_loop [] s = ok s
  spy_loop (x ∷ xs) s = spy_step x s >>= spy_loop xs

  -- The symbols of the lines, one after the other.
  unfoldable pub shown : List Line → List ℕ
  shown [] = []
  shown (l ∷ ls) = l.symbols ++ shown ls

  abbrev pub Same : Bool → List ℕ → Type 0
  Same valid xs = All (λ x. is_valid x ≡ valid) xs

  -- A line as it should be.
  pub record IsLine (l : Line) : Type 0 where
    pub few : length l.symbols ≤ 8
    pub same : Same l.valid l.symbols

  record Inv (read : List ℕ) (s : Spy) : Type 0 where
    few : length s.symbols ≤ 8
    same : Same s.valid s.symbols
    lines : All IsLine s.lines
    all : shown s.lines ++ s.symbols ≡ read

  shown-append : (ls : List Line) (l : Line) → shown (ls ++ l ∷ []) ≡ shown ls ++ l.symbols
  unfolding shown
  shown-append [] l = append-nil l.symbols
  shown-append (k ∷ ls) l =
      ap (◌++◌ k.symbols) (shown-append ls l) ∙ sym (append_assoc k.symbols (shown ls) l.symbols)

  decoded-fits :
      (valid : Bool) (symbols : List ℕ)
      → length symbols ≤ 8
      → (bytes : List ℕ) × ((if valid
            then symbols_to_bytes
                (scheme count)
                symbol_encode
                symbol_decode
                symbols
                (length symbols)
            else ok [])
          ≡ ok bytes)
        × (length bytes ≤ 8)
  decoded-fits true symbols h =
      let (bytes, returns, size) =
        symbols_to_bytes-total count symbol_encode symbol_decode symbols in
      (bytes, returns, omega arith)
  decoded-fits false symbols h = ([], refl, omega arith)

  -- Showing a group.
  show-Inv :
      (read : List ℕ) (s : Spy) (x_valid : Bool)
      → Inv read s
      → (next : Spy) × (show s x_valid ≡ ok next)
        × (next.symbols ≡ [])
        × (next.valid ≡ x_valid)
        × All IsLine next.lines
        × (shown next.lines ≡ read)
  unfolding show
  show-Inv read s x_valid i =
      let (bytes, decoded, size) = decoded-fits s.valid s.symbols i.few in
      let fits : leb (length bytes) room ≡ true = ground arith in
      let line : Line = record { symbols = s.symbols; valid = s.valid; bytes = bytes } in
      (
        record { symbols = []; valid = x_valid; lines = s.lines ++ line ∷ [] },
        rw (decoded, fits),
        refl,
        refl,
        All-append IsLine s.lines (line ∷ []) i.lines (record { few = i.few; same = i.same }, tt),
        shown-append s.lines line ∙ i.all,
      )

  spy_step-Inv :
      (read : List ℕ) (x : ℕ) (s : Spy)
      → Inv read s
      → (next : Spy) × (spy_step x s ≡ ok next) × Inv (read ++ x ∷ []) next
  unfolding spy_step
  spy_step-Inv read x s i = elim (Bool-cases (ends_group s (is_valid x))) [
    | inl ends ↦
        let (next, e, empty, kind, lines, all) = show-Inv read s (is_valid x) i in
        let size : length next.symbols ≡ 0 = ap length empty in
        let fits : ltb (length next.symbols) room ≡ true = ground arith in
        let grown : next.symbols ++ x ∷ [] ≡ x ∷ [] = ap (λ (xs : List ℕ). xs ++ x ∷ []) empty in
        (
          record next { symbols = next.symbols ++ x ∷ [] },
          rw (ends, e, fits),
          record {
            few = omega (arith, ap length grown);
            same = rw (grown, kind) (refl, tt);
            lines = lines;
            all = rw grown (ap (λ (xs : List ℕ). xs ++ x ∷ []) all);
          },
        )
    | inr goes ↦
        let (not_full, same) =
          or-false (length s.symbols == 8)
            ((is_valid x && not s.valid) || (not (is_valid x) && s.valid)) goes in
        let kind = agree (is_valid x) s.valid same in
        let size : length s.symbols < 8 = ground (arith, not_full, i.few) in
        let fits : ltb (length s.symbols) room ≡ true = ground arith in
        (
          record s { symbols = s.symbols ++ x ∷ [] },
          rw (goes, fits),
          record {
            few = omega (arith, length-append s.symbols (x ∷ []));
            same = All-append (λ y. is_valid y ≡ s.valid) s.symbols (x ∷ []) i.same (kind, tt);
            lines = i.lines;
            all =
                sym (append_assoc (shown s.lines) s.symbols (x ∷ []))
                ∙ ap (λ (xs : List ℕ). xs ++ x ∷ []) i.all;
          },
        )
  ]

  spy_loop-Inv :
      (xs read : List ℕ) (s : Spy)
      → Inv read s
      → (next : Spy) × (spy_loop xs s ≡ ok next) × Inv (read ++ xs) next
  unfolding spy_loop
  spy_loop-Inv [] read s i = (s, refl, subst (λ (r : List ℕ). Inv r s) (sym (append-nil read)) i)
  spy_loop-Inv (x ∷ xs) read s i =
      let (once, first, j) = spy_step-Inv read x s i in
      let (next, rest, k) = spy_loop-Inv xs (read ++ x ∷ []) once j in
      (next, rw (first, rest), subst (λ (r : List ℕ). Inv r next) (append_assoc read (x ∷ []) xs) k)

  -- Whatever is on the air, spy stays in its two buffers of ten bytes. The lines that it has printed show
  -- groups of at most eight symbols that are all valid or all not, as the line says, and the symbols of
  -- the lines, with those that wait, are the symbols that were read, in their order.
  pub spy_loop-shown :
      (xs : List ℕ)
      → (s : Spy) × (spy_loop xs spy_start ≡ ok s)
        × All IsLine s.lines
        × (length s.symbols ≤ 8)
        × (shown s.lines ++ s.symbols ≡ xs)
  unfolding shown
  spy_loop-shown xs =
      let (s, returns, i) =
        spy_loop-Inv xs [] spy_start
          (record { few = omega arith; same = tt; lines = tt; all = refl }) in
      (s, returns, i.lines, i.few, i.all)
