-- ===== src/Symbols/Total.antt =====
-- radio2/src/symbols.c: decoding any symbols, as the receiver does.
use native.Mathlib.Nat.{le_refl}
use old_radio.Base.{
  ℕ, zero, suc, ◌+◌, ◌-◌, ◌/◌, ◌≤◌, ◌≡◌, refl, ap, arith, List, [], ◌∷◌, ◌++◌, length, drop,
  IsBytes, IsByte, All-append, length-drop, length-append, ltb, true, false, dec_lt,
}
use old_radio.Base.Run.{Run, ok}
use old_radio.Symbols.{s2b_pack, s2b_emit, s2b, s2b_loop, symbols_to_bytes}
use old_radio.Symbols.RoundTrip.{s2b_loop-last, s2b_loop-more}

-- `run` returns bytes, `n` of them.
pub record Bytes (n : ℕ) (run : Run (List ℕ)) : Type 0 where
  pub out : List ℕ
  pub returns : run ≡ ok out
  pub count : length out ≡ n
  pub bytes : IsBytes out

s2b_pack-ok :
    (symbols : List ℕ) (left i temp : ℕ)
    → left ≤ length symbols
    → (v : ℕ) × (s2b_pack symbols left i temp ≡ ok v)
unfolding s2b_pack
s2b_pack-ok symbols zero i temp h = (temp, refl)
s2b_pack-ok [] (suc left) i temp h = absurd (omega arith)
s2b_pack-ok (s ∷ symbols) (suc left) i temp h = s2b_pack-ok symbols left (i + 1) _ (omega arith)

length-s2b_emit : (n i temp : ℕ) → length (s2b_emit n i temp) ≡ n
unfolding s2b_emit
length-s2b_emit zero i temp = refl
length-s2b_emit (suc n) i temp = ap suc (length-s2b_emit n (i + 1) temp)

s2b_emit-IsBytes : (n i temp : ℕ) → IsBytes (s2b_emit n i temp)
unfolding s2b_emit
s2b_emit-IsBytes zero i temp = tt
s2b_emit-IsBytes (suc n) i temp = (omega arith, s2b_emit-IsBytes n (i + 1) temp)

s2b-Bytes : (symbols : List ℕ) (n : ℕ) → n ≤ length symbols → Bytes (n - 1) (s2b symbols n)
unfolding s2b
s2b-Bytes symbols n h = elim (dec_lt n 2) [
  | yes few ↦
      let stop : ltb n 2 ≡ true = ground arith in
      record { out = []; returns = rw stop; count = omega arith; bytes = tt }
  | no more ↦
      let go : ltb n 2 ≡ false = ground arith in
      let (v, packed) = s2b_pack-ok symbols n 0 0 h in
      record {
        out = s2b_emit (n - 1) 0 v;
        returns = rw (go, packed);
        count = length-s2b_emit (n - 1) 0 v;
        bytes = s2b_emit-IsBytes (n - 1) 0 v;
      }
]

s2b_loop-zero : (fuel : ℕ) (symbols : List ℕ) → s2b_loop fuel symbols 0 ≡ ok []
unfolding s2b_loop
s2b_loop-zero zero symbols = refl
s2b_loop-zero (suc fuel) symbols = refl

s2b_loop-Bytes :
    (fuel : ℕ) (symbols : List ℕ) (left : ℕ)
    → left ≤ fuel
    → left ≤ length symbols
    → Bytes (left - (left + 7) / 8) (s2b_loop fuel symbols left)
s2b_loop-Bytes fuel symbols zero f h =
    rw (s2b_loop-zero fuel symbols)
      (record { out = []; returns = refl; count = omega arith; bytes = tt })
s2b_loop-Bytes zero symbols (suc left) f h = absurd (omega arith)
s2b_loop-Bytes (suc fuel) symbols (suc left) f h =
    let rest =
      s2b_loop-Bytes fuel (drop 8 symbols) (suc left - 8) (omega arith)
        (omega (arith, length-drop 8 symbols)) in
    elim (dec_lt (suc left) 8) [
      | yes few ↦
          let group = s2b-Bytes symbols (suc left) h in
          record {
            out = group.out;
            returns =
                s2b_loop-last fuel symbols group.out (suc left) (omega arith) few group.returns
                  (omega (arith, group.count));
            count = omega (arith, group.count);
            bytes = group.bytes;
          }
      | no more ↦
          let group = s2b-Bytes symbols 8 (omega arith) in
          record {
            out = group.out ++ rest.out;
            returns =
                s2b_loop-more fuel symbols group.out rest.out (suc left) (omega arith) group.returns
                  (omega (arith, group.count)) rest.returns;
            count = omega (arith, length-append group.out rest.out, group.count, rest.count);
            bytes = All-append IsByte group.out rest.out group.bytes rest.bytes;
          }
    ]

-- symbols_to_bytes returns on any symbols that the buffer holds, valid or not: one byte fewer than
-- symbols for each group of eight begun.
pub symbols_to_bytes-total :
    (symbols : List ℕ) (nsym : ℕ)
    → nsym ≤ length symbols
    → (out : List ℕ) × (symbols_to_bytes symbols nsym ≡ ok out)
      × (length out ≡ nsym - (nsym + 7) / 8)
      × IsBytes out
unfolding symbols_to_bytes
symbols_to_bytes-total symbols nsym h =
    let b = s2b_loop-Bytes nsym symbols nsym (le_refl _) h in (b.out, b.returns, b.count, b.bytes)
