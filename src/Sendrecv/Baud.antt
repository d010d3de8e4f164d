-- ===== src/Sendrecv/Baud.antt =====
-- radio/serial/sendrecv.c: the speed that initialize_port sets. `code` is the constant of termios.h for a
-- rate, as B9600 is for 9600.
use old_radio.Base.{
  ℕ, ◌<◌, ◌≤◌, ◌≡◌, ◌⊎◌, refl, sym, ap, ◌∙◌, arith, inl, inr, List, [], ◌∷◌, All, Bool, ◌||◌, false,
  true, ◌==◌, if◌then◌else◌, ℕ_discrete,
}

abbrev pub rates : List ℕ
rates = 38400 ∷ 19200 ∷ 9600 ∷ 4800 ∷ 2400 ∷ 1200 ∷ 600 ∷ 300 ∷ []

-- The pairs of a code and its rate; the last has the rate 0.
unfoldable pub baud_table : (ℕ → ℕ) → List (ℕ × ℕ)
baud_table code =
    (code 38400, 38400)
    ∷ (code 19200, 19200)
    ∷ (code 9600, 9600)
    ∷ (code 4800, 4800)
    ∷ (code 2400, 2400)
    ∷ (code 1200, 1200)
    ∷ (code 600, 600)
    ∷ (code 300, 300)
    ∷ (0, 0)
    ∷ []

-- The loop goes on behind the entry that it finds, with the code in place of the rate.
unfoldable pub baud_loop : List (ℕ × ℕ) → ℕ → ℕ
baud_loop [] baud_rate = baud_rate
baud_loop ((code, rate) ∷ table) baud_rate =
    let rest = baud_loop table (if baud_rate == rate then code else baud_rate) in
    if rate == 0 then baud_rate else rest

unfoldable pub port_speed : (ℕ → ℕ) → ℕ → ℕ
unfolding baud_table baud_loop
port_speed code baud_rate = baud_loop (baud_table code) baud_rate

-- A code that is below every rate is not taken for a rate in turn.
baud_loop-code :
    (table : List (ℕ × ℕ)) (c : ℕ)
    → c < 300
    → All (λ (e : ℕ × ℕ). (e.1 ≡ 0) ⊎ (300 ≤ e.1)) table
    → baud_loop table c ≡ c
unfolding baud_loop
baud_loop-code [] c h k = refl
baud_loop-code (e ∷ table) c h k = elim k.0 [
  | inl last ↦ let stop : (e.1 == 0) ≡ true = ground arith in rw stop
  | inr high ↦
      let other : (c == e.1) ≡ false = ground arith in
      let more : (e.1 == 0) ≡ false = ground arith in
      rw (more, other) (baud_loop-code table c h k.1)
]

-- A table whose entries are a code below 300 for each of some rates from 300 on, and then the end.
abbrev table_for : (ℕ → ℕ) → List ℕ → List (ℕ × ℕ)
table_for code [] = (0, 0) ∷ []
table_for code (r ∷ rs) = (code r, r) ∷ table_for code rs

table_for-high :
    (code : ℕ → ℕ) (rs : List ℕ)
    → All (λ r. 300 ≤ r) rs
    → All (λ (e : ℕ × ℕ). (e.1 ≡ 0) ⊎ (300 ≤ e.1)) (table_for code rs)
table_for-high code [] h = (inl refl, tt)
table_for-high code (r ∷ rs) h = (inr h.0, table_for-high code rs h.1)

unfoldable pub listed : ℕ → List ℕ → Bool
listed r [] = false
listed r (q ∷ rs) = (r == q) || listed r rs

baud_loop-found :
    (code : ℕ → ℕ) (rs : List ℕ) (r : ℕ)
    → ((q : ℕ) → code q < 300)
    → All (λ q. 300 ≤ q) rs
    → listed r rs ≡ true
    → baud_loop (table_for code rs) r ≡ code r
unfolding baud_loop listed
baud_loop-found code [] r small high m = cc m
baud_loop-found code (q ∷ rs) r small high m =
    let more : (q == 0) ≡ false = ground (arith, high.0) in
    elim (ℕ_discrete r q) [
      | yes same ↦
          let test : (r == q) ≡ true = ground arith in
          rw (more, test)
            (baud_loop-code (table_for code rs) (code q) (small q) (table_for-high code rs high.1)
              ∙ ap code (sym same))
      | no other ↦
          let test : (r == q) ≡ false = ground arith in
          rw (more, test) (baud_loop-found code rs r small high.1 (rw test at m))
    ]

-- If the codes of termios.h are below 300, as on Linux, initialize_port sets the code of each rate in its
-- table, although the loop compares the code that it has found with the rates that follow.
pub port_speed-listed :
    (code : ℕ → ℕ) (r : ℕ)
    → ((q : ℕ) → code q < 300)
    → listed r rates ≡ true
    → port_speed code r ≡ code r
unfolding port_speed baud_table
port_speed-listed code r small m = baud_loop-found code rates r small (omega arith) m
