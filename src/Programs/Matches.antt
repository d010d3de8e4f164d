-- ===== src/Programs/Matches.antt =====
-- radio/serial/recv_packets.c: the program that counts which of some known packets it receives, by the bytes
-- that agree.
use native.Mathlib.Nat.{le_refl, le_trans}
use old_radio.Base.{
  ℕ, ◌+◌, ◌/◌, ◌≤◌, ◌<◌, ◌≡◌, refl, arith, List, [], ◌∷◌, ◌++◌, true, ltb, ◌==◌, if◌then◌else◌,
  length, Bool-cases, inl, inr,
}

abbrev pub packet_length : ℕ
packet_length = 256

-- In how many places two packets agree.
unfoldable pub agreeing : List ℕ → List ℕ → ℕ
agreeing [] ys = 0
agreeing (x ∷ xs) [] = 0
agreeing (x ∷ xs) (y ∷ ys) = let rest = agreeing xs ys in if x == y then rest + 1 else rest

-- packet_num and valid_packets.
pub record Tally : Type 0 where
  pub packet_num : ℕ
  pub valid_packets : ℕ

-- The loop over the known packets from the `j`-th on.
unfoldable pub match_loop : List (List ℕ) → ℕ → List ℕ → Tally → Tally
unfolding agreeing
match_loop [] j buffer t = t
match_loop (p ∷ known) j buffer t =
    let found : Tally = record { packet_num = j; valid_packets = t.valid_packets + 1 } in
    match_loop known (j + 1) buffer
      (if ltb (packet_length / 2) (agreeing p buffer) then found else t)

-- What recv_packet's result does to the tally: `n` bytes in the buffer, or none in time.
unfoldable pub tally_packet : List (List ℕ) → ℕ → List ℕ → Tally → Tally
unfolding match_loop
tally_packet known n buffer t =
    let matched = match_loop known 0 buffer t in
    let timed_out : Tally =
      if t.packet_num == 0 then t else record t { packet_num = t.packet_num + 1 } in
    if n == 0 then timed_out else (if n == packet_length then matched else t)

-- main's loop over what recv_packet returns, as long as no signal comes.
unfoldable pub tally_loop : List (List ℕ) → List (ℕ × List ℕ) → Tally → Tally
unfolding tally_packet
tally_loop known [] t = t
tally_loop known ((n, buffer) ∷ packets) t =
    let rest = tally_loop known packets (tally_packet known n buffer t) in
    if ltb t.packet_num (length known + 1) then rest else t

-- A packet that arrives as it was sent agrees everywhere with itself.
agreeing-same : (xs : List ℕ) → agreeing xs xs ≡ length xs
unfolding agreeing
agreeing-same [] = refl
agreeing-same (x ∷ xs) =
    let same : (x == x) ≡ true = ground arith in rw (same, agreeing-same xs) (omega arith)

match_loop-grows :
    (known : List (List ℕ)) (j : ℕ) (buffer : List ℕ) (t : Tally)
    → t.valid_packets ≤ (match_loop known j buffer t).valid_packets
unfolding match_loop
match_loop-grows [] j buffer t = le_refl _
match_loop-grows (p ∷ known) j buffer t = elim (Bool-cases (ltb 128 (agreeing p buffer))) [
  | inl most ↦
      rw (match_loop, most)
        (le_trans (omega arith) (
          match_loop-grows known (j + 1) buffer
            (record { packet_num = j; valid_packets = t.valid_packets + 1 })))
  | inr few ↦ rw (match_loop, few) (match_loop-grows known (j + 1) buffer t)
]

-- A known packet that arrives as it was sent is counted.
pub match_loop-same :
    (before behind : List (List ℕ)) (j : ℕ) (p : List ℕ) (t : Tally)
    → length p ≡ packet_length
    → t.valid_packets < (match_loop (before ++ p ∷ behind) j p t).valid_packets
unfolding match_loop
match_loop-same [] behind j p t size =
    let most : ltb 128 (agreeing p p) ≡ true = ground (arith, agreeing-same p) in
    rw (match_loop, most)
      (le_trans (omega arith) (
        match_loop-grows behind (j + 1) p
          (record { packet_num = j; valid_packets = t.valid_packets + 1 })))
match_loop-same (q ∷ before) behind j p t size = elim (Bool-cases (ltb 128 (agreeing q p))) [
  | inl most ↦
      rw (match_loop, most)
        (le_trans (omega arith) (
          match_loop-same before behind (j + 1) p
            (record { packet_num = j; valid_packets = t.valid_packets + 1 }) size))
  | inr few ↦ rw (match_loop, few) (match_loop-same before behind (j + 1) p t size)
]
