-- ===== src/Sendrecv/Link.antt =====
-- radio/serial/sendrecv.c: a frame on the line is received, however the reads cut it up.
use mathlib.Core.List.{append_assoc}
use old_radio.Base.{
  ℕ, suc, ◌+◌, ◌-◌, ◌≤◌, ◌<◌, ◌≡◌, ◌≢◌, inl, inr, refl, ap, ◌∙◌, arith, List, [], ◌∷◌, ◌++◌, none,
  some, Bool, true, false, All, All-take, All-drop, leb, ◌==◌, if◌then◌else◌, length, take, drop,
  length-append, length-take, length-drop, take-append-drop, chunk_cases,
}
use old_radio.Base.Run.{Run}
use old_radio.Sendrecv.{
  max_packet_symbols, Ready, not_ready, bytes_ready, gathered, before_end, wait_packet, gather,
}

-- How many rounds of a script are ready before the first that is not, and the bytes they may bring.
abbrev pub rounds : List Ready → ℕ
rounds [] = 0
rounds (not_ready ∷ script) = 0
rounds (bytes_ready n ∷ script) = suc (rounds script)

abbrev pub brings : List Ready → ℕ
brings [] = 0
brings (not_ready ∷ script) = 0
brings (bytes_ready n ∷ script) = n + brings script

-- The reserved symbols are not valid, and the end differs from the two others.
pub record Reserved (symbol_start symbol_end symbol_sync : ℕ) (symbol_valid : ℕ → Bool)
    : Type 0 where
  pub start_invalid : symbol_valid symbol_start ≡ false
  pub end_invalid : symbol_valid symbol_end ≡ false
  pub sync_invalid : symbol_valid symbol_sync ≡ false
  pub start_ne : symbol_start ≢ symbol_end
  pub sync_ne : symbol_sync ≢ symbol_end

abbrev pub Without : ℕ → List ℕ → Type 0
Without e xs = All (λ c. c ≢ e) xs

before_end-none : (e : ℕ) (xs : List ℕ) → Without e xs → before_end e xs ≡ none
unfolding before_end
before_end-none e [] h = refl
before_end-none e (x ∷ xs) h =
    let other : (x == e) ≡ false = ground (arith, h.0) in rw (other, before_end-none e xs h.1)

before_end-some : (e : ℕ) (xs ys : List ℕ) → Without e xs → before_end e (xs ++ e ∷ ys) ≡ some xs
unfolding before_end
before_end-some e [] ys h = let same : (e == e) ≡ true = ground arith in rw same
before_end-some e (x ∷ xs) ys h =
    let other : (x == e) ≡ false = ground (arith, h.0) in rw (other, before_end-some e xs ys h.1)

-- A read that stops before the end of the packet is not cut by the room that is left.
not_cut :
    (room n size : ℕ)
    → size < room
    → (if leb room n then room else n) ≤ size
    → (if leb room n then room else n) ≡ n
not_cut room n size h k = ground arith

module _ (symbol_start symbol_end symbol_sync : ℕ)
    (bytes_to_symbols symbols_to_bytes : List ℕ → ℕ → Run (List ℕ)) (symbol_valid : ℕ → Bool) where
  pub wait_packet-noise :
      (script : List Ready) (noise line : List ℕ)
      → Without symbol_start noise
      → length noise < rounds script
      → wait_packet symbol_start symbol_end symbol_sync bytes_to_symbols symbols_to_bytes
          symbol_valid script
          (noise ++ symbol_start ∷ line)
        ≡ (true, line)
  unfolding wait_packet
  wait_packet-noise [] noise line h k = absurd (omega arith)
  wait_packet-noise (not_ready ∷ script) noise line h k = absurd (omega arith)
  wait_packet-noise (bytes_ready n ∷ script) [] line h k =
      let same : (symbol_start == symbol_start) ≡ true = ground arith in rw same
  wait_packet-noise (bytes_ready n ∷ script) (c ∷ noise) line h k =
      let other : (c == symbol_start) ≡ false = ground (arith, h.0) in
      rw other (wait_packet-noise script noise line h.1 (omega arith))

  -- One round of gather, with the end symbol in what is read and without.
  gather-stop :
      (n : ℕ) (script : List Ready) (received line chunk front : List ℕ)
      → length received < max_packet_symbols
      → (count : ℕ)
      → (if leb (max_packet_symbols - length received) n
          then max_packet_symbols - length received
          else n)
        ≡ count
      → take count line ≡ chunk
      → before_end symbol_end chunk ≡ some front
      → gather symbol_start symbol_end symbol_sync bytes_to_symbols symbols_to_bytes symbol_valid
          (bytes_ready n ∷ script)
          received
          line
        ≡ (gathered (received ++ front), drop count line)
  unfolding gather
  gather-stop n script received line chunk front room count c e found =
      let space : leb max_packet_symbols (length received) ≡ false = ground arith in
      rw (space, c, e, found, c)

  gather-go :
      (n : ℕ) (script : List Ready) (received line chunk left : List ℕ)
      → length received < max_packet_symbols
      → (count : ℕ)
      → (if leb (max_packet_symbols - length received) n
          then max_packet_symbols - length received
          else n)
        ≡ count
      → take count line ≡ chunk
      → drop count line ≡ left
      → before_end symbol_end chunk ≡ none
      → gather symbol_start symbol_end symbol_sync bytes_to_symbols symbols_to_bytes symbol_valid
          (bytes_ready n ∷ script)
          received
          line
        ≡ gather symbol_start symbol_end symbol_sync bytes_to_symbols symbols_to_bytes symbol_valid
            script
            (received ++ chunk)
            left
  unfolding gather
  gather-go n script received line chunk left room count c e d found =
      let space : leb max_packet_symbols (length received) ≡ false = ground arith in
      rw (space, c, e, found, c, e, d)

  -- The symbols before the end symbol come out of the loop, in whatever pieces the reads bring them.
  pub gather-found :
      (script : List Ready) (xs ys received : List ℕ)
      → Without symbol_end xs
      → length xs < brings script
      → length received + length xs < max_packet_symbols
      → (rest : List ℕ) × (gather symbol_start symbol_end symbol_sync bytes_to_symbols
            symbols_to_bytes symbol_valid script received
            (xs ++ symbol_end ∷ ys)
          ≡ (gathered (received ++ xs), rest))
  gather-found [] xs ys received h k room = absurd (omega arith)
  gather-found (not_ready ∷ script) xs ys received h k room = absurd (omega arith)
  gather-found (bytes_ready n ∷ script) xs ys received h k room =
      let left = max_packet_symbols - length received in
      let count = if leb left n then left else n in
      let line = xs ++ symbol_end ∷ ys in
      elim (chunk_cases count xs ys symbol_end) [
        | inl (few, p, q) ↦
            let all : count ≡ n = not_cut left n (length xs) (omega arith) few in
            let clear = before_end-none symbol_end (take count xs) (All-take _ count xs h) in
            let (rest, ends) =
              gather-found script (drop count xs) ys (received ++ take count xs)
                (All-drop _ count xs h) (omega (arith, length-drop count xs))
                (omega (
                  arith,
                  length-drop count xs,
                  length-append received (take count xs),
                  length-take count xs,
                )) in
            (
              rest,
              gather-go n script received line (take count xs) (drop count xs ++ symbol_end ∷ ys)
                    (omega arith) count refl p q clear
                  ∙ ends
                  ∙ ap (λ (zs : List ℕ). (gathered zs, rest))
                      (append_assoc received (take count xs) (drop count xs)
                        ∙ ap (◌++◌ received) (take-append-drop count xs)),
            )
        | inr (zs, p) ↦ (
          drop count line,
          gather-stop n script received line (xs ++ symbol_end ∷ zs) xs (omega arith) count refl p
              (before_end-some symbol_end xs zs h),
        )
      ]
