-- ===== src/Sendrecv/Fit.antt =====
-- radio/serial/sendrecv.c: the largest packet fits the buffer of send_packet exactly.
use old_radio.Base.{
  ℕ, ◌+◌, ◌/◌, ◌≤◌, ◌≡◌, refl, ap, ◌∙◌, List, [], ◌∷◌, ◌++◌, Bool, true, leb, length, take, drop,
  replicate, take-append-drop, length-drop, length-append, arith,
}
use old_radio.Base.Run.{Run, ok}
use old_radio.Sendrecv.{
  preamble, uartsync, epilogue, max_packet_bytes, max_packet_symbols, Write, wrote, write_failed,
  send_loop, packet_frame, send_packet,
}

-- How many bytes a script of writes that do not fail accepts, before the first that fails.
abbrev pub accepts : List Write → ℕ
accepts [] = 0
accepts (write_failed ∷ script) = 0
accepts (wrote n ∷ script) = n + accepts script

send_loop-all :
    (script : List Write) (frame : List ℕ)
    → length frame ≤ accepts script
    → send_loop script frame ≡ (true, frame)
unfolding send_loop
send_loop-all script [] h = refl
send_loop-all [] (b ∷ left) h = absurd (omega arith)
send_loop-all (write_failed ∷ script) (b ∷ left) h = absurd (omega arith)
send_loop-all (wrote n ∷ script) (b ∷ left) h =
    let rest = send_loop-all script (drop n (b ∷ left)) (omega (arith, length-drop n (b ∷ left))) in
    ap (λ (r : Bool × List ℕ). (r.0, take n (b ∷ left) ++ r.1)) rest
    ∙ ap (λ (l : List ℕ). (true, l)) (take-append-drop n (b ∷ left))

module _ (symbol_start symbol_end symbol_sync : ℕ)
    (bytes_to_symbols symbols_to_bytes : List ℕ → ℕ → Run (List ℕ)) (symbol_valid : ℕ → Bool)
    (bytes symbols : List ℕ) (size : ℕ) (script : List Write)
    (encodes : bytes_to_symbols bytes size ≡ ok symbols)
    (count : length symbols ≡ size + (size + 6) / 7) (small : size ≤ max_packet_bytes)
    (writes : preamble + uartsync + (size + (size + 6) / 7) + epilogue ≤ accepts script) where
  -- With the codec of 7 bits, which makes one symbol more of each seven bytes begun, send_packet of at
  -- most MAX_PACKET_BYTES bytes stays in its buffer. If the writes accept as many bytes as the frame
  -- has, it returns 1 after it has sent the preamble, the sync symbols, the packet's symbols and the
  -- epilogue.
  pub send_packet-fits :
      send_packet symbol_start symbol_end symbol_sync bytes_to_symbols symbols_to_bytes symbol_valid
        bytes size script
      ≡ ok (
        true,
        replicate preamble symbol_start
            ++ replicate uartsync symbol_sync
            ++ symbols
            ++ replicate epilogue symbol_end,
      )
  unfolding send_packet packet_frame
  send_packet-fits =
      let frame =
        replicate preamble symbol_start
        ++ replicate uartsync symbol_sync
        ++ symbols
        ++ replicate epilogue symbol_end in
      let allowed : leb size max_packet_bytes ≡ true = ground arith in
      let room : leb (preamble + uartsync + length symbols + epilogue) max_packet_symbols ≡ true =
        ground (arith, count) in
      let long : length frame ≡ 5 + length symbols + 3 =
        omega (arith, length-append symbols (replicate epilogue symbol_end)) in
      rw (allowed, encodes, room)
        (ap (λ (r : Bool × List ℕ). ok r) (send_loop-all script frame (omega (arith, long, count))))
