-- ===== src/Radio/Frame.antt =====
-- radio2/src/radio.c: the frame that radio_send builds.
use native.Mathlib.Nat.{le_refl}
use mathlib.Core.Path.{subst}
use mathlib.Core.List.{append_assoc}
use old_radio.Base.{
  ℕ, ◌+◌, ◌-◌, ◌/◌, ◌≤◌, ◌≡◌, refl, sym, ap, ◌∙◌, arith, List, [], ◌++◌, All, IsBytes, IsByte,
  All-append, All-take, All-drop, true, leb, Bool-cases, inl, inr, length, take, drop, replicate,
  length-append, length-take, length-drop, take-append,
}
use old_radio.Base.Run.{ok, ok_inj}
use old_radio.Crc.{crc16_set, crc16_check}
use old_radio.Crc.Stored.{crc16_check-crc16_set, crc16_set-IsBytes, crc16_check-take, take-take}
use old_radio.Symbols.{symbols_to_bytes, symbol_start, symbol_end, symbol_sync}
use old_radio.Symbols.Codes.{IsCode}
use old_radio.Symbols.RoundTrip.{symbols_to_bytes-bytes_to_symbols}
use old_radio.Radio.{write_at, read_n, build_frame, max_frame}

pub length-write_at :
    (buffer : List ℕ) (n : ℕ) (xs : List ℕ)
    → n + length xs ≤ length buffer
    → (out : List ℕ) × (write_at buffer n xs ≡ ok out)
      × (length out ≡ length buffer)
      × (take (n + length xs) out ≡ take n buffer ++ xs)
unfolding write_at
length-write_at buffer n xs h =
    let m = n + length xs in
    let fits : leb m (length buffer) ≡ true = ground arith in
    let kept : length (take n buffer) ≡ n = omega (arith, length-take n buffer) in
    let head : length (take n buffer ++ xs) ≡ m = omega (arith, length-append (take n buffer) xs) in
    (
      take n buffer ++ (xs ++ drop m buffer),
      rw fits,
      omega (
        arith,
        length-append (take n buffer) (xs ++ drop m buffer),
        length-append xs (drop m buffer),
        length-drop m buffer,
      ),
      rw (← append_assoc (take n buffer) xs (drop m buffer))
          (take-append m (take n buffer ++ xs) (drop m buffer) (sym head)),
    )

-- A write puts its bytes behind the `n` that are in order.
pub extend :
    (buffer : List ℕ) (n m : ℕ) (done xs : List ℕ)
    → m ≡ n + length xs
    → m ≤ length buffer
    → take n buffer ≡ done
    → (out : List ℕ) × (write_at buffer n xs ≡ ok out)
      × (length out ≡ length buffer)
      × (take m out ≡ done ++ xs)
extend buffer n m done xs em h e =
    let (out, made, size, front) = length-write_at buffer n xs (omega arith) in
    (out, made, size, ap (λ (k : ℕ). take k out) em ∙ front ∙ ap (λ (ys : List ℕ). ys ++ xs) e)

write_at-IsBytes :
    (buffer : List ℕ) (n : ℕ) (xs out : List ℕ)
    → IsBytes buffer
    → IsBytes xs
    → write_at buffer n xs ≡ ok out
    → IsBytes out
unfolding write_at
write_at-IsBytes buffer n xs out hb hx e = elim (Bool-cases (leb (n + length xs) (length buffer))) [
  | inl fits ↦
      let whole =
        All-append IsByte (take n buffer) (xs ++ drop (n + length xs) buffer)
          (All-take _ n buffer hb)
          (All-append IsByte xs (drop (n + length xs) buffer) hx
            (All-drop _ (n + length xs) buffer hb)) in
      subst IsBytes (ok_inj _ _ (rw fits at e)) whole
  | inr over ↦ cc (rw over at e)
]

-- What the frame of the first `n` bytes of `source` is: the preamble, the codes of a checksummed
-- copy, which decode to it whatever follows them, and the epilogue.
pub record IsFrame (source : List ℕ) (n : ℕ) (frame : List ℕ) : Type 0 where
  pub symbols : List ℕ
  pub checked : List ℕ
  pub codes : All IsCode symbols
  pub parts :
      frame
      ≡ replicate 3 symbol_start ++ (replicate 2 symbol_sync ++ (symbols ++ replicate 3 symbol_end))
  pub count : length symbols ≡ n + 2 + (n + 2 + 6) / 7
  pub decodes : (rest : List ℕ) → symbols_to_bytes (symbols ++ rest) (length symbols) ≡ ok checked
  pub same : take n checked ≡ take n source
  pub size : length checked ≡ n + 2
  pub accepted : crc16_check checked (n + 2) ≡ ok true

-- The statics of radio_send: arrays of bytes of the declared sizes.
pub record Statics (packet_buffer send_buffer : List ℕ) : Type 0 where
  pub packet_size : length packet_buffer ≡ 1602
  pub send_size : length send_buffer ≡ max_frame
  pub packet_bytes : IsBytes packet_buffer

read_n-take : (source : List ℕ) (n : ℕ) → n ≤ length source → read_n source n ≡ ok (take n source)
unfolding read_n
read_n-take source n h = let fits : leb n (length source) ≡ true = ground arith in rw fits

module _ (packet_buffer source : List ℕ) (n : ℕ) (room : length packet_buffer ≡ 1602)
    (static_bytes : IsBytes packet_buffer) (mtu : n ≤ 1600) (long : n ≤ length source)
    (bs : IsBytes source) where
  -- The packet's bytes and their checksum, at the start of packet_buffer.
  pub checksummed :
      (copied : List ℕ) × (checked : List ℕ) × (write_at packet_buffer 0 (take n source)
        ≡ ok copied)
      × (crc16_set copied (n + 2) ≡ ok checked)
      × (length checked ≡ 1602)
      × IsBytes checked
      × (take n checked ≡ take n source)
      × (crc16_check checked (n + 2) ≡ ok true)
  checksummed =
      let part = take n source in
      let part_size : length part ≡ n = omega (arith, length-take n source) in
      let (copied, made, copied_size, front) =
        extend packet_buffer 0 n [] part (omega arith) (omega arith) refl in
      let (checked, set, same, set_size, accepted) =
        crc16_check-crc16_set copied (n + 2) (omega arith) (omega arith) in
      let copied_bytes =
        write_at-IsBytes packet_buffer 0 part copied static_bytes (All-take _ n source bs) made in
      let n_only : n + 2 - 2 ≡ n = omega arith in
      (
        copied,
        checked,
        made,
        set,
        omega arith,
        crc16_set-IsBytes copied checked (n + 2) (omega arith) (omega arith) copied_bytes set,
        ap (λ (k : ℕ). take k checked) (sym n_only)
            ∙ same
            ∙ ap (λ (k : ℕ). take k copied) n_only
            ∙ front,
        accepted,
      )

  module _ (send_buffer : List ℕ) (send_room : length send_buffer ≡ max_frame) where
    -- The writes of preamble, sync, symbols and epilogue, one behind the other.
    pub laid_out :
        (symbols : List ℕ)
        → length symbols ≤ 1831
        → (a b c d : List ℕ) × (write_at send_buffer 0 (replicate 3 symbol_start) ≡ ok a)
          × (write_at a 3 (replicate 2 symbol_sync) ≡ ok b)
          × (write_at b 5 symbols ≡ ok c)
          × (write_at c (5 + length symbols) (replicate 3 symbol_end) ≡ ok d)
          × (take (5 + length symbols + 3) d
              ≡ ((replicate 3 symbol_start ++ replicate 2 symbol_sync) ++ symbols)
                ++ replicate 3 symbol_end)
    laid_out symbols small =
        let (a, made_a, size_a, front_a) =
          extend send_buffer 0 3 [] (replicate 3 symbol_start) refl (omega arith) refl in
        let (b, made_b, size_b, front_b) =
          extend a 3 5 (replicate 3 symbol_start) (replicate 2 symbol_sync) refl (omega arith)
            front_a in
        let (c, made_c, size_c, front_c) =
          extend b 5 (5 + length symbols) (replicate 3 symbol_start ++ replicate 2 symbol_sync)
            symbols refl (omega arith) front_b in
        let (d, made_d, size_d, front_d) =
          extend c (5 + length symbols) (5 + length symbols + 3)
            ((replicate 3 symbol_start ++ replicate 2 symbol_sync) ++ symbols)
            (replicate 3 symbol_end) refl (omega arith) front_c in
        (a, b, c, d, made_a, made_b, made_c, made_d, front_d)

    -- For a packet within the MTU every write of radio_send stays in its buffer, and the frame is the
    -- preamble, the sync symbols, the codes of the packet with its checksum, and the epilogue.
    pub build_frame-IsFrame :
        (frame : List ℕ) × (build_frame packet_buffer send_buffer source n ≡ ok frame)
        × IsFrame source n frame
    unfolding build_frame
    build_frame-IsFrame =
        let (copied, checked, made, set, size, bytes, same, accepted) = checksummed in
        let (symbols, encoded, count, codes, decodes) =
          symbols_to_bytes-bytes_to_symbols checked (n + 2) (omega arith) bytes in
        let (a, b, c, d, made_a, made_b, made_c, made_d, front) = laid_out symbols (omega arith) in
        let allowed : leb n 1600 ≡ true = ground arith in
        let source_long : read_n source n ≡ ok (take n source) = read_n-take source n long in
        (
          take (5 + length symbols + 3) d,
          rw (allowed, source_long, made, set, made_a, made_b, encoded, made_c, made_d),
          record {
            symbols = symbols;
            checked = take (n + 2) checked;
            codes = codes;
            parts = front;
            count = count;
            decodes = decodes;
            same = take-take n (n + 2) checked (omega arith) ∙ same;
            size = omega (arith, length-take (n + 2) checked);
            accepted =
                crc16_check-take (take (n + 2) checked) checked (n + 2) (omega arith)
                  (omega (arith, length-take (n + 2) checked)) (omega arith)
                  (take-take (n + 2) (n + 2) checked (le_refl _))
                ∙ accepted;
          },
        )
