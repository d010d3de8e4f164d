-- ===== src/Sendrecv/Tests.antt =====
-- The codec of 7 bits that radio2/src/symbols.c has, on two bytes.
use old_radio.Base.{ℕ, ◌+◌, ◌/◌, ◌≡◌, List, [], ◌∷◌, ◌++◌, true, length, replicate, arith}
use old_radio.Base.Run.{ok}
use old_radio.Symbols.{
  symbol_start, symbol_end, symbol_sync, bytes_to_symbols, symbols_to_bytes, symbol_valid,
}
use old_radio.Symbols.RoundTrip.{symbols_to_bytes-bytes_to_symbols}
use old_radio.Sendrecv.{preamble, uartsync, epilogue, Write, wrote, send_packet}
use old_radio.Sendrecv.Fit.{send_packet-fits}

abbrev two_bytes : List ℕ
two_bytes = 1 ∷ 200 ∷ []

two_bytes-coded :
    (symbols : List ℕ) × (bytes_to_symbols two_bytes 2 ≡ ok symbols)
    × (length symbols ≡ 2 + (2 + 6) / 7)
two_bytes-coded =
    let (symbols, returns, count, codes, rest) =
      symbols_to_bytes-bytes_to_symbols two_bytes 2 (omega arith)
        (omega arith, (omega arith, tt)) in
    (symbols, returns, count)

abbrev two_writes : List Write
two_writes = wrote 4 ∷ wrote 20 ∷ []

send_packet-fits_example :
    send_packet symbol_start symbol_end symbol_sync bytes_to_symbols symbols_to_bytes symbol_valid
      two_bytes 2 two_writes
    ≡ ok (
      true,
      replicate preamble symbol_start
          ++ replicate uartsync symbol_sync
          ++ two_bytes-coded.0
          ++ replicate epilogue symbol_end,
    )
send_packet-fits_example =
    send_packet-fits symbol_start symbol_end symbol_sync bytes_to_symbols symbols_to_bytes
      symbol_valid two_bytes two_bytes-coded.0 2 two_writes two_bytes-coded.1 two_bytes-coded.2
      (omega arith) (omega arith)
