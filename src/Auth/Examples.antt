-- ===== src/Auth/Examples.antt =====
-- A body of two chunks, whole and cut.
use micros.Base.{codes, ◌≡◌, refl, none, some, [], ◌∷◌, ◌++◌, arith}
use micros.Auth.Chunked.{
  index_crlf, before_semicolon, is_space, trim_left, trim_space, hex_value, scan_digits,
  scan_number, fit_int64, scan_size, chunk_size, read_chunk, decode_from, decode_chunked,
}
use micros.Auth.Framing.{Chunk, header, frames, payloads}
use micros.Auth.Decoded.{IsFramed}
use micros.Auth.Bodies.{decode_chunked-frames, decode_chunked-cut, decode_chunked-panic}

-- As a client sends it.
documented :
    decode_chunked (codes "3;chunk-signature=ab\r\nxyz\r\n1\r\n!\r\n0\r\n\r\n")
    ≡ some (codes "xyz!")
unfolding decode_chunked decode_from read_chunk chunk_size scan_size fit_int64 scan_number
    scan_digits hex_value trim_space trim_left is_space before_semicolon index_crlf
documented = refl

abbrev signed : Chunk
signed = record { extension = codes ";s"; payload = 6 ∷ 7 ∷ 8 ∷ [] }

is_framed : IsFramed signed
is_framed = record {
  filled = omega arith;
  fits = omega arith;
  named = (refl, ((λ e. absurd (omega arith)), tt));
}

decode_chunked-frames_example :
    decode_chunked (frames (signed ∷ signed ∷ []) (header 0 [] (1 ∷ [])))
    ≡ some (payloads (signed ∷ signed ∷ []))
decode_chunked-frames_example =
    decode_chunked-frames (signed ∷ signed ∷ []) [] (1 ∷ []) (is_framed, (is_framed, tt)) tt

decode_chunked-cut_example :
    decode_chunked (frames (signed ∷ []) (header 5 [] (1 ∷ 2 ∷ [])))
    ≡ some (payloads (signed ∷ []) ++ (1 ∷ 2 ∷ []))
decode_chunked-cut_example =
    decode_chunked-cut (signed ∷ []) 5 [] (1 ∷ 2 ∷ []) (is_framed, tt) tt (omega arith)
      (omega arith) (omega arith)

decode_chunked-panic_example :
    decode_chunked (frames (signed ∷ []) (header 9223372036854775807 [] (1 ∷ []))) ≡ none
decode_chunked-panic_example =
    decode_chunked-panic (signed ∷ []) 9223372036854775807 [] (1 ∷ []) (is_framed, tt) tt
      (omega arith) (omega arith)
