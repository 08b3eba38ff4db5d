-- ===== src/Auth/Chunked.antt =====
-- internal/presentation/s3api/auth.go: decodeChunkedBody, on the whole body as io.ReadAll returns it.
-- An int64 is a number with its overflow written out.
use mathlib.Core.List.{reverse}
use micros.Base.{
  ℕ, zero, suc, ◌+◌, ◌-◌, ◌*◌, Str, Bool, false, ◌||◌, ◌&&◌, ◌==◌, ltb, leb, Option, none, some,
  List, [], ◌∷◌, ◌++◌, length, take, drop, if◌then◌else◌,
}

-- 2 ^ 63
abbrev pub int64_limit : ℕ
int64_limit = 9223372036854775808

abbrev pub starts_crlf : ℕ → List ℕ → Bool
starts_crlf c [] = false
starts_crlf c (d ∷ rest) = c == b'\r' && d == b'\n'

unfoldable pub index_crlf : List ℕ → Option ℕ
index_crlf [] = none
index_crlf (c ∷ rest) =
    let later = index_crlf rest in
    if starts_crlf c rest then some 0 else elim later [ none ↦ none | some i ↦ some (suc i) ]

-- `strings.Index(headerLine, ";")` and the text before it, or the whole line.
unfoldable pub before_semicolon : Str → Str
before_semicolon [] = []
before_semicolon (c ∷ s) = if c == b';' then [] else c ∷ before_semicolon s

-- The white space of ASCII; that of other alphabets is no part of a hexadecimal number either.
unfoldable pub is_space : ℕ → Bool
is_space c = c == b' ' || (leb 9 c && leb c 13)

unfoldable pub trim_left : Str → Str
unfolding is_space
trim_left [] = []
trim_left (c ∷ s) = let rest = trim_left s in if is_space c then rest else c ∷ s

-- strings.TrimSpace
unfoldable pub trim_space : Str → Str
unfolding trim_left
trim_space s = reverse (trim_left (reverse (trim_left s)))

unfoldable pub hex_value : ℕ → Option ℕ
hex_value c =
    if leb b'0' c && leb c b'9'
    then some (c - b'0')
    else if leb b'a' c && leb c b'f'
    then some (c - b'a' + 10)
    else if leb b'A' c && leb c b'F'
    then some (c - b'A' + 10)
    else none

-- The value of the hexadecimal digits at the start, behind a value that was read.
unfoldable pub scan_digits : ℕ → Str → ℕ
unfolding hex_value
scan_digits acc [] = acc
scan_digits acc (c ∷ s) = elim (hex_value c) [ none ↦ acc | some v ↦ scan_digits (acc * 16 + v) s ]

-- `none` where there is no digit.
unfoldable pub scan_number : Str → Option ℕ
unfolding scan_digits
scan_number [] = none
scan_number (c ∷ s) = elim (hex_value c) [ none ↦ none | some v ↦ some (scan_digits v s) ]

-- strconv.ParseInt on the digits: what does not fit in an int64 is an error.
unfoldable pub fit_int64 : Option ℕ → Option ℕ
fit_int64 none = none
fit_int64 (some n) = if ltb n int64_limit then some n else none

-- fmt.Sscanf(s, "%x", &chunkSize) with the test on the sign: `none` is an error, or a negative size,
-- on which the loop ends just the same; so it does on -0.
unfoldable pub scan_size : Str → Option ℕ
unfolding scan_number fit_int64
scan_size [] = none
scan_size (c ∷ s) =
    if c == b'-' then none else fit_int64 (scan_number (if c == b'+' then s else c ∷ s))

-- The size that a header line gives.
unfoldable pub chunk_size : Str → Option ℕ
unfolding before_semicolon trim_space scan_size
chunk_size line = scan_size (trim_space (before_semicolon line))

abbrev pub prepend : List ℕ → Option (List ℕ) → Option (List ℕ)
prepend bs none = none
prepend bs (some rest) = some (bs ++ rest)

-- One chunk behind its header, `next` being the loop's next round: `none` is a panic. Where
-- chunkSize+2 overflows it is negative, the test fails, and the slice is out of range.
unfoldable pub read_chunk : (List ℕ → Option (List ℕ)) → List ℕ → Option ℕ → Option (List ℕ)
read_chunk next remaining none = some []
read_chunk next remaining (some n) =
    if n == 0
    then some []
    else if leb int64_limit (n + 2)
    then none
    else if ltb (length remaining) (n + 2)
    then some remaining
    else prepend (take n remaining) (next (drop (n + 2) remaining))

-- The loop over what remains of the body, one round for each byte at most.
unfoldable pub decode_from : ℕ → List ℕ → Option (List ℕ)
unfolding read_chunk index_crlf chunk_size
decode_from zero remaining = some []
decode_from (suc f) remaining =
    let next = decode_from f in
    elim (index_crlf remaining) [
      | none ↦ some []
      | some i ↦ read_chunk next (drop (i + 2) remaining) (chunk_size (take i remaining))
    ]

unfoldable pub decode_chunked : List ℕ → Option (List ℕ)
unfolding decode_from
decode_chunked body = decode_from (length body) body
