-- ===== src/Auth/Bodies.antt =====
-- The decoder on whole bodies.
use mathlib.Core.List.{append-nil}
use micros.Base.{
  ℕ, suc, ◌+◌, ◌≤◌, ◌<◌, Str, true, false, ◌≡◌, refl, ap, ◌∙◌, ◌==◌, leb, none, some, List, ◌++◌,
  length, All, arith, lt→ltb,
}
use micros.Auth.Chunked.{int64_limit, read_chunk, decode_from, decode_chunked, prepend}
use micros.Auth.Framing.{Chunk, IsExtension, header, frames, payloads}
use micros.Auth.Decoded.{IsFramed, decode_from-header, decode_from-frames, decode_from-enough}

module _ (cs : List Chunk) (framed : All IsFramed cs) (n : ℕ) (ext : Str) (rest : List ℕ)
    (fits : n < int64_limit) (named : IsExtension ext) where
  -- The whole chunks, and one more round.
  decode_chunked-header :
      (f : ℕ) × (decode_chunked (frames cs (header n ext rest))
        ≡ prepend (payloads cs) (read_chunk (decode_from f) rest (some n)))
  unfolding decode_chunked
  decode_chunked-header =
      let body = frames cs (header n ext rest) in
      let f = length body in
      (
        f,
        decode_from-enough (length body) (length cs + suc f) body (omega arith) (omega arith)
            ∙ decode_from-frames cs (suc f) (header n ext rest) framed
            ∙ ap (prepend (payloads cs)) (decode_from-header f n ext rest fits named),
      )

-- A body in the documented framing, chunks with any extensions and then a chunk of size 0, decodes to
-- the data of the chunks, whatever follows. A chunk holds one byte at least, and its size plus 2 is
-- an int64.
pub decode_chunked-frames :
    (cs : List Chunk) (ext : Str) (rest : List ℕ)
    → All IsFramed cs
    → IsExtension ext
    → decode_chunked (frames cs (header 0 ext rest)) ≡ some (payloads cs)
unfolding read_chunk
decode_chunked-frames cs ext rest framed named =
    let (f, e) = decode_chunked-header cs framed 0 ext rest (omega arith) named in
    e ∙ ap some (append-nil (payloads cs))

-- A body that breaks off before the end of a chunk's closing line break decodes without an error: to
-- the data of the chunks before it and all that stands behind the last header line.
pub decode_chunked-cut :
    (cs : List Chunk) (n : ℕ) (ext : Str) (part : List ℕ)
    → All IsFramed cs
    → IsExtension ext
    → 0 < n
    → n + 2 < int64_limit
    → length part < n + 2
    → decode_chunked (frames cs (header n ext part)) ≡ some (payloads cs ++ part)
unfolding read_chunk
decode_chunked-cut cs n ext part framed named filled fits short =
    let (f, e) = decode_chunked-header cs framed n ext part (omega arith) named in
    let one : (n == 0) ≡ false = ground arith in
    let two : leb int64_limit (n + 2) ≡ false = ground arith in
    e ∙ rw (one, two, lt→ltb (length part) (n + 2) short) refl

-- A chunk whose size is the largest int64 or one less, so that adding 2 overflows, makes the decoder
-- panic, after any well-formed chunks and whatever follows.
pub decode_chunked-panic :
    (cs : List Chunk) (n : ℕ) (ext : Str) (rest : List ℕ)
    → All IsFramed cs
    → IsExtension ext
    → n < int64_limit
    → int64_limit ≤ n + 2
    → decode_chunked (frames cs (header n ext rest)) ≡ none
unfolding read_chunk
decode_chunked-panic cs n ext rest framed named small large =
    let (f, e) = decode_chunked-header cs framed n ext rest small named in
    let one : (n == 0) ≡ false = ground arith in
    let two : leb int64_limit (n + 2) ≡ true = ground arith in e ∙ rw (one, two) refl
