-- ===== src/Auth/Decoded.antt =====
-- What the decoder returns for a body that is framed as the comment says, and for one that is cut.
use micros.Base.{
  ℕ, zero, suc, ◌+◌, ◌-◌, ◌≤◌, ◌<◌, Str, Bool, true, false, ◌≡◌, ◌≢◌, refl, sym, ap, ◌∙◌, ◌==◌, ltb,
  leb, Option, none, some, List, [], ◌∷◌, ◌++◌, length, length-append, take, drop, All,
  if◌then◌else◌, arith, Option-cases, inl, inr, ge→ltb,
}
use mathlib.Core.List.{append_assoc}
use micros.Codec.Rows.{take-length}
use micros.Auth.Chunked.{
  int64_limit, starts_crlf, index_crlf, chunk_size, prepend, read_chunk, decode_from,
}
use micros.Auth.Framing.{
  hex, Chunk, IsExtension, header, frame, frames, payloads, chunk_size-hex, line_no_cr,
}

starts_crlf-ne : (c : ℕ) (rest : List ℕ) → c ≢ b'\r' → starts_crlf c rest ≡ false
starts_crlf-ne c [] h = refl
starts_crlf-ne c (d ∷ rest) h = ground (arith, h)

index_crlf-append :
    (line rest : List ℕ)
    → All (λ c. c ≢ b'\r') line
    → index_crlf (line ++ b'\r' ∷ b'\n' ∷ rest) ≡ some (length line)
unfolding index_crlf
index_crlf-append [] rest h = refl
index_crlf-append (c ∷ line) rest h =
    rw (starts_crlf-ne c (line ++ b'\r' ∷ b'\n' ∷ rest) h.0, index_crlf-append line rest h.1) refl

drop-length : (line rest : List ℕ) (c d : ℕ) → drop (length line + 2) (line ++ c ∷ d ∷ rest) ≡ rest
drop-length [] rest c d = refl
drop-length (x ∷ line) rest c d =
    let e : suc (length line) + 2 ≡ suc (length line + 2) = omega arith in
    rw e (drop-length line rest c d)

round_at :
    (f i : ℕ) (remaining : List ℕ)
    → index_crlf remaining ≡ some i
    → decode_from (suc f) remaining
      ≡ read_chunk (decode_from f) (drop (i + 2) remaining) (chunk_size (take i remaining))
unfolding decode_from
round_at f i remaining h = rw (h, decode_from) refl

-- A round at a whole header line.
pub decode_from-header :
    (f n : ℕ) (ext : Str) (rest : List ℕ)
    → n < int64_limit
    → IsExtension ext
    → decode_from (suc f) (header n ext rest) ≡ read_chunk (decode_from f) rest (some n)
unfolding header
decode_from-header f n ext rest small h =
    let line : Str = hex n ++ ext in
    let found = index_crlf-append line rest (line_no_cr n ext h) in
    round_at f (length line) (line ++ b'\r' ∷ b'\n' ∷ rest) found
    ∙ ap
        (λ x.
          read_chunk (decode_from f) x
            (chunk_size (take (length line) (line ++ b'\r' ∷ b'\n' ∷ rest))))
        (drop-length line rest b'\r' b'\n')
    ∙ ap (λ x. read_chunk (decode_from f) rest (chunk_size x))
        (take-length line (b'\r' ∷ b'\n' ∷ rest))
    ∙ ap (read_chunk (decode_from f) rest) (chunk_size-hex n ext small h)

-- A chunk as a client may send it: not the last, and of a size whose sum with 2 is an int64.
pub record IsFramed (c : Chunk) : Type 0 where
  pub filled : 0 < length c.payload
  pub fits : length c.payload + 2 < int64_limit
  pub named : IsExtension c.extension

read_chunk-whole :
    (next : List ℕ → Option (List ℕ)) (bs rest : List ℕ)
    → 0 < length bs
    → length bs + 2 < int64_limit
    → read_chunk next (bs ++ b'\r' ∷ b'\n' ∷ rest) (some (length bs)) ≡ prepend bs (next rest)
unfolding read_chunk
read_chunk-whole next bs rest filled fits =
    let one : (length bs == 0) ≡ false = ground arith in
    let two : leb int64_limit (length bs + 2) ≡ false = ground arith in
    let n : length (bs ++ b'\r' ∷ b'\n' ∷ rest) ≡ length bs + suc (suc (length rest)) =
      length-append bs (b'\r' ∷ b'\n' ∷ rest) in
    let three : ltb (length (bs ++ b'\r' ∷ b'\n' ∷ rest)) (length bs + 2) ≡ false =
      ge→ltb _ _ (omega (arith, n)) in
    rw (one, two, three, take-length bs (b'\r' ∷ b'\n' ∷ rest), drop-length bs rest b'\r' b'\n')
      refl

prepend-append :
    (xs ys : List ℕ) (o : Option (List ℕ)) → prepend xs (prepend ys o) ≡ prepend (xs ++ ys) o
prepend-append xs ys none = refl
prepend-append xs ys (some zs) = ap some (sym (append_assoc xs ys zs))

-- Whole chunks, one round for each, and then the rest.
pub decode_from-frames :
    (cs : List Chunk) (f : ℕ) (last : List ℕ)
    → All IsFramed cs
    → decode_from (length cs + f) (frames cs last) ≡ prepend (payloads cs) (decode_from f last)
unfolding frames frame payloads
decode_from-frames [] f last h =
    let e : 0 + f ≡ f = omega arith in rw e (nothing (decode_from f last))
  where
    nothing : (o : Option (List ℕ)) → o ≡ prepend [] o
    nothing none = refl
    nothing (some x) = refl
decode_from-frames (c ∷ cs) f last (one, others) =
    let e : suc (length cs) + f ≡ suc (length cs + f) = omega arith in
    let round =
      decode_from-header (length cs + f) (length c.payload) c.extension
        (c.payload ++ b'\r' ∷ b'\n' ∷ frames cs last) (omega (arith, one.fits)) one.named in
    let chunk =
      read_chunk-whole (decode_from (length cs + f)) c.payload (frames cs last) one.filled
        one.fits in
    rw e (
      round
      ∙ chunk
      ∙ ap (prepend c.payload) (decode_from-frames cs f last others)
      ∙ prepend-append c.payload (payloads cs) (decode_from f last))

length-header : (n : ℕ) (ext : Str) (rest : List ℕ) → length rest + 2 ≤ length (header n ext rest)
unfolding header
length-header n ext rest = omega (arith, length-append (hex n ++ ext) (b'\r' ∷ b'\n' ∷ rest))

-- The fuel of the decoder is enough for the chunks.
pub length-frames :
    (cs : List Chunk) (last : List ℕ) → length cs + length last ≤ length (frames cs last)
unfolding frames frame
length-frames [] last = omega arith
length-frames (c ∷ cs) last =
    let rest = frames cs last in
    let body = length-append c.payload (b'\r' ∷ b'\n' ∷ rest) in
    omega (
      arith,
      body,
      length-frames cs last,
      length-header (length c.payload) c.extension (c.payload ++ b'\r' ∷ b'\n' ∷ rest),
    )

-- With fuel for every byte that is left the rounds do not run out.
drop_shorter : (n : ℕ) (xs : List ℕ) → length (drop n xs) ≤ length xs - n
drop_shorter zero xs = omega arith
drop_shorter (suc n) [] = omega arith
drop_shorter (suc n) (x ∷ xs) = omega (arith, drop_shorter n xs)

read_chunk-same :
    (f g : List ℕ → Option (List ℕ)) (rest : List ℕ) (size : Option ℕ)
    → ((xs : List ℕ) → length xs ≤ length rest → f xs ≡ g xs)
    → read_chunk f rest size ≡ read_chunk g rest size
unfolding read_chunk
read_chunk-same f g rest none same = refl
read_chunk-same f g rest (some n) same =
    let e = same (drop (n + 2) rest) (omega (arith, drop_shorter (n + 2) rest)) in rw e refl

index_crlf-length : (xs : List ℕ) (i : ℕ) → index_crlf xs ≡ some i → i < length xs
unfolding index_crlf
index_crlf-length [] i h = cc
index_crlf-length (c ∷ xs) i h =
    first (starts_crlf c xs) (index_crlf xs) (λ j e. index_crlf-length xs j e) i h
  where
    first :
        (b : Bool) (later : Option ℕ)
        → ((j : ℕ) → later ≡ some j → j < length xs)
        → (i : ℕ)
        → (if b then some 0 else elim later [ none ↦ none | some k ↦ some (suc k) ]) ≡ some i
        → i < suc (length xs)
    first true later ih i e = let z : 0 ≡ i = cc in omega (arith, z)
    first false none ih i e = cc
    first false (some k) ih i e = let z : suc k ≡ i = cc in omega (arith, z, ih k refl)

-- The loop ends by itself: more rounds than the body has bytes give the same result.
pub decode_from-enough :
    (f g : ℕ) (body : List ℕ)
    → length body ≤ f
    → length body ≤ g
    → decode_from f body ≡ decode_from g body
unfolding decode_from index_crlf
decode_from-enough zero zero body p q = refl
decode_from-enough zero (suc g) [] p q = refl
decode_from-enough zero (suc g) (c ∷ body) p q = absurd (omega arith)
decode_from-enough (suc f) zero [] p q = refl
decode_from-enough (suc f) zero (c ∷ body) p q = absurd (omega arith)
decode_from-enough (suc f) (suc g) body p q = elim (Option-cases (index_crlf body)) [
  | inl nowhere ↦ rw (nowhere, decode_from) refl
  | inr (i, found) ↦
      let shorter = drop_shorter (i + 2) body in
      let inside = index_crlf-length body i found in
      round_at f i body found
      ∙ read_chunk-same (decode_from f) (decode_from g) (drop (i + 2) body)
          (chunk_size (take i body))
          (λ xs short.
            decode_from-enough f g xs (omega (arith, shorter, inside, short))
              (omega (arith, shorter, inside, short)))
      ∙ sym (round_at g i body found)
]
