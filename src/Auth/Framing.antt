-- ===== src/Auth/Framing.antt =====
-- The framing that the comment on decodeChunkedBody describes, and what the decoder makes of it.
use mathlib.Core.List.{reverse, reverse-append, reverse-reverse}
use micros.Base.{
  ℕ, zero, suc, ◌+◌, ◌-◌, ◌*◌, ◌/◌, ◌%◌, ◌<◌, Str, false, ◌≡◌, ◌≢◌, refl, sym, ap, ◌∙◌, ◌==◌, ltb,
  some, List, [], ◌∷◌, ◌++◌, length, All, if◌then◌else◌, arith, Bool-cases, inl, inr, ltb→lt,
  ltb→ge, lt→ltb, subst,
}
use micros.Auth.Chunked.{
  int64_limit, before_semicolon, is_space, trim_left, trim_space, hex_value, scan_digits,
  scan_number, fit_int64, scan_size, chunk_size,
}

-- A digit, in lower case.
abbrev hex_digit : ℕ → ℕ
hex_digit v = if ltb v 10 then b'0' + v else b'a' + (v - 10)

-- The hexadecimal digits of a number, with fuel for their count.
hex_from : ℕ → ℕ → Str
hex_from zero n = []
hex_from (suc f) n =
    let front = hex_from f (n / 16) in (if ltb n 16 then [] else front) ++ hex_digit (n % 16) ∷ []

unfoldable pub hex : ℕ → Str
unfolding hex_from
hex n = hex_from (suc n) n

-- A chunk: its data, and what follows the size in the header line, such as the signature.
pub record Chunk : Type 0 where
  pub extension : Str
  pub payload : List ℕ

-- Nothing, or a text behind a semicolon, without a carriage return.
abbrev pub IsExtension : Str → Type 0
IsExtension [] = Unit {0}
IsExtension (c ∷ s) = (c ≡ b';') × All (λ d. d ≢ b'\r') s

-- A header line before what follows it.
unfoldable pub header : ℕ → Str → List ℕ → List ℕ
header n extension rest = (hex n ++ extension) ++ b'\r' ∷ b'\n' ∷ rest

-- A chunk before what follows it.
unfoldable pub frame : Chunk → List ℕ → List ℕ
unfolding header
frame c rest = header (length c.payload) c.extension (c.payload ++ b'\r' ∷ b'\n' ∷ rest)

unfoldable pub frames : List Chunk → List ℕ → List ℕ
unfolding frame
frames [] last = last
frames (c ∷ cs) last = frame c (frames cs last)

unfoldable pub payloads : List Chunk → List ℕ
payloads [] = []
payloads (c ∷ cs) = c.payload ++ payloads cs

hex_value-hex_digit : (v : ℕ) → v < 16 → hex_value (hex_digit v) ≡ some v
unfolding hex_value
hex_value-hex_digit v h = ground arith

-- A hexadecimal digit is no white space, no semicolon, no sign and no carriage return.
IsPlain : ℕ → Type 0
IsPlain c = (is_space c ≡ false) × (c ≢ b';') × (c ≢ b'\r') × (c ≢ b'-') × (c ≢ b'+')

hex_digit-IsPlain : (v : ℕ) → v < 16 → IsPlain (hex_digit v)
unfolding IsPlain is_space
hex_digit-IsPlain v h = (ground arith, ground arith, ground arith, ground arith, ground arith)

AllHex : Str → Type 0
AllHex = All (λ d. IsPlain d × ((x : ℕ) × (hex_value d ≡ some x)))

scan_digits-append :
    (s : Str) (acc v c : ℕ)
    → AllHex s
    → hex_value c ≡ some v
    → scan_digits acc (s ++ c ∷ []) ≡ scan_digits acc s * 16 + v
unfolding scan_digits AllHex
scan_digits-append [] acc v c all h = rw (h, scan_digits) refl
scan_digits-append (d ∷ s) acc v c ((plain, (x, hx)), all) h =
    rw (hx, scan_digits) (scan_digits-append s (acc * 16 + x) v c all h)

All-append :
    {A : Type 0} (P : A → Type 0) (xs : List A) (x : A) → All P xs → P x → All P (xs ++ x ∷ [])
All-append P [] x h p = (p, tt)
All-append P (y ∷ ys) x h p = (h.0, All-append P ys x h.1 p)

hex_digit-AllHex :
    (v : ℕ) → v < 16 → IsPlain (hex_digit v) × ((x : ℕ) × (hex_value (hex_digit v) ≡ some x))
hex_digit-AllHex v h = (hex_digit-IsPlain v h, (v, hex_value-hex_digit v h))

hex_from-AllHex : (f n : ℕ) → AllHex (hex_from f n)
unfolding hex_from AllHex
hex_from-AllHex zero n = tt
hex_from-AllHex (suc f) n = elim (Bool-cases (ltb n 16)) [
  | inl one ↦ rw one (hex_digit-AllHex (n % 16) (omega arith), tt)
  | inr more ↦ rw more (
      All-append _ (hex_from f (n / 16)) (hex_digit (n % 16)) (hex_from-AllHex f (n / 16))
        (hex_digit-AllHex (n % 16) (omega arith)))
]

scan_digits-hex_from : (f n : ℕ) → n < f → scan_digits 0 (hex_from f n) ≡ n
unfolding hex_from scan_digits
scan_digits-hex_from zero n h = absurd (omega arith)
scan_digits-hex_from (suc f) n h = elim (Bool-cases (ltb n 16)) [
  | inl one ↦
      let small = ltb→lt n 16 one in
      rw (one, hex_value-hex_digit (n % 16) (omega arith), scan_digits) (omega arith)
  | inr more ↦
      let large = ltb→ge n 16 more in
      rw more (
        scan_digits-append (hex_from f (n / 16)) 0 (n % 16) (hex_digit (n % 16))
          (hex_from-AllHex f (n / 16)) (hex_value-hex_digit (n % 16) (omega arith))
        ∙ omega (arith, scan_digits-hex_from f (n / 16) (omega arith)))
]

hex_from-ne-nil : (f n : ℕ) → hex_from (suc f) n ≢ []
unfolding hex_from
hex_from-ne-nil f n = elim (Bool-cases (ltb n 16)) [
  | inl one ↦ rw one (λ h. cc)
  | inr more ↦ rw more (concat-ne-nil (hex_digit (n % 16)) (hex_from f (n / 16)))
]
  where
    concat-ne-nil : (c : ℕ) (s : Str) → (s ++ c ∷ []) ≢ []
    concat-ne-nil c [] h = cc
    concat-ne-nil c (d ∷ s) h = cc

scan_number-cons :
    (c v : ℕ) (s : Str) → hex_value c ≡ some v → scan_number (c ∷ s) ≡ some (scan_digits 0 (c ∷ s))
unfolding scan_number scan_digits
scan_number-cons c v s h =
    let start : v ≡ 0 * 16 + v = omega arith in
    rw (h, scan_number, scan_digits) (ap (λ x. some (scan_digits x s)) start)

-- What scanning a number makes of digits alone.
scan_size-AllHex :
    (s : Str)
    → AllHex s
    → s ≢ []
    → scan_digits 0 s < int64_limit
    → scan_size s ≡ some (scan_digits 0 s)
unfolding AllHex scan_size fit_int64 IsPlain
scan_size-AllHex [] all filled small = absurd (filled refl)
scan_size-AllHex (c ∷ s) ((plain, (v, hv)), all) filled small =
    let minus : (c == b'-') ≡ false = ground (arith, plain.3) in
    let plus : (c == b'+') ≡ false = ground (arith, plain.4) in
    let fits = lt→ltb (scan_digits 0 (c ∷ s)) int64_limit small in
    rw (minus, plus, scan_number-cons c v s hv, fits) refl

trim_left-AllHex : (s : Str) → AllHex s → trim_left s ≡ s
unfolding AllHex trim_left IsPlain
trim_left-AllHex [] all = refl
trim_left-AllHex (c ∷ s) ((plain, h), all) = rw plain.0 refl

All-reverse : {A : Type 0} (P : A → Type 0) (xs : List A) → All P xs → All P (reverse xs)
All-reverse P [] h = tt
All-reverse P (x ∷ xs) h =
    subst (All P) (sym (reverse-append (x ∷ []) xs))
      (All-append P (reverse xs) x (All-reverse P xs h.1) h.0)

trim_space-AllHex : (s : Str) → AllHex s → trim_space s ≡ s
unfolding trim_space
trim_space-AllHex s all =
    ap (λ t. reverse (trim_left (reverse t))) (trim_left-AllHex s all)
    ∙ ap reverse (trim_left-AllHex (reverse s) (unfold AllHex in All-reverse _ s all))
    ∙ reverse-reverse s

before_semicolon-AllHex :
    (s ext : Str) → AllHex s → IsExtension ext → before_semicolon (s ++ ext) ≡ s
unfolding AllHex before_semicolon IsPlain
before_semicolon-AllHex [] [] all h = refl
before_semicolon-AllHex [] (c ∷ ext) all h = rw h.0 refl
before_semicolon-AllHex (c ∷ s) ext ((plain, v), all) h =
    let other : (c == b';') ≡ false = ground (arith, plain.1) in
    rw other (ap (λ t. c ∷ t) (before_semicolon-AllHex s ext all h))

-- The header line of a chunk gives its size back.
pub chunk_size-hex :
    (n : ℕ) (ext : Str) → n < int64_limit → IsExtension ext → chunk_size (hex n ++ ext) ≡ some n
unfolding chunk_size hex
chunk_size-hex n ext small h =
    let all = hex_from-AllHex (suc n) n in
    let value = scan_digits-hex_from (suc n) n (omega arith) in
    rw (before_semicolon-AllHex (hex_from (suc n) n) ext all h, trim_space-AllHex _ all)
      (scan_size-AllHex (hex_from (suc n) n) all (hex_from-ne-nil n n) (omega (arith, value, small))
        ∙ ap some value)

hex_no_cr : (s : Str) → AllHex s → All (λ c. c ≢ b'\r') s
unfolding AllHex IsPlain
hex_no_cr [] all = tt
hex_no_cr (c ∷ s) ((plain, v), all) = (plain.2, hex_no_cr s all)

All-concat : {A : Type 0} (P : A → Type 0) (xs ys : List A) → All P xs → All P ys → All P (xs ++ ys)
All-concat P [] ys h k = k
All-concat P (x ∷ xs) ys h k = (h.0, All-concat P xs ys h.1 k)

extension_no_cr : (ext : Str) → IsExtension ext → All (λ c. c ≢ b'\r') ext
extension_no_cr [] h = tt
extension_no_cr (c ∷ s) (semi, rest) = ((λ e. absurd (omega arith)), rest)

pub line_no_cr : (n : ℕ) (ext : Str) → IsExtension ext → All (λ c. c ≢ b'\r') (hex n ++ ext)
unfolding hex
line_no_cr n ext h =
    All-concat _ (hex_from (suc n) n) ext (hex_no_cr _ (hex_from-AllHex (suc n) n))
      (extension_no_cr ext h)
