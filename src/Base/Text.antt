-- ===== src/Base/Text.antt =====
-- Go strings and byte slices, as lists of bytes.
use Prim.Native.Nat.{ℕ, zero, suc, ◌+◌, ◌-◌, ◌/◌, ◌%◌}
use Prim.Native.Char.{code}
use Prim.Native.String.{String}
use mathlib.Core.Path.{◌≡◌, refl}
use mathlib.Core.Logic.{◌↔◌}
use mathlib.Core.Bool.{Bool, true, false, ◌&&◌}
use mathlib.Core.Option.{Option, none, some}
use mathlib.Core.List.{List, [], ◌∷◌, reverse}
use native.Mathlib.Omega.{arith}
use micros.Base.Tests.{◌==◌, if◌then◌else◌, ltb}

abbrev pub Str : Type 0
Str = List ℕ

-- A string literal of the source.
abbrev pub codes : String → Str
codes String.[] = []
codes (String.◌∷◌ c s) = code c ∷ codes s

unfoldable pub str_eq : Str → Str → Bool
str_eq [] [] = true
str_eq [] (d ∷ t) = false
str_eq (c ∷ s) [] = false
str_eq (c ∷ s) (d ∷ t) = c == d && str_eq s t

pub str_eq→eq : (s t : Str) → str_eq s t ≡ true → s ≡ t
unfolding str_eq
str_eq→eq [] [] h = refl
str_eq→eq [] (d ∷ t) h = ground arith
str_eq→eq (c ∷ s) [] h = ground arith
str_eq→eq (c ∷ s) (d ∷ t) h = ground (arith, str_eq→eq s t)

pub str_eq_refl : (s : Str) → str_eq s s ≡ true
unfolding str_eq
str_eq_refl [] = refl
str_eq_refl (c ∷ s) = ground (arith, str_eq_refl s)

pub str_eq_iff : (s t : Str) → (str_eq s t ≡ true) ↔ (s ≡ t)
str_eq_iff s t = (str_eq→eq s t, λ e. subst_eq e)
  where
    subst_eq : s ≡ t → str_eq s t ≡ true
    subst_eq e = rw e (str_eq_refl t)

-- strings.HasPrefix
unfoldable pub has_prefix : Str → Str → Bool
has_prefix s [] = true
has_prefix [] (d ∷ p) = false
has_prefix (c ∷ s) (d ∷ p) = c == d && has_prefix s p

-- Go's `<` on strings: bytewise lexicographic.
unfoldable pub str_lt : Str → Str → Bool
str_lt [] [] = false
str_lt [] (d ∷ t) = true
str_lt (c ∷ s) [] = false
str_lt (c ∷ s) (d ∷ t) = let rest = str_lt s t in if c == d then rest else ltb c d

-- strings.HasSuffix and strings.TrimSuffix
unfoldable pub has_suffix : Str → Str → Bool
unfolding has_prefix
has_suffix s t = has_prefix (reverse s) (reverse t)

skip : Str → Str → Str
skip s [] = s
skip [] (d ∷ p) = []
skip (c ∷ s) (d ∷ p) = skip s p

-- The rest of a string behind a prefix of the given length.
unfoldable pub after : Str → Str → Str
unfolding skip
after s p = skip s p

unfoldable pub trim_suffix : Str → Str → Str
unfolding has_suffix after
trim_suffix s t = if has_suffix s t then reverse (after (reverse s) (reverse t)) else s

-- Decimal digits, as fmt's %d prints them; the fuel is the number itself.
digits : ℕ → ℕ → Str → Str
digits zero n out = out
digits (suc f) n out =
    let shorter = digits f (n / 10) ((b'0' + n % 10) ∷ out) in
    if ltb n 10 then (b'0' + n) ∷ out else shorter

unfoldable pub itoa : ℕ → Str
unfolding digits
itoa n = digits (suc n) n []

-- %05d
pad_zeros : ℕ → Str → Str
pad_zeros zero s = s
pad_zeros (suc n) s = b'0' ∷ pad_zeros n s

len : Str → ℕ
len [] = 0
len (c ∷ s) = suc (len s)

unfoldable pub itoa5 : ℕ → Str
unfolding itoa pad_zeros len
itoa5 n = pad_zeros (5 - len (itoa n)) (itoa n)

-- strings.Index
unfoldable pub index_of : Str → Str → Option ℕ
index_of [] t = if has_prefix [] t then some 0 else none
index_of (c ∷ s) t =
    let later = index_of s t in
    if has_prefix (c ∷ s) t then some 0 else elim later [ none ↦ none | some i ↦ some (suc i) ]

insert_str : Str → List Str → List Str
insert_str s [] = s ∷ []
insert_str s (t ∷ ts) = if str_lt t s then t ∷ insert_str s ts else s ∷ t ∷ ts

-- sort.Strings
unfoldable pub sort_strs : List Str → List Str
unfolding insert_str
sort_strs [] = []
sort_strs (s ∷ ss) = insert_str s (sort_strs ss)
