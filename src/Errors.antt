-- ===== src/Errors.antt =====
-- internal/presentation/s3api/errors.go: MapErrorToS3, from the text of an error to the code and the
-- status of the answer.
use micros.Base.{
  ℕ, Str, codes, str_eq, has_prefix, Bool, true, false, ◌||◌, ◌≡◌, ◌⊎◌, inl, inr, refl, [], ◌∷◌,
  ◌++◌, arith, if◌then◌else◌, Bool-cases, str_eq_iff, subst,
}

pub record S3Error : Type 0 where
  pub code : Str
  pub status : ℕ

-- strings.Contains
unfoldable pub contains : Str → Str → Bool
contains [] t = has_prefix [] t
contains (c ∷ s) t = has_prefix (c ∷ s) t || contains s t

abbrev pub service_unavailable : S3Error
service_unavailable = record { code = codes "ServiceUnavailable"; status = 503 }

abbrev pub bucket_in_use : S3Error
bucket_in_use = record { code = codes "BucketNotEmpty"; status = 409 }

abbrev pub no_such_key : S3Error
no_such_key = record { code = codes "NoSuchKey"; status = 404 }

abbrev pub internal_error : S3Error
internal_error = record { code = codes "InternalError"; status = 500 }

unfoldable pub map_error_to_s3 : Str → S3Error
unfolding contains
map_error_to_s3 text =
    if contains text (codes "ServiceUnavailable")
    then service_unavailable
    else if str_eq text (codes "bucket not empty")
    then bucket_in_use
    else if str_eq text (codes "not found")
        || str_eq text (codes "file does not exist")
        || str_eq text (codes "no such file or directory")
        || contains text (codes "does not exist")
    then no_such_key
    else internal_error

has_prefix-append : (t b : Str) → has_prefix (t ++ b) t ≡ true
unfolding has_prefix
has_prefix-append [] b = refl
has_prefix-append (c ∷ t) b = ground (arith, has_prefix-append t b)

contains-prefix : (s t : Str) → has_prefix s t ≡ true → contains s t ≡ true
unfolding contains
contains-prefix [] t h = h
contains-prefix (c ∷ s) t h = rw h refl

contains-append : (a t b : Str) → contains (a ++ t ++ b) t ≡ true
unfolding contains
contains-append [] t b = contains-prefix (t ++ b) t (has_prefix-append t b)
contains-append (c ∷ a) t b = ground (arith, contains-append a t b)

not_empty_apart :
    (text : Str)
    → contains text (codes "does not exist") ≡ true
    → str_eq text (codes "bucket not empty") ≡ true
    → false ≡ true
unfolding contains has_prefix
not_empty_apart text h e =
    subst (λ x. contains x (codes "does not exist") ≡ true)
      ((str_eq_iff text (codes "bucket not empty")).0 e) h

either_known :
    (a b c : Bool) → (if a || b || c || true then no_such_key else internal_error) ≡ no_such_key
either_known true b c = refl
either_known false true c = refl
either_known false false true = refl
either_known false false false = refl

missing :
    (text : Str)
    → contains text (codes "does not exist") ≡ true
    → (map_error_to_s3 text ≡ service_unavailable) ⊎ (map_error_to_s3 text ≡ no_such_key)
unfolding map_error_to_s3
missing text h = elim (Bool-cases (contains text (codes "ServiceUnavailable"))) [
  | inl busy ↦ inl (rw (busy, map_error_to_s3) refl)
  | inr calm ↦ elim (Bool-cases (str_eq text (codes "bucket not empty"))) [
    | inl same ↦ absurd (cc (not_empty_apart text h same))
    | inr other ↦ inr (
        rw (calm, other, h, map_error_to_s3)
          (either_known (str_eq text (codes "not found"))
            (str_eq text (codes "file does not exist"))
            (str_eq text (codes "no such file or directory"))))
  ]
]

-- An error whose text contains ServiceUnavailable anywhere is answered with that code and 503, and one
-- whose text contains "does not exist" with that answer or with NoSuchKey and 404.
pub map_error_to_s3-contains :
    (a b : Str)
    → (map_error_to_s3 (a ++ codes "ServiceUnavailable" ++ b) ≡ service_unavailable)
      × ((map_error_to_s3 (a ++ codes "does not exist" ++ b) ≡ service_unavailable)
          ⊎ (map_error_to_s3 (a ++ codes "does not exist" ++ b) ≡ no_such_key))
unfolding map_error_to_s3
map_error_to_s3-contains a b = (
  rw (contains-append a (codes "ServiceUnavailable") b, map_error_to_s3) refl,
  missing (a ++ codes "does not exist" ++ b) (contains-append a (codes "does not exist") b),
)
