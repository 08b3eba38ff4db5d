-- ===== src/Service/Multipart.antt =====
-- internal/application/s3app/service.go: CompleteMultipartUpload up to the metadata that it hands to
-- PutObject, and the reader that it hands along. md5 in hexadecimal is a parameter.
pub mod Selected
pub mod Assembled
pub mod Returned
mod Examples
use micros.Base.{
  ℕ, ◌+◌, ◌*◌, Str, codes, str_eq, itoa, ◌==◌, Option, none, some, List, [], ◌∷◌, ◌++◌, length,
  Result, ok, err, if◌then◌else◌,
}
use mathlib.Core.List.{reverse}
use micros.Base.Assoc.{lookup, insert, nat_Eq}
use micros.Domain.Object.{UploadPart, CompletePart}
use micros.Disk.{M, pure, ◌>>=◌, ◌>>◌}
use micros.Storage.Uploads.{get_multipart_part, delete_multipart_part, sort_parts}
use micros.Auth.Chunked.{hex_value}

pub data CompleteError : Type 0 where
  part_missing : ℕ → CompleteError
  etag_mismatch : ℕ → Str → Str → CompleteError
  bad_etag : ℕ → CompleteError

unfoldable pub trim_quotes_left : Str → Str
trim_quotes_left [] = []
trim_quotes_left (c ∷ s) = let rest = trim_quotes_left s in if c == b'"' then rest else c ∷ s

-- `strings.Trim(s, "\"")`
unfoldable pub trim_quotes : Str → Str
unfolding trim_quotes_left
trim_quotes s = reverse (trim_quotes_left (reverse (trim_quotes_left s)))

-- `storedPartsMap`
unfoldable pub by_number : List UploadPart → List (ℕ × UploadPart) → List (ℕ × UploadPart)
by_number [] m = m
by_number (p ∷ ps) m = by_number ps (insert p.part_number p m)

unfoldable pub check_part : CompletePart → Option UploadPart → Result CompleteError UploadPart
check_part r none = err (part_missing r.part_number)
check_part r (some p) =
    if str_eq (trim_quotes r.etag) (trim_quotes p.etag)
    then ok p
    else err (etag_mismatch r.part_number (trim_quotes r.etag) (trim_quotes p.etag))

abbrev pub and_then :
    Result CompleteError UploadPart
    → Result CompleteError (List UploadPart)
    → Result CompleteError (List UploadPart)
and_then (err e) rest = err e
and_then (ok p) (err e) = err e
and_then (ok p) (ok ps) = ok (p ∷ ps)

-- The loop over the parts of the request.
unfoldable pub select_parts :
    List (ℕ × UploadPart) → List CompletePart → Result CompleteError (List UploadPart)
unfolding check_part
select_parts m [] = ok []
select_parts m (r ∷ rs) = and_then (check_part r (lookup r.part_number m)) (select_parts m rs)

abbrev sorted : Result CompleteError (List UploadPart) → Result CompleteError (List UploadPart)
sorted (ok ps) = ok (sort_parts ps)
sorted (err e) = err e

unfoldable pub sorted_parts :
    List UploadPart → List CompletePart → Result CompleteError (List UploadPart)
unfolding by_number select_parts
sorted_parts stored requested = sorted (select_parts (by_number stored []) requested)

-- `totalSize`; int64 has room for every file.
unfoldable pub total_size : List UploadPart → ℕ
total_size [] = 0
total_size (p ∷ ps) = p.size + total_size ps

-- hex.DecodeString
unfoldable pub hex_bytes : Str → Option (List ℕ)
unfolding hex_value
hex_bytes [] = some []
hex_bytes (c ∷ []) = none
hex_bytes (c ∷ d ∷ s) =
    let rest = hex_bytes s in
    elim (hex_value c) [
      | none ↦ none
      | some a ↦ elim (hex_value d) [
        | none ↦ none
        | some b ↦ elim rest [ none ↦ none | some bs ↦ some ((a * 16 + b) ∷ bs) ]
      ]
    ]

abbrev pub join_sums :
    ℕ → Option (List ℕ) → Result CompleteError (List ℕ) → Result CompleteError (List ℕ)
join_sums n none rest = err (bad_etag n)
join_sums n (some bs) (err e) = err e
join_sums n (some bs) (ok cs) = ok (bs ++ cs)

-- The sums of the parts, one after the other.
unfoldable pub part_sums : List UploadPart → Result CompleteError (List ℕ)
unfolding hex_bytes trim_quotes
part_sums [] = ok []
part_sums (p ∷ ps) = join_sums p.part_number (hex_bytes (trim_quotes p.etag)) (part_sums ps)

unfoldable pub final_etag : (List ℕ → Str) → List UploadPart → List ℕ → Str
final_etag md5_hex parts sums =
    codes "\"" ++ (md5_hex sums ++ (codes "-" ++ (itoa (length parts) ++ codes "\"")))

-- What PutObject is called with, but for the reader.
pub record Completion : Type 0 where
  pub parts : List UploadPart
  pub size : ℕ
  pub etag : Str

abbrev with_etag :
    (List ℕ → Str)
    → List UploadPart
    → Result CompleteError (List ℕ)
    → Result CompleteError Completion
with_etag md5_hex parts (err e) = err e
with_etag md5_hex parts (ok sums) =
    ok (record { parts = parts; size = total_size parts; etag = final_etag md5_hex parts sums })

abbrev completion_of :
    (List ℕ → Str) → Result CompleteError (List UploadPart) → Result CompleteError Completion
completion_of md5_hex (err e) = err e
completion_of md5_hex (ok parts) = with_etag md5_hex parts (part_sums parts)

unfoldable pub prepare_completion :
    (List ℕ → Str) → List UploadPart → List CompletePart → Result CompleteError Completion
unfolding sorted_parts part_sums total_size final_etag
prepare_completion md5_hex stored requested = completion_of md5_hex (sorted_parts stored requested)

-- multipartPartsReader, read to its end: each part's files are deleted when it has been read.
unfoldable pub read_away : Str → Str → List UploadPart → M (List ℕ)
read_away bucket upload_id [] = pure []
read_away bucket upload_id (p ∷ ps) = do
  bs ← get_multipart_part bucket upload_id p.part_number
  delete_multipart_part bucket upload_id p.part_number
  rest ← read_away bucket upload_id ps
  pure (bs ++ rest)
