-- ===== src/Storage/Uploads.antt =====
-- Multipart uploads on one node: a directory for each session, with its description, the bytes of
-- each part and what was computed from them.
pub mod Parts
pub mod Order
mod Examples
use micros.Base.{
  ℕ, Str, codes, str_eq, itoa5, has_suffix, Bool, true, false, not, ◌&&◌, ltb, Option, some, List,
  [], ◌∷◌, ◌++◌, length, if◌then◌else◌, ok,
}
use micros.Domain.Object.{MultipartUpload, UploadPart}
use micros.Disk.{
  M, pure, raise, recover, ◌>>=◌, ◌>>◌, Error, not_exist, upload_not_found, bad_json, io, Entry,
  is_dir, Content, bytes, upload_json, part_json, mkdir_all, write_file, read_file, remove_if_there,
  remove_all, read_dir, stat,
}
use micros.Disk.Paths.{FilePath, join}
use micros.Storage.Layout.{uploads_dir, upload_session_dir}
use micros.Storage.Transactions.{Hashes, Reader, read_all, as_bytes}

-- The uuid is an argument.
unfoldable pub create_multipart_upload : Str → Str → Str → ℕ → M Str
create_multipart_upload upload_id bucket key now = do
  mkdir_all (upload_session_dir bucket upload_id)
  write_file (upload_session_dir bucket upload_id ++ codes "upload.json" ∷ [])
      (upload_json (record { upload_id = upload_id; bucket = bucket; key = key; initiated = now }))
  pure upload_id

abbrev pub part_file : FilePath → ℕ → FilePath
part_file session n = session ++ itoa5 n ∷ []

abbrev pub part_info : FilePath → ℕ → FilePath
part_info session n = session ++ (itoa5 n ++ codes ".json") ∷ []

-- `os.IsNotExist` of the Stat; another error of it is not looked at.
unfoldable pub session_there : Error → M (Unit {0})
session_there not_exist = raise upload_not_found
session_there e = pure tt

unfoldable pub check_session : FilePath → M (Unit {0})
unfolding session_there
check_session session = recover (stat session) (λ e. pure tt) session_there

unfoldable pub part_of : Hashes → ℕ → ℕ → List ℕ → UploadPart
part_of h n now bs = record {
  part_number = n;
  size = length bs;
  etag = h.etag bs;
  crc32 = h.crc32 bs;
  modified_at = now;
}

unfoldable pub save_multipart_part : Hashes → Str → Str → ℕ → ℕ → Reader → M UploadPart
save_multipart_part h bucket upload_id n now reader = do
  check_session (upload_session_dir bucket upload_id)
  io
  bs ← read_all reader
  write_file (part_file (upload_session_dir bucket upload_id) n) (bytes bs)
  write_file (part_info (upload_session_dir bucket upload_id) n) (part_json (part_of h n now bs))
  pure (part_of h n now bs)

unfoldable pub get_multipart_part : Str → Str → ℕ → M (List ℕ)
get_multipart_part bucket upload_id n = do
  c ← read_file (part_file (upload_session_dir bucket upload_id) n)
  as_bytes c

unfoldable pub delete_multipart_part : Str → Str → ℕ → M (Unit {0})
delete_multipart_part bucket upload_id n = do
  remove_if_there (part_file (upload_session_dir bucket upload_id) n)
  remove_if_there (part_info (upload_session_dir bucket upload_id) n)

unfoldable pub abort_multipart_upload : Str → Str → M (Unit {0})
abort_multipart_upload bucket upload_id = remove_all (upload_session_dir bucket upload_id)

unfoldable pub as_upload : Content → M MultipartUpload
as_upload (upload_json u) = pure u
as_upload _ = raise bad_json

unfoldable pub get_multipart_upload : Str → Str → M MultipartUpload
get_multipart_upload bucket upload_id = do
  c ← read_file (upload_session_dir bucket upload_id ++ codes "upload.json" ∷ [])
  as_upload c

unfoldable pub as_part : Content → M UploadPart
as_part (part_json p) = pure p
as_part _ = raise bad_json

-- The loop of GetMultipartParts over the entries; a part that cannot be read is left out.
unfoldable pub read_parts : FilePath → List (Str × Entry) → M (List UploadPart)
unfolding as_part
read_parts session [] = pure []
read_parts session ((name, e) ∷ rest) =
    let others = read_parts session rest in
    if not (is_dir (some e))
      && has_suffix name (codes ".json")
      && not (str_eq name (codes "upload.json"))
    then recover (read_file (session ++ name ∷ []) >>= as_part)
        (λ p. others >>= λ ps. pure (p ∷ ps)) (λ e. others)
    else others

-- sort.Slice by the part's number.
insert_part : UploadPart → List UploadPart → List UploadPart
insert_part p [] = p ∷ []
insert_part p (q ∷ qs) =
    if ltb q.part_number p.part_number then q ∷ insert_part p qs else p ∷ q ∷ qs

unfoldable pub sort_parts : List UploadPart → List UploadPart
unfolding insert_part
sort_parts [] = []
sort_parts (p ∷ ps) = insert_part p (sort_parts ps)

unfoldable pub get_multipart_parts : Str → Str → M (List UploadPart)
get_multipart_parts bucket upload_id = do
  check_session (upload_session_dir bucket upload_id)
  entries ← read_dir (upload_session_dir bucket upload_id)
  parts ← read_parts (upload_session_dir bucket upload_id) entries
  pure (sort_parts parts)

unfoldable pub read_uploads : FilePath → List (Str × Entry) → M (List MultipartUpload)
unfolding as_upload
read_uploads base [] = pure []
read_uploads base ((name, e) ∷ rest) =
    let others = read_uploads base rest in
    if is_dir (some e)
    then recover (read_file (base ++ name ∷ codes "upload.json" ∷ []) >>= as_upload)
        (λ u. others >>= λ us. pure (u ∷ us)) (λ e. others)
    else others

unfoldable pub no_uploads : Error → M (List MultipartUpload)
no_uploads not_exist = pure []
no_uploads e = raise e

unfoldable pub list_multipart_uploads : Str → M (List MultipartUpload)
unfolding read_uploads no_uploads
list_multipart_uploads bucket =
    recover (read_dir (uploads_dir bucket)) (read_uploads (uploads_dir bucket)) no_uploads
