-- ===== src/Storage/Uploads/Parts.antt =====
-- A part that is saved and read again.
use micros.Base.{
  ℕ, Str, Bool, codes, str_eq, false, ◌≡◌, refl, ◌∙◌, some, List, [], ◌∷◌, ◌++◌, ok, arith, itoa5,
}
use micros.Domain.Object.{UploadPart}
use micros.Disk.{Disk, bytes, part_json, file_at, io}
use micros.Disk.Frame.{Frame, Frame-io}
use micros.Disk.Calls.{frame_rules}
use micros.Storage.Isolation.{Frame-as_bytes}
use micros.Disk.Paths.{FilePath, path_eq, path_eq_append}
use micros.Disk.Post.{Post, Post-bind, Post-pure, Post-quiet, Holds, read_file-Post}
use micros.Disk.Writing.{write_file-Post}
use micros.Storage.Layout.{upload_session_dir}
use micros.Storage.Staging.{as_bytes-Post}
use micros.Storage.Transactions.{Hashes, read_all}
use micros.Storage.Uploads.{
  save_multipart_part, get_multipart_part, part_file, part_info, part_of, check_session,
}

longer : (s : Str) (c : ℕ) (t : Str) → str_eq (s ++ c ∷ t) s ≡ false
unfolding str_eq
longer [] c t = refl
longer (d ∷ s) c t = ground (arith, longer s c t)

pub names_apart :
    (session : FilePath) (n : ℕ) → path_eq (part_info session n) (part_file session n) ≡ false
names_apart session n =
    path_eq_append session ((itoa5 n ++ codes ".json") ∷ []) (itoa5 n ∷ [])
    ∙ unfold path_eq in ground (arith, longer (itoa5 n) b'.' (codes "json"))

saved :
    (h : Hashes) (bucket upload_id : Str) (n now : ℕ) (bs : List ℕ) (d : Disk)
    → Post
        (λ p d'.
          (p ≡ part_of h n now bs)
          × Holds
              ((part_info (upload_session_dir bucket upload_id) n, part_json (part_of h n now bs))
                ∷ (part_file (upload_session_dir bucket upload_id) n, bytes bs)
                ∷ [])
              d')
        (save_multipart_part h bucket upload_id n now (ok bs) d)
unfolding save_multipart_part read_all
saved h bucket upload_id n now bs d =
    let session : FilePath = upload_session_dir bucket upload_id in
    Post-bind {P = λ a d'. Unit {0}} (check_session session) _ d (record { at = λ a e. tt })
      λ _ d1 h1. Post-bind io _ d1 (Post-quiet io [] d1 Frame-io tt) λ _ d2 h2.
        Post-bind {P = λ b d'. bs ≡ b} (read_all (ok bs)) _ d2 (Post-pure bs d2 refl) λ b d3 same.
          Post-bind _ _ d3 (write_file-Post (part_file session n) (bytes b) [] d3 tt tt) λ _ d4 h4.
            Post-bind _ _ d4
              (write_file-Post (part_info session n) (part_json (part_of h n now b))
                ((part_file session n, bytes b) ∷ []) d4 (names_apart session n, tt) h4)
              λ _ d5 h5. Post-pure _ d5 (rw same (refl, h5))

pub got_part :
    (bucket upload_id : Str) (n : ℕ) (bs : List ℕ) (d : Disk)
    → file_at d (part_file (upload_session_dir bucket upload_id) n) ≡ some (bytes bs)
    → Post (λ a d'. a ≡ bs) (get_multipart_part bucket upload_id n d)
unfolding get_multipart_part
got_part bucket upload_id n bs d h =
    Post-bind _ _ d
      (read_file-Post (part_file (upload_session_dir bucket upload_id) n) (bytes bs) [] d (h, tt))
      λ x d1 h1. as_bytes-Post x bs d1 h1.0

-- A part that was saved without an error is described by the size and the sums of its bytes, and
-- reading it afterwards returns those bytes, if the read succeeds.
pub get_multipart_part-save_multipart_part :
    (h : Hashes) (bucket upload_id : Str) (n now : ℕ) (bs out : List ℕ) (p : UploadPart) (d : Disk)
    → (save_multipart_part h bucket upload_id n now (ok bs) d).0 ≡ ok p
    → (get_multipart_part bucket upload_id n
        (save_multipart_part h bucket upload_id n now (ok bs) d).1).0
      ≡ ok out
    → (p ≡ part_of h n now bs) × (out ≡ bs)
get_multipart_part-save_multipart_part h bucket upload_id n now bs out p d done read =
    let (same, held) = (saved h bucket upload_id n now bs d).at p done in
    (same, (got_part bucket upload_id n bs _ held.1.0).at out read)

pub Frame-get_multipart_part :
    {T : FilePath → Bool} (bucket upload_id : Str) (n : ℕ)
    → Frame T (get_multipart_part bucket upload_id n)
unfolding get_multipart_part
Frame-get_multipart_part bucket upload_id n = search (frame_rules, Frame-as_bytes)
