-- ===== src/Storage/Uploads/Examples.antt =====
-- An upload session with one part.
use micros.Base.{ℕ, codes, ◌≡◌, refl, List, [], ◌∷◌, ok, str_eq, itoa5, length}
use micros.Base.Assoc.{lookup, insert}
use micros.Disk.{
  Disk, file_at, node_at, ◌>>=◌, mkdir_all, io, make_dirs, get_node, pure, put_node, write_file,
  stat, raise, recover, read_file,
}
use micros.Disk.Paths.{join, clean, split_slash, is_under, path_eq, parent}
use micros.Storage.Layout.{uploads_dir, upload_session_dir}
use micros.Storage.Transactions.{Hashes, read_all, as_bytes}
use micros.Storage.Uploads.{
  create_multipart_upload, save_multipart_part, get_multipart_part, check_session, session_there,
  part_of,
}
use micros.Storage.Uploads.Parts.{get_multipart_part-save_multipart_part}

abbrev hashes : Hashes
hashes = record { crc32 = length; etag = λ bs. codes "etag" }

abbrev session_disk : Disk
session_disk =
    (create_multipart_upload (codes "u") (codes "b") (codes "k") 7
      (record { nodes = []; faults = [] })).1

abbrev two_bytes : List ℕ
two_bytes = 8 ∷ 9 ∷ []

saved_and_read :
    ((save_multipart_part hashes (codes "b") (codes "u") 1 9 (ok two_bytes) session_disk).0
      ≡ ok (part_of hashes 1 9 two_bytes))
    × ((get_multipart_part
          (codes "b")
          (codes "u")
          1
          (save_multipart_part hashes (codes "b") (codes "u") 1 9 (ok two_bytes) session_disk).1).0
        ≡ ok two_bytes)
unfolding file_at node_at join clean split_slash is_under str_eq lookup ◌>>=◌ mkdir_all io make_dirs
    get_node path_eq pure put_node write_file insert parent read_all stat raise recover uploads_dir
    upload_session_dir itoa5 save_multipart_part get_multipart_part create_multipart_upload
    check_session session_there part_of read_file as_bytes
saved_and_read = (refl, refl)

get_multipart_part-save_multipart_part_example :
    (part_of hashes 1 9 two_bytes ≡ part_of hashes 1 9 two_bytes) × (two_bytes ≡ two_bytes)
get_multipart_part-save_multipart_part_example =
    get_multipart_part-save_multipart_part hashes (codes "b") (codes "u") 1 9 two_bytes two_bytes
      (part_of hashes 1 9 two_bytes) session_disk saved_and_read.0 saved_and_read.1
