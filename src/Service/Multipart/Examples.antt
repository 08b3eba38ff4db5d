-- ===== src/Service/Multipart/Examples.antt =====
-- An upload of two parts, which the request names in the wrong order.
use mathlib.Core.List.{Perm}
use micros.Base.{
  ℕ, Str, codes, str_eq, itoa5, ◌==◌, ◌≡◌, refl, List, [], ◌∷◌, ok, err, length, if◌then◌else◌,
}
use micros.Base.Assoc.{lookup, insert, erase}
use micros.Domain.Object.{UploadPart, CompletePart}
use micros.Disk.{
  not_exist, Entry, file, bytes, part_json, file_at, node_at, ◌>>=◌, io, get_node, pure, raise,
  read_file, remove_if_there, remove, del_node, children_exist, has_child,
}
use micros.Disk.Paths.{FilePath, join, clean, split_slash, path_eq, parent}
use micros.Storage.Layout.{uploads_dir, upload_session_dir}
use micros.Storage.Transactions.{as_bytes}
use micros.Storage.Uploads.{get_multipart_part, delete_multipart_part, sort_parts}
use micros.Storage.Uploads.Order.{IsAscending, numbers}
use micros.Auth.Chunked.{hex_value}
use micros.Service.Multipart.{
  trim_quotes_left, trim_quotes, by_number, check_part, select_parts, sorted_parts, total_size,
  hex_bytes, part_sums, final_etag, Completion, part_missing, prepare_completion, read_away,
}
use micros.Service.Multipart.Selected.{asked_numbers}
use micros.Service.Multipart.Assembled.{joined, AreSeparate, IsHeld}
use micros.Service.Multipart.Returned.{read_away-prepare_completion}
use micros.Disk.Working.{working}

abbrev part : ℕ → ℕ → UploadPart
part n size = record {
  part_number = n;
  size = size;
  etag = codes "\"0a\"";
  crc32 = 0;
  modified_at = 0;
}

abbrev ask : ℕ → CompletePart
ask n = record { part_number = n; etag = codes "0a" }

abbrev content : ℕ → List ℕ
content n = if n == 1 then 6 ∷ 7 ∷ [] else 8 ∷ []

abbrev md5_hex : List ℕ → Str
md5_hex sums = codes "ff"

abbrev completion : Completion
completion = record { parts = part 1 2 ∷ part 2 1 ∷ []; size = 3; etag = codes "\"ff-2\"" }

abbrev session_nodes : List (FilePath × Entry)
session_nodes =
    (codes "uploads" ∷ codes "b" ∷ codes "u" ∷ codes "00001" ∷ [], file (bytes (6 ∷ 7 ∷ [])))
    ∷ (
      codes "uploads" ∷ codes "b" ∷ codes "u" ∷ codes "00001.json" ∷ [],
      file (part_json (part 1 2)),
    )
    ∷ (codes "uploads" ∷ codes "b" ∷ codes "u" ∷ codes "00002" ∷ [], file (bytes (8 ∷ [])))
    ∷ (
      codes "uploads" ∷ codes "b" ∷ codes "u" ∷ codes "00002.json" ∷ [],
      file (part_json (part 2 1)),
    )
    ∷ []

-- The last run asks for a part twice: its file is gone when it is read again.
runs :
    (prepare_completion md5_hex (part 2 1 ∷ part 1 2 ∷ []) (ask 2 ∷ ask 1 ∷ []) ≡ ok completion)
    × (prepare_completion md5_hex (part 2 1 ∷ []) (ask 2 ∷ ask 1 ∷ []) ≡ err (part_missing 1))
    × ((read_away (codes "b") (codes "u") completion.parts (working session_nodes)).0
        ≡ ok (6 ∷ 7 ∷ 8 ∷ []))
    × ((read_away (codes "b") (codes "u") (part 1 2 ∷ part 1 2 ∷ []) (working session_nodes)).0
        ≡ err not_exist)
unfolding prepare_completion sorted_parts select_parts check_part by_number sort_parts part_sums
    hex_bytes hex_value trim_quotes trim_quotes_left total_size final_etag lookup insert erase
    str_eq read_away get_multipart_part delete_multipart_part read_file as_bytes remove_if_there
    remove del_node children_exist has_child io ◌>>=◌ get_node node_at pure raise uploads_dir
    upload_session_dir join clean split_slash path_eq parent itoa5
runs = (refl, refl, refl, refl)

held :
    IsHeld (upload_session_dir (codes "b") (codes "u")) content (working session_nodes) (part 1 2)
    × IsHeld (upload_session_dir (codes "b") (codes "u")) content (working session_nodes) (part 2 1)
unfolding file_at node_at lookup uploads_dir upload_session_dir join clean split_slash path_eq
    str_eq itoa5
held = ((refl, refl), (refl, refl))

separate : AreSeparate (upload_session_dir (codes "b") (codes "u")) completion.parts
unfolding uploads_dir upload_session_dir join clean split_slash path_eq str_eq itoa5
separate = (((refl, refl), tt), (tt, tt))

read_away-prepare_completion_example :
    ((read_away (codes "b") (codes "u") completion.parts (working session_nodes)).0
      ≡ ok (joined content completion.parts))
    × (length (joined content completion.parts) ≡ completion.size)
    × IsAscending completion.parts
    × Perm (numbers completion.parts) (asked_numbers (ask 2 ∷ ask 1 ∷ []))
read_away-prepare_completion_example =
    read_away-prepare_completion md5_hex (codes "b") (codes "u") content (part 2 1 ∷ part 1 2 ∷ [])
      (ask 2 ∷ ask 1 ∷ []) completion session_nodes (refl, (refl, tt)) (held.1, (held.0, tt)) runs.0
      separate
