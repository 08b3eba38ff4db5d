-- ===== src/Service/Multipart/Returned.antt =====
-- What the reader of a completed upload returns on a disk whose calls do not fail.
use mathlib.Core.List.{Perm}
use micros.Base.{
  ℕ, Str, false, ◌≡◌, refl, ap, ◌∙◌, subst, some, List, [], ◌∷◌, length, All, ok, arith,
}
use micros.Base.Assoc.{erase}
use micros.Domain.Object.{UploadPart, CompletePart}
use micros.Disk.{Entry, bytes, part_json, file_at, pure, ◌>>=◌, del_node}
use micros.Disk.Calls.{del_node_at}
use micros.Disk.Frame.{SameAt}
use micros.Disk.Paths.{FilePath, path_eq, path_eq_iff, path_Eq}
use micros.Disk.Working.{working, read_file-working, remove_if_there-working}
use micros.Storage.Layout.{upload_session_dir}
use micros.Storage.Transactions.{as_bytes}
use micros.Storage.Uploads.{get_multipart_part, delete_multipart_part, part_file, part_info}
use micros.Storage.Uploads.Parts.{names_apart}
use micros.Storage.Uploads.Order.{IsAscending, numbers}
use micros.Service.Multipart.Selected.{asked_numbers}
use micros.Service.Multipart.{Completion, prepare_completion, sorted_parts, read_away}
use micros.Service.Multipart.Assembled.{
  joined, IsDescribed, IsHeld, AreSeparate, files_of, files_kept, Frame-delete_multipart_part,
  selected_and_sorted, completion_of-ok, prepare_completion-joined,
}

module _ (bucket upload_id : Str) (content : ℕ → List ℕ) where
  abbrev dir_of : FilePath
  dir_of = upload_session_dir bucket upload_id

  get_working :
      (p : UploadPart) (ns : List (FilePath × Entry))
      → IsHeld dir_of content (working ns) p
      → get_multipart_part bucket upload_id p.part_number (working ns)
        ≡ (ok (content p.part_number), working ns)
  unfolding get_multipart_part ◌>>=◌ as_bytes pure
  get_working p ns h =
      rw (read_file-working (part_file dir_of p.part_number) (bytes (content p.part_number)) ns h.0)
        refl

  abbrev without : ℕ → List (FilePath × Entry) → List (FilePath × Entry)
  without n ns = erase (part_info dir_of n) (erase (part_file dir_of n) ns)

  file_then_info : (n : ℕ) → path_eq (part_file dir_of n) (part_info dir_of n) ≡ false
  file_then_info n = ground (
    arith,
    names_apart dir_of n,
    path_eq_iff (part_file dir_of n) (part_info dir_of n),
    path_eq_iff (part_info dir_of n) (part_file dir_of n),
  )

  info_left :
      (p : UploadPart) (ns : List (FilePath × Entry))
      → IsHeld dir_of content (working ns) p
      → file_at
          (working (erase (part_file dir_of p.part_number) ns))
          (part_info dir_of p.part_number)
        ≡ some (part_json p)
  unfolding del_node
  info_left p ns h =
      del_node_at (part_file dir_of p.part_number) (part_info dir_of p.part_number) (working ns)
        (file_then_info p.part_number)
      ∙ h.1

  delete_working :
      (p : UploadPart) (ns : List (FilePath × Entry))
      → IsHeld dir_of content (working ns) p
      → delete_multipart_part bucket upload_id p.part_number (working ns)
        ≡ (ok tt, working (without p.part_number ns))
  unfolding delete_multipart_part ◌>>=◌
  delete_working p ns h =
      let n = p.part_number in
      rw (remove_if_there-working (part_file dir_of n) (bytes (content n)) ns h.0) (
        remove_if_there-working (part_info dir_of n) (part_json p) (erase (part_file dir_of n) ns)
          (info_left p ns h))

  after_deletion :
      (p : UploadPart) (ps : List UploadPart) (ns : List (FilePath × Entry))
      → All (IsHeld dir_of content (working ns)) (p ∷ ps)
      → AreSeparate dir_of (p ∷ ps)
      → All (IsHeld dir_of content (working (without p.part_number ns))) ps
  after_deletion p ps ns held apart =
      files_kept bucket upload_id content (files_of dir_of p.part_number) ps (working ns) _
        (λ q o. subst (SameAt q (working ns)) (ap (λ x. x.1) (delete_working p ns held.0)) (
          (Frame-delete_multipart_part bucket upload_id content p.part_number).at (working ns) q o))
        apart.0 held.1

  read_away-working :
      (ps : List UploadPart) (ns : List (FilePath × Entry))
      → All (IsHeld dir_of content (working ns)) ps
      → AreSeparate dir_of ps
      → (read_away bucket upload_id ps (working ns)).0 ≡ ok (joined content ps)
  unfolding read_away joined ◌>>=◌ pure
  read_away-working [] ns held apart = refl
  read_away-working (p ∷ ps) ns held apart =
      rw
        (
          get_working p ns held.0,
          delete_working p ns held.0,
          read_away-working ps (without p.part_number ns) (after_deletion p ps ns held apart)
              apart.1,
        )
        refl

-- Once CompleteMultipartUpload has accepted the parts of a request, and no call of the file system
-- fails, its reader returns the bytes of exactly the requested parts in the order of their numbers,
-- whatever the order of the request, and as many bytes as the size that PutObject is told. Every
-- stored part has its two files, its description gives the number of its bytes, and the files of
-- different selected parts have different paths.
pub read_away-prepare_completion :
    (md5_hex : List ℕ → Str) (bucket upload_id : Str) (content : ℕ → List ℕ)
    (stored : List UploadPart) (requested : List CompletePart) (c : Completion)
    (nodes : List (FilePath × Entry))
    → All (IsDescribed content) stored
    → All (IsHeld (upload_session_dir bucket upload_id) content (working nodes)) stored
    → prepare_completion md5_hex stored requested ≡ ok c
    → AreSeparate (upload_session_dir bucket upload_id) c.parts
    → ((read_away bucket upload_id c.parts (working nodes)).0 ≡ ok (joined content c.parts))
      × (length (joined content c.parts) ≡ c.size)
      × IsAscending c.parts
      × Perm (numbers c.parts) (asked_numbers requested)
unfolding prepare_completion
read_away-prepare_completion md5_hex bucket upload_id content stored requested c nodes described
      held h apart =
    let there =
      (selected_and_sorted (IsHeld (upload_session_dir bucket upload_id) content (working nodes))
        stored requested c.parts held
        (completion_of-ok md5_hex (sorted_parts stored requested) c h).0).0 in
    let read = read_away-working bucket upload_id content c.parts nodes there apart in
    let (same, size, up, chosen) =
      prepare_completion-joined md5_hex bucket upload_id content stored requested c (working nodes)
        (joined content c.parts) described held h apart read in
    (read, size, up, chosen)
