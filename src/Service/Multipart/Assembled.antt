-- ===== src/Service/Multipart/Assembled.antt =====
-- What the completion of an upload reads, and how much of it.
use mathlib.Core.List.{Perm}
use micros.Base.{
  ℕ, Str, Bool, true, false, ◌||◌, ◌≡◌, refl, sym, ap, ◌∙◌, subst, some, List, [], ◌∷◌, ◌++◌,
  length, length-append, All, Result, ok, err, arith,
}
use micros.Base.Assoc.{lookup, nat_Eq}
use micros.Domain.Object.{UploadPart, CompletePart}
use micros.Disk.{Disk, bytes, part_json, file_at}
use micros.Disk.Frame.{Frame, SameAt}
use micros.Disk.Calls.{nowhere, frame_rules}
use micros.Disk.Paths.{FilePath, path_eq, path_eq_iff}
use micros.Disk.Post.{Post, Post-bind, Post-pure}
use micros.Storage.Layout.{upload_session_dir}
use micros.Storage.Uploads.{
  get_multipart_part, delete_multipart_part, part_file, part_info, sort_parts,
}
use micros.Storage.Uploads.Parts.{got_part, Frame-get_multipart_part}
use micros.Storage.Uploads.Order.{
  IsAscending, numbers, sort_parts-All, sort_parts-IsAscending, numbers-sort_parts,
}
use micros.Service.Multipart.Selected.{asked_numbers, Entries, by_number-Entries, select_parts-ok}
use micros.Service.Multipart.{
  CompleteError, by_number, select_parts, sorted, sorted_parts, total_size, part_sums, final_etag,
  Completion, completion_of, with_etag, prepare_completion, read_away,
}

-- The bytes of the parts, one after the other.
unfoldable pub joined : (ℕ → List ℕ) → List UploadPart → List ℕ
joined content [] = []
joined content (p ∷ ps) = content p.part_number ++ joined content ps

-- The description of a stored part is that of its bytes.
abbrev pub IsDescribed : (ℕ → List ℕ) → UploadPart → Type 0
IsDescribed content p = p.size ≡ length (content p.part_number)

-- The file of the part holds its bytes, and the one beside it its description.
abbrev pub IsHeld : FilePath → (ℕ → List ℕ) → Disk → UploadPart → Type 0
IsHeld session content d p =
    (file_at d (part_file session p.part_number) ≡ some (bytes (content p.part_number)))
    × (file_at d (part_info session p.part_number) ≡ some (part_json p))

-- The two files of a part.
abbrev pub files_of : FilePath → ℕ → FilePath → Bool
files_of session n q = path_eq (part_file session n) q || path_eq (part_info session n) q

abbrev pub IsSpared : FilePath → (FilePath → Bool) → UploadPart → Type 0
IsSpared session T q =
    (T (part_file session q.part_number) ≡ false) × (T (part_info session q.part_number) ≡ false)

-- Deleting one of the parts leaves the others' files alone.
abbrev pub AreSeparate : FilePath → List UploadPart → Type 0
AreSeparate session [] = Unit {0}
AreSeparate session (p ∷ ps) =
    All (IsSpared session (files_of session p.part_number)) ps × AreSeparate session ps

module _ (bucket upload_id : Str) (content : ℕ → List ℕ) where
  abbrev session : FilePath
  session = upload_session_dir bucket upload_id

  pub Frame-delete_multipart_part :
      (n : ℕ) → Frame (files_of session n) (delete_multipart_part bucket upload_id n)
  unfolding delete_multipart_part
  Frame-delete_multipart_part n =
      let file : files_of session n (part_file session n) ≡ true =
        ground (arith, path_eq_iff (part_file session n) (part_file session n)) in
      let info : files_of session n (part_info session n) ≡ true =
        ground (arith, path_eq_iff (part_info session n) (part_info session n)) in
      search (frame_rules, file, info)

  pub files_kept :
      (T : FilePath → Bool) (ps : List UploadPart) (d d' : Disk)
      → ((p : FilePath) → T p ≡ false → SameAt p d d')
      → All (IsSpared session T) ps
      → All (IsHeld session content d) ps
      → All (IsHeld session content d') ps
  files_kept T [] d d' same apart held = tt
  files_kept T (p ∷ ps) d d' same apart held = (
    (
      same (part_file session p.part_number) apart.0.0 ∙ held.0.0,
      same (part_info session p.part_number) apart.0.1 ∙ held.0.1,
    ),
    files_kept T ps d d' same apart.1 held.1,
  )

  none_written : (ps : List UploadPart) → All (IsSpared session nowhere) ps
  none_written [] = tt
  none_written (p ∷ ps) = ((refl, refl), none_written ps)

  -- The reader of the parts returns their bytes, in the order of the list.
  read_away-Post :
      (ps : List UploadPart) (d : Disk)
      → All (IsHeld session content d) ps
      → AreSeparate session ps
      → Post (λ out _. out ≡ joined content ps) (read_away bucket upload_id ps d)
  unfolding read_away joined
  read_away-Post [] d held apart = Post-pure [] d refl
  read_away-Post (p ∷ ps) d held apart =
      let n = p.part_number in
      Post-bind {P = λ bs d1. (bs ≡ content n) × All (IsHeld session content d1) ps}
        (get_multipart_part bucket upload_id n) _ d
        (record {
          at = λ bs e. (
            (got_part bucket upload_id n (content n) d held.0.0).at bs e,
            files_kept nowhere ps d _
                (λ q o. (Frame-get_multipart_part {T = nowhere} bucket upload_id n).at d q o)
                (none_written ps) held.1,
          );
        })
        λ bs d1 h1.
          Post-bind {P = λ _ d2. All (IsHeld session content d2) ps}
            (delete_multipart_part bucket upload_id n) _ d1
            (record {
              at = λ _ _.
                  files_kept (files_of session n) ps d1 _
                    (λ q o. (Frame-delete_multipart_part n).at d1 q o) apart.0 h1.1;
            })
            λ _ d2 h2.
              Post-bind (read_away bucket upload_id ps) _ d2 (read_away-Post ps d2 h2 apart.1)
                λ rest d3 h3. Post-pure (bs ++ rest) d3 (rw (h1.0, h3) refl)

  pub total_size-joined :
      (ps : List UploadPart)
      → All (IsDescribed content) ps
      → total_size ps ≡ length (joined content ps)
  unfolding total_size joined
  total_size-joined [] all = refl
  total_size-joined (p ∷ ps) (one, rest) = omega (
    arith,
    one,
    total_size-joined ps rest,
    length-append (content p.part_number) (joined content ps),
  )

sorted-ok :
    (x : Result CompleteError (List UploadPart)) (ps : List UploadPart)
    → sorted x ≡ ok ps
    → (qs : List UploadPart) × (x ≡ ok qs) × (ps ≡ sort_parts qs)
sorted-ok (ok qs) ps h = (qs, refl, cc)
sorted-ok (err e) ps h = cc

with_etag-ok :
    (md5_hex : List ℕ → Str) (ps : List UploadPart) (sums : Result CompleteError (List ℕ))
    (c : Completion)
    → with_etag md5_hex ps sums ≡ ok c
    → (c.parts ≡ ps) × (c.size ≡ total_size ps)
with_etag-ok md5_hex ps (err e) c h = cc
with_etag-ok md5_hex ps (ok s) c h =
    let new : Completion = record {
      parts = ps;
      size = total_size ps;
      etag = final_etag md5_hex ps s;
    } in
    let made : new ≡ c = cc in (ap (λ x. x.parts) (sym made), ap (λ x. x.size) (sym made))

pub completion_of-ok :
    (md5_hex : List ℕ → Str) (x : Result CompleteError (List UploadPart)) (c : Completion)
    → completion_of md5_hex x ≡ ok c
    → (x ≡ ok c.parts) × (c.size ≡ total_size c.parts)
completion_of-ok md5_hex (err e) c h = cc
completion_of-ok md5_hex (ok ps) c h =
    let (parts, size) = with_etag-ok md5_hex ps (part_sums ps) c h in
    (ap ok (sym parts), size ∙ ap total_size (sym parts))

empty-Entries : (P : UploadPart → Type 0) → Entries P []
unfolding lookup
empty-Entries P = record { at = λ n p h. cc }

pub selected_and_sorted :
    (P : UploadPart → Type 0) (stored : List UploadPart) (requested : List CompletePart)
    (ps : List UploadPart)
    → All P stored
    → sorted_parts stored requested ≡ ok ps
    → All P ps × IsAscending ps × Perm (numbers ps) (asked_numbers requested)
unfolding sorted_parts
selected_and_sorted P stored requested ps all h =
    let m = by_number stored [] in
    let (qs, chosen, order) = sorted-ok (select_parts m requested) ps h in
    let entries = by_number-Entries P stored [] all (empty-Entries P) in
    let (good, same) = select_parts-ok P m requested qs entries chosen in
    subst (λ x. All P x × IsAscending x × Perm (numbers x) (asked_numbers requested)) (sym order)
      (
        sort_parts-All P qs good,
        sort_parts-IsAscending qs,
        subst (Perm (numbers (sort_parts qs))) same (numbers-sort_parts qs),
      )

-- What the reader of accepted parts returns, if no call fails, whatever calls are to fail.
pub prepare_completion-joined :
    (md5_hex : List ℕ → Str) (bucket upload_id : Str) (content : ℕ → List ℕ)
    (stored : List UploadPart) (requested : List CompletePart) (c : Completion) (d : Disk)
    (out : List ℕ)
    → All (IsDescribed content) stored
    → All (IsHeld (upload_session_dir bucket upload_id) content d) stored
    → prepare_completion md5_hex stored requested ≡ ok c
    → AreSeparate (upload_session_dir bucket upload_id) c.parts
    → (read_away bucket upload_id c.parts d).0 ≡ ok out
    → (out ≡ joined content c.parts)
      × (length out ≡ c.size)
      × IsAscending c.parts
      × Perm (numbers c.parts) (asked_numbers requested)
unfolding prepare_completion
prepare_completion-joined md5_hex bucket upload_id content stored requested c d out described held h
      apart read =
    let (chosen, size) = completion_of-ok md5_hex (sorted_parts stored requested) c h in
    let (fits, up, same) =
      selected_and_sorted (IsDescribed content) stored requested c.parts described chosen in
    let there =
      (selected_and_sorted (IsHeld (upload_session_dir bucket upload_id) content d) stored requested
        c.parts held chosen).0 in
    let whole = (read_away-Post bucket upload_id content c.parts d there apart).at out read in
    (
      whole,
      ap length whole ∙ sym (total_size-joined bucket upload_id content c.parts fits) ∙ sym size,
      up,
      same,
    )
