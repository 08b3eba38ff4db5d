-- ===== src/Storage/Aborted.antt =====
-- What is left of a transaction that was aborted, and what a commit that comes late does.
use micros.Base.{Str, true, ◌≡◌, refl, ◌∙◌, none, Result, ok, err, if◌then◌else◌}
use micros.Disk.{M, Disk, Error, bad_tx_log, file_at, read_file, wrap_error, ◌>>=◌}
use micros.Disk.Calls.{nowhere, Frame-read_file}
use micros.Disk.Paths.{FilePath, is_under, is_under_append}
use micros.Disk.Reading.{read_file_found}
use micros.Disk.Removal.{file_at-remove_all}
use micros.Storage.Layout.{staging_dir, tx_file}
use micros.Storage.Transactions.{abort_transaction, commit_transaction, read_tx}

-- An action that fails, and changes no file.
record Refused {A : Type 0} (m : M A) (d : Disk) : Type 0 where
  error : Error
  failed : (m d).0 ≡ err error
  kept : (p : FilePath) → file_at (m d).1 p ≡ file_at d p

never_ok : {A : Type 0} (r : Result Error A) → ((a : A) → r ≡ ok a → ⊥) → (e : Error) × (r ≡ err e)
never_ok (ok a) h = absurd (h a refl)
never_ok (err e) h = (e, refl)

read_file-Refused : (p : FilePath) (d : Disk) → file_at d p ≡ none → Refused (read_file p) d
read_file-Refused p d h =
    let (e, failed) =
      never_ok (read_file p d).0 λ x r. let found = (read_file_found p d).at x r in cc (found, h) in
    record { error = e; failed = failed; kept = λ q. (Frame-read_file {T = nowhere} p).at d q refl }

bind-Refused : {A B : Type 0} (m : M A) (f : A → M B) (d : Disk) → Refused m d → Refused (m >>= f) d
unfolding ◌>>=◌
bind-Refused m f d h = record {
  error = h.error;
  failed = rw (h.failed) refl;
  kept = λ p. rw (h.failed) (h.kept p);
}

wrap_error-Refused :
    {A : Type 0} (w : Error → Error) (m : M A) (d : Disk) → Refused m d → Refused (wrap_error w m) d
unfolding wrap_error
wrap_error-Refused w m d h = record {
  error = w h.error;
  failed = rw (h.failed) refl;
  kept = h.kept;
}

tx_file_under : (tx_id : Str) → is_under (staging_dir tx_id) (tx_file (staging_dir tx_id)) ≡ true
tx_file_under tx_id = is_under_append (staging_dir tx_id) _

aborted_file :
    (tx_id : Str) (d : Disk) (p : FilePath)
    → (abort_transaction tx_id d).0 ≡ ok tt
    → file_at (abort_transaction tx_id d).1 p
      ≡ (if is_under (staging_dir tx_id) p then none else file_at d p)
unfolding abort_transaction
aborted_file tx_id d p = file_at-remove_all (staging_dir tx_id) p d.nodes d.faults

commit_transaction-Refused :
    (tx_id bucket key : Str) (d : Disk)
    → file_at d (tx_file (staging_dir tx_id)) ≡ none
    → Refused (commit_transaction tx_id bucket key) d
unfolding commit_transaction read_tx
commit_transaction-Refused tx_id bucket key d h =
    bind-Refused (wrap_error bad_tx_log (read_tx (tx_file (staging_dir tx_id)))) _ d (
      wrap_error-Refused bad_tx_log (read_tx (tx_file (staging_dir tx_id))) d (
        bind-Refused (read_file (tx_file (staging_dir tx_id))) _ d
          (read_file-Refused (tx_file (staging_dir tx_id)) d h)))

-- Once AbortTransaction has succeeded, a commit of the same transaction that comes late fails,
-- whatever object it names and whichever calls fail: after both every file outside the transaction's
-- staging directory is as it was before the abort, and there is none inside.
pub commit_transaction-abort_transaction :
    (tx_id bucket key : Str) (d : Disk) (p : FilePath)
    → (abort_transaction tx_id d).0 ≡ ok tt
    → (e : Error) × ((commit_transaction tx_id bucket key (abort_transaction tx_id d).1).0 ≡ err e)
      × (file_at (commit_transaction tx_id bucket key (abort_transaction tx_id d).1).1 p
          ≡ (if is_under (staging_dir tx_id) p then none else file_at d p))
commit_transaction-abort_transaction tx_id bucket key d p h =
    let gone : file_at (abort_transaction tx_id d).1 (tx_file (staging_dir tx_id)) ≡ none =
      aborted_file tx_id d (tx_file (staging_dir tx_id)) h ∙ rw (tx_file_under tx_id) refl in
    let late = commit_transaction-Refused tx_id bucket key (abort_transaction tx_id d).1 gone in
    (late.error, late.failed, late.kept p ∙ aborted_file tx_id d p h)
