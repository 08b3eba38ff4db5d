-- ===== src/Service/Atomicity.antt =====
-- What a PUT or DELETE that fails leaves behind, and what any of them may change.
use micros.Base.{ℕ, Str, Bool, false, ◌≡◌, Option, [], ◌∷◌, Result, ok, err, arith}
use micros.Domain.Object.{ObjectMeta, Transaction}
use micros.Disk.{Disk, Error, file_at}
use micros.Disk.Frame.{SameAt}
use micros.Disk.Paths.{FilePath, is_under}
use micros.Storage.Layout.{staging_dir}
use micros.Storage.Transactions.{Reader, stage_object, commit_transaction, abort_transaction}
use micros.Storage.Isolation.{
  commit_files, Frame-stage_object, Frame-abort_transaction, Frame-commit_transaction,
}
use micros.Replication.{World, Network, Errors, prepare_all}
use micros.Replication.Frames.{
  Kept, Kept-trans, Kept-local, Kept-members, Kept-prepare_all, Kept-abort_all,
}
use micros.Service.Writes.{
  Failure, storage_error, prepare_failed, run_transaction, after_staging, after_prepare,
  after_commit, do_local, with_marked,
}

abbrev in_staging : Transaction → FilePath → Bool
in_staging tx = is_under (staging_dir tx.id)

-- On the leader a commit that fails may have moved one of the two files.
abbrev leader_scope : Failure → Transaction → FilePath → Bool
leader_scope (storage_error e) tx p = commit_files tx.id tx.bucket tx.key p
leader_scope f tx p = is_under (staging_dir tx.id) p

-- What a transaction may change on the leader covers its staging directory.
in_scope :
    (f : Failure) (tx : Transaction) (p : FilePath)
    → leader_scope f tx p ≡ false
    → in_staging tx p ≡ false
unfolding commit_files
in_scope (storage_error e) tx p h = ground arith
in_scope Failure.prepare_failed tx p h = h
in_scope Failure.writes_blocked tx p h = h
in_scope Failure.waiting tx p h = h

module _ (net : Network) (tx : Transaction) where
  failed_commit :
      (f : Failure) (r : Result Error ObjectMeta) (d : Disk) (w : World)
      → ((p : FilePath) → commit_files tx.id tx.bucket tx.key p ≡ false → SameAt p w.local d)
      → (after_commit net tx (r, record w { local = d })).0 ≡ err f
      → Kept
          (leader_scope f tx)
          (in_staging tx)
          w
          (after_commit net tx (r, record w { local = d })).1
  unfolding after_commit
  failed_commit f (ok meta) d w same e = cc
  failed_commit (storage_error y) (err x) d w same e =
      Kept-trans w (record w { local = d }) _ (Kept-local d w same) (Kept-abort_all net tx.id _)
  failed_commit Failure.prepare_failed (err x) d w same e = cc
  failed_commit Failure.writes_blocked (err x) d w same e = cc
  failed_commit Failure.waiting (err x) d w same e = cc

  aborted_on_leader :
      (w : World) (f : Failure)
      → Kept (leader_scope f tx) (in_staging tx) w (do_local (abort_transaction tx.id) w).1
  aborted_on_leader w f =
      Kept-local _ w λ p o. (Frame-abort_transaction tx.id).at w.local p (in_scope f tx p o)

  failed_prepare :
      (f : Failure) (errs : Errors) (w : World)
      → (after_prepare net tx (errs, w)).0 ≡ err f
      → Kept (leader_scope f tx) (in_staging tx) w (after_prepare net tx (errs, w)).1
  unfolding after_prepare
  failed_prepare f [] w h =
      let (r, d) = commit_transaction tx.id tx.bucket tx.key w.local in
      failed_commit f r d w ((Frame-commit_transaction tx.id tx.bucket tx.key).at w.local) h
  failed_prepare f (e ∷ errs) w h =
      let marked : World = with_marked (e ∷ errs, w) in
      Kept-trans w (do_local (abort_transaction tx.id) marked).1 _
        (Kept-members w _ marked.members (aborted_on_leader marked f)) (Kept-abort_all net tx.id _)

  failed_staging :
      (f : Failure) (r : Result Error ObjectMeta) (d : Disk) (w : World)
      → ((p : FilePath) → in_staging tx p ≡ false → SameAt p w.local d)
      → (after_staging net tx (r, record w { local = d })).0 ≡ err f
      → Kept
          (leader_scope f tx)
          (in_staging tx)
          w
          (after_staging net tx (r, record w { local = d })).1
  unfolding after_staging
  failed_staging f (err x) d w same h = Kept-local d w λ p o. same p (in_scope f tx p o)
  failed_staging f (ok meta) d w same h =
      let w1 : World = record w { local = d } in
      let (errs, w2) = prepare_all net tx meta w1 in
      Kept-trans w w1 _ (Kept-local d w λ p o. same p (in_scope f tx p o))
        (Kept-trans w1 w2 _ (Kept-prepare_all net tx meta w1) (failed_prepare f errs w2 h))

  failed :
      (reader : Reader) (size : Option ℕ) (meta : ObjectMeta) (w : World) (f : Failure)
      → (run_transaction net tx reader size meta w).0 ≡ err f
      → Kept (leader_scope f tx) (in_staging tx) w (run_transaction net tx reader size meta w).1
  unfolding run_transaction
  failed reader size meta w f h =
      let (r, d) = stage_object net.hashes tx.id reader size meta tx w.local in
      failed_staging f r d w ((Frame-stage_object net.hashes tx.id reader size meta tx).at w.local)
        h

-- A write that is aborted because a follower could not prepare it changes no file outside its
-- staging directory, neither on the leader nor on any other node, whatever requests are lost.
pub run_transaction-aborted :
    (net : Network) (tx : Transaction) (reader : Reader) (size : Option ℕ) (meta : ObjectMeta)
    (w : World) (a : Str) (p : FilePath)
    → (run_transaction net tx reader size meta w).0 ≡ err prepare_failed
    → is_under (staging_dir tx.id) p ≡ false
    → (file_at (run_transaction net tx reader size meta w).1.local p ≡ file_at w.local p)
      × (file_at ((run_transaction net tx reader size meta w).1.remote a) p
          ≡ file_at (w.remote a) p)
run_transaction-aborted net tx reader size meta w a p h o =
    let k = failed net tx reader size meta w prepare_failed h in
    (k.local_kept p o, k.remote_kept a p o)

-- A write that fails for whatever reason changes no file of any other node outside its staging
-- directory there.
pub run_transaction-failed :
    (net : Network) (tx : Transaction) (reader : Reader) (size : Option ℕ) (meta : ObjectMeta)
    (w : World) (a : Str) (p : FilePath) (f : Failure)
    → (run_transaction net tx reader size meta w).0 ≡ err f
    → is_under (staging_dir tx.id) p ≡ false
    → file_at ((run_transaction net tx reader size meta w).1.remote a) p ≡ file_at (w.remote a) p
run_transaction-failed net tx reader size meta w a p f h o =
    (failed net tx reader size meta w f h).remote_kept a p o
