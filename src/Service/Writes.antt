-- ===== src/Service/Writes.antt =====
-- PutObject and DeleteObject after a write is admitted: the two phases over the leader and the alive
-- followers. The two methods run the same phases; `after_staging` is what both do once the leader
-- has staged the transaction.
use micros.Base.{ℕ, Str, Option, some, [], ◌∷◌, Result, ok, err, if◌then◌else◌}
use micros.Domain.Object.{ObjectMeta, Transaction, empty_meta, op_put, op_delete, tx_prepared}
use micros.Disk.{Error, M, ◌>>=◌, pure}
use micros.Storage.Buckets.{has_bucket, create_bucket}
use micros.Storage.Transactions.{Reader, stage_object, commit_transaction, abort_transaction}
use micros.Cluster.Static.{Manager, mark_dead}
use micros.Replication.{World, Network, Errors, prepare_all, commit_all, abort_all}

pub data Failure : Type 0 where
  writes_blocked waiting prepare_failed : Failure
  storage_error : Error → Failure

-- Each follower that answered with an error is marked dead.
unfoldable pub mark_failed : Errors → Manager → Manager
mark_failed [] m = m
mark_failed ((a, e) ∷ rest) m = mark_failed rest (mark_dead a m)

abbrev pub with_marked : Errors × World → World
with_marked (errs, w) = record w { members = mark_failed errs w.members }

abbrev pub do_local : {A : Type 0} → M A → World → Result Error A × World
do_local m w = let (r, d) = m w.local in (r, record w { local = d })

-- Steps 3 and 4, from what the leader's own commit returned.
unfoldable pub after_commit :
    Network → Transaction → Result Error ObjectMeta × World → Result Failure ObjectMeta × World
unfolding mark_failed
after_commit net tx (err e, w) = (err (storage_error e), (abort_all net tx.id w).1)
after_commit net tx (ok meta, w) = (ok meta, with_marked (commit_all net tx.id tx.bucket tx.key w))

-- What follows the prepare phase.
unfoldable pub after_prepare :
    Network → Transaction → Errors × World → Result Failure ObjectMeta × World
unfolding after_commit mark_failed
after_prepare net tx ([], w) =
    after_commit net tx (do_local (commit_transaction tx.id tx.bucket tx.key) w)
after_prepare net tx (e ∷ errs, w) = (
  err prepare_failed,
  (abort_all net tx.id (do_local (abort_transaction tx.id) (with_marked (e ∷ errs, w))).1).1,
)

unfoldable pub after_staging :
    Network → Transaction → Result Error ObjectMeta × World → Result Failure ObjectMeta × World
unfolding after_prepare
after_staging net tx (err e, w) = (err (storage_error e), w)
after_staging net tx (ok meta, w) = after_prepare net tx (prepare_all net tx meta w)

-- The whole transaction, staged on the leader first.
unfoldable pub run_transaction :
    Network
    → Transaction
    → Reader
    → Option ℕ
    → ObjectMeta
    → World
    → Result Failure ObjectMeta × World
unfolding after_staging
run_transaction net tx reader size meta w =
    after_staging net tx (do_local (stage_object net.hashes tx.id reader size meta tx) w)

abbrev pub put_tx : Str → ℕ → Str → Str → Transaction
put_tx tx_id now bucket key = record {
  id = tx_id;
  operation = op_put;
  bucket = bucket;
  key = key;
  state = tx_prepared;
  created_at = now;
}

abbrev pub delete_tx : Str → ℕ → Str → Str → Transaction
delete_tx tx_id now bucket key = record (put_tx tx_id now bucket key) { operation = op_delete }

-- DeleteObject gives the phases no bytes and the zero metadata. The metadata that StageObject
-- returns for a DELETE is the one it was given.
unfoldable pub delete_transaction :
    Network → Str → ℕ → Str → Str → World → Result Failure ObjectMeta × World
unfolding run_transaction
delete_transaction net tx_id now bucket key =
    run_transaction net (delete_tx tx_id now bucket key) (ok []) (some 0) empty_meta

unfoldable pub put_transaction :
    Network
    → Str
    → ℕ
    → Str
    → Str
    → Reader
    → Option ℕ
    → ObjectMeta
    → World
    → Result Failure ObjectMeta × World
unfolding run_transaction
put_transaction net tx_id now bucket key = run_transaction net (put_tx tx_id now bucket key)

-- EnsureBucket
unfoldable pub ensure_bucket : Str → M (Unit {0})
ensure_bucket bucket = do
  exists ← has_bucket bucket
  if exists then pure tt else create_bucket bucket
