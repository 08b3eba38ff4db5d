-- ===== src/Sync/Follower.antt =====
-- internal/replication/coordinator.go: SyncFollower. A Go map is visited in the order of its association
-- list; reading an erasure-coded object is the parameter `EcReader`.
use micros.Base.{ℕ, Str, Option, none, some, List, [], ◌∷◌, Result, ok, err, if◌then◌else◌}
use micros.Base.Assoc.{lookup, str_Eq}
use micros.Domain.Object.{ObjectMeta, Transaction, op_put, tx_prepared, is_ec}
use micros.Disk.{M, Disk, Error, ◌>>=◌}
use micros.Storage.Transactions.{Hashes}
use micros.Storage.Objects.{get_object_meta, get_object}
use micros.Peers.{Fate, CallError, prepare, commit, abort}
use micros.Sync.{
  KeyInfo, KeysResponse, get_local_keys, get_keys, sync_delete, path_of, by_path, is_outdated,
  extraneous,
}

-- The leader's disk and the follower's.
pub record Pair : Type 0 where
  pub leader : Disk
  pub follower : Disk

pub data Request : Type 0 where
  listing : Request
  preparing committing aborting : Str → Request
  deleting : Request

abbrev pub EcReader : Type 0
EcReader = Str → Str → M (List ℕ × ObjectMeta)

-- What the calls rest on: the reader if one is set, the transaction's ID for each path, the follower's
-- hashes and clock, and what becomes of each request.
pub record Setup : Type 0 where
  pub ec_reader : Option EcReader
  pub tx_id : Str → Str
  pub hashes : Hashes
  pub clock : ℕ
  pub fate : Request → Fate

pub data SyncError : Type 0 where
  keys_not_fetched : CallError → SyncError
  local_keys_failed unreadable_object : Error → SyncError
  prepare_failed commit_failed delete_failed : CallError → SyncError

unfoldable pub read_source : Option EcReader → KeyInfo → ObjectMeta → M (List ℕ × ObjectMeta)
read_source none k meta = get_object k.bucket k.key
read_source (some reader) k meta =
    if is_ec meta then reader k.bucket k.key else get_object k.bucket k.key

-- What pushObject reads.
unfoldable pub source : Option EcReader → KeyInfo → M (List ℕ × ObjectMeta)
unfolding read_source
source reader k = do meta ← get_object_meta k.bucket k.key; read_source reader k meta

abbrev pub push_tx : Setup → KeyInfo → Transaction
push_tx s k = record {
  id = s.tx_id (path_of k);
  operation = op_put;
  bucket = k.bucket;
  key = k.key;
  state = tx_prepared;
  created_at = s.clock;
}

-- After the commit; the error of the abort is dropped.
unfoldable pub after_commit : Setup → KeyInfo → Option CallError × Disk → Option SyncError × Disk
after_commit s k (none, d) = (none, d)
after_commit s k (some e, d) =
    let (_, d') = abort (s.fate (Request.aborting (path_of k))) (s.tx_id (path_of k)) d in
    (some (commit_failed e), d')

unfoldable pub after_prepare : Setup → KeyInfo → Option CallError × Disk → Option SyncError × Disk
unfolding after_commit
after_prepare s k (some e, d) = (some (prepare_failed e), d)
after_prepare s k (none, d) =
    after_commit s k
      (commit (s.fate (Request.committing (path_of k))) (s.tx_id (path_of k)) k.bucket k.key d)

-- What the follower's disk becomes once the leader has read the object.
unfoldable pub send :
    Setup → KeyInfo → Result Error (List ℕ × ObjectMeta) → Disk → Option SyncError × Disk
unfolding after_prepare
send s k (err e) d = (some (unreadable_object e), d)
send s k (ok (bs, meta)) d =
    after_prepare s k (
      prepare (s.fate (Request.preparing (path_of k))) s.hashes s.clock (push_tx s k) meta (ok bs)
        d)

unfoldable pub push_object : Setup → KeyInfo → Pair → Option SyncError × Pair
unfolding source send
push_object s k w =
    let (r, l) = source s.ec_reader k w.leader in
    let (e, f) = send s k r w.follower in (e, record { leader = l; follower = f })

abbrev pub unless_failed :
    Option SyncError × Pair → (Pair → Option SyncError × Pair) → Option SyncError × Pair
unless_failed (some e, w) next = (some e, w)
unless_failed (none, w) next = next w

-- The loop over the leader's keys, up to the first error.
unfoldable pub push_all :
    Setup → List (Str × KeyInfo) → List (Str × KeyInfo) → Pair → Option SyncError × Pair
unfolding is_outdated push_object
push_all s fm [] w = (none, w)
push_all s fm ((p, k) ∷ rest) w =
    unless_failed (if is_outdated (lookup p fm) k then push_object s k w else (none, w))
      (push_all s fm rest)

abbrev pub deleted : Option CallError × Disk → Pair → Option SyncError × Pair
deleted (none, f) w = (none, record w { follower = f })
deleted (some e, f) w = (some (delete_failed e), record w { follower = f })

unfoldable pub delete_extraneous : Setup → List KeyInfo → Pair → Option SyncError × Pair
unfolding sync_delete
delete_extraneous s [] w = (none, w)
delete_extraneous s (k ∷ ks) w =
    deleted (sync_delete (s.fate Request.deleting) (k ∷ ks) w.follower) w

-- SyncFollower from the two maps on.
unfoldable pub reconcile :
    Setup → List (Str × KeyInfo) → List (Str × KeyInfo) → Pair → Option SyncError × Pair
unfolding push_all extraneous delete_extraneous
reconcile s lm fm w = unless_failed (push_all s fm lm w) (delete_extraneous s (extraneous lm fm))

unfoldable pub with_local_keys :
    Setup → List KeyInfo → Result Error (List KeyInfo) × Disk → Disk → Option SyncError × Pair
unfolding reconcile by_path
with_local_keys s theirs (err e, l) f =
    (some (local_keys_failed e), record { leader = l; follower = f })
with_local_keys s theirs (ok ours, l) f =
    reconcile s (by_path ours []) (by_path theirs []) (record { leader = l; follower = f })

unfoldable pub with_follower_keys :
    Setup → Result CallError KeysResponse × Disk → Disk → Option SyncError × Pair
unfolding with_local_keys
with_follower_keys s (err e, f) l = (some (keys_not_fetched e), record { leader = l; follower = f })
with_follower_keys s (ok r, f) l = with_local_keys s r.keys (get_local_keys l) f

unfoldable pub sync_follower : Setup → Pair → Option SyncError × Pair
unfolding with_follower_keys get_keys
sync_follower s w = with_follower_keys s (get_keys (s.fate Request.listing) w.follower) w.leader
