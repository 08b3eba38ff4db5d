-- ===== src/Sync.antt =====
-- internal/replication/coordinator.go: the keys of a node and what two listings differ in, with
-- handleKeys and handleSyncDelete of internal/internal_api/handlers.go and the calls that reach them.
pub mod Follower
pub mod Reads
pub mod Pushes
pub mod Names
pub mod Reconcile
pub mod Complete
pub mod Plans
pub mod Examples
use micros.Base.{
  ℕ, zero, suc, ◌+◌, Str, codes, ◌==◌, not, Bool, true, false, ◌||◌, Option, none, some, List, [],
  ◌∷◌, ◌++◌, Result, ok, err, if◌then◌else◌,
}
use micros.Base.Assoc.{lookup, insert, str_Eq}
use micros.Domain.Object.{ObjectMeta, Transaction, op_put, tx_prepared, is_ec}
use micros.Disk.{M, Disk, Error, io_error, pure, ◌>>=◌, recover}
use micros.Storage.Buckets.{list_buckets}
use micros.Storage.Transactions.{Hashes}
use micros.Storage.Objects.{get_object_meta, get_object, delete_object}
use micros.Storage.Objects.Listing.{Query, ObjectInfo, list_objects}
use micros.Peers.{
  Fate, CallError, no_answer, bad_status, status_ok, status_server_error, call, bad_json_body,
}

pub record KeyInfo : Type 0 where
  pub bucket : Str
  pub key : Str
  pub crc32 : ℕ
  pub size : ℕ
  pub modified_at : ℕ

abbrev pub key_info : Str → ObjectInfo → ObjectMeta → KeyInfo
key_info b c meta = record {
  bucket = b;
  key = c.key;
  crc32 = meta.crc32;
  size = c.size;
  modified_at = c.last_modified;
}

-- An object whose metadata cannot be read is left out, and so is a bucket that cannot be listed.
unfoldable pub keys_of : Str → List ObjectInfo → M (List KeyInfo)
keys_of b [] = pure []
keys_of b (c ∷ rest) =
    let others = keys_of b rest in
    recover (get_object_meta b c.key) (λ meta. others >>= λ keys. pure (key_info b c meta ∷ keys))
      (λ e. others)

abbrev pub whole_bucket : Str → Query
whole_bucket b = record { bucket = b; prefix = []; delimiter = []; token = []; max_keys = 1000000 }

unfoldable pub bucket_keys : Str → M (List KeyInfo)
unfolding keys_of
bucket_keys b = recover (list_objects (whole_bucket b)) (λ p. keys_of b p.contents) (λ e. pure [])

unfoldable pub buckets_keys : List Str → M (List KeyInfo)
unfolding bucket_keys
buckets_keys [] = pure []
buckets_keys (b ∷ rest) = do keys ← bucket_keys b; others ← buckets_keys rest; pure (keys ++ others)

unfoldable pub get_local_keys : M (List KeyInfo)
unfolding buckets_keys
get_local_keys = do buckets ← list_buckets; buckets_keys buckets

pub record KeysResponse : Type 0 where
  pub keys : List KeyInfo
  pub total_count : ℕ
  pub total_size_bytes : ℕ

unfoldable pub keys_response : List KeyInfo → KeysResponse
keys_response [] = record { keys = []; total_count = 0; total_size_bytes = 0 }
keys_response (k ∷ ks) =
    let r = keys_response ks in
    record {
      keys = k ∷ r.keys;
      total_count = suc r.total_count;
      total_size_bytes = k.size + r.total_size_bytes;
    }

-- handleKeys: the same loops over the follower's storage, with the totals. An error is the status 500.
unfoldable pub handle_keys : M KeysResponse
unfolding get_local_keys keys_response
handle_keys = do keys ← get_local_keys; pure (keys_response keys)

abbrev keys_answer : Result Error KeysResponse → Result CallError KeysResponse
keys_answer (ok r) = ok r
keys_answer (err e) = err (bad_status status_server_error)

-- Client.GetKeys; the request has no body that could break off, so what breaks is the answer.
unfoldable pub get_keys : Fate → Disk → Result CallError KeysResponse × Disk
unfolding handle_keys
get_keys Fate.lost d = (err no_answer, d)
get_keys Fate.broken d = let (r, d') = handle_keys d in (err no_answer, d')
get_keys Fate.reply_lost d = let (r, d') = handle_keys d in (err no_answer, d')
get_keys Fate.delivered d = let (r, d') = handle_keys d in (keys_answer r, d')

-- A failed deletion is only logged.
unfoldable pub delete_each : List KeyInfo → Disk → Disk
delete_each [] d = d
delete_each (k ∷ ks) d = delete_each ks (delete_object k.bucket k.key d).1

unfoldable pub handle_sync_delete : List KeyInfo → Disk → ℕ × Disk
unfolding delete_each
handle_sync_delete keys d = (status_ok, delete_each keys d)

unfoldable pub sync_delete : Fate → List KeyInfo → Disk → Option CallError × Disk
unfolding handle_sync_delete
sync_delete fate keys = call fate (handle_sync_delete keys) bad_json_body

-- `bucket + "/" + key`
abbrev pub path_of : KeyInfo → Str
path_of k = k.bucket ++ codes "/" ++ k.key

unfoldable pub by_path : List KeyInfo → List (Str × KeyInfo) → List (Str × KeyInfo)
by_path [] m = m
by_path (k ∷ ks) m = by_path ks (insert (path_of k) k m)

-- Whether the follower lacks an object, or has another checksum or size.
unfoldable pub is_outdated : Option KeyInfo → KeyInfo → Bool
is_outdated none lk = true
is_outdated (some fk) lk = not (fk.crc32 == lk.crc32) || not (fk.size == lk.size)

unfoldable pub count_pushed : List (Str × KeyInfo) → List (Str × KeyInfo) → ℕ
unfolding is_outdated
count_pushed [] fm = 0
count_pushed ((p, k) ∷ rest) fm =
    let n = count_pushed rest fm in if is_outdated (lookup p fm) k then suc n else n

unfoldable pub extraneous : List (Str × KeyInfo) → List (Str × KeyInfo) → List KeyInfo
extraneous lm [] = []
extraneous lm ((p, k) ∷ rest) =
    let others = extraneous lm rest in elim (lookup p lm) [ none ↦ k ∷ others | some j ↦ others ]
