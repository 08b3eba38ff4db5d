-- ===== src/Erasure/Convert.antt =====
-- internal/replication/ec/manager.go: ConvertToEC, and the scan that looks for objects to convert.
use micros.Base.{
  ℕ, suc, ◌+◌, Str, Bool, true, not, ◌&&◌, ltb, Option, none, some, List, [], ◌∷◌, length, take,
  Result, ok, err, if◌then◌else◌,
}
use micros.Domain.Object.{ObjectMeta, is_ec, storage_mode_ec}
use micros.Codec.{Codec, encode, n_shards}
use micros.Codec.ReedSolomon.{Shard}
use micros.Cluster.Static.{alive_followers, is_leader}
use micros.Storage.Buckets.{list_buckets}
use micros.Storage.Objects.{get_object, get_object_meta}
use micros.Storage.Objects.Listing.{ObjectInfo, list_objects}
use micros.Sync.{whole_bucket}
use micros.Replication.{World}
use micros.Erasure.{
  Links, EcError, not_listed, not_read, not_encoded, not_enough_nodes, index_panic, Run, give, fail,
  renamed, locally, ◌>>=◌, ◌>>◌, put_at, remove_at,
}

-- `shardSize := int64(len(shards[0]))`
unfoldable pub first_size : List Shard → Run ℕ
first_size [] = fail index_panic
first_size (s ∷ ss) = give (length s)

-- Step 4: the object's metadata with the erasure-coded mode.
unfoldable pub ec_meta : Codec → ℕ → ObjectMeta → ObjectMeta
ec_meta c size meta = record meta {
  storage_mode = storage_mode_ec;
  ec_params = record { k = c.k; m = c.m; shard_size = size };
}

abbrev pub with_index : ℕ → ObjectMeta → ObjectMeta
with_index i meta = record meta { ec_chunk_index = i }

unfoldable pub first_error : Result EcError (Unit {0}) → Option EcError → Option EcError
first_error (ok a) later = later
first_error (err e) later = some e

unfoldable pub ask_alive_followers : Run (List Str)
ask_alive_followers w = (ok (alive_followers w.members), w)

unfoldable pub encoded : Codec → List ℕ → Run (List Shard)
unfolding renamed
encoded c bs w = (renamed not_encoded (encode c bs), w)

module _ (links : Links) (bucket key : Str) where
  -- Step 5, from the shard with index i on; the first error ends it.
  unfoldable pub distribute : ObjectMeta → ℕ → ℕ → List Shard → List Str → Run (Unit {0})
  distribute meta size i shards [] = give tt
  distribute meta size i [] (a ∷ rest) = fail index_panic
  distribute meta size i (s ∷ shards) (a ∷ rest) = do
    put_at links bucket key a i s size (with_index i meta)
    distribute meta size (suc i) shards rest

  -- removeReplicaFromAllNodes, over the leader and the followers: the first error.
  unfoldable pub remove_replicas : List Str → World → Option EcError × World
  unfolding first_error
  remove_replicas [] w = (none, w)
  remove_replicas (a ∷ rest) w =
      let (r, w1) = remove_at links bucket key a w in
      let (later, w2) = remove_replicas rest w1 in (first_error r later, w2)

  unfoldable pub remove_replica_from_all_nodes : List Str → World → Option EcError × World
  unfolding remove_replicas
  remove_replica_from_all_nodes followers = remove_replicas ([] ∷ followers)

  -- Step 6: its error is only logged.
  unfoldable pub reclaim : List Str → Run (Unit {0})
  reclaim followers w = (ok tt, (remove_replica_from_all_nodes followers w).1)

  -- Steps 3 to 6, for shards of the given size.
  unfoldable pub spread : Codec → ObjectMeta → List Shard → ℕ → List Str → Run (Unit {0})
  spread c meta shards size followers =
      if ltb (length ([] ∷ followers)) (n_shards c)
      then fail (not_enough_nodes (length ([] ∷ followers)) (n_shards c))
      else (do
        distribute (ec_meta c size meta) size 0 shards (take (n_shards c) ([] ∷ followers))
        reclaim followers)

  unfoldable pub convert_to_ec : Codec → Run (Unit {0})
  convert_to_ec c = do
    got ← locally not_read (get_object bucket key)
    shards ← encoded c got.0
    size ← first_size shards
    followers ← ask_alive_followers
    spread c got.1 shards size followers

-- The manager's settings, and the nodes' answers for each object.
pub record Scanner : Type 0 where
  pub codec : Codec
  pub min_size : ℕ
  pub min_age : ℕ
  pub links : Str → Str → Links

-- The three tests of the scan: no replica, too small, or too new.
unfoldable pub is_eligible : Scanner → ℕ → ObjectMeta → Bool
is_eligible s now meta =
    not (is_ec meta)
    && not (ltb meta.content_length s.min_size)
    && not (ltb now (meta.modified_at + s.min_age))

-- `if err != nil { continue }`
unfoldable pub if_ok : {A : Type 0} → Result EcError A → (A → World → World) → World → World
if_ok (ok a) f w = f a w
if_ok (err e) f w = w

module _ (s : Scanner) (now : ℕ) where
  unfoldable pub convert_if_eligible : Str → Str → ObjectMeta → World → World
  convert_if_eligible bucket key meta w =
      if is_eligible s now meta
      then (convert_to_ec (s.links bucket key) bucket key s.codec w).1
      else w

  unfoldable pub scan_object : Str → Str → World → World
  unfolding if_ok
  scan_object bucket key w =
      let (r, w1) = locally not_read (get_object_meta bucket key) w in
      if_ok r (convert_if_eligible bucket key) w1

  unfoldable pub scan_objects : Str → List ObjectInfo → World → World
  scan_objects bucket [] w = w
  scan_objects bucket (o ∷ rest) w = scan_objects bucket rest (scan_object bucket o.key w)

  unfoldable pub scan_buckets : List Str → World → World
  unfolding if_ok
  scan_buckets [] w = w
  scan_buckets (b ∷ rest) w =
      let (r, w1) = locally not_listed (list_objects (whole_bucket b)) w in
      scan_buckets rest (if_ok r (λ page. scan_objects b page.contents) w1)

  -- scanAndConvert: with too few nodes it only lists the buckets.
  unfoldable pub scan_and_convert : Run (Unit {0})
  scan_and_convert = do
    buckets ← locally not_listed list_buckets
    λ w.
        if ltb (length (alive_followers w.members) + 1) (n_shards s.codec)
        then (ok tt, w)
        else (ok tt, scan_buckets buckets w)

  -- One tick of runConvertLoop.
  unfoldable pub convert_tick : World → World
  convert_tick w = if is_leader w.members then (scan_and_convert w).1 else w

-- StartConvertLoop: whether it starts a loop, and the flag `running` after it.
unfoldable pub start_convert_loop : Bool → Bool × Bool
start_convert_loop running = (not running, true)
