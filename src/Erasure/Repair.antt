-- ===== src/Erasure/Repair.antt =====
-- internal/replication/ec/manager.go: RepairECObject, and the scan that calls it.
use micros.Base.{
  ℕ, suc, ◌+◌, Str, leb, Option, none, some, List, [], ◌∷◌, length, ok, if◌then◌else◌,
}
use micros.Base.Assoc.{lookup, nat_Eq}
use micros.Domain.Object.{ObjectMeta, is_ec}
use micros.Codec.{Codec}
use micros.Codec.ReedSolomon.{Shard}
use micros.Cluster.Static.{known_followers, is_leader}
use micros.Storage.Buckets.{list_buckets}
use micros.Storage.Objects.{get_object_meta}
use micros.Storage.Objects.Listing.{ObjectInfo, list_objects}
use micros.Sync.{whole_bucket}
use micros.Replication.{World}
use micros.Erasure.{Links, not_listed, not_read, Run, give, locally, ◌>>=◌, put_at}
use micros.Erasure.Convert.{Scanner, with_index, if_ok}
use micros.Erasure.Gather.{Locations, ask_locations, gather, rebuilt}

module _ (links : Links) (bucket key : Str) where
  -- One index of step 5: a missing shard goes to the next node of the list, if there is one left. The
  -- result is what is left of the list; a failed push is only logged.
  unfoldable pub push_shard :
      ObjectMeta → ℕ → Shard → Option Str → List Str → World → List Str × World
  push_shard meta i s (some holder) nodes w = (nodes, w)
  push_shard meta i s none [] w = ([], w)
  push_shard meta i s none (a ∷ nodes) w =
      (nodes, (put_at links bucket key a i s (length s) (with_index i meta) w).1)

  unfoldable pub push_missing : ObjectMeta → Locations → ℕ → List Shard → List Str → World → World
  unfolding push_shard
  push_missing meta locs i [] nodes w = w
  push_missing meta locs i (s ∷ shards) nodes w =
      let (left, w1) = push_shard meta i s (lookup i locs) nodes w in
      push_missing meta locs (suc i) shards left w1

  -- Step 5: the nodes are taken in order, the leader first, whatever they hold.
  unfoldable pub redistribute : ObjectMeta → Locations → List Shard → Run (Unit {0})
  unfolding push_missing
  redistribute meta locs shards w =
      (ok tt, push_missing meta locs 0 shards ([] ∷ known_followers w.members) w)

  unfoldable pub repair_missing : Codec → ObjectMeta → Locations → Run (Unit {0})
  repair_missing c meta locs = do
    slots ← gather links bucket key meta.ec_params.k meta.ec_params.m locs
    whole ← rebuilt c slots meta.content_length
    redistribute meta locs whole.1

  unfoldable pub repair_coded : Codec → ObjectMeta → Run (Unit {0})
  repair_coded c meta = do
    locs ← ask_locations links bucket key meta
    if leb (meta.ec_params.k + meta.ec_params.m) (length locs)
        then give tt
        else repair_missing c meta locs

  unfoldable pub repair_ec_object : Codec → Run (Unit {0})
  repair_ec_object c = do
    meta ← locally not_read (get_object_meta bucket key)
    if is_ec meta then repair_coded c meta else give tt

module _ (s : Scanner) where
  unfoldable pub repair_if_ec : Str → Str → ObjectMeta → World → World
  repair_if_ec bucket key meta w =
      if is_ec meta then (repair_ec_object (s.links bucket key) bucket key s.codec w).1 else w

  unfoldable pub repair_object : Str → Str → World → World
  unfolding if_ok
  repair_object bucket key w =
      let (r, w1) = locally not_read (get_object_meta bucket key) w in
      if_ok r (repair_if_ec bucket key) w1

  unfoldable pub repair_objects : Str → List ObjectInfo → World → World
  repair_objects bucket [] w = w
  repair_objects bucket (o ∷ rest) w = repair_objects bucket rest (repair_object bucket o.key w)

  unfoldable pub repair_buckets : List Str → World → World
  unfolding if_ok
  repair_buckets [] w = w
  repair_buckets (b ∷ rest) w =
      let (r, w1) = locally not_listed (list_objects (whole_bucket b)) w in
      repair_buckets rest (if_ok r (λ page. repair_objects b page.contents) w1)

  -- scanAndRepair
  unfoldable pub scan_and_repair : Run (Unit {0})
  scan_and_repair = do
    buckets ← locally not_listed list_buckets
    λ w. (ok tt, repair_buckets buckets w)

  -- One tick of runRepairLoop.
  unfoldable pub repair_tick : World → World
  repair_tick w = if is_leader w.members then (scan_and_repair w).1 else w
