-- ===== src/Erasure/Gather.antt =====
-- internal/replication/ec/manager.go: ReadECObject, with the search for the shards and the download
-- that RepairECObject has too.
use micros.Base.{
  ℕ, zero, suc, ◌+◌, Str, Bool, ◌&&◌, ◌==◌, ltb, Option, none, some, List, [], ◌∷◌, length, Result,
  ok, err, if◌then◌else◌,
}
use micros.Base.Assoc.{lookup, insert, nat_Eq}
use micros.Domain.Object.{ObjectMeta, is_ec}
use micros.Codec.{Codec, reconstruct}
use micros.Codec.ReedSolomon.{Shard}
use micros.Cluster.Static.{known_followers}
use micros.Storage.Objects.{get_object, get_object_meta}
use micros.Replication.{World}
use micros.Erasure.{
  Links, EcError, not_read, not_reconstructed, insufficient_shards, too_few_downloads, Run, give,
  renamed, locally, ◌>>=◌, meta_at, shard_at,
}

-- `shardLocations`: the address of the node that holds a shard, by the shard's index.
abbrev pub Locations : Type 0
Locations = List (ℕ × Str)

unfoldable pub counts : ℕ → ℕ → ObjectMeta → Bool
counts k m meta = is_ec meta && (meta.ec_params.k == k && meta.ec_params.m == m)

-- One answer; a later one for the same index takes the place of an earlier one.
unfoldable pub noted : ℕ → ℕ → Str → Result EcError ObjectMeta → Locations → Locations
unfolding counts
noted k m a (err e) locs = locs
noted k m a (ok meta) locs = if counts k m meta then insert meta.ec_chunk_index a locs else locs

unfoldable pub slot_of : Result EcError Shard → Option Shard
slot_of (ok bs) = some bs
slot_of (err e) = none

abbrev pub counted : Option Shard → ℕ → ℕ
counted none downloaded = downloaded
counted (some s) downloaded = suc downloaded

unfoldable pub enough_downloads :
    ℕ → (List (Option Shard) × ℕ) × World → Result EcError (List (Option Shard)) × World
enough_downloads k ((slots, total), w) =
    (if ltb total k then err (too_few_downloads total k) else ok slots, w)

-- Step 5
unfoldable pub rebuilt : Codec → List (Option Shard) → ℕ → Run (List ℕ × List Shard)
unfolding renamed
rebuilt c slots len w = (renamed not_reconstructed (reconstruct c slots len), w)

module _ (links : Links) (bucket key : Str) where
  unfoldable pub locate_among : ℕ → ℕ → List Str → Locations → World → Locations × World
  unfolding noted
  locate_among k m [] locs w = (locs, w)
  locate_among k m (a ∷ rest) locs w =
      let (r, w1) = meta_at links bucket key a w in locate_among k m rest (noted k m a r locs) w1

  -- Steps 2 and 3: every node of the cluster is asked.
  unfoldable pub locate : ℕ → ℕ → World → Locations × World
  unfolding locate_among
  locate k m w = locate_among k m (links.arrival ([] ∷ known_followers w.members)) [] w

  -- What one round of the download puts in its slot.
  unfoldable pub fetch_slot : ℕ → Option Str → World → Option Shard × World
  unfolding slot_of
  fetch_slot i none w = (none, w)
  fetch_slot i (some a) w = let (r, w1) = shard_at links bucket key a i w in (slot_of r, w1)

  -- Step 4, for the indices from i on: the slots, and how many were downloaded in all.
  unfoldable pub download : Locations → ℕ → ℕ → ℕ → ℕ → World → (List (Option Shard) × ℕ) × World
  unfolding fetch_slot
  download locs k zero i downloaded w = (([], downloaded), w)
  download locs k (suc rounds) i downloaded w =
      let (slot, w1) = if ltb downloaded k then fetch_slot i (lookup i locs) w else (none, w) in
      let ((slots, total), w2) = download locs k rounds (suc i) (counted slot downloaded) w1 in
      ((slot ∷ slots, total), w2)

  -- The shards that could be fetched, at least k of them.
  unfoldable pub gather : ℕ → ℕ → Locations → Run (List (Option Shard))
  unfolding enough_downloads
  gather k m locs w =
      if ltb (length locs) k
      then (err (insufficient_shards (length locs) k), w)
      else enough_downloads k (download locs k (k + m) 0 0 w)

  unfoldable pub ask_locations : ObjectMeta → Run Locations
  ask_locations meta w =
      let (locs, w1) = locate meta.ec_params.k meta.ec_params.m w in (ok locs, w1)

  unfoldable pub read_coded : Codec → ObjectMeta → Run (List ℕ × ObjectMeta)
  read_coded c meta = do
    locs ← ask_locations meta
    slots ← gather meta.ec_params.k meta.ec_params.m locs
    whole ← rebuilt c slots meta.content_length
    give (whole.0, meta)

  -- A replica is read as it is.
  unfoldable pub read_ec_object : Codec → Run (List ℕ × ObjectMeta)
  read_ec_object c = do
    meta ← locally not_read (get_object_meta bucket key)
    if is_ec meta then read_coded c meta else locally not_read (get_object bucket key)
