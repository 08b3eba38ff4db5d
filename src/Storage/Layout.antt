-- ===== src/Storage/Layout.antt =====
-- Where the storage keeps what: the helper paths, and the walk that removes empty directories.
use micros.Base.{
  ℕ, zero, suc, Str, codes, Bool, true, false, List, [], ◌∷◌, ◌++◌, if◌then◌else◌, itoa, has_prefix,
  ◌&&◌, ◌||◌, not, length,
}
use micros.Disk.{
  M, pure, raise, recover, ignoring, ◌>>◌, Error, not_exist, Entry, read_dir, remove, is_dir,
  mkdir_all,
}
use micros.Disk.Paths.{FilePath, join, parent, path_eq}
use mathlib.Core.Option.{some}

unfoldable pub data_dir : Str → FilePath
data_dir bucket = join (codes "data" ∷ []) bucket

unfoldable pub meta_dir : Str → FilePath
meta_dir bucket = join (codes "meta" ∷ []) bucket

unfoldable pub staging_dir : Str → FilePath
staging_dir tx_id = join (codes "staging" ∷ []) tx_id

unfoldable pub uploads_dir : Str → FilePath
uploads_dir bucket = join (codes "uploads" ∷ []) bucket

unfoldable pub upload_session_dir : Str → Str → FilePath
upload_session_dir bucket upload_id = join (uploads_dir bucket) upload_id

unfoldable pub ec_shard_dir : Str → FilePath
ec_shard_dir bucket = join (codes "ecdata" ∷ []) bucket

unfoldable pub ec_shard_path : Str → Str → ℕ → FilePath
ec_shard_path bucket key i = join (ec_shard_dir bucket) (key ++ codes ".shard." ++ itoa i)

-- `filepath.Join(r.dataDir(bucket), key)` and `filepath.Join(r.metaDir(bucket), key+".json")`
unfoldable pub data_path : Str → Str → FilePath
data_path bucket key = join (data_dir bucket) key

unfoldable pub meta_path : Str → Str → FilePath
meta_path bucket key = join (meta_dir bucket) (key ++ codes ".json")

-- The two directories and three files of a staged transaction.
abbrev pub tx_file : FilePath → FilePath
tx_file stage = stage ++ codes "tx.json" ∷ []

abbrev pub staged_data : FilePath → FilePath
staged_data stage = stage ++ codes "data" ∷ []

abbrev pub staged_meta : FilePath → FilePath
staged_meta stage = stage ++ codes "meta.json" ∷ []

-- NewFilesystemRepository
unfoldable pub new_repository : M (Unit {0})
new_repository = do
  mkdir_all (codes "data" ∷ [])
  mkdir_all (codes "meta" ∷ [])
  mkdir_all (codes "staging" ∷ [])
  mkdir_all (codes "uploads" ∷ [])
  mkdir_all (codes "ecdata" ∷ [])

unfoldable pub no_names : List (Str × Entry) → Bool
no_names [] = true
no_names (e ∷ es) = false

unfoldable pub missing_is_empty : Error → M Bool
missing_is_empty not_exist = pure true
missing_is_empty e = raise e

unfoldable pub is_dir_empty : FilePath → M Bool
unfolding no_names missing_is_empty
is_dir_empty p = recover (read_dir p) (λ names. pure (no_names names)) missing_is_empty

-- cleanEmptyDirs: one round for each name of the path at most.
unfoldable pub clean_from : ℕ → FilePath → FilePath → M (Unit {0})
clean_from zero current limit = pure tt
clean_from (suc f) current limit =
    let up = clean_from f (parent current) limit in
    if path_eq current limit || path_eq current []
    then pure tt
    else recover (is_dir_empty current)
        (λ empty. if empty then recover (remove current) (λ _. up) (λ _. pure tt) else pure tt)
        (λ _. pure tt)

unfoldable pub clean_empty_dirs : FilePath → FilePath → M (Unit {0})
clean_empty_dirs start limit = clean_from (length start) start limit

-- The loop of DeleteAllECShards over the entries of the bucket's shard directory.
unfoldable pub remove_shards : FilePath → Str → List (Str × Entry) → M (Unit {0})
remove_shards d prefix [] = pure tt
remove_shards d prefix ((name, e) ∷ rest) =
    let others = remove_shards d prefix rest in
    if not (is_dir (some e)) && has_prefix name prefix
    then ignoring (remove (d ++ name ∷ [])) others
    else others

unfoldable pub no_shards : Error → M (Unit {0})
no_shards not_exist = pure tt
no_shards e = raise e

unfoldable pub delete_all_ec_shards : Str → Str → M (Unit {0})
unfolding remove_shards no_shards
delete_all_ec_shards bucket key =
    recover (read_dir (ec_shard_dir bucket))
      (λ entries. do
        remove_shards (ec_shard_dir bucket) (key ++ codes ".shard.") entries
        clean_empty_dirs (ec_shard_dir bucket) (ec_shard_dir bucket))
      no_shards
