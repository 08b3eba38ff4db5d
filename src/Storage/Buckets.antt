-- ===== src/Storage/Buckets.antt =====
-- Bucket operations.
use micros.Base.{Str, codes, Bool, true, false, List, [], ◌∷◌, if◌then◌else◌}
use micros.Disk.{
  M, pure, raise, recover, ◌>>=◌, ◌>>◌, Error, not_exist, bucket_not_empty, Entry, dir, file,
  mkdir_all, remove_if_there, remove_all, stat, read_dir,
}
use micros.Storage.Layout.{data_dir, meta_dir, is_dir_empty}

unfoldable pub create_bucket : Str → M (Unit {0})
create_bucket bucket = do mkdir_all (data_dir bucket); mkdir_all (meta_dir bucket)

unfoldable pub delete_bucket : Str → M (Unit {0})
delete_bucket bucket = do
  empty ← is_dir_empty (data_dir bucket)
  if empty
      then (do remove_if_there (data_dir bucket); remove_all (meta_dir bucket))
      else raise bucket_not_empty

missing_is_false : Error → M Bool
missing_is_false not_exist = pure false
missing_is_false e = raise e

unfoldable pub has_bucket : Str → M Bool
unfolding missing_is_false
has_bucket bucket = recover (stat (data_dir bucket)) (λ _. pure true) missing_is_false

dir_names : List (Str × Entry) → List Str
dir_names [] = []
dir_names ((name, dir) ∷ rest) = name ∷ dir_names rest
dir_names ((name, file c) ∷ rest) = dir_names rest

unfoldable pub list_buckets : M (List Str)
unfolding dir_names
list_buckets = do entries ← read_dir (codes "data" ∷ []); pure (dir_names entries)
