-- ===== src/Storage/Objects.antt =====
-- Objects and their listing. What a method opens for reading it returns as bytes.
pub mod Listing
mod Examples
use micros.Base.{Str, List, ℕ, if◌then◌else◌}
use micros.Domain.Object.{ObjectMeta, is_ec}
use micros.Disk.{
  M, pure, ◌>>=◌, ◌>>◌, read_file, remove_if_there, mkdir_all, write_file, sync_dir, meta_json,
}
use micros.Disk.Paths.{parent}
use micros.Storage.Layout.{data_path, meta_path, data_dir, ec_shard_path, clean_empty_dirs}
use micros.Storage.Transactions.{read_meta, as_bytes, delete_files}

unfoldable pub get_object_meta : Str → Str → M ObjectMeta
get_object_meta bucket key = read_meta (meta_path bucket key)

unfoldable pub get_object : Str → Str → M (List ℕ × ObjectMeta)
get_object bucket key = do
  meta ← get_object_meta bucket key
  c ←
      read_file
        (if is_ec meta then ec_shard_path bucket key meta.ec_chunk_index else data_path bucket key)
  bs ← as_bytes c
  pure (bs, meta)

unfoldable pub delete_object : Str → Str → M (Unit {0})
delete_object bucket key = delete_files bucket key

unfoldable pub update_object_meta : Str → Str → ObjectMeta → M (Unit {0})
update_object_meta bucket key meta = do
  mkdir_all (parent (meta_path bucket key))
  write_file (meta_path bucket key) (meta_json meta)
  sync_dir (parent (meta_path bucket key))

unfoldable pub remove_replica_data : Str → Str → M (Unit {0})
remove_replica_data bucket key = do
  remove_if_there (data_path bucket key)
  clean_empty_dirs (parent (data_path bucket key)) (data_dir bucket)
