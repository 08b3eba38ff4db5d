-- ===== src/Storage/Shards.antt =====
-- The erasure-coded shards of an object on one node: PutECShard, GetECShard, HasECShard and
-- DeleteECShard.
pub mod Written
mod Examples
use micros.Base.{ℕ, Str, Bool, true, false, Option, List, length, ok, err}
use micros.Domain.Object.{ObjectMeta}
use micros.Disk.{
  M, pure, raise, recover, ◌>>=◌, ◌>>◌, Error, not_exist, io, bytes, mkdir_all, write_file,
  read_file, remove_if_there, stat, sync_dir,
}
use micros.Disk.Paths.{parent}
use micros.Storage.Layout.{ec_shard_path, ec_shard_dir, clean_empty_dirs}
use micros.Storage.Objects.{update_object_meta}
use micros.Storage.Transactions.{Reader, read_all, check_size, as_bytes}

unfoldable pub put_ec_shard : Str → Str → ℕ → Reader → Option ℕ → ObjectMeta → M (Unit {0})
put_ec_shard bucket key i reader size meta = do
  mkdir_all (parent (ec_shard_path bucket key i))
  io
  bs ← read_all reader
  check_size size (length bs)
  write_file (ec_shard_path bucket key i) (bytes bs)
  sync_dir (parent (ec_shard_path bucket key i))
  update_object_meta bucket key meta

unfoldable pub get_ec_shard : Str → Str → ℕ → M (List ℕ)
get_ec_shard bucket key i = do c ← read_file (ec_shard_path bucket key i); as_bytes c

unfoldable pub absent_is_false : Error → M Bool
absent_is_false not_exist = pure false
absent_is_false e = raise e

unfoldable pub has_ec_shard : Str → Str → ℕ → M Bool
unfolding absent_is_false
has_ec_shard bucket key i =
    recover (stat (ec_shard_path bucket key i)) (λ e. pure true) absent_is_false

unfoldable pub delete_ec_shard : Str → Str → ℕ → M (Unit {0})
delete_ec_shard bucket key i = do
  remove_if_there (ec_shard_path bucket key i)
  clean_empty_dirs (parent (ec_shard_path bucket key i)) (ec_shard_dir bucket)
