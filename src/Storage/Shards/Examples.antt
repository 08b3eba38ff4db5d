-- ===== src/Storage/Shards/Examples.antt =====
-- A shard that is put and read again.
use micros.Base.{ℕ, codes, false, ◌≡◌, refl, some, List, [], ◌∷◌, ok, str_eq, itoa}
use micros.Base.Assoc.{lookup, insert}
use micros.Domain.Object.{empty_meta}
use micros.Disk.{
  Disk, dir, file_at, node_at, meta_json, ◌>>=◌, mkdir_all, io, make_dirs, get_node, pure, put_node,
  write_file, sync_dir, stat, raise, read_file,
}
use micros.Disk.Paths.{join, clean, split_slash, is_under, path_eq, parent}
use micros.Storage.Layout.{ec_shard_path, ec_shard_dir, meta_path, meta_dir}
use micros.Storage.Objects.{update_object_meta}
use micros.Storage.Transactions.{read_all, check_size, as_bytes}
use micros.Storage.Shards.{put_ec_shard, get_ec_shard}
use micros.Storage.Shards.Written.{get_ec_shard-put_ec_shard}

abbrev bare : Disk
bare = record { nodes = (codes "ecdata" ∷ [], dir) ∷ []; faults = [] }

abbrev two_bytes : List ℕ
two_bytes = 4 ∷ 5 ∷ []

apart :
    path_eq (meta_path (codes "b") (codes "k")) (ec_shard_path (codes "b") (codes "k") 1) ≡ false
unfolding file_at node_at join clean split_slash is_under str_eq lookup ◌>>=◌ mkdir_all io make_dirs
    get_node path_eq pure put_node write_file insert parent read_all check_size sync_dir stat raise
    ec_shard_path ec_shard_dir meta_path meta_dir itoa put_ec_shard get_ec_shard update_object_meta
    read_file as_bytes
apart = refl

put_then_get :
    ((put_ec_shard (codes "b") (codes "k") 1 (ok (4 ∷ 5 ∷ [])) (some 2) empty_meta bare).0 ≡ ok tt)
    × ((get_ec_shard
          (codes "b")
          (codes "k")
          1
          (put_ec_shard (codes "b") (codes "k") 1 (ok (4 ∷ 5 ∷ [])) (some 2) empty_meta bare).1).0
        ≡ ok (4 ∷ 5 ∷ []))
unfolding file_at node_at join clean split_slash is_under str_eq lookup ◌>>=◌ mkdir_all io make_dirs
    get_node path_eq pure put_node write_file insert parent read_all check_size sync_dir stat raise
    ec_shard_path ec_shard_dir meta_path meta_dir itoa put_ec_shard get_ec_shard update_object_meta
    read_file as_bytes
put_then_get = (refl, refl)

get_ec_shard-put_ec_shard_example :
    (two_bytes ≡ two_bytes)
    × (file_at
          (put_ec_shard (codes "b") (codes "k") 1 (ok (4 ∷ 5 ∷ [])) (some 2) empty_meta bare).1
          (meta_path (codes "b") (codes "k"))
        ≡ some (meta_json empty_meta))
get_ec_shard-put_ec_shard_example =
    get_ec_shard-put_ec_shard (codes "b") (codes "k") 1 (4 ∷ 5 ∷ []) (4 ∷ 5 ∷ []) (some 2)
      empty_meta bare apart put_then_get.0 put_then_get.1
