-- ===== src/Peers/Examples.antt =====
-- A shard that is sent to a node and asked for again.
use micros.Base.{ℕ, codes, false, ◌≡◌, refl, some, List, [], ◌∷◌, ok, str_eq, itoa}
use micros.Base.Assoc.{lookup, insert}
use micros.Domain.Object.{empty_meta}
use micros.Disk.{
  Disk, dir, file_at, node_at, ◌>>=◌, mkdir_all, io, make_dirs, get_node, pure, put_node,
  write_file, sync_dir, stat, raise, read_file,
}
use micros.Disk.Paths.{join, clean, split_slash, is_under, path_eq, parent}
use micros.Storage.Layout.{ec_shard_path, ec_shard_dir, meta_path, meta_dir}
use micros.Storage.Objects.{update_object_meta}
use micros.Storage.Transactions.{read_all, check_size, as_bytes}
use micros.Storage.Shards.{put_ec_shard, get_ec_shard}
use micros.Base.{none}
use micros.Domain.Object.{ObjectMeta}
use micros.Storage.Transactions.{read_meta, as_meta}
use micros.Storage.Objects.{get_object_meta}
use micros.Peers.{Fate, call, check_status, answer_of}
use micros.Peers.Shards.{
  fetch, handle_ec_meta, handle_ec_shard, send_ec_shard, copy_out, written, handle_ec_put_shard,
  get_remote_meta, get_remote_shard, put_remote_shard,
}
use micros.Peers.Delivered.{get_remote_shard-put_remote_shard}

abbrev bare : Disk
bare = record { nodes = (codes "ecdata" ∷ [], dir) ∷ []; faults = [] }

abbrev two_bytes : List ℕ
two_bytes = 4 ∷ 5 ∷ []

abbrev info : ObjectMeta
info = record empty_meta { content_length = 6; ec_chunk_index = 1 }

abbrev sent_disk : Disk
sent_disk =
    (put_remote_shard Fate.delivered (codes "b") (codes "k") 1 info two_bytes (some 2) bare).1

apart :
    path_eq (meta_path (codes "b") (codes "k")) (ec_shard_path (codes "b") (codes "k") 1) ≡ false
unfolding join clean split_slash path_eq str_eq ec_shard_path ec_shard_dir meta_path meta_dir itoa
apart = refl

-- The second request gets the first byte only, and succeeds.
delivered :
    ((put_remote_shard Fate.delivered (codes "b") (codes "k") 1 info two_bytes (some 2) bare).0
      ≡ none)
    × ((get_remote_shard Fate.delivered none (codes "b") (codes "k") 1 sent_disk).0 ≡ ok two_bytes)
    × ((get_remote_shard Fate.delivered (some 1) (codes "b") (codes "k") 1 sent_disk).0
        ≡ ok (4 ∷ []))
    × ((get_remote_meta Fate.delivered (codes "b") (codes "k") sent_disk).0 ≡ ok info)
unfolding file_at node_at join clean split_slash is_under str_eq lookup ◌>>=◌ mkdir_all io make_dirs
    get_node path_eq pure put_node write_file insert parent read_all check_size sync_dir stat raise
    ec_shard_path ec_shard_dir meta_path meta_dir itoa put_ec_shard get_ec_shard update_object_meta
    read_file as_bytes fetch handle_ec_meta handle_ec_shard send_ec_shard copy_out written
    handle_ec_put_shard get_remote_meta get_remote_shard put_remote_shard call check_status
    answer_of read_meta as_meta get_object_meta
delivered = (refl, refl, refl, refl)

get_remote_shard-put_remote_shard_example : (4 ∷ [] ≡ written (some 1) two_bytes) × (info ≡ info)
get_remote_shard-put_remote_shard_example =
    get_remote_shard-put_remote_shard Fate.delivered Fate.delivered Fate.delivered (some 1)
      (codes "b") (codes "k") 1 (4 ∷ 5 ∷ []) (4 ∷ []) (some 2) info info bare apart delivered.0
      delivered.2 delivered.3
