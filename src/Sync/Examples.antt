-- ===== src/Sync/Examples.antt =====
-- A follower that lacks the leader's object, and has one that the leader lacks.
use micros.Base.{
  Str, codes, false, ◌≡◌, refl, none, some, [], ◌∷◌, ok, str_eq, length, has_prefix, has_suffix,
  trim_suffix, after, sort_strs, str_lt, index_of,
}
use micros.Base.Assoc.{lookup, insert, str_Eq, erase}
use micros.Domain.Object.{ObjectMeta, empty_meta, is_ec}
use micros.Disk.{
  dir, file, bytes, meta_json, file_at, node_at, io, mkdir_all, make_dirs, get_node, pure, put_node,
  write_file, raise, stat, sync_dir, read_file, ◌>>=◌, wrap_error, rename, del_node, ignoring,
  recover, read_dir, list_entries, entries_of, remove_all, drop_tree, without_tree,
}
use micros.Disk.Paths.{is_under, join, clean, split_slash, path_eq, parent, base_name}
use micros.Storage.Layout.{
  staging_dir, data_path, meta_path, data_dir, meta_dir, ec_shard_dir, delete_all_ec_shards,
  remove_shards, no_shards, clean_empty_dirs, clean_from,
}
use micros.Storage.Buckets.{list_buckets}
use micros.Storage.Transactions.{
  stage_object, stage_data, read_all, check_size, computed_meta, as_bytes, commit_transaction,
  commit_operation, commit_put, read_tx, read_meta, as_tx, as_meta,
}
use micros.Storage.Isolation.{commit_files, object_files}
use micros.Storage.Commit.{AreApart}
use micros.Storage.Objects.{get_object_meta, get_object}
use micros.Storage.Objects.Listing.{
  list_objects, collect, place, group_of, add_prefix, last_page, read_keys, walk_keys, relative,
  resume, bucket_there,
}
use micros.Peers.{
  Fate, prepare, call, handle_prepare, commit, handle_commit, check_status, answer_of,
}
use micros.Replication.Parts.{Stored}
use micros.Sync.{
  KeyInfo, KeysResponse, keys_response, by_path, is_outdated, extraneous, get_local_keys, get_keys,
  handle_keys, keys_of, bucket_keys, buckets_keys, sync_delete, handle_sync_delete, delete_each,
}
use micros.Sync.Follower.{
  Setup, Pair, Request, sync_follower, with_follower_keys, with_local_keys, reconcile, push_all,
  push_object, source, read_source, send, after_prepare, after_commit, delete_extraneous,
}
use micros.Sync.Reads.{Reading}
use micros.Sync.Names.{Lacks, others}
use micros.Sync.Pushes.{Clear}
use micros.Sync.Plans.{reconcile-by_path}
use micros.Sync.Complete.{sync_follower-Stored}

abbrev pub setup : Setup
setup = record {
  ec_reader = none;
  tx_id = λ p. codes "t";
  hashes = record { crc32 = length; etag = λ bs. codes "etag" };
  clock = 5;
  fate = λ r. Fate.delivered;
}

abbrev meta : ObjectMeta
meta = record empty_meta { content_length = 2; crc32 = 2; etag = codes "etag" }

abbrev pub pair : Pair
pair = record {
  leader = record {
    nodes =
        (codes "data" ∷ [], dir)
        ∷ (codes "data" ∷ codes "b" ∷ [], dir)
        ∷ (codes "data" ∷ codes "b" ∷ codes "k" ∷ [], file (bytes (6 ∷ 7 ∷ [])))
        ∷ (codes "meta" ∷ codes "b" ∷ [], dir)
        ∷ (codes "meta" ∷ codes "b" ∷ codes "k.json" ∷ [], file (meta_json meta))
        ∷ [];
    faults = [];
  };
  follower = record {
    nodes =
        (codes "data" ∷ [], dir)
        ∷ (codes "data" ∷ codes "b" ∷ [], dir)
        ∷ (codes "data" ∷ codes "b" ∷ codes "o" ∷ [], file (bytes (9 ∷ [])))
        ∷ (codes "meta" ∷ codes "b" ∷ [], dir)
        ∷ (codes "meta" ∷ codes "b" ∷ codes "o.json" ∷ [], file (meta_json meta))
        ∷ (codes "staging" ∷ [], dir)
        ∷ [];
    faults = [];
  };
}

abbrev listed : Str → KeyInfo
listed key = record { bucket = codes "b"; key = key; crc32 = 2; size = 2; modified_at = 0 }

abbrev theirs : KeysResponse
theirs = record { keys = listed (codes "o") ∷ []; total_count = 1; total_size_bytes = 2 }

asked :
    ((get_keys (setup.fate Request.listing) pair.follower).0 ≡ ok theirs)
    × ((get_local_keys pair.leader).0 ≡ ok (listed (codes "k") ∷ []))
unfolding get_keys handle_keys get_local_keys keys_response list_buckets buckets_keys bucket_keys
    keys_of list_objects stat pure raise recover ◌>>=◌ io get_node node_at read_file join clean
    read_dir list_entries entries_of parent base_name split_slash path_eq is_under meta_dir
    meta_path read_meta as_meta get_object_meta collect place group_of add_prefix last_page
    read_keys walk_keys relative resume bucket_there lookup str_eq has_prefix has_suffix trim_suffix
    after sort_strs str_lt index_of
asked = (refl, refl)

lacks :
    (lookup (codes "b/k") (by_path (listed (codes "k") ∷ []) []) ≡ some (listed (codes "k")))
    × Lacks (listed (codes "k")) (lookup (codes "b/k") (by_path theirs.keys []))
unfolding by_path lookup insert str_eq
lacks = (refl, tt)

apart : AreApart (staging_dir (codes "t")) (codes "b") (codes "k")
unfolding staging_dir data_path meta_path data_dir meta_dir ec_shard_dir join clean split_slash
    is_under path_eq str_eq parent base_name has_prefix
apart = record {
  data_staged = refl;
  meta_staged = refl;
  data_meta = refl;
  data_shard = refl;
  meta_shard = refl;
  staged_shard = refl;
}

clear :
    Clear setup (listed (codes "k")) (others (codes "b/k") (by_path (listed (codes "k") ∷ []) []))
    × Clear setup
        (listed (codes "k"))
        (extraneous (by_path (listed (codes "k") ∷ []) []) (by_path theirs.keys []))
unfolding by_path extraneous lookup insert str_eq commit_files object_files staging_dir data_path
    meta_path data_dir meta_dir ec_shard_dir join clean split_slash is_under path_eq parent
    base_name has_prefix
clear = ((tt, tt), ((refl, tt), (refl, tt)))

has_object : Stored (codes "b") (codes "k") meta (6 ∷ 7 ∷ []) pair.leader
unfolding file_at node_at lookup data_path meta_path data_dir meta_dir join clean split_slash
    path_eq str_eq
has_object = (refl, (refl, tt))

is_replica : is_ec meta ≡ false
unfolding is_ec str_eq
is_replica = refl

reads : Reading setup
reads reader h = cc

succeeds : (sync_follower setup pair).0 ≡ none
unfolding sync_follower with_follower_keys with_local_keys reconcile push_all push_object source
    read_source send after_prepare after_commit delete_extraneous by_path extraneous is_outdated
    sync_delete handle_sync_delete delete_each get_keys handle_keys get_local_keys keys_response
    list_buckets buckets_keys bucket_keys keys_of list_objects stat pure raise recover ◌>>=◌ io
    get_node node_at read_file join clean read_dir list_entries entries_of parent base_name
    split_slash path_eq is_under meta_dir meta_path read_meta as_meta get_object_meta collect place
    group_of add_prefix last_page read_keys walk_keys relative resume bucket_there lookup str_eq
    has_prefix has_suffix trim_suffix after sort_strs str_lt index_of get_object as_bytes is_ec
    file_at stage_object staging_dir mkdir_all make_dirs put_node write_file insert stage_data
    read_all check_size sync_dir computed_meta prepare call handle_prepare commit handle_commit
    commit_transaction commit_operation commit_put wrap_error read_tx as_tx rename del_node erase
    data_path data_dir ec_shard_dir ignoring delete_all_ec_shards remove_shards no_shards
    clean_empty_dirs clean_from remove_all drop_tree without_tree check_status answer_of
succeeds = refl

sync_follower-Stored_example :
    Stored
      (codes "b")
      (codes "k")
      (computed_meta setup.hashes meta (6 ∷ 7 ∷ []))
      (6 ∷ 7 ∷ [])
      (sync_follower setup pair).1.follower
sync_follower-Stored_example =
    sync_follower-Stored setup pair theirs (listed (codes "k") ∷ []) (codes "b/k")
      (listed (codes "k")) (6 ∷ 7 ∷ []) meta reads apart is_replica asked.0 asked.1 lacks.0 lacks.1
      clear.0 clear.1 has_object succeeds

reconcile-by_path_example :
    reconcile setup (by_path theirs.keys []) (by_path theirs.keys []) pair ≡ (none, pair)
reconcile-by_path_example = reconcile-by_path setup theirs.keys pair
