-- ===== src/Service/Requests/Examples.antt =====
-- A copy on a leader with one follower.
use micros.Base.{codes, false, ◌≡◌, refl, some, All, [], ◌∷◌, ok, str_eq, has_prefix, true}
use micros.Base.Assoc.{lookup, insert, str_Eq, erase}
use micros.Service.Leases.{new_gate}
use micros.Service.Writes.{run_transaction, after_staging, after_prepare, after_commit, mark_failed}
use micros.Storage.Commit.{AreApart}
use micros.Replication.Parts.{Stored}
use micros.Cluster.Static.Membership.{Distinct, addresses, contains}
use micros.Domain.Object.{empty_meta, ObjectMeta}
use micros.Disk.{
  dir, file_at, node_at, io, mkdir_all, make_dirs, get_node, pure, put_node, write_file, raise,
  stat, sync_dir, read_file, ◌>>=◌, wrap_error, rename, del_node, ignoring, recover, read_dir,
  list_entries, entries_of, remove_all, drop_tree, without_tree,
}
use micros.Disk.Paths.{is_under, join, clean, split_slash, path_eq, parent, base_name}
use micros.Storage.Layout.{
  staging_dir, data_path, meta_path, data_dir, meta_dir, ec_shard_dir, delete_all_ec_shards,
  remove_shards, no_shards, clean_empty_dirs, clean_from,
}
use micros.Storage.Transactions.{
  stage_object, stage_data, read_all, check_size, computed_meta, get_staged_object, as_bytes,
  commit_transaction, commit_operation, commit_put, read_tx, read_meta, as_tx, as_meta,
}
use micros.Cluster.Static.{new_manager, mark_alive, alive_followers}
use micros.Peers.{prepare, call, handle_prepare, commit, handle_commit, check_status, answer_of}
use micros.Replication.{
  over, prepare_one, prepare_all, add_error, set_remote, send_staged, commit_all, commit_one,
}
use micros.Base.{true, none}
use micros.Domain.Object.{is_ec}
use micros.Disk.{file, bytes, meta_json}
use micros.Storage.Buckets.{has_bucket}
use micros.Storage.Objects.{get_object, get_object_meta}
use micros.Service.Leases.{admit_write, finish_write, is_writes_blocked}
use micros.Service.Writes.{ensure_bucket, put_transaction}
use micros.Service.Syncs.{State}
use micros.Service.Examples.{reliable, two_nodes, hashes}
use micros.Service.Requests.{
  copy_object, copied_meta, after_read, put_object, delete_object, after_ensure, enter, read_object,
  read_as,
}
use micros.Service.Requests.Copies.{copy_object-Stored}
use micros.Service.Requests.Counting.{put_object_counting}

abbrev source_meta : ObjectMeta
source_meta = record empty_meta {
  content_type = codes "text";
  content_length = 2;
  crc32 = 2;
  etag = codes "e";
}

abbrev state : State
state = record {
  gate = new_gate;
  world = record {
    local = record {
      nodes =
          (codes "data" ∷ [], dir)
          ∷ (codes "data" ∷ codes "b" ∷ [], dir)
          ∷ (codes "data" ∷ codes "b" ∷ codes "k" ∷ [], file (bytes (6 ∷ 7 ∷ [])))
          ∷ (codes "meta" ∷ codes "b" ∷ [], dir)
          ∷ (codes "meta" ∷ codes "b" ∷ codes "k.json" ∷ [], file (meta_json source_meta))
          ∷ (codes "staging" ∷ [], dir)
          ∷ [];
      faults = [];
    };
    remote = λ a. record { nodes = (codes "staging" ∷ [], dir) ∷ []; faults = [] };
    members = mark_alive (codes "n2") [] (new_manager (codes "n1") two_nodes (codes "n1") 3 0);
  };
}

abbrev info : ObjectMeta
info = record empty_meta {
  content_type = codes "text";
  content_length = 2;
  crc32 = 2;
  etag = codes "etag";
  created_at = 9;
  modified_at = 9;
}

apart : AreApart (staging_dir (codes "t")) (codes "b") (codes "c")
unfolding staging_dir data_path meta_path data_dir meta_dir ec_shard_dir join clean split_slash
    is_under path_eq str_eq parent base_name has_prefix
apart = record {
  data_staged = refl;
  meta_staged = refl;
  data_meta = refl;
  data_shard = refl;
  meta_shard = refl;
  staged_shard = refl;
}

distinct : Distinct (addresses state.world.members.nodes_state)
unfolding mark_alive new_manager str_eq lookup insert contains addresses
distinct = (refl, (refl, tt))

replica : is_ec source_meta ≡ false
unfolding is_ec str_eq
replica = refl

has_source : Stored (codes "b") (codes "k") source_meta (6 ∷ 7 ∷ []) state.world.local
unfolding file_at node_at lookup data_path meta_path data_dir meta_dir join clean split_slash
    path_eq str_eq
has_source = (refl, (refl, tt))

copy_succeeds :
    ((copy_object reliable none (codes "t") 9 (codes "b", codes "k") (codes "b", codes "c") state).0
      ≡ ok info)
    × (contains (codes "a2") (
          alive_followers
            (copy_object reliable none
              (codes "t")
              9
              (codes "b", codes "k")
              (codes "b", codes "c")
              state).1.world.members)
        ≡ true)
unfolding copy_object after_read put_object after_ensure enter read_object read_as get_object
    get_object_meta is_ec has_bucket ensure_bucket put_transaction admit_write finish_write
    is_writes_blocked file_at node_at stage_object staging_dir join clean split_slash is_under
    str_eq lookup ◌>>=◌ mkdir_all io make_dirs get_node path_eq pure put_node write_file insert
    parent stage_data read_all check_size sync_dir stat raise computed_meta run_transaction
    after_staging prepare_all alive_followers new_manager mark_alive over prepare_one
    get_staged_object read_file as_bytes prepare call handle_prepare after_prepare add_error
    set_remote send_staged after_commit commit_all commit_one commit handle_commit mark_failed
    contains commit_transaction commit_operation commit_put wrap_error read_tx read_meta as_tx
    as_meta rename del_node erase data_path meta_path data_dir meta_dir ec_shard_dir ignoring
    delete_all_ec_shards recover read_dir list_entries entries_of remove_shards no_shards
    clean_empty_dirs clean_from remove_all drop_tree without_tree has_prefix check_status answer_of
copy_succeeds = (refl, refl)

copy_object-Stored_example :
    Stored
      (codes "b")
      (codes "c")
      (computed_meta hashes (copied_meta 9 source_meta) (6 ∷ 7 ∷ []))
      (6 ∷ 7 ∷ [])
      (copy_object reliable none
        (codes "t")
        9
        (codes "b", codes "k")
        (codes "b", codes "c")
        state).1.world.local
    × All
        (λ a.
          Stored
            (codes "b")
            (codes "c")
            (computed_meta hashes (copied_meta 9 source_meta) (6 ∷ 7 ∷ []))
            (6 ∷ 7 ∷ [])
            ((copy_object reliable none
                (codes "t")
                9
                (codes "b", codes "k")
                (codes "b", codes "c")
                state).1.world.remote
              a))
        (alive_followers
          (copy_object reliable none
            (codes "t")
            9
            (codes "b", codes "k")
            (codes "b", codes "c")
            state).1.world.members)
copy_object-Stored_example =
    copy_object-Stored reliable none (codes "t") 9 (codes "b", codes "k") (codes "b", codes "c")
      (6 ∷ 7 ∷ []) source_meta info state apart replica has_source distinct copy_succeeds.0

put_object_counting_example :
    ((put_object reliable
        (codes "t")
        9
        (codes "b")
        (codes "c")
        (ok (6 ∷ []))
        (some 2)
        empty_meta
        state).1.gate.active_writes
      ≡ 0)
    × ((delete_object reliable (codes "t") 9 (codes "b") (codes "c") state).1.gate.active_writes
        ≡ 0)
put_object_counting_example =
    put_object_counting reliable (codes "t") 9 (codes "b") (codes "c") (ok (6 ∷ [])) (some 2)
      empty_meta state
