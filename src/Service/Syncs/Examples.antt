-- ===== src/Service/Syncs/Examples.antt =====
-- A sync request that succeeds, and one whose first request is lost.
use micros.Base.{
  codes, false, ◌≡◌, refl, none, some, [], str_eq, has_prefix, has_suffix, trim_suffix, after,
  sort_strs, str_lt, index_of,
}
use micros.Base.Assoc.{lookup, insert, str_Eq, erase}
use micros.Domain.Object.{is_ec}
use micros.Disk.{
  file_at, node_at, io, mkdir_all, make_dirs, get_node, pure, put_node, write_file, raise, stat,
  sync_dir, read_file, ◌>>=◌, wrap_error, rename, del_node, ignoring, recover, read_dir,
  list_entries, entries_of, remove_all, drop_tree, without_tree,
}
use micros.Disk.Paths.{is_under, join, clean, split_slash, path_eq, parent, base_name}
use micros.Storage.Layout.{
  staging_dir, data_path, meta_path, data_dir, meta_dir, ec_shard_dir, delete_all_ec_shards,
  remove_shards, no_shards, clean_empty_dirs, clean_from,
}
use micros.Storage.Buckets.{list_buckets}
use micros.Storage.Transactions.{
  stage_object, stage_data, read_all, check_size, computed_meta, as_bytes, commit_transaction,
  commit_operation, commit_put, read_tx, read_meta, as_tx, as_meta,
}
use micros.Storage.Objects.{get_object_meta, get_object}
use micros.Storage.Objects.Listing.{
  list_objects, collect, place, group_of, add_prefix, last_page, read_keys, walk_keys, relative,
  resume, bucket_there,
}
use micros.Peers.{
  Fate, prepare, call, handle_prepare, commit, handle_commit, check_status, answer_of,
}
use micros.Sync.{
  keys_response, by_path, is_outdated, extraneous, get_local_keys, get_keys, handle_keys, keys_of,
  bucket_keys, buckets_keys, sync_delete, handle_sync_delete, delete_each,
}
use micros.Sync.Follower.{
  Setup, sync_follower, with_follower_keys, with_local_keys, reconcile, push_all, push_object,
  source, read_source, send, after_prepare, after_commit, delete_extraneous,
}
use micros.Domain.Node.{status_ready}
use micros.Cluster.Static.{new_manager, register_follower, mark_alive}
use micros.Cluster.Static.Heartbeats.{HasStatus}
use micros.Replication.{set_remote}
use micros.Service.Leases.{new_gate, is_drained, lease_name}
use micros.Service.Syncs.{State, sync_at, after_sync, drive_sync, handle_sync_request, sync_failed}
use micros.Service.Syncs.Outcome.{
  status_before, handle_sync_request-HasStatus, handle_sync_request-failed,
}
use micros.Sync.Examples.{setup, pair}
use micros.Sync.Follower.{keys_not_fetched}
use micros.Peers.{no_answer}

abbrev state : State
state = record {
  gate = new_gate;
  world = record {
    local = pair.leader;
    remote = λ a. pair.follower;
    members = new_manager (codes "n1") [] (codes "n1") 3 0;
  };
}

abbrev lossy : Setup
lossy = record setup { fate = λ r. Fate.lost }

named : str_eq (codes "n2") [] ≡ false
unfolding str_eq
named = refl

other : str_eq (codes "n2") state.world.members.local_node_id ≡ false
unfolding str_eq new_manager
other = refl

elsewhere : str_eq (codes "a2") (codes "a3") ≡ false
unfolding str_eq
elsewhere = refl

request_succeeds : (handle_sync_request (some setup) 7 (codes "n2") (codes "a2") state).0 ≡ none
unfolding handle_sync_request drive_sync sync_at after_sync is_drained set_remote new_manager
    register_follower mark_alive sync_follower with_follower_keys with_local_keys reconcile push_all
    push_object source read_source send after_prepare after_commit delete_extraneous by_path
    extraneous is_outdated sync_delete handle_sync_delete delete_each get_keys handle_keys
    get_local_keys keys_response list_buckets buckets_keys bucket_keys keys_of list_objects stat
    pure raise recover ◌>>=◌ io get_node node_at read_file join clean read_dir list_entries
    entries_of parent base_name split_slash path_eq is_under meta_dir meta_path read_meta as_meta
    get_object_meta collect place group_of add_prefix last_page read_keys walk_keys relative resume
    bucket_there lookup str_eq has_prefix has_suffix trim_suffix after sort_strs str_lt index_of
    get_object as_bytes is_ec file_at stage_object staging_dir mkdir_all make_dirs put_node
    write_file insert stage_data read_all check_size sync_dir computed_meta prepare call
    handle_prepare commit handle_commit commit_transaction commit_operation commit_put wrap_error
    read_tx as_tx rename del_node erase data_path data_dir ec_shard_dir ignoring
    delete_all_ec_shards remove_shards no_shards clean_empty_dirs clean_from remove_all drop_tree
    without_tree check_status answer_of
request_succeeds = refl

request_fails :
    (handle_sync_request (some lossy) 7 (codes "n2") (codes "a2") state).0
    ≡ some (sync_failed (keys_not_fetched no_answer))
unfolding handle_sync_request drive_sync sync_at after_sync is_drained sync_follower
    with_follower_keys get_keys set_remote
request_fails = refl

handle_sync_request-HasStatus_example :
    (sync_follower setup (record { leader = pair.leader; follower = pair.follower }) ≡ (
      none,
      record {
        leader = (handle_sync_request (some setup) 7 (codes "n2") (codes "a2") state).1.world.local;
        follower =
            (handle_sync_request (some setup) 7 (codes "n2") (codes "a2") state).1.world.remote
              (codes "a2");
      },
    ))
    × HasStatus status_ready
        (codes "n2")
        (handle_sync_request (some setup) 7 (codes "n2") (codes "a2") state).1.world.members
    × (lookup
          (lease_name (codes "n2"))
          (handle_sync_request (some setup) 7 (codes "n2") (codes "a2") state).1.gate.syncing_nodes
        ≡ none)
handle_sync_request-HasStatus_example =
    handle_sync_request-HasStatus setup 7 (codes "n2") (codes "a2") state named other
      request_succeeds

handle_sync_request-failed_example :
    HasStatus
      (status_before (lookup (codes "n2") state.world.members.nodes_state))
      (codes "n2")
      (handle_sync_request (some lossy) 7 (codes "n2") (codes "a2") state).1.world.members
    × ((handle_sync_request (some lossy) 7 (codes "n2") (codes "a2") state).1.world.remote
          (codes "a3")
        ≡ state.world.remote (codes "a3"))
    × (lookup
          (lease_name (codes "n2"))
          (handle_sync_request (some lossy) 7 (codes "n2") (codes "a2") state).1.gate.syncing_nodes
        ≡ none)
handle_sync_request-failed_example =
    handle_sync_request-failed lossy 7 (codes "n2") (codes "a2") state (keys_not_fetched no_answer)
      (codes "a3") named other elsewhere request_fails
