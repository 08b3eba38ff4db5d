-- ===== src/Service/Examples.antt =====
-- A write that a lost request aborts, and a lease that turns a write away.
use micros.Base.{
  codes, false, ◌≡◌, refl, some, List, [], ◌∷◌, arith, ok, err, str_eq, length, has_prefix, true,
}
use micros.Base.Assoc.{lookup, insert, str_Eq, erase}
use micros.Service.Leases.{Gate, new_gate, start_sync_lease, lease_name}
use micros.Service.Leases.Exclusion.{Event, run, run-Held, AllWithin, Held}
use micros.Service.Writes.{
  prepare_failed, put_tx, run_transaction, after_staging, after_prepare, after_commit, mark_failed,
}
use micros.Service.Replicated.{run_transaction-replicates, run_transaction-stores}
use micros.Storage.Commit.{AreApart}
use micros.Replication.Parts.{Stored}
use micros.Cluster.Static.Membership.{Distinct, addresses, contains}
use micros.Service.Atomicity.{run_transaction-aborted, run_transaction-failed}
use micros.Domain.Object.{Transaction, empty_meta, ObjectMeta}
use micros.Disk.{
  Disk, dir, file_at, node_at, io, mkdir_all, make_dirs, get_node, pure, put_node, write_file,
  raise, stat, sync_dir, read_file, ◌>>=◌, wrap_error, rename, del_node, ignoring, recover,
  read_dir, list_entries, entries_of, remove_all, drop_tree, without_tree,
}
use micros.Disk.Paths.{FilePath, is_under, join, clean, split_slash, path_eq, parent, base_name}
use micros.Storage.Layout.{
  staging_dir, data_path, meta_path, data_dir, meta_dir, ec_shard_dir, delete_all_ec_shards,
  remove_shards, no_shards, clean_empty_dirs, clean_from,
}
use micros.Storage.Transactions.{
  Hashes, stage_object, stage_data, read_all, check_size, computed_meta, get_staged_object,
  as_bytes, commit_transaction, commit_operation, commit_put, read_tx, read_meta, as_tx, as_meta,
}
use micros.Cluster.Static.{StaticNode, new_manager, mark_alive, alive_followers}
use micros.Peers.{
  Fate, prepare, call, handle_prepare, commit, handle_commit, check_status, answer_of,
}
use micros.Replication.{
  World, Network, over, prepare_one, prepare_all, add_error, set_remote, send_staged, commit_all,
  commit_one,
}

abbrev syncing : Gate
syncing = start_sync_lease (codes "n2") 100 new_gate

syncing-Held : Held (codes "n2") 100 syncing
unfolding start_sync_lease lease_name insert lookup str_eq
syncing-Held = ((100, refl, omega arith), refl)

abbrev events : List Event
events =
    Event.asks 200
    ∷ Event.starts (codes "n3") 300
    ∷ Event.ends (codes "n3")
    ∷ Event.asks 30000000100
    ∷ []

events-AllWithin : AllWithin (codes "n2") 100 events
unfolding lease_name str_eq
events-AllWithin = (omega arith, (omega arith, (refl, (omega arith, tt))))

run-Held_example : Held (codes "n2") 100 (run events syncing)
run-Held_example = run-Held (codes "n2") 100 events syncing events-AllWithin syncing-Held

abbrev pub hashes : Hashes
hashes = record { crc32 = length; etag = λ bs. codes "etag" }

abbrev empty_disk : Disk
empty_disk = record { nodes = (codes "staging" ∷ [], dir) ∷ []; faults = [] }

abbrev pub two_nodes : List StaticNode
two_nodes =
    record { id = codes "n1"; internal_address = codes "a1" }
    ∷ record { id = codes "n2"; internal_address = codes "a2" }
    ∷ []

abbrev world : World
world = record {
  local = empty_disk;
  remote = λ a. empty_disk;
  members = mark_alive (codes "n2") [] (new_manager (codes "n1") two_nodes (codes "n1") 3 0);
}

-- The answer to the prepare request is lost, after the follower has staged the bytes.
abbrev pub lossy : Network
lossy = record { hashes = hashes; fate = λ phase a. Fate.reply_lost; clock = λ a. 5 }

abbrev put : Transaction
put = put_tx (codes "t") 4 (codes "b") (codes "k")

put_aborts :
    (run_transaction lossy put (ok (6 ∷ 7 ∷ [])) (some 2) empty_meta world).0 ≡ err prepare_failed
unfolding file_at node_at stage_object staging_dir join clean split_slash is_under str_eq lookup
    ◌>>=◌ mkdir_all io make_dirs get_node path_eq pure put_node write_file insert parent stage_data
    read_all check_size sync_dir stat raise computed_meta run_transaction after_staging prepare_all
    alive_followers new_manager mark_alive over prepare_one get_staged_object read_file as_bytes
    prepare call handle_prepare after_prepare add_error set_remote send_staged
put_aborts = refl

abbrev some_file : FilePath
some_file = codes "data" ∷ codes "b" ∷ codes "k" ∷ []

outside : is_under (staging_dir (codes "t")) some_file ≡ false
unfolding staging_dir join clean split_slash is_under str_eq
outside = refl

run_transaction-aborted_example :
    (file_at
        (run_transaction lossy put (ok (6 ∷ 7 ∷ [])) (some 2) empty_meta world).1.local
        some_file
      ≡ file_at world.local some_file)
    × (file_at
          ((run_transaction lossy put (ok (6 ∷ 7 ∷ [])) (some 2) empty_meta world).1.remote
            (codes "a2"))
          some_file
        ≡ file_at (world.remote (codes "a2")) some_file)
run_transaction-aborted_example =
    run_transaction-aborted lossy put (ok (6 ∷ 7 ∷ [])) (some 2) empty_meta world (codes "a2")
      some_file put_aborts outside

run_transaction-failed_example :
    file_at
      ((run_transaction lossy put (ok (6 ∷ 7 ∷ [])) (some 2) empty_meta world).1.remote
        (codes "a2"))
      some_file
    ≡ file_at (world.remote (codes "a2")) some_file
run_transaction-failed_example =
    run_transaction-failed lossy put (ok (6 ∷ 7 ∷ [])) (some 2) empty_meta world (codes "a2")
      some_file prepare_failed put_aborts outside

-- Every request is answered.
abbrev pub reliable : Network
reliable = record lossy { fate = λ phase a. Fate.delivered }

abbrev info : ObjectMeta
info = record empty_meta { content_length = 2; crc32 = 2; etag = codes "etag" }

apart : AreApart (staging_dir (codes "t")) (codes "b") (codes "k")
unfolding staging_dir data_path meta_path data_dir meta_dir ec_shard_dir join clean split_slash
    is_under path_eq str_eq parent base_name has_prefix
apart = record {
  data_staged = refl;
  meta_staged = refl;
  data_meta = refl;
  data_shard = refl;
  meta_shard = refl;
  staged_shard = refl;
}

distinct : Distinct (addresses world.members.nodes_state)
unfolding mark_alive new_manager str_eq lookup insert contains addresses
distinct = (refl, (refl, tt))

put_succeeds :
    ((run_transaction reliable put (ok (6 ∷ 7 ∷ [])) (some 2) empty_meta world).0 ≡ ok info)
    × (contains (codes "a2") (
          alive_followers
            (run_transaction reliable put (ok (6 ∷ 7 ∷ [])) (some 2) empty_meta world).1.members)
        ≡ true)
unfolding file_at node_at stage_object staging_dir join clean split_slash is_under str_eq lookup
    ◌>>=◌ mkdir_all io make_dirs get_node path_eq pure put_node write_file insert parent stage_data
    read_all check_size sync_dir stat raise computed_meta run_transaction after_staging prepare_all
    alive_followers new_manager mark_alive over prepare_one get_staged_object read_file as_bytes
    prepare call handle_prepare after_prepare add_error set_remote send_staged after_commit
    commit_all commit_one commit handle_commit mark_failed contains commit_transaction
    commit_operation commit_put wrap_error read_tx read_meta as_tx as_meta rename del_node erase
    data_path meta_path data_dir meta_dir ec_shard_dir ignoring delete_all_ec_shards recover
    read_dir list_entries entries_of remove_shards no_shards clean_empty_dirs clean_from remove_all
    drop_tree without_tree has_prefix check_status answer_of
put_succeeds = (refl, refl)

run_transaction-replicates_example :
    (info ≡ computed_meta hashes empty_meta (6 ∷ 7 ∷ []))
    × Stored
        (codes "b")
        (codes "k")
        (computed_meta hashes empty_meta (6 ∷ 7 ∷ []))
        (6 ∷ 7 ∷ [])
        (run_transaction reliable put (ok (6 ∷ 7 ∷ [])) (some 2) empty_meta world).1.local
    × Stored (codes "b") (codes "k") (computed_meta hashes empty_meta (6 ∷ 7 ∷ [])) (6 ∷ 7 ∷ []) (
        (run_transaction reliable put (ok (6 ∷ 7 ∷ [])) (some 2) empty_meta world).1.remote
          (codes "a2"))
run_transaction-replicates_example =
    run_transaction-replicates reliable put empty_meta info (6 ∷ 7 ∷ []) (some 2) world (codes "a2")
      apart refl distinct put_succeeds.0 put_succeeds.1

run_transaction-stores_example :
    (info ≡ computed_meta hashes empty_meta (6 ∷ 7 ∷ []))
    × Stored
        (codes "b")
        (codes "k")
        info
        (6 ∷ 7 ∷ [])
        (run_transaction reliable put (ok (6 ∷ 7 ∷ [])) (some 2) empty_meta world).1.local
run_transaction-stores_example =
    run_transaction-stores reliable put empty_meta info (6 ∷ 7 ∷ []) (some 2) world apart refl
      distinct put_succeeds.0
