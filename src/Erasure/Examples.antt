-- ===== src/Erasure/Examples.antt =====
-- An object of three bytes on a leader and one follower, converted, read with one shard, repaired.
use micros.Base.{
  ℕ, zero, suc, ◌<◌, codes, str_eq, true, false, ◌≡◌, refl, ap, none, some, [], ◌∷◌, ok, err, take,
  itoa, arith,
}
use micros.Base.Assoc.{lookup, insert, erase}
use micros.Domain.Node.{status_ready}
use micros.Domain.Object.{ObjectMeta, empty_meta, is_ec}
use micros.Disk
use micros.Codec.{
  add_parity, copy_bytes, write_byte, encode, Codec, n_shards, padded_size, shard_size, reconstruct,
  trim_data,
}
use micros.Codec.Examples.{
  mirror-IsReedSolomon, pair, object, encode_object, mirror_encode, mirror_reconstruct,
}
use micros.Disk.{
  Disk, dir, file, bytes, meta_json, file_at, node_at, io, mkdir_all, make_dirs, get_node, pure,
  put_node, write_file, raise, stat, sync_dir, read_file, M, recover, read_dir, list_entries,
  entries_of, remove_if_there, remove, del_node, children_exist, has_child,
}
use micros.Disk.Paths.{is_under, join, clean, split_slash, path_eq, parent, base_name}
use micros.Storage.Layout.{
  data_path, meta_path, data_dir, meta_dir, ec_shard_dir, ec_shard_path, clean_empty_dirs,
  clean_from, is_dir_empty, no_names, missing_is_empty,
}
use micros.Storage.Transactions.{read_all, check_size, as_bytes, read_meta, as_meta}
use micros.Storage.Objects.{get_object_meta, get_object, update_object_meta, remove_replica_data}
use micros.Storage.Shards.{put_ec_shard, get_ec_shard}
use micros.Peers.{no_answer, Fate, call, check_status, answer_of}
use micros.Peers.Shards.{
  fetch, handle_ec_meta, handle_ec_shard, send_ec_shard, copy_out, written, handle_ec_put_shard,
  handle_ec_remove_replica, get_remote_meta, get_remote_shard, put_remote_shard,
  remove_remote_replica,
}
use micros.Cluster.Static.{Manager, alive_followers, known_followers, ready_of, known_of}
use micros.Replication.{World, set_remote}
use micros.Erasure.{
  Links, give, fail, renamed, locally, asking, telling, ◌>>=◌, put_at, meta_at, shard_at, remove_at,
  insufficient_shards, not_pushed,
}
use micros.Erasure.Convert.{
  first_size, ec_meta, distribute, first_error, remove_replicas, remove_replica_from_all_nodes,
  reclaim, ask_alive_followers, encoded, spread, convert_to_ec,
}
use micros.Erasure.Gather.{
  counts, noted, locate_among, locate, slot_of, fetch_slot, enough_downloads, download, gather,
  ask_locations, rebuilt, read_coded, read_ec_object,
}
use micros.Erasure.Repair.{
  push_shard, push_missing, redistribute, repair_missing, repair_coded, repair_ec_object,
}
use micros.Erasure.Shares.{Coding, Shares, Whole, IsApart, info_file, shard_file, whole_file}
use micros.Erasure.Nodes.{Intact}
use micros.Erasure.Answers.{IsUncut}
use micros.Erasure.Read.{IsEncoded, read_ec_object-Intact}
use micros.Erasure.Converted.{convert_to_ec-Intact}
use micros.Erasure.Placed.{Placed, Distinct}
use micros.Erasure.Delivered.{convert_to_ec-Placed}
use micros.Erasure.Repaired.{repair_ec_object-Intact}

abbrev coding : Coding
coding = record {
  codec = pair;
  bucket = codes "b";
  key = codes "k";
  bytes = object;
  shards = object ∷ object ∷ [];
}

abbrev links : Links
links = record { fate = λ r a. Fate.delivered; arrival = λ nodes. nodes; copied = λ a i. none }

abbrev info : ObjectMeta
info = record empty_meta { content_length = 3 }

abbrev replica : Disk
replica = record {
  nodes =
      (codes "data" ∷ [], dir)
      ∷ (codes "data" ∷ codes "b" ∷ [], dir)
      ∷ (codes "data" ∷ codes "b" ∷ codes "k" ∷ [], file (bytes object))
      ∷ (codes "meta" ∷ codes "b" ∷ [], dir)
      ∷ (codes "meta" ∷ codes "b" ∷ codes "k.json" ∷ [], file (meta_json info))
      ∷ [];
  faults = [];
}

abbrev members : Manager
members = record {
  local_node_id = codes "l";
  static_nodes = [];
  force_leader = [];
  max_failures = 3;
  nodes_state =
      (
        codes "f",
        record {
          node = record {
            id = codes "f";
            internal_address = codes "f:1";
            role = [];
            status = status_ready;
            last_seen = 0;
            objects_count = 0;
            storage_used = 0;
            uptime_seconds = 0;
          };
          failure_count = 0;
        },
      )
      ∷ [];
  local_status = status_ready;
}

abbrev before : World
before = record { local = replica; remote = λ a. replica; members = members }

is_encoded : IsEncoded coding
is_encoded = record {
  laws = mirror-IsReedSolomon;
  some_data = omega arith;
  not_empty = omega arith;
  made = encode_object;
}

is_apart : IsApart coding
unfolding join clean split_slash path_eq str_eq ec_shard_path ec_shard_dir meta_path meta_dir itoa
    data_path data_dir
is_apart = record {
  info_shard = λ i h.
      first_two (λ j. path_eq (info_file coding) (shard_file coding j) ≡ false) refl refl i h;
  shard_shard = same;
  whole_info = refl;
  whole_shard = λ i h.
      first_two (λ j. path_eq (whole_file coding) (shard_file coding j) ≡ false) refl refl i h;
}
  where
    first_two : (P : ℕ → Type 0) → P 0 → P 1 → (i : ℕ) → i < 2 → P i
    first_two P p q zero h = p
    first_two P p q (suc zero) h = q
    first_two P p q (suc (suc i)) h = absurd (omega arith)

    same :
        (i j : ℕ)
        → i < 2
        → j < 2
        → path_eq (shard_file coding i) (shard_file coding j) ≡ true
        → i ≡ j
    same zero zero p q h = refl
    same zero (suc zero) p q h = cc
    same (suc zero) zero p q h = cc
    same (suc zero) (suc zero) p q h = refl
    same (suc (suc i)) j p q h = absurd (omega arith)
    same i (suc (suc j)) p q h = absurd (omega arith)

replica_there :
    (file_at replica (info_file coding) ≡ some (meta_json info))
    × (file_at replica (whole_file coding) ≡ some (bytes object))
    × (is_ec info ≡ false)
unfolding file_at node_at lookup join clean split_slash path_eq str_eq meta_path meta_dir data_path
    data_dir is_ec
replica_there = (refl, refl, refl)

before-Intact : Intact coding before
before-Intact = record { leader = (shares, whole); followers = λ a. shares }
  where
    shares : Shares coding replica
    shares = record {
      share = λ m found coded.
          let same : info ≡ m = cc (replica_there.0, found) in
          absurd (cc (coded, replica_there.2, ap is_ec same));
    }

    whole : Whole coding replica
    whole = record { replica = λ m found plain. replica_there.1 }

abbrev converted : World
converted = (convert_to_ec links (codes "b") (codes "k") pair before).1

abbrev coded_info : ObjectMeta
coded_info = record (ec_meta pair 3 info) { ec_chunk_index = 0 }

-- The follower's shard is lost: every directory that is needed is there, and no file.
abbrev emptied : Disk
emptied = record {
  nodes = (codes "meta" ∷ codes "b" ∷ [], dir) ∷ (codes "ecdata" ∷ codes "b" ∷ [], dir) ∷ [];
  faults = [];
}

abbrev degraded : World
degraded = record converted { remote = λ a. emptied }

-- Two data shards and no parity.
abbrev halves : Codec
halves = record {
  k = 2;
  m = 0;
  enc = record { encode = λ ss. some ss; reconstruct = λ slots. none; verify = λ ss. some true };
}

-- The follower cannot be reached.
abbrev broken_links : Links
broken_links = record { fate = λ r a. Fate.lost; arrival = λ nodes. nodes; copied = λ a i. none }

abbrev half_way : World
half_way = (convert_to_ec broken_links (codes "b") (codes "k") halves before).1

-- A conversion and a read; a repair, which writes the missing shard's index over the leader's; and a
-- conversion that fails at the follower, after which the leader has an object that it cannot read.
runs :
    ((convert_to_ec links (codes "b") (codes "k") pair before).0 ≡ ok tt)
    × ((read_ec_object links (codes "b") (codes "k") pair converted).0 ≡ ok (object, coded_info))
    × ((locate links (codes "b") (codes "k") 1 1 degraded).0 ≡ (0, []) ∷ [])
    × ((repair_ec_object links (codes "b") (codes "k") pair degraded).0 ≡ ok tt)
    × ((locate links
          (codes "b")
          (codes "k")
          1
          1
          (repair_ec_object links (codes "b") (codes "k") pair degraded).1).0
        ≡ (1, []) ∷ [])
    × ((convert_to_ec broken_links (codes "b") (codes "k") halves before).0
        ≡ err (not_pushed 1 (codes "f:1") no_answer))
    × ((read_ec_object links (codes "b") (codes "k") halves half_way).0
        ≡ err (insufficient_shards 1 2))
unfolding first_size ec_meta distribute first_error remove_replicas remove_replica_from_all_nodes
    reclaim ask_alive_followers encoded spread convert_to_ec counts noted locate_among locate
    slot_of fetch_slot enough_downloads download gather ask_locations rebuilt read_coded
    read_ec_object push_shard push_missing redistribute repair_missing repair_coded repair_ec_object
    give fail renamed locally asking telling ◌>>=◌ Disk.◌>>=◌ put_at meta_at shard_at remove_at
    set_remote alive_followers known_followers ready_of known_of fetch handle_ec_meta
    handle_ec_shard send_ec_shard copy_out written handle_ec_put_shard handle_ec_remove_replica
    get_remote_meta get_remote_shard put_remote_shard remove_remote_replica call check_status
    answer_of put_ec_shard get_ec_shard get_object_meta get_object update_object_meta
    remove_replica_data read_all check_size as_bytes read_meta as_meta data_path meta_path data_dir
    meta_dir ec_shard_dir ec_shard_path clean_empty_dirs clean_from is_dir_empty no_names
    missing_is_empty is_under join clean split_slash path_eq parent base_name file_at node_at io
    mkdir_all make_dirs get_node pure put_node write_file raise stat sync_dir read_file recover
    read_dir list_entries entries_of remove_if_there remove del_node children_exist has_child encode
    n_shards padded_size shard_size reconstruct trim_data add_parity copy_bytes write_byte
    mirror_encode mirror_reconstruct lookup insert erase str_eq itoa is_ec
runs = (refl, refl, refl, refl, refl, refl, refl)

distinct : Distinct ([] ∷ alive_followers members)
unfolding alive_followers ready_of str_eq
distinct = ((refl, tt), (tt, tt))

convert_to_ec-Intact_example : Intact coding converted
convert_to_ec-Intact_example =
    convert_to_ec-Intact coding links info before is_encoded is_apart replica_there.0
      replica_there.2 refl before-Intact

convert_to_ec-Placed_example :
    Placed coding
      (ec_meta pair 3 info)
      0
      (object ∷ object ∷ [])
      (take (n_shards pair) ([] ∷ alive_followers members))
      converted
convert_to_ec-Placed_example =
    convert_to_ec-Placed coding links info object (object ∷ []) before encode_object refl is_apart
      replica_there.0 replica_there.2 replica_there.1 distinct runs.0

converted-Intact : Intact coding converted
converted-Intact =
    convert_to_ec-Intact coding links info before is_encoded is_apart replica_there.0
      replica_there.2 refl before-Intact

uncut : IsUncut links
uncut = record { uncut = λ a i. refl }

read_ec_object-Intact_example : object ≡ object
read_ec_object-Intact_example =
    read_ec_object-Intact coding links converted object coded_info uncut is_encoded converted-Intact
      runs.1

repair_ec_object-Intact_example :
    Intact coding (repair_ec_object links (codes "b") (codes "k") pair converted).1
repair_ec_object-Intact_example =
    repair_ec_object-Intact coding links converted uncut is_encoded is_apart converted-Intact
