-- ===== src/Storage/Examples.antt =====
-- A storage with one bucket: an object is staged and committed, another file is left alone.
use micros.Base.{
  codes, false, ◌≡◌, refl, none, some, [], ◌∷◌, ok, err, str_eq, length, has_prefix, if◌then◌else◌,
}
use micros.Base.Assoc.{lookup, insert, erase}
use micros.Domain.Object.{ObjectMeta, Transaction, empty_meta, op_put, tx_prepared}
use micros.Disk.{
  Error, Disk, file_at, pure, ◌>>=◌, io, mkdir_all, make_dirs, write_file, get_node, put_node,
  node_at, bytes, meta_json, tx_json, dir, file, sync_dir, stat, raise, wrap_error, read_file,
  rename, del_node, ignoring, recover, read_dir, list_entries, entries_of, remove_all, drop_tree,
  without_tree,
}
use micros.Disk.Paths.{FilePath, is_under, path_eq, join, clean, split_slash, parent, base_name}
use micros.Storage.Layout.{
  staging_dir, data_path, meta_path, tx_file, staged_data, staged_meta, data_dir, meta_dir,
  ec_shard_dir, delete_all_ec_shards, remove_shards, no_shards, clean_empty_dirs, clean_from,
}
use micros.Storage.Transactions.{
  Hashes, stage_object, stage_data, read_all, check_size, computed_meta, commit_operation,
  commit_put, read_tx, read_meta, as_tx, as_meta, commit_transaction, abort_transaction,
}
use micros.Storage.Aborted.{commit_transaction-abort_transaction}
use micros.Storage.Isolation.{
  commit_files, object_files, stage_object-frame, commit_transaction-frame,
}
use micros.Disk.Post.{Holds}
use micros.Storage.Staging.{staged_files, stage_object-put}
use micros.Storage.Commit.{AreApart, commit_transaction-put}

abbrev hashes : Hashes
hashes = record { crc32 = length; etag = λ bs. codes "etag" }

abbrev put : Transaction
put = record {
  id = codes "t";
  operation = op_put;
  bucket = codes "b";
  key = codes "k";
  state = tx_prepared;
  created_at = 1;
}

abbrev meta : ObjectMeta
meta = record empty_meta { content_length = 2; crc32 = 2; etag = codes "etag" }

abbrev other_file : FilePath
other_file = codes "data" ∷ codes "b" ∷ codes "other" ∷ []

-- A started storage with the bucket and another object in it.
abbrev started : Disk
started = record {
  nodes =
      (codes "data" ∷ [], dir)
      ∷ (codes "meta" ∷ [], dir)
      ∷ (codes "staging" ∷ [], dir)
      ∷ (codes "ecdata" ∷ [], dir)
      ∷ (codes "data" ∷ codes "b" ∷ [], dir)
      ∷ (codes "meta" ∷ codes "b" ∷ [], dir)
      ∷ (other_file, file (bytes (5 ∷ [])))
      ∷ [];
  faults = [];
}

abbrev staged_disk : Disk
staged_disk = (stage_object hashes (codes "t") (ok (6 ∷ 7 ∷ [])) (some 2) empty_meta put started).1

apart : AreApart (staging_dir (codes "t")) (codes "b") (codes "k")
unfolding staging_dir data_path meta_path data_dir meta_dir ec_shard_dir join clean split_slash
    is_under path_eq str_eq parent base_name has_prefix
apart = record {
  data_staged = refl;
  meta_staged = refl;
  data_meta = refl;
  data_shard = refl;
  meta_shard = refl;
  staged_shard = refl;
}

other_outside : is_under (staging_dir (codes "t")) other_file ≡ false
unfolding staging_dir join clean split_slash is_under str_eq
other_outside = refl

stage_object-frame_example : file_at staged_disk other_file ≡ file_at started other_file
stage_object-frame_example =
    stage_object-frame hashes (codes "t") (ok (6 ∷ 7 ∷ [])) (some 2) empty_meta put started
      other_file other_outside

stage_ok :
    (stage_object hashes (codes "t") (ok (6 ∷ 7 ∷ [])) (some 2) empty_meta put started).0 ≡ ok meta
unfolding file_at node_at stage_object staging_dir join clean split_slash is_under str_eq lookup
    ◌>>=◌ mkdir_all io make_dirs get_node path_eq pure put_node write_file insert parent stage_data
    read_all check_size sync_dir stat raise computed_meta
stage_ok = refl

stage_object-put_example :
    (meta ≡ computed_meta hashes empty_meta (6 ∷ 7 ∷ []))
    × Holds
        (staged_files
          (staging_dir (codes "t"))
          put
          (computed_meta hashes empty_meta (6 ∷ 7 ∷ []))
          (6 ∷ 7 ∷ []))
        staged_disk
stage_object-put_example =
    stage_object-put hashes (codes "t") (6 ∷ 7 ∷ []) (some 2) empty_meta meta put started refl
      stage_ok

staged_ok :
    (file_at staged_disk (tx_file (staging_dir (codes "t"))) ≡ some (tx_json put))
    × (file_at staged_disk (staged_meta (staging_dir (codes "t"))) ≡ some (meta_json meta))
    × (file_at staged_disk (staged_data (staging_dir (codes "t"))) ≡ some (bytes (6 ∷ 7 ∷ [])))
unfolding file_at node_at stage_object staging_dir join clean split_slash is_under str_eq lookup
    ◌>>=◌ mkdir_all io make_dirs get_node path_eq pure put_node write_file insert parent stage_data
    read_all check_size sync_dir stat raise computed_meta
staged_ok = (refl, refl, refl)

commit_ok : (commit_transaction (codes "t") (codes "b") (codes "k") staged_disk).0 ≡ ok meta
unfolding file_at node_at stage_object staging_dir join clean split_slash is_under str_eq lookup
    ◌>>=◌ mkdir_all io make_dirs get_node path_eq pure put_node write_file insert parent stage_data
    read_all check_size sync_dir stat raise computed_meta commit_transaction commit_operation
    commit_put wrap_error read_tx read_meta as_tx as_meta read_file rename del_node erase data_path
    meta_path data_dir meta_dir ec_shard_dir ignoring delete_all_ec_shards recover read_dir
    list_entries entries_of remove_shards no_shards clean_empty_dirs clean_from remove_all drop_tree
    without_tree has_prefix
commit_ok = refl

commit_transaction-put_example :
    (meta ≡ meta)
    × (file_at
          (commit_transaction (codes "t") (codes "b") (codes "k") staged_disk).1
          (data_path (codes "b") (codes "k"))
        ≡ some (bytes (6 ∷ 7 ∷ [])))
    × (file_at
          (commit_transaction (codes "t") (codes "b") (codes "k") staged_disk).1
          (meta_path (codes "b") (codes "k"))
        ≡ some (meta_json meta))
commit_transaction-put_example =
    commit_transaction-put (codes "t") (codes "b") (codes "k") put (bytes (6 ∷ 7 ∷ [])) meta
      staged_disk apart refl staged_ok.0 staged_ok.1 staged_ok.2 meta commit_ok

other_unrelated : commit_files (codes "t") (codes "b") (codes "k") other_file ≡ false
unfolding commit_files object_files staging_dir data_path meta_path data_dir meta_dir ec_shard_dir
    join clean split_slash is_under path_eq str_eq parent base_name has_prefix
other_unrelated = refl

commit_transaction-frame_example :
    file_at (commit_transaction (codes "t") (codes "b") (codes "k") staged_disk).1 other_file
    ≡ file_at staged_disk other_file
commit_transaction-frame_example =
    commit_transaction-frame (codes "t") (codes "b") (codes "k") staged_disk other_file
      other_unrelated

abort_ok : (abort_transaction (codes "t") staged_disk).0 ≡ ok tt
unfolding file_at node_at stage_object staging_dir join clean split_slash is_under str_eq lookup
    ◌>>=◌ mkdir_all io make_dirs get_node path_eq pure put_node write_file insert parent stage_data
    read_all check_size sync_dir stat raise computed_meta abort_transaction remove_all drop_tree
abort_ok = refl

commit_transaction-abort_transaction_example :
    (e : Error) × ((commit_transaction
        (codes "t")
        (codes "b")
        (codes "k")
        (abort_transaction (codes "t") staged_disk).1).0
      ≡ err e)
    × (file_at
          (commit_transaction
            (codes "t")
            (codes "b")
            (codes "k")
            (abort_transaction (codes "t") staged_disk).1).1
          (staged_data (staging_dir (codes "t")))
        ≡ (if is_under (staging_dir (codes "t")) (staged_data (staging_dir (codes "t")))
            then none
            else file_at staged_disk (staged_data (staging_dir (codes "t")))))
commit_transaction-abort_transaction_example =
    commit_transaction-abort_transaction (codes "t") (codes "b") (codes "k") staged_disk
      (staged_data (staging_dir (codes "t"))) abort_ok
