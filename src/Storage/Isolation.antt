-- ===== src/Storage/Isolation.antt =====
-- What the methods of a transaction leave alone, whatever calls of the operating system fail.
use micros.Base.{
  ℕ, Str, codes, Bool, true, false, ◌||◌, ◌&&◌, ◌≡◌, Option, [], ◌∷◌, ◌++◌, ok, err, arith,
  has_prefix,
}
use micros.Domain.Object.{ObjectMeta, Transaction}
use micros.Disk.{Disk, Content, file_at, remove_all}
use micros.Disk.Frame.{Frame, Frame-raise, Frame-pure}
use micros.Disk.Calls.{frame_rules, Frame-remove_all}
use micros.Disk.Paths.{
  FilePath, path_eq, path_eq_iff, is_under, is_under_append, parent, parent_snoc, base_name,
  base_name_snoc,
}
use micros.Storage.Layout.{staging_dir, delete_all_ec_shards, data_path, meta_path, ec_shard_dir}
use micros.Storage.Frames.{Frame-clean_empty_dirs, Frame-delete_all_ec_shards}
use micros.Storage.Transactions.{
  Hashes, Reader, stage_object, stage_data, check_size, read_all, commit_transaction,
  commit_operation, commit_put, delete_files, abort_transaction, read_tx, read_meta, as_tx, as_meta,
  as_bytes, get_staged_object,
}

module _ {T : FilePath → Bool} where
  pub Frame-read_all : (r : Reader) → Frame T (read_all r)
  unfolding read_all
  Frame-read_all (ok bs) = Frame-pure bs
  Frame-read_all (err e) = Frame-raise e

  pub Frame-check_size : (size : Option ℕ) (written : ℕ) → Frame T (check_size size written)
  unfolding check_size
  Frame-check_size Option.none written = Frame-pure tt
  Frame-check_size (Option.some size) written = search frame_rules

  Frame-as_tx : (c : Content) → Frame T (as_tx c)
  unfolding as_tx
  Frame-as_tx (Content.tx_json tx) = Frame-pure tx
  Frame-as_tx _ = search frame_rules

  Frame-as_meta : (c : Content) → Frame T (as_meta c)
  unfolding as_meta
  Frame-as_meta (Content.meta_json m) = Frame-pure m
  Frame-as_meta _ = search frame_rules

  pub Frame-as_bytes : (c : Content) → Frame T (as_bytes c)
  unfolding as_bytes
  Frame-as_bytes (Content.bytes bs) = Frame-pure bs
  Frame-as_bytes _ = search frame_rules

  Frame-read_tx : (p : FilePath) → Frame T (read_tx p)
  unfolding read_tx
  Frame-read_tx p = search (frame_rules, Frame-as_tx)

  pub Frame-read_meta : (p : FilePath) → Frame T (read_meta p)
  unfolding read_meta
  Frame-read_meta p = search (frame_rules, Frame-as_meta)

pub Frame-get_staged_object :
    {T : FilePath → Bool} (tx_id : Str) → Frame T (get_staged_object tx_id)
unfolding get_staged_object
Frame-get_staged_object tx_id = search (frame_rules, Frame-as_bytes)

module _ (h : Hashes) (stage : FilePath) where
  abbrev here : FilePath → Bool
  here = is_under stage

  Frame-stage_data :
      (r : Reader) (size : Option ℕ) (meta : ObjectMeta)
      → Frame here (stage_data h stage r size meta)
  unfolding stage_data
  Frame-stage_data r size meta =
      search
        (
          frame_rules,
          Frame-read_all,
          Frame-check_size,
          is_under_append stage (codes "data" ∷ []),
          is_under_append stage (codes "meta.json" ∷ []),
        )
        depth 12

pub Frame-stage_object :
    (h : Hashes) (tx_id : Str) (r : Reader) (size : Option ℕ) (meta : ObjectMeta) (tx : Transaction)
    → Frame (is_under (staging_dir tx_id)) (stage_object h tx_id r size meta tx)
unfolding stage_object
Frame-stage_object h tx_id r size meta tx =
    search
      (frame_rules, Frame-stage_data, is_under_append (staging_dir tx_id) (codes "tx.json" ∷ []))

-- Staging an object's PUT or DELETE changes no file outside the transaction's staging directory, at
-- whatever point it fails.
pub stage_object-frame :
    (h : Hashes) (tx_id : Str) (r : Reader) (size : Option ℕ) (meta : ObjectMeta) (tx : Transaction)
    (d : Disk) (p : FilePath)
    → is_under (staging_dir tx_id) p ≡ false
    → file_at (stage_object h tx_id r size meta tx d).1 p ≡ file_at d p
stage_object-frame h tx_id r size meta tx d p = (Frame-stage_object h tx_id r size meta tx).at d p

pub Frame-abort_transaction :
    (tx_id : Str) → Frame (is_under (staging_dir tx_id)) (abort_transaction tx_id)
unfolding abort_transaction
Frame-abort_transaction tx_id = Frame-remove_all (staging_dir tx_id) (λ q u. u)

-- The files that belong to an object, to its transaction, or to a name with its shard prefix.
abbrev pub is_shard_of : Str → Str → FilePath → Bool
is_shard_of bucket key p =
    path_eq (parent p) (ec_shard_dir bucket) && has_prefix (base_name p) (key ++ codes ".shard.")

unfoldable pub object_files : Str → Str → FilePath → Bool
object_files bucket key p =
    path_eq (data_path bucket key) p || path_eq (meta_path bucket key) p || is_shard_of bucket key p

unfoldable pub commit_files : Str → Str → Str → FilePath → Bool
unfolding object_files
commit_files tx_id bucket key p = is_under (staging_dir tx_id) p || object_files bucket key p

module _ (tx_id bucket key : Str) where
  abbrev touched : FilePath → Bool
  touched = commit_files tx_id bucket key

  staged_touched : (p : FilePath) → is_under (staging_dir tx_id) p ≡ true → touched p ≡ true
  unfolding commit_files
  staged_touched p h = ground arith

  data_touched : touched (data_path bucket key) ≡ true
  unfolding commit_files object_files
  data_touched = ground (arith, path_eq_iff (data_path bucket key) (data_path bucket key))

  meta_touched : touched (meta_path bucket key) ≡ true
  unfolding commit_files object_files
  meta_touched = ground (arith, path_eq_iff (meta_path bucket key) (meta_path bucket key))

  shard_touched :
      (name : Str)
      → has_prefix name (key ++ codes ".shard.") ≡ true
      → touched (ec_shard_dir bucket ++ name ∷ []) ≡ true
  unfolding commit_files object_files
  shard_touched name h = ground (
    arith,
    parent_snoc (ec_shard_dir bucket) name,
    base_name_snoc (ec_shard_dir bucket) name,
    path_eq_iff (parent (ec_shard_dir bucket ++ name ∷ [])) (ec_shard_dir bucket),
  )

  Frame-shards : Frame touched (delete_all_ec_shards bucket key)
  Frame-shards = Frame-delete_all_ec_shards {T = touched} bucket key shard_touched

  Frame-unstage : Frame touched (remove_all (staging_dir tx_id))
  Frame-unstage = Frame-remove_all {T = touched} (staging_dir tx_id) staged_touched

  Frame-commit_put : Frame touched (commit_put (staging_dir tx_id) bucket key)
  unfolding commit_put
  Frame-commit_put =
      search
        (
          frame_rules,
          Frame-read_meta,
          data_touched,
          meta_touched,
          Frame-shards,
          staged_touched _ (is_under_append (staging_dir tx_id) (codes "data" ∷ [])),
          staged_touched _ (is_under_append (staging_dir tx_id) (codes "meta.json" ∷ [])),
        )
        depth 20

  pub Frame-delete_files : Frame touched (delete_files bucket key)
  unfolding delete_files
  Frame-delete_files =
      search (frame_rules, data_touched, meta_touched, Frame-shards, Frame-clean_empty_dirs) depth
        20

  Frame-commit_operation :
      (tx : Transaction) → Frame touched (commit_operation tx (staging_dir tx_id) bucket key)
  unfolding commit_operation
  Frame-commit_operation tx = search (frame_rules, Frame-commit_put, Frame-delete_files) depth 8

  pub Frame-commit_transaction : Frame touched (commit_transaction tx_id bucket key)
  unfolding commit_transaction
  Frame-commit_transaction =
      search (frame_rules, Frame-read_tx, Frame-commit_operation, Frame-unstage) depth 14

-- Committing a transaction on an object changes only the object's data and metadata, the files of
-- the transaction's staging directory, and the shard files whose name has the object's shard
-- prefix: every other file is as before, whatever the transaction holds and whichever calls fail.
pub commit_transaction-frame :
    (tx_id bucket key : Str) (d : Disk) (p : FilePath)
    → commit_files tx_id bucket key p ≡ false
    → file_at (commit_transaction tx_id bucket key d).1 p ≡ file_at d p
commit_transaction-frame tx_id bucket key d p = (Frame-commit_transaction tx_id bucket key).at d p
