-- ===== src/Storage/Transactions.antt =====
-- The storage's side of two-phase commit. crc32 and md5 are a parameter, `Hashes`; what a reader
-- yields is its bytes, or the error that it ends with.
use micros.Base.{
  ℕ, Str, str_eq, ◌&&◌, ◌==◌, Option, none, some, List, [], Result, ok, err, if◌then◌else◌, length,
}
use micros.Domain.Object.{ObjectMeta, Transaction, empty_meta, op_put, op_delete}
use micros.Disk.{
  M, pure, raise, ignoring, wrap_error, ◌>>=◌, ◌>>◌, Error, bad_json, tx_mismatch, size_mismatch,
  bad_tx_log, bad_tx_meta, Content, tx_json, meta_json, bytes, io, mkdir_all, write_file, rename,
  remove_if_there, remove_all, read_file, sync_dir,
}
use micros.Disk.Paths.{FilePath, parent}
use micros.Storage.Layout.{
  data_dir, meta_dir, staging_dir, data_path, meta_path, tx_file, staged_data, staged_meta,
  clean_empty_dirs, delete_all_ec_shards,
}

-- hash/crc32 and the quoted hexadecimal md5.
pub record Hashes : Type 0 where
  pub crc32 : List ℕ → ℕ
  pub etag : List ℕ → Str

abbrev pub Reader : Type 0
Reader = Result Error (List ℕ)

-- io.Copy
unfoldable pub read_all : Reader → M (List ℕ)
read_all (ok bs) = pure bs
read_all (err e) = raise e

-- `if size >= 0 && written != size`; a negative size is `none`.
unfoldable pub check_size : Option ℕ → ℕ → M (Unit {0})
check_size none written = pure tt
check_size (some size) written =
    if written == size then pure tt else raise (size_mismatch size written)

unfoldable pub as_tx : Content → M Transaction
as_tx (tx_json tx) = pure tx
as_tx _ = raise bad_json

unfoldable pub as_meta : Content → M ObjectMeta
as_meta (meta_json m) = pure m
as_meta _ = raise bad_json

-- readJSON
unfoldable pub read_tx : FilePath → M Transaction
read_tx p = do c ← read_file p; as_tx c

unfoldable pub read_meta : FilePath → M ObjectMeta
read_meta p = do c ← read_file p; as_meta c

-- The fields that staging computes from the bytes.
unfoldable pub computed_meta : Hashes → ObjectMeta → List ℕ → ObjectMeta
computed_meta h meta bs = record meta {
  content_length = length bs;
  crc32 = h.crc32 bs;
  etag = if str_eq meta.etag [] then h.etag bs else meta.etag;
}

-- The PUT part of StageObject.
unfoldable pub stage_data : Hashes → FilePath → Reader → Option ℕ → ObjectMeta → M ObjectMeta
stage_data h stage reader size meta = do
  io
  bs ← read_all reader
  check_size size (length bs)
  write_file (staged_data stage) (bytes bs)
  write_file (staged_meta stage) (meta_json (computed_meta h meta bs))
  pure (computed_meta h meta bs)

unfoldable pub stage_object :
    Hashes → Str → Reader → Option ℕ → ObjectMeta → Transaction → M ObjectMeta
stage_object h tx_id reader size meta tx = do
  mkdir_all (staging_dir tx_id)
  write_file (tx_file (staging_dir tx_id)) (tx_json tx)
  meta' ←
      if str_eq tx.operation op_put
      then stage_data h (staging_dir tx_id) reader size meta
      else pure meta
  sync_dir (staging_dir tx_id)
  pure meta'

-- The PUT part of CommitTransaction.
unfoldable pub commit_put : FilePath → Str → Str → M ObjectMeta
commit_put stage bucket key = do
  meta ← wrap_error bad_tx_meta (read_meta (staged_meta stage))
  mkdir_all (parent (data_path bucket key))
  rename (staged_data stage) (data_path bucket key)
  sync_dir (parent (data_path bucket key))
  ignoring (delete_all_ec_shards bucket key) (mkdir_all (parent (meta_path bucket key)))
  rename (staged_meta stage) (meta_path bucket key)
  sync_dir (parent (meta_path bucket key))
  pure meta

-- Its DELETE part, which is also the body of DeleteObject.
unfoldable pub delete_files : Str → Str → M (Unit {0})
delete_files bucket key = do
  remove_if_there (data_path bucket key)
  remove_if_there (meta_path bucket key)
  ignoring (delete_all_ec_shards bucket key) (do
    clean_empty_dirs (parent (data_path bucket key)) (data_dir bucket)
    clean_empty_dirs (parent (meta_path bucket key)) (meta_dir bucket))

unfoldable pub commit_operation : Transaction → FilePath → Str → Str → M ObjectMeta
commit_operation tx stage bucket key =
    if str_eq tx.operation op_put
    then commit_put stage bucket key
    else (if str_eq tx.operation op_delete
        then (do delete_files bucket key; pure empty_meta)
        else pure empty_meta)

unfoldable pub commit_transaction : Str → Str → Str → M ObjectMeta
commit_transaction tx_id bucket key = do
  tx ← wrap_error bad_tx_log (read_tx (tx_file (staging_dir tx_id)))
  if str_eq tx.bucket bucket && str_eq tx.key key
      then (do
        meta ← commit_operation tx (staging_dir tx_id) bucket key
        remove_all (staging_dir tx_id)
        pure meta)
      else raise tx_mismatch

unfoldable pub abort_transaction : Str → M (Unit {0})
abort_transaction tx_id = remove_all (staging_dir tx_id)

unfoldable pub get_transaction : Str → M Transaction
get_transaction tx_id = read_tx (tx_file (staging_dir tx_id))

unfoldable pub as_bytes : Content → M (List ℕ)
as_bytes (bytes bs) = pure bs
as_bytes _ = raise bad_json

unfoldable pub get_staged_object : Str → M (List ℕ)
get_staged_object tx_id = do c ← read_file (staged_data (staging_dir tx_id)); as_bytes c
