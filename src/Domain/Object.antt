-- ===== src/Domain/Object.antt =====
-- internal/domain/s3/object.go. Times and durations are nanoseconds, sizes are numbers, and what
-- the source keeps in a string (states, operations, storage modes) is a string here too.
use micros.Base.{ℕ, Str, codes, str_eq, if◌then◌else◌, Bool, ◌||◌, List, Result, ok, err, []}

-- TxPrepared, TxCommitted, TxAborted
abbrev pub tx_prepared : Str
tx_prepared = codes "PREPARED"

abbrev pub tx_committed : Str
tx_committed = codes "COMMITTED"

abbrev pub tx_aborted : Str
tx_aborted = codes "ABORTED"

-- OpPut, OpDelete
abbrev pub op_put : Str
op_put = codes "PUT"

abbrev pub op_delete : Str
op_delete = codes "DELETE"

abbrev pub storage_mode_replica : Str
storage_mode_replica = codes "REPLICA"

abbrev pub storage_mode_ec : Str
storage_mode_ec = codes "EC"

pub record EcParams : Type 0 where
  pub k : ℕ
  pub m : ℕ
  pub shard_size : ℕ

pub record ObjectMeta : Type 0 where
  pub content_type : Str
  pub content_length : ℕ
  pub etag : Str
  pub crc32 : ℕ
  pub created_at : ℕ
  pub modified_at : ℕ
  pub user_metadata : List (Str × Str)
  pub storage_mode : Str
  pub ec_params : EcParams
  pub ec_chunk_index : ℕ

-- `s3.ObjectMeta{}`
abbrev pub empty_meta : ObjectMeta
empty_meta = record {
  content_type = [];
  content_length = 0;
  etag = [];
  crc32 = 0;
  created_at = 0;
  modified_at = 0;
  user_metadata = [];
  storage_mode = [];
  ec_params = record { k = 0; m = 0; shard_size = 0 };
  ec_chunk_index = 0;
}

unfoldable pub is_ec : ObjectMeta → Bool
is_ec m = str_eq m.storage_mode storage_mode_ec

pub record Transaction : Type 0 where
  pub id : Str
  pub operation : Str
  pub bucket : Str
  pub key : Str
  pub state : Str
  pub created_at : ℕ

pub record MultipartUpload : Type 0 where
  pub upload_id : Str
  pub bucket : Str
  pub key : Str
  pub initiated : ℕ

pub record UploadPart : Type 0 where
  pub part_number : ℕ
  pub size : ℕ
  pub etag : Str
  pub crc32 : ℕ
  pub modified_at : ℕ

pub record CompletePart : Type 0 where
  pub part_number : ℕ
  pub etag : Str

pub data TransitionError : Type 0 where
  cannot_change_state invalid_transition : TransitionError

-- `Transaction.TransitionTo`; the receiver's new value in place of the mutation.
unfoldable pub transition_to : Transaction → Str → Result TransitionError Transaction
transition_to tx new_state =
    if str_eq tx.state tx_prepared
    then (if str_eq new_state tx_committed || str_eq new_state tx_aborted
        then ok (record tx { state = new_state })
        else err invalid_transition)
    else (if str_eq tx.state tx_committed || str_eq tx.state tx_aborted
        then (if str_eq tx.state new_state then ok tx else err cannot_change_state)
        else err invalid_transition)
