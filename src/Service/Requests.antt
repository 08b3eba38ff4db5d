-- ===== src/Service/Requests.antt =====
-- The methods of the service as the router calls them: PutObject and DeleteObject from the admission on,
-- reads, copies and the small ones. Both reads of the clock in a write are one.
pub mod Copies
pub mod Counting
mod Examples
use micros.Base.{
  ℕ, Str, codes, str_eq, ◌==◌, Bool, true, false, ◌&&◌, ◌||◌, not, Option, none, some, List, [],
  Result, ok, err, if◌then◌else◌,
}
use micros.Domain.Object.{ObjectMeta, empty_meta, is_ec}
use micros.Domain.Node.{status_ready}
use micros.Disk.{M, Error, ◌>>=◌, ◌>>◌}
use micros.Storage.Transactions.{Reader}
use micros.Storage.Objects.{get_object_meta, get_object}
use micros.Storage.Objects.Listing.{Query, Page, list_objects}
use micros.Storage.Uploads.{create_multipart_upload}
use micros.Cluster.Static.{Manager, is_leader}
use micros.Replication.{World, Network}
use micros.Sync.Follower.{EcReader}
use micros.Service.Leases.{Gate, Admission, admitted, refused, admit_write, finish_write}
use micros.Service.Writes.{
  Failure, storage_error, do_local, ensure_bucket, put_transaction, delete_transaction,
}
use micros.Service.Syncs.{State}

-- ShouldProxyToLeader, on a node with a static manager.
unfoldable pub should_proxy_to_leader : Str → Bool → Manager → Bool
should_proxy_to_leader method allow_local_reads m =
    not (is_leader m)
    && not (
        allow_local_reads
        && str_eq m.local_status status_ready
        && (str_eq method (codes "GET") || str_eq method (codes "HEAD")))

-- What an admitted or a refused write does to the gate and the nodes.
unfoldable pub enter :
    (World → Result Failure ObjectMeta × World)
    → Admission × Gate
    → World
    → Result Failure ObjectMeta × State
enter write (refused f, g) w = (err f, record { gate = g; world = w })
enter write (admitted, g) w =
    let (r, w') = write w in (r, record { gate = finish_write g; world = w' })

unfoldable pub after_ensure :
    (World → Result Failure ObjectMeta × World)
    → ℕ
    → Gate
    → Result Error (Unit {0}) × World
    → Result Failure ObjectMeta × State
unfolding enter
after_ensure write now g (err e, w) = (err (storage_error e), record { gate = g; world = w })
after_ensure write now g (ok u, w) = enter write (admit_write now g) w

unfoldable pub put_object :
    Network
    → Str
    → ℕ
    → Str
    → Str
    → Reader
    → Option ℕ
    → ObjectMeta
    → State
    → Result Failure ObjectMeta × State
unfolding after_ensure
put_object net tx_id now bucket key reader size meta st =
    after_ensure (put_transaction net tx_id now bucket key reader size meta) now st.gate
      (do_local (ensure_bucket bucket) st.world)

unfoldable pub delete_object :
    Network → Str → ℕ → Str → Str → State → Result Failure ObjectMeta × State
unfolding enter
delete_object net tx_id now bucket key st =
    enter (delete_transaction net tx_id now bucket key) (admit_write now st.gate) st.world

unfoldable pub read_as : Option EcReader → Str → Str → ObjectMeta → M (List ℕ × ObjectMeta)
read_as none bucket key meta = get_object bucket key
read_as (some reader) bucket key meta =
    if is_ec meta then reader bucket key else get_object bucket key

-- GetObject of the service.
unfoldable pub read_object : Option EcReader → Str → Str → M (List ℕ × ObjectMeta)
unfolding read_as
read_object reader bucket key = do meta ← get_object_meta bucket key; read_as reader bucket key meta

-- The metadata that a copy is put with.
abbrev pub copied_meta : ℕ → ObjectMeta → ObjectMeta
copied_meta now meta = record empty_meta {
  content_type = meta.content_type;
  user_metadata = meta.user_metadata;
  created_at = now;
  modified_at = now;
}

unfoldable pub after_read :
    Network
    → Str
    → ℕ
    → Str
    → Str
    → Gate
    → Result Error (List ℕ × ObjectMeta) × World
    → Result Failure ObjectMeta × State
unfolding put_object
after_read net tx_id now bucket key g (err e, w) =
    (err (storage_error e), record { gate = g; world = w })
after_read net tx_id now bucket key g (ok (bs, meta), w) =
    put_object net tx_id now bucket key (ok bs) (some meta.content_length) (copied_meta now meta)
      (record { gate = g; world = w })

unfoldable pub copy_object :
    Network
    → Option EcReader
    → Str
    → ℕ
    → Str × Str
    → Str × Str
    → State
    → Result Failure ObjectMeta × State
unfolding after_read read_object
copy_object net reader tx_id now src dst st =
    after_read net tx_id now dst.0 dst.1 st.gate
      (do_local (read_object reader src.0 src.1) st.world)

-- ListObjectsV2 of the service; a negative number of keys is 0 here.
unfoldable pub list_objects_v2 : Query → M Page
list_objects_v2 q =
    list_objects (record q { max_keys = if q.max_keys == 0 then 1000 else q.max_keys })

-- CreateMultipartUpload of the service.
unfoldable pub create_upload : Str → Str → Str → ℕ → M Str
create_upload upload_id bucket key now = do
  ensure_bucket bucket
  create_multipart_upload upload_id bucket key now
