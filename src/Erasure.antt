-- ===== src/Erasure.antt =====
-- internal/replication/ec/manager.go: the manager's calls of one node, which is the leader itself
-- or a follower that it asks over the internal API. The logger is left out, and so are the time
-- limits of the calls: what becomes of a call is its `Fate`.
pub mod Convert
pub mod Gather
pub mod Repair
pub mod Shares
pub mod Puts
pub mod Nodes
pub mod Removals
pub mod Answers
pub mod Located
pub mod Runs
pub mod Downloaded
pub mod Read
pub mod Distributed
pub mod Converted
pub mod Repaired
pub mod Placed
pub mod Delivered
mod Examples
use micros.Base.{
  ℕ, Str, str_eq, Option, none, some, List, [], length, Result, ok, err, if◌then◌else◌,
}
use micros.Domain.Object.{ObjectMeta}
use micros.Codec.{CodecError}
use micros.Disk.{M, Disk, Error}
use micros.Storage.Objects.{get_object_meta, remove_replica_data}
use micros.Storage.Shards.{put_ec_shard, get_ec_shard}
use micros.Peers.{Fate, CallError}
use micros.Peers.Shards.{get_remote_meta, get_remote_shard, put_remote_shard, remove_remote_replica}
use micros.Replication.{World, set_remote, at_remote}

pub data Request : Type 0 where
  meta_request remove_request : Request
  shard_request push_request : ℕ → Request

-- What becomes of each request to a node while one object is worked on, the order in which the
-- answers about the metadata come out of the channel, and where a node's copying of a shard into its
-- answer breaks off, if it does.
pub record Links : Type 0 where
  pub fate : Request → Str → Fate
  pub arrival : List Str → List Str
  pub copied : Str → ℕ → Option ℕ

pub data EcError : Type 0 where
  not_listed not_read : Error → EcError
  not_encoded not_reconstructed : CodecError → EcError
  not_enough_nodes insufficient_shards too_few_downloads : ℕ → ℕ → EcError
  not_written : ℕ → Error → EcError
  not_pushed : ℕ → Str → CallError → EcError
  not_removed : Error → EcError
  not_removed_on not_answered : Str → CallError → EcError
  index_panic : EcError

abbrev pub Run : Type 0 → Type 0
Run A = World → Result EcError A × World

module _ {A : Type 0} where
  unfoldable pub give : A → Run A
  give a w = (ok a, w)

  unfoldable pub fail : EcError → Run A
  fail e w = (err e, w)

  unfoldable pub renamed : {E : Type 0} → (E → EcError) → Result E A → Result EcError A
  renamed wrap (ok a) = ok a
  renamed wrap (err e) = err (wrap e)

  -- A method of the leader's own storage.
  unfoldable pub locally : (Error → EcError) → M A → Run A
  unfolding renamed
  locally wrap m w = let (r, d) = m w.local in (renamed wrap r, record w { local = d })

  -- A call whose answer has a body.
  unfoldable pub asking : (CallError → EcError) → Str → (Disk → Result CallError A × Disk) → Run A
  unfolding renamed set_remote
  asking wrap a f w = let (r, d) = f (w.remote a) in (renamed wrap r, set_remote a d w)

module _ {A B : Type 0} where
  abbrev pub continue : Result EcError A → (A → Run B) → Run B
  continue (ok a) f w = f a w
  continue (err e) f w = (err e, w)

  infixl 10 ◌>>=◌ ◌>>◌
  unfoldable pub ◌>>=◌ : Run A → (A → Run B) → Run B
  ◌>>=◌ m f w = let (r, w') = m w in continue r f w'

  abbrev pub ◌>>◌ : Run A → Run B → Run B
  m >> n = m >>= λ _. n

abbrev pub done :
    (CallError → EcError) → Option CallError × World → Result EcError (Unit {0}) × World
done wrap (none, w) = (ok tt, w)
done wrap (some e, w) = (err (wrap e), w)

-- A call that only succeeds or fails.
unfoldable pub telling :
    (CallError → EcError) → Str → (Disk → Option CallError × Disk) → Run (Unit {0})
unfolding set_remote
telling wrap a f w = done wrap (at_remote f a w)

module _ (links : Links) (bucket key : Str) where
  -- One shard with its metadata to one node; the leader is the node without an address.
  unfoldable pub put_at : Str → ℕ → List ℕ → ℕ → ObjectMeta → Run (Unit {0})
  put_at a i bs size meta =
      if str_eq a []
      then locally (not_written i) (put_ec_shard bucket key i (ok bs) (some size) meta)
      else telling (not_pushed i a) a
          (put_remote_shard (links.fate (push_request i) a) bucket key i meta bs (some size))

  -- The metadata that a node has; why it did not answer plays no part.
  unfoldable pub meta_at : Str → Run ObjectMeta
  meta_at a =
      if str_eq a []
      then locally not_read (get_object_meta bucket key)
      else asking (not_answered a) a (get_remote_meta (links.fate meta_request a) bucket key)

  unfoldable pub shard_at : Str → ℕ → Run (List ℕ)
  shard_at a i =
      if str_eq a []
      then locally not_read (get_ec_shard bucket key i)
      else asking (not_answered a) a
          (get_remote_shard (links.fate (shard_request i) a) (links.copied a i) bucket key i)

  unfoldable pub remove_at : Str → Run (Unit {0})
  remove_at a =
      if str_eq a []
      then locally not_removed (remove_replica_data bucket key)
      else telling (not_removed_on a) a
          (remove_remote_replica (links.fate remove_request a) bucket key)
