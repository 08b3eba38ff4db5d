-- ===== src/Erasure/Answers.antt =====
-- What the manager learns from a node is what the node's disk holds.
use micros.Base.{
  ℕ, Str, str_eq, ◌≡◌, ap, ◌∙◌, Option, none, some, List, [], Result, ok, err, inl, inr, Bool-cases,
}
use micros.Domain.Object.{ObjectMeta}
use micros.Disk.{Disk, Error, Content, bytes, meta_json, file_at}
use micros.Disk.Post.{Post, Post-bind, Post-pure, Post-raise}
use micros.Disk.Reading.{read_file_found}
use micros.Storage.Layout.{meta_path, ec_shard_path}
use micros.Storage.Objects.{get_object_meta}
use micros.Storage.Shards.{get_ec_shard}
use micros.Storage.Shards.Written.{got_shard}
use micros.Storage.Transactions.{read_meta, as_meta}
use micros.Peers.{CallError}
use micros.Peers.Shards.{get_remote_meta, written, handle_ec_meta, is_unnamed}
use micros.Peers.Delivered.{answered_ok, read_ok, got_remote_shard}
use micros.Replication.{World}
use micros.Erasure.{EcError, Links, renamed, locally, asking, meta_at, shard_at}
use micros.Erasure.Nodes.{disk_at}

as_meta_found :
    (x : Content) (o : Option Content) (d : Disk)
    → o ≡ some x
    → Post (λ m _. o ≡ some (meta_json m)) (as_meta x d)
unfolding as_meta
as_meta_found (Content.meta_json m) o d h = Post-pure m d h
as_meta_found (Content.bytes b) o d h = Post-raise _ d
as_meta_found (Content.tx_json t) o d h = Post-raise _ d
as_meta_found (Content.upload_json u) o d h = Post-raise _ d
as_meta_found (Content.part_json u) o d h = Post-raise _ d

pub get_object_meta_found :
    (bucket key : Str) (d : Disk)
    → Post
        (λ m _. file_at d (meta_path bucket key) ≡ some (meta_json m))
        (get_object_meta bucket key d)
unfolding get_object_meta read_meta
get_object_meta_found bucket key d =
    Post-bind _ _ d (read_file_found (meta_path bucket key) d) λ x d1 h. as_meta_found x _ d1 h

pub renamed_ok :
    {A E : Type 0} (wrap : E → EcError) (r : Result E A) (a : A) → renamed wrap r ≡ ok a → r ≡ ok a
unfolding renamed
renamed_ok wrap (ok b) a h = cc h
renamed_ok wrap (err e) a h = cc

pub locally_ok :
    {A : Type 0} (wrap : Error → EcError) (m : Disk → Result Error A × Disk) (w : World) (a : A)
    → (locally wrap m w).0 ≡ ok a
    → (m w.local).0 ≡ ok a
unfolding locally
locally_ok wrap m w a h = renamed_ok wrap (m w.local).0 a h

asking_ok :
    {A : Type 0} (wrap : CallError → EcError) (n : Str) (f : Disk → Result CallError A × Disk)
    (w : World) (a : A)
    → (asking wrap n f w).0 ≡ ok a
    → (f (w.remote n)).0 ≡ ok a
unfolding asking
asking_ok wrap n f w a h = renamed_ok wrap (f (w.remote n)).0 a h

-- Every node that answers with a shard has copied the whole file into the answer.
pub record IsUncut (links : Links) : Type 0 where
  pub uncut : (a : Str) (i : ℕ) → links.copied a i ≡ none

module _ (links : Links) (bucket key : Str) where
  pub meta_at_found :
      (a : Str) (w : World) (m : ObjectMeta)
      → (meta_at links bucket key a w).0 ≡ ok m
      → file_at (disk_at w a) (meta_path bucket key) ≡ some (meta_json m)
  unfolding meta_at get_remote_meta handle_ec_meta
  meta_at_found a w m h = elim (Bool-cases (str_eq a [])) [
    | inl here ↦ rw here (
        (get_object_meta_found bucket key w.local).at m
          (locally_ok _ (get_object_meta bucket key) w m (rw here at h)))
    | inr there ↦ rw there (
        (get_object_meta_found bucket key (w.remote a)).at m (
          read_ok (is_unnamed bucket key) (get_object_meta bucket key (w.remote a)).0 (w.remote a) _
            m
            (answered_ok _ (handle_ec_meta bucket key) (w.remote a) m
              (asking_ok _ a _ w m (rw there at h)))))
  ]

  pub shard_at_found :
      IsUncut links
      → (a : Str) (i : ℕ) (w : World) (s out : List ℕ)
      → file_at (disk_at w a) (ec_shard_path bucket key i) ≡ some (bytes s)
      → (shard_at links bucket key a i w).0 ≡ ok out
      → out ≡ s
  unfolding shard_at written
  shard_at_found whole a i w s out held h = elim (Bool-cases (str_eq a [])) [
    | inl here ↦
        (got_shard bucket key i s w.local (rw here at held)).at out
          (locally_ok _ (get_ec_shard bucket key i) w out (rw here at h))
    | inr there ↦
        got_remote_shard _ (links.copied a i) bucket key i s out (w.remote a) (rw there at held)
          (asking_ok _ a _ w out (rw there at h))
        ∙ ap (λ c. written c s) (whole.uncut a i)
  ]
