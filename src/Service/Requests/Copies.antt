-- ===== src/Service/Requests/Copies.antt =====
-- A copy that succeeds has the source's bytes.
use micros.Base.{
  ℕ, Str, false, ◌≡◌, refl, sym, ap, ◌∙◌, subst, Option, none, some, List, All, Result, ok, err,
}
use micros.Domain.Object.{ObjectMeta, is_ec}
use micros.Disk.{Disk, Error}
use micros.Storage.Layout.{staging_dir}
use micros.Storage.Transactions.{computed_meta}
use micros.Storage.Commit.{AreApart}
use micros.Cluster.Static.{alive_followers}
use micros.Cluster.Static.Membership.{contains-All, addresses, Distinct}
use micros.Replication.{World, Network}
use micros.Replication.Parts.{Stored}
use micros.Sync.Follower.{EcReader, source, read_source}
use micros.Sync.Reads.{source-Post}
use micros.Service.Leases.{Gate, Admission, admitted, refused, admit_write}
use micros.Service.Writes.{Failure, ensure_bucket, put_transaction, put_tx}
use micros.Service.Replicated.{run_transaction-replicates, run_transaction-stores}
use micros.Service.Syncs.{State}
use micros.Service.Requests.{
  enter, after_ensure, put_object, read_as, read_object, copied_meta, after_read, copy_object,
}

module _ (net : Network) (tx_id : Str) (now : ℕ) (bucket key : Str) (bs : List ℕ) (size : Option ℕ)
    (meta : ObjectMeta) (k : ObjectMeta) (apart : AreApart (staging_dir tx_id) bucket key) where
  -- The leader has the object, and so has every follower that is alive.
  abbrev pub Everywhere : World → Type 0
  Everywhere w =
      Stored bucket key (computed_meta net.hashes meta bs) bs w.local
      × All (λ a. Stored bucket key (computed_meta net.hashes meta bs) bs (w.remote a))
          (alive_followers w.members)

  abbrev Outcome : Result Failure ObjectMeta × State → Type 0
  Outcome x = x.0 ≡ ok k → Everywhere x.1.world

  abbrev write : World → Result Failure ObjectMeta × World
  write = put_transaction net tx_id now bucket key (ok bs) size meta

  transaction-Everywhere :
      (w : World)
      → Distinct (addresses w.members.nodes_state)
      → (write w).0 ≡ ok k
      → Everywhere (write w).1
  unfolding put_transaction
  transaction-Everywhere w distinct h =
      let tx = put_tx tx_id now bucket key in
      let (same, here) = run_transaction-stores net tx meta k bs size w apart refl distinct h in
      (
        subst (λ y. Stored bucket key y bs (write w).1.local) same here,
        contains-All _ (alive_followers (write w).1.members) λ a alive.
            (run_transaction-replicates net tx meta k bs size w a apart refl distinct h alive).2,
      )

  enter-Everywhere :
      (x : Admission × Gate) (w : World)
      → Distinct (addresses w.members.nodes_state)
      → Outcome (enter write x w)
  unfolding enter
  enter-Everywhere (refused f, g) w distinct h = cc
  enter-Everywhere (admitted, g) w distinct h = transaction-Everywhere w distinct h

  after_ensure-Everywhere :
      (g : Gate) (r : Result Error (Unit {0})) (w : World)
      → Distinct (addresses w.members.nodes_state)
      → Outcome (after_ensure write now g (r, w))
  unfolding after_ensure
  after_ensure-Everywhere g (err e) w distinct h = cc
  after_ensure-Everywhere g (ok u) w distinct h = enter-Everywhere (admit_write now g) w distinct h

  pub put_object-Everywhere :
      (st : State)
      → Distinct (addresses st.world.members.nodes_state)
      → Outcome (put_object net tx_id now bucket key (ok bs) size meta st)
  unfolding put_object
  put_object-Everywhere st distinct h =
      after_ensure-Everywhere st.gate (ensure_bucket bucket st.world.local).0
        (record st.world { local = (ensure_bucket bucket st.world.local).1 }) distinct h

-- Reading through the service is what a sync reads.
read_object-source :
    (reader : Option EcReader) (bucket key : Str) (d : Disk)
    → read_object reader bucket key d
      ≡ source reader
          (record { bucket = bucket; key = key; crc32 = 0; size = 0; modified_at = 0 })
          d
unfolding read_object read_as source read_source
read_object-source none bucket key d = refl
read_object-source (some reader) bucket key d = refl

after_read-Everywhere :
    (net : Network) (tx_id : Str) (now : ℕ) (bucket key : Str) (bs : List ℕ) (m : ObjectMeta)
    (k : ObjectMeta) (apart : AreApart (staging_dir tx_id) bucket key) (g : Gate)
    (r : Result Error (List ℕ × ObjectMeta)) (w : World)
    → ((x : List ℕ × ObjectMeta) → r ≡ ok x → x ≡ (bs, m))
    → Distinct (addresses w.members.nodes_state)
    → Outcome net tx_id now bucket key bs
        (some m.content_length)
        (copied_meta now m)
        k
        apart
        (after_read net tx_id now bucket key g (r, w))
unfolding after_read
after_read-Everywhere net tx_id now bucket key bs m k apart g (err e) w same distinct = λ h. cc
after_read-Everywhere net tx_id now bucket key bs m k apart g (ok x) w same distinct =
    subst
      (λ y.
        Outcome net tx_id now bucket key bs (some m.content_length) (copied_meta now m) k apart
          (after_read net tx_id now bucket key g (ok y, w)))
      (sym (same x refl))
      (put_object-Everywhere net tx_id now bucket key bs (some m.content_length) (copied_meta now m)
        k apart (record { gate = g; world = w }) distinct)

-- A copy of a replica that succeeds has stored the source's bytes, with its content type and user
-- metadata and the length, checksum and ETag computed from the bytes, on the leader and on every
-- follower that is alive after it, if there are any. The nodes have distinct addresses, and the files of the copy lie
-- apart from its staging directory, from each other and from its shards.
pub copy_object-Stored :
    (net : Network) (reader : Option EcReader) (tx_id : Str) (now : ℕ) (src dst : Str × Str)
    (bs : List ℕ) (m k : ObjectMeta) (st : State)
    → AreApart (staging_dir tx_id) dst.0 dst.1
    → is_ec m ≡ false
    → Stored src.0 src.1 m bs st.world.local
    → Distinct (addresses st.world.members.nodes_state)
    → (copy_object net reader tx_id now src dst st).0 ≡ ok k
    → Stored dst.0 dst.1
        (computed_meta net.hashes (copied_meta now m) bs)
        bs
        (copy_object net reader tx_id now src dst st).1.world.local
      × All
          (λ a.
            Stored dst.0 dst.1
              (computed_meta net.hashes (copied_meta now m) bs)
              bs
              ((copy_object net reader tx_id now src dst st).1.world.remote a))
          (alive_followers (copy_object net reader tx_id now src dst st).1.world.members)
unfolding copy_object
copy_object-Stored net reader tx_id now src dst bs m k st apart replica has distinct h =
    after_read-Everywhere net tx_id now dst.0 dst.1 bs m k apart st.gate
      (read_object reader src.0 src.1 st.world.local).0
      (record st.world { local = (read_object reader src.0 src.1 st.world.local).1 })
      (λ x e.
        (source-Post reader
            (record { bucket = src.0; key = src.1; crc32 = 0; size = 0; modified_at = 0 }) bs m
            st.world.local replica (has.1.0, (has.0, tt))).at
          x (ap (λ r. r.0) (sym (read_object-source reader src.0 src.1 st.world.local)) ∙ e))
      distinct h
