-- ===== src/Service/Replicated.antt =====
-- What a PUT that succeeds has stored, on the leader and on every follower that is still alive.
use micros.Base.{
  ℕ, Str, str_eq_iff, true, false, ◌≡◌, refl, sym, subst, Option, List, [], ◌∷◌, Result, ok, err,
  arith,
}
use micros.Domain.Object.{ObjectMeta, Transaction, op_put}
use micros.Disk.{Disk, Error, bytes}
use micros.Disk.Post.{Holds}
use micros.Storage.Layout.{staging_dir}
use micros.Storage.Transactions.{stage_object, commit_transaction, computed_meta}
use micros.Storage.Staging.{staged_files, stage_object-put}
use micros.Storage.Commit.{AreApart, commit_transaction-put}
use micros.Cluster.Static.{Manager, alive_followers, mark_dead}
use micros.Cluster.Static.Membership.{
  contains, addresses, Distinct, Distinct-ready_of, addresses-mark_dead, alive_followers-mark_dead,
}
use micros.Replication.{
  World, Network, Errors, over, prepare_one, prepare_all, commit_one, commit_all,
}
use micros.Replication.Rounds.{names, over-stays, over-does}
use micros.Replication.Parts.{Staged, Stored}
use micros.Replication.Phases.{prepare-Round, commit-Round, LeaderStaged}
use micros.Service.Writes.{
  run_transaction, after_staging, after_prepare, after_commit, mark_failed, with_marked,
}

-- A follower that is alive after the failed ones were marked was alive before and had no error.
mark_failed-contains :
    (errs : Errors) (m : Manager) (a : Str)
    → Distinct (addresses m.nodes_state)
    → contains a (alive_followers (mark_failed errs m)) ≡ true
    → (contains a (alive_followers m) ≡ true) × (contains a (names errs) ≡ false)
unfolding mark_failed names contains
mark_failed-contains [] m a d h = (h, refl)
mark_failed-contains ((b, e) ∷ rest) m a d h =
    let d' : Distinct (addresses (mark_dead b m).nodes_state) =
      subst Distinct (sym (addresses-mark_dead b m)) d in
    let (alive, apart) = mark_failed-contains rest (mark_dead b m) a d' h in
    let one = alive_followers-mark_dead b a m d in
    (ground (arith, one, alive), ground (arith, one, alive, apart, str_eq_iff a b, str_eq_iff b a))

Distinct-alive_followers :
    (m : Manager) → Distinct (addresses m.nodes_state) → Distinct (alive_followers m)
unfolding alive_followers
Distinct-alive_followers m d = Distinct-ready_of m.local_node_id m.nodes_state d

module _ (net : Network) (tx : Transaction) (meta : ObjectMeta) (bs : List ℕ)
    (apart : AreApart (staging_dir tx.id) tx.bucket tx.key) (op : tx.operation ≡ op_put) where
  abbrev info : ObjectMeta
  info = computed_meta net.hashes meta bs

  -- The leader has the object, and so does every follower that is alive.
  abbrev Everywhere : World → Type 0
  Everywhere w =
      Stored tx.bucket tx.key info bs w.local
      × ((a : Str)
          → contains a (alive_followers w.members) ≡ true
          → Stored tx.bucket tx.key info bs (w.remote a))

  -- Every alive follower has staged the object.
  abbrev AllStaged : World → Type 0
  AllStaged w =
      (a : Str)
      → contains a (alive_followers w.members) ≡ true
      → Staged tx.id tx.bucket tx.key info bs (w.remote a)

  reached :
      (w : World)
      → Distinct (addresses w.members.nodes_state)
      → AllStaged w
      → Stored tx.bucket tx.key info bs w.local
      → Everywhere (with_marked (commit_all net tx.id tx.bucket tx.key w))
  unfolding commit_all
  reached w d ready stored =
      let f = commit_one net tx.id tx.bucket tx.key in
      let addrs : List Str = alive_followers w.members in
      let round = commit-Round net tx meta bs w.members w.local apart in
      let (view, same) =
        over-stays f (λ v. (v.members ≡ w.members) × (v.local ≡ w.local)) _ _ round addrs w
          (refl, refl) in
      (
        subst (Stored tx.bucket tx.key info bs) (sym same) stored,
        λ a h.
            let (alive, fine) = mark_failed-contains (over f addrs w).0 w.members a d (
              subst (λ v. contains a (alive_followers (mark_failed (over f addrs w).0 v)) ≡ true)
                view h) in
            over-does f (λ v. (v.members ≡ w.members) × (v.local ≡ w.local)) _ _ round addrs a w
              (Distinct-alive_followers w.members d) (refl, refl) (ready a alive) alive fine,
      )

  after_own_commit :
      (r : Result Error ObjectMeta) (d : Disk) (w : World) (k : ObjectMeta)
      → Distinct (addresses w.members.nodes_state)
      → AllStaged w
      → ((x : ObjectMeta) → r ≡ ok x → (x ≡ info) × Stored tx.bucket tx.key info bs d)
      → (after_commit net tx (r, record w { local = d })).0 ≡ ok k
      → (k ≡ info) × Everywhere (after_commit net tx (r, record w { local = d })).1
  unfolding after_commit
  after_own_commit (err e) d w k distinct ready own h = cc
  after_own_commit (ok x) d w k distinct ready own h =
      let (same, stored) = own x refl in
      (cc (h, same), reached (record w { local = d }) distinct ready stored)

  after_prepared :
      (errs : Errors) (w : World) (k : ObjectMeta)
      → Distinct (addresses w.members.nodes_state)
      → Holds (staged_files (staging_dir tx.id) tx info bs) w.local
      → (errs ≡ [] → AllStaged w)
      → (after_prepare net tx (errs, w)).0 ≡ ok k
      → (k ≡ info) × Everywhere (after_prepare net tx (errs, w)).1
  unfolding after_prepare
  after_prepared (e ∷ errs) w k distinct held ready h = cc
  after_prepared [] w k distinct held ready h =
      let (r, d) = commit_transaction tx.id tx.bucket tx.key w.local in
      after_own_commit r d w k distinct (ready refl) own h
    where
      own :
          (x : ObjectMeta)
          → (commit_transaction tx.id tx.bucket tx.key w.local).0 ≡ ok x
          → (x ≡ info)
            × Stored tx.bucket tx.key info bs (commit_transaction tx.id tx.bucket tx.key w.local).1
      own x e =
          let (same, stored, listed) =
            commit_transaction-put tx.id tx.bucket tx.key tx (bytes bs) info w.local apart op held.0
              held.1.0 held.1.1.0 x e in
          (same, (stored, (listed, tt)))

  after_staged :
      (w : World) (k : ObjectMeta)
      → Distinct (addresses w.members.nodes_state)
      → Holds (staged_files (staging_dir tx.id) tx info bs) w.local
      → (after_prepare net tx (prepare_all net tx info w)).0 ≡ ok k
      → (k ≡ info) × Everywhere (after_prepare net tx (prepare_all net tx info w)).1
  unfolding prepare_all
  after_staged w k distinct held h =
      let f = prepare_one net tx info in
      let addrs : List Str = alive_followers w.members in
      let round = prepare-Round net tx meta bs w.members op in
      let leader : World → Type 0 = LeaderStaged net tx meta bs w.members in
      let (view, still) = over-stays f leader _ _ round addrs w (refl, held) in
      after_prepared (over f addrs w).0 (over f addrs w).1 k
        (subst (λ v. Distinct (addresses v.nodes_state)) (sym view) distinct) still
        (λ none_failed a alive.
          over-does f leader _ _ round addrs a w (Distinct-alive_followers w.members distinct)
            (refl, held) tt (subst (λ v. contains a (alive_followers v) ≡ true) view alive)
            (subst (λ e. contains a (names e) ≡ false) (sym none_failed)
              (unfold names contains in refl)))
        h

  after_own_staging :
      (r : Result Error ObjectMeta) (d : Disk) (w : World) (k : ObjectMeta)
      → Distinct (addresses w.members.nodes_state)
      → ((x : ObjectMeta)
          → r ≡ ok x
          → (x ≡ info) × Holds (staged_files (staging_dir tx.id) tx info bs) d)
      → (after_staging net tx (r, record w { local = d })).0 ≡ ok k
      → (k ≡ info) × Everywhere (after_staging net tx (r, record w { local = d })).1
  unfolding after_staging
  after_own_staging (err e) d w k distinct own h = cc
  after_own_staging (ok x) d w k distinct own h =
      let (same, held) = own x refl in
      subst
        (λ y.
          (after_prepare net tx (prepare_all net tx y (record w { local = d }))).0 ≡ ok k
          → (k ≡ info)
            × Everywhere (after_prepare net tx (prepare_all net tx y (record w { local = d }))).1)
        (sym same) (after_staged (record w { local = d }) k distinct held) h

  everywhere :
      (size : Option ℕ) (w : World) (k : ObjectMeta)
      → Distinct (addresses w.members.nodes_state)
      → (run_transaction net tx (ok bs) size meta w).0 ≡ ok k
      → (k ≡ info) × Everywhere (run_transaction net tx (ok bs) size meta w).1
  unfolding run_transaction
  everywhere size w k distinct h =
      let (r, d) = stage_object net.hashes tx.id (ok bs) size meta tx w.local in
      after_own_staging r d w k distinct
        (λ x e. stage_object-put net.hashes tx.id bs size meta x tx w.local op e) h

-- A PUT that succeeds has stored its bytes and the metadata that it returns on the leader, and on
-- every follower that is alive after it, whatever requests were lost and whichever calls failed. The
-- nodes have distinct addresses, and the object's files lie apart from the staging directory, from
-- each other and from the object's shards.
pub run_transaction-replicates :
    (net : Network) (tx : Transaction) (meta k : ObjectMeta) (bs : List ℕ) (size : Option ℕ)
    (w : World) (a : Str)
    → AreApart (staging_dir tx.id) tx.bucket tx.key
    → tx.operation ≡ op_put
    → Distinct (addresses w.members.nodes_state)
    → (run_transaction net tx (ok bs) size meta w).0 ≡ ok k
    → contains a (alive_followers (run_transaction net tx (ok bs) size meta w).1.members) ≡ true
    → (k ≡ computed_meta net.hashes meta bs)
      × Stored tx.bucket tx.key
          (computed_meta net.hashes meta bs)
          bs
          (run_transaction net tx (ok bs) size meta w).1.local
      × Stored tx.bucket tx.key
          (computed_meta net.hashes meta bs)
          bs
          ((run_transaction net tx (ok bs) size meta w).1.remote a)
run_transaction-replicates net tx meta k bs size w a apart op distinct h alive =
    let (same, (here, there)) = everywhere net tx meta bs apart op size w k distinct h in
    (same, here, there a alive)

-- A PUT that succeeds returns the metadata with the computed length, checksum and ETag, and has stored
-- its bytes and that metadata on the leader, with followers or without. The nodes have distinct
-- addresses, and the object's files lie apart from the staging directory, from each other and from
-- the object's shards.
pub run_transaction-stores :
    (net : Network) (tx : Transaction) (meta k : ObjectMeta) (bs : List ℕ) (size : Option ℕ)
    (w : World)
    → AreApart (staging_dir tx.id) tx.bucket tx.key
    → tx.operation ≡ op_put
    → Distinct (addresses w.members.nodes_state)
    → (run_transaction net tx (ok bs) size meta w).0 ≡ ok k
    → (k ≡ computed_meta net.hashes meta bs)
      × Stored tx.bucket tx.key k bs (run_transaction net tx (ok bs) size meta w).1.local
run_transaction-stores net tx meta k bs size w apart op distinct h =
    let (same, (here, there)) = everywhere net tx meta bs apart op size w k distinct h in
    (
      same,
      subst (λ y. Stored tx.bucket tx.key y bs (run_transaction net tx (ok bs) size meta w).1.local)
          (sym same) here,
    )
