-- ===== src/Storage/Commit.antt =====
-- What a commit that returns without an error has done.
use micros.Base.{
  Str, codes, str_eq, true, false, ◌&&◌, ◌≡◌, refl, ap, ◌∙◌, some, List, [], ◌∷◌, ◌++◌, ok, arith,
  has_prefix, str_eq_iff,
}
use micros.Domain.Object.{ObjectMeta, Transaction, op_put}
use micros.Disk.{
  Disk, tx_mismatch, Content, meta_json, tx_json, pure, raise, ◌>>=◌, ◌>>◌, ignoring, file_at,
  mkdir_all, remove_all,
}
use micros.Disk.Frame.{Frame, Frame-ignoring}
use micros.Disk.Calls.{Frame-mkdir_all, Frame-sync_dir, Frame-remove_all}
use micros.Disk.Post.{
  Post, Post-bind, Post-Frame, Post-quiet, Post-pure, Post-raise, Holds, Untouched,
}
use micros.Disk.Paths.{
  FilePath, path_eq, path_eq_iff, is_under, is_under_append, parent, parent_snoc, base_name_snoc,
  path_eq_append, path_eq-is_under, path_eq_comm,
}
use micros.Storage.Moves.{wrap-Post, read_meta-Post, read_tx-Post, rename_moves, Post-if}
use micros.Storage.Layout.{
  staging_dir, data_path, meta_path, tx_file, staged_data, staged_meta, delete_all_ec_shards,
  ec_shard_dir,
}
use micros.Storage.Frames.{Frame-delete_all_ec_shards}
use micros.Storage.Isolation.{is_shard_of}
use micros.Storage.Transactions.{commit_transaction, commit_operation, commit_put}

-- The object's two files are apart from each other, from the staging directory and from the shards.
pub record AreApart (stage : FilePath) (bucket key : Str) : Type 0 where
  pub data_staged : is_under stage (data_path bucket key) ≡ false
  pub meta_staged : is_under stage (meta_path bucket key) ≡ false
  pub data_meta : path_eq (data_path bucket key) (meta_path bucket key) ≡ false
  pub data_shard : is_shard_of bucket key (data_path bucket key) ≡ false
  pub meta_shard : is_shard_of bucket key (meta_path bucket key) ≡ false
  pub staged_shard : is_shard_of bucket key (staged_meta stage) ≡ false

module _ (stage : FilePath) (bucket key : Str) (apart : AreApart stage bucket key) where
  abbrev target : FilePath
  target = data_path bucket key

  abbrev meta_target : FilePath
  meta_target = meta_path bucket key

  -- The two files of an object in place.
  abbrev InPlace : Content → ObjectMeta → Disk → Type 0
  InPlace c m = Holds ((target, c) ∷ (meta_target, meta_json m) ∷ [])

  staged : (name : FilePath) → is_under stage (stage ++ name) ≡ true
  staged name = is_under_append stage name

  names_apart : path_eq (staged_data stage) (staged_meta stage) ≡ false
  names_apart =
      path_eq_append stage (codes "data" ∷ []) (codes "meta.json" ∷ [])
      ∙ unfold path_eq str_eq in refl

  -- Staged and target paths are different.
  data_apart : (name : FilePath) → path_eq (stage ++ name) target ≡ false
  data_apart name = path_eq-is_under stage (stage ++ name) target (staged name) apart.data_staged

  shards_framed :
      Frame
        (is_shard_of bucket key)
        (ignoring (delete_all_ec_shards bucket key) (mkdir_all (parent meta_target)))
  shards_framed =
      Frame-ignoring _ _
        (Frame-delete_all_ec_shards {T = is_shard_of bucket key} bucket key in_shards)
        (Frame-mkdir_all (parent meta_target))
    where
      in_shards :
          (name : Str)
          → has_prefix name (key ++ codes ".shard.") ≡ true
          → is_shard_of bucket key (ec_shard_dir bucket ++ name ∷ []) ≡ true
      in_shards name h = ground (
        arith,
        parent_snoc (ec_shard_dir bucket) name,
        base_name_snoc (ec_shard_dir bucket) name,
        path_eq_iff (parent (ec_shard_dir bucket ++ name ∷ [])) (ec_shard_dir bucket),
      )

  commit_put-Post :
      (c : Content) (m : ObjectMeta) (d : Disk)
      → Holds ((staged_meta stage, meta_json m) ∷ (staged_data stage, c) ∷ []) d
      → Post (λ a d'. (a ≡ m) × InPlace c m d') (commit_put stage bucket key d)
  unfolding commit_put
  commit_put-Post c m d h =
      let sm = staged_meta stage in
      let sd = staged_data stage in
      let e0 = names_apart in
      let e1 = data_apart (codes "data" ∷ []) in
      let e2 = data_apart (codes "meta.json" ∷ []) in
      let e3 = path_eq_comm target sm in
      let e4 = path_eq_comm meta_target target in
      Post-bind _ _ d (wrap-Post _ _ d (read_meta-Post sm m ((sd, c) ∷ []) d h)) λ a d1 h1.
        Post-bind _ _ d1
          (Post-quiet _ ((sd, c) ∷ (sm, meta_json m) ∷ []) d1 (Frame-mkdir_all (parent target))
            (h1.1.1.0, (h1.1.0, tt)))
          λ _ d2 h2.
            Post-bind _ _ d2
              (rename_moves sd target c ((sm, meta_json m) ∷ []) d2 (ground (arith, e0, e2, e3), tt)
                h2)
              λ _ d3 h3.
                Post-bind _ _ d3
                  (Post-quiet _ ((target, c) ∷ (sm, meta_json m) ∷ []) d3
                    (Frame-sync_dir (parent target)) h3)
                  λ _ d4 h4.
                    Post-bind _ _ d4
                      (Post-Frame _ ((sm, meta_json m) ∷ (target, c) ∷ []) d4 shards_framed
                        (apart.staged_shard, (apart.data_shard, tt)) (h4.1.0, (h4.0, tt)))
                      λ _ d5 h5.
                        Post-bind _ _ d5
                          (rename_moves sm meta_target (meta_json m) ((target, c) ∷ []) d5
                            (ground (arith, e2, e4, apart.data_meta), tt) h5)
                          λ _ d6 h6.
                            Post-bind _ _ d6
                              (Post-quiet _ ((target, c) ∷ (meta_target, meta_json m) ∷ []) d6
                                (Frame-sync_dir (parent meta_target)) (h6.1.0, (h6.0, tt)))
                              λ _ d7 h7. Post-pure a d7 (h1.0, h7)

  -- What a removed tree leaves.
  unstaged :
      (files : List (FilePath × Content)) (d : Disk)
      → Untouched (is_under stage) files
      → Holds files d
      → Post (λ _. Holds files) (remove_all stage d)
  unstaged files d u h = Post-Frame _ files d (Frame-remove_all stage (λ q x. x)) u h

commit_operation-Post :
    (stage : FilePath) (bucket key : Str) (apart : AreApart stage bucket key) (t : Transaction)
    (c : Content) (m : ObjectMeta) (d : Disk)
    → t.operation ≡ op_put
    → Holds ((staged_meta stage, meta_json m) ∷ (staged_data stage, c) ∷ []) d
    → Post
        (λ a d'. (a ≡ m) × InPlace stage bucket key apart c m d')
        (commit_operation t stage bucket key d)
unfolding commit_operation
commit_operation-Post stage bucket key apart t c m d e h =
    rw ((str_eq_iff t.operation op_put).1 e) (commit_put-Post stage bucket key apart c m d h)

committed :
    (tx_id bucket key : Str) (tx : Transaction) (c : Content) (m : ObjectMeta) (d : Disk)
    (apart : AreApart (staging_dir tx_id) bucket key)
    → tx.operation ≡ op_put
    → Holds
        ((tx_file (staging_dir tx_id), tx_json tx)
          ∷ (staged_meta (staging_dir tx_id), meta_json m)
          ∷ (staged_data (staging_dir tx_id), c)
          ∷ [])
        d
    → Post
        (λ a d'. (a ≡ m) × InPlace (staging_dir tx_id) bucket key apart c m d')
        (commit_transaction tx_id bucket key d)
unfolding commit_transaction
committed tx_id bucket key tx c m d apart op h =
    let stage : FilePath = staging_dir tx_id in
    Post-bind _ _ d
      (wrap-Post _ _ d (
        read_tx-Post (tx_file stage) tx
          ((staged_meta stage, meta_json m) ∷ (staged_data stage, c) ∷ []) d h))
      λ t d1 h1.
        Post-if (str_eq t.bucket bucket && str_eq t.key key)
          (commit_operation t stage bucket key >>= λ meta. remove_all stage >> pure meta)
          (raise tx_mismatch) d1
          (Post-bind {P = λ a d'. (a ≡ m) × InPlace stage bucket key apart c m d'}
            (commit_operation t stage bucket key) (λ meta. remove_all stage >> pure meta) d1
            (commit_operation-Post stage bucket key apart t c m d1 (ap (λ x. x.operation) h1.0 ∙ op)
              h1.1.1)
            λ a d2 h2.
              Post-bind (remove_all stage) (λ _. pure a) d2
                (unstaged stage bucket key apart
                  ((data_path bucket key, c) ∷ (meta_path bucket key, meta_json m) ∷ []) d2
                  (apart.data_staged, (apart.meta_staged, tt)) h2.1)
                λ _ d3 h3. Post-pure a d3 (h2.0, h3))
          (Post-raise tx_mismatch d1)

-- A commit of a staged PUT that returns without an error has moved the staged bytes and metadata to
-- the object's two files, and returns that metadata. Before it the log of a PUT, its bytes and its
-- metadata are staged, and the object's files lie apart from the staging directory, from each other
-- and from the object's shards.
pub commit_transaction-put :
    (tx_id bucket key : Str) (tx : Transaction) (c : Content) (m : ObjectMeta) (d : Disk)
    → AreApart (staging_dir tx_id) bucket key
    → tx.operation ≡ op_put
    → file_at d (tx_file (staging_dir tx_id)) ≡ some (tx_json tx)
    → file_at d (staged_meta (staging_dir tx_id)) ≡ some (meta_json m)
    → file_at d (staged_data (staging_dir tx_id)) ≡ some c
    → (a : ObjectMeta) → (commit_transaction tx_id bucket key d).0 ≡ ok a
    → (a ≡ m)
      × (file_at (commit_transaction tx_id bucket key d).1 (data_path bucket key) ≡ some c)
      × (file_at (commit_transaction tx_id bucket key d).1 (meta_path bucket key)
          ≡ some (meta_json m))
commit_transaction-put tx_id bucket key tx c m d apart op ht hm hc a e =
    let done = (committed tx_id bucket key tx c m d apart op (ht, (hm, (hc, tt)))).at a e in
    (done.0, done.1.0, done.1.1.0)
