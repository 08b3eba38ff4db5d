-- ===== src/Storage/Staging.antt =====
-- What staging a PUT leaves in the staging directory.
use micros.Base.{
  sym, subst, ℕ, Str, codes, str_eq, str_eq_iff, Bool, true, false, ◌≡◌, refl, ◌∙◌, Option, List,
  [], ◌∷◌, ok, if◌then◌else◌, length,
}
use micros.Domain.Object.{ObjectMeta, Transaction, op_put}
use micros.Disk.{M, Disk, Content, bytes, tx_json, meta_json, pure, io, mkdir_all, sync_dir}
use micros.Disk.Frame.{Frame-io}
use micros.Disk.Calls.{Frame-mkdir_all, Frame-sync_dir}
use micros.Disk.Paths.{FilePath, path_eq, path_eq_append}
use micros.Disk.Post.{Post, Post-bind, Post-pure, Post-quiet, Holds}
use micros.Disk.Writing.{write_file-Post}
use micros.Storage.Layout.{staging_dir, tx_file, staged_data, staged_meta}
use micros.Storage.Isolation.{Frame-check_size}
use micros.Storage.Transactions.{
  as_bytes, Hashes, stage_object, stage_data, read_all, check_size, computed_meta,
}

-- The names in a staging directory are different.
names_apart :
    (stage : FilePath)
    → (path_eq (staged_data stage) (tx_file stage) ≡ false)
      × (path_eq (staged_meta stage) (tx_file stage) ≡ false)
      × (path_eq (staged_meta stage) (staged_data stage) ≡ false)
names_apart stage = (
  path_eq_append stage (codes "data" ∷ []) (codes "tx.json" ∷ []) ∙ unfold path_eq str_eq in refl,
  path_eq_append stage (codes "meta.json" ∷ []) (codes "tx.json" ∷ [])
      ∙ unfold path_eq str_eq in refl,
  path_eq_append stage (codes "meta.json" ∷ []) (codes "data" ∷ []) ∙ unfold path_eq str_eq in refl,
)

pub as_bytes-Post :
    (x : Content) (bs : List ℕ) (d : Disk) → x ≡ bytes bs → Post (λ a d'. a ≡ bs) (as_bytes x d)
unfolding as_bytes
as_bytes-Post x bs d e =
    subst (λ y. Post (λ a d'. a ≡ bs) (as_bytes y d)) (sym e) (Post-pure bs d refl)

-- A transaction as it is staged for a PUT of some bytes.
abbrev pub staged_files : FilePath → Transaction → ObjectMeta → List ℕ → List (FilePath × Content)
staged_files stage tx meta bs =
    (tx_file stage, tx_json tx)
    ∷ (staged_meta stage, meta_json meta)
    ∷ (staged_data stage, bytes bs)
    ∷ []

stage_data-Post :
    (h : Hashes) (stage : FilePath) (bs : List ℕ) (size : Option ℕ) (meta : ObjectMeta)
    (tx : Transaction) (d : Disk)
    → Holds ((tx_file stage, tx_json tx) ∷ []) d
    → Post
        (λ a d'.
          (a ≡ computed_meta h meta bs)
          × Holds (staged_files stage tx (computed_meta h meta bs) bs) d')
        (stage_data h stage (ok bs) size meta d)
unfolding stage_data read_all pure
stage_data-Post h stage bs size meta tx d held =
    let log : List (FilePath × Content) = (tx_file stage, tx_json tx) ∷ [] in
    let (a1, a2, a3) = names_apart stage in
    Post-bind io _ d (Post-quiet io log d Frame-io held) λ _ d0 h0.
      Post-bind (read_all (ok bs)) _ d0 (Post-pure bs d0 (refl, h0))
        λ b d1 (h1 : (bs ≡ b) × Holds log d1).
          Post-bind (check_size size (length b)) _ d1
            (Post-quiet _ log d1 (Frame-check_size size (length b)) h1.1)
            λ _ d2 h2.
              Post-bind _ _ d2 (write_file-Post (staged_data stage) (bytes b) log d2 (a1, tt) h2)
                λ _ d3 h3.
                  Post-bind _ _ d3
                    (write_file-Post (staged_meta stage) (meta_json (computed_meta h meta b))
                      ((staged_data stage, bytes b) ∷ log) d3 (a3, (a2, tt)) h3)
                    λ _ d4 h4. Post-pure _ d4 (rw h1.0 (refl, (h4.1.1.0, (h4.0, (h4.1.0, tt)))))

Post-if :
    {A : Type 0} {Q : A → Disk → Type 0} (b : Bool) (m n : M A) (d : Disk)
    → b ≡ true
    → Post Q (m d)
    → Post Q ((if b then m else n) d)
Post-if true m n d e h = h
Post-if false m n d e h = cc

staged :
    (h : Hashes) (tx_id : Str) (bs : List ℕ) (size : Option ℕ) (meta : ObjectMeta)
    (tx : Transaction) (d : Disk)
    → tx.operation ≡ op_put
    → Post
        (λ a d'.
          (a ≡ computed_meta h meta bs)
          × Holds (staged_files (staging_dir tx_id) tx (computed_meta h meta bs) bs) d')
        (stage_object h tx_id (ok bs) size meta tx d)
unfolding stage_object
staged h tx_id bs size meta tx d op =
    let stage : FilePath = staging_dir tx_id in
    let meta' : ObjectMeta = computed_meta h meta bs in
    Post-bind (mkdir_all stage) _ d (Post-quiet _ [] d (Frame-mkdir_all stage) tt) λ _ d1 h1.
      Post-bind _ _ d1 (write_file-Post (tx_file stage) (tx_json tx) [] d1 tt tt) λ _ d2 h2.
        Post-bind {P = λ a d'. (a ≡ meta') × Holds (staged_files stage tx meta' bs) d'} _ _ d2
          (Post-if (str_eq tx.operation op_put) _ _ d2 ((str_eq_iff tx.operation op_put).1 op)
            (stage_data-Post h stage bs size meta tx d2 h2))
          λ a d3 h3.
            Post-bind (sync_dir stage) _ d3
              (Post-quiet _ (staged_files stage tx meta' bs) d3 (Frame-sync_dir stage) h3.1)
              λ _ d4 h4. Post-pure a d4 (h3.0, h4)

-- Staging a PUT that succeeds returns the metadata with the computed length, checksum and ETag, and
-- leaves the transaction, that metadata and the bytes in the transaction's staging directory.
pub stage_object-put :
    (h : Hashes) (tx_id : Str) (bs : List ℕ) (size : Option ℕ) (meta a : ObjectMeta)
    (tx : Transaction) (d : Disk)
    → tx.operation ≡ op_put
    → (stage_object h tx_id (ok bs) size meta tx d).0 ≡ ok a
    → (a ≡ computed_meta h meta bs)
      × Holds
          (staged_files (staging_dir tx_id) tx (computed_meta h meta bs) bs)
          (stage_object h tx_id (ok bs) size meta tx d).1
stage_object-put h tx_id bs size meta a tx d op e = (staged h tx_id bs size meta tx d op).at a e
