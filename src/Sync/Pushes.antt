-- ===== src/Sync/Pushes.antt =====
-- What one push does to the follower, and what it leaves alone.
use micros.Base.{
  ℕ, Str, Bool, false, ◌≡◌, refl, sym, ◌∙◌, subst, Option, none, some, List, [], ◌∷◌, Result, ok,
  err, arith,
}
use micros.Domain.Object.{ObjectMeta, is_ec}
use micros.Disk.{Disk, Error}
use micros.Disk.Frame.{SameAt}
use micros.Disk.Paths.{FilePath, is_under}
use micros.Storage.Layout.{staging_dir, data_path, meta_path}
use micros.Storage.Transactions.{computed_meta}
use micros.Storage.Isolation.{commit_files, Frame-delete_files}
use micros.Storage.Commit.{AreApart}
use micros.Storage.Objects.{delete_object}
use micros.Peers.{Fate, CallError, commit}
use micros.Replication.Parts.{Staged, Stored, prepare-Received, commit-Stored}
use micros.Replication.Frames.{prepare_kept, commit_kept, abort_kept, call_kept}
use micros.Sync.{KeyInfo, path_of, delete_each, handle_sync_delete, sync_delete}
use micros.Sync.Follower.{
  Setup, Pair, Request, push_tx, after_commit, after_prepare, deleted, delete_extraneous, send,
  push_object, source,
}
use micros.Sync.Reads.{source-Post}

module _ (s : Setup) (k : KeyInfo) where
  abbrev tx : Str
  tx = s.tx_id (path_of k)

  after_commit-Stored :
      (e : Option CallError) (d : Disk) (P : Disk → Type 0)
      → (e ≡ none → P d)
      → (after_commit s k (e, d)).0 ≡ none
      → P (after_commit s k (e, d)).1
  unfolding after_commit
  after_commit-Stored none d P p h = p refl
  after_commit-Stored (some e) d P p h = cc

  after_prepare-Stored :
      (e : Option CallError) (d : Disk) (m : ObjectMeta) (bs : List ℕ)
      → AreApart (staging_dir tx) k.bucket k.key
      → (e ≡ none → Staged tx k.bucket k.key m bs d)
      → (after_prepare s k (e, d)).0 ≡ none
      → Stored k.bucket k.key m bs (after_prepare s k (e, d)).1
  unfolding after_prepare
  after_prepare-Stored (some e) d m bs apart staged h = cc
  after_prepare-Stored none d m bs apart staged h =
      after_commit-Stored _ _ (Stored k.bucket k.key m bs)
        (commit-Stored (s.fate (Request.committing (path_of k))) tx k.bucket k.key m bs d apart
          (staged refl))
        h

  send-Stored :
      (bs : List ℕ) (meta : ObjectMeta) (d : Disk)
      → AreApart (staging_dir tx) k.bucket k.key
      → (send s k (ok (bs, meta)) d).0 ≡ none
      → Stored k.bucket k.key (computed_meta s.hashes meta bs) bs (send s k (ok (bs, meta)) d).1
  unfolding send
  send-Stored bs meta d apart h =
      after_prepare-Stored _ _ (computed_meta s.hashes meta bs) bs apart
        (prepare-Received (s.fate (Request.preparing (path_of k))) s.hashes s.clock (push_tx s k)
          meta bs d refl)
        h

  sent :
      (r : Result Error (List ℕ × ObjectMeta)) (bs : List ℕ) (meta : ObjectMeta) (d : Disk)
      → AreApart (staging_dir tx) k.bucket k.key
      → ((a : List ℕ × ObjectMeta) → r ≡ ok a → a ≡ (bs, meta))
      → (send s k r d).0 ≡ none
      → Stored k.bucket k.key (computed_meta s.hashes meta bs) bs (send s k r d).1
  unfolding send
  sent (err e) bs meta d apart same h = cc
  sent (ok a) bs meta d apart same h =
      subst
        (λ x.
          (send s k (ok x) d).0 ≡ none
          → Stored k.bucket k.key (computed_meta s.hashes meta bs) bs (send s k (ok x) d).1)
        (sym (same a refl)) (send-Stored bs meta d apart) h

  -- A push that succeeds stores what the leader has.
  pub push_object-Stored :
      (bs : List ℕ) (meta : ObjectMeta) (w : Pair)
      → AreApart (staging_dir tx) k.bucket k.key
      → is_ec meta ≡ false
      → Stored k.bucket k.key meta bs w.leader
      → (push_object s k w).0 ≡ none
      → Stored k.bucket k.key (computed_meta s.hashes meta bs) bs (push_object s k w).1.follower
  unfolding push_object
  push_object-Stored bs meta w apart replica has h =
      sent (source s.ec_reader k w.leader).0 bs meta w.follower apart
        (source-Post s.ec_reader k bs meta w.leader replica (has.1.0, (has.0, tt))).at h

  -- What a push may change on the follower.
  abbrev pub pushed_files : FilePath → Bool
  pushed_files = commit_files tx k.bucket k.key

  unstaged : (p : FilePath) → pushed_files p ≡ false → is_under (staging_dir tx) p ≡ false
  unfolding commit_files
  unstaged p h = ground arith

  after_commit_kept :
      (e : Option CallError) (d : Disk) (p : FilePath)
      → pushed_files p ≡ false
      → SameAt p d (after_commit s k (e, d)).1
  unfolding after_commit
  after_commit_kept none d p h = refl
  after_commit_kept (some e) d p h =
      abort_kept (s.fate (Request.aborting (path_of k))) tx d p (unstaged p h)

  after_prepare_kept :
      (e : Option CallError) (d : Disk) (p : FilePath)
      → pushed_files p ≡ false
      → SameAt p d (after_prepare s k (e, d)).1
  unfolding after_prepare
  after_prepare_kept (some e) d p h = refl
  after_prepare_kept none d p h =
      let fate = s.fate (Request.committing (path_of k)) in
      after_commit_kept (commit fate tx k.bucket k.key d).0 (commit fate tx k.bucket k.key d).1 p h
      ∙ commit_kept fate tx k.bucket k.key d p h

  send_kept :
      (r : Result Error (List ℕ × ObjectMeta)) (d : Disk) (p : FilePath)
      → pushed_files p ≡ false
      → SameAt p d (send s k r d).1
  unfolding send
  send_kept (err e) d p h = refl
  send_kept (ok (bs, meta)) d p h =
      after_prepare_kept _ _ p h
      ∙ prepare_kept (s.fate (Request.preparing (path_of k))) s.hashes s.clock (push_tx s k) meta
          (ok bs) d p (unstaged p h)

  pub push_object_kept :
      (w : Pair) (p : FilePath)
      → pushed_files p ≡ false
      → SameAt p w.follower (push_object s k w).1.follower
  unfolding push_object
  push_object_kept w p h = send_kept (source s.ec_reader k w.leader).0 w.follower p h

-- A file that is not among those of any of the objects, nor in their transactions' directories.
abbrev pub KeptBy : Setup → FilePath → List KeyInfo → Type 0
KeptBy s p [] = Unit {0}
KeptBy s p (k ∷ ks) = (pushed_files s k p ≡ false) × KeptBy s p ks

delete_each_kept :
    (s : Setup) (p : FilePath) (ks : List KeyInfo) (d : Disk)
    → KeptBy s p ks
    → SameAt p d (delete_each ks d)
unfolding delete_each delete_object
delete_each_kept s p [] d h = refl
delete_each_kept s p (k ∷ ks) d h =
    delete_each_kept s p ks _ h.1
    ∙ (Frame-delete_files (s.tx_id (path_of k)) k.bucket k.key).at d p h.0

pub sync_delete_kept :
    (s : Setup) (fate : Fate) (p : FilePath) (ks : List KeyInfo) (d : Disk)
    → KeptBy s p ks
    → SameAt p d (sync_delete fate ks d).1
unfolding sync_delete handle_sync_delete
sync_delete_kept s fate p ks d h = call_kept fate _ _ d p (delete_each_kept s p ks d h) refl

-- Both files of an object are clear of other objects.
abbrev pub Clear : Setup → KeyInfo → List KeyInfo → Type 0
Clear s k js = KeptBy s (data_path k.bucket k.key) js × KeptBy s (meta_path k.bucket k.key) js

answered_kept :
    (x : FilePath) (r : Option CallError × Disk) (w : Pair)
    → SameAt x w.follower r.1
    → SameAt x w.follower (deleted r w).1.follower
answered_kept x (none, f) w h = h
answered_kept x (some e, f) w h = h

pub delete_extraneous_kept :
    (s : Setup) (js : List KeyInfo) (w : Pair) (x : FilePath)
    → KeptBy s x js
    → SameAt x w.follower (delete_extraneous s js w).1.follower
unfolding delete_extraneous
delete_extraneous_kept s [] w x h = refl
delete_extraneous_kept s (j ∷ js) w x h =
    answered_kept x (sync_delete (s.fate Request.deleting) (j ∷ js) w.follower) w
      (sync_delete_kept s (s.fate Request.deleting) x (j ∷ js) w.follower h)
