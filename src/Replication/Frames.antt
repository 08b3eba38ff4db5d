-- ===== src/Replication/Frames.antt =====
-- Which files a phase of two-phase commit leaves alone.
use micros.Base.{
  ℕ, Str, str_eq, Bool, true, false, ◌≡◌, refl, ◌∙◌, subst, inl, inr, Bool-cases, str_eq_iff,
  Option, List, [], ◌∷◌, Result, ok, err, if◌then◌else◌,
}
use micros.Domain.Object.{ObjectMeta, Transaction, op_put}
use micros.Disk.{Disk, Error}
use micros.Disk.Frame.{SameAt}
use micros.Disk.Paths.{FilePath, is_under}
use micros.Storage.Layout.{staging_dir}
use micros.Storage.Transactions.{Hashes, Reader, get_staged_object}
use micros.Storage.Isolation.{
  commit_files, Frame-stage_object, Frame-abort_transaction, Frame-commit_transaction,
  Frame-get_staged_object,
}
use micros.Peers.{
  Fate, CallError, PrepareRequest, call, check_status, prepare, commit, abort, handle_prepare,
  handle_commit, handle_abort, received,
}
use micros.Cluster.Static.{Manager}
use micros.Replication.{
  World, Network, set_remote, over, prepare_one, prepare_all, commit_one, commit_all, abort_one,
  abort_all, send_staged,
}

-- No file changes at p, on the leader unless L holds of p, on any other node unless R does.
pub record Kept (L R : FilePath → Bool) (w w' : World) : Type 0 where
  pub local_kept : (p : FilePath) → L p ≡ false → SameAt p w.local w'.local
  pub remote_kept : (a : Str) (p : FilePath) → R p ≡ false → SameAt p (w.remote a) (w'.remote a)

either_kept :
    {A : Type 0} (b : Bool) (x y : A × Disk) (d : Disk) (p : FilePath)
    → SameAt p d x.1
    → SameAt p d y.1
    → SameAt p d (if b then x else y).1
either_kept true x y d p hx hy = hx
either_kept false x y d p hx hy = hy

-- A call of the client changes what the handler changes.
pub call_kept :
    (fate : Fate) (whole cut_off : Disk → ℕ × Disk) (d : Disk) (p : FilePath)
    → SameAt p d (whole d).1
    → SameAt p d (cut_off d).1
    → SameAt p d (call fate whole cut_off d).1
unfolding call check_status
call_kept Fate.lost whole cut_off d p hw hc = refl
call_kept Fate.broken whole cut_off d p hw hc = hc
call_kept Fate.reply_lost whole cut_off d p hw hc = hw
call_kept Fate.delivered whole cut_off d p hw hc = hw

handle_prepare_kept :
    (h : Hashes) (now : ℕ) (r : PrepareRequest) (d : Disk) (p : FilePath)
    → is_under (staging_dir r.tx_id) p ≡ false
    → SameAt p d (handle_prepare h now r d).1
unfolding handle_prepare
handle_prepare_kept h now r d p o =
    either_kept _ _ _ d p refl
      ((Frame-stage_object h r.tx_id r.body r.content_length r.meta (received r now)).at d p o)

pub prepare_kept :
    (fate : Fate) (h : Hashes) (now : ℕ) (tx : Transaction) (meta : ObjectMeta) (body : Reader)
    (d : Disk) (p : FilePath)
    → is_under (staging_dir tx.id) p ≡ false
    → SameAt p d (prepare fate h now tx meta body d).1
unfolding prepare
prepare_kept fate h now tx meta body d p o =
    call_kept fate _ _ d p (handle_prepare_kept h now _ d p o) (handle_prepare_kept h now _ d p o)

pub abort_kept :
    (fate : Fate) (tx_id : Str) (d : Disk) (p : FilePath)
    → is_under (staging_dir tx_id) p ≡ false
    → SameAt p d (abort fate tx_id d).1
unfolding abort handle_abort
abort_kept fate tx_id d p o = call_kept fate _ _ d p ((Frame-abort_transaction tx_id).at d p o) refl

pub commit_kept :
    (fate : Fate) (tx_id bucket key : Str) (d : Disk) (p : FilePath)
    → commit_files tx_id bucket key p ≡ false
    → SameAt p d (commit fate tx_id bucket key d).1
unfolding commit handle_commit
commit_kept fate tx_id bucket key d p o =
    call_kept fate _ _ d p ((Frame-commit_transaction tx_id bucket key).at d p o) refl

module _ {L R : FilePath → Bool} where
  pub Kept-refl : (w : World) → Kept L R w w
  Kept-refl w = record { local_kept = λ p h. refl; remote_kept = λ a p h. refl }

  pub Kept-trans : (u v w : World) → Kept L R u v → Kept L R v w → Kept L R u w
  Kept-trans u v w f g = record {
    local_kept = λ p h. g.local_kept p h ∙ f.local_kept p h;
    remote_kept = λ a p h. g.remote_kept a p h ∙ f.remote_kept a p h;
  }

  pub Kept-set_remote :
      (a : Str) (d : Disk) (w : World)
      → ((p : FilePath) → R p ≡ false → SameAt p (w.remote a) d)
      → Kept L R w (set_remote a d w)
  unfolding set_remote
  Kept-set_remote a d w same = record {
    local_kept = λ p h. refl;
    remote_kept = λ b p h. elim (Bool-cases (str_eq a b)) [
      | inl same_node ↦
          rw same_node
            (subst (λ c. SameAt p (w.remote c) d) ((str_eq_iff a b).0 same_node) (same p h))
      | inr other ↦ rw other refl
    ];
  }

  pub Kept-if :
      {A : Type 0} (b : Bool) (x y : A × World) (w : World)
      → Kept L R w x.1
      → Kept L R w y.1
      → Kept L R w (if b then x else y).1
  Kept-if true x y w hx hy = hx
  Kept-if false x y w hx hy = hy

  pub Kept-over :
      (f : Str → World → Option CallError × World)
      → ((a : Str) (w : World) → Kept L R w (f a w).1)
      → (addrs : List Str) (w : World) → Kept L R w (over f addrs w).1
  unfolding over
  Kept-over f each [] w = Kept-refl w
  Kept-over f each (a ∷ rest) w =
      Kept-trans w (f a w).1 (over f (a ∷ rest) w).1 (each a w) (Kept-over f each rest (f a w).1)

  -- The leader's view of the nodes is no file.
  pub Kept-members :
      (w v : World) (m : Manager) → Kept L R (record w { members = m }) v → Kept L R w v
  Kept-members w v m k = record { local_kept = k.local_kept; remote_kept = k.remote_kept }

  pub Kept-local :
      (d : Disk) (w : World)
      → ((p : FilePath) → L p ≡ false → SameAt p w.local d)
      → Kept L R w (record w { local = d })
  Kept-local d w same = record { local_kept = same; remote_kept = λ a p h. refl }

abbrev staged_only : Transaction → FilePath → Bool
staged_only tx = is_under (staging_dir tx.id)

-- Preparing and aborting leave every node's files outside the staging directory alone.
module _ (net : Network) (tx : Transaction) (meta : ObjectMeta) {L : FilePath → Bool} where
  Kept-send_staged :
      (a : Str) (bytes : Result Error (List ℕ)) (w : World)
      → Kept L (staged_only tx) w (send_staged net tx meta a bytes w).1
  unfolding send_staged
  Kept-send_staged a (err e) w = Kept-refl w
  Kept-send_staged a (ok bs) w = Kept-set_remote a _ w λ p o. prepare_kept _ _ _ tx meta _ _ p o

  Kept-prepare_one :
      (a : Str) (w : World) → Kept L (staged_only tx) w (prepare_one net tx meta a w).1
  unfolding prepare_one
  Kept-prepare_one a w =
      let w1 : World = record w { local = (get_staged_object tx.id w.local).1 } in
      Kept-if (str_eq tx.operation op_put) _ _ w
        (Kept-trans w w1 _
          (Kept-local _ w λ p o. (Frame-get_staged_object {T = L} tx.id).at w.local p o)
          (Kept-send_staged a (get_staged_object tx.id w.local).0 w1))
        (Kept-set_remote a _ w λ p o. prepare_kept _ _ _ tx meta _ _ p o)

  pub Kept-prepare_all : (w : World) → Kept L (staged_only tx) w (prepare_all net tx meta w).1
  unfolding prepare_all
  Kept-prepare_all w = Kept-over (prepare_one net tx meta) Kept-prepare_one _ w

module _ (net : Network) (tx_id : Str) {L : FilePath → Bool} where
  pub Kept-abort_all :
      (w : World) → Kept L (is_under (staging_dir tx_id)) w (abort_all net tx_id w).1
  unfolding abort_all abort_one
  Kept-abort_all w =
      Kept-over (abort_one net tx_id) (λ a v. Kept-set_remote a _ v λ p o. abort_kept _ tx_id _ p o)
        _ w

  -- Committing changes the object's files besides.
  pub Kept-commit_all :
      (bucket key : Str) (w : World)
      → Kept L (commit_files tx_id bucket key) w (commit_all net tx_id bucket key w).1
  unfolding commit_all commit_one
  Kept-commit_all bucket key w =
      Kept-over (commit_one net tx_id bucket key)
        (λ a v. Kept-set_remote a _ v λ p o. commit_kept _ tx_id bucket key _ p o) _ w
