-- ===== src/Replication/Phases.antt =====
-- The prepare and commit phases of a PUT as rounds.
use micros.Base.{
  ℕ, Str, str_eq, str_eq_iff, false, ◌≡◌, refl, sym, ap, ◌∙◌, subst, none, some, List, [], Result,
  ok, err,
}
use micros.Domain.Object.{ObjectMeta, Transaction, op_put}
use micros.Disk.{Disk, Error, Content, bytes, file_at}
use micros.Disk.Calls.{nowhere}
use micros.Disk.Paths.{FilePath}
use micros.Disk.Post.{Post, Post-bind, Holds, Frame-Holds, Untouched-nowhere, read_file-Post}
use micros.Storage.Layout.{staging_dir, staged_data}
use micros.Storage.Transactions.{computed_meta, get_staged_object}
use micros.Storage.Isolation.{Frame-get_staged_object}
use micros.Storage.Staging.{staged_files, as_bytes-Post}
use micros.Storage.Commit.{AreApart}
use micros.Cluster.Static.{Manager}
use micros.Replication.{World, Network, set_remote, prepare_one, commit_one, send_staged, Phase}
use micros.Replication.Rounds.{Round}
use micros.Replication.Parts.{Staged, Stored, prepare-Staged, commit-Stored}

get_staged_object-Post :
    (tx_id : Str) (bs : List ℕ) (d : Disk)
    → file_at d (staged_data (staging_dir tx_id)) ≡ some (bytes bs)
    → Post (λ a d'. a ≡ bs) (get_staged_object tx_id d)
unfolding get_staged_object
get_staged_object-Post tx_id bs d h =
    Post-bind _ _ d (read_file-Post (staged_data (staging_dir tx_id)) (bytes bs) [] d (h, tt))
      λ x d1 h1. as_bytes-Post x bs d1 h1.0

pub set_remote_here : (a : Str) (d : Disk) (w : World) → (set_remote a d w).remote a ≡ d
unfolding set_remote
set_remote_here a d w = rw ((str_eq_iff a a).1 refl) refl

pub set_remote_elsewhere :
    (a b : Str) (d : Disk) (w : World)
    → str_eq a b ≡ false
    → (set_remote a d w).remote b ≡ w.remote b
unfolding set_remote
set_remote_elsewhere a b d w h = rw h refl

module _ (net : Network) (tx : Transaction) (meta : ObjectMeta) (bs : List ℕ) (ms : Manager) where
  abbrev pub m : ObjectMeta
  m = computed_meta net.hashes meta bs

  abbrev pub files : List (FilePath × Content)
  files = staged_files (staging_dir tx.id) tx m bs

  -- The leader's own staged files, and its view of the nodes.
  abbrev pub LeaderStaged : World → Type 0
  LeaderStaged w = (w.members ≡ ms) × Holds files w.local

  send-stays :
      (a : Str) (r : Result Error (List ℕ)) (w : World)
      → LeaderStaged w
      → LeaderStaged (send_staged net tx m a r w).1
  unfolding send_staged set_remote
  send-stays a (ok b) w h = h
  send-stays a (err e) w h = h

  send-elsewhere :
      (a b : Str) (r : Result Error (List ℕ)) (w : World)
      → str_eq a b ≡ false
      → (send_staged net tx m a r w).1.remote b ≡ w.remote b
  unfolding send_staged
  send-elsewhere a b (ok x) w h = set_remote_elsewhere a b _ w h
  send-elsewhere a b (err e) w h = refl

  sent :
      (a : Str) (w : World)
      → tx.operation ≡ op_put
      → (send_staged net tx m a (ok bs) w).0 ≡ none
      → Staged tx.id tx.bucket tx.key m bs ((send_staged net tx m a (ok bs) w).1.remote a)
  unfolding send_staged
  sent a w op e = subst (Staged tx.id tx.bucket tx.key m bs) (sym (set_remote_here a _ w)) (
      prepare-Staged (net.fate Phase.preparing a) net.hashes (net.clock a) tx meta bs (w.remote a)
        op e)

  send-does :
      (a : Str) (r : Result Error (List ℕ)) (w : World)
      → tx.operation ≡ op_put
      → ((x : List ℕ) → r ≡ ok x → x ≡ bs)
      → (send_staged net tx m a r w).0 ≡ none
      → Staged tx.id tx.bucket tx.key m bs ((send_staged net tx m a r w).1.remote a)
  unfolding send_staged
  send-does a (err e) w op same h = cc
  send-does a (ok x) w op same h =
      subst
        (λ y.
          (send_staged net tx m a (ok y) w).0 ≡ none
          → Staged tx.id tx.bucket tx.key m bs ((send_staged net tx m a (ok y) w).1.remote a))
        (sym (same x refl)) (sent a w op) h

  -- For a PUT, whose bytes each follower gets from the leader's staging directory.
  part-send :
      (a : Str) (w : World)
      → tx.operation ≡ op_put
      → prepare_one net tx m a w
        ≡ send_staged net tx m a
            (get_staged_object tx.id w.local).0
            (record w { local = (get_staged_object tx.id w.local).1 })
  unfolding prepare_one
  part-send a w op = rw ((str_eq_iff tx.operation op_put).1 op) refl

  pub prepare-Round :
      tx.operation ≡ op_put
      → Round
          (prepare_one net tx m)
          LeaderStaged
          (λ a d. Unit {0})
          (λ a d. Staged tx.id tx.bucket tx.key m bs d)
  prepare-Round op = record {
    stays = λ a w h.
        subst (λ x. LeaderStaged x.1) (sym (part-send a w op)) (send-stays a _ _ (h.0, kept w h.1));
    elsewhere = λ a b w h.
        subst (λ x. x.1.remote b ≡ w.remote b) (sym (part-send a w op)) (send-elsewhere a b _ _ h);
    does = λ a w h before e.
        subst (λ x. Staged tx.id tx.bucket tx.key m bs (x.1.remote a)) (sym (part-send a w op))
          (send-does a _ _ op (get_staged_object-Post tx.id bs w.local h.1.1.1.0).at
            (ap (λ x. x.0) (sym (part-send a w op)) ∙ e));
  }
    where
      kept : (w : World) → Holds files w.local → Holds files (get_staged_object tx.id w.local).1
      kept w h =
          Frame-Holds (get_staged_object tx.id) files w.local
            (Frame-get_staged_object {T = nowhere} tx.id) (Untouched-nowhere files) h

  -- The commit phase touches neither the leader's disk nor its view.
  pub commit-Round :
      (d0 : Disk)
      → AreApart (staging_dir tx.id) tx.bucket tx.key
      → Round
          (commit_one net tx.id tx.bucket tx.key)
          (λ w. (w.members ≡ ms) × (w.local ≡ d0))
          (λ a d. Staged tx.id tx.bucket tx.key m bs d)
          (λ a d. Stored tx.bucket tx.key m bs d)
  unfolding commit_one
  commit-Round d0 apart = record {
    stays = λ a w h. unfold set_remote in h;
    elsewhere = λ a b w h. set_remote_elsewhere a b _ w h;
    does = λ a w h before e.
        subst (Stored tx.bucket tx.key m bs) (sym (set_remote_here a _ w))
          (commit-Stored _ tx.id tx.bucket tx.key m bs (w.remote a) apart before e);
  }
