-- ===== src/Erasure/Removals.antt =====
-- Removing an object's replica leaves its shards alone.
use micros.Base.{Str, str_eq, Bool, false, ◌≡◌, refl, sym, ◌∙◌, List, [], ◌∷◌}
use micros.Disk.{Disk}
use micros.Disk.Frame.{SameAt, Frame}
use micros.Disk.Calls.{frame_rules}
use micros.Disk.Paths.{FilePath, path_eq, path_eq_iff}
use micros.Storage.Frames.{Frame-clean_empty_dirs}
use micros.Storage.Objects.{remove_replica_data}
use micros.Peers.{Fate}
use micros.Peers.Shards.{is_unnamed, handle_ec_remove_replica, remove_remote_replica}
use micros.Replication.{World}
use micros.Replication.Frames.{Kept, Kept-refl, Kept-trans, Kept-set_remote, Kept-local, call_kept}
use micros.Erasure.{Links, locally, remove_request, not_removed_on, remove_at}
use micros.Erasure.Convert.{remove_replicas, remove_replica_from_all_nodes, reclaim}
use micros.Erasure.Shares.{
  Coded, Coding, info_file, shard_file, whole_file, Shares, Whole, IsApart, below,
}
use micros.Erasure.Nodes.{Intact, if_run, if_disk, telling_after}

abbrev pub replica_only : Coding → FilePath → Bool
replica_only o = path_eq (whole_file o)

Frame-remove_replica_data :
    (o : Coding) → Frame (replica_only o) (remove_replica_data o.bucket o.key)
unfolding remove_replica_data
Frame-remove_replica_data o =
    search (frame_rules, (path_eq_iff (whole_file o) (whole_file o)).1 refl, Frame-clean_empty_dirs)

module _ (o : Coding) where
  remove_remote_kept :
      (fate : Fate) (d : Disk) (p : FilePath)
      → replica_only o p ≡ false
      → SameAt p d (remove_remote_replica fate o.bucket o.key d).1
  unfolding remove_remote_replica handle_ec_remove_replica
  remove_remote_kept fate d p other =
      let one =
        if_disk (SameAt p d) (is_unnamed o.bucket o.key) (400, d) _ refl
          ((Frame-remove_replica_data o).at d p other) in
      call_kept fate _ _ d p one one

  Kept-remove_at :
      (links : Links) (a : Str) (w : World)
      → Kept (replica_only o) (replica_only o) w (remove_at links o.bucket o.key a w).1
  unfolding remove_at locally
  Kept-remove_at links a w =
      if_run (Kept (replica_only o) (replica_only o) w) (str_eq a []) _ _ w
        (Kept-local _ w λ p q. (Frame-remove_replica_data o).at w.local p q)
        (telling_after (Kept (replica_only o) (replica_only o) w) (not_removed_on a) a _ w (
          Kept-set_remote a _ w
            λ p q. remove_remote_kept (links.fate remove_request a) (w.remote a) p q))

  pub Kept-remove_replicas :
      (links : Links) (nodes : List Str) (w : World)
      → Kept (replica_only o) (replica_only o) w (remove_replicas links o.bucket o.key nodes w).1
  unfolding remove_replicas
  Kept-remove_replicas links [] w = Kept-refl w
  Kept-remove_replicas links (a ∷ rest) w =
      Kept-trans w (remove_at links o.bucket o.key a w).1 _ (Kept-remove_at links a w)
        (Kept-remove_replicas links rest _)

  module _ (apart : IsApart o) (d d' : Disk)
      (same : (p : FilePath) → replica_only o p ≡ false → SameAt p d d') where
    same_info : SameAt (info_file o) d d'
    same_info = same (info_file o) apart.whole_info

    Shares-removed : Shares o d → Shares o d'
    Shares-removed h = record {
      share = λ meta found coded.
          let (s, is, there) = h.share meta (sym same_info ∙ found) coded in
          let i = meta.ec_chunk_index in
          (
            s,
            is,
            same (shard_file o i) (apart.whole_shard i (below o.shards i s is.in_place)) ∙ there,
          );
    }

    Coded-removed : Coded o d → Coded o d'
    Coded-removed h = record { coded = λ meta found. h.coded meta (sym same_info ∙ found) }

  -- Where the metadata is that of a shard, the replica is not needed.
  Whole-Coded : (d : Disk) → Coded o d → Whole o d
  Whole-Coded d h = record { replica = λ meta found plain. cc (h.coded meta found) }

  pub reclaim-Intact :
      (links : Links) (followers : List Str) (w : World)
      → IsApart o
      → Intact o w
      → Coded o w.local
      → Intact o (reclaim links o.bucket o.key followers w).1
        × Coded o (reclaim links o.bucket o.key followers w).1.local
  unfolding reclaim remove_replica_from_all_nodes
  reclaim-Intact links followers w apart h c =
      let kept = Kept-remove_replicas links ([] ∷ followers) w in
      let coded = Coded-removed apart w.local _ kept.local_kept c in
      (
        record {
          leader = (Shares-removed apart w.local _ kept.local_kept h.leader.0, Whole-Coded _ coded);
          followers = λ a. Shares-removed apart (w.remote a) _ (kept.remote_kept a) (h.followers a);
        },
        coded,
      )
