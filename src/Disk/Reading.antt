-- ===== src/Disk/Reading.antt =====
-- What a file held that was read.
use micros.Base.{◌≡◌, refl, sym, ◌∙◌, Option, none, some, ap}
use micros.Disk.{
  Disk, Content, Entry, dir, file, io, node_at, file_at, content_of, get_node, read_file,
  read_entry, stat, stat_entry, raise, not_exist, is_directory,
}
use micros.Disk.Frame.{Frame-io}
use micros.Disk.Calls.{nowhere}
use micros.Disk.Paths.{FilePath}
use micros.Disk.Post.{Post, Post-bind, Post-pure, Post-raise, got}

read_entry_found :
    (o t : Option Entry) (d : Disk)
    → content_of o ≡ content_of t
    → Post (λ x _. content_of t ≡ some x) (read_entry o d)
unfolding read_entry raise
read_entry_found none t d h = Post-raise not_exist d
read_entry_found (some dir) t d h = Post-raise is_directory d
read_entry_found (some (file c)) t d h = Post-pure c d (sym h)

-- A read that succeeds returns what the file held.
pub read_file_found : (p : FilePath) (d : Disk) → Post (λ x _. file_at d p ≡ some x) (read_file p d)
unfolding read_file file_at
read_file_found p d =
    Post-bind {P = λ _ d'. file_at d' p ≡ file_at d p} io _ d
      (record { at = λ _ _. (Frame-io {T = nowhere}).at d p refl })
      λ _ d1 same.
        Post-bind (get_node p) _ d1
          (got p d1 (λ o _. content_of o ≡ content_of (node_at d p)) (unfold file_at in same))
          λ o d2 h. read_entry_found o (node_at d p) d2 h

stat_entry_found :
    (o : Option Entry) (c : Content) (d : Disk)
    → content_of o ≡ some c
    → Post (λ e _. e ≡ file c) (stat_entry o d)
unfolding stat_entry
stat_entry_found none c d h = cc
stat_entry_found (some dir) c d h = cc
stat_entry_found (some (file x)) c d h =
    let same : x ≡ c = cc h in Post-pure (file x) d (ap file same)

-- A file that is there is what a call of os.Stat or os.Open finds.
pub stat-Post :
    (p : FilePath) (c : Content) (d : Disk)
    → file_at d p ≡ some c
    → Post (λ e _. e ≡ file c) (stat p d)
unfolding stat file_at
stat-Post p c d h =
    Post-bind {P = λ _ d'. file_at d' p ≡ file_at d p} io _ d
      (record { at = λ _ _. (Frame-io {T = nowhere}).at d p refl })
      λ _ d1 same.
        Post-bind (get_node p) _ d1
          (got p d1 (λ o _. content_of o ≡ some c) ((unfold file_at in same) ∙ h))
          λ o d2 there. stat_entry_found o c d2 there
