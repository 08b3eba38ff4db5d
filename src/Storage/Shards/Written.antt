-- ===== src/Storage/Shards/Written.antt =====
-- What a shard that was put holds, and what reading it returns.
use micros.Base.{ℕ, Str, false, ◌≡◌, refl, Option, some, List, [], ◌∷◌, ok, length}
use micros.Domain.Object.{ObjectMeta}
use micros.Disk.{Disk, Content, bytes, meta_json, file_at, io, mkdir_all}
use micros.Disk.Frame.{Frame-io}
use micros.Disk.Calls.{Frame-mkdir_all, Frame-sync_dir}
use micros.Disk.Paths.{FilePath, path_eq, parent}
use micros.Disk.Post.{Post, Post-bind, Post-pure, Post-quiet, Holds, read_file-Post}
use micros.Disk.Writing.{write_file-Post}
use micros.Storage.Layout.{ec_shard_path, meta_path}
use micros.Storage.Isolation.{Frame-check_size}
use micros.Storage.Objects.{update_object_meta}
use micros.Storage.Transactions.{read_all}
use micros.Storage.Staging.{as_bytes-Post}
use micros.Storage.Shards.{put_ec_shard, get_ec_shard}

-- A shard and the object's metadata in place.
abbrev pub shard_files : Str → Str → ℕ → List ℕ → ObjectMeta → List (FilePath × Content)
shard_files bucket key i bs meta =
    (meta_path bucket key, meta_json meta) ∷ (ec_shard_path bucket key i, bytes bs) ∷ []

pub put_shard-Post :
    (bucket key : Str) (i : ℕ) (bs : List ℕ) (size : Option ℕ) (meta : ObjectMeta) (d : Disk)
    → path_eq (meta_path bucket key) (ec_shard_path bucket key i) ≡ false
    → Post
        (λ _. Holds (shard_files bucket key i bs meta))
        (put_ec_shard bucket key i (ok bs) size meta d)
unfolding put_ec_shard update_object_meta read_all
put_shard-Post bucket key i bs size meta d apart =
    let shard : FilePath = ec_shard_path bucket key i in
    let info : FilePath = meta_path bucket key in
    Post-bind (mkdir_all (parent shard)) _ d (Post-quiet _ [] d (Frame-mkdir_all (parent shard)) tt)
      λ _ d1 h1. Post-bind io _ d1 (Post-quiet io [] d1 Frame-io tt) λ _ d2 h2.
        Post-bind {P = λ b d'. bs ≡ b} (read_all (ok bs)) _ d2 (Post-pure bs d2 refl) λ b d3 same.
          Post-bind _ _ d3 (Post-quiet _ [] d3 (Frame-check_size size (length b)) tt) λ _ d4 h4.
            Post-bind _ _ d4 (write_file-Post shard (bytes b) [] d4 tt tt) λ _ d5 h5.
              Post-bind _ _ d5
                (Post-quiet _ ((shard, bytes b) ∷ []) d5 (Frame-sync_dir (parent shard)) h5)
                λ _ d6 h6.
                  Post-bind _ _ d6
                    (Post-quiet _ ((shard, bytes b) ∷ []) d6 (Frame-mkdir_all (parent info)) h6)
                    λ _ d7 h7.
                      Post-bind _ _ d7
                        (write_file-Post info (meta_json meta) ((shard, bytes b) ∷ []) d7
                          (apart, tt) h7)
                        λ _ d8 h8.
                          Post-quiet _ (shard_files bucket key i bs meta) d8
                            (Frame-sync_dir (parent info)) (rw same h8)

pub got_shard :
    (bucket key : Str) (i : ℕ) (bs : List ℕ) (d : Disk)
    → file_at d (ec_shard_path bucket key i) ≡ some (bytes bs)
    → Post (λ a d'. a ≡ bs) (get_ec_shard bucket key i d)
unfolding get_ec_shard
got_shard bucket key i bs d h =
    Post-bind _ _ d (read_file-Post (ec_shard_path bucket key i) (bytes bs) [] d (h, tt))
      λ x d1 h1. as_bytes-Post x bs d1 h1.0

-- Reading a shard after it was put without an error returns its bytes, if the read succeeds, and the
-- object's metadata is the one that was put with it. The shard's file and the metadata's are
-- different.
pub get_ec_shard-put_ec_shard :
    (bucket key : Str) (i : ℕ) (bs out : List ℕ) (size : Option ℕ) (meta : ObjectMeta) (d : Disk)
    → path_eq (meta_path bucket key) (ec_shard_path bucket key i) ≡ false
    → (put_ec_shard bucket key i (ok bs) size meta d).0 ≡ ok tt
    → (get_ec_shard bucket key i (put_ec_shard bucket key i (ok bs) size meta d).1).0 ≡ ok out
    → (out ≡ bs)
      × (file_at (put_ec_shard bucket key i (ok bs) size meta d).1 (meta_path bucket key)
          ≡ some (meta_json meta))
get_ec_shard-put_ec_shard bucket key i bs out size meta d apart done read =
    let held = (put_shard-Post bucket key i bs size meta d apart).at tt done in
    ((got_shard bucket key i bs _ held.1.0).at out read, held.0)
