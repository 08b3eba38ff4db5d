-- ===== src/Sync/Reads.antt =====
-- Listing the keys and reading an object change no file.
use micros.Base.{ℕ, suc, Str, Bool, false, ◌≡◌, refl, ap, Option, none, some, List, [], ◌∷◌, ◌++◌}
use micros.Domain.Object.{ObjectMeta, is_ec}
use micros.Disk.{M, Disk, Error, not_exist, bytes, meta_json}
use micros.Disk.Frame.{Frame, Frame-if, Frame-bind, Frame-pure, Frame-raise, Frame-recover}
use micros.Disk.Calls.{nowhere, frame_rules}
use micros.Disk.Post.{Post, Post-bind, Post-pure, Holds, read_file-Post}
use micros.Storage.Buckets.{list_buckets}
use micros.Disk.Paths.{FilePath}
use micros.Storage.Layout.{data_path, meta_path}
use micros.Storage.Isolation.{Frame-read_meta, Frame-as_bytes}
use micros.Storage.Moves.{read_meta-Post}
use micros.Storage.Staging.{as_bytes-Post}
use micros.Storage.Objects.{get_object_meta, get_object}
use micros.Storage.Objects.Listing.{
  Query, ObjectInfo, Page, list_objects, collect, place, read_keys, bucket_there, group_of,
}
use micros.Sync.{KeyInfo, keys_of, bucket_keys, buckets_keys, get_local_keys, whole_bucket}
use micros.Sync.Follower.{EcReader, Setup, source, read_source}

-- The reader of erasure-coded objects changes no file.
abbrev pub Reading : Setup → Type 0
Reading s =
    (reader : EcReader) → s.ec_reader ≡ some reader → (b key : Str) → Frame nowhere (reader b key)

module _ {T : FilePath → Bool} where
  Frame-get_object_meta : (b k : Str) → Frame T (get_object_meta b k)
  unfolding get_object_meta
  Frame-get_object_meta b k = Frame-read_meta (meta_path b k)

  pub Frame-get_object : (b k : Str) → Frame T (get_object b k)
  unfolding get_object
  Frame-get_object b k = search (frame_rules, Frame-get_object_meta, Frame-as_bytes)

  Frame-place :
      (q : Query) (count : ℕ) (key : Str) (rest : List Str) (same more : M Page) (g : Option Str)
      → Frame T same
      → Frame T more
      → Frame T (place q count key rest same more g)
  unfolding place
  Frame-place q count key rest same more (some cp) fs fm = search frame_rules
  Frame-place q count key rest same more none fs fm =
      Frame-recover _ _ _ (Frame-get_object_meta q.bucket key)
        (λ meta. Frame-if _ _ _ (Frame-pure _) (Frame-bind _ _ fm (λ p. Frame-pure _))) (λ e. fs)

  Frame-collect : (q : Query) (count : ℕ) (keys : List Str) → Frame T (collect q count keys)
  unfolding collect
  Frame-collect q count [] = search frame_rules
  Frame-collect q count (key ∷ rest) =
      Frame-if _ _ _
        (Frame-place q count key rest _ _ (group_of q key) (Frame-collect q count rest)
          (Frame-collect q (suc count) rest))
        (Frame-collect q count rest)

  Frame-read_keys : (p : FilePath) → Frame T (read_keys p)
  unfolding read_keys
  Frame-read_keys p = Frame-bind _ _ (search frame_rules) (λ _. record { at = λ d q h. refl })

  Frame-bucket_there : (e : Error) → Frame T (bucket_there e)
  unfolding bucket_there
  Frame-bucket_there not_exist = Frame-raise not_exist
  Frame-bucket_there e = Frame-pure tt

  Frame-list_objects : (q : Query) → Frame T (list_objects q)
  unfolding list_objects
  Frame-list_objects q =
      Frame-bind _ _
        (Frame-recover _ _ _ (search frame_rules) (λ e. Frame-pure tt) Frame-bucket_there)
        (λ _. search (frame_rules, Frame-read_keys, Frame-collect))

  Frame-keys_of : (b : Str) (cs : List ObjectInfo) → Frame T (keys_of b cs)
  unfolding keys_of
  Frame-keys_of b [] = search frame_rules
  Frame-keys_of b (c ∷ rest) =
      let others = Frame-keys_of b rest in
      Frame-recover _ _ _ (Frame-get_object_meta b c.key) (λ meta. search (frame_rules, others))
        (λ e. others)

  Frame-bucket_keys : (b : Str) → Frame T (bucket_keys b)
  unfolding bucket_keys
  Frame-bucket_keys b =
      Frame-recover _ _ _ (Frame-list_objects (whole_bucket b)) (λ p. Frame-keys_of b p.contents)
        (λ e. Frame-pure [])

  Frame-buckets_keys : (bs : List Str) → Frame T (buckets_keys bs)
  unfolding buckets_keys
  Frame-buckets_keys [] = search frame_rules
  Frame-buckets_keys (b ∷ rest) =
      Frame-bind _ _ (Frame-bucket_keys b)
        (λ keys. Frame-bind _ _ (Frame-buckets_keys rest) (λ others. Frame-pure (keys ++ others)))

  pub Frame-get_local_keys : Frame T get_local_keys
  unfolding get_local_keys list_buckets
  Frame-get_local_keys = search (frame_rules, Frame-buckets_keys)

  Frame-read_source :
      (r : Option EcReader) (k : KeyInfo) (meta : ObjectMeta)
      → ((reader : EcReader) → r ≡ some reader → (b key : Str) → Frame T (reader b key))
      → Frame T (read_source r k meta)
  unfolding read_source
  Frame-read_source none k meta h = Frame-get_object k.bucket k.key
  Frame-read_source (some reader) k meta h =
      Frame-if _ _ _ (h reader refl k.bucket k.key) (Frame-get_object k.bucket k.key)

  pub Frame-source :
      (r : Option EcReader) (k : KeyInfo)
      → ((reader : EcReader) → r ≡ some reader → (b key : Str) → Frame T (reader b key))
      → Frame T (source r k)
  unfolding source
  Frame-source r k h =
      Frame-bind _ _ (Frame-get_object_meta k.bucket k.key) (λ meta. Frame-read_source r k meta h)

-- A replica that is read.
pub get_object-Post :
    (b key : Str) (bs : List ℕ) (m : ObjectMeta) (d : Disk)
    → is_ec m ≡ false
    → Holds ((meta_path b key, meta_json m) ∷ (data_path b key, bytes bs) ∷ []) d
    → Post (λ a d'. a ≡ (bs, m)) (get_object b key d)
unfolding get_object get_object_meta
get_object-Post b key bs m d replica h =
    Post-bind _ _ d (read_meta-Post (meta_path b key) m ((data_path b key, bytes bs) ∷ []) d h)
      λ x d1 h1.
        rw (h1.0, replica)
          (Post-bind _ _ d1 (read_file-Post (data_path b key) (bytes bs) [] d1 (h1.1.1.0, tt))
            λ c d2 h2.
              Post-bind _ _ d2 (as_bytes-Post c bs d2 h2.0)
                λ y d3 h3. Post-pure (y, m) d3 (ap (λ z. (z, m)) h3))

read_source-Post :
    (r : Option EcReader) (k : KeyInfo) (x : ObjectMeta) (bs : List ℕ) (m : ObjectMeta) (d : Disk)
    → x ≡ m
    → is_ec m ≡ false
    → Holds ((meta_path k.bucket k.key, meta_json m) ∷ (data_path k.bucket k.key, bytes bs) ∷ []) d
    → Post (λ a d'. a ≡ (bs, m)) (read_source r k x d)
unfolding read_source
read_source-Post none k x bs m d same replica h = get_object-Post k.bucket k.key bs m d replica h
read_source-Post (some reader) k x bs m d same replica h =
    rw (same, replica) (get_object-Post k.bucket k.key bs m d replica h)

pub source-Post :
    (r : Option EcReader) (k : KeyInfo) (bs : List ℕ) (m : ObjectMeta) (d : Disk)
    → is_ec m ≡ false
    → Holds ((meta_path k.bucket k.key, meta_json m) ∷ (data_path k.bucket k.key, bytes bs) ∷ []) d
    → Post (λ a d'. a ≡ (bs, m)) (source r k d)
unfolding source get_object_meta
source-Post r k bs m d replica h =
    Post-bind _ _ d
      (read_meta-Post (meta_path k.bucket k.key) m ((data_path k.bucket k.key, bytes bs) ∷ []) d h)
      λ x d1 h1. read_source-Post r k x bs m d1 h1.0 replica h1.1
