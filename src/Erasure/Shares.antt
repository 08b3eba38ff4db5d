-- ===== src/Erasure/Shares.antt =====
-- What the disks hold of one erasure-coded object, and which actions of a node keep it.
use micros.Base.{
  ℕ, ◌<◌, Str, true, false, ◌≡◌, refl, sym, ◌∙◌, some, List, [], ◌∷◌, Result, ok, err, length,
  get_elem?, arith,
}
use micros.Domain.Object.{ObjectMeta, is_ec}
use micros.Codec.{Codec}
use micros.Codec.ReedSolomon.{Shard}
use micros.Disk.{M, Disk, Error, bytes, meta_json, file_at, ◌>>=◌, continue}
use micros.Disk.Frame.{SameAt, Frame}
use micros.Disk.Calls.{nowhere}
use micros.Disk.Paths.{FilePath, path_eq}
use micros.Storage.Layout.{data_path, meta_path, ec_shard_path}

-- An object, the codec it is encoded with, and the shards that this makes of it.
pub record Coding : Type 0 where
  pub codec : Codec
  pub bucket : Str
  pub key : Str
  pub bytes : List ℕ
  pub shards : List Shard

abbrev pub info_file : Coding → FilePath
info_file o = meta_path o.bucket o.key

abbrev pub shard_file : Coding → ℕ → FilePath
shard_file o i = ec_shard_path o.bucket o.key i

abbrev pub whole_file : Coding → FilePath
whole_file o = data_path o.bucket o.key

-- The metadata belongs to the encoding, and its index to a shard.
pub record IsShare (o : Coding) (meta : ObjectMeta) (s : Shard) : Type 0 where
  pub same_k : meta.ec_params.k ≡ o.codec.k
  pub same_m : meta.ec_params.m ≡ o.codec.m
  pub same_length : meta.content_length ≡ length o.bytes
  pub in_place : get_elem? o.shards meta.ec_chunk_index ≡ some s

-- Erasure-coded metadata on this disk is that of a shard of the encoding, which is there too.
pub record Shares (o : Coding) (d : Disk) : Type 0 where
  pub share :
      (meta : ObjectMeta)
      → file_at d (info_file o) ≡ some (meta_json meta)
      → is_ec meta ≡ true
      → (s : Shard) × IsShare o meta s
        × (file_at d (shard_file o meta.ec_chunk_index) ≡ some (bytes s))

-- Where the metadata is that of a replica, the whole object is there.
pub record Whole (o : Coding) (d : Disk) : Type 0 where
  pub replica :
      (meta : ObjectMeta)
      → file_at d (info_file o) ≡ some (meta_json meta)
      → is_ec meta ≡ false
      → file_at d (whole_file o) ≡ some (bytes o.bytes)

-- The object's metadata is not that of a replica.
pub record Coded (o : Coding) (d : Disk) : Type 0 where
  pub coded :
      (meta : ObjectMeta) → file_at d (info_file o) ≡ some (meta_json meta) → is_ec meta ≡ true

-- The files of the object are different files.
pub record IsApart (o : Coding) : Type 0 where
  pub info_shard : (i : ℕ) → i < length o.shards → path_eq (info_file o) (shard_file o i) ≡ false
  pub shard_shard :
      (i j : ℕ)
      → i < length o.shards
      → j < length o.shards
      → path_eq (shard_file o i) (shard_file o j) ≡ true
      → i ≡ j
  pub whole_info : path_eq (whole_file o) (info_file o) ≡ false
  pub whole_shard : (i : ℕ) → i < length o.shards → path_eq (whole_file o) (shard_file o i) ≡ false

pub below : {A : Type 0} (xs : List A) (i : ℕ) (x : A) → get_elem? xs i ≡ some x → i < length xs
below [] i x h = cc
below (y ∷ ys) ℕ.zero x h = omega arith
below (y ∷ ys) (ℕ.suc i) x h = omega (arith, below ys i x h)

-- Files that stay the same.
abbrev pub SameFiles : Disk → Disk → Type 0
SameFiles d d' = (p : FilePath) → SameAt p d d'

pub quiet : {A : Type 0} (m : M A) (d : Disk) → Frame nowhere m → SameFiles d (m d).1
quiet m d f p = f.at d p refl

pub Shares-same : (o : Coding) (d d' : Disk) → SameFiles d d' → Shares o d → Shares o d'
Shares-same o d d' same h = record {
  share = λ meta found coded.
      let (s, is, there) = h.share meta (sym (same (info_file o)) ∙ found) coded in
      (s, is, same (shard_file o meta.ec_chunk_index) ∙ there);
}

pub Whole-same : (o : Coding) (d d' : Disk) → SameFiles d d' → Whole o d → Whole o d'
Whole-same o d d' same h = record {
  replica = λ meta found plain.
      same (whole_file o) ∙ h.replica meta (sym (same (info_file o)) ∙ found) plain;
}

pub Coded-same : (o : Coding) (d d' : Disk) → SameFiles d d' → Coded o d → Coded o d'
Coded-same o d d' same h = record {
  coded = λ meta found. h.coded meta (sym (same (info_file o)) ∙ found);
}

-- What holds of the disk after a block, however it ends.
continue_after :
    {A B : Type 0} (P : Disk → Type 0) (r : Result Error A) (f : A → M B) (d : Disk)
    → P d
    → ((a : A) → r ≡ ok a → P (f a d).1)
    → P (continue r f d).1
continue_after P (ok a) f d h k = k a refl
continue_after P (err e) f d h k = h

pub bind_after :
    {A B : Type 0} (P : Disk → Type 0) (m : M A) (f : A → M B) (d : Disk)
    → P (m d).1
    → ((a : A) → (m d).0 ≡ ok a → P (f a (m d).1).1)
    → P ((m >>= f) d).1
unfolding ◌>>=◌
bind_after P m f d h k = continue_after P (m d).0 f (m d).1 h k
