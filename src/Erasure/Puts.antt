-- ===== src/Erasure/Puts.antt =====
-- Writing a shard of the object and removing its replica keep what a disk holds of it, at whatever
-- point they fail.
use micros.Base.{
  ℕ, ◌<◌, true, false, ◌≡◌, refl, subst, inl, inr, sym, ap, ◌∙◌, Bool-cases, Option, some, List, [],
  Result-cases, ok, err, length, get_elem?,
}
use micros.Domain.Object.{ObjectMeta, is_ec}
use micros.Codec.ReedSolomon.{Shard}
use micros.Disk.{
  M, pure, raise, ◌>>=◌, ◌>>◌, Disk, Content, bytes, meta_json, file_at, io, write_file, mkdir_all,
  sync_dir,
}
use micros.Disk.Frame.{SameAt, Frame, Frame-io}
use micros.Disk.Calls.{nowhere, Frame-write_file, Frame-mkdir_all, Frame-sync_dir}
use micros.Disk.Paths.{FilePath, path_eq, path_eq_iff, path_eq_comm, parent}
use micros.Disk.Writing.{write_file-Post, write_file_failed}
use micros.Storage.Isolation.{Frame-check_size, Frame-read_all}
use micros.Storage.Objects.{update_object_meta}
use micros.Storage.Shards.{put_ec_shard}
use micros.Storage.Transactions.{Reader, read_all, check_size}
use micros.Erasure.Shares.{
  Coded, Coded-same, Coding, info_file, shard_file, whole_file, IsShare, Shares, Whole, IsApart,
  below, SameFiles, quiet, Shares-same, Whole-same, bind_after,
}

written_at :
    (p : FilePath) (c : Content) (d : Disk)
    → (write_file p c d).0 ≡ ok tt
    → file_at (write_file p c d).1 p ≡ some c
written_at p c d h = ((write_file-Post p c [] d tt tt).at tt h).0

elsewhere :
    (p q : FilePath) (c : Content) (d : Disk)
    → path_eq p q ≡ false
    → SameAt q d (write_file p c d).1
elsewhere p q c d = (Frame-write_file {T = path_eq p} p c ((path_eq_iff p p).1 refl)).at d q

-- A write that succeeds or changes nothing.
by_result :
    (P : Disk → Type 0) (p : FilePath) (c : Content) (d : Disk)
    → (SameFiles d (write_file p c d).1 → P (write_file p c d).1)
    → (file_at (write_file p c d).1 p ≡ some c → P (write_file p c d).1)
    → P (write_file p c d).1
by_result P p c d same new = elim (Result-cases (write_file p c d).0) [
  | inl (tt, good) ↦ new (written_at p c d good)
  | inr (e, bad) ↦ same (λ q. write_file_failed p q c d.nodes d.faults e bad)
]

-- A predicate of disks that survives what PutECShard does for one shard.
pub record Survives (o : Coding) (i : ℕ) (s : Shard) (meta : ObjectMeta) (P : Disk → Type 0)
    : Type 0 where
  pub quietly : (d d' : Disk) → SameFiles d d' → P d → P d'
  pub shard : (d : Disk) → P d → P (write_file (shard_file o i) (bytes s) d).1
  pub info :
      (d : Disk)
      → file_at d (shard_file o i) ≡ some (bytes s)
      → P d
      → P (write_file (info_file o) (meta_json meta) d).1

read_all_ok :
    (reader : Reader) (b : List ℕ) (d : Disk) → (read_all reader d).0 ≡ ok b → reader ≡ ok b
unfolding read_all pure raise
read_all_ok (ok x) b d h = h
read_all_ok (err e) b d h = cc

pub Both-Survives :
    (o : Coding) (i : ℕ) (s : Shard) (meta : ObjectMeta) {P Q : Disk → Type 0}
    → Survives o i s meta P
    → Survives o i s meta Q
    → Survives o i s meta (λ d. P d × Q d)
Both-Survives o i s meta p q = record {
  quietly = λ d d' same h. (p.quietly d d' same h.0, q.quietly d d' same h.1);
  shard = λ d h. (p.shard d h.0, q.shard d h.1);
  info = λ d held h. (p.info d held h.0, q.info d held h.1);
}

module _ (o : Coding) (apart : IsApart o) (i : ℕ) (s : Shard) (meta : ObjectMeta)
    (index : meta.ec_chunk_index ≡ i) (is : IsShare o meta s) where
  in_place : get_elem? o.shards i ≡ some s
  in_place = rw (← index) is.in_place

  inside : i < length o.shards
  inside = below o.shards i s in_place

  info_apart : path_eq (shard_file o i) (info_file o) ≡ false
  info_apart = path_eq_comm (shard_file o i) (info_file o) ∙ apart.info_shard i inside

  write_shard-Shares :
      (d : Disk) → Shares o d → Shares o (write_file (shard_file o i) (bytes s) d).1
  write_shard-Shares d h =
      by_result (Shares o) (shard_file o i) (bytes s) d (λ same. Shares-same o d _ same h)
        λ new. record {
          share = λ m found coded.
              let (t, it, there) =
                h.share m
                  (sym (elsewhere (shard_file o i) (info_file o) (bytes s) d info_apart) ∙ found)
                  coded in
              let j = m.ec_chunk_index in
              (
                t,
                it,
                elim (Bool-cases (path_eq (shard_file o i) (shard_file o j))) [
                  | inl one ↦
                      let here : i ≡ j =
                        apart.shard_shard i j inside (below o.shards j t it.in_place) one in
                      let same : s ≡ t = cc (in_place, it.in_place, ap (get_elem? o.shards) here) in
                      ap (λ k. file_at (write_file (shard_file o i) (bytes s) d).1 (shard_file o k))
                        (sym here)
                      ∙ new
                      ∙ ap (λ x. some (bytes x)) same
                  | inr two ↦ elsewhere (shard_file o i) (shard_file o j) (bytes s) d two ∙ there
                ],
              );
        }

  write_info-Shares :
      (d : Disk)
      → file_at d (shard_file o i) ≡ some (bytes s)
      → Shares o d
      → Shares o (write_file (info_file o) (meta_json meta) d).1
  write_info-Shares d held h =
      by_result (Shares o) (info_file o) (meta_json meta) d (λ same. Shares-same o d _ same h)
        λ new. record {
          share = λ m found coded.
              let same : meta ≡ m = cc (new, found) in
              let there =
                subst
                  (λ j.
                    file_at (write_file (info_file o) (meta_json meta) d).1 (shard_file o j)
                    ≡ some (bytes s))
                  (sym index)
                  (elsewhere (info_file o) (shard_file o i) (meta_json meta) d
                      (apart.info_shard i inside)
                    ∙ held) in
              subst
                (λ x.
                  (t : Shard) × IsShare o x t
                  × (file_at (write_file (info_file o) (meta_json meta) d).1
                        (shard_file o x.ec_chunk_index)
                      ≡ some (bytes t)))
                same (s, is, there);
        }

  pub Shares-Survives : Survives o i s meta (Shares o)
  Shares-Survives = record {
    quietly = Shares-same o;
    shard = write_shard-Shares;
    info = write_info-Shares;
  }

  write_shard-Whole : (d : Disk) → Whole o d → Whole o (write_file (shard_file o i) (bytes s) d).1
  write_shard-Whole d h = record {
    replica = λ m found plain.
        elsewhere (shard_file o i) (whole_file o) (bytes s) d
          (path_eq_comm (shard_file o i) (whole_file o) ∙ apart.whole_shard i inside)
        ∙ h.replica m
            (sym (elsewhere (shard_file o i) (info_file o) (bytes s) d info_apart) ∙ found) plain;
  }

  write_info-Whole :
      is_ec meta ≡ true
      → (d : Disk) → file_at d (shard_file o i) ≡ some (bytes s)
      → Whole o d
      → Whole o (write_file (info_file o) (meta_json meta) d).1
  write_info-Whole coded d held h =
      by_result (Whole o) (info_file o) (meta_json meta) d (λ same. Whole-same o d _ same h)
        λ new. record {
          replica = λ m found plain.
              let same : meta ≡ m = cc (new, found) in cc (coded, plain, ap is_ec same);
        }

  pub Whole-Survives : is_ec meta ≡ true → Survives o i s meta (Whole o)
  Whole-Survives coded = record {
    quietly = Whole-same o;
    shard = write_shard-Whole;
    info = write_info-Whole coded;
  }

  pub Coded-Survives : is_ec meta ≡ true → Survives o i s meta (Coded o)
  Coded-Survives coded = record {
    quietly = Coded-same o;
    shard = λ d h. record {
      coded = λ m found.
          h.coded m (sym (elsewhere (shard_file o i) (info_file o) (bytes s) d info_apart) ∙ found);
    };
    info = λ d held h.
        by_result (Coded o) (info_file o) (meta_json meta) d (λ same. Coded-same o d _ same h)
          λ new. record {
            coded = λ m found. let same : meta ≡ m = cc (new, found) in sym (ap is_ec same) ∙ coded;
          };
  }

module _ (o : Coding) (i : ℕ) (s : Shard) (meta : ObjectMeta) (P : Disk → Type 0)
    (survives : Survives o i s meta P) where
  -- A step that changes no file, and then the rest.
  quiet_then :
      {A B : Type 0} (m : M A) (f : A → M B) (d : Disk)
      → Frame nowhere m
      → P d
      → ((a : A) → (m d).0 ≡ ok a → SameFiles d (m d).1 → P (m d).1 → P (f a (m d).1).1)
      → P ((m >>= f) d).1
  quiet_then m f d frame h rest =
      let still = quiet m d frame in
      let now = survives.quietly d (m d).1 still h in
      bind_after P m f d now λ a good. rest a good still now

  quiet_last : {A : Type 0} (m : M A) (d : Disk) → Frame nowhere m → P d → P (m d).1
  quiet_last m d frame h = survives.quietly d (m d).1 (quiet m d frame) h

  put_info_after :
      (d : Disk)
      → file_at d (shard_file o i) ≡ some (bytes s)
      → P d
      → P (update_object_meta o.bucket o.key meta d).1
  unfolding update_object_meta
  put_info_after d held h =
      let up = parent (info_file o) in
      quiet_then (mkdir_all up) _ d (Frame-mkdir_all up) h λ _ _ still now.
        let stored = survives.info (mkdir_all up d).1 (still (shard_file o i) ∙ held) now in
        bind_after P (write_file (info_file o) (meta_json meta)) _ (mkdir_all up d).1 stored
          λ _ _. quiet_last (sync_dir up) _ (Frame-sync_dir up) stored

  put_bytes_after :
      (d : Disk)
      → P d
      → P
          ((do
            write_file (shard_file o i) (bytes s)
            sync_dir (parent (shard_file o i))
            update_object_meta o.bucket o.key meta)
            d).1
  put_bytes_after d h =
      let stored = survives.shard d h in
      let dir = parent (shard_file o i) in
      bind_after P (write_file (shard_file o i) (bytes s)) _ d stored λ _ good.
        quiet_then (sync_dir dir) _ _ (Frame-sync_dir dir) stored λ _ _ still now.
          put_info_after _ (still (shard_file o i) ∙ written_at (shard_file o i) (bytes s) d good)
            now

  put_read_after :
      (b : List ℕ)
      → b ≡ s
      → (d : Disk) → P d
      → P
          ((do
            write_file (shard_file o i) (bytes b)
            sync_dir (parent (shard_file o i))
            update_object_meta o.bucket o.key meta)
            d).1
  put_read_after b e d h =
      subst
        (λ x.
          P
            ((do
              write_file (shard_file o i) (bytes x)
              sync_dir (parent (shard_file o i))
              update_object_meta o.bucket o.key meta)
              d).1)
        (sym e) (put_bytes_after d h)

  -- PutECShard with the shard's bytes or with a body that breaks off.
  pub put_ec_shard_after :
      (reader : Reader) (size : Option ℕ) (d : Disk)
      → ((b : List ℕ) → reader ≡ ok b → b ≡ s)
      → P d
      → P (put_ec_shard o.bucket o.key i reader size meta d).1
  unfolding put_ec_shard
  put_ec_shard_after reader size d same h =
      let dir = parent (shard_file o i) in
      quiet_then (mkdir_all dir) _ d (Frame-mkdir_all dir) h λ _ _ _ h1.
        quiet_then io _ _ Frame-io h1 λ _ _ _ h2.
          quiet_then (read_all reader) _ _ (Frame-read_all reader) h2 λ b got _ h3.
            quiet_then (check_size size (length b)) _ _ (Frame-check_size size (length b)) h3
              λ _ _ _ h4. put_read_after b (same b (read_all_ok reader b _ got)) _ h4
