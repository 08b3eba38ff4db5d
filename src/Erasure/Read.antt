-- ===== src/Erasure/Read.antt =====
-- What ReadECObject returns.
use micros.Base.{
  ℕ, ◌+◌, ◌≤◌, ◌<◌, false, ◌≡◌, refl, sym, ap, ◌∙◌, subst, Option, some, List, ok, inl, inr,
  Bool-cases, length, arith,
}
use micros.Domain.Object.{ObjectMeta, is_ec}
use micros.Codec.{encode, reconstruct, n_shards}
use micros.Codec.ReedSolomon.{Shard, Fits, present, IsReedSolomon}
use micros.Codec.RoundTrip.{reconstruct-encode, encode_total}
use micros.Disk.{meta_json, file_at}
use micros.Storage.Objects.{get_object, get_object_meta}
use micros.Replication.{World}
use micros.Erasure.{Links, give, locally, not_read}
use micros.Erasure.Gather.{
  Locations, gather, ask_locations, locate, rebuilt, read_coded, read_ec_object,
}
use micros.Erasure.Shares.{Coding, IsShare, info_file}
use micros.Erasure.Nodes.{Intact, Unchanged, Intact-Unchanged, Unchanged-local_meta}
use micros.Sync.Reads.{get_object-Post}
use micros.Erasure.Answers.{IsUncut, locally_ok, renamed_ok, get_object_meta_found}
use micros.Erasure.Located.{Located, locate_lem}
use micros.Erasure.Downloaded.{gather_lem}
use micros.Erasure.Runs.{bind_ok}

-- The codec works as documented, and the shards are what it makes of a non-empty object.
pub record IsEncoded (o : Coding) : Type 0 where
  pub laws : IsReedSolomon o.codec.k o.codec.m o.codec.enc
  pub some_data : 1 ≤ o.codec.k
  pub not_empty : 0 < length o.bytes
  pub made : encode o.codec o.bytes ≡ ok o.shards

pub length-shards : (o : Coding) → IsEncoded o → o.codec.k + o.codec.m ≡ length o.shards
unfolding n_shards
length-shards o e =
    let (es, made, n, sized) = encode_total o.codec o.bytes e.laws e.some_data in
    let same : es ≡ o.shards = cc (made, e.made) in sym n ∙ ap length same

-- What the codec rebuilds from k of the shards.
pub rebuilt_lem :
    (o : Coding) (slots : List (Option Shard)) (len : ℕ) (w : World) (got : List ℕ × List Shard)
    → IsEncoded o
    → Fits slots o.shards
    → o.codec.k ≤ present slots
    → len ≡ length o.bytes
    → (rebuilt o.codec slots len w).0 ≡ ok got
    → got ≡ (o.bytes, o.shards)
unfolding rebuilt
rebuilt_lem o slots len w got e fits enough size h =
    let whole =
      reconstruct-encode o.codec e.laws e.some_data o.bytes o.shards e.made slots fits enough
        e.not_empty in
    let there : reconstruct o.codec slots len ≡ ok (o.bytes, o.shards) =
      ap (reconstruct o.codec slots) size ∙ whole in
    let had = renamed_ok _ (reconstruct o.codec slots len) got h in cc (there, had)

module _ (o : Coding) (links : Links) (whole : IsUncut links) (e : IsEncoded o) (meta : ObjectMeta)
    (s : Shard) (is : IsShare o meta s) where
  pub all_shards : meta.ec_params.k + meta.ec_params.m ≡ length o.shards
  all_shards = omega (arith, is.same_k, is.same_m, length-shards o e)

  -- Steps 2 to 5: the shards are found, fetched and put together.
  pub rebuilt_ok :
      (w : World) (locs : Locations) (slots : List (Option Shard)) (got : List ℕ × List Shard)
      → Intact o w
      → (ask_locations links o.bucket o.key meta w).0 ≡ ok locs
      → (gather links o.bucket o.key meta.ec_params.k meta.ec_params.m locs
          (ask_locations links o.bucket o.key meta w).1).0
        ≡ ok slots
      → (rebuilt o.codec slots meta.content_length
          (gather links o.bucket o.key meta.ec_params.k meta.ec_params.m locs
            (ask_locations links o.bucket o.key meta w).1).1).0
        ≡ ok got
      → got ≡ (o.bytes, o.shards)
  unfolding ask_locations
  rebuilt_ok w locs slots got h asked gathered made =
      let k = meta.ec_params.k in
      let m = meta.ec_params.m in
      let (kept, located) = locate_lem o links k m w h in
      let w1 = (locate links o.bucket o.key k m w).1 in
      let same : (locate links o.bucket o.key k m w).0 ≡ locs = cc asked in
      let here : Located o w1 locs = subst (Located o w1) same located in
      let (fits, enough) =
        (gather_lem o links whole locs k m w1 here all_shards).1 slots gathered in
      rebuilt_lem o slots meta.content_length _ got e fits (omega (arith, is.same_k, enough))
        is.same_length made

  read_coded_ok :
      (w : World) (out : List ℕ) (m : ObjectMeta)
      → Intact o w
      → (read_coded links o.bucket o.key o.codec meta w).0 ≡ ok (out, m)
      → out ≡ o.bytes
  unfolding read_coded give
  read_coded_ok w out m h r =
      let (locs, asked, r1) = bind_ok (ask_locations links o.bucket o.key meta) _ w _ r in
      let (slots, gathered, r2) = bind_ok (gather links o.bucket o.key _ _ locs) _ _ _ r1 in
      let (got, made, r3) = bind_ok (rebuilt o.codec slots meta.content_length) _ _ _ r2 in
      let all = rebuilt_ok w locs slots got h asked gathered made in cc (r3, all)

read_whole :
    (o : Coding) (w : World) (meta : ObjectMeta) (out : List ℕ) (m : ObjectMeta)
    → Intact o w
    → file_at w.local (info_file o) ≡ some (meta_json meta)
    → is_ec meta ≡ false
    → (locally not_read (get_object o.bucket o.key) w).0 ≡ ok (out, m)
    → out ≡ o.bytes
read_whole o w meta out m h there plain r =
    let whole = h.leader.1.replica meta there plain in
    let same =
      (get_object-Post o.bucket o.key o.bytes meta w.local plain (there, (whole, tt))).at (out, m)
        (locally_ok not_read (get_object o.bucket o.key) w (out, m) r) in
    ap (λ p. p.0) same

-- Where the erasure-coded metadata on any node is that of a shard of the encoding which is on that
-- node's disk, and the leader has the object's bytes if its metadata is that of a replica, whatever
-- ReadECObject returns without an error is the object's bytes: whichever nodes answer, in whatever
-- order, and whichever requests and other calls fail, as long as no node answers a request for a
-- shard with success after the copying of the file broke off. The codec works as documented, and the
-- object is not empty.
pub read_ec_object-Intact :
    (o : Coding) (links : Links) (w : World) (out : List ℕ) (meta : ObjectMeta)
    → IsUncut links
    → IsEncoded o
    → Intact o w
    → (read_ec_object links o.bucket o.key o.codec w).0 ≡ ok (out, meta)
    → out ≡ o.bytes
unfolding read_ec_object
read_ec_object-Intact o links w out meta whole e h r =
    let (m, got, rest) = bind_ok (locally not_read (get_object_meta o.bucket o.key)) _ w _ r in
    let found =
      (get_object_meta_found o.bucket o.key w.local).at m
        (locally_ok not_read (get_object_meta o.bucket o.key) w m got) in
    let w1 = (locally not_read (get_object_meta o.bucket o.key) w).1 in
    let kept : Unchanged w w1 = Unchanged-local_meta o.bucket o.key w in
    let h1 : Intact o w1 = Intact-Unchanged o w w1 kept h in
    elim (Bool-cases (is_ec m)) [
      | inl coded ↦
          let (s, is, there) = h.leader.0.share m found coded in
          read_coded_ok o links whole e m s is w1 out meta h1 (rw coded at rest)
      | inr plain ↦
          read_whole o w1 m out meta h1 (kept.local_kept (info_file o) refl ∙ found) plain
            (rw plain at rest)
    ]
