-- ===== src/Erasure/Converted.antt =====
-- What ConvertToEC leaves on the nodes, at whatever point it ends.
use micros.Base.{
  ℕ, zero, suc, ◌-◌, ◌<◌, Str, false, ◌≡◌, refl, sym, ap, subst, some, List, [], ◌∷◌, Result, ok,
  length, take, arith, ltb,
}
use micros.Domain.Object.{ObjectMeta, is_ec}
use micros.Codec.{Codec, encode, n_shards}
use micros.Codec.ReedSolomon.{Shard}
use micros.Disk.{meta_json, file_at}
use micros.Storage.Objects.{get_object}
use micros.Sync.Reads.{get_object-Post, Frame-get_object}
use micros.Replication.{World}
use micros.Replication.Frames.{Kept-local}
use micros.Erasure.{EcError, Links, give, fail, locally, not_read, not_encoded}
use micros.Erasure.Convert.{
  first_size, ec_meta, distribute, ask_alive_followers, encoded, spread, convert_to_ec,
}
use micros.Erasure.Shares.{Coding, info_file, Coded, IsApart}
use micros.Erasure.Nodes.{Intact, Unchanged, Intact-Unchanged, if_run}
use micros.Erasure.Answers.{locally_ok, renamed_ok}
use micros.Erasure.Removals.{reclaim-Intact}
use micros.Disk.Calls.{nowhere}
use micros.Erasure.Distributed.{distribute-Intact, distribute-Coded}
use micros.Erasure.Runs.{run_after}
use micros.Erasure.Read.{IsEncoded, length-shards}

first_of :
    {A : Type 0} (n : ℕ) (x : A) (xs : List A) → 0 < n → take n (x ∷ xs) ≡ x ∷ take (n - 1) xs
first_of zero x xs h = absurd (omega arith)
first_of (suc n) x xs h = let e : n ≡ suc n - 1 = omega arith in ap (λ k. x ∷ take k xs) e

nodes_of : Codec → List Str → List Str
nodes_of c followers = take (n_shards c) ([] ∷ followers)

nodes_of-cons :
    (o : Coding) (followers : List Str)
    → IsEncoded o
    → nodes_of o.codec followers ≡ [] ∷ take (n_shards o.codec - 1) followers
unfolding nodes_of n_shards
nodes_of-cons o followers e = first_of _ [] followers (omega (arith, e.some_data))

module _ (o : Coding) (links : Links) (apart : IsApart o) (e : IsEncoded o) (meta : ObjectMeta)
    (len : meta.content_length ≡ length o.bytes) (size : ℕ) (followers : List Str) where
  shared : List Shard → World → Result EcError (Unit {0}) × World
  shared shards =
      distribute links o.bucket o.key (ec_meta o.codec size meta) size 0 shards
        (nodes_of o.codec followers)

  shared-Coded :
      (shards : List Shard) (w : World)
      → o.shards ≡ shards
      → (shared shards w).0 ≡ ok tt
      → Coded o (shared shards w).1.local
  unfolding shared
  shared-Coded [] w same h =
      let n = length-shards o e in absurd (omega (arith, n, ap length same, e.some_data))
  shared-Coded (s ∷ rest) w same h =
      let cons = nodes_of-cons o followers e in
      subst
        (λ nodes.
          (distribute links o.bucket o.key (ec_meta o.codec size meta) size 0 (s ∷ rest) nodes w).0
            ≡ ok tt
          → Coded o
              (distribute links o.bucket o.key (ec_meta o.codec size meta) size 0 (s ∷ rest) nodes
                w).1.local)
        (sym cons)
        (distribute-Coded o links apart meta size len rest s (take (n_shards o.codec - 1) followers)
          w same)
        h

  spread-Intact :
      (w : World)
      → Intact o w
      → Intact o (spread links o.bucket o.key o.codec meta o.shards size followers w).1
  unfolding spread fail nodes_of shared
  spread-Intact w h = if_run (Intact o) (ltb (length ([] ∷ followers)) (n_shards o.codec)) _ _ w h (
      let here = distribute-Intact o links apart meta size len (nodes_of o.codec followers) w h in
      run_after (shared o.shards) _ w (Intact o) here λ u good.
        (reclaim-Intact o links followers _ apart here (shared-Coded o.shards w refl good)).0)

  -- With the bytes that were read and the shards that were made of them.
  spread_from :
      (got : List ℕ × ObjectMeta) (shards : List Shard) (w : World)
      → got ≡ (o.bytes, meta)
      → shards ≡ o.shards
      → Intact o w
      → Intact o (spread links o.bucket o.key o.codec got.1 shards size followers w).1
  spread_from got shards w read made h =
      subst (λ x. Intact o (spread links o.bucket o.key o.codec got.1 x size followers w).1)
        (sym made)
        (subst (λ x. Intact o (spread links o.bucket o.key o.codec x.1 o.shards size followers w).1)
          (sym read) (spread-Intact w h))

encoded_shards :
    (o : Coding) (e : IsEncoded o) (got : List ℕ × ObjectMeta) (shards : List Shard) (w : World)
    → got.0 ≡ o.bytes
    → (encoded o.codec got.0 w).0 ≡ ok shards
    → shards ≡ o.shards
unfolding encoded
encoded_shards o e got shards w same h =
    cc (renamed_ok not_encoded (encode o.codec got.0) shards h, e.made, ap (encode o.codec) same)

size_after :
    (o : Coding) (shards : List Shard) (w : World) → Intact o w → Intact o (first_size shards w).1
unfolding first_size give fail
size_after o [] w h = h
size_after o (s ∷ rest) w h = h

Unchanged-read :
    (bucket key : Str) (w : World) → Unchanged w (locally not_read (get_object bucket key) w).1
unfolding locally
Unchanged-read bucket key w =
    Kept-local _ w λ p q. (Frame-get_object {T = nowhere} bucket key).at w.local p q

-- However ConvertToEC ends, on whichever node and at whichever call it fails: erasure-coded metadata of
-- the object on any node is still that of a shard of the encoding which is on that node's disk, and
-- the leader still has the object's bytes if its metadata is that of a replica, where both held
-- before. The leader has the object as a replica when it starts; the codec works as documented, the
-- object is not empty, and its files have different paths.
pub convert_to_ec-Intact :
    (o : Coding) (links : Links) (meta : ObjectMeta) (w : World)
    → IsEncoded o
    → IsApart o
    → file_at w.local (info_file o) ≡ some (meta_json meta)
    → is_ec meta ≡ false
    → meta.content_length ≡ length o.bytes
    → Intact o w
    → Intact o (convert_to_ec links o.bucket o.key o.codec w).1
unfolding convert_to_ec ask_alive_followers encoded
convert_to_ec-Intact o links meta w e apart there plain len h =
    let read = locally not_read (get_object o.bucket o.key) in
    let h1 = Intact-Unchanged o w (read w).1 (Unchanged-read o.bucket o.key w) h in
    let whole = h.leader.1.replica meta there plain in
    run_after read _ w (Intact o) h1 λ got good.
      let same =
        (get_object-Post o.bucket o.key o.bytes meta w.local plain (there, (whole, tt))).at got
          (locally_ok not_read (get_object o.bucket o.key) w got good) in
      run_after (encoded o.codec got.0) _ (read w).1 (Intact o) h1 λ shards made.
        run_after (first_size shards) _ (read w).1 (Intact o) (size_after o shards (read w).1 h1)
          λ size sized.
            let w2 = (first_size shards (read w).1).1 in
            run_after ask_alive_followers _ w2 (Intact o) (size_after o shards (read w).1 h1)
              λ followers _.
                spread_from o links apart e meta len size followers got shards w2 same
                  (encoded_shards o e got shards (read w).1 (ap (λ x. x.0) same) made)
                  (size_after o shards (read w).1 h1)
