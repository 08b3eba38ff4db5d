-- ===== src/Erasure/Delivered.antt =====
-- A conversion that succeeded has put a shard on each of the first nodes.
use micros.Base.{
  ℕ, zero, suc, ◌+◌, Str, str_eq, Bool, true, false, ◌≡◌, refl, sym, ap, ◌∙◌, subst, some, List, [],
  ◌∷◌, Result, ok, if◌then◌else◌, length, take, All, arith, ltb,
}
use micros.Domain.Object.{ObjectMeta, is_ec}
use micros.Codec.{encode, n_shards}
use micros.Codec.ReedSolomon.{Shard}
use micros.Disk.{Disk, bytes, meta_json, file_at}
use micros.Disk.Frame.{SameAt}
use micros.Disk.Paths.{FilePath}
use micros.Storage.Objects.{get_object}
use micros.Sync.Reads.{get_object-Post}
use micros.Cluster.Static.{alive_followers}
use micros.Replication.{World}
use micros.Replication.Frames.{Kept}
use micros.Erasure.{EcError, Links, ◌>>=◌, give, fail, renamed, locally, not_read, not_enough_nodes}
use micros.Erasure.Convert.{
  first_size, ec_meta, distribute, remove_replica_from_all_nodes, reclaim, encoded,
  ask_alive_followers, spread, convert_to_ec,
}
use micros.Erasure.Shares.{Coding, info_file, shard_file, whole_file, IsApart}
use micros.Erasure.Nodes.{disk_at}
use micros.Erasure.Answers.{locally_ok}
use micros.Erasure.Removals.{replica_only, Kept-remove_replicas}
use micros.Erasure.Placed.{Placed, Distinct, distribute-Placed}
use micros.Erasure.Runs.{bind_ok, bind_same}

kept_at :
    (L : FilePath → Bool) (w v : World) (a : Str) (p : FilePath)
    → Kept L L w v
    → L p ≡ false
    → SameAt p (disk_at w a) (disk_at v a)
kept_at L w v a p k other =
    both (str_eq a []) w.local (w.remote a) v.local (v.remote a) (k.local_kept p other)
      (k.remote_kept a p other)
  where
    both :
        (b : Bool) (d e f g : Disk)
        → SameAt p d f
        → SameAt p e g
        → SameAt p (if b then d else e) (if b then f else g)
    both true d e f g x y = x
    both false d e f g x y = y

module _ (o : Coding) (apart : IsApart o) (meta : ObjectMeta) where
  Placed-Kept :
      (i : ℕ) (shards : List Shard) (nodes : List Str) (w v : World)
      → Kept (replica_only o) (replica_only o) w v
      → i + length shards ≡ length o.shards
      → Placed o meta i shards nodes w
      → Placed o meta i shards nodes v
  Placed-Kept i shards [] w v k n h = tt
  Placed-Kept i [] (a ∷ nodes) w v k n h = h
  Placed-Kept i (s ∷ shards) (a ∷ nodes) w v k n (held, later) =
      let info = kept_at (replica_only o) w v a (info_file o) k apart.whole_info in
      let shard =
        kept_at (replica_only o) w v a (shard_file o i) k (apart.whole_shard i (omega arith)) in
      (
        (info ∙ held.0, (shard ∙ held.1.0, tt)),
        Placed-Kept (suc i) shards nodes w v k (omega arith) later,
      )

Kept-reclaim :
    (o : Coding) (links : Links) (followers : List Str) (w : World)
    → Kept (replica_only o) (replica_only o) w (reclaim links o.bucket o.key followers w).1
unfolding reclaim remove_replica_from_all_nodes
Kept-reclaim o links followers w = Kept-remove_replicas o links ([] ∷ followers) w

All-take : {A : Type 0} (P : A → Type 0) (n : ℕ) (xs : List A) → All P xs → All P (take n xs)
All-take P zero xs h = tt
All-take P (suc n) [] h = tt
All-take P (suc n) (x ∷ xs) h = (h.0, All-take P n xs h.1)

Distinct-take : (n : ℕ) (xs : List Str) → Distinct xs → Distinct (take n xs)
Distinct-take zero xs h = tt
Distinct-take (suc n) [] h = tt
Distinct-take (suc n) (a ∷ xs) h = (All-take _ n xs h.0, Distinct-take n xs h.1)

failed :
    {P : Type 0} (have need : ℕ) (w : World)
    → (fail {A = Unit {0}} (not_enough_nodes have need) w).0 ≡ ok tt
    → P
unfolding fail
failed have need w h = cc

read_first :
    (o : Coding) (links : Links) (w : World)
    → (convert_to_ec links o.bucket o.key o.codec w).0 ≡ ok tt
    → (got : List ℕ × ObjectMeta) × ((locally not_read (get_object o.bucket o.key) w).0 ≡ ok got)
unfolding convert_to_ec
read_first o links w h =
    let (got, good, later) = bind_ok (locally not_read (get_object o.bucket o.key)) _ w tt h in
    (got, good)

module _ (o : Coding) (links : Links) (meta : ObjectMeta) (first : Shard) (rest : List Shard)
    (all : o.shards ≡ first ∷ rest) where
  -- The first steps of a conversion whose reads succeed.
  convert_steps :
      (w : World)
      → (locally not_read (get_object o.bucket o.key) w).0 ≡ ok (o.bytes, meta)
      → encode o.codec o.bytes ≡ ok o.shards
      → convert_to_ec links o.bucket o.key o.codec w
        ≡ spread links o.bucket o.key o.codec meta o.shards
            (length first)
            (alive_followers w.members)
            (locally not_read (get_object o.bucket o.key) w).1
  unfolding convert_to_ec ◌>>=◌ encoded first_size ask_alive_followers give renamed locally
  convert_steps w read made = rw (read, made, all) refl

  -- With enough nodes, and every put successful.
  spread-Placed :
      (followers : List Str) (w : World)
      → IsApart o
      → Distinct ([] ∷ followers)
      → (spread links o.bucket o.key o.codec meta o.shards (length first) followers w).0 ≡ ok tt
      → Placed o
          (ec_meta o.codec (length first) meta)
          0
          o.shards
          (take (n_shards o.codec) ([] ∷ followers))
          (spread links o.bucket o.key o.codec meta o.shards (length first) followers w).1
  unfolding spread
  spread-Placed followers w apart distinct h =
      enough (ltb (length ([] ∷ followers)) (n_shards o.codec)) h
    where
      nodes : List Str
      nodes = take (n_shards o.codec) ([] ∷ followers)

      put : World → Result EcError (Unit {0}) × World
      put =
          distribute links o.bucket o.key (ec_meta o.codec (length first) meta) (length first) 0
            o.shards nodes

      reclaimed : World → Result EcError (Unit {0}) × World
      reclaimed = put >>= λ _. reclaim links o.bucket o.key followers

      enough :
          (b : Bool)
          → ((if b
                then fail (not_enough_nodes (length ([] ∷ followers)) (n_shards o.codec))
                else reclaimed)
              w).0
            ≡ ok tt
          → Placed o
              (ec_meta o.codec (length first) meta)
              0
              o.shards
              nodes
              ((if b
                  then fail (not_enough_nodes (length ([] ∷ followers)) (n_shards o.codec))
                  else reclaimed)
                w).1
      enough true g = failed (length ([] ∷ followers)) (n_shards o.codec) w g
      enough false g =
          let (u, good, later) = bind_ok put (λ _. reclaim links o.bucket o.key followers) w tt g in
          let same = bind_same put (λ _. reclaim links o.bucket o.key followers) w u good in
          let start : 0 + length o.shards ≡ length o.shards = omega arith in
          let placed =
            distribute-Placed o links (ec_meta o.codec (length first) meta) (length first) 0
              (length o.shards) o.shards nodes w apart.info_shard start
              (Distinct-take (n_shards o.codec) ([] ∷ followers) distinct) good in
          subst (λ r. Placed o (ec_meta o.codec (length first) meta) 0 o.shards nodes r.1)
            (sym same)
            (Placed-Kept o apart (ec_meta o.codec (length first) meta) 0 o.shards nodes (put w).1 _
              (Kept-reclaim o links followers (put w).1) start placed)

-- When ConvertToEC of a replica succeeds, the leader and the first n - 1 alive followers hold one
-- shard of the encoding each, in their order, with the object's metadata in the erasure-coded mode
-- and the shard's index: and the removal of the replica has left them there. The followers'
-- addresses differ, and the object's files have different paths.
pub convert_to_ec-Placed :
    (o : Coding) (links : Links) (meta : ObjectMeta) (first : Shard) (rest : List Shard) (w : World)
    → encode o.codec o.bytes ≡ ok o.shards
    → o.shards ≡ first ∷ rest
    → IsApart o
    → file_at w.local (info_file o) ≡ some (meta_json meta)
    → is_ec meta ≡ false
    → file_at w.local (whole_file o) ≡ some (bytes o.bytes)
    → Distinct ([] ∷ alive_followers w.members)
    → (convert_to_ec links o.bucket o.key o.codec w).0 ≡ ok tt
    → Placed o
        (ec_meta o.codec (length first) meta)
        0
        o.shards
        (take (n_shards o.codec) ([] ∷ alive_followers w.members))
        (convert_to_ec links o.bucket o.key o.codec w).1
convert_to_ec-Placed o links meta first rest w made all apart there plain whole distinct h =
    let (got, good) = read_first o links w h in
    let same =
      (get_object-Post o.bucket o.key o.bytes meta w.local plain (there, (whole, tt))).at got
        (locally_ok not_read (get_object o.bucket o.key) w got good) in
    let steps = convert_steps o links meta first rest all w (good ∙ ap ok same) made in
    subst
      (λ r.
        Placed o (ec_meta o.codec (length first) meta) 0 o.shards
          (take (n_shards o.codec) ([] ∷ alive_followers w.members)) r.1)
      (sym steps)
      (spread-Placed o links meta first rest all (alive_followers w.members) _ apart distinct
        (ap (λ r. r.0) (sym steps) ∙ h))
