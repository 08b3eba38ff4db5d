-- ===== src/Erasure/Distributed.antt =====
-- What distributing the shards leaves on the nodes, at whatever point it ends.
use micros.Base.{
  ℕ, suc, ◌+◌, Str, str_eq, true, ◌≡◌, refl, sym, ap, ◌∙◌, subst, some, List, [], ◌∷◌, Result, ok,
  err, length, get_elem?, arith,
}
use micros.Domain.Object.{ObjectMeta, is_ec}
use micros.Codec.{Codec}
use micros.Codec.ReedSolomon.{Shard}
use micros.Disk.{Disk}
use micros.Storage.Shards.Written.{put_shard-Post}
use micros.Replication.{World}
use micros.Erasure.{continue, EcError, Links, ◌>>=◌, give, fail, locally, not_written, put_at}
use micros.Erasure.Convert.{ec_meta, with_index, distribute}
use micros.Erasure.Shares.{Coding, IsShare, Shares, Whole, Coded, IsApart, below}
use micros.Erasure.Puts.{Survives, Shares-Survives, Whole-Survives, Coded-Survives, Both-Survives}
use micros.Erasure.Nodes.{Everywhere, Intact, put_at-Everywhere}
use micros.Erasure.Answers.{renamed_ok}
use micros.Erasure.Runs.{run_after}

pub is_ec-ec_meta :
    (c : Codec) (size i : ℕ) (meta : ObjectMeta) → is_ec (with_index i (ec_meta c size meta)) ≡ true
unfolding is_ec ec_meta str_eq
is_ec-ec_meta c size i meta = refl

pub ec_meta-IsShare :
    (o : Coding) (size i : ℕ) (meta : ObjectMeta) (s : Shard)
    → meta.content_length ≡ length o.bytes
    → get_elem? o.shards i ≡ some s
    → IsShare o (with_index i (ec_meta o.codec size meta)) s
unfolding ec_meta
ec_meta-IsShare o size i meta s len place = record {
  same_k = refl;
  same_m = refl;
  same_length = len;
  in_place = place;
}

module _ (o : Coding) (links : Links) (apart : IsApart o) (meta : ObjectMeta) (size : ℕ)
    (len : meta.content_length ≡ length o.bytes) where
  abbrev coded_meta : ObjectMeta
  coded_meta = ec_meta o.codec size meta

  module _ {L R : Disk → Type 0}
      (left : (i : ℕ) (s : Shard)
        → get_elem? o.shards i ≡ some s
        → Survives o i s (with_index i coded_meta) L)
      (right : (i : ℕ) (s : Shard)
        → get_elem? o.shards i ≡ some s
        → Survives o i s (with_index i coded_meta) R) where
    -- The shards that are left go to the nodes that are left.
    distribute_after :
        (i : ℕ) (rest : List Shard) (nodes : List Str) (w : World)
        → ((j : ℕ) → get_elem? rest j ≡ get_elem? o.shards (i + j))
        → Everywhere L R w
        → Everywhere L R (distribute links o.bucket o.key coded_meta size i rest nodes w).1
    unfolding distribute give fail
    distribute_after i [] [] w same h = h
    distribute_after i (s ∷ rest) [] w same h = h
    distribute_after i [] (a ∷ nodes) w same h = h
    distribute_after i (s ∷ rest) (a ∷ nodes) w same h =
        let here : i + 0 ≡ i = omega arith in
        let place : get_elem? o.shards i ≡ some s =
          sym (ap (get_elem? o.shards) here) ∙ sym (same 0) in
        let put =
          put_at-Everywhere o i s (with_index i coded_meta) links a size w (left i s place)
            (right i s place) h in
        run_after (put_at links o.bucket o.key a i s size (with_index i coded_meta)) _ w
          (Everywhere L R) put
          λ _ _.
            distribute_after (suc i) rest nodes _
              (λ j.
                let shift : i + suc j ≡ suc i + j = omega arith in
                same (suc j) ∙ ap (get_elem? o.shards) shift)
              put

  from_start : (j : ℕ) → get_elem? o.shards j ≡ get_elem? o.shards (0 + j)
  from_start j = let start : j ≡ 0 + j = omega arith in ap (get_elem? o.shards) start

  module _ (i : ℕ) (s : Shard) (place : get_elem? o.shards i ≡ some s) where
    follower_survives : Survives o i s (with_index i coded_meta) (Shares o)
    follower_survives =
        Shares-Survives o apart i s (with_index i coded_meta) refl
          (ec_meta-IsShare o size i meta s len place)

    leader_survives : Survives o i s (with_index i coded_meta) (λ d. Shares o d × Whole o d)
    leader_survives = Both-Survives o i s (with_index i coded_meta) follower_survives (
        Whole-Survives o apart i s (with_index i coded_meta) refl
          (ec_meta-IsShare o size i meta s len place) (is_ec-ec_meta o.codec size i meta))

    written_survives : Survives o i s (with_index i coded_meta) (Coded o)
    written_survives =
        Coded-Survives o apart i s (with_index i coded_meta) refl
          (ec_meta-IsShare o size i meta s len place) (is_ec-ec_meta o.codec size i meta)

  pub distribute-Intact :
      (nodes : List Str) (w : World)
      → Intact o w
      → Intact o (distribute links o.bucket o.key coded_meta size 0 o.shards nodes w).1
  distribute-Intact nodes w h =
      distribute_after leader_survives follower_survives 0 o.shards nodes w from_start h

  unit_survives : (i : ℕ) (s : Shard) → Survives o i s (with_index i coded_meta) (λ d. Unit {0})
  unit_survives i s = record {
    quietly = λ d d' same h. tt;
    shard = λ d h. tt;
    info = λ d held h. tt;
  }

  -- The leader's own shard comes first.
  put_at_leader :
      (s : Shard) (w : World)
      → get_elem? o.shards 0 ≡ some s
      → (put_at links o.bucket o.key [] 0 s size (with_index 0 coded_meta) w).0 ≡ ok tt
      → Coded o (put_at links o.bucket o.key [] 0 s size (with_index 0 coded_meta) w).1.local
  unfolding put_at locally str_eq
  put_at_leader s w place good =
      let info : ObjectMeta = with_index 0 coded_meta in
      let done = renamed_ok (not_written 0) _ tt good in
      let held =
        (put_shard-Post o.bucket o.key 0 s (some size) info w.local
            (apart.info_shard 0 (below o.shards 0 s place))).at
          tt done in
      record {
        coded = λ m found.
            let same : info ≡ m = cc (held.0, found) in
            sym (ap is_ec same) ∙ is_ec-ec_meta o.codec size 0 meta;
      }

  pub distribute-Coded :
      (rest : List Shard) (s : Shard) (nodes : List Str) (w : World)
      → o.shards ≡ s ∷ rest
      → (distribute links o.bucket o.key coded_meta size 0 (s ∷ rest) ([] ∷ nodes) w).0 ≡ ok tt
      → Coded o
          (distribute links o.bucket o.key coded_meta size 0 (s ∷ rest) ([] ∷ nodes) w).1.local
  unfolding distribute ◌>>=◌
  distribute-Coded rest s nodes w all h =
      first (put_at links o.bucket o.key [] 0 s size info w) refl h
    where
      info : ObjectMeta
      info = with_index 0 coded_meta

      first :
          (r : Result EcError (Unit {0}) × World)
          → put_at links o.bucket o.key [] 0 s size info w ≡ r
          → (continue r.0 (λ _. distribute links o.bucket o.key coded_meta size 1 rest nodes) r.1).0
            ≡ ok tt
          → Coded o
              (continue r.0
                (λ _. distribute links o.bucket o.key coded_meta size 1 rest nodes)
                r.1).1.local
      first (err e, v) same g = cc
      first (ok u, v) same g =
          let place : get_elem? o.shards 0 ≡ some s = ap (λ x. get_elem? x 0) all in
          let good = put_at_leader s w place (ap (λ x. x.0) same) in
          (distribute_after {R = λ d. Unit {0}} written_survives (λ i t p. unit_survives i t) 1 rest
            nodes v
            (λ j.
              let shift : 1 + j ≡ suc j = omega arith in
              sym (ap (get_elem? o.shards) shift ∙ ap (λ x. get_elem? x (suc j)) all))
            (record {
              leader = subst (λ x. Coded o x.1.local) same good;
              followers = λ a. tt;
            })).leader
