-- ===== src/Erasure/Repaired.antt =====
-- What RepairECObject leaves on the nodes, at whatever point it ends.
use micros.Base.{
  ℕ, suc, ◌+◌, Str, true, ◌≡◌, refl, sym, ap, ◌∙◌, subst, Option, none, some, List, [], ◌∷◌, ok,
  inl, inr, Bool-cases, length, get_elem?, arith, leb,
}
use micros.Base.Assoc.{lookup, nat_Eq}
use micros.Domain.Object.{ObjectMeta, is_ec}
use micros.Codec.ReedSolomon.{Shard}
use micros.Cluster.Static.{known_followers}
use micros.Storage.Objects.{get_object_meta}
use micros.Replication.{World}
use micros.Erasure.{Links, give, locally, not_read}
use micros.Erasure.Convert.{with_index}
use micros.Erasure.Gather.{Locations, ask_locations, gather, rebuilt}
use micros.Erasure.Repair.{
  push_shard, push_missing, redistribute, repair_missing, repair_coded, repair_ec_object,
}
use micros.Erasure.Shares.{Coding, IsShare, Shares, Whole, IsApart}
use micros.Erasure.Puts.{Survives, Shares-Survives, Whole-Survives, Both-Survives}
use micros.Erasure.Nodes.{
  Intact, Unchanged, Intact-Unchanged, put_at-Everywhere, if_run, Unchanged-local_meta,
}
use micros.Erasure.Answers.{IsUncut, locally_ok, get_object_meta_found}
use micros.Erasure.Located.{Located, locate_lem}
use micros.Erasure.Downloaded.{gather_lem}
use micros.Erasure.Read.{IsEncoded, rebuilt_ok, all_shards}
use micros.Erasure.Runs.{run_after}

is_ec-with_index : (i : ℕ) (meta : ObjectMeta) → is_ec (with_index i meta) ≡ is_ec meta
unfolding is_ec
is_ec-with_index i meta = refl

module _ (o : Coding) (links : Links) (whole : IsUncut links) (apart : IsApart o) (e : IsEncoded o)
    (meta : ObjectMeta) (t : Shard) (is : IsShare o meta t) (coded : is_ec meta ≡ true) where
  module _ (i : ℕ) (s : Shard) (place : get_elem? o.shards i ≡ some s) where
    moved-IsShare : IsShare o (with_index i meta) s
    moved-IsShare = record {
      same_k = is.same_k;
      same_m = is.same_m;
      same_length = is.same_length;
      in_place = place;
    }

    pushed_follower : Survives o i s (with_index i meta) (Shares o)
    pushed_follower = Shares-Survives o apart i s (with_index i meta) refl moved-IsShare

    pushed_leader : Survives o i s (with_index i meta) (λ d. Shares o d × Whole o d)
    pushed_leader = Both-Survives o i s (with_index i meta) pushed_follower (
        Whole-Survives o apart i s (with_index i meta) refl moved-IsShare
          (is_ec-with_index i meta ∙ coded))

  rebuilt_after :
      (slots : List (Option Shard)) (w : World)
      → Intact o w
      → Intact o (rebuilt o.codec slots meta.content_length w).1
  unfolding rebuilt
  rebuilt_after slots w h = h

  push_shard-Intact :
      (i : ℕ) (s : Shard) (holder : Option Str) (nodes : List Str) (w : World)
      → get_elem? o.shards i ≡ some s
      → Intact o w
      → Intact o (push_shard links o.bucket o.key meta i s holder nodes w).1
  unfolding push_shard
  push_shard-Intact i s (some a) nodes w place h = h
  push_shard-Intact i s none [] w place h = h
  push_shard-Intact i s none (a ∷ nodes) w place h =
      put_at-Everywhere o i s (with_index i meta) links a (length s) w (pushed_leader i s place)
        (pushed_follower i s place) h

  push_missing-Intact :
      (locs : Locations) (i : ℕ) (rest : List Shard) (nodes : List Str) (w : World)
      → ((j : ℕ) → get_elem? rest j ≡ get_elem? o.shards (i + j))
      → Intact o w
      → Intact o (push_missing links o.bucket o.key meta locs i rest nodes w)
  unfolding push_missing
  push_missing-Intact locs i [] nodes w same h = h
  push_missing-Intact locs i (s ∷ rest) nodes w same h =
      let here : i + 0 ≡ i = omega arith in
      let place : get_elem? o.shards i ≡ some s =
        sym (ap (get_elem? o.shards) here) ∙ sym (same 0) in
      push_missing-Intact locs (suc i) rest _ _
        (λ j.
          let shift : i + suc j ≡ suc i + j = omega arith in
          same (suc j) ∙ ap (get_elem? o.shards) shift)
        (push_shard-Intact i s (lookup i locs) nodes w place h)

  redistribute-Intact :
      (locs : Locations) (got : List ℕ × List Shard) (w : World)
      → got ≡ (o.bytes, o.shards)
      → Intact o w
      → Intact o (redistribute links o.bucket o.key meta locs got.1 w).1
  unfolding redistribute
  redistribute-Intact locs got w same h =
      push_missing-Intact locs 0 got.1 ([] ∷ known_followers w.members) w
        (λ j.
          let start : j ≡ 0 + j = omega arith in
          ap (λ x. get_elem? x.1 j) same ∙ ap (get_elem? o.shards) start)
        h

  asked_lem :
      (w : World) (locs : Locations)
      → Intact o w
      → (ask_locations links o.bucket o.key meta w).0 ≡ ok locs
      → Unchanged w (ask_locations links o.bucket o.key meta w).1
        × Located o (ask_locations links o.bucket o.key meta w).1 locs
  unfolding ask_locations
  asked_lem w locs h asked =
      let (kept, located) = locate_lem o links meta.ec_params.k meta.ec_params.m w h in
      (kept, subst (Located o _) (cc asked) located)

  asked-Intact : (w : World) → Intact o w → Intact o (ask_locations links o.bucket o.key meta w).1
  unfolding ask_locations
  asked-Intact w h =
      Intact-Unchanged o w _ (locate_lem o links meta.ec_params.k meta.ec_params.m w h).0 h

  repair_missing-Intact :
      (w : World) (locs : Locations)
      → Intact o w
      → (ask_locations links o.bucket o.key meta w).0 ≡ ok locs
      → Intact o
          (repair_missing links o.bucket o.key o.codec meta locs
            (ask_locations links o.bucket o.key meta w).1).1
  unfolding repair_missing
  repair_missing-Intact w locs h asked =
      let k = meta.ec_params.k in
      let m = meta.ec_params.m in
      let w1 = (ask_locations links o.bucket o.key meta w).1 in
      let (kept, located) = asked_lem w locs h asked in
      let read =
        (gather_lem o links whole locs k m w1 located (all_shards o links whole e meta t is)).0 in
      let h2 = Intact-Unchanged o w1 _ read (asked-Intact w h) in
      run_after (gather links o.bucket o.key k m locs) _ w1 (Intact o) h2 λ slots gathered.
        run_after (rebuilt o.codec slots meta.content_length) _ _ (Intact o)
          (rebuilt_after slots _ h2)
          λ got made.
            redistribute-Intact locs got _
              (rebuilt_ok o links whole e meta t is w locs slots got h asked gathered made)
              (rebuilt_after slots _ h2)

  repair_coded-Intact :
      (w : World) → Intact o w → Intact o (repair_coded links o.bucket o.key o.codec meta w).1
  unfolding repair_coded give
  repair_coded-Intact w h =
      let h1 = asked-Intact w h in
      run_after (ask_locations links o.bucket o.key meta) _ w (Intact o) h1 λ locs asked.
        if_run (Intact o) (leb (meta.ec_params.k + meta.ec_params.m) (length locs)) _ _ _ h1
          (repair_missing-Intact w locs h asked)

-- However RepairECObject ends, and whichever requests and other calls fail: erasure-coded metadata of
-- the object on any node is still that of a shard of the encoding which is on that node's disk, and
-- the leader still has the object's bytes if its metadata is that of a replica, where both held
-- before. No node answers a request for a shard with success after the copying of the file broke off,
-- the codec works as documented, the object is not empty, and its files have different paths.
pub repair_ec_object-Intact :
    (o : Coding) (links : Links) (w : World)
    → IsUncut links
    → IsEncoded o
    → IsApart o
    → Intact o w
    → Intact o (repair_ec_object links o.bucket o.key o.codec w).1
unfolding repair_ec_object give
repair_ec_object-Intact o links w whole e apart h =
    let read = locally not_read (get_object_meta o.bucket o.key) in
    let h1 = Intact-Unchanged o w (read w).1 (Unchanged-local_meta o.bucket o.key w) h in
    run_after read _ w (Intact o) h1 λ meta good.
      let found =
        (get_object_meta_found o.bucket o.key w.local).at meta
          (locally_ok not_read (get_object_meta o.bucket o.key) w meta good) in
      elim (Bool-cases (is_ec meta)) [
        | inl coded ↦
            let (t, is, there) = h.leader.0.share meta found coded in
            rw coded (repair_coded-Intact o links whole apart e meta t is coded (read w).1 h1)
        | inr plain ↦ rw plain h1
      ]
