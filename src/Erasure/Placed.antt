-- ===== src/Erasure/Placed.antt =====
-- Where the shards are after ConvertToEC succeeded.
use micros.Base.{
  ℕ, suc, ◌+◌, Str, str_eq, str_eq_iff, false, ◌≡◌, refl, sym, ap, ◌∙◌, subst, Option, none, some,
  List, [], ◌∷◌, ok, inl, inr, Bool-cases, length, All, arith, ◌<◌,
}
use micros.Domain.Object.{ObjectMeta}
use micros.Codec.ReedSolomon.{Shard}
use micros.Disk.{Disk}
use micros.Disk.Post.{Holds}
use micros.Disk.Paths.{path_eq}
use micros.Storage.Shards.Written.{shard_files, put_shard-Post}
use micros.Peers.{CallError}
use micros.Peers.Delivered.{put_remote_shard-Holds}
use micros.Replication.{World, set_remote}
use micros.Replication.Phases.{set_remote_here, set_remote_elsewhere}
use micros.Erasure.{
  EcError, Links, give, fail, done, locally, telling, not_written, not_pushed, push_request, put_at,
}
use micros.Erasure.Convert.{with_index, distribute}
use micros.Erasure.Shares.{Coding, info_file, shard_file}
use micros.Erasure.Nodes.{disk_at, if_run, telling_after}
use micros.Erasure.Answers.{renamed_ok}
use micros.Erasure.Runs.{bind_ok, bind_same, run_after}

-- A node holds its shard, with the metadata of the object and the shard's index.
abbrev pub HoldsShard : Coding → ObjectMeta → ℕ → Shard → Disk → Type 0
HoldsShard o meta i s = Holds (shard_files o.bucket o.key i s (with_index i meta))

-- The nodes, in their order, hold the shards from index i on.
abbrev pub Placed : Coding → ObjectMeta → ℕ → List Shard → List Str → World → Type 0
Placed o meta i shards [] w = Unit {0}
Placed o meta i [] (a ∷ nodes) w = ⊥
Placed o meta i (s ∷ shards) (a ∷ nodes) w =
    HoldsShard o meta i s (disk_at w a) × Placed o meta (suc i) shards nodes w

-- No two of the addresses are the same.
abbrev pub Distinct : List Str → Type 0
Distinct [] = Unit {0}
Distinct (a ∷ rest) = All (λ b. str_eq b a ≡ false) rest × Distinct rest

telling_ok :
    (wrap : CallError → EcError) (a : Str) (f : Disk → Option CallError × Disk) (w : World)
    → (telling wrap a f w).0 ≡ ok tt
    → ((f (w.remote a)).0 ≡ none) × ((telling wrap a f w).1 ≡ set_remote a (f (w.remote a)).1 w)
unfolding telling
telling_ok wrap a f w h = answer (f (w.remote a)).0 (set_remote a (f (w.remote a)).1 w) h
  where
    answer :
        (r : Option CallError) (v : World)
        → (done wrap (r, v)).0 ≡ ok tt
        → (r ≡ none) × ((done wrap (r, v)).1 ≡ v)
    answer none v g = (refl, refl)
    answer (some e) v g = cc

module _ (o : Coding) (links : Links) (i : ℕ) (s : Shard) (size : ℕ) (meta : ObjectMeta) where
  -- A put leaves the other nodes' disks as they are.
  put_at_elsewhere :
      (a b : Str) (w : World)
      → str_eq a b ≡ false
      → disk_at (put_at links o.bucket o.key a i s size meta w).1 b ≡ disk_at w b
  unfolding put_at locally
  put_at_elsewhere a b w other = elim (Bool-cases (str_eq b [])) [
    | inl leader ↦
        let away : str_eq a [] ≡ false = ap (str_eq a) (sym ((str_eq_iff b []).0 leader)) ∙ other in
        rw (leader, away)
          (telling_after (λ v. v.local ≡ w.local) (not_pushed i a) a _ w
            (unfold set_remote in refl))
    | inr follower ↦ rw follower (
        if_run (λ v. v.remote b ≡ w.remote b) (str_eq a []) _ _ w refl
          (telling_after (λ v. v.remote b ≡ w.remote b) (not_pushed i a) a _ w
            (set_remote_elsewhere a b _ w other)))
  ]

  put_at-Holds :
      (a : Str) (w : World)
      → path_eq (info_file o) (shard_file o i) ≡ false
      → (put_at links o.bucket o.key a i s size meta w).0 ≡ ok tt
      → Holds
          (shard_files o.bucket o.key i s meta)
          (disk_at (put_at links o.bucket o.key a i s size meta w).1 a)
  unfolding put_at locally
  put_at-Holds a w apart good = elim (Bool-cases (str_eq a [])) [
    | inl leader ↦
        let here = rw leader at good in
        rw leader (
          (put_shard-Post o.bucket o.key i s (some size) meta w.local apart).at tt
            (renamed_ok (not_written i) _ tt here))
    | inr follower ↦
        let there = rw follower at good in
        let (fine, same) = telling_ok (not_pushed i a) a _ w there in
        rw follower (
          subst (λ v. Holds (shard_files o.bucket o.key i s meta) (v.remote a)) (sym same)
            (subst (Holds (shard_files o.bucket o.key i s meta)) (sym (set_remote_here a _ w)) (
              put_remote_shard-Holds o.bucket o.key i s (some size) meta apart
                (links.fate (push_request i) a) (w.remote a) fine)))
  ]

module _ (o : Coding) (links : Links) (meta : ObjectMeta) (size : ℕ) where
  distribute_elsewhere :
      (a : Str) (i : ℕ) (shards : List Shard) (nodes : List Str) (w : World)
      → All (λ b. str_eq b a ≡ false) nodes
      → disk_at (distribute links o.bucket o.key meta size i shards nodes w).1 a ≡ disk_at w a
  unfolding distribute give fail
  distribute_elsewhere a i [] [] w others = refl
  distribute_elsewhere a i (s ∷ shards) [] w others = refl
  distribute_elsewhere a i [] (b ∷ nodes) w others = refl
  distribute_elsewhere a i (s ∷ shards) (b ∷ nodes) w others =
      let put = put_at links o.bucket o.key b i s size (with_index i meta) in
      let same = put_at_elsewhere o links i s size (with_index i meta) b a w others.0 in
      run_after put _ w (λ v. disk_at v a ≡ disk_at w a) same
        λ _ _. distribute_elsewhere a (suc i) shards nodes (put w).1 others.1 ∙ same

  pub distribute-Placed :
      (i n : ℕ) (shards : List Shard) (nodes : List Str) (w : World)
      → ((j : ℕ) → j < n → path_eq (info_file o) (shard_file o j) ≡ false)
      → i + length shards ≡ n
      → Distinct nodes
      → (distribute links o.bucket o.key meta size i shards nodes w).0 ≡ ok tt
      → Placed o meta i shards nodes (distribute links o.bucket o.key meta size i shards nodes w).1
  unfolding distribute give fail
  distribute-Placed i n [] [] w apart len distinct h = tt
  distribute-Placed i n (s ∷ shards) [] w apart len distinct h = tt
  distribute-Placed i n [] (a ∷ nodes) w apart len distinct h = cc
  distribute-Placed i n (s ∷ shards) (a ∷ nodes) w apart len distinct h =
      let put = put_at links o.bucket o.key a i s size (with_index i meta) in
      let rest = distribute links o.bucket o.key meta size (suc i) shards nodes in
      let (u, good, later) = bind_ok put (λ _. rest) w tt h in
      let same = bind_same put (λ _. rest) w u good in
      let held =
        put_at-Holds o links i s size (with_index i meta) a w (apart i (omega arith)) good in
      let kept = distribute_elsewhere a (suc i) shards nodes (put w).1 distinct.0 in
      subst (λ r. Placed o meta i (s ∷ shards) (a ∷ nodes) r.1) (sym same)
        (
          subst (HoldsShard o meta i s) (sym kept) held,
          distribute-Placed (suc i) n shards nodes (put w).1 apart (omega arith) distinct.1 later,
        )
