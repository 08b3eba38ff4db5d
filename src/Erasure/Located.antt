-- ===== src/Erasure/Located.antt =====
-- The locations that the nodes' answers give, and what is downloaded from them.
use micros.Base.{
  ℕ, ◌⊎◌, Str, Bool, true, false, ◌≡◌, refl, sym, ◌∙◌, subst, Option, none, some, List, [], ◌∷◌,
  Result, ok, err, if◌then◌else◌, inl, inr, Bool-cases, get_elem?, arith, ◌==◌, ==→eq,
}
use micros.Base.Assoc.{lookup, lookup-insert, nat_Eq}
use micros.Domain.Object.{ObjectMeta, is_ec}
use micros.Codec.ReedSolomon.{Shard, Fits}
use micros.Disk.{bytes, meta_json, file_at}
use micros.Cluster.Static.{known_followers}
use micros.Replication.{World}
use micros.Replication.Frames.{Kept-refl, Kept-trans}
use micros.Erasure.{EcError, Links, meta_at}
use micros.Erasure.Gather.{Locations, counts, noted, locate_among, locate, slot_of, fetch_slot}
use micros.Erasure.Shares.{Coding, info_file, shard_file, Shares}
use micros.Erasure.Nodes.{
  Intact, Unchanged, Intact-Unchanged, disk_at, Unchanged-disk_at, Intact-disk_at,
  Unchanged-meta_at, Unchanged-shard_at,
}
use micros.Erasure.Answers.{IsUncut, meta_at_found, shard_at_found}

-- Where a location says that a shard is, that shard of the encoding is.
pub record Located (o : Coding) (w : World) (locs : Locations) : Type 0 where
  pub at :
      (i : ℕ) (a : Str)
      → lookup i locs ≡ some a
      → (s : Shard) × (get_elem? o.shards i ≡ some s)
        × (file_at (disk_at w a) (shard_file o i) ≡ some (bytes s))

pub Located-Unchanged :
    (o : Coding) (w v : World) (locs : Locations)
    → Unchanged w v
    → Located o w locs
    → Located o v locs
Located-Unchanged o w v locs k h = record {
  at = λ i a found.
      let (s, place, there) = h.at i a found in
      (s, place, Unchanged-disk_at w v a k (shard_file o i) ∙ there);
}

counts-is_ec : (k m : ℕ) (meta : ObjectMeta) → counts k m meta ≡ true → is_ec meta ≡ true
unfolding counts
counts-is_ec k m meta h = ground arith

found_after :
    (b : Bool) (a c : Str) (old : Option Str)
    → (if b then some a else old) ≡ some c
    → ((b ≡ true) × (a ≡ c)) ⊎ (old ≡ some c)
found_after true a c old h = inl (refl, cc)
found_after false a c old h = inr h

noted-Located :
    (o : Coding) (w : World) (k m : ℕ) (a : Str) (r : Result EcError ObjectMeta) (locs : Locations)
    → Shares o (disk_at w a)
    → ((meta : ObjectMeta)
        → r ≡ ok meta
        → file_at (disk_at w a) (info_file o) ≡ some (meta_json meta))
    → Located o w locs
    → Located o w (noted k m a r locs)
unfolding noted
noted-Located o w k m a (err e) locs shares answer h = h
noted-Located o w k m a (ok meta) locs shares answer h = elim (Bool-cases (counts k m meta)) [
  | inr other ↦ rw other h
  | inl yes_counts ↦ rw yes_counts record {
    at = λ i c found.
        elim (found_after (meta.ec_chunk_index == i) a c (lookup i locs)
          (sym (lookup-insert meta.ec_chunk_index i a locs) ∙ found)) [
            | inr old ↦ h.at i c old
            | inl (same, node) ↦
                let index : meta.ec_chunk_index ≡ i = ==→eq meta.ec_chunk_index i same in
                let (s, is, there) =
                  shares.share meta (answer meta refl) (counts-is_ec k m meta yes_counts) in
                subst
                  (λ j.
                    (t : Shard) × (get_elem? o.shards j ≡ some t)
                    × (file_at (disk_at w c) (shard_file o j) ≡ some (bytes t)))
                  index
                  (subst
                    (λ n.
                      (t : Shard) × (get_elem? o.shards meta.ec_chunk_index ≡ some t)
                      × (file_at (disk_at w n) (shard_file o meta.ec_chunk_index) ≡ some (bytes t)))
                    node (s, is.in_place, there))
          ];
  }
]

module _ (o : Coding) (links : Links) where
  locate_among_lem :
      (k m : ℕ) (nodes : List Str) (locs : Locations) (w : World)
      → Intact o w
      → Located o w locs
      → Unchanged w (locate_among links o.bucket o.key k m nodes locs w).1
        × Located o
            (locate_among links o.bucket o.key k m nodes locs w).1
            (locate_among links o.bucket o.key k m nodes locs w).0
  unfolding locate_among
  locate_among_lem k m [] locs w h l = (Kept-refl w, l)
  locate_among_lem k m (a ∷ rest) locs w h l =
      let w1 = (meta_at links o.bucket o.key a w).1 in
      let r = (meta_at links o.bucket o.key a w).0 in
      let same : Unchanged w w1 = Unchanged-meta_at links o.bucket o.key a w in
      let noted_here =
        noted-Located o w k m a r locs (Intact-disk_at o w a h)
          (λ meta e. meta_at_found links o.bucket o.key a w meta e) l in
      let (later, ends) =
        locate_among_lem k m rest (noted k m a r locs) w1 (Intact-Unchanged o w w1 same h)
          (Located-Unchanged o w w1 (noted k m a r locs) same noted_here) in
      (Kept-trans w w1 _ same later, ends)

  pub locate_lem :
      (k m : ℕ) (w : World)
      → Intact o w
      → Unchanged w (locate links o.bucket o.key k m w).1
        × Located o (locate links o.bucket o.key k m w).1 (locate links o.bucket o.key k m w).0
  unfolding locate lookup
  locate_lem k m w h =
      locate_among_lem k m (links.arrival ([] ∷ known_followers w.members)) [] w h
        (record { at = λ i a e. cc })

  -- One slot of the download.
  slot_fits :
      (s : Shard) (r : Result EcError Shard)
      → ((b : Shard) → r ≡ ok b → b ≡ s)
      → Fits (slot_of r ∷ []) (s ∷ [])
  unfolding slot_of
  slot_fits s (ok b) h = (h b refl, tt)
  slot_fits s (err e) h = tt

  pub fetch_slot_lem :
      IsUncut links
      → (i : ℕ) (s : Shard) (place_of : Option Str) (w : World) → get_elem? o.shards i ≡ some s
      → ((a : Str)
          → place_of ≡ some a
          → (t : Shard) × (get_elem? o.shards i ≡ some t)
            × (file_at (disk_at w a) (shard_file o i) ≡ some (bytes t)))
      → Unchanged w (fetch_slot links o.bucket o.key i place_of w).1
        × Fits ((fetch_slot links o.bucket o.key i place_of w).0 ∷ []) (s ∷ [])
  unfolding fetch_slot
  fetch_slot_lem whole i s none w place h = (Kept-refl w, tt)
  fetch_slot_lem whole i s (some a) w place h =
      let (t, same, there) = h a refl in
      let one : t ≡ s = cc in
      (
        Unchanged-shard_at links o.bucket o.key a i w,
        slot_fits s _ λ b e. shard_at_found links o.bucket o.key whole a i w t b there e ∙ one,
      )
