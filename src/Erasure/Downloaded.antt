-- ===== src/Erasure/Downloaded.antt =====
-- The slots that a download fills.
use micros.Base.{
  ℕ, zero, suc, ◌+◌, ◌≤◌, Bool, true, false, ◌≡◌, refl, sym, ap, ◌∙◌, subst, Option, none, some,
  List, [], ◌∷◌, Result, ok, err, if◌then◌else◌, length, get_elem?, arith, ltb, ltb→ge,
}
use micros.Base.Assoc.{lookup, nat_Eq}
use micros.Codec.ReedSolomon.{Shard, Fits, present}
use micros.Replication.{World}
use micros.Replication.Frames.{Kept-refl, Kept-trans}
use micros.Erasure.{EcError, insufficient_shards, too_few_downloads, Links}
use micros.Erasure.Gather.{Locations, fetch_slot, counted, download, enough_downloads, gather}
use micros.Erasure.Shares.{Coding}
use micros.Erasure.Nodes.{Unchanged}
use micros.Erasure.Answers.{IsUncut}
use micros.Erasure.Located.{Located, Located-Unchanged, fetch_slot_lem}

-- A download that changed no file, filled the slots with shards, and counted those that it filled.
pub record Downloaded (w : World) (rest : List Shard) (before : ℕ)
    (r : (List (Option Shard) × ℕ) × World) : Type 0 where
  pub unchanged : Unchanged w r.1
  pub fits : Fits r.0.0 rest
  pub count : r.0.1 ≡ before + present r.0.0

Fits-cons :
    (slot : Option Shard) (slots : List (Option Shard)) (s : Shard) (rest : List Shard)
    → Fits (slot ∷ []) (s ∷ [])
    → Fits slots rest
    → Fits (slot ∷ slots) (s ∷ rest)
Fits-cons none slots s rest f fs = fs
Fits-cons (some t) slots s rest f fs = (f.0, fs)

counted-present :
    (slot : Option Shard) (slots : List (Option Shard)) (before total : ℕ)
    → total ≡ counted slot before + present slots
    → total ≡ before + present (slot ∷ slots)
counted-present none slots before total h = h
counted-present (some t) slots before total h = omega arith

module _ (o : Coding) (links : Links) (whole : IsUncut links) (locs : Locations) (k : ℕ) where
  slot_lem :
      (b : Bool) (i : ℕ) (s : Shard) (w : World)
      → Located o w locs
      → get_elem? o.shards i ≡ some s
      → (let x : Option Shard × World =
            if b then fetch_slot links o.bucket o.key i (lookup i locs) w else (none, w) in
          Unchanged w x.1 × Fits (x.0 ∷ []) (s ∷ []))
  slot_lem true i s w l place = fetch_slot_lem o links whole i s (lookup i locs) w place (l.at i)
  slot_lem false i s w l place = (Kept-refl w, tt)

  -- The slots of the rounds that are left hold shards of the encoding.
  download_lem :
      (rounds i before : ℕ) (rest : List Shard) (w : World)
      → Located o w locs
      → length rest ≡ rounds
      → ((j : ℕ) → get_elem? rest j ≡ get_elem? o.shards (i + j))
      → Downloaded w rest before (download links o.bucket o.key locs k rounds i before w)
  unfolding download
  download_lem zero i before [] w l e same = record {
    unchanged = Kept-refl w;
    fits = tt;
    count = omega arith;
  }
  download_lem zero i before (s ∷ rest) w l e same = absurd (omega arith)
  download_lem (suc n) i before [] w l e same = absurd (omega arith)
  download_lem (suc n) i before (s ∷ rest) w l e same =
      let here : i + 0 ≡ i = omega arith in
      let place : get_elem? o.shards i ≡ some s =
        sym (ap (get_elem? o.shards) here) ∙ sym (same 0) in
      let x : Option Shard × World =
        if ltb before k then fetch_slot links o.bucket o.key i (lookup i locs) w else (none, w) in
      let (kept, fit) = slot_lem (ltb before k) i s w l place in
      let later =
        download_lem n (suc i) (counted x.0 before) rest x.1 (Located-Unchanged o w x.1 locs kept l)
          (omega arith)
          (λ j.
            let shift : i + suc j ≡ suc i + j = omega arith in
            same (suc j) ∙ ap (get_elem? o.shards) shift) in
      record {
        unchanged = Kept-trans w x.1 _ kept later.unchanged;
        fits = Fits-cons x.0 _ s rest fit later.fits;
        count = counted-present x.0 _ before _ later.count;
      }

  enough_ok :
      (r : (List (Option Shard) × ℕ) × World) (slots : List (Option Shard))
      → (enough_downloads k r).0 ≡ ok slots
      → (r.0.0 ≡ slots) × (k ≤ r.0.1)
  unfolding enough_downloads
  enough_ok r slots h = few (ltb r.0.1 k) refl h
    where
      few :
          (b : Bool)
          → ltb r.0.1 k ≡ b
          → (if b then err (too_few_downloads r.0.1 k) else ok r.0.0) ≡ ok slots
          → (r.0.0 ≡ slots) × (k ≤ r.0.1)
      few true e g = cc g
      few false e g = (cc g, ltb→ge r.0.1 k e)

  gathered :
      (b : Bool) (r : (List (Option Shard) × ℕ) × World) (w : World)
      → Downloaded w o.shards 0 r
      → (let x : Result EcError (List (Option Shard)) × World =
            if b then (err (insufficient_shards (length locs) k), w) else enough_downloads k r in
          Unchanged w x.1
          × ((slots : List (Option Shard))
              → x.0 ≡ ok slots
              → Fits slots o.shards × (k ≤ present slots)))
  unfolding enough_downloads
  gathered true r w d = (Kept-refl w, λ slots h. cc)
  gathered false r w d = (
    d.unchanged,
    λ slots h.
        let (same, many) = enough_ok r slots h in
        subst (λ x. Fits x o.shards × (k ≤ present x)) same (d.fits, omega (arith, d.count)),
  )

  -- The slots that the manager goes on with hold k shards of the encoding at least.
  pub gather_lem :
      (m : ℕ) (w : World)
      → Located o w locs
      → k + m ≡ length o.shards
      → Unchanged w (gather links o.bucket o.key k m locs w).1
        × ((slots : List (Option Shard))
            → (gather links o.bucket o.key k m locs w).0 ≡ ok slots
            → Fits slots o.shards × (k ≤ present slots))
  unfolding gather
  gather_lem m w l n =
      gathered (ltb (length locs) k) (download links o.bucket o.key locs k (k + m) 0 0 w) w (
        download_lem (k + m) 0 0 o.shards w l (sym n)
          (λ j. let start : j ≡ 0 + j = omega arith in ap (get_elem? o.shards) start))
