-- ===== src/Storage/Uploads/Order.antt =====
-- The parts of an upload in the order of their numbers.
use mathlib.Core.List.{Perm}
use mathlib.Core.List.Perm
use micros.Base.{ℕ, ◌≤◌, List, [], ◌∷◌, All, ltb, ltb→lt, ltb→ge, arith, Bool-cases, inl, inr}
use micros.Domain.Object.{UploadPart}
use micros.Storage.Uploads.{insert_part, sort_parts}

abbrev pub IsAscending : List UploadPart → Type 0
IsAscending [] = Unit {0}
IsAscending (p ∷ ps) = All (λ q. p.part_number ≤ q.part_number) ps × IsAscending ps

abbrev pub numbers : List UploadPart → List ℕ
numbers [] = []
numbers (p ∷ ps) = p.part_number ∷ numbers ps

insert_part-All :
    (P : UploadPart → Type 0) (p : UploadPart) (ps : List UploadPart)
    → P p
    → All P ps
    → All P (insert_part p ps)
unfolding insert_part
insert_part-All P p [] h all = (h, tt)
insert_part-All P p (q ∷ qs) h (hq, all) = elim (Bool-cases (ltb q.part_number p.part_number)) [
  | inl later ↦ rw later (hq, insert_part-All P p qs h all)
  | inr here ↦ rw here (h, (hq, all))
]

pub sort_parts-All :
    (P : UploadPart → Type 0) (ps : List UploadPart) → All P ps → All P (sort_parts ps)
unfolding sort_parts
sort_parts-All P [] h = tt
sort_parts-All P (p ∷ ps) (h, all) = insert_part-All P p (sort_parts ps) h (sort_parts-All P ps all)

All-le :
    (m n : ℕ) (ps : List UploadPart)
    → m ≤ n
    → All (λ q. n ≤ q.part_number) ps
    → All (λ q. m ≤ q.part_number) ps
All-le m n [] h all = tt
All-le m n (q ∷ qs) h (hq, all) = (omega arith, All-le m n qs h all)

insert_part-IsAscending :
    (p : UploadPart) (ps : List UploadPart) → IsAscending ps → IsAscending (insert_part p ps)
unfolding insert_part
insert_part-IsAscending p [] h = (tt, tt)
insert_part-IsAscending p (q ∷ qs) (low, up) = elim (Bool-cases (ltb q.part_number p.part_number)) [
  | inl later ↦
      let below = ltb→lt q.part_number p.part_number later in
      rw later (
        insert_part-All (λ x. q.part_number ≤ x.part_number) p qs (omega arith) low,
        insert_part-IsAscending p qs up,
      )
  | inr here ↦
      let above = ltb→ge q.part_number p.part_number here in
      rw here ((above, All-le p.part_number q.part_number qs above low), (low, up))
]

pub sort_parts-IsAscending : (ps : List UploadPart) → IsAscending (sort_parts ps)
unfolding sort_parts
sort_parts-IsAscending [] = tt
sort_parts-IsAscending (p ∷ ps) =
    insert_part-IsAscending p (sort_parts ps) (sort_parts-IsAscending ps)

numbers-insert_part :
    (p : UploadPart) (ps : List UploadPart)
    → Perm (numbers (insert_part p ps)) (p.part_number ∷ numbers ps)
unfolding insert_part
numbers-insert_part p [] = Perm.refl (p.part_number ∷ [])
numbers-insert_part p (q ∷ qs) = elim (Bool-cases (ltb q.part_number p.part_number)) [
  | inl later ↦ rw later (
      Perm.trans (Perm.cons q.part_number (numbers-insert_part p qs))
        (Perm.swap p.part_number q.part_number (numbers qs)))
  | inr here ↦ rw here (Perm.refl _)
]

-- Sorting neither loses a part nor adds one.
pub numbers-sort_parts : (ps : List UploadPart) → Perm (numbers (sort_parts ps)) (numbers ps)
unfolding sort_parts
numbers-sort_parts [] = Perm.refl []
numbers-sort_parts (p ∷ ps) =
    Perm.trans (numbers-insert_part p (sort_parts ps))
      (Perm.cons p.part_number (numbers-sort_parts ps))
