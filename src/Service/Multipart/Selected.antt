-- ===== src/Service/Multipart/Selected.antt =====
-- Which stored parts the completion of an upload selects.
use micros.Base.{
  ℕ, Bool, true, false, ◌≡◌, refl, sym, ap, ◌∙◌, subst, Option, none, some, List, [], ◌∷◌, All,
  Result, ok, err, if◌then◌else◌, arith, inl, inr, ==→eq, ◌==◌, ◌⊎◌,
}
use micros.Base.Assoc.{lookup, insert, lookup-insert, nat_Eq}
use micros.Domain.Object.{UploadPart, CompletePart}
use micros.Storage.Uploads.Order.{numbers}
use micros.Service.Multipart.{CompleteError, by_number, check_part, and_then, select_parts}

abbrev pub asked_numbers : List CompletePart → List ℕ
asked_numbers [] = []
asked_numbers (r ∷ rs) = r.part_number ∷ asked_numbers rs

-- Every entry of the map satisfies P, and stands under its number.
pub record Entries (P : UploadPart → Type 0) (m : List (ℕ × UploadPart)) : Type 0 where
  pub at : (n : ℕ) (p : UploadPart) → lookup n m ≡ some p → P p × (p.part_number ≡ n)

stored_or :
    (b : Bool) (p q : UploadPart) (old : Option UploadPart)
    → (if b then some p else old) ≡ some q
    → ((b ≡ true) × (p ≡ q)) ⊎ (old ≡ some q)
stored_or true p q old h = inl (refl, cc)
stored_or false p q old h = inr h

insert-Entries :
    (P : UploadPart → Type 0) (p : UploadPart) (m : List (ℕ × UploadPart))
    → P p
    → Entries P m
    → Entries P (insert p.part_number p m)
insert-Entries P p m h e = record {
  at = λ n q found.
      elim (stored_or (p.part_number == n) p q (lookup n m)
        (sym (lookup-insert p.part_number n p m) ∙ found)) [
          | inl (same, one) ↦
              (subst P one h, ap (λ x. x.part_number) (sym one) ∙ ==→eq p.part_number n same)
          | inr old ↦ e.at n q old
        ];
}

pub by_number-Entries :
    (P : UploadPart → Type 0) (ps : List UploadPart) (m : List (ℕ × UploadPart))
    → All P ps
    → Entries P m
    → Entries P (by_number ps m)
unfolding by_number
by_number-Entries P [] m all e = e
by_number-Entries P (p ∷ ps) m (h, all) e =
    by_number-Entries P ps (insert p.part_number p m) all (insert-Entries P p m h e)

check_part-ok :
    (r : CompletePart) (o : Option UploadPart) (p : UploadPart) → check_part r o ≡ ok p → o ≡ some p
unfolding check_part
check_part-ok r none p h = cc
check_part-ok r (some q) p h = ground (arith, h)

and_then-ok :
    (x : Result CompleteError UploadPart) (y : Result CompleteError (List UploadPart))
    (ps : List UploadPart)
    → and_then x y ≡ ok ps
    → (p : UploadPart) × (qs : List UploadPart) × (x ≡ ok p) × (y ≡ ok qs) × (ps ≡ p ∷ qs)
and_then-ok (err e) y ps h = cc
and_then-ok (ok p) (err e) ps h = cc
and_then-ok (ok p) (ok qs) ps h = (p, qs, refl, refl, cc)

-- The selected parts are stored ones, with the numbers that were asked for.
pub select_parts-ok :
    (P : UploadPart → Type 0) (m : List (ℕ × UploadPart)) (rs : List CompletePart)
    (ps : List UploadPart)
    → Entries P m
    → select_parts m rs ≡ ok ps
    → All P ps × (numbers ps ≡ asked_numbers rs)
unfolding select_parts
select_parts-ok P m [] ps e h =
    let none_left : [] ≡ ps = cc in subst (λ x. All P x × (numbers x ≡ [])) none_left (tt, refl)
select_parts-ok P m (r ∷ rs) ps e h =
    let (p, qs, one, rest, all) =
      and_then-ok (check_part r (lookup r.part_number m)) (select_parts m rs) ps h in
    let (good, number) = e.at r.part_number p (check_part-ok r (lookup r.part_number m) p one) in
    let (goods, same) = select_parts-ok P m rs qs e rest in
    subst (λ x. All P x × (numbers x ≡ r.part_number ∷ asked_numbers rs)) (sym all)
      ((good, goods), rw (number, same) refl)
