-- ===== src/Codec/Rows.antt =====
-- The loops of trimData: rows of one size laid end to end, and cut to a length.
use mathlib.Core.List.{append-nil, append_assoc}
use native.Mathlib.Nat.{suc-add}
use micros.Base.{
  ℕ, zero, suc, ◌+◌, ◌-◌, ◌*◌, ◌≤◌, ◌<◌, ◌≡◌, refl, sym, ap, ◌∙◌, inl, inr, some, List, [], ◌∷◌,
  ◌++◌, length, get_elem?, take, drop, arith, ltb, leb, leb→le, Bool-cases, ge→ltb, true,
}
use micros.Codec.{trim_data, trim_from, join_from, cut}
use micros.Codec.ReedSolomon.{Shard, AllOfSize}
use micros.Codec.Split.{flatten}

take-nil : (n : ℕ) → take {A = ℕ} n [] ≡ []
take-nil zero = refl
take-nil (suc n) = refl

pub take-append :
    (n : ℕ) (xs ys : List ℕ) → take n (xs ++ ys) ≡ take n xs ++ take (n - length xs) ys
take-append n [] ys = let e : n ≡ n - 0 = omega arith in rw take-nil (ap (λ t. take t ys) e)
take-append zero (x ∷ xs) ys =
    let e : 0 ≡ 0 - suc (length xs) = omega arith in ap (λ t. take t ys) e
take-append (suc n) (x ∷ xs) ys =
    let e : n - length xs ≡ suc n - suc (length xs) = omega arith in
    rw (take-append n xs ys) (ap (λ t. x ∷ (take n xs ++ take t ys)) e)

pub take_all : (n : ℕ) (xs : List ℕ) → length xs ≤ n → take n xs ≡ xs
take_all n [] h = take-nil n
take_all zero (x ∷ xs) h = absurd (omega arith)
take_all (suc n) (x ∷ xs) h = ap (λ t. x ∷ t) (take_all n xs (omega arith))

-- A prefix that fits is what it was, whatever stands behind it.
pub take-length : (xs ys : List ℕ) → take (length xs) (xs ++ ys) ≡ xs
take-length [] ys = refl
take-length (x ∷ xs) ys = ap (λ t. x ∷ t) (take-length xs ys)

pub take-take : (m n : ℕ) (xs : List ℕ) → m ≤ n → take m (take n xs) ≡ take m xs
take-take zero n xs h = refl
take-take (suc m) zero xs h = absurd (omega arith)
take-take (suc m) (suc n) [] h = refl
take-take (suc m) (suc n) (x ∷ xs) h = ap (λ t. x ∷ t) (take-take m n xs (omega arith))

take-cut : (size n : ℕ) (s : Shard) → length s ≡ size → take (cut size n) s ≡ take n s
unfolding cut
take-cut size n s e = elim (Bool-cases (ltb n size)) [
  | inl h ↦ rw h
  | inr h ↦ rw h (take_all size s (omega arith) ∙ sym (take_all n s (ground arith)))
]

cut-le : (size n : ℕ) → cut size n ≤ size
unfolding cut
cut-le size n = ground arith

pub flatten-take :
    (size n : ℕ) (ss : List Shard)
    → AllOfSize size ss
    → flatten (take n ss) ≡ take (n * size) (flatten ss)
flatten-take size zero ss h = let e : 0 ≡ 0 * size = omega arith in ap (λ t. take t (flatten ss)) e
flatten-take size (suc n) [] h = sym (take-nil (suc n * size))
flatten-take size (suc n) (s ∷ ss) h =
    let fits : length s ≤ suc n * size = grind arith in
    let left : n * size ≡ suc n * size - length s = grind arith in
    rw (flatten-take size n ss h.1, take-append (suc n * size) s, take_all (suc n * size) s fits)
      (ap (λ t. s ++ take t (flatten ss)) left)

-- Row i of the shards, and the rows from there on.
row_at :
    (size i : ℕ) (ss : List Shard)
    → AllOfSize size ss
    → i < length ss
    → (s : Shard) × (get_elem? ss i ≡ some s)
      × (drop i ss ≡ s ∷ drop (i + 1) ss)
      × (length s ≡ size)
row_at size i [] h lt = absurd (omega arith)
row_at size zero (s ∷ ss) h lt =
    let e : 1 ≡ 0 + 1 = omega arith in (s, refl, ap (λ t. s ∷ drop t (s ∷ ss)) e, h.0)
row_at size (suc i) (s ∷ ss) h lt =
    let (t, e, f, l) = row_at size i ss h.1 (omega arith) in (t, e, rw suc-add f, l)

nothing_left : (m n : ℕ) → leb m n ≡ true → m - n ≡ 0
nothing_left m n h = omega (arith, leb→le m n h)

two_rows :
    (size n n' : ℕ) (out : List ℕ) (s : Shard) (rest : List ℕ)
    → length s ≡ size
    → n' ≡ n - size
    → (out ++ take (cut size n) s) ++ take n' rest ≡ out ++ take n (s ++ rest)
two_rows size n n' out s rest l e =
    rw (take-append n s rest, take-cut size n s l, e, l)
      (append_assoc out (take n s) (take (n - size) rest))

pub trim_from_lem :
    (ss : List Shard) (size len i left : ℕ) (out : List ℕ)
    → AllOfSize size ss
    → i + left ≤ length ss
    → trim_from ss size len i left out
      ≡ some (out ++ take (len - i * size) (flatten (take left (drop i ss))))
unfolding trim_from
trim_from_lem ss size len i zero out h room = rw (take-nil, append-nil)
trim_from_lem ss size len i (suc left) out h room =
    let (s, e, f, l) = row_at size i ss h (omega arith) in
    let n : ℕ = len - i * size in
    let fits = cut-le size n in
    elim (Bool-cases (leb len (i * size))) [
      | inl done ↦
          rw (done, trim_from)
            (ap some (
              sym (append-nil out)
              ∙ ap (λ t. out ++ take t (flatten (take (suc left) (drop i ss))))
                  (sym (nothing_left len (i * size) done))))
      | inr more ↦
          rw (more, e, ge→ltb (length s) (cut size n) (omega arith), trim_from)
            (rw
              (
                trim_from_lem ss size len (i + 1) left (out ++ take (cut size n) s) h (omega arith),
                f,
              )
              (ap some (
                two_rows size n (len - (i + 1) * size) out s (flatten (take left (drop (i + 1) ss)))
                  l (grind arith))))
    ]

pub join_from_lem :
    (ss : List Shard) (size i left : ℕ) (out : List ℕ)
    → AllOfSize size ss
    → i + left ≤ length ss
    → join_from ss i left out ≡ some (out ++ flatten (take left (drop i ss)))
unfolding join_from
join_from_lem ss size i zero out h room = rw append-nil
join_from_lem ss size i (suc left) out h room =
    let (s, e, f, l) = row_at size i ss h (omega arith) in
    rw (e, f, join_from)
      (join_from_lem ss size (i + 1) left (out ++ s) h (omega arith)
        ∙ ap some (append_assoc out s (flatten (take left (drop (i + 1) ss)))))

pub trim_data_lem :
    (ss : List Shard) (size k len : ℕ)
    → AllOfSize size ss
    → 1 ≤ k
    → k ≤ length ss
    → 0 < len
    → trim_data ss k len ≡ some (take len (flatten (take k ss)))
unfolding trim_data
trim_data_lem [] size k len h p room pos = absurd (omega arith)
trim_data_lem (s ∷ ss) size k len h p room pos = elim (Bool-cases (leb len 0)) [
  | inl z ↦ absurd (omega (arith, leb→le len 0 z))
  | inr nz ↦
      let e : len - 0 * length s ≡ len = omega arith in
      rw (nz, h.0)
        (trim_from_lem (s ∷ ss) size len 0 k [] h (omega arith)
          ∙ ap (λ t. some (take t (flatten (take k (s ∷ ss))))) (rw h.0 at e))
]

pub trim_data-empty :
    (ss : List Shard) (size k : ℕ)
    → AllOfSize size ss
    → 1 ≤ k
    → k ≤ length ss
    → trim_data ss k 0 ≡ some (flatten (take k ss))
unfolding trim_data
trim_data-empty [] size k h p room = absurd (omega arith)
trim_data-empty (s ∷ ss) size k h p room = join_from_lem (s ∷ ss) size 0 k [] h (omega arith)
