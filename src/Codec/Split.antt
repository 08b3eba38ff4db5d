-- ===== src/Codec/Split.antt =====
-- The loop of Encode fills the shards, laid end to end, with the object and leaves zeros behind it.
use native.Mathlib.Nat.{div-add-mod, mod-lt, mul_comm, suc-add, zero-add}
use mathlib.Core.List.{append_assoc, append-nil}
use micros.Base.{
  ℕ, zero, suc, ◌+◌, ◌*◌, ◌/◌, ◌%◌, ◌<◌, ◌≡◌, refl, some, List, [], ◌∷◌, ◌++◌, length, set,
  replicate, length-append, length-set, arith, ap, sym, ◌∙◌,
}
use micros.Codec.{write_byte, copy_bytes}
use micros.Codec.ReedSolomon.{Shard, AllOfSize}

abbrev pub flatten : List Shard → List ℕ
flatten [] = []
flatten (s ∷ ss) = s ++ flatten ss

pub length-flatten :
    (size : ℕ) (ss : List Shard) → AllOfSize size ss → length (flatten ss) ≡ length ss * size
length-flatten size [] h = omega arith
length-flatten size (s ∷ ss) h =
    grind (arith, length-append s (flatten ss), length-flatten size ss h.1)

set-append_left : (xs ys : List ℕ) (i b : ℕ) → i < length xs → set xs i b ++ ys ≡ set (xs ++ ys) i b
set-append_left [] ys i b h = absurd (omega arith)
set-append_left (x ∷ xs) ys zero b h = refl
set-append_left (x ∷ xs) ys (suc i) b h = ap (λ t. x ∷ t) (set-append_left xs ys i b (omega arith))

set-append_right : (xs ys : List ℕ) (i b : ℕ) → xs ++ set ys i b ≡ set (xs ++ ys) (length xs + i) b
set-append_right [] ys i b = ap (λ n. set ys n b) (omega arith)
set-append_right (x ∷ xs) ys i b = simp suc-add (ap (λ t. x ∷ t) (set-append_right xs ys i b))

-- A byte written to a row and a column is a byte written to the rows laid end to end.
pub write_byte_lem :
    (size : ℕ) (ss : List Shard) (r c b : ℕ)
    → AllOfSize size ss
    → r < length ss
    → c < size
    → (out : List Shard) × (write_byte ss r c b ≡ some out)
      × (flatten out ≡ set (flatten ss) (r * size + c) b)
      × AllOfSize size out
      × (length out ≡ length ss)
unfolding write_byte
write_byte_lem size [] r c b h lt cs = absurd (omega arith)
write_byte_lem size (s ∷ ss) zero c b h lt cs = (
  set s c b ∷ ss,
  ground arith,
  set-append_left s (flatten ss) c b (omega arith)
      ∙ ap (λ n. set (s ++ flatten ss) n b) (omega arith),
  (length-set s c b ∙ h.0, h.1),
  refl,
)
write_byte_lem size (s ∷ ss) (suc r) c b h lt cs =
    let (out, e, f, sz, l) = write_byte_lem size ss r c b h.1 (omega arith) cs in
    (
      s ∷ out,
      rw e,
      ap (λ t. s ++ t) f
          ∙ set-append_right s (flatten ss) (r * size + c) b
          ∙ ap (λ n. set (s ++ flatten ss) n b) (grind arith),
      (h.0, sz),
      omega arith,
    )

set-front :
    (done rest : List ℕ) (z b : ℕ) → set (done ++ (z ∷ rest)) (length done) b ≡ done ++ (b ∷ rest)
set-front [] rest z b = refl
set-front (x ∷ done) rest z b = ap (λ t. x ∷ t) (set-front done rest z b)

row_lt : (i size n : ℕ) → 0 < size → i < n * size → i / size < n
row_lt i size n p h = grind (arith, div-add-mod i size, mod-lt i p)

flat_step :
    (xs done : List ℕ) (j b left : ℕ)
    → j ≡ length done
    → xs ≡ done ++ replicate (suc left) 0
    → set xs j b ≡ (done ++ b ∷ []) ++ replicate left 0
flat_step xs done j b left e f =
    rw (e, f)
      (set-front done (replicate left 0) 0 b ∙ sym (append_assoc done (b ∷ []) (replicate left 0)))

-- With i bytes in place and zeros for the others, the loop puts the rest of the object behind them.
pub copy_bytes_lem :
    (size n pad i : ℕ) (done bs : List ℕ) (ss : List Shard)
    → 0 < size
    → AllOfSize size ss
    → length ss ≡ n
    → i ≡ length done
    → i + length bs + pad ≡ n * size
    → flatten ss ≡ done ++ replicate (length bs + pad) 0
    → (out : List Shard) × (copy_bytes ss size i bs ≡ some out)
      × (flatten out ≡ (done ++ bs) ++ replicate pad 0)
      × AllOfSize size out
      × (length out ≡ n)
unfolding copy_bytes
copy_bytes_lem size n pad i done [] ss p sz l at room f =
    (ss, refl, f ∙ rw (append-nil, zero-add), sz, l)
copy_bytes_lem size n pad i done (b ∷ bs) ss p sz l at room f =
    let zeros : length (b ∷ bs) + pad ≡ suc (length bs + pad) = omega arith in
    let (ss', e, f', sz', l') =
      write_byte_lem size ss (i / size) (i % size) b sz (rw l (row_lt i size n p (omega arith)))
        (mod-lt i p) in
    let (out, eo, fo, so, lo) =
      copy_bytes_lem size n pad (i + 1) (done ++ b ∷ []) bs ss' p sz' (l' ∙ l)
        (omega (arith, length-append done (b ∷ []), at)) (omega arith)
        (f'
          ∙ flat_step (flatten ss) done _ b (length bs + pad)
              (omega (arith, div-add-mod i size, mul_comm size (i / size), at))
              (f ∙ ap (λ t. done ++ replicate t 0) zeros)) in
    (
      out,
      rw (e, copy_bytes) eo,
      fo ∙ ap (λ t. t ++ replicate pad 0) (append_assoc done (b ∷ []) bs),
      so,
      lo,
    )
