-- ===== src/Codec/ReedSolomon.antt =====
-- github.com/klauspost/reedsolomon, which the codec calls. Its operations are a parameter, and its
-- documented behaviour for k data and m parity shards is the record of laws `IsReedSolomon`.
use micros.Base.{
  ℕ, ◌+◌, ◌≤◌, ◌<◌, ◌≡◌, Bool, Option, none, some, List, [], ◌∷◌, length, take, suc, All,
}

abbrev pub Shard : Type 0
Shard = List ℕ

-- `none` is an error of the library.
pub record Encoder : Type 0 where
  pub encode : List Shard → Option (List Shard)
  pub reconstruct : List (Option Shard) → Option (List Shard)
  pub verify : List Shard → Option Bool

abbrev pub AllOfSize : ℕ → List Shard → Type 0
AllOfSize size = All (λ s. length s ≡ size)

-- Each slot is missing or holds the shard of its place.
abbrev pub Fits : List (Option Shard) → List Shard → Type 0
Fits [] [] = Unit {0}
Fits [] (s ∷ ss) = ⊥
Fits (o ∷ os) [] = ⊥
Fits (none ∷ os) (s ∷ ss) = Fits os ss
Fits (some t ∷ os) (s ∷ ss) = (t ≡ s) × Fits os ss

-- How many slots hold a shard.
abbrev pub present : List (Option Shard) → ℕ
present [] = 0
present (none ∷ os) = present os
present (some s ∷ os) = suc (present os)

-- reedsolomon.New: "the number of data shards and parity shards", at least one data shard, "the maximum
-- number of total shards is 256".
pub record IsNew (new_encoder : ℕ → ℕ → Option Encoder) : Type 0 where
  pub creates : (k m : ℕ) → 1 ≤ k → k + m ≤ 256 → (enc : Encoder) × (new_encoder k m ≡ some enc)

pub record IsReedSolomon (k m : ℕ) (enc : Encoder) : Type 0 where
  -- "All shards must have the same size"; the data shards stay as they are, and the number and the
  -- size of the shards too.
  pub encodes :
      (size : ℕ) (shards : List Shard)
      → 0 < size
      → length shards ≡ k + m
      → AllOfSize size shards
      → (out : List Shard) × (enc.encode shards ≡ some out)
        × (length out ≡ k + m)
        × AllOfSize size out
        × (take k out ≡ take k shards)
  -- "If there are too few shards to reconstruct the missing ones, an error is returned"; with k of
  -- them present the missing ones are recreated.
  pub recreates :
      (shards out : List Shard) (slots : List (Option Shard))
      → enc.encode shards ≡ some out
      → Fits slots out
      → k ≤ present slots
      → enc.reconstruct slots ≡ some out
