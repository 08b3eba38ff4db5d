-- ===== src/Codec/Examples.antt =====
-- The codec with the simplest Reed-Solomon code, one data shard and one copy of it.
use micros.Base.{
  ℕ, ◌+◌, ◌≤◌, ◌<◌, ◌≡◌, refl, Option, none, some, List, [], ◌∷◌, ok, true, length, take, arith,
}
use micros.Codec.{
  Codec, encode, reconstruct, padded_size, n_shards, add_parity, copy_bytes, write_byte, shard_size,
}
use micros.Codec.ReedSolomon.{Shard, Encoder, IsReedSolomon, AllOfSize, Fits, present}
use micros.Codec.RoundTrip.{encode_total, reconstruct-encode, reconstruct-encode_empty}

unfoldable pub mirror_encode : List Shard → Option (List Shard)
mirror_encode (a ∷ b ∷ []) = some (a ∷ a ∷ [])
mirror_encode _ = none

unfoldable pub mirror_reconstruct : List (Option Shard) → Option (List Shard)
mirror_reconstruct (some a ∷ o ∷ []) = some (a ∷ a ∷ [])
mirror_reconstruct (none ∷ some a ∷ []) = some (a ∷ a ∷ [])
mirror_reconstruct _ = none

abbrev pub mirror : Encoder
mirror = record {
  encode = mirror_encode;
  reconstruct = mirror_reconstruct;
  verify = λ ss. some true;
}

mirror_encodes :
    (size : ℕ) (shards : List Shard)
    → 0 < size
    → length shards ≡ 1 + 1
    → AllOfSize size shards
    → (out : List Shard) × (mirror_encode shards ≡ some out)
      × (length out ≡ 1 + 1)
      × AllOfSize size out
      × (take 1 out ≡ take 1 shards)
unfolding mirror_encode
mirror_encodes size (a ∷ b ∷ []) p l h = (a ∷ a ∷ [], refl, refl, (h.0, (h.0, tt)), refl)
mirror_encodes size [] p l h = absurd (omega arith)
mirror_encodes size (a ∷ []) p l h = absurd (omega arith)
mirror_encodes size (a ∷ b ∷ c ∷ ss) p l h = absurd (omega arith)

mirror_recreates :
    (shards out : List Shard) (slots : List (Option Shard))
    → mirror_encode shards ≡ some out
    → Fits slots out
    → 1 ≤ present slots
    → mirror_reconstruct slots ≡ some out
unfolding mirror_encode mirror_reconstruct
mirror_recreates [] out slots e f p = cc
mirror_recreates (a ∷ []) out slots e f p = cc
mirror_recreates (a ∷ b ∷ c ∷ ss) out slots e f p = cc
mirror_recreates (a ∷ b ∷ []) [] slots e f p = cc
mirror_recreates (a ∷ b ∷ []) (x ∷ []) slots e f p = cc
mirror_recreates (a ∷ b ∷ []) (x ∷ y ∷ z ∷ r) slots e f p = cc
mirror_recreates (a ∷ b ∷ []) (x ∷ y ∷ []) [] e f p = elim f [ ]
mirror_recreates (a ∷ b ∷ []) (x ∷ y ∷ []) (none ∷ []) e f p = elim f [ ]
mirror_recreates (a ∷ b ∷ []) (x ∷ y ∷ []) (some s ∷ []) e f p = elim f.1 [ ]
mirror_recreates (a ∷ b ∷ []) (x ∷ y ∷ []) (some s ∷ some t ∷ []) e f p = cc (f.0)
mirror_recreates (a ∷ b ∷ []) (x ∷ y ∷ []) (some s ∷ none ∷ []) e f p = cc (f.0)
mirror_recreates (a ∷ b ∷ []) (x ∷ y ∷ []) (none ∷ some t ∷ []) e f p = cc (f.0)
mirror_recreates (a ∷ b ∷ []) (x ∷ y ∷ []) (none ∷ none ∷ []) e f p = absurd (omega arith)
mirror_recreates (a ∷ b ∷ []) (x ∷ y ∷ []) (none ∷ none ∷ o ∷ os) e f p = elim f [ ]
mirror_recreates (a ∷ b ∷ []) (x ∷ y ∷ []) (none ∷ some t ∷ o ∷ os) e f p = elim f.1 [ ]
mirror_recreates (a ∷ b ∷ []) (x ∷ y ∷ []) (some s ∷ none ∷ o ∷ os) e f p = elim f.1 [ ]
mirror_recreates (a ∷ b ∷ []) (x ∷ y ∷ []) (some s ∷ some t ∷ o ∷ os) e f p = elim f.1.1 [ ]

pub mirror-IsReedSolomon : IsReedSolomon 1 1 mirror
mirror-IsReedSolomon = record { encodes = mirror_encodes; recreates = mirror_recreates }

abbrev pub pair : Codec
pair = record { k = 1; m = 1; enc = mirror }

abbrev pub object : List ℕ
object = 7 ∷ 8 ∷ 9 ∷ []

pub encode_object : encode pair object ≡ ok (object ∷ object ∷ [])
unfolding encode padded_size shard_size n_shards add_parity copy_bytes write_byte mirror_encode
encode_object = refl

encode_empty : encode pair [] ≡ ok ((0 ∷ []) ∷ (0 ∷ []) ∷ [])
unfolding encode padded_size shard_size n_shards add_parity copy_bytes write_byte mirror_encode
encode_empty = refl

encode_total_example :
    (es : List Shard) × (encode pair object ≡ ok es)
    × (length es ≡ n_shards pair)
    × AllOfSize (padded_size pair 3) es
encode_total_example = encode_total pair object mirror-IsReedSolomon (omega arith)

reconstruct-encode_example :
    reconstruct pair (none ∷ some object ∷ []) 3 ≡ ok (object, object ∷ object ∷ [])
reconstruct-encode_example =
    reconstruct-encode pair mirror-IsReedSolomon (omega arith) object (object ∷ object ∷ [])
      encode_object (none ∷ some object ∷ []) (refl, tt) (omega arith) (omega arith)

reconstruct-encode_empty_example :
    reconstruct pair (none ∷ some (0 ∷ []) ∷ []) 0 ≡ ok (0 ∷ [], (0 ∷ []) ∷ (0 ∷ []) ∷ [])
reconstruct-encode_empty_example =
    reconstruct-encode_empty pair ((0 ∷ []) ∷ (0 ∷ []) ∷ []) (none ∷ some (0 ∷ []) ∷ [])
      mirror-IsReedSolomon (omega arith) encode_empty (refl, tt) (omega arith)
