-- ===== src/Codec.antt =====
-- internal/infrastructure/storage/ec/codec.go: splitting an object into shards and putting it
-- together again. A shard is a list of bytes, a missing shard is `none`, and an index out of range
-- (a panic of the source) is `none` as the result of a loop.
pub mod ReedSolomon
pub mod Split
pub mod Rows
pub mod RoundTrip
pub mod Examples
use micros.Base.{
  ℕ, zero, suc, ◌+◌, ◌-◌, ◌*◌, ◌/◌, ◌%◌, Bool, true, false, ◌||◌, Option, none, some, List, [], ◌∷◌,
  ◌++◌, Result, ok, err, length, get_elem?, set, take, replicate, ltb, leb, ◌==◌, if◌then◌else◌,
}
use ReedSolomon.{Encoder, Shard}

pub data CodecError : Type 0 where
  k_too_small m_negative too_many_shards wrong_shard_count panic : CodecError
  library : CodecError

-- `Codec`; `enc` is the reedsolomon.Encoder for (k, m).
pub record Codec : Type 0 where
  pub k : ℕ
  pub m : ℕ
  pub enc : Encoder

abbrev with_encoder : ℕ → ℕ → Option Encoder → Result CodecError Codec
with_encoder k m none = err library
with_encoder k m (some enc) = ok (record { k = k; m = m; enc = enc })

-- NewCodec; `new_encoder` is reedsolomon.New, without its error's text. The test on a negative m has no
-- counterpart, because m is a natural number here.
unfoldable pub new_codec : (ℕ → ℕ → Option Encoder) → ℕ → ℕ → Result CodecError Codec
new_codec new_encoder k m =
    if ltb k 1
    then err k_too_small
    else if ltb 256 (k + m)
    then err too_many_shards
    else with_encoder k m (new_encoder k m)

unfoldable pub n_shards : Codec → ℕ
n_shards c = c.k + c.m

unfoldable pub shard_size : Codec → ℕ → ℕ
shard_size c data_len = if c.k == 0 then 0 else (data_len + c.k - 1) / c.k

-- `shards[r][c] = b`
unfoldable pub write_byte : List Shard → ℕ → ℕ → ℕ → Option (List Shard)
write_byte [] r c b = none
write_byte (s ∷ ss) zero c b = if ltb c (length s) then some (set s c b ∷ ss) else none
write_byte (s ∷ ss) (suc r) c b = elim (write_byte ss r c b) [
  | none ↦ none
  | some ts ↦ some (s ∷ ts)
]

-- The loop of Encode over the bytes of the object, from index i.
unfoldable pub copy_bytes : List Shard → ℕ → ℕ → List ℕ → Option (List Shard)
copy_bytes shards size i [] = some shards
copy_bytes shards size i (b ∷ bs) = elim (write_byte shards (i / size) (i % size) b) [
  | none ↦ none
  | some shards' ↦ copy_bytes shards' size (i + 1) bs
]

-- The shard size that Encode uses: at least 1.
unfoldable pub padded_size : Codec → ℕ → ℕ
unfolding shard_size
padded_size c data_len = if shard_size c data_len == 0 then 1 else shard_size c data_len

-- The call of the library on the filled shards; `none` is a panic of the loop before it.
unfoldable pub add_parity : Codec → Option (List Shard) → Result CodecError (List Shard)
add_parity c none = err panic
add_parity c (some shards) = elim (c.enc.encode shards) [ none ↦ err library | some out ↦ ok out ]

unfoldable pub encode : Codec → List ℕ → Result CodecError (List Shard)
encode c bytes =
    let size = padded_size c (length bytes) in
    add_parity c (copy_bytes (replicate (n_shards c) (replicate size 0)) size 0 bytes)

-- The first loop of trimData: `for i := 0; i < k; i++ { out = append(out, shards[i]...) }`.
unfoldable pub join_from : List Shard → ℕ → ℕ → List ℕ → Option (List ℕ)
join_from shards i zero out = some out
join_from shards i (suc left) out = elim (get_elem? shards i) [
  | none ↦ none
  | some s ↦ join_from shards (i + 1) left (out ++ s)
]

-- `if end > remaining { end = remaining }`
unfoldable pub cut : ℕ → ℕ → ℕ
cut size remaining = if ltb remaining size then remaining else size

-- The second loop of trimData, which stops once data_len bytes are out. A slice past the end of a
-- shard is a panic.
unfoldable pub trim_from : List Shard → ℕ → ℕ → ℕ → ℕ → List ℕ → Option (List ℕ)
trim_from shards size data_len i zero out = some out
trim_from shards size data_len i (suc left) out = elim (leb data_len (i * size)) [
  | true ↦ some out
  | false ↦ elim (get_elem? shards i) [
    | none ↦ none
    | some s ↦ elim (ltb (length s) (cut size (data_len - i * size))) [
      | true ↦ none
      | false ↦
          trim_from shards size data_len (i + 1) left
            (out ++ take (cut size (data_len - i * size)) s)
    ]
  ]
]

unfoldable pub trim_data : List Shard → ℕ → ℕ → Option (List ℕ)
unfolding join_from trim_from cut
trim_data [] k data_len = some []
trim_data (s ∷ ss) k data_len =
    if leb data_len 0
    then join_from (s ∷ ss) 0 k []
    else trim_from (s ∷ ss) (length s) data_len 0 k []

trimmed : Codec → List Shard → Option (List ℕ) → Result CodecError (List ℕ × List Shard)
trimmed c full none = err panic
trimmed c full (some out) = ok (out, full)

refilled : Codec → ℕ → Option (List Shard) → Result CodecError (List ℕ × List Shard)
unfolding trimmed
refilled c data_len none = err library
refilled c data_len (some full) = trimmed c full (trim_data full c.k data_len)

-- The filled shards beside the data: the source fills the missing slots of its argument in place.
unfoldable pub reconstruct :
    Codec → List (Option Shard) → ℕ → Result CodecError (List ℕ × List Shard)
unfolding refilled
reconstruct c slots data_len =
    if length slots == n_shards c
    then refilled c data_len (c.enc.reconstruct slots)
    else err wrong_shard_count

unfoldable pub verify : Codec → List Shard → Result CodecError Bool
unfolding n_shards
verify c shards =
    if length shards == n_shards c
    then elim (c.enc.verify shards) [ none ↦ err library | some b ↦ ok b ]
    else err wrong_shard_count
