-- ===== src/Codec/RoundTrip.antt =====
-- What Reconstruct gives back of what Encode made, from any k of the shards.
use native.Mathlib.Nat.{suc-add, div-add-mod, mod-lt}
use micros.Base.{
  ℕ, zero, suc, ◌+◌, ◌-◌, ◌*◌, ◌/◌, ◌≤◌, ◌<◌, ◌≡◌, refl, ap, ◌∙◌, Option, none, some, List, [], ◌∷◌,
  ◌++◌, ok, length, take, replicate, length-replicate, arith, ◌==◌, true,
}
use micros.Codec.{Codec, padded_size, n_shards, shard_size, encode, reconstruct, trim_data}
use micros.Codec.{add_parity}
use micros.Codec.Rows.{take-length, take-take, flatten-take, trim_data_lem, trim_data-empty}
use micros.Codec.ReedSolomon.{Shard, AllOfSize, Fits, present, IsReedSolomon}
use micros.Codec.Split.{flatten, copy_bytes_lem}

padded_size_pos : (c : Codec) (len : ℕ) → 0 < padded_size c len
unfolding padded_size
padded_size_pos c len = ground arith

div_room : (len k : ℕ) → 1 ≤ k → len ≤ k * ((len + k - 1) / k)
div_room len k h = grind (arith, div-add-mod (len + k - 1) k, mod-lt (len + k - 1) h)

-- The k data shards have room for the object.
padded_size_room : (c : Codec) (len : ℕ) → 1 ≤ c.k → len ≤ c.k * padded_size c len
unfolding padded_size shard_size
padded_size_room c len h = ground (arith, div_room len c.k h)

Fits-length :
    (slots : List (Option Shard)) (es : List Shard) → Fits slots es → length slots ≡ length es
Fits-length [] [] f = refl
Fits-length [] (s ∷ ss) f = elim f [ ]
Fits-length (o ∷ os) [] f = elim f [ ]
Fits-length (none ∷ os) (s ∷ ss) f = omega (arith, Fits-length os ss f)
Fits-length (some t ∷ os) (s ∷ ss) f = omega (arith, Fits-length os ss f.1)

AllOfSize-replicate : (n size : ℕ) → AllOfSize size (replicate n (replicate size 0))
AllOfSize-replicate zero size = tt
AllOfSize-replicate (suc n) size = (length-replicate size 0, AllOfSize-replicate n size)

replicate-add : (m n : ℕ) → replicate m 0 ++ replicate n 0 ≡ replicate {A = ℕ} (m + n) 0
replicate-add zero n = let e : n ≡ 0 + n = omega arith in ap (λ t. replicate t 0) e
replicate-add (suc m) n = rw suc-add (ap (λ t. 0 ∷ t) (replicate-add m n))

flatten-zeros : (n size : ℕ) → flatten (replicate n (replicate size 0)) ≡ replicate (n * size) 0
flatten-zeros zero size = let e : 0 ≡ 0 * size = omega arith in ap (λ t. replicate t 0) e
flatten-zeros (suc n) size =
    let e : size + n * size ≡ suc n * size = grind arith in
    rw (flatten-zeros n size, replicate-add size (n * size)) (ap (λ t. replicate t 0) e)

add_parity-ok :
    (c : Codec) (shards es : List Shard)
    → c.enc.encode shards ≡ some es
    → add_parity c (some shards) ≡ ok es
unfolding add_parity
add_parity-ok c shards es h = rw (h, add_parity)

==_refl : (n : ℕ) → (n == n) ≡ true
==_refl n = ground arith

module _ (c : Codec) (laws : IsReedSolomon c.k c.m c.enc) (pos : 1 ≤ c.k) (bytes : List ℕ) where
  abbrev size : ℕ
  size = padded_size c (length bytes)

  abbrev pad : ℕ
  pad = (c.k + c.m) * size - length bytes

  -- What Encode hands to the library, and what the library makes of it.
  encode_parts :
      (shards es : List Shard) × (encode c bytes ≡ ok es)
      × (c.enc.encode shards ≡ some es)
      × (length es ≡ c.k + c.m)
      × AllOfSize size es
      × (flatten (take c.k es) ≡ take (c.k * size) (bytes ++ replicate pad 0))
  unfolding encode n_shards
  encode_parts =
      let n : ℕ = c.k + c.m in
      let s0 = padded_size_pos c (length bytes) in
      let room = padded_size_room c (length bytes) pos in
      let fits : length bytes ≤ n * size = grind arith in
      let e0 : 0 + length bytes + pad ≡ n * size = omega arith in
      let e1 : n * size ≡ length bytes + pad = omega arith in
      let (shards, e, f, sz, l) =
        copy_bytes_lem size n pad 0 [] bytes (replicate n (replicate size 0)) s0
          (AllOfSize-replicate n size) (length-replicate n (replicate size 0)) refl e0
          (flatten-zeros n size ∙ ap (λ t. replicate t 0) e1) in
      let (es, ee, le, sze, te) = laws.encodes size shards s0 l sz in
      (
        shards,
        es,
        ap (add_parity c) e ∙ add_parity-ok c shards es ee,
        ee,
        le,
        sze,
        rw te (flatten-take size c.k shards sz ∙ ap (take (c.k * size)) f),
      )

-- For k at least 1, and a library that keeps its documented behaviour, Encode succeeds on every
-- object: it makes k + m shards, all of the one size that ShardSize gives (1 where that is 0).
pub encode_total :
    (c : Codec) (bytes : List ℕ)
    → IsReedSolomon c.k c.m c.enc
    → 1 ≤ c.k
    → (es : List Shard) × (encode c bytes ≡ ok es)
      × (length es ≡ n_shards c)
      × AllOfSize (padded_size c (length bytes)) es
unfolding n_shards
encode_total c bytes laws pos =
    let (shards, es, e, ee, le, sze, fe) = encode_parts c laws pos bytes in (es, e, le, sze)

module _ (c : Codec) (laws : IsReedSolomon c.k c.m c.enc) (pos : 1 ≤ c.k) (bytes : List ℕ)
    (es : List Shard) (made : encode c bytes ≡ ok es) (slots : List (Option Shard))
    (fits : Fits slots es) (enough : c.k ≤ present slots) where
  -- What the library gives back, and what the data shards hold.
  recovered :
      (c.enc.reconstruct slots ≡ some es)
      × (length slots ≡ c.k + c.m)
      × (length es ≡ c.k + c.m)
      × AllOfSize (size c laws pos bytes) es
      × (flatten (take c.k es)
          ≡ take (c.k * size c laws pos bytes) (bytes ++ replicate (pad c laws pos bytes) 0))
  recovered =
      let (shards, es', e, ee, le, sze, fe) = encode_parts c laws pos bytes in
      let same : es' ≡ es = cc in
      let lib : c.enc.encode shards ≡ some es = ee ∙ ap some same in
      (
        laws.recreates shards es slots lib fits enough,
        Fits-length slots es fits ∙ rw (← same) le,
        rw (← same) le,
        rw (← same) sze,
        rw (← same) fe,
      )

  reconstruct_from :
      (len : ℕ) (out : List ℕ)
      → trim_data es c.k len ≡ some out
      → reconstruct c slots len ≡ ok (out, es)
  unfolding reconstruct n_shards
  reconstruct_from len out h =
      let (lib, ls, le, sze, fe) = recovered in rw (lib, ls, ==_refl (c.k + c.m), h)

  room : length bytes ≤ c.k * size c laws pos bytes
  room = padded_size_room c (length bytes) pos

  rows : c.k ≤ length es
  rows = omega (arith, recovered.2)

  -- Any k of the shards that Encode made of a non-empty object give the object back, byte for
  -- byte, and fill the missing shards with the ones that Encode had made.
  pub reconstruct-encode : 0 < length bytes → reconstruct c slots (length bytes) ≡ ok (bytes, es)
  reconstruct-encode some_bytes =
      let (lib, ls, le, sze, fe) = recovered in
      let cut =
        trim_data_lem es (size c laws pos bytes) c.k (length bytes) sze pos rows some_bytes in
      reconstruct_from (length bytes) bytes (
        cut
        ∙ ap some (
            rw
              (
                fe,
                take-take (length bytes) (c.k * size c laws pos bytes)
                    (bytes ++ replicate (pad c laws pos bytes) 0) room,
              )
              (take-length bytes (replicate (pad c laws pos bytes) 0))))

padded_size-zero : (c : Codec) → 1 ≤ c.k → padded_size c 0 ≡ 1
unfolding padded_size shard_size
padded_size-zero c h = ground (arith, div-eq-zero c.k h)
  where
    div-eq-zero : (k : ℕ) → 1 ≤ k → (0 + k - 1) / k ≡ 0
    div-eq-zero k p = grind (arith, div-add-mod (0 + k - 1) k, mod-lt (0 + k - 1) p)

take-replicate : (m n : ℕ) → m ≤ n → take m (replicate {A = ℕ} n 0) ≡ replicate m 0
take-replicate zero n h = refl
take-replicate (suc m) zero h = absurd (omega arith)
take-replicate (suc m) (suc n) h = ap (λ t. 0 ∷ t) (take-replicate m n (omega arith))

-- An empty object does not come back empty: from any k of its shards Reconstruct returns k zeros.
pub reconstruct-encode_empty :
    (c : Codec) (es : List Shard) (slots : List (Option Shard))
    → IsReedSolomon c.k c.m c.enc
    → 1 ≤ c.k
    → encode c [] ≡ ok es
    → Fits slots es
    → c.k ≤ present slots
    → reconstruct c slots 0 ≡ ok (replicate c.k 0, es)
reconstruct-encode_empty c es slots laws pos made fits enough =
    let (lib, ls, le, sze, fe) = recovered c laws pos [] es made slots fits enough in
    let one = padded_size-zero c pos in
    let row : c.k * padded_size c 0 ≡ c.k = rw one (omega arith) in
    let left : c.k ≤ pad c laws pos [] = rw one (omega arith) in
    let zeros : take (c.k * padded_size c 0) (replicate {A = ℕ} (pad c laws pos []) 0)
        ≡ replicate c.k 0 =
      rw row (take-replicate c.k (pad c laws pos []) left) in
    reconstruct_from c laws pos [] es made slots fits enough 0 (replicate c.k 0) (
      trim_data-empty es (size c laws pos []) c.k sze pos
        (rows c laws pos [] es made slots fits enough)
      ∙ ap some (fe ∙ zeros))
