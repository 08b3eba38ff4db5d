-- ===== src/Config/Accepted.antt =====
-- What a validated configuration is good for.
use micros.Base.{
  ltb, ℕ, ◌+◌, ◌<◌, ◌≤◌, Str, codes, str_eq, str_eq_iff, Bool, true, false, ◌&&◌, not, ◌≡◌, refl,
  sym, ap, ◌∙◌, subst, Option, none, some, [], Result, ok, err, arith, if◌then◌else◌, Bool-cases,
  inl, inr,
}
use micros.Config.{
  pos, Config, ConfigError, StorageConfig, EcConfig, validate, validate_node, validate_mode,
  validate_storage, validate_sync, validate_ec, then_with, is_mode, with_type, check_storage,
  behavior_of, is_behavior, check_ec, to_lower, lower_byte, exceeds_256, node_id_required,
}
use micros.Codec.{new_codec}
use micros.Codec.ReedSolomon.{IsNew, Encoder}
use micros.Service.Leases.{Gate, set_write_block_behavior}
use micros.Config.Validity.{IsValid, validate-IsValid}

validate_node-again :
    (hostname : Option Str) (c : Config) → IsValid hostname c → validate_node hostname c ≡ ok c
unfolding validate_node
validate_node-again hostname c v =
    either (str_eq c.node_id [] && not (str_eq c.mode (codes "single"))) hostname v.named
  where
    either :
        (b : Bool) (o : Option Str)
        → (b ≡ true → o ≡ some c.node_id)
        → (let r : Result ConfigError Config =
              if b
              then elim o [ none ↦ err node_id_required | some n ↦ ok (record c { node_id = n }) ]
              else ok c in
            r)
          ≡ ok c
    either true o e = rw (e refl) refl
    either false o e = refl

behavior_of-again : (s : Str) → is_behavior s ≡ true → behavior_of s ≡ s
unfolding is_behavior
behavior_of-again s h = elim (Bool-cases (str_eq s (codes "reject"))) [
  | inl reject ↦
      subst (λ x. behavior_of x ≡ x) (sym ((str_eq_iff s (codes "reject")).0 reject))
        (unfold to_lower lower_byte str_eq in refl)
  | inr other ↦
      subst (λ x. behavior_of x ≡ x)
        (sym ((str_eq_iff s (codes "wait")).0 (ground (arith, h, other))))
        (unfold to_lower lower_byte str_eq in refl)
]

validate_mode-again : (c : Config) → is_mode c.mode ≡ true → validate_mode c ≡ ok c
unfolding validate_mode
validate_mode-again c h = rw h refl

with_type-again : (s : StorageConfig) → str_eq (to_lower s.type_name) [] ≡ false → with_type s ≡ s
with_type-again s h = rw h refl

validate_storage-again :
    (c : Config)
    → str_eq (to_lower c.storage.type_name) [] ≡ false
    → check_storage c.storage ≡ none
    → validate_storage c ≡ ok c
unfolding validate_storage
validate_storage-again c typed stored =
    let again = with_type-again c.storage typed in
    placed (with_type c.storage) (check_storage (with_type c.storage))
      (ap check_storage again ∙ stored) again
  where
    placed :
        (s : StorageConfig) (o : Option ConfigError)
        → o ≡ none
        → s ≡ c.storage
        → (let r : Result ConfigError Config = elim o [
          | none ↦ ok (record c { storage = s })
          | some e ↦ err e
        ] in
            r)
          ≡ ok c
    placed s none e same = ap (λ x. ok (record c { storage = x })) same
    placed s (some x) e same = cc

validate_sync-again :
    (c : Config) → is_behavior c.sync.write_block_behavior ≡ true → validate_sync c ≡ ok c
unfolding validate_sync
validate_sync-again c h = rw (behavior_of-again c.sync.write_block_behavior h, h) refl

validate_ec-again : (c : Config) → check_ec c.ec ≡ none → validate_ec c ≡ ok c
unfolding validate_ec
validate_ec-again c h = rw (h, validate_ec) refl

-- What is valid is accepted as it is.
pub IsValid-validate :
    (hostname : Option Str) (c : Config) → IsValid hostname c → validate hostname c ≡ ok c
unfolding validate
IsValid-validate hostname c v =
    ap
      (λ r. then_with r (λ c1.
        then_with (validate_mode c1)
          λ c2. then_with (validate_storage c2) λ c3. then_with (validate_sync c3) validate_ec))
      (validate_node-again hostname c v)
    ∙ ap
        (λ r.
          then_with r
            (λ c2. then_with (validate_storage c2) λ c3. then_with (validate_sync c3) validate_ec))
        (validate_mode-again c v.known_mode)
    ∙ ap (λ r. then_with r (λ c3. then_with (validate_sync c3) validate_ec))
        (validate_storage-again c v.typed v.stored)
    ∙ ap (λ r. then_with r validate_ec) (validate_sync-again c v.behaves)
    ∙ validate_ec-again c v.shards

-- A configuration that Validate returned is accepted again, with nothing changed, on the same host.
pub validate_idempotent :
    (hostname : Option Str) (c c' : Config)
    → validate hostname c ≡ ok c'
    → validate hostname c' ≡ ok c'
validate_idempotent hostname c c' h =
    IsValid-validate hostname c' (validate-IsValid hostname c c' h)

-- The behaviour for blocked writes in a validated configuration is one that the service takes over.
pub validate-set_write_block_behavior :
    (hostname : Option Str) (c c' : Config) (g : Gate)
    → validate hostname c ≡ ok c'
    → (set_write_block_behavior c'.sync.write_block_behavior g).write_block_behavior
      ≡ c'.sync.write_block_behavior
unfolding set_write_block_behavior is_behavior
validate-set_write_block_behavior hostname c c' g h =
    let fine = (validate-IsValid hostname c c' h).behaves in ground (arith, fine)

check_ec-bounds :
    (e : EcConfig) (k m : ℕ)
    → e.enabled ≡ true
    → e.k ≡ pos k
    → e.m ≡ pos m
    → k + m < 9223372036854775808
    → check_ec e ≡ none
    → (1 ≤ k) × (k + m ≤ 256)
unfolding check_ec exceeds_256
check_ec-bounds e k m on ek em small h =
    let g = rw (on, ek, em) at h in (ground (arith, g, small), ground (arith, g, small))

-- With erasure coding on, NewCodec makes a codec of the numbers of shards of a validated configuration,
-- with these numbers and the library's encoder for them. The library makes an encoder for at least one
-- data shard and at most 256 shards, and the sum of the numbers does not overflow.
pub validate-new_codec :
    (new_encoder : ℕ → ℕ → Option Encoder) (hostname : Option Str) (c c' : Config) (k m : ℕ)
    → IsNew new_encoder
    → validate hostname c ≡ ok c'
    → c'.ec.enabled ≡ true
    → c'.ec.k ≡ pos k
    → c'.ec.m ≡ pos m
    → k + m < 9223372036854775808
    → (enc : Encoder) × (new_encoder k m ≡ some enc)
      × (new_codec new_encoder k m ≡ ok (record { k = k; m = m; enc = enc }))
unfolding new_codec
validate-new_codec new_encoder hostname c c' k m library h on ek em small =
    let (low, high) =
      check_ec-bounds c'.ec k m on ek em small (validate-IsValid hostname c c' h).shards in
    let (enc, made) = library.creates k m low high in
    let one : ltb k 1 ≡ false = ground (arith, low) in
    let fits : ltb 256 (k + m) ≡ false = ground (arith, high) in
    (enc, made, rw (one, fits, made) refl)
