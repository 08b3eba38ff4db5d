-- ===== src/Config/Validity.antt =====
-- What Validate accepts.
use micros.Base.{
  Str, codes, str_eq, Bool, true, false, ◌&&◌, not, ◌≡◌, refl, sym, ap, ◌∙◌, subst, Option, none,
  some, [], Result, ok, err, if◌then◌else◌,
}
use micros.Config.{
  Config, ConfigError, StorageConfig, validate, validate_node, validate_mode, validate_storage,
  validate_sync, validate_ec, then_with, is_mode, with_type, check_storage, behavior_of,
  is_behavior, check_ec, to_lower, lower_byte, invalid_mode, invalid_write_block_behavior,
  node_id_required,
}

-- The conditions that a validated configuration meets.
pub record IsValid (hostname : Option Str) (c : Config) : Type 0 where
  pub named :
      (str_eq c.node_id [] && not (str_eq c.mode (codes "single"))) ≡ true
      → hostname ≡ some c.node_id
  pub known_mode : is_mode c.mode ≡ true
  pub typed : str_eq (to_lower c.storage.type_name) [] ≡ false
  pub stored : check_storage c.storage ≡ none
  pub behaves : is_behavior c.sync.write_block_behavior ≡ true
  pub shards : check_ec c.ec ≡ none

same_config : {a b : Config} → ◌≡◌ {A = Result ConfigError Config} (ok a) (ok b) → a ≡ b
same_config h = cc

then_with-ok :
    (r : Result ConfigError Config) (f : Config → Result ConfigError Config) (c' : Config)
    → then_with r f ≡ ok c'
    → (c : Config) × (r ≡ ok c) × (f c ≡ ok c')
then_with-ok (ok c) f c' h = (c, refl, h)
then_with-ok (err e) f c' h = cc

validate_node-named :
    (hostname : Option Str) (c c1 : Config)
    → validate_node hostname c ≡ ok c1
    → ((str_eq c1.node_id [] && not (str_eq c1.mode (codes "single"))) ≡ true
        → hostname ≡ some c1.node_id)
unfolding validate_node
validate_node-named hostname c c1 h =
    either (str_eq c.node_id [] && not (str_eq c.mode (codes "single"))) hostname refl h
  where
    either :
        (b : Bool) (o : Option Str)
        → (str_eq c.node_id [] && not (str_eq c.mode (codes "single"))) ≡ b
        → (let r : Result ConfigError Config =
              if b
              then elim o [ none ↦ err node_id_required | some n ↦ ok (record c { node_id = n }) ]
              else ok c in
            r)
          ≡ ok c1
        → ((str_eq c1.node_id [] && not (str_eq c1.mode (codes "single"))) ≡ true
            → o ≡ some c1.node_id)
    either true none e g k = cc
    either true (some n) e g k = ap (λ x. some x.node_id) (same_config g)
    either false o e g k = cc (
      k,
      e,
      ap (λ x. str_eq x.node_id [] && not (str_eq x.mode (codes "single"))) (same_config g),
    )

validate_mode-known :
    (c c1 : Config) → validate_mode c ≡ ok c1 → (is_mode c1.mode ≡ true) × (c1 ≡ c)
unfolding validate_mode
validate_mode-known c c1 h = either (is_mode c.mode) refl h
  where
    either :
        (b : Bool)
        → is_mode c.mode ≡ b
        → (if b then ok c else err invalid_mode) ≡ ok c1
        → (is_mode c1.mode ≡ true) × (c1 ≡ c)
    either true e g = (ap (λ x. is_mode x.mode) (sym (same_config g)) ∙ e, sym (same_config g))
    either false e g = cc

with_type-typed : (s : StorageConfig) → str_eq (to_lower (with_type s).type_name) [] ≡ false
with_type-typed s = either (str_eq (to_lower s.type_name) []) refl
  where
    either :
        (b : Bool)
        → str_eq (to_lower s.type_name) [] ≡ b
        → (let t : StorageConfig = if b then record s { type_name = codes "fs" } else s in
            str_eq (to_lower t.type_name) [])
          ≡ false
    either true e = unfold to_lower lower_byte str_eq in refl
    either false e = e

validate_storage-fine :
    (c c1 : Config)
    → validate_storage c ≡ ok c1
    → (str_eq (to_lower c1.storage.type_name) [] ≡ false)
      × (check_storage c1.storage ≡ none)
      × (c1 ≡ record c { storage = c1.storage })
unfolding validate_storage
validate_storage-fine c c1 h = either (check_storage (with_type c.storage)) refl h
  where
    fine : Config
    fine = record c { storage = with_type c.storage }

    either :
        (o : Option ConfigError)
        → check_storage (with_type c.storage) ≡ o
        → (let r : Result ConfigError Config = elim o [ none ↦ ok fine | some e ↦ err e ] in r)
          ≡ ok c1
        → (str_eq (to_lower c1.storage.type_name) [] ≡ false)
          × (check_storage c1.storage ≡ none)
          × (c1 ≡ record c { storage = c1.storage })
    either none e g =
        subst
          (λ x.
            (str_eq (to_lower x.storage.type_name) [] ≡ false)
            × (check_storage x.storage ≡ none)
            × (x ≡ record c { storage = x.storage }))
          (same_config g) (with_type-typed c.storage, e, refl)
    either (some e') e g = cc

validate_sync-behaves :
    (c c1 : Config)
    → validate_sync c ≡ ok c1
    → (is_behavior c1.sync.write_block_behavior ≡ true) × (c1 ≡ record c { sync = c1.sync })
unfolding validate_sync
validate_sync-behaves c c1 h = either (is_behavior (behavior_of c.sync.write_block_behavior)) refl h
  where
    fine : Config
    fine = record c {
      sync = record c.sync { write_block_behavior = behavior_of c.sync.write_block_behavior };
    }

    either :
        (b : Bool)
        → is_behavior (behavior_of c.sync.write_block_behavior) ≡ b
        → (if b then ok fine else err invalid_write_block_behavior) ≡ ok c1
        → (is_behavior c1.sync.write_block_behavior ≡ true) × (c1 ≡ record c { sync = c1.sync })
    either true e g =
        subst
          (λ x. (is_behavior x.sync.write_block_behavior ≡ true) × (x ≡ record c { sync = x.sync }))
          (same_config g) (e, refl)
    either false e g = cc

validate_ec-shards : (c c1 : Config) → validate_ec c ≡ ok c1 → (check_ec c1.ec ≡ none) × (c1 ≡ c)
unfolding validate_ec
validate_ec-shards c c1 h = either (check_ec c.ec) refl h
  where
    either :
        (o : Option ConfigError)
        → check_ec c.ec ≡ o
        → (let r : Result ConfigError Config = elim o [ none ↦ ok c | some e ↦ err e ] in r) ≡ ok c1
        → (check_ec c1.ec ≡ none) × (c1 ≡ c)
    either none e g = subst (λ x. (check_ec x.ec ≡ none) × (x ≡ c)) (same_config g) (e, refl)
    either (some x) e g = cc

-- What the later checks leave as it is.
abbrev names : Config → Str × Str
names c = (c.node_id, c.mode)

-- What Validate accepts is valid.
pub validate-IsValid :
    (hostname : Option Str) (c c' : Config) → validate hostname c ≡ ok c' → IsValid hostname c'
unfolding validate
validate-IsValid hostname c c' h =
    let (c1, e1, h1) = then_with-ok (validate_node hostname c) _ c' h in
    let (c2, e2, h2) = then_with-ok (validate_mode c1) _ c' h1 in
    let (c3, e3, h3) = then_with-ok (validate_storage c2) _ c' h2 in
    let (c4, e4, e5) = then_with-ok (validate_sync c3) validate_ec c' h3 in
    let named = validate_node-named hostname c c1 e1 in
    let (known, s2) = validate_mode-known c1 c2 e2 in
    let (typed, stored, s3) = validate_storage-fine c2 c3 e3 in
    let (behaves, s4) = validate_sync-behaves c3 c4 e4 in
    let (shards, s5) = validate_ec-shards c4 c' e5 in
    let ids = ap names s5 ∙ ap names s4 ∙ ap names s3 ∙ ap names s2 in
    let same_storage = ap (λ x. x.storage) s5 ∙ ap (λ x. x.storage) s4 in
    record {
      named =
          subst
            (λ z. (str_eq z.0 [] && not (str_eq z.1 (codes "single"))) ≡ true → hostname ≡ some z.0)
            (sym ids) named;
      known_mode =
          subst (λ z. is_mode z.1 ≡ true) (sym ids) (subst (λ x. is_mode x.mode ≡ true) s2 known);
      typed = subst (λ z. str_eq (to_lower z.type_name) [] ≡ false) (sym same_storage) typed;
      stored = subst (λ z. check_storage z ≡ none) (sym same_storage) stored;
      behaves = subst (λ x. is_behavior x.sync.write_block_behavior ≡ true) (sym s5) behaves;
      shards = shards;
    }
