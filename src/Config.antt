-- ===== src/Config.antt =====
-- internal/config/config.go: parseDurations and Validate, with the parts of the configuration that they
-- read. time.ParseDuration and os.Hostname are parameters. Strings are lowered byte by byte.
pub mod Validity
pub mod Accepted
mod Examples
use micros.Base.{
  ℕ, ◌+◌, ◌%◌, Str, codes, str_eq, Bool, true, false, ◌&&◌, ◌||◌, not, ltb, leb, Option, none, some,
  List, [], ◌∷◌, Result, ok, err, if◌then◌else◌,
}

-- Go's int and int64.
pub data ℤ : Type 0 where
  pos negsuc : ℕ → ℤ

pub record StorageConfig : Type 0 where
  pub type_name : Str
  pub root : Str
  pub dsn : Str

pub record K8sConfig : Type 0 where
  pub lease_duration : ℤ
  pub renew_deadline : ℤ
  pub retry_period : ℤ
  pub lease_duration_str : Str
  pub renew_deadline_str : Str
  pub retry_period_str : Str

pub record SyncConfig : Type 0 where
  pub block_writes : Bool
  pub write_block_behavior : Str
  pub allow_local_reads : Bool

pub record MultipartConfig : Type 0 where
  pub upload_expiry : ℤ
  pub cleanup_interval : ℤ
  pub upload_expiry_str : Str
  pub cleanup_interval_str : Str

pub record HealthConfig : Type 0 where
  pub interval : ℤ
  pub timeout : ℤ
  pub interval_str : Str
  pub timeout_str : Str

pub record EcConfig : Type 0 where
  pub enabled : Bool
  pub k : ℤ
  pub m : ℤ
  pub min_object_size : ℤ
  pub min_age : ℤ
  pub convert_interval : ℤ
  pub restore_interval : ℤ
  pub min_age_str : Str
  pub convert_interval_str : Str
  pub restore_interval_str : Str

-- The node's ID and the cluster's mode, and the sections.
pub record Config : Type 0 where
  pub node_id : Str
  pub mode : Str
  pub storage : StorageConfig
  pub k8s : K8sConfig
  pub multipart : MultipartConfig
  pub sync : SyncConfig
  pub health : HealthConfig
  pub ec : EcConfig

pub data ConfigError : Type 0 where
  node_id_required invalid_mode root_required dsn_required invalid_write_block_behavior :
      ConfigError
  invalid_k invalid_m too_many_shards invalid_min_object_size : ConfigError
  invalid_duration : Str → ConfigError

-- strings.ToLower
unfoldable pub lower_byte : ℕ → ℕ
lower_byte c = if leb b'A' c && leb c b'Z' then c + 32 else c

unfoldable pub to_lower : Str → Str
unfolding lower_byte
to_lower [] = []
to_lower (c ∷ s) = lower_byte c ∷ to_lower s

module _ (parse_duration : Str → Option ℤ) where
  -- `if x, err = time.ParseDuration(s); err != nil`, with the rest of the method.
  abbrev duration : Str → Str → (ℤ → Result ConfigError Config) → Result ConfigError Config
  duration name s next = elim (parse_duration s) [
    | none ↦ err (invalid_duration name)
    | some d ↦ next d
  ]

  unfoldable pub parse_durations : Config → Result ConfigError Config
  parse_durations c =
      duration (codes "cluster.k8s.lease_duration") c.k8s.lease_duration_str λ lease.
        duration (codes "cluster.k8s.renew_deadline") c.k8s.renew_deadline_str λ renew.
          duration (codes "cluster.k8s.retry_period") c.k8s.retry_period_str λ retry.
            duration (codes "multipart.upload_expiry") c.multipart.upload_expiry_str λ expiry.
              duration (codes "multipart.cleanup_interval") c.multipart.cleanup_interval_str
                λ cleanup. duration (codes "health.interval") c.health.interval_str λ interval.
                  duration (codes "health.timeout") c.health.timeout_str λ timeout.
                    duration (codes "ec.min_age") c.ec.min_age_str λ age.
                      duration (codes "ec.convert_interval") c.ec.convert_interval_str λ convert.
                        duration (codes "ec.restore_interval") c.ec.restore_interval_str λ restore.
                          ok (record c {
                            k8s = record c.k8s {
                              lease_duration = lease;
                              renew_deadline = renew;
                              retry_period = retry;
                            };
                            multipart = record c.multipart {
                              upload_expiry = expiry;
                              cleanup_interval = cleanup;
                            };
                            health = record c.health { interval = interval; timeout = timeout };
                            ec = record c.ec {
                              min_age = age;
                              convert_interval = convert;
                              restore_interval = restore;
                            };
                          })

-- The host's name stands in for a missing ID; `none` is an error of os.Hostname.
unfoldable pub validate_node : Option Str → Config → Result ConfigError Config
validate_node hostname c =
    if str_eq c.node_id [] && not (str_eq c.mode (codes "single"))
    then elim hostname [ none ↦ err node_id_required | some h ↦ ok (record c { node_id = h }) ]
    else ok c

unfoldable pub is_mode : Str → Bool
unfolding to_lower
is_mode s =
    let mode = to_lower s in
    str_eq mode (codes "k8s") || str_eq mode (codes "static") || str_eq mode (codes "single")

unfoldable pub validate_mode : Config → Result ConfigError Config
unfolding is_mode
validate_mode c = if is_mode c.mode then ok c else err invalid_mode

-- The storage section with its default.
abbrev pub with_type : StorageConfig → StorageConfig
with_type s = if str_eq (to_lower s.type_name) [] then record s { type_name = codes "fs" } else s

unfoldable pub check_storage : StorageConfig → Option ConfigError
unfolding to_lower
check_storage s =
    if str_eq (to_lower s.type_name) (codes "fs")
    then (if str_eq s.root [] then some root_required else none)
    else (if str_eq s.dsn [] then some dsn_required else none)

unfoldable pub validate_storage : Config → Result ConfigError Config
unfolding to_lower check_storage
validate_storage c = elim (check_storage (with_type c.storage)) [
  | none ↦ ok (record c { storage = with_type c.storage })
  | some e ↦ err e
]

abbrev pub behavior_of : Str → Str
behavior_of s = if str_eq (to_lower s) [] then codes "reject" else to_lower s

unfoldable pub is_behavior : Str → Bool
is_behavior s = str_eq s (codes "reject") || str_eq s (codes "wait")

unfoldable pub validate_sync : Config → Result ConfigError Config
unfolding to_lower is_behavior
validate_sync c =
    if is_behavior (behavior_of c.sync.write_block_behavior)
    then ok (record c {
      sync = record c.sync { write_block_behavior = behavior_of c.sync.write_block_behavior };
    })
    else err invalid_write_block_behavior

abbrev pub is_positive : ℤ → Bool
is_positive (pos n) = leb 1 n
is_positive (negsuc n) = false

abbrev pub is_negative : ℤ → Bool
is_negative (pos n) = false
is_negative (negsuc n) = true

-- `k + m > 256` on 64-bit integers (2^64 and 2^63 below), for positive k and m.
unfoldable pub exceeds_256 : ℤ → ℤ → Bool
exceeds_256 (pos k) (pos m) =
    let sum = (k + m) % 18446744073709551616 in ltb 256 sum && ltb sum 9223372036854775808
exceeds_256 (pos k) (negsuc m) = false
exceeds_256 (negsuc k) m = false

unfoldable pub check_ec : EcConfig → Option ConfigError
unfolding exceeds_256
check_ec e =
    if not e.enabled
    then none
    else if not (is_positive e.k)
    then some invalid_k
    else if not (is_positive e.m)
    then some invalid_m
    else if exceeds_256 e.k e.m
    then some too_many_shards
    else if is_negative e.min_object_size
    then some invalid_min_object_size
    else none

unfoldable pub validate_ec : Config → Result ConfigError Config
unfolding check_ec
validate_ec c = elim (check_ec c.ec) [ none ↦ ok c | some e ↦ err e ]

abbrev pub then_with :
    Result ConfigError Config → (Config → Result ConfigError Config) → Result ConfigError Config
then_with (ok c) f = f c
then_with (err e) f = err e

unfoldable pub validate : Option Str → Config → Result ConfigError Config
unfolding validate_node validate_mode validate_storage validate_sync validate_ec
validate hostname c = then_with (validate_node hostname c) λ c1.
    then_with (validate_mode c1)
      λ c2. then_with (validate_storage c2) λ c3. then_with (validate_sync c3) validate_ec
