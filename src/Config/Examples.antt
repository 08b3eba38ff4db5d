-- ===== src/Config/Examples.antt =====
-- A configuration that leaves its storage type and its write behaviour out.
use micros.Base.{codes, str_eq, true, false, ◌≡◌, refl, none, some, [], ok, arith}
use micros.Config.{
  pos, Config, validate, validate_node, validate_mode, validate_storage, validate_sync, validate_ec,
  is_mode, check_storage, is_behavior, check_ec, exceeds_256, to_lower, lower_byte,
}
use micros.Config.Accepted.{validate_idempotent, validate-new_codec}
use micros.Codec.{new_codec}
use micros.Codec.ReedSolomon.{IsNew, Encoder}

abbrev given : Config
given = record {
  node_id = [];
  mode = codes "Static";
  storage = record { type_name = []; root = codes "/data"; dsn = [] };
  k8s = record {
    lease_duration = pos 15;
    renew_deadline = pos 10;
    retry_period = pos 2;
    lease_duration_str = [];
    renew_deadline_str = [];
    retry_period_str = [];
  };
  multipart = record {
    upload_expiry = pos 24;
    cleanup_interval = pos 1;
    upload_expiry_str = [];
    cleanup_interval_str = [];
  };
  sync = record {
    block_writes = true;
    write_block_behavior = codes "WAIT";
    allow_local_reads = false;
  };
  health = record { interval = pos 5; timeout = pos 3; interval_str = []; timeout_str = [] };
  ec = record {
    enabled = true;
    k = pos 3;
    m = pos 2;
    min_object_size = pos 0;
    min_age = pos 10;
    convert_interval = pos 5;
    restore_interval = pos 5;
    min_age_str = [];
    convert_interval_str = [];
    restore_interval_str = [];
  };
}

abbrev accepted : Config
accepted = record given {
  node_id = codes "host";
  storage = record given.storage { type_name = codes "fs" };
  sync = record given.sync { write_block_behavior = codes "wait" };
}

given-accepted : validate (some (codes "host")) given ≡ ok accepted
unfolding validate validate_node validate_mode validate_storage validate_sync validate_ec is_mode
    check_storage is_behavior check_ec exceeds_256 to_lower lower_byte str_eq
given-accepted = refl

validate_idempotent_example : validate (some (codes "host")) accepted ≡ ok accepted
validate_idempotent_example =
    validate_idempotent (some (codes "host")) given accepted given-accepted

abbrev stuck : Encoder
stuck = record { encode = λ s. none; reconstruct = λ s. none; verify = λ s. none }

stuck-IsNew : IsNew (λ k m. some stuck)
stuck-IsNew = record { creates = λ k m low high. (stuck, refl) }

validate-new_codec_example :
    (enc : Encoder) × (some stuck ≡ some enc)
    × (new_codec (λ k m. some stuck) 3 2 ≡ ok (record { k = 3; m = 2; enc = enc }))
validate-new_codec_example =
    validate-new_codec (λ k m. some stuck) (some (codes "host")) given accepted 3 2 stuck-IsNew
      given-accepted refl refl refl (omega arith)
