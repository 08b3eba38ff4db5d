-- ===== src/Domain/Node.antt =====
-- internal/domain/cluster/node.go
use micros.Base.{ℕ, Str, codes, str_eq, Bool, ◌||◌, if◌then◌else◌}

abbrev pub role_leader : Str
role_leader = codes "leader"

abbrev pub role_follower : Str
role_follower = codes "follower"

abbrev pub status_offline : Str
status_offline = codes "OFFLINE"

abbrev pub status_syncing : Str
status_syncing = codes "SYNCING"

abbrev pub status_ready : Str
status_ready = codes "READY"

pub record Node : Type 0 where
  pub id : Str
  pub internal_address : Str
  pub role : Str
  pub status : Str
  pub last_seen : ℕ
  pub objects_count : ℕ
  pub storage_used : ℕ
  pub uptime_seconds : ℕ

unfoldable pub is_healthy : Node → Bool
is_healthy n = str_eq n.status status_ready || str_eq n.role role_leader

-- `Node.TransitionTo`, which never fails.
unfoldable pub transition_to : Node → Str → Node
transition_to n status = if str_eq n.status status then n else record n { status = status }
