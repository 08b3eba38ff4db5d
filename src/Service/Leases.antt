-- ===== src/Service/Leases.antt =====
-- Sync leases and the admission of writes: the fields under `syncMutex` and the methods that read or
-- change them. A method that waits on `writeCond` is cut there: each round is a step of its own.
pub mod Exclusion
use micros.Base.{
  ℕ, suc, ◌+◌, ◌-◌, Str, codes, str_eq, Bool, true, false, ◌||◌, leb, ◌==◌, List, [], ◌∷◌,
  if◌then◌else◌,
}
use micros.Base.Assoc.{lookup, insert, erase, str_Eq}
use micros.Service.Writes.{Failure, writes_blocked, waiting}

-- 30 seconds, in nanoseconds.
abbrev pub lease_time : ℕ
lease_time = 30000000000

pub record Gate : Type 0 where
  pub syncing_nodes : List (Str × ℕ)
  pub active_writes : ℕ
  pub write_block_behavior : Str

abbrev pub new_gate : Gate
new_gate = record { syncing_nodes = []; active_writes = 0; write_block_behavior = codes "reject" }

unfoldable pub set_write_block_behavior : Str → Gate → Gate
set_write_block_behavior b g =
    if str_eq b (codes "wait") || str_eq b (codes "reject")
    then record g { write_block_behavior = b }
    else g

unfoldable pub lease_name : Str → Str
lease_name id = if str_eq id [] then codes "unknown" else id

-- StartSyncLease up to its wait, which lasts until `is_drained`; HeartbeatSyncLease is the same.
unfoldable pub start_sync_lease : Str → ℕ → Gate → Gate
unfolding lease_name
start_sync_lease id now g = record g { syncing_nodes = insert (lease_name id) now g.syncing_nodes }

unfoldable pub is_drained : Gate → Bool
is_drained g = g.active_writes == 0

unfoldable pub heartbeat_sync_lease : Str → ℕ → Gate → Gate
unfolding lease_name
heartbeat_sync_lease id now g = record g {
  syncing_nodes = insert (lease_name id) now g.syncing_nodes;
}

unfoldable pub end_sync_lease : Str → Gate → Gate
unfolding lease_name
end_sync_lease id g = record g { syncing_nodes = erase (lease_name id) g.syncing_nodes }

-- `now.Sub(lastSeen) <= 30*time.Second`
unfoldable pub is_fresh : ℕ → ℕ → Bool
is_fresh now last = leb now (last + lease_time)

unfoldable pub has_fresh : ℕ → List (Str × ℕ) → Bool
unfolding is_fresh
has_fresh now [] = false
has_fresh now ((id, last) ∷ rest) = is_fresh now last || has_fresh now rest

unfoldable pub without_expired : ℕ → List (Str × ℕ) → List (Str × ℕ)
unfolding is_fresh
without_expired now [] = []
without_expired now ((id, last) ∷ rest) =
    let kept = without_expired now rest in if is_fresh now last then (id, last) ∷ kept else kept

-- isWritesBlockedLocked
unfoldable pub is_writes_blocked : ℕ → Gate → Bool × Gate
unfolding has_fresh without_expired
is_writes_blocked now g = (
  has_fresh now g.syncing_nodes,
  record g { syncing_nodes = without_expired now g.syncing_nodes },
)

-- One round of the loop at the head of PutObject and DeleteObject.
pub data Admission : Type 0 where
  admitted : Admission
  refused : Failure → Admission

unfoldable pub admit_write : ℕ → Gate → Admission × Gate
unfolding is_writes_blocked
admit_write now g =
    let (blocked, g') = is_writes_blocked now g in
    if blocked
    then (if str_eq g'.write_block_behavior (codes "wait")
        then (refused waiting, g')
        else (refused writes_blocked, g'))
    else (admitted, record g' { active_writes = suc g'.active_writes })

-- The deferred end of a write.
unfoldable pub finish_write : Gate → Gate
finish_write g = record g { active_writes = g.active_writes - 1 }
