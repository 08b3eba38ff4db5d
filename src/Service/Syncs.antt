-- ===== src/Service/Syncs.antt =====
-- HandleSyncRequest: the leader's side of a sync, from the lease to the follower's return. The manager
-- is a static one, whose RefreshFollowers does nothing.
pub mod Outcome
mod Examples
use micros.Base.{ℕ, Str, Option, none, some, if◌then◌else◌}
use micros.Cluster.Static.{register_follower, mark_alive}
use micros.Replication.{World, set_remote}
use micros.Service.Leases.{Gate, start_sync_lease, end_sync_lease, is_drained}
use micros.Sync.Follower.{Setup, SyncError, sync_follower}

pub data SyncFailure : Type 0 where
  not_configured draining : SyncFailure
  sync_failed : SyncError → SyncFailure

-- The leader's gate and the nodes.
pub record State : Type 0 where
  pub gate : Gate
  pub world : World

-- SyncFollower between the leader and the node at an address.
unfoldable pub sync_at : Setup → Str → World → Option SyncError × World
unfolding set_remote
sync_at s addr w =
    let (e, p) = sync_follower s (record { leader = w.local; follower = w.remote addr }) in
    (e, set_remote addr p.follower (record w { local = p.leader }))

-- What is done with the result, before the lease ends.
unfoldable pub after_sync : Str → Str → Option SyncError × World → Option SyncFailure × World
after_sync id addr (some e, w) = (some (sync_failed e), w)
after_sync id addr (none, w) = (none, record w { members = mark_alive id addr w.members })

unfoldable pub drive_sync : Setup → Str → Str → World → Option SyncFailure × World
unfolding after_sync sync_at
drive_sync s id addr w =
    after_sync id addr (sync_at s addr (record w { members = register_follower id addr w.members }))

-- The lease is set first; while writes are active the call waits, and is cut there.
unfoldable pub handle_sync_request :
    Option Setup → ℕ → Str → Str → State → Option SyncFailure × State
unfolding drive_sync
handle_sync_request none now id addr st = (some not_configured, st)
handle_sync_request (some s) now id addr st =
    let g : Gate = start_sync_lease id now st.gate in
    let (e, w) = drive_sync s id addr st.world in
    if is_drained st.gate
    then (e, record { gate = end_sync_lease id g; world = w })
    else (some draining, record st { gate = g })
