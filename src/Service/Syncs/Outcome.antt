-- ===== src/Service/Syncs/Outcome.antt =====
-- What a sync request leaves, when it succeeds and when it fails.
use micros.Base.{
  ℕ, Str, str_eq, str_eq_iff, Bool, true, false, not, ◌&&◌, ◌≡◌, ◌≢◌, refl, sym, ap, subst, Option,
  none, some, [], if◌then◌else◌,
}
use micros.Base.Assoc.{lookup, insert, lookup-insert_self, lookup-erase, str_Eq, beq_refl}
use micros.Domain.Node.{status_ready, status_syncing}
use micros.Cluster.Static.{Manager, NodeState, register_follower, mark_alive, registered}
use micros.Cluster.Static.Heartbeats.{HasStatus}
use micros.Replication.{World, set_remote}
use micros.Service.Leases.{Gate, start_sync_lease, end_sync_lease, is_drained, lease_name}
use micros.Sync.Follower.{Setup, Pair, SyncError, sync_follower}
use micros.Service.Syncs.{
  draining, State, SyncFailure, sync_failed, sync_at, after_sync, drive_sync, handle_sync_request,
}

-- The status that a node is registered with: its own, or SYNCING if it is new.
abbrev pub status_before : Option NodeState → Str
status_before none = status_syncing
status_before (some ns) = ns.node.status

register_follower-HasStatus :
    (id addr : Str) (m : Manager)
    → str_eq id [] ≡ false
    → str_eq id m.local_node_id ≡ false
    → HasStatus (status_before (lookup id m.nodes_state)) id (register_follower id addr m)
unfolding register_follower
register_follower-HasStatus id addr m named other =
    rw (named, other) (known (lookup id m.nodes_state) refl)
  where
    changed :
        (b : Bool) (ns : NodeState)
        → lookup id m.nodes_state ≡ some ns
        → HasStatus ns.node.status id (
            if b
            then record m {
              nodes_state =
                  insert id
                    (record ns { node = record ns.node { internal_address = addr } })
                    m.nodes_state;
            }
            else m)
    changed true ns e = (_, lookup-insert_self id _ m.nodes_state, refl)
    changed false ns e = (ns, e, refl)

    known :
        (o : Option NodeState)
        → lookup id m.nodes_state ≡ o
        → HasStatus (status_before o) id (elim o [
          | none ↦ record m { nodes_state = insert id (registered id addr) m.nodes_state }
          | some ns ↦
              if not (str_eq addr []) && not (str_eq ns.node.internal_address addr)
              then record m {
                nodes_state =
                    insert id
                      (record ns { node = record ns.node { internal_address = addr } })
                      m.nodes_state;
              }
              else m
        ])
    known none e = (_, lookup-insert_self id _ m.nodes_state, refl)
    known (some ns) e = changed _ ns e

mark_alive-HasStatus :
    (id addr t : Str) (m : Manager)
    → HasStatus t id m
    → HasStatus status_ready id (mark_alive id addr m)
unfolding mark_alive
mark_alive-HasStatus id addr t m (ns, there, _) =
    rw (there, mark_alive) (_, lookup-insert_self id _ m.nodes_state, refl)

-- The result of a call that did not wait.
finished :
    (b : Bool) (e f : Option SyncFailure) (x y : State)
    → f ≢ some draining
    → (let r : Option SyncFailure × State = if b then (e, x) else (some draining, y) in r.0) ≡ f
    → (e ≡ f)
      × ((let r : Option SyncFailure × State = if b then (e, x) else (some draining, y) in r.1) ≡ x)
finished true e f x y apart h = (h, refl)
finished false e f x y apart h = absurd (apart (sym h))

end_sync_lease-gone :
    (id : Str) (g : Gate) → lookup (lease_name id) (end_sync_lease id g).syncing_nodes ≡ none
unfolding end_sync_lease
end_sync_lease-gone id g =
    rw (lookup-erase (lease_name id) (lease_name id) g.syncing_nodes, beq_refl (lease_name id)) refl

module _ (s : Setup) (now : ℕ) (id addr : Str) (st : State) where
  abbrev pub outcome : Option SyncFailure × State
  outcome = handle_sync_request (some s) now id addr st

  abbrev pub registered_world : World
  registered_world = record st.world { members = register_follower id addr st.world.members }

  abbrev driven : Option SyncFailure × World
  driven = drive_sync s id addr st.world

  ended :
      (f : Option SyncFailure)
      → f ≢ some draining
      → outcome.0 ≡ f
      → (driven.0 ≡ f)
        × (outcome.1 ≡ record {
          gate = end_sync_lease id (start_sync_lease id now st.gate);
          world = driven.1;
        })
  unfolding handle_sync_request
  ended f apart h = finished (is_drained st.gate) _ f _ _ apart h

  lease_gone :
      (f : Option SyncFailure)
      → f ≢ some draining
      → outcome.0 ≡ f
      → lookup (lease_name id) outcome.1.gate.syncing_nodes ≡ none
  lease_gone f apart h =
      subst (λ x. lookup (lease_name id) x.gate.syncing_nodes ≡ none) (sym (ended f apart h).1)
        (end_sync_lease-gone id (start_sync_lease id now st.gate))

after_sync-none :
    (id addr : Str) (r : Option SyncError × World)
    → (after_sync id addr r).0 ≡ none
    → (r.0 ≡ none)
      × ((after_sync id addr r).1 ≡ record r.1 { members = mark_alive id addr r.1.members })
unfolding after_sync
after_sync-none id addr (none, w) h = (refl, refl)
after_sync-none id addr (some e, w) h = cc

after_sync-some :
    (id addr : Str) (r : Option SyncError × World) (e : SyncError)
    → (after_sync id addr r).0 ≡ some (sync_failed e)
    → (r.0 ≡ some e) × ((after_sync id addr r).1 ≡ r.1)
unfolding after_sync
after_sync-some id addr (none, w) e h = cc
after_sync-some id addr (some x, w) e h = (cc h, refl)

module _ (s : Setup) (now : ℕ) (id addr : Str) (st : State) (named : str_eq id [] ≡ false)
    (other : str_eq id st.world.members.local_node_id ≡ false) where
  abbrev disks : Pair
  disks = record { leader = st.world.local; follower = st.world.remote addr }

  abbrev Synced : World → Type 0
  Synced w =
      (sync_follower s disks ≡ (none, record { leader = w.local; follower = w.remote addr }))
      × HasStatus status_ready id w.members

  abbrev Unsynced : Str → World → Type 0
  Unsynced a w =
      HasStatus (status_before (lookup id st.world.members.nodes_state)) id w.members
      × (w.remote a ≡ st.world.remote a)

  registers :
      HasStatus
        (status_before (lookup id st.world.members.nodes_state))
        id
        (register_follower id addr st.world.members)
  registers = register_follower-HasStatus id addr st.world.members named other

  drive_sync-Synced :
      (drive_sync s id addr st.world).0 ≡ none → Synced (drive_sync s id addr st.world).1
  unfolding drive_sync sync_at set_remote
  drive_sync-Synced h =
      let r = sync_at s addr (registered_world s now id addr st) in
      let (fine, same) = after_sync-none id addr r h in
      subst Synced (sym same) (
        rw ((str_eq_iff addr addr).1 refl) (ap (λ x. (x, (sync_follower s disks).1)) fine),
        mark_alive-HasStatus id addr _ _ registers,
      )

  drive_sync-Unsynced :
      (e : SyncError) (a : Str)
      → str_eq addr a ≡ false
      → (drive_sync s id addr st.world).0 ≡ some (sync_failed e)
      → Unsynced a (drive_sync s id addr st.world).1
  unfolding drive_sync sync_at set_remote
  drive_sync-Unsynced e a apart h =
      let r = sync_at s addr (registered_world s now id addr st) in
      let (_, same) = after_sync-some id addr r e h in
      subst (Unsynced a) (sym same) (registers, rw apart refl)

-- A sync request that succeeds has synced the follower's disk from the leader's, has the follower READY
-- and its lease gone. The follower has a name, and is not the leader.
pub handle_sync_request-HasStatus :
    (s : Setup) (now : ℕ) (id addr : Str) (st : State)
    → str_eq id [] ≡ false
    → str_eq id st.world.members.local_node_id ≡ false
    → (handle_sync_request (some s) now id addr st).0 ≡ none
    → (sync_follower s (record { leader = st.world.local; follower = st.world.remote addr }) ≡ (
      none,
      record {
        leader = (handle_sync_request (some s) now id addr st).1.world.local;
        follower = (handle_sync_request (some s) now id addr st).1.world.remote addr;
      },
    ))
      × HasStatus status_ready id (handle_sync_request (some s) now id addr st).1.world.members
      × (lookup (lease_name id) (handle_sync_request (some s) now id addr st).1.gate.syncing_nodes
          ≡ none)
handle_sync_request-HasStatus s now id addr st named other h =
    let (result, same) = ended s now id addr st none (λ p. cc) h in
    let (synced, ready) = drive_sync-Synced s now id addr st named other result in
    (
      subst
          (λ x.
            sync_follower s (record { leader = st.world.local; follower = st.world.remote addr })
            ≡ (none, record { leader = x.world.local; follower = x.world.remote addr }))
          (sym same) synced,
      subst (λ x. HasStatus status_ready id x.world.members) (sym same) ready,
      lease_gone s now id addr st none (λ p. cc) h,
    )

-- A sync request whose sync fails leaves the follower with the status that it had, or SYNCING if it was
-- unknown, leaves the disk of every other follower, that is of every other address, as it was, and the
-- lease of the request gone. The follower has a name, and is not the leader.
pub handle_sync_request-failed :
    (s : Setup) (now : ℕ) (id addr : Str) (st : State) (e : SyncError) (a : Str)
    → str_eq id [] ≡ false
    → str_eq id st.world.members.local_node_id ≡ false
    → str_eq addr a ≡ false
    → (handle_sync_request (some s) now id addr st).0 ≡ some (sync_failed e)
    → HasStatus
        (status_before (lookup id st.world.members.nodes_state))
        id
        (handle_sync_request (some s) now id addr st).1.world.members
      × ((handle_sync_request (some s) now id addr st).1.world.remote a ≡ st.world.remote a)
      × (lookup (lease_name id) (handle_sync_request (some s) now id addr st).1.gate.syncing_nodes
          ≡ none)
handle_sync_request-failed s now id addr st e a named other apart h =
    let (result, same) = ended s now id addr st (some (sync_failed e)) (λ p. cc) h in
    let (status, disk) = drive_sync-Unsynced s now id addr st named other e a apart result in
    (
      subst
          (λ x.
            HasStatus (status_before (lookup id st.world.members.nodes_state)) id x.world.members)
          (sym same) status,
      subst (λ x. x.world.remote a ≡ st.world.remote a) (sym same) disk,
      lease_gone s now id addr st (some (sync_failed e)) (λ p. cc) h,
    )
