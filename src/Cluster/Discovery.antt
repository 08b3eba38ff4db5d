-- ===== src/Cluster/Discovery.antt =====
-- internal/cluster/k8s_manager.go: the followers that the leader knows from the Endpoints API, and the
-- cached list of those that are alive. A Go map is visited in the order of its association list.
pub mod Cache
pub mod Rounds
pub mod AsStatic
mod Examples
use micros.Base.{
  ℕ, suc, Str, codes, str_eq, itoa, Bool, true, false, ◌||◌, ◌&&◌, not, leb, Option, none, some,
  List, [], ◌∷◌, ◌++◌, if◌then◌else◌,
}
use micros.Base.Assoc.{lookup, insert, str_Eq}
use micros.Domain.Node.{role_follower, status_offline, status_syncing, status_ready}
use micros.Cluster.Static.{NodeState, Health, mark_first, registered, check_failed}
use micros.Cluster.Election.{K8sManager, is_leader}

-- rebuildAliveFollowers
unfoldable pub ready_addresses : List (Str × NodeState) → List Str
ready_addresses [] = []
ready_addresses ((id, ns) ∷ rest) =
    let others = ready_addresses rest in
    if str_eq ns.node.status status_ready then ns.node.internal_address ∷ others else others

unfoldable pub rebuild_alive_followers : K8sManager → K8sManager
unfolding ready_addresses
rebuild_alive_followers m = record m { followers = ready_addresses m.follower_states }

unfoldable pub known_addresses : List (Str × NodeState) → List Str
known_addresses [] = []
known_addresses ((id, ns) ∷ rest) = ns.node.internal_address ∷ known_addresses rest

-- AliveFollowers, KnownFollowers
abbrev pub alive_followers : K8sManager → List Str
alive_followers m = m.followers

unfoldable pub known_followers : K8sManager → List Str
unfolding known_addresses
known_followers m = known_addresses m.follower_states

unfoldable pub has_address : Str → List (Str × NodeState) → Bool
has_address addr [] = false
has_address addr ((id, ns) ∷ rest) = str_eq ns.node.internal_address addr || has_address addr rest

unfoldable pub mark_dead : Str → K8sManager → K8sManager
unfolding has_address rebuild_alive_followers
mark_dead addr m =
    if has_address addr m.follower_states
    then rebuild_alive_followers
        (record m { follower_states = mark_first addr m.max_failures m.follower_states })
    else m

-- The address that a node reports, if it reports one.
abbrev pub with_address : Str → NodeState → NodeState
with_address addr ns = record ns {
  node = record ns.node {
    internal_address = if str_eq addr [] then ns.node.internal_address else addr;
  };
}

abbrev pub revived : Str → NodeState → NodeState
revived addr ns = record {
  node = record (with_address addr ns).node { status = status_ready };
  failure_count = 0;
}

unfoldable pub revive : Str → Str → K8sManager → Option NodeState → K8sManager
unfolding rebuild_alive_followers
revive id addr m none = m
revive id addr m (some ns) =
    rebuild_alive_followers
      (record m { follower_states = insert id (revived addr ns) m.follower_states })

unfoldable pub mark_alive : Str → Str → K8sManager → K8sManager
unfolding revive
mark_alive id addr m = revive id addr m (lookup id m.follower_states)

-- RegisterFollower does not rebuild the list of the alive ones.
unfoldable pub register_follower : Str → Str → K8sManager → K8sManager
register_follower id addr m =
    if str_eq id [] || str_eq id m.local_node_id then m else elim (lookup id m.follower_states) [
      | none ↦ record m { follower_states = insert id (registered id addr) m.follower_states }
      | some ns ↦ record m { follower_states = insert id (with_address addr ns) m.follower_states }
    ]

unfoldable pub set_local_status : Str → K8sManager → K8sManager
set_local_status s m = record m { local_status = s }

-- An address of the Endpoints response: the pod's IP and its name.
pub record EndpointAddress : Type 0 where
  pub ip : Str
  pub name : Str

-- The nodes of the response, by name.
unfoldable pub discovered : K8sManager → List EndpointAddress → List (Str × Str) → List (Str × Str)
discovered m [] found = found
discovered m (e ∷ es) found = discovered m es (
    if str_eq e.name [] || str_eq e.name m.local_node_id
    then found
    else insert e.name (codes "http://" ++ e.ip ++ codes ":" ++ itoa m.internal_port) found)

abbrev pub is_some : {A : Type 0} → Option A → Bool
is_some none = false
is_some (some a) = true

-- A node that is no longer in the response is forgotten.
unfoldable pub keep_discovered : List (Str × Str) → List (Str × NodeState) → List (Str × NodeState)
keep_discovered found [] = []
keep_discovered found ((id, ns) ∷ rest) =
    let kept = keep_discovered found rest in
    if is_some (lookup id found) then (id, ns) ∷ kept else kept

abbrev pub newcomer : Str → Str → NodeState
newcomer id addr = record (registered id addr) {
  node = record (registered id addr).node { status = status_offline };
}

-- A node that is new starts OFFLINE; a known one stays as it is, its address too.
unfoldable pub add_discovered : List (Str × Str) → List (Str × NodeState) → List (Str × NodeState)
add_discovered [] states = states
add_discovered ((id, addr) ∷ rest) states =
    add_discovered rest
      (if is_some (lookup id states) then states else insert id (newcomer id addr) states)

-- A follower's answer to the health request; `none` is an error. An OFFLINE one is told to sync.
unfoldable pub probe : ℕ → Option Health → NodeState → NodeState
unfolding check_failed
probe max_failures none ns = check_failed max_failures ns
probe max_failures (some h) ns = record {
  node = record ns.node {
    status =
        if str_eq ns.node.status status_offline
        then ns.node.status
        else if str_eq h.state status_ready
        then status_ready
        else ns.node.status;
    objects_count = h.objects_count;
    storage_used = h.storage_used;
    uptime_seconds = h.uptime_seconds;
  };
  failure_count = 0;
}

-- checkFollowersHealth, with the answer of each follower.
unfoldable pub probe_all :
    ℕ → (Str → Option Health) → List (Str × NodeState) → List (Str × NodeState)
unfolding probe
probe_all max_failures answers [] = []
probe_all max_failures answers ((id, ns) ∷ rest) =
    (id, probe max_failures (answers id) ns) ∷ probe_all max_failures answers rest

-- discoverAndCheckFollowers, from what the API answered; `none` is an error.
unfoldable pub discover_and_check :
    ℕ → Option (List EndpointAddress) → (Str → Option Health) → K8sManager → K8sManager
unfolding discovered keep_discovered add_discovered probe_all rebuild_alive_followers
discover_and_check now none answers m = m
discover_and_check now (some es) answers m =
    let found = discovered m es [] in
    if is_leader now m
    then rebuild_alive_followers (record m {
      follower_states =
          probe_all m.max_failures answers
            (add_discovered found (keep_discovered found m.follower_states));
    })
    else m
