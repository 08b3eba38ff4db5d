-- ===== src/Cluster/Static.antt =====
-- internal/cluster/static_manager.go. The state under `mu` is a record; the map of the nodes is a
-- list, in the order in which `range` happens to visit it.
pub mod Membership
pub mod Heartbeats
use micros.Base.{
  ℕ, suc, Str, codes, str_eq, Bool, true, false, ◌||◌, ◌&&◌, not, leb, Option, none, some, List, [],
  ◌∷◌, if◌then◌else◌,
}
use micros.Base.Assoc.{lookup, insert, str_Eq}
use micros.Domain.Node.{
  Node, role_leader, role_follower, status_offline, status_syncing, status_ready,
}

pub record NodeState : Type 0 where
  pub node : Node
  pub failure_count : ℕ

pub record StaticNode : Type 0 where
  pub id : Str
  pub internal_address : Str

pub record Manager : Type 0 where
  pub local_node_id : Str
  pub static_nodes : List StaticNode
  pub force_leader : Str
  pub max_failures : ℕ
  pub nodes_state : List (Str × NodeState)
  pub local_status : Str

initial_node : Str → Str → ℕ → StaticNode → NodeState
initial_node local leader now n = record {
  node = record {
    id = n.id;
    internal_address = n.internal_address;
    role = if str_eq n.id leader then role_leader else role_follower;
    status = if str_eq n.id local then status_ready else status_offline;
    last_seen = now;
    objects_count = 0;
    storage_used = 0;
    uptime_seconds = 0;
  };
  failure_count = 0;
}

initial_states : Str → Str → ℕ → List StaticNode → List (Str × NodeState) → List (Str × NodeState)
unfolding initial_node
initial_states local leader now [] ns = ns
initial_states local leader now (n ∷ rest) ns =
    initial_states local leader now rest (insert n.id (initial_node local leader now n) ns)

-- NewStaticClusterManager
unfoldable pub new_manager : Str → List StaticNode → Str → ℕ → ℕ → Manager
unfolding initial_states
new_manager local nodes leader max_failures now = record {
  local_node_id = local;
  static_nodes = nodes;
  force_leader = leader;
  max_failures = max_failures;
  nodes_state = initial_states local leader now nodes [];
  local_status = status_ready;
}

unfoldable pub is_leader : Manager → Bool
is_leader m = if str_eq m.force_leader [] then true else str_eq m.local_node_id m.force_leader

leader_among : Str → List StaticNode → Str
leader_among leader [] = []
leader_among leader (n ∷ rest) =
    if str_eq n.id leader then n.internal_address else leader_among leader rest

unfoldable pub leader_internal_address : Manager → Str
unfolding leader_among
leader_internal_address m =
    if str_eq m.force_leader [] then [] else leader_among m.force_leader m.static_nodes

-- The loop of AliveFollowers.
unfoldable pub ready_of : Str → List (Str × NodeState) → List Str
ready_of local [] = []
ready_of local ((id, ns) ∷ rest) =
    let others = ready_of local rest in
    if str_eq id local
    then others
    else if str_eq ns.node.status status_ready
    then ns.node.internal_address ∷ others
    else others

unfoldable pub alive_followers : Manager → List Str
unfolding ready_of
alive_followers m = ready_of m.local_node_id m.nodes_state

-- The loop of KnownFollowers.
unfoldable pub known_of : Str → List (Str × NodeState) → List Str
known_of local [] = []
known_of local ((id, ns) ∷ rest) =
    let others = known_of local rest in
    if str_eq id local then others else ns.node.internal_address ∷ others

unfoldable pub known_followers : Manager → List Str
unfolding known_of
known_followers m = known_of m.local_node_id m.nodes_state

-- The loop of MarkDead, which stops at the first node with the address.
unfoldable pub mark_first : Str → ℕ → List (Str × NodeState) → List (Str × NodeState)
mark_first addr max_failures [] = []
mark_first addr max_failures ((id, ns) ∷ rest) =
    let others = (id, ns) ∷ mark_first addr max_failures rest in
    if str_eq ns.node.internal_address addr
    then (
      id,
      record { node = record ns.node { status = status_offline }; failure_count = max_failures },
    )
      ∷ rest
    else others

unfoldable pub mark_dead : Str → Manager → Manager
unfolding mark_first
mark_dead addr m = record m { nodes_state = mark_first addr m.max_failures m.nodes_state }

-- MarkAlive does not read the address that it is given.
unfoldable pub mark_alive : Str → Str → Manager → Manager
mark_alive node_id addr m = elim (lookup node_id m.nodes_state) [
  | none ↦ m
  | some ns ↦ record m {
    nodes_state =
        insert node_id
          (record { node = record ns.node { status = status_ready }; failure_count = 0 })
          m.nodes_state;
  }
]

abbrev pub registered : Str → Str → NodeState
registered node_id addr = record {
  node = record {
    id = node_id;
    internal_address = addr;
    role = role_follower;
    status = status_syncing;
    last_seen = 0;
    objects_count = 0;
    storage_used = 0;
    uptime_seconds = 0;
  };
  failure_count = 0;
}

unfoldable pub register_follower : Str → Str → Manager → Manager
register_follower node_id addr m =
    if str_eq node_id [] || str_eq node_id m.local_node_id
    then m
    else elim (lookup node_id m.nodes_state) [
      | none ↦ record m { nodes_state = insert node_id (registered node_id addr) m.nodes_state }
      | some ns ↦
          if not (str_eq addr []) && not (str_eq ns.node.internal_address addr)
          then record m {
            nodes_state =
                insert node_id (record ns { node = record ns.node { internal_address = addr } })
                  m.nodes_state;
          }
          else m
    ]

unfoldable pub set_local_status : Str → Manager → Manager
set_local_status s m = record m { local_status = s }

-- What a health response reports.
pub record Health : Type 0 where
  pub state : Str
  pub uptime_seconds : ℕ
  pub objects_count : ℕ
  pub storage_used : ℕ

-- One answer of checkFollowers; `none` is an error of the request. The second part says whether the
-- node is told to go to SYNCING.
unfoldable pub check_failed : ℕ → NodeState → NodeState
check_failed max_failures ns = record {
  node = record ns.node {
    status = if leb max_failures (suc ns.failure_count) then status_offline else ns.node.status;
  };
  failure_count = suc ns.failure_count;
}

abbrev seen : ℕ → Health → Str → NodeState → NodeState
seen now h status ns = record {
  node = record ns.node {
    status = status;
    last_seen = now;
    objects_count = h.objects_count;
    storage_used = h.storage_used;
    uptime_seconds = h.uptime_seconds;
  };
  failure_count = 0;
}

unfoldable pub check_answered : ℕ → Health → NodeState → NodeState × Bool
check_answered now h ns =
    if str_eq ns.node.status status_offline
    then (seen now h ns.node.status ns, true)
    else (if str_eq h.state status_ready
        then (seen now h status_ready ns, false)
        else (seen now h ns.node.status ns, false))

unfoldable pub check_node : ℕ → ℕ → Option Health → NodeState → NodeState × Bool
unfolding check_failed check_answered
check_node max_failures now none ns = (check_failed max_failures ns, false)
check_node max_failures now (some h) ns = check_answered now h ns

-- The answer of one follower, under the lock.
unfoldable pub record_answer : Str → ℕ → Option Health → Manager → Option NodeState → Manager × Bool
unfolding check_node
record_answer id now answer m none = (m, false)
record_answer id now answer m (some ns) =
    let (ns', force_sync) = check_node m.max_failures now answer ns in
    (record m { nodes_state = insert id ns' m.nodes_state }, force_sync)

unfoldable pub check_follower : Str → ℕ → Option Health → Manager → Manager × Bool
unfolding record_answer
check_follower id now answer m = record_answer id now answer m (lookup id m.nodes_state)
