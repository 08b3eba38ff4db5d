-- ===== src/Cluster/Election.antt =====
-- internal/cluster/k8s_manager.go: the lease in the Kubernetes API that decides who leads. Times are
-- nanoseconds; a lease holds its duration in whole seconds and its times in whole microseconds.
pub mod System
pub mod OneLeader
mod Examples
use micros.Base.{
  ℕ, ◌+◌, ◌-◌, ◌*◌, ◌/◌, Str, codes, str_eq, itoa, Bool, true, false, ◌||◌, ◌&&◌, not, ltb, ◌==◌,
  List, [], ◌∷◌, ◌++◌, if◌then◌else◌,
}
use micros.Domain.Node.{status_ready}
use micros.Cluster.Static.{NodeState}

abbrev pub second : ℕ
second = 1000000000

-- MicroTime
unfoldable pub micro : ℕ → ℕ
micro t = t / 1000 * 1000

pub record LeaseSpec : Type 0 where
  pub holder : Str
  pub duration_seconds : ℕ
  pub acquire_time : ℕ
  pub renew_time : ℕ

-- The version is the resourceVersion that the API server checks on a PUT.
pub record Lease : Type 0 where
  pub version : ℕ
  pub spec : LeaseSpec

pub record K8sManager : Type 0 where
  pub local_node_id : Str
  pub namespace : Str
  pub service_name : Str
  pub internal_port : ℕ
  pub max_failures : ℕ
  pub is_leader_flag : Bool
  pub leader_address : Str
  pub followers : List Str
  pub local_status : Str
  pub follower_states : List (Str × NodeState)
  pub last_lease_renewal : ℕ
  pub lease_duration : ℕ
  pub last_applied_role : Str

-- NewK8sClusterManager, from what it read of its environment.
unfoldable pub new_k8s_manager : Str → Str → Str → ℕ → ℕ → ℕ → K8sManager
new_k8s_manager id namespace service port max_failures duration = record {
  local_node_id = id;
  namespace = namespace;
  service_name = service;
  internal_port = port;
  max_failures = max_failures;
  is_leader_flag = false;
  leader_address = [];
  followers = [];
  local_status = status_ready;
  follower_states = [];
  last_lease_renewal = 0;
  lease_duration = duration;
  last_applied_role = [];
}

abbrev pub guard_window : ℕ
guard_window = 2 * second

-- IsLeader: the flag, unless the last renewal is too long ago.
unfoldable pub is_leader : ℕ → K8sManager → Bool
is_leader now m =
    m.is_leader_flag
    && not (
        ltb guard_window m.lease_duration
        && ltb (m.last_lease_renewal + (m.lease_duration - guard_window)) now)

-- What the GET of the lease brought; an error, another status and bad JSON are all `unusable`.
pub data Fetched : Type 0 where
  unusable not_found : Fetched
  found : Lease → Fetched

-- What the node then does.
pub data Plan : Type 0 where
  give_up : Plan
  create : LeaseSpec → Plan
  replace : Lease → LeaseSpec → Plan
  follow : Str → Plan

unfoldable pub expiry_time : LeaseSpec → ℕ
expiry_time s = s.renew_time + s.duration_seconds * second

-- The lease that createLease posts.
unfoldable pub new_lease : Str → ℕ → ℕ → LeaseSpec
unfolding micro
new_lease id duration now = record {
  holder = id;
  duration_seconds = duration / second;
  acquire_time = micro now;
  renew_time = micro now;
}

-- The lease that renewOrAcquireLease puts.
unfoldable pub renewed_lease : Str → ℕ → ℕ → LeaseSpec → LeaseSpec
unfolding micro
renewed_lease id duration now s = record {
  holder = id;
  duration_seconds = duration / second;
  acquire_time = if str_eq s.holder id then s.acquire_time else micro now;
  renew_time = micro now;
}

-- tryAcquireOrRenewLease up to the request that it sends.
unfoldable pub plan : ℕ → ℕ → K8sManager → Fetched → Plan
unfolding new_lease renewed_lease expiry_time
plan duration now m unusable = give_up
plan duration now m not_found = create (new_lease m.local_node_id duration now)
plan duration now m (found l) =
    if str_eq l.spec.holder m.local_node_id || ltb (expiry_time l.spec) now
    then replace l (renewed_lease m.local_node_id duration now l.spec)
    else follow l.spec.holder

abbrev address_of : K8sManager → Str → Str
address_of m holder =
    codes "http://"
    ++ holder
    ++ codes "."
    ++ m.service_name
    ++ codes "."
    ++ m.namespace
    ++ codes ".svc.cluster.local:"
    ++ itoa m.internal_port

-- Someone else holds the lease.
unfoldable pub follow_leader : Str → K8sManager → K8sManager
follow_leader holder m = record m { is_leader_flag = false; leader_address = address_of m holder }

-- The request was answered with success.
unfoldable pub become_leader : ℕ → K8sManager → K8sManager
become_leader now m = record m {
  is_leader_flag = true;
  leader_address = [];
  last_lease_renewal = now;
}

-- The ends of createLease (201) and renewOrAcquireLease (200), from the status that came back.
unfoldable pub after_create : ℕ → ℕ → K8sManager → K8sManager
unfolding become_leader
after_create status now m = if status == 201 then become_leader now m else m

unfoldable pub after_replace : ℕ → ℕ → K8sManager → K8sManager
unfolding become_leader
after_replace status now m = if status == 200 then become_leader now m else m

-- The pod's label, from the status of the PATCH.
unfoldable pub update_pod_label : Bool → ℕ → K8sManager → K8sManager
update_pod_label leads status m =
    let role : Str = if leads then codes "leader" else codes "follower" in
    if str_eq m.last_applied_role role
    then m
    else if status == 200
    then record m { last_applied_role = role }
    else m
