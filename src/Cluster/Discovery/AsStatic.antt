-- ===== src/Cluster/Discovery/AsStatic.antt =====
-- The Kubernetes manager's followers, seen as a static manager.
use micros.Base.{
  ℕ, Str, str_eq, Bool, true, false, ◌≡◌, refl, sym, ap, ◌∙◌, List, [], ◌∷◌, arith, if◌then◌else◌,
  Bool-cases, inl, inr,
}
use micros.Cluster.Static.{NodeState, Manager, mark_first, ready_of}
use micros.Cluster.Static as Static
use micros.Cluster.Election.{K8sManager}
use micros.Cluster.Discovery.{
  ready_addresses, rebuild_alive_followers, alive_followers, has_address, mark_dead,
}

abbrev pub as_static : K8sManager → Manager
as_static m = record {
  local_node_id = m.local_node_id;
  static_nodes = [];
  force_leader = [];
  max_failures = m.max_failures;
  nodes_state = m.follower_states;
  local_status = m.local_status;
}

-- The local node is none of the followers.
unfoldable pub is_absent : Str → List (Str × NodeState) → Bool
is_absent id [] = true
is_absent id ((j, ns) ∷ rest) = if str_eq j id then false else is_absent id rest

ready_of-ready_addresses :
    (id : Str) (ns : List (Str × NodeState))
    → is_absent id ns ≡ true
    → ready_of id ns ≡ ready_addresses ns
unfolding is_absent ready_of ready_addresses
ready_of-ready_addresses id [] h = refl
ready_of-ready_addresses id ((j, n) ∷ rest) h = ground (arith, ready_of-ready_addresses id rest)

is_absent-mark_first :
    (id addr : Str) (k : ℕ) (ns : List (Str × NodeState))
    → is_absent id (mark_first addr k ns) ≡ is_absent id ns
unfolding is_absent mark_first
is_absent-mark_first id addr k [] = refl
is_absent-mark_first id addr k ((j, n) ∷ rest) = ground (arith, is_absent-mark_first id addr k rest)

mark_first-has_address :
    (addr : Str) (k : ℕ) (ns : List (Str × NodeState))
    → has_address addr ns ≡ false
    → mark_first addr k ns ≡ ns
unfolding has_address mark_first
mark_first-has_address addr k [] h = refl
mark_first-has_address addr k ((j, n) ∷ rest) h = ground (arith, mark_first-has_address addr k rest)

-- MarkDead of the Kubernetes manager, whose list of alive followers is cached, leaves the list that
-- MarkDead of a static manager with the same followers does. The cache is current, and the local
-- node is not among the followers.
pub mark_dead-as_static :
    (addr : Str) (m : K8sManager)
    → m.followers ≡ ready_addresses m.follower_states
    → is_absent m.local_node_id m.follower_states ≡ true
    → alive_followers (mark_dead addr m)
      ≡ Static.alive_followers (Static.mark_dead addr (as_static m))
unfolding mark_dead rebuild_alive_followers Static.alive_followers Static.mark_dead
mark_dead-as_static addr m current absent =
    let same =
      ready_of-ready_addresses m.local_node_id (mark_first addr m.max_failures m.follower_states)
        (is_absent-mark_first m.local_node_id addr m.max_failures m.follower_states ∙ absent) in
    elim (Bool-cases (has_address addr m.follower_states)) [
      | inl here ↦ rw here (sym same)
      | inr nowhere ↦ rw nowhere (
          current
          ∙ sym (
              ap ready_addresses
                (mark_first-has_address addr m.max_failures m.follower_states nowhere))
          ∙ sym same)
    ]
