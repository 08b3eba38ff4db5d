-- ===== src/Cluster/Examples.antt =====
-- A leader with two followers.
use micros.Base.{
  codes, true, false, ◌≡◌, refl, none, some, List, [], ◌∷◌, arith, str_eq, if◌then◌else◌,
}
use micros.Base.Assoc.{lookup, insert, str_Eq}
use micros.Domain.Node.{status_offline, status_ready}
use micros.Cluster.Static.{
  Manager, StaticNode, NodeState, Health, new_manager, alive_followers, known_followers, mark_dead,
  mark_alive, is_leader, leader_internal_address,
}
use micros.Cluster.Static.Membership.{contains, Distinct, addresses, alive_followers-mark_dead}
use micros.Cluster.Static.Heartbeats.{
  Beat, HasStatus, heartbeats, heartbeats-offline, misses, misses-offline,
}

abbrev three_nodes : List StaticNode
three_nodes =
    record { id = codes "n1"; internal_address = codes "n1:8001" }
    ∷ record { id = codes "n2"; internal_address = codes "n2:8001" }
    ∷ record { id = codes "n3"; internal_address = codes "n3:8001" }
    ∷ []

abbrev fresh : Manager
fresh = new_manager (codes "n1") three_nodes (codes "n1") 3 100

abbrev both_ready : Manager
both_ready = mark_alive (codes "n3") [] (mark_alive (codes "n2") [] fresh)

fresh-leader : (is_leader fresh ≡ true) × (leader_internal_address fresh ≡ codes "n1:8001")
unfolding is_leader leader_internal_address new_manager str_eq
fresh-leader = (refl, refl)

alive_followers-both_ready : alive_followers both_ready ≡ codes "n2:8001" ∷ codes "n3:8001" ∷ []
unfolding alive_followers mark_alive new_manager str_eq lookup insert
alive_followers-both_ready = refl

known_followers-fresh : known_followers fresh ≡ codes "n2:8001" ∷ codes "n3:8001" ∷ []
unfolding known_followers new_manager str_eq lookup insert
known_followers-fresh = refl

distinct : Distinct (addresses both_ready.nodes_state)
unfolding mark_alive new_manager str_eq lookup insert contains addresses
distinct = (refl, (refl, (refl, tt)))

alive_followers-mark_dead_example :
    contains (codes "n3:8001") (alive_followers (mark_dead (codes "n2:8001") both_ready)) ≡ (
      if str_eq (codes "n3:8001") (codes "n2:8001")
      then false
      else contains (codes "n3:8001") (alive_followers both_ready))
alive_followers-mark_dead_example =
    alive_followers-mark_dead (codes "n2:8001") (codes "n3:8001") both_ready distinct

healthy : Health
healthy = record { state = status_ready; uptime_seconds = 5; objects_count = 1; storage_used = 9 }

n2_offline : HasStatus status_offline (codes "n2") fresh
unfolding new_manager str_eq lookup insert
n2_offline = (_, refl, refl)

abbrev two_beats : List Beat
two_beats =
    record { id = codes "n2"; now = 101; answer = some healthy }
    ∷ record { id = codes "n3"; now = 102; answer = none }
    ∷ []

heartbeats-offline_example : HasStatus status_offline (codes "n2") (heartbeats two_beats fresh)
heartbeats-offline_example = heartbeats-offline two_beats (codes "n2") fresh n2_offline

abbrev n2_ready : NodeState
n2_ready = record {
  node = record {
    id = codes "n2";
    internal_address = codes "n2:8001";
    role = codes "follower";
    status = status_ready;
    last_seen = 100;
    objects_count = 0;
    storage_used = 0;
    uptime_seconds = 0;
  };
  failure_count = 0;
}

n2_known : lookup (codes "n2") both_ready.nodes_state ≡ some n2_ready
unfolding mark_alive new_manager str_eq lookup insert
n2_known = refl

misses-offline_example :
    HasStatus status_offline (codes "n2") (misses 3 (codes "n2") 103 both_ready)
unfolding mark_alive lookup new_manager insert str_eq
misses-offline_example =
    misses-offline 2 (codes "n2") 103 both_ready n2_ready n2_known (omega arith)
