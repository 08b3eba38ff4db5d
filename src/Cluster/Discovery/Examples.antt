-- ===== src/Cluster/Discovery/Examples.antt =====
-- A leader that finds two pods, loses one, and syncs the other.
use micros.Base.{codes, true, ◌≡◌, refl, none, some, List, [], ◌∷◌, str_eq, itoa}
use micros.Base.Assoc.{lookup, insert, str_Eq}
use micros.Domain.Node.{status_ready}
use micros.Cluster.Static
use micros.Cluster.Static.{Health, mark_first}
use micros.Cluster.Election.{K8sManager, new_k8s_manager, become_leader, is_leader}
use micros.Cluster.Discovery.{
  EndpointAddress, ready_addresses, discover_and_check, alive_followers, mark_dead, mark_alive,
  revive,
}
use micros.Cluster.Discovery.Cache.{
  dies, lives, looks, Event, happen, happen_all, happen_all-Current,
}
use micros.Cluster.Discovery.AsStatic.{as_static, is_absent, mark_dead-as_static}
use micros.Cluster.Discovery.Rounds.{Look, look_all, is_out, look_all-out}

abbrev leader : K8sManager
leader =
    become_leader 1000
      (new_k8s_manager (codes "n1") (codes "default") (codes "micros3") 80 3 15000000000)

abbrev endpoints : List EndpointAddress
endpoints =
    record { ip = codes "A"; name = codes "n1" }
    ∷ record { ip = codes "B"; name = codes "n2" }
    ∷ record { ip = codes "C"; name = codes "n3" }
    ∷ []

abbrev healthy : Health
healthy = record { state = status_ready; uptime_seconds = 5; objects_count = 1; storage_used = 9 }

abbrev events : List Event
events =
    looks 2000 (some endpoints) (λ i. some healthy)
    ∷ lives (codes "n2") []
    ∷ lives (codes "n3") []
    ∷ dies (codes "http://C:80")
    ∷ []

alive_followers-events : alive_followers (happen_all events leader) ≡ codes "http://B:80" ∷ []
unfolding happen_all happen mark_alive revive mark_dead discover_and_check new_k8s_manager is_leader
    become_leader ready_addresses mark_first lookup insert str_eq itoa
alive_followers-events = refl

starts_current : leader.followers ≡ ready_addresses leader.follower_states
unfolding new_k8s_manager become_leader ready_addresses
starts_current = refl

happen_all-Current_example :
    (happen_all events leader).followers
    ≡ ready_addresses (happen_all events leader).follower_states
happen_all-Current_example = happen_all-Current events leader starts_current

abbrev two_alive : K8sManager
two_alive =
    happen_all
      (looks 2000 (some endpoints) (λ i. some healthy)
        ∷ lives (codes "n2") []
        ∷ lives (codes "n3") []
        ∷ [])
      leader

two_alive_current : two_alive.followers ≡ ready_addresses two_alive.follower_states
two_alive_current = happen_all-Current _ leader starts_current

local_absent : is_absent two_alive.local_node_id two_alive.follower_states ≡ true
unfolding happen_all happen mark_alive revive discover_and_check new_k8s_manager is_leader
    become_leader is_absent lookup insert str_eq itoa
local_absent = refl

mark_dead-as_static_example :
    alive_followers (mark_dead (codes "http://B:80") two_alive)
    ≡ Static.alive_followers (Static.mark_dead (codes "http://B:80") (as_static two_alive))
mark_dead-as_static_example =
    mark_dead-as_static (codes "http://B:80") two_alive two_alive_current local_absent

abbrev looks_twice : List Look
looks_twice =
    record { now = 2000; endpoints = some endpoints; answers = λ i. some healthy }
    ∷ record { now = 3000; endpoints = none; answers = λ i. none }
    ∷ record { now = 4000; endpoints = some endpoints; answers = λ i. some healthy }
    ∷ []

n2_unknown : is_out (lookup (codes "n2") leader.follower_states) ≡ true
unfolding new_k8s_manager become_leader lookup
n2_unknown = refl

look_all-out_example :
    is_out (lookup (codes "n2") (look_all looks_twice leader).follower_states) ≡ true
look_all-out_example = look_all-out looks_twice leader (codes "n2") n2_unknown
