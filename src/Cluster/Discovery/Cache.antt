-- ===== src/Cluster/Discovery/Cache.antt =====
-- The cached list of alive followers against the states that it is built from.
use micros.Base.{
  ℕ, Str, Bool, true, false, ◌≡◌, refl, Option, none, some, List, [], ◌∷◌, if◌then◌else◌,
}
use micros.Base.Assoc.{lookup, str_Eq}
use micros.Cluster.Static.{NodeState, Health}
use micros.Cluster.Election.{K8sManager, is_leader}
use micros.Cluster.Discovery.{
  ready_addresses, rebuild_alive_followers, has_address, mark_dead, mark_alive, revive,
  discover_and_check, EndpointAddress,
}

-- The cache says what the states say.
abbrev pub Current : K8sManager → Type 0
Current m = m.followers ≡ ready_addresses m.follower_states

Current-if : (b : Bool) (m n : K8sManager) → Current m → Current n → Current (if b then m else n)
Current-if true m n h k = h
Current-if false m n h k = k

mark_dead-Current : (addr : Str) (m : K8sManager) → Current m → Current (mark_dead addr m)
unfolding mark_dead rebuild_alive_followers
mark_dead-Current addr m h = Current-if (has_address addr m.follower_states) _ m refl h

revive-Current :
    (id addr : Str) (m : K8sManager) (o : Option NodeState)
    → Current m
    → Current (revive id addr m o)
unfolding revive rebuild_alive_followers
revive-Current id addr m none h = h
revive-Current id addr m (some ns) h = refl

discover_and_check-Current :
    (now : ℕ) (es : Option (List EndpointAddress)) (answers : Str → Option Health) (m : K8sManager)
    → Current m
    → Current (discover_and_check now es answers m)
unfolding discover_and_check rebuild_alive_followers
discover_and_check-Current now none answers m h = h
discover_and_check-Current now (some es) answers m h = Current-if (is_leader now m) _ m refl h

-- What happens to the leader's view of the followers.
pub data Event : Type 0 where
  dies : Str → Event
  lives : Str → Str → Event
  looks : ℕ → Option (List EndpointAddress) → (Str → Option Health) → Event

unfoldable pub happen : Event → K8sManager → K8sManager
happen (dies addr) m = mark_dead addr m
happen (lives id addr) m = mark_alive id addr m
happen (looks now es answers) m = discover_and_check now es answers m

unfoldable pub happen_all : List Event → K8sManager → K8sManager
unfolding happen
happen_all [] m = m
happen_all (e ∷ es) m = happen_all es (happen e m)

happen-Current : (e : Event) (m : K8sManager) → Current m → Current (happen e m)
unfolding happen mark_alive
happen-Current (dies addr) m h = mark_dead-Current addr m h
happen-Current (lives id addr) m h = revive-Current id addr m (lookup id m.follower_states) h
happen-Current (looks now es answers) m h = discover_and_check-Current now es answers m h

-- The cached list of alive followers is the list of the READY ones' addresses after every sequence of
-- deaths, completed syncs and discoveries, when it is at its start.
pub happen_all-Current :
    (es : List Event) (m : K8sManager)
    → m.followers ≡ ready_addresses m.follower_states
    → (happen_all es m).followers ≡ ready_addresses (happen_all es m).follower_states
unfolding happen_all
happen_all-Current [] m h = h
happen_all-Current (e ∷ es) m h = happen_all-Current es (happen e m) (happen-Current e m h)
