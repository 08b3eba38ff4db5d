-- ===== src/Cluster/Election/Examples.antt =====
-- Two nodes: the first takes the lease, the second finds it taken.
use micros.Base.{ℕ, ◌+◌, codes, Str, str_eq, true, ◌≡◌, ◌≤◌, refl, none, some, arith}
use micros.Cluster.Election.{
  K8sManager, LeaseSpec, new_k8s_manager, guard_window, is_leader, plan, new_lease, micro,
  become_leader,
}
use micros.Cluster.Election.System.{
  World, Step, Reach, resting, creating, accepted, update, carry_out, rest, fetched,
}
use micros.Cluster.Election.OneLeader.{Configured, is_leader_unique}

abbrev lease_duration : ℕ
lease_duration = 15000000000

unfoldable fresh : Str → K8sManager
fresh id = new_k8s_manager id (codes "default") (codes "micros3") 8001 3 lease_duration

configured : Configured lease_duration fresh
unfolding fresh new_k8s_manager
configured = record {
  whole = omega arith;
  wide = omega arith;
  named = λ i. refl;
  lasting = λ i. refl;
  follows = λ i. refl;
}

abbrev n1 : Str
n1 = codes "n1"

abbrev at_start : World
at_start = record { clock = 2500; server = none; nodes = fresh; requests = λ i. resting }

abbrev planned_world : World
planned_world = carry_out n1 (plan lease_duration 2500 (fresh n1) (fetched none)) at_start

abbrev spec : LeaseSpec
spec = record { holder = n1; duration_seconds = 15; acquire_time = 2000; renew_time = 2000 }

abbrev posted_world : World
posted_world = record planned_world {
  server = some (record { version = 1; spec = spec });
  requests = update n1 (accepted spec) planned_world.requests;
}

abbrev led_world : World
led_world = rest n1 (record posted_world {
  nodes = update n1 (become_leader posted_world.clock (posted_world.nodes n1)) posted_world.nodes;
})

asks : planned_world.requests n1 ≡ creating spec
unfolding carry_out plan new_lease micro update fresh new_k8s_manager str_eq
asks = refl

no_lease : planned_world.server ≡ none
unfolding carry_out plan fresh new_k8s_manager
no_lease = refl

answered : posted_world.requests n1 ≡ accepted spec
unfolding update str_eq
answered = refl

in_time : posted_world.clock ≤ spec.renew_time + guard_window
unfolding carry_out plan fresh new_k8s_manager
in_time = omega arith

led : Reach lease_duration fresh led_world
led =
    Reach.next
      (Reach.next (Reach.next (Reach.here 2500) (Step.plans at_start n1 refl))
        (Step.posts planned_world n1 spec asks no_lease))
      (Step.learns posted_world n1 spec answered in_time)

n1_leads : is_leader led_world.clock (led_world.nodes n1) ≡ true
unfolding is_leader become_leader carry_out plan new_lease micro update fresh new_k8s_manager str_eq
n1_leads = refl

is_leader_unique_example : n1 ≡ n1
is_leader_unique_example =
    is_leader_unique lease_duration fresh led_world n1 n1 configured led n1_leads n1_leads
