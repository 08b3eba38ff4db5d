-- ===== src/Cluster/Discovery/Rounds.antt =====
-- Discovery does not bring an OFFLINE follower back.
use micros.Base.{
  ℕ, Str, str_eq, str_eq_iff, Bool, true, false, ◌≡◌, refl, ap, ◌∙◌, Option, none, some, List, [],
  ◌∷◌, arith, if◌then◌else◌,
}
use micros.Base.Assoc.{lookup, insert, str_Eq, lookup-insert}
use micros.Domain.Node.{status_offline}
use micros.Cluster.Static.{NodeState, Health, check_failed}
use micros.Cluster.Election.{K8sManager, is_leader}
use micros.Cluster.Discovery.{
  EndpointAddress, discovered, keep_discovered, add_discovered, newcomer, probe, probe_all,
  discover_and_check, rebuild_alive_followers, is_some,
}

-- A node that is unknown or OFFLINE.
abbrev pub is_out : Option NodeState → Bool
is_out none = true
is_out (some ns) = str_eq ns.node.status status_offline

lookup-if :
    (b : Bool) (id : Str) (xs ys : List (Str × NodeState))
    → lookup id (if b then xs else ys) ≡ (if b then lookup id xs else lookup id ys)
lookup-if true id xs ys = refl
lookup-if false id xs ys = refl

-- The tests b of a name against an entry, c and c' of whether the entry and the name are there.
kept_if :
    (b c c' : Bool) (o l r : Option NodeState)
    → (b ≡ true → c ≡ c')
    → l ≡ (if c' then r else none)
    → (if c then (if b then o else l) else l) ≡ (if c' then (if b then o else r) else none)
kept_if true true true o l r same e = refl
kept_if true true false o l r same e = cc (same refl)
kept_if true false true o l r same e = cc (same refl)
kept_if true false false o l r same e = e
kept_if false true c' o l r same e = e
kept_if false false c' o l r same e = e

lookup-keep_discovered :
    (id : Str) (found : List (Str × Str)) (ns : List (Str × NodeState))
    → lookup id (keep_discovered found ns)
      ≡ (if is_some (lookup id found) then lookup id ns else none)
unfolding keep_discovered lookup
lookup-keep_discovered id found [] = either (is_some (lookup id found))
  where
    either : (b : Bool) → ◌≡◌ {A = Option NodeState} none (if b then none else none)
    either true = refl
    either false = refl
lookup-keep_discovered id found ((j, n) ∷ rest) =
    lookup-if (is_some (lookup j found)) id _ _
    ∙ kept_if (str_eq j id) (is_some (lookup j found)) (is_some (lookup id found)) (some n) _ _
        (λ e. ap (λ x. is_some (lookup x found)) ((str_eq_iff j id).0 e))
        (lookup-keep_discovered id found rest)

out-if : (b : Bool) (o : Option NodeState) → is_out o ≡ true → is_out (if b then o else none) ≡ true
out-if true o h = h
out-if false o h = refl

add_discovered-out :
    (id : Str) (found : List (Str × Str)) (ns : List (Str × NodeState))
    → is_out (lookup id ns) ≡ true
    → is_out (lookup id (add_discovered found ns)) ≡ true
unfolding add_discovered
add_discovered-out id [] ns h = h
add_discovered-out id ((j, addr) ∷ rest) ns h = add_discovered-out id rest _ one
  where
    joins : is_out (lookup id (insert j (newcomer j addr) ns)) ≡ true
    joins = rw (lookup-insert j id (newcomer j addr) ns) (either (str_eq j id))
      where
        either : (b : Bool) → is_out (if b then some (newcomer j addr) else lookup id ns) ≡ true
        either true = (str_eq_iff status_offline status_offline).1 refl
        either false = h

    one :
        is_out (lookup id (if is_some (lookup j ns) then ns else insert j (newcomer j addr) ns))
        ≡ true
    one = pick (is_some (lookup j ns))
      where
        pick :
            (b : Bool) → is_out (lookup id (if b then ns else insert j (newcomer j addr) ns)) ≡ true
        pick true = h
        pick false = joins

probe-offline :
    (k : ℕ) (answer : Option Health) (ns : NodeState)
    → str_eq ns.node.status status_offline ≡ true
    → str_eq (probe k answer ns).node.status status_offline ≡ true
unfolding probe check_failed
probe-offline k none ns h = ground (arith, str_eq_iff status_offline status_offline)
probe-offline k (some a) ns h = rw (h, h) refl

probe_all-out :
    (id : Str) (k : ℕ) (answers : Str → Option Health) (ns : List (Str × NodeState))
    → is_out (lookup id ns) ≡ true
    → is_out (lookup id (probe_all k answers ns)) ≡ true
unfolding probe_all lookup
probe_all-out id k answers [] h = refl
probe_all-out id k answers ((j, n) ∷ rest) h =
    either (str_eq j id) (probe_all-out id k answers rest) h
  where
    either :
        (b : Bool)
        → (is_out (lookup id rest) ≡ true → is_out (lookup id (probe_all k answers rest)) ≡ true)
        → is_out (if b then some n else lookup id rest) ≡ true
        → is_out (if b then some (probe k (answers j) n) else lookup id (probe_all k answers rest))
          ≡ true
    either true later g = probe-offline k (answers j) n g
    either false later g = later g

-- One look at the endpoints and one round of health requests.
pub discover_and_check-out :
    (now : ℕ) (es : Option (List EndpointAddress)) (answers : Str → Option Health) (m : K8sManager)
    (id : Str)
    → is_out (lookup id m.follower_states) ≡ true
    → is_out (lookup id (discover_and_check now es answers m).follower_states) ≡ true
unfolding discover_and_check rebuild_alive_followers
discover_and_check-out now none answers m id h = h
discover_and_check-out now (some es) answers m id h = pick (is_leader now m)
  where
    found : List (Str × Str)
    found = discovered m es []

    states : List (Str × NodeState)
    states =
        probe_all m.max_failures answers
          (add_discovered found (keep_discovered found m.follower_states))

    new : K8sManager
    new = rebuild_alive_followers (record m { follower_states = states })

    pick : (b : Bool) → is_out (lookup id (if b then new else m).follower_states) ≡ true
    pick true = probe_all-out id m.max_failures answers _ (
        add_discovered-out id found (keep_discovered found m.follower_states) (
          rw (lookup-keep_discovered id found m.follower_states)
            (out-if (is_some (lookup id found)) (lookup id m.follower_states) h)))
    pick false = h

-- What the leader sees in one round.
pub record Look : Type 0 where
  pub now : ℕ
  pub endpoints : Option (List EndpointAddress)
  pub answers : Str → Option Health

unfoldable pub look_all : List Look → K8sManager → K8sManager
look_all [] m = m
look_all (l ∷ ls) m = look_all ls (discover_and_check l.now l.endpoints l.answers m)

-- A follower that is unknown or OFFLINE is so after every sequence of discoveries and health requests,
-- whatever the API and the followers answer.
pub look_all-out :
    (ls : List Look) (m : K8sManager) (id : Str)
    → is_out (lookup id m.follower_states) ≡ true
    → is_out (lookup id (look_all ls m).follower_states) ≡ true
unfolding look_all
look_all-out [] m id h = h
look_all-out (l ∷ ls) m id h =
    look_all-out ls _ id (discover_and_check-out l.now l.endpoints l.answers m id h)
