-- ===== src/Cluster/Static/Membership.antt =====
-- Who is still in AliveFollowers after MarkDead.
use micros.Base.{
  ℕ, Str, str_eq, str_eq_iff, str_eq_refl, All, Bool, true, false, ◌||◌, ◌≡◌, ◌≢◌, refl, List, [],
  ◌∷◌, arith, if◌then◌else◌,
}
use micros.Domain.Node.{status_ready, status_offline}
use micros.Cluster.Static.{Manager, NodeState, ready_of, alive_followers, mark_first, mark_dead}

unfoldable pub contains : Str → List Str → Bool
contains a [] = false
contains a (b ∷ rest) = str_eq b a || contains a rest

unfoldable pub addresses : List (Str × NodeState) → List Str
addresses [] = []
addresses ((id, ns) ∷ rest) = ns.node.internal_address ∷ addresses rest

abbrev pub Distinct : List Str → Type 0
Distinct [] = Unit {0}
Distinct (a ∷ rest) = (contains a rest ≡ false) × Distinct rest

-- What holds of every address that a list contains.
pub contains-All :
    (P : Str → Type 0) (xs : List Str) → ((a : Str) → contains a xs ≡ true → P a) → All P xs
unfolding contains
contains-All P [] h = tt
contains-All P (x ∷ xs) h =
    (h x (rw (str_eq_refl x) refl), contains-All P xs λ a there. h a (ground (arith, there)))

ready_among :
    (local a : Str) (ns : List (Str × NodeState))
    → contains a (ready_of local ns) ≡ true
    → contains a (addresses ns) ≡ true
unfolding contains ready_of addresses
ready_among local a [] h = h
ready_among local a ((id, n) ∷ rest) h = ground (arith, ready_among local a rest)

mark_first_removes :
    (local b : Str) (k : ℕ) (ns : List (Str × NodeState))
    → Distinct (addresses ns)
    → contains b (ready_of local (mark_first b k ns)) ≡ false
unfolding contains ready_of mark_first addresses
mark_first_removes local b k [] d = refl
mark_first_removes local b k ((id, n) ∷ rest) d = ground (
  arith,
  mark_first_removes local b k rest d.1,
  ready_among local b rest,
  str_eq_iff status_offline status_ready,
  str_eq_iff n.node.internal_address b,
)

mark_first_keeps :
    (local a b : Str) (k : ℕ) (ns : List (Str × NodeState))
    → a ≢ b
    → contains a (ready_of local (mark_first b k ns)) ≡ contains a (ready_of local ns)
unfolding contains ready_of mark_first
mark_first_keeps local a b k [] ne = refl
mark_first_keeps local a b k ((id, n) ∷ rest) ne = ground (
  arith,
  mark_first_keeps local a b k rest ne,
  str_eq_iff n.node.internal_address b,
  str_eq_iff n.node.internal_address a,
  str_eq_iff status_offline status_ready,
)

addresses-mark_first :
    (b : Str) (k : ℕ) (ns : List (Str × NodeState)) → addresses (mark_first b k ns) ≡ addresses ns
unfolding mark_first addresses
addresses-mark_first b k [] = refl
addresses-mark_first b k ((id, n) ∷ rest) = ground (arith, addresses-mark_first b k rest)

pub addresses-mark_dead :
    (b : Str) (m : Manager) → addresses (mark_dead b m).nodes_state ≡ addresses m.nodes_state
unfolding mark_dead
addresses-mark_dead b m = addresses-mark_first b m.max_failures m.nodes_state

Distinct-if :
    (b : Bool) (xs ys : List Str) → Distinct xs → Distinct ys → Distinct (if b then xs else ys)
Distinct-if true xs ys h k = h
Distinct-if false xs ys h k = k

pub Distinct-ready_of :
    (local : Str) (ns : List (Str × NodeState))
    → Distinct (addresses ns)
    → Distinct (ready_of local ns)
unfolding ready_of addresses
Distinct-ready_of local [] d = d
Distinct-ready_of local ((id, n) ∷ rest) d =
    let others = Distinct-ready_of local rest d.1 in
    Distinct-if (str_eq id local) (ready_of local rest)
      (if str_eq n.node.status status_ready
        then n.node.internal_address ∷ ready_of local rest
        else ready_of local rest)
      others
      (Distinct-if (str_eq n.node.status status_ready)
        (n.node.internal_address ∷ ready_of local rest) (ready_of local rest)
        (ground (arith, d.0, ready_among local n.node.internal_address rest), others) others)

-- When the nodes have distinct addresses, MarkDead takes exactly the marked address out of the
-- alive followers: it is no longer among them, and every other address is among them after the
-- call exactly if it was before.
pub alive_followers-mark_dead :
    (addr a : Str) (m : Manager)
    → Distinct (addresses m.nodes_state)
    → contains a (alive_followers (mark_dead addr m))
      ≡ (if str_eq a addr then false else contains a (alive_followers m))
unfolding alive_followers mark_dead
alive_followers-mark_dead addr a m d = ground (
  arith,
  str_eq_iff a addr,
  mark_first_removes m.local_node_id addr m.max_failures m.nodes_state d,
  mark_first_keeps m.local_node_id a addr m.max_failures m.nodes_state,
)
