-- ===== src/Cluster/Static/Heartbeats.antt =====
-- What a sequence of heartbeats does to a node of the static manager.
use micros.Base.{
  ℕ, zero, suc, ◌+◌, ◌≤◌, Str, str_eq, str_eq_iff, ◌≡◌, refl, ap, Option, none, some, List, [], ◌∷◌,
  arith, ◌∙◌, Bool-cases, inl, inr, ◌⊎◌,
}
use micros.Base.Assoc.{lookup, str_Eq, lookup-insert, lookup-insert_self}
use micros.Domain.Node.{status_offline}
use micros.Cluster.Static.{
  Manager, NodeState, Health, check_failed, check_node, check_answered, check_follower,
  record_answer,
}

-- One answer of a health request.
pub record Beat : Type 0 where
  pub id : Str
  pub now : ℕ
  pub answer : Option Health

unfoldable pub heartbeats : List Beat → Manager → Manager
heartbeats [] m = m
heartbeats (b ∷ bs) m = heartbeats bs (check_follower b.id b.now b.answer m).0

-- Some state with the status is recorded for the node.
abbrev pub HasStatus : Str → Str → Manager → Type 0
HasStatus s id m = (ns : NodeState) × (lookup id m.nodes_state ≡ some ns) × (ns.node.status ≡ s)

check_node-offline :
    (k now : ℕ) (answer : Option Health) (ns : NodeState)
    → ns.node.status ≡ status_offline
    → (check_node k now answer ns).0.node.status ≡ status_offline
unfolding check_node check_failed check_answered
check_node-offline k now none ns e = ground arith
check_node-offline k now (some h) ns e = ground (arith, str_eq_iff ns.node.status status_offline)

-- The entry of a node after one answer, for the entry `o` that the answered node has.
lookup-record_answer :
    (id j : Str) (now : ℕ) (answer : Option Health) (m : Manager) (ns : NodeState)
    (o : Option NodeState)
    → lookup id m.nodes_state ≡ o
    → lookup j m.nodes_state ≡ some ns
    → (lookup j (record_answer id now answer m o).0.nodes_state ≡ some ns)
      ⊎ (lookup j (record_answer id now answer m o).0.nodes_state
          ≡ some (check_node m.max_failures now answer ns).0)
unfolding record_answer
lookup-record_answer id j now answer m ns none e h = inl h
lookup-record_answer id j now answer m ns (some old) e h = elim (Bool-cases (str_eq id j)) [
  | inl same ↦
      let here : old ≡ ns = cc (e, h, (str_eq_iff id j).0 same) in
      inr (
        simp (lookup-insert, same) (ap (λ x. some (check_node m.max_failures now answer x).0) here))
  | inr other ↦ inl (simp (lookup-insert, other) h)
]

lookup-check_follower :
    (id j : Str) (now : ℕ) (answer : Option Health) (m : Manager) (ns : NodeState)
    → lookup j m.nodes_state ≡ some ns
    → (lookup j (check_follower id now answer m).0.nodes_state ≡ some ns)
      ⊎ (lookup j (check_follower id now answer m).0.nodes_state
          ≡ some (check_node m.max_failures now answer ns).0)
unfolding check_follower
lookup-check_follower id j now answer m ns h =
    lookup-record_answer id j now answer m ns (lookup id m.nodes_state) refl h

one_beat :
    (b : Beat) (id : Str) (m : Manager)
    → HasStatus status_offline id m
    → HasStatus status_offline id (check_follower b.id b.now b.answer m).0
one_beat b id m (ns, there, off) = elim (lookup-check_follower b.id id b.now b.answer m ns there) [
  | inl same ↦ (ns, same, off)
  | inr next ↦ (_, next, check_node-offline m.max_failures b.now b.answer ns off)
]

-- A node that is OFFLINE stays OFFLINE through every sequence of heartbeats, of any nodes and with
-- any answers.
pub heartbeats-offline :
    (bs : List Beat) (id : Str) (m : Manager)
    → HasStatus status_offline id m
    → HasStatus status_offline id (heartbeats bs m)
unfolding heartbeats
heartbeats-offline [] id m h = h
heartbeats-offline (b ∷ bs) id m h = heartbeats-offline bs id _ (one_beat b id m h)

-- Health requests to one node that fail, one after the other.
unfoldable pub misses : ℕ → Str → ℕ → Manager → Manager
misses zero id now m = m
misses (suc k) id now m = misses k id now (check_follower id now none m).0

recorded_miss :
    (id : Str) (now : ℕ) (m : Manager) (ns : NodeState) (o : Option NodeState)
    → o ≡ some ns
    → (lookup id (record_answer id now none m o).0.nodes_state
        ≡ some (check_failed m.max_failures ns))
      × ((record_answer id now none m o).0.max_failures ≡ m.max_failures)
unfolding record_answer check_node
recorded_miss id now m ns none e = cc
recorded_miss id now m ns (some old) e =
    let same : old ≡ ns = cc in
    (
      lookup-insert_self id (check_failed m.max_failures old) m.nodes_state
          ∙ ap (λ x. some (check_failed m.max_failures x)) same,
      refl,
    )

-- A known node is OFFLINE after `suc k` failed requests in a row, when its failure count before them
-- and their number reach the limit together.
pub misses-offline :
    (k : ℕ) (id : Str) (now : ℕ) (m : Manager) (ns : NodeState)
    → lookup id m.nodes_state ≡ some ns
    → m.max_failures ≤ ns.failure_count + suc k
    → HasStatus status_offline id (misses (suc k) id now m)
unfolding misses check_follower check_failed
misses-offline zero id now m ns there enough =
    let (next, _) = recorded_miss id now m ns (lookup id m.nodes_state) there in
    (check_failed m.max_failures ns, next, ground arith)
misses-offline (suc k) id now m ns there enough =
    let (next, same) = recorded_miss id now m ns (lookup id m.nodes_state) there in
    misses-offline k id now (check_follower id now none m).0 (check_failed m.max_failures ns) next
      (rw same (omega arith))
