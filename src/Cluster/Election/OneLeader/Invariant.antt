-- ===== src/Cluster/Election/OneLeader/Invariant.antt =====
-- What holds of every reachable world of the election.
use micros.Base.{
  ℕ, ◌+◌, ◌-◌, ◌*◌, ◌≤◌, ◌<◌, Str, str_eq, str_eq_iff, true, ◌≡◌, subst, ◌⊎◌, inl, inr, Bool-cases,
  Option, some, arith,
}
use micros.Cluster.Election.{Lease, LeaseSpec, K8sManager, guard_window, second, micro}
use micros.Cluster.Election.System.{World, Request, resting, creating, replacing, accepted, update}

-- A time in whole microseconds that has passed.
abbrev pub Passed : ℕ → ℕ → Type 0
Passed clock t = (t ≤ clock) × (micro t ≡ t)

-- A lease that a node has written or means to write.
abbrev pub Written : ℕ → ℕ → Str → LeaseSpec → Type 0
Written d clock i s = (s.holder ≡ i) × Passed clock s.renew_time × (s.duration_seconds * second ≡ d)

-- The flag's owner holds the lease and renewed it in time, or its time is up.
abbrev pub Bounded : ℕ → ℕ → Option Lease → Str → ℕ → Type 0
Bounded d clock server i last =
    ((l : Lease) × (server ≡ some l)
      × (l.spec.holder ≡ i)
      × (last ≤ l.spec.renew_time + guard_window))
    ⊎ (last + (d - guard_window) < clock)

-- What is true of a request of node i.
abbrev pub Sound : ℕ → ℕ → Option Lease → Str → Request → Type 0
Sound d clock server i resting = Unit {0}
Sound d clock server i (creating s) = Written d clock i s
Sound d clock server i (replacing l s) =
    Written d clock i s
    × (l.spec.renew_time ≤ s.renew_time)
    × ((l.spec.holder ≡ i) ⊎ (l.spec.renew_time + d < clock))
    × ((now : Lease) × (server ≡ some now) × ((l.version < now.version) ⊎ (now ≡ l)))
Sound d clock server i (accepted s) =
    Written d clock i s
    × (((now : Lease) × (server ≡ some now) × (now.spec ≡ s)) ⊎ (s.renew_time + d < clock))

pub record Inv (d : ℕ) (w : World) : Type 0 where
  pub named : (i : Str) → (w.nodes i).local_node_id ≡ i
  pub lasting : (i : Str) → (w.nodes i).lease_duration ≡ d
  pub held :
      (l : Lease)
      → w.server ≡ some l
      → Passed w.clock l.spec.renew_time × (l.spec.duration_seconds * second ≡ d)
  pub flagged :
      (i : Str)
      → (w.nodes i).is_leader_flag ≡ true
      → Bounded d w.clock w.server i (w.nodes i).last_lease_renewal
  pub sound : (i : Str) → Sound d w.clock w.server i (w.requests i)

-- A property of each node after one node's value has changed.
pub update-each :
    {A : Type 0} (P : Str → A → Type 0) (i : Str) (x : A) (f : Str → A)
    → P i x
    → ((j : Str) → P j (f j))
    → (j : Str) → P j (update i x f j)
unfolding update
update-each P i x f here there j = elim (Bool-cases (str_eq i j)) [
  | inl same ↦ rw same (subst (λ k. P k x) ((str_eq_iff i j).0 same) here)
  | inr other ↦ rw other (there j)
]

-- Later everything still holds.
Bounded-later :
    (d clock n : ℕ) (server : Option Lease) (i : Str) (last : ℕ)
    → Bounded d clock server i last
    → Bounded d (clock + n) server i last
Bounded-later d clock n server i last (inl h) = inl h
Bounded-later d clock n server i last (inr h) = inr (omega arith)

Sound-later :
    (d clock n : ℕ) (server : Option Lease) (i : Str) (r : Request)
    → Sound d clock server i r
    → Sound d (clock + n) server i r
Sound-later d clock n server i resting h = tt
Sound-later d clock n server i (creating s) h = grind arith
Sound-later d clock n server i (replacing l s) (w, le, inl own, v) = (grind arith, le, inl own, v)
Sound-later d clock n server i (replacing l s) (w, le, inr late, v) =
    (grind arith, le, inr (omega arith), v)
Sound-later d clock n server i (accepted s) (w, inl h) = (grind arith, inl h)
Sound-later d clock n server i (accepted s) (w, inr h) = (grind arith, inr (omega arith))

module _ (d : ℕ) where
  pub Inv-ticks : (w : World) (n : ℕ) → Inv d w → Inv d (record w { clock = w.clock + n })
  Inv-ticks w n inv = record {
    named = inv.named;
    lasting = inv.lasting;
    held = λ l e. let (p, q) = inv.held l e in (grind arith, q);
    flagged = λ i h. Bounded-later d w.clock n w.server i _ (inv.flagged i h);
    sound = λ i. Sound-later d w.clock n w.server i (w.requests i) (inv.sound i);
  }

  -- A change of one node's request.
  pub Inv-request :
      (w : World) (i : Str) (r : Request)
      → Sound d w.clock w.server i r
      → Inv d w
      → Inv d (record w { requests = update i r w.requests })
  Inv-request w i r h inv = record {
    named = inv.named;
    lasting = inv.lasting;
    held = inv.held;
    flagged = inv.flagged;
    sound = update-each (Sound d w.clock w.server) i r w.requests h inv.sound;
  }

  -- What is true of one node's manager.
  abbrev pub IsNode : World → Str → K8sManager → Type 0
  IsNode w i m =
      (m.local_node_id ≡ i)
      × (m.lease_duration ≡ d)
      × (m.is_leader_flag ≡ true → Bounded d w.clock w.server i m.last_lease_renewal)

  -- A change of one node's manager.
  pub Inv-node :
      (w : World) (i : Str) (m : K8sManager)
      → IsNode w i m
      → Inv d w
      → Inv d (record w { nodes = update i m w.nodes })
  Inv-node w i m h inv =
      let each =
        update-each (IsNode w) i m w.nodes h (λ j. (inv.named j, inv.lasting j, inv.flagged j)) in
      record {
        named = λ j. (each j).0;
        lasting = λ j. (each j).1;
        held = inv.held;
        flagged = λ j. (each j).2;
        sound = inv.sound;
      }
