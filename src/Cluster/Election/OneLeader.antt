-- ===== src/Cluster/Election/OneLeader.antt =====
-- No two nodes lead at the same time.
pub mod Invariant
pub mod Moves
use micros.Base.{
  ℕ, suc, ◌+◌, ◌-◌, ◌*◌, ◌/◌, ◌≤◌, ◌<◌, Str, Bool, true, false, ◌≡◌, ◌≢◌, refl, sym, ap, ◌∙◌, subst,
  ◌⊎◌, inl, inr, Option, none, some, arith, ltb, ◌&&◌, not, tests, Bool-cases,
}
use micros.Cluster.Election.{
  Lease, LeaseSpec, K8sManager, guard_window, second, is_leader, become_leader,
}
use micros.Cluster.Election.System.{
  World, Request, resting, creating, replacing, accepted, update, rest, Step, Reach,
}
use micros.Cluster.Election.OneLeader.Invariant.{
  Sound, Bounded, Inv, Inv-ticks, Inv-request, Inv-node, IsNode,
}
use micros.Cluster.Election.OneLeader.Moves.{Writes, planned, written}

-- The nodes' configuration: each knows its name and the lease's duration, a whole number of seconds
-- that is longer than the guard window. None leads at its start.
pub record Configured (d : ℕ) (fresh : Str → K8sManager) : Type 0 where
  pub whole : d / second * second ≡ d
  pub wide : guard_window < d
  pub named : (i : Str) → (fresh i).local_node_id ≡ i
  pub lasting : (i : Str) → (fresh i).lease_duration ≡ d
  pub follows : (i : Str) → (fresh i).is_leader_flag ≡ false

module _ (d : ℕ) (fresh : Str → K8sManager) (c : Configured d fresh) where
  posted :
      (w : World) (i : Str) (s : LeaseSpec)
      → w.requests i ≡ creating s
      → w.server ≡ none
      → Inv d w
      → Writes d c.whole w i s 1
  posted w i s asked empty inv = record {
    wide = c.wide;
    own = subst (Sound d w.clock w.server i) asked (inv.sound i);
    free = λ l e. cc;
    newer = λ l e. cc;
    renews = λ l e h. cc;
    unanswered = λ x e. cc;
  }

  -- The lease that the server still holds in the version that was read is the one that was read.
  unchanged :
      (l x y : Lease) (server : Option Lease)
      → server ≡ some x
      → (l.version < x.version) ⊎ (x ≡ l)
      → server ≡ some y
      → y.version ≡ l.version
      → x ≡ l
  unchanged l x y server e (inl lt) there same =
      let one : x ≡ y = cc in absurd (omega (arith, lt, same, ap (λ z. z.version) one))
  unchanged l x y server e (inr eq) there same = eq

  put :
      (w : World) (i : Str) (l now : Lease) (s : LeaseSpec)
      → w.requests i ≡ replacing l s
      → w.server ≡ some now
      → now.version ≡ l.version
      → Inv d w
      → Writes d c.whole w i s (suc now.version)
  put w i l now s asked there same inv =
      let (own, le, may, (x, e, version)) =
        subst (Sound d w.clock w.server i) asked (inv.sound i) in
      let read : x ≡ l = unchanged l x now w.server e version there same in
      let it : (y : Lease) → w.server ≡ some y → y ≡ l = λ y g. cc (e, g, read) in
      record {
        wide = c.wide;
        own = own;
        free = λ y g.
            subst (λ z. (z.spec.holder ≡ i) ⊎ (z.spec.renew_time + d < w.clock)) (sym (it y g)) may;
        newer = λ y g. omega (arith, same, ap (λ z. z.version) (it y g));
        renews = λ y g h. omega (arith, le, ap (λ z. z.spec.renew_time) (it y g));
        unanswered = λ z g. cc (asked, g);
      }

  -- The answer came in time, so nobody can have taken the lease since.
  leads :
      (w : World) (i : Str) (s : LeaseSpec)
      → w.requests i ≡ accepted s
      → w.clock ≤ s.renew_time + guard_window
      → Inv d w
      → IsNode d w i (become_leader w.clock (w.nodes i))
  unfolding become_leader
  leads w i s asked soon inv =
      let (own, kept) = subst (Sound d w.clock w.server i) asked (inv.sound i) in
      (
        inv.named i,
        inv.lasting i,
        λ f. elim kept [
          | inl (now, there, same) ↦ inl (
            now,
            there,
            ap (λ y. y.holder) same ∙ own.0,
            omega (arith, soon, ap (λ y. y.renew_time) same),
          )
          | inr late ↦ absurd (omega (arith, soon, late, c.wide))
        ],
      )

  step-Inv : {w v : World} → Step d fresh w v → Inv d w → Inv d v
  step-Inv (Step.ticks w n) inv = Inv-ticks d w n inv
  step-Inv (Step.plans w i quiet) inv = planned d c.whole i w w.server refl inv
  step-Inv (Step.posts w i s asked empty) inv =
      written d c.whole w i s 1 (posted w i s asked empty inv) inv
  step-Inv (Step.puts w i l now s asked there same) inv =
      written d c.whole w i s (suc now.version) (put w i l now s asked there same inv) inv
  step-Inv (Step.fails w i) inv = Inv-request d w i resting tt inv
  step-Inv (Step.learns w i s asked soon) inv =
      Inv-request d _ i resting tt
        (Inv-node d w i (become_leader w.clock (w.nodes i)) (leads w i s asked soon inv) inv)
  step-Inv (Step.restarts w i) inv =
      Inv-request d _ i resting tt
        (Inv-node d w i (fresh i) (c.named i, c.lasting i, λ f. cc (c.follows i, f)) inv)

  reach-Inv : {w : World} → Reach d fresh w → Inv d w
  reach-Inv (Reach.here t) = record {
    named = c.named;
    lasting = c.lasting;
    held = λ l e. cc;
    flagged = λ i f. cc (c.follows i, f);
    sound = λ i. tt;
  }
  reach-Inv (Reach.next r st) = step-Inv st (reach-Inv r)

  -- A node that IsLeader says leads holds the lease.
  holds :
      (w : World) (i : Str)
      → Inv d w
      → is_leader w.clock (w.nodes i) ≡ true
      → (l : Lease) × (w.server ≡ some l) × (l.spec.holder ≡ i)
  unfolding is_leader
  holds w i inv h =
      let f : (w.nodes i).is_leader_flag ≡ true = ground arith in
      elim (inv.flagged i f) [
        | inl (l, e, mine, recent) ↦ (l, e, mine)
        | inr late ↦ absurd (ground (arith, h, late, c.wide, inv.lasting i))
      ]

-- In every world that the election reaches, with a lease duration of whole seconds above the guard
-- window, two nodes for which IsLeader answers true are the same node. The API server checks
-- versions, the nodes read one clock, and an answer is processed within the guard window or not at
-- all.
pub is_leader_unique :
    (d : ℕ) (fresh : Str → K8sManager) (w : World) (i j : Str)
    → Configured d fresh
    → Reach d fresh w
    → is_leader w.clock (w.nodes i) ≡ true
    → is_leader w.clock (w.nodes j) ≡ true
    → i ≡ j
is_leader_unique d fresh w i j c r hi hj =
    let inv = reach-Inv d fresh c r in
    let (l, e, mine) = holds d fresh c w i inv hi in
    let (k, g, his) = holds d fresh c w j inv hj in
    let one : l ≡ k = cc (e, g) in sym mine ∙ ap (λ y. y.spec.holder) one ∙ his
