-- ===== src/Cluster/Election/OneLeader/Moves.antt =====
-- Each step of the election keeps the invariant.
use micros.Base.{
  ℕ, ◌+◌, ◌*◌, ◌/◌, ◌≤◌, ◌<◌, Str, str_eq, str_eq_iff, true, ◌≡◌, ◌≢◌, refl, sym, ap, ◌∙◌, subst,
  ◌⊎◌, inl, inr, Bool-cases, Option, none, some, arith, ltb, ◌||◌,
}
use micros.Cluster.Election.{
  Lease, LeaseSpec, K8sManager, plan, follow_leader, guard_window, second, micro, new_lease,
  renewed_lease, expiry_time,
}
use micros.Cluster.Election.System.{
  World, Request, resting, creating, replacing, accepted, update, carry_out, fetched,
}
use micros.Cluster.Election.OneLeader.Invariant.{
  Passed, Written, Bounded, Sound, Inv, Inv-request, Inv-node, update-each,
}

micro-le : (t : ℕ) → micro t ≤ t
unfolding micro
micro-le t = omega arith

micro-micro : (t : ℕ) → micro (micro t) ≡ micro t
unfolding micro
micro-micro t = omega arith

micro_mono : (s t : ℕ) → s ≤ t → micro s ≤ micro t
unfolding micro
micro_mono s t h = omega arith

module _ (d : ℕ) (whole : d / second * second ≡ d) where
  new-Written :
      (i : Str) (now : ℕ) (m : K8sManager)
      → m.local_node_id ≡ i
      → Written d now i (new_lease m.local_node_id d now)
  unfolding new_lease
  new-Written i now m e = (e, (micro-le now, micro-micro now), whole)

  renewed-Written :
      (i : Str) (now : ℕ) (m : K8sManager) (s : LeaseSpec)
      → m.local_node_id ≡ i
      → Written d now i (renewed_lease m.local_node_id d now s)
  unfolding renewed_lease
  renewed-Written i now m s e = (e, (micro-le now, micro-micro now), whole)

  -- A lease that may be taken is the node's own, or has expired.
  takes :
      (i : Str) (w : World) (l : Lease)
      → Inv d w
      → w.server ≡ some l
      → (str_eq l.spec.holder (w.nodes i).local_node_id || ltb (expiry_time l.spec) w.clock) ≡ true
      → Sound d w.clock w.server i
          (replacing l (renewed_lease (w.nodes i).local_node_id d w.clock l.spec))
  unfolding expiry_time renewed_lease
  takes i w l inv e h =
      let (passed, lasts) = inv.held l e in
      let name = inv.named i in
      (
        (name, (micro-le w.clock, micro-micro w.clock), whole),
        omega (arith, passed.1, micro_mono l.spec.renew_time w.clock passed.0),
        elim (Bool-cases (str_eq l.spec.holder (w.nodes i).local_node_id)) [
          | inl own ↦ inl ((str_eq_iff l.spec.holder (w.nodes i).local_node_id).0 own ∙ name)
          | inr other ↦ inr (ground (arith, other, h, lasts))
        ],
        (l, e, inr refl),
      )

  pub planned :
      (i : Str) (w : World) (o : Option Lease)
      → w.server ≡ o
      → Inv d w
      → Inv d (carry_out i (plan d w.clock (w.nodes i) (fetched o)) w)
  unfolding carry_out plan follow_leader
  planned i w none e inv = Inv-request d w i _ (new-Written i w.clock (w.nodes i) (inv.named i)) inv
  planned i w (some l) e inv =
      elim (Bool-cases
        (str_eq l.spec.holder (w.nodes i).local_node_id || ltb (expiry_time l.spec) w.clock)) [
          | inl free ↦ rw free (Inv-request d w i _ (takes i w l inv e free) inv)
          | inr taken ↦ rw taken (Inv-node d w i _ (inv.named i, inv.lasting i, (λ f. cc)) inv)
        ]

  -- What the lease's change by node i does to the others, when the old lease is its own or expired.
  abbrev Free : Str → World → Type 0
  Free i w =
      (l : Lease) → w.server ≡ some l → (l.spec.holder ≡ i) ⊎ (l.spec.renew_time + d < w.clock)

  -- The lease that node i writes over a free one, or where there is none.
  pub record Writes (w : World) (i : Str) (s : LeaseSpec) (v : ℕ) : Type 0 where
    pub wide : guard_window < d
    pub own : Written d w.clock i s
    pub free : Free i w
    pub newer : (l : Lease) → w.server ≡ some l → l.version < v
    pub renews :
        (l : Lease) → w.server ≡ some l → l.spec.holder ≡ i → l.spec.renew_time ≤ s.renew_time
    pub unanswered : (x : LeaseSpec) → w.requests i ≢ accepted x

  Bounded-write :
      (w : World) (i j : Str) (s : LeaseSpec) (v last : ℕ)
      → Writes w i s v
      → Bounded d w.clock w.server j last
      → Bounded d w.clock (some (record { version = v; spec = s })) j last
  Bounded-write w i j s v last wr (inr late) = inr late
  Bounded-write w i j s v last wr (inl (l, e, mine, recent)) = elim (wr.free l e) [
    | inl his ↦ inl (
      record { version = v; spec = s },
      refl,
      wr.own.0 ∙ sym his ∙ mine,
      omega (arith, recent, wr.renews l e his),
    )
    | inr late ↦ inr (omega (arith, recent, late, wr.wide))
  ]

  Sound-write :
      (w : World) (i j : Str) (s : LeaseSpec) (v : ℕ) (r : Request)
      → Writes w i s v
      → w.requests j ≡ r
      → Sound d w.clock w.server j r
      → Sound d w.clock (some (record { version = v; spec = s })) j r
  Sound-write w i j s v resting wr e h = tt
  Sound-write w i j s v (creating x) wr e h = h
  Sound-write w i j s v (replacing l x) wr e (own, le, may, (now, there, version)) =
      (own, le, may, (record { version = v; spec = s }, refl, inl (older version)))
    where
      older : ((l.version < now.version) ⊎ (now ≡ l)) → l.version < v
      older (inl lt) = omega (arith, lt, wr.newer now there)
      older (inr same) = subst (λ y. y.version < v) same (wr.newer now there)
  Sound-write w i j s v (accepted x) wr e (own, inr late) = (own, inr late)
  Sound-write w i j s v (accepted x) wr e (own, inl (now, there, same)) = (
    own,
    elim (wr.free now there) [
      | inl his ↦
          let both : j ≡ i = sym own.0 ∙ ap (λ y. y.holder) (sym same) ∙ his in
          absurd (wr.unanswered x (subst (λ k. w.requests k ≡ accepted x) both e))
      | inr late ↦ inr (subst (λ y. y.renew_time + d < w.clock) same late)
    ],
  )

  pub written :
      (w : World) (i : Str) (s : LeaseSpec) (v : ℕ)
      → Writes w i s v
      → Inv d w
      → Inv d (record w {
        server = some (record { version = v; spec = s });
        requests = update i (accepted s) w.requests;
      })
  written w i s v wr inv = record {
    named = inv.named;
    lasting = inv.lasting;
    held = λ l e.
        let same : s ≡ l.spec = cc in
        subst (λ y. Passed w.clock y.renew_time × (y.duration_seconds * second ≡ d)) same
          (wr.own.1, wr.own.2);
    flagged = λ j f. Bounded-write w i j s v _ wr (inv.flagged j f);
    sound =
        update-each (Sound d w.clock (some (record { version = v; spec = s }))) i (accepted s)
          w.requests (wr.own, inl (record { version = v; spec = s }, refl, refl))
          (λ j. Sound-write w i j s v (w.requests j) wr refl (inv.sound j));
  }
