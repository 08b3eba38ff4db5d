-- ===== src/Replication/Rounds.antt =====
-- What a phase without an error for a follower has done on that follower.
use micros.Base.{
  Str, str_eq, str_eq_iff, true, false, ◌≡◌, refl, sym, ◌∙◌, subst, Option, none, some, List, [],
  ◌∷◌, arith, inl, inr, Bool-cases,
}
use micros.Disk.{Disk}
use micros.Peers.{CallError}
use micros.Cluster.Static.Membership.{contains, Distinct}
use micros.Replication.{World, Errors, over, add_error}

-- The followers that are named in an error map.
unfoldable pub names : Errors → List Str
names [] = []
names ((a, e) ∷ rest) = a ∷ names rest

names-add_error_some :
    (a : Str) (o : Option CallError) (errs : Errors)
    → contains a (names (add_error a o errs)) ≡ false
    → o ≡ none
unfolding names add_error contains
names-add_error_some a none errs h = refl
names-add_error_some a (some e) errs h = ground (arith, str_eq_iff a a)

names-add_error_rest :
    (a b : Str) (o : Option CallError) (errs : Errors)
    → contains b (names (add_error a o errs)) ≡ false
    → contains b (names errs) ≡ false
unfolding names add_error contains
names-add_error_rest a b none errs h = h
names-add_error_rest a b (some e) errs h = ground arith

-- One follower's part of a phase works on that follower's disk alone, keeps what holds of the
-- leader, and without an error turns Before into After.
pub record Round (f : Str → World → Option CallError × World) (I : World → Type 0)
    (Before After : Str → Disk → Type 0) : Type 0 where
  pub stays : (a : Str) (w : World) → I w → I (f a w).1
  pub elsewhere : (a b : Str) (w : World) → str_eq a b ≡ false → (f a w).1.remote b ≡ w.remote b
  pub does :
      (a : Str) (w : World)
      → I w
      → Before a (w.remote a)
      → (f a w).0 ≡ none
      → After a ((f a w).1.remote a)

module _ (f : Str → World → Option CallError × World) (I : World → Type 0)
    (Before After : Str → Disk → Type 0) (round : Round f I Before After) where
  pub over-stays : (addrs : List Str) (w : World) → I w → I (over f addrs w).1
  unfolding over
  over-stays [] w i = i
  over-stays (a ∷ rest) w i = over-stays rest (f a w).1 (round.stays a w i)

  over-elsewhere :
      (addrs : List Str) (b : Str) (w : World)
      → contains b addrs ≡ false
      → (over f addrs w).1.remote b ≡ w.remote b
  unfolding over contains
  over-elsewhere [] b w h = refl
  over-elsewhere (a ∷ rest) b w h =
      over-elsewhere rest b (f a w).1 (ground arith) ∙ round.elsewhere a b w (ground arith)

  first :
      (a : Str) (rest : List Str) (w : World)
      → Distinct (a ∷ rest)
      → I w
      → Before a (w.remote a)
      → contains a (names (over f (a ∷ rest) w).0) ≡ false
      → After a ((over f (a ∷ rest) w).1.remote a)
  unfolding over
  first a rest w d i h n =
      let done = names-add_error_some a (f a w).0 (over f rest (f a w).1).0 n in
      subst (After a) (sym (over-elsewhere rest a (f a w).1 d.0)) (round.does a w i h done)

  -- Every follower that is not named in the errors has done its part.
  pub over-does :
      (addrs : List Str) (b : Str) (w : World)
      → Distinct addrs
      → I w
      → Before b (w.remote b)
      → contains b addrs ≡ true
      → contains b (names (over f addrs w).0) ≡ false
      → After b ((over f addrs w).1.remote b)
  unfolding over contains
  over-does [] b w d i h c n = ground arith
  over-does (a ∷ rest) b w d i h c n = elim (Bool-cases (str_eq a b)) [
    | inl same ↦
        subst
          (λ x.
            Before x (w.remote x)
            → contains x (names (over f (a ∷ rest) w).0) ≡ false
            → After x ((over f (a ∷ rest) w).1.remote x))
          ((str_eq_iff a b).0 same) (first a rest w d i) h n
    | inr other ↦
        over-does rest b (f a w).1 d.1 (round.stays a w i)
          (subst (Before b) (sym (round.elsewhere a b w other)) h) (ground arith)
          (names-add_error_rest a b (f a w).0 (over f rest (f a w).1).0 n)
  ]
