-- ===== src/Erasure/Runs.antt =====
-- A block of the manager that succeeds, and what holds however it ends.
use micros.Base.{◌≡◌, refl, Result, ok, err}
use micros.Replication.{World}
use micros.Erasure.{EcError, Run, continue, ◌>>=◌}

continue_ok :
    {A B : Type 0} (r : Result EcError A) (f : A → Run B) (w : World) (b : B)
    → (continue r f w).0 ≡ ok b
    → (a : A) × (r ≡ ok a) × ((f a w).0 ≡ ok b)
continue_ok (ok a) f w b h = (a, refl, h)
continue_ok (err e) f w b h = cc

continue_after :
    {A B : Type 0} (P : World → Type 0) (r : Result EcError A) (f : A → Run B) (w : World)
    → P w
    → ((a : A) → r ≡ ok a → P (f a w).1)
    → P (continue r f w).1
continue_after P (ok a) f w h k = k a refl
continue_after P (err e) f w h k = h

continue_same :
    {A B : Type 0} (r : Result EcError A) (f : A → Run B) (w : World) (a : A)
    → r ≡ ok a
    → continue r f w ≡ f a w
continue_same r f w a h = rw h refl

module _ {A B : Type 0} (m : Run A) (f : A → Run B) (w : World) where
  pub bind_ok :
      (b : B) → ((m >>= f) w).0 ≡ ok b → (a : A) × ((m w).0 ≡ ok a) × ((f a (m w).1).0 ≡ ok b)
  unfolding ◌>>=◌
  bind_ok b h = continue_ok (m w).0 f (m w).1 b h

  -- After a first part that succeeds, the block is its rest.
  pub bind_same : (a : A) → (m w).0 ≡ ok a → (m >>= f) w ≡ f a (m w).1
  unfolding ◌>>=◌
  bind_same a h = continue_same (m w).0 f (m w).1 a h

  pub run_after :
      (P : World → Type 0)
      → P (m w).1
      → ((a : A) → (m w).0 ≡ ok a → P (f a (m w).1).1)
      → P ((m >>= f) w).1
  unfolding ◌>>=◌
  run_after P h k = continue_after P (m w).0 f (m w).1 h k
