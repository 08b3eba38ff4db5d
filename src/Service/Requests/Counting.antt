-- ===== src/Service/Requests/Counting.antt =====
-- The number of active writes, which a sync waits for.
use micros.Base.{ℕ, ◌-◌, Str, ◌≡◌, ◌∙◌, refl, Option, Result, ok, err, arith}
use micros.Domain.Object.{ObjectMeta}
use micros.Disk.{Error}
use micros.Storage.Transactions.{Reader}
use micros.Replication.{World, Network}
use micros.Service.Leases.{
  Gate, Admission, admitted, refused, admit_write, finish_write, is_writes_blocked,
}
use micros.Service.Writes.{Failure, ensure_bucket, put_transaction, delete_transaction}
use micros.Service.Syncs.{State}
use micros.Service.Requests.{enter, after_ensure, put_object, delete_object}

-- After the admission, the count that the write leaves when it ends.
abbrev remaining : Admission × Gate → ℕ
remaining (refused f, g) = g.active_writes
remaining (admitted, g) = g.active_writes - 1

admit_write_left : (now : ℕ) (g : Gate) → remaining (admit_write now g) ≡ g.active_writes
unfolding admit_write is_writes_blocked
admit_write_left now g = ground arith

enter_left :
    (write : World → Result Failure ObjectMeta × World) (x : Admission × Gate) (w : World)
    → (enter write x w).1.gate.active_writes ≡ remaining x
unfolding enter finish_write
enter_left write (refused f, g) w = refl
enter_left write (admitted, g) w = refl

after_ensure_counting :
    (write : World → Result Failure ObjectMeta × World) (now : ℕ) (g : Gate)
    (r : Result Error (Unit {0})) (w : World)
    → (after_ensure write now g (r, w)).1.gate.active_writes ≡ g.active_writes
unfolding after_ensure
after_ensure_counting write now g (err e) w = refl
after_ensure_counting write now g (ok u) w =
    enter_left write (admit_write now g) w ∙ admit_write_left now g

-- PutObject and DeleteObject leave the number of active writes as they found it, whether the write is
-- turned away, fails or succeeds.
pub put_object_counting :
    (net : Network) (tx_id : Str) (now : ℕ) (bucket key : Str) (reader : Reader) (size : Option ℕ)
    (meta : ObjectMeta) (st : State)
    → ((put_object net tx_id now bucket key reader size meta st).1.gate.active_writes
        ≡ st.gate.active_writes)
      × ((delete_object net tx_id now bucket key st).1.gate.active_writes ≡ st.gate.active_writes)
unfolding put_object delete_object
put_object_counting net tx_id now bucket key reader size meta st = (
  after_ensure_counting (put_transaction net tx_id now bucket key reader size meta) now st.gate
      (ensure_bucket bucket st.world.local).0
      (record st.world { local = (ensure_bucket bucket st.world.local).1 }),
  enter_left (delete_transaction net tx_id now bucket key) (admit_write now st.gate) st.world
      ∙ admit_write_left now st.gate,
)
