-- ===== src/Domain/Transitions.antt =====
-- The life of a transaction under `transition_to`.
use micros.Base.{Str, str_eq_iff, ◌≡◌, refl, ◌≢◌, ◌⊎◌, ok, err, List, [], ◌∷◌, arith, Result}
use micros.Domain.Object.{
  Transaction, TransitionError, transition_to, tx_prepared, tx_committed, tx_aborted,
}

-- A caller that asks for each state in turn, and goes on after a refusal.
abbrev after : Transaction → Result TransitionError Transaction → Transaction
after tx (ok tx') = tx'
after tx (err e) = tx

pub request_states : Transaction → List Str → Transaction
request_states tx [] = tx
request_states tx (s ∷ ss) = request_states (after tx (transition_to tx s)) ss

abbrev pub IsFinal : Transaction → Type 0
IsFinal tx = (tx.state ≡ tx_committed) ⊎ (tx.state ≡ tx_aborted)

final_step : (tx : Transaction) (s : Str) → IsFinal tx → after tx (transition_to tx s) ≡ tx
unfolding transition_to
final_step tx s f = ground (
  arith,
  str_eq_iff tx.state s,
  str_eq_iff tx.state tx_prepared,
  str_eq_iff tx.state tx_committed,
  str_eq_iff tx.state tx_aborted,
)

-- Whatever states are asked for afterwards, a committed or aborted transaction stays as it is.
pub request_states-final :
    (tx : Transaction) (ss : List Str) → IsFinal tx → request_states tx ss ≡ tx
unfolding request_states
request_states-final tx [] f = refl
request_states-final tx (s ∷ ss) f = rw (final_step tx s f) (request_states-final tx ss f)

-- A transition of a prepared transaction succeeds exactly for the two final states, and then
-- changes the state alone.
pub transition_to-prepared :
    (tx : Transaction) (s : Str)
    → tx.state ≡ tx_prepared
    → ((transition_to tx s ≡ ok (record tx { state = s })) × IsFinal (record tx { state = s }))
      ⊎ ((transition_to tx s ≡ err TransitionError.invalid_transition)
          × (s ≢ tx_committed)
          × (s ≢ tx_aborted))
unfolding transition_to
transition_to-prepared tx s e =
    ground
      (arith, str_eq_iff tx.state tx_prepared, str_eq_iff s tx_committed, str_eq_iff s tx_aborted)
