-- ===== src/Domain/Examples.antt =====
-- The properties of a transaction's states on concrete transactions.
use micros.Base.{codes, ◌≡◌, refl, inr, [], ◌∷◌}
use micros.Domain.Object.{Transaction, tx_prepared, tx_committed, tx_aborted, op_put}
use micros.Domain.Transitions.{request_states, request_states-final}

abbrev prepared : Transaction
prepared = record {
  id = codes "t1";
  bucket = codes "b";
  key = codes "k";
  operation = op_put;
  state = tx_prepared;
  created_at = 0;
}

request_states-final_example :
    request_states (record prepared { state = tx_aborted }) (tx_prepared ∷ tx_committed ∷ [])
    ≡ record prepared { state = tx_aborted }
request_states-final_example =
    request_states-final (record prepared { state = tx_aborted }) (tx_prepared ∷ tx_committed ∷ [])
      (inr refl)
