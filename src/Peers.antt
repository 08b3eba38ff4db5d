-- ===== src/Peers.antt =====
-- internal/internal_api: what a follower does with the requests of two-phase commit
-- (handlers.go), and what the leader's client makes of the answer (client.go). HTTP itself is a
-- `Fate`: what becomes of one request and its answer.
pub mod Shards
pub mod Delivered
mod Examples
use micros.Base.{ℕ, Str, str_eq, ◌||◌, ◌==◌, Option, none, some, [], Result, ok, err, if◌then◌else◌}
use micros.Domain.Object.{ObjectMeta, Transaction, tx_prepared}
use micros.Disk.{Disk, Error, io_error}
use micros.Storage.Transactions.{
  Hashes, Reader, stage_object, commit_transaction, abort_transaction,
}

abbrev pub status_ok : ℕ
status_ok = 200

abbrev pub status_bad_request : ℕ
status_bad_request = 400

abbrev pub status_server_error : ℕ
status_server_error = 500

-- The headers and the body of POST /internal/prepare.
pub record PrepareRequest : Type 0 where
  pub tx_id : Str
  pub operation : Str
  pub bucket : Str
  pub key : Str
  pub meta : ObjectMeta
  pub body : Reader
  pub content_length : Option ℕ

-- The answer's status for what the storage returned.
unfoldable pub answer_of : {A : Type 0} → Result Error A → ℕ
answer_of (ok a) = status_ok
answer_of (err e) = status_server_error

abbrev answered : {A : Type 0} → Result Error A × Disk → ℕ × Disk
answered (r, d) = (answer_of r, d)

-- The transaction that the follower logs, with its own clock.
abbrev pub received : PrepareRequest → ℕ → Transaction
received r now = record {
  id = r.tx_id;
  operation = r.operation;
  bucket = r.bucket;
  key = r.key;
  state = tx_prepared;
  created_at = now;
}

unfoldable pub handle_prepare : Hashes → ℕ → PrepareRequest → Disk → ℕ × Disk
unfolding answer_of
handle_prepare h now r d =
    if str_eq r.tx_id [] || str_eq r.operation [] || str_eq r.bucket [] || str_eq r.key []
    then (status_bad_request, d)
    else answered (stage_object h r.tx_id r.body r.content_length r.meta (received r now) d)

unfoldable pub handle_commit : Str → Str → Str → Disk → ℕ × Disk
unfolding answer_of
handle_commit tx_id bucket key d = answered (commit_transaction tx_id bucket key d)

unfoldable pub handle_abort : Str → Disk → ℕ × Disk
unfolding answer_of
handle_abort tx_id d = answered (abort_transaction tx_id d)

-- A body that does not arrive whole is no JSON value.
abbrev pub bad_json_body : Disk → ℕ × Disk
bad_json_body d = (status_bad_request, d)

-- A request is lost, breaks off in its body, is carried out with its answer lost, or is answered.
pub data Fate : Type 0 where
  lost broken reply_lost delivered : Fate

pub data CallError : Type 0 where
  no_answer : CallError
  bad_status : ℕ → CallError
  unreadable : Error → CallError

-- `if resp.StatusCode != http.StatusOK`
unfoldable pub check_status : ℕ × Disk → Option CallError × Disk
check_status (status, d) = (if status == status_ok then none else some (bad_status status), d)

-- One call of the client: what the follower does when the body arrives whole, and when it does not.
unfoldable pub call : Fate → (Disk → ℕ × Disk) → (Disk → ℕ × Disk) → Disk → Option CallError × Disk
unfolding check_status
call lost whole cut_off d = (some no_answer, d)
call broken whole cut_off d = (some no_answer, (cut_off d).1)
call reply_lost whole cut_off d = (some no_answer, (whole d).1)
call delivered whole cut_off d = check_status (whole d)

-- Client.Prepare sends the transaction in headers and the staged bytes in the body.
abbrev pub prepare_request : Transaction → ObjectMeta → Reader → PrepareRequest
prepare_request tx meta body = record {
  tx_id = tx.id;
  operation = tx.operation;
  bucket = tx.bucket;
  key = tx.key;
  meta = meta;
  body = body;
  content_length = some meta.content_length;
}

unfoldable pub prepare :
    Fate → Hashes → ℕ → Transaction → ObjectMeta → Reader → Disk → Option CallError × Disk
unfolding call
prepare fate h now tx meta body =
    call fate (handle_prepare h now (prepare_request tx meta body))
      (handle_prepare h now (prepare_request tx meta (err io_error)))

unfoldable pub commit : Fate → Str → Str → Str → Disk → Option CallError × Disk
unfolding call
commit fate tx_id bucket key = call fate (handle_commit tx_id bucket key) bad_json_body

unfoldable pub abort : Fate → Str → Disk → Option CallError × Disk
unfolding call
abort fate tx_id = call fate (handle_abort tx_id) bad_json_body
