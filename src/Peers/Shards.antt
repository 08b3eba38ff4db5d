-- ===== src/Peers/Shards.antt =====
-- internal/internal_api: the requests of erasure coding, with their handlers (handlers.go) and the
-- client's calls (client.go). A request without a body that breaks off is one without an answer. A
-- shard's index is printed and parsed again as it is.
use micros.Base.{
  ℕ, Str, str_eq, Bool, ◌||◌, Option, none, some, List, [], take, Result, ok, err, if◌then◌else◌,
}
use micros.Domain.Object.{ObjectMeta}
use micros.Disk.{M, Disk, Entry, dir, file, Error, io_error, pure, ◌>>=◌, stat}
use micros.Storage.Layout.{ec_shard_path}
use micros.Storage.Transactions.{Reader, as_bytes}
use micros.Storage.Objects.{get_object_meta, update_object_meta, remove_replica_data}
use micros.Storage.Shards.{put_ec_shard}
use micros.Peers.{
  Fate, CallError, no_answer, bad_status, status_bad_request, call, answer_of, bad_json_body,
}

abbrev pub status_not_found : ℕ
status_not_found = 404

-- `bucket == "" || key == ""`
abbrev pub is_unnamed : Str → Str → Bool
is_unnamed bucket key = str_eq bucket [] || str_eq key []

-- An answer with a body, or the status of an error.
abbrev pub found : {A : Type 0} → Result Error A × Disk → Result ℕ A × Disk
found (ok a, d) = (ok a, d)
found (err e, d) = (err status_not_found, d)

abbrev pub named_or_400 :
    {A : Type 0} → Str → Str → (Disk → Result ℕ A × Disk) → Disk → Result ℕ A × Disk
named_or_400 bucket key handler d =
    if is_unnamed bucket key then (err status_bad_request, d) else handler d

abbrev pub done : {A : Type 0} → Result Error A × Disk → ℕ × Disk
done (r, d) = (answer_of r, d)

unfoldable pub handle_ec_meta : Str → Str → Disk → Result ℕ ObjectMeta × Disk
handle_ec_meta bucket key = named_or_400 bucket key (λ d. found (get_object_meta bucket key d))

-- What io.Copy writes: everything, or the bytes before the read of the file that failed.
unfoldable pub written : Option ℕ → List ℕ → List ℕ
written none bs = bs
written (some n) bs = take n bs

-- The first read of a directory fails.
unfoldable pub copy_out : Option ℕ → Entry → M (List ℕ)
copy_out copied dir = pure []
copy_out copied (file c) = do bs ← as_bytes c; pure (written copied bs)

-- Only opening the file decides on the status (os.Open, like os.Stat, takes a directory too). The
-- error of io.Copy is dropped: what it wrote is the body of an answer with status 200, and `copied`
-- is where it broke off, if it did.
unfoldable pub send_ec_shard : Option ℕ → Str → Str → ℕ → M (List ℕ)
send_ec_shard copied bucket key i = do e ← stat (ec_shard_path bucket key i); copy_out copied e

unfoldable pub handle_ec_shard : Option ℕ → Str → Str → ℕ → Disk → Result ℕ (List ℕ) × Disk
handle_ec_shard copied bucket key i =
    named_or_400 bucket key (λ d. found (send_ec_shard copied bucket key i d))

unfoldable pub handle_ec_put_shard :
    Str → Str → ℕ → ObjectMeta → Reader → Option ℕ → Disk → ℕ × Disk
unfolding answer_of
handle_ec_put_shard bucket key i meta body size d =
    if is_unnamed bucket key
    then (status_bad_request, d)
    else done (put_ec_shard bucket key i body size meta d)

unfoldable pub handle_ec_remove_replica : Str → Str → Disk → ℕ × Disk
unfolding answer_of
handle_ec_remove_replica bucket key d =
    if is_unnamed bucket key
    then (status_bad_request, d)
    else done (remove_replica_data bucket key d)

unfoldable pub handle_ec_update_meta : Str → Str → ObjectMeta → Disk → ℕ × Disk
unfolding answer_of
handle_ec_update_meta bucket key meta d =
    if is_unnamed bucket key
    then (status_bad_request, d)
    else done (update_object_meta bucket key meta d)

abbrev pub answered : {A : Type 0} → Result ℕ A × Disk → Result CallError A × Disk
answered (ok a, d) = (ok a, d)
answered (err status, d) = (err (bad_status status), d)

-- A call whose answer has a body.
unfoldable pub fetch :
    {A : Type 0} → Fate → (Disk → Result ℕ A × Disk) → Disk → Result CallError A × Disk
fetch Fate.lost handler d = (err no_answer, d)
fetch Fate.broken handler d = (err no_answer, (handler d).1)
fetch Fate.reply_lost handler d = (err no_answer, (handler d).1)
fetch Fate.delivered handler d = answered (handler d)

unfoldable pub get_remote_meta : Fate → Str → Str → Disk → Result CallError ObjectMeta × Disk
unfolding fetch
get_remote_meta fate bucket key = fetch fate (handle_ec_meta bucket key)

unfoldable pub get_remote_shard :
    Fate → Option ℕ → Str → Str → ℕ → Disk → Result CallError (List ℕ) × Disk
unfolding fetch
get_remote_shard fate copied bucket key i = fetch fate (handle_ec_shard copied bucket key i)

-- Client.PutECShard; a negative size is `none`.
unfoldable pub put_remote_shard :
    Fate → Str → Str → ℕ → ObjectMeta → List ℕ → Option ℕ → Disk → Option CallError × Disk
put_remote_shard fate bucket key i meta bs size =
    call fate (handle_ec_put_shard bucket key i meta (ok bs) size)
      (handle_ec_put_shard bucket key i meta (err io_error) size)

unfoldable pub remove_remote_replica : Fate → Str → Str → Disk → Option CallError × Disk
remove_remote_replica fate bucket key =
    call fate (handle_ec_remove_replica bucket key) (handle_ec_remove_replica bucket key)

unfoldable pub update_remote_meta : Fate → Str → Str → ObjectMeta → Disk → Option CallError × Disk
update_remote_meta fate bucket key meta =
    call fate (handle_ec_update_meta bucket key meta) bad_json_body
