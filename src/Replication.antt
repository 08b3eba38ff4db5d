-- ===== src/Replication.antt =====
-- internal/replication/replicator.go: each phase of two-phase commit over the alive followers. The
-- goroutines of a phase work on different nodes; here they run in the order of the list.
pub mod Frames
pub mod Rounds
pub mod Parts
pub mod Phases
use micros.Base.{
  ℕ, Str, str_eq, Bool, true, false, Option, none, some, List, [], ◌∷◌, Result, ok, err,
  if◌then◌else◌,
}
use micros.Domain.Object.{ObjectMeta, Transaction, op_put}
use micros.Disk.{Disk, Error}
use micros.Storage.Transactions.{Hashes, get_staged_object}
use micros.Peers.{Fate, CallError, unreadable, prepare, commit, abort}
use micros.Cluster.Static.{Manager, alive_followers}

pub data Phase : Type 0 where
  preparing committing aborting : Phase

-- The leader's disk, each node's disk by its address, and the leader's view of the nodes.
pub record World : Type 0 where
  pub local : Disk
  pub remote : Str → Disk
  pub members : Manager

-- What the hash functions are, what becomes of each request, and the followers' clocks.
pub record Network : Type 0 where
  pub hashes : Hashes
  pub fate : Phase → Str → Fate
  pub clock : Str → ℕ

abbrev pub Errors : Type 0
Errors = List (Str × CallError)

unfoldable pub set_remote : Str → Disk → World → World
set_remote a d w = record w { remote = λ b. if str_eq a b then d else w.remote b }

-- What one goroutine leaves: the follower's disk, and an entry in the map if it failed.
abbrev pub at_remote : (Disk → Option CallError × Disk) → Str → World → Option CallError × World
at_remote f a w = let (e, d) = f (w.remote a) in (e, set_remote a d w)

unfoldable pub add_error : Str → Option CallError → Errors → Errors
add_error a none errs = errs
add_error a (some e) errs = (a, e) ∷ errs

unfoldable pub over : (Str → World → Option CallError × World) → List Str → World → Errors × World
unfolding add_error
over f [] w = ([], w)
over f (a ∷ rest) w =
    let (e, w1) = f a w in let (errs, w2) = over f rest w1 in (add_error a e errs, w2)

-- A follower gets the bytes that the leader has staged.
unfoldable pub send_staged :
    Network
    → Transaction
    → ObjectMeta
    → Str
    → Result Error (List ℕ)
    → World
    → Option CallError × World
unfolding set_remote
send_staged net tx meta a (err e) w = (some (unreadable e), w)
send_staged net tx meta a (ok bs) w =
    at_remote (prepare (net.fate Phase.preparing a) net.hashes (net.clock a) tx meta (ok bs)) a w

unfoldable pub prepare_one :
    Network → Transaction → ObjectMeta → Str → World → Option CallError × World
unfolding send_staged set_remote
prepare_one net tx meta a w =
    let (bytes, d) = get_staged_object tx.id w.local in
    if str_eq tx.operation op_put
    then send_staged net tx meta a bytes (record w { local = d })
    else at_remote (prepare (net.fate Phase.preparing a) net.hashes (net.clock a) tx meta (ok [])) a
        w

unfoldable pub prepare_all : Network → Transaction → ObjectMeta → World → Errors × World
prepare_all net tx meta w = over (prepare_one net tx meta) (alive_followers w.members) w

unfoldable pub commit_one : Network → Str → Str → Str → Str → World → Option CallError × World
unfolding set_remote
commit_one net tx_id bucket key a =
    at_remote (commit (net.fate Phase.committing a) tx_id bucket key) a

unfoldable pub commit_all : Network → Str → Str → Str → World → Errors × World
commit_all net tx_id bucket key w =
    over (commit_one net tx_id bucket key) (alive_followers w.members) w

unfoldable pub abort_one : Network → Str → Str → World → Option CallError × World
unfolding set_remote
abort_one net tx_id a = at_remote (abort (net.fate Phase.aborting a) tx_id) a

unfoldable pub abort_all : Network → Str → World → Errors × World
abort_all net tx_id w = over (abort_one net tx_id) (alive_followers w.members) w
