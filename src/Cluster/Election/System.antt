-- ===== src/Cluster/Election/System.antt =====
-- Several nodes that contend for the lease, as a step relation. The API server takes a PUT only with
-- the version that it holds, and a POST only while there is no lease; nobody deletes the lease. All
-- nodes read one clock. The answer to a request that was carried out is processed within the guard
-- window, or not at all.
use micros.Base.{ℕ, suc, ◌+◌, ◌≤◌, Str, str_eq, ◌≡◌, Option, none, some, if◌then◌else◌}
use micros.Cluster.Election.{
  Lease, LeaseSpec, K8sManager, Fetched, found, not_found, Plan, give_up, create, replace, follow,
  plan, follow_leader, become_leader, guard_window,
}

-- A node between its requests, before the server has taken one, and before the answer.
pub data Request : Type 0 where
  resting : Request
  creating : LeaseSpec → Request
  replacing : Lease → LeaseSpec → Request
  accepted : LeaseSpec → Request

pub record World : Type 0 where
  pub clock : ℕ
  pub server : Option Lease
  pub nodes : Str → K8sManager
  pub requests : Str → Request

unfoldable pub update : {A : Type 0} → Str → A → (Str → A) → Str → A
update i x f j = if str_eq i j then x else f j

abbrev pub fetched : Option Lease → Fetched
fetched none = not_found
fetched (some l) = found l

-- What a node does with its plan.
unfoldable pub carry_out : Str → Plan → World → World
unfolding update
carry_out i give_up w = w
carry_out i (create s) w = record w { requests = update i (creating s) w.requests }
carry_out i (replace l s) w = record w { requests = update i (replacing l s) w.requests }
carry_out i (follow holder) w = record w {
  nodes = update i (follow_leader holder (w.nodes i)) w.nodes;
}

abbrev pub rest : Str → World → World
rest i w = record w { requests = update i resting w.requests }

pub data Step (duration : ℕ) (fresh : Str → K8sManager) : World → World → Type 0 where
  ticks : (w : World) (n : ℕ) → Step duration fresh w (record w { clock = w.clock + n })
  plans :
      (w : World) (i : Str)
      → w.requests i ≡ resting
      → Step duration fresh w (carry_out i (plan duration w.clock (w.nodes i) (fetched w.server)) w)
  posts :
      (w : World) (i : Str) (s : LeaseSpec)
      → w.requests i ≡ creating s
      → w.server ≡ none
      → Step duration fresh w (record w {
        server = some (record { version = 1; spec = s });
        requests = update i (accepted s) w.requests;
      })
  puts :
      (w : World) (i : Str) (l now : Lease) (s : LeaseSpec)
      → w.requests i ≡ replacing l s
      → w.server ≡ some now
      → now.version ≡ l.version
      → Step duration fresh w (record w {
        server = some (record { version = suc now.version; spec = s });
        requests = update i (accepted s) w.requests;
      })
  fails : (w : World) (i : Str) → Step duration fresh w (rest i w)
  learns :
      (w : World) (i : Str) (s : LeaseSpec)
      → w.requests i ≡ accepted s
      → w.clock ≤ s.renew_time + guard_window
      → Step duration fresh w
          (rest i (record w { nodes = update i (become_leader w.clock (w.nodes i)) w.nodes }))
  restarts :
      (w : World) (i : Str)
      → Step duration fresh w (rest i (record w { nodes = update i (fresh i) w.nodes }))

-- The worlds that are reached from the start, where no node leads and there is no lease.
pub data Reach (duration : ℕ) (fresh : Str → K8sManager) : World → Type 0 where
  here :
      (t : ℕ)
      → Reach duration fresh
          (record { clock = t; server = none; nodes = fresh; requests = λ i. resting })
  next : {w v : World} → Reach duration fresh w → Step duration fresh w v → Reach duration fresh v
