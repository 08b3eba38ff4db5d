-- ===== src/Service/Leases/Exclusion.antt =====
-- While a follower's lease runs, no write is admitted.
use micros.Base.{
  ℕ, ◌+◌, ◌≤◌, Str, str_eq, str_eq_iff, Bool, true, false, ◌≡◌, refl, ◌∙◌, inl, inr, Bool-cases,
  some, List, [], ◌∷◌, arith, if◌then◌else◌,
}
use micros.Base.Assoc.{lookup, insert, str_Eq, lookup-insert, lookup-erase}
use micros.Service.Leases.{
  Gate, lease_time, lease_name, start_sync_lease, heartbeat_sync_lease, end_sync_lease, is_fresh,
  has_fresh, without_expired, is_writes_blocked, Admission, admit_write, finish_write,
}

-- What may happen at the gate, with the time at which it does.
pub data Event : Type 0 where
  starts beats : Str → ℕ → Event
  ends : Str → Event
  asks : ℕ → Event
  finishes : Event

unfoldable pub step : Event → Gate → Gate
step (starts id now) g = start_sync_lease id now g
step (beats id now) g = heartbeat_sync_lease id now g
step (ends id) g = end_sync_lease id g
step (asks now) g = (admit_write now g).1
step finishes g = finish_write g

unfoldable pub run : List Event → Gate → Gate
unfolding step
run [] g = g
run (e ∷ es) g = run es (step e g)

-- Nothing ends the lease of the name, and the clock stays between t and the lease's end.
abbrev Within : Str → ℕ → Event → Type 0
Within name t (starts id now) = t ≤ now
Within name t (beats id now) = t ≤ now
Within name t (ends id) = str_eq (lease_name id) name ≡ false
Within name t (asks now) = now ≤ t + lease_time
Within name t finishes = Unit {0}

abbrev pub AllWithin : Str → ℕ → List Event → Type 0
AllWithin name t [] = Unit {0}
AllWithin name t (e ∷ es) = Within name t e × AllWithin name t es

-- The name holds a lease that was renewed at t or later, and no write is under way.
abbrev pub Held : Str → ℕ → Gate → Type 0
Held name t g = ((u : ℕ) × (lookup name g.syncing_nodes ≡ some u) × (t ≤ u)) × (g.active_writes ≡ 0)

lookup-without_expired :
    (now : ℕ) (name : Str) (u : ℕ) (ns : List (Str × ℕ))
    → lookup name ns ≡ some u
    → is_fresh now u ≡ true
    → lookup name (without_expired now ns) ≡ some u
unfolding without_expired lookup
lookup-without_expired now name u [] h f = h
lookup-without_expired now name u ((id, last) ∷ rest) h f =
    ground (arith, lookup-without_expired now name u rest, str_eq_iff id name)

has_fresh-lookup :
    (now : ℕ) (name : Str) (u : ℕ) (ns : List (Str × ℕ))
    → lookup name ns ≡ some u
    → is_fresh now u ≡ true
    → has_fresh now ns ≡ true
unfolding has_fresh lookup
has_fresh-lookup now name u [] h f = ground arith
has_fresh-lookup now name u ((id, last) ∷ rest) h f =
    ground (arith, has_fresh-lookup now name u rest, str_eq_iff id name)

same_gate :
    (b : Bool) (x y : Admission) (g : Gate)
    → (let r : Admission × Gate = if b then (x, g) else (y, g) in r.1) ≡ g
same_gate true x y g = refl
same_gate false x y g = refl

-- A gate at which a fresh lease is found turns the write away and keeps the lease.
turned_away :
    (now : ℕ) (name : Str) (u : ℕ) (g : Gate)
    → lookup name g.syncing_nodes ≡ some u
    → is_fresh now u ≡ true
    → (lookup name (admit_write now g).1.syncing_nodes ≡ some u)
      × ((admit_write now g).1.active_writes ≡ g.active_writes)
unfolding admit_write is_writes_blocked
turned_away now name u g h f =
    let blocked = has_fresh-lookup now name u g.syncing_nodes h f in
    let kept = lookup-without_expired now name u g.syncing_nodes h f in
    rw (blocked, same_gate) (kept, refl)

fresh_until : (now t u : ℕ) → now ≤ t + lease_time → t ≤ u → is_fresh now u ≡ true
unfolding is_fresh
fresh_until now t u h k = ground arith

-- Another renewal at t or later leaves the name with one.
renewed :
    (name other : Str) (t now u : ℕ) (ns : List (Str × ℕ))
    → t ≤ now
    → lookup name ns ≡ some u
    → t ≤ u
    → (v : ℕ) × (lookup name (insert other now ns) ≡ some v) × (t ≤ v)
renewed name other t now u ns w h le = elim (Bool-cases (str_eq other name)) [
  | inl same ↦ (now, rw (lookup-insert, same) refl, w)
  | inr apart ↦ (u, rw (lookup-insert, apart) h, le)
]

Held-step :
    (name : Str) (t : ℕ) (e : Event) (g : Gate)
    → Within name t e
    → Held name t g
    → Held name t (step e g)
unfolding step start_sync_lease heartbeat_sync_lease end_sync_lease finish_write
Held-step name t (starts id now) g w ((u, h, le), idle) =
    (renewed name (lease_name id) t now u g.syncing_nodes w h le, idle)
Held-step name t (beats id now) g w ((u, h, le), idle) =
    (renewed name (lease_name id) t now u g.syncing_nodes w h le, idle)
Held-step name t (ends id) g w ((u, h, le), idle) = ((u, rw (lookup-erase, w) h, le), idle)
Held-step name t (asks now) g w ((u, h, le), idle) =
    let (kept, same) = turned_away now name u g h (fresh_until now t u w le) in
    ((u, kept, le), same ∙ idle)
Held-step name t finishes g w ((u, h, le), idle) = ((u, h, le), ground arith)

-- Once a follower's sync lease is held and the running writes have drained, no write is under way at
-- any moment up to 30 seconds after t, the time of a renewal, whatever other leases start and end,
-- unless that follower's own lease is ended.
pub run-Held :
    (name : Str) (t : ℕ) (es : List Event) (g : Gate)
    → AllWithin name t es
    → Held name t g
    → Held name t (run es g)
unfolding run
run-Held name t [] g w h = h
run-Held name t (e ∷ es) g w h = run-Held name t es (step e g) w.1 (Held-step name t e g w.0 h)
