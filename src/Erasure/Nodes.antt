-- ===== src/Erasure/Nodes.antt =====
-- What the nodes hold of one erasure-coded object, and that the manager's requests to a node keep it.
use micros.Base.{
  ℕ, Str, str_eq, Bool, true, false, refl, Option, none, some, [], Result, ok, err, if◌then◌else◌,
}
use micros.Domain.Object.{ObjectMeta}
use micros.Codec.ReedSolomon.{Shard}
use micros.Disk.{Disk, Entry, dir, file, Error, io_error}
use micros.Disk.Frame.{SameAt, Frame, Frame-pure}
use micros.Disk.Calls.{nowhere, frame_rules}
use micros.Disk.Paths.{FilePath}
use micros.Storage.Layout.{meta_path}
use micros.Storage.Isolation.{Frame-read_meta, Frame-as_bytes}
use micros.Storage.Objects.{get_object_meta}
use micros.Storage.Shards.{get_ec_shard}
use micros.Peers.{Fate, CallError, call, check_status}
use micros.Peers.Shards.{
  fetch, answered, found, is_unnamed, handle_ec_meta, handle_ec_shard, handle_ec_put_shard,
  copy_out, send_ec_shard, get_remote_meta, get_remote_shard, put_remote_shard,
}
use micros.Replication.{World, set_remote}
use micros.Replication.Frames.{Kept, Kept-set_remote, Kept-local}
use micros.Erasure.{
  EcError, not_read, not_pushed, push_request, meta_request, shard_request, done, Links, Run,
  locally, telling, asking, put_at, meta_at, shard_at,
}
use micros.Erasure.Shares.{Coding, Shares, Whole, SameFiles, Shares-same, Whole-same}
use micros.Erasure.Puts.{Survives, put_ec_shard_after}

-- The leader's disk satisfies one predicate, and the other nodes' another.
pub record Everywhere (L R : Disk → Type 0) (w : World) : Type 0 where
  pub leader : L w.local
  pub followers : (a : Str) → R (w.remote a)

abbrev pub Intact : Coding → World → Type 0
Intact o = Everywhere (λ d. Shares o d × Whole o d) (Shares o)

-- No file changes on any node.
abbrev pub Unchanged : World → World → Type 0
Unchanged = Kept nowhere nowhere

pub Intact-Unchanged : (o : Coding) (w v : World) → Unchanged w v → Intact o w → Intact o v
Intact-Unchanged o w v k h =
    let here : SameFiles w.local v.local = λ p. k.local_kept p refl in
    record {
      leader = (
        Shares-same o w.local v.local here h.leader.0,
        Whole-same o w.local v.local here h.leader.1,
      );
      followers = λ a.
          Shares-same o (w.remote a) (v.remote a) (λ p. k.remote_kept a p refl) (h.followers a);
    }

if_holds : (P : Disk → Type 0) (b : Bool) (x y : Disk) → P x → P y → P (if b then x else y)
if_holds P true x y hx hy = hx
if_holds P false x y hx hy = hy

module _ {L R : Disk → Type 0} where
  pub Everywhere-local :
      (w : World) (d : Disk) → L d → Everywhere L R w → Everywhere L R (record w { local = d })
  Everywhere-local w d l h = record { leader = l; followers = h.followers }

  pub Everywhere-set_remote :
      (a : Str) (d : Disk) (w : World) → R d → Everywhere L R w → Everywhere L R (set_remote a d w)
  unfolding set_remote
  Everywhere-set_remote a d w r h = record {
    leader = h.leader;
    followers = λ b. if_holds R (str_eq a b) d (w.remote b) r (h.followers b);
  }

pub if_run :
    (P : World → Type 0) {A : Type 0} (b : Bool) (m n : Run A) (w : World)
    → P (m w).1
    → P (n w).1
    → P ((if b then m else n) w).1
if_run P true m n w hx hy = hx
if_run P false m n w hx hy = hy

pub telling_after :
    (P : World → Type 0) (wrap : CallError → EcError) (a : Str) (f : Disk → Option CallError × Disk)
    (w : World)
    → P (set_remote a (f (w.remote a)).1 w)
    → P (telling wrap a f w).1
unfolding telling
telling_after P wrap a f w h = either (f (w.remote a)).0 (set_remote a (f (w.remote a)).1 w) h
  where
    either : (r : Option CallError) (v : World) → P v → P (done wrap (r, v)).1
    either none v k = k
    either (some e) v k = k

pub if_disk :
    (P : Disk → Type 0) {A : Type 0} (b : Bool) (x y : A × Disk)
    → P x.1
    → P y.1
    → P (if b then x else y).1
if_disk P true x y hx hy = hx
if_disk P false x y hx hy = hy

call_after :
    (P : Disk → Type 0) (fate : Fate) (whole cut_off : Disk → ℕ × Disk) (d : Disk)
    → P d
    → P (whole d).1
    → P (cut_off d).1
    → P (call fate whole cut_off d).1
unfolding call check_status
call_after P Fate.lost whole cut_off d h hw hc = h
call_after P Fate.broken whole cut_off d h hw hc = hc
call_after P Fate.reply_lost whole cut_off d h hw hc = hw
call_after P Fate.delivered whole cut_off d h hw hc = hw

-- Sending a shard of the encoding.
module _ (o : Coding) (i : ℕ) (s : Shard) (meta : ObjectMeta) where
  put_remote_shard_after :
      (P : Disk → Type 0) (fate : Fate) (size : Option ℕ) (d : Disk)
      → Survives o i s meta P
      → P d
      → P (put_remote_shard fate o.bucket o.key i meta s size d).1
  unfolding put_remote_shard handle_ec_put_shard
  put_remote_shard_after P fate size d survives h =
      call_after P fate _ _ d h
        (if_disk P (is_unnamed o.bucket o.key) _ _ h
          (put_ec_shard_after o i s meta P survives (ok s) size d (λ b e. cc) h))
        (if_disk P (is_unnamed o.bucket o.key) _ _ h
          (put_ec_shard_after o i s meta P survives (err io_error) size d (λ b e. cc) h))

  pub put_at-Everywhere :
      (links : Links) {L R : Disk → Type 0} (a : Str) (size : ℕ) (w : World)
      → Survives o i s meta L
      → Survives o i s meta R
      → Everywhere L R w
      → Everywhere L R (put_at links o.bucket o.key a i s size meta w).1
  unfolding put_at locally
  put_at-Everywhere links {L} {R} a size w sl sr h =
      if_run (Everywhere L R) (str_eq a []) _ _ w
        (Everywhere-local w _
          (put_ec_shard_after o i s meta L sl (ok s) (some size) w.local (λ b e. cc) h.leader) h)
        (telling_after (Everywhere L R) (not_pushed i a) a _ w (
          Everywhere-set_remote a _ w
            (put_remote_shard_after R (links.fate (push_request i) a) (some size) (w.remote a) sr
              (h.followers a))
            h))

-- A node's disk; the leader is the node without an address.
abbrev pub disk_at : World → Str → Disk
disk_at w a = if str_eq a [] then w.local else w.remote a

pub Unchanged-disk_at :
    (w v : World) (a : Str) → Unchanged w v → SameFiles (disk_at w a) (disk_at v a)
Unchanged-disk_at w v a k p =
    both (str_eq a []) _ _ _ _ (k.local_kept p refl) (k.remote_kept a p refl)
  where
    both :
        (b : Bool) (d e f g : Disk)
        → SameAt p d f
        → SameAt p e g
        → SameAt p (if b then d else e) (if b then f else g)
    both true d e f g x y = x
    both false d e f g x y = y

pub Intact-disk_at : (o : Coding) (w : World) (a : Str) → Intact o w → Shares o (disk_at w a)
Intact-disk_at o w a h = if_holds (Shares o) (str_eq a []) _ _ h.leader.0 (h.followers a)

fetch_kept :
    {A : Type 0} (fate : Fate) (handler : Disk → Result ℕ A × Disk) (d : Disk) (p : FilePath)
    → SameAt p d (handler d).1
    → SameAt p d (fetch fate handler d).1
unfolding fetch
fetch_kept Fate.lost handler d p h = refl
fetch_kept Fate.broken handler d p h = h
fetch_kept Fate.reply_lost handler d p h = h
fetch_kept {A} Fate.delivered handler d p h = answer (handler d).0 (handler d).1 h
  where
    answer : (r : Result ℕ A) (e : Disk) → SameAt p d e → SameAt p d (answered (r, e)).1
    answer (ok a) e k = k
    answer (err n) e k = k

handled :
    {A : Type 0} (b : Bool) (r : Result Error A) (d e : Disk) (p : FilePath)
    → SameAt p d e
    → SameAt p d ((let x : Result ℕ A × Disk = if b then (err 400, d) else found (r, e) in x)).1
handled true r d e p h = refl
handled false (ok a) d e p h = h
handled false (err x) d e p h = h

module _ (bucket key : Str) where
  Frame-get_object_meta : Frame nowhere (get_object_meta bucket key)
  unfolding get_object_meta
  Frame-get_object_meta = Frame-read_meta (meta_path bucket key)

  get_remote_meta_kept :
      (fate : Fate) (d : Disk) → SameFiles d (get_remote_meta fate bucket key d).1
  unfolding get_remote_meta handle_ec_meta
  get_remote_meta_kept fate d p = fetch_kept fate (handle_ec_meta bucket key) d p (
      handled (is_unnamed bucket key) (get_object_meta bucket key d).0 d _ p
        (Frame-get_object_meta.at d p refl))

  Frame-get_ec_shard : (i : ℕ) → Frame nowhere (get_ec_shard bucket key i)
  unfolding get_ec_shard
  Frame-get_ec_shard i = search (frame_rules, Frame-as_bytes)

  Frame-copy_out : (copied : Option ℕ) (e : Entry) → Frame nowhere (copy_out copied e)
  unfolding copy_out
  Frame-copy_out copied dir = Frame-pure _
  Frame-copy_out copied (file c) = search (frame_rules, Frame-as_bytes)

  Frame-send_ec_shard :
      (copied : Option ℕ) (i : ℕ) → Frame nowhere (send_ec_shard copied bucket key i)
  unfolding send_ec_shard
  Frame-send_ec_shard copied i = search (frame_rules, Frame-copy_out)

  get_remote_shard_kept :
      (fate : Fate) (copied : Option ℕ) (i : ℕ) (d : Disk)
      → SameFiles d (get_remote_shard fate copied bucket key i d).1
  unfolding get_remote_shard handle_ec_shard
  get_remote_shard_kept fate copied i d p =
      fetch_kept fate (handle_ec_shard copied bucket key i) d p (
        handled (is_unnamed bucket key) (send_ec_shard copied bucket key i d).0 d _ p
          ((Frame-send_ec_shard copied i).at d p refl))

module _ (links : Links) (bucket key : Str) where
  pub Unchanged-meta_at : (a : Str) (w : World) → Unchanged w (meta_at links bucket key a w).1
  unfolding meta_at locally asking
  Unchanged-meta_at a w =
      if_run (Unchanged w) (str_eq a []) _ _ w
        (Kept-local _ w λ p q. (Frame-get_object_meta bucket key).at w.local p q)
        (Kept-set_remote a _ w
          λ p q. get_remote_meta_kept bucket key (links.fate meta_request a) (w.remote a) p)

  pub Unchanged-shard_at :
      (a : Str) (i : ℕ) (w : World) → Unchanged w (shard_at links bucket key a i w).1
  unfolding shard_at locally asking
  Unchanged-shard_at a i w =
      if_run (Unchanged w) (str_eq a []) _ _ w
        (Kept-local _ w λ p q. (Frame-get_ec_shard bucket key i).at w.local p q)
        (Kept-set_remote a _ w λ p q.
          get_remote_shard_kept bucket key (links.fate (shard_request i) a) (links.copied a i) i
            (w.remote a) p)

pub Unchanged-local_meta :
    (bucket key : Str) (w : World) → Unchanged w (locally not_read (get_object_meta bucket key) w).1
unfolding locally
Unchanged-local_meta bucket key w =
    Kept-local _ w λ p q. (Frame-get_object_meta bucket key).at w.local p q
