-- ===== src/Peers/Delivered.antt =====
-- What an answered request has done on the node that it was sent to.
use micros.Base.{
  ℕ, Str, Bool, true, false, ◌≡◌, sym, ap, ◌∙◌, subst, Option, none, some, refl, List, [], Result,
  ok, err, if◌then◌else◌,
}
use micros.Domain.Object.{ObjectMeta}
use micros.Disk.{Disk, Entry, file, bytes, file_at, Error}
use micros.Disk.Reading.{stat-Post}
use micros.Storage.Transactions.{as_bytes}
use micros.Storage.Staging.{as_bytes-Post}
use micros.Disk.Paths.{path_eq}
use micros.Disk.Post.{Holds, Post, Post-bind, Post-pure}
use micros.Storage.Layout.{ec_shard_path, meta_path}
use micros.Storage.Moves.{read_meta-Post}
use micros.Storage.Objects.{get_object_meta}
use micros.Storage.Shards.{put_ec_shard}
use micros.Storage.Shards.Written.{shard_files, put_shard-Post}
use micros.Replication.Parts.{call-none, answer_of-ok, guard_off}
use micros.Peers.{Fate}
use micros.Peers.Shards.{
  answered, fetch, found, is_unnamed, handle_ec_meta, handle_ec_shard, handle_ec_put_shard, written,
  copy_out, send_ec_shard, get_remote_meta, get_remote_shard, put_remote_shard,
}

pub answered_ok :
    {A : Type 0} (fate : Fate) (handler : Disk → Result ℕ A × Disk) (d : Disk) (a : A)
    → (fetch fate handler d).0 ≡ ok a
    → (handler d).0 ≡ ok a
unfolding fetch
answered_ok Fate.lost handler d a h = cc
answered_ok Fate.broken handler d a h = cc
answered_ok Fate.reply_lost handler d a h = cc
answered_ok {A} Fate.delivered handler d a h = same (handler d).0 (handler d).1 h
  where
    same : (r : Result ℕ A) (d' : Disk) → (answered (r, d')).0 ≡ ok a → r ≡ ok a
    same (ok b) d' g = cc g
    same (err s) d' g = cc g

-- A handler behind the guard on the names, whose answer has a body.
pub read_ok :
    {A : Type 0} (b : Bool) (r : Result Error A) (d d' : Disk) (a : A)
    → (let x : Result ℕ A × Disk = if b then (err 400, d) else found (r, d') in x.0) ≡ ok a
    → r ≡ ok a
read_ok true r d d' a h = cc
read_ok false (ok x) d d' a h = cc h
read_ok false (err e) d d' a h = cc h

copy_out_found :
    (copied : Option ℕ) (bs : List ℕ) (e : Entry) (d : Disk)
    → e ≡ file (bytes bs)
    → Post (λ out _. out ≡ written copied bs) (copy_out copied e d)
unfolding copy_out
copy_out_found copied bs e d same =
    subst (λ x. Post (λ out _. out ≡ written copied bs) (copy_out copied x d)) (sym same)
      (Post-bind (as_bytes (bytes bs)) _ d (as_bytes-Post (bytes bs) bs d refl)
        λ out d1 h. Post-pure (written copied out) d1 (ap (written copied) h))

sent_shard :
    (copied : Option ℕ) (bucket key : Str) (i : ℕ) (bs : List ℕ) (d : Disk)
    → file_at d (ec_shard_path bucket key i) ≡ some (bytes bs)
    → Post (λ out _. out ≡ written copied bs) (send_ec_shard copied bucket key i d)
unfolding send_ec_shard
sent_shard copied bucket key i bs d h =
    Post-bind _ _ d (stat-Post (ec_shard_path bucket key i) (bytes bs) d h)
      λ e d1 same. copy_out_found copied bs e d1 same

-- What a request for a shard brings, if it succeeds.
pub got_remote_shard :
    (fate : Fate) (copied : Option ℕ) (bucket key : Str) (i : ℕ) (bs out : List ℕ) (d : Disk)
    → file_at d (ec_shard_path bucket key i) ≡ some (bytes bs)
    → (get_remote_shard fate copied bucket key i d).0 ≡ ok out
    → out ≡ written copied bs
unfolding get_remote_shard handle_ec_shard
got_remote_shard fate copied bucket key i bs out d h e =
    (sent_shard copied bucket key i bs d h).at out (
      read_ok (is_unnamed bucket key) (send_ec_shard copied bucket key i d).0 d _ out
        (answered_ok fate (handle_ec_shard copied bucket key i) d out e))

module _ (bucket key : Str) (i : ℕ) (bs : List ℕ) (size : Option ℕ) (meta : ObjectMeta)
    (apart : path_eq (meta_path bucket key) (ec_shard_path bucket key i) ≡ false) where
  handle_ec_put_shard-Holds :
      (d : Disk)
      → (handle_ec_put_shard bucket key i meta (ok bs) size d).0 ≡ 200
      → Holds
          (shard_files bucket key i bs meta)
          (handle_ec_put_shard bucket key i meta (ok bs) size d).1
  unfolding handle_ec_put_shard
  handle_ec_put_shard-Holds d e =
      let g = guard_off (is_unnamed bucket key) d _ e in
      let (_, fine) =
        answer_of-ok (put_ec_shard bucket key i (ok bs) size meta d).0
          (ap (λ x. x.0) (sym g) ∙ e) in
      subst (λ x. Holds (shard_files bucket key i bs meta) x.1) (sym g)
        ((put_shard-Post bucket key i bs size meta d apart).at _ fine)

  pub put_remote_shard-Holds :
      (fate : Fate) (d : Disk)
      → (put_remote_shard fate bucket key i meta bs size d).0 ≡ none
      → Holds
          (shard_files bucket key i bs meta)
          (put_remote_shard fate bucket key i meta bs size d).1
  unfolding put_remote_shard
  put_remote_shard-Holds fate d e =
      let (status, same) = call-none fate _ _ d e in
      subst (Holds (shard_files bucket key i bs meta)) (sym same)
        (handle_ec_put_shard-Holds d status)

  get_remote_shard-Holds :
      (fate : Fate) (copied : Option ℕ) (d : Disk) (out : List ℕ)
      → Holds (shard_files bucket key i bs meta) d
      → (get_remote_shard fate copied bucket key i d).0 ≡ ok out
      → out ≡ written copied bs
  get_remote_shard-Holds fate copied d out h e =
      got_remote_shard fate copied bucket key i bs out d h.1.0 e

  pub get_remote_meta-Holds :
      (fate : Fate) (d : Disk) (m : ObjectMeta)
      → Holds (shard_files bucket key i bs meta) d
      → (get_remote_meta fate bucket key d).0 ≡ ok m
      → m ≡ meta
  unfolding get_remote_meta handle_ec_meta get_object_meta
  get_remote_meta-Holds fate d m h e =
      ((read_meta-Post (meta_path bucket key) meta [] d (h.0, tt)).at m (
        read_ok (is_unnamed bucket key) (get_object_meta bucket key d).0 d _ m
          (answered_ok fate (handle_ec_meta bucket key) d m e))).0

-- After a shard was sent to a node without an error, a request for it that succeeds brings its bytes,
-- or the first n of them where the node's copying of the file broke off after n bytes; and a request
-- for the object's metadata that succeeds brings what was sent along. The shard's file and the
-- metadata's are different.
pub get_remote_shard-put_remote_shard :
    (f g h : Fate) (copied : Option ℕ) (bucket key : Str) (i : ℕ) (bs out : List ℕ)
    (size : Option ℕ) (meta m : ObjectMeta) (d : Disk)
    → path_eq (meta_path bucket key) (ec_shard_path bucket key i) ≡ false
    → (put_remote_shard f bucket key i meta bs size d).0 ≡ none
    → (get_remote_shard g copied bucket key i (put_remote_shard f bucket key i meta bs size d).1).0
      ≡ ok out
    → (get_remote_meta h bucket key (put_remote_shard f bucket key i meta bs size d).1).0 ≡ ok m
    → (out ≡ written copied bs) × (m ≡ meta)
get_remote_shard-put_remote_shard f g h copied bucket key i bs out size meta m d apart sent shard
      info =
    let held = put_remote_shard-Holds bucket key i bs size meta apart f d sent in
    (
      get_remote_shard-Holds bucket key i bs size meta apart g copied _ out held shard,
      get_remote_meta-Holds bucket key i bs size meta apart h _ m held info,
    )
