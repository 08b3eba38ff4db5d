-- ===== src/Replication/Parts.antt =====
-- One follower's part in the prepare and commit phases of a PUT.
use micros.Base.{
  ℕ, Str, str_eq, Bool, true, false, ◌≡◌, refl, sym, ap, ◌∙◌, subst, none, some, List, [], ◌∷◌,
  Result, ok, err, arith, if◌then◌else◌, inl, inr, Bool-cases, length,
}
use micros.Domain.Object.{ObjectMeta, Transaction, op_put}
use micros.Disk.{Disk, Error, bytes, meta_json}
use micros.Disk.Post.{Holds}
use micros.Storage.Layout.{staging_dir, data_path, meta_path}
use micros.Storage.Transactions.{Hashes, stage_object, commit_transaction, computed_meta}
use micros.Storage.Staging.{staged_files, stage_object-put}
use micros.Storage.Commit.{AreApart, commit_transaction-put}
use micros.Peers.{
  Fate, PrepareRequest, call, check_status, prepare, commit, handle_prepare, handle_commit,
  received, answer_of, prepare_request,
}

-- A call without an error was answered with 200, and changed what the handler changed.
pub call-none :
    (fate : Fate) (whole cut_off : Disk → ℕ × Disk) (d : Disk)
    → (call fate whole cut_off d).0 ≡ none
    → ((whole d).0 ≡ 200) × ((call fate whole cut_off d).1 ≡ (whole d).1)
unfolding call check_status
call-none Fate.lost whole cut_off d h = cc
call-none Fate.broken whole cut_off d h = cc
call-none Fate.reply_lost whole cut_off d h = cc
call-none Fate.delivered whole cut_off d h = (ground (arith, h), refl)

pub answer_of-ok : {A : Type 0} (r : Result Error A) → answer_of r ≡ 200 → (a : A) × (r ≡ ok a)
unfolding answer_of
answer_of-ok (ok a) h = (a, refl)
answer_of-ok (err e) h = absurd (omega arith)

-- A staged PUT, with whatever time the node logged.
abbrev pub Staged : Str → Str → Str → ObjectMeta → List ℕ → Disk → Type 0
Staged tx_id bucket key meta bs d =
    (tx : Transaction) × (tx.operation ≡ op_put)
    × Holds (staged_files (staging_dir tx_id) tx meta bs) d

-- An object in place.
abbrev pub Stored : Str → Str → ObjectMeta → List ℕ → Disk → Type 0
Stored bucket key meta bs =
    Holds ((data_path bucket key, bytes bs) ∷ (meta_path bucket key, meta_json meta) ∷ [])

etag_twice :
    (e m : Str)
    → (let once : Str = if str_eq m [] then e else m in if str_eq once [] then e else once)
      ≡ (if str_eq m [] then e else m)
etag_twice e m = elim (Bool-cases (str_eq m [])) [
  | inl empty ↦ rw empty (again (str_eq e []))
  | inr full ↦ rw (full, full) refl
]
  where
    again : (b : Bool) → (if b then e else e) ≡ e
    again true = refl
    again false = refl

-- Staging again what was staged computes the same metadata.
computed_meta-computed_meta :
    (h : Hashes) (meta : ObjectMeta) (bs : List ℕ)
    → computed_meta h (computed_meta h meta bs) bs ≡ computed_meta h meta bs
unfolding computed_meta
computed_meta-computed_meta h meta bs =
    ap (λ e. record meta { content_length = length bs; crc32 = h.crc32 bs; etag = e })
      (etag_twice (h.etag bs) meta.etag)

pub guard_off :
    (b : Bool) (d : Disk) (x : ℕ × Disk)
    → (let r : ℕ × Disk = if b then (400, d) else x in r.0) ≡ 200
    → (let r : ℕ × Disk = if b then (400, d) else x in r) ≡ x
guard_off true d x h = absurd (omega arith)
guard_off false d x h = refl

-- The bytes that arrived are staged, with the metadata computed from them.
handle_prepare-Staged :
    (h : Hashes) (now : ℕ) (tx : Transaction) (meta : ObjectMeta) (bs : List ℕ) (d : Disk)
    → tx.operation ≡ op_put
    → (handle_prepare h now (prepare_request tx meta (ok bs)) d).0 ≡ 200
    → Staged tx.id tx.bucket tx.key
        (computed_meta h meta bs)
        bs
        (handle_prepare h now (prepare_request tx meta (ok bs)) d).1
unfolding handle_prepare
handle_prepare-Staged h now tx meta bs d op e =
    let r : PrepareRequest = prepare_request tx meta (ok bs) in
    let g = guard_off _ d _ e in
    let (a, fine) =
      answer_of-ok
        (stage_object h tx.id (ok bs) (some meta.content_length) meta (received r now) d).0
        (ap (λ x. x.0) (sym g) ∙ e) in
    let (_, held) =
      stage_object-put h tx.id bs (some meta.content_length) meta a (received r now) d op fine in
    subst (λ x. Staged tx.id tx.bucket tx.key (computed_meta h meta bs) bs x.1) (sym g)
      (received r now, op, held)

pub prepare-Received :
    (fate : Fate) (h : Hashes) (now : ℕ) (tx : Transaction) (meta : ObjectMeta) (bs : List ℕ)
    (d : Disk)
    → tx.operation ≡ op_put
    → (prepare fate h now tx meta (ok bs) d).0 ≡ none
    → Staged tx.id tx.bucket tx.key
        (computed_meta h meta bs)
        bs
        (prepare fate h now tx meta (ok bs) d).1
unfolding prepare
prepare-Received fate h now tx meta bs d op e =
    let (status, same) = call-none fate _ _ d e in
    subst (Staged tx.id tx.bucket tx.key (computed_meta h meta bs) bs) (sym same)
      (handle_prepare-Staged h now tx meta bs d op status)

-- What the leader has staged already is staged as it is.
pub prepare-Staged :
    (fate : Fate) (h : Hashes) (now : ℕ) (tx : Transaction) (meta : ObjectMeta) (bs : List ℕ)
    (d : Disk)
    → tx.operation ≡ op_put
    → (prepare fate h now tx (computed_meta h meta bs) (ok bs) d).0 ≡ none
    → Staged tx.id tx.bucket tx.key
        (computed_meta h meta bs)
        bs
        (prepare fate h now tx (computed_meta h meta bs) (ok bs) d).1
prepare-Staged fate h now tx meta bs d op e =
    let m : ObjectMeta = computed_meta h meta bs in
    subst (λ x. Staged tx.id tx.bucket tx.key x bs (prepare fate h now tx m (ok bs) d).1)
      (computed_meta-computed_meta h meta bs) (prepare-Received fate h now tx m bs d op e)

pub commit-Stored :
    (fate : Fate) (tx_id bucket key : Str) (meta : ObjectMeta) (bs : List ℕ) (d : Disk)
    → AreApart (staging_dir tx_id) bucket key
    → Staged tx_id bucket key meta bs d
    → (commit fate tx_id bucket key d).0 ≡ none
    → Stored bucket key meta bs (commit fate tx_id bucket key d).1
unfolding commit handle_commit
commit-Stored fate tx_id bucket key meta bs d apart (tx, op, held) e =
    let (status, same) = call-none fate _ _ d e in
    let (a, fine) = answer_of-ok (commit_transaction tx_id bucket key d).0 status in
    let (_, stored, info) =
      commit_transaction-put tx_id bucket key tx (bytes bs) meta d apart op held.0 held.1.0
        held.1.1.0 a fine in
    subst (Stored bucket key meta bs) (sym same) (stored, (info, tt))
