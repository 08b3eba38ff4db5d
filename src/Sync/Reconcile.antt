-- ===== src/Sync/Reconcile.antt =====
-- The loop of a sync pushes what the follower lacks, and what comes after leaves that in place.
use micros.Base.{
  ℕ, Str, str_eq, str_eq_iff, Bool, true, false, ◌≡◌, refl, sym, ap, ◌∙◌, subst, Option, none, some,
  List, [], ◌∷◌, if◌then◌else◌,
}
use micros.Base.Assoc.{lookup, str_Eq}
use micros.Domain.Object.{ObjectMeta, is_ec}
use micros.Disk.{Disk}
use micros.Disk.Frame.{SameAt}
use micros.Disk.Paths.{FilePath}
use micros.Storage.Layout.{staging_dir, data_path, meta_path}
use micros.Storage.Transactions.{computed_meta}
use micros.Storage.Commit.{AreApart}
use micros.Replication.Parts.{Stored}
use micros.Sync.{KeyInfo, path_of, is_outdated, extraneous}
use micros.Sync.Follower.{Setup, Pair, SyncError, push_object, push_all, unless_failed, reconcile}
use micros.Sync.Names.{others, Nodup, unless_failed-none, unless_failed_kept}
use micros.Sync.Reads.{Reading, Frame-source}
use micros.Sync.Pushes.{
  Clear, delete_extraneous_kept, KeptBy, pushed_files, push_object-Stored, push_object_kept,
}

module _ (s : Setup) (fm : List (Str × KeyInfo)) where
  -- One round of the loop.
  abbrev round : KeyInfo → Str → Pair → Option SyncError × Pair
  round k p w = if is_outdated (lookup p fm) k then push_object s k w else (none, w)

  round_kept :
      (b : Bool) (k : KeyInfo) (w : Pair) (x : FilePath)
      → pushed_files s k x ≡ false
      → SameAt x w.follower (if b then push_object s k w else (none, w)).1.follower
  round_kept true k w x h = push_object_kept s k w x h
  round_kept false k w x h = refl

  push_all_kept :
      (p : Str) (entries : List (Str × KeyInfo)) (w : Pair) (x : FilePath)
      → lookup p entries ≡ none
      → KeptBy s x (others p entries)
      → SameAt x w.follower (push_all s fm entries w).1.follower
  unfolding push_all lookup
  push_all_kept p [] w x h k = refl
  push_all_kept p ((q, j) ∷ rest) w x h k = step (str_eq q p) h k (push_all_kept p rest)
    where
      after : Pair → Option SyncError × Pair
      after = push_all s fm rest

      step :
          (b : Bool)
          → (if b then some j else lookup p rest) ≡ none
          → KeptBy s x (if b then others p rest else j ∷ others p rest)
          → ((v : Pair) (y : FilePath)
              → lookup p rest ≡ none
              → KeptBy s y (others p rest)
              → SameAt y v.follower (after v).1.follower)
          → SameAt x w.follower (unless_failed (round j q w) after).1.follower
      step true g c more = cc g
      step false g c more =
          unless_failed_kept _ after x w.follower
            (round_kept (is_outdated (lookup q fm) j) j w x c.0) (λ v. more v x g c.1)

  round_leader :
      (b : Bool) (k : KeyInfo) (w : Pair) (x : FilePath)
      → Reading s
      → SameAt x w.leader (if b then push_object s k w else (none, w)).1.leader
  unfolding push_object
  round_leader true k w x h = (Frame-source s.ec_reader k h).at w.leader x refl
  round_leader false k w x h = refl

  module _ (p : Str) (k : KeyInfo) (bs : List ℕ) (m : ObjectMeta) (reading : Reading s)
      (apart : AreApart (staging_dir (s.tx_id (path_of k))) k.bucket k.key)
      (replica : is_ec m ≡ false) (outdated : is_outdated (lookup p fm) k ≡ true) where
    abbrev Has : Disk → Type 0
    Has = Stored k.bucket k.key m bs

    abbrev pub Gets : Disk → Type 0
    Gets = Stored k.bucket k.key (computed_meta s.hashes m bs) bs

    Gets-same :
        (d d' : Disk)
        → SameAt (data_path k.bucket k.key) d d'
        → SameAt (meta_path k.bucket k.key) d d'
        → Gets d
        → Gets d'
    Gets-same d d' e f g = (e ∙ g.0, (f ∙ g.1.0, tt))

    pushed : (w : Pair) → Has w.leader → (round k p w).0 ≡ none → Gets (round k p w).1.follower
    pushed w has = rw outdated (push_object-Stored s k bs m w apart replica has)

    head :
        (q : Str) (j : KeyInfo) (rest : List (Str × KeyInfo)) (w : Pair)
        → ◌≡◌ {A = Str × KeyInfo} (q, j) (p, k)
        → lookup q rest ≡ none
        → Clear s k (others p rest)
        → Has w.leader
        → (unless_failed (round j q w) (push_all s fm rest)).0 ≡ none
        → Gets (unless_failed (round j q w) (push_all s fm rest)).1.follower
    head q j rest w here fresh clear has e =
        let after : Pair → Option SyncError × Pair = push_all s fm rest in
        let gone : lookup p rest ≡ none = subst (λ z. lookup z.0 rest ≡ none) here fresh in
        subst
          (λ z.
            (unless_failed (round z.1 z.0 w) after).0 ≡ none
            → Gets (unless_failed (round z.1 z.0 w) after).1.follower)
          (sym here)
          (λ f.
            let (fine, same) = unless_failed-none (round k p w) after f in
            subst (λ z. Gets z.1.follower) (sym same)
              (Gets-same _ _
                (push_all_kept p rest (round k p w).1 (data_path k.bucket k.key) gone clear.0)
                (push_all_kept p rest (round k p w).1 (meta_path k.bucket k.key) gone clear.1)
                (pushed w has fine)))
          e

    round-Has : (j : KeyInfo) (q : Str) (w : Pair) → Has w.leader → Has (round j q w).1.leader
    round-Has j q w has =
        let b : Bool = is_outdated (lookup q fm) j in
        (
          round_leader b j w (data_path k.bucket k.key) reading ∙ has.0,
          (round_leader b j w (meta_path k.bucket k.key) reading ∙ has.1.0, tt),
        )

    push_all-Stored :
        (entries : List (Str × KeyInfo)) (w : Pair)
        → Nodup entries
        → lookup p entries ≡ some k
        → Clear s k (others p entries)
        → Has w.leader
        → (push_all s fm entries w).0 ≡ none
        → Gets (push_all s fm entries w).1.follower
    unfolding push_all lookup
    push_all-Stored [] w nodup h clear has e = cc
    push_all-Stored ((q, j) ∷ rest) w nodup h clear has e =
        step (str_eq q p) refl h clear (push_all-Stored rest (round j q w).1 nodup.1)
      where
        after : Pair → Option SyncError × Pair
        after = push_all s fm rest

        step :
            (b : Bool)
            → str_eq q p ≡ b
            → (if b then some j else lookup p rest) ≡ some k
            → Clear s k (if b then others p rest else j ∷ others p rest)
            → (lookup p rest ≡ some k
                → Clear s k (others p rest)
                → Has (round j q w).1.leader
                → (after (round j q w).1).0 ≡ none
                → Gets (after (round j q w).1).1.follower)
            → Gets (unless_failed (round j q w) after).1.follower
        step true here g c later = head q j rest w (cc (g, (str_eq_iff q p).0 here)) nodup.0 c has e
        step false there g c later =
            let (fine, same) = unless_failed-none (round j q w) after e in
            subst (λ z. Gets z.1.follower) (sym same)
              (later g (c.0.1, c.1.1) (round-Has j q w has) (ap (λ z. z.0) (sym same) ∙ e))

    -- From the two maps on.
    pub reconcile-Stored :
        (lm : List (Str × KeyInfo)) (w : Pair)
        → Nodup lm
        → lookup p lm ≡ some k
        → Clear s k (others p lm)
        → Clear s k (extraneous lm fm)
        → Has w.leader
        → (reconcile s lm fm w).0 ≡ none
        → Gets (reconcile s lm fm w).1.follower
    unfolding reconcile
    reconcile-Stored lm w nodup h clear spared has e =
        let (fine, same) = unless_failed-none (push_all s fm lm w) _ e in
        subst (λ z. Gets z.1.follower) (sym same)
          (Gets-same _ _
            (delete_extraneous_kept s (extraneous lm fm) _ (data_path k.bucket k.key) spared.0)
            (delete_extraneous_kept s (extraneous lm fm) _ (meta_path k.bucket k.key) spared.1)
            (push_all-Stored lm w nodup h clear has fine))
