-- ===== src/Sync/Names.antt =====
-- The maps of a sync have distinct names, and what a loop does that stops at the first error.
use micros.Base.{
  inl, inr, arith, ◌≢◌, ◌⊎◌, Str, str_eq, str_eq_iff, Bool, true, false, ◌≡◌, refl, ◌∙◌, subst,
  Option, none, some, List, [], ◌∷◌, if◌then◌else◌,
}
use micros.Base.Assoc.{lookup, insert, lookup-insert, str_Eq}
use micros.Disk.{Disk}
use micros.Disk.Frame.{SameAt}
use micros.Disk.Paths.{FilePath}
use micros.Sync.{is_outdated, KeyInfo, path_of, by_path}
use micros.Sync.Follower.{Pair, SyncError, unless_failed}

-- The entries under other names.
abbrev pub others : Str → List (Str × KeyInfo) → List KeyInfo
others p [] = []
others p ((q, j) ∷ rest) = if str_eq q p then others p rest else j ∷ others p rest

-- No name occurs twice.
abbrev pub Nodup : List (Str × KeyInfo) → Type 0
Nodup [] = Unit {0}
Nodup ((q, j) ∷ rest) = (lookup q rest ≡ none) × Nodup rest

Nodup-insert : (q : Str) (j : KeyInfo) (m : List (Str × KeyInfo)) → Nodup m → Nodup (insert q j m)
unfolding insert
Nodup-insert q j [] h = (unfold lookup in refl, tt)
Nodup-insert q j ((p, i) ∷ m) h = pick (str_eq p q) refl (Nodup-insert q j m h.1)
  where
    fresh : str_eq p q ≡ false → lookup p (insert q j m) ≡ none
    fresh e = ground (arith, lookup-insert q p j m, str_eq_iff p q, str_eq_iff q p, h.0)

    pick :
        (b : Bool)
        → str_eq p q ≡ b
        → Nodup (insert q j m)
        → Nodup (if b then (q, j) ∷ m else (p, i) ∷ insert q j m)
    pick true e more = (subst (λ x. lookup x m ≡ none) ((str_eq_iff p q).0 e) h.0, h.1)
    pick false e more = (fresh e, more)

pub Nodup-by_path : (ks : List KeyInfo) (m : List (Str × KeyInfo)) → Nodup m → Nodup (by_path ks m)
unfolding by_path
Nodup-by_path [] m h = h
Nodup-by_path (k ∷ ks) m h = Nodup-by_path ks _ (Nodup-insert (path_of k) k m h)

pub unless_failed-none :
    (r : Option SyncError × Pair) (next : Pair → Option SyncError × Pair)
    → (unless_failed r next).0 ≡ none
    → (r.0 ≡ none) × (unless_failed r next ≡ next r.1)
unless_failed-none (none, w) next h = (refl, refl)
unless_failed-none (some e, w) next h = cc

pub unless_failed_kept :
    (r : Option SyncError × Pair) (next : Pair → Option SyncError × Pair) (p : FilePath) (d : Disk)
    → SameAt p d r.1.follower
    → ((w : Pair) → SameAt p w.follower (next w).1.follower)
    → SameAt p d (unless_failed r next).1.follower
unless_failed_kept (none, w) next p d h k = k w ∙ h
unless_failed_kept (some e, w) next p d h k = h

-- What the follower lists for an object is nothing, or differs in the checksum or the size.
abbrev pub Lacks : KeyInfo → Option KeyInfo → Type 0
Lacks k none = Unit {0}
Lacks k (some fk) = (fk.crc32 ≢ k.crc32) ⊎ (fk.size ≢ k.size)

pub is_outdated-Lacks : (k : KeyInfo) (o : Option KeyInfo) → Lacks k o → is_outdated o k ≡ true
unfolding is_outdated
is_outdated-Lacks k none h = refl
is_outdated-Lacks k (some fk) (inl crc) = ground arith
is_outdated-Lacks k (some fk) (inr size) = ground arith
