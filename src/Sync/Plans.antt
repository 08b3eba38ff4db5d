-- ===== src/Sync/Plans.antt =====
-- A follower that lists what the leader lists.
use micros.Base.{
  Str, str_eq, str_eq_iff, Bool, true, false, ◌≡◌, refl, none, some, List, [], ◌∷◌, arith,
  if◌then◌else◌,
}
use micros.Base.Assoc.{lookup, str_Eq}
use micros.Sync.{KeyInfo, by_path, is_outdated, extraneous}
use micros.Sync.Follower.{Setup, Pair, push_all, delete_extraneous, reconcile}
use micros.Sync.Names.{Nodup, Nodup-by_path}

-- Every entry is the one that its name finds.
abbrev Found : List (Str × KeyInfo) → List (Str × KeyInfo) → Type 0
Found fm [] = Unit {0}
Found fm ((q, j) ∷ rest) = (lookup q fm ≡ some j) × Found fm rest

Found-cons :
    (q : Str) (j : KeyInfo) (fm es : List (Str × KeyInfo))
    → lookup q es ≡ none
    → Found fm es
    → Found ((q, j) ∷ fm) es
unfolding lookup
Found-cons q j fm [] h f = tt
Found-cons q j fm ((r, i) ∷ es) h f = pick (str_eq r q) refl h (λ g. Found-cons q j fm es g f.1)
  where
    pick :
        (b : Bool)
        → str_eq r q ≡ b
        → (if b then some i else lookup q es) ≡ none
        → (lookup q es ≡ none → Found ((q, j) ∷ fm) es)
        → Found ((q, j) ∷ fm) ((r, i) ∷ es)
    pick true e g later = cc g
    pick false e g later = (ground (arith, f.0, str_eq_iff r q, str_eq_iff q r), later g)

Found-self : (m : List (Str × KeyInfo)) → Nodup m → Found m m
Found-self [] h = tt
Found-self ((q, j) ∷ m) h =
    (unfold lookup in ground (arith, str_eq_iff q q), Found-cons q j m m h.0 (Found-self m h.1))

is_outdated_self : (k : KeyInfo) → is_outdated (some k) k ≡ false
unfolding is_outdated
is_outdated_self k = ground arith

push_all-Found :
    (s : Setup) (fm es : List (Str × KeyInfo)) (w : Pair)
    → Found fm es
    → push_all s fm es w ≡ (none, w)
unfolding push_all
push_all-Found s fm [] w f = refl
push_all-Found s fm ((q, j) ∷ es) w f = rw (f.0, is_outdated_self j) (push_all-Found s fm es w f.1)

extraneous-Found : (lm es : List (Str × KeyInfo)) → Found lm es → extraneous lm es ≡ []
unfolding extraneous
extraneous-Found lm [] f = refl
extraneous-Found lm ((q, j) ∷ es) f = rw (f.0, extraneous) (extraneous-Found lm es f.1)

-- A follower that lists the keys that the leader lists is sent nothing, and both disks stay as they are.
pub reconcile-by_path :
    (s : Setup) (ks : List KeyInfo) (w : Pair)
    → reconcile s (by_path ks []) (by_path ks []) w ≡ (none, w)
unfolding reconcile delete_extraneous
reconcile-by_path s ks w =
    let f : Found (by_path ks []) (by_path ks []) =
      Found-self (by_path ks []) (Nodup-by_path ks [] tt) in
    rw
      (
        push_all-Found s (by_path ks []) (by_path ks []) w f,
        extraneous-Found (by_path ks []) (by_path ks []) f,
      )
      refl
