-- ===== src/Storage/Objects/Listing/Pages.antt =====
-- The size of a page, and what is on it.
use micros.Base.{
  ℕ, suc, ◌+◌, ◌≤◌, ◌<◌, Str, Bool, true, false, ◌≡◌, refl, Option, none, some, List, [], ◌∷◌,
  Result, ok, err, arith, if◌then◌else◌, has_prefix, leb, length, Bool-cases, inl, inr, ◌⊎◌,
}
use micros.Disk.{M, Disk, Error, recover}
use micros.Disk.Post.{Post, Post-bind, Post-pure}
use micros.Storage.Objects.Listing.{
  ObjectInfo, Page, Query, empty_page, group_of, add_prefix, info_of, last_page, collect, place,
  list_objects, sorted_prefixes, resume,
}

-- Each object on the page has the asked prefix, and no delimiter behind it.
abbrev pub Listed : Query → List ObjectInfo → Type 0
Listed q [] = Unit {0}
Listed q (i ∷ is) = (has_prefix i.key q.prefix ≡ true) × (group_of q i.key ≡ none) × Listed q is

-- A page after `count` objects: no more than the limit, and exactly the limit if it is truncated.
abbrev Fits : Query → ℕ → Page → Type 0
Fits q count p =
    (length p.contents + count ≤ q.max_keys)
    × (p.is_truncated ≡ true → length p.contents + count ≡ q.max_keys)
    × Listed q p.contents

recover-Post :
    {A B : Type 0} {Q : B → Disk → Type 0} (m : M A) (f : A → M B) (h : Error → M B) (d : Disk)
    → ((a : A) (d' : Disk) → Post Q (f a d'))
    → ((e : Error) (d' : Disk) → Post Q (h e d'))
    → Post Q (recover m f h d)
unfolding recover
recover-Post {A} {B} {Q} m f h d hf hh = either (m d).0
  where
    either :
        (r : Result Error A)
        → Post Q (
            let x : Result Error B × Disk = elim r [ ok a ↦ f a (m d).1 | err e ↦ h e (m d).1 ] in
            x)
    either (ok a) = hf a (m d).1
    either (err e) = hh e (m d).1

if-Post :
    {B : Type 0} {Q : B → Disk → Type 0} (b : Bool) (m n : M B) (d : Disk)
    → (b ≡ true → Post Q (m d))
    → (b ≡ false → Post Q (n d))
    → Post Q ((if b then m else n) d)
if-Post true m n d h k = h refl
if-Post false m n d h k = k refl

add_prefix-Fits :
    (q : Query) (count : ℕ) (cp : Str) (p : Page) → Fits q count p → Fits q count (add_prefix cp p)
unfolding add_prefix
add_prefix-Fits q count cp p h = ground arith

last_page-Fits :
    (q : Query) (count : ℕ) (i : ObjectInfo) (rest : List Str)
    → suc count ≡ q.max_keys
    → has_prefix i.key q.prefix ≡ true
    → group_of q i.key ≡ none
    → Fits q count (last_page i rest)
unfolding last_page
last_page-Fits q count i [] e h g = (omega arith, (λ t. omega arith), (h, g, tt))
last_page-Fits q count i (k ∷ ks) e h g = (omega arith, (λ t. omega arith), (h, g, tt))

place-Fits :
    (q : Query) (count : ℕ) (key : Str) (rest : List Str) (same more : M Page) (o : Option Str)
    (d : Disk)
    → count < q.max_keys
    → has_prefix key q.prefix ≡ true
    → group_of q key ≡ o
    → ((d' : Disk) → Post (λ p d2. Fits q count p) (same d'))
    → (suc count < q.max_keys → (d' : Disk) → Post (λ p d2. Fits q (suc count) p) (more d'))
    → Post (λ p d2. Fits q count p) (place q count key rest same more o d)
unfolding place
place-Fits q count key rest same more (some cp) d room h g hs hm =
    Post-bind same _ d (hs d) λ p d1 f. Post-pure _ d1 (add_prefix-Fits q count cp p f)
place-Fits q count key rest same more none d room h g hs hm =
    recover-Post _ _ _ d
      (λ meta d1.
        if-Post (leb q.max_keys (suc count)) _ _ d1
          (λ full.
            Post-pure _ d1 (last_page-Fits q count (info_of key meta) rest (ground arith) h g))
          (λ left. Post-bind more _ d1 (hm (ground arith) d1) λ p d2 f.
            Post-pure _ d2 (omega (arith, f.0), (λ t. omega (arith, f.1 t)), (h, g, f.2))))
      (λ e d1. hs d1)

collect-Fits :
    (q : Query) (keys : List Str) (count : ℕ) (d : Disk)
    → count < q.max_keys
    → Post (λ p d'. Fits q count p) (collect q count keys d)
unfolding collect
collect-Fits q [] count d room = Post-pure empty_page d (omega arith, (λ t. cc), tt)
collect-Fits q (key ∷ rest) count d room =
    if-Post (has_prefix key q.prefix) _ _ d
      (λ h.
        place-Fits q count key rest _ _ (group_of q key) d room h refl
          (λ d'. collect-Fits q rest count d' room)
          (λ more d'. collect-Fits q rest (suc count) d' more))
      (λ h. collect-Fits q rest count d room)

listed : (q : Query) (d : Disk) → 1 ≤ q.max_keys → Post (λ p d'. Fits q 0 p) (list_objects q d)
unfolding list_objects
listed q d room =
    Post-bind {P = λ a d'. Unit {0}} _ _ d (record { at = λ a e. tt })
      λ _ d1 h1.
        Post-bind {P = λ a d'. Unit {0}} _ _ d1 (record { at = λ a e. tt })
          λ keys d2 h2.
            Post-bind (collect q 0 (resume q.token keys)) _ d2
              (collect-Fits q (resume q.token keys) 0 d2 (omega arith))
              λ p d3 f. Post-pure (sorted_prefixes p) d3 f

-- A page of ListObjectsV2 has at most `max_keys` objects, each with the asked prefix and without the
-- delimiter behind it, when `max_keys` is at least one; a page that says it is truncated is full.
pub list_objects-Listed :
    (q : Query) (d : Disk) (page : Page)
    → 1 ≤ q.max_keys
    → (list_objects q d).0 ≡ ok page
    → (length page.contents ≤ q.max_keys)
      × Listed q page.contents
      × ((page.is_truncated ≡ false) ⊎ (length page.contents ≡ q.max_keys))
list_objects-Listed q d page room e =
    let f : Fits q 0 page = (listed q d room).at page e in
    (
      omega (arith, f.0),
      f.2,
      elim (Bool-cases page.is_truncated) [
        | inl cut ↦ inr (omega (arith, f.1 cut))
        | inr whole ↦ inl whole
      ],
    )
