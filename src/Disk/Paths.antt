-- ===== src/Disk/Paths.antt =====
-- path/filepath on the names of a path: Join with its cleaning, Dir and Base.
use mathlib.Core.List.{reverse}
use micros.Base.{
  Str, codes, str_eq, str_eq_iff, ◌==◌, Bool, true, false, ◌&&◌, ◌||◌, List, [], ◌∷◌, ◌++◌,
  if◌then◌else◌, ◌≡◌, refl, ap, Bool-cases, inl, inr, ◌↔◌, arith,
}
use micros.Base.Assoc.{Eq}

abbrev pub FilePath : Type 0
FilePath = List Str

unfoldable pub path_eq : FilePath → FilePath → Bool
path_eq [] [] = true
path_eq [] (t ∷ q) = false
path_eq (s ∷ p) [] = false
path_eq (s ∷ p) (t ∷ q) = str_eq s t && path_eq p q

path_eq→eq : (p q : FilePath) → path_eq p q ≡ true → p ≡ q
unfolding path_eq
path_eq→eq [] [] h = refl
path_eq→eq [] (t ∷ q) h = ground arith
path_eq→eq (s ∷ p) [] h = ground arith
path_eq→eq (s ∷ p) (t ∷ q) h = ground (arith, path_eq→eq p q, str_eq_iff s t)

path_eq_refl : (p : FilePath) → path_eq p p ≡ true
unfolding path_eq
path_eq_refl [] = refl
path_eq_refl (s ∷ p) = ground (arith, path_eq_refl p, str_eq_iff s s)

pub path_eq_iff : (p q : FilePath) → (path_eq p q ≡ true) ↔ (p ≡ q)
path_eq_iff p q = (path_eq→eq p q, λ e. rw e (path_eq_refl q))

instance abbrev pub path_Eq : Eq FilePath
path_Eq = record { beq = path_eq; beq_iff = path_eq_iff }

-- filepath.Dir
unfoldable pub parent : FilePath → FilePath
parent [] = []
parent (s ∷ []) = []
parent (s ∷ t ∷ p) = s ∷ parent (t ∷ p)

-- filepath.Base
unfoldable pub base_name : FilePath → Str
base_name [] = codes "."
base_name (s ∷ []) = s
base_name (s ∷ t ∷ p) = base_name (t ∷ p)

-- `is_under p q`: q is p or lies below it.
unfoldable pub is_under : FilePath → FilePath → Bool
is_under [] q = true
is_under (s ∷ p) [] = false
is_under (s ∷ p) (t ∷ q) = str_eq s t && is_under p q

-- strings.Split(s, "/"), with the name read so far in reverse.
split_from : Str → Str → List Str
split_from name [] = reverse name ∷ []
split_from name (c ∷ s) =
    let rest = split_from [] s in
    let more = split_from (c ∷ name) s in if c == b'/' then reverse name ∷ rest else more

unfoldable pub split_slash : Str → List Str
unfolding split_from
split_slash s = split_from [] s

-- filepath.Clean below the storage root, on the names in reverse: empty names and "." go, ".."
-- takes the name before it along. Above the root the model stays at the root.
drop_last : FilePath → FilePath
drop_last [] = []
drop_last (s ∷ p) = p

unfoldable pub clean : FilePath → List Str → FilePath
unfolding drop_last
clean acc [] = acc
clean acc (s ∷ rest) =
    clean
      (if str_eq s [] || str_eq s (codes ".")
        then acc
        else if str_eq s (codes "..")
        then drop_last acc
        else s ∷ acc)
      rest

-- filepath.Join(p, s)
unfoldable pub join : FilePath → Str → FilePath
join p s = reverse (clean (reverse p) (split_slash s))

pub is_under_append : (p q : FilePath) → is_under p (p ++ q) ≡ true
unfolding is_under
is_under_append [] q = refl
is_under_append (s ∷ p) q = ground (arith, is_under_append p q, str_eq_iff s s)

pub parent_snoc : (p : FilePath) (s : Str) → parent (p ++ s ∷ []) ≡ p
unfolding parent
parent_snoc [] s = refl
parent_snoc (t ∷ []) s = refl
parent_snoc (t ∷ u ∷ p) s = ap (λ q. t ∷ q) (parent_snoc (u ∷ p) s)

pub base_name_snoc : (p : FilePath) (s : Str) → base_name (p ++ s ∷ []) ≡ s
unfolding base_name
base_name_snoc [] s = refl
base_name_snoc (t ∷ []) s = refl
base_name_snoc (t ∷ u ∷ p) s = base_name_snoc (u ∷ p) s

pub path_eq_append : (p q r : FilePath) → path_eq (p ++ q) (p ++ r) ≡ path_eq q r
unfolding path_eq
path_eq_append [] q r = refl
path_eq_append (s ∷ p) q r = ground (arith, path_eq_append p q r, str_eq_iff s s)

-- Of two paths one of which lies under p.
pub path_eq-is_under :
    (p q r : FilePath) → is_under p q ≡ true → is_under p r ≡ false → path_eq q r ≡ false
path_eq-is_under p q r h k = elim (Bool-cases (path_eq q r)) [
  | inl same ↦ cc (h, k, ap (is_under p) ((path_eq_iff q r).0 same))
  | inr other ↦ other
]

pub path_eq_comm : (p q : FilePath) → path_eq p q ≡ path_eq q p
path_eq_comm p q = ground (arith, path_eq_iff p q, path_eq_iff q p)
