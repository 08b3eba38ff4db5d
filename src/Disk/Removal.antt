-- ===== src/Disk/Removal.antt =====
-- What a removed tree leaves behind.
use micros.Base.{Bool, true, false, ◌≡◌, refl, List, [], ◌∷◌, none, ok, arith, if◌then◌else◌}
use micros.Base.Assoc.{lookup}
use micros.Disk.{
  Entry, node_at, file_at, content_of, io, ◌>>=◌, remove_all, drop_tree, without_tree,
}
use micros.Disk.Paths.{FilePath, path_eq_iff, path_Eq, is_under}

lookup-without_tree :
    (p q : FilePath) (ns : List (FilePath × Entry))
    → lookup q (without_tree p ns) ≡ (if is_under p q then none else lookup q ns)
unfolding without_tree lookup
lookup-without_tree p q [] = ground arith
lookup-without_tree p q ((r, e) ∷ ns) = ground (arith, lookup-without_tree p q ns, path_eq_iff r q)

content_if :
    (b : Bool) (p : FilePath) (ns : List (FilePath × Entry))
    → content_of (if b then none else lookup p ns) ≡ (if b then none else content_of (lookup p ns))
content_if true p ns = refl
content_if false p ns = refl

-- A tree that is removed without an error is gone, and nothing else is.
pub file_at-remove_all :
    (p q : FilePath) (ns : List (FilePath × Entry)) (faults : List Bool)
    → (remove_all p (record { nodes = ns; faults = faults })).0 ≡ ok tt
    → file_at (remove_all p (record { nodes = ns; faults = faults })).1 q
      ≡ (if is_under p q then none else file_at (record { nodes = ns; faults = faults }) q)
unfolding remove_all drop_tree file_at node_at ◌>>=◌ io
file_at-remove_all p q ns (true ∷ faults) h = cc
file_at-remove_all p [] ns [] h = ground arith
file_at-remove_all p [] ns (false ∷ faults) h = ground arith
file_at-remove_all p (s ∷ q) ns [] h =
    rw (lookup-without_tree p (s ∷ q) ns) (content_if (is_under p (s ∷ q)) (s ∷ q) ns)
file_at-remove_all p (s ∷ q) ns (false ∷ faults) h =
    rw (lookup-without_tree p (s ∷ q) ns) (content_if (is_under p (s ∷ q)) (s ∷ q) ns)
