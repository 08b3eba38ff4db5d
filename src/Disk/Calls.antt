-- ===== src/Disk/Calls.antt =====
-- The frame of each call of the operating system.
use micros.Base.{
  Str, Bool, true, false, ◌≡◌, refl, subst, sym, ◌∙◌, Option, none, some, List, [], ◌∷◌, ◌++◌, ok,
  arith, Result, inl, inr, Bool-cases, ap,
}
use micros.Base.Assoc.{lookup, lookup-insert, lookup-erase}
use micros.Disk.{
  Disk, Error, not_exist, is_directory, not_directory, directory_not_empty, Entry, dir, file,
  Content, pure, raise, io, node_at, file_at, content_of, put_node, del_node, get_node, make_dirs,
  make_dir, mkdir_all, write_file, write_over, rename, rename_entry, remove, remove_entry,
  remove_if_there, remove_all, drop_tree, without_tree, read_file, read_entry, read_dir,
  dir_listing, stat, stat_entry, sync_dir, children_exist,
}
use micros.Disk.Paths.{FilePath, path_eq, path_eq_iff, path_Eq, is_under}
use micros.Disk.Frame.{
  SameAt, Frame, bind_at, Frame-pure, Frame-raise, Frame-wrap_error, Frame-if, Frame-bind,
  Frame-ignoring, Frame-recover, Frame-io, Frame-get_node, Frame-children, Frame-list_entries,
}

-- What a write and a removal do to the file at another path.
pub put_node_at :
    (p q : FilePath) (e : Entry) (d : Disk) → path_eq p q ≡ false → SameAt q d (put_node p e d).1
unfolding put_node file_at node_at
put_node_at p [] e d h = refl
put_node_at p (s ∷ q) e d h = rw (lookup-insert, h)

pub del_node_at : (p q : FilePath) (d : Disk) → path_eq p q ≡ false → SameAt q d (del_node p d).1
unfolding del_node file_at node_at
del_node_at p [] d h = refl
del_node_at p (s ∷ q) d h = rw (lookup-erase, h)

-- Making a directory where nothing is, and removing one, changes no file.
put_dir_at : (p q : FilePath) (d : Disk) → node_at d p ≡ none → SameAt q d (put_node p dir d).1
unfolding put_node file_at node_at
put_dir_at p [] d e = refl
put_dir_at [] (t ∷ q) d e = cc
put_dir_at (s ∷ p) (t ∷ q) d e = elim (Bool-cases (path_eq (s ∷ p) (t ∷ q))) [
  | inl same ↦
      rw (lookup-insert, same)
        (sym (ap content_of (subst (λ r. node_at d r ≡ none) ((path_eq_iff _ _).0 same) e)))
  | inr other ↦ rw (lookup-insert, other)
]

del_dir_at :
    (p q : FilePath) (d : Disk) → content_of (node_at d p) ≡ none → SameAt q d (del_node p d).1
unfolding del_node file_at node_at
del_dir_at p [] d e = refl
del_dir_at [] (t ∷ q) d e = del_node_at [] (t ∷ q) d (unfold path_eq in refl)
del_dir_at (s ∷ p) (t ∷ q) d e = elim (Bool-cases (path_eq (s ∷ p) (t ∷ q))) [
  | inl same ↦
      rw (lookup-erase, same)
        (sym (subst (λ r. content_of (node_at d r) ≡ none) ((path_eq_iff _ _).0 same) e))
  | inr other ↦ rw (lookup-erase, other)
]

make_dir_at :
    (p q : FilePath) (entry : Option Entry) (d : Disk)
    → entry ≡ node_at d p
    → SameAt q d (make_dir p entry d).1
unfolding make_dir pure raise
make_dir_at p q none d e = put_dir_at p q d (sym e)
make_dir_at p q (some dir) d e = refl
make_dir_at p q (some (file c)) d e = refl

ok_eq : {A : Type 0} {a b : A} → ◌≡◌ {A = Result Error A} (ok a) (ok b) → b ≡ a
ok_eq h = cc

make_dirs_at :
    (done : FilePath) (names : List Str) (d : Disk) (q : FilePath)
    → SameAt q d (make_dirs done names d).1
unfolding make_dirs get_node pure
make_dirs_at done [] d q = refl
make_dirs_at done (s ∷ rest) d q = bind_at (get_node (done ++ s ∷ [])) _ d q refl λ a e.
    bind_at (make_dir (done ++ s ∷ []) a) _ d q (make_dir_at (done ++ s ∷ []) q a d (ok_eq e))
      (λ _ _. make_dirs_at (done ++ s ∷ []) rest _ q)

apart : (T : FilePath → Bool) (p q : FilePath) → T p ≡ true → T q ≡ false → path_eq p q ≡ false
apart T p q hp hq = elim (Bool-cases (path_eq p q)) [
  | inl same ↦ let e = (path_eq_iff p q).0 same in cc (hp, hq, ap T e)
  | inr other ↦ other
]

without_tree_at :
    (p q : FilePath) (ns : List (FilePath × Entry))
    → is_under p q ≡ false
    → lookup q (without_tree p ns) ≡ lookup q ns
unfolding without_tree lookup
without_tree_at p q [] h = refl
without_tree_at p q ((r, e) ∷ ns) h = ground (arith, without_tree_at p q ns h, path_eq_iff r q)

module _ {T : FilePath → Bool} where
  pub Frame-put : (p : FilePath) (e : Entry) → T p ≡ true → Frame T (put_node p e)
  Frame-put p e t = record { at = λ d q h. put_node_at p q e d (apart T p q t h) }

  pub Frame-del : (p : FilePath) → T p ≡ true → Frame T (del_node p)
  Frame-del p t = record { at = λ d q h. del_node_at p q d (apart T p q t h) }

  pub Frame-mkdir_all : (p : FilePath) → Frame T (mkdir_all p)
  unfolding mkdir_all
  Frame-mkdir_all p = Frame-bind io _ Frame-io λ _. record { at = λ d q h. make_dirs_at [] p d q }

  Frame-write_over :
      (p : FilePath) (c : Content) (old : Option Entry) (b : Bool)
      → T p ≡ true
      → Frame T (write_over p c old b)
  unfolding write_over
  Frame-write_over p c (some dir) b t = Frame-raise is_directory
  Frame-write_over p c none false t = Frame-raise not_exist
  Frame-write_over p c none true t = Frame-put p (file c) t
  Frame-write_over p c (some (file c')) false t = Frame-raise not_exist
  Frame-write_over p c (some (file c')) true t = Frame-put p (file c) t

  pub Frame-write_file : (p : FilePath) (c : Content) → T p ≡ true → Frame T (write_file p c)
  unfolding write_file
  Frame-write_file p c t = search (Frame-bind, Frame-io, Frame-get_node, Frame-write_over)

  Frame-rename_entry :
      (src dst : FilePath) (entry old : Option Entry) (b : Bool)
      → T src ≡ true
      → T dst ≡ true
      → Frame T (rename_entry src dst entry old b)
  unfolding rename_entry
  Frame-rename_entry src dst none old b ts td = Frame-raise not_exist
  Frame-rename_entry src dst (some dir) old b ts td = Frame-raise is_directory
  Frame-rename_entry src dst (some (file c)) (some dir) b ts td = Frame-raise is_directory
  Frame-rename_entry src dst (some (file c)) none false ts td = Frame-raise not_exist
  Frame-rename_entry src dst (some (file c)) none true ts td =
      Frame-bind (del_node src) _ (Frame-del src ts) (λ _. Frame-put dst (file c) td)
  Frame-rename_entry src dst (some (file c)) (some (file c')) false ts td = Frame-raise not_exist
  Frame-rename_entry src dst (some (file c)) (some (file c')) true ts td =
      Frame-bind (del_node src) _ (Frame-del src ts) (λ _. Frame-put dst (file c) td)

  pub Frame-rename : (src dst : FilePath) → T src ≡ true → T dst ≡ true → Frame T (rename src dst)
  unfolding rename
  Frame-rename src dst ts td = search (Frame-bind, Frame-io, Frame-get_node, Frame-rename_entry)

  Frame-remove_entry :
      (p : FilePath) (entry : Option Entry) (b : Bool)
      → T p ≡ true
      → Frame T (remove_entry p entry b)
  unfolding remove_entry
  Frame-remove_entry p none b t = Frame-raise not_exist
  Frame-remove_entry p (some (file c)) b t = Frame-del p t
  Frame-remove_entry p (some dir) true t = Frame-raise directory_not_empty
  Frame-remove_entry p (some dir) false t = Frame-del p t

  pub Frame-remove : (p : FilePath) → T p ≡ true → Frame T (remove p)
  unfolding remove
  Frame-remove p t =
      search (Frame-bind, Frame-io, Frame-get_node, Frame-children, Frame-remove_entry)

  pub Frame-remove_if_there : (p : FilePath) → T p ≡ true → Frame T (remove_if_there p)
  unfolding remove_if_there
  Frame-remove_if_there p t = record { at = λ d q h. (Frame-remove p t).at d q h }

  pub Frame-remove_all :
      (p : FilePath) → ((q : FilePath) → is_under p q ≡ true → T q ≡ true) → Frame T (remove_all p)
  unfolding remove_all drop_tree file_at node_at
  Frame-remove_all p t = Frame-bind io _ Frame-io λ _. record { at = λ d q h. dropped d q h }
    where
      dropped : (d : Disk) (q : FilePath) → T q ≡ false → SameAt q d (drop_tree p d).1
      dropped d [] h = refl
      dropped d (s ∷ q) h = elim (Bool-cases (is_under p (s ∷ q))) [
        | inl below ↦ cc (h, t (s ∷ q) below)
        | inr other ↦ rw (without_tree_at p (s ∷ q) d.nodes other)
      ]

  Frame-read_entry : (entry : Option Entry) → Frame T (read_entry entry)
  unfolding read_entry
  Frame-read_entry none = Frame-raise not_exist
  Frame-read_entry (some dir) = Frame-raise is_directory
  Frame-read_entry (some (file c)) = Frame-pure c

  pub Frame-read_file : (p : FilePath) → Frame T (read_file p)
  unfolding read_file
  Frame-read_file p = search (Frame-bind, Frame-io, Frame-get_node, Frame-read_entry)

  Frame-stat_entry : (entry : Option Entry) → Frame T (stat_entry entry)
  unfolding stat_entry
  Frame-stat_entry none = Frame-raise not_exist
  Frame-stat_entry (some e) = Frame-pure e

  pub Frame-stat : (p : FilePath) → Frame T (stat p)
  unfolding stat
  Frame-stat p = search (Frame-bind, Frame-io, Frame-get_node, Frame-stat_entry)

  Frame-dir_listing : (p : FilePath) (entry : Option Entry) → Frame T (dir_listing p entry)
  unfolding dir_listing
  Frame-dir_listing p none = Frame-raise not_exist
  Frame-dir_listing p (some (file c)) = Frame-raise not_directory
  Frame-dir_listing p (some dir) = Frame-list_entries p

  pub Frame-read_dir : (p : FilePath) → Frame T (read_dir p)
  unfolding read_dir
  Frame-read_dir p = search (Frame-bind, Frame-io, Frame-get_node, Frame-dir_listing)

  pub Frame-sync_dir : (p : FilePath) → Frame T (sync_dir p)
  unfolding sync_dir
  Frame-sync_dir p = search (Frame-bind, Frame-stat, Frame-io)

remove_entry_at :
    (p q : FilePath) (entry : Option Entry) (busy : Bool) (d : Disk)
    → entry ≡ node_at d p
    → file_at d p ≡ none
    → SameAt q d (remove_entry p entry busy d).1
unfolding remove_entry raise file_at
remove_entry_at p q none busy d e h = refl
remove_entry_at p q (some (file c)) busy d e h = cc (ap content_of e)
remove_entry_at p q (some dir) true d e h = refl
remove_entry_at p q (some dir) false d e h = del_dir_at p q d h

abbrev pub nowhere : FilePath → Bool
nowhere p = false

-- Removing what is no file changes no file.
pub remove_at : (p q : FilePath) (d : Disk) → file_at d p ≡ none → SameAt q d (remove p d).1
unfolding remove get_node children_exist
remove_at p q d h = bind_at io _ d q ((Frame-io {T = nowhere}).at d q refl) λ _ _.
    let d1 = (io d).1 in
    bind_at (get_node p) _ d1 q refl λ a e.
      bind_at (children_exist p) _ d1 q refl
        λ b _. remove_entry_at p q a b d1 (ok_eq e) ((Frame-io {T = nowhere}).at d p refl ∙ h)

pub ruleset frame_rules = (
  Frame-pure, Frame-raise, Frame-wrap_error, Frame-if, Frame-bind, Frame-ignoring, Frame-io,
  Frame-mkdir_all, Frame-write_file, Frame-rename, Frame-remove_if_there, Frame-read_file,
  Frame-stat, Frame-read_dir, Frame-sync_dir,
)
