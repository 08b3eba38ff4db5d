-- ===== src/Disk/Writing.antt =====
-- What a file holds after it was written.
use micros.Base.{
  Bool, true, false, ◌≡◌, ◌≢◌, refl, sym, ap, ◌∙◌, Option, none, some, List, [], ◌∷◌, err,
}
use micros.Base.Assoc.{lookup-insert_self}
use micros.Disk.{
  ◌>>=◌, raise, Error, Disk, not_exist, is_directory, Entry, dir, file, Content, io, node_at,
  file_at, put_node, get_node, write_file, write_over, is_dir,
}
use micros.Disk.Frame.{Frame, Frame-io}
use micros.Disk.Calls.{Frame-write_file}
use micros.Disk.Paths.{FilePath, parent, path_eq, path_eq_iff}
use micros.Disk.Post.{
  Post, Post-bind, Post-raise, Post-quiet, Holds, Untouched, Frame-Holds, got, not_root,
}

same_nodes :
    (q : FilePath) (ns : List (FilePath × Entry)) (f g : List Bool)
    → file_at (record { nodes = ns; faults = f }) q ≡ file_at (record { nodes = ns; faults = g }) q
unfolding file_at node_at
same_nodes [] ns f g = refl
same_nodes (s ∷ q) ns f g = refl

put_node-Post :
    (p : FilePath) (c : Content) (d : Disk)
    → p ≢ []
    → Post (λ _ d'. file_at d' p ≡ some c) (put_node p (file c) d)
unfolding put_node file_at node_at
put_node-Post [] c d h = absurd (h refl)
put_node-Post (s ∷ p) c d h = record { at = λ a e. rw lookup-insert_self }

write_over-Post :
    (p : FilePath) (c : Content) (old : Option Entry) (b : Bool) (d : Disk)
    → old ≡ node_at d p
    → Post (λ _ d'. file_at d' p ≡ some c) (write_over p c old b d)
unfolding write_over
write_over-Post p c (some dir) b d e = Post-raise is_directory d
write_over-Post p c none false d e = Post-raise not_exist d
write_over-Post p c (some (file x)) false d e = Post-raise not_exist d
write_over-Post p c none true d e = put_node-Post p c d (not_root p d none e (λ q. cc))
write_over-Post p c (some (file x)) true d e =
    put_node-Post p c d (not_root p d (some (file x)) e (λ q. cc))

written :
    (p : FilePath) (c : Content) (d : Disk)
    → Post (λ _ d'. file_at d' p ≡ some c) (write_file p c d)
unfolding write_file
written p c d = Post-bind io _ d (Post-quiet io [] d Frame-io tt) λ _ d1 h1.
    Post-bind (get_node (parent p)) _ d1 (got (parent p) d1 (λ _ d'. d' ≡ d1) refl) λ q d2 h2.
      Post-bind (get_node p) _ d2 (got p d2 (λ o d'. (o ≡ node_at d2 p) × (d' ≡ d2)) (refl, refl))
        λ o d3 h3. write_over-Post p c o (is_dir q) d3 (h3.0 ∙ ap (λ x. node_at x p) (sym h3.1))

-- A write that succeeds leaves the content in its file, and the other files as they were.
pub write_file-Post :
    (p : FilePath) (c : Content) (files : List (FilePath × Content)) (d : Disk)
    → Untouched (path_eq p) files
    → Holds files d
    → Post (λ _. Holds ((p, c) ∷ files)) (write_file p c d)
write_file-Post p c files d u h = record {
  at = λ a e. ((written p c d).at a e, Frame-Holds (write_file p c) files d frame u h);
}
  where
    frame : Frame (path_eq p) (write_file p c)
    frame = Frame-write_file p c ((path_eq_iff p p).1 refl)

-- A write that fails changes nothing.
write_over_failed :
    (p q : FilePath) (c : Content) (old : Option Entry) (b : Bool) (d : Disk) (e : Error)
    → (write_over p c old b d).0 ≡ err e
    → file_at (write_over p c old b d).1 q ≡ file_at d q
unfolding write_over raise put_node
write_over_failed p q c (some dir) b d e h = refl
write_over_failed p q c none false d e h = refl
write_over_failed p q c (some (file x)) false d e h = refl
write_over_failed p q c none true d e h = cc
write_over_failed p q c (some (file x)) true d e h = cc

pub write_file_failed :
    (p q : FilePath) (c : Content) (ns : List (FilePath × Entry)) (faults : List Bool) (e : Error)
    → (write_file p c (record { nodes = ns; faults = faults })).0 ≡ err e
    → file_at (write_file p c (record { nodes = ns; faults = faults })).1 q
      ≡ file_at (record { nodes = ns; faults = faults }) q
unfolding write_file io ◌>>=◌ get_node file_at node_at
write_file_failed p q c ns (true ∷ faults) e h = same_nodes q ns faults (true ∷ faults)
write_file_failed p q c ns [] e h = write_over_failed p q c _ _ _ e h
write_file_failed p q c ns (false ∷ faults) e h =
    write_over_failed p q c _ _ _ e h ∙ same_nodes q ns faults (false ∷ faults)
