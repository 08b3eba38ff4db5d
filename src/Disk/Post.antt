-- ===== src/Disk/Post.antt =====
-- What holds after an action that returns without an error, and the files that it then leaves.
use micros.Base.{
  Bool, true, false, ◌≡◌, ◌≢◌, refl, sym, ap, ◌∙◌, subst, Option, none, some, List, [], ◌∷◌, Result,
  ok, err,
}
use micros.Base.Assoc.{lookup-insert_self}
use micros.Disk.{
  M, Disk, Error, not_exist, is_directory, Entry, dir, file, Content, pure, raise, ◌>>=◌, io,
  node_at, file_at, content_of, put_node, del_node, get_node, rename, rename_entry, read_file,
  read_entry, is_dir, continue,
}
use micros.Disk.Frame.{Frame, Frame-io}
use micros.Disk.Calls.{nowhere}
use micros.Disk.Paths.{FilePath, parent}

-- Q holds of the value and the disk of a run that succeeds.
pub record Post {A : Type 0} (Q : A → Disk → Type 0) (r : Result Error A × Disk) : Type 0 where
  pub at : (a : A) → r.0 ≡ ok a → Q a r.1

continue-Post :
    {A B : Type 0} {P : A → Disk → Type 0} {Q : B → Disk → Type 0} (r : Result Error A) (d : Disk)
    (f : A → M B)
    → Post P (r, d)
    → ((a : A) (d' : Disk) → P a d' → Post Q (f a d'))
    → Post Q (continue r f d)
continue-Post (ok a) d f h k = k a d (h.at a refl)
continue-Post (err e) d f h k = record { at = λ a e. cc }

pub Post-bind :
    {A B : Type 0} {P : A → Disk → Type 0} {Q : B → Disk → Type 0} (m : M A) (f : A → M B)
    (d : Disk)
    → Post P (m d)
    → ((a : A) (d' : Disk) → P a d' → Post Q (f a d'))
    → Post Q ((m >>= f) d)
unfolding ◌>>=◌
Post-bind m f d h k = continue-Post (m d).0 (m d).1 f h k

pub Post-raise :
    {A : Type 0} {Q : A → Disk → Type 0} (e : Error) (d : Disk) → Post Q (raise {A = A} e d)
unfolding raise
Post-raise e d = record { at = λ a h. cc }

pub Post-pure : {A : Type 0} {Q : A → Disk → Type 0} (a : A) (d : Disk) → Q a d → Post Q (pure a d)
unfolding pure
Post-pure {A} {Q} a d q = record { at = λ b h. subst (λ x. Q x d) (ok_eq h) q }
  where
    ok_eq : {b : A} → ◌≡◌ {A = Result Error A} (ok a) (ok b) → a ≡ b
    ok_eq h = cc

-- The files that a block relies on.
abbrev pub Holds : List (FilePath × Content) → Disk → Type 0
Holds [] d = Unit {0}
Holds ((p, c) ∷ rest) d = (file_at d p ≡ some c) × Holds rest d

abbrev pub Untouched : (FilePath → Bool) → List (FilePath × Content) → Type 0
Untouched T [] = Unit {0}
Untouched T ((p, c) ∷ rest) = (T p ≡ false) × Untouched T rest

pub Frame-Holds :
    {A : Type 0} {T : FilePath → Bool} (m : M A) (files : List (FilePath × Content)) (d : Disk)
    → Frame T m
    → Untouched T files
    → Holds files d
    → Holds files (m d).1
Frame-Holds m [] d f u h = tt
Frame-Holds m ((p, c) ∷ rest) d f u h = (f.at d p u.0 ∙ h.0, Frame-Holds m rest d f u.1 h.1)

-- A step that leaves the files alone.
pub Post-Frame :
    {A : Type 0} {T : FilePath → Bool} (m : M A) (files : List (FilePath × Content)) (d : Disk)
    → Frame T m
    → Untouched T files
    → Holds files d
    → Post (λ _. Holds files) (m d)
Post-Frame m files d f u h = record { at = λ a e. Frame-Holds m files d f u h }

pub Untouched-nowhere : (files : List (FilePath × Content)) → Untouched nowhere files
Untouched-nowhere [] = tt
Untouched-nowhere (f ∷ rest) = (refl, Untouched-nowhere rest)

-- A step that leaves every file alone.
pub Post-quiet :
    {A : Type 0} (m : M A) (files : List (FilePath × Content)) (d : Disk)
    → Frame nowhere m
    → Holds files d
    → Post (λ _. Holds files) (m d)
Post-quiet m files d f h = Post-Frame m files d f (Untouched-nowhere files) h

file_entry : (e : Option Entry) (c : Content) → content_of e ≡ some c → e ≡ some (file c)
file_entry none c h = cc
file_entry (some dir) c h = cc
file_entry (some (file b)) c h = cc

moved :
    (src dst : FilePath) (c : Content) (d : Disk)
    → dst ≢ []
    → Post (λ _ d'. file_at d' dst ≡ some c) ((del_node src >>= λ _. put_node dst (file c)) d)
unfolding ◌>>=◌ del_node put_node file_at node_at
moved src [] c d h = absurd (h refl)
moved src (s ∷ dst) c d h = record { at = λ a e. rw lookup-insert_self }

pub not_root :
    (dst : FilePath) (d : Disk) (o : Option Entry) → o ≡ node_at d dst → o ≢ some dir → dst ≢ []
unfolding node_at
not_root dst d o e h p = h (e ∙ ap (node_at d) p)

rename_entry-Post :
    (src dst : FilePath) (entry old : Option Entry) (b : Bool) (c : Content) (d : Disk)
    → content_of entry ≡ some c
    → old ≡ node_at d dst
    → Post (λ _ d'. file_at d' dst ≡ some c) (rename_entry src dst entry old b d)
unfolding rename_entry raise
rename_entry-Post src dst none old b c d h e = Post-raise not_exist d
rename_entry-Post src dst (some dir) old b c d h e = Post-raise is_directory d
rename_entry-Post src dst (some (file x)) (some dir) b c d h e = Post-raise is_directory d
rename_entry-Post src dst (some (file x)) none false c d h e = Post-raise not_exist d
rename_entry-Post src dst (some (file x)) (some (file y)) false c d h e = Post-raise not_exist d
rename_entry-Post src dst (some (file x)) none true c d h e =
    subst
      (λ z.
        Post (λ _ d'. file_at d' dst ≡ some z) ((del_node src >>= λ _. put_node dst (file x)) d))
      (same h) (moved src dst x d (not_root dst d none e (λ p. cc)))
  where
    same : ◌≡◌ {A = Option Content} (some x) (some c) → x ≡ c
    same h = cc
rename_entry-Post src dst (some (file x)) (some (file y)) true c d h e =
    subst
      (λ z.
        Post (λ _ d'. file_at d' dst ≡ some z) ((del_node src >>= λ _. put_node dst (file x)) d))
      (same h) (moved src dst x d (not_root dst d (some (file y)) e (λ p. cc)))
  where
    same : ◌≡◌ {A = Option Content} (some x) (some c) → x ≡ c
    same h = cc

pub got :
    (p : FilePath) (d : Disk) (P : Option Entry → Disk → Type 0)
    → P (node_at d p) d
    → Post P (get_node p d)
unfolding get_node
got p d P h = record { at = λ a e. subst (λ x. P x d) (ok_eq e) h }
  where
    ok_eq : {a b : Option Entry} → ◌≡◌ {A = Result Error (Option Entry)} (ok a) (ok b) → a ≡ b
    ok_eq h = cc

-- A rename that succeeds puts the file at its new path.
pub rename-Post :
    (src dst : FilePath) (c : Content) (d : Disk)
    → file_at d src ≡ some c
    → Post (λ _ d'. file_at d' dst ≡ some c) (rename src dst d)
unfolding rename node_at file_at
rename-Post src dst c d h =
    Post-bind io _ d (Post-quiet io ((src, c) ∷ []) d Frame-io (h, tt)) λ _ d1 h1.
      Post-bind (get_node src) _ d1
        (got src d1 (λ o d'. (content_of o ≡ some c) × (d' ≡ d1)) (h1.0, refl))
        λ o d2 h2.
          Post-bind (get_node dst) _ d2
            (got dst d2 (λ p d'. (p ≡ node_at d2 dst) × (d' ≡ d2)) (refl, refl))
            λ p d3 h3.
              Post-bind (get_node (parent dst)) _ d3 (got (parent dst) d3 (λ _ d'. d' ≡ d3) refl)
                λ q d4 h4.
                  rename_entry-Post src dst o p (is_dir q) c d4 h2.0
                    (h3.0 ∙ ap (λ x. node_at x dst) (sym h3.1 ∙ sym h4))

read_entry-Post :
    (o : Option Entry) (c : Content) (d : Disk)
    → content_of o ≡ some c
    → Post (λ x d'. (x ≡ c) × (d' ≡ d)) (read_entry o d)
unfolding read_entry raise
read_entry-Post none c d h = cc
read_entry-Post (some dir) c d h = cc
read_entry-Post (some (file x)) c d h = Post-pure x d (same h, refl)
  where
    same : ◌≡◌ {A = Option Content} (some x) (some c) → x ≡ c
    same h = cc

-- A file that is read holds what it holds, and every file is as it was.
pub read_file-Post :
    (p : FilePath) (c : Content) (files : List (FilePath × Content)) (d : Disk)
    → Holds ((p, c) ∷ files) d
    → Post (λ x d'. (x ≡ c) × Holds ((p, c) ∷ files) d') (read_file p d)
unfolding read_file node_at file_at
read_file-Post p c files d h =
    Post-bind io _ d (Post-quiet io ((p, c) ∷ files) d Frame-io h) λ _ d1 h1.
      Post-bind (get_node p) _ d1
        (got p d1 (λ o d'. (content_of o ≡ some c) × (d' ≡ d1)) (h1.0, refl))
        λ o d2 h2. record {
          at = λ x e.
              let (same, still) = (read_entry-Post o c d2 h2.0).at x e in
              (same, subst (Holds ((p, c) ∷ files)) (sym (still ∙ h2.1)) h1);
        }
