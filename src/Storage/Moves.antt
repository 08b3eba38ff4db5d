-- ===== src/Storage/Moves.antt =====
-- What reading a JSON file and moving a file leave, for the files that a commit relies on.
use micros.Base.{
  Bool, true, false, ◌≡◌, refl, sym, subst, List, ◌∷◌, Result, ok, err, arith, if◌then◌else◌, ◌||◌,
}
use micros.Domain.Object.{ObjectMeta, Transaction}
use micros.Disk.{M, Disk, Error, Content, meta_json, tx_json, wrap_error, rename}
use micros.Disk.Frame.{Frame}
use micros.Disk.Calls.{Frame-rename}
use micros.Disk.Post.{
  Post, Frame-Holds, Post-bind, Post-pure, Holds, Untouched, rename-Post, read_file-Post,
}
use micros.Disk.Paths.{FilePath, path_eq, path_eq_iff}
use micros.Storage.Transactions.{read_tx, read_meta, as_tx, as_meta}

as_meta-Post :
    (x : Content) (m : ObjectMeta) (d : Disk)
    → x ≡ meta_json m
    → Post (λ a d'. (a ≡ m) × (d' ≡ d)) (as_meta x d)
unfolding as_meta
as_meta-Post x m d e =
    subst (λ y. Post (λ a d'. (a ≡ m) × (d' ≡ d)) (as_meta y d)) (sym e)
      (Post-pure m d (refl, refl))

as_tx-Post :
    (x : Content) (t : Transaction) (d : Disk)
    → x ≡ tx_json t
    → Post (λ a d'. (a ≡ t) × (d' ≡ d)) (as_tx x d)
unfolding as_tx
as_tx-Post x t d e =
    subst (λ y. Post (λ a d'. (a ≡ t) × (d' ≡ d)) (as_tx y d)) (sym e) (Post-pure t d (refl, refl))

rewrapped :
    {A : Type 0} (w : Error → Error) (r : Result Error A) (a : A)
    → (let x : Result Error A = elim r [ ok b ↦ ok b | err e ↦ err (w e) ] in x) ≡ ok a
    → r ≡ ok a
rewrapped w (ok b) a h = h
rewrapped w (err e) a h = cc

pub wrap-Post :
    {A : Type 0} {Q : A → Disk → Type 0} (w : Error → Error) (m : M A) (d : Disk)
    → Post Q (m d)
    → Post Q (wrap_error w m d)
unfolding wrap_error
wrap-Post w m d h = record { at = λ a e. h.at a (rewrapped w (m d).0 a e) }

-- A staged file that is read back.
pub read_meta-Post :
    (p : FilePath) (m : ObjectMeta) (files : List (FilePath × Content)) (d : Disk)
    → Holds ((p, meta_json m) ∷ files) d
    → Post (λ a d'. (a ≡ m) × Holds ((p, meta_json m) ∷ files) d') (read_meta p d)
unfolding read_meta
read_meta-Post p m files d h = Post-bind _ _ d (read_file-Post p (meta_json m) files d h) λ x d1 h1.
    record {
      at = λ a e.
          let (same, still) = (as_meta-Post x m d1 h1.0).at a e in
          (same, subst (Holds ((p, meta_json m) ∷ files)) (sym still) h1.1);
    }

pub read_tx-Post :
    (p : FilePath) (t : Transaction) (files : List (FilePath × Content)) (d : Disk)
    → Holds ((p, tx_json t) ∷ files) d
    → Post (λ a d'. (a ≡ t) × Holds ((p, tx_json t) ∷ files) d') (read_tx p d)
unfolding read_tx
read_tx-Post p t files d h = Post-bind _ _ d (read_file-Post p (tx_json t) files d h) λ x d1 h1.
    record {
      at = λ a e.
          let (same, still) = (as_tx-Post x t d1 h1.0).at a e in
          (same, subst (Holds ((p, tx_json t) ∷ files)) (sym still) h1.1);
    }

abbrev either : FilePath → FilePath → FilePath → Bool
either src dst p = path_eq src p || path_eq dst p

-- A rename that succeeds moves one file and leaves the others alone.
pub rename_moves :
    (src dst : FilePath) (c : Content) (files : List (FilePath × Content)) (d : Disk)
    → Untouched (either src dst) files
    → Holds ((src, c) ∷ files) d
    → Post (λ _. Holds ((dst, c) ∷ files)) (rename src dst d)
rename_moves src dst c files d u h = record {
  at = λ a e.
      ((rename-Post src dst c d h.0).at a e, Frame-Holds (rename src dst) files d frame u h.1);
}
  where
    frame : Frame (either src dst) (rename src dst)
    frame =
        Frame-rename src dst (ground (arith, path_eq_iff src src))
          (ground (arith, path_eq_iff dst dst))

pub Post-if :
    {A : Type 0} {Q : A → Disk → Type 0} (b : Bool) (m n : M A) (d : Disk)
    → Post Q (m d)
    → Post Q (n d)
    → Post Q ((if b then m else n) d)
Post-if true m n d h k = h
Post-if false m n d h k = k
