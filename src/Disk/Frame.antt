-- ===== src/Disk/Frame.antt =====
-- Which files an action may touch. `Frame T m`: whatever happens, and whichever calls fail, m leaves
-- every file alone at whose path T is false.
use micros.Base.{Bool, true, false, ◌≡◌, refl, ◌∙◌, [], ◌∷◌, ok, err, arith, if◌then◌else◌, Result}
use micros.Disk.{
  M, Disk, Error, pure, raise, ◌>>=◌, ignoring, recover, wrap_error, io, node_at, file_at, get_node,
  children_exist, list_entries, continue,
}
use micros.Disk.Paths.{FilePath, path_Eq}

-- The files at p are the same before and after.
abbrev pub SameAt : FilePath → Disk → Disk → Type 0
SameAt p d d' = file_at d' p ≡ file_at d p

pub record Frame {A : Type 0} (T : FilePath → Bool) (m : M A) : Type 0 where
  pub at : (d : Disk) (p : FilePath) → T p ≡ false → SameAt p d (m d).1

continue_at :
    {A B : Type 0} (r : Result Error A) (f : A → M B) (d d' : Disk) (p : FilePath)
    → SameAt p d d'
    → ((a : A) → r ≡ ok a → SameAt p d' (f a d').1)
    → SameAt p d (continue r f d').1
continue_at (ok a) f d d' p hm hf = hf a refl ∙ hm
continue_at (err e) f d d' p hm hf = hm

-- The rest of a block may use what its first action returned.
pub bind_at :
    {A B : Type 0} (m : M A) (f : A → M B) (d : Disk) (p : FilePath)
    → SameAt p d (m d).1
    → ((a : A) → (m d).0 ≡ ok a → SameAt p (m d).1 (f a (m d).1).1)
    → SameAt p d ((m >>= f) d).1
unfolding ◌>>=◌
bind_at m f d p hm hf = continue_at (m d).0 f d (m d).1 p hm hf

module _ {A : Type 0} {T : FilePath → Bool} where
  pub Frame-pure : (a : A) → Frame T (pure a)
  unfolding pure
  Frame-pure a = record { at = λ d p h. refl }

  pub Frame-raise : (e : Error) → Frame T (raise {A = A} e)
  unfolding raise
  Frame-raise e = record { at = λ d p h. refl }

  pub Frame-wrap_error : (w : Error → Error) (m : M A) → Frame T m → Frame T (wrap_error w m)
  unfolding wrap_error
  Frame-wrap_error w m f = record { at = λ d p h. f.at d p h }

  pub Frame-if : (b : Bool) (m n : M A) → Frame T m → Frame T n → Frame T (if b then m else n)
  Frame-if true m n fm fn = fm
  Frame-if false m n fm fn = fn

module _ {A B : Type 0} {T : FilePath → Bool} where
  pub Frame-bind :
      (m : M A) (f : A → M B) → Frame T m → ((a : A) → Frame T (f a)) → Frame T (m >>= f)
  Frame-bind m f fm ff = record {
    at = λ d p h. bind_at m f d p (fm.at d p h) (λ a _. (ff a).at (m d).1 p h);
  }

  pub Frame-ignoring : (m : M A) (n : M B) → Frame T m → Frame T n → Frame T (ignoring m n)
  unfolding ignoring
  Frame-ignoring m n fm fn = record { at = λ d p h. fn.at (m d).1 p h ∙ fm.at d p h }

  recovered :
      (r : Result Error A) (f : A → M B) (g : Error → M B) (d : Disk) (p : FilePath)
      → T p ≡ false
      → ((a : A) → Frame T (f a))
      → ((e : Error) → Frame T (g e))
      → SameAt p d
          ((let x : Result Error B × Disk = elim r [ ok a ↦ f a d | err e ↦ g e d ] in x)).1
  recovered (ok a) f g d p h ff fg = (ff a).at d p h
  recovered (err e) f g d p h ff fg = (fg e).at d p h

  pub Frame-recover :
      (m : M A) (f : A → M B) (g : Error → M B)
      → Frame T m
      → ((a : A) → Frame T (f a))
      → ((e : Error) → Frame T (g e))
      → Frame T (recover m f g)
  unfolding recover
  Frame-recover m f g fm ff fg = record {
    at = λ d p h. recovered (m d).0 f g (m d).1 p h ff fg ∙ fm.at d p h;
  }

recovered_at :
    {A B : Type 0} (r : Result Error A) (f : A → M B) (g : Error → M B) (d d' : Disk) (p : FilePath)
    → SameAt p d d'
    → ((a : A) → r ≡ ok a → SameAt p d' (f a d').1)
    → ((e : Error) → SameAt p d' (g e d').1)
    → SameAt p d
        ((let x : Result Error B × Disk = elim r [ ok a ↦ f a d' | err e ↦ g e d' ] in x)).1
recovered_at (ok a) f g d d' p hm hf hg = hf a refl ∙ hm
recovered_at (err e) f g d d' p hm hf hg = hg e ∙ hm

pub recover_at :
    {A B : Type 0} (m : M A) (f : A → M B) (g : Error → M B) (d : Disk) (p : FilePath)
    → SameAt p d (m d).1
    → ((a : A) → (m d).0 ≡ ok a → SameAt p (m d).1 (f a (m d).1).1)
    → ((e : Error) → SameAt p (m d).1 (g e (m d).1).1)
    → SameAt p d ((recover m f g) d).1
unfolding recover
recover_at m f g d p hm hf hg = recovered_at (m d).0 f g d (m d).1 p hm hf hg

-- Reading a fault changes no file.
module _ {T : FilePath → Bool} where
  pub Frame-io : Frame T io
  unfolding io file_at node_at
  Frame-io = record { at = λ d p h. io_at d p }
    where
      io_at : (d : Disk) (p : FilePath) → SameAt p d (io d).1
      io_at d [] = refl
      io_at d (s ∷ p) = ground arith

  pub Frame-get_node : (p : FilePath) → Frame T (get_node p)
  unfolding get_node
  Frame-get_node p = record { at = λ d q h. refl }

  pub Frame-children : (p : FilePath) → Frame T (children_exist p)
  unfolding children_exist
  Frame-children p = record { at = λ d q h. refl }

  pub Frame-list_entries : (p : FilePath) → Frame T (list_entries p)
  unfolding list_entries
  Frame-list_entries p = record { at = λ d q h. refl }
