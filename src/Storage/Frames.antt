-- ===== src/Storage/Frames.antt =====
-- Which files the methods of the storage may touch, whatever calls fail on the way.
use micros.Base.{
  ℕ, zero, suc, Str, codes, Bool, true, false, ◌||◌, ◌&&◌, not, ◌≡◌, ◌≢◌, refl, ap, ◌∙◌, none, some,
  List, [], ◌∷◌, ◌++◌, ok, arith, if◌then◌else◌, inl, inr, Bool-cases, Option-cases, has_prefix,
}
use micros.Disk.{
  M, Disk, Error, not_exist, Entry, Content, pure, raise, ◌>>=◌, recover, io, node_at, file_at,
  get_node, read_dir, remove, is_dir,
}
use micros.Disk.Frame.{
  SameAt, Frame, Frame-pure, Frame-raise, recover_at, Frame-bind, Frame-recover, Frame-ignoring,
}
use micros.Disk.Calls.{remove_at, Frame-read_dir, Frame-remove, nowhere}
use micros.Disk.Paths.{FilePath, parent, path_eq}
use micros.Storage.Layout.{
  is_dir_empty, missing_is_empty, no_shards, remove_shards, clean_from, clean_empty_dirs,
  delete_all_ec_shards, ec_shard_dir,
}

not_empty_file :
    (d : Disk) (p : FilePath) (c : Content) → file_at d p ≡ some c → (is_dir_empty p d).0 ≢ ok true
unfolding is_dir_empty read_dir ◌>>=◌ recover get_node file_at node_at io pure raise
not_empty_file d [] c h = cc
not_empty_file d (s ∷ p) c h = ground arith

module _ {T : FilePath → Bool} where
  Frame-missing_is_empty : (e : Error) → Frame T (missing_is_empty e)
  unfolding missing_is_empty
  Frame-missing_is_empty not_exist = Frame-pure true
  Frame-missing_is_empty e = Frame-raise e

  pub Frame-is_dir_empty : (p : FilePath) → Frame T (is_dir_empty p)
  unfolding is_dir_empty
  Frame-is_dir_empty p =
      Frame-recover (read_dir p) _ missing_is_empty (Frame-read_dir p) (λ names. Frame-pure _)
        Frame-missing_is_empty

and_right : (a b : Bool) → (a && b) ≡ true → b ≡ true
and_right a b h = ground arith

no_file : (d : Disk) (p : FilePath) → (is_dir_empty p d).0 ≡ ok true → file_at d p ≡ none
no_file d p h = elim (Option-cases (file_at d p)) [
  | inl e ↦ e
  | inr (c, e) ↦ absurd (not_empty_file d p c e h)
]

-- One round of the walk upwards, `up` being what is left of it.
round_at :
    (p q : FilePath) (up : M (Unit {0})) (d : Disk) (empty : Bool)
    → ((d' : Disk) → SameAt q d' (up d').1)
    → (empty ≡ true → file_at d p ≡ none)
    → SameAt q d ((if empty then recover (remove p) (λ _. up) (λ _. pure tt) else pure tt) d).1
unfolding pure
round_at p q up d false hu h = refl
round_at p q up d true hu h =
    recover_at (remove p) _ _ d q (remove_at p q d (h refl)) (λ _ _. hu _) (λ _. refl)

clean_from_at :
    (f : ℕ) (p limit : FilePath) (d : Disk) (q : FilePath) → SameAt q d (clean_from f p limit d).1
unfolding clean_from pure
clean_from_at zero p limit d q = refl
clean_from_at (suc f) p limit d q = elim (Bool-cases (path_eq p limit || path_eq p [])) [
  | inl stop ↦ rw (stop, clean_from) refl
  | inr more ↦
      rw (more, clean_from)
        (recover_at (is_dir_empty p) _ _ d q ((Frame-is_dir_empty {T = nowhere} p).at d q refl)
          (λ empty e.
            round_at p q (clean_from f (parent p) limit) (is_dir_empty p d).1 empty
              (λ d'. clean_from_at f (parent p) limit d' q)
              (λ y. (Frame-is_dir_empty {T = nowhere} p).at d p refl ∙ no_file d p (e ∙ ap ok y)))
          (λ e. refl))
]

module _ {T : FilePath → Bool} where
  pub Frame-clean_empty_dirs : (start limit : FilePath) → Frame T (clean_empty_dirs start limit)
  unfolding clean_empty_dirs
  Frame-clean_empty_dirs start limit = record { at = λ d q h. clean_from_at _ start limit d q }

  Frame-remove_shards :
      (folder : FilePath) (pre : Str) (entries : List (Str × Entry))
      → ((name : Str) → has_prefix name pre ≡ true → T (folder ++ name ∷ []) ≡ true)
      → Frame T (remove_shards folder pre entries)
  unfolding remove_shards
  Frame-remove_shards folder pre [] t = Frame-pure tt
  Frame-remove_shards folder pre ((name, e) ∷ rest) t =
      elim (Bool-cases (not (is_dir (some e)) && has_prefix name pre)) [
        | inl hit ↦
            rw (hit, remove_shards)
              (Frame-ignoring (remove (folder ++ name ∷ [])) _
                (Frame-remove (folder ++ name ∷ [])
                  (t name (and_right (not (is_dir (some e))) _ hit)))
                (Frame-remove_shards folder pre rest t))
        | inr other ↦ rw (other, remove_shards) (Frame-remove_shards folder pre rest t)
      ]

  Frame-no_shards : (e : Error) → Frame T (no_shards e)
  unfolding no_shards
  Frame-no_shards not_exist = Frame-pure tt
  Frame-no_shards e = Frame-raise e

  -- The shard files of an object, and of every object whose name begins with its shard prefix.
  pub Frame-delete_all_ec_shards :
      (bucket key : Str)
      → ((name : Str)
          → has_prefix name (key ++ codes ".shard.") ≡ true
          → T (ec_shard_dir bucket ++ name ∷ []) ≡ true)
      → Frame T (delete_all_ec_shards bucket key)
  unfolding delete_all_ec_shards
  Frame-delete_all_ec_shards bucket key t =
      Frame-recover (read_dir (ec_shard_dir bucket)) _ no_shards
        (Frame-read_dir (ec_shard_dir bucket))
        (λ entries.
          Frame-bind _ _
            (Frame-remove_shards (ec_shard_dir bucket) (key ++ codes ".shard.") entries t)
            (λ _. Frame-clean_empty_dirs (ec_shard_dir bucket) (ec_shard_dir bucket)))
        Frame-no_shards
