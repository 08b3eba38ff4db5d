-- ===== src/Disk.antt =====
-- The part of Go's os and path/filepath packages that the storage calls. A path is the list of its
-- names from the storage root down. Every call may fail: `faults` is the script of the failures
-- still to come, read one call at a time, and past its end nothing fails. A file that is written
-- under a temporary name and renamed at the end is one step, `write_file`.
pub mod Paths
pub mod Frame
pub mod Calls
pub mod Post
pub mod Removal
pub mod Writing
pub mod Reading
pub mod Working
use micros.Base.{
  ℕ, Str, Bool, true, false, not, ◌||◌, Option, none, some, List, [], ◌∷◌, ◌++◌, Result, ok, err,
  if◌then◌else◌, str_lt,
}
use micros.Base.Assoc.{lookup, insert, erase}
use micros.Domain.Object.{Transaction, ObjectMeta, MultipartUpload, UploadPart}
use Paths.{FilePath, path_eq, path_Eq, parent, is_under, base_name}

-- The errors that the storage returns, those of the os package first.
pub data Error : Type 0 where
  not_exist io_error not_directory is_directory directory_not_empty bad_json : Error
  bucket_not_empty upload_not_found : Error
  size_mismatch : ℕ → ℕ → Error
  tx_mismatch : Error
  bad_tx_log bad_tx_meta : Error → Error

-- What a file holds: bytes, or a value in JSON.
pub data Content : Type 0 where
  bytes : List ℕ → Content
  tx_json : Transaction → Content
  meta_json : ObjectMeta → Content
  upload_json : MultipartUpload → Content
  part_json : UploadPart → Content

pub data Entry : Type 0 where
  dir : Entry
  file : Content → Entry

pub record Disk : Type 0 where
  pub nodes : List (FilePath × Entry)
  pub faults : List Bool

abbrev pub M : Type 0 → Type 0
M A = Disk → Result Error A × Disk

module _ {A : Type 0} where
  unfoldable pub pure : A → M A
  pure a d = (ok a, d)

  unfoldable pub raise : Error → M A
  raise e d = (err e, d)

module _ {A B : Type 0} where
  abbrev pub continue : Result Error A → (A → M B) → M B
  continue (ok a) f d = f a d
  continue (err e) f d = (err e, d)

  infixl 10 ◌>>=◌ ◌>>◌
  unfoldable pub ◌>>=◌ : M A → (A → M B) → M B
  ◌>>=◌ m f d = let (r, d') = m d in continue r f d'

  abbrev pub ◌>>◌ : M A → M B → M B
  m >> n = m >>= λ _. n

  -- `_ = f()`: the error is dropped, what was done stays done.
  unfoldable pub ignoring : M A → M B → M B
  ignoring m n d = n (m d).1

  -- `if err != nil { ... }` that goes on another way.
  unfoldable pub recover : M A → (A → M B) → (Error → M B) → M B
  recover m f h d = let (r, d') = m d in elim r [ ok a ↦ f a d' | err e ↦ h e d' ]

-- The result with the error renamed by `fmt.Errorf("...: %w", err)`.
unfoldable pub wrap_error : {A : Type 0} → (Error → Error) → M A → M A
wrap_error w m d = let (r, d') = m d in (elim r [ ok a ↦ ok a | err e ↦ err (w e) ], d')

-- One call of the operating system: it fails when the script says so.
unfoldable pub io : M (Unit {0})
io d = elim d.faults [
  | [] ↦ (ok tt, d)
  | true ∷ rest ↦ (err io_error, record d { faults = rest })
  | false ∷ rest ↦ (ok tt, record d { faults = rest })
]

unfoldable pub node_at : Disk → FilePath → Option Entry
node_at d [] = some dir
node_at d (s ∷ p) = lookup (s ∷ p) d.nodes

abbrev pub content_of : Option Entry → Option Content
content_of none = none
content_of (some dir) = none
content_of (some (file c)) = some c

-- What the file at a path holds, if there is one.
unfoldable pub file_at : Disk → FilePath → Option Content
file_at d p = content_of (node_at d p)

abbrev pub is_dir : Option Entry → Bool
is_dir none = false
is_dir (some dir) = true
is_dir (some (file c)) = false

unfoldable pub put_node : FilePath → Entry → M (Unit {0})
put_node p e d = (ok tt, record d { nodes = insert p e d.nodes })

unfoldable pub del_node : FilePath → M (Unit {0})
del_node p d = (ok tt, record d { nodes = erase p d.nodes })

unfoldable pub get_node : FilePath → M (Option Entry)
get_node p d = (ok (node_at d p), d)

-- os.MkdirAll, one directory after the other below `done`.
make_dir : FilePath → Option Entry → M (Unit {0})
make_dir p none = put_node p dir
make_dir p (some dir) = pure tt
make_dir p (some (file c)) = raise not_directory

unfoldable pub make_dirs : FilePath → List Str → M (Unit {0})
unfolding make_dir
make_dirs done [] = pure tt
make_dirs done (s ∷ rest) = do
  entry ← get_node (done ++ s ∷ [])
  make_dir (done ++ s ∷ []) entry
  make_dirs (done ++ s ∷ []) rest

unfoldable pub mkdir_all : FilePath → M (Unit {0})
mkdir_all p = do io; make_dirs [] p

-- The file is created or replaced; its directory must be there.
write_over : FilePath → Content → Option Entry → Bool → M (Unit {0})
write_over p c (some dir) parent_is_dir = raise is_directory
write_over p c other false = raise not_exist
write_over p c other true = put_node p (file c)

unfoldable pub write_file : FilePath → Content → M (Unit {0})
unfolding write_over
write_file p c = do
  io
  above ← get_node (parent p)
  old ← get_node p
  write_over p c old (is_dir above)

-- os.Rename of a file.
rename_entry : FilePath → FilePath → Option Entry → Option Entry → Bool → M (Unit {0})
rename_entry src dst none old parent_is_dir = raise not_exist
rename_entry src dst (some dir) old parent_is_dir = raise is_directory
rename_entry src dst (some (file c)) (some dir) parent_is_dir = raise is_directory
rename_entry src dst (some (file c)) other false = raise not_exist
rename_entry src dst (some (file c)) other true = do del_node src; put_node dst (file c)

unfoldable pub rename : FilePath → FilePath → M (Unit {0})
unfolding rename_entry
rename src dst = do
  io
  entry ← get_node src
  old ← get_node dst
  above ← get_node (parent dst)
  rename_entry src dst entry old (is_dir above)

unfoldable pub has_child : FilePath → List (FilePath × Entry) → Bool
has_child p [] = false
has_child p ((q, e) ∷ rest) = path_eq (parent q) p || has_child p rest

unfoldable pub children_exist : FilePath → M Bool
children_exist p d = (ok (has_child p d.nodes), d)

-- os.Remove
remove_entry : FilePath → Option Entry → Bool → M (Unit {0})
remove_entry p none busy = raise not_exist
remove_entry p (some (file c)) busy = del_node p
remove_entry p (some dir) true = raise directory_not_empty
remove_entry p (some dir) false = del_node p

unfoldable pub remove : FilePath → M (Unit {0})
unfolding remove_entry
remove p = do io; entry ← get_node p; busy ← children_exist p; remove_entry p entry busy

-- `if err := os.Remove(p); err != nil && !os.IsNotExist(err) { return err }`
forgive : Result Error (Unit {0}) → Result Error (Unit {0})
forgive (err not_exist) = ok tt
forgive r = r

unfoldable pub remove_if_there : FilePath → M (Unit {0})
unfolding forgive
remove_if_there p d = let (r, d') = remove p d in (forgive r, d')

unfoldable pub without_tree : FilePath → List (FilePath × Entry) → List (FilePath × Entry)
without_tree p [] = []
without_tree p ((q, e) ∷ rest) =
    let kept = without_tree p rest in if is_under p q then kept else (q, e) ∷ kept

unfoldable pub drop_tree : FilePath → M (Unit {0})
drop_tree p d = (ok tt, record d { nodes = without_tree p d.nodes })

-- os.RemoveAll; a failing call removes nothing here.
unfoldable pub remove_all : FilePath → M (Unit {0})
remove_all p = do io; drop_tree p

-- os.Open and io.ReadAll
read_entry : Option Entry → M Content
read_entry none = raise not_exist
read_entry (some dir) = raise is_directory
read_entry (some (file c)) = pure c

unfoldable pub read_file : FilePath → M Content
unfolding read_entry
read_file p = do io; entry ← get_node p; read_entry entry

-- os.Stat: whether something is there.
stat_entry : Option Entry → M Entry
stat_entry none = raise not_exist
stat_entry (some e) = pure e

unfoldable pub stat : FilePath → M Entry
unfolding stat_entry
stat p = do io; entry ← get_node p; stat_entry entry

-- The name and the kind of each entry of a directory.
unfoldable pub entries_of : FilePath → List (FilePath × Entry) → List (Str × Entry)
entries_of p [] = []
entries_of p ((q, e) ∷ rest) =
    let others = entries_of p rest in
    if path_eq (parent q) p then (base_name q, e) ∷ others else others

insert_entry : Str × Entry → List (Str × Entry) → List (Str × Entry)
insert_entry e [] = e ∷ []
insert_entry (n, e) ((m, f) ∷ rest) =
    if str_lt m n then (m, f) ∷ insert_entry (n, e) rest else (n, e) ∷ (m, f) ∷ rest

sort_entries : List (Str × Entry) → List (Str × Entry)
sort_entries [] = []
sort_entries (e ∷ rest) = insert_entry e (sort_entries rest)

unfoldable pub list_entries : FilePath → M (List (Str × Entry))
unfolding sort_entries insert_entry
list_entries p d = (ok (sort_entries (entries_of p d.nodes)), d)

dir_listing : FilePath → Option Entry → M (List (Str × Entry))
dir_listing p none = raise not_exist
dir_listing p (some (file c)) = raise not_directory
dir_listing p (some dir) = list_entries p

-- os.ReadDir: the entries in the order of their names.
unfoldable pub read_dir : FilePath → M (List (Str × Entry))
unfolding dir_listing
read_dir p = do io; entry ← get_node p; dir_listing p entry

-- Opening a directory and syncing it.
unfoldable pub sync_dir : FilePath → M (Unit {0})
sync_dir p = do stat p; io
