-- ===== src/Storage/Objects/Listing.antt =====
-- ListObjectsV2: the walk over the metadata files and the loop over the sorted keys. The walk reads
-- many directories; here it is one call, which fails if any of them does.
pub mod Pages
use micros.Base.{
  ℕ, zero, suc, ◌+◌, Str, codes, str_eq, str_lt, has_prefix, has_suffix, trim_suffix, after,
  index_of, sort_strs, Bool, true, false, not, ◌&&◌, leb, Option, none, some, List, [], ◌∷◌, ◌++◌,
  if◌then◌else◌, length, take, drop, ok,
}
use micros.Domain.Object.{ObjectMeta}
use micros.Disk.{
  M, pure, raise, recover, ◌>>=◌, ◌>>◌, Error, not_exist, Entry, dir, file, io, stat, Disk,
}
use micros.Disk.Paths.{FilePath, is_under}
use micros.Storage.Layout.{meta_dir}
use micros.Storage.Objects.{get_object_meta}

pub record ObjectInfo : Type 0 where
  pub key : Str
  pub last_modified : ℕ
  pub etag : Str
  pub size : ℕ

pub record Page : Type 0 where
  pub is_truncated : Bool
  pub next_token : Str
  pub contents : List ObjectInfo
  pub common_prefixes : List Str

abbrev pub empty_page : Page
empty_page = record { is_truncated = false; next_token = []; contents = []; common_prefixes = [] }

-- The arguments of a call.
pub record Query : Type 0 where
  pub bucket : Str
  pub prefix : Str
  pub delimiter : Str
  pub token : Str
  pub max_keys : ℕ

-- filepath.Rel below a directory, as one string.
slashed : List Str → Str
slashed [] = []
slashed (s ∷ []) = s
slashed (s ∷ t ∷ p) = s ++ codes "/" ++ slashed (t ∷ p)

unfoldable pub relative : FilePath → FilePath → Str
unfolding slashed
relative base p = slashed (drop (length base) p)

-- The keys of the metadata files below a directory.
keys_below : FilePath → List (FilePath × Entry) → List Str
keys_below base [] = []
keys_below base ((p, dir) ∷ rest) = keys_below base rest
keys_below base ((p, file c) ∷ rest) =
    let others = keys_below base rest in
    if is_under base p && has_suffix (relative base p) (codes ".json")
    then trim_suffix (relative base p) (codes ".json") ∷ others
    else others

unfoldable pub walk_keys : FilePath → Disk → List Str
unfolding keys_below
walk_keys base d = sort_strs (keys_below base d.nodes)

unfoldable pub read_keys : FilePath → M (List Str)
read_keys base = do io; λ d. (ok (walk_keys base d), d)

-- sort.Search for the first key after the token.
unfoldable pub keys_after : Str → List Str → List Str
keys_after token [] = []
keys_after token (k ∷ ks) = if str_lt token k then k ∷ ks else keys_after token ks

unfoldable pub resume : Str → List Str → List Str
unfolding keys_after
resume token ks = if str_eq token [] then ks else keys_after token ks

-- The common prefix that a key is grouped under, if there is one.
unfoldable pub group_of : Query → Str → Option Str
group_of q key =
    if str_eq q.delimiter [] then none else elim (index_of (after key q.prefix) q.delimiter) [
      | none ↦ none
      | some i ↦ some (q.prefix ++ take (i + length q.delimiter) (after key q.prefix))
    ]

is_member : Str → List Str → Bool
is_member s [] = false
is_member s (t ∷ ts) = if str_eq s t then true else is_member s ts

unfoldable pub add_prefix : Str → Page → Page
unfolding is_member
add_prefix cp p =
    if is_member cp p.common_prefixes
    then p
    else record p { common_prefixes = cp ∷ p.common_prefixes }

abbrev pub info_of : Str → ObjectMeta → ObjectInfo
info_of key meta = record {
  key = key;
  last_modified = meta.modified_at;
  etag = meta.etag;
  size = meta.content_length;
}

abbrev pub add_content : ObjectInfo → Page → Page
add_content i p = record p { contents = i ∷ p.contents }

-- The page that ends at a key with these keys behind it.
unfoldable pub last_page : ObjectInfo → List Str → Page
last_page i [] = record empty_page { contents = i ∷ [] }
last_page i (k ∷ ks) = record empty_page {
  is_truncated = true;
  next_token = i.key;
  contents = i ∷ [];
}

-- What a key with the prefix does, from the group that it falls in. `same` is the rest of the loop
-- after a key that is not counted, `more` the rest after one that is.
unfoldable pub place : Query → ℕ → Str → List Str → M Page → M Page → Option Str → M Page
unfolding add_prefix last_page
place q count key rest same more (some cp) = same >>= λ p. pure (add_prefix cp p)
place q count key rest same more none =
    recover (get_object_meta q.bucket key)
      (λ meta.
        if leb q.max_keys (suc count)
        then pure (last_page (info_of key meta) rest)
        else more >>= λ p. pure (add_content (info_of key meta) p))
      (λ e. same)

-- The loop, with the number of objects so far.
unfoldable pub collect : Query → ℕ → List Str → M Page
unfolding group_of place
collect q count [] = pure empty_page
collect q count (key ∷ rest) =
    let same = collect q count rest in
    let more = collect q (suc count) rest in
    if has_prefix key q.prefix then place q count key rest same more (group_of q key) else same

abbrev pub sorted_prefixes : Page → Page
sorted_prefixes p = record p { common_prefixes = sort_strs p.common_prefixes }

-- `os.IsNotExist` of the first Stat; another error of it is not looked at.
unfoldable pub bucket_there : Error → M (Unit {0})
bucket_there not_exist = raise not_exist
bucket_there e = pure tt

unfoldable pub list_objects : Query → M Page
unfolding collect bucket_there
list_objects q = do
  recover (stat (meta_dir q.bucket)) (λ e. pure tt) bucket_there
  keys ← read_keys (meta_dir q.bucket)
  page ← collect q 0 (resume q.token keys)
  pure (sorted_prefixes page)
