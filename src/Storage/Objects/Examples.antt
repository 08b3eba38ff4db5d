-- ===== src/Storage/Objects/Examples.antt =====
-- A bucket with three keys, listed one object at a time.
use micros.Base.{
  codes, true, false, ◌≡◌, ◌≤◌, ◌⊎◌, refl, [], ◌∷◌, ok, str_eq, length, arith, has_prefix,
  has_suffix, trim_suffix, after, sort_strs, str_lt, index_of,
}
use micros.Base.Assoc.{lookup}
use micros.Domain.Object.{ObjectMeta, empty_meta}
use micros.Disk.{
  Disk, dir, file, meta_json, stat, pure, raise, recover, ◌>>=◌, io, get_node, node_at, read_file,
}
use micros.Disk.Paths.{join, clean, split_slash, path_eq, is_under}
use micros.Storage.Layout.{meta_dir, meta_path}
use micros.Storage.Transactions.{read_meta, as_meta}
use micros.Storage.Objects.{get_object_meta}
use micros.Storage.Objects.Listing.{
  Page, Query, info_of, list_objects, collect, place, group_of, add_prefix, last_page, read_keys,
  walk_keys, relative, resume, bucket_there,
}
use micros.Storage.Objects.Listing.Pages.{Listed, list_objects-Listed}

abbrev meta : ObjectMeta
meta = record empty_meta { content_length = 2; crc32 = 2; etag = codes "etag" }

abbrev everything : Query
everything = record {
  bucket = codes "b";
  prefix = [];
  delimiter = codes "/";
  token = [];
  max_keys = 1;
}

-- The bucket with metadata files of three keys.
abbrev listed_disk : Disk
listed_disk = record {
  nodes =
      (codes "meta" ∷ codes "b" ∷ [], dir)
      ∷ (codes "meta" ∷ codes "b" ∷ codes "z.json" ∷ [], file (meta_json meta))
      ∷ (codes "meta" ∷ codes "b" ∷ codes "d" ∷ codes "e.json" ∷ [], file (meta_json meta))
      ∷ (codes "meta" ∷ codes "b" ∷ codes "m.json" ∷ [], file (meta_json meta))
      ∷ [];
  faults = [];
}

abbrev first_page : Page
first_page = record {
  is_truncated = true;
  next_token = codes "m";
  contents = info_of (codes "m") meta ∷ [];
  common_prefixes = codes "d/" ∷ [];
}

list_ok : (list_objects everything listed_disk).0 ≡ ok first_page
unfolding list_objects stat pure raise recover ◌>>=◌ io get_node node_at read_file join clean
    split_slash path_eq is_under meta_dir meta_path read_meta as_meta get_object_meta collect place
    group_of add_prefix last_page read_keys walk_keys relative resume bucket_there lookup str_eq
    has_prefix has_suffix trim_suffix after sort_strs str_lt index_of
list_ok = refl

list_objects-Listed_example :
    (length first_page.contents ≤ 1)
    × Listed everything first_page.contents
    × ((first_page.is_truncated ≡ false) ⊎ (length first_page.contents ≡ 1))
list_objects-Listed_example =
    list_objects-Listed everything listed_disk first_page (omega arith) list_ok
