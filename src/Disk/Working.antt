-- ===== src/Disk/Working.antt =====
-- Reads and removals on a disk whose calls do not fail.
use micros.Base.{◌≡◌, refl, Option, none, some, List, [], Bool, ok}
use micros.Base.Assoc.{erase}
use micros.Disk.{
  Disk, Entry, dir, file, Content, io, ◌>>=◌, node_at, file_at, content_of, get_node, read_file,
  read_entry, remove, remove_entry, remove_if_there, forgive, children_exist, has_child, pure,
  del_node,
}
use micros.Disk.Paths.{FilePath, path_Eq}

abbrev pub working : List (FilePath × Entry) → Disk
working ns = record { nodes = ns; faults = [] }

read_entry_working :
    (o : Option Entry) (c : Content) (d : Disk) → content_of o ≡ some c → read_entry o d ≡ (ok c, d)
unfolding read_entry pure
read_entry_working none c d h = cc
read_entry_working (some dir) c d h = cc
read_entry_working (some (file x)) c d h = cc

pub read_file-working :
    (p : FilePath) (c : Content) (ns : List (FilePath × Entry))
    → file_at (working ns) p ≡ some c
    → read_file p (working ns) ≡ (ok c, working ns)
unfolding read_file io ◌>>=◌ get_node file_at
read_file-working p c ns h = read_entry_working (node_at (working ns) p) c (working ns) h

remove_entry-working :
    (p : FilePath) (o : Option Entry) (c : Content) (busy : Bool) (ns : List (FilePath × Entry))
    → content_of o ≡ some c
    → remove_entry p o busy (working ns) ≡ (ok tt, working (erase p ns))
unfolding remove_entry del_node
remove_entry-working p none c busy ns h = cc
remove_entry-working p (some dir) c busy ns h = cc
remove_entry-working p (some (file x)) c busy ns h = refl

remove-working :
    (p : FilePath) (c : Content) (ns : List (FilePath × Entry))
    → file_at (working ns) p ≡ some c
    → remove p (working ns) ≡ (ok tt, working (erase p ns))
unfolding remove io ◌>>=◌ get_node children_exist file_at
remove-working p c ns h = remove_entry-working p (node_at (working ns) p) c (has_child p ns) ns h

pub remove_if_there-working :
    (p : FilePath) (c : Content) (ns : List (FilePath × Entry))
    → file_at (working ns) p ≡ some c
    → remove_if_there p (working ns) ≡ (ok tt, working (erase p ns))
unfolding remove_if_there forgive
remove_if_there-working p c ns h = rw (remove-working p c ns h) refl
