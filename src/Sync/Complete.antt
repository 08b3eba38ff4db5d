-- ===== src/Sync/Complete.antt =====
-- A sync that succeeds has brought the follower what it lacked.
use micros.Base.{
  ℕ, Str, true, false, ◌≡◌, refl, sym, ◌∙◌, subst, Option, none, some, List, [], Result, ok,
}
use micros.Base.Assoc.{lookup, str_Eq}
use micros.Domain.Object.{ObjectMeta, is_ec}
use micros.Disk.{Disk, Error}
use micros.Disk.Calls.{nowhere}
use micros.Storage.Layout.{staging_dir, data_path, meta_path}
use micros.Storage.Transactions.{computed_meta}
use micros.Storage.Commit.{AreApart}
use micros.Peers.{CallError}
use micros.Replication.Parts.{Stored}
use micros.Sync.{
  KeyInfo, KeysResponse, path_of, by_path, is_outdated, extraneous, get_local_keys, get_keys,
}
use micros.Sync.Follower.{
  Setup, Pair, SyncError, Request, with_local_keys, with_follower_keys, sync_follower,
}
use micros.Sync.Reconcile.{reconcile-Stored}
use micros.Sync.Names.{Lacks, is_outdated-Lacks, others, Nodup-by_path}
use micros.Sync.Reads.{Reading, Frame-get_local_keys}
use micros.Sync.Pushes.{Clear}

module _ (s : Setup) (p : Str) (k : KeyInfo) (bs : List ℕ) (m : ObjectMeta) (reading : Reading s)
    (apart : AreApart (staging_dir (s.tx_id (path_of k))) k.bucket k.key)
    (replica : is_ec m ≡ false) (ours : List KeyInfo)
    (listed : lookup p (by_path ours []) ≡ some k) where
  abbrev Has : Disk → Type 0
  Has = Stored k.bucket k.key m bs

  abbrev Gets : Option SyncError × Pair → Type 0
  Gets x = Stored k.bucket k.key (computed_meta s.hashes m bs) bs x.1.follower

  from_local_keys :
      (theirs : List KeyInfo) (r : Result Error (List KeyInfo)) (l f : Disk)
      → is_outdated (lookup p (by_path theirs [])) k ≡ true
      → Clear s k (others p (by_path ours []))
      → Clear s k (extraneous (by_path ours []) (by_path theirs []))
      → r ≡ ok ours
      → Has l
      → (with_local_keys s theirs (r, l) f).0 ≡ none
      → Gets (with_local_keys s theirs (r, l) f)
  unfolding with_local_keys
  from_local_keys theirs r l f outdated clear spared e h =
      subst
        (λ x.
          (with_local_keys s theirs (x, l) f).0 ≡ none → Gets (with_local_keys s theirs (x, l) f))
        (sym e)
        (reconcile-Stored s (by_path theirs []) p k bs m reading apart replica outdated
          (by_path ours []) (record { leader = l; follower = f }) (Nodup-by_path ours [] tt) listed
          clear spared h)

  from_follower_keys :
      (a : KeysResponse) (r : Result CallError KeysResponse) (l f : Disk)
      → is_outdated (lookup p (by_path a.keys [])) k ≡ true
      → Clear s k (others p (by_path ours []))
      → Clear s k (extraneous (by_path ours []) (by_path a.keys []))
      → r ≡ ok a
      → (get_local_keys l).0 ≡ ok ours
      → Has l
      → (with_follower_keys s (r, f) l).0 ≡ none
      → Gets (with_follower_keys s (r, f) l)
  unfolding with_follower_keys
  from_follower_keys a r l f outdated clear spared e mine h =
      subst (λ x. (with_follower_keys s (x, f) l).0 ≡ none → Gets (with_follower_keys s (x, f) l))
        (sym e)
        (from_local_keys a.keys (get_local_keys l).0 (get_local_keys l).1 f outdated clear spared
          mine
          (
            (Frame-get_local_keys {T = nowhere}).at l (data_path k.bucket k.key) refl ∙ h.0,
            ((Frame-get_local_keys {T = nowhere}).at l (meta_path k.bucket k.key) refl ∙ h.1.0, tt),
          ))

-- A sync that returns without an error has stored on the follower every replica that the leader's own
-- listing gave and that the follower's listing lacked, or had with another checksum or size: its bytes,
-- and its metadata with the length and checksum computed anew. This holds whichever calls of the
-- operating system failed, but it says nothing of an object that the listing skipped because it could
-- not be read. The reader of erasure-coded objects changes no file; the object's files lie apart
-- from its staging directory, from each other and from its shards, and are none of the files of the
-- other objects that are pushed or deleted.
pub sync_follower-Stored :
    (s : Setup) (w : Pair) (theirs : KeysResponse) (ours : List KeyInfo) (p : Str) (k : KeyInfo)
    (bs : List ℕ) (m : ObjectMeta)
    → Reading s
    → AreApart (staging_dir (s.tx_id (path_of k))) k.bucket k.key
    → is_ec m ≡ false
    → (get_keys (s.fate Request.listing) w.follower).0 ≡ ok theirs
    → (get_local_keys w.leader).0 ≡ ok ours
    → lookup p (by_path ours []) ≡ some k
    → Lacks k (lookup p (by_path theirs.keys []))
    → Clear s k (others p (by_path ours []))
    → Clear s k (extraneous (by_path ours []) (by_path theirs.keys []))
    → Stored k.bucket k.key m bs w.leader
    → (sync_follower s w).0 ≡ none
    → Stored k.bucket k.key (computed_meta s.hashes m bs) bs (sync_follower s w).1.follower
unfolding sync_follower
sync_follower-Stored s w theirs ours p k bs m reading apart replica asked mine listed lacks clear
      spared h e =
    from_follower_keys s p k bs m reading apart replica ours listed theirs _ w.leader _
      (is_outdated-Lacks k _ lacks) clear spared asked mine h e
