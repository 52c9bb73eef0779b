-- ===== src/Fs/Persist.antt =====
-- fs/fs_zenfs.cc: the records of the metadata log, the snapshot of all files, and the roll to the
-- next metadata zone when one is full.
use zenfs_modified.Base.{
  ℕ, ◌%◌, Bool, Option, none, some, List, [], ◌∷◌, ◌++◌, ◌==◌, if◌then◌else◌, length,
}
use zenfs_modified.Base.Words.{u32_mod}
use zenfs_modified.Store.{
  ZoneFile, Backend, Error, no_space, io_error, fault, ok, M, ◌>>=◌, ◌>>◌, pure, fail, gets,
  assert_that, point_at,
}
use zenfs_modified.Zones.{release, reset, finish}
use zenfs_modified.Reclaim.{attempt, rethrow, allocate_meta_zone}
use zenfs_modified.Codec.{Coding, encode_to}
use zenfs_modified.Superblock.{encode_superblock}
use zenfs_modified.MetaLog.{Checksum, add_record}

-- `ZenFSTag`
abbrev pub complete_files_snapshot : ℕ
complete_files_snapshot = 1

abbrev pub file_update : ℕ
file_update = 2

abbrev pub file_deletion : ℕ
file_deletion = 3

abbrev pub end_record : ℕ
end_record = 4

abbrev pub file_replace : ℕ
file_replace = 5

module _ (c : Coding) where
  unfoldable pub encode_files : (ℕ → ZoneFile) → List (List ℕ × ℕ) → List ℕ
  encode_files h [] = []
  encode_files h ((n, f) ∷ rest) =
      c.put_length_prefixed (encode_to c (h f) 0) ++ encode_files h rest

  -- `EncodeSnapshotTo`: each name has a record of its file.
  unfoldable pub encode_snapshot : (ℕ → ZoneFile) → List (List ℕ × ℕ) → List ℕ
  encode_snapshot h files =
      c.put_fixed32 complete_files_snapshot ++ c.put_length_prefixed (encode_files h files)

  -- `EncodeFileDeletionTo`
  unfoldable pub encode_file_deletion : ZoneFile → List ℕ → List ℕ
  encode_file_deletion v name =
      c.put_fixed32 file_deletion
      ++ c.put_length_prefixed (c.put_fixed64 v.file_id ++ c.put_length_prefixed name)

  -- The record that `SyncFileMetadataNoLock` writes, with the extents that are not yet synced.
  unfoldable pub encode_update : Bool → ZoneFile → List ℕ
  encode_update replace v =
      c.put_fixed32 (if replace then file_replace else file_update)
      ++ c.put_length_prefixed (encode_to c v v.nr_synced_extents)

module _ {B : Type 0} where
  -- A call whose status is not looked at.
  abbrev pub ignore : M B (Unit {0}) → M B (Unit {0})
  ignore m = attempt m >> pure tt

  -- `MetadataSynced` and `MetadataUnsynced`
  unfoldable pub metadata_synced : ℕ → M B (Unit {0})
  metadata_synced f d = ok tt (record d {
    file =
        point_at d.file f
          (record (d.file f) { nr_synced_extents = length (d.file f).extents % u32_mod });
  })

  unfoldable pub metadata_unsynced : ℕ → M B (Unit {0})
  metadata_unsynced f d =
      ok tt (record d { file = point_at d.file f (record (d.file f) { nr_synced_extents = 0 }) })

  unfoldable pub each_synced : List (List ℕ × ℕ) → M B (Unit {0})
  each_synced [] = pure tt
  each_synced ((n, f) ∷ rest) = metadata_synced f >> each_synced rest

  unfoldable pub set_meta_log : Option ℕ → M B (Unit {0})
  set_meta_log log d = ok tt (record d { fs = record d.fs { meta_log = log } })

  -- The time of day, which the backend's state stands for too.
  unfoldable pub set_modification_time : (B → ℕ × B) → ℕ → M B (Unit {0})
  set_modification_time now f d =
      let (t, b) = now d.backend in
      ok tt (record d { backend = b; file = point_at d.file f (record (d.file f) { m_time = t }) })

module _ (c : Coding) (k : Checksum) {B : Type 0} (be : Backend B) where
  -- `WriteSnapshotLocked`
  unfoldable pub write_snapshot_locked : ℕ → M B (Unit {0})
  write_snapshot_locked z = do
    files ← gets (λ d. d.fs.files)
    snapshot ← gets (λ d. encode_snapshot c d.file files)
    add_record c k be z snapshot
    each_synced files

  -- `WriteEndRecord`
  unfoldable pub write_end_record : ℕ → M B (Unit {0})
  write_end_record z = add_record c k be z (c.put_fixed32 end_record)

  -- What is left of the old metadata zone is closed by an end record and a finish; both may fail.
  unfoldable pub end_old_log : ℕ → M B (Unit {0})
  end_old_log old = do
    left ← gets (λ d. (d.zone old).capacity)
    if left == 0 then pure tt else ignore (write_end_record old)
    left' ← gets (λ d. (d.zone old).capacity)
    if left' == 0 then pure tt else ignore (finish be old)

  abbrev pub superblock_status : Option Error → M B (Unit {0})
  superblock_status none = pure tt
  superblock_status (some e) = fail io_error

  -- The old zone is reset once the snapshot is written.
  abbrev pub snapshot_status : ℕ → Option Error → M B (Unit {0})
  snapshot_status old none = ignore (reset be old)
  snapshot_status old (some e) = fail e

  unfoldable pub write_new_log : ℕ → ℕ → M B (Unit {0})
  write_new_log new old = do
    end_old_log old
    super_string ← encode_superblock c
    s ← attempt (add_record c k be new super_string)
    superblock_status s
    s' ← attempt (write_snapshot_locked new)
    snapshot_status old s'

  -- The old log goes at the end, whatever the status, and releases its zone.
  unfoldable pub swap_logs : ℕ → Option ℕ → M B (Unit {0})
  swap_logs new none = fail fault
  swap_logs new (some old) = do
    set_meta_log (some new)
    s ← attempt (write_new_log new old)
    released ← release old
    assert_that released (rethrow s)

  -- `AllocateMetaZone` gives a zone or an error, never a null pointer and no error.
  unfoldable pub roll_to : ℕ → M B (Unit {0})
  roll_to new = do
    busy ← gets (λ d. (d.zone new).busy)
    old ← gets (λ d. d.fs.meta_log)
    assert_that busy (swap_logs new old)

  -- `RollMetaZoneLocked`
  unfoldable pub roll_meta_zone_locked : M B (Unit {0})
  roll_meta_zone_locked = allocate_meta_zone be >>= roll_to

  -- A record that does not fit is in the snapshot that the roll writes.
  unfoldable pub roll_if_full : Option Error → M B (Unit {0})
  roll_if_full none = pure tt
  roll_if_full (some no_space) = roll_meta_zone_locked
  roll_if_full (some e) = fail e

  unfoldable pub persist_in : List ℕ → Option ℕ → M B (Unit {0})
  persist_in data_ none = fail fault
  persist_in data_ (some z) = attempt (add_record c k be z data_) >>= roll_if_full

  -- `PersistRecord`
  unfoldable pub persist_record : List ℕ → M B (Unit {0})
  persist_record data_ = gets (λ d. d.fs.meta_log) >>= persist_in data_

  -- `PersistSnapshot`, of the writer that holds the given zone.
  unfoldable pub persist_snapshot : ℕ → M B (Unit {0})
  persist_snapshot z = attempt (write_snapshot_locked z) >>= roll_if_full

  module _ (now : B → ℕ × B) where
    -- `SyncFileMetadataNoLock`; a file that was deleted is left out.
    unfoldable pub sync_file_metadata_no_lock : ℕ → Bool → M B (Unit {0})
    sync_file_metadata_no_lock f replace = do
      deleted ← gets (λ d. (d.file f).is_deleted)
      if deleted then pure tt else do
        if replace then pure tt else set_modification_time now f
        v ← gets (λ d. d.file f)
        persist_record (encode_update c replace v)
        metadata_synced f
