-- ===== src/Gc/Migrate.antt =====
-- fs/fs_gc_zenfs.cc: `MigrateExtents` and `MigrateFileExtents`, and fs/fs_zenfs.cc: `SyncFileExtents`.
use zenfs_modified.Base.{
  ℕ, ◌+◌, ◌%◌, Bool, true, false, not, ◌&&◌, Option, none, some, List, [], ◌∷◌, ◌++◌, length, ltb,
  ◌==◌, if◌then◌else◌, map,
}
use zenfs_modified.Base.Words.{add64, sub64, u32_mod}
use zenfs_modified.Store.{
  ZoneExtent, Backend, M, ◌>>=◌, ◌>>◌, pure, gets, assert_that, put_zone, put_file,
}
use zenfs_modified.Reclaim.{reset_unused_io_zones}
use zenfs_modified.EmptyZones.{Library}
use zenfs_modified.Placement.{FilePolicies}
use zenfs_modified.Codec.{Coding}
use zenfs_modified.MetaLog.{Checksum}
use zenfs_modified.Files.{eq_name}
use zenfs_modified.Files.Update.{with_level}
use zenfs_modified.Files.Sparse.{sparse_header_size}
use zenfs_modified.Files.Write.{try_acquire_wr_lock, release_wr_lock}
use zenfs_modified.Fs.FileMap.{ltb_name}
use zenfs_modified.Fs.Persist.{ignore, metadata_unsynced, sync_file_metadata_no_lock}
use zenfs_modified.Fs.Calls.{Env, get_file_no_lock, hold, let_go, ends_with, sst_suffix}
use zenfs_modified.Gc.{
  ZoneExtentSnapshot, try_value, add_gc_bytes_written, take_migrate_zone, release_migrate_zone,
  migrate_data,
}

-- Whether the extent is one of those that are to move.
abbrev pub to_migrate : ZoneExtent → List ZoneExtentSnapshot → Bool
to_migrate e [] = false
to_migrate e (x ∷ xs) =
    if (x.start == e.start) && (x.length == e.length) then true else to_migrate e xs

-- The extent where it lies after the move.
abbrev pub moved_to : ℕ → ℕ → ZoneExtent → ZoneExtent
moved_to z start e = record e { start = start; zone = z }

-- `file_extents[fname].emplace_back(ext)`, in a map in the order of the names.
unfoldable pub add_to_group :
    ZoneExtentSnapshot
    → List (List ℕ × List ZoneExtentSnapshot)
    → List (List ℕ × List ZoneExtentSnapshot)
add_to_group x [] = (x.filename, x ∷ []) ∷ []
add_to_group x ((n, xs) ∷ rest) =
    if eq_name x.filename n
    then (n, xs ++ x ∷ []) ∷ rest
    else if ltb_name x.filename n
    then (x.filename, x ∷ []) ∷ ((n, xs) ∷ rest)
    else (n, xs) ∷ add_to_group x rest

-- Only the extents of table files move.
unfoldable pub group_extents :
    List ZoneExtentSnapshot
    → List (List ℕ × List ZoneExtentSnapshot)
    → List (List ℕ × List ZoneExtentSnapshot)
group_extents [] groups = groups
group_extents (x ∷ xs) groups =
    group_extents xs (if ends_with x.filename sst_suffix then add_to_group x groups else groups)

module _ {B : Type 0} where
  -- `ReplaceExtentList`
  unfoldable pub replace_extent_list : ℕ → List ZoneExtent → M B (Unit {0})
  replace_extent_list f new_list = do
    v ← gets (λ d. d.file f)
    assert_that (v.open_for_wr && ltb 0 (length new_list)) (pure tt)
    assert_that (length new_list == length v.extents) (pure tt)
    put_file f (record v { extents = new_list })

  -- An extent that moved is no longer in use where it was. The source reads both lists by one index.
  unfoldable pub clear_moved : List ZoneExtent → List ZoneExtent → M B (Unit {0})
  unfolding sub64
  clear_moved [] new = pure tt
  clear_moved (e ∷ es) [] = pure tt
  clear_moved (e ∷ es) (n ∷ ns) = do
    v ← gets (λ d. d.zone e.zone)
    if e.start == n.start
        then pure tt
        else put_zone e.zone (record v { used_capacity = sub64 v.used_capacity e.length })
    clear_moved es ns

  unfoldable pub use_zone : ℕ → ℕ → M B (Unit {0})
  unfolding add64
  use_zone z n = do
    v ← gets (λ d. d.zone z)
    put_zone z (record v { used_capacity = add64 v.used_capacity n })

module _ (c : Coding) (k : Checksum) {B : Type 0} (be : Backend B) (env : Env B) where
  -- `SyncFileExtents`
  unfoldable pub sync_file_extents : ℕ → List ZoneExtent → M B (Unit {0})
  sync_file_extents f new_extents = do
    v ← gets (λ d. d.file f)
    replace_extent_list f new_extents
    metadata_unsynced f
    sync_file_metadata_no_lock c k be env.now f true
    clear_moved v.extents new_extents

module _ {B : Type 0} (be : Backend B) where
  -- Copies the bytes of an extent to the write pointer of the zone, and gives the place they shall
  -- have there. A sparse file has a header before them. The status of the copy is not looked at.
  unfoldable pub copy_extent : Bool → ZoneExtent → ℕ → ℕ → M B ℕ
  unfolding add64 sub64
  copy_extent sparse e z wp =
      if sparse
      then (do
        ignore (
            migrate_data be z (sub64 e.start sparse_header_size)
              ((e.length + sparse_header_size) % u32_mod))
        add_gc_bytes_written (add64 e.length sparse_header_size)
        pure (add64 wp sparse_header_size))
      else (do
        ignore (migrate_data be z e.start (e.length % u32_mod))
        add_gc_bytes_written e.length
        pure wp)

  -- The extent points to its new place, unless the file is gone. The Boolean tells to go on.
  unfoldable pub point_extent : ZoneExtent → ℕ → ℕ → Option ℕ → M B (ZoneExtent × Bool)
  point_extent e z start none = do ignore (release_migrate_zone be (some z)); pure (e, false)
  point_extent e z start (some g) = do
    use_zone z e.length
    ignore (release_migrate_zone be (some z))
    pure (moved_to z start e, true)

module _ {B : Type 0} (be : Backend B) (env : Env B) (lib : Library) (fps : FilePolicies B) where
  unfoldable pub move_extent : List ℕ → ℕ → ZoneExtent → ℕ → M B (ZoneExtent × Bool)
  move_extent fname f e z = do
    wp ← gets (λ d. (d.zone z).wp)
    sparse ← gets (λ d. (d.file f).is_sparse)
    start ← copy_extent be sparse e z wp
    there ← get_file_no_lock env fname
    point_extent be e z start there

  -- Without a zone the extent stays where it is.
  unfoldable pub move_if_taken :
      List ℕ → ℕ → ZoneExtent → Option (Option ℕ) → M B (ZoneExtent × Bool)
  move_if_taken fname f e none = pure (e, true)
  move_if_taken fname f e (some none) = do ignore (release_migrate_zone be none); pure (e, true)
  move_if_taken fname f e (some (some z)) = move_extent fname f e z

  -- One turn of the loop of `MigrateFileExtents`.
  unfoldable pub migrate_extent :
      List ℕ → ℕ → List ZoneExtentSnapshot → ZoneExtent → M B (ZoneExtent × Bool)
  migrate_extent fname f snapshots e = if not (to_migrate e snapshots) then pure (e, true) else do
    v ← gets (λ d. d.file f)
    zone ← try_value (take_migrate_zone be lib fps f v.lifetime (e.length % u32_mod))
    move_if_taken fname f e zone

  unfoldable pub migrate_each :
      List ℕ → ℕ → List ZoneExtentSnapshot → List ZoneExtent → M B (List ZoneExtent)
  migrate_each fname f snapshots [] = pure []
  migrate_each fname f snapshots (e ∷ es) = do
    (moved, go_on) ← migrate_extent fname f snapshots e
    rest ← (if go_on then migrate_each fname f snapshots es else pure es)
    pure (moved ∷ rest)

  module _ (c : Coding) (k : Checksum) where
    -- With the writers' lock: the new list takes the file's level, and its sync is not looked at.
    unfoldable pub migrate_locked : List ℕ → ℕ → List ZoneExtentSnapshot → Bool → M B (Unit {0})
    migrate_locked fname f snapshots false = pure tt
    migrate_locked fname f snapshots true = do
      v ← gets (λ d. d.file f)
      new_list ← migrate_each fname f snapshots (map (with_level v.level) v.extents)
      ignore (sync_file_extents c k be env f new_list)
      release_wr_lock f

    abbrev pub migrate_held : List ℕ → List ZoneExtentSnapshot → Option ℕ → M B (Unit {0})
    migrate_held fname snapshots none = pure tt
    migrate_held fname snapshots (some f) = do
      hold f
      got ← try_acquire_wr_lock f
      migrate_locked fname f snapshots got
      let_go f

    -- `MigrateFileExtents`: a file that is open for writing stays as it is.
    unfoldable pub migrate_file_extents : List ℕ → List ZoneExtentSnapshot → M B (Unit {0})
    migrate_file_extents fname snapshots =
        get_file_no_lock env fname >>= migrate_held fname snapshots

    unfoldable pub migrate_groups : List (List ℕ × List ZoneExtentSnapshot) → M B (Unit {0})
    migrate_groups [] = pure tt
    migrate_groups ((fname, snapshots) ∷ rest) = do
      migrate_file_extents fname snapshots
      reset_unused_io_zones be true
      migrate_groups rest

    -- `MigrateExtents`
    unfoldable pub migrate_extents : List ZoneExtentSnapshot → M B (Unit {0})
    migrate_extents extents = migrate_groups (group_extents extents [])
