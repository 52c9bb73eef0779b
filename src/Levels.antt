-- ===== src/Levels.antt =====
-- fs/zbd_extension_zenfs.cc: the table files of each level, in the order of their smallest keys, and
-- what is counted over them. The comparison of keys is RocksDB's `sstableKeyCompare`; a list of a
-- level holds pointers of files.
pub mod Sorted
use zenfs_modified.Base.{
  ℕ, zero, suc, ◌+◌, ◌*◌, Bool, true, false, not, ◌&&◌, ◌||◌, List, [], ◌∷◌, ◌++◌, map, ltb, leb,
  ◌==◌, if◌then◌else◌, length, set, max,
}
use zenfs_modified.Base.Int.{ℤ, pos, negsuc, ltb_ℤ, leb_ℤ}
use zenfs_modified.Base.Words.{add64, sub64, mul64}
use zenfs_modified.Store.{
  ZoneFile, IoType, data_io, filter_io, index_io, metadata_io, wal, manifest, log, unknown, invalid,
  M, ok, ◌>>=◌, ◌>>◌, pure, gets, put_file, point_at,
}

-- `sstableKeyCompare` of two internal keys.
abbrev pub KeyOrder : Type 0
KeyOrder = List ℕ → List ℕ → ℤ

abbrev pub is_data : IoType → Bool
is_data data_io = true
is_data _ = false

-- `levelwise_file_list_.resize(n)`, where it grows.
abbrev pub grow_lists : ℕ → List (List ℕ) → List (List ℕ)
grow_lists zero ls = ls
grow_lists (suc n) [] = [] ∷ grow_lists n []
grow_lists (suc n) (l ∷ ls) = l ∷ grow_lists n ls

abbrev pub level_list : List (List ℕ) → ℕ → List ℕ
level_list [] n = []
level_list (l ∷ ls) zero = l
level_list (l ∷ ls) (suc n) = level_list ls n

-- A level that the lists do not have holds no files.
abbrev pub files_at : List (List ℕ) → ℤ → List ℕ
files_at lists (negsuc n) = []
files_at lists (pos n) = level_list lists n

-- `std::list::remove`
abbrev pub remove_pointer : ℕ → List ℕ → List ℕ
remove_pointer f [] = []
remove_pointer f (g ∷ gs) = if f == g then remove_pointer f gs else g ∷ remove_pointer f gs

module _ (kc : KeyOrder) where
  -- The place of a file is before the first one with a larger smallest key.
  unfoldable pub insert_record : (ℕ → ZoneFile) → ℕ → List ℕ → List ℕ
  insert_record h f [] = f ∷ []
  insert_record h f (g ∷ gs) =
      if leb_ℤ (kc (h g).smallest (h f).smallest) (pos 0)
      then g ∷ insert_record h f gs
      else f ∷ (g ∷ gs)

  -- `IsOverlapping`
  unfoldable pub is_overlapping : ZoneFile → ZoneFile → Bool
  is_overlapping a b =
      if ltb_ℤ (kc a.largest b.smallest) (pos 0)
      then false
      else if ltb_ℤ (pos 0) (kc a.smallest b.largest)
      then false
      else true

  -- The files of a list, other than the file itself, that overlap it.
  unfoldable pub overlapping : (ℕ → ZoneFile) → ℕ → List ℕ → List ℕ
  unfolding is_overlapping
  overlapping h f [] = []
  overlapping h f (g ∷ gs) =
      if not (f == g) && is_overlapping (h f) (h g)
      then g ∷ overlapping h f gs
      else overlapping h f gs

-- The size as if each deletion had the values that it will free; the number of deletions that
-- are not range deletions wraps around where there are fewer deletions than those.
unfoldable pub compensated : ℕ → ZoneFile → ZoneFile
unfolding add64 sub64 mul64
compensated average v =
    let size = max (max v.file_size_meta v.file_size) v.alloc_size in
    let doubled = mul64 (sub64 v.num_deletions v.num_range_deletions) 2 in
    let extra =
      if leb v.num_entries doubled
      then add64 size (mul64 (mul64 (sub64 doubled v.num_entries) average) 2)
      else size in
    record v {
      file_size_meta = size;
      compensated_file_size = add64 extra v.compensated_range_deletion_size;
    }

abbrev pub sum_entries : (ℕ → ZoneFile) → List ℕ → ℕ → ℕ
sum_entries h [] count = count
sum_entries h (g ∷ gs) count = sum_entries h gs (add64 count (h g).num_entries)

module _ {B : Type 0} where
  -- `RemoveZoneFileRecordNoLock`
  unfoldable pub remove_zone_file_record : ℕ → M B (Unit {0})
  remove_zone_file_record f d =
      ok tt (record d { levelwise_file_list = map (remove_pointer f) d.levelwise_file_list })

  unfoldable pub mark_recorded : ℕ → M B (Unit {0})
  mark_recorded f d =
      ok tt (record d { file = point_at d.file f (record (d.file f) { is_recorded = true }) })

  -- `GetFileSizeMeta`, which raises the size that it returns.
  unfoldable pub get_file_size_meta : ℕ → M B ℕ
  get_file_size_meta f = do
    v ← gets (λ d. d.file f)
    let size = max (max v.file_size_meta v.file_size) v.alloc_size
    put_file f (record v { file_size_meta = size })
    pure size

  -- `ComputeCompensatedSize`
  unfoldable pub compute_compensated_size : ℕ → M B (Unit {0})
  compute_compensated_size f = do
    average ← gets (λ d. d.params.average_value_size)
    v ← gets (λ d. d.file f)
    put_file f (compensated average v)

  unfoldable pub compute_each : List ℕ → M B (Unit {0})
  compute_each [] = pure tt
  compute_each (f ∷ fs) = compute_compensated_size f >> compute_each fs

  unfoldable pub compute_levels : List (List ℕ) → M B (Unit {0})
  compute_levels [] = pure tt
  compute_levels (l ∷ ls) = compute_each l >> compute_levels ls

  -- `RecomputeCompensatedFileSizes`
  unfoldable pub recompute_compensated_file_sizes : M B (Unit {0})
  recompute_compensated_file_sizes = do
    lists ← gets (λ d. d.levelwise_file_list)
    compute_levels lists

  -- `GetSameLevelFiles`: a level that there is none of leaves the container as it was.
  unfoldable pub get_same_level_files : List ℕ → ℤ → M B (List ℕ)
  get_same_level_files container (negsuc n) = pure container
  get_same_level_files container (pos n) = do
    lists ← gets (λ d. d.levelwise_file_list)
    pure (if ltb n (length lists) then level_list lists n else container)

  module _ (kc : KeyOrder) where
    unfoldable pub insert_at : ℕ → ℕ → M B (Unit {0})
    insert_at f n d =
        let lists = grow_lists (suc n) d.levelwise_file_list in
        ok tt (record d {
          levelwise_file_list = set lists n (insert_record kc d.file f (level_list lists n));
        })

    abbrev pub add_at : ℕ → ℤ → M B (Unit {0})
    add_at f (negsuc n) = pure tt
    add_at f (pos n) = insert_at f n

    -- `AddZoneFileRecordNoLock`: a file with keys and a level, that is a table.
    unfoldable pub add_zone_file_record : ℕ → M B (Unit {0})
    add_zone_file_record f = do
      v ← gets (λ d. d.file f)
      if not v.has_keys
          then pure tt
          else if not (is_data v.io_type)
          then pure tt
          else add_at f v.level

    unfoldable pub record_file : ℕ → ZoneFile → M B (Unit {0})
    record_file f v = do
      if v.is_recorded then remove_zone_file_record f else pure tt
      add_zone_file_record f
      mark_recorded f

    -- `CreateOrUpdateRecord`
    unfoldable pub create_or_update_record : ℕ → M B (Unit {0})
    create_or_update_record f = do
      v ← gets (λ d. d.file f)
      if ltb_ℤ v.level (pos 0) then pure tt else record_file f v

    -- `GetOverlappingFiles`: added behind the container's files.
    unfoldable pub get_overlapping_files : List ℕ → ℕ → ℤ → M B (List ℕ)
    get_overlapping_files container f level d =
        ok (container ++ overlapping kc d.file f (files_at d.levelwise_file_list level)) d

    -- `GetOverlapFileCount`
    unfoldable pub get_overlap_file_count : ℕ → ℤ → M B ℕ
    get_overlap_file_count f level d =
        ok (length (overlapping kc d.file f (files_at d.levelwise_file_list level))) d

    unfoldable pub add_sizes : ℕ → ℕ → List ℕ → M B ℕ
    unfolding add64
    add_sizes f count [] = pure count
    add_sizes f count (g ∷ gs) = do
      v ← gets (λ d. d.file f)
      w ← gets (λ d. d.file g)
      if not (f == g) && is_overlapping kc v w
          then (do size ← get_file_size_meta g; add_sizes f (add64 count size) gs)
          else add_sizes f count gs

    -- `GetOverlapByteCount`
    unfoldable pub get_overlap_byte_count : ℕ → ℤ → M B ℕ
    get_overlap_byte_count f level = do
      lists ← gets (λ d. d.levelwise_file_list)
      add_sizes f 0 (files_at lists level)

    -- `GetOverlapKeyCount`
    unfoldable pub get_overlap_key_count : ℕ → ℤ → M B ℕ
    get_overlap_key_count f level d =
        ok (sum_entries d.file (overlapping kc d.file f (files_at d.levelwise_file_list level)) 0) d
