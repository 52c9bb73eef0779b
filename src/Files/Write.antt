-- ===== src/Files/Write.antt =====
-- fs/zbd_zonefile_zenfs.cc: the lock of the writers, `CloseWR`, and what RocksDB tells of a file's
-- keys and sizes while it writes it. The sequence numbers and the counts of the keys, which nothing
-- reads, are left out.
use zenfs_modified.Base.{ℕ, Bool, true, false, ◌||◌, List, ◌==◌, if◌then◌else◌, length, max}
use zenfs_modified.Base.Int.{ltb_ℤ, pos}
use zenfs_modified.Store.{Backend, M, ok, ◌>>=◌, ◌>>◌, pure, gets, assert_that, put_file}
use zenfs_modified.Codec.{no_extent}
use zenfs_modified.Levels.{KeyOrder, create_or_update_record}
use zenfs_modified.Files.Data.{close_active_zone}

-- RocksDB's `TableProperties`, as far as they are read.
pub record TableProperties : Type 0 where
  pub num_entries : ℕ
  pub num_deletions : ℕ
  pub num_range_deletions : ℕ
  pub data_size : ℕ

abbrev pub is_no_key : List ℕ → Bool
is_no_key key = length key == 0

module _ {B : Type 0} where
  -- `TryAcquireWRLock`
  unfoldable pub try_acquire_wr_lock : ℕ → M B Bool
  try_acquire_wr_lock f = do
    v ← gets (λ d. d.file f)
    if v.open_for_wr then pure false else put_file f (record v { open_for_wr = true }) >> pure true

  -- `ReleaseWRLock`
  unfoldable pub release_wr_lock : ℕ → M B (Unit {0})
  release_wr_lock f = do
    v ← gets (λ d. d.file f)
    assert_that v.open_for_wr (put_file f (record v { open_for_wr = false }))

  -- `SetWriteLifeTimeHint`
  unfoldable pub set_write_life_time_hint : ℕ → ℕ → M B (Unit {0})
  set_write_life_time_hint f lifetime = do
    v ← gets (λ d. d.file f)
    put_file f (record v { lifetime = lifetime })

  -- `SetFileSize`
  unfoldable pub set_file_size : ℕ → ℕ → M B (Unit {0})
  set_file_size f size = do v ← gets (λ d. d.file f); put_file f (record v { file_size = size })

  -- `UpdateInternalKeys`: keys come in their order.
  unfoldable pub update_internal_keys : ℕ → List ℕ → M B (Unit {0})
  update_internal_keys f key = do
    v ← gets (λ d. d.file f)
    put_file f (record v {
      smallest = if is_no_key v.smallest then key else v.smallest;
      largest = key;
      has_keys = true;
    })

  -- `UpdateInternalKeysRange`, with the comparison of the caller.
  unfoldable pub update_internal_keys_range : KeyOrder → ℕ → List ℕ → List ℕ → M B (Unit {0})
  update_internal_keys_range icmp f start end = do
    v ← gets (λ d. d.file f)
    put_file f (record v {
      smallest =
          if is_no_key v.smallest || ltb_ℤ (icmp start v.smallest) (pos 0)
          then start
          else v.smallest;
      largest =
          if is_no_key v.largest || ltb_ℤ (icmp v.largest end) (pos 0) then end else v.largest;
      has_keys = true;
    })

  -- `UpdateMetadata` of the table's properties.
  unfoldable pub update_properties : ℕ → TableProperties → M B (Unit {0})
  update_properties f p = do
    v ← gets (λ d. d.file f)
    put_file f (record v {
      num_entries = max v.num_entries p.num_entries;
      num_deletions = max v.num_deletions p.num_deletions;
      num_range_deletions = max v.num_range_deletions p.num_range_deletions;
      file_size_meta = max v.file_size_meta p.data_size;
    })

  abbrev pub put_average_value_size : ℕ → M B (Unit {0})
  put_average_value_size size d =
      ok tt (record d { params = record d.params { average_value_size = size } })

  -- `UpdateMetadata` of the numbers; a mean size of zero is not known.
  unfoldable pub update_metadata : ℕ → TableProperties → ℕ → ℕ → M B (Unit {0})
  unfolding update_properties
  update_metadata f p compensated_range_deletion_size average_value_size = do
    update_properties f p
    v ← gets (λ d. d.file f)
    put_file f (record v {
      compensated_range_deletion_size =
          max v.compensated_range_deletion_size compensated_range_deletion_size;
    })
    if average_value_size == 0 then pure tt else put_average_value_size average_value_size

  module _ (kc : KeyOrder) (be : Backend B) (persist : ℕ → M B (Unit {0})) where
    -- `CloseWR`; `persist` is `PersistMetadata`.
    unfoldable pub close_wr : ℕ → M B (Unit {0})
    close_wr f = do
      create_or_update_record kc f
      v ← gets (λ d. d.file f)
      put_file f (record v { extent_start = no_extent })
      persist f
      release_wr_lock f
      close_active_zone be f
