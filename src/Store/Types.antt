-- ===== src/Store/Types.antt =====
-- The objects of fs/zbd_zenfs.h and fs/fs_zenfs.h: `Zone`, `ZoneExtent`, `ZoneFile` and `ZonedBlockDevice`, and the
-- interface `ZonedBlockDeviceBackend`. A pointer is a number, and the device holds the heap: a map
-- from the pointers of zones to zones and one from the pointers of files to files.
use zenfs_modified.Base.{ℕ, Bool, List, Option}
use zenfs_modified.Base.Int.{ℤ}
use zenfs_modified.Params.{PlacementPolicyType, ZenfsParamContainer}

-- The codes of `IOStatus`; `assertion` is a failed `assert`, `fault` an access out of bounds, and
-- `blocked` a wait for other threads.
pub data Error : Type 0 where
  corruption no_space io_error invalid_argument not_supported not_found aborted : Error
  assertion fault blocked : Error

pub record Zone : Type 0 where
  pub busy : Bool
  pub start : ℕ
  pub capacity : ℕ
  pub max_capacity : ℕ
  pub wp : ℕ
  pub lifetime : ℕ
  pub used_capacity : ℕ
  pub reset_count : ℕ
  pub finish_count : ℕ
  pub policy : PlacementPolicyType
  pub flag_gc_reset : Bool
  pub bytes_of_level : List ℤ
  pub level : ℤ

-- `zone` is the pointer of the zone that holds the extent.
pub record ZoneExtent : Type 0 where
  pub start : ℕ
  pub length : ℕ
  pub zone : ℕ
  pub level : ℤ

-- RocksDB's `IOType`.
pub data IoType : Type 0 where
  data_io filter_io index_io metadata_io wal manifest log unknown invalid : IoType

pub record ZoneFile : Type 0 where
  pub file_id : ℕ
  pub extents : List ZoneExtent
  pub linkfiles : List (List ℕ)
  pub active_zone : Option ℕ
  pub extent_start : ℕ
  pub extent_filepos : ℕ
  pub lifetime : ℕ
  pub io_type : IoType
  pub file_size : ℕ
  pub nr_synced_extents : ℕ
  pub open_for_wr : Bool
  pub m_time : ℕ
  pub is_sparse : Bool
  pub is_deleted : Bool
  pub level : ℤ
  pub has_keys : Bool
  pub is_recorded : Bool
  pub alloc_size : ℕ
  pub smallest : List ℕ
  pub largest : List ℕ
  pub num_entries : ℕ
  pub num_deletions : ℕ
  pub num_range_deletions : ℕ
  pub file_size_meta : ℕ
  pub compensated_file_size : ℕ
  pub compensated_range_deletion_size : ℕ
  pub rank : ℕ

-- The end of one read: its bytes, -1 with EINTR, or another error.
pub data ReadReply : Type 0 where
  got_bytes : List ℕ → ReadReply
  interrupted : ReadReply
  read_failed : ReadReply

-- What the source asks of the backend library, over the backend's own state `B`. `none` stands for
-- an error; `reset` answers whether the zone went offline and its capacity, `write` the bytes taken,
-- and `read` the bytes from an address, of the number asked for at most.
-- `patience` is how many times a call follows a read that a signal interrupts before it is `blocked`.
pub record Backend (B : Type 0) : Type 0 where
  pub reset : ℕ → B → Option (Bool × ℕ) × B
  pub finish : ℕ → B → Bool × B
  pub close : ℕ → B → Bool × B
  pub write : List ℕ → ℕ → ℕ → B → Option ℕ × B
  pub read : ℕ → ℕ → B → ReadReply × B
  pub patience : ℕ

-- fs/fs_zenfs.h, class `Superblock`. The texts have their full size, with the zeros behind them.
pub record Superblock : Type 0 where
  pub magic : ℕ
  pub uuid : List ℕ
  pub sequence : ℕ
  pub superblock_version : ℕ
  pub flags : ℕ
  pub block_size : ℕ
  pub zone_size : ℕ
  pub nr_zones : ℕ
  pub finish_treshold : ℕ
  pub aux_fs_path : List ℕ
  pub zenfs_version : List ℕ
  pub reserved : List ℕ

-- fs/fs_zenfs.h, class `ZenFS`: the names with the pointers of their files, in the names' order, the
-- next file number, the next pointer that is free, the zone that the metadata log writes to, and the
-- files that are open: one entry for each writer or reader that holds a file.
pub record FileSystem : Type 0 where
  pub files : List (List ℕ × ℕ)
  pub next_file_id : ℕ
  pub next_pointer : ℕ
  pub meta_log : Option ℕ
  pub handles : List ℕ
  pub superblock : Superblock

-- `levelwise_file_list` holds pointers of files, one list for each level.
pub record Device (B : Type 0) : Type 0 where
  pub backend : B
  pub zone : ℕ → Zone
  pub file : ℕ → ZoneFile
  pub io_zones : List ℕ
  pub meta_zones : List ℕ
  pub zone_size : ℕ
  pub block_size : ℕ
  pub finish_threshold : ℕ
  pub bytes_written : ℕ
  pub finish_bytes_written : ℕ
  pub gc_bytes_written : ℕ
  pub migrating : Bool
  pub nr_zones : ℕ
  pub active_io_zones : ℤ
  pub open_io_zones : ℤ
  pub max_nr_active_io_zones : ℕ
  pub max_nr_open_io_zones : ℕ
  pub deferred_status : Option Error
  pub levelwise_file_list : List (List ℕ)
  pub alloc_count : ℕ
  pub failure_count : ℕ
  pub total_reset_count : ℕ
  pub gc_reset_count : ℕ
  pub need_flag : Bool
  pub nearest_got_new : ℕ
  pub zone_pos : ℕ
  pub params : ZenfsParamContainer
  pub fs : FileSystem
