-- ===== src/Tests/Values.antt =====
-- A small device: three zones of sixteen bytes, of which the first holds data, and one file.
use zenfs_modified.Base.{
  List, ℕ, ◌+◌, ◌-◌, ◌*◌, min, ◌==◌, if◌then◌else◌, true, false, none, some, [], ◌∷◌,
}
use zenfs_modified.Base.Int.{pos, negsuc}
use zenfs_modified.Params.{ZenfsParamContainer, default_alloc, lifetime_based, cluster_together}
use zenfs_modified.Store.{
  Superblock, FileSystem, Zone, ZoneExtent, ZoneFile, data_io, Backend, Device, pure, read_failed,
}
use zenfs_modified.EmptyZones.{Library}
use zenfs_modified.Placement.{FilePolicies}

abbrev pub some_zone : ℕ → ℕ → ℕ → Zone
some_zone start used written = record {
  busy = false;
  start = start;
  capacity = 16 - written;
  max_capacity = 16;
  wp = start + written;
  lifetime = 3;
  used_capacity = used;
  reset_count = 0;
  finish_count = 0;
  policy = lifetime_based;
  flag_gc_reset = false;
  bytes_of_level = [];
  level = negsuc 0;
}

abbrev pub zones : ℕ → Zone
zones n = if n == 0 then some_zone 0 8 8 else some_zone (16 * n) 0 0

abbrev pub some_extent : ZoneExtent
some_extent = record { start = 0; length = 8; zone = 0; level = pos 1 }

abbrev pub some_file : ZoneFile
some_file = record {
  file_id = 7;
  extents = some_extent ∷ [];
  linkfiles = (97 ∷ 98 ∷ []) ∷ [];
  active_zone = none;
  extent_start = 8;
  extent_filepos = 8;
  lifetime = 2;
  io_type = data_io;
  file_size = 8;
  nr_synced_extents = 0;
  open_for_wr = false;
  m_time = 1000;
  is_sparse = true;
  is_deleted = false;
  level = pos 1;
  has_keys = true;
  is_recorded = false;
  alloc_size = 0;
  smallest = 5 ∷ [];
  largest = 9 ∷ [];
  num_entries = 4;
  num_deletions = 1;
  num_range_deletions = 0;
  file_size_meta = 8;
  compensated_file_size = 8;
  compensated_range_deletion_size = 0;
  rank = 100000;
}

abbrev pub fresh_file : ZoneFile
fresh_file = record some_file {
  file_id = 0;
  extents = [];
  linkfiles = [];
  file_size = 0;
  m_time = 0;
  is_sparse = false;
}

abbrev pub params : ZenfsParamContainer
params = record {
  empty_zone_allocator = default_alloc;
  real_caza = 1;
  real_oaza = 1;
  dynamic_level_adjustment = true;
  average_value_size = 4080;
  max_level = 1;
  min_boundary = 2;
  max_boundary = 6;
  upper_level_policy = lifetime_based;
  upper_level_policy_fallback = cluster_together;
  lower_level_policy = cluster_together;
  lower_level_policy_fallback = cluster_together;
  middle_level_policy = cluster_together;
  middle_level_policy_fallback = cluster_together;
  fragmentation_enabled = true;
  reserve_zone_count = 0;
}

-- A backend that never fails, keeps nothing, and writes four bytes at most.
abbrev pub backend : Backend (Unit {0})
backend = record {
  reset = λ s b. (some (false, 16), b);
  finish = λ s b. (true, b);
  close = λ s b. (true, b);
  write = λ data_ left wp b. (some (min left 4), b);
  read = λ pos n b. (read_failed, b);
  patience = 0;
}

abbrev pub superblock : Superblock
superblock = record {
  magic = 0x5a454e46;
  uuid = [];
  sequence = 1;
  superblock_version = 2;
  flags = 1;
  block_size = 4;
  zone_size = 4;
  nr_zones = 3;
  finish_treshold = 0;
  aux_fs_path = [];
  zenfs_version = [];
  reserved = [];
}

abbrev pub file_system : FileSystem
file_system = record {
  files = (97 ∷ 98 ∷ [], 0) ∷ [];
  next_file_id = 8;
  next_pointer = 1;
  meta_log = none;
  handles = [];
  superblock = superblock;
}

abbrev pub device : Device (Unit {0})
device = record {
  backend = tt;
  zone = zones;
  file = λ f. some_file;
  io_zones = 0 ∷ 1 ∷ 2 ∷ [];
  meta_zones = [];
  zone_size = 16;
  block_size = 4;
  finish_threshold = 0;
  bytes_written = 0;
  finish_bytes_written = 0;
  gc_bytes_written = 0;
  migrating = false;
  nr_zones = 3;
  active_io_zones = pos 1;
  open_io_zones = pos 0;
  max_nr_active_io_zones = 3;
  max_nr_open_io_zones = 3;
  deferred_status = none;
  levelwise_file_list = [];
  alloc_count = 0;
  failure_count = 0;
  total_reset_count = 0;
  gc_reset_count = 0;
  need_flag = false;
  nearest_got_new = 0;
  zone_pos = 0;
  params = params;
  fs = file_system;
}

abbrev pub library : Library
library = record {
  shuffle = λ zs. zs;
  sort_by = λ key zs. zs;
  interval_bounds = λ size max_level level. (0, size);
}

-- Policies that leave the match as it is.
abbrev pub file_policies : FilePolicies (Unit {0})
file_policies = record {
  by_files = λ p f lifetime min_capacity b. pure b;
  is_high_tombstone = λ file. false;
}

abbrev pub other_extent : ZoneExtent
other_extent = record { start = 16; length = 12; zone = 1; level = pos 1 }

abbrev pub old_name : List ℕ
old_name = 97 ∷ 98 ∷ []

abbrev pub new_name : List ℕ
new_name = 99 ∷ []

-- The device with zones that keep their levels.
abbrev pub still : Device (Unit {0})
still = record device { params = record params { dynamic_level_adjustment = false } }

-- The record of the same file, with an extent in another zone.
abbrev pub update : ZoneFile
update = record some_file { extents = other_extent ∷ []; file_size = 12 }
