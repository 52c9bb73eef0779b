-- ===== src/Gc.antt =====
-- fs/fs_gc_zenfs.cc: the garbage collection, with `TakeMigrateZone` and `ReleaseMigrateZone` of
-- fs/zbd_zenfs.cc, `MigrateData` of fs/io_zenfs.cc and `SyncFileExtents` of fs/fs_zenfs.cc.
pub mod Choose
pub mod Migrate
pub mod Frame
pub mod Moves
pub mod Balance
use zenfs_modified.Base.{
  ℕ, zero, suc, ◌+◌, Bool, true, false, Option, none, some, List, [], ◌∷◌, ◌++◌, length, ltb, ◌==◌,
  ◌&&◌, ◌%◌, if◌then◌else◌,
}
use zenfs_modified.Base.Int.{ℤ}
use zenfs_modified.Base.Words.{add64, sub32, u32_mod}
use zenfs_modified.Store.{
  ZoneExtent, Backend, Device, Outcome, ok, err, M, ◌>>=◌, ◌>>◌, pure, fail, gets, assert_that,
  put_zone, put_file, blocked, io_error, fault,
}
use zenfs_modified.Zones.{is_full, append, close, check_release}
use zenfs_modified.Tokens.{put_open_io_zone_token}
use zenfs_modified.EmptyZones.{Library}
use zenfs_modified.Reclaim.{is_status, on_error}
use zenfs_modified.Placement.{FilePolicies}
use zenfs_modified.Allocate.{put_active_if, allocate_io_zone_no_lock}
use zenfs_modified.MetaLog.{read_device}
use zenfs_modified.Files.Data.{padding}
use zenfs_modified.Fs.Persist.{ignore}

-- snapshot.h, `ZoneExtentSnapshot`
pub record ZoneExtentSnapshot : Type 0 where
  pub start : ℕ
  pub length : ℕ
  pub zone_start : ℕ
  pub level : ℤ
  pub filename : List ℕ

-- `uint32_t step = 128 << 10`
abbrev pub step : ℕ
step = 131_072

-- The value of a call, or none where it returned an error.
abbrev pub value_of : {B A : Type 0} → Outcome B A → Outcome B (Option A)
value_of (ok a d) = ok (some a) d
value_of (err e d) = if is_status e then ok none d else err e d

module _ {B : Type 0} where
  unfoldable pub try_value : {A : Type 0} → M B A → M B (Option A)
  try_value m d = value_of (m d)

  abbrev pub set_migrating : Bool → M B (Unit {0})
  set_migrating b d = ok tt (record d { migrating = b })

  -- `AddGCBytesWritten`
  unfoldable pub add_gc_bytes_written : ℕ → M B (Unit {0})
  unfolding add64
  add_gc_bytes_written n d = ok tt (record d { gc_bytes_written = add64 d.gc_bytes_written n })

  abbrev pub taken_zone : Option ℕ → M B (Option ℕ)
  taken_zone none = set_migrating false >> pure none
  taken_zone (some z) = pure (some z)

module _ {B : Type 0} (be : Backend B) where
  -- The zone's tokens go back only if it is closed and released.
  unfoldable pub release_taken : Option ℕ → M B (Unit {0})
  release_taken none = pure tt
  release_taken (some z) = do
    full ← gets (λ d. is_full (d.zone z))
    close be z
    check_release z
    put_open_io_zone_token
    put_active_if full

  -- `ReleaseMigrateZone`
  unfoldable pub release_migrate_zone : Option ℕ → M B (Unit {0})
  release_migrate_zone zone = set_migrating false >> release_taken zone

  -- A migration that another thread makes has to be waited for.
  unfoldable pub take_migrate_zone : Library → FilePolicies B → ℕ → ℕ → ℕ → M B (Option ℕ)
  take_migrate_zone lib fps f lifetime min_capacity = do
    migrating ← gets (λ d. d.migrating)
    if migrating then fail blocked else do
      set_migrating true
      v ← gets (λ d. d.file f)
      z ←
          on_error (allocate_io_zone_no_lock be lib fps f lifetime v.io_type min_capacity)
            (set_migrating false)
      taken_zone z

  abbrev pub write_read : ℕ → (List ℕ → M B (Unit {0})) → Option (List ℕ) → M B (Unit {0})
  write_read target more none = fail io_error
  write_read target more (some bytes) = ignore (append be target bytes (length bytes)) >> more bytes

  -- The loop of `MigrateData`. It does not look at the status of the append, and goes on by the bytes
  -- that it read. A round leaves a byte less to move at least.
  unfoldable pub migrate_loop : ℕ → ℕ → ℕ → ℕ → ℕ → M B (Unit {0})
  unfolding sub32 padding
  migrate_loop zero target offset length_left read_sz =
      if length_left == 0 then pure tt else fail blocked
  migrate_loop (suc fuel) target offset length_left read_sz =
      let size = if ltb read_sz length_left then read_sz else length_left in
      let more = λ (bytes : List ℕ).
        migrate_loop fuel target (add64 offset (length bytes)) (sub32 length_left size) size in
      let rest = do
        block_size ← gets (λ d. d.block_size)
        let asked = size + padding block_size size
        reply ← read_device be offset asked
        write_read target more reply
      in if length_left == 0 then pure tt else rest

  -- `MigrateData`; the length is kept in 32 bits.
  unfoldable pub migrate_data : ℕ → ℕ → ℕ → M B (Unit {0})
  migrate_data target offset size = do
    block_size ← gets (λ d. d.block_size)
    assert_that (offset % block_size == 0)
        (migrate_loop (size % u32_mod) target offset (size % u32_mod) step)
