-- ===== src/Files/Data.antt =====
-- fs/zbd_zonefile_zenfs.cc: `CloseActiveZone`, `AllocateNewZone` and `Append`, which move a file from
-- a full zone to the next one. `MetadataWriter::Persist` is the parameter `persist`.
use zenfs_modified.Base.{
  zeros, ℕ, zero, suc, ◌-◌, ◌%◌, Option, none, some, List, [], ◌∷◌, ◌++◌, ◌+◌, drop, take, ltb,
  ◌==◌, if◌then◌else◌,
}
use zenfs_modified.Base.Words.{add64, sub32}
use zenfs_modified.Store.{
  Backend, M, ◌>>=◌, ◌>>◌, pure, fail, gets, put_file, put_zone, ZoneExtent, no_space, blocked,
  fault,
}
use zenfs_modified.Zones.{is_full, close, append}
use zenfs_modified.Tokens.{put_open_io_zone_token}
use zenfs_modified.EmptyZones.{Library}
use zenfs_modified.Reclaim.{attempt, rethrow}
use zenfs_modified.Placement.{FilePolicies}
use zenfs_modified.Allocate.{put_active_if, allocate_io_zone}
use zenfs_modified.Files.{release_active_zone, set_active_zone, push_extent}

-- The bytes up to the next block boundary.
unfoldable pub padding : ℕ → ℕ → ℕ
padding block_size n = if n % block_size == 0 then 0 else block_size - n % block_size

module _ {B : Type 0} (be : Backend B) where
  -- The zone is released whether it could be closed or not; the tokens go back only if it was.
  unfoldable pub close_zone : ℕ → Option ℕ → M B (Unit {0})
  close_zone f none = pure tt
  close_zone f (some z) = do
    full ← gets (λ d. is_full (d.zone z))
    s ← attempt (close be z)
    release_active_zone f
    rethrow s
    put_open_io_zone_token
    put_active_if full

  -- `CloseActiveZone`
  unfoldable pub close_active_zone : ℕ → M B (Unit {0})
  close_active_zone f = do v ← gets (λ d. d.file f); close_zone f v.active_zone

  module _ (lib : Library) (fps : FilePolicies B) (persist : ℕ → M B (Unit {0})) where
    unfoldable pub take_zone : ℕ → Option ℕ → M B (Unit {0})
    take_zone f none = fail no_space
    take_zone f (some z) = do
      set_active_zone f z
      wp ← gets (λ d. (d.zone z).wp)
      v ← gets (λ d. d.file f)
      put_file f (record v { extent_start = wp; extent_filepos = v.file_size })
      persist f

    -- `AllocateNewZone`
    unfoldable pub allocate_new_zone : ℕ → M B (Unit {0})
    allocate_new_zone f = do
      v ← gets (λ d. d.file f)
      zone ← allocate_io_zone be lib fps f v.lifetime v.io_type
      take_zone f zone

    unfoldable pub set_alloc_size : ℕ → ℕ → M B (Unit {0})
    set_alloc_size f n = do v ← gets (λ d. d.file f); put_file f (record v { alloc_size = n })

    unfoldable pub next_zone : ℕ → ℕ → M B (Unit {0})
    next_zone f left =
        push_extent f >> (close_active_zone f >> (set_alloc_size f left >> allocate_new_zone f))

    -- The active zone, which a null pointer has not.
    unfoldable pub active_of : ℕ → M B ℕ
    active_of f = do
      v ← gets (λ d. d.file f)
      elim v.active_zone [ none ↦ fail fault | some z ↦ pure z ]

    unfoldable pub grow_file : ℕ → ℕ → M B (Unit {0})
    unfolding add64
    grow_file f n = do
      v ← gets (λ d. d.file f)
      put_file f (record v { file_size = add64 v.file_size n })

    unfoldable pub leave_full : ℕ → ℕ → M B (Unit {0})
    leave_full f left = do
      z ← active_of f
      full ← gets (λ d. is_full (d.zone z))
      if full then next_zone f left else pure tt

    -- The loop of `Append`. A round writes a byte at least, so the size is fuel enough, as long as no
    -- zone that is handed out is full; where one is, the source may turn more often.
    unfoldable pub file_append_loop : ℕ → ℕ → List ℕ → ℕ → M B (Unit {0})
    unfolding sub32
    file_append_loop zero f data_ left = if left == 0 then pure tt else fail blocked
    file_append_loop (suc fuel) f data_ left =
        let rest = do
          leave_full f left
          z ← active_of f
          room ← gets (λ d. (d.zone z).capacity)
          let wr_size = if ltb room left then room else left
          append be z data_ wr_size
          grow_file f wr_size
          file_append_loop fuel f (drop wr_size data_) (sub32 left wr_size)
        in if left == 0 then pure tt else rest

    unfoldable pub ensure_zone : ℕ → Option ℕ → M B (Unit {0})
    ensure_zone f none = allocate_new_zone f
    ensure_zone f (some z) = pure tt

    -- `ZoneFile::Append`
    unfoldable pub file_append : ℕ → List ℕ → ℕ → M B (Unit {0})
    file_append f data_ data_size = do
      set_alloc_size f data_size
      v ← gets (λ d. d.file f)
      ensure_zone f v.active_zone
      file_append_loop data_size f data_ data_size

    -- An extent of the bytes that were just written, without the padding.
    unfoldable pub add_written : ℕ → ℕ → ℕ → M B (Unit {0})
    unfolding add64
    add_written f z len = do
      v ← gets (λ d. d.zone z)
      file ← gets (λ d. d.file f)
      let e : ZoneExtent = record {
        start = file.extent_start;
        length = len;
        zone = z;
        level = file.level;
      }
      put_zone z (record v { used_capacity = add64 v.used_capacity len })
      put_file f (record file {
        extents = file.extents ++ e ∷ [];
        extent_start = v.wp;
        file_size = add64 file.file_size len;
      })

    unfoldable pub renew_if_full : ℕ → ℕ → ℕ → M B (Unit {0})
    renew_if_full f z left = do
      full ← gets (λ d. is_full (d.zone z))
      if full
          then close_active_zone f >> (set_alloc_size f left >> allocate_new_zone f)
          else pure tt

    -- The loop of `BufferedAppend`: the data is what of the buffer has still to be written, and the
    -- padding's bytes are zeros.
    unfoldable pub buffered_loop : ℕ → ℕ → List ℕ → ℕ → M B (Unit {0})
    unfolding sub32 padding
    buffered_loop zero f buffer left = if left == 0 then pure tt else fail blocked
    buffered_loop (suc fuel) f buffer left =
        let rest = do
          z ← active_of f
          room ← gets (λ d. (d.zone z).capacity)
          block_size ← gets (λ d. d.block_size)
          let wr_size = if ltb room left then room else left
          let pad = padding block_size wr_size
          append be z (take wr_size buffer ++ zeros pad) (wr_size + pad)
          add_written f z wr_size
          renew_if_full f z (sub32 left wr_size)
          buffered_loop fuel f (drop wr_size buffer) (sub32 left wr_size)
        in if left == 0 then pure tt else rest

    unfoldable pub buffered_append : ℕ → List ℕ → ℕ → M B (Unit {0})
    buffered_append f buffer data_size = do
      set_alloc_size f data_size
      v ← gets (λ d. d.file f)
      ensure_zone f v.active_zone
      buffered_loop data_size f buffer data_size
