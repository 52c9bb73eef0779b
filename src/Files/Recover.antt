-- ===== src/Files/Recover.antt =====
-- fs/zbd_zonefile_zenfs.cc: `Recover` and `RecoverSparseExtents`, which find the extents of a file
-- that was open for writing. `read_header` stands for the read of a block of the device with
-- `DecodeFixed64` of it: none where the read fails or is short.
use zenfs_modified.Base.{
  ℕ, zero, suc, ◌-◌, ◌/◌, ◌%◌, Option, none, some, List, [], ◌∷◌, ◌++◌, ltb, ◌==◌, if◌then◌else◌,
}
use zenfs_modified.Base.Words.{add64, mul64}
use zenfs_modified.Store.{
  ZoneExtent, ZoneFile, M, ◌>>=◌, ◌>>◌, pure, fail, gets, put_zone, put_file, io_error, blocked,
}
use zenfs_modified.Codec.{no_extent, get_io_zone}

-- The sum of the extents' lengths, as `Recover` takes it.
unfoldable pub sum_lengths : ℕ → List ZoneExtent → ℕ
unfolding add64
sum_lengths n [] = n
sum_lengths n (e ∷ es) = sum_lengths (add64 n e.length) es

-- The blocks that a segment takes with its header of eight bytes.
unfoldable pub segment_blocks : ℕ → ℕ → ℕ
unfolding add64
segment_blocks block_size extent_length =
    let whole = add64 extent_length 8 / block_size in
    if add64 extent_length 8 % block_size == 0 then whole else add64 whole 1

module _ {B : Type 0} where
  -- Bytes that were written become an extent of the file, and count as used.
  unfoldable pub add_recovered : ℕ → ℕ → ℕ → ℕ → M B (Unit {0})
  unfolding add64
  add_recovered f z start len = do
    v ← gets (λ d. d.zone z)
    put_zone z (record v { used_capacity = add64 v.used_capacity len })
    file ← gets (λ d. d.file f)
    let e : ZoneExtent = record { start = start; length = len; zone = z; level = file.level }
    put_file f (record file { extents = file.extents ++ e ∷ [] })

  -- The file has no active extent any more.
  unfoldable pub mark_closed : ℕ → M B (Unit {0})
  mark_closed f = do v ← gets (λ d. d.file f); put_file f (record v { extent_start = no_extent })

  unfoldable pub close_recovered : ℕ → M B (Unit {0})
  unfolding sum_lengths
  close_recovered f = do
    v ← gets (λ d. d.file f)
    put_file f (record v { extent_start = no_extent; file_size = sum_lengths 0 v.extents })

  module _ (read_header : ℕ → M B (Option ℕ)) where
    unfoldable pub recover_segment : ℕ → ℕ → ℕ → Option ℕ → (ℕ → M B (Unit {0})) → M B (Unit {0})
    unfolding add64 mul64 segment_blocks
    recover_segment f z next none more = fail io_error
    recover_segment f z next (some len) more = if len == 0 then fail io_error else (do
      block_size ← gets (λ d. d.block_size)
      add_recovered f z (add64 next 8) len
      more (add64 next (mul64 (segment_blocks block_size len) block_size)))

    -- The loop of `RecoverSparseExtents`. A round moves on by a block at least, so the bytes to
    -- recover are fuel enough while addresses do not wrap around.
    unfoldable pub recover_sparse : ℕ → ℕ → ℕ → ℕ → ℕ → M B (Unit {0})
    recover_sparse zero f z end next = if ltb next end then fail blocked else pure tt
    recover_sparse (suc fuel) f z end next =
        let more = recover_sparse fuel f z end in
        if ltb next end
        then (do header ← read_header next; recover_segment f z next header more)
        else pure tt

    unfoldable pub recover_data : ℕ → ℕ → ZoneFile → ℕ → M B (Unit {0})
    recover_data f z file wp =
        if file.is_sparse
        then recover_sparse (wp - file.extent_start) f z wp file.extent_start
        else add_recovered f z file.extent_start (wp - file.extent_start)

    unfoldable pub recover_in : ℕ → ZoneFile → Option ℕ → M B (Unit {0})
    recover_in f file none = fail io_error
    recover_in f file (some z) = do
      wp ← gets (λ d. (d.zone z).wp)
      if ltb wp file.extent_start
          then fail io_error
          else if wp == file.extent_start
          then mark_closed f
          else (recover_data f z file wp >> close_recovered f)

    -- `Recover`
    unfoldable pub recover : ℕ → M B (Unit {0})
    unfolding get_io_zone
    recover f = do
      file ← gets (λ d. d.file f)
      zone ← gets (λ d. get_io_zone d.zone d.zone_size d.io_zones file.extent_start)
      if file.extent_start == no_extent then pure tt else recover_in f file zone
