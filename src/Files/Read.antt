-- ===== src/Files/Read.antt =====
-- fs/zbd_zonefile_zenfs.cc: `PositionedRead` and `InvalidateCache`, and `ZonedSequentialFile` of
-- fs/io_zenfs.cc. The backend reads the same bytes whether the read is direct or not. The lock of the extents is not waited for.
pub mod Segment
pub mod Spot
pub mod Round
pub mod Content
pub mod Progress
pub mod Total
use zenfs_modified.Base.{
  ℕ, zero, suc, ◌+◌, ◌-◌, ◌%◌, Bool, not, ◌&&◌, Option, none, some, List, [], ◌∷◌, ◌++◌, ltb, leb,
  ◌==◌, if◌then◌else◌, length, take, min,
}
use zenfs_modified.Base.Words.{add64, sub64}
use zenfs_modified.Store.{
  ZoneExtent, Backend, Error, M, ◌>>=◌, ◌>>◌, pure, fail, gets, io_error, invalid_argument, blocked,
}
use zenfs_modified.Files.{get_extent}
use zenfs_modified.Zones.{command}
use zenfs_modified.MetaLog.{read_device}

-- What a read keeps the same: the file's extents, the offset, the size to read, and whether to align.
pub record Request : Type 0 where
  pub extents : List ZoneExtent
  pub offset : ℕ
  pub size : ℕ
  pub direct : Bool
  pub block_size : ℕ

abbrev pub extent_end : ZoneExtent → ℕ
extent_end e = add64 e.start e.length

-- The bytes to ask for: those that are left, up to the end of the extent.
unfoldable pub piece : ℕ → ℕ → ℕ → ℕ
unfolding add64 sub64
piece left r_off end = if ltb end (add64 left r_off) then sub64 end r_off else left

-- The bytes beyond them that a direct read asks for, up to the end of a block.
unfoldable pub bytes_to_align : Request → ℕ → ℕ
bytes_to_align q n =
    if q.direct && not (n % q.block_size == 0) then q.block_size - n % q.block_size else 0

-- `if ((offset + n) > file_size_)`
unfoldable pub read_size : ℕ → ℕ → ℕ → ℕ
unfolding add64
read_size file_size offset n = if ltb file_size (add64 offset n) then file_size - offset else n

module _ {B : Type 0} where
  abbrev pub go_on : M B (List ℕ) → (ℕ → ℕ → M B (List ℕ)) → Option (ZoneExtent × ℕ) → M B (List ℕ)
  go_on stop next none = stop
  go_on stop next (some (e, dev)) = next e.start (extent_end e)

  -- At the end of an extent the next one is looked up; without one the read ends short.
  unfoldable pub after_piece :
      Request → (List ℕ → ℕ → ℕ → M B (List ℕ)) → List ℕ → ℕ → ℕ → M B (List ℕ)
  after_piece q more got r_off end =
      if not (length got == q.size) && (r_off == end)
      then go_on (pure got) (more got) (get_extent q.extents (add64 q.offset (length got)))
      else more got r_off end

  -- The bytes that were read, less those that only aligned the read. An error leaves no bytes.
  abbrev pub take_piece : M B (List ℕ) → (List ℕ → M B (List ℕ)) → Option (List ℕ) → M B (List ℕ)
  take_piece stop more none = fail io_error
  take_piece stop more (some []) = stop
  take_piece stop more (some (x ∷ xs)) = more (x ∷ xs)

module _ {B : Type 0} (be : Backend B) where
  -- The loop of `PositionedRead`. A round reads a byte at least, so the size is fuel enough.
  unfoldable pub positioned_loop : ℕ → Request → List ℕ → ℕ → ℕ → M B (List ℕ)
  positioned_loop zero q got r_off end = if length got == q.size then pure got else fail blocked
  positioned_loop (suc fuel) q got r_off end =
      let pread = piece (q.size - length got) r_off end in
      let asked = pread + bytes_to_align q pread in
      let keep = λ (bytes : List ℕ).
        after_piece q (positioned_loop fuel q) (got ++ take pread bytes)
          (add64 r_off (min (length bytes) pread)) end in
      let rest = (do reply ← read_device be r_off asked; take_piece (pure got) keep reply) in
      if length got == q.size then pure got else rest

  abbrev pub read_from : Request → Option (ZoneExtent × ℕ) → M B (List ℕ)
  read_from q none = pure []
  read_from q (some (e, dev)) = positioned_loop q.size q [] dev (extent_end e)

  -- `PositionedRead`: the bytes of the file from an offset, `n` of them at most.
  unfoldable pub positioned_read : ℕ → ℕ → ℕ → Bool → M B (List ℕ)
  positioned_read f offset n direct = do
    v ← gets (λ d. d.file f)
    block_size ← gets (λ d. d.block_size)
    let q : Request = record {
      extents = v.extents;
      offset = offset;
      size = read_size v.file_size offset n;
      direct = direct;
      block_size = block_size;
    }
    if leb v.file_size offset then pure [] else read_from q (get_extent v.extents offset)

  -- `ZonedSequentialFile::Read`: the bytes, and the position behind them.
  unfoldable pub sequential_read : ℕ → Bool → ℕ → ℕ → M B (List ℕ × ℕ)
  sequential_read f direct rp n = do
    bytes ← positioned_read f rp n direct
    pure (bytes, add64 rp (length bytes))

module _ {B : Type 0} where
  -- `ZonedSequentialFile::Skip`
  unfoldable pub skip : ℕ → ℕ → ℕ → M B ℕ
  skip f rp n = do
    size ← gets (λ d. (d.file f).file_size)
    if leb size (add64 rp n) then fail invalid_argument else pure (add64 rp n)

  module _ (invalidate : ℕ → ℕ → B → Bool × B) where
    abbrev pub invalidate_in :
        (ℕ → ℕ → M B (Unit {0})) → ℕ → ℕ → Option (ZoneExtent × ℕ) → M B (Unit {0})
    invalidate_in more offset left none = fail io_error
    invalidate_in more offset left (some (e, dev)) =
        let size = min left (sub64 (extent_end e) dev) in
        command (invalidate dev size) >> more (add64 offset size) (left - size)

    -- The loop of `InvalidateCache`, that goes through the extents; a round leaves a byte less.
    unfoldable pub invalidate_loop : ℕ → List ZoneExtent → ℕ → ℕ → M B (Unit {0})
    invalidate_loop zero es offset left = if left == 0 then pure tt else fail blocked
    invalidate_loop (suc fuel) es offset left =
        let rest = invalidate_in (invalidate_loop fuel es) offset left (get_extent es offset) in
        if left == 0 then pure tt else rest

    -- `InvalidateCache`: of the whole file where no size is given.
    unfoldable pub invalidate_cache : ℕ → ℕ → ℕ → M B (Unit {0})
    invalidate_cache f pos size = do
      v ← gets (λ d. d.file f)
      let left = if size == 0 then v.file_size else size
      invalidate_loop left v.extents pos left
