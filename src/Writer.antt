-- ===== src/Writer.antt =====
-- fs/io_zenfs.cc, class `ZonedWritableFile`: a writer of a file, with its buffer or without one. The
-- number of buffers that the program may have, and the wait for one, are left out; memory for a
-- buffer can always be had. A call gives its status as a value, with the writer as it is then.
pub mod Took
pub mod Buffer
use zenfs_modified.Base.{
  ℕ, zero, suc, ◌+◌, ◌*◌, ◌%◌, Bool, true, false, not, ◌&&◌, Option, none, some, List, [], ◌∷◌,
  ◌++◌, drop, take, length, ltb, ◌==◌, if◌then◌else◌, min,
}
use zenfs_modified.Base.Words.{add64, sub64, add32, sub32, u32_mod}
use zenfs_modified.Store.{
  Backend, Error, M, ◌>>=◌, ◌>>◌, pure, fail, gets, assert_that, blocked, io_error,
}
use zenfs_modified.Codec.{Coding}
use zenfs_modified.Reclaim.{attempt}
use zenfs_modified.Tokens.{set_zone_deferred_status}
use zenfs_modified.EmptyZones.{Library}
use zenfs_modified.Placement.{FilePolicies}
use zenfs_modified.Levels.{KeyOrder}
use zenfs_modified.Files.{push_extent}
use zenfs_modified.Files.Data.{file_append, buffered_append}
use zenfs_modified.Files.Sparse.{sparse_header_size, sparse_append}
use zenfs_modified.Files.Write.{set_file_size, close_wr}

-- `buffer` holds the bytes before `buffer_pos`.
pub record WritableFile : Type 0 where
  pub file : ℕ
  pub buffered : Bool
  pub buffer : List ℕ
  pub buffer_sz : ℕ
  pub wp : ℕ
  pub is_open : Bool

-- The size of the buffer's data; a sparse buffer has a header before it and a block behind it.
unfoldable pub buffer_size : Bool → ℕ → ℕ → ℕ
unfolding sub64 add32
buffer_size sparse megabytes block_size =
    let bytes = megabytes * 1024 * 1024 % u32_mod in
    if sparse then sub64 (sub64 (add32 bytes block_size) sparse_header_size) block_size else bytes

-- A call's status, and the writer after it.
abbrev pub Reply : Type 0
Reply = Option Error × WritableFile

-- The buffer goes when it is written.
abbrev pub flushed : WritableFile → Option Error → Reply
flushed w none = (none, record w { wp = add64 w.wp (length w.buffer); buffer = [] })
flushed w (some e) = (some e, w)

module _ {B : Type 0} where
  -- The constructor.
  unfoldable pub new_writable_file : ℕ → Bool → ℕ → M B WritableFile
  new_writable_file f buffered megabytes = do
    v ← gets (λ d. d.file f)
    block_size ← gets (λ d. d.block_size)
    assert_that v.open_for_wr (
        pure (record {
          file = f;
          buffered = buffered;
          buffer = [];
          buffer_sz = buffer_size v.is_sparse megabytes block_size;
          wp = v.file_size;
          is_open = true;
        }))

  -- `Truncate`
  unfoldable pub truncate : WritableFile → ℕ → M B (Unit {0})
  truncate w size = set_file_size w.file size

  -- Goes on after a call that went well.
  abbrev pub and_then : (WritableFile → M B Reply) → Reply → M B Reply
  and_then next (none, w) = next w
  and_then next (some e, w) = pure (some e, w)

  -- The status of a call that leaves the writer as it is.
  unfoldable pub with_status : WritableFile → M B (Unit {0}) → M B Reply
  with_status w m = do s ← attempt m; pure (s, w)

  -- One turn of `BufferedWrite`, with room in the buffer.
  abbrev pub fill : (WritableFile → List ℕ → ℕ → M B Reply) → List ℕ → ℕ → WritableFile → M B Reply
  fill more data_ left w =
      let room = sub32 (w.buffer_sz % u32_mod) (length w.buffer) in
      let n = if ltb room left then room else left in
      more (record w { buffer = w.buffer ++ take n data_ }) (drop n data_) (sub32 left n)

  module _ (flush : WritableFile → M B Reply) where
    -- The loop of `BufferedWrite`; a turn takes a byte at least where the buffer can hold one.
    unfoldable pub buffered_write_loop : ℕ → WritableFile → List ℕ → ℕ → M B Reply
    buffered_write_loop zero w data_ left = if left == 0 then pure (none, w) else fail blocked
    buffered_write_loop (suc fuel) w data_ left =
        let room = sub32 (w.buffer_sz % u32_mod) (length w.buffer) in
        let with_room = fill (buffered_write_loop fuel) data_ left in
        let turn = if room == 0 then flush w >>= and_then with_room else with_room w in
        if left == 0 then pure (none, w) else turn

module _ (c : Coding) {B : Type 0} (be : Backend B) (lib : Library) (fps : FilePolicies B)
    (kc : KeyOrder) (persist : ℕ → M B (Unit {0})) where
  -- `FlushBuffer`
  unfoldable pub flush_buffer : WritableFile → M B Reply
  flush_buffer w = do
    sparse ← gets (λ d. (d.file w.file).is_sparse)
    let size = length w.buffer
    if size == 0 then pure (none, w) else do
      s ← attempt (
          if sparse
          then sparse_append c be lib fps persist w.file w.buffer size
          else buffered_append be lib fps persist w.file w.buffer size)
      pure (flushed w s)

  -- `BufferedWrite`; the size is kept in 32 bits.
  unfoldable pub buffered_write : WritableFile → List ℕ → M B Reply
  buffered_write w data_ =
      let size = length data_ % u32_mod in buffered_write_loop flush_buffer size w data_ size

  abbrev pub advanced : WritableFile → ℕ → Option Error → Reply
  advanced w n none = (none, record w { wp = add64 w.wp n })
  advanced w n (some e) = (some e, w)

  unfoldable pub direct_write : WritableFile → List ℕ → M B Reply
  direct_write w data_ = do
    s ← attempt (file_append be lib fps persist w.file data_ (length data_))
    pure (advanced w (length data_) s)

  -- `Append`
  unfoldable pub append_data : WritableFile → List ℕ → M B Reply
  append_data w data_ = if w.buffered then buffered_write w data_ else direct_write w data_

  -- `PositionedAppend`: only at the place that was written last.
  unfoldable pub positioned_append : WritableFile → List ℕ → ℕ → M B Reply
  positioned_append w data_ offset = assert_that (offset == w.wp) (append_data w data_)

  -- A sparse file finds its extents on the device; another one has them in its record.
  unfoldable pub persist_new_extent : WritableFile → M B Reply
  persist_new_extent w = do
    sparse ← gets (λ d. (d.file w.file).is_sparse)
    if sparse then pure (none, w) else with_status w (persist w.file)

  -- `DataSync`
  unfoldable pub data_sync : WritableFile → M B Reply
  data_sync w =
      if w.buffered
      then flush_buffer w >>= and_then persist_new_extent
      else push_extent w.file >> pure (none, w)

  unfoldable pub persist_unless_synced : WritableFile → M B Reply
  persist_unless_synced w = do
    sparse ← gets (λ d. (d.file w.file).is_sparse)
    if w.buffered && not sparse then pure (none, w) else with_status w (persist w.file)

  -- `Fsync`
  unfoldable pub fsync : WritableFile → M B Reply
  fsync w = data_sync w >>= and_then persist_unless_synced

  -- `RangeSync`
  unfoldable pub range_sync : WritableFile → ℕ → ℕ → M B Reply
  unfolding add64
  range_sync w offset nbytes =
      if ltb w.wp (add64 offset nbytes) then data_sync w else pure (none, w)

  abbrev pub closed : WritableFile → Option Error → Reply
  closed w none = (none, record w { is_open = false })
  closed w (some e) = (some e, w)

  unfoldable pub close_synced : WritableFile → M B Reply
  close_synced w = do s ← attempt (close_wr kc be persist w.file); pure (closed w s)

  -- `CloseInternal`
  unfoldable pub close_internal : WritableFile → M B Reply
  close_internal w = if w.is_open then data_sync w >>= and_then close_synced else pure (none, w)

  abbrev pub defer_status : Reply → M B (Unit {0})
  defer_status (none, w) = pure tt
  defer_status (some e, w) = set_zone_deferred_status (some e)

  -- The destructor: an error is left to the next allocation.
  unfoldable pub destroy_writable_file : WritableFile → M B (Unit {0})
  destroy_writable_file w = close_internal w >>= defer_status
