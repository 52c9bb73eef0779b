-- ===== src/MetaLog.antt =====
-- fs/fs_zenfs.cc, class `ZenMetaLog`, and `ZonedBlockDevice::Read` of fs/zbd_zenfs.cc: the log of
-- records in a metadata zone. Memory for a record can always be had. The checksum is RocksDB's.
pub mod Disk
pub mod RoundTrip
use zenfs_modified.Base.{
  zeros, ℕ, zero, suc, ◌+◌, ◌-◌, ◌%◌, Bool, true, false, not, Option, none, some, List, [], ◌∷◌,
  ◌++◌, ltb, leb, ◌==◌, if◌then◌else◌, length,
}
use zenfs_modified.Base.Words.{add64, u32_mod, int_mod}
use zenfs_modified.Store.{
  Backend, ReadReply, got_bytes, interrupted, read_failed, Device, Error, io_error, blocked, fault,
  ok, err, M, ◌>>=◌, ◌>>◌, pure, fail, gets,
}
use zenfs_modified.Zones.{append}
use zenfs_modified.Codec.{Coding}

-- RocksDB's `crc32c`: `extend crc bytes`, `mask` and `unmask`.
pub record Checksum : Type 0 where
  pub extend : ℕ → List ℕ → ℕ
  pub mask : ℕ → ℕ
  pub unmask : ℕ → ℕ

pub record MetaLog : Type 0 where
  pub zone : ℕ
  pub read_pos : ℕ

abbrev pub meta_header_size : ℕ
meta_header_size = 8

-- The size up to the next block boundary.
unfoldable pub round_up : ℕ → ℕ → ℕ
round_up block_size n = if n % block_size == 0 then n else n + (block_size - n % block_size)

module _ (c : Coding) (k : Checksum) where
  -- The record's size in memory is its encoding, on the little-endian machines that the source is for.
  unfoldable pub checksum : List ℕ → ℕ
  checksum data_ = k.extend (k.extend 0 (c.put_fixed32 (length data_))) data_

  -- The buffer that `AddRecord` writes: the header, the record, and zeros up to a whole block.
  unfoldable pub framed : ℕ → List ℕ → List ℕ
  unfolding checksum round_up
  framed block_size data_ =
      c.put_fixed32 (k.mask (checksum data_))
      ++ (c.put_fixed32 (length data_)
          ++ (data_
              ++ zeros (
                  round_up block_size (length data_ + meta_header_size)
                  - (length data_ + meta_header_size))))

  module _ {B : Type 0} (be : Backend B) where
    -- `AddRecord`; the size is kept in 32 bits.
    unfoldable pub add_record : ℕ → List ℕ → M B (Unit {0})
    add_record z data_ = do
      block_size ← gets (λ d. d.block_size)
      append be z (framed block_size data_)
          (round_up block_size (length data_ % u32_mod + meta_header_size) % u32_mod)

module _ {B : Type 0} (be : Backend B) where
  -- One read of the backend.
  unfoldable pub ask_read : ℕ → ℕ → M B ReadReply
  ask_read pos n d = let (reply, b) = be.read pos n d.backend in ok reply (record d { backend = b })

  abbrev pub read_more :
      List ℕ
      → M B (Option (List ℕ))
      → (List ℕ → M B (Option (List ℕ)))
      → ReadReply
      → M B (Option (List ℕ))
  read_more got again more read_failed = pure none
  read_more got again more interrupted = again
  read_more got again more (got_bytes []) = pure (some got)
  read_more got again more (got_bytes (x ∷ xs)) = more (x ∷ xs)

  -- The loop of `ZonedBlockDevice::Read`: it stops at an error, at a read of no bytes, and when all
  -- are read; a read that a signal interrupts is made again. Any other read that goes on gives a byte
  -- at least, so the number of bytes and of interruptions is fuel enough.
  unfoldable pub read_device_loop : ℕ → ℕ → ℕ → List ℕ → M B (Option (List ℕ))
  read_device_loop zero pos left got = if left == 0 then pure (some got) else fail blocked
  read_device_loop (suc fuel) pos left got =
      let again = read_device_loop fuel pos left got in
      let more = λ (xs : List ℕ).
        read_device_loop fuel (add64 pos (length xs)) (left - length xs) (got ++ xs) in
      let rest = (do reply ← ask_read pos left; read_more got again more reply) in
      if left == 0 then pure (some got) else rest

  -- `ZonedBlockDevice::Read`. The size is narrowed to an `int`: what a negative one does is left to
  -- the backend, here a `fault`, and one of zero returns the -1 that the result starts with.
  unfoldable pub read_device : ℕ → ℕ → M B (Option (List ℕ))
  read_device pos n =
      let left = n % u32_mod in
      if leb int_mod left
      then fail fault
      else if left == 0
      then pure none
      else read_device_loop (left + be.patience) pos left []

  abbrev pub read_on : (List ℕ → M B (List ℕ)) → Option (List ℕ) → M B (List ℕ)
  read_on more none = fail io_error
  read_on more (some bytes) = more bytes

  -- The loop of `ZenMetaLog::Read`. A device that gives no byte keeps the source's loop going, which
  -- is `blocked`.
  unfoldable pub read_loop : ℕ → ℕ → ℕ → List ℕ → M B (List ℕ)
  read_loop zero pos left got = if left == 0 then pure got else fail blocked
  read_loop (suc fuel) pos left got =
      let more =
        λ (xs : List ℕ). read_loop fuel (add64 pos (length xs)) (left - length xs) (got ++ xs) in
      let rest = (do reply ← read_device pos left; read_on more reply) in
      if left == 0 then pure got else rest

  -- `ZenMetaLog::Read`: none at the end of the log. The bytes come with the log, which is behind them.
  unfoldable pub read_log : MetaLog → ℕ → M B (List ℕ × MetaLog)
  read_log log to_read = do
    z ← gets (λ d. d.zone log.zone)
    if leb z.wp log.read_pos
        then pure ([], log)
        else if ltb (add64 z.start z.max_capacity) (add64 log.read_pos to_read)
        then fail io_error
        else (do
          bytes ← read_loop to_read log.read_pos to_read []
          pure (bytes, record log { read_pos = add64 log.read_pos (length bytes) }))

  module _ (c : Coding) (k : Checksum) where
    -- The header's numbers; a header that is too short leaves them zero.
    abbrev pub number_or_zero : List ℕ → Option (ℕ × List ℕ) → ℕ × List ℕ
    number_or_zero input none = (0, input)
    number_or_zero input (some r) = r

    abbrev pub read_number : List ℕ → ℕ × List ℕ
    read_number input = number_or_zero input (c.get_fixed32 input)

    -- The record must have the checksum of the header, and the next one starts on a whole block.
    unfoldable pub check_record : ℕ → ℕ → List ℕ × MetaLog → M B (List ℕ × MetaLog)
    check_record crc size (data_, log) = do
      block_size ← gets (λ d. d.block_size)
      if k.extend (k.extend 0 (c.put_fixed32 size)) data_ == k.unmask crc
          then pure (data_, record log { read_pos = round_up block_size log.read_pos })
          else fail io_error

    abbrev pub read_sized : ℕ → ℕ × List ℕ → MetaLog → M B (List ℕ × MetaLog)
    read_sized crc (size, end) log = read_log log size >>= check_record crc size

    abbrev pub read_numbers : ℕ × List ℕ → MetaLog → M B (List ℕ × MetaLog)
    read_numbers (crc, rest) log = read_sized crc (read_number rest) log

    unfoldable pub read_body : List ℕ × MetaLog → M B (List ℕ × MetaLog)
    read_body ([], log) = pure ([], log)
    read_body (x ∷ header, log) = read_numbers (read_number (x ∷ header)) log

    -- `ReadRecord`: an empty record at the end of the log.
    unfoldable pub read_record : MetaLog → M B (List ℕ × MetaLog)
    read_record log = read_log log meta_header_size >>= read_body
