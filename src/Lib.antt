-- ===== src/Lib.antt =====
-- ZenFS with placement policies: a file system for zoned devices under RocksDB. A zone is written
-- in order from its start, and is erased as a whole.
--
-- The parts, and how they meet. `ZonedBlockDevice` (fs/zbd_zenfs.h, fs/zbd_zenfs.cc) owns the zones
-- and hands them out; `ZoneFile` (fs/zbd_zonefile_zenfs.cc) writes to the zone that it holds, and
-- keeps its extents; `ZenFS` (fs/fs_zenfs.cc) keeps the names of the files
-- and writes their records to the metadata log; the placement policies (fs/zbd_extension_zenfs.cc) choose a zone for a file.
-- A zone has a busy flag, which whoever uses it must take; the device counts the zones that are
-- open and that are active, and a token of each count goes with a zone.
--
-- The files:
--   Base: numbers, integers, machine words and lists that the modules share.
--   Params: fs/param_loader.h and `GetPolicy`, `GetSecondaryPolicy`.
--   Store: the objects as records, the device as the heap of zones and files, and the monad of
--     calls: a call ends with a value or an error, and the device as it is then. Store.Frame is
--     what a call leaves as it was.
--   Zones: class `Zone`. A zone is named by its pointer, a number.
--   Tokens: the counts of open and active zones, and the deferred status.
--   Select: the loop over the zones that the policies and allocators share, against a plain fold.
--   Policies: `MatchLifetimeBased`, `MatchArrivalTimeBased`, `MatchClusterTogether`, and
--     `ChooseZoneWithHighestContrib`, which the policies that look at files share.
--   EmptyZones: `AllocateEmptyZone` and the five allocators of empty zones.
--   Reclaim: `ResetUnusedIOZones`, `ApplyFinishThreshold`, `FinishCheapestIOZone`,
--     `AllocateMetaZone`.
--   Placement: `GetBestOpenZoneMatch`. The policies that look at files are fields of `FilePolicies`.
--   Allocate: `AllocateIOZone`.
--   Codec: `EncodeTo` and `DecodeFrom` of a file's record in the metadata log.
--   Files: class `ZoneFile`: extents and names, the active zone, `MergeUpdate` (Files.Update),
--     `Append` and `BufferedAppend` (Files.Data), `SparseAppend` (Files.Sparse), `Recover`
--     (Files.Recover), the writers' lock and what is told of a file's keys (Files.Write). Files.Read is
--     `PositionedRead` and the reader of fs/io_zenfs.cc: Segment, Spot, Round and Content are of the
--     bytes that are read, Progress and Total of the end of a read.
--   Writer: class `ZonedWritableFile` of fs/io_zenfs.cc; Took and Buffer are of the bytes on their
--     way through its buffer.
--   Space: the free, used and reclaimable space, and the percentage of it (Space.Percent).
--   Superblock: class `Superblock` of fs/fs_zenfs.cc. MetaLog: class `ZenMetaLog`, the records in a
--     metadata zone, and `ZonedBlockDevice::Read`.
--   Levels: the lists of the levels' table files, fs/zbd_extension_zenfs.cc, and `CreateOrUpdateRecord`.
--   Fs: class `ZenFS` of fs/fs_zenfs.cc. Fs.FileMap is the map `files_`; Fs.Persist the records of the
--     metadata log and the roll to the next metadata zone; Fs.Calls opens, deletes, renames and links
--     files. A shared pointer that a call holds is an entry of `handles`, and a file is destroyed
--     with the last one. Fs.Agree is the agreement of the map with the files' links, Fs.Safe the
--     triples that carry it through a call, in Fs.Delete, Fs.Rename and Fs.Link; Fs.Refine
--     is of calls one after the other and an abstract space of names. Fs.Lost is of a
--     link whose record cannot be written.
--     Fs.Recovery reads the records back, and Fs.Replay is of the deletion's record.
--     Fs.Attributes reads sizes, times and links.
--   Gc: fs/fs_gc_zenfs.cc. Gc itself is the zone that a migration takes and the copy of the bytes;
--     Gc.Migrate moves the extents of files, Gc.Choose picks the zones and is one turn of the worker.
--     Gc.Frame, Gc.Moves and Gc.Balance are of the tokens of open zones.
--   Tests: a small device, at which the theorems are applied.
--
-- Bounds. `uint64_t` and `uint32_t` wrap around (Base.Words), and a theorem that needs a sum to fit
-- says so. `decode_loop` runs on fuel, one more than the bytes of the input: every round takes a
-- tag. `append_loop` runs on the size: every round takes a byte, unless the backend takes none, when
-- the source's loop would go on for ever; the file's appends run on the size too, and the search
-- for sparse segments on the bytes to recover. The reads of the log run on the bytes to read, those of the
-- device on these and on the interruptions that the backend's `patience` allows,
-- `snapshot_loop` on the input's length, and `recover_loop` on the write pointer of the log's zone:
-- a record that is read moves the log on by its header. `positioned_loop`, `buffered_write_loop` and
-- `migrate_loop` run on the bytes to read, to take and to move, `sparse_loop` on the bytes to write. Running out of either is the outcome `blocked`, as is a
-- wait for another thread. Calls run one at a time, as under the locks that the source holds.
--
-- Not modelled: the libraries (RocksDB's coding, the backends over libzbd and zonefs, the shuffle
-- and the sort), which are parameters; the parameters of type `double`; logging, metrics and JSON;
-- the directories, Mount and MkFS in fs/fs_zenfs.cc, the move of cold files, and the policies that
-- look at files.
pub mod Base
pub mod Params
pub mod Store
pub mod Zones
pub mod Tokens
pub mod Select
pub mod Policies
pub mod EmptyZones
pub mod Reclaim
pub mod Placement
pub mod Allocate
pub mod Codec
pub mod Files
pub mod Space
pub mod Superblock
pub mod MetaLog
pub mod Levels
pub mod Writer
pub mod Fs
pub mod Gc
pub mod Tests
