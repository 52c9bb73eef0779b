-- ===== src/Writer/Buffer.antt =====
-- The buffer of a writer, `BufferedWrite`, and the bytes on their way through it.
use zenfs_modified.Base.{if◌then◌else◌, ◌≡◌, ℕ, ◌≤◌, ◌<◌, List, length}
use zenfs_modified.Base.Words.{u32_mod}
use zenfs_modified.Store.{Backend, Device, M}
use zenfs_modified.Codec.{Coding}
use zenfs_modified.EmptyZones.{Library}
use zenfs_modified.Placement.{FilePolicies}
use zenfs_modified.Levels.{KeyOrder}
use zenfs_modified.Files.Data.{buffered_append}
use zenfs_modified.Files.Sparse.{sparse_append}
use zenfs_modified.Writer.{WritableFile, Reply, buffered_write_loop}
use zenfs_modified.Writer.Took.{Took, Written, Flushes, Fits}

module _ {B : Type 0} (put : ℕ → List ℕ → M B (Unit {0})) where
  module _ (flush : WritableFile → M B Reply) (flushes : Flushes put flush) where
    abbrev Goes : ℕ → Type 0
    Goes fuel =
        (w : WritableFile) (data_ : List ℕ) (left : ℕ) (d : Device B)
        → Fits w
        → left ≡ length data_
        → left < u32_mod
        → left ≤ fuel
        → Written put w data_ d (buffered_write_loop flush fuel w data_ left d)

module _ (c : Coding) {B : Type 0} (be : Backend B) (lib : Library) (fps : FilePolicies B)
    (kc : KeyOrder) (persist : ℕ → M B (Unit {0})) where
  -- The append that `FlushBuffer` makes: a sparse one where the file is sparse.
  abbrev pub append_to : ℕ → List ℕ → M B (Unit {0})
  append_to f bytes d =
      (if (d.file f).is_sparse
          then sparse_append c be lib fps persist f bytes (length bytes)
          else buffered_append be lib fps persist f bytes (length bytes))
        d
