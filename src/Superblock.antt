-- ===== src/Superblock.antt =====
-- fs/fs_zenfs.cc and fs/fs_zenfs.h, class `Superblock`: the first record of a metadata zone. The
-- report of it is left out.
pub mod RoundTrip
use zenfs_modified.Base.{
  ℕ, ◌/◌, ◌%◌, Bool, true, false, not, Option, none, some, List, ◌++◌, ltb, ◌==◌, if◌then◌else◌,
  length, take, drop,
}
use zenfs_modified.Base.Words.{add32, u32_mod}
use zenfs_modified.Store.{
  Superblock, Device, Error, corruption, ok, M, ◌>>=◌, pure, fail, gets, assert_that,
}
use zenfs_modified.Codec.{Coding}

abbrev pub superblock_magic : ℕ
superblock_magic = 0x5a454e46

abbrev pub encoded_size : ℕ
encoded_size = 512

abbrev pub current_superblock_version : ℕ
current_superblock_version = 2

-- `FLAGS_ENABLE_GC`, the lowest bit.
unfoldable pub is_gc_enabled : Superblock → Bool
is_gc_enabled sb = sb.flags % 2 == 1

-- A reader takes what it reads from the front of the slice.
abbrev pub Reader : Type 0 → Type 0
Reader A = List ℕ → Option (A × List ℕ)

abbrev pub read_then : {A C : Type 0} → Option (A × List ℕ) → (A → Reader C) → Option (C × List ℕ)
read_then none k = none
read_then (some (a, rest)) k = k a rest

infixl 6 ◌⇒◌
unfoldable pub ◌⇒◌ : {A C : Type 0} → Reader A → (A → Reader C) → Reader C
◌⇒◌ r k input = read_then (r input) k

-- The `memcpy` of a text and the `remove_prefix` after it.
abbrev pub read_bytes : ℕ → Reader (List ℕ)
read_bytes n input = some (take n input, drop n input)

module _ (c : Coding) where
  -- `EncodeTo` of a superblock whose sequence number was raised.
  unfoldable pub put_superblock : Superblock → List ℕ
  put_superblock sb =
      c.put_fixed32 sb.magic
      ++ (sb.uuid
          ++ (c.put_fixed32 sb.sequence
              ++ (c.put_fixed32 sb.superblock_version
                  ++ (c.put_fixed32 sb.flags
                      ++ (c.put_fixed32 sb.block_size
                          ++ (c.put_fixed32 sb.zone_size
                              ++ (c.put_fixed32 sb.nr_zones
                                  ++ (c.put_fixed32 sb.finish_treshold
                                      ++ (sb.aux_fs_path
                                          ++ (sb.zenfs_version ++ sb.reserved))))))))))

  -- Each encoding has a sequence number of its own.
  abbrev pub renumbered : Superblock → Superblock
  renumbered sb = record sb { sequence = add32 sb.sequence 1 }

  -- `Superblock::EncodeTo`, of the mounted file system's superblock.
  unfoldable pub encode_superblock : {B : Type 0} → M B (List ℕ)
  encode_superblock d =
      let sb = renumbered d.fs.superblock in
      assert_that (length (put_superblock sb) == encoded_size) (pure (put_superblock sb))
        (record d { fs = record d.fs { superblock = sb } })

  unfoldable pub read_superblock : Reader Superblock
  read_superblock = c.get_fixed32 ⇒ λ magic. read_bytes 37 ⇒ λ uuid. c.get_fixed32 ⇒ λ sequence.
      c.get_fixed32 ⇒ λ version. c.get_fixed32 ⇒ λ flags. c.get_fixed32 ⇒ λ block_size.
      c.get_fixed32 ⇒ λ zone_size. c.get_fixed32 ⇒ λ nr_zones. c.get_fixed32 ⇒ λ finish_treshold.
      read_bytes 256 ⇒ λ aux_fs_path. read_bytes 64 ⇒ λ zenfs_version. read_bytes 123 ⇒ λ reserved.
      λ rest. some (
        record {
          magic = magic;
          uuid = uuid;
          sequence = sequence;
          superblock_version = version;
          flags = flags;
          block_size = block_size;
          zone_size = zone_size;
          nr_zones = nr_zones;
          finish_treshold = finish_treshold;
          aux_fs_path = aux_fs_path;
          zenfs_version = zenfs_version;
          reserved = reserved;
        },
        rest,
      )

  -- The magic number and the version must be the program's own.
  abbrev pub checked_superblock : Option (Superblock × List ℕ) → Option Superblock
  checked_superblock none = none
  checked_superblock (some (sb, rest)) =
      if not (sb.magic == superblock_magic)
      then none
      else if not (sb.superblock_version == current_superblock_version)
      then none
      else some sb

  -- `Superblock::DecodeFrom`; none is a corruption.
  unfoldable pub decode_superblock : List ℕ → Option Superblock
  decode_superblock input =
      if not (length input == encoded_size)
      then none
      else checked_superblock (read_superblock input)

-- `Superblock::CompatibleWith`
unfoldable pub compatible_with : {B : Type 0} → Superblock → Device B → Bool
compatible_with sb d =
    if not (sb.block_size == d.block_size)
    then false
    else if not (sb.zone_size == d.zone_size / sb.block_size)
    then false
    else not (ltb d.nr_zones sb.nr_zones)
