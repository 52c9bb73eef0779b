-- ===== src/Tests/Log.antt =====
-- The superblock and the metadata log at the small device.
use zenfs_modified.Base.{
  zeros, ℕ, ◌+◌, ◌-◌, ◌%◌, ◌<◌, ◌≤◌, ◌≡◌, refl, arith, Option, none, some, List, [], ◌∷◌, ◌==◌,
  if◌then◌else◌, length, get_elem?, min,
}
use zenfs_modified.Base.Words.{u32_mod, add32}
use zenfs_modified.Store.{Device, Backend, ok, ReadReply, got_bytes}
use zenfs_modified.Superblock.{encode_superblock, decode_superblock, renumbered}
use zenfs_modified.Superblock.RoundTrip.{IsWritable, encode_superblock-decodes}
use zenfs_modified.MetaLog.{Checksum, MetaLog, framed, read_record, round_up, checksum}
use zenfs_modified.MetaLog.Disk.{ReadsDisk, segment}
use zenfs_modified.MetaLog.RoundTrip.{ChecksumLaws, moved, read_record-framed}
use zenfs_modified.Tests.Values.{device, superblock, backend}
use zenfs_modified.Tests.Coder.{coder, coder_laws}

-- The small device with a superblock whose texts have their sizes.
abbrev labelled : Device (Unit {0})
labelled = record device {
  fs = record device.fs {
    superblock = record superblock {
      uuid = zeros 37;
      aux_fs_path = zeros 256;
      zenfs_version = zeros 64;
      reserved = zeros 123;
    };
  };
}

labelled-IsWritable : IsWritable (renumbered coder labelled.fs.superblock)
unfolding add32
labelled-IsWritable = record {
  magic = refl;
  superblock_version = refl;
  sequence = omega arith;
  flags = omega arith;
  block_size = omega arith;
  zone_size = omega arith;
  nr_zones = omega arith;
  finish_treshold = omega arith;
  uuid = refl;
  aux_fs_path = refl;
  zenfs_version = refl;
  reserved = refl;
}

encode_superblock-decodes_example :
    (bytes : List ℕ) × (encode_superblock coder labelled
      ≡ ok bytes (record labelled {
        fs = record labelled.fs { superblock = renumbered coder labelled.fs.superblock };
      }))
    × (decode_superblock coder bytes ≡ some (renumbered coder labelled.fs.superblock))
encode_superblock-decodes_example =
    encode_superblock-decodes coder coder_laws labelled labelled-IsWritable

-- The sum of the bytes.
abbrev sum_bytes : ℕ → List ℕ → ℕ
sum_bytes crc [] = crc % u32_mod
sum_bytes crc (x ∷ xs) = sum_bytes (crc + x) xs

sum_bytes-lt : (crc : ℕ) (xs : List ℕ) → sum_bytes crc xs < u32_mod
sum_bytes-lt crc [] = omega arith
sum_bytes-lt crc (x ∷ xs) = sum_bytes-lt (crc + x) xs

abbrev pub sums : Checksum
sums = record {
  extend = sum_bytes;
  mask = λ n. (n + 7) % u32_mod;
  unmask = λ n. (n + u32_mod - 7) % u32_mod;
}

pub sums_laws : ChecksumLaws sums
sums_laws = record {
  unmask-mask = λ n h. omega (arith, h);
  mask-lt = λ n. omega arith;
  extend-lt = sum_bytes-lt;
}

abbrev some_record : List ℕ
some_record = 5 ∷ 6 ∷ []

abbrev byte_or_zero : Option ℕ → ℕ
byte_or_zero none = 0
byte_or_zero (some b) = b

-- Two bytes of a device at most.
abbrev pub pair_reply : (ℕ → ℕ) → ℕ → ℕ → ReadReply
pair_reply disk a n = got_bytes (segment disk a (min n 2))

pub pair_reply-bound : (n : ℕ) → 0 < n → (0 < min n 2) × (min n 2 ≤ n)
pair_reply-bound n h = omega (arith, h)

-- The device holds the record at its start.
abbrev disk : ℕ → ℕ
disk pos = byte_or_zero (get_elem? (framed coder sums 4 some_record) pos)

abbrev disk_backend : Backend (Unit {0})
disk_backend = record backend { read = λ pos n b. (pair_reply disk pos n, b) }

disk_backend-ReadsDisk : ReadsDisk disk_backend disk
disk_backend-ReadsDisk pos n b h =
    let bound = pair_reply-bound n h in (min n 2, bound.0, bound.1, refl)

-- The first zone is written up to the end of the record.
abbrev logged : Device (Unit {0})
logged = record device {
  zone = λ n. if n == 0 then record (device.zone 0) { wp = 12 } else device.zone n;
}

abbrev some_log : MetaLog
some_log = record { zone = 0; read_pos = 0 }

some_record-stored :
    segment disk 0 (length (framed coder sums 4 some_record)) ≡ framed coder sums 4 some_record
unfolding framed checksum round_up
some_record-stored = refl

some_record-written : length (framed coder sums 4 some_record) ≤ 12
unfolding framed checksum round_up
some_record-written = omega arith

read_record-framed_example :
    read_record disk_backend coder sums some_log logged
    ≡ ok (some_record, moved some_log (round_up 4 10)) logged
unfolding framed
read_record-framed_example =
    read_record-framed coder coder_laws sums sums_laws disk_backend disk disk_backend-ReadsDisk
      some_log some_record logged (omega arith) (omega arith) some_record-stored some_record-written
      (omega arith) (omega arith)
