-- ===== src/Tests/Bytes.antt =====
-- The theorems on space, on reads and on the writer's buffer, at the small device.
use zenfs_modified.Base.{
  ℕ, ◌+◌, ◌-◌, ◌*◌, ◌≤◌, ◌<◌, ◌≡◌, refl, true, some, List, [], ◌∷◌, arith, drop, take, min, All,
}
use zenfs_modified.Base.Int.{ℤ, pos}
use zenfs_modified.Store.{Backend, Device, ok}
use zenfs_modified.MetaLog.Disk.{ReadsDisk}
use zenfs_modified.Space.{get_free_percent}
use zenfs_modified.Space.Percent.{
  AllSound, total_of, left, used, garbage, get_free_percent-percentage,
}
use zenfs_modified.Files.Read.{positioned_read}
use zenfs_modified.Files.Read.Spot.{Fits, content}
use zenfs_modified.Files.Read.Content.{positioned_read-content}
use zenfs_modified.Writer.{WritableFile}
use zenfs_modified.Tests.Values.{backend, device}
use zenfs_modified.Tests.Log.{pair_reply, pair_reply-bound}

device-AllSound : AllSound device.zone device.io_zones
device-AllSound = (
  record { left_bound = omega arith; used_bound = omega arith },
  (
    record { left_bound = omega arith; used_bound = omega arith },
    (record { left_bound = omega arith; used_bound = omega arith }, tt),
  ),
)

get_free_percent-percentage_example :
    let free = total_of left device.zone device.io_zones in
    let total =
      free
      + (total_of used device.zone device.io_zones
          + total_of garbage device.zone device.io_zones) in
    (p : ℕ) × (get_free_percent device ≡ some p)
    × (p ≤ 100)
    × (p * total ≤ 100 * free)
    × (100 * free < (p + 1) * total)
get_free_percent-percentage_example =
    get_free_percent-percentage device device-AllSound (omega arith) (omega arith)

abbrev numbers : ℕ → ℕ
numbers a = a * 3

abbrev numbers_backend : Backend (Unit {0})
numbers_backend = record backend { read = λ a n b. (pair_reply numbers a n, b) }

numbers_backend-ReadsDisk : ReadsDisk numbers_backend numbers
numbers_backend-ReadsDisk a n b h =
    let bound = pair_reply-bound n h in (min n 2, bound.0, bound.1, refl)

extents_fit : All (Fits ((device.file 0).file_size + device.block_size)) (device.file 0).extents
extents_fit = (omega arith, tt)

positioned_read-content_example :
    positioned_read numbers_backend 0 2 3 true device
    ≡ ok
        (take
          (min 3 ((device.file 0).file_size - 2))
          (drop 2 (content numbers (device.file 0).extents)))
        device
positioned_read-content_example =
    positioned_read-content numbers_backend numbers numbers_backend-ReadsDisk 0 2 3 true device
      extents_fit (omega arith) (omega arith)

three_read : positioned_read numbers_backend 0 2 3 true device ≡ ok (6 ∷ 9 ∷ 12 ∷ []) device
unfolding positioned_read zenfs_modified.Store.◌>>=◌ zenfs_modified.Files.get_extent
    zenfs_modified.Files.Read.positioned_loop zenfs_modified.Files.Read.read_size
    zenfs_modified.MetaLog.read_device_loop zenfs_modified.MetaLog.read_device
    zenfs_modified.Files.Read.piece zenfs_modified.Files.Read.bytes_to_align
    zenfs_modified.MetaLog.ask_read zenfs_modified.Files.Read.after_piece
three_read = refl

abbrev by_first : List ℕ → List ℕ → ℤ
by_first a b = pos 0

-- A writer of the file, whose buffer of four bytes holds three.
abbrev writer : WritableFile
writer = record {
  file = 0;
  buffered = true;
  buffer = 1 ∷ 2 ∷ 3 ∷ [];
  buffer_sz = 4;
  wp = 8;
  is_open = true;
}
