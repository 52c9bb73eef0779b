-- ===== src/Files.antt =====
-- fs/zbd_zonefile_zenfs.cc, class `ZoneFile`: its extents, its active zone and its names, and
-- fs/zbd_zenfs.cc, `Zone::UpdateBytesOfLevel`. Logging is left out. A file is named by its pointer.
pub mod Update
pub mod Data
pub mod Extents
pub mod Used
pub mod Names
pub mod Recover
pub mod Read
pub mod Sparse
pub mod Write
use zenfs_modified.Base.{
  ℕ, zero, suc, ◌+◌, ◌-◌, ◌*◌, ◌%◌, ◌^◌, Bool, true, false, not, ◌&&◌, Option, none, some, List, [],
  ◌∷◌, ◌++◌, ltb, leb, ◌==◌, if◌then◌else◌, length, get_elem?, set, min,
}
use zenfs_modified.Base.Int.{ℤ, pos, negsuc, ◌+ℤ◌, ◌-ℤ◌, ltb_ℤ, leb_ℤ}
use zenfs_modified.Base.Words.{add64, sub64, u32_mod, u64_mod}
use zenfs_modified.Params.{ZenfsParamContainer, get_policy}
use zenfs_modified.Store.{
  Zone, ZoneExtent, ZoneFile, IoType, Backend, Device, Error, ok, err, M, ◌>>=◌, ◌>>◌, pure, fail,
  gets, assert_that, put_zone, put_file, corruption, io_error, no_space, fault, blocked,
}
use zenfs_modified.Zones.{is_full, release, close, append}
use zenfs_modified.Tokens.{put_open_io_zone_token, put_active_io_zone_token}
use zenfs_modified.EmptyZones.{Library}
use zenfs_modified.Placement.{FilePolicies}
use zenfs_modified.Allocate.{allocate_io_zone}
use zenfs_modified.Codec.{no_extent}

-- A `uint64_t` that is passed as an `int` keeps its low 32 bits, read as a signed number.
abbrev pub to_int : ℕ → ℤ
to_int n = let low = n % u32_mod in if ltb low (2 ^ 31) then pos low else negsuc (u32_mod - 1 - low)

-- `bytes_of_level.resize(n, 0)`, where it grows.
abbrev pub grow : ℕ → List ℤ → List ℤ
grow zero xs = xs
grow (suc n) [] = pos 0 ∷ grow n []
grow (suc n) (x ∷ xs) = x ∷ grow n xs

abbrev pub byte_count : List ℤ → ℕ → ℤ
byte_count [] n = pos 0
byte_count (x ∷ xs) zero = x
byte_count (x ∷ xs) (suc n) = byte_count xs n

-- The level with the most bytes; the level that is there wins a draw.
unfoldable pub choose_level : List ℤ → List ℤ → ℕ → ℕ → ℕ
choose_level all [] i chosen = chosen
choose_level all (b ∷ bs) i chosen =
    choose_level all bs (suc i) (if ltb_ℤ (byte_count all chosen) b then i else chosen)

abbrev pub clip : ℤ → ℤ
clip b = if ltb_ℤ b (pos 0) then pos 0 else b

-- `GetExtent`: the extent that holds an offset of the file, and where that is on the device.
unfoldable pub get_extent : List ZoneExtent → ℕ → Option (ZoneExtent × ℕ)
unfolding add64
get_extent [] file_offset = none
get_extent (e ∷ es) file_offset =
    if ltb file_offset e.length
    then some (e, add64 e.start file_offset)
    else get_extent es (file_offset - e.length)

-- `linkfiles_.erase(std::find(...))`, where the name is found.
abbrev pub eq_name : List ℕ → List ℕ → Bool
eq_name [] [] = true
eq_name [] (y ∷ ys) = false
eq_name (x ∷ xs) [] = false
eq_name (x ∷ xs) (y ∷ ys) = (x == y) && eq_name xs ys

abbrev pub keep_first : List ℕ → Option (List (List ℕ)) → Option (List (List ℕ))
keep_first n none = none
keep_first n (some ns) = some (n ∷ ns)

unfoldable pub erase_name : List ℕ → List (List ℕ) → Option (List (List ℕ))
erase_name name [] = none
erase_name name (n ∷ ns) = if eq_name n name then some ns else keep_first n (erase_name name ns)

module _ {B : Type 0} where
  abbrev pub follow_level : ℕ → ZenfsParamContainer → Zone → List ℤ → ℤ → M B (Unit {0})
  follow_level z ps v bytes (negsuc n) = fail fault
  follow_level z ps v bytes (pos n) =
      let chosen = choose_level bytes bytes 0 n in
      let labelled = record v {
        bytes_of_level = bytes;
        level = pos chosen;
        policy = get_policy ps (pos chosen);
      } in
      if ltb n (length bytes) then put_zone z labelled else fail fault

  -- The count of a level's bytes in the zone, and the zone's level where that follows the counts. A
  -- level that is negative, or that the vector does not reach, is out of its bounds. Levels stay
  -- below the 256 that the loop's `uint8_t` counts.
  unfoldable pub relabel : ℕ → List ℤ → M B (Unit {0})
  relabel z bytes = do
    v ← gets (λ d. d.zone z)
    ps ← gets (λ d. d.params)
    put_zone z (record v { bytes_of_level = bytes })
    if not ps.dynamic_level_adjustment then pure tt else follow_level z ps v bytes v.level

  unfoldable pub update_bytes_of_level : ℕ → ℤ → ℤ → M B (Unit {0})
  update_bytes_of_level z (negsuc n) bytes = fail fault
  update_bytes_of_level z (pos n) bytes = do
    v ← gets (λ d. d.zone z)
    let grown = grow (suc n) v.bytes_of_level
    relabel z (set grown n (clip (byte_count grown n +ℤ bytes)))

  unfoldable pub add_link_name : ℕ → List ℕ → M B (Unit {0})
  add_link_name f name = do
    v ← gets (λ d. d.file f)
    put_file f (record v { linkfiles = v.linkfiles ++ name ∷ [] })

  abbrev pub put_names : ℕ → ZoneFile → List (List ℕ) → Option (List (List ℕ)) → M B (Unit {0})
  put_names f v more none = fail io_error
  put_names f v more (some ns) = put_file f (record v { linkfiles = ns ++ more })

  unfoldable pub rename_link : ℕ → List ℕ → List ℕ → M B (Unit {0})
  rename_link f src dest = do
    v ← gets (λ d. d.file f)
    put_names f v (dest ∷ []) (erase_name src v.linkfiles)

  unfoldable pub remove_link_name : ℕ → List ℕ → M B (Unit {0})
  remove_link_name f name = do
    v ← gets (λ d. d.file f)
    assert_that (ltb 0 (length v.linkfiles)) (put_names f v [] (erase_name name v.linkfiles))

  -- `ReleaseActiveZone`
  unfoldable pub release_active_zone : ℕ → M B (Unit {0})
  release_active_zone f = do
    v ← gets (λ d. d.file f)
    elim v.active_zone [
      | none ↦ assert_that false (pure tt)
      | some z ↦ do
        done ← release z
        assert_that done (put_file f (record v { active_zone = none }))
    ]

  -- `SetActiveZone`
  unfoldable pub set_active_zone : ℕ → ℕ → M B (Unit {0})
  set_active_zone f z = do
    v ← gets (λ d. d.file f)
    busy ← gets (λ d. (d.zone z).busy)
    elim v.active_zone [
      | some z' ↦ assert_that false (pure tt)
      | none ↦ assert_that busy (put_file f (record v { active_zone = some z }))
    ]

  -- The bytes since the last extent become one, and count as used.
  unfoldable pub push_bytes : ℕ → ℕ → ZoneFile → ℕ → M B (Unit {0})
  unfolding add64 sub64
  push_bytes f z file len = do
    v ← gets (λ d. d.zone z)
    let e : ZoneExtent = record {
      start = file.extent_start;
      length = len;
      zone = z;
      level = file.level;
    }
    assert_that (leb len (sub64 v.wp file.extent_start)) (pure tt)
    put_zone z (record v { used_capacity = add64 v.used_capacity len })
    put_file f (record file {
      extents = file.extents ++ e ∷ [];
      extent_start = v.wp;
      extent_filepos = file.file_size;
    })
    update_bytes_of_level z file.level (to_int len)

  unfoldable pub push_if : ℕ → Option ℕ → ZoneFile → M B (Unit {0})
  push_if f none file = pure tt
  push_if f (some z) file =
      let len = file.file_size - file.extent_filepos in
      if len == 0 then pure tt else push_bytes f z file len

  -- `PushExtent`
  unfoldable pub push_extent : ℕ → M B (Unit {0})
  push_extent f = do
    file ← gets (λ d. d.file f)
    assert_that (leb file.extent_filepos file.file_size) (push_if f file.active_zone file)
