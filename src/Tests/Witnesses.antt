-- ===== src/Tests/Witnesses.antt =====
-- The theorems at the small device.
use mathlib.Core.Option.{some-injective}
use zenfs_modified.Base.{
  ◌==◌, if◌then◌else◌, ◌+◌, none, All, Absent, ◌++◌, map, min, ℕ, ◌≤◌, ◌<◌, ◌≡◌, refl, true, Option,
  some, List, [], ◌∷◌, ◌⊎◌, arith, Distinct,
}
use zenfs_modified.Base.Int.{negsuc}
use zenfs_modified.Base.Words.{add64}
use zenfs_modified.Store.{Device, ZoneExtent, io_error, ok, err, data_io, no_space}
use zenfs_modified.Store.Frame.{Keeps-pure}
use zenfs_modified.Select.Scan.{with_zones}
use zenfs_modified.Select.Claim.{claim}
use zenfs_modified.Zones.{append}
use zenfs_modified.Zones.Append.{append-Takes, Takes, WritesSome}
use zenfs_modified.Policies.Contribution.{
  IsHighest, no_contribution, choose_zone_with_highest_contrib-IsHighest,
}
use zenfs_modified.Policies.{choose_zone_with_highest_contrib, Match, match_lifetime_based}
use zenfs_modified.Policies.Lifetime.{IsBest, match_lifetime_based-IsBest}
use zenfs_modified.EmptyZones.{allocate_empty_zone_default}
use zenfs_modified.EmptyZones.Scan.{Finds, allocate_empty_zone_default-Finds}
use zenfs_modified.Placement.OpenCount.{KeepsTokens}
use zenfs_modified.Allocate.{allocate_io_zone_no_lock}
use zenfs_modified.Allocate.OpenToken.{Ended}
use zenfs_modified.Allocate.Balance.{owed, allocate_io_zone_no_lock-balanced}
use zenfs_modified.Codec.{get_io_zone, go, encode_to, decode_from}
use zenfs_modified.Codec.RoundTrip.{IsEncodable, restored, credits, decode_from-encode_to}
use zenfs_modified.Files.{get_extent, rename_link}
use zenfs_modified.Files.Update.{merge_update, with_level}
use zenfs_modified.Files.Extents.{EndsInRange, Holds, total_length, get_extent-Found}
use zenfs_modified.Files.Names.{named, rename_link-cases}
use zenfs_modified.Files.Used.{Covers, HasRoom, held_in, merge_update-used}
use zenfs_modified.Tests.Values.{
  some_extent, other_extent, old_name, new_name, still, update, device, backend, library,
  file_policies, some_file, fresh_file, zones,
}
use zenfs_modified.Tests.Coder.{coder, coder_laws}

pub policies-KeepsTokens : KeepsTokens file_policies
policies-KeepsTokens = record { keeps = λ p f lifetime min_capacity b. Keeps-pure }

allocate_io_zone_no_lock-balanced_example :
    Ended device.open_io_zones
      (owed device.open_io_zones)
      (allocate_io_zone_no_lock backend library file_policies 0 2 data_io 4 device)
allocate_io_zone_no_lock-balanced_example =
    allocate_io_zone_no_lock-balanced backend library file_policies policies-KeepsTokens 0 2 data_io
      4 device

zones-Distinct : Distinct device.io_zones
zones-Distinct = ((omega arith, (omega arith, tt)), ((omega arith, tt), (tt, tt)))

match_lifetime_based-IsBest_example :
    (b : Match) × (match_lifetime_based 2 4 device
      ≡ ok b (with_zones device (claim b.allocated device.zone)))
    × IsBest 2 4 device.zone device.io_zones b
match_lifetime_based-IsBest_example = match_lifetime_based-IsBest 2 4 device zones-Distinct

allocate_empty_zone_default-Finds_example :
    (a : Option ℕ) × (allocate_empty_zone_default device
      ≡ ok a (with_zones device (claim a device.zone)))
    × Finds device.zone device.io_zones a
allocate_empty_zone_default-Finds_example = allocate_empty_zone_default-Finds device

abbrev eight_bytes : List ℕ
eight_bytes = 1 ∷ 2 ∷ 3 ∷ 4 ∷ 5 ∷ 6 ∷ 7 ∷ 8 ∷ []

backend-WritesSome : WritesSome backend
backend-WritesSome data_ left wp b n h e = omega (arith, h, some-injective (min left 4) n e)

append-Takes_example :
    ((8 ≤ (device.zone 0).capacity) × Takes 0 8 device (append backend 0 eight_bytes 8 device))
    ⊎ (((device.zone 0).capacity < 8)
        × (append backend 0 eight_bytes 8 device ≡ err no_space device))
append-Takes_example =
    append-Takes backend backend-WritesSome 0 eight_bytes 8 device (omega arith) (omega arith)
      (omega arith)

extent_zone : get_io_zone zones 16 device.io_zones 0 ≡ some 0
unfolding get_io_zone add64
extent_zone = refl

file-IsEncodable : IsEncodable coder device.io_zones device.zone_size device.zone some_file
file-IsEncodable = record {
  file_id = omega arith;
  file_size = omega arith;
  lifetime = omega arith;
  m_time = omega arith;
  extent_start = omega arith;
  extents = ((omega arith, omega arith, extent_zone), tt);
  linkfiles = ((omega arith, omega arith), tt);
}

decode_from-encode_to_example :
    decode_from coder device.io_zones device.zone_size
      (record { file = fresh_file; zone = zones })
      (encode_to coder some_file 0)
    ≡ go
        (record { file = restored some_file fresh_file; zone = credits some_file.extents zones })
        []
decode_from-encode_to_example =
    decode_from-encode_to coder device.io_zones device.zone_size coder_laws some_file
      (record { file = fresh_file; zone = zones }) file-IsEncodable

two_extents : All EndsInRange (other_extent ∷ some_extent ∷ [])
two_extents = (omega arith, (omega arith, tt))

get_extent-Found_example :
    ((e : ZoneExtent) × (dev : ℕ) × (get_extent (other_extent ∷ some_extent ∷ []) 13
        ≡ some (e, dev))
      × Holds (other_extent ∷ some_extent ∷ []) 13 e dev)
    ⊎ ((get_extent (other_extent ∷ some_extent ∷ []) 13 ≡ none)
        × (total_length (other_extent ∷ some_extent ∷ []) ≤ 13))
get_extent-Found_example = get_extent-Found (other_extent ∷ some_extent ∷ []) 13 two_extents

rename_link-cases_example :
    ((front : List (List ℕ)) × (back : List (List ℕ)) × ((device.file 0).linkfiles
        ≡ front ++ old_name ∷ back)
      × Absent old_name front
      × (rename_link 0 old_name new_name device
          ≡ ok tt (named 0 ((front ++ back) ++ new_name ∷ []) device)))
    ⊎ (Absent old_name (device.file 0).linkfiles
        × (rename_link 0 old_name new_name device ≡ err io_error device))
rename_link-cases_example = rename_link-cases 0 old_name new_name device

still_Covers : Covers still.zone (still.file 0).extents
still_Covers z = ground arith

still_HasRoom : HasRoom still.zone update.extents
still_HasRoom z = ground arith

merge_update-used_example :
    (d' : Device (Unit {0})) × (merge_update 0 update true still ≡ ok tt d')
    × ((d'.file 0).extents ≡ map (with_level (negsuc 0)) update.extents)
    × ((z : ℕ)
        → (d'.zone z).used_capacity + held_in z (still.file 0).extents
          ≡ (still.zone z).used_capacity + held_in z update.extents)
merge_update-used_example = merge_update-used 0 update still refl refl still_Covers still_HasRoom

abbrev some_map : ℕ → ℕ
some_map start = if start == 0 then 5 else 0

choose_zone_with_highest_contrib-IsHighest_example :
    (b : Match) × (choose_zone_with_highest_contrib no_contribution some_map 4 device
      ≡ ok b (with_zones device (claim b.allocated device.zone)))
    × IsHighest some_map 4 device.zone device.io_zones b
choose_zone_with_highest_contrib-IsHighest_example =
    choose_zone_with_highest_contrib-IsHighest some_map 4 device zones-Distinct
