-- ===== src/Policies.antt =====
-- fs/zbd_extension_zenfs.cc and fs/zbd_zenfs.cc: the file placement policies that look at the zones
-- alone, and the choice of a policy for a file. A policy answers with the score of its match, and
-- with the zone, which it holds busy. A policy writes `*zone_out` also when it found no zone.
pub mod Lifetime
pub mod Contribution
use zenfs_modified.Base.{
  ℕ, ◌-◌, Bool, true, false, ◌&&◌, ◌||◌, not, Option, none, some, List, ltb, leb, ◌==◌,
  if◌then◌else◌,
}
use zenfs_modified.Base.Int.{ℤ, pos, eqb_ℤ, leb_ℤ}
use zenfs_modified.Params.{PlacementPolicyType, is_cluster_together}
use zenfs_modified.Store.{Zone, ZoneFile, Device, Outcome, ok, err, M, ◌>>=◌, ◌>>◌, pure, gets}
use zenfs_modified.Zones.{is_used, is_full}
use zenfs_modified.Select.{Best, Test, select, drop_best_or_both}

abbrev pub lifetime_diff_not_good : ℕ
lifetime_diff_not_good = 100

abbrev pub lifetime_diff_could_be_worse : ℕ
lifetime_diff_could_be_worse = 50

abbrev pub wlth_none : ℕ
wlth_none = 1

-- `ZonedBlockDevice::GetLifeTimeDiff`, for a hint that its assertion lets through.
unfoldable pub get_life_time_diff : ℕ → ℕ → ℕ
get_life_time_diff zone_lifetime file_lifetime =
    if file_lifetime == 0 || file_lifetime == wlth_none
    then if file_lifetime == zone_lifetime then 0 else lifetime_diff_not_good
    else if ltb file_lifetime zone_lifetime
    then zone_lifetime - file_lifetime
    else if zone_lifetime == file_lifetime
    then lifetime_diff_could_be_worse
    else lifetime_diff_not_good

-- What every policy asks of a zone: it holds valid data, and has room for the file.
abbrev pub has_room : ℕ → Zone → Bool
has_room min_capacity z = is_used z && not (is_full z) && leb min_capacity z.capacity

abbrev pub Match : Type 0
Match = Best ℕ

unfoldable pub lifetime_test : ℕ → ℕ → Test ℕ
unfolding get_life_time_diff
lifetime_test file_lifetime min_capacity old best_diff z =
    if has_room min_capacity z
    then (let diff = get_life_time_diff z.lifetime file_lifetime in
        if leb diff best_diff then some diff else none)
    else none

-- `max (1, level)`
abbrev pub at_least_one : ℤ → ℤ
at_least_one l = if leb_ℤ l (pos 1) then pos 1 else l

unfoldable pub arrival_time_test : ℤ → ℕ → Test ℕ
arrival_time_test file_level min_capacity old best_diff z =
    if has_room min_capacity z && eqb_ℤ (at_least_one z.level) (at_least_one file_level)
    then some 0
    else none

unfoldable pub cluster_test : ℕ → Test ℕ
cluster_test min_capacity old best_diff z =
    if has_room min_capacity z && is_cluster_together z.policy then some 0 else none

abbrev pub no_match : Match
no_match = record { allocated = none; score = lifetime_diff_not_good }

module _ {B : Type 0} where
  unfoldable pub match_lifetime_based : ℕ → ℕ → M B Match
  match_lifetime_based file_lifetime min_capacity = do
    io_zones ← gets (λ d. d.io_zones)
    select drop_best_or_both (lifetime_test file_lifetime min_capacity) no_match io_zones

  unfoldable pub match_arrival_time_based : ℤ → ℕ → M B Match
  match_arrival_time_based file_level min_capacity = do
    io_zones ← gets (λ d. d.io_zones)
    select drop_best_or_both (arrival_time_test file_level min_capacity) no_match io_zones

  unfoldable pub match_cluster_together : ℕ → M B Match
  match_cluster_together min_capacity = do
    io_zones ← gets (λ d. d.io_zones)
    select drop_best_or_both (cluster_test min_capacity) no_match io_zones

-- `ChooseZoneWithHighestContrib`: the map from the starts of zones to contributions is a function
-- that answers zero for a missing key, as the map's `operator[]` does.
unfoldable pub contrib_test : (ℕ → ℕ) → ℕ → Test ℕ
contrib_test contribution_map min_capacity old highest z =
    if has_room min_capacity z
    then (let contribution = contribution_map z.start in
        if ltb highest contribution then some contribution else none)
    else none

module _ {B : Type 0} where
  unfoldable pub choose_zone_with_highest_contrib : Match → (ℕ → ℕ) → ℕ → M B Match
  choose_zone_with_highest_contrib b contribution_map min_capacity = do
    io_zones ← gets (λ d. d.io_zones)
    select drop_best_or_both (contrib_test contribution_map min_capacity) b io_zones
