-- ===== src/Params.antt =====
-- fs/param_loader.h: the strategies and the tunable parameters that placement and allocation read,
-- and `ZonedBlockDevice::GetPolicy` and `GetSecondaryPolicy` of fs/zbd_zenfs.h over them.
-- A `uint8_t` or `uint64_t` parameter is a number; the parameters of type `double` are not here.
use zenfs_modified.Base.{ℕ, Bool, if◌then◌else◌}
use zenfs_modified.Base.Int.{ℤ, pos, ltb_ℤ, leb_ℤ}

pub data EmptyZoneAllocType : Type 0 where
  default_alloc sequential random least_wear hotness_based user_defined_alloc : EmptyZoneAllocType

pub data PlacementPolicyType : Type 0 where
  lifetime_based leveled_lifetime_based caza plaza_base plaza_intermediate : PlacementPolicyType
  plaza_advanced same_level_nearby_keys_simple arrival_time_based : PlacementPolicyType
  tombstone_density tombstone_ttl cluster_together overlap_children : PlacementPolicyType
  overlap_grandchildren compensated_size oaza user_defined_placement : PlacementPolicyType

pub record ZenfsParamContainer : Type 0 where
  pub empty_zone_allocator : EmptyZoneAllocType
  pub real_caza : ℕ
  pub real_oaza : ℕ
  pub dynamic_level_adjustment : Bool
  pub average_value_size : ℕ
  pub max_level : ℕ
  pub min_boundary : ℕ
  pub max_boundary : ℕ
  pub upper_level_policy : PlacementPolicyType
  pub upper_level_policy_fallback : PlacementPolicyType
  pub lower_level_policy : PlacementPolicyType
  pub lower_level_policy_fallback : PlacementPolicyType
  pub middle_level_policy : PlacementPolicyType
  pub middle_level_policy_fallback : PlacementPolicyType
  pub fragmentation_enabled : Bool
  pub reserve_zone_count : ℕ

-- The policy that governs a level: a negative level is no SST file's.
unfoldable pub get_policy : ZenfsParamContainer → ℤ → PlacementPolicyType
get_policy ps level =
    if ltb_ℤ level (pos 0)
    then lifetime_based
    else if leb_ℤ level (pos ps.min_boundary)
    then ps.upper_level_policy
    else if leb_ℤ (pos ps.max_boundary) level
    then ps.lower_level_policy
    else ps.middle_level_policy

unfoldable pub get_secondary_policy : ZenfsParamContainer → ℤ → PlacementPolicyType
get_secondary_policy ps level =
    if ltb_ℤ level (pos 0)
    then lifetime_based
    else if leb_ℤ level (pos ps.min_boundary)
    then ps.upper_level_policy_fallback
    else if leb_ℤ (pos ps.max_boundary) level
    then ps.lower_level_policy_fallback
    else ps.middle_level_policy_fallback

abbrev pub is_tombstone_density : PlacementPolicyType → Bool
is_tombstone_density tombstone_density = Bool.true
is_tombstone_density _ = Bool.false

abbrev pub is_cluster_together : PlacementPolicyType → Bool
is_cluster_together cluster_together = Bool.true
is_cluster_together _ = Bool.false

abbrev pub is_arrival_time_based : PlacementPolicyType → Bool
is_arrival_time_based arrival_time_based = Bool.true
is_arrival_time_based _ = Bool.false

abbrev pub is_caza : PlacementPolicyType → Bool
is_caza caza = Bool.true
is_caza _ = Bool.false

abbrev pub is_oaza : PlacementPolicyType → Bool
is_oaza oaza = Bool.true
is_oaza _ = Bool.false
