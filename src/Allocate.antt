-- ===== src/Allocate.antt =====
-- fs/zbd_zenfs.cc, `AllocateIOZone` and `AllocateIOZoneNoLock`: a zone is found for a file among the
-- open ones, or a new one is opened, against the tokens of open and of active zones.
pub mod OpenToken
pub mod Balance
use zenfs_modified.Base.{
  ℕ, zero, suc, ◌+◌, ◌%◌, Bool, true, false, not, ◌&&◌, ◌||◌, Option, none, some, List, ltb, leb,
  ◌==◌, if◌then◌else◌, max, length,
}
use zenfs_modified.Base.Int.{ℤ, pos, ltb_ℤ}
use zenfs_modified.Base.Words.{add64, u32_mod}
use zenfs_modified.Params.{
  PlacementPolicyType, lifetime_based, arrival_time_based, cluster_together, tombstone_ttl,
  leveled_lifetime_based, user_defined_placement, get_policy, get_secondary_policy,
  is_tombstone_density, is_cluster_together, is_arrival_time_based, is_caza, is_oaza,
}
use zenfs_modified.Store.{
  ZoneFile, IoType, data_io, wal, Backend, Device, ok, M, ◌>>=◌, ◌>>◌, pure, fail, gets, point_at,
  assert_that, fault, blocked, no_space,
}
use zenfs_modified.Zones.{check_release, is_full, close}
use zenfs_modified.Tokens.{
  wait_for_open_io_zone_token, get_active_io_zone_token_if_available, put_open_io_zone_token,
  put_active_io_zone_token, get_zone_deferred_status,
}
use zenfs_modified.Policies.{
  Match, no_match, match_lifetime_based, match_arrival_time_based, match_cluster_together,
  lifetime_diff_not_good, lifetime_diff_could_be_worse,
}
use zenfs_modified.EmptyZones.{Library, allocate_empty_zone, get_empty_zone_count, raise_max_level}
use zenfs_modified.Placement.{FilePolicies, is_wal, get_best_open_zone_match}
use zenfs_modified.Reclaim.{on_error, apply_finish_threshold, finish_cheapest_io_zone}

module _ {B : Type 0} where
  unfoldable pub forget_need : M B (Unit {0})
  forget_need d = ok tt (record d { need_flag = false })

  -- A zone that was just opened takes its attributes from the file.
  unfoldable pub label_zone : ℕ → ℕ → ℕ → M B (Unit {0})
  unfolding get_policy add64
  label_zone f lifetime z d =
      let level = (d.file f).level in
      ok tt (record d {
        zone = point_at d.zone z (record (d.zone z) {
          lifetime = lifetime;
          policy = get_policy d.params level;
          level = level;
        });
        nearest_got_new = if d.need_flag then add64 d.nearest_got_new 1 else d.nearest_got_new;
      })

  unfoldable pub opened : ℕ → ℕ → Option ℕ → M B (Option ℕ)
  opened f lifetime none = put_active_io_zone_token >> pure none
  opened f lifetime (some z) = do
    busy ← gets (λ d. (d.zone z).busy)
    assert_that busy (label_zone f lifetime z)
    pure (some z)

  unfoldable pub put_active_if : Bool → M B (Unit {0})
  put_active_if got_token = if got_token then put_active_io_zone_token else pure tt

  -- Whether the zone that the policy found is kept although it is no good match.
  unfoldable pub keep_match : Option ℕ → ℕ → Bool → M B (Option ℕ)
  keep_match none score got_token = pure none
  keep_match (some p) score got_token = do
    empty ← get_empty_zone_count
    reserve ← gets (λ d. d.params.reserve_zone_count)
    if not got_token && (score == lifetime_diff_could_be_worse)
        then pure (some p)
        else if ltb reserve empty
        then (do
          on_error (check_release p) (put_open_io_zone_token >> put_active_if got_token)
          pure none)
        else (do put_active_if got_token; pure (some p))

  -- The open token goes with the zone: without one it is given back.
  unfoldable pub hand_out : Option ℕ → M B (Option ℕ)
  hand_out none = put_open_io_zone_token >> pure none
  hand_out (some z) = do
    busy ← gets (λ d. (d.zone z).busy)
    assert_that busy (pure tt)
    pure (some z)

module _ {B : Type 0} (be : Backend B) where
  -- `while (!got_token && !GetActiveIOZoneTokenIfAvailable()) FinishCheapestIOZone()`. Each round that
  -- finishes a zone frees a token; a round that finds none to finish leaves the loop turning until
  -- another thread frees one, which is `blocked`.
  unfoldable pub ensure_round : M B (Unit {0}) → M B (Unit {0})
  ensure_round retry = do
    got ← get_active_io_zone_token_if_available
    if got then pure tt else finish_cheapest_io_zone be >> retry

  unfoldable pub ensure_active_token : ℕ → M B (Unit {0})
  ensure_active_token zero = fail blocked
  ensure_active_token (suc fuel) = ensure_round (ensure_active_token fuel)

  module _ (lib : Library) where
    -- With an active token: opens an empty zone, or gives the token back.
    unfoldable pub open_empty_zone : ℕ → ℕ → M B (Option ℕ)
    open_empty_zone f lifetime = do
      level ← gets (λ d. (d.file f).level)
      a ←
          on_error (allocate_empty_zone lib level)
            (put_active_io_zone_token >> put_open_io_zone_token)
      opened f lifetime a

    -- Gets an active token first, if there is none yet.
    unfoldable pub open_new_zone : ℕ → ℕ → Bool → M B (Option ℕ)
    open_new_zone f lifetime got_token = do
      io_zones ← gets (λ d. d.io_zones)
      (if got_token
          then pure tt
          else on_error (ensure_active_token (suc (length io_zones))) put_open_io_zone_token)
      open_empty_zone f lifetime

    unfoldable pub kept_or_new : ℕ → ℕ → Bool → Option ℕ → M B (Option ℕ)
    kept_or_new f lifetime got_token none = open_new_zone f lifetime got_token
    kept_or_new f lifetime got_token (some p) = pure (some p)

    unfoldable pub improve_match : ℕ → ℕ → Match → M B (Option ℕ)
    improve_match f lifetime m = do
      got_token ← get_active_io_zone_token_if_available
      kept ← keep_match m.allocated m.score got_token
      kept_or_new f lifetime got_token kept

    unfoldable pub allocate_io_zone_no_lock : FilePolicies B → ℕ → ℕ → IoType → ℕ → M B (Option ℕ)
    allocate_io_zone_no_lock fps f lifetime io_type min_capacity = do
      level ← gets (λ d. (d.file f).level)
      raise_max_level level
      forget_need
      get_zone_deferred_status
      (if is_wal io_type then pure tt else apply_finish_threshold be)
      wait_for_open_io_zone_token (is_wal io_type)
      m ←
          on_error (get_best_open_zone_match fps f lifetime min_capacity no_match)
            put_open_io_zone_token
      a ←
          (if leb lifetime_diff_could_be_worse m.score
            then improve_match f lifetime m
            else pure m.allocated)
      hand_out a

    -- `AllocateIOZone`: a file that may not be spread over zones asks for room for all of it.
    unfoldable pub allocate_io_zone : FilePolicies B → ℕ → ℕ → IoType → M B (Option ℕ)
    allocate_io_zone fps f lifetime io_type = do
      spread ← gets (λ d. d.params.fragmentation_enabled)
      alloc_size ← gets (λ d. (d.file f).alloc_size)
      allocate_io_zone_no_lock fps f lifetime io_type (if spread then 0 else alloc_size)
