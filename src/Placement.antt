-- ===== src/Placement.antt =====
-- fs/zbd_zenfs.cc: the choice of an open zone for a file. A policy is a
-- function of the file's pointer, its lifetime hint, the room that is asked for, and the match so
-- far, which stands for what `best_diff_out` and `zone_out` point at.
-- The one error that a policy returns is that of `CheckRelease`, whose assertion ends the program
-- first, so that the code after a policy never sees its status fail.
pub mod OpenCount
use zenfs_modified.Base.{
  ℕ, zero, suc, ◌+◌, ◌%◌, Bool, true, false, not, ◌&&◌, ◌||◌, Option, none, some, List, ltb, leb,
  ◌==◌, if◌then◌else◌, max, length,
}
use zenfs_modified.Base.Int.{ℤ, pos, ltb_ℤ}
use zenfs_modified.Base.Words.{add64, u32_mod}
use zenfs_modified.Params.{
  PlacementPolicyType, lifetime_based, arrival_time_based, cluster_together, tombstone_ttl,
  leveled_lifetime_based, user_defined_placement, get_policy, get_secondary_policy,
  is_tombstone_density, is_cluster_together, is_arrival_time_based, is_caza, is_oaza,
}
use zenfs_modified.Store.{
  ZoneFile, IoType, data_io, wal, Backend, Device, ok, M, ◌>>=◌, ◌>>◌, pure, fail, gets, point_at,
  assert_that, fault, blocked, no_space,
}
use zenfs_modified.Zones.{check_release, is_full, close}
use zenfs_modified.Tokens.{
  wait_for_open_io_zone_token, get_active_io_zone_token_if_available, put_open_io_zone_token,
  put_active_io_zone_token, get_zone_deferred_status,
}
use zenfs_modified.Policies.{
  Match, no_match, match_lifetime_based, match_arrival_time_based, match_cluster_together,
  lifetime_diff_not_good, lifetime_diff_could_be_worse,
}
use zenfs_modified.EmptyZones.{Library, allocate_empty_zone, get_empty_zone_count, raise_max_level}
use zenfs_modified.Reclaim.{on_error, apply_finish_threshold, finish_cheapest_io_zone}

abbrev pub Policy : Type 0 → Type 0
Policy B = ℕ → ℕ → ℕ → Match → M B Match

-- The policies that look at the files of the levels, and the test on a file's tombstones.
pub record FilePolicies (B : Type 0) : Type 0 where
  pub by_files : PlacementPolicyType → Policy B
  pub is_high_tombstone : ZoneFile → Bool

abbrev pub is_data : IoType → Bool
is_data data_io = true
is_data _ = false

abbrev pub is_wal : IoType → Bool
is_wal wal = true
is_wal _ = false

abbrev pub same_zone : Option ℕ → Option ℕ → Bool
same_zone none none = true
same_zone none (some q) = false
same_zone (some p) none = false
same_zone (some p) (some q) = p == q

-- `*best_diff_out = max(bound, *best_diff_out)` where the condition holds
abbrev pub raise_if : Bool → ℕ → Match → Match
raise_if c bound b = record b { score = if c then max bound b.score else b.score }

module _ {B : Type 0} (fps : FilePolicies B) where
  -- `function_map`. Two policies have no entry: the call goes through a null pointer.
  unfoldable pub run_policy : PlacementPolicyType → Policy B
  run_policy lifetime_based f lifetime min_capacity b = match_lifetime_based lifetime min_capacity
  run_policy tombstone_ttl f lifetime min_capacity b = match_lifetime_based lifetime min_capacity
  run_policy arrival_time_based f lifetime min_capacity b = do
    level ← gets (λ d. (d.file f).level)
    match_arrival_time_based level min_capacity
  run_policy cluster_together f lifetime min_capacity b = match_cluster_together min_capacity
  run_policy leveled_lifetime_based f lifetime min_capacity b = fail fault
  run_policy user_defined_placement f lifetime min_capacity b = fail fault
  run_policy p f lifetime min_capacity b = fps.by_files p f lifetime min_capacity b

  -- Where the primary policy wanted a zone of its own and found none.
  unfoldable pub adjust_diff : PlacementPolicyType → ℕ → ℤ → ℕ → Match → M B Match
  adjust_diff primary f level max_level b d =
      let file = d.file f in
      ok
        (raise_if (is_oaza primary && (d.params.real_oaza == 0) && ltb_ℤ file.level (pos max_level))
          lifetime_diff_could_be_worse
          (raise_if
            (is_oaza primary
              && not (d.params.real_oaza == 0)
              && ltb_ℤ level (pos max_level)
              && ltb_ℤ level file.level)
            lifetime_diff_not_good
            (raise_if (is_caza primary && not (d.params.real_caza == 0))
              lifetime_diff_could_be_worse
              (raise_if (is_tombstone_density primary && fps.is_high_tombstone file)
                lifetime_diff_could_be_worse
                (raise_if (is_arrival_time_based primary || is_cluster_together primary)
                  lifetime_diff_could_be_worse b)))))
        d

  -- The fallback, and the lifetime policy where that finds no zone either.
  unfoldable pub fall_back :
      PlacementPolicyType → PlacementPolicyType → ℕ → ℤ → ℕ → ℕ → ℕ → Match → Match → M B Match
  fall_back primary fallback f level max_level lifetime min_capacity old b = do
    b' ← run_policy fallback f lifetime min_capacity b
    c ← adjust_diff primary f level max_level b'
    if not (same_zone c.allocated old.allocated) then pure c else do
      last ← match_lifetime_based lifetime min_capacity
      (λ d. ok tt (record d { failure_count = add64 d.failure_count 1 }))
      pure (record last { score = max lifetime_diff_could_be_worse last.score })

  -- The room asked for is narrowed to 32 bits; a file that is no SST file asks for none.
  unfoldable pub get_best_open_zone_match : ℕ → ℕ → ℕ → Match → M B Match
  get_best_open_zone_match f lifetime min_capacity old = do
    file ← gets (λ d. d.file f)
    if ltb_ℤ file.level (pos 0) || not file.has_keys || not (is_data file.io_type)
        then match_lifetime_based lifetime 0
        else (do
          ps ← gets (λ d. d.params)
          (λ d. ok tt (record d { alloc_count = add64 d.alloc_count 1 }))
          let primary = get_policy ps file.level
          let fallback = get_secondary_policy ps file.level
          b ← run_policy primary f lifetime (min_capacity % u32_mod) old
          if not (same_zone b.allocated old.allocated)
              then pure b
              else fall_back primary fallback f file.level ps.max_level lifetime
                  (min_capacity % u32_mod) old b)
