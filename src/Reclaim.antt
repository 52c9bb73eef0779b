-- ===== src/Reclaim.antt =====
-- fs/zbd_zenfs.cc: the loops that give zones back. Resetting a zone that holds no valid data and
-- finishing an open zone both free the token of an active zone.
pub mod OpenCount
pub mod Frame
pub mod Quiet
use zenfs_modified.Base.{
  ℕ, ◌+◌, ◌*◌, ◌/◌, Bool, true, false, not, ◌&&◌, ◌||◌, Option, none, some, List, [], ◌∷◌, ltb,
  ◌==◌, if◌then◌else◌,
}
use zenfs_modified.Base.Words.{add64, mul64}
use zenfs_modified.Store.{
  Zone, Backend, Error, Outcome, ok, err, M, ◌>>=◌, ◌>>◌, chain, pure, fail, gets, point_at,
  no_space, assertion, fault, blocked,
}
use zenfs_modified.Zones.{
  acquire, release, check_release, is_used, is_full, is_empty, reset, finish, close,
  add_finish_bytes_written,
}
use zenfs_modified.Tokens.{put_open_io_zone_token, put_active_io_zone_token}
use zenfs_modified.Select.{Best, Test, select, for_each, find_zone, drop_best}

-- Whether an error is one that a call returns, rather than the end or the halt of the program.
abbrev pub is_status : Error → Bool
is_status assertion = false
is_status fault = false
is_status blocked = false
is_status _ = true

module _ {B A : Type 0} where
  abbrev pub recover : M B (Unit {0}) → Outcome B A → Outcome B A
  recover cleanup (ok a d) = ok a d
  recover cleanup (err e d) = if is_status e then chain (cleanup d) (λ _. fail e) else err e d

  -- What the source does on the way out when a call returned an error.
  unfoldable pub on_error : M B A → M B (Unit {0}) → M B A
  on_error m cleanup d = recover cleanup (m d)

  abbrev pub status_of : Outcome B A → Outcome B (Option Error)
  status_of (ok a d) = ok none d
  status_of (err e d) = if is_status e then ok (some e) d else err e d

  -- Runs a call and keeps its status, to look at it later.
  unfoldable pub attempt : M B A → M B (Option Error)
  attempt m d = status_of (m d)

abbrev pub rethrow : {B : Type 0} → Option Error → M B (Unit {0})
rethrow none = pure tt
rethrow (some e) = fail e

-- The zone with the least capacity left among those that are neither empty nor full.
unfoldable pub cheapest_test : Test (Unit {0})
cheapest_test none s z = if is_empty z || is_full z then none else some s
cheapest_test (some victim) s z =
    if is_empty z || is_full z
    then none
    else if ltb z.capacity victim.capacity
    then some s
    else none

module _ {B : Type 0} where
  -- A finish that went well frees the token of an active zone.
  unfoldable pub token_if_done : Option Error → M B (Unit {0})
  token_if_done none = put_active_io_zone_token
  token_if_done (some e) = pure tt

  unfoldable pub reset_or_skip : ℕ → Option Error → M B Bool
  reset_or_skip z none = pure true
  reset_or_skip z (some e) = check_release z >> pure false

  unfoldable pub count_reset : M B (Unit {0})
  unfolding add64
  count_reset d = ok tt (record d { total_reset_count = add64 d.total_reset_count 1 })

  unfoldable pub mark_gc_reset : ℕ → M B (Unit {0})
  unfolding add64
  mark_gc_reset z d = ok tt (record d {
    zone = point_at d.zone z (record (d.zone z) { flag_gc_reset = true });
    gc_reset_count = add64 d.gc_reset_count 1;
  })

module _ {B : Type 0} (be : Backend B) where
  -- The status of the reset is looked at after the zone is freed.
  unfoldable pub reset_and_free : Bool → ℕ → M B (Unit {0})
  reset_and_free gc z = do
    full ← gets (λ d. is_full (d.zone z))
    reset_status ← attempt (reset be z)
    release_status ← attempt (check_release z)
    rethrow reset_status
    rethrow release_status
    if full then pure tt else put_active_io_zone_token
    count_reset
    if gc then mark_gc_reset z else pure tt

  -- One round of `ResetUnusedIOZones`.
  unfoldable pub reset_unused_zone : Bool → ℕ → M B (Unit {0})
  unfolding reset_and_free
  reset_unused_zone gc z = do
    got ← acquire z
    v ← gets (λ d. d.zone z)
    if not got
        then pure tt
        else if not (is_empty v) && not (is_used v)
        then reset_and_free gc z
        else check_release z

  unfoldable pub reset_unused_io_zones : Bool → M B (Unit {0})
  reset_unused_io_zones gc = do
    io_zones ← gets (λ d. d.io_zones)
    for_each (reset_unused_zone gc) io_zones

  -- One round of `ApplyFinishThreshold`.
  unfoldable pub finish_nearly_full : ℕ → M B (Unit {0})
  unfolding mul64
  finish_nearly_full z = do
    got ← acquire z
    if not got then pure tt else do
      v ← gets (λ d. d.zone z)
      threshold ← gets (λ d. d.finish_threshold)
      if not (is_empty v || is_full v) && ltb v.capacity (mul64 v.max_capacity threshold / 100)
          then (do
            on_error (finish be z) (release z >> pure tt)
            check_release z
            put_active_io_zone_token)
          else check_release z

  unfoldable pub apply_finish_threshold : M B (Unit {0})
  apply_finish_threshold = do
    threshold ← gets (λ d. d.finish_threshold)
    if threshold == 0
        then pure tt
        else do io_zones ← gets (λ d. d.io_zones); for_each finish_nearly_full io_zones

  unfoldable pub finish_victim : Option ℕ → M B (Unit {0})
  finish_victim none = pure tt
  finish_victim (some z) = do
    v ← gets (λ d. d.zone z)
    add_finish_bytes_written v.capacity
    finish_status ← attempt (finish be z)
    release_status ← attempt (check_release z)
    token_if_done finish_status
    rethrow release_status
    rethrow finish_status

  unfoldable pub finish_cheapest_io_zone : M B (Unit {0})
  finish_cheapest_io_zone = do
    io_zones ← gets (λ d. d.io_zones)
    b ← select (λ a z. drop_best a) cheapest_test (record { allocated = none; score = tt }) io_zones
    finish_victim b.allocated

  -- One round of `AllocateMetaZone`. A zone that is in use stays busy; a zone that cannot be reset is
  -- freed, and the search goes on.
  unfoldable pub try_meta_zone : ℕ → M B Bool
  try_meta_zone z = do
    got ← acquire z
    v ← gets (λ d. d.zone z)
    if not got || is_used v
        then pure false
        else if is_empty v
        then pure true
        else do status ← attempt (reset be z); reset_or_skip z status

  unfoldable pub allocate_meta_zone : M B ℕ
  allocate_meta_zone = do
    meta_zones ← gets (λ d. d.meta_zones)
    hit ← find_zone try_meta_zone meta_zones
    elim hit [ none ↦ fail no_space | some z ↦ pure z ]
