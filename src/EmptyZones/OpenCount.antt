-- ===== src/EmptyZones/OpenCount.antt =====
-- The steps of the allocators leave the count of open zones as it was, however they end.
use zenfs_modified.Base.{ℕ, ◌≡◌, refl, Bool, Option, none, some, List, zero, suc, arith}
use zenfs_modified.Base.Int.{ℤ}
use zenfs_modified.Params.{
  EmptyZoneAllocType, default_alloc, sequential, random, least_wear, hotness_based,
  user_defined_alloc,
}
use zenfs_modified.Store.{Device, Error, M, after}
use zenfs_modified.Store.Frame.{Keeps, Keeps-pure, frame_rules}
use zenfs_modified.Zones.{acquire, release, check_release, ask, command, add_finish_bytes_written}
use zenfs_modified.Tokens.{
  return_status, get_active_io_zone_token_if_available, put_active_io_zone_token,
  get_zone_deferred_status,
}
use zenfs_modified.Select.Frame.{find_zone-Keeps, drop_best-Keeps, select-Keeps}
use zenfs_modified.EmptyZones.{
  Library, try_empty, allocate_empty_zone_default, sequential_loop, sequential_round,
  allocate_empty_zone_sequential, allocate_empty_zone_least_wear, allocate_empty_zone_random,
  allocate_empty_zone_hotness_based, element, try_at, closest, outside_interval, interval_or,
  in_interval, advance_zone_pos, raise_max_level, empty_zone_allocator, allocate_empty_zone,
}

module _ {B : Type 0} where
  abbrev pub open_count : Device B → ℤ
  open_count d = d.open_io_zones

  pub acquire-Keeps : (z : ℕ) → Keeps open_count (acquire z)
  unfolding acquire
  acquire-Keeps z = search frame_rules

  pub check_release-Keeps : (z : ℕ) → Keeps open_count (check_release z)
  unfolding check_release release
  check_release-Keeps z = search frame_rules depth 8

  pub ask-Keeps : {A : Type 0} (op : B → Option A × B) → Keeps open_count (ask op)
  unfolding ask
  ask-Keeps op = record { same = λ d. ground arith }

  pub command-Keeps : (op : B → Bool × B) → Keeps open_count (command op)
  unfolding command
  command-Keeps op = record { same = λ d. ground arith }

  pub get_active-Keeps : Keeps {B = B} open_count get_active_io_zone_token_if_available
  unfolding get_active_io_zone_token_if_available
  get_active-Keeps = record { same = λ d. ground arith }

  pub put_active-Keeps : Keeps {B = B} open_count put_active_io_zone_token
  unfolding put_active_io_zone_token
  put_active-Keeps = record { same = λ d. refl }

  deferred-same :
      (d : Device B) (s : Option Error) → open_count (after (return_status s d)) ≡ open_count d
  deferred-same d none = refl
  deferred-same d (some e) = refl

  pub deferred-Keeps : Keeps {B = B} open_count get_zone_deferred_status
  unfolding get_zone_deferred_status
  deferred-Keeps = record { same = λ d. deferred-same d d.deferred_status }

  pub raise_max_level-Keeps : (l : ℤ) → Keeps open_count (raise_max_level l)
  unfolding raise_max_level
  raise_max_level-Keeps l = record { same = λ d. ground arith }

  pub finish_bytes-Keeps : (n : ℕ) → Keeps open_count (add_finish_bytes_written n)
  unfolding add_finish_bytes_written
  finish_bytes-Keeps n = record { same = λ d. refl }

  try_empty-Keeps : (z : ℕ) → Keeps open_count (try_empty z)
  unfolding try_empty
  try_empty-Keeps z = search (acquire-Keeps, check_release-Keeps, frame_rules) depth 9

  default-Keeps : Keeps {B = B} open_count allocate_empty_zone_default
  unfolding allocate_empty_zone_default
  default-Keeps = search (find_zone-Keeps, try_empty-Keeps, frame_rules)

  element-Keeps : (zs : List ℕ) (i : ℕ) → Keeps open_count (element zs i)
  unfolding element
  element-Keeps zs i = record { same = λ d. ground arith }

  try_at-Keeps : (zs : List ℕ) (i : ℕ) → Keeps open_count (try_at zs i)
  unfolding try_at
  try_at-Keeps zs i = search (element-Keeps, try_empty-Keeps, frame_rules)

  advance-Keeps : Keeps {B = B} open_count advance_zone_pos
  unfolding advance_zone_pos
  advance-Keeps = record { same = λ d. refl }

  sequential_round-Keeps :
      (next : M B (Option ℕ)) → Keeps open_count next → Keeps open_count (sequential_round next)
  unfolding sequential_round
  sequential_round-Keeps next h =
      search (try_empty-Keeps, advance-Keeps, element-Keeps, frame_rules) depth 12

  sequential_loop-Keeps : (n : ℕ) → Keeps {B = B} open_count (sequential_loop n)
  unfolding sequential_loop
  sequential_loop-Keeps zero = Keeps-pure
  sequential_loop-Keeps (suc n) = sequential_round-Keeps _ (sequential_loop-Keeps n)

  sequential-Keeps : Keeps {B = B} open_count allocate_empty_zone_sequential
  unfolding allocate_empty_zone_sequential
  sequential-Keeps = search (sequential_loop-Keeps, frame_rules)

  least_wear-Keeps : Keeps {B = B} open_count allocate_empty_zone_least_wear
  unfolding allocate_empty_zone_least_wear
  least_wear-Keeps =
      search (select-Keeps, drop_best-Keeps, acquire-Keeps, check_release-Keeps, frame_rules) depth
        9

  closest-Keeps :
      (zs : List ℕ) (l u : ℕ) (a b : Option ℕ) → Keeps {B = B} open_count (closest zs l u a b)
  unfolding closest
  closest-Keeps zs l u none none = default-Keeps
  closest-Keeps zs l u (some a) none = search (element-Keeps, frame_rules)
  closest-Keeps zs l u none (some b) = search (element-Keeps, frame_rules)
  closest-Keeps zs l u (some a) (some b) =
      search (element-Keeps, check_release-Keeps, frame_rules) depth 9

  outside-Keeps : (zs : List ℕ) (l u : ℕ) → Keeps {B = B} open_count (outside_interval zs l u)
  unfolding outside_interval
  outside-Keeps zs l u = search (find_zone-Keeps, try_at-Keeps, closest-Keeps, frame_rules) depth 8

  interval_or-Keeps :
      (zs : List ℕ) (l u : ℕ) (a : Option ℕ) → Keeps {B = B} open_count (interval_or zs l u a)
  unfolding interval_or
  interval_or-Keeps zs l u none = outside-Keeps zs l u
  interval_or-Keeps zs l u (some a) = search (element-Keeps, frame_rules)

  in_interval-Keeps : (zs : List ℕ) (l u : ℕ) → Keeps {B = B} open_count (in_interval zs l u)
  unfolding in_interval
  in_interval-Keeps zs l u = search (find_zone-Keeps, try_at-Keeps, interval_or-Keeps, frame_rules)

  module _ (lib : Library) where
    hotness-Keeps : (l : ℤ) → Keeps {B = B} open_count (allocate_empty_zone_hotness_based lib l)
    unfolding allocate_empty_zone_hotness_based
    hotness-Keeps l = search (least_wear-Keeps, in_interval-Keeps, frame_rules) depth 8

    random-Keeps : Keeps {B = B} open_count (allocate_empty_zone_random lib)
    unfolding allocate_empty_zone_random
    random-Keeps = search (find_zone-Keeps, try_empty-Keeps, frame_rules)

    allocator-Keeps :
        (t : EmptyZoneAllocType) (l : ℤ) → Keeps {B = B} open_count (empty_zone_allocator lib t l)
    unfolding empty_zone_allocator
    allocator-Keeps default_alloc l = default-Keeps
    allocator-Keeps sequential l = sequential-Keeps
    allocator-Keeps random l = random-Keeps
    allocator-Keeps least_wear l = least_wear-Keeps
    allocator-Keeps hotness_based l = hotness-Keeps l
    allocator-Keeps user_defined_alloc l = sequential-Keeps

    -- Opening an empty zone leaves the count of open zones alone, whatever the strategy.
    pub allocate_empty_zone-Keeps : (l : ℤ) → Keeps {B = B} open_count (allocate_empty_zone lib l)
    unfolding allocate_empty_zone
    allocate_empty_zone-Keeps l = search (raise_max_level-Keeps, allocator-Keeps, frame_rules)
