-- ===== src/EmptyZones.antt =====
-- fs/zbd_extension_zenfs.cc and fs/zbd_zenfs.cc: the strategies that open an empty zone, and
-- `AllocateEmptyZone`, which chooses among them. Shuffling, sorting and the floating-point bounds of
-- a level's interval come from the C++ library: they are the fields of `Library`.
pub mod Scan
pub mod OpenCount
use zenfs_modified.Base.{
  ℕ, zero, suc, ◌+◌, ◌-◌, ◌%◌, ◌&&◌, Bool, true, false, not, Option, none, some, List, [], ◌∷◌, ltb,
  leb, min, if◌then◌else◌, length, get_elem?,
}
use zenfs_modified.Base.Int.{ℤ, pos, pos_part, leb_ℤ, ltb_ℤ}
use zenfs_modified.Base.Words.{add32}
use zenfs_modified.Params.{
  EmptyZoneAllocType, default_alloc, sequential, random, least_wear, hotness_based,
  user_defined_alloc,
}
use zenfs_modified.Store.{Zone, Device, Outcome, ok, err, M, ◌>>=◌, ◌>>◌, pure, fail, gets, fault}
use zenfs_modified.Zones.{acquire, check_release, is_empty}
use zenfs_modified.Select.{Best, Test, select, find_zone, drop_best}

-- `interval_bounds size max_level level` are the truncated products of the interval's length.
pub record Library : Type 0 where
  pub shuffle : List ℕ → List ℕ
  pub sort_by : (ℕ → ℕ) → List ℕ → List ℕ
  pub interval_bounds : ℕ → ℕ → ℤ → ℕ × ℕ

-- `GetEmptyZoneCount`, over the zones of a list.
unfoldable pub count_empty : (ℕ → Zone) → List ℕ → ℕ
count_empty h [] = 0
count_empty h (z ∷ zs) = if is_empty (h z) then suc (count_empty h zs) else count_empty h zs

-- The fewer resets, the better; of two zones with equally many the later is taken.
unfoldable pub wear_test : Test (Unit {0})
wear_test none s z = if is_empty z then some s else none
wear_test (some best) s z =
    if is_empty z then (if ltb best.reset_count z.reset_count then none else some s) else none

-- from, from + 1, …, of the given length
unfoldable pub upward : ℕ → ℕ → List ℕ
upward from zero = []
upward from (suc n) = from ∷ upward (from + 1) n

-- n - 1, n - 2, …, 0
unfoldable pub downward : ℕ → List ℕ
downward zero = []
downward (suc n) = n ∷ downward n

module _ {B : Type 0} where
  unfoldable pub get_empty_zone_count : M B ℕ
  unfolding count_empty
  get_empty_zone_count = gets (λ d. count_empty d.zone d.io_zones)

  -- The body of the allocators' loops: the zone is kept busy if it is empty.
  unfoldable pub try_empty : ℕ → M B Bool
  try_empty z = do
    got ← acquire z
    if got
        then (do
          v ← gets (λ d. d.zone z)
          if is_empty v then pure true else check_release z >> pure false)
        else pure false

  unfoldable pub allocate_empty_zone_default : M B (Option ℕ)
  allocate_empty_zone_default = do io_zones ← gets (λ d. d.io_zones); find_zone try_empty io_zones

  -- The zone at an index of a vector.
  unfoldable pub element : List ℕ → ℕ → M B ℕ
  element zs i = elim (get_elem? zs i) [ none ↦ fail fault | some z ↦ pure z ]

  -- `zone_pos` is where the last search stopped; it wraps at the number of zones.
  unfoldable pub advance_zone_pos : M B (Unit {0})
  unfolding add32
  advance_zone_pos d =
      let next = add32 d.zone_pos 1 in
      ok tt (record d { zone_pos = if leb (length d.io_zones) next then 0 else next })

  -- One round, and what follows it if the zone is not empty.
  unfoldable pub sequential_round : M B (Option ℕ) → M B (Option ℕ)
  sequential_round next = do
    p ← gets (λ d. d.zone_pos)
    io_zones ← gets (λ d. d.io_zones)
    z ← element io_zones p
    advance_zone_pos
    hit ← try_empty z
    if hit then pure (some z) else next

  unfoldable pub sequential_loop : ℕ → M B (Option ℕ)
  sequential_loop zero = pure none
  sequential_loop (suc rounds) = sequential_round (sequential_loop rounds)

  unfoldable pub allocate_empty_zone_sequential : M B (Option ℕ)
  allocate_empty_zone_sequential = do
    io_zones ← gets (λ d. d.io_zones)
    sequential_loop (length io_zones)

  unfoldable pub allocate_empty_zone_least_wear : M B (Option ℕ)
  allocate_empty_zone_least_wear = do
    io_zones ← gets (λ d. d.io_zones)
    b ← select (λ a z. drop_best a) wear_test (record { allocated = none; score = tt }) io_zones
    pure b.allocated

  module _ (lib : Library) where
    unfoldable pub allocate_empty_zone_random : M B (Option ℕ)
    allocate_empty_zone_random = do
      io_zones ← gets (λ d. d.io_zones)
      find_zone try_empty (lib.shuffle io_zones)

  unfoldable pub try_at : List ℕ → ℕ → M B Bool
  try_at zs i = do z ← element zs i; try_empty z

  -- Of the nearest empty zones above and below the interval, the one that is closer to it.
  unfoldable pub closest : List ℕ → ℕ → ℕ → Option ℕ → Option ℕ → M B (Option ℕ)
  closest sorted lower upper none none = allocate_empty_zone_default
  closest sorted lower upper (some u) none = do z ← element sorted u; pure (some z)
  closest sorted lower upper none (some l) = do z ← element sorted l; pure (some z)
  closest sorted lower upper (some u) (some l) = do
    zu ← element sorted u
    zl ← element sorted l
    if ltb (lower - l) (u - upper)
        then check_release zu >> pure (some zl)
        else check_release zl >> pure (some zu)

  -- Where the interval of the level has no empty zone.
  unfoldable pub outside_interval : List ℕ → ℕ → ℕ → M B (Option ℕ)
  unfolding upward downward
  outside_interval sorted lower upper = do
    u ← find_zone (try_at sorted) (upward upper (length sorted - upper))
    l ← find_zone (try_at sorted) (downward lower)
    closest sorted lower upper u l

  -- The zone that the search of the interval found, or one outside it.
  unfoldable pub interval_or : List ℕ → ℕ → ℕ → Option ℕ → M B (Option ℕ)
  interval_or sorted lower upper none = outside_interval sorted lower upper
  interval_or sorted lower upper (some i) = do z ← element sorted i; pure (some z)

  unfoldable pub in_interval : List ℕ → ℕ → ℕ → M B (Option ℕ)
  unfolding upward
  in_interval sorted lower upper = do
    hit ← find_zone (try_at sorted) (upward lower (upper - lower))
    interval_or sorted lower upper hit

  -- A file on a level that was not seen before raises the number of levels, a `uint8_t`.
  unfoldable pub raise_max_level : ℤ → M B (Unit {0})
  raise_max_level level d =
      if ltb_ℤ (pos 0) level && ltb_ℤ (pos d.params.max_level) level
      then ok tt (record d { params = record d.params { max_level = pos_part level % 256 } })
      else ok tt d

  module _ (lib : Library) where
    unfoldable pub allocate_empty_zone_hotness_based : ℤ → M B (Option ℕ)
    allocate_empty_zone_hotness_based level =
        if leb_ℤ level (pos 0) then allocate_empty_zone_least_wear else (do
          sorted ← gets (λ d. lib.sort_by (λ z. (d.zone z).reset_count) d.io_zones)
          max_level ← gets (λ d. d.params.max_level)
          let (lower, upper) = lib.interval_bounds (length sorted) max_level level
          in_interval sorted lower (min upper (length sorted)))

    unfoldable pub empty_zone_allocator : EmptyZoneAllocType → ℤ → M B (Option ℕ)
    empty_zone_allocator default_alloc level = allocate_empty_zone_default
    empty_zone_allocator sequential level = allocate_empty_zone_sequential
    empty_zone_allocator random level = allocate_empty_zone_random lib
    empty_zone_allocator least_wear level = allocate_empty_zone_least_wear
    empty_zone_allocator hotness_based level = allocate_empty_zone_hotness_based level
    empty_zone_allocator user_defined_alloc level = allocate_empty_zone_sequential

    unfoldable pub allocate_empty_zone : ℤ → M B (Option ℕ)
    allocate_empty_zone level = do
      raise_max_level level
      strategy ← gets (λ d. d.params.empty_zone_allocator)
      empty_zone_allocator strategy level
