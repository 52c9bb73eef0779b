-- ===== src/Gc/Choose.antt =====
-- fs/fs_gc_zenfs.cc: the zones that are to be emptied, `SelectGarbageZonesDefault` and
-- `SelectGarbageZonesImproved`, and one turn of `GCWorker` over the snapshots of snapshot.h and of
-- `GetZenFSSnapshot` in fs/fs_zenfs.cc. Logging, the pause and the move of cold files are left out.
-- Zones are below the 2^52 bytes whose quotients a `double` tells from one half.
use zenfs_modified.Base.{
  ℕ, ◌+◌, ◌-◌, ◌*◌, ◌/◌, Bool, true, false, not, ◌&&◌, Option, none, some, List, [], ◌∷◌, ◌++◌, ltb,
  leb, ◌==◌, if◌then◌else◌, map,
}
use zenfs_modified.Base.Words.{sub64, mul64, add32}
use zenfs_modified.Store.{
  Zone, ZoneExtent, ZoneFile, Backend, M, ◌>>=◌, ◌>>◌, pure, fail, gets, put_zone, fault,
}
use zenfs_modified.EmptyZones.{Library}
use zenfs_modified.Placement.{FilePolicies}
use zenfs_modified.Codec.{Coding}
use zenfs_modified.MetaLog.{Checksum}
use zenfs_modified.Space.{get_free_percent}
use zenfs_modified.Fs.Persist.{ignore}
use zenfs_modified.Fs.Calls.{Env}
use zenfs_modified.Gc.{ZoneExtentSnapshot}
use zenfs_modified.Gc.Migrate.{migrate_extents}

-- `ZoneSnapshot`, as far as it is read.
pub record ZoneSnapshot : Type 0 where
  pub start : ℕ
  pub capacity : ℕ
  pub used_capacity : ℕ
  pub max_capacity : ℕ

abbrev pub zone_snapshot : Zone → ZoneSnapshot
zone_snapshot v = record {
  start = v.start;
  capacity = v.capacity;
  used_capacity = v.used_capacity;
  max_capacity = v.max_capacity;
}

-- A set of starts, in their order.
abbrev pub emplace : ℕ → List ℕ → List ℕ
emplace s [] = s ∷ []
emplace s (x ∷ xs) = if s == x then x ∷ xs else if ltb s x then s ∷ x ∷ xs else x ∷ emplace s xs

-- What the collection reads of the parameters.
pub record GcParams : Type 0 where
  pub gc_start_level : ℕ
  pub gc_stop_level : ℕ
  pub gc_slope : ℕ
  pub improved : Bool

-- `SelectGarbageZonesDefault`: a zone that cannot hold any more, of whose bytes more than the
-- threshold are garbage, but not all.
unfoldable pub garbage_threshold : GcParams → ℕ → ℕ
unfolding sub64 mul64
garbage_threshold ps free_percent =
    sub64 100 (mul64 ps.gc_slope (sub64 ps.gc_start_level free_percent))

unfoldable pub garbage_percent : ZoneSnapshot → ℕ
unfolding sub64 mul64
garbage_percent z = sub64 100 (mul64 100 z.used_capacity / z.max_capacity)

unfoldable pub is_garbage : ℕ → ZoneSnapshot → Bool
is_garbage threshold z =
    (z.capacity == 0) && (ltb threshold (garbage_percent z) && ltb (garbage_percent z) 100)

-- `1.00*zone.capacity/zone.max_capacity > 0.5`
abbrev pub is_mostly_free : ZoneSnapshot → Bool
is_mostly_free z = ltb z.max_capacity (2 * z.capacity)

-- The zones' number of `gc_stop_level - free_percent` per cent of them, rounded up.
abbrev pub target_zones : ℕ → ℕ → ℕ
target_zones nr_zones percent = (nr_zones * percent + 99) / 100

-- `zone_start_to_pointer_map_`, which has the data zones and those of the metadata.
abbrev pub zone_at : (ℕ → Zone) → List ℕ → ℕ → Option ℕ
zone_at h [] start = none
zone_at h (z ∷ zs) start = if (h z).start == start then some z else zone_at h zs start

abbrev pub extent_snapshot : (ℕ → Zone) → List ℕ → ZoneExtent → ZoneExtentSnapshot
extent_snapshot h name e = record {
  start = e.start;
  length = e.length;
  zone_start = (h e.zone).start;
  level = e.level;
  filename = name;
}

-- The snapshot of a zone divides by its room.
abbrev pub all_have_room : List ZoneSnapshot → Bool
all_have_room [] = true
all_have_room (z ∷ zs) = ltb 0 z.max_capacity && all_have_room zs

module _ {B : Type 0} where
  abbrev pub clear_flag : Option ℕ → M B (Unit {0})
  clear_flag none = pure tt
  clear_flag (some z) = do v ← gets (λ d. d.zone z); put_zone z (record v { flag_gc_reset = false })

  unfoldable pub choose_zone : ZoneSnapshot → M B (Unit {0})
  choose_zone s = do
    z ← gets (λ d. zone_at d.zone (d.meta_zones ++ d.io_zones) s.start)
    clear_flag z

  unfoldable pub select_default : ℕ → List ZoneSnapshot → List ℕ → M B (List ℕ)
  select_default threshold [] chosen = pure chosen
  select_default threshold (s ∷ ss) chosen =
      if is_garbage threshold s
      then choose_zone s >> select_default threshold ss (emplace s.start chosen)
      else select_default threshold ss chosen

  -- The loop of `SelectGarbageZonesImproved` over the sorted zones.
  unfoldable pub select_improved : ℕ → ℕ → List ZoneSnapshot → List ℕ → M B (List ℕ)
  unfolding add32
  select_improved target count [] chosen = pure chosen
  select_improved target count (s ∷ ss) chosen =
      let next =
        choose_zone s >> select_improved target (add32 count 1) ss (emplace s.start chosen) in
      let other = select_improved target count ss chosen in
      if leb target count then pure chosen else if is_mostly_free s then other else next

  module _ (sort_by_share : List ZoneSnapshot → List ZoneSnapshot) where
    -- `SelectGarbageZonesImproved`; it chooses none where enough space is free.
    unfoldable pub select_garbage_improved : GcParams → ℕ → List ZoneSnapshot → M B (List ℕ)
    select_garbage_improved ps free_percent zones = do
      nr_zones ← gets (λ d. d.nr_zones)
      if leb ps.gc_stop_level free_percent
          then pure []
          else select_improved (target_zones nr_zones (ps.gc_stop_level - free_percent)) 0
              (sort_by_share zones) []

    unfoldable pub select_garbage_zones : GcParams → ℕ → M B (List ℕ)
    select_garbage_zones ps free_percent = do
      zones ← gets (λ d. map (λ z. zone_snapshot (d.zone z)) d.io_zones)
      if not (all_have_room zones)
          then fail fault
          else if ps.improved
          then select_garbage_improved ps free_percent zones
          else select_default (garbage_threshold ps free_percent) zones []

  -- `GetFilename`, the first of the file's names.
  abbrev pub file_extents : (ℕ → Zone) → ZoneFile → List (List ℕ) → M B (List ZoneExtentSnapshot)
  file_extents h v [] = fail fault
  file_extents h v (n ∷ ns) = pure (map (extent_snapshot h n) v.extents)

  -- The extents of `GetZenFSSnapshot`: files that are open for writing are skipped.
  unfoldable pub snapshot_extents : List (List ℕ × ℕ) → M B (List ZoneExtentSnapshot)
  snapshot_extents [] = pure []
  snapshot_extents ((n, f) ∷ rest) = do
    v ← gets (λ d. d.file f)
    h ← gets (λ d. d.zone)
    these ← (if v.open_for_wr then pure [] else file_extents h v v.linkfiles)
    others ← snapshot_extents rest
    pure (these ++ others)

-- The extents in a zone that is to be emptied.
abbrev pub extents_in : ℕ → List ZoneExtentSnapshot → List ZoneExtentSnapshot
extents_in start [] = []
extents_in start (x ∷ xs) =
    if x.zone_start == start then x ∷ extents_in start xs else extents_in start xs

module _ (c : Coding) (k : Checksum) {B : Type 0} (be : Backend B) (env : Env B) (lib : Library)
    (fps : FilePolicies B) where
  -- One list of extents for each zone; lists without extents are passed over, and a failure is logged.
  unfoldable pub migrate_zones : List ℕ → List ZoneExtentSnapshot → M B (Unit {0})
  migrate_zones [] extents = pure tt
  migrate_zones (s ∷ ss) extents = do
    elim (extents_in s extents) [
      | [] ↦ pure tt
      | x ∷ xs ↦ ignore (migrate_extents be env lib fps c k (x ∷ xs))
    ]
    migrate_zones ss extents

  abbrev pub collect :
      (List ZoneSnapshot → List ZoneSnapshot) → GcParams → Option ℕ → M B (Unit {0})
  collect sort_by_share ps none = fail fault
  collect sort_by_share ps (some free_percent) =
      if ltb ps.gc_start_level free_percent then pure tt else do
        files ← gets (λ d. d.fs.files)
        extents ← snapshot_extents files
        starts ← select_garbage_zones sort_by_share ps free_percent
        migrate_zones starts extents

  -- One turn of `GCWorker`.
  unfoldable pub collect_garbage :
      (List ZoneSnapshot → List ZoneSnapshot) → GcParams → M B (Unit {0})
  collect_garbage sort_by_share ps = gets get_free_percent >>= collect sort_by_share ps
