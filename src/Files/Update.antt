-- ===== src/Files/Update.antt =====
-- fs/zbd_zonefile_zenfs.cc: `ClearExtents`, `SetLevel` and `MergeUpdate`, which keep the zones' used
-- capacity in step with the extents.
use zenfs_modified.Base.{ℕ, ◌%◌, Bool, List, [], ◌∷◌, ◌++◌, leb, ◌==◌, if◌then◌else◌, length, map}
use zenfs_modified.Base.Int.{ℤ, negsuc}
use zenfs_modified.Base.Words.{add64, sub64, u32_mod}
use zenfs_modified.Store.{
  ZoneExtent, ZoneFile, M, ◌>>=◌, ◌>>◌, pure, fail, gets, assert_that, put_zone, put_file,
  corruption,
}
use zenfs_modified.Files.{to_int, update_bytes_of_level}

abbrev pub with_level : ℤ → ZoneExtent → ZoneExtent
with_level level e = record e { level = level }

-- The file as the update describes it, but for its extents.
abbrev pub updated : ZoneFile → ZoneFile → ZoneFile
updated update v = record v {
  file_size = update.file_size;
  lifetime = update.lifetime;
  m_time = update.m_time;
}

abbrev pub with_update : ZoneFile → ZoneFile → ZoneFile
with_update update w =
    let extents = w.extents ++ map (with_level (negsuc 0)) update.extents in
    record w {
      extents = extents;
      extent_start = update.extent_start;
      is_sparse = update.is_sparse;
      nr_synced_extents = length extents % u32_mod;
      linkfiles = update.linkfiles;
    }

module _ {B : Type 0} where
  -- A length that the zone gives up, or takes on, as used.
  unfoldable pub discredit : ZoneExtent → M B (Unit {0})
  unfolding sub64
  discredit e = do
    v ← gets (λ d. d.zone e.zone)
    assert_that (leb e.length v.used_capacity)
        (put_zone e.zone (record v { used_capacity = sub64 v.used_capacity e.length }))

  unfoldable pub count_down : ZoneExtent → M B (Unit {0})
  unfolding sub64
  count_down e = do
    ps ← gets (λ d. d.params)
    if ps.dynamic_level_adjustment
        then update_bytes_of_level e.zone e.level (to_int (sub64 0 e.length))
        else pure tt

  unfoldable pub clear_loop : List ZoneExtent → M B (Unit {0})
  clear_loop [] = pure tt
  clear_loop (e ∷ es) = discredit e >> (count_down e >> clear_loop es)

  -- `ClearExtents`
  unfoldable pub clear_extents : ℕ → M B (Unit {0})
  clear_extents f = do
    v ← gets (λ d. d.file f)
    clear_loop v.extents
    put_file f (record v { extents = [] })

  -- `SetLevel`: the zones' counts follow each extent to its new level.
  unfoldable pub move_levels : ℤ → List ZoneExtent → M B (Unit {0})
  unfolding sub64
  move_levels level [] = pure tt
  move_levels level (e ∷ es) =
      update_bytes_of_level e.zone e.level (to_int (sub64 0 e.length))
      >> (update_bytes_of_level e.zone level (to_int e.length) >> move_levels level es)

  unfoldable pub set_level : ℕ → ℤ → M B (Unit {0})
  set_level f level = do
    v ← gets (λ d. d.file f)
    move_levels level v.extents
    put_file f (record v { level = level; extents = map (with_level level) v.extents })

  unfoldable pub credit_loop : List ZoneExtent → M B (Unit {0})
  unfolding add64
  credit_loop [] = pure tt
  credit_loop (e ∷ es) = do
    v ← gets (λ d. d.zone e.zone)
    put_zone e.zone (record v { used_capacity = add64 v.used_capacity e.length })
    credit_loop es

  -- `MergeUpdate`: the record of an update, with the file that it was read into.
  unfoldable pub merge_checked : ℕ → ZoneFile → Bool → M B (Unit {0})
  merge_checked f update replace = do
    v ← gets (λ d. d.file f)
    put_file f (updated update v)
    if replace then clear_extents f else pure tt
    credit_loop update.extents
    w ← gets (λ d. d.file f)
    put_file f (with_update update w)

  unfoldable pub merge_update : ℕ → ZoneFile → Bool → M B (Unit {0})
  merge_update f update replace = do
    v ← gets (λ d. d.file f)
    if v.file_id == update.file_id then merge_checked f update replace else fail corruption
