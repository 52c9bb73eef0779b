-- ===== src/Tokens.antt =====
-- fs/zbd_zenfs.cc, the resources of `ZonedBlockDevice`: the counts of open and of active zones, and
-- the deferred error. A wait on a condition variable that would not return at once is `blocked`.
use zenfs_modified.Base.{Bool, true, false, Option, none, some, if◌then◌else◌}
use zenfs_modified.Base.Int.{pos, ◌+ℤ◌, ◌-ℤ◌, ltb_ℤ}
use zenfs_modified.Base.Words.{sub32}
use zenfs_modified.Store.{Error, ok, err, M, blocked}

-- What `SetZoneDeferredStatus` leaves: a status is replaced only where it is an error.
abbrev unless_ok : Option Error → Option Error → Option Error
unless_ok none status = none
unless_ok (some e) status = status

module _ {B : Type 0} where
  unfoldable pub wait_for_open_io_zone_token : Bool → M B (Unit {0})
  unfolding sub32 ◌+ℤ◌
  wait_for_open_io_zone_token prioritized d =
      let limit = if prioritized then d.max_nr_open_io_zones else sub32 d.max_nr_open_io_zones 1 in
      if ltb_ℤ d.open_io_zones (pos limit)
      then ok tt (record d { open_io_zones = d.open_io_zones +ℤ pos 1 })
      else err blocked d

  unfoldable pub get_active_io_zone_token_if_available : M B Bool
  unfolding ◌+ℤ◌
  get_active_io_zone_token_if_available d =
      if ltb_ℤ d.active_io_zones (pos d.max_nr_active_io_zones)
      then ok true (record d { active_io_zones = d.active_io_zones +ℤ pos 1 })
      else ok false d

  unfoldable pub put_open_io_zone_token : M B (Unit {0})
  unfolding ◌-ℤ◌
  put_open_io_zone_token d = ok tt (record d { open_io_zones = d.open_io_zones -ℤ pos 1 })

  unfoldable pub put_active_io_zone_token : M B (Unit {0})
  unfolding ◌-ℤ◌
  put_active_io_zone_token d = ok tt (record d { active_io_zones = d.active_io_zones -ℤ pos 1 })

  abbrev pub return_status : Option Error → M B (Unit {0})
  return_status none d = ok tt d
  return_status (some e) d = err e d

  -- `ZonedBlockDevice::GetZoneDeferredStatus`, as its callers use it: they return the status unless it
  -- is OK.
  unfoldable pub get_zone_deferred_status : M B (Unit {0})
  get_zone_deferred_status d = return_status d.deferred_status d

  -- `ZonedBlockDevice::SetZoneDeferredStatus`
  unfoldable pub set_zone_deferred_status : Option Error → M B (Unit {0})
  set_zone_deferred_status status d =
      ok tt (record d { deferred_status = unless_ok d.deferred_status status })
