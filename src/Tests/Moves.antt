-- ===== src/Tests/Moves.antt =====
-- The theorem on migrations, at the small device.
use zenfs_modified.Base.{refl, [], ◌∷◌}
use zenfs_modified.Base.Int.{pos}
use zenfs_modified.Allocate.OpenToken.{Ended}
use zenfs_modified.Gc.{ZoneExtentSnapshot}
use zenfs_modified.Gc.Migrate.{migrate_each}
use zenfs_modified.Gc.Balance.{ClosesZones, migrate_each-balanced}
use zenfs_modified.Tests.Values.{
  backend, device, library, file_policies, some_extent, other_extent, old_name,
}
use zenfs_modified.Tests.Names.{env}
use zenfs_modified.Tests.Witnesses.{policies-KeepsTokens}

-- The first extent of the file is to move.
abbrev some_snapshot : ZoneExtentSnapshot
some_snapshot = record { start = 0; length = 8; zone_start = 0; level = pos 1; filename = old_name }

backend-ClosesZones : ClosesZones backend
backend-ClosesZones start b = refl

migrate_each-balanced_example :
    Ended device.open_io_zones
      (λ _. device.open_io_zones)
      (migrate_each backend env library file_policies old_name 0
        (some_snapshot ∷ [])
        (some_extent ∷ other_extent ∷ [])
        device)
migrate_each-balanced_example =
    migrate_each-balanced backend env library file_policies backend-ClosesZones policies-KeepsTokens
      old_name 0 (some_snapshot ∷ []) (some_extent ∷ other_extent ∷ []) device
