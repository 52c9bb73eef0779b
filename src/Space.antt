-- ===== src/Space.antt =====
-- fs/zbd_zenfs.cc: `GetFreeSpace`, `GetUsedSpace`, `GetReclaimableSpace` and `GetFreePercent`, the
-- numbers that start and steer the garbage collection.
pub mod Percent
use zenfs_modified.Base.{ℕ, ◌-◌, ◌/◌, Option, none, some, List, [], ◌∷◌, ◌==◌, if◌then◌else◌}
use zenfs_modified.Base.Words.{add64, sub64, mul64}
use zenfs_modified.Store.{Zone, Device}
use zenfs_modified.Zones.{is_full}

-- The loops: a number of each zone, summed up in 64 bits.
unfoldable pub sum_zones : (Zone → ℕ) → (ℕ → Zone) → List ℕ → ℕ → ℕ
unfolding add64
sum_zones number h [] sum = sum
sum_zones number h (z ∷ zs) sum = sum_zones number h zs (add64 sum (number (h z)))

-- What a full zone gives back when its data has moved.
unfoldable pub reclaimable_of : Zone → ℕ
unfolding sub64
reclaimable_of v = if is_full v then sub64 v.max_capacity v.used_capacity else 0

module _ {B : Type 0} (d : Device B) where
  unfoldable pub get_free_space : ℕ
  get_free_space = sum_zones (λ v. v.capacity) d.zone d.io_zones 0

  unfoldable pub get_used_space : ℕ
  get_used_space = sum_zones (λ v. v.used_capacity) d.zone d.io_zones 0

  unfoldable pub get_reclaimable_space : ℕ
  get_reclaimable_space = sum_zones reclaimable_of d.zone d.io_zones 0

  -- A division by zero has no result.
  unfoldable pub get_free_percent : Option ℕ
  unfolding add64 mul64
  get_free_percent =
      let non_free = add64 get_used_space get_reclaimable_space in
      let total = add64 get_free_space non_free in
      if total == 0 then none else some (mul64 100 get_free_space / total)
