-- ===== src/Space/Percent.antt =====
-- The sums over the zones without a bound, and `GetFreePercent` against them.
use zenfs_modified.Base.{
  arith, ℕ, ◌+◌, ◌-◌, ◌*◌, ◌/◌, ◌≤◌, ◌<◌, ◌≡◌, refl, Option, none, some, List, [], ◌∷◌, All, ◌==◌,
  if◌then◌else◌,
}
use zenfs_modified.Base.Words.{u64_mod, add64, mul64, add64-exact, sub64-exact}
use zenfs_modified.Store.{Zone, Device}
use zenfs_modified.Zones.{is_full}
use zenfs_modified.Space.{
  sum_zones, reclaimable_of, get_free_space, get_used_space, get_reclaimable_space,
  get_free_percent,
}

-- The sum without a bound.
abbrev pub total_of : (Zone → ℕ) → (ℕ → Zone) → List ℕ → ℕ
total_of number h [] = 0
total_of number h (z ∷ zs) = number (h z) + total_of number h zs

-- Neither what is left of a zone nor what is used is more than it can hold.
pub record IsSound (v : Zone) : Type 0 where
  pub left_bound : v.capacity ≤ v.max_capacity
  pub used_bound : v.used_capacity ≤ v.max_capacity

abbrev pub AllSound : (ℕ → Zone) → List ℕ → Type 0
AllSound h zs = All (λ z. IsSound (h z)) zs

abbrev pub room : Zone → ℕ
room v = v.max_capacity

abbrev pub left : Zone → ℕ
left v = v.capacity

abbrev pub used : Zone → ℕ
used v = v.used_capacity

-- What a full zone does not use, without the wrap.
abbrev pub garbage : Zone → ℕ
garbage v = if is_full v then v.max_capacity - v.used_capacity else 0

sum_zones-exact :
    (number : Zone → ℕ) (h : ℕ → Zone) (zs : List ℕ) (sum : ℕ)
    → sum + total_of number h zs < u64_mod
    → sum_zones number h zs sum ≡ sum + total_of number h zs
unfolding sum_zones
sum_zones-exact number h [] sum b = omega arith
sum_zones-exact number h (z ∷ zs) sum b =
    let exact = add64-exact sum (number (h z)) (omega (arith, b)) in
    rw exact (omega (arith, sum_zones-exact number h zs (sum + number (h z)) (omega (arith, b))))

sum_zones-total :
    (number : Zone → ℕ) (h : ℕ → Zone) (zs : List ℕ)
    → total_of number h zs < u64_mod
    → sum_zones number h zs 0 ≡ total_of number h zs
sum_zones-total number h zs b = omega (arith, sum_zones-exact number h zs 0 (omega (arith, b)))

garbage_exact : (v : Zone) → IsSound v → v.max_capacity < u64_mod → reclaimable_of v ≡ garbage v
unfolding reclaimable_of
garbage_exact v h b = rw (sub64-exact v.max_capacity v.used_capacity h.used_bound b)

-- The three numbers of a zone come to twice its room at most, and to nothing only without room.
zone_share :
    (v : Zone)
    → IsSound v
    → (left v + (used v + garbage v) ≤ 2 * room v)
      × (0 < room v → 0 < left v + (used v + garbage v))
zone_share v h = ground (arith, h.left_bound, h.used_bound)

-- The same, of all zones.
total_share :
    (h : ℕ → Zone) (zs : List ℕ)
    → AllSound h zs
    → (total_of left h zs + (total_of used h zs + total_of garbage h zs) ≤ 2 * total_of room h zs)
      × (0 < total_of room h zs
          → 0 < total_of left h zs + (total_of used h zs + total_of garbage h zs))
total_share h [] s = (omega arith, λ p. p)
total_share h (z ∷ zs) s =
    let here = zone_share (h z) s.0 in
    let there = total_share h zs s.1 in
    (omega (arith, here.0, there.0), λ p. ground (arith, here.1, there.1))

garbage_total :
    (h : ℕ → Zone) (zs : List ℕ)
    → AllSound h zs
    → total_of room h zs < u64_mod
    → total_of reclaimable_of h zs ≡ total_of garbage h zs
garbage_total h [] s b = refl
garbage_total h (z ∷ zs) s b =
    rw (garbage_exact (h z) s.0 (omega (arith, b)))
      (omega (arith, garbage_total h zs s.1 (omega (arith, b))))

abbrev IsPercentage : ℕ → ℕ → ℕ → Type 0
IsPercentage free total p = (p ≤ 100) × (p * total ≤ 100 * free) × (100 * free < (p + 1) * total)

quotient-IsPercentage :
    (free total : ℕ) → 0 < total → free ≤ total → IsPercentage free total (100 * free / total)
quotient-IsPercentage free total t f =
    (grind (arith, t, f), grind (arith, t, f), grind (arith, t, f))

abbrev percent : ℕ → ℕ → ℕ → Option ℕ
percent free used garbage =
    let total = add64 free (add64 used garbage) in
    if total == 0 then none else some (mul64 100 free / total)

percent-quotient :
    (f u g : ℕ)
    → 0 < f + (u + g)
    → 100 * (f + (u + g)) < u64_mod
    → percent f u g ≡ some (100 * f / (f + (u + g)))
unfolding add64 mul64
percent-quotient f u g t b = ground (arith, t, b)

-- Where no zone holds or has left more than fits in it, the zones have room, and two hundred times
-- that room fits in 64 bits, GetFreePercent does not divide by zero, does not wrap, and gives the
-- whole percentage, a hundred at most, that the free space is of the free, used and reclaimable
-- space.
pub get_free_percent-percentage :
    {B : Type 0} (d : Device B)
    → AllSound d.zone d.io_zones
    → 0 < total_of room d.zone d.io_zones
    → 200 * total_of room d.zone d.io_zones < u64_mod
    → let free = total_of left d.zone d.io_zones in
      let total = free + (total_of used d.zone d.io_zones + total_of garbage d.zone d.io_zones) in
      (p : ℕ) × (get_free_percent d ≡ some p)
      × (p ≤ 100)
      × (p * total ≤ 100 * free)
      × (100 * free < (p + 1) * total)
unfolding get_free_percent get_free_space get_used_space get_reclaimable_space
get_free_percent-percentage d s some_room fits =
    let h = d.zone in
    let zs = d.io_zones in
    let share = total_share h zs s in
    let f = total_of left h zs in
    let u = total_of used h zs in
    let g = total_of garbage h zs in
    let g' = garbage_total h zs s (omega (arith, fits)) in
    let free_exact = sum_zones-total left h zs (omega (arith, fits, share.0)) in
    let used_exact = sum_zones-total used h zs (omega (arith, fits, share.0)) in
    let reclaimed = sum_zones-total reclaimable_of h zs (omega (arith, fits, share.0, g')) in
    let q = quotient-IsPercentage f (f + (u + g)) (share.1 some_room) (omega arith) in
    (
      100 * f / (f + (u + g)),
      rw (free_exact, used_exact, reclaimed, g')
          (percent-quotient f u g (share.1 some_room) (omega (arith, fits, share.0))),
      q.0,
      q.1,
      q.2,
    )
