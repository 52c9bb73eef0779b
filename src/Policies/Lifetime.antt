-- ===== src/Policies/Lifetime.antt =====
-- `MatchLifetimeBased`: which zone it picks.
use zenfs_modified.Base.{
  ℕ, ◌≤◌, ◌≡◌, refl, ◌≢◌, true, false, Option, none, some, List, All, Present, All-Present,
  Distinct, arith, subst,
}
use zenfs_modified.Store.{Zone, Device, ok, ◌>>◌}
use zenfs_modified.Select.Claim.{claim, taken}
use zenfs_modified.Select.Scan.{with_zones, choose, scan, drop_best_or_both-HandsOver}
use zenfs_modified.Select.Rules.{Found, scan-Found, scan_inv, scan_covers, select_lem}
use zenfs_modified.Policies.{
  Match, has_room, get_life_time_diff, lifetime_test, match_lifetime_based, no_match,
  lifetime_diff_not_good,
}

module _ (file_lifetime min_capacity : ℕ) where
  abbrev pub diff_of : Zone → ℕ
  diff_of z = get_life_time_diff z.lifetime file_lifetime

  -- A free zone with room, whose difference is no worse than "not good".
  pub record IsCandidate (z : Zone) : Type 0 where
    pub free : z.busy ≡ false
    pub room : has_room min_capacity z ≡ true
    pub fair : diff_of z ≤ lifetime_diff_not_good

  pub record IsBest (zone : ℕ → Zone) (io_zones : List ℕ) (b : Match) : Type 0 where
    -- The zone that is returned is a candidate of the device, and the score is its difference.
    pub picked :
        (p : ℕ)
        → b.allocated ≡ some p
        → Present p io_zones × IsCandidate (zone p) × (b.score ≡ diff_of (zone p))
    -- No candidate has a smaller difference, and none is returned only if there is none.
    pub least :
        All
          (λ z. IsCandidate (zone z) → (b.allocated ≢ none) × (b.score ≤ diff_of (zone z)))
          io_zones
    pub nothing : b.allocated ≡ none → b.score ≡ lifetime_diff_not_good

  -- The score never exceeds "not good", and is that as long as there is no zone.
  abbrev Bounded : Match → Type 0
  Bounded b =
      (b.score ≤ lifetime_diff_not_good) × (b.allocated ≡ none → b.score ≡ lifetime_diff_not_good)

  module _ (h : ℕ → Zone) where
    choose-Bounded :
        (b : Match) (z : ℕ)
        → Bounded b
        → Bounded (choose (lifetime_test file_lifetime min_capacity) h b z)
    unfolding choose lifetime_test
    choose-Bounded b z p = ground arith

    abbrev Covers : Match → ℕ → Type 0
    Covers b z = IsCandidate (h z) → (b.allocated ≢ none) × (b.score ≤ diff_of (h z))

    choose-Covers :
        (b : Match) (z : ℕ)
        → Bounded b
        → Covers (choose (lifetime_test file_lifetime min_capacity) h b z) z
    unfolding choose lifetime_test
    choose-Covers b z p c = ground arith

    choose-keeps :
        (b : Match) (z y : ℕ)
        → Covers b y
        → Covers (choose (lifetime_test file_lifetime min_capacity) h b z) y
    unfolding choose lifetime_test
    choose-keeps b z y p c = let q = p c in ground arith

    -- What is found passed the test.
    abbrev Passed : ℕ → ℕ → Type 0
    Passed z t = (has_room min_capacity (h z) ≡ true) × (t ≡ diff_of (h z))

    test-Passed :
        (o : Option Zone) (s t : ℕ) (z : ℕ)
        → lifetime_test file_lifetime min_capacity o s (taken (h z)) ≡ some t
        → Passed z t
    unfolding lifetime_test
    test-Passed o s t z e = ground arith

    Found-picked :
        (io_zones : List ℕ) (b : Match) (a : Option ℕ)
        → b.allocated ≡ a
        → Bounded b
        → Found
            (lifetime_test file_lifetime min_capacity)
            h
            (λ z. Present z io_zones)
            Passed
            lifetime_diff_not_good
            a
            b.score
        → (p : ℕ) → a ≡ some p
        → Present p io_zones × IsCandidate (h p) × (b.score ≡ diff_of (h p))
    Found-picked zs b none at_a bound f p e = cc
    Found-picked zs b (some q) at_a bound f p e =
        let e' : q ≡ p = cc in
        subst (λ r. Present r zs × IsCandidate (h r) × (b.score ≡ diff_of (h r))) e'
          (f.0, record { free = f.1; room = f.2.0; fair = omega (arith, f.2.1) }, f.2.1)

    scan-IsBest :
        (io_zones : List ℕ)
        → IsBest h io_zones (scan (lifetime_test file_lifetime min_capacity) h no_match io_zones)
    scan-IsBest zs =
        let b = scan (lifetime_test file_lifetime min_capacity) h no_match zs in
        let start : Bounded no_match = (omega arith, λ e. refl) in
        let bound =
          scan_inv (lifetime_test file_lifetime min_capacity) h Bounded choose-Bounded zs no_match
            start in
        record {
          picked = Found-picked zs b b.allocated refl bound (
              scan-Found (lifetime_test file_lifetime min_capacity) h (λ z. Present z zs) Passed
                lifetime_diff_not_good test-Passed zs no_match (All-Present zs) refl);
          least =
              scan_covers (lifetime_test file_lifetime min_capacity) h Bounded choose-Bounded Covers
                choose-Covers choose-keeps zs no_match start;
          nothing = bound.1;
        }

  -- If no zone is listed twice, the lifetime policy always returns, with the free zone with room
  -- that has the least score of `GetLifeTimeDiff` (for a hint above `WLTH_NONE`, 50 where
  -- the lifetimes are equal and the difference where the zone's is longer), or with none if there is no candidate; it sets that zone busy and
  -- changes nothing else.
  pub match_lifetime_based-IsBest :
      {B : Type 0} (d : Device B)
      → Distinct d.io_zones
      → (b : Match) × (match_lifetime_based file_lifetime min_capacity d
          ≡ ok b (with_zones d (claim b.allocated d.zone)))
        × IsBest d.zone d.io_zones b
  unfolding ◌>>◌ match_lifetime_based
  match_lifetime_based-IsBest d n = (
    scan (lifetime_test file_lifetime min_capacity) d.zone no_match d.io_zones,
    select_lem _ drop_best_or_both-HandsOver (lifetime_test file_lifetime min_capacity)
        lifetime_diff_not_good d.io_zones d n,
    scan-IsBest d.zone d.io_zones,
  )
