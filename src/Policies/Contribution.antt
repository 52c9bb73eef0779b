-- ===== src/Policies/Contribution.antt =====
-- `ChooseZoneWithHighestContrib`: which zone it picks.
use zenfs_modified.Base.{
  ℕ, ◌≤◌, ◌<◌, ◌≡◌, refl, ◌≢◌, true, false, Option, none, some, List, All, Present, All-Present,
  Distinct, arith, subst,
}
use zenfs_modified.Store.{Zone, Device, ok, ◌>>=◌}
use zenfs_modified.Select.Claim.{claim, taken}
use zenfs_modified.Select.Scan.{with_zones, choose, scan, drop_best_or_both-HandsOver}
use zenfs_modified.Select.Rules.{Found, scan-Found, scan_covers, select_lem}
use zenfs_modified.Policies.{Match, has_room, contrib_test, choose_zone_with_highest_contrib}

abbrev pub no_contribution : Match
no_contribution = record { allocated = none; score = 0 }

module _ (contribution_map : ℕ → ℕ) (min_capacity : ℕ) where
  abbrev pub worth : Zone → ℕ
  worth z = contribution_map z.start

  -- A free zone with room that holds some of what counts.
  pub record Contributes (z : Zone) : Type 0 where
    pub free : z.busy ≡ false
    pub room : has_room min_capacity z ≡ true
    pub some_of : 0 < worth z

  pub record IsHighest (zone : ℕ → Zone) (io_zones : List ℕ) (b : Match) : Type 0 where
    pub picked :
        (p : ℕ)
        → b.allocated ≡ some p
        → Present p io_zones × Contributes (zone p) × (b.score ≡ worth (zone p))
    pub greatest :
        All (λ z. Contributes (zone z) → (b.allocated ≢ none) × (worth (zone z) ≤ b.score)) io_zones

  module _ (h : ℕ → Zone) where
    abbrev Covers : Match → ℕ → Type 0
    Covers b z = Contributes (h z) → (b.allocated ≢ none) × (worth (h z) ≤ b.score)

    -- A score above zero was taken with a zone.
    abbrev HasZone : Match → Type 0
    HasZone b = 0 < b.score → b.allocated ≢ none

    choose-HasZone :
        (b : Match) (z : ℕ)
        → HasZone b
        → HasZone (choose (contrib_test contribution_map min_capacity) h b z)
    unfolding choose contrib_test
    choose-HasZone b z p c = ground arith

    choose-Covers :
        (b : Match) (z : ℕ)
        → HasZone b
        → Covers (choose (contrib_test contribution_map min_capacity) h b z) z
    unfolding choose contrib_test
    choose-Covers b z p c = ground arith

    choose-keeps :
        (b : Match) (z y : ℕ)
        → Covers b y
        → Covers (choose (contrib_test contribution_map min_capacity) h b z) y
    unfolding choose contrib_test
    choose-keeps b z y p c = let q = p c in ground arith

    abbrev Passed : ℕ → ℕ → Type 0
    Passed z t = (has_room min_capacity (h z) ≡ true) × (t ≡ worth (h z)) × (0 < t)

    test-Passed :
        (o : Option Zone) (s t : ℕ) (z : ℕ)
        → contrib_test contribution_map min_capacity o s (taken (h z)) ≡ some t
        → Passed z t
    unfolding contrib_test
    test-Passed o s t z e = ground arith

    Found-picked :
        (io_zones : List ℕ) (a : Option ℕ) (s : ℕ)
        → Found
            (contrib_test contribution_map min_capacity)
            h
            (λ z. Present z io_zones)
            Passed
            0
            a
            s
        → (p : ℕ) → a ≡ some p
        → Present p io_zones × Contributes (h p) × (s ≡ worth (h p))
    Found-picked zs none s f p e = cc
    Found-picked zs (some q) s f p e =
        let e' : q ≡ p = cc in
        subst (λ r. Present r zs × Contributes (h r) × (s ≡ worth (h r))) e'
          (f.0, record { free = f.1; room = f.2.0; some_of = omega (arith, f.2.1, f.2.2) }, f.2.1)

    scan-IsHighest :
        (io_zones : List ℕ)
        → IsHighest h io_zones
            (scan (contrib_test contribution_map min_capacity) h no_contribution io_zones)
    scan-IsHighest zs =
        let b = scan (contrib_test contribution_map min_capacity) h no_contribution zs in
        let start : HasZone no_contribution = λ c. omega (arith, c) in
        record {
          picked = Found-picked zs b.allocated b.score (
              scan-Found (contrib_test contribution_map min_capacity) h (λ z. Present z zs) Passed 0
                test-Passed zs no_contribution (All-Present zs) refl);
          greatest =
              scan_covers (contrib_test contribution_map min_capacity) h HasZone choose-HasZone
                Covers choose-Covers choose-keeps zs no_contribution start;
        }

  -- If no zone is listed twice, the choice always returns, with a free zone with room of the highest
  -- contribution, or none if no such zone contributes; it sets that zone busy and changes nothing
  -- else.
  pub choose_zone_with_highest_contrib-IsHighest :
      {B : Type 0} (d : Device B)
      → Distinct d.io_zones
      → (b : Match) × (choose_zone_with_highest_contrib no_contribution contribution_map
            min_capacity d
          ≡ ok b (with_zones d (claim b.allocated d.zone)))
        × IsHighest d.zone d.io_zones b
  unfolding ◌>>=◌ choose_zone_with_highest_contrib
  choose_zone_with_highest_contrib-IsHighest d n = (
    scan (contrib_test contribution_map min_capacity) d.zone no_contribution d.io_zones,
    select_lem _ drop_best_or_both-HandsOver (contrib_test contribution_map min_capacity) 0
        d.io_zones d n,
    scan-IsHighest d.zone d.io_zones,
  )
