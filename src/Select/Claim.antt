-- ===== src/Select/Claim.antt =====
-- Selection as a plain fold over the zones that are not busy, and the proof that the loop computes
-- it: the loop changes the busy flag of the zone that it returns and nothing else.
use zenfs_modified.Base.{ℕ, ◌≡◌, fun_ext, ◌≢◌, true, false, Option, none, some, List, arith, Absent}
use zenfs_modified.Store.{Zone, point_at}

-- A zone whose busy flag is set.
abbrev pub taken : Zone → Zone
taken v = record v { busy = true }

-- The heap with the zone set busy.
abbrev pub claim : Option ℕ → (ℕ → Zone) → ℕ → Zone
claim none h = h
claim (some p) h = point_at h p (taken (h p))

-- Freeing a zone that was free before it was taken undoes the taking.
pub free-taken :
    (h : ℕ → Zone) (p : ℕ)
    → (h p).busy ≡ false
    → point_at (point_at h p (taken (h p))) p (record (taken (h p)) { busy = false }) ≡ h
free-taken h p e = fun_ext λ q. ground arith

pub free-claim :
    (h : ℕ → Zone) (p z : ℕ)
    → p ≢ z
    → (h p).busy ≡ false
    → point_at
        (claim (some z) (claim (some p) h))
        p
        (record (claim (some z) (claim (some p) h) p) { busy = false })
      ≡ claim (some z) h
free-claim h p z n e = fun_ext λ q. ground arith

pub claim-other : (h : ℕ → Zone) (p z : ℕ) → p ≢ z → claim (some p) h z ≡ h z
claim-other h p z n = ground arith

-- The zone that is held, if any, was free before, and is none of the zones still to come.
abbrev pub IsHeld : Option ℕ → (ℕ → Zone) → List ℕ → Type 0
IsHeld none h zs = Unit {0}
IsHeld (some p) h zs = ((h p).busy ≡ false) × Absent p zs

pub claim-busy : (h : ℕ → Zone) (z : ℕ) → (claim (some z) h z).busy ≡ true
claim-busy h z = ground arith

pub claim_self : (h : ℕ → Zone) (z : ℕ) → claim (some z) h z ≡ taken (h z)
claim_self h z = ground arith
