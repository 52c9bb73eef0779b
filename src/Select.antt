-- ===== src/Select.antt =====
-- The loops over `io_zones` that fs/zbd_zenfs.cc and fs/zbd_extension_zenfs.cc write out in each
-- allocator and each placement policy: try to take every zone, keep the best one so far busy, and
-- free the rest. The policies differ in the test that a zone must pass to become the best one.
pub mod Claim
pub mod Scan
pub mod Rules
pub mod Frame
use zenfs_modified.Base.{ℕ, Bool, true, false, Option, none, some, List, [], ◌∷◌, if◌then◌else◌}
use zenfs_modified.Store.{Zone, Error, Outcome, ok, err, M, ◌>>=◌, ◌>>◌, pure, gets}
use zenfs_modified.Zones.{acquire, check_release}

-- What a loop carries: the pointer of the best zone so far, and the score at which it was taken.
pub record Best (S : Type 0) : Type 0 where
  pub allocated : Option ℕ
  pub score : S

-- A policy's test: the new score if the zone is taken in place of the best one so far.
abbrev pub Test : Type 0 → Type 0
Test S = Option Zone → S → Zone → Option S

module _ {B : Type 0} where
  -- Frees the zone that was the best so far.
  unfoldable pub drop_best : Option ℕ → M B (Unit {0})
  drop_best none = pure tt
  drop_best (some p) = check_release p

  abbrev pub replace_error : Error → Outcome B (Unit {0}) → Outcome B (Unit {0})
  replace_error e (ok a d) = err e d
  replace_error e (err e' d) = err e' d

  unfoldable pub free_both : ℕ → Outcome B (Unit {0}) → Outcome B (Unit {0})
  free_both z (ok a d) = ok tt d
  free_both z (err e d) = replace_error e (check_release z d)

  -- The policies' form: if that fails, the new zone is freed too before the error is returned.
  unfoldable pub drop_best_or_both : Option ℕ → ℕ → M B (Unit {0})
  unfolding free_both
  drop_best_or_both best z d = free_both z (drop_best best d)

  unfoldable pub zone_of : Option ℕ → M B (Option Zone)
  zone_of none = pure none
  zone_of (some p) = gets (λ d. some (d.zone p))

module _ {B S : Type 0} (hand_over : Option ℕ → ℕ → M B (Unit {0})) (test : Test S) where
  -- A zone that was taken is kept in place of the best one, or freed.
  unfoldable pub settle : Best S → ℕ → Option S → M B (Best S)
  settle b z none = check_release z >> pure b
  settle b z (some s) = hand_over b.allocated z >> pure (record { allocated = some z; score = s })

  -- One round: the zone is taken, weighed, and either kept or freed.
  unfoldable pub weigh : Best S → ℕ → M B (Best S)
  weigh b z = do
    got ← acquire z
    if got
        then (do
          old ← zone_of b.allocated
          v ← gets (λ d. d.zone z)
          settle b z (test old b.score v))
        else pure b

  unfoldable pub select : Best S → List ℕ → M B (Best S)
  select b [] = pure b
  select b (z ∷ zs) = do b' ← weigh b z; select b' zs

module _ {B : Type 0} (body : ℕ → M B Bool) where
  -- A loop that stops at the first zone for which the body answers true.
  unfoldable pub find_zone : List ℕ → M B (Option ℕ)
  find_zone [] = pure none
  find_zone (z ∷ zs) = do hit ← body z; if hit then pure (some z) else find_zone zs

module _ {B : Type 0} (body : ℕ → M B (Unit {0})) where
  -- A loop over all zones.
  unfoldable pub for_each : List ℕ → M B (Unit {0})
  for_each [] = pure tt
  for_each (z ∷ zs) = body z >> for_each zs
