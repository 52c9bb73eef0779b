-- ===== src/Reclaim/Frame.antt =====
-- A call whose status is kept leaves what the call leaves.
use zenfs_modified.Base.{◌≡◌, refl, ◌∙◌, Bool, true, false, Option, none, some, if◌then◌else◌}
use zenfs_modified.Store.{Device, M, after, ok, err, Error, Outcome}
use zenfs_modified.Store.Frame.{Keeps, Keeps-pure, Keeps-fail}
use zenfs_modified.Reclaim.{attempt, status_of, rethrow, is_status}

module _ {B X : Type 0} (f : Device B → X) where
  same_either :
      (b : Bool) (e : Error) (d : Device B) → f (after (if b then ok (some e) d else err e d)) ≡ f d
  same_either true e d = refl
  same_either false e d = refl

  kept_status : {A : Type 0} (o : Outcome B A) → f (after (status_of o)) ≡ f (after o)
  kept_status (ok a d) = refl
  kept_status (err e d) = same_either (is_status e) e d

module _ {B X : Type 0} {f : Device B → X} where
  pub Keeps-attempt : {A : Type 0} {m : M B A} → Keeps f m → Keeps f (attempt m)
  unfolding attempt
  Keeps-attempt {m = m} h = record { same = λ d. kept_status f (m d) ∙ h.same d }

  pub Keeps-rethrow : (e : Option Error) → Keeps f (rethrow e)
  Keeps-rethrow none = Keeps-pure
  Keeps-rethrow (some e) = Keeps-fail
