-- ===== src/Store/Frame.antt =====
-- What a call leaves as it was: a field of the device that is the same after it as before, however
-- the call ends. The rules follow the steps of a `do` block, for `search`.
use zenfs_modified.Base.{◌≡◌, refl, ◌∙◌, Bool, true, false, if◌then◌else◌}
use zenfs_modified.Store.Types.{Device, Error}
use zenfs_modified.Store.Monad.{
  Outcome, ok, err, M, after, chain, ◌>>=◌, ◌>>◌, pure, fail, gets, assert_that,
}

module _ {B X : Type 0} where
  pub record Keeps (f : Device B → X) {A : Type 0} (m : M B A) : Type 0 where
    pub same : (d : Device B) → f (after (m d)) ≡ f d

  Keeps-chain :
      (f : Device B → X) {A C : Type 0} (o : Outcome B A) (k : A → M B C)
      → ((a : A) → Keeps f (k a))
      → f (after (chain o k)) ≡ f (after o)
  Keeps-chain f (ok a d) k h = (h a).same d
  Keeps-chain f (err e d) k h = refl

  pub Keeps-bind :
      {f : Device B → X} {A C : Type 0} {m : M B A} {k : A → M B C}
      → Keeps f m
      → ((a : A) → Keeps f (k a))
      → Keeps f (m >>= k)
  unfolding ◌>>=◌
  Keeps-bind {f} {m = m} {k = k} h g = record { same = λ d. Keeps-chain f (m d) k g ∙ h.same d }

  pub Keeps-then :
      {f : Device B → X} {A C : Type 0} {m : M B A} {k : M B C}
      → Keeps f m
      → Keeps f k
      → Keeps f (m >> k)
  unfolding ◌>>◌
  Keeps-then {f} {m = m} {k = k} h g = record {
    same = λ d. Keeps-chain f (m d) (λ _. k) (λ _. g) ∙ h.same d;
  }

  pub Keeps-pure : {f : Device B → X} {A : Type 0} {a : A} → Keeps f (pure a)
  Keeps-pure = record { same = λ d. refl }

  pub Keeps-gets : {f : Device B → X} {A : Type 0} {g : Device B → A} → Keeps f (gets g)
  Keeps-gets = record { same = λ d. refl }

  pub Keeps-fail : {f : Device B → X} {A : Type 0} {e : Error} → Keeps f (fail {A = A} e)
  Keeps-fail = record { same = λ d. refl }

  pub Keeps-if :
      {f : Device B → X} {A : Type 0} (b : Bool) {m k : M B A}
      → Keeps f m
      → Keeps f k
      → Keeps f (if b then m else k)
  Keeps-if true h g = h
  Keeps-if false h g = g

  pub Keeps-assert :
      {f : Device B → X} {A : Type 0} (b : Bool) {m : M B A} → Keeps f m → Keeps f (assert_that b m)
  Keeps-assert true h = h
  Keeps-assert false h = Keeps-fail

pub ruleset frame_rules =
    (Keeps-bind, Keeps-then, Keeps-pure, Keeps-gets, Keeps-fail, Keeps-if, Keeps-assert)
