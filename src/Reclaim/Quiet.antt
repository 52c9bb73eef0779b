-- ===== src/Reclaim/Quiet.antt =====
-- Calls that return no error: they end well, or the program stops. The rules follow the steps of a `do`
-- block, for `search`.
use zenfs_modified.Base.{◌≡◌, refl, Bool, true, false, if◌then◌else◌}
use zenfs_modified.Store.{
  Device, Outcome, ok, err, M, chain, ◌>>=◌, ◌>>◌, pure, gets, fail, assert_that, fault,
}
use zenfs_modified.Reclaim.{is_status}

module _ {B : Type 0} where
  abbrev pub NoStatus : {A : Type 0} → Outcome B A → Type 0
  NoStatus (ok a d) = Unit {0}
  NoStatus (err e d) = is_status e ≡ false

  pub record Quiet {A : Type 0} (m : M B A) : Type 0 where
    pub quiet : (d : Device B) → NoStatus (m d)

  NoStatus-chain :
      {A C : Type 0} (o : Outcome B A) (k : A → M B C)
      → ((a : A) → Quiet (k a))
      → NoStatus o
      → NoStatus (chain o k)
  NoStatus-chain (ok a d) k h q = (h a).quiet d
  NoStatus-chain (err e d) k h q = q

  pub Quiet-bind :
      {A C : Type 0} {m : M B A} {k : A → M B C}
      → Quiet m
      → ((a : A) → Quiet (k a))
      → Quiet (m >>= k)
  unfolding ◌>>=◌
  Quiet-bind {m = m} {k = k} h g = record { quiet = λ d. NoStatus-chain (m d) k g (h.quiet d) }

  pub Quiet-then : {A C : Type 0} {m : M B A} {k : M B C} → Quiet m → Quiet k → Quiet (m >> k)
  unfolding ◌>>◌
  Quiet-then {m = m} {k = k} h g = record {
    quiet = λ d. NoStatus-chain (m d) (λ _. k) (λ _. g) (h.quiet d);
  }

  pub Quiet-ok :
      {A : Type 0} {g : Device B → A} {h : Device B → Device B} → Quiet (λ d. ok (g d) (h d))
  Quiet-ok = record { quiet = λ d. tt }

  pub Quiet-pure : {A : Type 0} {a : A} → Quiet (pure a)
  Quiet-pure = record { quiet = λ d. tt }

  pub Quiet-gets : {A : Type 0} {g : Device B → A} → Quiet (gets g)
  Quiet-gets = record { quiet = λ d. tt }

  pub Quiet-fault : {A : Type 0} → Quiet (fail {A = A} fault)
  Quiet-fault = record { quiet = λ d. refl }

  pub Quiet-if :
      {A : Type 0} (b : Bool) {m k : M B A} → Quiet m → Quiet k → Quiet (if b then m else k)
  Quiet-if true h g = h
  Quiet-if false h g = g

  pub Quiet-assert : {A : Type 0} (b : Bool) {m : M B A} → Quiet m → Quiet (assert_that b m)
  Quiet-assert true h = h
  Quiet-assert false h = record { quiet = λ d. refl }

pub ruleset quiet_rules =
    (Quiet-bind, Quiet-then, Quiet-ok, Quiet-pure, Quiet-gets, Quiet-fault, Quiet-if, Quiet-assert)
