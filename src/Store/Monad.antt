-- ===== src/Store/Monad.antt =====
-- Calls on the device: each ends with a value or with an `IOStatus` error, and with the device as it
-- is then, since what was written stays written after an error.
use zenfs_modified.Base.{arith, ℕ, ◌≡◌, ap, Bool, true, false, ◌==◌, if◌then◌else◌}
use zenfs_modified.Store.Types.{Error, assertion, Zone, ZoneFile, Device}

pub data Outcome (B A : Type 0) : Type 0 where
  ok : A → Device B → Outcome B A
  err : Error → Device B → Outcome B A

abbrev pub M : Type 0 → Type 0 → Type 0
M B A = Device B → Outcome B A

-- The device after the call.
abbrev pub after : {B A : Type 0} → Outcome B A → Device B
after (ok a d) = d
after (err e d) = d

abbrev pub chain : {B A C : Type 0} → Outcome B A → (A → M B C) → Outcome B C
chain (ok a d) f = f a d
chain (err e d) f = err e d

-- Shut, so that what is said of a `do` block follows its steps.
infixl 5 ◌>>=◌ ◌>>◌
unfoldable pub ◌>>=◌ : {B A C : Type 0} → M B A → (A → M B C) → M B C
◌>>=◌ m f d = chain (m d) f

unfoldable pub ◌>>◌ : {B A C : Type 0} → M B A → M B C → M B C
unfolding ◌>>=◌
m >> k = m >>= λ _. k

module _ {B A : Type 0} where
  abbrev pub pure : A → M B A
  pure a d = ok a d

  abbrev pub fail : Error → M B A
  fail e d = err e d

  abbrev pub gets : (Device B → A) → M B A
  gets f d = ok (f d) d

  -- An `assert`.
  abbrev pub assert_that : Bool → M B A → M B A
  assert_that true m = m
  assert_that false m = fail assertion

-- A write through a pointer.
abbrev pub point_at {ℓ} : {A : Type ℓ} → (ℕ → A) → ℕ → A → ℕ → A
point_at f p v q = if p == q then v else f q

module _ {B : Type 0} where
  abbrev pub put_zone : ℕ → Zone → M B (Unit {0})
  put_zone z v d = ok tt (record d { zone = point_at d.zone z v })

  abbrev pub put_file : ℕ → ZoneFile → M B (Unit {0})
  put_file f v d = ok tt (record d { file = point_at d.file f v })

-- A call that ends well goes on with what follows it.
pub ok-then :
    {B A C : Type 0} {a : A} {d : Device B} {o : Outcome B A} (f : A → M B C)
    → o ≡ ok a d
    → chain o f ≡ f a d
ok-then f e = ap (λ o. chain o f) e

pub err-then :
    {B A C : Type 0} {e : Error} {d : Device B} {o : Outcome B A} (f : A → M B C)
    → o ≡ err e d
    → chain o f ≡ err e d
err-then f e = ap (λ o. chain o f) e

pub point_self {ℓ} : {A : Type ℓ} (h : ℕ → A) (p : ℕ) (v : A) → point_at h p v p ≡ v
point_self h p v = ground arith
