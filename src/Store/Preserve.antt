-- ===== src/Store/Preserve.antt =====
-- What stays true of the device through a call, however the call ends. The rules follow the steps of
-- a `do` block, for `search`.
use zenfs_modified.Base.{Bool, true, false, if◌then◌else◌}
use zenfs_modified.Store.Types.{Device, Error}
use zenfs_modified.Store.Monad.{
  Outcome, ok, err, M, after, chain, ◌>>=◌, ◌>>◌, pure, fail, gets, assert_that,
}

module _ {B : Type 0} where
  pub record Preserves (P : Device B → Type 0) {A : Type 0} (m : M B A) : Type 0 where
    pub kept : (d : Device B) → P d → P (after (m d))

  Preserves-chain :
      (P : Device B → Type 0) {A C : Type 0} (o : Outcome B A) (k : A → M B C)
      → ((a : A) → Preserves P (k a))
      → P (after o)
      → P (after (chain o k))
  Preserves-chain P (ok a d) k h p = (h a).kept d p
  Preserves-chain P (err e d) k h p = p

  pub Preserves-bind :
      {P : Device B → Type 0} {A C : Type 0} {m : M B A} {k : A → M B C}
      → Preserves P m
      → ((a : A) → Preserves P (k a))
      → Preserves P (m >>= k)
  unfolding ◌>>=◌
  Preserves-bind {P} {m = m} {k = k} h g = record {
    kept = λ d p. Preserves-chain P (m d) k g (h.kept d p);
  }

  pub Preserves-then :
      {P : Device B → Type 0} {A C : Type 0} {m : M B A} {k : M B C}
      → Preserves P m
      → Preserves P k
      → Preserves P (m >> k)
  unfolding ◌>>◌
  Preserves-then {P} {m = m} {k = k} h g = record {
    kept = λ d p. Preserves-chain P (m d) (λ _. k) (λ _. g) (h.kept d p);
  }

  pub Preserves-pure : {P : Device B → Type 0} {A : Type 0} {a : A} → Preserves P (pure a)
  Preserves-pure = record { kept = λ d p. p }

  pub Preserves-gets :
      {P : Device B → Type 0} {A : Type 0} {g : Device B → A} → Preserves P (gets g)
  Preserves-gets = record { kept = λ d p. p }

  pub Preserves-fail :
      {P : Device B → Type 0} {A : Type 0} {e : Error} → Preserves P (fail {A = A} e)
  Preserves-fail = record { kept = λ d p. p }

  pub Preserves-if :
      {P : Device B → Type 0} {A : Type 0} (b : Bool) {m k : M B A}
      → Preserves P m
      → Preserves P k
      → Preserves P (if b then m else k)
  Preserves-if true h g = h
  Preserves-if false h g = g

  pub Preserves-assert :
      {P : Device B → Type 0} {A : Type 0} (b : Bool) {m : M B A}
      → Preserves P m
      → Preserves P (assert_that b m)
  Preserves-assert true h = h
  Preserves-assert false h = Preserves-fail

pub ruleset preserve_rules = (
  Preserves-bind, Preserves-then, Preserves-pure, Preserves-gets, Preserves-fail, Preserves-if,
  Preserves-assert,
)
