-- ===== src/Gc/Moves.antt =====
-- The count of open zones across a call whose status is not looked at, or is a value, and across a
-- way out.
use zenfs_modified.Base.{ℕ, ◌≡◌, ◌∙◌, Bool-cases, inl, inr, Option, none, some}
use zenfs_modified.Base.Int.{ℤ}
use zenfs_modified.Store.{M, Outcome, Error, ok, err, fail, chain, after}
use zenfs_modified.Store.Frame.{Keeps}
use zenfs_modified.EmptyZones.OpenCount.{open_count}
use zenfs_modified.Reclaim.{attempt, is_status, status_of, on_error, recover}
use zenfs_modified.Reclaim.Quiet.{Quiet, NoStatus}
use zenfs_modified.Allocate.OpenToken.{Ended, Moves, Moves-then, Moves-pure}
use zenfs_modified.Allocate.Balance.{owed}
use zenfs_modified.Fs.Persist.{ignore}
use zenfs_modified.Gc.{try_value, value_of}

-- The count after a call whose error is a value.
abbrev pub owed_if : ℤ → Option (Option ℕ) → ℤ
owed_if x none = x
owed_if x (some z) = owed x z

module _ {B : Type 0} (x : ℤ) where
  Ended-quiet :
      {A : Type 0} (from : ℤ) (o : Outcome B A)
      → NoStatus o
      → open_count (after o) ≡ from
      → Ended x (λ _. from) o
  Ended-quiet from (ok a d) q h = h
  Ended-quiet from (err e d) q h = inl q

  -- A call that keeps the count and returns no error may be made while the token is held.
  pub Moves-Quiet :
      {A : Type 0} {from : ℤ} {m : M B A}
      → Keeps open_count m
      → Quiet m
      → Moves x from (λ _. from) m
  Moves-Quiet {from = from} {m = m} h q = record {
    run = λ d e. Ended-quiet from (m d) (q.quiet d) (h.same d ∙ e);
  }

  Ended-status :
      {A : Type 0} (o : Outcome B A) → Ended x (λ _. x) o → Ended x (λ _. x) (status_of o)
  Ended-status (ok a d) h = h
  Ended-status (err e d) (inl s) = rw s (inl s)
  Ended-status (err e d) (inr h) = elim (Bool-cases (is_status e)) [
    | inl s ↦ rw s h
    | inr s ↦ rw s (inl s)
  ]

  -- A call whose status is not looked at.
  pub Moves-ignore :
      {from : ℤ} {m : M B (Unit {0})} → Moves x from (λ _. x) m → Moves x from (λ _. x) (ignore m)
  unfolding attempt
  Moves-ignore {m = m} h =
      Moves-then x (record { run = λ d e. Ended-status (m d) (h.run d e) }) (Moves-pure x)

  Ended-value : (o : Outcome B (Option ℕ)) → Ended x (owed x) o → Ended x (owed_if x) (value_of o)
  Ended-value (ok a d) h = h
  Ended-value (err e d) (inl s) = rw s (inl s)
  Ended-value (err e d) (inr h) = elim (Bool-cases (is_status e)) [
    | inl s ↦ rw s h
    | inr s ↦ rw s (inl s)
  ]

  pub Moves-try : {m : M B (Option ℕ)} → Moves x x (owed x) m → Moves x x (owed_if x) (try_value m)
  unfolding try_value
  Moves-try {m = m} h = record { run = λ d e. Ended-value (m d) (h.run d e) }

  Ended-failed :
      {A : Type 0} (want : A → ℤ) (e : Error) (k : Outcome B (Unit {0}))
      → open_count (after k) ≡ x
      → Ended x want (chain k (λ _. fail e))
  Ended-failed want e (ok a d) h = inr h
  Ended-failed want e (err e' d) h = inr h

  Ended-cleanup :
      {A : Type 0} (want : A → ℤ) (cleanup : M B (Unit {0})) (o : Outcome B A)
      → Keeps open_count cleanup
      → Ended x want o
      → Ended x want (recover cleanup o)
  Ended-cleanup want cleanup (ok a d) k h = h
  Ended-cleanup want cleanup (err e d) k (inl s) = rw s (inl s)
  Ended-cleanup want cleanup (err e d) k (inr h) = elim (Bool-cases (is_status e)) [
    | inl s ↦ rw s (Ended-failed want e (cleanup d) (k.same d ∙ h))
    | inr s ↦ rw s (inl s)
  ]

  -- A way out that leaves the count.
  pub Moves-cleanup :
      {A : Type 0} {want : A → ℤ} {m : M B A} {cleanup : M B (Unit {0})}
      → Moves x x want m
      → Keeps open_count cleanup
      → Moves x x want (on_error m cleanup)
  unfolding on_error
  Moves-cleanup {want = want} {m = m} {cleanup = cleanup} h k = record {
    run = λ d e. Ended-cleanup want cleanup (m d) k (h.run d e);
  }
