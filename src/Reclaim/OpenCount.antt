-- ===== src/Reclaim/OpenCount.antt =====
-- The loops that give zones back leave the count of open zones as it was, however they end.
use zenfs_modified.Base.{ℕ, ◌≡◌, refl, ◌∙◌, true, false, Option, none, some, if◌then◌else◌, arith}
use zenfs_modified.Store.{Backend, M, after, ok, err, Error, Outcome, chain, fail}
use zenfs_modified.Store.Frame.{Keeps, Keeps-pure, frame_rules}
use zenfs_modified.Zones.{release, finish}
use zenfs_modified.Select.Frame.{for_each-Keeps, drop_best-Keeps, select-Keeps}
use zenfs_modified.EmptyZones.OpenCount.{
  open_count, acquire-Keeps, check_release-Keeps, command-Keeps, put_active-Keeps,
  finish_bytes-Keeps,
}
use zenfs_modified.Reclaim.{
  on_error, recover, attempt, status_of, token_if_done, rethrow, is_status, finish_nearly_full,
  apply_finish_threshold, finish_victim, finish_cheapest_io_zone,
}

module _ {B : Type 0} where
  pub release-Keeps : (z : ℕ) → Keeps {B = B} open_count (release z)
  unfolding release
  release-Keeps z = search frame_rules

  status_of-same :
      {A : Type 0} (o : Outcome B A) → open_count (after (status_of o)) ≡ open_count (after o)
  status_of-same (ok a d) = refl
  status_of-same (err e d) = ground arith

  pub attempt-Keeps : {A : Type 0} {m : M B A} → Keeps open_count m → Keeps open_count (attempt m)
  unfolding attempt
  attempt-Keeps {m = m} h = record { same = λ d. status_of-same (m d) ∙ h.same d }

  pub rethrow-Keeps : (e : Option Error) → Keeps {B = B} open_count (rethrow e)
  rethrow-Keeps none = Keeps-pure
  rethrow-Keeps (some e) = search frame_rules

  paid-Keeps : (e : Option Error) → Keeps {B = B} open_count (token_if_done e)
  unfolding token_if_done
  paid-Keeps none = put_active-Keeps
  paid-Keeps (some e) = Keeps-pure

  chain-fail-same :
      (A : Type 0) (e : Error) (o : Outcome B (Unit {0}))
      → open_count (after (chain {C = A} o (λ _. fail e))) ≡ open_count (after o)
  chain-fail-same A e (ok a d) = refl
  chain-fail-same A e (err e' d) = refl

  recover-same :
      {A : Type 0} {k : M B (Unit {0})} (o : Outcome B A)
      → Keeps open_count k
      → open_count (after (recover k o)) ≡ open_count (after o)
  recover-same (ok a d) g = refl
  recover-same {A} {k} (err e d) g =
      let s = chain-fail-same A e (k d) ∙ g.same d in
      elim (is_status e)
        as (λ b.
          open_count (after (if b then chain {C = A} (k d) (λ _. fail e) else err e d))
          ≡ open_count d) [ true ↦ s | false ↦ refl ]

  pub on_error-Keeps :
      {A : Type 0} {m : M B A} {k : M B (Unit {0})}
      → Keeps open_count m
      → Keeps open_count k
      → Keeps open_count (on_error m k)
  unfolding on_error
  on_error-Keeps {m = m} h g = record { same = λ d. recover-same (m d) g ∙ h.same d }

  module _ (be : Backend B) where
    finish-Keeps : (z : ℕ) → Keeps open_count (finish be z)
    unfolding finish
    finish-Keeps z = search (command-Keeps, frame_rules) depth 8

    finish_nearly_full-Keeps : (z : ℕ) → Keeps open_count (finish_nearly_full be z)
    unfolding finish_nearly_full
    finish_nearly_full-Keeps z =
        search
          (
            acquire-Keeps, check_release-Keeps, release-Keeps, put_active-Keeps, on_error-Keeps,
            finish-Keeps, frame_rules,
          )
          depth 12

    pub threshold-Keeps : Keeps open_count (apply_finish_threshold be)
    unfolding apply_finish_threshold
    threshold-Keeps = search (for_each-Keeps, finish_nearly_full-Keeps, frame_rules) depth 8

    finish_victim-Keeps : (z : Option ℕ) → Keeps open_count (finish_victim be z)
    unfolding finish_victim
    finish_victim-Keeps none = Keeps-pure
    finish_victim-Keeps (some z) =
        search
          (
            finish_bytes-Keeps, check_release-Keeps, attempt-Keeps, finish-Keeps, rethrow-Keeps,
            paid-Keeps, frame_rules,
          )
          depth 12

    pub cheapest-Keeps : Keeps open_count (finish_cheapest_io_zone be)
    unfolding finish_cheapest_io_zone
    cheapest-Keeps =
        search
          (
            select-Keeps, drop_best-Keeps, acquire-Keeps, check_release-Keeps, finish_victim-Keeps,
            frame_rules,
          )
          depth 9
