-- ===== src/Allocate/OpenToken.antt =====
-- The token of an open zone across an allocation: it is taken once, goes with the zone that is
-- handed out, and is given back on every other way out.
use zenfs_modified.Base.{
  ◌≡◌, refl, ◌∙◌, ap, Bool, true, false, if◌then◌else◌, Bool-cases, ◌⊎◌, inl, inr,
}
use zenfs_modified.Base.Int.{ℤ, pos, ◌+ℤ◌, ◌-ℤ◌, int_laws, +ℤ-ℤ_cancel, -ℤ-ℤ_regroup}
use zenfs_modified.Store.{
  Device, M, after, pure, gets, fail, ok, err, Outcome, chain, ok-then, ◌>>=◌, ◌>>◌, assert_that,
}
use zenfs_modified.Store.Frame.{Keeps}
use zenfs_modified.Tokens.{put_open_io_zone_token, put_active_io_zone_token}
use zenfs_modified.EmptyZones.OpenCount.{open_count}
use zenfs_modified.Reclaim.{is_status, on_error, recover}

-- Where the count must stand after a call: by its result, or back at `x` after an error that it
-- returns.
abbrev pub Ended : {B A : Type 0} → ℤ → (A → ℤ) → Outcome B A → Type 0
Ended x want (ok a d) = open_count d ≡ want a
Ended x want (err e d) = (is_status e ≡ false) ⊎ (open_count d ≡ x)

-- The count while the token is held.
abbrev pub held : ℤ → ℤ
held x = x +ℤ pos 1

pub record Moves {B A : Type 0} (x from : ℤ) (want : A → ℤ) (m : M B A) : Type 0 where
  pub run : (d : Device B) → open_count d ≡ from → Ended x want (m d)

module _ {B : Type 0} where
  -- A call that cannot fail, and moves the count down by `n`.
  pub record Pays (n : ℤ) (k : M B (Unit {0})) : Type 0 where
    pub pays :
        (d : Device B) → (d' : Device B) × (k d ≡ ok tt d') × (open_count d' ≡ open_count d -ℤ n)

  pub put_open-Pays : Pays (pos 1) put_open_io_zone_token
  unfolding put_open_io_zone_token
  put_open-Pays = record {
    pays = λ d. (record d { open_io_zones = d.open_io_zones -ℤ pos 1 }, refl, refl);
  }

  pub put_active-Pays : Pays (pos 0) put_active_io_zone_token
  unfolding put_active_io_zone_token
  put_active-Pays = record {
    pays = λ d. (record d { active_io_zones = d.active_io_zones -ℤ pos 1 }, refl, omega int_laws);
  }

  pub pure-Pays : Pays (pos 0) (pure tt)
  pure-Pays = record { pays = λ d. (d, refl, omega int_laws) }

  pub Pays-then : {m n : ℤ} {j k : M B (Unit {0})} → Pays m j → Pays n k → Pays (m +ℤ n) (j >> k)
  unfolding ◌>>◌
  Pays-then {m = m} {n = n} {j = j} {k = k} h g = record {
    pays = λ d.
        let first = h.pays d in
        let second = g.pays first.0 in
        (
          second.0,
          ok-then (λ _. k) first.1 ∙ second.1,
          second.2 ∙ ap (λ c. c -ℤ n) first.2 ∙ -ℤ-ℤ_regroup (open_count d) m n,
        );
  }

module _ {B : Type 0} (x : ℤ) where
  Ended-chain :
      {A C : Type 0} (want : A → ℤ) (goal : C → ℤ) (k : A → M B C) (o : Outcome B A)
      → Ended x want o
      → ((a : A) → Moves x (want a) goal (k a))
      → Ended x goal (chain o k)
  Ended-chain want goal k (ok a d) h g = (g a).run d h
  Ended-chain want goal k (err e d) h g = h

  pub Moves-bind :
      {A C : Type 0} {from : ℤ} {want : A → ℤ} {goal : C → ℤ} {m : M B A} {k : A → M B C}
      → Moves x from want m
      → ((a : A) → Moves x (want a) goal (k a))
      → Moves x from goal (m >>= k)
  unfolding ◌>>=◌
  Moves-bind {want = want} {goal = goal} {m = m} {k = k} h g = record {
    run = λ d e. Ended-chain want goal k (m d) (h.run d e) g;
  }

  pub Moves-then :
      {A C : Type 0} {from to : ℤ} {goal : C → ℤ} {m : M B A} {k : M B C}
      → Moves x from (λ _. to) m
      → Moves x to goal k
      → Moves x from goal (m >> k)
  unfolding ◌>>◌
  Moves-then {to = to} {goal = goal} {m = m} {k = k} h g = record {
    run = λ d e. Ended-chain (λ _. to) goal (λ _. k) (m d) (h.run d e) (λ _. g);
  }

  Ended-same : {A : Type 0} (o : Outcome B A) → open_count (after o) ≡ x → Ended x (λ _. x) o
  Ended-same (ok a d) h = h
  Ended-same (err e d) h = inr h

  -- A call that keeps the count may fail while no token is held.
  pub Moves-keep : {A : Type 0} {m : M B A} → Keeps open_count m → Moves x x (λ _. x) m
  Moves-keep {m = m} h = record { run = λ d e. Ended-same (m d) (h.same d ∙ e) }

  pub Moves-pure : {A : Type 0} {want : A → ℤ} {a : A} → Moves {B = B} x (want a) want (pure a)
  Moves-pure = record { run = λ d e. e }

  pub Moves-gets : {A : Type 0} {from : ℤ} {g : Device B → A} → Moves x from (λ _. from) (gets g)
  Moves-gets = record { run = λ d e. e }

  pub Moves-if :
      {A : Type 0} {from : ℤ} {want : A → ℤ} (b : Bool) {m k : M B A}
      → Moves x from want m
      → Moves x from want k
      → Moves x from want (if b then m else k)
  Moves-if true h g = h
  Moves-if false h g = g

  pub Moves-assert :
      {A : Type 0} {from : ℤ} {want : A → ℤ} (b : Bool) {m : M B A}
      → Moves x from want m
      → Moves x from want (assert_that b m)
  Moves-assert true h = h
  Moves-assert false h = record { run = λ d e. inl refl }

  Ended-recover :
      {A : Type 0} {k : M B (Unit {0})} (o : Outcome B A)
      → Pays (pos 1) k
      → open_count (after o) ≡ held x
      → Ended x (λ _. held x) (recover k o)
  Ended-recover (ok a d) h e = e
  Ended-recover {A} {k} (err e d) h at_held = elim (Bool-cases (is_status e)) [
    | inl s ↦
        let paid = h.pays d in
        rw s (
          rw (ok-then (λ _. fail {A = A} e) paid.1)
            (inr (paid.2 ∙ ap (λ c. c -ℤ pos 1) at_held ∙ +ℤ-ℤ_cancel x (pos 1))))
    | inr s ↦ rw s (inl s)
  ]

  -- A call that keeps the count, with a way out that gives the token back.
  pub Moves-on_error :
      {A : Type 0} {m : M B A} {k : M B (Unit {0})}
      → Keeps open_count m
      → Pays (pos 1) k
      → Moves x (held x) (λ _. held x) (on_error m k)
  unfolding on_error
  Moves-on_error {m = m} h g = record { run = λ d e. Ended-recover (m d) g (h.same d ∙ e) }
