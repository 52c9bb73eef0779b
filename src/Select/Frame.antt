-- ===== src/Select/Frame.antt =====
-- What the loops over zones leave as it was, given that of their parts.
use zenfs_modified.Base.{ℕ, ◌≡◌, refl, ◌∙◌, Bool, Option, none, some, List, [], ◌∷◌}
use zenfs_modified.Store.{Error, Device, Outcome, ok, err, M, after}
use zenfs_modified.Store.Frame.{
  Keeps, Keeps-bind, Keeps-then, Keeps-if, Keeps-pure, Keeps-gets, frame_rules,
}
use zenfs_modified.Zones.{acquire, check_release}
use zenfs_modified.Select.{
  Best, Test, weigh, settle, select, find_zone, for_each, zone_of, drop_best, drop_best_or_both,
  free_both, replace_error,
}

module _ {B X : Type 0} (f : Device B → X) where
  replace-same :
      (e : Error) (o : Outcome B (Unit {0})) → f (after (replace_error e o)) ≡ f (after o)
  replace-same e (ok a d) = refl
  replace-same e (err e' d) = refl

  zone_of-Keeps : (p : Option ℕ) → Keeps f (zone_of p)
  unfolding zone_of
  zone_of-Keeps none = Keeps-pure
  zone_of-Keeps (some p) = Keeps-gets

  pub find_zone-Keeps :
      (body : ℕ → M B Bool)
      → ((z : ℕ) → Keeps f (body z))
      → (zs : List ℕ) → Keeps f (find_zone body zs)
  unfolding find_zone
  find_zone-Keeps body h [] = Keeps-pure
  find_zone-Keeps body h (z ∷ zs) =
      Keeps-bind (h z) (λ hit. Keeps-if hit Keeps-pure (find_zone-Keeps body h zs))

  pub for_each-Keeps :
      (body : ℕ → M B (Unit {0}))
      → ((z : ℕ) → Keeps f (body z))
      → (zs : List ℕ) → Keeps f (for_each body zs)
  unfolding for_each
  for_each-Keeps body h [] = Keeps-pure
  for_each-Keeps body h (z ∷ zs) = Keeps-then (h z) (for_each-Keeps body h zs)

  module _ (acquires : (z : ℕ) → Keeps f (acquire {B = B} z))
      (releases : (z : ℕ) → Keeps f (check_release {B = B} z)) where
    pub drop_best-Keeps : (b : Option ℕ) → Keeps f (drop_best b)
    unfolding drop_best
    drop_best-Keeps none = Keeps-pure
    drop_best-Keeps (some p) = releases p

    free_both-same : (z : ℕ) (o : Outcome B (Unit {0})) → f (after (free_both z o)) ≡ f (after o)
    unfolding free_both
    free_both-same z (ok a d) = refl
    free_both-same z (err e d) = replace-same e (check_release z d) ∙ (releases z).same d

    pub drop_best_or_both-Keeps : (b : Option ℕ) (z : ℕ) → Keeps f (drop_best_or_both b z)
    unfolding drop_best_or_both
    drop_best_or_both-Keeps b z = record {
      same = λ d. free_both-same z (drop_best b d) ∙ (drop_best-Keeps b).same d;
    }

    module _ {S : Type 0} (hand_over : Option ℕ → ℕ → M B (Unit {0})) (test : Test S)
        (hands : (b : Option ℕ) (z : ℕ) → Keeps f (hand_over b z)) where
      settle-Keeps : (b : Best S) (z : ℕ) (o : Option S) → Keeps f (settle hand_over test b z o)
      unfolding settle
      settle-Keeps b z none = search (releases, frame_rules)
      settle-Keeps b z (some s) = search (hands, frame_rules)

      weigh-Keeps : (b : Best S) (z : ℕ) → Keeps f (weigh hand_over test b z)
      unfolding weigh
      weigh-Keeps b z = search (acquires, zone_of-Keeps, settle-Keeps, frame_rules) depth 9

      pub select-Keeps : (zs : List ℕ) (b : Best S) → Keeps f (select hand_over test b zs)
      unfolding select
      select-Keeps [] b = Keeps-pure
      select-Keeps (z ∷ zs) b = search (weigh-Keeps, select-Keeps zs, frame_rules)
