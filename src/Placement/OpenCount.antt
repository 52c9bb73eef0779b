-- ===== src/Placement/OpenCount.antt =====
-- Choosing an open zone leaves the count of open zones as it was, however it ends.
use zenfs_modified.Base.{ℕ, refl}
use zenfs_modified.Base.Int.{ℤ}
use zenfs_modified.Params.{
  PlacementPolicyType, lifetime_based, leveled_lifetime_based, arrival_time_based, tombstone_ttl,
  cluster_together, user_defined_placement,
}
use zenfs_modified.Store.Frame.{Keeps, Keeps-fail, frame_rules}
use zenfs_modified.Select.Frame.{drop_best_or_both-Keeps, select-Keeps}
use zenfs_modified.Policies.{
  Match, match_lifetime_based, match_arrival_time_based, match_cluster_together,
}
use zenfs_modified.EmptyZones.OpenCount.{open_count, acquire-Keeps, check_release-Keeps}
use zenfs_modified.Placement.{
  FilePolicies, run_policy, adjust_diff, fall_back, get_best_open_zone_match,
}

module _ {B : Type 0} where
  lifetime-Keeps : (l m : ℕ) → Keeps {B = B} open_count (match_lifetime_based l m)
  unfolding match_lifetime_based
  lifetime-Keeps l m =
      search
        (select-Keeps, drop_best_or_both-Keeps, acquire-Keeps, check_release-Keeps, frame_rules)
        depth 8

  arrival-Keeps : (l : ℤ) (m : ℕ) → Keeps {B = B} open_count (match_arrival_time_based l m)
  unfolding match_arrival_time_based
  arrival-Keeps l m =
      search
        (select-Keeps, drop_best_or_both-Keeps, acquire-Keeps, check_release-Keeps, frame_rules)
        depth 8

  cluster-Keeps : (m : ℕ) → Keeps {B = B} open_count (match_cluster_together m)
  unfolding match_cluster_together
  cluster-Keeps m =
      search
        (select-Keeps, drop_best_or_both-Keeps, acquire-Keeps, check_release-Keeps, frame_rules)
        depth 8

-- The policies that look at the files take and free zones, and no token.
pub record KeepsTokens {B : Type 0} (fps : FilePolicies B) : Type 0 where
  pub keeps :
      (p : PlacementPolicyType) (f lifetime min_capacity : ℕ) (b : Match)
      → Keeps open_count (fps.by_files p f lifetime min_capacity b)

module _ {B : Type 0} (fps : FilePolicies B) (kt : KeepsTokens fps) where
  run_policy-Keeps :
      (p : PlacementPolicyType) (f l m : ℕ) (b : Match)
      → Keeps open_count (run_policy fps p f l m b)
  unfolding run_policy
  run_policy-Keeps lifetime_based f l m b = lifetime-Keeps l m
  run_policy-Keeps tombstone_ttl f l m b = lifetime-Keeps l m
  run_policy-Keeps arrival_time_based f l m b = search (arrival-Keeps, frame_rules)
  run_policy-Keeps cluster_together f l m b = cluster-Keeps m
  run_policy-Keeps leveled_lifetime_based f l m b = Keeps-fail
  run_policy-Keeps user_defined_placement f l m b = Keeps-fail
  run_policy-Keeps p f l m b = kt.keeps _ f l m b

  adjust-Keeps :
      (p : PlacementPolicyType) (f : ℕ) (level : ℤ) (m : ℕ) (b : Match)
      → Keeps open_count (adjust_diff fps p f level m b)
  unfolding adjust_diff
  adjust-Keeps p f level m b = record { same = λ d. refl }

  fall_back-Keeps :
      (p q : PlacementPolicyType) (f : ℕ) (level : ℤ) (n l m : ℕ) (old b : Match)
      → Keeps open_count (fall_back fps p q f level n l m old b)
  unfolding fall_back
  fall_back-Keeps p q f level n l m old b =
      search (run_policy-Keeps, adjust-Keeps, lifetime-Keeps, frame_rules) depth 12

  pub best_match-Keeps :
      (f l m : ℕ) (old : Match) → Keeps open_count (get_best_open_zone_match fps f l m old)
  unfolding get_best_open_zone_match
  best_match-Keeps f l m old =
      search (run_policy-Keeps, fall_back-Keeps, lifetime-Keeps, frame_rules) depth 12
