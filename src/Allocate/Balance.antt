-- ===== src/Allocate/Balance.antt =====
-- `AllocateIOZoneNoLock`: the token of an open zone is balanced on every way out.
use zenfs_modified.Base.{ℕ, refl, ◌∙◌, ap, Bool, true, false, Option, none, some, zero, suc, arith}
use zenfs_modified.Base.Int.{ℤ, pos, ◌+ℤ◌, ◌-ℤ◌, +ℤ-ℤ_cancel}
use zenfs_modified.Store.{Backend, Device, M, IoType, ◌>>◌}
use zenfs_modified.Store.Frame.{Keeps, Keeps-fail, frame_rules}
use zenfs_modified.Zones.{check_release}
use zenfs_modified.Tokens.{
  put_open_io_zone_token, put_active_io_zone_token, wait_for_open_io_zone_token,
  get_active_io_zone_token_if_available,
}
use zenfs_modified.Policies.{Match}
use zenfs_modified.EmptyZones.{Library, get_empty_zone_count}
use zenfs_modified.EmptyZones.OpenCount.{
  open_count, check_release-Keeps, get_active-Keeps, deferred-Keeps, raise_max_level-Keeps,
  allocate_empty_zone-Keeps,
}
use zenfs_modified.Reclaim.{on_error}
use zenfs_modified.Reclaim.OpenCount.{threshold-Keeps, cheapest-Keeps}
use zenfs_modified.Placement.{FilePolicies}
use zenfs_modified.Placement.OpenCount.{KeepsTokens, best_match-Keeps}
use zenfs_modified.Allocate.{
  ensure_active_token, ensure_round, label_zone, opened, open_empty_zone, open_new_zone,
  put_active_if, keep_match, kept_or_new, improve_match, hand_out, allocate_io_zone_no_lock,
  forget_need,
}
use zenfs_modified.Allocate.OpenToken.{
  Ended, Moves, held, Pays, Moves-bind, Moves-then, Moves-keep, Moves-pure, Moves-gets, Moves-if,
  Moves-assert, Moves-on_error, put_open-Pays, put_active-Pays, pure-Pays, Pays-then,
}

-- The count that an allocation leaves, from the count before it: one more with a zone.
abbrev pub owed : ℤ → Option ℕ → ℤ
owed x none = x
owed x (some z) = x +ℤ pos 1

module _ {B : Type 0} (x : ℤ) where
  get_active-Moves : Moves {B = B} x (held x) (λ _. held x) get_active_io_zone_token_if_available
  unfolding get_active_io_zone_token_if_available
  get_active-Moves = record { run = λ d e. ground arith }

  put_active-Moves : Moves {B = B} x (held x) (λ _. held x) put_active_io_zone_token
  unfolding put_active_io_zone_token
  put_active-Moves = record { run = λ d e. e }

  pub put_open-Moves : Moves {B = B} x (held x) (λ _. x) put_open_io_zone_token
  unfolding put_open_io_zone_token
  put_open-Moves = record { run = λ d e. ap (λ c. c -ℤ pos 1) e ∙ +ℤ-ℤ_cancel x (pos 1) }

  wait-Moves : (p : Bool) → Moves {B = B} x x (λ _. held x) (wait_for_open_io_zone_token p)
  unfolding wait_for_open_io_zone_token
  wait-Moves p = record { run = λ d e. ground arith }

  Pays-if : (b : Bool) → Pays {B = B} (pos 0) (put_active_if b)
  unfolding put_active_if
  Pays-if true = put_active-Pays
  Pays-if false = pure-Pays

  put_active_if-Moves : (b : Bool) → Moves {B = B} x (held x) (λ _. held x) (put_active_if b)
  unfolding put_active_if
  put_active_if-Moves true = put_active-Moves
  put_active_if-Moves false = Moves-pure x

  forget-Keeps : Keeps {B = B} open_count forget_need
  unfolding forget_need
  forget-Keeps = record { same = λ d. refl }

  label-Moves : (f l z : ℕ) → Moves {B = B} x (held x) (λ _. held x) (label_zone f l z)
  unfolding label_zone
  label-Moves f l z = record { run = λ d e. e }

  empty_count-Moves : Moves {B = B} x (held x) (λ _. held x) get_empty_zone_count
  unfolding get_empty_zone_count
  empty_count-Moves = Moves-gets x

  -- Freeing the match that is given up for a new zone.
  give_up-Moves :
      (p : ℕ) (got : Bool)
      → Moves {B = B} x
          (held x)
          (λ _. held x)
          (on_error (check_release p) (put_open_io_zone_token >> put_active_if got))
  unfolding ◌+ℤ◌
  give_up-Moves p got =
      Moves-on_error x (check_release-Keeps p) (Pays-then put_open-Pays (Pays-if got))

  keep_match-Moves :
      (a : Option ℕ) (s : ℕ) (got : Bool)
      → Moves {B = B} x (held x) (λ _. held x) (keep_match a s got)
  unfolding keep_match
  keep_match-Moves none s got = Moves-pure x
  keep_match-Moves (some p) s got = Moves-bind x (empty_count-Moves) λ empty.
      Moves-bind x (Moves-gets x) λ reserve. Moves-if x _ (Moves-pure x) (
        Moves-if x _ (Moves-then x (give_up-Moves p got) (Moves-pure x))
          (Moves-then x (put_active_if-Moves got) (Moves-pure x)))

  opened-Moves : (f l : ℕ) (a : Option ℕ) → Moves {B = B} x (held x) (λ _. held x) (opened f l a)
  unfolding opened
  opened-Moves f l none = Moves-then x put_active-Moves (Moves-pure x)
  opened-Moves f l (some z) =
      Moves-bind x (Moves-gets x)
        λ busy. Moves-then x (Moves-assert x busy (label-Moves f l z)) (Moves-pure x)

  -- The token goes with the zone that is handed out, and is given back with none.
  hand_out-Moves : (a : Option ℕ) → Moves {B = B} x (held x) (owed x) (hand_out a)
  unfolding hand_out
  hand_out-Moves none = Moves-then x put_open-Moves (Moves-pure x)
  hand_out-Moves (some z) =
      Moves-bind x (Moves-gets x)
        λ busy. Moves-then x (Moves-assert x busy (Moves-pure x)) (Moves-pure x)

  module _ (be : Backend B) where
    ensure_round-Keeps :
        (m : M B (Unit {0})) → Keeps open_count m → Keeps open_count (ensure_round be m)
    unfolding ensure_round
    ensure_round-Keeps m h = search (get_active-Keeps, cheapest-Keeps, frame_rules)

    ensure-Keeps : (n : ℕ) → Keeps open_count (ensure_active_token be n)
    unfolding ensure_active_token
    ensure-Keeps zero = Keeps-fail
    ensure-Keeps (suc n) = ensure_round-Keeps _ (ensure-Keeps n)

    module _ (lib : Library) where
      open_empty-Moves : (f l : ℕ) → Moves x (held x) (λ _. held x) (open_empty_zone be lib f l)
      unfolding open_empty_zone ◌+ℤ◌
      open_empty-Moves f l = Moves-bind x (Moves-gets x) λ level.
          Moves-bind x
            (Moves-on_error x (allocate_empty_zone-Keeps lib level)
              (Pays-then put_active-Pays put_open-Pays))
            (opened-Moves f l)

      open_new-Moves :
          (f l : ℕ) (got : Bool) → Moves x (held x) (λ _. held x) (open_new_zone be lib f l got)
      unfolding open_new_zone
      open_new-Moves f l got = Moves-bind x (Moves-gets x) λ zs.
          Moves-then x
            (Moves-if x got (Moves-pure x) (Moves-on_error x (ensure-Keeps _) put_open-Pays))
            (open_empty-Moves f l)

      kept_or_new-Moves :
          (f l : ℕ) (got : Bool) (a : Option ℕ)
          → Moves x (held x) (λ _. held x) (kept_or_new be lib f l got a)
      unfolding kept_or_new
      kept_or_new-Moves f l got none = open_new-Moves f l got
      kept_or_new-Moves f l got (some p) = Moves-pure x

      improve-Moves :
          (f l : ℕ) (m : Match) → Moves x (held x) (λ _. held x) (improve_match be lib f l m)
      unfolding improve_match
      improve-Moves f l m =
          Moves-bind x get_active-Moves λ got.
            Moves-bind x (keep_match-Moves m.allocated m.score got) (kept_or_new-Moves f l got)

      pub allocate-Moves :
          (fps : FilePolicies B)
          → KeepsTokens fps
          → (f l : ℕ) (t : IoType) (c : ℕ)
          → Moves x x (owed x) (allocate_io_zone_no_lock be lib fps f l t c)
      unfolding allocate_io_zone_no_lock
      allocate-Moves fps kt f l t c = Moves-bind x (Moves-gets x) λ level.
          Moves-then x (Moves-keep x (raise_max_level-Keeps level)) (
            Moves-then x (Moves-keep x forget-Keeps) (
              Moves-then x (Moves-keep x deferred-Keeps) (
                Moves-then x (Moves-if x _ (Moves-pure x) (Moves-keep x (threshold-Keeps be))) (
                  Moves-then x (wait-Moves _) (
                    Moves-bind x (Moves-on_error x (best_match-Keeps fps kt f l c _) put_open-Pays)
                      λ m.
                        Moves-bind x (Moves-if x _ (improve-Moves f l m) (Moves-pure x))
                          hand_out-Moves)))))

-- If the policies over files leave the count of open zones alone, then whatever the outcome, that
-- count ends where it was, but for one token more when a zone is handed out. So it does after every
-- error that the call returns; only a call that does not return, or one that ends the program, is
-- left out.
pub allocate_io_zone_no_lock-balanced :
    {B : Type 0} (be : Backend B) (lib : Library) (fps : FilePolicies B)
    → KeepsTokens fps
    → (f lifetime : ℕ) (io_type : IoType) (min_capacity : ℕ) (d : Device B)
    → Ended d.open_io_zones
        (owed d.open_io_zones)
        (allocate_io_zone_no_lock be lib fps f lifetime io_type min_capacity d)
allocate_io_zone_no_lock-balanced be lib fps kt f l t c d =
    (allocate-Moves d.open_io_zones be lib fps kt f l t c).run d refl
