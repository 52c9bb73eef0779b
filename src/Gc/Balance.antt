-- ===== src/Gc/Balance.antt =====
-- The token of an open zone across the migration of a file's extents: the zones that are taken and
-- released.
use zenfs_modified.Base.{ℕ, ◌≡◌, refl, Bool, true, false, inl, Option, none, some, List, [], ◌∷◌}
use zenfs_modified.Base.Int.{ℤ}
use zenfs_modified.Store.{blocked, ZoneExtent, Backend, Device, fail}
use zenfs_modified.Store.Frame.{Keeps, frame_rules}
use zenfs_modified.Zones.{close, command, check_release, release}
use zenfs_modified.EmptyZones.{Library}
use zenfs_modified.EmptyZones.OpenCount.{
  open_count, command-Keeps, check_release-Keeps, put_active-Keeps,
}
use zenfs_modified.Reclaim.Quiet.{
  Quiet, quiet_rules, Quiet-bind, Quiet-if, Quiet-then, Quiet-gets, Quiet-assert, Quiet-pure,
}
use zenfs_modified.Placement.{FilePolicies}
use zenfs_modified.Placement.OpenCount.{KeepsTokens}
use zenfs_modified.Allocate.OpenToken.{
  Ended, Moves, held, Moves-bind, Moves-then, Moves-keep, Moves-pure, Moves-gets, Moves-if,
}
use zenfs_modified.Allocate.Balance.{owed, allocate-Moves, put_open-Moves}
use zenfs_modified.Allocate.{put_active_if}
use zenfs_modified.Fs.Calls.{Env, get_file_no_lock}
use zenfs_modified.Gc.{
  ZoneExtentSnapshot, set_migrating, take_migrate_zone, taken_zone, release_taken,
  release_migrate_zone,
}
use zenfs_modified.Gc.Migrate.{
  point_extent, move_extent, move_if_taken, migrate_extent, migrate_each,
}
use zenfs_modified.Gc.Frame.{copy_extent-Keeps, copy_extent-Quiet, use_zone-Keeps, use_zone-Quiet}
use zenfs_modified.Gc.Moves.{owed_if, Moves-Quiet, Moves-ignore, Moves-try, Moves-cleanup}

-- A backend that closes every zone.
abbrev pub ClosesZones : {B : Type 0} → Backend B → Type 0
ClosesZones {B} be = (start : ℕ) (b : B) → (be.close start b).0 ≡ true

module _ {B : Type 0} (be : Backend B) (closes : ClosesZones be) where
  command-Quiet : (op : B → Bool × B) → ((b : B) → (op b).0 ≡ true) → Quiet (command op)
  unfolding command
  command-Quiet op h = record { quiet = λ d. rw (h d.backend) tt }

  close-Quiet : (z : ℕ) → Quiet (close be z)
  unfolding close
  close-Quiet z = Quiet-bind Quiet-gets λ v.
      Quiet-then (Quiet-assert _ Quiet-pure)
        (Quiet-if _ Quiet-pure (command-Quiet (be.close v.start) (closes v.start)))

  close-Keeps : (z : ℕ) → Keeps open_count (close be z)
  unfolding close
  close-Keeps z = search (command-Keeps, frame_rules) depth 8

  check_release-Quiet : (z : ℕ) → Quiet {B = B} (check_release z)
  unfolding check_release release
  check_release-Quiet z =
      Quiet-bind (search quiet_rules depth 8)
        λ done. Quiet-if done Quiet-pure (record { quiet = λ d. refl })

  put_active_if-Keeps : (b : Bool) → Keeps {B = B} open_count (put_active_if b)
  unfolding put_active_if
  put_active_if-Keeps b = search (put_active-Keeps, frame_rules)

  migrating-Keeps : (b : Bool) → Keeps {B = B} open_count (set_migrating b)
  migrating-Keeps b = record { same = λ d. refl }

  migrating-Quiet : (b : Bool) → Quiet {B = B} (set_migrating b)
  migrating-Quiet b = record { quiet = λ d. tt }

  module _ (x : ℤ) where
    release_taken-Moves :
        (zone : Option ℕ) → Moves x (owed x zone) (λ _. x) (release_migrate_zone be zone)
    unfolding release_migrate_zone release_taken
    release_taken-Moves none =
        Moves-then x (Moves-Quiet x (migrating-Keeps false) (migrating-Quiet false)) (Moves-pure x)
    release_taken-Moves (some z) =
        Moves-then x (Moves-Quiet x (migrating-Keeps false) (migrating-Quiet false)) (
          Moves-bind x (Moves-gets x) λ full.
            Moves-then x (Moves-Quiet x (close-Keeps z) (close-Quiet z)) (
              Moves-then x (Moves-Quiet x (check_release-Keeps z) (check_release-Quiet z))
                (Moves-then x (put_open-Moves x) (Moves-keep x (put_active_if-Keeps full)))))

    module _ (env : Env B) (lib : Library) (fps : FilePolicies B) (kt : KeepsTokens fps) where
      blocked-Moves : (want : Option ℕ → ℤ) → Moves {B = B} x x want (fail blocked)
      blocked-Moves want = record { run = λ d e. inl refl }

      taken_zone-Moves : (z : Option ℕ) → Moves {B = B} x (owed x z) (owed x) (taken_zone z)
      taken_zone-Moves none =
          Moves-then x (Moves-Quiet x (migrating-Keeps false) (migrating-Quiet false))
            (Moves-pure x)
      taken_zone-Moves (some z) = Moves-pure x

      take_migrate_zone-Moves :
          (f lifetime n : ℕ) → Moves x x (owed x) (take_migrate_zone be lib fps f lifetime n)
      unfolding take_migrate_zone
      take_migrate_zone-Moves f lifetime n = Moves-bind x (Moves-gets x) λ migrating.
          Moves-if x migrating (blocked-Moves (owed x)) (
            Moves-then x (Moves-Quiet x (migrating-Keeps true) (migrating-Quiet true)) (
              Moves-bind x (Moves-gets x {g = λ d. d.file f}) λ v.
                Moves-bind x
                  (Moves-cleanup x (allocate-Moves x be lib fps kt f lifetime v.io_type n)
                    (migrating-Keeps false))
                  taken_zone-Moves))

      point_extent-Moves :
          (e : ZoneExtent) (z start : ℕ) (there : Option ℕ)
          → Moves x (held x) (λ _. x) (point_extent be e z start there)
      unfolding point_extent
      point_extent-Moves e z start none =
          Moves-then x (Moves-ignore x (release_taken-Moves (some z))) (Moves-pure x)
      point_extent-Moves e z start (some g) =
          Moves-then x (Moves-Quiet x (use_zone-Keeps z e.length) (use_zone-Quiet z e.length))
            (Moves-then x (Moves-ignore x (release_taken-Moves (some z))) (Moves-pure x))

      move_if_taken-Moves :
          (fname : List ℕ) (f : ℕ) (e : ZoneExtent) (zone : Option (Option ℕ))
          → Moves x (owed_if x zone) (λ _. x) (move_if_taken be env lib fps fname f e zone)
      unfolding move_if_taken move_extent get_file_no_lock
      move_if_taken-Moves fname f e none = Moves-pure x
      move_if_taken-Moves fname f e (some none) =
          Moves-then x (Moves-ignore x (release_taken-Moves none)) (Moves-pure x)
      move_if_taken-Moves fname f e (some (some z)) = Moves-bind x (Moves-gets x) λ wp.
          Moves-bind x (Moves-gets x) λ sparse.
            Moves-bind x
              (Moves-Quiet x (copy_extent-Keeps be sparse e z wp)
                (copy_extent-Quiet be sparse e z wp))
              λ start. Moves-bind x (Moves-gets x) (point_extent-Moves e z start)

      migrate_extent-Moves :
          (fname : List ℕ) (f : ℕ) (snapshots : List ZoneExtentSnapshot) (e : ZoneExtent)
          → Moves x x (λ _. x) (migrate_extent be env lib fps fname f snapshots e)
      unfolding migrate_extent
      migrate_extent-Moves fname f snapshots e = Moves-if x _ (Moves-pure x) (
          Moves-bind x (Moves-gets x {g = λ d. d.file f}) λ v.
            Moves-bind x (Moves-try x (take_migrate_zone-Moves f v.lifetime _))
              (move_if_taken-Moves fname f e))

      migrate_each-Moves :
          (fname : List ℕ) (f : ℕ) (snapshots : List ZoneExtentSnapshot) (es : List ZoneExtent)
          → Moves x x (λ _. x) (migrate_each be env lib fps fname f snapshots es)
      unfolding migrate_each
      migrate_each-Moves fname f snapshots [] = Moves-pure x
      migrate_each-Moves fname f snapshots (e ∷ es) =
          Moves-bind x (migrate_extent-Moves fname f snapshots e) λ moved.
            Moves-bind x (Moves-if x _ (migrate_each-Moves fname f snapshots es) (Moves-pure x))
              λ rest. Moves-pure x

-- Where the policies over files leave the count of open zones alone and the backend's close never
-- fails, the count after the migration of a file's extents is that before it, whatever the outcome of the
-- copies and allocations; only a call that does not return, or that ends the program, is left out.
pub migrate_each-balanced :
    {B : Type 0} (be : Backend B) (env : Env B) (lib : Library) (fps : FilePolicies B)
    → ClosesZones be
    → KeepsTokens fps
    → (fname : List ℕ) (f : ℕ) (snapshots : List ZoneExtentSnapshot) (es : List ZoneExtent)
    → (d : Device B)
    → Ended d.open_io_zones
        (λ _. d.open_io_zones)
        (migrate_each be env lib fps fname f snapshots es d)
migrate_each-balanced be env lib fps closes kt fname f snapshots es d =
    (migrate_each-Moves be closes d.open_io_zones env lib fps kt fname f snapshots es).run d refl
