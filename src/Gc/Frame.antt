-- ===== src/Gc/Frame.antt =====
-- The copy of an extent, the count of open zones and the errors that calls return.
use zenfs_modified.Base.{
  ℕ, zero, suc, ◌-◌, refl, Bool, true, false, Bool-cases, inl, inr, Option, none, some, List, [],
  ◌∷◌, ◌++◌, length,
}
use zenfs_modified.Base.Words.{add64}
use zenfs_modified.Store.{
  ReadReply, got_bytes, interrupted, read_failed, Zone, ZoneExtent, Backend, M, ok, err, Outcome,
  put_zone,
}
use zenfs_modified.Store.Frame.{
  Keeps, Keeps-then, Keeps-bind, Keeps-if, Keeps-pure, Keeps-fail, frame_rules,
}
use zenfs_modified.Zones.{append_loop, append, add_bytes_written}
use zenfs_modified.EmptyZones.OpenCount.{open_count, ask-Keeps}
use zenfs_modified.Reclaim.{attempt, is_status, status_of}
use zenfs_modified.Reclaim.Frame.{Keeps-attempt}
use zenfs_modified.Reclaim.Quiet.{Quiet, NoStatus, Quiet-then, Quiet-pure, quiet_rules}
use zenfs_modified.MetaLog.{ask_read, read_more, read_device_loop, read_device}
use zenfs_modified.Fs.Persist.{ignore}
use zenfs_modified.Gc.{write_read, migrate_loop, migrate_data, add_gc_bytes_written}
use zenfs_modified.Gc.Migrate.{copy_extent, use_zone}

module _ {B : Type 0} where
  NoStatus-status : {A : Type 0} (o : Outcome B A) → NoStatus (status_of o)
  NoStatus-status (ok a d) = tt
  NoStatus-status (err e d) = elim (Bool-cases (is_status e)) [ inl s ↦ rw s tt | inr s ↦ rw s s ]

  pub ignore-Quiet : (m : M B (Unit {0})) → Quiet (ignore m)
  unfolding attempt
  ignore-Quiet m = Quiet-then (record { quiet = λ d. NoStatus-status (m d) }) Quiet-pure

  pub ignore-Keeps : {m : M B (Unit {0})} → Keeps open_count m → Keeps open_count (ignore m)
  ignore-Keeps h = Keeps-then (Keeps-attempt h) Keeps-pure

  put_zone-Keeps : (z : ℕ) (v : Zone) → Keeps {B = B} open_count (put_zone z v)
  put_zone-Keeps z v = record { same = λ d. refl }

  bytes-Keeps : (n : ℕ) → Keeps {B = B} open_count (add_bytes_written n)
  unfolding add_bytes_written
  bytes-Keeps n = record { same = λ d. refl }

  gc_bytes-Keeps : (n : ℕ) → Keeps {B = B} open_count (add_gc_bytes_written n)
  unfolding add_gc_bytes_written
  gc_bytes-Keeps n = record { same = λ d. refl }

  gc_bytes-Quiet : (n : ℕ) → Quiet {B = B} (add_gc_bytes_written n)
  unfolding add_gc_bytes_written
  gc_bytes-Quiet n = record { quiet = λ d. tt }

  pub use_zone-Keeps : (z n : ℕ) → Keeps {B = B} open_count (use_zone z n)
  unfolding use_zone
  use_zone-Keeps z n = search (put_zone-Keeps, frame_rules)

  pub use_zone-Quiet : (z n : ℕ) → Quiet {B = B} (use_zone z n)
  unfolding use_zone
  use_zone-Quiet z n = search quiet_rules

module _ {B : Type 0} (be : Backend B) where
  append_loop-Keeps :
      (fuel z : ℕ) (data_ : List ℕ) (left : ℕ) → Keeps open_count (append_loop be fuel z data_ left)
  unfolding append_loop
  append_loop-Keeps zero z data_ left = search frame_rules
  append_loop-Keeps (suc fuel) z data_ left =
      let rest = append_loop-Keeps fuel z in
      search (rest, ask-Keeps, put_zone-Keeps, bytes-Keeps, frame_rules) depth 10

  append-Keeps : (z : ℕ) (data_ : List ℕ) (size : ℕ) → Keeps open_count (append be z data_ size)
  unfolding append
  append-Keeps z data_ size = search (append_loop-Keeps, frame_rules) depth 8

  ask_read-Keeps : (a n : ℕ) → Keeps open_count (ask_read be a n)
  unfolding ask_read
  ask_read-Keeps a n = record { same = λ d. refl }

  read_more-Keeps :
      (got : List ℕ) (again : M B (Option (List ℕ))) (more : List ℕ → M B (Option (List ℕ)))
      (reply : ReadReply)
      → Keeps open_count again
      → ((xs : List ℕ) → Keeps open_count (more xs))
      → Keeps open_count (read_more be got again more reply)
  read_more-Keeps got again more read_failed a h = Keeps-pure
  read_more-Keeps got again more interrupted a h = a
  read_more-Keeps got again more (got_bytes []) a h = Keeps-pure
  read_more-Keeps got again more (got_bytes (x ∷ xs)) a h = h (x ∷ xs)

  read_device_loop-Keeps :
      (fuel a left : ℕ) (got : List ℕ) → Keeps open_count (read_device_loop be fuel a left got)
  unfolding read_device_loop
  read_device_loop-Keeps zero a left got = search frame_rules
  read_device_loop-Keeps (suc fuel) a left got = Keeps-if _ Keeps-pure (
      Keeps-bind (ask_read-Keeps a left) λ reply.
        read_more-Keeps got _ _ reply (read_device_loop-Keeps fuel a left got)
          λ xs. read_device_loop-Keeps fuel (add64 a (length xs)) (left - length xs) (got ++ xs))

  read_device-Keeps : (a n : ℕ) → Keeps open_count (read_device be a n)
  unfolding read_device
  read_device-Keeps a n = search (read_device_loop-Keeps, frame_rules) depth 8

  write_read-Keeps :
      (target : ℕ) (more : List ℕ → M B (Unit {0})) (reply : Option (List ℕ))
      → ((bytes : List ℕ) → Keeps open_count (more bytes))
      → Keeps open_count (write_read be target more reply)
  write_read-Keeps target more none h = Keeps-fail
  write_read-Keeps target more (some bytes) h =
      Keeps-then (ignore-Keeps (append-Keeps target bytes (length bytes))) (h bytes)

  migrate_loop-Keeps :
      (fuel target offset left size : ℕ)
      → Keeps open_count (migrate_loop be fuel target offset left size)
  unfolding migrate_loop
  migrate_loop-Keeps zero target offset left size = search frame_rules
  migrate_loop-Keeps (suc fuel) target offset left size =
      let rest = migrate_loop-Keeps fuel target in
      search (rest, read_device-Keeps, write_read-Keeps, frame_rules) depth 10

  migrate_data-Keeps :
      (target offset size : ℕ) → Keeps open_count (migrate_data be target offset size)
  unfolding migrate_data
  migrate_data-Keeps target offset size = search (migrate_loop-Keeps, frame_rules) depth 8

  pub copy_extent-Keeps :
      (sparse : Bool) (e : ZoneExtent) (z wp : ℕ) → Keeps open_count (copy_extent be sparse e z wp)
  unfolding copy_extent
  copy_extent-Keeps true e z wp =
      search (ignore-Keeps, migrate_data-Keeps, gc_bytes-Keeps, frame_rules) depth 8
  copy_extent-Keeps false e z wp =
      search (ignore-Keeps, migrate_data-Keeps, gc_bytes-Keeps, frame_rules) depth 8

  pub copy_extent-Quiet :
      (sparse : Bool) (e : ZoneExtent) (z wp : ℕ) → Quiet (copy_extent be sparse e z wp)
  unfolding copy_extent
  copy_extent-Quiet true e z wp = search (ignore-Quiet, gc_bytes-Quiet, quiet_rules) depth 8
  copy_extent-Quiet false e z wp = search (ignore-Quiet, gc_bytes-Quiet, quiet_rules) depth 8
