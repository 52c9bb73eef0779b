-- ===== src/Fs/NameFrame.antt =====
-- The calls that write records and move zones leave the names of the files as they were.
use zenfs_modified.Base.{
  ℕ, zero, suc, ◌≡◌, refl, ap, ◌∙◌, fun_ext, inl, inr, Bool, Bool-cases, Option, none, some, List,
  [], ◌∷◌, ◌==◌, length, arith,
}
use zenfs_modified.Store.{
  ZoneFile, Zone, Backend, Device, Error, corruption, no_space, io_error, invalid_argument,
  not_supported, not_found, aborted, assertion, fault, blocked, pure, fail, M, ok, put_zone,
  point_at, after,
}
use zenfs_modified.Store.Frame.{Keeps, Keeps-pure, Keeps-fail, Keeps-then, frame_rules}
use zenfs_modified.Zones.{
  acquire, release, check_release, ask, replied, command, reset, finish, append, append_loop,
  add_bytes_written,
}
use zenfs_modified.Select.Frame.{find_zone-Keeps}
use zenfs_modified.Reclaim.{reset_or_skip, try_meta_zone, allocate_meta_zone}
use zenfs_modified.Reclaim.Frame.{Keeps-attempt, Keeps-rethrow}
use zenfs_modified.Codec.{Coding}
use zenfs_modified.Superblock.{encode_superblock, put_superblock, renumbered, encoded_size}
use zenfs_modified.MetaLog.{Checksum, add_record}
use zenfs_modified.Fs.Persist.{
  metadata_synced, each_synced, set_meta_log, set_modification_time, write_snapshot_locked,
  write_end_record, end_old_log, superblock_status, snapshot_status, write_new_log, swap_logs,
  roll_to, roll_meta_zone_locked, roll_if_full, persist_in, persist_record,
  sync_file_metadata_no_lock,
}

-- A write to a file that leaves its names.
pub put_same :
    (h : ℕ → ZoneFile) (f : ℕ) (v : ZoneFile)
    → v.linkfiles ≡ (h f).linkfiles
    → ◌≡◌ {A = ℕ → List (List ℕ)} (λ g. (point_at h f v g).linkfiles) (λ g. (h g).linkfiles)
put_same h f v e = fun_ext (λ g. elim (Bool-cases (f == g)) [
  | inl t ↦ let same : f ≡ g = ground arith in rw t (e ∙ ap (λ p. (h p).linkfiles) same)
  | inr t ↦ rw t
])

module _ {B : Type 0} where
  -- The map of names, and the names that each file has.
  abbrev pub names_of : Device B → List (List ℕ × ℕ) × (ℕ → List (List ℕ))
  names_of d = (d.fs.files, λ f. (d.file f).linkfiles)

  abbrev pub KeepsNames : {A : Type 0} → M B A → Type 0
  KeepsNames m = Keeps names_of m

  pub put_zone-KeepsNames : (z : ℕ) (v : Zone) → KeepsNames (put_zone z v)
  put_zone-KeepsNames z v = record { same = λ d. refl }

  pub put_file-KeepsNames :
      (f : ℕ) (g : Device B → ZoneFile)
      → ((d : Device B) → (g d).linkfiles ≡ (d.file f).linkfiles)
      → KeepsNames (λ d. ok tt (record d { file = point_at d.file f (g d) }))
  put_file-KeepsNames f g e = record {
    same = λ d. ap (λ (l : ℕ → List (List ℕ)). (d.fs.files, l)) (put_same d.file f (g d) (e d));
  }

  acquire-KeepsNames : (z : ℕ) → KeepsNames (acquire z)
  unfolding acquire
  acquire-KeepsNames z = search frame_rules

  release-KeepsNames : (z : ℕ) → KeepsNames (release z)
  unfolding release
  release-KeepsNames z = search frame_rules

  check_release-KeepsNames : (z : ℕ) → KeepsNames (check_release z)
  unfolding check_release release
  check_release-KeepsNames z = search frame_rules depth 8

  replied-same :
      {A : Type 0} (r : Option A × B) (d : Device B) → names_of (after (replied r d)) ≡ names_of d
  replied-same (none, b) d = refl
  replied-same (some a, b) d = refl

  ask-KeepsNames : {A : Type 0} (op : B → Option A × B) → KeepsNames (ask op)
  unfolding ask
  ask-KeepsNames op = record { same = λ d. replied-same (op d.backend) d }

  command-KeepsNames : (op : B → Bool × B) → KeepsNames (command op)
  unfolding command
  command-KeepsNames op = record {
    same = λ d. elim (Bool-cases (op d.backend).0) [ inl e ↦ rw e refl | inr e ↦ rw e refl ];
  }

  written-KeepsNames : (n : ℕ) → KeepsNames {A = Unit {0}} (add_bytes_written n)
  unfolding add_bytes_written
  written-KeepsNames n = record { same = λ d. refl }

  metadata_synced-KeepsNames : (f : ℕ) → KeepsNames (metadata_synced f)
  unfolding metadata_synced
  metadata_synced-KeepsNames f = put_file-KeepsNames f _ (λ d. refl)

  each_synced-KeepsNames : (files : List (List ℕ × ℕ)) → KeepsNames (each_synced files)
  unfolding each_synced
  each_synced-KeepsNames [] = Keeps-pure
  each_synced-KeepsNames ((n, f) ∷ rest) =
      Keeps-then (metadata_synced-KeepsNames f) (each_synced-KeepsNames rest)

  set_meta_log-KeepsNames : (log : Option ℕ) → KeepsNames (set_meta_log log)
  unfolding set_meta_log
  set_meta_log-KeepsNames log = record { same = λ d. refl }

  pub time-KeepsNames : (now : B → ℕ × B) (f : ℕ) → KeepsNames (set_modification_time now f)
  unfolding set_modification_time
  time-KeepsNames now f = record {
    same = λ d.
        ap (λ (l : ℕ → List (List ℕ)). (d.fs.files, l))
          (put_same d.file f (record (d.file f) { m_time = (now d.backend).0 }) refl);
  }

  found-KeepsNames :
      (hit : Option ℕ) → KeepsNames {A = ℕ} (elim hit [ none ↦ fail no_space | some z ↦ pure z ])
  found-KeepsNames none = Keeps-fail
  found-KeepsNames (some z) = Keeps-pure

  module _ (be : Backend B) where
    reset-KeepsNames : (z : ℕ) → KeepsNames (reset be z)
    unfolding reset
    reset-KeepsNames z = search (ask-KeepsNames, frame_rules) depth 8

    finish-KeepsNames : (z : ℕ) → KeepsNames (finish be z)
    unfolding finish
    finish-KeepsNames z = search (command-KeepsNames, frame_rules) depth 8

    append_loop-KeepsNames :
        (fuel z : ℕ) (data_ : List ℕ) (left : ℕ) → KeepsNames (append_loop be fuel z data_ left)
    unfolding append_loop
    append_loop-KeepsNames zero z data_ left = search frame_rules
    append_loop-KeepsNames (suc fuel) z data_ left =
        let rest = append_loop-KeepsNames fuel z in
        search (rest, ask-KeepsNames, written-KeepsNames, frame_rules) depth 8

    append-KeepsNames : (z : ℕ) (data_ : List ℕ) (size : ℕ) → KeepsNames (append be z data_ size)
    unfolding append
    append-KeepsNames z data_ size = search (append_loop-KeepsNames, frame_rules) depth 8

    skip-KeepsNames : (z : ℕ) (e : Option Error) → KeepsNames (reset_or_skip z e)
    unfolding reset_or_skip
    skip-KeepsNames z none = Keeps-pure
    skip-KeepsNames z (some e) = search (check_release-KeepsNames, frame_rules)

    try_meta_zone-KeepsNames : (z : ℕ) → KeepsNames (try_meta_zone be z)
    unfolding try_meta_zone
    try_meta_zone-KeepsNames z =
        search (acquire-KeepsNames, Keeps-attempt, reset-KeepsNames, skip-KeepsNames, frame_rules)
          depth 10

    allocate_meta_zone-KeepsNames : KeepsNames (allocate_meta_zone be)
    unfolding allocate_meta_zone
    allocate_meta_zone-KeepsNames =
        search (find_zone-Keeps, try_meta_zone-KeepsNames, found-KeepsNames, frame_rules)

    module _ (c : Coding) (k : Checksum) where
      encode_superblock-KeepsNames : KeepsNames (encode_superblock c)
      unfolding encode_superblock
      encode_superblock-KeepsNames = record {
        same = λ d.
            elim (Bool-cases
              (length (put_superblock c (renumbered c d.fs.superblock)) == encoded_size)) [
                | inl e ↦ rw e refl
                | inr e ↦ rw e refl
              ];
      }

      add_record-KeepsNames : (z : ℕ) (data_ : List ℕ) → KeepsNames (add_record c k be z data_)
      unfolding add_record
      add_record-KeepsNames z data_ = search (append-KeepsNames, frame_rules)

      write_snapshot-KeepsNames : (z : ℕ) → KeepsNames (write_snapshot_locked c k be z)
      unfolding write_snapshot_locked
      write_snapshot-KeepsNames z =
          search (add_record-KeepsNames, each_synced-KeepsNames, frame_rules)

      end_old_log-KeepsNames : (old : ℕ) → KeepsNames (end_old_log c k be old)
      unfolding end_old_log write_end_record
      end_old_log-KeepsNames old =
          search (add_record-KeepsNames, finish-KeepsNames, Keeps-attempt, frame_rules) depth 9

      superblock_status-KeepsNames : (e : Option Error) → KeepsNames (superblock_status c k be e)
      superblock_status-KeepsNames none = Keeps-pure
      superblock_status-KeepsNames (some e) = Keeps-fail

      snapshot_status-KeepsNames :
          (old : ℕ) (e : Option Error) → KeepsNames (snapshot_status c k be old e)
      snapshot_status-KeepsNames old none = search (Keeps-attempt, reset-KeepsNames, frame_rules)
      snapshot_status-KeepsNames old (some e) = Keeps-fail

      write_new_log-KeepsNames : (new old : ℕ) → KeepsNames (write_new_log c k be new old)
      unfolding write_new_log
      write_new_log-KeepsNames new old =
          search
            (
              end_old_log-KeepsNames, encode_superblock-KeepsNames, add_record-KeepsNames,
              superblock_status-KeepsNames, write_snapshot-KeepsNames, snapshot_status-KeepsNames,
              Keeps-attempt, frame_rules,
            )
            depth 10

      swap_logs-KeepsNames : (new : ℕ) (old : Option ℕ) → KeepsNames (swap_logs c k be new old)
      unfolding swap_logs
      swap_logs-KeepsNames new none = Keeps-fail
      swap_logs-KeepsNames new (some old) =
          search
            (
              set_meta_log-KeepsNames, write_new_log-KeepsNames, release-KeepsNames, Keeps-attempt,
              Keeps-rethrow, frame_rules,
            )
            depth 9

      roll-KeepsNames : KeepsNames (roll_meta_zone_locked c k be)
      unfolding roll_meta_zone_locked roll_to
      roll-KeepsNames = search (allocate_meta_zone-KeepsNames, swap_logs-KeepsNames, frame_rules)

      roll_if_full-KeepsNames : (e : Option Error) → KeepsNames (roll_if_full c k be e)
      unfolding roll_if_full
      roll_if_full-KeepsNames none = Keeps-pure
      roll_if_full-KeepsNames (some no_space) = roll-KeepsNames
      roll_if_full-KeepsNames (some corruption) = Keeps-fail
      roll_if_full-KeepsNames (some io_error) = Keeps-fail
      roll_if_full-KeepsNames (some invalid_argument) = Keeps-fail
      roll_if_full-KeepsNames (some not_supported) = Keeps-fail
      roll_if_full-KeepsNames (some not_found) = Keeps-fail
      roll_if_full-KeepsNames (some aborted) = Keeps-fail
      roll_if_full-KeepsNames (some assertion) = Keeps-fail
      roll_if_full-KeepsNames (some fault) = Keeps-fail
      roll_if_full-KeepsNames (some blocked) = Keeps-fail

      persist_in-KeepsNames :
          (data_ : List ℕ) (log : Option ℕ) → KeepsNames (persist_in c k be data_ log)
      unfolding persist_in
      persist_in-KeepsNames data_ none = Keeps-fail
      persist_in-KeepsNames data_ (some z) =
          search (add_record-KeepsNames, roll_if_full-KeepsNames, Keeps-attempt, frame_rules)

      pub persist_record-KeepsNames : (data_ : List ℕ) → KeepsNames (persist_record c k be data_)
      unfolding persist_record
      persist_record-KeepsNames data_ = search (persist_in-KeepsNames, frame_rules)

      pub sync-KeepsNames :
          (now : B → ℕ × B) (f : ℕ) (replace : Bool)
          → KeepsNames (sync_file_metadata_no_lock c k be now f replace)
      unfolding sync_file_metadata_no_lock
      sync-KeepsNames now f replace =
          search
            (time-KeepsNames, persist_record-KeepsNames, metadata_synced-KeepsNames, frame_rules)
            depth 9
