-- ===== src/Fs/Rename.antt =====
-- fs/fs_zenfs.cc, `RenameFileNoLock` of a file that `ZenFS` has: what becomes of the names.
use zenfs_modified.Base.{ℕ, ◌≡◌, false, none, some, List, [], ◌∷◌, ◌++◌, ◌⊎◌, if◌then◌else◌}
use zenfs_modified.Store.{Backend, M, point_at}
use zenfs_modified.Codec.{Coding}
use zenfs_modified.MetaLog.{Checksum}
use zenfs_modified.Files.{eq_name}
use zenfs_modified.Fs.FileMap.{lookup, insert_file, erase_file}
use zenfs_modified.Fs.Calls.{Env}
use zenfs_modified.Fs.Agree.{Names}
use zenfs_modified.Fs.Persist.{sync_file_metadata_no_lock}
use zenfs_modified.Fs.Safe.{EndedWell, EndedBadly, Safe}
use zenfs_modified.Fs.Delete.{Without, AsBefore}

-- The map with a file under a new name in place of an old one.
abbrev pub Moved : List ℕ → List ℕ → ℕ → Names → List (List ℕ × ℕ) → Type 0
Moved source dest f N fs =
    (m : List ℕ)
    → lookup m fs
      ≡ (if eq_name dest m then some f else if eq_name source m then none else lookup m N.0)

abbrev moved_map : List ℕ → List ℕ → ℕ → List (List ℕ × ℕ) → List (List ℕ × ℕ)
moved_map source dest f fs = insert_file dest f (erase_file source fs)

-- The names once a file's link is renamed and the map has the new name in place of the old one.
abbrev moved : Names → List ℕ → List ℕ → ℕ → List (List ℕ) → Names
moved N source dest f ms = (moved_map source dest f N.0, point_at N.1 f (ms ++ dest ∷ []))

module _ (c : Coding) (k : Checksum) {B : Type 0} (be : Backend B) (env : Env B) where
  -- The sync of the file's record.
  abbrev pub sync : ℕ → M B (Unit {0})
  sync f = sync_file_metadata_no_lock c k be env.now f false

  -- After a rename whose record was written, or after one that is taken back.
  abbrev pub Renamed : List ℕ → List ℕ → ℕ → Names → List (List ℕ × ℕ) → Type 0
  Renamed source dest f N fs =
      (Moved source dest f N fs × EndedWell (sync f) (Moved source dest f N))
      ⊎ (AsBefore N fs × EndedBadly (sync f) (Moved source dest f N))

  -- Without the name that the rename goes over.
  abbrev pub Renaming : List ℕ → List ℕ → ℕ → Names → List (List ℕ × ℕ) → Type 0
  Renaming source dest f N fs =
      (Moved source dest f N fs × EndedWell (sync f) (Moved source dest f N))
      ⊎ (Without dest N fs × EndedBadly (sync f) (Moved source dest f N))

  abbrev pub Failed : List ℕ → Names → List (List ℕ × ℕ) → Type 0
  Failed dest N fs = AsBefore N fs ⊎ Without dest N fs
