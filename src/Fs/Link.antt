-- ===== src/Fs/Link.antt =====
-- fs/fs_zenfs.cc, `LinkFile`: what becomes of the names, and of a link that could not be written.
use zenfs_modified.Base.{
  ℕ, ◌≡◌, sym, ◌∙◌, subst, false, Bool-cases, none, some, List, [], ◌∷◌, ◌++◌, ◌⊎◌, inl, inr,
  if◌then◌else◌,
}
use zenfs_modified.Store.{Backend, M, point_at}
use zenfs_modified.Codec.{Coding}
use zenfs_modified.MetaLog.{Checksum}
use zenfs_modified.Files.{eq_name}
use zenfs_modified.Files.Names.{eq_name-same, eq_name_self}
use zenfs_modified.Fs.FileMap.{lookup, insert_file, erase_file}
use zenfs_modified.Fs.Calls.{Env}
use zenfs_modified.Fs.Agree.{Names, lookup-erase_file, lookup-insert_file}
use zenfs_modified.Fs.Persist.{sync_file_metadata_no_lock}
use zenfs_modified.Fs.Safe.{EndedWell, EndedBadly, Safe}
use zenfs_modified.Fs.Delete.{AsBefore}

-- The map with a name more.
abbrev pub With : List ℕ → ℕ → Names → List (List ℕ × ℕ) → Type 0
With x f N fs = (m : List ℕ) → lookup m fs ≡ (if eq_name x m then some f else lookup m N.0)

-- The names once a link is given.
abbrev pub given : Names → List ℕ → ℕ → Names
given N x f = (insert_file x f N.0, point_at N.1 f (N.1 f ++ x ∷ []))

-- Given and taken again.
pub given_back :
    (N : Names) (x : List ℕ) (f : ℕ)
    → lookup x N.0 ≡ none
    → AsBefore N (erase_file x (insert_file x f N.0))
given_back N x f free m =
    lookup-erase_file m x (insert_file x f N.0) ∙ elim (Bool-cases (eq_name x m)) [
      | inl e ↦ rw e (sym (subst (λ y. lookup y N.0 ≡ none) (eq_name-same x m e) free))
      | inr e ↦ rw e (lookup-insert_file m x f N.0 free ∙ rw e)
    ]

pub given_there :
    (N : Names) (x : List ℕ) (f : ℕ) → lookup x N.0 ≡ none → lookup x (insert_file x f N.0) ≡ some f
given_there N x f free = lookup-insert_file x x f N.0 free ∙ rw (eq_name_self x)

module _ (c : Coding) (k : Checksum) {B : Type 0} (be : Backend B) (env : Env B) where
  -- The sync of the file's record, at the map with the link.
  abbrev pub sync : ℕ → M B (Unit {0})
  sync f = sync_file_metadata_no_lock c k be env.now f false

  -- After a link, or after one that is taken back.
  abbrev pub Linked : List ℕ → ℕ → Names → List (List ℕ × ℕ) → Type 0
  Linked x f N fs =
      (With x f N fs × EndedWell (sync f) (With x f N))
      ⊎ (AsBefore N fs × EndedBadly (sync f) (With x f N))

  -- What a call of `LinkFile` that ends well leaves.
  abbrev pub Linking : List ℕ → List ℕ → Names → List (List ℕ × ℕ) → Type 0
  Linking fname lname N fs =
      ((f : ℕ) × (lookup fname N.0 ≡ some f)
        × With lname f N fs
        × EndedWell (sync f) (With lname f N))
      ⊎ (AsBefore N fs
          × ((lookup fname N.0 ≡ none)
              ⊎ ((f : ℕ) × (lookup fname N.0 ≡ some f) × EndedBadly (sync f) (With lname f N))))
