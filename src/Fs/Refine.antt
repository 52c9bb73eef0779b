-- ===== src/Fs/Refine.antt =====
-- fs/fs_zenfs.cc: deletions, links and renames, one after the other, as steps of an abstract space of
-- names: a function from names to files.
use zenfs_modified.Base.{
  ℕ, ◌≡◌, Bool, true, false, ◌⊎◌, [], ◌∷◌, Option, none, some, List, if◌then◌else◌,
}
use zenfs_modified.Store.{Backend, Device, Outcome, ok, err, M, after}
use zenfs_modified.Reclaim.{is_status}
use zenfs_modified.Codec.{Coding}
use zenfs_modified.MetaLog.{Checksum}
use zenfs_modified.Files.{eq_name}
use zenfs_modified.Fs.FileMap.{lookup}
use zenfs_modified.Fs.Calls.{
  Env, format_path_lexically, delete_file_no_lock, link_file, rename_found,
}
use zenfs_modified.Fs.Safe.{EndedWell, EndedBadly}
use zenfs_modified.Fs.Link.{sync}

abbrev pub NameSpace : Type 0
NameSpace = List ℕ → Option ℕ

-- The space with a name changed.
abbrev pub update : NameSpace → List ℕ → Option ℕ → NameSpace
update s x w m = if eq_name x m then w else s m

-- The space of a device's map.
abbrev pub space : {B : Type 0} → Device B → NameSpace
space d m = lookup m d.fs.files

-- The calls; the rename is that of a file that the map has under the source's name.
pub data Call : Type 0 where
  delete : List ℕ → Call
  link : List ℕ → List ℕ → Call
  rename : ℕ → List ℕ → List ℕ → Call

-- The call ends well, or with an error that it returns.
abbrev pub Returns : {B A : Type 0} → Outcome B A → Type 0
Returns (ok a d) = Unit {0}
Returns (err e d) = is_status e ≡ true

-- Whether it ends well.
abbrev pub is_ok : {B A : Type 0} → Outcome B A → Bool
is_ok (ok a d) = true
is_ok (err e d) = false

module _ (c : Coding) (k : Checksum) {B : Type 0} (be : Backend B) (env : Env B) where
  abbrev pub perform : Call → M B (Unit {0})
  perform (delete x) = delete_file_no_lock c k be env x
  perform (link file name) = link_file c k be env file name
  perform (rename f source dest) = rename_found c k be env f source dest

  -- The record of a file is synced where the map is that of a space: the sync ends well, or badly.
  abbrev pub IsSynced : ℕ → NameSpace → Type 0
  IsSynced f s = EndedWell (sync c k be env f) (λ fs. (m : List ℕ) → lookup m fs ≡ s m)

  abbrev pub IsUnsynced : ℕ → NameSpace → Type 0
  IsUnsynced f s = EndedBadly (sync c k be env f) (λ fs. (m : List ℕ) → lookup m fs ≡ s m)

  abbrev pub moved : NameSpace → List ℕ → List ℕ → ℕ → NameSpace
  moved s x y f = update (update s x none) y (some f)

  -- What a call does to the space, by the call and by whether it ends well. A link and a rename can end
  -- well without effect, or with the loss of the destination, after a sync that failed.
  pub data Step (s : NameSpace) : Call → Bool → NameSpace → Type 0 where
    removed : (x : List ℕ) → Step s (delete x) true (update s (format_path_lexically env x) none)
    linked :
        (x y : List ℕ) (f : ℕ)
        → s (format_path_lexically env x) ≡ some f
        → IsSynced f (update s (format_path_lexically env y) (some f))
        → Step s (link x y) true (update s (format_path_lexically env y) (some f))
    unlinked :
        (x y : List ℕ)
        → (s (format_path_lexically env x) ≡ none)
          ⊎ ((f : ℕ) × (s (format_path_lexically env x) ≡ some f)
              × IsUnsynced f (update s (format_path_lexically env y) (some f)))
        → Step s (link x y) true s
    renamed :
        (f : ℕ) (x y : List ℕ)
        → s x ≡ some f
        → IsSynced f (moved s x y f)
        → Step s (rename f x y) true (moved s x y f)
    unrenamed :
        (f : ℕ) (x y : List ℕ)
        → s x ≡ some f
        → IsUnsynced f (moved s x y f)
        → Step s (rename f x y) true (update s y none)
    refused : (call : Call) → Step s call false s
    half_renamed : (f : ℕ) (x y : List ℕ) → Step s (rename f x y) false (update s y none)

  -- The steps of a history, whose last call stands first.
  pub data Steps (s : NameSpace) : List (Call × Bool) → NameSpace → Type 0 where
    done : Steps s [] s
    also :
        {t u : NameSpace} {call : Call} {b : Bool} {h : List (Call × Bool)}
        → Steps s h t
        → Step t call b u
        → Steps s ((call, b) ∷ h) u

  -- What `RenameFileNoLock` has found before it renames.
  abbrev pub Allowed : Call → Device B → Type 0
  Allowed (rename f source dest) d =
      (format_path_lexically env dest ≡ dest) × (lookup source d.fs.files ≡ some f)
  Allowed _ d = Unit {0}

  -- The devices that calls which return lead to, with the calls and whether each ended well.
  pub data Runs (d : Device B) : List (Call × Bool) → Device B → Type 0 where
    start : Runs d [] d
    next :
        {e : Device B} {h : List (Call × Bool)}
        → Runs d h e
        → (call : Call) → Allowed call e
        → Returns (perform call e)
        → Runs d ((call, is_ok (perform call e)) ∷ h) (after (perform call e))
