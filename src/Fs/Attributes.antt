-- ===== src/Fs/Attributes.antt =====
-- fs/fs_zenfs.cc: the calls that read what is known of a file, and the number of its links.
use zenfs_modified.Base.{
  ℕ, suc, ◌%◌, ◌≡◌, Bool, Option, none, some, List, [], ◌∷◌, ◌⊎◌, inl, inr, if◌then◌else◌, ◌==◌,
  length,
}
use zenfs_modified.Base.Words.{u32_mod}
use zenfs_modified.Store.{Error, ok, err, M, ◌>>=◌, gets}
use zenfs_modified.Fs.FileMap.{lookup}
use zenfs_modified.Fs.Calls.{Env, format_path_lexically, get_file_no_lock, to_aux_path}

-- What the auxiliary file system tells of a path: an error, or the answer.
pub record AuxReads (B : Type 0) : Type 0 where
  pub size_aux : List ℕ → B → (Error ⊎ ℕ) × B
  pub time_aux : List ℕ → B → (Error ⊎ ℕ) × B
  pub links_aux : List ℕ → B → (Error ⊎ ℕ) × B
  pub same_aux : List ℕ → List ℕ → B → (Error ⊎ Bool) × B

module _ {B A : Type 0} where
  abbrev pub told : (Error ⊎ A) × B → M B A
  told (inl e, b) d = err e (record d { backend = b })
  told (inr a, b) d = ok a (record d { backend = b })

  unfoldable pub read_aux : (B → (Error ⊎ A) × B) → M B A
  read_aux op d = told (op d.backend) d

module _ {B : Type 0} (env : Env B) (aux : AuxReads B) where
  abbrev pub size_of : List ℕ → Option ℕ → M B ℕ
  size_of f none = to_aux_path f >>= λ path. read_aux (aux.size_aux path)
  size_of f (some p) = gets (λ d. (d.file p).file_size)

  -- `GetFileSize`
  unfoldable pub get_file_size : List ℕ → M B ℕ
  get_file_size filename =
      let f = format_path_lexically env filename in gets (λ d. lookup f d.fs.files) >>= size_of f

  abbrev pub time_of : List ℕ → Option ℕ → M B ℕ
  time_of f none = to_aux_path f >>= λ path. read_aux (aux.time_aux path)
  time_of f (some p) = gets (λ d. (d.file p).m_time)

  -- `GetFileModificationTime`
  unfoldable pub get_file_modification_time : List ℕ → M B ℕ
  get_file_modification_time filename =
      let f = format_path_lexically env filename in gets (λ d. lookup f d.fs.files) >>= time_of f

  abbrev pub links_of : List ℕ → Option ℕ → M B ℕ
  links_of fname none = to_aux_path fname >>= λ path. read_aux (aux.links_aux path)
  links_of fname (some p) = gets (λ d. length (d.file p).linkfiles % u32_mod)

  -- `NumFileLinks`; `GetNrLinks` gives 32 bits.
  unfoldable pub num_file_links : List ℕ → M B ℕ
  num_file_links file =
      let fname = format_path_lexically env file in get_file_no_lock env fname >>= links_of fname

  abbrev pub same_of : List ℕ → List ℕ → Option ℕ → Option ℕ → M B Bool
  same_of fname link (some p) (some q) = gets (λ d. (d.file p).file_id == (d.file q).file_id)
  same_of fname link none o = read_aux (aux.same_aux fname link)
  same_of fname link (some p) none = read_aux (aux.same_aux fname link)

  -- `AreFilesSame`; the auxiliary file system is asked for the paths as they are.
  unfoldable pub are_files_same : List ℕ → List ℕ → M B Bool
  are_files_same file linkf = do
    let fname = format_path_lexically env file
    let link = format_path_lexically env linkf
    src ← get_file_no_lock env fname
    dst ← get_file_no_lock env link
    same_of fname link src dst

-- The entries of the map for a file.
abbrev pub entries : ℕ → List (List ℕ × ℕ) → ℕ
entries f [] = 0
entries f ((n, g) ∷ rest) = if f == g then suc (entries f rest) else entries f rest

-- The map has each name once.
abbrev pub HasOnce : List (List ℕ × ℕ) → Type 0
HasOnce [] = Unit
HasOnce ((n, g) ∷ rest) = (lookup n rest ≡ none) × HasOnce rest

-- An erased entry is one entry less.
abbrev Shorter : List (List ℕ) → Option (List (List ℕ)) → Type 0
Shorter ns none = Unit
Shorter ns (some ms) = length ns ≡ suc (length ms)
