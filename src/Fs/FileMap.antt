-- ===== src/Fs/FileMap.antt =====
-- fs/fs_zenfs.h, the member `files_` of `ZenFS`: a map from names to files, in the names' order. A
-- name has no zero byte.
use zenfs_modified.Base.{
  ℕ, Bool, true, false, Option, none, some, List, [], ◌∷◌, ltb, ◌==◌, if◌then◌else◌,
}
use zenfs_modified.Files.{eq_name}

-- The order of the names' bytes.
abbrev pub ltb_name : List ℕ → List ℕ → Bool
ltb_name [] [] = false
ltb_name [] (y ∷ ys) = true
ltb_name (x ∷ xs) [] = false
ltb_name (x ∷ xs) (y ∷ ys) = if x == y then ltb_name xs ys else ltb x y

-- `files_.find`
unfoldable pub lookup : List ℕ → List (List ℕ × ℕ) → Option ℕ
lookup name [] = none
lookup name ((n, f) ∷ rest) = if eq_name name n then some f else lookup name rest

-- `files_.insert`, which leaves a name that is there.
unfoldable pub insert_file : List ℕ → ℕ → List (List ℕ × ℕ) → List (List ℕ × ℕ)
insert_file name f [] = (name, f) ∷ []
insert_file name f ((n, g) ∷ rest) =
    if eq_name name n
    then (n, g) ∷ rest
    else if ltb_name name n
    then (name, f) ∷ ((n, g) ∷ rest)
    else (n, g) ∷ insert_file name f rest

-- `files_.erase`
unfoldable pub erase_file : List ℕ → List (List ℕ × ℕ) → List (List ℕ × ℕ)
erase_file name [] = []
erase_file name ((n, f) ∷ rest) =
    if eq_name name n then erase_file name rest else (n, f) ∷ erase_file name rest
