-- ===== src/Fs/Delete.antt =====
-- fs/fs_zenfs.cc, `DeleteFileNoLock`: the map loses the name, or stays as it was when the deletion
-- could not be written; the names agree with the map either way.
use mathlib.Core.List.{append-nil}
use zenfs_modified.Base.{
  ℕ, ◌+◌, ◌≡◌, refl, sym, ap, ◌∙◌, subst, Bool, true, false, Bool-cases, Option, none, some, List,
  [], ◌++◌, inl, inr, if◌then◌else◌, ltb, length, arith,
}
use zenfs_modified.Store.{Backend, Device, Error, ◌>>=◌, ◌>>◌, pure, point_at}
use zenfs_modified.Store.Frame.{Keeps-pure}
use zenfs_modified.Reclaim.Frame.{Keeps-rethrow}
use zenfs_modified.Reclaim.Quiet.{Quiet, Quiet-pure, quiet_rules}
use zenfs_modified.Codec.{Coding}
use zenfs_modified.MetaLog.{Checksum}
use zenfs_modified.Levels.{remove_zone_file_record}
use zenfs_modified.Files.{eq_name, erase_name}
use zenfs_modified.Files.Names.{eq_name-same, eq_name_self}
use zenfs_modified.Fs.FileMap.{lookup, insert_file, erase_file}
use zenfs_modified.Fs.Calls.{
  Env, format_path_lexically, get_file_no_lock, call_aux, to_aux_path, set_deleted, deletion_status,
  delete_name, delete_found, delete_file_no_lock,
}
use zenfs_modified.Fs.NameFrame.{names_of, KeepsNames, put_same, persist_record-KeepsNames}
use zenfs_modified.Fs.Agree.{
  Names, Agrees, Taken, count, held_as-held, erase_name-Taken, take-Agrees, give-Agrees,
  lookup-erase_file, lookup-insert_file,
}
use zenfs_modified.Fs.Safe.{
  Safe, Safe-bind, Safe-then, Safe-kept, Safe-gets, Safe-mono, Safe-look, Safe-tried, Safe-fail,
  Safe-at,
}
use zenfs_modified.Fs.LinkSafe.{
  erase_name_of-Safe, put_name-Safe, add_link_name-Safe, remove_link_name-Safe,
}
use zenfs_modified.Fs.HoldSafe.{Left, Same, unchanged, holding-Safe}

-- What the source relies on in `lexically_normal`: a path that is normal stays as it is.
pub record PathLaws {B : Type 0} (env : Env B) : Type 0 where
  pub again :
      (p : List ℕ)
      → format_path_lexically env (format_path_lexically env p) ≡ format_path_lexically env p

-- The map without a name, and the map as it was.
abbrev pub Without : List ℕ → Names → List (List ℕ × ℕ) → Type 0
Without x N fs = (m : List ℕ) → lookup m fs ≡ (if eq_name x m then none else lookup m N.0)

abbrev pub AsBefore : Names → List (List ℕ × ℕ) → Type 0
AsBefore N fs = (m : List ℕ) → lookup m fs ≡ lookup m N.0

-- A name that the map has for a file is one of the file's.
abbrev Split : List ℕ → List (List ℕ) → Type 0
Split x ns = (ms : List (List ℕ)) × (erase_name x ns ≡ some ms) × Taken x ns (some (ms ++ []))

Split-some :
    (x : List ℕ) (ns : List (List ℕ)) (o : Option (List (List ℕ)))
    → erase_name x ns ≡ o
    → Taken x ns o
    → count x ns ≡ 1
    → Split x ns
Split-some x ns none e t c = absurd (omega (arith, t, c))
Split-some x ns (some ms) e t c = (ms, e, subst (λ l. Taken x ns (some l)) (sym (append-nil ms)) t)

pub listed : (N : Names) (x : List ℕ) (f : ℕ) → Agrees N → lookup x N.0 ≡ some f → Split x (N.1 f)
listed N x f a here =
    Split-some x (N.1 f) (erase_name x (N.1 f)) refl (erase_name-Taken x (N.1 f))
      (a f x ∙ held_as-held x f (lookup x N.0) here)

unsplit :
    (x : List ℕ) (ns : List (List ℕ)) (o : Option (List (List ℕ)))
    → erase_name x ns ≡ o
    → Taken x ns o
    → count x ns ≡ 0
    → erase_name x ns ≡ none
unsplit x ns none e t c = e
unsplit x ns (some ms) e t c =
    let one : count x ns ≡ count x ms + 1 = t x ∙ rw (eq_name_self x) in
    absurd (omega (arith, one, c))

pub unlisted :
    (N : Names) (x : List ℕ) (f : ℕ) → Agrees N → lookup x N.0 ≡ none → erase_name x (N.1 f) ≡ none
unlisted N x f a gone =
    unsplit x (N.1 f) (erase_name x (N.1 f)) refl (erase_name-Taken x (N.1 f)) (a f x ∙ rw gone)

-- The map and the links once a name is taken.
abbrev pub taken : Names → List ℕ → ℕ → List (List ℕ) → Names
taken N x f ms = (erase_file x N.0, point_at N.1 f (ms ++ []))

pub absent_erased : (x : List ℕ) (fs : List (List ℕ × ℕ)) → lookup x (erase_file x fs) ≡ none
absent_erased x fs = lookup-erase_file x x fs ∙ rw (eq_name_self x)

-- What is put back where it was taken is as before.
put_back :
    (N : Names) (x : List ℕ) (f : ℕ)
    → lookup x N.0 ≡ some f
    → AsBefore N (insert_file x f (erase_file x N.0))
put_back N x f here m =
    lookup-insert_file m x f (erase_file x N.0) (absent_erased x N.0)
    ∙ elim (Bool-cases (eq_name x m)) [
      | inl e ↦ rw e (sym (subst (λ y. lookup y N.0 ≡ some f) (eq_name-same x m e) here))
      | inr e ↦ rw e (lookup-erase_file m x N.0 ∙ rw e)
    ]

module _ {B : Type 0} where
  deleted_same :
      (d : Device B) (f : ℕ)
      → names_of (record d { file = point_at d.file f (record (d.file f) { is_deleted = true }) })
        ≡ names_of d
  deleted_same d f =
      ap (λ (l : ℕ → List (List ℕ)). (d.fs.files, l))
        (put_same d.file f (record (d.file f) { is_deleted = true }) refl)

  set_deleted-KeepsNames : (f : ℕ) → KeepsNames {B = B} (set_deleted f)
  unfolding set_deleted remove_zone_file_record ◌>>=◌ ◌>>◌
  set_deleted-KeepsNames f = record { same = λ d. deleted_same d f }

  set_deleted-Quiet : (f : ℕ) → Quiet {B = B} (set_deleted f)
  unfolding set_deleted remove_zone_file_record
  set_deleted-Quiet f = search quiet_rules

  pub call_aux-KeepsNames : (op : B → Option Error × B) → KeepsNames (call_aux op)
  unfolding call_aux
  call_aux-KeepsNames op = record {
    same = λ d.
        (Keeps-rethrow {f = names_of} (op d.backend).0).same
          (record d { backend = (op d.backend).1 });
  }

  kept_if :
      {E : Names → Type 0} (N : Names) (f : ℕ) (b : Bool)
      → Agrees N
      → Safe N (if b then pure tt else set_deleted {B = B} f) E (λ _. Same N)
  kept_if N f true a = unchanged a Keeps-pure Quiet-pure
  kept_if N f false a = unchanged a (set_deleted-KeepsNames f) (set_deleted-Quiet f)

module _ (c : Coding) (k : Checksum) {B : Type 0} (be : Backend B) (env : Env B) where
  -- From the names with the name taken.
  module _ (N : Names) (x : List ℕ) (f : ℕ) (here : lookup x N.0 ≡ some f) (ms : List (List ℕ))
      (a : Agrees (taken N x f ms)) where
    deletion_status-Safe :
        (s : Option Error)
        → Safe
            (taken N x f ms)
            (deletion_status c k be env x f s)
            (Left (AsBefore N))
            (λ _. Left (Without x N))
    unfolding deletion_status
    deletion_status-Safe none = Safe-bind Safe-look (λ v K p. Safe-at p (
        Safe-mono (λ L q. q) (λ _ L q. ((λ m. ap (lookup m) q.0 ∙ lookup-erase_file m x N.0), q.1))
          (kept_if (taken N x f ms) f (ltb 0 (length v.linkfiles)) a)))
    deletion_status-Safe (some e) = Safe-then (put_name-Safe (taken N x f ms) x f) (λ _ K p.
        Safe-at p (
          Safe-then
            (add_link_name-Safe (insert_file x f (erase_file x N.0), (taken N x f ms).1) f x)
            (λ _ L q. Safe-at q (
              Safe-fail e
                (put_back N x f here, give-Agrees (taken N x f ms) x f a (absent_erased x N.0))))))

  delete_name-Safe :
      (N : Names) (x : List ℕ) (f : ℕ)
      → Agrees N
      → lookup x N.0 ≡ some f
      → Safe N (delete_name c k be env x f) (Left (AsBefore N)) (λ _. Left (Without x N))
  unfolding delete_name
  delete_name-Safe N x f a here =
      let l = listed N x f a here in
      let b = take-Agrees N x f (l.0 ++ []) a here l.2 in
      Safe-then (erase_name_of-Safe N x) (λ _ K p. Safe-at p (
        Safe-then (remove_link_name-Safe (erase_file x N.0, N.1) f x l.0 l.1) (λ _ K p. Safe-at p (
          Safe-bind Safe-look (λ v K p. Safe-at p (
            Safe-bind (Safe-tried (persist_record-KeepsNames be c k _))
              (λ s K p. Safe-at p (deletion_status-Safe N x f here l.0 b s))))))))

  delete_found-Safe :
      (N : Names) (x : List ℕ) (o : Option ℕ)
      → Agrees N
      → lookup x N.0 ≡ o
      → Safe N (delete_found c k be env x o) (Left (AsBefore N)) (λ _. Left (Without x N))
  unfolding delete_found to_aux_path
  delete_found-Safe N x none a missing = Safe-bind Safe-look (λ path K p. Safe-at p (
      Safe-mono (λ L q. q)
        (λ _ L q. (
          (λ m. ap (λ (y : Names). lookup m y.0) q ∙ elim (Bool-cases (eq_name x m)) [
            | inl e ↦ rw e (subst (λ y. lookup y N.0 ≡ none) (eq_name-same x m e) missing)
            | inr e ↦ rw e
          ]),
          subst Agrees (sym q) a,
        ))
        (Safe-kept ((λ m. refl), a) (call_aux-KeepsNames (env.delete_aux path)))))
  delete_found-Safe N x (some f) a here =
      holding-Safe (Without x N) (AsBefore N) N f (delete_name-Safe N x f a here)

  pub delete_file_no_lock-Safe :
      (N : Names) (x : List ℕ)
      → PathLaws env
      → Agrees N
      → Safe N
          (delete_file_no_lock c k be env x)
          (Left (AsBefore N))
          (λ _. Left (Without (format_path_lexically env x) N))
  unfolding delete_file_no_lock get_file_no_lock
  delete_file_no_lock-Safe N x laws a =
      Safe-gets
        (λ (K : Names). lookup (format_path_lexically env (format_path_lexically env x)) K.0) _
        (delete_found-Safe N (format_path_lexically env x) _ a
          (ap (λ y. lookup y N.0) (sym (laws.again x))))
