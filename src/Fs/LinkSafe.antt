-- ===== src/Fs/LinkSafe.antt =====
-- What the changes of names and of a file's links do to the names, as triples.
use zenfs_modified.Base.{
  ℕ, ◌≡◌, sym, ap, ◌∙◌, subst, fun_ext, Bool-cases, Option, none, some, List, [], ◌∷◌, ◌++◌, inl,
  inr, ◌==◌, ltb, length,
}
use zenfs_modified.Store.{ZoneFile, Device, ◌>>=◌, point_at}
use zenfs_modified.Files.{erase_name, add_link_name, put_names, rename_link, remove_link_name}
use zenfs_modified.Fs.FileMap.{insert_file, erase_file}
use zenfs_modified.Fs.Calls.{put_name, erase_name_of}
use zenfs_modified.Fs.NameFrame.{names_of}
use zenfs_modified.Fs.Agree.{Names}
use zenfs_modified.Fs.Safe.{Safe, Ends}

pub links_put :
    (h : ℕ → ZoneFile) (f : ℕ) (v : ZoneFile)
    → ◌≡◌ {A = ℕ → List (List ℕ)}
        (λ g. (point_at h f v g).linkfiles)
        (point_at (λ p. (h p).linkfiles) f v.linkfiles)
links_put h f v = fun_ext (λ g. elim (Bool-cases (f == g)) [ inl t ↦ rw t | inr t ↦ rw t ])

module _ {B : Type 0} where
  -- The names after new links are written to a file.
  pub links_written :
      (N : Names) (f : ℕ) (v : ZoneFile) (d : Device B)
      → names_of d ≡ N
      → names_of (record d { file = point_at d.file f v }) ≡ (N.0, point_at N.1 f v.linkfiles)
  links_written N f v d e =
      ap (λ (l : ℕ → List (List ℕ)). (d.fs.files, l)) (links_put d.file f v)
      ∙ ap (λ (K : Names). (K.0, point_at K.1 f v.linkfiles)) e

  put_names-Ends :
      (E : Names → Type 0) (N : Names) (f : ℕ) (more ns : List (List ℕ))
      (o : Option (List (List ℕ))) (d : Device B)
      → names_of d ≡ N
      → o ≡ some ns
      → Ends E
          (λ (_ : Unit {0}) N'. N' ≡ (N.0, point_at N.1 f (ns ++ more)))
          (put_names f (d.file f) more o d)
  put_names-Ends E N f more ns none d e s = cc
  put_names-Ends E N f more ns (some ms) d e s =
      let same : ms ≡ ns = cc in
      links_written N f (record (d.file f) { linkfiles = ms ++ more }) d e
      ∙ ap (λ (l : List (List ℕ)). (N.0, point_at N.1 f (l ++ more))) same

  put_names-Missing :
      (E : Names → Type 0) (N : Names) (f : ℕ) (v : ZoneFile) (more : List (List ℕ))
      (o : Option (List (List ℕ))) (d : Device B) (Q : Unit {0} → Names → Type 0)
      → E N
      → names_of d ≡ N
      → o ≡ none
      → Ends E Q (put_names f v more o d)
  put_names-Missing E N f v more none d Q a e s = λ t. subst E (sym e) a
  put_names-Missing E N f v more (some ms) d Q a e s = cc

module _ {B : Type 0} {E : Names → Type 0} where
  pub erase_name_of-Safe :
      (N : Names) (x : List ℕ)
      → Safe N (erase_name_of {B = B} x) E (λ _ N'. N' ≡ (erase_file x N.0, N.1))
  unfolding erase_name_of
  erase_name_of-Safe N x = record { ends = λ d e. ap (λ (K : Names). (erase_file x K.0, K.1)) e }

  pub put_name-Safe :
      (N : Names) (x : List ℕ) (f : ℕ)
      → Safe N (put_name {B = B} x f) E (λ _ N'. N' ≡ (insert_file x f N.0, N.1))
  unfolding put_name
  put_name-Safe N x f = record { ends = λ d e. ap (λ (K : Names). (insert_file x f K.0, K.1)) e }

  pub add_link_name-Safe :
      (N : Names) (f : ℕ) (x : List ℕ)
      → Safe N (add_link_name {B = B} f x) E (λ _ N'. N' ≡ (N.0, point_at N.1 f (N.1 f ++ x ∷ [])))
  unfolding add_link_name ◌>>=◌
  add_link_name-Safe N f x = record {
    ends = λ d e.
        links_written N f (record (d.file f) { linkfiles = (d.file f).linkfiles ++ x ∷ [] }) d e
        ∙ ap (λ (K : Names). (N.0, point_at N.1 f (K.1 f ++ x ∷ []))) e;
  }

  pub rename_link-Safe :
      (N : Names) (f : ℕ) (src dest : List ℕ) (ns : List (List ℕ))
      → erase_name src (N.1 f) ≡ some ns
      → Safe N
          (rename_link {B = B} f src dest)
          E
          (λ _ N'. N' ≡ (N.0, point_at N.1 f (ns ++ dest ∷ [])))
  unfolding rename_link ◌>>=◌
  rename_link-Safe N f src dest ns s = record {
    ends = λ d e.
        put_names-Ends E N f (dest ∷ []) ns (erase_name src (d.file f).linkfiles) d e
          (ap (λ (K : Names). erase_name src (K.1 f)) e ∙ s);
  }

  -- A link that the file does not have is not renamed.
  pub rename_link-Missing :
      (N : Names) (f : ℕ) (src dest : List ℕ) (Q : Unit {0} → Names → Type 0)
      → E N
      → erase_name src (N.1 f) ≡ none
      → Safe N (rename_link {B = B} f src dest) E Q
  unfolding rename_link ◌>>=◌
  rename_link-Missing N f src dest Q a s = record {
    ends = λ d e.
        put_names-Missing E N f (d.file f) (dest ∷ []) (erase_name src (d.file f).linkfiles) d Q a e
          (ap (λ (K : Names). erase_name src (K.1 f)) e ∙ s);
  }

  pub remove_link_name-Safe :
      (N : Names) (f : ℕ) (x : List ℕ) (ns : List (List ℕ))
      → erase_name x (N.1 f) ≡ some ns
      → Safe N (remove_link_name {B = B} f x) E (λ _ N'. N' ≡ (N.0, point_at N.1 f (ns ++ [])))
  unfolding remove_link_name ◌>>=◌
  remove_link_name-Safe N f x ns s = record {
    ends = λ d e. elim (Bool-cases (ltb 0 (length (d.file f).linkfiles))) [
      | inl t ↦ rw t (
          put_names-Ends E N f [] ns (erase_name x (d.file f).linkfiles) d e
            (ap (λ (K : Names). erase_name x (K.1 f)) e ∙ s))
      | inr t ↦ rw t (λ u. cc)
    ];
  }
