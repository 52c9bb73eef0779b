-- ===== src/Fs/Lost.antt =====
-- fs/fs_zenfs.cc, `LinkFile` and `RenameFileNoLock` when the file's record cannot be written: the
-- status of the write is lost in that of taking the change back.
use zenfs_modified.Base.{
  ℕ, ◌≡◌, refl, sym, ap, ◌∙◌, true, false, none, some, List, [], ◌∷◌, ◌++◌, ltb, length, arith,
}
use zenfs_modified.Store.{Backend, Device, Error, ok, err, after, ◌>>=◌, ◌>>◌, ok-then}
use zenfs_modified.Reclaim.{attempt, status_of, is_status}
use zenfs_modified.Codec.{Coding}
use zenfs_modified.MetaLog.{Checksum}
use zenfs_modified.Files.{erase_name, add_link_name, put_names, remove_link_name}
use zenfs_modified.Files.Names.{named}
use zenfs_modified.Fs.FileMap.{lookup, insert_file, erase_file}
use zenfs_modified.Fs.Persist.{sync_file_metadata_no_lock}
use zenfs_modified.Fs.Calls.{Env, put_name, erase_name_of, link_status, link_names}
use zenfs_modified.Fs.NameFrame.{names_of, sync-KeepsNames}
use zenfs_modified.Fs.Agree.{Names, Agrees, give-Agrees}
use zenfs_modified.Fs.LinkSafe.{links_written}
use zenfs_modified.Fs.Delete.{AsBefore, listed}
use zenfs_modified.Fs.Link.{given, given_back, given_there}

listed_some :
    (x : List ℕ) (ns ms : List (List ℕ)) → erase_name x ns ≡ some ms → ltb 0 (length ns) ≡ true
unfolding erase_name
listed_some x [] ms e = cc
listed_some x (n ∷ ns) ms e = ground arith

module _ {B : Type 0} where
  -- A link that the file has is removed.
  remove_link_name-ok :
      (f : ℕ) (x : List ℕ) (ms : List (List ℕ)) (d : Device B)
      → erase_name x (d.file f).linkfiles ≡ some ms
      → remove_link_name f x d ≡ ok tt (named f (ms ++ []) d)
  unfolding remove_link_name ◌>>=◌
  remove_link_name-ok f x ms d e =
      rw (listed_some x (d.file f).linkfiles ms e) (ap (λ o. put_names f (d.file f) [] o d) e)

  -- The device with a link more.
  abbrev pub linked : ℕ → List ℕ → Device B → Device B
  linked f x d =
      let named_so = named f ((d.file f).linkfiles ++ x ∷ []) d in
      record named_so { fs = record d.fs { files = insert_file x f d.fs.files } }

  linked_names :
      (f : ℕ) (x : List ℕ) (d : Device B) → names_of (linked f x d) ≡ given (names_of d) x f
  linked_names f x d =
      ap (λ (K : Names). (insert_file x f K.0, K.1))
        (links_written (names_of d) f
          (record (d.file f) { linkfiles = (d.file f).linkfiles ++ x ∷ [] }) d refl)

module _ (c : Coding) (k : Checksum) {B : Type 0} (be : Backend B) (env : Env B) where
  -- The sync that fails leaves the names.
  sync-err-names :
      (f : ℕ) (d d' : Device B) (e : Error)
      → sync_file_metadata_no_lock c k be env.now f false d ≡ err e d'
      → names_of d' ≡ names_of d
  sync-err-names f d d' e h =
      sym (ap (λ o. names_of (after o)) h) ∙ (sync-KeepsNames be c k env.now f false).same d

  attempt-err :
      (f : ℕ) (d d' : Device B) (e : Error)
      → is_status e ≡ true
      → sync_file_metadata_no_lock c k be env.now f false d ≡ err e d'
      → attempt (sync_file_metadata_no_lock c k be env.now f false) d ≡ ok (some e) d'
  unfolding attempt
  attempt-err f d d' e s h = ap status_of h ∙ rw s

  -- Taking back the link succeeds.
  link_status-ok :
      (x : List ℕ) (f : ℕ) (ms : List (List ℕ)) (e : Error) (d : Device B)
      → erase_name x (d.file f).linkfiles ≡ some ms
      → link_status c k be env f x (some e) d
        ≡ ok tt
            (record (named f (ms ++ []) d) { fs = record d.fs { files = erase_file x d.fs.files } })
  unfolding link_status erase_name_of ◌>>=◌ ◌>>◌
  link_status-ok x f ms e d h = ok-then _ (remove_link_name-ok f x ms d h)

  link_names-steps :
      (x : List ℕ) (f : ℕ) (d d' : Device B) (e : Error)
      → is_status e ≡ true
      → sync_file_metadata_no_lock c k be env.now f false (linked f x d) ≡ err e d'
      → link_names c k be env f x d ≡ link_status c k be env f x (some e) d'
  unfolding link_names add_link_name put_name ◌>>=◌ ◌>>◌
  link_names-steps x f d d' e s h = ok-then _ (attempt-err f (linked f x d) d' e s h)

  -- Where the names agree and the new name is free, a link of a file whose record cannot be written,
  -- for whatever error, ends without an error, and the map does not have the new name.
  pub link_names-lost :
      (x : List ℕ) (f : ℕ) (d d' : Device B) (e : Error)
      → Agrees (names_of d)
      → lookup x d.fs.files ≡ none
      → is_status e ≡ true
      → sync_file_metadata_no_lock c k be env.now f false (linked f x d) ≡ err e d'
      → (d'' : Device B) × (link_names c k be env f x d ≡ ok tt d'')
        × AsBefore (names_of d) d''.fs.files
  link_names-lost x f d d' e a free s h =
      let N = names_of d in
      let same : names_of d' ≡ given N x f =
        sync-err-names f (linked f x d) d' e h ∙ linked_names f x d in
      let l = listed (given N x f) x f (give-Agrees N x f a free) (given_there N x f free) in
      let here : erase_name x (d'.file f).linkfiles ≡ some l.0 =
        ap (λ (K : Names). erase_name x (K.1 f)) same ∙ l.1 in
      (
        record (named f (l.0 ++ []) d') { fs = record d'.fs { files = erase_file x d'.fs.files } },
        link_names-steps x f d d' e s h ∙ link_status-ok x f l.0 e d' here,
        λ m. ap (λ (K : Names). lookup m (erase_file x K.0)) same ∙ given_back N x f free m,
      )
