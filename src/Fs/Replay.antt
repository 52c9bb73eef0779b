-- ===== src/Fs/Replay.antt =====
-- fs/fs_zenfs.cc: the record that `DeleteFileNoLock` writes, and what `RecoverFrom` makes of it.
use mathlib.Core.List.{append-nil}
use zenfs_modified.Base.{
  ℕ, ◌<◌, ◌≡◌, refl, sym, ap, ◌∙◌, subst, Bool, true, some, List, [], ◌∷◌, ◌++◌, if◌then◌else◌,
  ◌==◌, length, arith, ltb, ◌||◌, Bool-cases, inl, inr,
}
use zenfs_modified.Base.Words.{u32_mod, u64_mod}
use zenfs_modified.Store.{
  ZoneFile, Device, Outcome, ok, err, M, point_at, chain, ◌>>=◌, ◌>>◌, pure, gets,
}
use zenfs_modified.Reclaim.{attempt, status_of, rethrow}
use zenfs_modified.Codec.{Coding}
use zenfs_modified.Codec.Items.{CodingLaws}
use zenfs_modified.Files.{erase_name, remove_link_name}
use zenfs_modified.Fs.FileMap.{lookup, erase_file}
use zenfs_modified.Fs.Persist.{file_deletion, encode_file_deletion}
use zenfs_modified.Fs.Calls.{
  Env, erase_name_of, hold, holding, let_go, remove_handle, remove_one, has_name, has_pointer,
  drop_pointer, destroy,
}
use zenfs_modified.Fs.Recovery.{
  corrupted, or_corruption, delete_decoded, delete_named, delete_name_of, delete_id,
  decode_file_deletion_from, recover_record, recover_data, recover_tag,
}
use zenfs_modified.Fs.NameFrame.{names_of}
use zenfs_modified.Fs.Agree.{Names, Agrees, take-Agrees, lookup-erase_file}
use zenfs_modified.Fs.Safe.{Ends}
use zenfs_modified.Fs.LinkSafe.{remove_link_name-Safe}
use zenfs_modified.Fs.HoldSafe.{Left}
use zenfs_modified.Fs.Delete.{Without, listed}

-- Any error does.
abbrev Anything : Names → Type 0
Anything _ = Unit {0}

nonempty :
    (x : List ℕ) (ns ms : List (List ℕ)) → erase_name x ns ≡ some ms → ltb 0 (length ns) ≡ true
unfolding erase_name
nonempty x [] ms e = cc
nonempty x (n ∷ ns) ms e = ground arith

-- Whether a name of the map or another call has a pointer to the file.
abbrev pub has_owner : {B : Type 0} → ℕ → Device B → Bool
has_owner f d = has_name f d.fs.files || has_pointer f d.fs.handles

module _ {B : Type 0} where
  abbrev held : ℕ → Device B → Device B
  held f d = record d { fs = record d.fs { handles = f ∷ d.fs.handles } }

  -- The device without a name of the file, whose other names are `ns`.
  abbrev pub unnamed : List ℕ → ℕ → List (List ℕ) → Device B → Device B
  unnamed x f ns d = record d {
    fs = record d.fs { files = erase_file x d.fs.files };
    file = point_at d.file f (record (d.file f) { linkfiles = ns ++ [] });
  }

  remove_link_name-done :
      (x : List ℕ) (f : ℕ) (ns : List (List ℕ)) (d : Device B)
      → erase_name x (d.file f).linkfiles ≡ some ns
      → remove_link_name f x d
        ≡ ok tt (record d { file = point_at d.file f (record (d.file f) { linkfiles = ns ++ [] }) })
  unfolding remove_link_name ◌>>=◌
  remove_link_name-done x f ns d e =
      let listed = nonempty x (d.file f).linkfiles ns e in rw (listed, e) refl

  -- The names without it agree.
  unnamed-Left :
      (x : List ℕ) (f : ℕ) (ns : List (List ℕ)) (d : Device B)
      → Agrees (names_of d)
      → lookup x d.fs.files ≡ some f
      → erase_name x (d.file f).linkfiles ≡ some ns
      → Agrees (erase_file x d.fs.files, point_at (names_of d).1 f (ns ++ []))
      → Left (Without x (names_of d)) (names_of (unnamed x f ns d))
  unnamed-Left x f ns d a here e gone =
      let e' = record d { fs = record d.fs { files = erase_file x d.fs.files } } in
      let names : names_of (unnamed x f ns d)
          ≡ (erase_file x d.fs.files, point_at (names_of d).1 f (ns ++ [])) =
        subst
          (λ o.
            Ends Anything
              (λ _ N. N ≡ (erase_file x d.fs.files, point_at (names_of d).1 f (ns ++ []))) o)
          (remove_link_name-done x f ns e' e)
          ((remove_link_name-Safe {E = Anything} (names_of e') f x ns e).ends e' refl) in
      ((λ m. lookup-erase_file m x d.fs.files), subst Agrees (sym names) gone)

  -- A call with a pointer, which goes at its end.
  holding-done :
      (f : ℕ) (m : M B (Unit {0})) (d e : Device B)
      → m (held f d) ≡ ok tt e
      → holding f m d
        ≡ (drop_pointer f >> pure tt)
            (record e { fs = record e.fs { handles = remove_one f e.fs.handles } })
  unfolding holding hold attempt let_go remove_handle ◌>>=◌ ◌>>◌
  holding-done f m d e h = ap (λ o. chain (status_of o) (λ s. let_go f >> rethrow s)) h

  chain-pure :
      (seen : Bool) (o : Outcome B (Unit {0}))
      → chain {C = Bool} (chain (chain o (λ _. pure tt)) (λ _. pure seen)) pure
        ≡ chain o (λ _. pure seen)
  chain-pure seen (ok a d) = refl
  chain-pure seen (err e d) = refl

  module _ (env : Env B) (c : Coding) (laws : CodingLaws c) where
    delete_decoded-done :
        (x : List ℕ) (f : ℕ) (ns : List (List ℕ)) (d : Device B)
        → erase_name x (d.file f).linkfiles ≡ some ns
        → delete_decoded env c (d.file f).file_id x f (held f d) ≡ ok tt (unnamed x f ns (held f d))
    unfolding delete_decoded ◌>>=◌ ◌>>◌ erase_name_of or_corruption
    delete_decoded-done x f ns d e =
        let same : ((d.file f).file_id == (d.file f).file_id) ≡ true = ground arith in
        rw same (
          ap corrupted (
            remove_link_name-done x f ns
              (record (held f d) { fs = record (held f d).fs { files = erase_file x d.fs.files } })
              e))

    delete_named-done :
        (x : List ℕ) (f : ℕ) (ns : List (List ℕ)) (d : Device B)
        → erase_name x (d.file f).linkfiles ≡ some ns
        → delete_named env c (d.file f).file_id x (some f) d
          ≡ (drop_pointer f >> pure tt) (unnamed x f ns d)
    unfolding delete_named
    delete_named-done x f ns d e =
        let same : (f == f) ≡ true = ground arith in
        holding-done f _ d (unnamed x f ns (held f d)) (delete_decoded-done x f ns d e)
        ∙ rw same refl

    -- The data of a deletion record.
    abbrev deletion_data : ZoneFile → List ℕ → List ℕ
    deletion_data v x = c.put_fixed64 v.file_id ++ c.put_length_prefixed x

    decode_deletion :
        (v : ZoneFile) (x : List ℕ)
        → v.file_id < u64_mod
        → length x < u32_mod
        → decode_file_deletion_from env c (deletion_data v x)
          ≡ (gets (λ d. lookup x d.fs.files) >>= delete_named env c v.file_id x)
    unfolding decode_file_deletion_from
    decode_deletion v x hid hx =
        ap (delete_id env c) (laws.get-put64 v.file_id (c.put_length_prefixed x) hid)
        ∙ ap (delete_name_of env c v.file_id) (
            ap c.get_length_prefixed (sym (append-nil (c.put_length_prefixed x)))
            ∙ laws.get-put_prefixed x [] hx)

    recover_deletion :
        (v : ZoneFile) (x : List ℕ) (seen : Bool) (more : Bool → M B Bool)
        → length (deletion_data v x) < u32_mod
        → recover_tag env c seen more (c.get_fixed32 (encode_file_deletion c v x))
          ≡ (recover_record env c file_deletion seen (deletion_data v x) >>= more)
    unfolding encode_file_deletion
    recover_deletion v x seen more h =
        ap (recover_tag env c seen more)
          (laws.get-put32 file_deletion (c.put_length_prefixed (deletion_data v x)) (omega arith))
        ∙ ap (recover_data env c file_deletion seen more) (
            ap c.get_length_prefixed (sym (append-nil (c.put_length_prefixed (deletion_data v x))))
            ∙ laws.get-put_prefixed (deletion_data v x) [] h)

    replayed :
        (x : List ℕ) (f : ℕ) (ns : List (List ℕ)) (seen : Bool) (d : Device B)
        → lookup x d.fs.files ≡ some f
        → erase_name x (d.file f).linkfiles ≡ some ns
        → (d.file f).file_id < u64_mod
        → length x < u32_mod
        → length (deletion_data (d.file f) x) < u32_mod
        → recover_tag env c seen pure (c.get_fixed32 (encode_file_deletion c (d.file f) x)) d
          ≡ (drop_pointer f >> pure seen) (unnamed x f ns d)
    unfolding recover_record ◌>>=◌ ◌>>◌
    replayed x f ns seen d here e hid hx h =
        let v = d.file f in
        ap (λ (m : M B Bool). m d) (recover_deletion v x seen pure h)
        ∙ ap (λ (m : M B (Unit {0})). ((m >> pure seen) >>= pure) d) (decode_deletion v x hid hx)
        ∙ ap (λ o. chain (chain (delete_named env c v.file_id x o d) (λ _. pure seen)) pure) here
        ∙ ap (λ o. chain (chain o (λ _. pure seen)) pure) (delete_named-done x f ns d e)
        ∙ chain-pure seen (drop_pointer f (unnamed x f ns d))

    -- Under the laws of the coding, where the names agree and the map has the file under the name, and
    -- the file's number, the name and the record's data have lengths and values that the coding
    -- holds: `RecoverFrom`, given the record that `DeleteFileNoLock` writes, takes the name from the
    -- map and from the file, and then ends well, with what was seen as before, if another name or a
    -- call still has the file; if none has it, it goes on with the file's destructor. Without the name
    -- the map is otherwise as it was, and the names agree with it.
    pub recover_tag-encode_file_deletion :
        (x : List ℕ) (f : ℕ) (seen : Bool) (d : Device B)
        → Agrees (names_of d)
        → lookup x d.fs.files ≡ some f
        → (d.file f).file_id < u64_mod
        → length x < u32_mod
        → length (deletion_data (d.file f) x) < u32_mod
        → (ns : List (List ℕ)) × Left (Without x (names_of d)) (names_of (unnamed x f ns d))
          × (recover_tag env c seen pure (c.get_fixed32 (encode_file_deletion c (d.file f) x)) d
              ≡ (if has_owner f (unnamed x f ns d) then pure seen else destroy f >> pure seen)
                  (unnamed x f ns d))
    unfolding drop_pointer ◌>>=◌ ◌>>◌
    recover_tag-encode_file_deletion x f seen d a here hid hx h =
        let l = listed (names_of d) x f a here in
        let gone = take-Agrees (names_of d) x f (l.0 ++ []) a here l.2 in
        (
          l.0,
          unnamed-Left x f l.0 d a here l.1 gone,
          replayed x f l.0 seen d here l.1 hid hx h
              ∙ elim (Bool-cases (has_owner f (unnamed x f l.0 d))) [
                | inl owned ↦ rw owned refl
                | inr lost ↦ rw lost refl
              ],
        )
