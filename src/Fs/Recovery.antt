-- ===== src/Fs/Recovery.antt =====
-- fs/fs_zenfs.cc: the records of the metadata log are read back when the file system is mounted.
use zenfs_modified.Base.{
  ℕ, zero, suc, Bool, true, false, not, Option, none, some, List, [], ◌∷◌, leb, ◌==◌, if◌then◌else◌,
  length,
}
use zenfs_modified.Base.Words.{add64}
use zenfs_modified.Store.{
  ZoneFile, Backend, Error, Outcome, corruption, not_found, fault, blocked, ok, err, M, ◌>>=◌, ◌>>◌,
  pure, fail, gets, assert_that, point_at,
}
use zenfs_modified.Reclaim.{attempt, rethrow, is_status}
use zenfs_modified.Codec.{Coding, decode_file}
use zenfs_modified.MetaLog.{Checksum, MetaLog, read_record}
use zenfs_modified.Files.{remove_link_name}
use zenfs_modified.Files.Update.{merge_update}
use zenfs_modified.Fs.FileMap.{lookup}
use zenfs_modified.Fs.Persist.{
  complete_files_snapshot, file_update, file_deletion, end_record, file_replace,
}
use zenfs_modified.Fs.Calls.{
  Env, new_zone_file, put_name, erase_name_of, hold, let_go, holding, drop_pointer,
  get_file_no_lock,
}

-- The first file of the map with the number.
unfoldable pub find_id : (ℕ → ZoneFile) → ℕ → List (List ℕ × ℕ) → Option ℕ
find_id h id [] = none
find_id h id ((n, f) ∷ rest) = if id == (h f).file_id then some f else find_id h id rest

module _ {B : Type 0} where
  abbrev pub corrupted : {A : Type 0} → Outcome B A → Outcome B A
  corrupted (ok a d) = ok a d
  corrupted (err e d) = if is_status e then err corruption d else err e d

  -- A call whose errors are all reported as corruption.
  unfoldable pub or_corruption : {A : Type 0} → M B A → M B A
  or_corruption m d = corrupted (m d)

  -- A file of the heap that is not yet in the map.
  unfoldable pub new_pointer : M B ℕ
  new_pointer d =
      let f = d.fs.next_pointer in
      ok f (record d {
        file = point_at d.file f (new_zone_file 0);
        fs = record d.fs { next_pointer = suc f };
      })

  unfoldable pub raise_next_id : ℕ → M B (Unit {0})
  unfolding add64
  raise_next_id id d = ok tt (record d {
    fs = record d.fs {
      next_file_id = if leb d.fs.next_file_id id then add64 id 1 else d.fs.next_file_id;
    };
  })

  unfoldable pub put_all_names : List (List ℕ) → ℕ → M B (Unit {0})
  put_all_names [] f = pure tt
  put_all_names (n ∷ ns) f = put_name n f >> put_all_names ns f

  -- The names of a file go from the map, which must have them all.
  unfoldable pub erase_all_names : List (List ℕ) → M B (Unit {0})
  erase_all_names [] = pure tt
  erase_all_names (n ∷ ns) = do
    found ← gets (λ d. lookup n d.fs.files)
    elim found [ none ↦ fail corruption | some g ↦ erase_name_of n >> erase_all_names ns ]

  unfoldable pub drop_each : List (List ℕ × ℕ) → M B (Unit {0})
  drop_each [] = pure tt
  drop_each ((n, f) ∷ rest) = drop_pointer f >> drop_each rest

  unfoldable pub clear_map : M B (Unit {0})
  clear_map d = ok tt (record d { fs = record d.fs { files = [] } })

  -- `ClearFiles`
  unfoldable pub clear_files : M B (Unit {0})
  clear_files = do files ← gets (λ d. d.fs.files); clear_map; drop_each files

  -- The file that is there takes the update, which then goes.
  unfoldable pub merge_known : ℕ → ℕ → Bool → Option Error → M B (Unit {0})
  merge_known u f replace (some e) = let_go u >> fail e
  merge_known u f replace none = do
    update ← gets (λ d. d.file u)
    s ← attempt (merge_update f update replace)
    let_go u
    rethrow s
    names ← gets (λ d. (d.file f).linkfiles)
    put_all_names names f

  unfoldable pub update_known : ℕ → Bool → ℕ → M B (Unit {0})
  update_known u replace f = do
    names ← gets (λ d. (d.file f).linkfiles)
    s ← attempt (erase_all_names names)
    merge_known u f replace s

  module _ (env : Env B) where
    -- A new file goes into the map under its first name.
    unfoldable pub update_new : ℕ → List (List ℕ) → M B (Unit {0})
    update_new u [] = fail fault
    update_new u (n ∷ ns) = do
      found ← get_file_no_lock env n
      (elim found [ some g ↦ assert_that false (pure tt) | none ↦ put_name n u >> let_go u ])

    abbrev pub update_file : ℕ → Bool → Option ℕ → M B (Unit {0})
    update_file u replace none = gets (λ d. (d.file u).linkfiles) >>= update_new u
    update_file u replace (some f) = holding f (update_known u replace f)

    unfoldable pub update_decoded : ℕ → Bool → Option Error → M B (Unit {0})
    update_decoded u replace (some e) = let_go u >> fail e
    update_decoded u replace none = do
      id ← gets (λ d. (d.file u).file_id)
      raise_next_id id
      known ← gets (λ d. find_id d.file id d.fs.files)
      update_file u replace known

    module _ (c : Coding) where
      -- `DecodeFileUpdateFrom`
      unfoldable pub decode_file_update_from : List ℕ → Bool → M B (Unit {0})
      decode_file_update_from slice replace = do
        u ← new_pointer
        hold u
        s ← attempt (decode_file c u slice)
        update_decoded u replace s

      unfoldable pub add_decoded : ℕ → M B (Unit {0})
      add_decoded u = do
        v ← gets (λ d. d.file u)
        raise_next_id v.file_id
        put_all_names v.linkfiles u

      unfoldable pub add_slice_file : List ℕ → M B (Unit {0})
      add_slice_file slice = do u ← new_pointer; holding u (decode_file c u slice >> add_decoded u)

      -- The loop of `DecodeSnapshotFrom`: a round takes a prefix from the input, so the input's length
      -- is fuel enough.
      unfoldable pub snapshot_loop : ℕ → List ℕ → M B (Unit {0})
      snapshot_loop zero input = fail blocked
      snapshot_loop (suc fuel) input = elim (c.get_length_prefixed input) [
        | none ↦ pure tt
        | some (slice, rest) ↦ add_slice_file slice >> snapshot_loop fuel rest
      ]

      -- `DecodeSnapshotFrom`
      unfoldable pub decode_snapshot_from : List ℕ → M B (Unit {0})
      decode_snapshot_from input = do
        files ← gets (λ d. d.fs.files)
        assert_that (length files == 0) (snapshot_loop (suc (length input)) input)

      unfoldable pub delete_decoded : ℕ → List ℕ → ℕ → M B (Unit {0})
      delete_decoded id name f = do
        v ← gets (λ d. d.file f)
        if not (v.file_id == id)
            then fail corruption
            else (erase_name_of name >> or_corruption (remove_link_name f name))

      unfoldable pub delete_named : ℕ → List ℕ → Option ℕ → M B (Unit {0})
      delete_named id name none = fail corruption
      delete_named id name (some f) = holding f (delete_decoded id name f)

      abbrev pub delete_name_of : ℕ → Option (List ℕ × List ℕ) → M B (Unit {0})
      delete_name_of id none = fail corruption
      delete_name_of id (some (name, rest)) =
          gets (λ d. lookup name d.fs.files) >>= delete_named id name

      abbrev pub delete_id : Option (ℕ × List ℕ) → M B (Unit {0})
      delete_id none = fail corruption
      delete_id (some (id, rest)) = delete_name_of id (c.get_length_prefixed rest)

      -- `DecodeFileDeletionFrom`
      unfoldable pub decode_file_deletion_from : List ℕ → M B (Unit {0})
      decode_file_deletion_from input = delete_id (c.get_fixed64 input)

      -- The `switch` of `RecoverFrom`: whether a snapshot has been read.
      unfoldable pub recover_record : ℕ → Bool → List ℕ → M B Bool
      recover_record tag seen data_ =
          if tag == complete_files_snapshot
          then clear_files >> (decode_snapshot_from data_ >> pure true)
          else if tag == file_update
          then decode_file_update_from data_ false >> pure seen
          else if tag == file_replace
          then decode_file_update_from data_ true >> pure seen
          else if tag == file_deletion
          then decode_file_deletion_from data_ >> pure seen
          else fail corruption

      -- What a record is: the end of the log, or a tag and its data.
      abbrev pub recover_data : ℕ → Bool → (Bool → M B Bool) → Option (List ℕ × List ℕ) → M B Bool
      recover_data tag seen more none = fail corruption
      recover_data tag seen more (some (data_, rest)) = recover_record tag seen data_ >>= more

      abbrev pub recover_tag : Bool → (Bool → M B Bool) → Option (ℕ × List ℕ) → M B Bool
      recover_tag seen more none = pure seen
      recover_tag seen more (some (tag, rest)) =
          if tag == end_record
          then pure seen
          else recover_data tag seen more (c.get_length_prefixed rest)

      module _ (k : Checksum) (be : Backend B) where
        -- The loop of `RecoverFrom`: a record that is read moves the log on by its header at least,
        -- and the loop ends at the write pointer.
        unfoldable pub recover_loop : ℕ → Bool → MetaLog → M B Bool
        recover_loop zero seen log = fail blocked
        recover_loop (suc fuel) seen log = do
          (data_, log') ← or_corruption (read_record be c k log)
          recover_tag seen (λ s. recover_loop fuel s log') (c.get_fixed32 data_)

        -- `RecoverFrom`
        unfoldable pub recover_from : MetaLog → M B (Unit {0})
        recover_from log = do
          wp ← gets (λ d. (d.zone log.zone).wp)
          seen ← recover_loop (suc wp) false log
          if seen then pure tt else fail not_found
