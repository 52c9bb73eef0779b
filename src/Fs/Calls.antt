-- ===== src/Fs/Calls.antt =====
-- fs/fs_zenfs.cc: the calls that open, delete, rename and link files. A file that `ZenFS` does not
-- have belongs to the auxiliary file system, which is a parameter, as are the operations on paths.
use zenfs_modified.Base.{
  ℕ, suc, Bool, true, false, not, ◌||◌, Option, none, some, List, [], ◌∷◌, ◌++◌, ltb, ◌==◌,
  if◌then◌else◌, length, drop, ◌-◌,
}
use zenfs_modified.Base.Int.{negsuc}
use zenfs_modified.Base.Words.{add64}
use zenfs_modified.Store.{
  ZoneFile, data_io, wal, unknown, Backend, Error, invalid_argument, blocked, ok, M, ◌>>=◌, ◌>>◌,
  pure, fail, gets, put_file, point_at,
}
use zenfs_modified.Zones.{wlth_not_set}
use zenfs_modified.Reclaim.{attempt, rethrow, reset_unused_io_zones}
use zenfs_modified.Codec.{Coding, no_extent}
use zenfs_modified.MetaLog.{Checksum}
use zenfs_modified.Levels.{remove_zone_file_record}
use zenfs_modified.Files.{eq_name, add_link_name, remove_link_name, rename_link}
use zenfs_modified.Files.Update.{clear_extents}
use zenfs_modified.Fs.FileMap.{lookup, insert_file, erase_file}
use zenfs_modified.Fs.Persist.{
  encode_file_deletion, persist_record, set_modification_time, sync_file_metadata_no_lock,
}

-- The operations on paths and the auxiliary file system that the source calls, over the state that
-- stands for all that is outside. An operation that fails gives its error.
pub record Env (B : Type 0) : Type 0 where
  pub lexically_normal : List ℕ → List ℕ
  pub join : List ℕ → List ℕ → List ℕ
  pub now : B → ℕ × B
  pub delete_aux : List ℕ → B → Option Error × B
  pub rename_aux : List ℕ → List ℕ → B → Option Error × B
  pub link_aux : List ℕ → List ℕ → B → Option Error × B

-- A C string ends before its first zero byte.
abbrev pub c_str : List ℕ → List ℕ
c_str [] = []
c_str (x ∷ xs) = if x == 0 then [] else x ∷ c_str xs

-- `ends_with`
abbrev pub ends_with : List ℕ → List ℕ → Bool
ends_with value ending =
    if ltb (length value) (length ending)
    then false
    else eq_name (drop (length value - length ending) value) ending

-- ".log" and ".sst"
abbrev pub log_suffix : List ℕ
log_suffix = 46 ∷ 108 ∷ 111 ∷ 103 ∷ []

abbrev pub sst_suffix : List ℕ
sst_suffix = 46 ∷ 115 ∷ 115 ∷ 116 ∷ []

-- A file as the constructor `ZoneFile` leaves it.
abbrev pub new_zone_file : ℕ → ZoneFile
new_zone_file id = record {
  file_id = id;
  extents = [];
  linkfiles = [];
  active_zone = none;
  extent_start = no_extent;
  extent_filepos = 0;
  lifetime = wlth_not_set;
  io_type = unknown;
  file_size = 0;
  nr_synced_extents = 0;
  open_for_wr = false;
  m_time = 0;
  is_sparse = false;
  is_deleted = false;
  level = negsuc 0;
  has_keys = false;
  is_recorded = false;
  alloc_size = 0;
  smallest = [];
  largest = [];
  num_entries = 0;
  num_deletions = 0;
  num_range_deletions = 0;
  file_size_meta = 0;
  compensated_file_size = 0;
  compensated_range_deletion_size = 0;
  rank = 100000;
}

-- The kind of a file follows from its name.
abbrev pub typed : List ℕ → Bool → ZoneFile → ZoneFile
typed fname direct v =
    if ends_with fname log_suffix
    then record v { io_type = wal; is_sparse = not direct }
    else if ends_with fname sst_suffix
    then record v { io_type = data_io }
    else record v { io_type = unknown }

-- Whether a pointer to the file is among them.
abbrev pub has_pointer : ℕ → List ℕ → Bool
has_pointer f [] = false
has_pointer f (g ∷ gs) = (f == g) || has_pointer f gs

abbrev pub remove_one : ℕ → List ℕ → List ℕ
remove_one f [] = []
remove_one f (g ∷ gs) = if f == g then gs else g ∷ remove_one f gs

abbrev pub has_name : ℕ → List (List ℕ × ℕ) → Bool
has_name f [] = false
has_name f ((n, g) ∷ rest) = (f == g) || has_name f rest

module _ {B : Type 0} where
  -- A call of the auxiliary file system.
  abbrev pub answered : Option Error × B → M B (Unit {0})
  answered (e, b) d = rethrow e (record d { backend = b })

  unfoldable pub call_aux : (B → Option Error × B) → M B (Unit {0})
  call_aux op d = answered (op d.backend) d

  unfoldable pub put_name : List ℕ → ℕ → M B (Unit {0})
  put_name name f d =
      ok tt (record d { fs = record d.fs { files = insert_file name f d.fs.files } })

  unfoldable pub erase_name_of : List ℕ → M B (Unit {0})
  erase_name_of name d =
      ok tt (record d { fs = record d.fs { files = erase_file name d.fs.files } })

  -- `SetDeleted`
  unfoldable pub set_deleted : ℕ → M B (Unit {0})
  set_deleted f = do
    v ← gets (λ d. d.file f)
    put_file f (record v { is_deleted = true })
    remove_zone_file_record f

  -- The destructor of a file: its extents are cleared, and its names go.
  unfoldable pub destroy : ℕ → M B (Unit {0})
  destroy f = do clear_extents f; v ← gets (λ d. d.file f); put_file f (record v { linkfiles = [] })

  -- The file goes with the last pointer to it.
  unfoldable pub drop_pointer : ℕ → M B (Unit {0})
  drop_pointer f = do
    named ← gets (λ d. has_name f d.fs.files)
    held ← gets (λ d. has_pointer f d.fs.handles)
    if named || held then pure tt else destroy f

  unfoldable pub remove_handle : ℕ → M B (Unit {0})
  remove_handle f d = ok tt (record d { fs = record d.fs { handles = remove_one f d.fs.handles } })

  -- `ToAuxPath`
  unfoldable pub to_aux_path : List ℕ → M B (List ℕ)
  to_aux_path path = gets (λ d. c_str d.fs.superblock.aux_fs_path ++ path)

  -- A new file, with the next number.
  unfoldable pub make_file : M B ℕ
  unfolding add64
  make_file d =
      let f = d.fs.next_pointer in
      ok f (record d {
        file = point_at d.file f (new_zone_file d.fs.next_file_id);
        fs = record d.fs { next_pointer = suc f; next_file_id = add64 d.fs.next_file_id 1 };
      })

  -- `AcquireWRLock`: a file that is open for writing already has to be waited for.
  unfoldable pub acquire_wr_lock : ℕ → M B (Unit {0})
  acquire_wr_lock f = do
    v ← gets (λ d. d.file f)
    if v.open_for_wr then fail blocked else put_file f (record v { open_for_wr = true })

  -- A shared pointer to the file, of a call or of a writable file.
  unfoldable pub hold : ℕ → M B (Unit {0})
  hold f d = ok tt (record d { fs = record d.fs { handles = f ∷ d.fs.handles } })

  unfoldable pub let_go : ℕ → M B (Unit {0})
  let_go f = remove_handle f >> drop_pointer f

  -- A call with a shared pointer to the file, which it lets go at its end.
  unfoldable pub holding : ℕ → M B (Unit {0}) → M B (Unit {0})
  holding f m = do hold f; s ← attempt m; let_go f; rethrow s

module _ {B : Type 0} (env : Env B) where
  -- `FormatPathLexically`
  abbrev pub format_path_lexically : List ℕ → List ℕ
  format_path_lexically path = env.join (47 ∷ []) (env.lexically_normal path)

  -- `GetFileNoLock`
  unfoldable pub get_file_no_lock : List ℕ → M B (Option ℕ)
  get_file_no_lock fname = gets (λ d. lookup (format_path_lexically fname) d.fs.files)

module _ (c : Coding) (k : Checksum) {B : Type 0} (be : Backend B) (env : Env B) where
  -- A deletion that could not be written is taken back.
  unfoldable pub deletion_status : List ℕ → ℕ → Option Error → M B (Unit {0})
  deletion_status fname f (some e) = put_name fname f >> (add_link_name f fname >> fail e)
  deletion_status fname f none = do
    v ← gets (λ d. d.file f)
    if ltb 0 (length v.linkfiles) then pure tt else set_deleted f

  unfoldable pub delete_name : List ℕ → ℕ → M B (Unit {0})
  delete_name fname f = do
    erase_name_of fname
    remove_link_name f fname
    v ← gets (λ d. d.file f)
    s ← attempt (persist_record c k be (encode_file_deletion c v fname))
    deletion_status fname f s

  unfoldable pub delete_found : List ℕ → Option ℕ → M B (Unit {0})
  delete_found fname none = to_aux_path fname >>= λ path. call_aux (env.delete_aux path)
  delete_found fname (some f) = holding f (delete_name fname f)

  -- `DeleteFileNoLock`
  unfoldable pub delete_file_no_lock : List ℕ → M B (Unit {0})
  delete_file_no_lock name = do
    let fname = format_path_lexically env name
    get_file_no_lock env fname >>= delete_found fname

  -- `DeleteFile`
  unfoldable pub delete_file : List ℕ → M B (Unit {0})
  delete_file name = delete_file_no_lock name >> reset_unused_io_zones be false

  -- A rename that could not be written is taken back, and its status is that of taking it back.
  unfoldable pub rename_status : ℕ → List ℕ → List ℕ → Option Error → M B (Unit {0})
  rename_status f source dest none = pure tt
  rename_status f source dest (some e) =
      erase_name_of dest >> (rename_link f dest source >> put_name source f)

  unfoldable pub rename_names : ℕ → List ℕ → List ℕ → M B (Unit {0})
  rename_names f source dest = do
    rename_link f source dest
    erase_name_of source
    put_name dest f
    s ← attempt (sync_file_metadata_no_lock c k be env.now f false)
    rename_status f source dest s

  unfoldable pub rename_over : ℕ → List ℕ → List ℕ → Option ℕ → M B (Unit {0})
  rename_over f source dest none = rename_names f source dest
  rename_over f source dest (some g) =
      holding g (delete_file_no_lock dest >> rename_names f source dest)

  -- `RenameFileNoLock`, where the source is a file of `ZenFS`.
  unfoldable pub rename_found : ℕ → List ℕ → List ℕ → M B (Unit {0})
  rename_found f source dest = holding f (get_file_no_lock env dest >>= rename_over f source dest)

  -- A link that could not be written is taken back, and its status is that of taking it back.
  unfoldable pub link_status : ℕ → List ℕ → Option Error → M B (Unit {0})
  link_status f lname none = pure tt
  link_status f lname (some e) = remove_link_name f lname >> erase_name_of lname

  unfoldable pub link_names : ℕ → List ℕ → M B (Unit {0})
  link_names f lname = do
    add_link_name f lname
    put_name lname f
    s ← attempt (sync_file_metadata_no_lock c k be env.now f false)
    link_status f lname s

  unfoldable pub link_found : List ℕ → List ℕ → Option ℕ → M B (Unit {0})
  link_found fname lname none = do
    from ← to_aux_path fname
    to ← to_aux_path lname
    call_aux (env.link_aux from to)
  link_found fname lname (some f) = holding f (link_names f lname)

  abbrev pub link_if_free : List ℕ → List ℕ → Option ℕ → M B (Unit {0})
  link_if_free fname lname none = get_file_no_lock env fname >>= link_found fname lname
  link_if_free fname lname (some g) = fail invalid_argument

  -- `LinkFile`
  unfoldable pub link_file : List ℕ → List ℕ → M B (Unit {0})
  link_file file link = do
    let fname = format_path_lexically env file
    let lname = format_path_lexically env link
    get_file_no_lock env lname >>= link_if_free fname lname

  -- The new file is not in the map before its record is written.
  unfoldable pub name_file : ℕ → List ℕ → Bool → M B (Unit {0})
  name_file g fname direct = do
    set_modification_time env.now g
    add_link_name g fname
    v ← gets (λ d. d.file g)
    put_file g (typed fname direct v)
    sync_file_metadata_no_lock c k be env.now g false
    acquire_wr_lock g
    put_name fname g
    hold g

  -- The file of the name before goes once the new one is made.
  abbrev pub let_go_old : Option ℕ → M B (Unit {0})
  let_go_old none = pure tt
  let_go_old (some f) = let_go f

  unfoldable pub create_file : List ℕ → Bool → Option ℕ → M B ℕ
  create_file fname direct old = do
    g ← make_file
    let_go_old old
    holding g (name_file g fname direct)
    pure g

  unfoldable pub open_found : List ℕ → Bool → Bool → Option ℕ → M B ℕ
  open_found fname direct reopen none = create_file fname direct none
  open_found fname direct true (some f) = do acquire_wr_lock f; hold f; pure f
  open_found fname direct false (some f) = do
    hold f
    s ← attempt (delete_file_no_lock fname)
    (elim s [
      | some e ↦ let_go f >> fail e
      | none ↦ do g ← create_file fname direct (some f); reset_unused_io_zones be false; pure g
    ])

  -- `OpenWritableFile`: the pointer of the file that the writable file holds.
  unfoldable pub open_writable_file : List ℕ → Bool → Bool → M B ℕ
  open_writable_file filename direct reopen = do
    let fname = format_path_lexically env filename
    get_file_no_lock env fname >>= open_found fname direct reopen
