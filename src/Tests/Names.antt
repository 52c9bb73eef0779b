-- ===== src/Tests/Names.antt =====
-- The names of files and the lists of levels at small devices.
use zenfs_modified.Base.{
  ℕ, ◌≡◌, refl, ◌==◌, if◌then◌else◌, true, false, Bool-cases, none, some, List, [], ◌∷◌, inl, inr,
  arith,
}
use zenfs_modified.Base.Int.{sub_ℕ}
use zenfs_modified.Store.{pure, Device, no_space, ok, err, after, ◌>>=◌, ◌>>◌}
use zenfs_modified.Files.{eq_name}
use zenfs_modified.Levels.{KeyOrder, create_or_update_record}
use zenfs_modified.Levels.Sorted.{OrderLaws, IsSorted, create_or_update_record-IsSorted}
use zenfs_modified.Fs.FileMap.{erase_file, lookup}
use zenfs_modified.Zones.{append}
use zenfs_modified.Select.{find_zone}
use zenfs_modified.Reclaim.{attempt, allocate_meta_zone}
use zenfs_modified.Codec.{encode_to}
use zenfs_modified.MetaLog.{add_record, round_up}
use zenfs_modified.Fs.Persist.{
  encode_file_deletion, set_modification_time, persist_record, persist_in, encode_update,
  roll_if_full, roll_meta_zone_locked, sync_file_metadata_no_lock,
}
use zenfs_modified.Fs.Calls.{Env, link_names}
use zenfs_modified.Fs.NameFrame.{names_of}
use zenfs_modified.Fs.Agree.{Agrees, eq_name-sym}
use zenfs_modified.Fs.HoldSafe.{Left}
use zenfs_modified.Fs.Delete.{PathLaws, Without, AsBefore}
use zenfs_modified.Fs.Recovery.{recover_tag}
use zenfs_modified.Fs.Replay.{unnamed, recover_tag-encode_file_deletion}
use zenfs_modified.Fs.Attributes.{AuxReads}
use zenfs_modified.Fs.Lost.{linked, link_names-lost}
use zenfs_modified.Tests.Values.{device, backend, some_file, fresh_file, old_name, new_name}
use zenfs_modified.Tests.Coder.{coder, coder_laws}
use zenfs_modified.Tests.Log.{sums}

-- Absolute paths in normal form, a clock that stands, and an auxiliary file system that is empty.
abbrev pub env : Env (Unit {0})
env = record {
  lexically_normal = λ p. p;
  join = λ a b. b;
  now = λ b. (1000, b);
  delete_aux = λ p b. (some no_space, b);
  rename_aux = λ p q b. (some no_space, b);
  link_aux = λ p q b. (some no_space, b);
}

pub env-PathLaws : PathLaws env
env-PathLaws = record { again = λ p. refl }

-- The small device with one file, under the old name, and a metadata log in its third zone.
abbrev pub one_file : Device (Unit {0})
one_file = record device {
  file = λ f. if f == 0 then some_file else fresh_file;
  fs = record device.fs { meta_log = some 2 };
}

pub one_file-Agrees : Agrees (names_of one_file)
unfolding lookup
one_file-Agrees f name = elim (Bool-cases (f == 0)) [
  | inl t ↦ elim (Bool-cases (eq_name name old_name)) [
    | inl e ↦ let e' = eq_name-sym name old_name true e in rw (t, e, e') (rw t)
    | inr e ↦ let e' = eq_name-sym name old_name false e in rw (t, e, e')
  ]
  | inr t ↦ elim (Bool-cases (eq_name name old_name)) [
    | inl e ↦ rw (t, e) (rw t)
    | inr e ↦ rw (t, e)
  ]
]

old_name_there : lookup old_name one_file.fs.files ≡ some 0
unfolding lookup
old_name_there = refl

new_name_free : lookup new_name one_file.fs.files ≡ none
unfolding lookup
new_name_free = refl

abbrev unsynced : Device (Unit {0})
unsynced =
    after
      (sync_file_metadata_no_lock coder sums backend env.now 0 false (linked 0 new_name one_file))

no_room :
    sync_file_metadata_no_lock coder sums backend env.now 0 false (linked 0 new_name one_file)
    ≡ err no_space unsynced
unfolding sync_file_metadata_no_lock ◌>>=◌ ◌>>◌ set_modification_time persist_record persist_in
    attempt add_record append round_up encode_update encode_to roll_if_full roll_meta_zone_locked
    allocate_meta_zone find_zone
no_room = refl

link_names-lost_example :
    (d'' : Device (Unit {0})) × (link_names coder sums backend env 0 new_name one_file ≡ ok tt d'')
    × AsBefore (names_of one_file) d''.fs.files
link_names-lost_example =
    link_names-lost coder sums backend env new_name 0 one_file unsynced no_space one_file-Agrees
      new_name_free refl no_room

-- Keys by their first byte.
abbrev first_byte : List ℕ → ℕ
first_byte [] = 0
first_byte (x ∷ xs) = x

abbrev by_first_byte : KeyOrder
by_first_byte a b = sub_ℕ (first_byte a) (first_byte b)

by_first_byte-laws : OrderLaws by_first_byte
by_first_byte-laws = record { trans = λ a b c h g. ground arith; total = λ a b h. ground arith }

abbrev levels_of : Device (Unit {0})
levels_of = record one_file { levelwise_file_list = [] ∷ (1 ∷ []) ∷ [] }

create_or_update_record-IsSorted_example :
    IsSorted by_first_byte (after (create_or_update_record by_first_byte 0 levels_of))
create_or_update_record-IsSorted_example =
    create_or_update_record-IsSorted by_first_byte by_first_byte-laws 0 levels_of
      (tt, ((tt, tt), tt))

-- A reader has the file.
abbrev read_file : Device (Unit {0})
read_file = record one_file { fs = record one_file.fs { handles = 0 ∷ [] } }

recover_tag-encode_file_deletion_example :
    (ns : List (List ℕ)) × Left
      (Without old_name (names_of read_file))
      (names_of (unnamed old_name 0 ns read_file))
    × (recover_tag env coder true pure
          (coder.get_fixed32 (encode_file_deletion coder (read_file.file 0) old_name))
          read_file
        ≡ ok true (unnamed old_name 0 ns read_file))
unfolding erase_file
recover_tag-encode_file_deletion_example =
    recover_tag-encode_file_deletion env coder coder_laws old_name 0 true read_file one_file-Agrees
      old_name_there (omega arith) (omega arith) (omega arith)

abbrev aux_reads : AuxReads (Unit {0})
aux_reads = record {
  size_aux = λ p b. (inl no_space, b);
  time_aux = λ p b. (inl no_space, b);
  links_aux = λ p b. (inl no_space, b);
  same_aux = λ p q b. (inl no_space, b);
}
