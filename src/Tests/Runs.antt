-- ===== src/Tests/Runs.antt =====
-- The theorem on sequences of calls: a link, and the deletion of the old name, for whose record the
-- small log has no room left.
use zenfs_modified.Base.{Bool, List, [], ◌∷◌}
use zenfs_modified.Store.{Device, after}
use zenfs_modified.Fs.Refine.{link, delete, perform, Call, is_ok}
use zenfs_modified.Tests.Values.{backend, old_name, new_name}
use zenfs_modified.Tests.Coder.{coder}
use zenfs_modified.Tests.Log.{sums}
use zenfs_modified.Tests.Names.{env, one_file}

abbrev with_link : Device (Unit {0})
with_link = after (perform coder sums backend env (link old_name new_name) one_file)

abbrev with_new_name : Device (Unit {0})
with_new_name = after (perform coder sums backend env (delete old_name) with_link)

-- The calls, the last one first.
abbrev history : List (Call × Bool)
history =
    (delete old_name, is_ok (perform coder sums backend env (delete old_name) with_link))
    ∷ (
      link old_name new_name,
      is_ok (perform coder sums backend env (link old_name new_name) one_file),
    )
    ∷ []
