-- ===== src/Fs/Destroy.antt =====
-- A file's extents are cleared without an error, and the names stay as they were.
use zenfs_modified.Base.{ℕ, ◌≡◌, refl, sym, ap, ◌∙◌, List, [], ◌∷◌}
use zenfs_modified.Base.Int.{ℤ, pos, negsuc}
use zenfs_modified.Params.{ZenfsParamContainer}
use zenfs_modified.Store.{
  Zone, ZoneFile, ZoneExtent, Outcome, ok, err, chain, after, ◌>>=◌, ◌>>◌, put_file,
}
use zenfs_modified.Store.Frame.{Keeps-pure, Keeps-fail, Keeps-then, frame_rules}
use zenfs_modified.Reclaim.Quiet.{Quiet, Quiet-pure, Quiet-fault, Quiet-then, quiet_rules}
use zenfs_modified.Files.{update_bytes_of_level, relabel, follow_level}
use zenfs_modified.Files.Update.{discredit, count_down, clear_loop, clear_extents}
use zenfs_modified.Fs.NameFrame.{names_of, KeepsNames, put_same, put_zone-KeepsNames}
use zenfs_modified.Fs.Agree.{Names}

module _ {B : Type 0} where
  discredit-KeepsNames : (e : ZoneExtent) → KeepsNames {B = B} (discredit e)
  unfolding discredit
  discredit-KeepsNames e = search (put_zone-KeepsNames, frame_rules)

  level-KeepsNames :
      (z : ℕ) (ps : ZenfsParamContainer) (v : Zone) (bytes : List ℤ) (level : ℤ)
      → KeepsNames {B = B} (follow_level z ps v bytes level)
  level-KeepsNames z ps v bytes (negsuc n) = Keeps-fail
  level-KeepsNames z ps v bytes (pos n) = search (put_zone-KeepsNames, frame_rules)

  relabel-KeepsNames : (z : ℕ) (bytes : List ℤ) → KeepsNames {B = B} (relabel z bytes)
  unfolding relabel
  relabel-KeepsNames z bytes = search (put_zone-KeepsNames, level-KeepsNames, frame_rules) depth 9

  bytes-KeepsNames :
      (z : ℕ) (level bytes : ℤ) → KeepsNames {B = B} (update_bytes_of_level z level bytes)
  unfolding update_bytes_of_level
  bytes-KeepsNames z (negsuc n) bytes = Keeps-fail
  bytes-KeepsNames z (pos n) bytes = search (relabel-KeepsNames, frame_rules)

  count_down-KeepsNames : (e : ZoneExtent) → KeepsNames {B = B} (count_down e)
  unfolding count_down
  count_down-KeepsNames e = search (bytes-KeepsNames, frame_rules)

  clear_loop-KeepsNames : (es : List ZoneExtent) → KeepsNames {B = B} (clear_loop es)
  unfolding clear_loop
  clear_loop-KeepsNames [] = Keeps-pure
  clear_loop-KeepsNames (e ∷ es) =
      Keeps-then (discredit-KeepsNames e)
        (Keeps-then (count_down-KeepsNames e) (clear_loop-KeepsNames es))

  -- The names after a file's extents are gone.
  cleared-same :
      (o : Outcome B (Unit {0})) (f : ℕ) (w : ZoneFile) (N : Names)
      → names_of (after o) ≡ N
      → w.linkfiles ≡ N.1 f
      → names_of (after (chain o (λ _. put_file f w))) ≡ N
  cleared-same (ok a d) f w N e s =
      let same : w.linkfiles ≡ (d.file f).linkfiles = s ∙ sym (ap (λ (K : Names). K.1 f) e) in
      ap (λ (l : ℕ → List (List ℕ)). (d.fs.files, l)) (put_same d.file f w same) ∙ e
  cleared-same (err x d) f w N e s = e

  pub clear_extents-KeepsNames : (f : ℕ) → KeepsNames {B = B} (clear_extents f)
  unfolding clear_extents ◌>>=◌ ◌>>◌
  clear_extents-KeepsNames f = record {
    same = λ d.
        cleared-same (clear_loop (d.file f).extents d) f (record (d.file f) { extents = [] })
          (names_of d) ((clear_loop-KeepsNames (d.file f).extents).same d) refl;
  }

  discredit-Quiet : (e : ZoneExtent) → Quiet {B = B} (discredit e)
  unfolding discredit
  discredit-Quiet e = search quiet_rules

  level-Quiet :
      (z : ℕ) (ps : ZenfsParamContainer) (v : Zone) (bytes : List ℤ) (level : ℤ)
      → Quiet {B = B} (follow_level z ps v bytes level)
  level-Quiet z ps v bytes (negsuc n) = Quiet-fault
  level-Quiet z ps v bytes (pos n) = search quiet_rules

  relabel-Quiet : (z : ℕ) (bytes : List ℤ) → Quiet {B = B} (relabel z bytes)
  unfolding relabel
  relabel-Quiet z bytes = search (level-Quiet, quiet_rules) depth 9

  bytes-Quiet : (z : ℕ) (level bytes : ℤ) → Quiet {B = B} (update_bytes_of_level z level bytes)
  unfolding update_bytes_of_level
  bytes-Quiet z (negsuc n) bytes = Quiet-fault
  bytes-Quiet z (pos n) bytes = search (relabel-Quiet, quiet_rules)

  count_down-Quiet : (e : ZoneExtent) → Quiet {B = B} (count_down e)
  unfolding count_down
  count_down-Quiet e = search (bytes-Quiet, quiet_rules)

  clear_loop-Quiet : (es : List ZoneExtent) → Quiet {B = B} (clear_loop es)
  unfolding clear_loop
  clear_loop-Quiet [] = Quiet-pure
  clear_loop-Quiet (e ∷ es) =
      Quiet-then (discredit-Quiet e) (Quiet-then (count_down-Quiet e) (clear_loop-Quiet es))

  pub clear_extents-Quiet : (f : ℕ) → Quiet {B = B} (clear_extents f)
  unfolding clear_extents
  clear_extents-Quiet f = search (clear_loop-Quiet, quiet_rules)
