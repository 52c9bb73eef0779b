-- ===== src/Files/Read/Total.antt =====
-- The end of `PositionedRead`, with bytes or with an error.
use zenfs_modified.Base.{ℕ, ◌+◌, ◌≤◌, ◌<◌, ◌≡◌, ◌⊎◌, List, ◌++◌, length, take, min}
use zenfs_modified.Base.Words.{u64_mod, add64}
use zenfs_modified.Store.{Backend, M}
use zenfs_modified.Files.Read.{Request, after_piece, positioned_loop}
use zenfs_modified.Files.Read.Progress.{Settles}

module _ {B : Type 0} (be : Backend B) (settles : Settles be) where
  module _ (s : ℕ) where
    -- The loop's place: before the end of an extent that fits.
    record Ready (q : Request) (got : List ℕ) (dev end fuel : ℕ) : Type 0 where
      within : length got ≤ q.size
      enough : q.size ≤ length got + fuel
      before : (length got ≡ q.size) ⊎ (dev < end)
      range : end + s < u64_mod

    -- What the loop does with the bytes of a round.
    abbrev keep : ℕ → Request → List ℕ → ℕ → ℕ → ℕ → List ℕ → M B (List ℕ)
    keep fuel q got dev end n bytes =
        after_piece q (positioned_loop be fuel q) (got ++ take n bytes)
          (add64 dev (min (length bytes) n)) end
