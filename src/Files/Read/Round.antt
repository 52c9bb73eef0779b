-- ===== src/Files/Read/Round.antt =====
-- The rounds of the loop of `PositionedRead`: one that ends the read, and one that an extent's end
-- cuts off.
use zenfs_modified.Base.{
  ℕ, zero, suc, ◌+◌, ◌-◌, ◌≤◌, ◌<◌, ◌≡◌, refl, sym, ap, ◌∙◌, true, false, some, List, ◌++◌, ◌==◌,
  length, length-append, take, min, arith,
}
use zenfs_modified.Base.Words.{int_mod, u64_mod, add64, add64-exact, sub64-exact}
use zenfs_modified.Store.{ZoneExtent, Backend, Device, M, ok, ◌>>=◌, ok-then}
use zenfs_modified.MetaLog.Disk.{
  segment, segment-split, ReadsDisk, length-segment, read_device-segment,
}
use zenfs_modified.Files.{get_extent}
use zenfs_modified.Files.Read.Segment.{take-segment}
use zenfs_modified.Files.Read.{
  read_size, Request, piece, bytes_to_align, go_on, after_piece, take_piece, positioned_loop,
}
use zenfs_modified.Files.Read.Spot.{content, left_of, behind}

pub read_size-min :
    (file_size offset n : ℕ)
    → offset + n < u64_mod
    → offset < file_size
    → read_size file_size offset n ≡ min n (file_size - offset)
unfolding read_size
read_size-min file_size offset n no_wrap before =
    rw (add64-exact offset n no_wrap) (ground (arith, before))

-- A read aligns to the end of a block.
pub bytes_to_align-bound : (q : Request) (n : ℕ) → bytes_to_align q n ≤ q.block_size
unfolding bytes_to_align
bytes_to_align-bound q n = ground arith

-- What a round asks for: the bytes to read, and those of a block.
abbrev pub most_asked : Request → ℕ
most_asked q = q.size + q.block_size

module _ {B : Type 0} (be : Backend B) where
  pub loop_done :
      (fuel : ℕ) (q : Request) (got : List ℕ) (dev end : ℕ) (d : Device B)
      → length got ≡ q.size
      → positioned_loop be fuel q got dev end d ≡ ok got d
  unfolding positioned_loop
  loop_done zero q got dev end d h =
      let done : (length got == q.size) ≡ true = ground arith in rw done
  loop_done (suc fuel) q got dev end d h =
      let done : (length got == q.size) ≡ true = ground arith in rw done

module _ {B : Type 0} (be : Backend B) (disk : ℕ → ℕ) (reads : ReadsDisk be disk) where
  take_piece-segment :
      (stop : M B (List ℕ)) (more : List ℕ → M B (List ℕ)) (pos n : ℕ)
      → 0 < n
      → take_piece stop more (some (segment disk pos n)) ≡ more (segment disk pos n)
  take_piece-segment stop more pos zero h = elim h [ ]
  take_piece-segment stop more pos (suc n) h = refl

  take-more : (pos m n : ℕ) → take m (segment disk pos (m + n)) ≡ segment disk pos m
  take-more pos m n =
      ap (take m) (segment-split disk pos m n)
      ∙ take-segment disk (segment disk (pos + m) n) pos m m (omega arith)

  -- One round: the piece is read, and what only aligns the read is dropped.
  round-piece :
      (fuel : ℕ) (q : Request) (got : List ℕ) (dev end n : ℕ) (d : Device B)
      → length got < q.size
      → piece (q.size - length got) dev end ≡ n
      → 0 < n
      → n ≤ q.size
      → most_asked q < int_mod
      → dev + most_asked q < u64_mod
      → positioned_loop be (suc fuel) q got dev end d
        ≡ after_piece q (positioned_loop be fuel q) (got ++ segment disk dev n) (dev + n) end d
  unfolding positioned_loop ◌>>=◌
  round-piece fuel q got dev end n d more e some_piece inner small fits =
      let pad = bytes_to_align q n in
      let pad_bound = bytes_to_align-bound q n in
      let undone : (length got == q.size) ≡ false = ground arith in
      let size : min (length (segment disk dev (n + pad))) n ≡ n =
        omega (arith, length-segment disk dev (n + pad)) in
      let keep : List ℕ → M B (List ℕ) = λ bytes.
        after_piece q (positioned_loop be fuel q) (got ++ take n bytes)
          (add64 dev (min (length bytes) n)) end in
      rw (undone, e)
        (ok-then _ (
            read_device-segment be disk reads dev (n + pad) d (omega (arith, some_piece))
              (omega (arith, inner, pad_bound, small)) (omega (arith, inner, pad_bound, fits)))
          ∙ ap (λ m. m d)
              (take_piece-segment (λ d. ok got d) keep dev (n + pad) (omega (arith, some_piece)))
          ∙ rw (size, take-more dev n pad, add64-exact dev n (omega (arith, inner, fits))))

  -- The last piece, which ends in the extent.
  pub loop_ends :
      (fuel : ℕ) (q : Request) (got : List ℕ) (dev end : ℕ) (back : List ZoneExtent) (d : Device B)
      → length got < q.size
      → left_of q got ≤ end - dev
      → most_asked q < int_mod
      → end + most_asked q < u64_mod
      → dev < end
      → positioned_loop be (suc fuel) q got dev end d
        ≡ ok (got ++ take (left_of q got) (behind disk dev end back)) d
  unfolding after_piece piece
  loop_ends fuel q got dev end back d more short small range inside =
      let left = left_of q got in
      let fit = add64-exact left dev (omega (arith, range, inside)) in
      let whole : piece left dev end ≡ left = rw fit (ground arith) in
      let got' = got ++ segment disk dev left in
      let size : length got' ≡ q.size =
        omega (arith, length-append got (segment disk dev left), length-segment disk dev left) in
      let done : (length got' == q.size) ≡ true = ground arith in
      round-piece fuel q got dev end left d more whole (omega (arith, more)) (omega arith) small
        (omega (arith, range, inside))
      ∙ rw done (loop_done be fuel q got' (dev + left) end d size)
      ∙ ap (λ xs. ok (got ++ xs) d)
          (sym (take-segment disk (content disk back) dev (end - dev) left short))

  -- A piece that the extent's end cuts off.
  pub loop_crosses :
      (fuel : ℕ) (q : Request) (got : List ℕ) (dev end : ℕ) (d : Device B)
      → length got < q.size
      → end - dev < left_of q got
      → most_asked q < int_mod
      → end + most_asked q < u64_mod
      → q.offset + q.size < u64_mod
      → dev < end
      → positioned_loop be (suc fuel) q got dev end d
        ≡ go_on
            (λ d. ok (got ++ segment disk dev (end - dev)) d)
            (positioned_loop be fuel q (got ++ segment disk dev (end - dev)))
            (get_extent q.extents (q.offset + length got + (end - dev)))
            d
  unfolding after_piece piece
  loop_crosses fuel q got dev end d more long small range inside in_extent =
      let left = left_of q got in
      let fit = add64-exact left dev (omega (arith, range, in_extent)) in
      let room = sub64-exact end dev (omega (arith, in_extent)) (omega (arith, range)) in
      let cut : piece left dev end ≡ end - dev = rw (fit, room) (ground arith) in
      let got' = got ++ segment disk dev (end - dev) in
      let size : length got' ≡ length got + (end - dev) = omega (
        arith,
        length-append got (segment disk dev (end - dev)),
        length-segment disk dev (end - dev),
      ) in
      let open_end : (length got' == q.size) ≡ false = ground arith in
      let at_end : (dev + (end - dev) == end) ≡ true = ground arith in
      let place = add64-exact q.offset (length got') (omega (arith, inside, size, long)) in
      round-piece fuel q got dev end (end - dev) d more cut (omega (arith, in_extent))
        (omega (arith, long)) small (omega (arith, range, in_extent))
      ∙ rw (open_end, at_end, place)
          (ap
            (λ n.
              go_on (λ d. ok got' d) (positioned_loop be fuel q got') (get_extent q.extents n) d)
            {y = q.offset + length got + (end - dev)} (omega (arith, size)))
