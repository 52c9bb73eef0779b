-- ===== src/Files/Read/Content.antt =====
-- `PositionedRead` and the bytes of the file's extents, one behind the other.
use mathlib.Core.List.{append-nil, append_assoc}
use zenfs_modified.Base.{
  subst, ℕ, zero, suc, ◌+◌, ◌-◌, ◌≤◌, ◌<◌, ◌≡◌, refl, sym, ap, ◌∙◌, Bool, Bool-cases, inl, inr,
  List, [], ◌++◌, leb, length, length-append, drop, take, min, arith, All,
}
use zenfs_modified.Base.Words.{int_mod, u64_mod}
use zenfs_modified.Store.{ZoneExtent, Backend, Device, ok, ◌>>=◌}
use zenfs_modified.MetaLog.Disk.{segment, ReadsDisk, length-segment}
use zenfs_modified.Files.{get_extent}
use zenfs_modified.Files.Extents.{inside_or_after}
use zenfs_modified.Files.Read.Segment.{take_behind}
use zenfs_modified.Files.Read.{
  Request, extent_end, read_size, go_on, positioned_loop, read_from, positioned_read,
}
use zenfs_modified.Files.Read.Spot.{
  content, Fits, Spot, Located, located, next-Spot, left_of, behind,
}
use zenfs_modified.Files.Read.Round.{most_asked, read_size-min, loop_done, loop_ends, loop_crosses}

module _ {B : Type 0} (be : Backend B) (disk : ℕ → ℕ) (reads : ReadsDisk be disk) where
  module _ (s : ℕ) where
    abbrev Read : ℕ → Type 0
    Read fuel =
        (q : Request) (got : List ℕ) (dev end : ℕ) (back : List ZoneExtent) (d : Device B)
        → Spot disk s q.extents (q.offset + length got) dev end back
        → most_asked q ≤ s
        → most_asked q < int_mod
        → q.offset + q.size < u64_mod
        → length got ≤ q.size
        → q.size ≤ length got + fuel
        → positioned_loop be fuel q got dev end d
          ≡ ok (got ++ take (left_of q got) (behind disk dev end back)) d

    take_nil : (n : ℕ) → take {A = ℕ} n [] ≡ []
    take_nil zero = refl
    take_nil (suc n) = refl

    all_taken :
        (q : Request) (got xs : List ℕ) (d : Device B)
        → length got ≡ q.size
        → ok got d ≡ ok (got ++ take (left_of q got) xs) d
    all_taken q got xs d h =
        let none_left : left_of q got ≡ 0 = omega (arith, h) in rw (none_left, append-nil got) refl

    take_next :
        (got xs ys : List ℕ) (dev n left : ℕ)
        → n ≤ left
        → xs ≡ ys
        → (got ++ segment disk dev n) ++ take (left - n) ys
          ≡ got ++ take left (segment disk dev n ++ xs)
    take_next got xs ys dev n left h e = rw (e, take_behind disk ys dev n left h, append_assoc) refl

    next_at :
        (es back : List ZoneExtent) (p dev end : ℕ)
        → Spot disk s es p dev end back
        → get_extent es (p + (end - dev)) ≡ get_extent back 0
    next_at es back p dev end spot =
        ap (get_extent es) {x = p + (end - dev)} {y = p + (end - dev) + 0} (omega arith)
        ∙ spot.follows 0

    Read-next :
        (fuel : ℕ)
        → Read fuel
        → (q : Request) (got : List ℕ) (dev end : ℕ) (back : List ZoneExtent) (d : Device B)
        → Spot disk s q.extents (q.offset + length got) dev end back
        → most_asked q ≤ s
        → most_asked q < int_mod
        → q.offset + q.size < u64_mod
        → end - dev < left_of q got
        → q.size ≤ length got + suc fuel
        → Located disk s back 0
        → go_on
            (λ d. ok (got ++ segment disk dev (end - dev)) d)
            (positioned_loop be fuel q (got ++ segment disk dev (end - dev)))
            (get_extent q.extents (q.offset + length got + (end - dev)))
            d
          ≡ ok (got ++ take (left_of q got) (behind disk dev end back)) d
    Read-next fuel ih q got dev end back d spot small narrow fits long enough
          (inr (none_there, nothing)) =
        rw (next_at q.extents back (q.offset + length got) dev end spot, none_there)
          (ap (λ xs. ok (got ++ xs) d)
            (sym (
              take_behind disk (content disk back) dev (end - dev) (left_of q got)
                (omega (arith, long))
              ∙ ap (λ ys. segment disk dev (end - dev) ++ ys)
                  (ap (take (left_of q got - (end - dev))) nothing
                    ∙ take_nil (left_of q got - (end - dev)))
              ∙ append-nil (segment disk dev (end - dev)))))
    Read-next fuel ih q got dev end back d spot small narrow fits long enough
          (inl (e, dev', back', there, first, t)) =
        let got' = got ++ segment disk dev (end - dev) in
        let size : length got' ≡ length got + (end - dev) = omega (
          arith,
          length-append got (segment disk dev (end - dev)),
          length-segment disk dev (end - dev),
        ) in
        let start = first refl in
        let here : Spot disk s q.extents (q.offset + length got') e.start (extent_end e) back' =
          subst (λ n. Spot disk s q.extents (q.offset + length got') n (extent_end e) back') start
            (subst (λ n. Spot disk s q.extents n dev' (extent_end e) back') (omega (arith, size))
              (next-Spot disk s q.extents back back' (q.offset + length got) dev end dev'
                (extent_end e) spot t)) in
        let same : content disk back ≡ behind disk e.start (extent_end e) back' =
          t.bytes ∙ ap (λ n. behind disk n (extent_end e) back') start in
        let fewer : left_of q got' ≡ left_of q got - (end - dev) = omega (arith, size) in
        let rest =
          ih q got' e.start (extent_end e) back' d here small narrow fits
            (omega (arith, size, long)) (omega (arith, size, enough, spot.inside)) in
        rw (next_at q.extents back (q.offset + length got) dev end spot, there)
          (rest
            ∙ ap (λ n. ok (got' ++ take n (behind disk e.start (extent_end e) back')) d) fewer
            ∙ ap (λ xs. ok xs d)
                (take_next got (content disk back) (behind disk e.start (extent_end e) back') dev
                  (end - dev) (left_of q got) (omega (arith, long)) same))

    loop-content : (fuel : ℕ) → Read fuel
    loop-content zero q got dev end back d spot small narrow fits bound enough =
        loop_done be zero q got dev end d (omega (arith, bound, enough))
        ∙ all_taken q got (behind disk dev end back) d (omega (arith, bound, enough))
    loop-content (suc fuel) q got dev end back d spot small narrow fits bound enough =
        let range : end + most_asked q < u64_mod = omega (arith, small, spot.range) in
        elim (inside_or_after (length got) q.size) [
          | inr done ↦
              loop_done be (suc fuel) q got dev end d (omega (arith, bound, done))
              ∙ all_taken q got (behind disk dev end back) d (omega (arith, bound, done))
          | inl more ↦ elim (inside_or_after (end - dev) (left_of q got)) [
            | inr short ↦
                loop_ends be disk reads fuel q got dev end back d more short narrow range
                  spot.inside
            | inl long ↦
                loop_crosses be disk reads fuel q got dev end d more long narrow range fits
                  spot.inside
                ∙ Read-next fuel (loop-content fuel) q got dev end back d spot small narrow fits
                    long enough (located disk s back 0 spot.ranges)
          ]
        ]

  read_from-content :
      (s : ℕ) (q : Request) (d : Device B)
      → All (Fits s) q.extents
      → most_asked q ≤ s
      → most_asked q < int_mod
      → q.offset + q.size < u64_mod
      → read_from be q (get_extent q.extents q.offset) d
        ≡ ok (take q.size (drop q.offset (content disk q.extents))) d
  read_from-content s q d fit small narrow fits = elim (located disk s q.extents q.offset fit) [
    | inl (e, dev, back, found, first, spot) ↦ rw found (
        loop-content s q.size q [] dev (extent_end e) back d
          (subst (λ n. Spot disk s q.extents n dev (extent_end e) back) (omega arith) spot) small
          narrow fits (omega arith) (omega arith)
        ∙ ap (λ n. ok (take n (behind disk dev (extent_end e) back)) d) {x = q.size - 0}
            (omega arith)
        ∙ ap (λ xs. ok (take q.size xs) d) (sym spot.bytes))
    | inr (none_there, nothing) ↦
        rw (none_there, nothing) (ap (λ xs. ok xs d) (sym (take_nil s q.size)))
  ]

  -- A backend that reads the device, in pieces of any length and without a signal, a file whose
  -- extents have addresses, and a read of less than 2 GiB with a block: PositionedRead gives the bytes of the file's extents from the offset on, as many as are asked for and as the file's
  -- size and its extents have, whether the read is aligned to blocks or not, and changes nothing.
  pub positioned_read-content :
      (f offset n : ℕ) (direct : Bool) (d : Device B)
      → All (Fits ((d.file f).file_size + d.block_size)) (d.file f).extents
      → n + d.block_size < int_mod
      → offset + n < u64_mod
      → positioned_read be f offset n direct d
        ≡ ok
            (take
              (min n ((d.file f).file_size - offset))
              (drop offset (content disk (d.file f).extents)))
            d
  unfolding positioned_read ◌>>=◌
  positioned_read-content f offset n direct d fit narrow no_wrap =
      let v = d.file f in
      let all = content disk v.extents in
      let q : Request = record {
        extents = v.extents;
        offset = offset;
        size = min n (v.file_size - offset);
        direct = direct;
        block_size = d.block_size;
      } in
      elim (Bool-cases (leb v.file_size offset)) [
        | inl behind_end ↦
            let no_bytes : min n (v.file_size - offset) ≡ 0 = ground arith in
            rw (behind_end, no_bytes) refl
        | inr before_end ↦
            let size : read_size v.file_size offset n ≡ min n (v.file_size - offset) =
              read_size-min v.file_size offset n no_wrap (ground arith) in
            rw (before_end, size)
              (read_from-content (v.file_size + d.block_size) q d fit (omega arith)
                (omega (arith, narrow)) (omega (arith, no_wrap)))
      ]
