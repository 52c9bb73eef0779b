-- ===== src/MetaLog/RoundTrip.antt =====
-- A record that `AddRecord` laid out on the device is what `ReadRecord` returns.
use mathlib.Core.List.{append-nil, append_assoc}
use zenfs_modified.Base.{
  zeros, ℕ, zero, suc, ◌+◌, ◌-◌, ◌≤◌, ◌<◌, ◌≡◌, refl, sym, ap, ◌∙◌, subst, true, false, List, [],
  ◌∷◌, ◌++◌, ◌==◌, ltb, leb, length, length-append, arith,
}
use zenfs_modified.Base.Words.{u32_mod, int_mod, u64_mod, add64, add64-exact}
use zenfs_modified.Store.{Backend, Device, M, ok, ◌>>=◌, ok-then}
use zenfs_modified.Codec.{Coding}
use zenfs_modified.Codec.Items.{CodingLaws}
use zenfs_modified.MetaLog.Disk.{segment, length-segment, ReadsDisk, read_device-segment}
use zenfs_modified.MetaLog.{
  Checksum, MetaLog, meta_header_size, round_up, checksum, framed, read_loop, read_log,
  number_or_zero, read_number, check_record, read_numbers, read_sized, read_body, read_record,
}

abbrev pub moved : MetaLog → ℕ → MetaLog
moved log n = record log { read_pos = n }

module _ {B : Type 0} (be : Backend B) (disk : ℕ → ℕ) (reads : ReadsDisk be disk) where
  read_loop-rest :
      (fuel pos left : ℕ) (got : List ℕ) (d : Device B)
      → left ≡ 0
      → read_loop be fuel pos left got d ≡ ok got d
  unfolding read_loop
  read_loop-rest zero pos left got d e = rw e
  read_loop-rest (suc fuel) pos left got d e = rw e

  read_loop-segment :
      (pos n : ℕ) (d : Device B)
      → n < int_mod
      → pos + n < u64_mod
      → read_loop be n pos n [] d ≡ ok (segment disk pos n) d
  unfolding read_loop ◌>>=◌
  read_loop-segment pos zero d h b = refl
  read_loop-segment pos (suc n) d h b =
      let more : (suc n == 0) ≡ false = ground arith in
      rw more (
        ok-then _ (read_device-segment be disk reads pos (suc n) d (omega arith) h b)
        ∙ read_loop-rest n (add64 pos (length (segment disk pos (suc n))))
            (suc n - length (segment disk pos (suc n))) (segment disk pos (suc n)) d
            (omega (arith, length-segment disk pos (suc n))))

  -- The bytes to read stand before the end of the written part, and of the zone.
  abbrev IsReadable : MetaLog → ℕ → Device B → Type 0
  IsReadable log n d =
      (log.read_pos < (d.zone log.zone).wp)
      × (log.read_pos + n ≤ (d.zone log.zone).start + (d.zone log.zone).max_capacity)
      × ((d.zone log.zone).start + (d.zone log.zone).max_capacity < u64_mod)

  read_log-segment :
      (log : MetaLog) (n : ℕ) (d : Device B)
      → IsReadable log n d
      → n < int_mod
      → read_log be log n d ≡ ok (segment disk log.read_pos n, moved log (log.read_pos + n)) d
  unfolding read_log ◌>>=◌
  read_log-segment log n d h small =
      let before : leb (d.zone log.zone).wp log.read_pos ≡ false = ground arith in
      let limit = add64-exact (d.zone log.zone).start (d.zone log.zone).max_capacity h.2 in
      let end = add64-exact log.read_pos n (omega (arith, h)) in
      let inside : ltb (add64 (d.zone log.zone).start (d.zone log.zone).max_capacity)
            (add64 log.read_pos n)
          ≡ false =
        rw (limit, end) (ground arith) in
      let size = length-segment disk log.read_pos n in
      rw before (
        rw inside (
          ok-then _ (read_loop-segment log.read_pos n d small (omega (arith, h)))
          ∙ ap (λ j. ok (segment disk log.read_pos n, moved log (add64 log.read_pos j)) d) size
          ∙ ap (λ j. ok (segment disk log.read_pos n, moved log j) d) end))

-- What the source relies on in the checksum: the mask can be undone, and all stays in 32 bits.
pub record ChecksumLaws (k : Checksum) : Type 0 where
  pub unmask-mask : (n : ℕ) → n < u32_mod → k.unmask (k.mask n) ≡ n
  pub mask-lt : (n : ℕ) → k.mask n < u32_mod
  pub extend-lt : (n : ℕ) (s : List ℕ) → k.extend n s < u32_mod

-- The front of a segment, and what is behind it.
segment_front :
    (disk : ℕ → ℕ) (pos n : ℕ) (xs ys : List ℕ)
    → segment disk pos n ≡ xs ++ ys
    → segment disk pos (length xs) ≡ xs
segment_front disk pos n [] ys e = refl
segment_front disk pos zero (x ∷ xs) ys e = cc
segment_front disk pos (suc n) (x ∷ xs) ys e =
    let tails : segment disk (suc pos) n ≡ xs ++ ys = cc in
    let heads : disk pos ≡ x = cc in let rest = segment_front disk (suc pos) n xs ys tails in cc

segment_back :
    (disk : ℕ → ℕ) (pos n : ℕ) (xs ys : List ℕ)
    → segment disk pos n ≡ xs ++ ys
    → segment disk (pos + length xs) (length ys) ≡ ys
segment_back disk pos n [] ys e =
    ap (λ p. segment disk p (length ys)) (omega arith)
    ∙ ap (λ m. segment disk pos m) (sym (ap length e) ∙ length-segment disk pos n)
    ∙ e
segment_back disk pos zero (x ∷ xs) ys e = cc
segment_back disk pos (suc n) (x ∷ xs) ys e =
    let tails : segment disk (suc pos) n ≡ xs ++ ys = cc in
    let rest = segment_back disk (suc pos) n xs ys tails in
    ap (λ p. segment disk p (length ys)) (omega arith) ∙ rest

module _ (c : Coding) (laws : CodingLaws c) (k : Checksum) (sums : ChecksumLaws k) where
  -- The header of a record.
  abbrev header : List ℕ → List ℕ
  header data_ = c.put_fixed32 (k.mask (checksum c k data_)) ++ c.put_fixed32 (length data_)

  abbrev padding : ℕ → List ℕ → List ℕ
  padding block_size data_ =
      zeros
        (round_up block_size (length data_ + meta_header_size) - (length data_ + meta_header_size))

  framed-header :
      (block_size : ℕ) (data_ : List ℕ)
      → framed c k block_size data_ ≡ header data_ ++ (data_ ++ padding block_size data_)
  unfolding framed
  framed-header block_size data_ = sym (
      append_assoc (c.put_fixed32 (k.mask (checksum c k data_))) (c.put_fixed32 (length data_))
        (data_ ++ padding block_size data_))

  length-header : (data_ : List ℕ) → length (header data_) ≡ 8
  length-header data_ = omega (arith, length-append {0}, laws.length-put32)

  module _ {B : Type 0} (be : Backend B) where
    checksum-lt : (data_ : List ℕ) → checksum c k data_ < u32_mod
    unfolding checksum
    checksum-lt data_ = sums.extend-lt _ data_

    read_number-header :
        (data_ : List ℕ)
        → read_number be c k (header data_)
          ≡ (k.mask (checksum c k data_), c.put_fixed32 (length data_))
    read_number-header data_ = ap (number_or_zero be c k (header data_)) (
        laws.get-put32 (k.mask (checksum c k data_)) (c.put_fixed32 (length data_))
          (sums.mask-lt (checksum c k data_)))

    read_number-size : (n : ℕ) → n < u32_mod → read_number be c k (c.put_fixed32 n) ≡ (n, [])
    read_number-size n h =
        ap (number_or_zero be c k (c.put_fixed32 n))
          (ap c.get_fixed32 (sym (append-nil (c.put_fixed32 n))) ∙ laws.get-put32 n [] h)

    read_body-numbers :
        (xs : List ℕ) (log : MetaLog)
        → 0 < length xs
        → read_body be c k (xs, log) ≡ read_numbers be c k (read_number be c k xs) log
    unfolding read_body
    read_body-numbers [] log h = absurd (omega (arith, h))
    read_body-numbers (x ∷ xs) log h = refl

    read_body-header :
        (data_ : List ℕ) (log : MetaLog)
        → length data_ < u32_mod
        → read_body be c k (header data_, log) ≡ (
            read_log be log (length data_)
            >>= check_record be c k (k.mask (checksum c k data_)) (length data_))
    read_body-header data_ log h =
        read_body-numbers (header data_) log (omega (arith, length-header data_))
        ∙ (ap (λ r. read_numbers be c k r log) (read_number-header data_)
            ∙ ap (λ r. read_sized be c k (k.mask (checksum c k data_)) r log)
                (read_number-size (length data_) h))

    check_record-checksum :
        (data_ : List ℕ) (log : MetaLog) (d : Device B)
        → check_record be c k (k.mask (checksum c k data_)) (length data_) (data_, log) d
          ≡ ok (data_, moved log (round_up d.block_size log.read_pos)) d
    unfolding check_record checksum ◌>>=◌
    check_record-checksum data_ log d =
        let undone = sums.unmask-mask (checksum c k data_) (checksum-lt data_) in
        let same : (checksum c k data_ == k.unmask (k.mask (checksum c k data_))) ≡ true =
          ground arith in
        rw same

    module _ (disk : ℕ → ℕ) (reads : ReadsDisk be disk) where
      -- Under the laws of the coding and of the checksum, and where each read of the device is not
      -- interrupted and gives a byte at least, where the device holds a record of a byte or
      -- more and of less than 2 GiB as `AddRecord` laid it out, in the written part of the log's zone, `ReadRecord` returns the
      -- record, and the log is then at the block boundary behind it.
      pub read_record-framed :
          (log : MetaLog) (data_ : List ℕ) (d : Device B)
          → 0 < length data_
          → length data_ < int_mod
          → segment disk log.read_pos (length (framed c k d.block_size data_))
            ≡ framed c k d.block_size data_
          → log.read_pos + length (framed c k d.block_size data_) ≤ (d.zone log.zone).wp
          → (d.zone log.zone).wp ≤ (d.zone log.zone).start + (d.zone log.zone).max_capacity
          → (d.zone log.zone).start + (d.zone log.zone).max_capacity < u64_mod
          → read_record be c k log d
            ≡ ok (data_, moved log (round_up d.block_size (log.read_pos + 8 + length data_))) d
      unfolding read_record ◌>>=◌
      read_record-framed log data_ d n h e a b m =
          let laid_out = framed-header d.block_size data_ in
          let size : length (framed c k d.block_size data_)
              ≡ 8 + (length data_ + length (padding d.block_size data_)) =
            ap length laid_out
            ∙ (length-append (header data_) (data_ ++ padding d.block_size data_)
                ∙ omega (
                  arith,
                  length-header data_,
                  length-append data_ (padding d.block_size data_),
                )) in
          let whole = e ∙ laid_out in
          let front : segment disk log.read_pos 8 ≡ header data_ =
            subst (λ j. segment disk log.read_pos j ≡ header data_) (length-header data_)
              (segment_front disk log.read_pos _ (header data_) _ whole) in
          let behind : segment disk (log.read_pos + 8)
                (length (data_ ++ padding d.block_size data_))
              ≡ data_ ++ padding d.block_size data_ =
            subst
              (λ j.
                segment disk (log.read_pos + j) (length (data_ ++ padding d.block_size data_))
                ≡ data_ ++ padding d.block_size data_)
              (length-header data_) (segment_back disk log.read_pos _ (header data_) _ whole) in
          let content = segment_front disk (log.read_pos + 8) _ data_ _ behind in
          ok-then _
            (read_log-segment be disk reads log 8 d (omega (arith, a, b, m, size)) (omega arith))
          ∙ (ap (λ s. read_body be c k (s, moved log (log.read_pos + 8)) d) front
              ∙ (ap (λ (act : M B (List ℕ × MetaLog)). act d)
                    (read_body-header data_ (moved log (log.read_pos + 8)) (omega (arith, h)))
                  ∙ (ok-then _ (
                        read_log-segment be disk reads (moved log (log.read_pos + 8)) (length data_)
                          d (omega (arith, a, b, m, n, size)) h)
                      ∙ (ap
                            (λ s.
                              check_record be c k (k.mask (checksum c k data_)) (length data_)
                                (s, moved log (log.read_pos + 8 + length data_)) d)
                            content
                          ∙ check_record-checksum data_
                              (moved log (log.read_pos + 8 + length data_)) d))))
