-- ===== src/MetaLog/Disk.antt =====
-- `ZonedBlockDevice::Read` of fs/zbd_zenfs.cc at a backend that reads a device: the bytes it gives.
use mathlib.Core.List.{append-nil, append_assoc}
use native.Mathlib.Numerals.{unary_clauses}
use native.Mathlib.Nat.{zero-add, suc-add}
use zenfs_modified.Base.{
  ℕ, zero, suc, ◌+◌, ◌-◌, ◌%◌, ◌≤◌, ◌<◌, ◌≡◌, refl, sym, ap, ◌∙◌, false, some, List, [], ◌∷◌, ◌++◌,
  ◌==◌, leb, length, arith,
}
use zenfs_modified.Base.Words.{int_mod, u32_mod, u64_mod, add64, add64-exact}
use zenfs_modified.Store.{Backend, got_bytes, Device, ok, ◌>>=◌}
use zenfs_modified.MetaLog.{ask_read, read_device_loop, read_device}

-- The bytes of a device from an address.
abbrev pub segment : (ℕ → ℕ) → ℕ → ℕ → List ℕ
segment disk pos zero = []
segment disk pos (suc n) = disk pos ∷ segment disk (suc pos) n

-- A backend that reads a device: no signal interrupts it, a read gives a byte at least and what is
-- asked for at most, and it does not change its state.
abbrev pub ReadsDisk : {B : Type 0} → Backend B → (ℕ → ℕ) → Type 0
ReadsDisk {B} be disk =
    (pos n : ℕ) (b : B)
    → 0 < n
    → (k : ℕ) × (0 < k) × (k ≤ n) × (be.read pos n b ≡ (got_bytes (segment disk pos k), b))

pub length-segment : (disk : ℕ → ℕ) (pos n : ℕ) → length (segment disk pos n) ≡ n
length-segment disk pos zero = refl
length-segment disk pos (suc n) = omega (arith, length-segment disk (suc pos) n)

pub segment-split :
    (disk : ℕ → ℕ) (pos m n : ℕ)
    → segment disk pos (m + n) ≡ segment disk pos m ++ segment disk (pos + m) n
segment-split disk pos zero n = simp (unary_clauses, zero-add)
segment-split disk pos (suc m) n = simp (unary_clauses, suc-add, segment-split disk (suc pos) m n)

module _ {B : Type 0} (be : Backend B) (disk : ℕ → ℕ) (reads : ReadsDisk be disk) where
  read_device_loop-done :
      (fuel pos left : ℕ) (got : List ℕ) (d : Device B)
      → left ≡ 0
      → read_device_loop be fuel pos left got d ≡ ok (some got) d
  unfolding read_device_loop
  read_device_loop-done zero pos left got d e = rw e
  read_device_loop-done (suc fuel) pos left got d e = rw e

  -- A round that gives some bytes.
  read_device_loop-round :
      (fuel pos left k : ℕ) (got : List ℕ) (d : Device B)
      → 0 < left
      → 0 < k
      → be.read pos left d.backend ≡ (got_bytes (segment disk pos k), d.backend)
      → read_device_loop be (suc fuel) pos left got d
        ≡ read_device_loop be fuel (add64 pos k) (left - k) (got ++ segment disk pos k) d
  unfolding read_device_loop ask_read ◌>>=◌
  read_device_loop-round fuel pos left zero got d h z e = elim z [ ]
  read_device_loop-round fuel pos left (suc k) got d h z e =
      let more : (left == 0) ≡ false = ground arith in
      let size = length-segment disk (suc pos) k in rw (more, e, size) refl

  read_device_loop-segment :
      (fuel pos left : ℕ) (got : List ℕ) (d : Device B)
      → left ≤ fuel
      → pos + left < u64_mod
      → read_device_loop be fuel pos left got d ≡ ok (some (got ++ segment disk pos left)) d
  read_device_loop-segment fuel pos zero got d h b =
      read_device_loop-done fuel pos 0 got d refl ∙ ap (λ xs. ok (some xs) d) (sym (append-nil got))
  read_device_loop-segment zero pos (suc left) got d h b = elim h [ ]
  read_device_loop-segment (suc fuel) pos (suc left) got d h b =
      let (k, some_bytes, inner, e) = reads pos (suc left) d.backend (omega arith) in
      let place = add64-exact pos k (omega (arith, inner, b)) in
      let whole : k + (suc left - k) ≡ suc left = omega (arith, inner) in
      read_device_loop-round fuel pos (suc left) k got d (omega arith) some_bytes e
      ∙ ap (λ p. read_device_loop be fuel p (suc left - k) (got ++ segment disk pos k) d) place
      ∙ read_device_loop-segment fuel (pos + k) (suc left - k) (got ++ segment disk pos k) d
          (omega (arith, h, some_bytes)) (omega (arith, inner, b))
      ∙ ap (λ xs. ok (some xs) d) (append_assoc got _ _)
      ∙ ap (λ xs. ok (some (got ++ xs)) d)
          (sym (segment-split disk pos k (suc left - k)) ∙ ap (segment disk pos) whole)

  -- A read below 2 GiB gives all the bytes.
  pub read_device-segment :
      (pos n : ℕ) (d : Device B)
      → 0 < n
      → n < int_mod
      → pos + n < u64_mod
      → read_device be pos n d ≡ ok (some (segment disk pos n)) d
  unfolding read_device
  read_device-segment pos n d h small b =
      let same : n % u32_mod ≡ n = omega (arith, small) in
      let fits : leb int_mod n ≡ false = ground arith in
      let more : (n == 0) ≡ false = ground arith in
      rw (same, fits, more) (read_device_loop-segment (n + be.patience) pos n [] d (omega arith) b)
