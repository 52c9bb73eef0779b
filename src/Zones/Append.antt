-- ===== src/Zones/Append.antt =====
-- `Zone::Append`: what it takes from a zone's capacity it adds to the write pointer.
use zenfs_modified.Base.{
  ℕ, zero, suc, ◌+◌, ◌-◌, ◌%◌, ◌≤◌, ◌<◌, ◌≡◌, refl, sym, subst, ◌≢◌, true, false, Option, none,
  some, List, drop, arith, ltb, ◌==◌, Option-cases, inl, inr, ◌⊎◌,
}
use zenfs_modified.Base.Words.{
  u64_mod, u32_mod, add64, sub32, add64-exact, sub64-exact, sub32-exact,
}
use zenfs_modified.Store.{
  Backend, Device, Outcome, ok, err, ◌>>=◌, ◌>>◌, ok-then, err-then, point_self, io_error, no_space,
  point_at,
}
use zenfs_modified.Zones.{ask, replied, advance, add_bytes_written, append_loop, append}

zero_or_not : (n : ℕ) → (n ≡ 0) ⊎ (n ≢ 0)
zero_or_not n = ground arith

fits_or_not : (a b : ℕ) → (a ≤ b) ⊎ (b < a)
fits_or_not a b = ground arith

module _ {B : Type 0} where
  -- What the source relies on in the backend: a write of some bytes that does not fail takes at least a byte, and
  -- no more bytes than it was given.
  abbrev pub WritesSome : Backend B → Type 0
  WritesSome be =
      (data_ : List ℕ) (left wp : ℕ) (b : B) (n : ℕ)
      → 0 < left
      → (be.write data_ left wp b).0 ≡ some n
      → (0 < n) × (n ≤ left)

  -- `n` bytes of the zone's capacity have become written.
  abbrev pub IsTaken : ℕ → ℕ → Device B → Device B → Type 0
  IsTaken z n d d' =
      ((d'.zone z).wp ≡ (d.zone z).wp + n) × ((d'.zone z).capacity + n ≡ (d.zone z).capacity)

  -- The loop takes all that it was given, or reports an I/O error having taken less.
  abbrev pub Takes : ℕ → ℕ → Device B → Outcome B (Unit {0}) → Type 0
  Takes z left d (ok a d') = IsTaken z left d d'
  Takes z left d (err e d') = (e ≡ io_error) × (n : ℕ) × (n < left) × IsTaken z n d d'

  replied-none :
      {A : Type 0} (p : Option A × B) (d : Device B)
      → p.0 ≡ none
      → replied p d ≡ err io_error (record d { backend = p.1 })
  replied-none (none, b) d e = refl
  replied-none (some a, b) d e = cc

  replied-some :
      {A : Type 0} (p : Option A × B) (d : Device B) (a : A)
      → p.0 ≡ some a
      → replied p d ≡ ok a (record d { backend = p.1 })
  replied-some (none, b) d a e = cc
  replied-some (some a', b) d a e = cc

  -- The device once a write of `n` bytes has been counted.
  abbrev written : Backend B → List ℕ → ℕ → ℕ → ℕ → Device B → Device B
  written be data_ left z n d = record d {
    backend = (be.write data_ left (d.zone z).wp d.backend).1;
    zone = point_at d.zone z (advance n (d.zone z));
    bytes_written = add64 d.bytes_written n;
  }

  module _ (be : Backend B) (fuel z : ℕ) (data_ : List ℕ) (left : ℕ) (d : Device B) where
    the_test : left ≢ 0 → (left == 0) ≡ false
    the_test n = ground arith

    loop_fails :
        left ≢ 0
        → (be.write data_ left (d.zone z).wp d.backend).0 ≡ none
        → append_loop be (suc fuel) z data_ left d
          ≡ err io_error (record d { backend = (be.write data_ left (d.zone z).wp d.backend).1 })
    unfolding append_loop ◌>>=◌ ask
    loop_fails n e =
        rw (the_test n)
          (err-then _ (replied-none (be.write data_ left (d.zone z).wp d.backend) d e))

    loop_goes_on :
        (ret : ℕ)
        → left ≢ 0
        → (be.write data_ left (d.zone z).wp d.backend).0 ≡ some ret
        → append_loop be (suc fuel) z data_ left d
          ≡ append_loop be fuel z (drop ret data_) (sub32 left ret) (written be data_ left z ret d)
    unfolding append_loop ◌>>=◌ ◌>>◌ ask add_bytes_written
    loop_goes_on ret n e =
        rw (the_test n)
          (ok-then _ (replied-some (be.write data_ left (d.zone z).wp d.backend) d ret e))

  loop_ends :
      (be : Backend B) (fuel z : ℕ) (data_ : List ℕ) (left : ℕ) (d : Device B)
      → left ≡ 0
      → append_loop be fuel z data_ left d ≡ ok tt d
  unfolding append_loop
  loop_ends be zero z data_ left d e = rw e
  loop_ends be (suc fuel) z data_ left d e = rw e

  append_fits :
      (be : Backend B) (z : ℕ) (data_ : List ℕ) (size : ℕ) (d : Device B)
      → size ≤ (d.zone z).capacity
      → size % d.block_size ≡ 0
      → append be z data_ size d ≡ append_loop be size z data_ size d
  unfolding append ◌>>=◌
  append_fits be z data_ size d h c =
      let fits : ltb (d.zone z).capacity size ≡ false = ground arith in
      let whole : ((size % d.block_size) == 0) ≡ true = ground arith in rw (fits) (rw (whole))

  append_refused :
      (be : Backend B) (z : ℕ) (data_ : List ℕ) (size : ℕ) (d : Device B)
      → (d.zone z).capacity < size
      → append be z data_ size d ≡ err no_space d
  unfolding append ◌>>=◌
  append_refused be z data_ size d h =
      let full : ltb (d.zone z).capacity size ≡ true = ground arith in rw full

  -- Bytes taken one after the other.
  take_more :
      (z n left : ℕ) (d d' : Device B) (o : Outcome B (Unit {0}))
      → n ≤ left
      → IsTaken z n d d'
      → Takes z (left - n) d' o
      → Takes z left d o
  take_more z n left d d' (ok a d'') h t r = (omega (arith, t.0, r.0), omega (arith, t.1, r.1))
  take_more z n left d d' (err e d'') h t (r, m, k, s) =
      (r, n + m, omega (arith, k), (omega (arith, t.0, s.0), omega (arith, t.1, s.1)))

  abbrev IsInRange : ℕ → ℕ → Device B → Type 0
  IsInRange z left d =
      (left ≤ (d.zone z).capacity)
      × ((d.zone z).wp + (d.zone z).capacity < u64_mod)
      × (left < u32_mod)

  written-IsTaken :
      (be : Backend B) (data_ : List ℕ) (left z n : ℕ) (d : Device B)
      → n ≤ left
      → IsInRange z left d
      → IsTaken z n d (written be data_ left z n d)
  written-IsTaken be data_ left z n d h r =
      let w = add64-exact (d.zone z).wp n (omega (arith, h, r)) in
      let k = sub64-exact (d.zone z).capacity n (omega (arith, h, r)) (omega (arith, r)) in
      subst (λ v. (v.wp ≡ (d.zone z).wp + n) × (v.capacity + n ≡ (d.zone z).capacity))
        (sym (point_self d.zone z (advance n (d.zone z)))) (w, omega (arith, k, h, r))

  append_loop-Takes :
      (be : Backend B)
      → WritesSome be
      → (fuel z : ℕ) (data_ : List ℕ) (left : ℕ) (d : Device B) → left ≤ fuel
      → IsInRange z left d
      → Takes z left d (append_loop be fuel z data_ left d)
  append_loop-Takes be ws zero z data_ left d h r =
      subst (Takes z left d) (sym (loop_ends be zero z data_ left d (omega (arith, h))))
        (omega (arith, h), omega (arith, h))
  append_loop-Takes be ws (suc fuel) z data_ left d h r = elim (zero_or_not left) [
    | inl e ↦
        subst (Takes z left d) (sym (loop_ends be (suc fuel) z data_ left d e))
          (omega (arith, e), omega (arith, e))
    | inr n ↦ elim (Option-cases (be.write data_ left (d.zone z).wp d.backend).0) [
      | inl e ↦
          subst (Takes z left d) (sym (loop_fails be fuel z data_ left d n e))
            (refl, 0, omega (arith, n), (omega arith, omega arith))
      | inr (ret, e) ↦
          let some_bytes = ws data_ left (d.zone z).wp d.backend ret (omega (arith, n)) e in
          let t = written-IsTaken be data_ left z ret d some_bytes.1 r in
          let same = sub32-exact left ret some_bytes.1 r.2 in
          subst (Takes z left d) (sym (loop_goes_on be fuel z data_ left d ret n e)) (
            take_more z ret left d (written be data_ left z ret d) _ some_bytes.1 t (
              subst
                (λ k. Takes z k (written be data_ left z ret d) (
                  append_loop be fuel z (drop ret data_) (sub32 left ret)
                    (written be data_ left z ret d)))
                same
                (append_loop-Takes be ws fuel z (drop ret data_) (sub32 left ret)
                  (written be data_ left z ret d) (omega (arith, same, some_bytes, h))
                  (omega (arith, same, t, r), omega (arith, t, r), omega (arith, same, r)))))
    ]
  ]

  -- If a write that does not fail takes at least a byte and no more than it was given, and the
  -- write pointer and the capacity do not overflow together, then an append of whole blocks that
  -- fits in the zone's capacity moves the write pointer by its size
  -- and takes its size from the capacity; if the device reports an error it has done so for fewer
  -- bytes, and returns that error. An append that does not fit is refused and changes nothing.
  pub append-Takes :
      (be : Backend B)
      → WritesSome be
      → (z : ℕ) (data_ : List ℕ) (size : ℕ) (d : Device B)
      → (d.zone z).wp + (d.zone z).capacity < u64_mod
      → size < u32_mod
      → size % d.block_size ≡ 0
      → ((size ≤ (d.zone z).capacity) × Takes z size d (append be z data_ size d))
        ⊎ (((d.zone z).capacity < size) × (append be z data_ size d ≡ err no_space d))
  append-Takes be ws z data_ size d a b c = elim (fits_or_not size (d.zone z).capacity) [
    | inl h ↦ inl (
      h,
      subst (Takes z size d) (sym (append_fits be z data_ size d h c))
          (append_loop-Takes be ws size z data_ size d (omega arith) (h, a, b)),
    )
    | inr h ↦ inr (h, append_refused be z data_ size d h)
  ]
