-- ===== src/Files/Read/Progress.antt =====
-- What the loop of `PositionedRead` rests on: the end of a read of the device, and the extent that an
-- offset lies in.
use zenfs_modified.Base.{
  ℕ, zero, suc, ◌+◌, ◌-◌, ◌%◌, ◌≤◌, ◌<◌, ◌≡◌, refl, ap, ◌∙◌, true, false, leb, Bool-cases, ◌⊎◌, inl,
  inr, Option, none, some, List, [], ◌∷◌, ◌++◌, ◌==◌, length, take, min, arith, All,
}
use zenfs_modified.Base.Words.{int_mod, u32_mod, u64_mod, add64, add64-exact}
use zenfs_modified.Store.{
  ReadReply, got_bytes, interrupted, read_failed, ZoneExtent, Backend, Device, M, Outcome, ok, err,
  io_error, ◌>>=◌,
}
use zenfs_modified.MetaLog.{ask_read, read_device_loop, read_device, read_more}
use zenfs_modified.Files.{get_extent}
use zenfs_modified.Files.Extents.{get_extent_here, get_extent_later, inside_or_after}
use zenfs_modified.Files.Read.Spot.{Fits}
use zenfs_modified.Files.Read.{extent_end}

-- At most `n` bytes, or an I/O error.
abbrev pub EndsWithin : {B : Type 0} → ℕ → Outcome B (List ℕ) → Type 0
EndsWithin n (ok bytes d) = length bytes ≤ n
EndsWithin n (err e d) = e ≡ io_error

pub length-take : (n : ℕ) (xs : List ℕ) → length (take n xs) ≡ min (length xs) n
length-take zero xs = omega arith
length-take (suc n) [] = omega arith
length-take (suc n) (x ∷ xs) = omega (arith, length-take n xs)

-- An offset is in an extent that fits, or in none.
unfoldable pub Inside : ℕ → List ZoneExtent → ℕ → Type 0
Inside s es p =
    (get_extent es p ≡ none)
    ⊎ ((e : ZoneExtent) × (dev : ℕ) × (get_extent es p ≡ some (e, dev))
        × (e.start ≤ dev)
        × (dev < extent_end e)
        × (extent_end e + s < u64_mod))

Inside-later :
    (s : ℕ) (e : ZoneExtent) (es : List ZoneExtent) (p : ℕ)
    → e.length ≤ p
    → Inside s es (p - e.length)
    → Inside s (e ∷ es) p
unfolding Inside
Inside-later s e es p h (inl n) = inl (get_extent_later e es p h ∙ n)
Inside-later s e es p h (inr r) = inr (r.0, r.1, get_extent_later e es p h ∙ r.2, r.3, r.4, r.5)

Inside-here :
    (s : ℕ) (e : ZoneExtent) (es : List ZoneExtent) (p : ℕ)
    → p < e.length
    → Fits s e
    → Inside s (e ∷ es) p
unfolding Inside
Inside-here s e es p h r =
    let end = add64-exact e.start e.length (omega (arith, r)) in
    inr (
      e,
      e.start + p,
      get_extent_here e es p h
          ∙ ap (λ n. some (e, n)) (add64-exact e.start p (omega (arith, h, r))),
      omega arith,
      omega (arith, end, h),
      omega (arith, end, r),
    )

pub inside : (s : ℕ) (es : List ZoneExtent) (p : ℕ) → All (Fits s) es → Inside s es p
unfolding Inside get_extent
inside s [] p r = inl refl
inside s (e ∷ es) p r = elim (inside_or_after p e.length) [
  | inl h ↦ Inside-here s e es p h r.0
  | inr h ↦ Inside-later s e es p h (inside s es (p - e.length) r.1)
]

-- A backend that signals interrupt a number of times at most: each interruption uses up what `waits`
-- counts, no read adds to it, and `patience` bounds it.
pub record Settles {B : Type 0} (be : Backend B) : Type 0 where
  pub waits : B → ℕ
  pub bounded : (b : B) → waits b ≤ be.patience
  pub used_up :
      (pos n : ℕ) (b : B) → (be.read pos n b).0 ≡ interrupted → waits (be.read pos n b).1 < waits b
  pub kept : (pos n : ℕ) (b : B) → waits (be.read pos n b).1 ≤ waits b

module _ {B : Type 0} (be : Backend B) (settles : Settles be) where
  unfoldable pub Replies : M B (Option (List ℕ)) → Device B → Type 0
  Replies m d = (reply : Option (List ℕ)) × (d' : Device B) × (m d ≡ ok reply d')

  more-Replies :
      (got : List ℕ) (again : M B (Option (List ℕ))) (more : List ℕ → M B (Option (List ℕ)))
      (d : Device B) (reply : ReadReply)
      → (reply ≡ interrupted → Replies again d)
      → ((x : ℕ) (xs : List ℕ) → Replies (more (x ∷ xs)) d)
      → Replies (read_more be got again more reply) d
  unfolding Replies
  more-Replies got again more d read_failed a h = (none, d, refl)
  more-Replies got again more d interrupted a h = a refl
  more-Replies got again more d (got_bytes []) a h = (some got, d, refl)
  more-Replies got again more d (got_bytes (x ∷ xs)) a h = h x xs

  read_device_loop-Replies :
      (fuel pos left : ℕ) (got : List ℕ) (d : Device B)
      → left + settles.waits d.backend ≤ fuel
      → Replies (read_device_loop be fuel pos left got) d
  unfolding read_device_loop ◌>>=◌ ask_read Replies
  read_device_loop-Replies zero pos left got d h =
      let done : (left == 0) ≡ true = ground arith in rw done (some got, d, refl)
  read_device_loop-Replies (suc fuel) pos left got d h = elim (Bool-cases (left == 0)) [
    | inl done ↦ rw done (some got, d, refl)
    | inr undone ↦
        let answer = be.read pos left d.backend in
        let d' = record d { backend = answer.1 } in
        let kept = settles.kept pos left d.backend in
        rw undone (
          more-Replies got (read_device_loop be fuel pos left got)
            (λ xs. read_device_loop be fuel (add64 pos (length xs)) (left - length xs) (got ++ xs))
            d' answer.0
            (λ e.
              read_device_loop-Replies fuel pos left got d'
                (let used = settles.used_up pos left d.backend e in omega (arith, h, used)))
            (λ x xs.
              read_device_loop-Replies fuel (add64 pos (length (x ∷ xs))) (left - length (x ∷ xs))
                (got ++ x ∷ xs) d'
                (let some_left : 0 < left = ground arith in omega (arith, h, kept, some_left))))
  ]

  -- The device's read of less than 2 GiB always ends.
  pub read_device-Replies :
      (pos n : ℕ) (d : Device B) → 0 < n → n < int_mod → Replies (read_device be pos n) d
  unfolding read_device Replies
  read_device-Replies pos n d h small =
      let same : n % u32_mod ≡ n = omega (arith, small) in
      let fits : leb int_mod n ≡ false = ground arith in
      let more : (n == 0) ≡ false = ground arith in
      let bound = settles.bounded d.backend in
      rw (same, fits, more)
        (read_device_loop-Replies (n + be.patience) pos n [] d (omega (arith, bound)))
