-- ===== src/Files/Extents.antt =====
-- `ZoneFile::GetExtent`: where an offset of a file lies on the device.
use zenfs_modified.Base.{
  ℕ, ◌+◌, ◌-◌, ◌≤◌, ◌<◌, ◌≡◌, refl, ap, ◌∙◌, ◌⊎◌, inl, inr, none, some, List, [], ◌∷◌, ◌++◌, arith,
  All,
}
use zenfs_modified.Base.Words.{u64_mod, add64, add64-exact}
use zenfs_modified.Store.{ZoneExtent}
use zenfs_modified.Files.{get_extent}

-- The bytes that extents hold.
abbrev pub total_length : List ZoneExtent → ℕ
total_length [] = 0
total_length (e ∷ es) = e.length + total_length es

-- The extent that holds the offset, behind those that hold the bytes before it.
pub record Holds (es : List ZoneExtent) (offset : ℕ) (e : ZoneExtent) (dev : ℕ) : Type 0 where
  pub front : List ZoneExtent
  pub back : List ZoneExtent
  pub split : es ≡ front ++ e ∷ back
  pub begins : total_length front ≤ offset
  pub inside : offset < total_length front + e.length
  pub place : dev + total_length front ≡ e.start + offset

abbrev pub EndsInRange : ZoneExtent → Type 0
EndsInRange e = e.start + e.length < u64_mod

abbrev Found : List ZoneExtent → ℕ → Type 0
Found es offset =
    ((e : ZoneExtent) × (dev : ℕ) × (get_extent es offset ≡ some (e, dev)) × Holds es offset e dev)
    ⊎ ((get_extent es offset ≡ none) × (total_length es ≤ offset))

abbrev pub after_extent :
    {es : List ZoneExtent} {offset dev : ℕ} {e : ZoneExtent} (x : ZoneExtent)
    → x.length ≤ offset
    → Holds es (offset - x.length) e dev
    → Holds (x ∷ es) offset e dev
after_extent x h r = record {
  front = x ∷ r.front;
  back = r.back;
  split = ap (λ xs. x ∷ xs) r.split;
  begins = omega (arith, h, r.begins);
  inside = omega (arith, h, r.inside);
  place = omega (arith, h, r.place);
}

pub inside_or_after : (o l : ℕ) → (o < l) ⊎ (l ≤ o)
inside_or_after o l = ground arith

pub get_extent_here :
    (e : ZoneExtent) (es : List ZoneExtent) (o : ℕ)
    → o < e.length
    → get_extent (e ∷ es) o ≡ some (e, add64 e.start o)
unfolding get_extent
get_extent_here e es o h = ground arith

pub get_extent_later :
    (e : ZoneExtent) (es : List ZoneExtent) (o : ℕ)
    → e.length ≤ o
    → get_extent (e ∷ es) o ≡ get_extent es (o - e.length)
unfolding get_extent
get_extent_later e es o h = ground arith

later_Found :
    (e : ZoneExtent) (es : List ZoneExtent) (o : ℕ)
    → e.length ≤ o
    → Found es (o - e.length)
    → Found (e ∷ es) o
later_Found e es o h (inl r) = inl (r.0, r.1, get_extent_later e es o h ∙ r.2, after_extent e h r.3)
later_Found e es o h (inr r) = inr (get_extent_later e es o h ∙ r.0, omega (arith, h, r.1))

-- If no extent ends beyond the device's addresses, an offset of the file is found in exactly the
-- extent that holds it, at its distance from the extent's start; where there is none, the offset
-- lies behind all extents.
pub get_extent-Found :
    (es : List ZoneExtent) (offset : ℕ)
    → All EndsInRange es
    → ((e : ZoneExtent) × (dev : ℕ) × (get_extent es offset ≡ some (e, dev))
        × Holds es offset e dev)
      ⊎ ((get_extent es offset ≡ none) × (total_length es ≤ offset))
unfolding get_extent
get_extent-Found [] o h = inr (refl, omega arith)
get_extent-Found (e ∷ es) o (h, hs) = elim (inside_or_after o e.length) [
  | inl i ↦ inl (
    e,
    e.start + o,
    get_extent_here e es o i ∙ ap (λ n. some (e, n)) (add64-exact e.start o (omega (arith, i, h))),
    record {
      front = [];
      back = es;
      split = refl;
      begins = omega arith;
      inside = omega (arith, i);
      place = omega arith;
    },
  )
  | inr i ↦ later_Found e es o i (get_extent-Found es (o - e.length) hs)
]
