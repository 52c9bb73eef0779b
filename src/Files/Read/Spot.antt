-- ===== src/Files/Read/Spot.antt =====
-- Where an offset of a file lies, and that the next extent follows where one ends.
use zenfs_modified.Base.{
  subst, ℕ, zero, suc, ◌+◌, ◌-◌, ◌≤◌, ◌<◌, ◌≡◌, refl, sym, ap, ◌∙◌, ◌⊎◌, inl, inr, none, some, List,
  [], ◌∷◌, ◌++◌, length, drop, arith, All,
}
use zenfs_modified.Base.Words.{u64_mod, add64-exact}
use zenfs_modified.Store.{ZoneExtent}
use zenfs_modified.MetaLog.Disk.{segment}
use zenfs_modified.Files.{get_extent}
use zenfs_modified.Files.Extents.{get_extent_here, get_extent_later, inside_or_after}
use zenfs_modified.Files.Read.Segment.{drop-drop, drop-segment, drop_behind}
use zenfs_modified.Files.Read.{Request, extent_end}

-- The bytes of the extents.
abbrev pub content : (ℕ → ℕ) → List ZoneExtent → List ℕ
content disk [] = []
content disk (e ∷ es) = segment disk e.start e.length ++ content disk es

-- What the loop has left to read.
abbrev pub left_of : Request → List ℕ → ℕ
left_of q got = q.size - length got

-- The bytes from a place in an extent on.
abbrev pub behind : (ℕ → ℕ) → ℕ → ℕ → List ZoneExtent → List ℕ
behind disk dev end back = segment disk dev (end - dev) ++ content disk back

-- The extent's end and the bytes to read have an address.
abbrev pub Fits : ℕ → ZoneExtent → Type 0
Fits size e = e.start + e.length + size < u64_mod

-- An offset `p` of the file lies at `dev`, before the end of an extent that `back` is behind.
pub record Spot (disk : ℕ → ℕ) (size : ℕ) (es : List ZoneExtent) (p dev end : ℕ)
    (back : List ZoneExtent) : Type 0 where
  pub follows : (o : ℕ) → get_extent es (p + (end - dev) + o) ≡ get_extent back o
  pub bytes : drop p (content disk es) ≡ segment disk dev (end - dev) ++ content disk back
  pub inside : dev < end
  pub range : end + size < u64_mod
  pub ranges : All (Fits size) back

module _ (disk : ℕ → ℕ) (size : ℕ) where
  abbrev pub Located : List ZoneExtent → ℕ → Type 0
  Located es p =
      ((e : ZoneExtent) × (dev : ℕ) × (back : List ZoneExtent) × (get_extent es p ≡ some (e, dev))
        × (p ≡ 0 → dev ≡ e.start)
        × Spot disk size es p dev (extent_end e) back)
      ⊎ ((get_extent es p ≡ none) × (drop p (content disk es) ≡ []))

  Spot-here :
      (e : ZoneExtent) (es : List ZoneExtent) (p : ℕ)
      → p < e.length
      → All (Fits size) (e ∷ es)
      → Spot disk size (e ∷ es) p (e.start + p) (e.start + e.length) es
  Spot-here e es p h r = record {
    follows = λ o.
        get_extent_later e es (p + (e.start + e.length - (e.start + p)) + o) (omega (arith, h))
        ∙ ap (get_extent es) (omega (arith, h));
    bytes =
        drop-segment disk (content disk es) e.start e.length p (omega (arith, h))
        ∙ ap (λ n. segment disk (e.start + p) n ++ content disk es) (omega (arith, h));
    inside = omega (arith, h);
    range = r.0;
    ranges = r.1;
  }

  Spot-later :
      (e : ZoneExtent) (es back : List ZoneExtent) (p dev end : ℕ)
      → e.length ≤ p
      → Spot disk size es (p - e.length) dev end back
      → Spot disk size (e ∷ es) p dev end back
  Spot-later e es back p dev end h s = record {
    follows = λ o.
        get_extent_later e es (p + (end - dev) + o) (omega (arith, h))
        ∙ ap (get_extent es) (omega (arith, h))
        ∙ s.follows o;
    bytes = drop_behind disk (content disk es) e.start e.length p h ∙ s.bytes;
    inside = s.inside;
    range = s.range;
    ranges = s.ranges;
  }

  Located-here :
      (e : ZoneExtent) (es : List ZoneExtent) (p : ℕ)
      → p < e.length
      → All (Fits size) (e ∷ es)
      → Located (e ∷ es) p
  Located-here e es p h r =
      let place = add64-exact e.start p (omega (arith, h, r.0)) in
      let end = add64-exact e.start e.length (omega (arith, r.0)) in
      inl (
        e,
        e.start + p,
        es,
        get_extent_here e es p h ∙ ap (λ n. some (e, n)) place,
        λ z. omega (arith, z),
        subst (λ n. Spot disk size (e ∷ es) p (e.start + p) n es) (sym end) (Spot-here e es p h r),
      )

  Located-later :
      (e : ZoneExtent) (es : List ZoneExtent) (p : ℕ)
      → e.length ≤ p
      → Located es (p - e.length)
      → Located (e ∷ es) p
  Located-later e es p h (inl (x, dev, back, found, first, s)) = inl (
    x,
    dev,
    back,
    get_extent_later e es p h ∙ found,
    λ z. first (omega (arith, z)),
    Spot-later e es back p dev (extent_end x) h s,
  )
  Located-later e es p h (inr (none_there, nothing)) = inr (
    get_extent_later e es p h ∙ none_there,
    drop_behind disk (content disk es) e.start e.length p h ∙ nothing,
  )

  -- Every offset lies in an extent, or behind all bytes.
  pub located : (es : List ZoneExtent) (p : ℕ) → All (Fits size) es → Located es p
  unfolding get_extent
  located [] zero r = inr (refl, refl)
  located [] (suc p) r = inr (refl, refl)
  located (e ∷ es) p r = elim (inside_or_after p e.length) [
    | inl h ↦ Located-here e es p h r
    | inr h ↦ Located-later e es p h (located es (p - e.length) r.1)
  ]

  -- Where an extent ends, the next one begins.
  pub next-Spot :
      (es back rest : List ZoneExtent) (p dev end start end' : ℕ)
      → Spot disk size es p dev end back
      → Spot disk size back 0 start end' rest
      → Spot disk size es (p + (end - dev)) start end' rest
  next-Spot es back rest p dev end start end' s t = record {
    follows = λ o.
        ap (get_extent es) (omega arith)
        ∙ s.follows (end' - start + o)
        ∙ ap (get_extent back) (omega arith)
        ∙ t.follows o;
    bytes =
        drop-drop p (end - dev) (content disk es)
        ∙ ap (drop (end - dev)) s.bytes
        ∙ drop_behind disk (content disk back) dev (end - dev) (end - dev) (omega arith)
        ∙ ap (λ n. drop n (content disk back)) {y = 0} (omega arith)
        ∙ t.bytes;
    inside = t.inside;
    range = t.range;
    ranges = t.ranges;
  }
