-- ===== src/EmptyZones/Scan.antt =====
-- The first free and empty zone of a list, and the loops that find it.
use zenfs_modified.Base.{
  ℕ, ◌≡◌, refl, ap, subst, ◌∙◌, ◌++◌, true, false, Option, none, some, List, [], ◌∷◌, arith,
  if◌then◌else◌, Bool-cases, inl, inr, All,
}
use zenfs_modified.Store.{Zone, Device, ok, ok-then, ◌>>◌, ◌>>=◌}
use zenfs_modified.Zones.{is_empty}
use zenfs_modified.Select.{find_zone}
use zenfs_modified.Select.Claim.{claim, claim_self}
use zenfs_modified.Select.Scan.{with_zones, acquire_busy, acquire_free, check_release-claim}
use zenfs_modified.EmptyZones.{try_empty, allocate_empty_zone_default}

-- A zone that an allocator may hand out.
abbrev pub IsOpenable : Zone → Type 0
IsOpenable z = (z.busy ≡ false) × (is_empty z ≡ true)

unfoldable pub first_empty : (ℕ → Zone) → List ℕ → Option ℕ
first_empty h [] = none
first_empty h (z ∷ zs) =
    if (h z).busy then first_empty h zs else if is_empty (h z) then some z else first_empty h zs

module _ (h : ℕ → Zone) (z : ℕ) (zs : List ℕ) where
  first_empty_busy : (h z).busy ≡ true → first_empty h (z ∷ zs) ≡ first_empty h zs
  unfolding first_empty
  first_empty_busy e = ground arith

  first_empty_hit : IsOpenable (h z) → first_empty h (z ∷ zs) ≡ some z
  unfolding first_empty
  first_empty_hit e = ground arith

  first_empty_miss :
      (h z).busy ≡ false → is_empty (h z) ≡ false → first_empty h (z ∷ zs) ≡ first_empty h zs
  unfolding first_empty
  first_empty_miss e f = ground arith

-- What a search of a list returns: the first zone of the list that is free and empty, or none if
-- there is no such zone.
pub record Finds (h : ℕ → Zone) (zs : List ℕ) (a : Option ℕ) : Type 0 where
  pub found :
      (p : ℕ)
      → a ≡ some p
      → (front : List ℕ) × (back : List ℕ) × (zs ≡ front ++ p ∷ back)
        × All (λ z. ¬ IsOpenable (h z)) front
        × IsOpenable (h p)
  pub missed : a ≡ none → All (λ z. ¬ IsOpenable (h z)) zs

module _ (h : ℕ → Zone) (z : ℕ) (zs : List ℕ) where
  Finds-here : IsOpenable (h z) → Finds h (z ∷ zs) (some z)
  Finds-here o = record {
    found = λ p e.
        let same : z ≡ p = cc in
        ([], zs, ap (λ n. n ∷ zs) same, tt, subst (λ n. IsOpenable (h n)) same o);
    missed = λ e. cc;
  }

  Finds-later : {a : Option ℕ} → ¬ IsOpenable (h z) → Finds h zs a → Finds h (z ∷ zs) a
  Finds-later n r = record {
    found = λ p e.
        let (front, back, split, before, here) = r.found p e in
        (z ∷ front, back, ap (λ xs. z ∷ xs) split, (n, before), here);
    missed = λ e. (n, r.missed e);
  }

pub first_empty-Finds : (h : ℕ → Zone) (zs : List ℕ) → Finds h zs (first_empty h zs)
unfolding first_empty
first_empty-Finds h [] = record { found = λ p e. cc; missed = λ e. tt }
first_empty-Finds h (z ∷ zs) =
    let rest = first_empty-Finds h zs in
    elim (Bool-cases (h z).busy) [
      | inl e ↦ rw e (Finds-later h z zs (λ o. cc) rest)
      | inr e ↦ elim (Bool-cases (is_empty (h z))) [
        | inl f ↦ rw (e, f) (Finds-here h z zs (e, f))
        | inr f ↦ rw (e, f) (Finds-later h z zs (λ o. cc) rest)
      ]
    ]

module _ {B : Type 0} where
  pub try_empty_busy : (z : ℕ) (d : Device B) → (d.zone z).busy ≡ true → try_empty z d ≡ ok false d
  unfolding ◌>>◌ try_empty
  try_empty_busy z d e = ok-then _ (acquire_busy z d e)

  pub try_empty_hit :
      (z : ℕ) (d : Device B)
      → IsOpenable (d.zone z)
      → try_empty z d ≡ ok true (with_zones d (claim (some z) d.zone))
  unfolding ◌>>◌ try_empty
  try_empty_hit z d e = ok-then _ (acquire_free z d e.0) ∙ rw (claim_self d.zone z, e.1)

  pub try_empty_miss :
      (z : ℕ) (d : Device B)
      → (d.zone z).busy ≡ false
      → is_empty (d.zone z) ≡ false
      → try_empty z d ≡ ok false d
  unfolding ◌>>◌ try_empty
  try_empty_miss z d e f =
      ok-then _ (acquire_free z d e)
      ∙ rw (claim_self d.zone z, f) (ok-then _ (check_release-claim z d d.zone e))

  abbrev FindsFirst : List ℕ → Device B → Type 0
  FindsFirst zs d =
      find_zone try_empty zs d
      ≡ ok (first_empty d.zone zs) (with_zones d (claim (first_empty d.zone zs) d.zone))

  find_zone-cases : (z : ℕ) (zs : List ℕ) (d : Device B) → FindsFirst zs d → FindsFirst (z ∷ zs) d
  unfolding ◌>>◌ find_zone
  find_zone-cases z zs d rest = elim (Bool-cases (d.zone z).busy) [
    | inl e ↦ ok-then _ (try_empty_busy z d e) ∙ rw (first_empty_busy d.zone z zs e) rest
    | inr e ↦ elim (Bool-cases (is_empty (d.zone z))) [
      | inl f ↦ ok-then _ (try_empty_hit z d (e, f)) ∙ rw (first_empty_hit d.zone z zs (e, f))
      | inr f ↦ ok-then _ (try_empty_miss z d e f) ∙ rw (first_empty_miss d.zone z zs e f) rest
    ]
  ]

  -- A search returns the first such zone, holds it, and changes nothing else.
  pub find_zone-first_empty :
      (zs : List ℕ) (d : Device B)
      → find_zone try_empty zs d
        ≡ ok (first_empty d.zone zs) (with_zones d (claim (first_empty d.zone zs) d.zone))
  unfolding find_zone first_empty
  find_zone-first_empty [] d = refl
  find_zone-first_empty (z ∷ zs) d = find_zone-cases z zs d (find_zone-first_empty zs d)

  -- The default allocator always returns: with the first free and empty zone of the device in its
  -- order, which is then held, or with none if there is no such zone; nothing else changes.
  pub allocate_empty_zone_default-Finds :
      (d : Device B)
      → (a : Option ℕ) × (allocate_empty_zone_default d ≡ ok a (with_zones d (claim a d.zone)))
        × Finds d.zone d.io_zones a
  unfolding ◌>>=◌ allocate_empty_zone_default
  allocate_empty_zone_default-Finds d = (
    first_empty d.zone d.io_zones,
    find_zone-first_empty d.io_zones d,
    first_empty-Finds d.zone d.io_zones,
  )
