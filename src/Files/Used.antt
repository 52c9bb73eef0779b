-- ===== src/Files/Used.antt =====
-- The used capacity of the zones across `MergeUpdate`.
use zenfs_modified.Base.{
  ℕ, ◌+◌, ◌≤◌, ◌<◌, ◌≡◌, refl, ap, sym, ◌∙◌, subst, true, false, List, [], ◌∷◌, ◌++◌, map, arith,
  leb, ◌==◌, if◌then◌else◌,
}
use zenfs_modified.Base.Int.{negsuc}
use zenfs_modified.Base.Words.{u64_mod, add64, sub64}
use zenfs_modified.Store.{
  Zone, ZoneExtent, ZoneFile, Device, ok, ◌>>=◌, ◌>>◌, ok-then, point_at, point_self,
}
use zenfs_modified.Codec.{credit}
use zenfs_modified.Codec.RoundTrip.{credits}
use zenfs_modified.Files.Update.{
  discredit, count_down, clear_loop, clear_extents, credit_loop, updated, with_update, with_level,
  merge_checked, merge_update,
}

-- The bytes that extents hold in a zone.
abbrev pub held_in : ℕ → List ZoneExtent → ℕ
held_in z [] = 0
held_in z (e ∷ es) = (if e.zone == z then e.length else 0) + held_in z es

abbrev pub discharged : ZoneExtent → (ℕ → Zone) → ℕ → Zone
discharged e h =
    point_at h e.zone
      (record (h e.zone) { used_capacity = sub64 (h e.zone).used_capacity e.length })

abbrev pub discharges : List ZoneExtent → (ℕ → Zone) → ℕ → Zone
discharges [] h = h
discharges (e ∷ es) h = discharges es (discharged e h)

-- Every zone counts the extents' bytes as used.
abbrev pub Covers : (ℕ → Zone) → List ZoneExtent → Type 0
Covers h es = (z : ℕ) → (held_in z es ≤ (h z).used_capacity) × ((h z).used_capacity < u64_mod)

abbrev pub HasRoom : (ℕ → Zone) → List ZoneExtent → Type 0
HasRoom h es = (z : ℕ) → (h z).used_capacity + held_in z es < u64_mod

held_here :
    (e : ZoneExtent) (es : List ZoneExtent) (h : ℕ → Zone)
    → held_in e.zone (e ∷ es) ≤ (h e.zone).used_capacity
    → e.length ≤ (h e.zone).used_capacity
held_here e es h k = ground arith

credit-used :
    (e : ZoneExtent) (h : ℕ → Zone) (z : ℕ)
    → (h z).used_capacity + held_in z (e ∷ []) < u64_mod
    → (credit e h z).used_capacity ≡ (h z).used_capacity + held_in z (e ∷ [])
unfolding credit add64
credit-used e h z k = ground arith

discharged-used :
    (e : ZoneExtent) (h : ℕ → Zone) (z : ℕ)
    → held_in z (e ∷ []) ≤ (h z).used_capacity
    → (h z).used_capacity < u64_mod
    → (discharged e h z).used_capacity + held_in z (e ∷ []) ≡ (h z).used_capacity
unfolding sub64
discharged-used e h z k l = ground arith

credits-used :
    (es : List ZoneExtent) (h : ℕ → Zone)
    → HasRoom h es
    → (z : ℕ) → (credits es h z).used_capacity ≡ (h z).used_capacity + held_in z es
credits-used [] h k z = omega arith
credits-used (e ∷ es) h k z =
    let here = λ (y : ℕ). credit-used e h y (omega (arith, k y)) in
    let rest = credits-used es (credit e h) (λ y. omega (arith, k y, here y)) z in
    omega (arith, rest, here z)

discharges-used :
    (es : List ZoneExtent) (h : ℕ → Zone)
    → Covers h es
    → (z : ℕ) → (discharges es h z).used_capacity + held_in z es ≡ (h z).used_capacity
discharges-used [] h k z = omega arith
discharges-used (e ∷ es) h k z =
    let here = λ (y : ℕ). discharged-used e h y (omega (arith, k y)) (omega (arith, k y)) in
    let rest =
      discharges-used es (discharged e h)
        (λ y. (omega (arith, k y, here y), omega (arith, k y, here y))) z in
    omega (arith, rest, here z)

module _ {B : Type 0} where
  credit_loop-credits :
      (es : List ZoneExtent) (d : Device B)
      → credit_loop es d ≡ ok tt (record d { zone = credits es d.zone })
  unfolding credit_loop ◌>>=◌ ◌>>◌ credit
  credit_loop-credits [] d = refl
  credit_loop-credits (e ∷ es) d = credit_loop-credits es (record d { zone = credit e d.zone })

  discredit-discharged :
      (e : ZoneExtent) (d : Device B)
      → e.length ≤ (d.zone e.zone).used_capacity
      → discredit e d ≡ ok tt (record d { zone = discharged e d.zone })
  unfolding discredit ◌>>=◌
  discredit-discharged e d h =
      let covered : leb e.length (d.zone e.zone).used_capacity ≡ true = ground arith in rw covered

  count_down_off :
      (e : ZoneExtent) (d : Device B)
      → d.params.dynamic_level_adjustment ≡ false
      → count_down e d ≡ ok tt d
  unfolding count_down ◌>>=◌
  count_down_off e d h = rw h

  clear_loop-discharges :
      (es : List ZoneExtent) (d : Device B)
      → d.params.dynamic_level_adjustment ≡ false
      → Covers d.zone es
      → clear_loop es d ≡ ok tt (record d { zone = discharges es d.zone })
  unfolding clear_loop ◌>>◌
  clear_loop-discharges [] d a k = refl
  clear_loop-discharges (e ∷ es) d a k =
      let here = λ (y : ℕ). discharged-used e d.zone y (omega (arith, k y)) (omega (arith, k y)) in
      let own : e.length ≤ (d.zone e.zone).used_capacity = held_here e es d.zone (k e.zone).0 in
      ok-then _ (discredit-discharged e d own)
      ∙ (ok-then _ (count_down_off e (record d { zone = discharged e d.zone }) a)
          ∙ clear_loop-discharges es (record d { zone = discharged e d.zone }) a
              (λ y. (omega (arith, k y, here y), omega (arith, k y, here y))))

  -- `ClearExtents` where the levels of zones stay.
  abbrev cleared : ℕ → Device B → Device B
  cleared f d = record d {
    zone = discharges (d.file f).extents d.zone;
    file = point_at d.file f (record (d.file f) { extents = [] });
  }

  clear_extents-cleared :
      (f : ℕ) (d : Device B)
      → d.params.dynamic_level_adjustment ≡ false
      → Covers d.zone (d.file f).extents
      → clear_extents f d ≡ ok tt (cleared f d)
  unfolding clear_extents ◌>>=◌ ◌>>◌
  clear_extents-cleared f d a k = ok-then _ (clear_loop-discharges (d.file f).extents d a k)

  abbrev renewed : ℕ → ZoneFile → Device B → Device B
  renewed f update d = record d { file = point_at d.file f (updated update (d.file f)) }

  abbrev merged : ℕ → ZoneFile → Device B → Device B
  merged f update d =
      let c = cleared f (renewed f update d) in
      record c {
        zone = credits update.extents c.zone;
        file = point_at c.file f (with_update update (c.file f));
      }

  merge_update-merged :
      (f : ℕ) (update : ZoneFile) (d : Device B)
      → (d.file f).file_id ≡ update.file_id
      → d.params.dynamic_level_adjustment ≡ false
      → Covers d.zone ((renewed f update d).file f).extents
      → merge_update f update true d ≡ ok tt (merged f update d)
  unfolding merge_update merge_checked ◌>>=◌ ◌>>◌
  merge_update-merged f update d e a k =
      let same : ((d.file f).file_id == update.file_id) ≡ true = ground arith in
      rw same (
        ok-then _ (clear_extents-cleared f (renewed f update d) a k)
        ∙ ok-then _ (credit_loop-credits update.extents (cleared f (renewed f update d))))

  renewed-extents :
      (f : ℕ) (update : ZoneFile) (d : Device B)
      → (d.file f).extents ≡ ((renewed f update d).file f).extents
  renewed-extents f update d =
      sym (ap (λ v. v.extents) (point_self d.file f (updated update (d.file f))))

  merged-used :
      (f : ℕ) (update : ZoneFile) (d : Device B)
      → Covers d.zone ((renewed f update d).file f).extents
      → HasRoom d.zone update.extents
      → (z : ℕ)
      → ((merged f update d).zone z).used_capacity + held_in z ((renewed f update d).file f).extents
        ≡ (d.zone z).used_capacity + held_in z update.extents
  merged-used f update d k r z =
      let old = ((renewed f update d).file f).extents in
      let h = discharges old d.zone in
      let down = λ (y : ℕ). discharges-used old d.zone k y in
      omega (arith, down z, credits-used update.extents h (λ y. omega (arith, r y, down y)) z)

  merged-extents :
      (f : ℕ) (update : ZoneFile) (d : Device B)
      → ((merged f update d).file f).extents ≡ map (with_level (negsuc 0)) update.extents
  merged-extents f update d =
      let c = cleared f (renewed f update d) in
      ap (λ v. v.extents) (point_self c.file f (with_update update (c.file f)))
      ∙ ap (λ v. v.extents ++ map (with_level (negsuc 0)) update.extents)
          (point_self (renewed f update d).file f
            (record ((renewed f update d).file f) { extents = [] }))

  -- Where `dynamic_level_adjustment` is off (it is on by default), the zones count the file's old extents as used, and the new ones
  -- fit beside them, an update that replaces a file ends well: the file has the update's extents,
  -- and every zone's used capacity loses what the old extents hold in it and gains what the new do.
  pub merge_update-used :
      (f : ℕ) (update : ZoneFile) (d : Device B)
      → (d.file f).file_id ≡ update.file_id
      → d.params.dynamic_level_adjustment ≡ false
      → Covers d.zone (d.file f).extents
      → HasRoom d.zone update.extents
      → (d' : Device B) × (merge_update f update true d ≡ ok tt d')
        × ((d'.file f).extents ≡ map (with_level (negsuc 0)) update.extents)
        × ((z : ℕ)
            → (d'.zone z).used_capacity + held_in z (d.file f).extents
              ≡ (d.zone z).used_capacity + held_in z update.extents)
  merge_update-used f update d e a k r =
      let same = renewed-extents f update d in
      let k' = subst (λ es. Covers d.zone es) same k in
      (
        merged f update d,
        merge_update-merged f update d e a k',
        merged-extents f update d,
        subst
            (λ es.
              (z : ℕ)
              → ((merged f update d).zone z).used_capacity + held_in z es
                ≡ (d.zone z).used_capacity + held_in z update.extents)
            (sym same) (merged-used f update d k' r),
      )
