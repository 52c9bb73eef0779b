-- ===== src/Select/Scan.antt =====
-- Selection as a plain fold over the zones that are not busy, and the proof that the loop computes
-- it: the loop changes the busy flag of the zone that it returns and nothing else.
use zenfs_modified.Base.{
  ℕ, ◌≡◌, refl, ap, ◌∙◌, true, false, Option, none, some, List, [], ◌∷◌, arith, if◌then◌else◌,
  Absent, Distinct, inl, inr, Bool-cases,
}
use zenfs_modified.Store.{Zone, Device, ok, M, point_at, ◌>>◌, pure, ok-then}
use zenfs_modified.Zones.{acquire, check_release}
use zenfs_modified.Select.{Best, Test, weigh, settle, select, drop_best, drop_best_or_both, zone_of}
use zenfs_modified.Select.Claim.{
  taken, claim, free-taken, free-claim, claim-other, claim-busy, claim_self, IsHeld,
}

module _ {B : Type 0} where
  abbrev pub with_zones : Device B → (ℕ → Zone) → Device B
  with_zones d h = record d { zone = h }

  pub acquire_busy : (z : ℕ) (d : Device B) → (d.zone z).busy ≡ true → acquire z d ≡ ok false d
  unfolding ◌>>◌ acquire
  acquire_busy z d e = ground arith

  pub acquire_free :
      (z : ℕ) (d : Device B)
      → (d.zone z).busy ≡ false
      → acquire z d ≡ ok true (with_zones d (claim (some z) d.zone))
  unfolding ◌>>◌ acquire
  acquire_free z d e = ground arith

  pub check_release_busy :
      (z : ℕ) (d : Device B)
      → (d.zone z).busy ≡ true
      → check_release z d
        ≡ ok tt (with_zones d (point_at d.zone z (record (d.zone z) { busy = false })))
  unfolding ◌>>◌ check_release
  check_release_busy z d e = ground arith

  -- Freeing a zone that was free before it was taken undoes the taking.
  pub check_release-claim :
      (z : ℕ) (d : Device B) (h : ℕ → Zone)
      → (h z).busy ≡ false
      → check_release z (with_zones d (claim (some z) h)) ≡ ok tt (with_zones d h)
  check_release-claim z d h e =
      check_release_busy z (with_zones d (claim (some z) h)) (claim-busy h z)
      ∙ ap (λ k. ok tt (with_zones d k)) (rw (claim_self h z) (free-taken h z e))

  -- What frees the old best zone frees it and does nothing else.
  pub record HandsOver (hand_over : Option ℕ → ℕ → M B (Unit {0})) : Type 0 where
    pub nothing : (z : ℕ) (d : Device B) → hand_over none z d ≡ ok tt d
    pub frees :
        (p z : ℕ) (d : Device B)
        → (d.zone p).busy ≡ true
        → hand_over (some p) z d
          ≡ ok tt (with_zones d (point_at d.zone p (record (d.zone p) { busy = false })))

  pub drop_best-HandsOver : HandsOver (λ b z. drop_best b)
  unfolding drop_best
  drop_best-HandsOver = record {
    nothing = λ z d. refl;
    frees = λ p z d e. check_release_busy p d e;
  }

  pub drop_best_or_both-HandsOver : HandsOver drop_best_or_both
  unfolding drop_best_or_both drop_best
  drop_best_or_both-HandsOver = record {
    nothing = λ z d. refl;
    frees = λ p z d e. rw (check_release_busy p d e, drop_best_or_both);
  }

module _ {S : Type 0} (test : Test S) where
  -- The zone that is best so far, as the test sees it.
  abbrev pub seen : Option ℕ → (ℕ → Zone) → Option Zone
  seen none h = none
  seen (some p) h = some (taken (h p))

  abbrev pub offer : Best S → ℕ → Option S → Best S
  offer b z none = b
  offer b z (some s) = record { allocated = some z; score = s }

  -- One round, on the zones as they were before the loop.
  unfoldable pub choose : (ℕ → Zone) → Best S → ℕ → Best S
  choose h b z =
      if (h z).busy then b else offer b z (test (seen b.allocated h) b.score (taken (h z)))

  pub choose_busy : (h : ℕ → Zone) (b : Best S) (z : ℕ) → (h z).busy ≡ true → choose h b z ≡ b
  unfolding choose
  choose_busy h b z e = rw e

  pub choose_free :
      (h : ℕ → Zone) (b : Best S) (z : ℕ)
      → (h z).busy ≡ false
      → choose h b z ≡ offer b z (test (seen b.allocated h) b.score (taken (h z)))
  unfolding choose
  choose_free h b z e = rw e

  unfoldable pub scan : (ℕ → Zone) → Best S → List ℕ → Best S
  scan h b [] = b
  scan h b (z ∷ zs) = scan h (choose h b z) zs

  abbrev pub best : Option ℕ → S → Best S
  best a s = record { allocated = a; score = s }

  IsHeld-rest :
      (a : Option ℕ) (h : ℕ → Zone) (z : ℕ) (zs : List ℕ) → IsHeld a h (z ∷ zs) → IsHeld a h zs
  IsHeld-rest none h z zs i = tt
  IsHeld-rest (some p) h z zs i = (i.0, i.1.1)

  IsHeld-first :
      (a : Option ℕ) (h : ℕ → Zone) (z : ℕ) (zs : List ℕ)
      → IsHeld a h (z ∷ zs)
      → IsHeld a h (z ∷ [])
  IsHeld-first none h z zs i = tt
  IsHeld-first (some p) h z zs i = (i.0, (i.1.0, tt))

  offer-IsHeld :
      (h : ℕ → Zone) (a : Option ℕ) (s : S) (z : ℕ) (zs : List ℕ) (o : Option S)
      → (h z).busy ≡ false
      → IsHeld a h zs
      → Absent z zs
      → IsHeld (offer (best a s) z o).allocated h zs
  offer-IsHeld h a s z zs none e i n = i
  offer-IsHeld h a s z zs (some t) e i n = (e, n)

  choose-IsHeld :
      (h : ℕ → Zone) (a : Option ℕ) (s : S) (z : ℕ) (zs : List ℕ)
      → IsHeld a h (z ∷ zs)
      → Absent z zs
      → IsHeld (choose h (best a s) z).allocated h zs
  choose-IsHeld h a s z zs i n = elim (Bool-cases (h z).busy) [
    | inl e ↦ rw (choose_busy h (best a s) z e) (IsHeld-rest a h z zs i)
    | inr e ↦
        rw (choose_free h (best a s) z e) (offer-IsHeld h a s z zs _ e (IsHeld-rest a h z zs i) n)
  ]

  module _ {B : Type 0} (hand_over : Option ℕ → ℕ → M B (Unit {0})) (ho : HandsOver hand_over) where
    -- The device during the loop: as before it, but for the zone that is held.
    abbrev pub holding : Device B → Option ℕ → Device B
    holding d a = with_zones d (claim a d.zone)

    settle-offer :
        (a : Option ℕ) (s : S) (z : ℕ) (o : Option S) (d : Device B)
        → IsHeld a d.zone (z ∷ [])
        → (d.zone z).busy ≡ false
        → settle hand_over test (best a s) z o (with_zones d (claim (some z) (claim a d.zone)))
          ≡ ok (offer (best a s) z o) (holding d (offer (best a s) z o).allocated)
    unfolding ◌>>◌ settle
    settle-offer none s z none d h e =
        ok-then (λ _. pure (best none s)) (check_release-claim z d d.zone e)
    settle-offer none s z (some t) d h e =
        ok-then (λ _. pure (best (some z) t)) (ho.nothing z (with_zones d (claim (some z) d.zone)))
    settle-offer (some p) s z none d h e =
        ok-then (λ _. pure (best (some p) s))
          (check_release-claim z d (claim (some p) d.zone)
            (ap (λ (v : Zone). v.busy) (claim-other d.zone p z h.1.0) ∙ e))
    settle-offer (some p) s z (some t) d h e =
        ok-then (λ _. pure (best (some z) t))
          (ho.frees p z (with_zones d (claim (some z) (claim (some p) d.zone))) (ground arith))
        ∙ ap (λ k. ok (best (some z) t) (with_zones d k)) (free-claim d.zone p z h.1.0 h.0)

    round_free :
        (a : Option ℕ) (s : S) (z : ℕ) (o : Option Zone) (d : Device B)
        → IsHeld a d.zone (z ∷ [])
        → (d.zone z).busy ≡ false
        → zone_of a (with_zones d (claim (some z) (claim a d.zone)))
          ≡ ok o (with_zones d (claim (some z) (claim a d.zone)))
        → o ≡ seen a d.zone
        → claim (some z) (claim a d.zone) z ≡ taken (d.zone z)
        → acquire z (holding d a) ≡ ok true (with_zones d (claim (some z) (claim a d.zone)))
        → weigh hand_over test (best a s) z (holding d a)
          ≡ ok (choose d.zone (best a s) z) (holding d (choose d.zone (best a s) z).allocated)
    unfolding ◌>>◌ weigh
    round_free a s z o d h e old at_a self got =
        ok-then _ got
        ∙ ok-then _ old
        ∙ rw (at_a, self, choose_free d.zone (best a s) z e)
            (settle-offer a s z (test (seen a d.zone) s (taken (d.zone z))) d h e)

    weigh-choose :
        (a : Option ℕ) (s : S) (z : ℕ) (d : Device B)
        → IsHeld a d.zone (z ∷ [])
        → weigh hand_over test (best a s) z (holding d a)
          ≡ ok (choose d.zone (best a s) z) (holding d (choose d.zone (best a s) z).allocated)
    unfolding ◌>>◌ weigh zone_of
    weigh-choose none s z d h = elim (Bool-cases (d.zone z).busy) [
      | inl e ↦ ok-then _ (acquire_busy z d e) ∙ rw (choose_busy d.zone (best none s) z e)
      | inr e ↦ round_free none s z none d h e refl refl (claim_self d.zone z) (acquire_free z d e)
    ]
    weigh-choose (some p) s z d h =
        let other : claim (some p) d.zone z ≡ d.zone z = claim-other d.zone p z h.1.0 in
        elim (Bool-cases (d.zone z).busy) [
          | inl e ↦
              ok-then _ (acquire_busy z (holding d (some p)) (ap (λ (v : Zone). v.busy) other ∙ e))
              ∙ rw (choose_busy d.zone (best (some p) s) z e)
          | inr e ↦
              round_free (some p) s z _ d h e refl (ground arith)
                (claim_self (claim (some p) d.zone) z ∙ ap taken other)
                (acquire_free z (holding d (some p)) (ap (λ (v : Zone). v.busy) other ∙ e))
        ]

    -- The loop computes the fold, from the zone that it holds.
    pub select-scan :
        (zs : List ℕ) (a : Option ℕ) (s : S) (d : Device B)
        → Distinct zs
        → IsHeld a d.zone zs
        → select hand_over test (best a s) zs (holding d a)
          ≡ ok (scan d.zone (best a s) zs) (holding d (scan d.zone (best a s) zs).allocated)
    unfolding ◌>>◌ select scan
    select-scan [] a s d n h = refl
    select-scan (z ∷ zs) a s d n h =
        let b = choose d.zone (best a s) z in
        ok-then _ (weigh-choose a s z d (IsHeld-first a d.zone z zs h))
        ∙ select-scan zs b.allocated b.score d n.1 (choose-IsHeld d.zone a s z zs h n.0)
