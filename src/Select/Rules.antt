-- ===== src/Select/Rules.antt =====
-- Rules for the fold of a selection: an invariant, what every zone of the list ends up with, and
-- the outcome of the whole loop when it starts with no zone.
use zenfs_modified.Base.{
  ℕ, ◌≡◌, refl, sym, subst, none, some, List, [], ◌∷◌, All, Distinct, Option, false, inl, inr,
  Bool-cases,
}
use zenfs_modified.Store.{Zone, Device, ok, M}
use zenfs_modified.Select.{Best, Test, select}
use zenfs_modified.Select.Claim.{claim, taken}
use zenfs_modified.Select.Scan.{
  HandsOver, choose, choose_busy, choose_free, offer, scan, with_zones, select-scan,
}

module _ {S : Type 0} (test : Test S) (h : ℕ → Zone) where
  pub scan_inv :
      (P : Best S → Type 0)
      → ((b : Best S) (z : ℕ) → P b → P (choose test h b z))
      → (zs : List ℕ) (b : Best S) → P b
      → P (scan test h b zs)
  unfolding scan
  scan_inv P keep [] b p = p
  scan_inv P keep (z ∷ zs) b p = scan_inv P keep zs (choose test h b z) (keep b z p)

  -- A relation that a round sets up for its zone and keeps for the others holds of all in the end.
  pub scan_covers :
      (P : Best S → Type 0)
      → ((b : Best S) (z : ℕ) → P b → P (choose test h b z))
      → (C : Best S → ℕ → Type 0) → ((b : Best S) (z : ℕ) → P b → C (choose test h b z) z)
      → ((b : Best S) (z y : ℕ) → C b y → C (choose test h b z) y)
      → (zs : List ℕ) (b : Best S) → P b
      → All (C (scan test h b zs)) zs
  unfolding scan
  scan_covers P stay C new keep [] b p = tt
  scan_covers P stay C new keep (z ∷ zs) b p = (
    scan_inv (λ c. C c z) (λ c y. keep c y z) zs (choose test h b z) (new b z p),
    scan_covers P stay C new keep zs (choose test h b z) (stay b z p),
  )

  -- The zone that a fold has found is one of the list, was free, and passed the test with the score
  -- that is returned; a fold that found none returns the score that it began with.
  abbrev pub Found : (ℕ → Type 0) → (ℕ → S → Type 0) → S → Option ℕ → S → Type 0
  Found Z Q s₀ none s = s ≡ s₀
  Found Z Q s₀ (some p) s = Z p × ((h p).busy ≡ false) × Q p s

  Found-offer :
      (Z : ℕ → Type 0) (Q : ℕ → S → Type 0) (s₀ : S) (b : Best S) (z : ℕ) (o : Option S)
      → Z z
      → (h z).busy ≡ false
      → ((t : S) → o ≡ some t → Q z t)
      → Found Z Q s₀ b.allocated b.score
      → Found Z Q s₀ (offer test b z o).allocated (offer test b z o).score
  Found-offer Z Q s₀ b z none m e q f = f
  Found-offer Z Q s₀ b z (some t) m e q f = (m, e, q t refl)

  module _ (Z : ℕ → Type 0) (Q : ℕ → S → Type 0) (s₀ : S)
      (pass : (o : Option Zone) (s t : S) (z : ℕ) → test o s (taken (h z)) ≡ some t → Q z t) where
    choose-Found :
        (b : Best S) (z : ℕ)
        → Z z
        → Found Z Q s₀ b.allocated b.score
        → Found Z Q s₀ (choose test h b z).allocated (choose test h b z).score
    choose-Found b z m f = elim (Bool-cases (h z).busy) [
      | inl e ↦ subst (λ c. Found Z Q s₀ c.allocated c.score) (sym (choose_busy test h b z e)) f
      | inr e ↦
          subst (λ c. Found Z Q s₀ c.allocated c.score) (sym (choose_free test h b z e))
            (Found-offer Z Q s₀ b z _ m e (λ t. pass _ _ t z) f)
    ]

    pub scan-Found :
        (zs : List ℕ) (b : Best S)
        → All Z zs
        → Found Z Q s₀ b.allocated b.score
        → Found Z Q s₀ (scan test h b zs).allocated (scan test h b zs).score
    unfolding scan
    scan-Found [] b m f = f
    scan-Found (z ∷ zs) b m f = scan-Found zs (choose test h b z) m.1 (choose-Found b z m.0 f)

module _ {B S : Type 0} (hand_over : Option ℕ → ℕ → M B (Unit {0})) (ho : HandsOver hand_over)
    (test : Test S) where
  -- What a loop over distinct zones that starts with none returns, and what it leaves behind.
  pub select_lem :
      (s : S) (zs : List ℕ) (d : Device B)
      → Distinct zs
      → let b = scan test d.zone (record { allocated = none; score = s }) zs in
        select hand_over test (record { allocated = none; score = s }) zs d
        ≡ ok b (with_zones d (claim b.allocated d.zone))
  select_lem s zs d n = select-scan test hand_over ho zs none s d n tt
