-- ===== src/Files/Names.antt =====
-- The names of a file: `RenameLink` and `RemoveLinkName`.
use zenfs_modified.Base.{
  ℕ, ◌≡◌, refl, sym, ap, subst, ◌⊎◌, inl, inr, ◌≢◌, true, false, Bool-cases, Option, none, some,
  List, [], ◌∷◌, ◌++◌, arith, Absent,
}
use zenfs_modified.Store.{Device, ok, err, ◌>>=◌, point_at, io_error}
use zenfs_modified.Files.{eq_name, keep_first, erase_name, put_names, rename_link}

pub eq_name-same : (x y : List ℕ) → eq_name x y ≡ true → x ≡ y
eq_name-same [] [] e = refl
eq_name-same [] (b ∷ y) e = cc
eq_name-same (a ∷ x) [] e = cc
eq_name-same (a ∷ x) (b ∷ y) e =
    let heads : a ≡ b = ground arith in
    let tails : eq_name x y ≡ true = ground arith in let rest = eq_name-same x y tails in cc

pub eq_name_self : (x : List ℕ) → eq_name x x ≡ true
eq_name_self [] = refl
eq_name_self (a ∷ x) = let rest = eq_name_self x in ground arith

pub eq_name-other : (x y : List ℕ) → eq_name x y ≡ false → x ≢ y
eq_name-other x y e p =
    let self = eq_name_self x in
    let same : eq_name x y ≡ true = subst (λ z. eq_name x z ≡ true) p self in cc

-- The names around the first `name`, or that it is none of them.
abbrev pub Erased : List ℕ → List (List ℕ) → Option (List (List ℕ)) → Type 0
Erased name ns o =
    ((front : List (List ℕ)) × (back : List (List ℕ)) × (ns ≡ front ++ name ∷ back)
      × Absent name front
      × (o ≡ some (front ++ back)))
    ⊎ (Absent name ns × (o ≡ none))

keep_Erased :
    (n name : List ℕ) (ns : List (List ℕ))
    → name ≢ n
    → eq_name n name ≡ false
    → Erased name ns (erase_name name ns)
    → Erased name (n ∷ ns) (erase_name name (n ∷ ns))
unfolding erase_name
keep_Erased n name ns differ e (inl r) =
    inl (n ∷ r.0, r.1, ap (λ xs. n ∷ xs) r.2, (differ, r.3), rw e (ap (keep_first n) r.4))
keep_Erased n name ns differ e (inr r) = inr ((differ, r.0), rw e (ap (keep_first n) r.1))

pub erase_name-Erased : (name : List ℕ) (ns : List (List ℕ)) → Erased name ns (erase_name name ns)
unfolding erase_name
erase_name-Erased name [] = inr (tt, refl)
erase_name-Erased name (n ∷ ns) = elim (Bool-cases (eq_name n name)) [
  | inl e ↦ let same = eq_name-same n name e in inl ([], ns, ap (λ m. m ∷ ns) same, tt, rw e)
  | inr e ↦
      let other = eq_name-other n name e in
      let differ : name ≢ n = λ p. other (sym p) in
      keep_Erased n name ns differ e (erase_name-Erased name ns)
]

module _ {B : Type 0} where
  -- The file once it has these names.
  abbrev pub named : ℕ → List (List ℕ) → Device B → Device B
  named f ns d = record d { file = point_at d.file f (record (d.file f) { linkfiles = ns }) }

  -- A rename puts the new name last in place of the first entry of the old one, and leaves the
  -- other names in their order; a name that the file does not have is an I/O error and changes
  -- nothing.
  pub rename_link-cases :
      (f : ℕ) (src dest : List ℕ) (d : Device B)
      → ((front : List (List ℕ)) × (back : List (List ℕ)) × ((d.file f).linkfiles
            ≡ front ++ src ∷ back)
          × Absent src front
          × (rename_link f src dest d ≡ ok tt (named f ((front ++ back) ++ dest ∷ []) d)))
        ⊎ (Absent src (d.file f).linkfiles × (rename_link f src dest d ≡ err io_error d))
  unfolding rename_link ◌>>=◌
  rename_link-cases f src dest d = elim (erase_name-Erased src (d.file f).linkfiles) [
    | inl r ↦ inl (r.0, r.1, r.2, r.3, ap (λ o. put_names f (d.file f) (dest ∷ []) o d) r.4)
    | inr r ↦ inr (r.0, ap (λ o. put_names f (d.file f) (dest ∷ []) o d) r.1)
  ]
