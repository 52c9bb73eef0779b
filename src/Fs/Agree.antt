-- ===== src/Fs/Agree.antt =====
-- The map of names and the names that each file has agree, when a file is listed under a name exactly
-- once if the map has it there, and else not at all.
use zenfs_modified.Base.{
  ℕ, suc, ◌+◌, ◌≡◌, ◌≢◌, refl, sym, ap, ◌∙◌, subst, inl, inr, Bool, true, false, Bool-cases, Option,
  none, some, List, [], ◌∷◌, ◌++◌, if◌then◌else◌, ◌==◌, arith,
}
use zenfs_modified.Store.{point_at}
use zenfs_modified.Files.{eq_name, keep_first, erase_name}
use zenfs_modified.Files.Names.{eq_name-same}
use zenfs_modified.Fs.FileMap.{ltb_name, lookup, insert_file, erase_file}

abbrev pub Names : Type 0
Names = List (List ℕ × ℕ) × (ℕ → List (List ℕ))

abbrev pub count : List ℕ → List (List ℕ) → ℕ
count name [] = 0
count name (n ∷ ns) = if eq_name n name then suc (count name ns) else count name ns

-- How often a file has a name, by the map.
abbrev pub held_as : ℕ → Option ℕ → ℕ
held_as f none = 0
held_as f (some g) = if f == g then 1 else 0

abbrev pub Agrees : Names → Type 0
Agrees N = (f : ℕ) (name : List ℕ) → count name (N.1 f) ≡ held_as f (lookup name N.0)

pub eq_name-sym : (x y : List ℕ) (b : Bool) → eq_name x y ≡ b → eq_name y x ≡ b
eq_name-sym [] [] b e = e
eq_name-sym [] (a ∷ y) b e = e
eq_name-sym (a ∷ x) [] b e = e
eq_name-sym (a ∷ x) (c ∷ y) b e = elim (Bool-cases (a == c)) [
  | inl t ↦
      let t' : (c == a) ≡ true = ground arith in
      let rest : eq_name x y ≡ b = rw t at e in rw t' (eq_name-sym x y b rest)
  | inr t ↦
      let t' : (c == a) ≡ false = ground arith in let rest : false ≡ b = rw t at e in rw t' rest
]

-- The map after an erasure.
pub lookup-erase_file :
    (m name : List ℕ) (fs : List (List ℕ × ℕ))
    → lookup m (erase_file name fs) ≡ (if eq_name name m then none else lookup m fs)
unfolding lookup erase_file
lookup-erase_file m name [] = elim (Bool-cases (eq_name name m)) [ inl e ↦ rw e | inr e ↦ rw e ]
lookup-erase_file m name ((n, f) ∷ rest) =
    let ih = lookup-erase_file m name rest in
    elim (Bool-cases (eq_name name n)) [
      | inl e ↦ elim (Bool-cases (eq_name name m)) [
        | inl t ↦ rw (e, t) (ih ∙ rw t)
        | inr t ↦
            let same = eq_name-same name n e in
            let other : eq_name m n ≡ false =
              subst (λ x. eq_name m x ≡ false) same (eq_name-sym name m false t) in
            rw (e, t, other) (ih ∙ rw t)
      ]
      | inr e ↦ elim (Bool-cases (eq_name m n)) [
        | inl u ↦
            let same = eq_name-same m n u in
            let t : eq_name name m ≡ false = subst (λ x. eq_name name x ≡ false) (sym same) e in
            rw (e, u, t)
        | inr u ↦ rw (e, u) ih
      ]
    ]

-- The map after an insertion of a name that it did not have.
pub lookup-insert_file :
    (m name : List ℕ) (f : ℕ) (fs : List (List ℕ × ℕ))
    → lookup name fs ≡ none
    → lookup m (insert_file name f fs) ≡ (if eq_name name m then some f else lookup m fs)
unfolding lookup insert_file
lookup-insert_file m name f [] e = elim (Bool-cases (eq_name m name)) [
  | inl t ↦ rw (t, eq_name-sym m name true t)
  | inr t ↦ rw (t, eq_name-sym m name false t)
]
lookup-insert_file m name f ((n, g) ∷ rest) e = elim (Bool-cases (eq_name name n)) [
  | inl t ↦ let absurdity : some g ≡ none = rw t at e in cc
  | inr t ↦
      let absent : lookup name rest ≡ none = rw t at e in
      let ih = lookup-insert_file m name f rest absent in
      elim (Bool-cases (ltb_name name n)) [
        | inl l ↦ elim (Bool-cases (eq_name m name)) [
          | inl u ↦ rw (t, l, u, eq_name-sym m name true u)
          | inr u ↦ rw (t, l, u, eq_name-sym m name false u)
        ]
        | inr l ↦ elim (Bool-cases (eq_name m n)) [
          | inl u ↦
              let same = eq_name-same m n u in
              let t' : eq_name name m ≡ false = subst (λ x. eq_name name x ≡ false) (sym same) t in
              rw (t, l, u, t')
          | inr u ↦ rw (t, l, u) ih
        ]
      ]
]

abbrev pub one_if : Bool → ℕ
one_if true = 1
one_if false = 0

pub count-append :
    (m x : List ℕ) (ns : List (List ℕ)) → count m (ns ++ x ∷ []) ≡ count m ns + one_if (eq_name x m)
count-append m x [] = elim (Bool-cases (eq_name x m)) [ inl e ↦ rw e | inr e ↦ rw e ]
count-append m x (n ∷ ns) =
    let ih = count-append m x ns in
    elim (Bool-cases (eq_name n m)) [ inl e ↦ rw e (omega (arith, ih)) | inr e ↦ rw e ih ]

-- What a call of `erase` leaves, by counts.
abbrev pub Taken : List ℕ → List (List ℕ) → Option (List (List ℕ)) → Type 0
Taken x ns none = count x ns ≡ 0
Taken x ns (some ns') = (m : List ℕ) → count m ns ≡ count m ns' + one_if (eq_name x m)

Taken-keep :
    (x n : List ℕ) (ns : List (List ℕ)) (o : Option (List (List ℕ)))
    → eq_name n x ≡ false
    → Taken x ns o
    → Taken x (n ∷ ns) (keep_first n o)
Taken-keep x n ns none e t = rw e t
Taken-keep x n ns (some ns') e t =
    λ m. elim (Bool-cases (eq_name n m)) [ inl u ↦ rw u (omega (arith, t m)) | inr u ↦ rw u (t m) ]

pub erase_name-Taken : (x : List ℕ) (ns : List (List ℕ)) → Taken x ns (erase_name x ns)
unfolding erase_name
erase_name-Taken x [] = refl
erase_name-Taken x (n ∷ ns) = elim (Bool-cases (eq_name n x)) [
  | inl e ↦
      let same = eq_name-same n x e in
      rw e (λ m. elim (Bool-cases (eq_name x m)) [
        | inl u ↦
            let v : eq_name n m ≡ true = subst (λ y. eq_name y m ≡ true) (sym same) u in
            rw (u, v) (omega arith)
        | inr u ↦
            let v : eq_name n m ≡ false = subst (λ y. eq_name y m ≡ false) (sym same) u in
            rw (u, v) (omega arith)
      ])
  | inr e ↦ rw e (Taken-keep x n ns (erase_name x ns) e (erase_name-Taken x ns))
]

-- The same links agree with the same map.
pub Agrees-ext :
    (fs : List (List ℕ × ℕ)) (l k : ℕ → List (List ℕ))
    → ((f : ℕ) → k f ≡ l f)
    → Agrees (fs, l)
    → Agrees (fs, k)
Agrees-ext fs l k e a f m = rw (e f) (a f m)

held_as_self : (f : ℕ) → held_as f (some f) ≡ 1
held_as_self f = ground arith

pub held_as-held : (m : List ℕ) (f : ℕ) (o : Option ℕ) → o ≡ some f → held_as f o ≡ 1
held_as-held m f o e = rw e (held_as_self f)

held_as-other : (f g : ℕ) (o : Option ℕ) → o ≡ some f → (f == g) ≡ false → held_as g o ≡ 0
held_as-other f g o e s = let t : (g == f) ≡ false = ground arith in rw (e, t)

held_as-free : (f : ℕ) (o : Option ℕ) → o ≢ some f → held_as f o ≡ 0
held_as-free f none e = refl
held_as-free f (some g) e = elim (Bool-cases (f == g)) [
  | inl s ↦ let same : f ≡ g = ground arith in absurd (e (ap some (sym same)))
  | inr s ↦ rw s
]

-- A name of a file is taken from the map and from the file.
pub take-Agrees :
    (N : Names) (x : List ℕ) (f : ℕ) (ns : List (List ℕ))
    → Agrees N
    → lookup x N.0 ≡ some f
    → Taken x (N.1 f) (some ns)
    → Agrees (erase_file x N.0, point_at N.1 f ns)
take-Agrees N x f ns a here t g m = elim (Bool-cases (eq_name x m)) [
  | inl e ↦
      let found : lookup m N.0 ≡ some f =
        subst (λ y. lookup y N.0 ≡ some f) (eq_name-same x m e) here in
      let gone : lookup m (erase_file x N.0) ≡ none = lookup-erase_file m x N.0 ∙ rw e in
      let parts : count m (N.1 f) ≡ count m ns + 1 = rw e at (t m) in
      elim (Bool-cases (f == g)) [
        | inl s ↦ rw (s, gone) (omega (arith, parts, a f m, held_as-held m f (lookup m N.0) found))
        | inr s ↦ rw (s, gone) (a g m ∙ held_as-other f g (lookup m N.0) found s)
      ]
  | inr e ↦
      let kept : lookup m (erase_file x N.0) ≡ lookup m N.0 = lookup-erase_file m x N.0 ∙ rw e in
      let parts : count m (N.1 f) ≡ count m ns + 0 = rw e at (t m) in
      elim (Bool-cases (f == g)) [
        | inl s ↦
            let same : f ≡ g = ground arith in
            let mine : count m (N.1 f) ≡ held_as g (lookup m N.0) =
              subst (λ h. count m (N.1 f) ≡ held_as h (lookup m N.0)) same (a f m) in
            rw (s, kept) (omega (arith, parts, mine))
        | inr s ↦ rw (s, kept) (a g m)
      ]
]

-- A name that the map does not have is given to a file.
pub give-Agrees :
    (N : Names) (x : List ℕ) (f : ℕ)
    → Agrees N
    → lookup x N.0 ≡ none
    → Agrees (insert_file x f N.0, point_at N.1 f (N.1 f ++ x ∷ []))
give-Agrees N x f a free g m = elim (Bool-cases (eq_name x m)) [
  | inl e ↦
      let found : lookup m N.0 ≡ none =
        subst (λ y. lookup y N.0 ≡ none) (eq_name-same x m e) free in
      let here : lookup m (insert_file x f N.0) ≡ some f =
        lookup-insert_file m x f N.0 free ∙ rw e in
      let parts : count m (N.1 f ++ x ∷ []) ≡ count m (N.1 f) + 1 =
        rw e at (count-append m x (N.1 f)) in
      elim (Bool-cases (f == g)) [
        | inl s ↦
            let t : (g == f) ≡ true = ground arith in
            let none_yet : count m (N.1 f) ≡ 0 = a f m ∙ rw found in
            rw (s, here, t) (omega (arith, parts, none_yet))
        | inr s ↦
            let t : (g == f) ≡ false = ground arith in
            let none_yet : count m (N.1 g) ≡ 0 = a g m ∙ rw found in rw (s, here, t) none_yet
      ]
  | inr e ↦
      let kept : lookup m (insert_file x f N.0) ≡ lookup m N.0 =
        lookup-insert_file m x f N.0 free ∙ rw e in
      let parts : count m (N.1 f ++ x ∷ []) ≡ count m (N.1 f) + 0 =
        rw e at (count-append m x (N.1 f)) in
      elim (Bool-cases (f == g)) [
        | inl s ↦
            let same : f ≡ g = ground arith in
            let mine : count m (N.1 f) ≡ held_as g (lookup m N.0) =
              subst (λ h. count m (N.1 f) ≡ held_as h (lookup m N.0)) same (a f m) in
            rw (s, kept) (omega (arith, parts, mine))
        | inr s ↦ rw (s, kept) (a g m)
      ]
]

-- A file that the map has under no name loses the names that it has.
pub clear-Agrees :
    (N : Names) (f : ℕ)
    → Agrees N
    → ((m : List ℕ) → lookup m N.0 ≢ some f)
    → Agrees (N.0, point_at N.1 f [])
clear-Agrees N f a free g m = elim (Bool-cases (f == g)) [
  | inl s ↦
      let same : f ≡ g = ground arith in
      rw s (sym (held_as-free g (lookup m N.0) (subst (λ h. lookup m N.0 ≢ some h) same (free m))))
  | inr s ↦ rw s (a g m)
]
