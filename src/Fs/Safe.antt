-- ===== src/Fs/Safe.antt =====
-- What a call does to the names, as triples: from given names it ends with a value and names of which
-- `Q` holds, or with an error and names of which `E` holds. What follows a failed assertion or a
-- fault is not asked for, since the program stops there.
use zenfs_modified.Base.{
  ℕ, List, ◌≡◌, refl, sym, ap, ◌∙◌, subst, Bool, true, false, Option, none, some, if◌then◌else◌,
}
use zenfs_modified.Store.{Device, Error, Outcome, ok, err, M, chain, after, ◌>>=◌, ◌>>◌, gets, fail}
use zenfs_modified.Reclaim.{attempt, status_of, is_status, rethrow}
use zenfs_modified.Reclaim.Quiet.{Quiet, NoStatus}
use zenfs_modified.Fs.NameFrame.{names_of, KeepsNames}
use zenfs_modified.Fs.Agree.{Names}

-- What a call ends with whose status is kept.
abbrev pub Tried : (Names → Type 0) → (Unit {0} → Names → Type 0) → Option Error → Names → Type 0
Tried E Q none N = Q tt N
Tried E Q (some e) N = E N

-- The call ends well, or with an error that it returns, at a device with a map of which `P` holds.
abbrev pub EndedWell : {B : Type 0} → M B (Unit {0}) → (List (List ℕ × ℕ) → Type 0) → Type 0
EndedWell {B} m P = (d : Device B) × (d' : Device B) × P d.fs.files × (m d ≡ ok tt d')

abbrev pub EndedBadly : {B : Type 0} → M B (Unit {0}) → (List (List ℕ × ℕ) → Type 0) → Type 0
EndedBadly {B} m P =
    (d : Device B) × (d' : Device B) × (e : Error) × P d.fs.files
    × (is_status e ≡ true)
    × (m d ≡ err e d')

-- How the call whose status is kept has ended.
abbrev pub Why :
    {B : Type 0} → M B (Unit {0}) → (List (List ℕ × ℕ) → Type 0) → Option Error → Type 0
Why m P none = EndedWell m P
Why m P (some e) = EndedBadly m P

module _ {B : Type 0} where
  abbrev pub Ends : (Names → Type 0) → {A : Type 0} → (A → Names → Type 0) → Outcome B A → Type 0
  Ends E Q (ok a d) = Q a (names_of d)
  Ends E Q (err e d) = is_status e ≡ true → E (names_of d)

  pub record Safe (N : Names) {A : Type 0} (m : M B A) (E : Names → Type 0) (Q : A → Names → Type 0)
      : Type 0 where
    pub ends : (d : Device B) → names_of d ≡ N → Ends E Q (m d)

  module _ (E : Names → Type 0) where
    Ends-kept :
        {A : Type 0} {N : Names} (o : Outcome B A)
        → E N
        → names_of (after o) ≡ N
        → Ends E (λ a N'. N' ≡ N) o
    Ends-kept (ok a d) g e = e
    Ends-kept (err x d) g e = λ s. subst E (sym e) g

    Ends-either :
        (Q : Option Error → Names → Type 0) (b : Bool) (e : Error) (d : Device B)
        → is_status e ≡ b
        → (b ≡ true → Q (some e) (names_of d))
        → Ends E Q (if b then ok (some e) d else err e d)
    Ends-either Q true e d s a = a refl
    Ends-either Q false e d s a = λ t. cc

    pub Ends-attempt :
        (F : Names → Type 0) (Q : Unit {0} → Names → Type 0) (o : Outcome B (Unit {0}))
        → Ends F Q o
        → Ends E (Tried F Q) (status_of o)
    Ends-attempt F Q (ok a d) q = q
    Ends-attempt F Q (err e d) q = Ends-either (Tried F Q) (is_status e) e d refl q

    Ends-tried :
        {N : Names} (o : Outcome B (Unit {0}))
        → names_of (after o) ≡ N
        → Ends E (λ (s : Option Error) K. K ≡ N) (status_of o)
    Ends-tried (ok a d) e = e
    Ends-tried {N = N} (err x d) e = Ends-either (λ s K. K ≡ N) (is_status x) x d refl (λ t. e)

  module _ {E : Names → Type 0} where
    pub Ends-chain :
        {A C : Type 0} {Q : A → Names → Type 0} {R : C → Names → Type 0} (o : Outcome B A)
        (k : A → M B C)
        → ((a : A) (N' : Names) → Q a N' → Safe N' (k a) E R)
        → Ends E Q o
        → Ends E R (chain o k)
    Ends-chain (ok a d) k h q = (h a (names_of d) q).ends d refl
    Ends-chain (err e d) k h q = q

    pub Safe-bind :
        {N : Names} {A C : Type 0} {Q : A → Names → Type 0} {R : C → Names → Type 0} {m : M B A}
        {k : A → M B C}
        → Safe N m E Q
        → ((a : A) (N' : Names) → Q a N' → Safe N' (k a) E R)
        → Safe N (m >>= k) E R
    unfolding ◌>>=◌
    Safe-bind {m = m} {k = k} s h = record { ends = λ d e. Ends-chain (m d) k h (s.ends d e) }

    pub Safe-then :
        {N : Names} {A C : Type 0} {Q : A → Names → Type 0} {R : C → Names → Type 0} {m : M B A}
        {k : M B C}
        → Safe N m E Q
        → ((a : A) (N' : Names) → Q a N' → Safe N' k E R)
        → Safe N (m >> k) E R
    unfolding ◌>>◌
    Safe-then {m = m} {k = k} s h = record {
      ends = λ d e. Ends-chain (m d) (λ _. k) h (s.ends d e);
    }

    -- A call that keeps the names.
    pub Safe-kept :
        {N : Names} {A : Type 0} {m : M B A} → E N → KeepsNames m → Safe N m E (λ a N'. N' ≡ N)
    Safe-kept {m = m} g h = record { ends = λ d e. Ends-kept E (m d) g (h.same d ∙ e) }

    -- A look at the device.
    pub Safe-look : {N : Names} {A : Type 0} {g : Device B → A} → Safe N (gets g) E (λ a N'. N' ≡ N)
    Safe-look = record { ends = λ d e. e }

    -- A look at the names.
    pub Safe-gets :
        {N : Names} {A C : Type 0} {R : C → Names → Type 0} (g : Names → A) (k : A → M B C)
        → Safe N (k (g N)) E R
        → Safe N (gets (λ d. g (names_of d)) >>= k) E R
    unfolding ◌>>=◌
    Safe-gets {R = R} g k s = record {
      ends = λ d e. subst (λ a. Ends E R (k a d)) (sym (ap g e)) (s.ends d e);
    }

    -- From the same names.
    pub Safe-at :
        {N K : Names} {A : Type 0} {Q : A → Names → Type 0} {m : M B A}
        → K ≡ N
        → Safe N m E Q
        → Safe K m E Q
    Safe-at e s = record { ends = λ d p. s.ends d (p ∙ e) }

    Ends-mono :
        {F : Names → Type 0} {A : Type 0} {Q R : A → Names → Type 0} (o : Outcome B A)
        → ((N' : Names) → E N' → F N')
        → ((a : A) (N' : Names) → Q a N' → R a N')
        → Ends E Q o
        → Ends F R o
    Ends-mono (ok a d) f h q = h a (names_of d) q
    Ends-mono (err e d) f h q = λ s. f (names_of d) (q s)

    pub Safe-mono :
        {F : Names → Type 0} {N : Names} {A : Type 0} {Q R : A → Names → Type 0} {m : M B A}
        → ((N' : Names) → E N' → F N')
        → ((a : A) (N' : Names) → Q a N' → R a N')
        → Safe N m E Q
        → Safe N m F R
    Safe-mono {m = m} f h s = record { ends = λ d e. Ends-mono (m d) f h (s.ends d e) }

    pub Safe-fail :
        {N : Names} {A : Type 0} {Q : A → Names → Type 0} (e : Error)
        → E N
        → Safe N (fail {A = A} e) E Q
    Safe-fail e g = record { ends = λ d n s. subst E (sym n) g }

    pub Safe-attempt :
        {F : Names → Type 0} {N : Names} {Q : Unit {0} → Names → Type 0} {m : M B (Unit {0})}
        → Safe N m E Q
        → Safe N (attempt m) F (Tried E Q)
    unfolding attempt
    Safe-attempt {F = F} {Q = Q} {m = m} s = record {
      ends = λ d e. Ends-attempt F E Q (m d) (s.ends d e);
    }

    pub Safe-rethrow :
        {N : Names} {Q : Unit {0} → Names → Type 0} (s : Option Error)
        → Tried E Q s N
        → Safe N (rethrow s) E Q
    Safe-rethrow {Q = Q} none q = record { ends = λ d e. subst (Q tt) (sym e) q }
    Safe-rethrow (some x) q = Safe-fail x q

  -- A call that keeps the names and whose status is kept.
  pub Safe-tried :
      {E : Names → Type 0} {N : Names} {m : M B (Unit {0})}
      → KeepsNames m
      → Safe N (attempt m) E (λ s K. K ≡ N)
  unfolding attempt
  Safe-tried {E = E} {m = m} h = record { ends = λ d e. Ends-tried E (m d) (h.same d ∙ e) }

  Ends-Why :
      (E : Names → Type 0) {N : Names} (m : M B (Unit {0})) (P : List (List ℕ × ℕ) → Type 0)
      (d : Device B) (o : Outcome B (Unit {0}))
      → P d.fs.files
      → m d ≡ o
      → names_of (after o) ≡ N
      → Ends E (λ s K. (K ≡ N) × Why m P s) (status_of o)
  Ends-Why E m P d (ok a d') p h e = (e, (d, d', p, h))
  Ends-Why E {N = N} m P d (err x d') p h e =
      Ends-either E (λ s K. (K ≡ N) × Why m P s) (is_status x) x d' refl
        (λ t. (e, (d, d', x, p, t, h)))

  -- The same, with the way in which it ended.
  pub Safe-Why :
      {E : Names → Type 0} {N : Names} {m : M B (Unit {0})} (P : List (List ℕ × ℕ) → Type 0)
      → P N.0
      → KeepsNames m
      → Safe N (attempt m) E (λ s K. (K ≡ N) × Why m P s)
  unfolding attempt
  Safe-Why {E = E} {m = m} P p h = record {
    ends =
        λ d e. Ends-Why E m P d (m d) (subst (λ (K : Names). P K.0) (sym e) p) refl (h.same d ∙ e);
  }

  Ends-quiet :
      (E : Names → Type 0) {A : Type 0} {N : Names} (o : Outcome B A)
      → NoStatus o
      → names_of (after o) ≡ N
      → Ends E (λ a K. K ≡ N) o
  Ends-quiet E (ok a d) q e = e
  Ends-quiet E (err x d) q e = λ s. cc

  -- A call that keeps the names and returns no error.
  pub Safe-Quiet :
      {E : Names → Type 0} {N : Names} {A : Type 0} {m : M B A}
      → KeepsNames m
      → Quiet m
      → Safe N m E (λ a K. K ≡ N)
  Safe-Quiet {E = E} {m = m} h q = record {
    ends = λ d e. Ends-quiet E (m d) (q.quiet d) (h.same d ∙ e);
  }
