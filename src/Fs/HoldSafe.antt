-- ===== src/Fs/HoldSafe.antt =====
-- What a call does to the names that holds a pointer to a file and lets it go: the file goes with
-- its last pointer, and then no name is left.
use mathlib.Core.Option.{some-injective}
use zenfs_modified.Base.{
  ℕ, ◌≡◌, ◌≢◌, refl, sym, ap, ◌∙◌, subst, Bool, true, false, Bool-cases, Option, none, some, List,
  [], ◌∷◌, inl, inr, if◌then◌else◌, ◌==◌, ◌||◌, arith,
}
use zenfs_modified.Store.{Device, Error, M, ◌>>=◌, gets, pure, put_file, point_at}
use zenfs_modified.Store.Frame.{Keeps-pure}
use zenfs_modified.Reclaim.Quiet.{Quiet, Quiet-pure}
use zenfs_modified.Files.{eq_name}
use zenfs_modified.Fs.FileMap.{lookup}
use zenfs_modified.Fs.Calls.{has_name, destroy, drop_pointer, hold, remove_handle, let_go, holding}
use zenfs_modified.Fs.NameFrame.{KeepsNames}
use zenfs_modified.Fs.Agree.{Names, Agrees, clear-Agrees}
use zenfs_modified.Fs.Destroy.{clear_extents-KeepsNames, clear_extents-Quiet}
use zenfs_modified.Fs.Safe.{
  Safe-Quiet, Safe, Tried, Safe-bind, Safe-then, Safe-gets, Safe-mono, Safe-look, Safe-attempt,
  Safe-rethrow, Safe-at,
}
use zenfs_modified.Fs.LinkSafe.{links_written}

unnamed :
    (f : ℕ) (fs : List (List ℕ × ℕ)) (m : List ℕ) → has_name f fs ≡ false → lookup m fs ≢ some f
unfolding lookup
unnamed f [] m e p = cc
unnamed f ((n, g) ∷ rest) m e p =
    let here : (f == g) ≡ false = ground arith in
    let behind : has_name f rest ≡ false = ground arith in
    elim (Bool-cases (eq_name m n)) [
      | inl t ↦
          let same : some g ≡ some f = rw t at p in let q = some-injective same in ground arith
      | inr t ↦ unnamed f rest m behind (rw t at p)
    ]

-- A map of which something holds, and names that agree.
abbrev pub Left : (List (List ℕ × ℕ) → Type 0) → Names → Type 0
Left P K = P K.0 × Agrees K

-- The map as it was, and names that agree.
abbrev pub Same : Names → Names → Type 0
Same N = Left (λ fs. fs ≡ N.0)

Left-Same : (P : List (List ℕ × ℕ) → Type 0) (K L : Names) → Left P K → Same K L → Left P L
Left-Same P K L t e = (subst P (sym e.0) t.0, e.1)

pub Tried-Same :
    (P F : List (List ℕ × ℕ) → Type 0) (s : Option Error) (K L : Names)
    → Tried (Left F) (λ _. Left P) s K
    → Same K L
    → Tried (Left F) (λ _. Left P) s L
Tried-Same P F none K L t e = Left-Same P K L t e
Tried-Same P F (some x) K L t e = Left-Same F K L t e

pub Tried-Agrees :
    (P F : List (List ℕ × ℕ) → Type 0) (s : Option Error) (K : Names)
    → Tried (Left F) (λ _. Left P) s K
    → Agrees K
Tried-Agrees P F none K t = t.1
Tried-Agrees P F (some e) K t = t.1

module _ {B : Type 0} where
  emptied-Safe :
      (E : Names → Type 0) (N : Names) (f : ℕ)
      → Safe N
          (gets (λ (d : Device B). d.file f) >>= λ v. put_file f (record v { linkfiles = [] }))
          E
          (λ _ K. K ≡ (N.0, point_at N.1 f []))
  unfolding ◌>>=◌
  emptied-Safe E N f = record {
    ends = λ d e. links_written N f (record (d.file f) { linkfiles = [] }) d e;
  }

  pub hold-KeepsNames : (f : ℕ) → KeepsNames {B = B} (hold f)
  unfolding hold
  hold-KeepsNames f = record { same = λ d. refl }

  hold-Quiet : (f : ℕ) → Quiet {B = B} (hold f)
  unfolding hold
  hold-Quiet f = record { quiet = λ d. tt }

  remove_handle-Quiet : (f : ℕ) → Quiet {B = B} (remove_handle f)
  unfolding remove_handle
  remove_handle-Quiet f = record { quiet = λ d. tt }

  remove_handle-KeepsNames : (f : ℕ) → KeepsNames {B = B} (remove_handle f)
  unfolding remove_handle
  remove_handle-KeepsNames f = record { same = λ d. refl }

module _ {B : Type 0} {E : Names → Type 0} where
  destroy-Safe :
      (N : Names) (f : ℕ)
      → Agrees N
      → has_name f N.0 ≡ false
      → Safe N (destroy {B = B} f) E (λ _. Same N)
  unfolding destroy
  destroy-Safe N f a e =
      Safe-then (Safe-Quiet (clear_extents-KeepsNames f) (clear_extents-Quiet f)) (λ _ K p.
        Safe-mono (λ L q. q)
          (λ _ L q. (
            ap (λ (x : Names). x.0) q ∙ ap (λ (x : Names). x.0) p,
            subst Agrees (sym (q ∙ ap (λ (x : Names). (x.0, point_at x.1 f [])) p))
                (clear-Agrees N f a (λ m. unnamed f N.0 m e)),
          ))
          (emptied-Safe E K f))

  pub unchanged :
      {N : Names} {m : M B (Unit {0})}
      → Agrees N
      → KeepsNames m
      → Quiet m
      → Safe N m E (λ _. Same N)
  unchanged a k q =
      Safe-mono (λ K p. p) (λ _ K p. (ap (λ (x : Names). x.0) p, subst Agrees (sym p) a))
        (Safe-Quiet k q)

  drop_if :
      (N : Names) (f : ℕ) (b held : Bool)
      → Agrees N
      → has_name f N.0 ≡ b
      → Safe N (if b || held then pure tt else destroy {B = B} f) E (λ _. Same N)
  drop_if N f true held a e = unchanged a Keeps-pure Quiet-pure
  drop_if N f false true a e = unchanged a Keeps-pure Quiet-pure
  drop_if N f false false a e = destroy-Safe N f a e

  drop_pointer-Safe :
      (N : Names) (f : ℕ) → Agrees N → Safe N (drop_pointer {B = B} f) E (λ _. Same N)
  unfolding drop_pointer
  drop_pointer-Safe N f a =
      Safe-gets (λ K. has_name f K.0) _
        (Safe-bind Safe-look (λ held K p. Safe-at p (drop_if N f (has_name f N.0) held a refl)))

  pub let_go-Safe : (N : Names) (f : ℕ) → Agrees N → Safe N (let_go {B = B} f) E (λ _. Same N)
  unfolding let_go
  let_go-Safe N f a =
      Safe-then (Safe-Quiet (remove_handle-KeepsNames f) (remove_handle-Quiet f))
        (λ _ K p. Safe-at p (drop_pointer-Safe N f a))

-- A call that holds a pointer meanwhile.
module _ {B : Type 0} (P F : List (List ℕ × ℕ) → Type 0) where
  pub holding-Safe :
      (N : Names) (f : ℕ) {m : M B (Unit {0})}
      → Safe N m (Left F) (λ _. Left P)
      → Safe N (holding f m) (Left F) (λ _. Left P)
  unfolding holding
  holding-Safe N f {m} s = Safe-then (Safe-Quiet (hold-KeepsNames f) (hold-Quiet f)) (λ _ K p.
      Safe-bind (Safe-attempt (Safe-at p s)) (λ st L t.
        Safe-then (let_go-Safe L f (Tried-Agrees P F st L t))
          (λ _ K' e. Safe-rethrow st (Tried-Same P F st L K' t e))))
