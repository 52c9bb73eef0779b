-- ===== src/Files/Read/Segment.antt =====
-- What `take` and `drop` leave of a device's bytes with others behind them.
use native.Mathlib.Numerals.{unary_clauses}
use native.Mathlib.Nat.{zero-add, suc-add}
use zenfs_modified.Base.{
  ℕ, zero, suc, ◌+◌, ◌-◌, ◌≤◌, ◌≡◌, refl, List, [], ◌∷◌, ◌++◌, drop, take, arith,
}
use zenfs_modified.MetaLog.Disk.{segment}

module _ (disk : ℕ → ℕ) where
  pub drop-segment :
      (xs : List ℕ) (pos n p : ℕ)
      → p ≤ n
      → drop p (segment disk pos n ++ xs) ≡ segment disk (pos + p) (n - p) ++ xs
  drop-segment xs pos n zero h = simp unary_clauses
  drop-segment xs pos zero (suc p) h = elim h [ ]
  drop-segment xs pos (suc n) (suc p) h =
      simp (unary_clauses, suc-add, drop-segment xs (suc pos) n p (omega (arith, h)))

  pub drop_behind :
      (xs : List ℕ) (pos n p : ℕ) → n ≤ p → drop p (segment disk pos n ++ xs) ≡ drop (p - n) xs
  drop_behind xs pos zero p h = simp unary_clauses
  drop_behind xs pos (suc n) zero h = elim h [ ]
  drop_behind xs pos (suc n) (suc p) h =
      simp (unary_clauses, drop_behind xs (suc pos) n p (omega (arith, h)))

  pub take-segment :
      (xs : List ℕ) (pos n p : ℕ) → p ≤ n → take p (segment disk pos n ++ xs) ≡ segment disk pos p
  take-segment xs pos n zero h = refl
  take-segment xs pos zero (suc p) h = elim h [ ]
  take-segment xs pos (suc n) (suc p) h = simp (take-segment xs (suc pos) n p (omega (arith, h)))

  pub take_behind :
      (xs : List ℕ) (pos n p : ℕ)
      → n ≤ p
      → take p (segment disk pos n ++ xs) ≡ segment disk pos n ++ take (p - n) xs
  take_behind xs pos zero p h = simp unary_clauses
  take_behind xs pos (suc n) zero h = elim h [ ]
  take_behind xs pos (suc n) (suc p) h =
      simp (unary_clauses, take_behind xs (suc pos) n p (omega (arith, h)))

pub drop-drop : (m n : ℕ) (xs : List ℕ) → drop (m + n) xs ≡ drop n (drop m xs)
drop-drop zero n xs = simp zero-add
drop-drop (suc m) zero [] = simp unary_clauses
drop-drop (suc m) (suc n) [] = simp unary_clauses
drop-drop (suc m) n (x ∷ xs) = simp (suc-add, drop-drop m n xs)
