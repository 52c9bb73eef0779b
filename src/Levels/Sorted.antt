-- ===== src/Levels/Sorted.antt =====
-- The files of a level stand in the order of their smallest keys.
use zenfs_modified.Base.{
  ℕ, zero, suc, ◌≡◌, refl, ap, ◌∙◌, inl, inr, true, false, Bool-cases, List, [], ◌∷◌, map, ◌==◌,
  set, All, All-mono, arith,
}
use zenfs_modified.Base.Int.{ℤ, pos, negsuc, leb_ℤ}
use zenfs_modified.Store.{ZoneFile, Device, point_at, after}
use zenfs_modified.Store.Preserve.{Preserves, Preserves-pure, preserve_rules}
use zenfs_modified.Levels.{
  KeyOrder, grow_lists, level_list, remove_pointer, insert_record, remove_zone_file_record,
  insert_at, add_at, add_zone_file_record, mark_recorded, record_file, create_or_update_record,
}

module _ (kc : KeyOrder) where
  -- What the source relies on in the comparison: it is a total preorder.
  pub record OrderLaws : Type 0 where
    pub trans :
        (a b c : List ℕ)
        → leb_ℤ (kc a b) (pos 0) ≡ true
        → leb_ℤ (kc b c) (pos 0) ≡ true
        → leb_ℤ (kc a c) (pos 0) ≡ true
    pub total : (a b : List ℕ) → leb_ℤ (kc a b) (pos 0) ≡ false → leb_ℤ (kc b a) (pos 0) ≡ true

  -- A file and one whose smallest key is no smaller.
  abbrev pub Before : (ℕ → ZoneFile) → ℕ → ℕ → Type 0
  Before h f g = leb_ℤ (kc (h f).smallest (h g).smallest) (pos 0) ≡ true

  abbrev pub InOrder : (ℕ → ZoneFile) → List ℕ → Type 0
  InOrder h [] = Unit
  InOrder h (f ∷ fs) = All (Before h f) fs × InOrder h fs

  -- Every level's files are in order.
  abbrev pub IsSorted : {B : Type 0} → Device B → Type 0
  IsSorted d = All (InOrder d.file) d.levelwise_file_list

  remove-All : (P : ℕ → Type 0) (f : ℕ) (fs : List ℕ) → All P fs → All P (remove_pointer f fs)
  remove-All P f [] a = a
  remove-All P f (g ∷ gs) a = elim (Bool-cases (f == g)) [
    | inl e ↦ rw e (remove-All P f gs a.1)
    | inr e ↦ rw e (a.0, remove-All P f gs a.1)
  ]

  remove-InOrder :
      (h : ℕ → ZoneFile) (f : ℕ) (fs : List ℕ) → InOrder h fs → InOrder h (remove_pointer f fs)
  remove-InOrder h f [] s = s
  remove-InOrder h f (g ∷ gs) s = elim (Bool-cases (f == g)) [
    | inl e ↦ rw e (remove-InOrder h f gs s.1)
    | inr e ↦ rw e (remove-All (Before h g) f gs s.0, remove-InOrder h f gs s.1)
  ]

  remove-lists :
      (h : ℕ → ZoneFile) (f : ℕ) (ls : List (List ℕ))
      → All (InOrder h) ls
      → All (InOrder h) (map (remove_pointer f) ls)
  remove-lists h f [] a = a
  remove-lists h f (l ∷ ls) a = (remove-InOrder h f l a.0, remove-lists h f ls a.1)

  insert-All :
      (P : ℕ → Type 0) (h : ℕ → ZoneFile) (f : ℕ) (fs : List ℕ)
      → P f
      → All P fs
      → All P (insert_record kc h f fs)
  unfolding insert_record
  insert-All P h f [] p a = (p, a)
  insert-All P h f (g ∷ gs) p a =
      elim (Bool-cases (leb_ℤ (kc (h g).smallest (h f).smallest) (pos 0))) [
        | inl e ↦ rw e (a.0, insert-All P h f gs p a.1)
        | inr e ↦ rw e (p, a)
      ]

  -- Files with the same smallest keys are in order as well.
  InOrder-same :
      (h k : ℕ → ZoneFile) (fs : List ℕ)
      → ((g : ℕ) → (k g).smallest ≡ (h g).smallest)
      → InOrder h fs
      → InOrder k fs
  InOrder-same h k [] e s = s
  InOrder-same h k (f ∷ fs) e s = (
    All-mono {P = Before h f} {Q = Before k f} (λ g b. rw (e f, e g) b) fs s.0,
    InOrder-same h k fs e s.1,
  )

  lists-same :
      (h k : ℕ → ZoneFile) (ls : List (List ℕ))
      → ((g : ℕ) → (k g).smallest ≡ (h g).smallest)
      → All (InOrder h) ls
      → All (InOrder k) ls
  lists-same h k ls e a =
      All-mono {P = InOrder h} {Q = InOrder k} (λ fs s. InOrder-same h k fs e s) ls a

  module _ (laws : OrderLaws) where
    insert-InOrder :
        (h : ℕ → ZoneFile) (f : ℕ) (fs : List ℕ)
        → InOrder h fs
        → InOrder h (insert_record kc h f fs)
    unfolding insert_record
    insert-InOrder h f [] s = (tt, tt)
    insert-InOrder h f (g ∷ gs) s =
        elim (Bool-cases (leb_ℤ (kc (h g).smallest (h f).smallest) (pos 0))) [
          | inl e ↦ rw e (insert-All (Before h g) h f gs e s.0, insert-InOrder h f gs s.1)
          | inr e ↦
              let first = laws.total (h g).smallest (h f).smallest e in
              rw e (
                (
                  first,
                  All-mono (λ x b. laws.trans (h f).smallest (h g).smallest (h x).smallest first b)
                      gs s.0,
                ),
                s,
              )
        ]

    grow-lists :
        (h : ℕ → ZoneFile) (n : ℕ) (ls : List (List ℕ))
        → All (InOrder h) ls
        → All (InOrder h) (grow_lists n ls)
    grow-lists h zero ls a = a
    grow-lists h (suc n) [] a = (tt, grow-lists h n [] tt)
    grow-lists h (suc n) (l ∷ ls) a = (a.0, grow-lists h n ls a.1)

    level-InOrder :
        (h : ℕ → ZoneFile) (ls : List (List ℕ)) (n : ℕ)
        → All (InOrder h) ls
        → InOrder h (level_list ls n)
    level-InOrder h [] n a = tt
    level-InOrder h (l ∷ ls) zero a = a.0
    level-InOrder h (l ∷ ls) (suc n) a = level-InOrder h ls n a.1

    set-lists :
        (h : ℕ → ZoneFile) (ls : List (List ℕ)) (n : ℕ) (l : List ℕ)
        → InOrder h l
        → All (InOrder h) ls
        → All (InOrder h) (set ls n l)
    set-lists h [] n l s a = a
    set-lists h (k ∷ ls) zero l s a = (s, a.1)
    set-lists h (k ∷ ls) (suc n) l s a = (a.0, set-lists h ls n l s a.1)

    module _ {B : Type 0} where
      remove-IsSorted : (f : ℕ) → Preserves (IsSorted {B = B}) (remove_zone_file_record f)
      unfolding remove_zone_file_record
      remove-IsSorted f = record { kept = λ d s. remove-lists d.file f d.levelwise_file_list s }

      insert-IsSorted : (f n : ℕ) → Preserves (IsSorted {B = B}) (insert_at kc f n)
      unfolding insert_at
      insert-IsSorted f n = record {
        kept = λ d s.
            let grown = grow-lists d.file (suc n) d.levelwise_file_list s in
            let lists = grow_lists (suc n) d.levelwise_file_list in
            set-lists d.file lists n (insert_record kc d.file f (level_list lists n))
              (insert-InOrder d.file f (level_list lists n) (level-InOrder d.file lists n grown))
              grown;
      }

      add_at-IsSorted : (f : ℕ) (level : ℤ) → Preserves (IsSorted {B = B}) (add_at kc f level)
      add_at-IsSorted f (negsuc n) = Preserves-pure
      add_at-IsSorted f (pos n) = insert-IsSorted f n

      add-IsSorted : (f : ℕ) → Preserves (IsSorted {B = B}) (add_zone_file_record kc f)
      unfolding add_zone_file_record
      add-IsSorted f = search (preserve_rules, add_at-IsSorted)

      -- A write to a file that leaves its smallest key.
      put-IsSorted :
          (f : ℕ) (w : ZoneFile) (d : Device B)
          → w.smallest ≡ (d.file f).smallest
          → IsSorted d
          → All (InOrder (point_at d.file f w)) d.levelwise_file_list
      put-IsSorted f w d e s =
          lists-same d.file (point_at d.file f w) d.levelwise_file_list
            (λ g. elim (Bool-cases (f == g)) [
              | inl t ↦
                  let same : f ≡ g = ground arith in rw t (e ∙ ap (λ p. (d.file p).smallest) same)
              | inr t ↦ rw t
            ])
            s

      mark-IsSorted : (f : ℕ) → Preserves (IsSorted {B = B}) (mark_recorded f)
      unfolding mark_recorded
      mark-IsSorted f = record { kept = λ d s. put-IsSorted f _ d refl s }

      record-IsSorted : (f : ℕ) (v : ZoneFile) → Preserves (IsSorted {B = B}) (record_file kc f v)
      unfolding record_file
      record-IsSorted f v = search (preserve_rules, remove-IsSorted, add-IsSorted, mark-IsSorted)

      created-IsSorted : (f : ℕ) → Preserves (IsSorted {B = B}) (create_or_update_record kc f)
      unfolding create_or_update_record
      created-IsSorted f = search (preserve_rules, record-IsSorted)

      -- Where the comparison of keys is a total preorder, and the files of each level stand in the
      -- order of their smallest keys, they stand so after `CreateOrUpdateRecord` too, whatever the
      -- file.
      pub create_or_update_record-IsSorted :
          (f : ℕ) (d : Device B) → IsSorted d → IsSorted (after (create_or_update_record kc f d))
      create_or_update_record-IsSorted f d s = (created-IsSorted f).kept d s
