-- ===== src/Writer/Took.antt =====
-- What becomes of the bytes that a writer is given: those that went to the file, those in its
-- buffer, and those that it did not take.
use mathlib.Core.List.{append_assoc}
use zenfs_modified.Base.{
  ℕ, zero, suc, ◌+◌, ◌-◌, ◌%◌, ◌≤◌, ◌<◌, ◌≡◌, refl, sym, ap, subst, ◌∙◌, false, none, some, List,
  [], ◌∷◌, ◌++◌, drop, take, length, length-append, arith,
}
use zenfs_modified.Base.Words.{u32_mod, u64_mod, add64, sub32, sub32-exact}
use zenfs_modified.Store.{Device, Outcome, ok, err, M}
use zenfs_modified.Reclaim.{is_status}
use zenfs_modified.Writer.{WritableFile, Reply, flushed}

pub take-drop : (n : ℕ) (xs : List ℕ) → take n xs ++ drop n xs ≡ xs
take-drop zero xs = refl
take-drop (suc n) [] = refl
take-drop (suc n) (x ∷ xs) = ap (λ ys. x ∷ ys) (take-drop n xs)

pub length-take_le : (n : ℕ) (xs : List ℕ) → n ≤ length xs → length (take n xs) ≡ n
length-take_le zero xs h = refl
length-take_le (suc n) [] h = elim h [ ]
length-take_le (suc n) (x ∷ xs) h = omega (arith, length-take_le n xs (omega (arith, h)))

pub length-drop : (n : ℕ) (xs : List ℕ) → length (drop n xs) ≡ length xs - n
length-drop zero xs = omega arith
length-drop (suc n) [] = omega arith
length-drop (suc n) (x ∷ xs) = omega (arith, length-drop n xs)

-- The same writer, but for the buffer and the place in the file.
pub record SameWriter (w w' : WritableFile) : Type 0 where
  pub same_file : w'.file ≡ w.file
  pub same_size : w'.buffer_sz ≡ w.buffer_sz

-- The bytes of the pieces, one behind the other.
abbrev pub joined : List (List ℕ) → List ℕ
joined [] = []
joined (xs ∷ xss) = xs ++ joined xss

joined-append : (xss yss : List (List ℕ)) → joined (xss ++ yss) ≡ joined xss ++ joined yss
joined-append [] yss = refl
joined-append (xs ∷ xss) yss =
    ap (λ ys. xs ++ ys) (joined-append xss yss) ∙ sym (append_assoc xs (joined xss) (joined yss))

module _ {B : Type 0} where
  -- The pieces are appended one after the other, each without an error, from one device to another.
  abbrev pub Sent : (List ℕ → M B (Unit {0})) → List (List ℕ) → Device B → Device B → Type 0
  Sent put [] d e = d ≡ e
  Sent put (xs ∷ xss) d e = (m : Device B) × (put xs d ≡ ok tt m) × Sent put xss m e

  Sent-both :
      (put : List ℕ → M B (Unit {0})) (xss yss : List (List ℕ)) (d m e : Device B)
      → Sent put xss d m
      → Sent put yss m e
      → Sent put (xss ++ yss) d e
  Sent-both put [] yss d m e h g = subst (λ x. Sent put yss x e) (sym h) g
  Sent-both put (xs ∷ xss) yss d m e (n, a, h) g = (n, a, Sent-both put xss yss n m e h g)

module _ {B : Type 0} (put : ℕ → List ℕ → M B (Unit {0})) where
  -- From the writer `w` and the data to the writer `w'`: some pieces were appended to the file, in their
  -- order, `rest` was not taken, and the other bytes are in the buffer.
  pub record Took (w : WritableFile) (data_ : List ℕ) (d : Device B) (w' : WritableFile)
      (rest : List ℕ) (d' : Device B) : Type 0 where
    pub pieces : List (List ℕ)
    pub sent : Sent (put w.file) pieces d d'
    pub in_order : w.buffer ++ data_ ≡ joined pieces ++ (w'.buffer ++ rest)
    pub place : w'.wp ≡ (w.wp + length (joined pieces)) % u64_mod
    pub room : length w'.buffer ≤ w'.buffer_sz
    pub same : SameWriter w w'

  -- What a call leaves: all the data taken where it went well, and a part of it where the append of
  -- the buffer failed.
  abbrev pub Written : WritableFile → List ℕ → Device B → Outcome B Reply → Type 0
  Written w data_ d (ok (none, w') d') = Took w data_ d w' [] d'
  Written w data_ d (ok (some e, w') d') =
      (rest : List ℕ) × (m : Device B) × Took w data_ d w' rest m
      × (put w'.file w'.buffer m ≡ err e d')
  Written w data_ d (err e d') = is_status e ≡ false

  -- A call that appends the whole buffer, or leaves it where the append failed.
  abbrev pub Flushed : WritableFile → Device B → Outcome B Reply → Type 0
  Flushed w d (ok (none, w') d') =
      (w' ≡ (flushed w none).1)
      × ((pieces : List (List ℕ)) × Sent (put w.file) pieces d d' × (joined pieces ≡ w.buffer))
  Flushed w d (ok (some e, w') d') = (w' ≡ w) × (put w.file w.buffer d ≡ err e d')
  Flushed w d (err e d') = is_status e ≡ false

  abbrev pub Flushes : (WritableFile → M B Reply) → Type 0
  Flushes flush = (w : WritableFile) (d : Device B) → w.wp < u64_mod → Flushed w d (flush w d)

  pub Took-nothing :
      (w : WritableFile) (data_ : List ℕ) (d : Device B)
      → length w.buffer ≤ w.buffer_sz
      → w.wp < u64_mod
      → Took w data_ d w data_ d
  Took-nothing w data_ d h small = record {
    pieces = [];
    sent = refl;
    in_order = refl;
    place = omega (arith, small);
    room = h;
    same = record { same_file = refl; same_size = refl };
  }

  -- The buffer is appended.
  pub Took-flush :
      (w : WritableFile) (data_ : List ℕ) (d d' : Device B) (pieces : List (List ℕ))
      → Sent (put w.file) pieces d d'
      → joined pieces ≡ w.buffer
      → Took w data_ d (flushed w none).1 data_ d'
  unfolding add64
  Took-flush w data_ d d' pieces s e = record {
    pieces = pieces;
    sent = s;
    in_order = ap (λ xs. xs ++ data_) (sym e);
    place = ap (λ xs. (w.wp + length xs) % u64_mod) (sym e);
    room = omega arith;
    same = record { same_file = refl; same_size = refl };
  }

  pub Took-fill :
      (w : WritableFile) (data_ : List ℕ) (n : ℕ) (d : Device B)
      → length w.buffer + n ≤ w.buffer_sz
      → n ≤ length data_
      → w.wp < u64_mod
      → Took w data_ d (record w { buffer = w.buffer ++ take n data_ }) (drop n data_) d
  Took-fill w data_ n d h short small = record {
    pieces = [];
    sent = refl;
    in_order = rw append_assoc (ap (λ ys. w.buffer ++ ys) (sym (take-drop n data_)));
    place = omega (arith, small);
    room = omega (arith, length-append w.buffer (take n data_), length-take_le n data_ short, h);
    same = record { same_file = refl; same_size = refl };
  }

  pub Took-both :
      {w v u : WritableFile} {xs ys zs : List ℕ} {d m e : Device B}
      → Took w xs d v ys m
      → Took v ys m u zs e
      → Took w xs d u zs e
  Took-both {u = u} {zs = zs} {d = d} {m = m} {e = e} h g =
      let both = joined-append h.pieces g.pieces in
      record {
        pieces = h.pieces ++ g.pieces;
        sent =
            Sent-both _ h.pieces g.pieces d m e h.sent
              (subst (λ f. Sent (put f) g.pieces m e) h.same.same_file g.sent);
        in_order =
            h.in_order
            ∙ ap (λ ys. joined h.pieces ++ ys) g.in_order
            ∙ sym (append_assoc (joined h.pieces) (joined g.pieces) (u.buffer ++ zs))
            ∙ ap (λ ys. ys ++ (u.buffer ++ zs)) (sym both);
        place =
            let size = ap length both in
            omega
              (arith, h.place, g.place, size, length-append (joined h.pieces) (joined g.pieces));
        room = g.room;
        same = record {
          same_file = g.same.same_file ∙ h.same.same_file;
          same_size = g.same.same_size ∙ h.same.same_size;
        };
      }

-- The writer once its buffer is written.
abbrev pub emptied : WritableFile → WritableFile
emptied w = (flushed w none).1

-- A writer that the loop goes on from.
pub record Fits (w : WritableFile) : Type 0 where
  pub within : length w.buffer ≤ w.buffer_sz
  pub some_size : 0 < w.buffer_sz
  pub small_size : w.buffer_sz < u32_mod
  pub small_place : w.wp < u64_mod

pub room_exact :
    (w : WritableFile)
    → Fits w
    → sub32 (w.buffer_sz % u32_mod) (length w.buffer) ≡ w.buffer_sz - length w.buffer
room_exact w h =
    sub32-exact (w.buffer_sz % u32_mod) (length w.buffer) (omega (arith, h.within, h.small_size))
      (omega arith)
    ∙ omega (arith, h.small_size)

pub emptied-Fits : (w : WritableFile) → Fits w → Fits (emptied w)
unfolding add64
emptied-Fits w h = record {
  within = omega arith;
  some_size = h.some_size;
  small_size = h.small_size;
  small_place = omega arith;
}

pub Took-all :
    {B : Type 0} (put : ℕ → List ℕ → M B (Unit {0})) (w : WritableFile) (data_ : List ℕ)
    (d : Device B)
    → length data_ ≡ 0
    → Fits w
    → Took put w data_ d w [] d
Took-all put w [] d e h = Took-nothing put w [] d h.within h.small_place
Took-all put w (x ∷ xs) d e h = let no : 1 ≤ 0 = omega (arith, e) in elim no [ ]

pub nil_of_length : (xs : List ℕ) → length xs ≡ 0 → xs ≡ []
nil_of_length [] e = refl
nil_of_length (x ∷ xs) e = let no : 1 ≤ 0 = omega (arith, e) in elim no [ ]

pub empty_flush : (w : WritableFile) → length w.buffer ≡ 0 → w.wp < u64_mod → w ≡ emptied w
unfolding add64
empty_flush w e small =
    ap (λ b. record w { buffer = b }) (nil_of_length w.buffer e)
    ∙ ap (λ n. record w { wp = n; buffer = [] }) {y = (w.wp + length w.buffer) % u64_mod}
        (omega (arith, e, small))
