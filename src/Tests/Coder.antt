-- ===== src/Tests/Coder.antt =====
-- A coding in little-endian bytes, with lengths of four bytes.
use mathlib.Core.List.{append_assoc}
use zenfs_modified.Base.{
  ℕ, zero, suc, ◌+◌, ◌*◌, ◌/◌, ◌%◌, ◌≡◌, ◌<◌, refl, ◌∙◌, ap, Option, none, some, List, [], ◌∷◌,
  ◌++◌, length, arith,
}
use zenfs_modified.Codec.{Coding}
use zenfs_modified.Codec.Items.{CodingLaws}

abbrev put_bytes : ℕ → ℕ → List ℕ
put_bytes zero n = []
put_bytes (suc k) n = n % 256 ∷ put_bytes k (n / 256)

abbrev add_byte : ℕ → Option (ℕ × List ℕ) → Option (ℕ × List ℕ)
add_byte b none = none
add_byte b (some (n, rest)) = some (b + 256 * n, rest)

abbrev get_bytes : ℕ → List ℕ → Option (ℕ × List ℕ)
get_bytes zero xs = some (0, xs)
get_bytes (suc k) [] = none
get_bytes (suc k) (b ∷ xs) = add_byte b (get_bytes k xs)

abbrev bytes_bound : ℕ → ℕ
bytes_bound zero = 1
bytes_bound (suc k) = 256 * bytes_bound k

get_bytes-put_bytes :
    (k n : ℕ) (rest : List ℕ)
    → n < bytes_bound k
    → get_bytes k (put_bytes k n ++ rest) ≡ some (n, rest)
get_bytes-put_bytes zero n rest h = ap (λ m. some (m, rest)) (omega (arith, h))
get_bytes-put_bytes (suc k) n rest h =
    ap (add_byte (n % 256)) (get_bytes-put_bytes k (n / 256) rest (omega (arith, h)))
    ∙ ap (λ m. some (m, rest)) (omega arith)

length-put_bytes : (k n : ℕ) → length (put_bytes k n) ≡ k
length-put_bytes zero n = refl
length-put_bytes (suc k) n = omega (arith, length-put_bytes k (n / 256))

-- The first bytes and the rest; none where there are too few.
abbrev add_first : ℕ → Option (List ℕ × List ℕ) → Option (List ℕ × List ℕ)
add_first b none = none
add_first b (some (s, rest)) = some (b ∷ s, rest)

abbrev split : ℕ → List ℕ → Option (List ℕ × List ℕ)
split zero xs = some ([], xs)
split (suc k) [] = none
split (suc k) (x ∷ xs) = add_first x (split k xs)

split-append : (s rest : List ℕ) → split (length s) (s ++ rest) ≡ some (s, rest)
split-append [] rest = refl
split-append (x ∷ s) rest = ap (add_first x) (split-append s rest)

abbrev split_by : Option (ℕ × List ℕ) → Option (List ℕ × List ℕ)
split_by none = none
split_by (some (n, rest)) = split n rest

abbrev get_prefixed : List ℕ → Option (List ℕ × List ℕ)
get_prefixed xs = split_by (get_bytes 4 xs)

abbrev pub coder : Coding
coder = record {
  put_fixed32 = put_bytes 4;
  put_fixed64 = put_bytes 8;
  put_length_prefixed = λ s. put_bytes 4 (length s) ++ s;
  get_fixed32 = get_bytes 4;
  get_fixed64 = get_bytes 8;
  get_length_prefixed = get_prefixed;
}

pub coder_laws : CodingLaws coder
coder_laws = record {
  get-put32 = λ n rest h. get_bytes-put_bytes 4 n rest h;
  get-put64 = λ n rest h. get_bytes-put_bytes 8 n rest h;
  get-put_prefixed = λ s rest h.
      ap get_prefixed (append_assoc (put_bytes 4 (length s)) s rest)
      ∙ (ap split_by (get_bytes-put_bytes 4 (length s) (s ++ rest) h) ∙ split-append s rest);
  get32-nil = refl;
  length-put32 = length-put_bytes 4;
  length-put64 = length-put_bytes 8;
}
