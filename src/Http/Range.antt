-- ===== src/Http/Range.antt =====
-- Which part of a representation a Range header selects in src/http.rs.
use den_atlas.Prelude.{ℕ, ◌≤◌, ◌<◌, ◌≡◌, List, [], ◌∷◌, arith, inl, inr, Option-cases}
use den_atlas.Prelude.Bytes.{Text, trim, split, strip_prefix, parse_unsigned}
use den_atlas.Http.{range, from_start, range_of, range_of_parts, parse_range, bytes_unit}

-- Not empty and inside the representation.
abbrev pub Inside : ℕ → ℕ → ℕ → Type 0
Inside start end size = (start ≤ end) × (end < size)

from_start-Inside :
    (start : ℕ) (b : Text) (size s e : ℕ)
    → from_start start b size ≡ range s e
    → Inside s e size × (s ≡ start)
unfolding from_start
from_start-Inside start b size s e h = ground arith

range_of-Inside :
    (a b : Text) (size s e : ℕ) → 0 < size → range_of a b size ≡ range s e → Inside s e size
unfolding range_of
range_of-Inside a b size s e pos h = elim (Option-cases (parse_unsigned a)) [
  | inl p ↦ ground arith
  | inr (n, p) ↦ ground (arith, from_start-Inside n b size s e)
]

parts-Inside :
    (parts : List Text) (size s e : ℕ)
    → 0 < size
    → range_of_parts parts size ≡ range s e
    → Inside s e size
unfolding range_of_parts
parts-Inside (a ∷ b ∷ []) size s e pos h = range_of-Inside a b size s e pos h
parts-Inside parts size s e pos h = absurd (ground arith)

-- A range that is answered is not empty and lies inside the representation, whatever the header says.
pub parse_range-Inside :
    (header : Text) (size s e : ℕ) → parse_range header size ≡ range s e → Inside s e size
unfolding parse_range
parse_range-Inside header size s e h = elim (Option-cases (strip_prefix bytes_unit (trim header))) [
  | inl p ↦ absurd (ground arith)
  | inr (rest, p) ↦ ground (arith, parts-Inside (split b'-' rest) size s e)
]
