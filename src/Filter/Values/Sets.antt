-- ===== src/Filter/Values/Sets.antt =====
-- Sets of the rows that a context works with, and which rows a value's set holds: `from_rows` and
-- `value_bits` of src/filter.rs.
use Prim.Native.Nat.{bit_and, bit_or}
use den_atlas.Prelude.{
  ℕ, zero, suc, ◌*◌, ◌/◌, ◌%◌, ◌^◌, ◌<◌, ◌≡◌, ◌∙◌, ap, refl, subst, false, ◌||◌, List, [], ◌∷◌,
  none, some, arith, length, length-set, get_elem?, set, ltb, ◌==◌, inl, inr, Option-cases,
  Bool-cases,
}
use den_atlas.Prelude.Binary.{bit_and-le, bit_or-lt, power-lt, test_bit-zero}
use den_atlas.Prelude.Rows.{contains}
use den_atlas.Filter.Bits.{Bits, set_bit, has, update}
use den_atlas.Filter.Bits.Membership.{has-set_bit, length-update, has-test_at, test_at}
use den_atlas.Filter.Bits.Rows.{IsWords}
use den_atlas.Filter.Values.{set_within, add_rows, from_rows, no_rows, resize}

-- Words for 64 times `n` rows.
abbrev pub Fits : ℕ → Bits → Type 0
Fits n bits = (length bits ≡ n) × IsWords bits

IsWords-set : (bits : Bits) (i w : ℕ) → IsWords bits → w < 2 ^ 64 → IsWords (set bits i w)
IsWords-set [] i w h k = tt
IsWords-set (x ∷ xs) zero w h k = (k, h.1)
IsWords-set (x ∷ xs) (suc i) w h k = (h.0, IsWords-set xs i w h.1 k)

IsWords-get_elem? : (bits : Bits) (i w : ℕ) → IsWords bits → get_elem? bits i ≡ some w → w < 2 ^ 64
IsWords-get_elem? [] i w h e = absurd (ground arith)
IsWords-get_elem? (x ∷ xs) zero w h e = ground arith
IsWords-get_elem? (x ∷ xs) (suc i) w h e = IsWords-get_elem? xs i w h.1 e

pub IsWords-update :
    (f : ℕ → ℕ → ℕ) (a b : Bits)
    → ((x y : ℕ) → x < 2 ^ 64 → y < 2 ^ 64 → f x y < 2 ^ 64)
    → IsWords a
    → IsWords b
    → IsWords (update f a b)
unfolding update
IsWords-update f [] b k h g = tt
IsWords-update f (x ∷ a) [] k h g = h
IsWords-update f (x ∷ a) (y ∷ b) k h g = (k x y h.0 g.0, IsWords-update f a b k h.1 g.1)

pub update-Fits :
    (f : ℕ → ℕ → ℕ) (n : ℕ) (a b : Bits)
    → ((x y : ℕ) → x < 2 ^ 64 → y < 2 ^ 64 → f x y < 2 ^ 64)
    → Fits n a
    → Fits n b
    → Fits n (update f a b)
update-Fits f n a b k h g = (length-update f a b ∙ h.0, IsWords-update f a b k h.1 g.1)

pub bit_and_fits : (x y : ℕ) → x < 2 ^ 64 → y < 2 ^ 64 → bit_and x y < 2 ^ 64
bit_and_fits x y h k = omega (arith, bit_and-le x y)

pub bit_or_fits : (x y : ℕ) → x < 2 ^ 64 → y < 2 ^ 64 → bit_or x y < 2 ^ 64
bit_or_fits x y h k = bit_or-lt 64 x y h k

pub no_rows-Fits : (n : ℕ) → Fits n (no_rows n)
no_rows-Fits zero = (refl, tt)
no_rows-Fits (suc n) = (ap suc (no_rows-Fits n).0, (omega arith, (no_rows-Fits n).1))

pub resize-Fits : (n : ℕ) (bits : Bits) → IsWords bits → Fits n (resize n bits)
unfolding resize
resize-Fits zero bits h = (refl, tt)
resize-Fits (suc n) [] h = (ap suc (resize-Fits n [] h).0, (omega arith, (resize-Fits n [] h).1))
resize-Fits (suc n) (w ∷ bits) h =
    (ap suc (resize-Fits n bits h.1).0, (h.0, (resize-Fits n bits h.1).1))

set_bit-Fits :
    (n : ℕ) (bits after : Bits) (row : ℕ)
    → Fits n bits
    → set_bit bits row ≡ some after
    → Fits n after
unfolding set_bit
set_bit-Fits n bits after row h e = elim (Option-cases (get_elem? bits (row / 64))) [
  | inl none_at ↦ absurd (ground arith)
  | inr (w, at) ↦
      subst (Fits n) {x = set bits (row / 64) (bit_or w (2 ^ (row % 64)))} (ground arith) (
        length-set bits (row / 64) (bit_or w (2 ^ (row % 64))) ∙ h.0,
        IsWords-set bits (row / 64) (bit_or w (2 ^ (row % 64))) h.1 (
            bit_or_fits w (2 ^ (row % 64)) (IsWords-get_elem? bits (row / 64) w h.1 at)
              (power-lt 64 (row % 64) (omega arith))),
      )
]

set_within-Fits : (n : ℕ) (bits : Bits) (row : ℕ) → Fits n bits → Fits n (set_within n bits row)
unfolding set_within
set_within-Fits n bits row h = elim (Bool-cases (ltb (row / 64) n)) [
  | inl within ↦ elim (Option-cases (set_bit bits row)) [
    | inl e ↦ rw (within, e) h
    | inr (after, e) ↦ rw (within, e) (set_bit-Fits n bits after row h e)
  ]
  | inr beyond ↦ rw beyond h
]

get_elem?-within : (bits : Bits) (i : ℕ) → i < length bits → get_elem? bits i ≡ none → ⊥
get_elem?-within [] i h e = absurd (omega arith)
get_elem?-within (x ∷ xs) zero h e = ground arith
get_elem?-within (x ∷ xs) (suc i) h e = get_elem?-within xs i (omega arith) e

set_bit-within : (bits : Bits) (row : ℕ) → row / 64 < length bits → set_bit bits row ≡ none → ⊥
unfolding set_bit
set_bit-within bits row h e = elim (Option-cases (get_elem? bits (row / 64))) [
  | inl none_at ↦ get_elem?-within bits (row / 64) h none_at
  | inr (w, at) ↦ ground arith
]

pub add_rows-Fits :
    (n : ℕ) (bits : Bits) (rows : List ℕ) → Fits n bits → Fits n (add_rows n bits rows)
unfolding add_rows
add_rows-Fits n bits [] h = h
add_rows-Fits n bits (row ∷ rows) h =
    add_rows-Fits n (set_within n bits row) rows (set_within-Fits n bits row h)

has-set_within :
    (n : ℕ) (bits : Bits) (row r : ℕ)
    → Fits n bits
    → r < 64 * n
    → has (set_within n bits row) r ≡ (row == r || has bits r)
unfolding set_within
has-set_within n bits row r h k = elim (Bool-cases (ltb (row / 64) n)) [
  | inl within ↦ elim (Option-cases (set_bit bits row)) [
    | inl e ↦ absurd (set_bit-within bits row (ground (arith, h.0)) e)
    | inr (after, e) ↦ rw (within, e) (has-set_bit bits after row r e)
  ]
  | inr beyond ↦ rw beyond (ground arith)
]

has-add_rows :
    (n : ℕ) (bits : Bits) (rows : List ℕ) (r : ℕ)
    → Fits n bits
    → r < 64 * n
    → has (add_rows n bits rows) r ≡ (contains r rows || has bits r)
unfolding add_rows contains
has-add_rows n bits [] r h k = refl
has-add_rows n bits (row ∷ rows) r h k = ground (
  arith,
  has-add_rows n (set_within n bits row) rows r (set_within-Fits n bits row h) k,
  has-set_within n bits row r h k,
)

test_at-no_rows : (n i j : ℕ) → test_at (no_rows n) i j ≡ false
unfolding test_at
test_at-no_rows zero i j = refl
test_at-no_rows (suc n) zero j = test_bit-zero j
test_at-no_rows (suc n) (suc i) j = test_at-no_rows n i j

-- The set of a list of rows holds those of them that there are words for.
pub has-from_rows :
    (n : ℕ) (rows : List ℕ) (r : ℕ) → r < 64 * n → has (from_rows n rows) r ≡ contains r rows
unfolding from_rows
has-from_rows n rows r h =
    has-add_rows n (no_rows n) rows r (no_rows-Fits n) h
    ∙ ground (arith, has-test_at (no_rows n) r, test_at-no_rows n (r / 64) (r % 64))
