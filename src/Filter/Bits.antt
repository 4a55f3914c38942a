-- ===== src/Filter/Bits.antt =====
-- A set of rows as words of 64 bits: `set`, `has`, `and_count`, `popcount` and `ones` of
-- src/filter.rs.
pub mod Membership
pub mod Counting
pub mod Rows
pub mod Words
use Prim.Native.Nat.{bit_and, bit_or}
use den_atlas.Prelude.{
  ℕ, zero, suc, ◌+◌, ◌-◌, ◌*◌, ◌/◌, ◌%◌, ◌^◌, Bool, true, false, not, List, [], ◌∷◌, ◌++◌, Option,
  none, some, get_elem?, set, ◌==◌, if◌then◌else◌,
}

abbrev pub Bits : Type 0
Bits = List ℕ

-- A row beyond the words is a panic, `none`.
unfoldable pub set_bit : Bits → ℕ → Option Bits
set_bit bits row = elim (get_elem? bits (row / 64)) [
  | none ↦ none
  | some w ↦ some (set bits (row / 64) (bit_or w (2 ^ (row % 64))))
]

unfoldable pub has : Bits → ℕ → Bool
has bits row = elim (get_elem? bits (row / 64)) [
  | none ↦ false
  | some w ↦ not (bit_and w (2 ^ (row % 64)) == 0)
]

-- `u64::count_ones`
unfoldable pub count_digits : ℕ → ℕ → ℕ
count_digits zero w = 0
count_digits (suc n) w = w % 2 + count_digits n (w / 2)

unfoldable pub count_ones : ℕ → ℕ
count_ones w = count_digits 64 w

-- `zip` stops at the end of the shorter.
unfoldable pub and_count : Bits → Bits → ℕ
unfolding count_ones
and_count [] b = 0
and_count (x ∷ a) [] = 0
and_count (x ∷ a) (y ∷ b) = count_ones (bit_and x y) + and_count a b

unfoldable pub popcount : Bits → ℕ
unfolding count_ones
popcount [] = 0
popcount (w ∷ bits) = count_ones w + popcount bits

-- `u64::trailing_zeros`
unfoldable pub zeros_before : ℕ → ℕ → ℕ
zeros_before zero w = 0
zeros_before (suc n) w = let more = zeros_before n (w / 2) in if w % 2 == 1 then 0 else 1 + more

unfoldable pub trailing_zeros : ℕ → ℕ
trailing_zeros w = zeros_before 64 w

-- The rows of one word, of which the first is `base`: as long as a bit is left, the lowest goes.
unfoldable pub word_ones : ℕ → ℕ → ℕ → List ℕ
unfolding trailing_zeros
word_ones zero base rest = []
word_ones (suc fuel) base rest =
    let more = word_ones fuel base (bit_and rest (rest - 1)) in
    if rest == 0 then [] else (base + trailing_zeros rest) ∷ more

unfoldable pub ones_from : ℕ → Bits → List ℕ
unfolding word_ones
ones_from w [] = []
ones_from w (word ∷ bits) = word_ones 64 (w * 64) word ++ ones_from (suc w) bits

unfoldable pub ones : Bits → List ℕ
unfolding ones_from
ones bits = ones_from 0 bits

-- `iter_mut().zip(other).for_each(|(a, b)| …)`: words beyond the other's stay.
unfoldable pub update : (ℕ → ℕ → ℕ) → Bits → Bits → Bits
update f [] b = []
update f (x ∷ a) [] = x ∷ a
update f (x ∷ a) (y ∷ b) = f x y ∷ update f a b
