-- ===== src/Filter/Bits/Rows.antt =====
-- The rows of a set in order: `ones` of src/filter.rs.
use den_atlas.Prelude.{
  ℕ, suc, ◌+◌, ◌*◌, ◌/◌, ◌%◌, ◌^◌, ◌<◌, ◌≡◌, ◌∙◌, ap, refl, [], ◌∷◌, ◌++◌, arith, sym, length, All,
}
use den_atlas.Prelude.Binary.{test_bit}
use den_atlas.Filter.Bits.{Bits, has, ones_from, ones}
use den_atlas.Filter.Bits.Membership.{test_at, has-test_at}
use den_atlas.Filter.Bits.Words.{rows_from, rows_from-cong, rows_from-append, word_ones_lem}

test_at-places : (bits : Bits) (i j k l : ℕ) → k ≡ i → l ≡ j → test_at bits k l ≡ test_at bits i j
test_at-places bits i j k l e f = cc

-- A word's digits are the first rows, and the rows of the others follow.
pub has_first : (w : ℕ) (bits : Bits) (row : ℕ) → row < 64 → has (w ∷ bits) row ≡ test_bit w row
unfolding test_at
has_first w bits row h =
    has-test_at (w ∷ bits) row
    ∙ test_at-places (w ∷ bits) 0 row (row / 64) (row % 64) (omega arith) (omega arith)

pub has_later : (w : ℕ) (bits : Bits) (row : ℕ) → has (w ∷ bits) (64 + row) ≡ has bits row
unfolding test_at
has_later w bits row =
    has-test_at (w ∷ bits) (64 + row)
    ∙ test_at-places (w ∷ bits) (suc (row / 64)) (row % 64) ((64 + row) / 64) ((64 + row) % 64)
        (omega arith) (omega arith)
    ∙ sym (has-test_at bits row)

-- Words of 64 bits.
abbrev pub IsWords : Bits → Type 0
IsWords bits = All (λ w. w < 2 ^ 64) bits

-- Rows of a word and of the words after it.
pub rows_from_words :
    (base w : ℕ) (bits : Bits)
    → rows_from base (64 * length (w ∷ bits)) (has (w ∷ bits))
      ≡ rows_from base 64 (test_bit w) ++ rows_from (base + 64) (64 * length bits) (has bits)
rows_from_words base w bits =
    ap (λ n. rows_from base n (has (w ∷ bits))) {y = 64 + 64 * length bits} (omega arith)
    ∙ rows_from-append base 64 (64 * length bits) (has (w ∷ bits))
    ∙ ap (λ l. l ++ rows_from (base + 64) (64 * length bits) λ i. has (w ∷ bits) (64 + i))
        (rows_from-cong base 64 (has (w ∷ bits)) (test_bit w) (has_first w bits))
    ∙ ap (λ l. rows_from base 64 (test_bit w) ++ l)
        (rows_from-cong (base + 64) (64 * length bits) _ (has bits) (λ i h. has_later w bits i))

ones_from_lem :
    (i : ℕ) (bits : Bits)
    → IsWords bits
    → ones_from i bits ≡ rows_from (i * 64) (64 * length bits) (has bits)
unfolding ones_from
ones_from_lem i [] h = unfold rows_from in refl
ones_from_lem i (w ∷ bits) (h, hs) =
    ap (λ l. l ++ ones_from (suc i) bits) (word_ones_lem 64 64 (i * 64) w (omega arith) h h)
    ∙ ap (λ l. rows_from (i * 64) 64 (test_bit w) ++ l)
        (ones_from_lem (suc i) bits hs
          ∙ ap (λ b. rows_from b (64 * length bits) (has bits)) (omega arith))
    ∙ sym (rows_from_words (i * 64) w bits)

-- The rows of words of 64 bits are those that `has` finds, in ascending order and each once.
pub ones-rows_from :
    (bits : Bits) → IsWords bits → ones bits ≡ rows_from 0 (64 * length bits) (has bits)
unfolding ones
ones-rows_from bits h = ones_from_lem 0 bits h
