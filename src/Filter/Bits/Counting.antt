-- ===== src/Filter/Bits/Counting.antt =====
-- How many rows a set holds: `popcount` and `and_count` of src/filter.rs.
use Prim.Native.Nat.{bit_and}
use den_atlas.Prelude.{
  ℕ, zero, suc, ◌+◌, ◌*◌, ◌/◌, ◌%◌, ◌≡◌, ◌∙◌, ap, refl, sym, List, ◌<◌, Bool, ◌&&◌, [], ◌∷◌, ◌++◌,
  arith, length, length-append, ◌==◌, if◌then◌else◌,
}
use den_atlas.Prelude.Binary.{test_bit, test_bit-bit_and}
use den_atlas.Filter.Bits.{Bits, has, count_digits, count_ones, popcount, and_count, ones}
use den_atlas.Filter.Bits.Rows.{rows_from_words, IsWords, ones-rows_from, has_first, has_later}
use den_atlas.Filter.Bits.Words.{rows_from, rows_from-cong, rows_from-append}

length_if :
    (b : Bool) (x d : ℕ) (l : List ℕ)
    → (b ≡ (d % 2 == 1))
    → length (if b then x ∷ l else l) ≡ d % 2 + length l
length_if b x d l h = ground arith

count_digits-rows_from : (base n w : ℕ) → count_digits n w ≡ length (rows_from base n (test_bit w))
unfolding count_digits rows_from test_bit
count_digits-rows_from base zero w = refl
count_digits-rows_from base (suc n) w = omega (
  arith,
  length_if (w % 2 == 1) base w (rows_from (suc base) n (test_bit (w / 2))) refl,
  count_digits-rows_from (suc base) n (w / 2),
)

count_ones-rows_from : (base w : ℕ) → count_ones w ≡ length (rows_from base 64 (test_bit w))
unfolding count_ones
count_ones-rows_from base w = count_digits-rows_from base 64 w

popcount-rows_from :
    (base : ℕ) (bits : Bits) → popcount bits ≡ length (rows_from base (64 * length bits) (has bits))
unfolding popcount
popcount-rows_from base [] = unfold rows_from in refl
popcount-rows_from base (w ∷ bits) = omega (
  arith,
  count_ones-rows_from base w,
  popcount-rows_from (base + 64) bits,
  length-append (rows_from base 64 (test_bit w))
      (rows_from (base + 64) (64 * length bits) (has bits)),
  ap length (rows_from_words base w bits),
)

-- Counting the bits is listing the rows and counting them.
pub popcount-ones : (bits : Bits) → IsWords bits → popcount bits ≡ length (ones bits)
popcount-ones bits h = popcount-rows_from 0 bits ∙ ap length (sym (ones-rows_from bits h))

both_first :
    (base x y : ℕ) (a b : Bits) (i : ℕ)
    → i < 64
    → test_bit (bit_and x y) i ≡ (has (x ∷ a) i && has (y ∷ b) i)
both_first base x y a b i h = rw (has_first x a i h, has_first y b i h) (test_bit-bit_and x y i)

both_later :
    (x y : ℕ) (a b : Bits) (i : ℕ)
    → (has a i && has b i) ≡ (has (x ∷ a) (64 + i) && has (y ∷ b) (64 + i))
both_later x y a b i = rw (has_later x a i, has_later y b i) refl

and_count-rows_from_base :
    (base : ℕ) (a b : Bits)
    → length a ≡ length b
    → and_count a b ≡ length (rows_from base (64 * length a) λ row. has a row && has b row)
unfolding and_count
and_count-rows_from_base base [] b e = unfold rows_from in refl
and_count-rows_from_base base (x ∷ a) [] e = absurd (omega arith)
and_count-rows_from_base base (x ∷ a) (y ∷ b) e =
    let rest = rows_from (base + 64) (64 * length a) λ row. has a row && has b row in
    omega (
      arith,
      count_ones-rows_from base (bit_and x y),
      and_count-rows_from_base (base + 64) a b (omega arith),
      length-append (rows_from base 64 (test_bit (bit_and x y))) rest,
      ap length (words_and base x y a b),
    )
  where
    words_and :
        (base x y : ℕ) (a b : Bits)
        → rows_from base (64 * length (x ∷ a)) (λ row. has (x ∷ a) row && has (y ∷ b) row)
          ≡ rows_from base 64 (test_bit (bit_and x y))
            ++ rows_from (base + 64) (64 * length a) λ row. has a row && has b row
    words_and base x y a b =
        ap (λ n. rows_from base n λ row. has (x ∷ a) row && has (y ∷ b) row)
          {y = 64 + 64 * length a} (omega arith)
        ∙ rows_from-append base 64 (64 * length a) (λ row. has (x ∷ a) row && has (y ∷ b) row)
        ∙ ap
            (λ l.
              l
              ++ rows_from (base + 64) (64 * length a)
                  λ i. has (x ∷ a) (64 + i) && has (y ∷ b) (64 + i))
            (sym (rows_from-cong base 64 _ _ (both_first base x y a b)))
        ∙ ap (λ l. rows_from base 64 (test_bit (bit_and x y)) ++ l)
            (sym (rows_from-cong (base + 64) (64 * length a) _ _ (λ i h. both_later x y a b i)))

-- The count of two sets of the same words is the number of the rows that both hold.
pub and_count-rows_from :
    (a b : Bits)
    → length a ≡ length b
    → and_count a b ≡ length (rows_from 0 (64 * length a) λ row. has a row && has b row)
and_count-rows_from a b e = and_count-rows_from_base 0 a b e
