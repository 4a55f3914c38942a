-- ===== src/Filter/Bits/Words.antt =====
-- The rows of one word: the inner loop of `ones` of src/filter.rs.
use Prim.Native.Nat.{bit_and}
use den_atlas.Prelude.{
  ℕ, zero, suc, ◌+◌, ◌-◌, ◌*◌, ◌/◌, ◌%◌, ◌^◌, ◌<◌, ◌≤◌, ◌≡◌, ◌∙◌, ap, refl, Bool, true, false, List,
  [], ◌∷◌, ◌++◌, arith, min, sym, subst, ◌==◌, if◌then◌else◌, inl, inr, Bool-cases,
}
use den_atlas.Prelude.Binary.{test_bit, bit_and_step, bit_and_self, bit_and-le}
use den_atlas.Filter.Bits.{zeros_before, trailing_zeros, word_ones}

-- The numbers from `base` on, n of them, whose place the test takes.
unfoldable pub rows_from : ℕ → ℕ → (ℕ → Bool) → List ℕ
rows_from base zero p = []
rows_from base (suc n) p =
    let more = rows_from (suc base) n λ i. p (suc i) in if p 0 then base ∷ more else more

pub rows_from-cong :
    (base n : ℕ) (p q : ℕ → Bool)
    → ((i : ℕ) → i < n → p i ≡ q i)
    → rows_from base n p ≡ rows_from base n q
unfolding rows_from
rows_from-cong base zero p q h = refl
rows_from-cong base (suc n) p q h = ground (
  arith,
  h 0,
  rows_from-cong (suc base) n (λ i. p (suc i)) (λ i. q (suc i)) (λ i lt. h (suc i) (omega arith)),
)

rows_from_base : (b c n : ℕ) (p q : ℕ → Bool) → b ≡ c → p ≡ q → rows_from b n p ≡ rows_from c n q
rows_from_base b c n p q e f = cc

cons_if :
    (b : Bool) (x : ℕ) (xs ys : List ℕ)
    → (if b then x ∷ (xs ++ ys) else xs ++ ys) ≡ (if b then x ∷ xs else xs) ++ ys
cons_if true x xs ys = refl
cons_if false x xs ys = refl

pub rows_from-append :
    (base m n : ℕ) (p : ℕ → Bool)
    → rows_from base (m + n) p ≡ rows_from base m p ++ rows_from (base + m) n λ i. p (m + i)
unfolding rows_from
rows_from-append base zero n p =
    ap (λ k. rows_from base k p) (omega arith)
    ∙ rows_from-cong base n p (λ i. p (0 + i)) (λ i h. ap p (omega arith))
    ∙ ap (λ b. rows_from b n λ i. p (0 + i)) (omega arith)
rows_from-append base (suc m) n p =
    let shifted = rows_from-append (suc base) m n λ i. p (suc i) in
    rows_from_sum base m n p
    ∙ ap (λ l. if p 0 then base ∷ l else l) shifted
    ∙ cons_if (p 0) base (rows_from (suc base) m λ i. p (suc i)) _
    ∙ ap (λ l. rows_from base (suc m) p ++ l) (place (suc base + m) (base + suc m) (omega arith))
  where
    rows_from_sum :
        (base m n : ℕ) (p : ℕ → Bool)
        → rows_from base (suc m + n) p ≡ rows_from base (suc (m + n)) p
    rows_from_sum base m n p = ap (λ k. rows_from base k p) {y = suc (m + n)} (omega arith)

    place :
        (b c : ℕ)
        → b ≡ c
        → rows_from b n (λ i. p (suc (m + i))) ≡ rows_from c n (λ i. p (suc m + i))
    place b c e =
        ap (λ k. rows_from k n λ i. p (suc (m + i))) e
        ∙ rows_from-cong c n _ _ (λ i h. ap p (omega arith))

half_double : (x : ℕ) → x * 2 / 2 ≡ x
half_double x = omega arith

half_odd : (x : ℕ) → (x * 2 + 1) / 2 ≡ x
half_odd x = omega arith

double_less : (x : ℕ) → (x * 2 - 1) / 2 ≡ x - 1
double_less x = omega arith

bit_and_parts :
    (a b c d : ℕ) → a / 2 ≡ c → b / 2 ≡ d → bit_and a b ≡ bit_and c d * 2 + min (a % 2) (b % 2)
bit_and_parts a b c d e f = rw (sym e, sym f) (bit_and_step a b)

lowest_even : (x : ℕ) → bit_and (x * 2) (x * 2 - 1) ≡ bit_and x (x - 1) * 2
lowest_even x =
    omega (arith, bit_and_parts (x * 2) (x * 2 - 1) x (x - 1) (half_double x) (double_less x))

lowest_odd : (x : ℕ) → bit_and (x * 2 + 1) (x * 2) ≡ x * 2
lowest_odd x =
    omega
      (arith, bit_and_self x, bit_and_parts (x * 2 + 1) (x * 2) x x (half_odd x) (half_double x))

-- Any count of digits that holds the number gives the same.
zeros_before_fuel :
    (n m x : ℕ) → x < 2 ^ n → x < 2 ^ m → 0 < x → zeros_before n x ≡ zeros_before m x
unfolding zeros_before
zeros_before_fuel zero m x h k pos = absurd (omega arith)
zeros_before_fuel (suc n) zero x h k pos = absurd (omega arith)
zeros_before_fuel (suc n) (suc m) x h k pos = elim (Bool-cases (x % 2 == 1)) [
  | inl e ↦ rw e refl
  | inr e ↦
      rw e
        (ap (λ k. 1 + k) (zeros_before_fuel n m (x / 2) (omega arith) (omega arith) (ground arith)))
]

even_digit : (x : ℕ) → (x * 2 % 2 == 1) ≡ false
even_digit x = ground arith

odd_digit : (x : ℕ) → ((x * 2 + 1) % 2 == 1) ≡ true
odd_digit x = ground arith

zeros_before-even : (n x : ℕ) → zeros_before (suc n) (x * 2) ≡ 1 + zeros_before n x
unfolding zeros_before
zeros_before-even n x = rw (even_digit x, half_double x) refl

zeros_before-odd : (n x : ℕ) → zeros_before (suc n) (x * 2 + 1) ≡ 0
unfolding zeros_before
zeros_before-odd n x = rw (odd_digit x) refl

trailing_zeros-even : (x : ℕ) → 0 < x → x < 2 ^ 63 → trailing_zeros (x * 2) ≡ 1 + trailing_zeros x
unfolding trailing_zeros
trailing_zeros-even x pos h =
    zeros_before-even 63 x ∙ ap (λ k. 1 + k) (zeros_before_fuel 63 64 x h (omega arith) pos)

trailing_zeros-odd : (x : ℕ) → trailing_zeros (x * 2 + 1) ≡ 0
unfolding trailing_zeros
trailing_zeros-odd x = zeros_before-odd 63 x

head_rows :
    (x y : ℕ) (base base' t t' : ℕ) (more more' : List ℕ)
    → 0 < x
    → 0 < y
    → base + t ≡ base' + t'
    → more ≡ more'
    → (if x == 0 then [] else (base + t) ∷ more) ≡ (if y == 0 then [] else (base' + t') ∷ more')
head_rows x y base base' t t' more more' h k e f = ground arith

-- The rows of twice a word lie one further.
word_ones-even :
    (fuel base x : ℕ) → x < 2 ^ 63 → word_ones fuel base (x * 2) ≡ word_ones fuel (suc base) x
unfolding word_ones
word_ones-even zero base x h = refl
word_ones-even (suc fuel) base zero h = refl
word_ones-even (suc fuel) base (suc y) h =
    head_rows (suc y * 2) (suc y) base (suc base) (trailing_zeros (suc y * 2))
      (trailing_zeros (suc y)) _ _ (omega arith) (omega arith)
      (omega (arith, trailing_zeros-even (suc y) (omega arith) h))
      (ap (word_ones fuel base) (lowest_even (suc y))
        ∙ word_ones-even fuel base (bit_and (suc y) (suc y - 1))
            (omega (arith, bit_and-le (suc y) (suc y - 1))))

word_ones-odd :
    (fuel base x : ℕ)
    → x < 2 ^ 63
    → word_ones (suc fuel) base (x * 2 + 1) ≡ base ∷ word_ones fuel (suc base) x
unfolding word_ones
word_ones-odd fuel base x h =
    head_rows (x * 2 + 1) 1 base base (trailing_zeros (x * 2 + 1)) 0 _ _ (omega arith) (omega arith)
      (omega (arith, trailing_zeros-odd x))
      (ap (word_ones fuel base) (less x ∙ lowest_odd x) ∙ word_ones-even fuel base x h)
    ∙ ap (λ k. k ∷ word_ones fuel (suc base) x) (omega arith)
  where
    less : (x : ℕ) → bit_and (x * 2 + 1) (x * 2 + 1 - 1) ≡ bit_and (x * 2 + 1) (x * 2)
    less x = ap (bit_and (x * 2 + 1)) (omega arith)

word_ones-zero : (fuel base : ℕ) → word_ones fuel base 0 ≡ []
unfolding word_ones
word_ones-zero zero base = refl
word_ones-zero (suc fuel) base = refl

rows_from_even :
    (base n x : ℕ) → rows_from base (suc n) (test_bit (x * 2)) ≡ rows_from (suc base) n (test_bit x)
unfolding rows_from test_bit
rows_from_even base n x = rw (even_digit x, half_double x) refl

rows_from_odd :
    (base n x : ℕ)
    → rows_from base (suc n) (test_bit (x * 2 + 1)) ≡ base ∷ rows_from (suc base) n (test_bit x)
unfolding rows_from test_bit
rows_from_odd base n x = rw (odd_digit x, half_odd x) refl

pub word_ones_lem :
    (n fuel base w : ℕ)
    → n ≤ fuel
    → w < 2 ^ 64
    → w < 2 ^ n
    → word_ones fuel base w ≡ rows_from base n (test_bit w)
word_ones_lem zero fuel base w h small bound =
    unfold rows_from in ap (word_ones fuel base) (omega arith) ∙ word_ones-zero fuel base
word_ones_lem (suc n) zero base w h small bound = absurd (omega arith)
word_ones_lem (suc n) (suc fuel) base w h small bound = elim (Bool-cases (w % 2 == 1)) [
  | inl e ↦ subst holds (ground arith) (
      word_ones-odd fuel base (w / 2) small_half
      ∙ ap (λ l. base ∷ l)
          (word_ones_lem n fuel (suc base) (w / 2) (omega arith) (omega arith) (omega arith))
      ∙ sym (rows_from_odd base n (w / 2)))
  | inr e ↦ subst holds (ground arith) (
      word_ones-even (suc fuel) base (w / 2) small_half
      ∙ word_ones_lem n (suc fuel) (suc base) (w / 2) (omega arith) (omega arith) (omega arith)
      ∙ sym (rows_from_even base n (w / 2)))
]
  where
    holds : ℕ → Type 0
    holds v = word_ones (suc fuel) base v ≡ rows_from base (suc n) (test_bit v)

    small_half : w / 2 < 2 ^ 63
    small_half = omega arith
