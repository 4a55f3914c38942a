-- ===== src/Prelude/Binary.antt =====
-- The binary digits of a number, and what `&`, `|` and `!` do to them.
use Prim.Native.Nat.{
  ℕ, zero, suc, ◌+◌, ◌-◌, ◌*◌, ◌/◌, ◌%◌, ◌^◌, ◌≤◌, ◌<◌, min, max, bit_and, bit_or, digits,
  bit_and-bitwise, bit_or-bitwise,
}
use mathlib.Core.Path.{◌≡◌, refl, ◌∙◌, ap, sym}
use mathlib.Core.Bool.{Bool, true, false, not, ◌&&◌, ◌||◌}
use native.Mathlib.Omega.{arith}
use den_atlas.Prelude.Tests.{◌==◌}

-- Whether the digit of 2 ^ i is 1.
unfoldable pub test_bit : ℕ → ℕ → Bool
test_bit w zero = w % 2 == 1
test_bit w (suc i) = test_bit (w / 2) i

halving_below {ℓ} :
    (P : ℕ → Type ℓ) → P 0 → ((a : ℕ) → P (suc a / 2) → P (suc a)) → (top a : ℕ) → a ≤ top → P a
halving_below P base step top zero h = base
halving_below P base step zero (suc a) h = absurd (omega arith)
halving_below P base step (suc top) (suc a) h =
    step a (halving_below P base step top (suc a / 2) (omega arith))

-- Induction along the binary digits of a number.
halving {ℓ} : (P : ℕ → Type ℓ) → P 0 → ((a : ℕ) → P (suc a / 2) → P (suc a)) → (a : ℕ) → P a
halving P base step a = halving_below P base step a a (omega arith)

module _ (rest : ℕ → ℕ) (on : ℕ → ℕ → ℕ) where
  abbrev SameDigits : ℕ → Type 0
  SameDigits a = (b n m : ℕ) → a ≤ n → a ≤ m → digits rest on n a b ≡ digits rest on m a b

  no_digits : (n b : ℕ) → digits rest on n 0 b ≡ rest b
  no_digits zero b = refl
  no_digits (suc n) b = refl

  more_digits : (a : ℕ) → SameDigits (suc a / 2) → SameDigits (suc a)
  more_digits a same b zero m h k = absurd (omega arith)
  more_digits a same b (suc n) zero h k = absurd (omega arith)
  more_digits a same b (suc n) (suc m) h k =
      ap (λ high. high * 2 + on (suc a % 2) (b % 2)) (same (b / 2) n m (omega arith) (omega arith))

  same_digits : (a : ℕ) → SameDigits a
  same_digits = halving SameDigits (λ b n m h k. no_digits n b ∙ sym (no_digits m b)) more_digits

  -- An operation digit by digit works on the last digits apart.
  bitwise_step :
      ((b : ℕ) → rest b ≡ rest (b / 2) * 2 + on 0 (b % 2))
      → (a b : ℕ)
      → digits rest on a a b ≡ digits rest on (a / 2) (a / 2) (b / 2) * 2 + on (a % 2) (b % 2)
  bitwise_step ends zero b = ends b
  bitwise_step ends (suc a) b =
      ap (λ high. high * 2 + on (suc a % 2) (b % 2))
        (same_digits (suc a / 2) (b / 2) a (suc a / 2) (omega arith) (omega arith))

pub bit_and_step : (a b : ℕ) → bit_and a b ≡ bit_and (a / 2) (b / 2) * 2 + min (a % 2) (b % 2)
bit_and_step a b =
    rw (bit_and-bitwise a b, bit_and-bitwise (a / 2) (b / 2))
      (bitwise_step (λ b. 0) min (λ b. omega arith) a b)

pub bit_or_step : (a b : ℕ) → bit_or a b ≡ bit_or (a / 2) (b / 2) * 2 + max (a % 2) (b % 2)
bit_or_step a b =
    rw (bit_or-bitwise a b, bit_or-bitwise (a / 2) (b / 2))
      (bitwise_step (λ b. b) max (λ b. omega arith) a b)

bit_and_half : (a b : ℕ) → bit_and a b / 2 ≡ bit_and (a / 2) (b / 2)
bit_and_half a b = omega (arith, bit_and_step a b)

bit_or_half : (a b : ℕ) → bit_or a b / 2 ≡ bit_or (a / 2) (b / 2)
bit_or_half a b = omega (arith, bit_or_step a b)

and_digit :
    (c m a b : ℕ) → c ≡ m * 2 + min (a % 2) (b % 2) → (c % 2 == 1) ≡ (a % 2 == 1 && b % 2 == 1)
and_digit c m a b h = ground arith

or_digit :
    (c m a b : ℕ) → c ≡ m * 2 + max (a % 2) (b % 2) → (c % 2 == 1) ≡ (a % 2 == 1 || b % 2 == 1)
or_digit c m a b h = ground arith

pub test_bit-bit_and : (a b i : ℕ) → test_bit (bit_and a b) i ≡ (test_bit a i && test_bit b i)
unfolding test_bit
test_bit-bit_and a b zero = and_digit (bit_and a b) (bit_and (a / 2) (b / 2)) a b (bit_and_step a b)
test_bit-bit_and a b (suc i) =
    ap (λ w. test_bit w i) (bit_and_half a b) ∙ test_bit-bit_and (a / 2) (b / 2) i

pub test_bit-bit_or : (a b i : ℕ) → test_bit (bit_or a b) i ≡ (test_bit a i || test_bit b i)
unfolding test_bit
test_bit-bit_or a b zero = or_digit (bit_or a b) (bit_or (a / 2) (b / 2)) a b (bit_or_step a b)
test_bit-bit_or a b (suc i) =
    ap (λ w. test_bit w i) (bit_or_half a b) ∙ test_bit-bit_or (a / 2) (b / 2) i

-- `!` on a word of n bits.
abbrev pub complement : ℕ → ℕ → ℕ
complement n v = 2 ^ n - 1 - v

complement_half : (n v : ℕ) → v < 2 ^ suc n → complement (suc n) v / 2 ≡ complement n (v / 2)
complement_half n v h = omega arith

complement_digit : (n v : ℕ) → v < 2 ^ suc n → (complement (suc n) v % 2 == 1) ≡ not (v % 2 == 1)
complement_digit n v h = ground arith

pub test_bit-complement :
    (n v i : ℕ) → v < 2 ^ n → i < n → test_bit (complement n v) i ≡ not (test_bit v i)
unfolding test_bit
test_bit-complement zero v i h k = absurd (omega arith)
test_bit-complement (suc n) v zero h k = complement_digit n v h
test_bit-complement (suc n) v (suc i) h k =
    ap (λ w. test_bit w i) (complement_half n v h)
    ∙ test_bit-complement n (v / 2) i (omega arith) (omega arith)

half_power : (i : ℕ) → 2 ^ suc i / 2 ≡ 2 ^ i
half_power i = omega arith

pub bit_and-zero : (a : ℕ) → bit_and a 0 ≡ 0
bit_and-zero =
    halving (λ a. bit_and a 0 ≡ 0) (bit_and-bitwise 0 0)
      (λ a h. omega (arith, bit_and_step (suc a) 0))

pub bit_and_self : (a : ℕ) → bit_and a a ≡ a
bit_and_self =
    halving (λ a. bit_and a a ≡ a) (bit_and-bitwise 0 0)
      (λ a h. omega (arith, bit_and_step (suc a) (suc a)))

bit_and-power_suc : (w i : ℕ) → bit_and w (2 ^ suc i) ≡ bit_and (w / 2) (2 ^ i) * 2
bit_and-power_suc w i =
    bit_and_step w (2 ^ suc i) ∙ omega (arith, ap (λ n. bit_and (w / 2) n) (half_power i))

double_is_zero : (m n : ℕ) → m ≡ n * 2 → not (m == 0) ≡ not (n == 0)
double_is_zero m n h = ground arith

-- A mask of one digit.
pub bit_and-power : (w i : ℕ) → not (bit_and w (2 ^ i) == 0) ≡ test_bit w i
unfolding test_bit
bit_and-power w zero = ground (arith, bit_and_step w 1, bit_and-zero (w / 2))
bit_and-power w (suc i) =
    double_is_zero (bit_and w (2 ^ suc i)) (bit_and (w / 2) (2 ^ i)) (bit_and-power_suc w i)
    ∙ bit_and-power (w / 2) i

abbrev sets : ℕ → ℕ → Bool
sets zero zero = true
sets zero (suc j) = false
sets (suc i) zero = false
sets (suc i) (suc j) = sets i j

sets-== : (i j : ℕ) → sets i j ≡ (i == j)
sets-== zero zero = refl
sets-== zero (suc j) = ground arith
sets-== (suc i) zero = ground arith
sets-== (suc i) (suc j) = ground (arith, sets-== i j)

pub test_bit-zero : (j : ℕ) → test_bit 0 j ≡ false
unfolding test_bit
test_bit-zero zero = refl
test_bit-zero (suc j) = test_bit-zero j

test_bit-sets : (i j : ℕ) → test_bit (2 ^ i) j ≡ sets i j
unfolding test_bit
test_bit-sets zero zero = refl
test_bit-sets zero (suc j) = test_bit-zero j
test_bit-sets (suc i) zero = ground arith
test_bit-sets (suc i) (suc j) = ap (λ w. test_bit w j) (half_power i) ∙ test_bit-sets i j

pub test_bit-power : (i j : ℕ) → test_bit (2 ^ i) j ≡ (i == j)
test_bit-power i j = test_bit-sets i j ∙ sets-== i j

pub bit_and-le : (a b : ℕ) → bit_and a b ≤ a
bit_and-le =
    halving (λ a. (b : ℕ) → bit_and a b ≤ a) (λ b. omega (arith, bit_and-bitwise 0 b))
      (λ a h b. omega (arith, bit_and_step (suc a) b, h (b / 2)))

pub bit_or-lt : (n a b : ℕ) → a < 2 ^ n → b < 2 ^ n → bit_or a b < 2 ^ n
bit_or-lt zero a b h k =
    omega (arith, ap (λ x. bit_or x b) {x = a} {y = 0} (omega arith), bit_or-bitwise 0 b)
bit_or-lt (suc n) a b h k =
    omega (arith, bit_or_step a b, bit_or-lt n (a / 2) (b / 2) (omega arith) (omega arith))

power_positive : (n : ℕ) → 0 < 2 ^ n
power_positive zero = omega arith
power_positive (suc n) = omega (arith, power_positive n)

pub power-lt : (n i : ℕ) → i < n → 2 ^ i < 2 ^ n
power-lt zero i h = absurd (omega arith)
power-lt (suc n) zero h = omega (arith, power_positive n)
power-lt (suc n) (suc i) h = omega (arith, power-lt n i (omega arith))
