-- ===== src/Prelude/Decimal.antt =====
-- Numbers as text: what `format!` writes and `str::parse` reads back.
use Prim.Native.Nat.{ℕ, zero, suc, ◌+◌, ◌/◌, ◌%◌, ◌^◌, ◌<◌}
use mathlib.Core.Path.{◌≡◌, refl, ◌∙◌}
use mathlib.Core.Bool.{Bool, true, false, ◌&&◌, not}
use mathlib.Core.List.{[], ◌∷◌, ◌++◌, reverse, reverse-cons, reverse-reverse}
use mathlib.Core.Option.{some}
use native.Mathlib.Numerals.{add-one}
use native.Mathlib.Omega.{arith}
use den_atlas.Prelude.Tests.{if◌then◌else◌, ltb}
use den_atlas.Prelude.Bytes.{
  Text, all_digits, is_space, parse_digits, parse_unsigned, trim, trim_start, split,
}

-- A number in decimal, as `format!` writes it: `n + 1` digits are always enough.
unfoldable pub decimal_onto : ℕ → ℕ → Text → Text
decimal_onto zero n rest = rest
decimal_onto (suc digits) n rest =
    let more = decimal_onto digits (n / 10) ((b'0' + n % 10) ∷ rest) in
    if ltb n 10 then (b'0' + n) ∷ rest else more

unfoldable pub decimal : ℕ → Text
unfolding decimal_onto
decimal n = decimal_onto (n + 1) n []

abbrev pub is_empty : Text → Bool
is_empty [] = true
is_empty (c ∷ s) = false

parse_digits-decimal_onto :
    (digits n : ℕ) (rest : Text)
    → n < digits
    → n < 2 ^ 64
    → parse_digits 0 (decimal_onto digits n rest) ≡ parse_digits n rest
unfolding parse_digits decimal_onto
parse_digits-decimal_onto zero n rest h small = absurd (omega arith)
parse_digits-decimal_onto (suc digits) n rest h small =
    ground (arith, parse_digits-decimal_onto digits (n / 10) ((b'0' + n % 10) ∷ rest))

all_digits-decimal_onto :
    (digits n : ℕ) (rest : Text)
    → n < digits
    → all_digits (decimal_onto digits n rest) ≡ all_digits rest
unfolding all_digits decimal_onto
all_digits-decimal_onto zero n rest h = absurd (omega arith)
all_digits-decimal_onto (suc digits) n rest h =
    ground (arith, all_digits-decimal_onto digits (n / 10) ((b'0' + n % 10) ∷ rest))

is_empty-decimal_onto :
    (digits n c : ℕ) (rest : Text) → is_empty (decimal_onto digits n (c ∷ rest)) ≡ false
unfolding decimal_onto
is_empty-decimal_onto zero n c rest = refl
is_empty-decimal_onto (suc digits) n c rest =
    ground (arith, is_empty-decimal_onto digits (n / 10) (b'0' + n % 10) (c ∷ rest))

parse_unsigned-digits :
    (s : Text) → all_digits s ≡ true → is_empty s ≡ false → parse_unsigned s ≡ parse_digits 0 s
unfolding parse_unsigned parse_digits all_digits
parse_unsigned-digits [] d e = absurd (ground arith)
parse_unsigned-digits (c ∷ []) d e = ground arith
parse_unsigned-digits (c ∷ d ∷ s) h e = ground arith

pub all_digits-decimal : (n : ℕ) → all_digits (decimal n) ≡ true
unfolding decimal all_digits
all_digits-decimal n = all_digits-decimal_onto (n + 1) n [] (omega arith)

pub is_empty-decimal : (n : ℕ) → is_empty (decimal n) ≡ false
unfolding decimal decimal_onto
is_empty-decimal n =
    rw add-one (ground (arith, is_empty-decimal_onto n (n / 10) (b'0' + n % 10) []))

-- What was written is read back.
pub parse_unsigned-decimal : (n : ℕ) → n < 2 ^ 64 → parse_unsigned (decimal n) ≡ some n
unfolding decimal parse_digits
parse_unsigned-decimal n h =
    parse_unsigned-digits (decimal n) (all_digits-decimal n) (is_empty-decimal n)
    ∙ parse_digits-decimal_onto (n + 1) n [] (omega arith) h

-- Digits hold no separator.
pub split-digits :
    (d : ℕ) (a b : Text) → d < b'0' → all_digits a ≡ true → split d (a ++ d ∷ b) ≡ a ∷ split d b
unfolding split all_digits
split-digits d [] b h e = ground arith
split-digits d (c ∷ a) b h e = ground (arith, split-digits d a b h)

pub split-digits_last : (d : ℕ) (a : Text) → d < b'0' → all_digits a ≡ true → split d a ≡ a ∷ []
unfolding split all_digits
split-digits_last d [] h e = refl
split-digits_last d (c ∷ a) h e = ground (arith, split-digits_last d a h)

-- Text without white space is not trimmed.
unfoldable pub no_space : Text → Bool
no_space [] = true
no_space (c ∷ s) = not (is_space c) && no_space s

pub no_space-append :
    (s t : Text) → no_space s ≡ true → no_space t ≡ true → no_space (s ++ t) ≡ true
unfolding no_space
no_space-append [] t h k = k
no_space-append (c ∷ s) t h k = ground (arith, no_space-append s t)

pub no_space-digits : (s : Text) → all_digits s ≡ true → no_space s ≡ true
unfolding no_space all_digits
no_space-digits [] h = refl
no_space-digits (c ∷ s) h = ground (arith, no_space-digits s)

no_space-reverse : (s : Text) → no_space s ≡ true → no_space (reverse s) ≡ true
unfolding no_space
no_space-reverse [] h = refl
no_space-reverse (c ∷ s) h =
    rw (reverse-cons c s)
      (no_space-append (reverse s) (c ∷ []) (no_space-reverse s (ground arith)) (ground arith))

trim_start-no_space : (s : Text) → no_space s ≡ true → trim_start s ≡ s
unfolding no_space trim_start
trim_start-no_space [] h = refl
trim_start-no_space (c ∷ s) h = ground arith

pub trim-no_space : (s : Text) → no_space s ≡ true → trim s ≡ s
unfolding trim
trim-no_space s h =
    rw (trim_start-no_space s h)
      (rw (trim_start-no_space (reverse s) (no_space-reverse s h)) (reverse-reverse s))
