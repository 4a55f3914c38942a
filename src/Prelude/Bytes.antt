-- ===== src/Prelude/Bytes.antt =====
-- Text as its bytes, with the operations of Rust's `str` that the code calls. Text is
-- split at ASCII bytes; text that is trimmed here is ASCII (a header value that reads as text, an
-- environment variable, a path segment), and Spaces has the white space of Unicode.
use Prim.Native.Nat.{ℕ, ◌+◌, ◌-◌, ◌*◌, ◌^◌, ◌<◌}
use Prim.Native.Char.{code}
use Prim.Native.String.{String}
use mathlib.Core.Path.{◌≡◌, refl}
use mathlib.Core.Logic.{◌↔◌, ◌≢◌, inl, inr}
use mathlib.Core.Bool.{Bool, true, false, ◌&&◌, ◌||◌}
use mathlib.Core.List.{List, [], ◌∷◌, reverse}
use mathlib.Core.Option.{Option, none, some}
use native.Mathlib.Omega.{arith}
use den_atlas.Prelude.Tests.{if◌then◌else◌, leb, ltb, ◌==◌, Bool-cases}

abbrev pub Text : Type 0
Text = List ℕ

abbrev pub codes : String → Text
codes String.[] = []
codes (String.◌∷◌ c s) = code c ∷ codes s

unfoldable pub same_text : Text → Text → Bool
same_text [] [] = true
same_text [] (b ∷ t) = false
same_text (a ∷ s) [] = false
same_text (a ∷ s) (b ∷ t) = a == b && same_text s t

pub same_text-eq : (s t : Text) → same_text s t ≡ true → s ≡ t
unfolding same_text
same_text-eq [] [] h = refl
same_text-eq [] (b ∷ t) h = ground arith
same_text-eq (a ∷ s) [] h = ground arith
same_text-eq (a ∷ s) (b ∷ t) h = ground (arith, same_text-eq s t)

pub same_text_refl : (s : Text) → same_text s s ≡ true
unfolding same_text
same_text_refl [] = refl
same_text_refl (a ∷ s) = ground (arith, same_text_refl s)

pub same_text_iff : (s t : Text) → (same_text s t ≡ true) ↔ (s ≡ t)
same_text_iff s t = (same_text-eq s t, λ e. ground (arith, same_text_refl s))

unfoldable pub starts_with : Text → Text → Bool
starts_with [] s = true
starts_with (p ∷ ps) [] = false
starts_with (p ∷ ps) (c ∷ s) = c == p && starts_with ps s

unfoldable pub strip_prefix : Text → Text → Option Text
strip_prefix [] s = some s
strip_prefix (p ∷ ps) [] = none
strip_prefix (p ∷ ps) (c ∷ s) = if c == p then strip_prefix ps s else none

abbrev pub is_space : ℕ → Bool
is_space c = c == 32 || (leb 9 c && leb c 13)

unfoldable pub trim_start : Text → Text
trim_start [] = []
trim_start (c ∷ s) = if is_space c then trim_start s else c ∷ s

unfoldable pub trim : Text → Text
unfolding trim_start
trim s = reverse (trim_start (reverse (trim_start s)))

-- `split(c)`: one piece more than there are separators.
unfoldable pub add_to_first : ℕ → List Text → List Text
add_to_first c [] = (c ∷ []) ∷ []
add_to_first c (s ∷ ss) = (c ∷ s) ∷ ss

unfoldable pub split : ℕ → Text → List Text
unfolding add_to_first
split d [] = [] ∷ []
split d (c ∷ s) = if c == d then [] ∷ split d s else add_to_first c (split d s)

unfoldable pub split_once : ℕ → Text → Option (Text × Text)
split_once d [] = none
split_once d (c ∷ s) =
    if c == d
    then some ([], s)
    else elim (split_once d s) [ none ↦ none | some (a, b) ↦ some (c ∷ a, b) ]

abbrev pub is_digit : ℕ → Bool
is_digit c = leb b'0' c && leb c b'9'

unfoldable pub all_digits : Text → Bool
all_digits [] = true
all_digits (c ∷ s) = is_digit c && all_digits s

-- `str::parse` for an unsigned word of 64 bits: digits, with a `+` before them or not, whose value
-- fits.
unfoldable pub parse_digits : ℕ → Text → Option ℕ
parse_digits n [] = some n
parse_digits n (c ∷ s) =
    let n' = n * 10 + (c - b'0') in
    if is_digit c && ltb n' (2 ^ 64) then parse_digits n' s else none

unfoldable pub parse_unsigned : Text → Option ℕ
parse_unsigned [] = none
parse_unsigned (c ∷ []) = if is_digit c then some (c - b'0') else none
parse_unsigned (c ∷ d ∷ s) =
    if c == b'+' then parse_digits 0 (d ∷ s) else parse_digits 0 (c ∷ d ∷ s)

parse_digits-lt : (n : ℕ) (s : Text) (m : ℕ) → n < 2 ^ 64 → parse_digits n s ≡ some m → m < 2 ^ 64
unfolding parse_digits
parse_digits-lt n [] m h e = ground arith
parse_digits-lt n (c ∷ s) m h e = ground (arith, parse_digits-lt (n * 10 + (c - b'0')) s m)

pub parse_unsigned-lt : (s : Text) (m : ℕ) → parse_unsigned s ≡ some m → m < 2 ^ 64
unfolding parse_unsigned
parse_unsigned-lt [] m e = ground arith
parse_unsigned-lt (c ∷ []) m e = ground arith
parse_unsigned-lt (c ∷ d ∷ s) m e =
    ground (arith, parse_digits-lt 0 (d ∷ s) m, parse_digits-lt 0 (c ∷ d ∷ s) m)

pub same_text-ne : (s t : Text) → same_text s t ≡ false → s ≢ t
same_text-ne s t h e = ground (arith, same_text_refl s)

unfoldable pub text_dec : Discrete Text
unfolding same_text
text_dec s t = elim (Bool-cases (same_text s t)) [
  | inl e ↦ yes (same_text-eq s t e)
  | inr e ↦ no (same_text-ne s t e)
]
