-- ===== src/Prelude/Spaces.antt =====
-- `str::trim` of text in UTF-8, with all the white space of Unicode.
use Prim.Native.Nat.{ℕ, zero, suc}
use mathlib.Core.Path.{◌≡◌, refl}
use mathlib.Core.Bool.{Bool, ◌&&◌, ◌||◌}
use mathlib.Core.List.{[], ◌∷◌, reverse}
use den_atlas.Prelude.Tests.{if◌then◌else◌, leb, ◌==◌}
use den_atlas.Prelude.Bytes.{Text, is_space}

-- U+0085 and U+00A0
abbrev is_space_two : ℕ → ℕ → Bool
is_space_two a b = a == 0xC2 && (b == 0x85 || b == 0xA0)

-- U+1680, U+2000 to U+200A, U+2028, U+2029, U+202F, U+205F and U+3000
abbrev is_space_three : ℕ → ℕ → ℕ → Bool
is_space_three a b c =
    (a == 0xE1 && b == 0x9A && c == 0x80)
    || (a == 0xE2
        && b == 0x80
        && ((leb 0x80 c && leb c 0x8A) || c == 0xA8 || c == 0xA9 || c == 0xAF))
    || (a == 0xE2 && b == 0x81 && c == 0x9F)
    || (a == 0xE3 && b == 0x80 && c == 0x80)

-- How many bytes the character of white space takes at the start of a text, 0 if there is none.
abbrev space_bytes : Text → ℕ
space_bytes [] = 0
space_bytes (a ∷ []) = if is_space a then 1 else 0
space_bytes (a ∷ b ∷ []) = if is_space a then 1 else if is_space_two a b then 2 else 0
space_bytes (a ∷ b ∷ c ∷ s) =
    if is_space a then 1 else if is_space_two a b then 2 else if is_space_three a b c then 3 else 0

-- The same at the end, of the bytes from the last to the first.
abbrev space_bytes_back : Text → ℕ
space_bytes_back [] = 0
space_bytes_back (a ∷ []) = if is_space a then 1 else 0
space_bytes_back (b ∷ a ∷ []) = if is_space b then 1 else if is_space_two a b then 2 else 0
space_bytes_back (c ∷ b ∷ a ∷ s) =
    if is_space c then 1 else if is_space_two b c then 2 else if is_space_three a b c then 3 else 0

-- Skip so many bytes, and then what is still white space.
unfoldable pub skip_spaces_by : (Text → ℕ) → ℕ → Text → Text
skip_spaces_by width skip [] = []
skip_spaces_by width (suc skip) (c ∷ s) = skip_spaces_by width skip s
skip_spaces_by width zero (c ∷ s) = elim (width (c ∷ s)) [
  | zero ↦ c ∷ s
  | suc skip ↦ skip_spaces_by width skip s
]

unfoldable pub trim_text : Text → Text
unfolding skip_spaces_by
trim_text s = reverse (skip_spaces_by space_bytes_back 0 (reverse (skip_spaces_by space_bytes 0 s)))

trim_text_wide :
    trim_text (0xE3 ∷ 0x80 ∷ 0x80 ∷ 65 ∷ 32 ∷ 66 ∷ 0xC2 ∷ 0xA0 ∷ 32 ∷ []) ≡ 65 ∷ 32 ∷ 66 ∷ []
unfolding trim_text
trim_text_wide = refl
