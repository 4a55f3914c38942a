-- ===== src/TitleSearch/Json.antt =====
-- The scanning of an export's line in crates/den-titlesearch/src/export.rs: places, numbers, strings.
-- An index into a line is the bytes from there on.
pub mod Strings
use den_atlas.Prelude.{
  ℕ, zero, suc, ◌+◌, ◌-◌, ◌*◌, ◌/◌, ◌%◌, ◌^◌, Bool, true, false, ◌&&◌, ◌||◌, not, List, [], ◌∷◌,
  ◌++◌, Option, none, some, ltb, leb, ◌==◌, if◌then◌else◌,
}
use den_atlas.Prelude.Bytes.{Text, codes, strip_prefix, parse_unsigned, is_digit}
use den_atlas.Query.{hex_digit}

-- The bytes just past the first place where the needle stands.
unfoldable pub find_after : Text → Text → Option Text
unfolding strip_prefix
find_after [] needle = strip_prefix needle []
find_after (c ∷ hay) needle = elim (strip_prefix needle (c ∷ hay)) [
  | some rest ↦ some rest
  | none ↦ find_after hay needle
]

unfoldable pub skip_spaces : Text → Text
skip_spaces [] = []
skip_spaces (c ∷ s) = if c == 32 then skip_spaces s else c ∷ s

abbrev drop_colon : Text → Text
drop_colon [] = []
drop_colon (c ∷ s) = if c == b':' then s else c ∷ s

unfoldable pub skip_colon : Text → Text
unfolding skip_spaces
skip_colon s = skip_spaces (drop_colon (skip_spaces s))

unfoldable pub take_while : (ℕ → Bool) → Text → Text
take_while f [] = []
take_while f (c ∷ s) = let rest = take_while f s in if f c then c ∷ rest else []

abbrev pub in_number : ℕ → Bool
in_number c = is_digit c || c == b'-' || c == b'+' || c == b'.' || c == b'e' || c == b'E'

unfoldable pub parse_u32 : Text → Option ℕ
unfolding take_while
parse_u32 s = elim (parse_unsigned (take_while is_digit s)) [
  | none ↦ none
  | some n ↦ if ltb n (2 ^ 32) then some n else none
]

-- Four hexadecimal digits at the start of the text.
unfoldable pub hex4 : Text → Option ℕ
unfolding hex_digit
hex4 (a ∷ b ∷ c ∷ d ∷ s) = elim (hex_digit a) [
  | none ↦ none
  | some i ↦ elim (hex_digit b) [
    | none ↦ none
    | some j ↦ elim (hex_digit c) [
      | none ↦ none
      | some k ↦ elim (hex_digit d) [
        | none ↦ none
        | some l ↦ some (((i * 16 + j) * 16 + k) * 16 + l)
      ]
    ]
  ]
]
hex4 s = none

-- `char::from_u32`, or the replacement character.
abbrev pub char_of : ℕ → ℕ
char_of code = if (leb 55296 code && ltb code 57344) || ltb 1114111 code then 65533 else code

unfoldable pub encode_utf8 : ℕ → Text
encode_utf8 c =
    if ltb c 128
    then c ∷ []
    else if ltb c 2048
    then (192 + c / 64) ∷ (128 + c % 64) ∷ []
    else if ltb c 65536
    then (224 + c / 4096) ∷ (128 + c / 64 % 64) ∷ (128 + c % 64) ∷ []
    else (240 + c / 262144) ∷ (128 + c / 4096 % 64) ∷ (128 + c / 64 % 64) ∷ (128 + c % 64) ∷ []

-- The low half of a pair after the high half: two bytes `\u`, then four digits in its range.
unfoldable pub low_surrogate : Text → Option ℕ
unfolding hex4
low_surrogate (a ∷ b ∷ s) =
    if a == 92 && b == b'u'
    then elim (hex4 s) [
      | none ↦ none
      | some low ↦ if leb 56320 low && ltb low 57344 then some low else none
    ]
    else none
low_surrogate s = none

abbrev drop4 : Text → Text
drop4 (a ∷ b ∷ c ∷ d ∷ s) = s
drop4 s = []

-- After `\u`: the bytes of the character, and how many bytes were read.
unfoldable pub unicode : Text → Option (Text × ℕ)
unfolding hex4 low_surrogate encode_utf8
unicode s = elim (hex4 s) [
  | none ↦ none
  | some high ↦
      if leb 55296 high && ltb high 56320
      then elim (low_surrogate (drop4 s)) [
        | none ↦ some (encode_utf8 (char_of high), 4)
        | some low ↦
            some (encode_utf8 (char_of (65536 + (high - 55296) * 1024 + (low - 56320))), 10)
      ]
      else some (encode_utf8 (char_of high), 4)
]

-- After `\`: the bytes that are meant, and how many bytes were read.
unfoldable pub escape : Text → Option (Text × ℕ)
unfolding unicode
escape [] = none
escape (e ∷ s) =
    if e == b'n'
    then some (10 ∷ [], 1)
    else if e == b't'
    then some (9 ∷ [], 1)
    else if e == b'r'
    then some (13 ∷ [], 1)
    else if e == b'b'
    then some (8 ∷ [], 1)
    else if e == b'f'
    then some (12 ∷ [], 1)
    else if e == b'u'
    then elim (unicode s) [ none ↦ none | some (bytes, n) ↦ some (bytes, suc n) ]
    else some (e ∷ [], 1)

abbrev pub before : Text → Option Text → Option Text
before bytes none = none
before bytes (some rest) = some (bytes ++ rest)

-- The string's bytes up to its closing quote, after as many bytes that are skipped.
unfoldable pub json_bytes : ℕ → Text → Option Text
unfolding escape
json_bytes skip [] = none
json_bytes (suc skip) (c ∷ s) = json_bytes skip s
json_bytes zero (c ∷ s) = elim (c == 34) [
  | true ↦ some []
  | false ↦ elim (c == 92) [
    | true ↦ elim (escape s) [ none ↦ none | some (bytes, n) ↦ before bytes (json_bytes n s) ]
    | false ↦ before (c ∷ []) (json_bytes zero s)
  ]
]
