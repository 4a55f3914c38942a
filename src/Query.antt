-- ===== src/Query.antt =====
-- The parts of a URL that src/handler.rs reads: a query string, the extra of a path, and its escapes.
pub mod Escapes
pub mod Pairs
mod Tests
use den_atlas.Prelude.{
  ℕ, ◌+◌, ◌-◌, ◌*◌, Bool, true, false, not, ◌&&◌, List, [], ◌∷◌, ◌++◌, Option, none, some, leb,
  ◌==◌, if◌then◌else◌,
}
use den_atlas.Prelude.Bytes.{Text, same_text, split, split_once, is_digit}
use den_atlas.Prelude.Decimal.{is_empty}

-- `splitn(2, '=')`
unfoldable pub pair_of : Text → Text × Text
pair_of kv = elim (split_once b'=' kv) [ none ↦ (kv, []) | some (k, v) ↦ (k, v) ]

-- The first that the test takes.
unfoldable pub find_param : Text → List Text → Option Text
unfolding pair_of
find_param key [] = none
find_param key (kv ∷ kvs) =
    if same_text (pair_of kv).0 key then some (pair_of kv).1 else find_param key kvs

unfoldable pub query_param : Text → Text → Option Text
unfolding find_param
query_param query key = find_param key (split b'&' query)

-- As `find_param`, and not empty.
unfoldable pub find_extra : Text → List Text → Option Text
unfolding pair_of
find_extra key [] = none
find_extra key (kv ∷ kvs) =
    if same_text (pair_of kv).0 key && not (is_empty (pair_of kv).1)
    then some (pair_of kv).1
    else find_extra key kvs

unfoldable pub extra_value : Text → Text → Option Text
unfolding find_extra
extra_value extra key = find_extra key (split b'&' extra)

-- `char::to_digit(16)`
unfoldable pub hex_digit : ℕ → Option ℕ
hex_digit c =
    if is_digit c
    then some (c - b'0')
    else if leb b'a' c && leb c b'f'
    then some (c - b'a' + 10)
    else if leb b'A' c && leb c b'F'
    then some (c - b'A' + 10)
    else none

-- The byte that two hexadecimal digits stand for.
unfoldable pub escaped : ℕ → ℕ → Option ℕ
unfolding hex_digit
escaped c d = elim (hex_digit c) [
  | none ↦ none
  | some high ↦ elim (hex_digit d) [ none ↦ none | some low ↦ some (high * 16 + low) ]
]

-- The bytes after decoding, before they are read as text.
unfoldable pub decoded_bytes : Text → Text
unfolding escaped
decoded_bytes [] = []
decoded_bytes (a ∷ []) = a ∷ []
decoded_bytes (a ∷ b ∷ []) = a ∷ b ∷ []
decoded_bytes (a ∷ b ∷ c ∷ s) =
    let kept = a ∷ decoded_bytes (b ∷ c ∷ s) in
    let decoded = decoded_bytes s in
    if a == b'%' then elim (escaped b c) [ none ↦ kept | some n ↦ n ∷ decoded ] else kept

-- `String::from_utf8_lossy` is an argument.
unfoldable pub percent_decode : (Text → Text) → Text → Text
unfolding decoded_bytes
percent_decode utf8_lossy s = utf8_lossy (decoded_bytes s)
