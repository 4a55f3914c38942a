-- ===== src/Config.antt =====
-- src/config.rs: the configuration in the path of the URL, with the look-ups in src/catalog.rs it uses.
-- The table of providers is an argument.
pub mod Selection
pub mod Repeats
pub mod Path
pub mod Regions
mod Tests
use den_atlas.Prelude.{
  ℕ, ◌+◌, ◌-◌, Bool, true, false, ◌&&◌, ◌||◌, not, List, [], ◌∷◌, ◌++◌, Option, none, some, leb,
  ◌==◌, map, length, if◌then◌else◌,
}
use den_atlas.Prelude.Bytes.{Text, codes, same_text, split, split_once, trim}
use den_atlas.Prelude.Decimal.{is_empty}

pub record Provider : Type 0 where
  pub code : Text
  pub id : Text
  pub name : Text
  pub package_ids : List ℕ
  pub motn : Text

pub data Region : Type 0 where
  auto : Region
  fixed : Text → Region

pub record Config : Type 0 where
  pub region : Region
  pub providers : List Provider

abbrev is_lower : ℕ → Bool
is_lower c = leb b'a' c && leb c b'z'

abbrev is_upper : ℕ → Bool
is_upper c = leb b'A' c && leb c b'Z'

abbrev pub is_alphabetic : ℕ → Bool
is_alphabetic c = is_lower c || is_upper c

abbrev pub to_upper : ℕ → ℕ
to_upper c = if is_lower c then c - 32 else c

abbrev to_lower : ℕ → ℕ
to_lower c = if is_upper c then c + 32 else c

unfoldable pub upper : Text → Text
upper s = map to_upper s

unfoldable pub eq_ignore_case : Text → Text → Bool
eq_ignore_case s t = same_text (map to_lower s) (map to_lower t)

unfoldable pub all_alphabetic : Text → Bool
all_alphabetic [] = true
all_alphabetic (c ∷ s) = is_alphabetic c && all_alphabetic s

unfoldable pub normalize_country : Text → Option Text
unfolding upper
normalize_country s =
    let t = trim s in if length t == 2 && all_alphabetic t then some (upper t) else none

unfoldable pub parse_region : Text → Option Region
parse_region s =
    if eq_ignore_case s (codes "auto")
    then some auto
    else elim (normalize_country s) [ none ↦ none | some cc ↦ some (fixed cc) ]

unfoldable pub country : Config → Option Text → Text → Text
country c forwarded default = elim c.region [
  | fixed cc ↦ cc
  | auto ↦ elim forwarded [
    | none ↦ default
    | some s ↦ elim (normalize_country s) [ none ↦ default | some cc ↦ cc ]
  ]
]

unfoldable pub provider_by_code : List Provider → Text → Option Provider
provider_by_code [] code = none
provider_by_code (p ∷ ps) code = if same_text p.code code then some p else provider_by_code ps code

unfoldable pub selected : Text → List Provider → Bool
selected code [] = false
selected code (p ∷ ps) = same_text p.code code || selected code ps

-- One code of the segment: skipped when empty, unknown or repeated.
unfoldable pub add_code : List Provider → List Provider → Text → List Provider
unfolding provider_by_code selected
add_code table chosen code = if is_empty code then chosen else elim (provider_by_code table code) [
  | none ↦ chosen
  | some p ↦ if selected p.code chosen then chosen else chosen ++ p ∷ []
]

unfoldable pub add_codes : List Provider → List Provider → List Text → List Provider
unfolding add_code
add_codes table chosen [] = chosen
add_codes table chosen (c ∷ cs) = add_codes table (add_code table chosen c) cs

unfoldable pub parse : List Provider → Text → Option Config
unfolding add_codes parse_region
parse table segment = elim (split_once b'_' segment) [
  | none ↦ none
  | some (region, codes) ↦ elim (parse_region region) [
    | none ↦ none
    | some r ↦ some (record { region = r; providers = add_codes table [] (split b'-' codes) })
  ]
]
