-- ===== src/Config/Regions.antt =====
-- The country that src/config.rs asks for.
use den_atlas.Prelude.{
  Bool, ◌≡◌, refl, true, List, [], ◌∷◌, Option, none, some, arith, inl, inr, length, length-map,
  Option-cases, leb, ◌&&◌,
}
use den_atlas.Prelude.Bytes.{Text, trim, split_once}
use den_atlas.Config.{
  Config, Provider, Region, auto, fixed, upper, all_alphabetic, normalize_country, parse_region,
  country, parse,
}

unfoldable pub all_upper : Text → Bool
all_upper [] = true
all_upper (c ∷ s) = leb b'A' c && leb c b'Z' && all_upper s

-- Two capital letters.
abbrev pub IsCountry : Text → Type 0
IsCountry s = (length s ≡ 2) × (all_upper s ≡ true)

all_upper-upper : (s : Text) → all_alphabetic s ≡ true → all_upper (upper s) ≡ true
unfolding all_upper upper all_alphabetic
all_upper-upper [] h = refl
all_upper-upper (c ∷ s) h = ground (arith, all_upper-upper s)

length-upper : (s : Text) → length (upper s) ≡ length s
unfolding upper
length-upper s = length-map s _

normalize_country-IsCountry : (s cc : Text) → normalize_country s ≡ some cc → IsCountry cc
unfolding normalize_country
normalize_country-IsCountry s cc e = ground (arith, all_upper-upper (trim s), length-upper (trim s))

parse_region-IsCountry : (s cc : Text) → parse_region s ≡ some (fixed cc) → IsCountry cc
unfolding parse_region
parse_region-IsCountry s cc e = elim (Option-cases (normalize_country s)) [
  | inl p ↦ absurd (ground arith)
  | inr (t, p) ↦ ground (arith, normalize_country-IsCountry s t)
]

-- A region that asks for no country but two capital letters.
abbrev HasCountry : Region → Type 0
HasCountry auto = Unit
HasCountry (fixed cc) = IsCountry cc

parse_region-HasCountry : (s : Text) (r : Region) → parse_region s ≡ some r → HasCountry r
parse_region-HasCountry s auto e = tt
parse_region-HasCountry s (fixed cc) e = parse_region-IsCountry s cc e

parse-parse_region :
    (table : List Provider) (segment : Text) (c : Config)
    → parse table segment ≡ some c
    → (s : Text) × (parse_region s ≡ some c.region)
unfolding parse
parse-parse_region table segment c e = elim (Option-cases (split_once b'_' segment)) [
  | inl p ↦ absurd (ground arith)
  | inr ((a, b), p) ↦ elim (Option-cases (parse_region a)) [
    | inl q ↦ absurd (ground arith)
    | inr (reg, q) ↦ (a, ground arith)
  ]
]

forwarded-IsCountry :
    (default : Text) (forwarded : Option Text)
    → IsCountry default
    → IsCountry (elim forwarded [
      | none ↦ default
      | some s ↦ elim (normalize_country s) [ none ↦ default | some cc ↦ cc ]
    ])
forwarded-IsCountry default none d = d
forwarded-IsCountry default (some s) d = elim (Option-cases (normalize_country s)) [
  | inl p ↦ rw p d
  | inr (cc, p) ↦ rw p (normalize_country-IsCountry s cc p)
]

region-IsCountry :
    (r : Region) (providers : List Provider) (default : Text) (forwarded : Option Text)
    → HasCountry r
    → IsCountry default
    → IsCountry (country (record { region = r; providers = providers }) forwarded default)
unfolding country
region-IsCountry auto ps default forwarded h d = forwarded-IsCountry default forwarded d
region-IsCountry (fixed cc) ps default forwarded h d = h

-- The country asked for is two capital letters, whatever the URL and the request's extra hold, if the
-- operator's own is.
pub country-IsCountry :
    (table : List Provider) (segment default : Text) (forwarded : Option Text) (c : Config)
    → parse table segment ≡ some c
    → IsCountry default
    → IsCountry (country c forwarded default)
country-IsCountry table segment default forwarded c e d =
    let (s, r) = parse-parse_region table segment c e in
    region-IsCountry c.region c.providers default forwarded (parse_region-HasCountry s c.region r) d
