-- ===== src/Maturity.antt =====
-- src/maturity.rs: the policy of a request and what it admits. What the code looks up lazily, a title's
-- age, whether it is made for an audience and whether it is vetoed, is an argument.
pub mod Reading
pub mod Decisions
pub mod Identity
mod Tests
use den_atlas.Prelude.{
  ℕ, ◌+◌, ◌-◌, Bool, true, false, ◌&&◌, ◌||◌, not, List, [], ◌∷◌, ◌++◌, Option, none, some, ltb,
  leb, ◌==◌, if◌then◌else◌,
}
use den_atlas.Prelude.Bytes.{Text, codes, same_text, parse_unsigned}
use den_atlas.Prelude.Decimal.{decimal}
use den_atlas.Prelude.Results.{Result, ok, err, ◌>>=◌, read_optional}
use den_atlas.Config.{is_alphabetic, to_upper}
use den_atlas.Query.{query_param}

pub data UnknownRatings : Type 0 where
  allow block : UnknownRatings

pub data KidAudience : Type 0 where
  child child_or_teen : KidAudience

-- Two letters.
pub record Region : Type 0 where
  pub first : ℕ
  pub second : ℕ

pub record Policy : Type 0 where
  pub maximum_age : Option ℕ
  pub unknown_ratings : UnknownRatings
  pub region : Option Region
  pub kid_audience : Option KidAudience

unfoldable pub parse_audience : Text → Result Text KidAudience
parse_audience value =
    if same_text value (codes "child")
    then ok child
    else if same_text value (codes "child-or-teen")
    then ok child_or_teen
    else err (codes "kidAudience must be child or child-or-teen")

abbrev pub audience_name : KidAudience → Text
audience_name child = codes "child"
audience_name child_or_teen = codes "child-or-teen"

abbrev region_error : Text
region_error = codes "region must be a two-letter ISO 3166-1 code"

unfoldable pub parse_region : Text → Result Text Region
parse_region (a ∷ b ∷ []) =
    if is_alphabetic a && is_alphabetic b
    then ok (record { first = to_upper a; second = to_upper b })
    else err region_error
parse_region value = err region_error

abbrev age_error : Text
age_error = codes "maximumAge must be an integer from 0 to 18"

-- `parse::<u8>`
unfoldable pub parse_age : Text → Result Text ℕ
parse_age value = elim (parse_unsigned value) [
  | none ↦ err age_error
  | some n ↦ if ltb n 256 then ok n else err age_error
]

abbrev default_unknown : Option ℕ → UnknownRatings
default_unknown none = allow
default_unknown (some age) = block

unfoldable pub parse_unknown : Option Text → Option ℕ → Result Text UnknownRatings
parse_unknown none maximum_age = ok (default_unknown maximum_age)
parse_unknown (some value) maximum_age =
    if same_text value (codes "allow")
    then ok allow
    else if same_text value (codes "block")
    then ok block
    else err (codes "unknownRatings must be allow or block")

unfoldable pub check : Policy → Result Text Policy
check p = elim p.maximum_age [ none ↦ ok p | some age ↦ if ltb 18 age then err age_error else ok p ]

unfoldable pub from_query : Text → Result Text Policy
unfolding parse_age parse_unknown parse_region parse_audience check
from_query query = do
  maximum_age ← read_optional (query_param query (codes "maximumAge")) parse_age
  unknown_ratings ← parse_unknown (query_param query (codes "unknownRatings")) maximum_age
  region ← read_optional (query_param query (codes "region")) parse_region
  kid_audience ← read_optional (query_param query (codes "kidAudience")) parse_audience
  check (record {
    maximum_age = maximum_age;
    unknown_ratings = unknown_ratings;
    region = region;
    kid_audience = kid_audience;
  })

abbrev is_block : UnknownRatings → Bool
is_block allow = false
is_block block = true

abbrev is_some {ℓ} : {A : Type ℓ} → Option A → Bool
is_some none = false
is_some (some a) = true

unfoldable pub allows : Policy → Option ℕ → Bool
allows p none = not (is_block p.unknown_ratings)
allows p (some minimum_age) = elim p.maximum_age [
  | none ↦ true
  | some maximum_age ↦ leb minimum_age maximum_age
]

unfoldable pub age_restricted : Policy → Bool
age_restricted p = is_some p.maximum_age || is_block p.unknown_ratings

unfoldable pub restricted : Policy → Bool
unfolding age_restricted
restricted p = age_restricted p || is_some p.kid_audience

unfoldable pub allows_with : Policy → Option ℕ → Bool
unfolding allows age_restricted
allows_with p minimum_age = not (age_restricted p) || allows p minimum_age

unfoldable pub kid_age_allows : Policy → Option ℕ → (KidAudience → Bool) → Bool
unfolding allows age_restricted
kid_age_allows p minimum_age made_for =
    not (age_restricted p)
    || elim minimum_age [ some age ↦ allows p (some age) | none ↦ allows p none || made_for child ]

unfoldable pub allows_title_with : Policy → Option ℕ → (KidAudience → Bool) → Bool
unfolding allows_with kid_age_allows
allows_title_with p minimum_age made_for = elim p.kid_audience [
  | none ↦ allows_with p minimum_age
  | some band ↦ made_for band && kid_age_allows p minimum_age made_for
]

unfoldable pub allows_direct : Policy → Option ℕ → (KidAudience → Bool) → Bool → Bool
unfolding allows_with kid_age_allows
allows_direct p minimum_age made_for vetoed = elim p.kid_audience [
  | none ↦ allows_with p minimum_age
  | some band ↦ not vetoed && kid_age_allows p minimum_age made_for
]

abbrev pub unknown_name : UnknownRatings → Text
unknown_name allow = codes "allow"
unknown_name block = codes "block"

abbrev pub age_name : Option ℕ → Text
age_name none = codes "-"
age_name (some age) = decimal age

abbrev pub region_name : Option Region → Text
region_name none = codes "-"
region_name (some r) = r.first ∷ r.second ∷ []

abbrev pub kid_name : Option KidAudience → Text
kid_name none = codes "-"
kid_name (some k) = audience_name k

unfoldable pub cache_identity : Policy → Option Text
unfolding restricted
cache_identity p =
    if not (restricted p) && not (is_some p.region)
    then none
    else some (
        codes "maturity:v2;maximumAge="
        ++ (age_name p.maximum_age
            ++ (codes ";unknownRatings="
                ++ (unknown_name p.unknown_ratings
                    ++ (codes ";region="
                        ++ (region_name p.region
                            ++ (codes ";kidAudience=" ++ kid_name p.kid_audience)))))))
