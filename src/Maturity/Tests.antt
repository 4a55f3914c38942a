-- ===== src/Maturity/Tests.antt =====
-- Policies of src/maturity.rs.
use den_atlas.Prelude.{
  ℕ, ◌≤◌, ◌≡◌, ◌↔◌, refl, Bool, true, false, List, [], ◌∷◌, Option, none, some, arith,
}
use den_atlas.Prelude.Bytes.{Text, codes}
use den_atlas.Prelude.Results.{err}
use den_atlas.Maturity.{
  UnknownRatings, Region, allow, block, KidAudience, child, child_or_teen, Policy, from_query,
  allows_title_with, cache_identity,
}
use den_atlas.Maturity.Reading.{IsValid}
use den_atlas.Maturity.Decisions.{AgeFits, allows_title_with_iff}
use den_atlas.Maturity.Identity.{cache_identity-injective}

abbrev for_teens : KidAudience → Bool
for_teens child = false
for_teens child_or_teen = true

-- The policy of a Kid with a ceiling.
abbrev kid_policy : ℕ → UnknownRatings → Option Region → KidAudience → Policy
kid_policy ceiling unknown region band = record {
  maximum_age = some ceiling;
  unknown_ratings = unknown;
  region = region;
  kid_audience = some band;
}

abbrev seven : Policy
seven = kid_policy 7 block none child

abbrev twelve : Policy
twelve = record {
  maximum_age = some 12;
  unknown_ratings = block;
  region = some (record { first = b'F'; second = b'I' });
  kid_audience = none;
}

from_query_nineteen :
    from_query (codes "maximumAge=19") ≡ err (codes "maximumAge must be an integer from 0 to 18")
unfolding from_query den_atlas.Query.query_param den_atlas.Prelude.Bytes.split
    den_atlas.Prelude.Bytes.same_text den_atlas.Prelude.Bytes.split_once
    den_atlas.Prelude.Bytes.parse_unsigned den_atlas.Prelude.Bytes.parse_digits
from_query_nineteen = refl

cache_identity-twelve :
    cache_identity twelve
    ≡ some (codes "maturity:v2;maximumAge=12;unknownRatings=block;region=FI;kidAudience=-")
unfolding cache_identity den_atlas.Prelude.Decimal.decimal
cache_identity-twelve = refl

allows_title_with_iff_example :
    (allows_title_with (kid_policy 12 block none child_or_teen) none for_teens ≡ true)
    ↔ ((true ≡ true) × AgeFits (kid_policy 12 block none child_or_teen) for_teens none)
allows_title_with_iff_example =
    allows_title_with_iff (kid_policy 12 block none child_or_teen) child_or_teen none for_teens refl

-- Made for teens, not for children, and of unknown age, where unknown ages are allowed.
teens_unknown : allows_title_with (kid_policy 12 allow none child_or_teen) none for_teens ≡ true
unfolding allows_title_with
teens_unknown = refl

IsValid-twelve : IsValid twelve
IsValid-twelve = record { age_bound = λ age e. ground arith; region_letters = λ r e. ground arith }

cache_identity-injective_example : twelve ≡ twelve
cache_identity-injective_example =
    cache_identity-injective twelve twelve IsValid-twelve IsValid-twelve refl
