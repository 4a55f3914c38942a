-- ===== src/Maturity/Reading.antt =====
-- The policies that src/maturity.rs reads from a query.
use den_atlas.Prelude.{
  ℕ, ◌≤◌, ◌≡◌, sym, ap, subst, ◌∙◌, Bool, true, false, ◌&&◌, [], ◌∷◌, Option, none, some, arith,
  inl, inr, leb, Option-cases,
}
use den_atlas.Prelude.Bytes.{Text, codes}
use den_atlas.Prelude.Results.{Result, ok, Result-cases, read_optional}
use den_atlas.Query.{query_param}
use den_atlas.Maturity.{
  Region, Policy, parse_age, parse_unknown, parse_region, parse_audience, check, from_query, allows,
}

abbrev pub is_capital : ℕ → Bool
is_capital c = leb b'A' c && leb c b'Z'

-- A ceiling of at most eighteen years, and a region of two capital letters.
pub record IsValid (p : Policy) : Type 0 where
  pub age_bound : (age : ℕ) → p.maximum_age ≡ some age → age ≤ 18
  pub region_letters :
      (r : Region) → p.region ≡ some r → is_capital r.first && is_capital r.second ≡ true

parse_region-capitals :
    (value : Text) (r : Region)
    → parse_region value ≡ ok r
    → is_capital r.first && is_capital r.second ≡ true
unfolding parse_region
parse_region-capitals [] r e = absurd (ground arith)
parse_region-capitals (a ∷ []) r e = absurd (ground arith)
parse_region-capitals (a ∷ b ∷ []) r e = ground arith
parse_region-capitals (a ∷ b ∷ c ∷ s) r e = absurd (ground arith)

-- The parts a query's policy was read from.
record ReadAs (query : Text) (p : Policy) : Type 0 where
  read_age : read_optional (query_param query (codes "maximumAge")) parse_age ≡ ok p.maximum_age
  read_unknown :
      parse_unknown (query_param query (codes "unknownRatings")) p.maximum_age
      ≡ ok p.unknown_ratings
  read_region : read_optional (query_param query (codes "region")) parse_region ≡ ok p.region
  checked : check p ≡ ok p

check-ok : (p q : Policy) → check p ≡ ok q → p ≡ q
unfolding check
check-ok p q e = elim (Option-cases p.maximum_age) [
  | inl n ↦ ground arith
  | inr (age, s) ↦ ground arith
]

from_query-ReadAs : (query : Text) (p : Policy) → from_query query ≡ ok p → ReadAs query p
unfolding from_query
from_query-ReadAs query p e =
    elim (Result-cases (read_optional (query_param query (codes "maximumAge")) parse_age)) [
      | inl (x, h) ↦ absurd (ground arith)
      | inr (age, ha) ↦
          elim (Result-cases (parse_unknown (query_param query (codes "unknownRatings")) age)) [
            | inl (x, h) ↦ absurd (ground arith)
            | inr (unknown, hu) ↦
                elim (Result-cases
                  (read_optional (query_param query (codes "region")) parse_region)) [
                    | inl (x, h) ↦ absurd (ground arith)
                    | inr (region, hr) ↦
                        elim (Result-cases (
                          read_optional (query_param query (codes "kidAudience")) parse_audience)) [
                            | inl (x, h) ↦ absurd (ground arith)
                            | inr (kid, hk) ↦
                                let q : Policy = record {
                                  maximum_age = age;
                                  unknown_ratings = unknown;
                                  region = region;
                                  kid_audience = kid;
                                } in
                                let c : check q ≡ ok p = ground arith in
                                subst (ReadAs query) (check-ok q p c) (record {
                                  read_age = ha;
                                  read_unknown = hu;
                                  read_region = hr;
                                  checked = c ∙ ap ok (sym (check-ok q p c));
                                })
                          ]
                  ]
          ]
    ]

read_optional-some {ℓ κ} :
    {A : Type ℓ} {B : Type κ} (o : Option A) (f : A → Result Text B) (b : B)
    → read_optional o f ≡ ok (some b)
    → (a : A) × (f a ≡ ok b)
read_optional-some none f b e = absurd (ground arith)
read_optional-some (some a) f b e = elim (Result-cases (f a)) [
  | inl (x, h) ↦ absurd (ground arith)
  | inr (c, h) ↦ (a, ground arith)
]

read_optional_given {ℓ κ} :
    {A : Type ℓ} {B : Type κ} (a : A) (f : A → Result Text B)
    → ¬ (read_optional (some a) f ≡ ok none)
read_optional_given a f e = elim (Result-cases (f a)) [
  | inl (x, h) ↦ ground arith
  | inr (c, h) ↦ ground arith
]

-- A policy that a query spells has a ceiling of at most eighteen years, if any, and a region of two
-- capital letters, if any.
pub from_query-IsValid : (query : Text) (p : Policy) → from_query query ≡ ok p → IsValid p
unfolding check
from_query-IsValid query p e =
    let parts = from_query-ReadAs query p e in
    record {
      age_bound = λ age s. ground (arith, parts.checked);
      region_letters = λ r s.
          let (value, h) =
            read_optional-some (query_param query (codes "region")) parse_region r
              (parts.read_region ∙ ap ok s) in
          parse_region-capitals value r h;
    }

-- A query with a ceiling that says nothing of unknown ages admits none: it fails closed.
pub from_query-allows :
    (query value : Text) (p : Policy)
    → from_query query ≡ ok p
    → query_param query (codes "maximumAge") ≡ some value
    → query_param query (codes "unknownRatings") ≡ none
    → allows p none ≡ false
unfolding allows parse_unknown
from_query-allows query value p e some_age no_unknown =
    let parts = from_query-ReadAs query p e in
    elim (Option-cases p.maximum_age) [
      | inl n ↦ absurd (
          read_optional_given value parse_age
            (ap (λ o. read_optional o parse_age) (sym some_age) ∙ parts.read_age ∙ ap ok n))
      | inr (age, s) ↦ ground (arith, parts.read_unknown)
    ]
