-- ===== src/Maturity/Identity.antt =====
-- The cache identity of a policy in src/maturity.rs.
use den_atlas.Prelude.{
  ℕ, ◌≤◌, ◌≡◌, refl, sym, ap, subst, ◌∙◌, Bool, true, false, ◌&&◌, not, ◌++◌, Option, none, some,
  arith, inl, inr, Option-cases, Bool-cases,
}
use mathlib.Core.Option.{some-injective}
use den_atlas.Prelude.Bytes.{Text, codes, parse_unsigned, all_digits}
use den_atlas.Prelude.Decimal.{decimal, all_digits-decimal, parse_unsigned-decimal}
use den_atlas.Prelude.Separators.{lacks, lacks-digits_above, append_cut, append-left_cancel}
use den_atlas.Maturity.{
  UnknownRatings, allow, block, Region, KidAudience, child, child_or_teen, Policy, is_some,
  is_block, restricted, age_restricted, age_name, unknown_name, region_name, kid_name,
  cache_identity,
}
use den_atlas.Maturity.Reading.{IsValid, is_capital}

abbrev Small : Option ℕ → Type 0
Small none = Unit
Small (some n) = n ≤ 18

abbrev Letters : Option Region → Type 0
Letters none = Unit
Letters (some r) = is_capital r.first && is_capital r.second ≡ true

age_name-lacks : (age : Option ℕ) → lacks b';' (age_name age) ≡ true
unfolding lacks
age_name-lacks none = refl
age_name-lacks (some n) = lacks-digits_above b';' (decimal n) (all_digits-decimal n) (omega arith)

unknown_name-lacks : (u : UnknownRatings) → lacks b';' (unknown_name u) ≡ true
unfolding lacks
unknown_name-lacks allow = refl
unknown_name-lacks block = refl

region_name-lacks : (r : Option Region) → Letters r → lacks b';' (region_name r) ≡ true
unfolding lacks
region_name-lacks none h = refl
region_name-lacks (some r) h = ground arith

dash-decimal : (n : ℕ) → ¬ (codes "-" ≡ decimal n)
unfolding all_digits
dash-decimal n e = ground (arith, all_digits-decimal n)

age_name-injective : (a b : Option ℕ) → Small a → Small b → age_name a ≡ age_name b → a ≡ b
age_name-injective none none ha hb e = refl
age_name-injective none (some m) ha hb e = absurd (dash-decimal m e)
age_name-injective (some n) none ha hb e = absurd (dash-decimal n (sym e))
age_name-injective (some n) (some m) ha hb e =
    sym (parse_unsigned-decimal n (omega arith))
    ∙ ap parse_unsigned e
    ∙ parse_unsigned-decimal m (omega arith)

unknown_name-injective : (u v : UnknownRatings) → unknown_name u ≡ unknown_name v → u ≡ v
unknown_name-injective allow allow e = refl
unknown_name-injective allow block e = absurd (ground arith)
unknown_name-injective block allow e = absurd (ground arith)
unknown_name-injective block block e = refl

region_name-injective : (r s : Option Region) → region_name r ≡ region_name s → r ≡ s
region_name-injective none none e = refl
region_name-injective none (some s) e = absurd (ground arith)
region_name-injective (some r) none e = absurd (ground arith)
region_name-injective (some r) (some s) e = cc

kid_name-injective : (j k : Option KidAudience) → kid_name j ≡ kid_name k → j ≡ k
kid_name-injective none none e = refl
kid_name-injective none (some child) e = absurd (ground arith)
kid_name-injective none (some child_or_teen) e = absurd (ground arith)
kid_name-injective (some child) none e = absurd (ground arith)
kid_name-injective (some child_or_teen) none e = absurd (ground arith)
kid_name-injective (some child) (some child) e = refl
kid_name-injective (some child) (some child_or_teen) e = absurd (ground arith)
kid_name-injective (some child_or_teen) (some child) e = absurd (ground arith)
kid_name-injective (some child_or_teen) (some child_or_teen) e = refl

-- What follows `maximumAge=` in an identity.
abbrev written : Policy → Text
written p =
    age_name p.maximum_age
    ++ (codes ";unknownRatings="
        ++ (unknown_name p.unknown_ratings
            ++ (codes ";region="
                ++ (region_name p.region ++ (codes ";kidAudience=" ++ kid_name p.kid_audience)))))

Policy-ext :
    (p q : Policy)
    → p.maximum_age ≡ q.maximum_age
    → p.unknown_ratings ≡ q.unknown_ratings
    → p.region ≡ q.region
    → p.kid_audience ≡ q.kid_audience
    → p ≡ q
Policy-ext p q a u r k = cc

Small-IsValid : (p : Policy) → IsValid p → Small p.maximum_age
Small-IsValid p v = elim (Option-cases p.maximum_age) [
  | inl e ↦ subst Small (sym e) tt
  | inr (n, e) ↦ subst Small (sym e) (v.age_bound n e)
]

Letters-IsValid : (p : Policy) → IsValid p → Letters p.region
Letters-IsValid p v = elim (Option-cases p.region) [
  | inl e ↦ subst Letters (sym e) tt
  | inr (r, e) ↦ subst Letters (sym e) (v.region_letters r e)
]

written-injective : (p q : Policy) → IsValid p → IsValid q → written p ≡ written q → p ≡ q
written-injective p q vp vq e =
    let (ages, e1) =
      append_cut b';' (age_name p.maximum_age) (age_name q.maximum_age) _ _
        (age_name-lacks p.maximum_age) (age_name-lacks q.maximum_age) e in
    let (unknowns, e2) =
      append_cut b';' (unknown_name p.unknown_ratings) (unknown_name q.unknown_ratings) _ _
        (unknown_name-lacks p.unknown_ratings) (unknown_name-lacks q.unknown_ratings)
        (append-left_cancel (codes "unknownRatings=") _ _ e1) in
    let (regions, e3) =
      append_cut b';' (region_name p.region) (region_name q.region) _ _
        (region_name-lacks p.region (Letters-IsValid p vp))
        (region_name-lacks q.region (Letters-IsValid q vq))
        (append-left_cancel (codes "region=") _ _ e2) in
    Policy-ext p q
      (age_name-injective p.maximum_age q.maximum_age (Small-IsValid p vp) (Small-IsValid q vq)
        ages)
      (unknown_name-injective p.unknown_ratings q.unknown_ratings unknowns)
      (region_name-injective p.region q.region regions)
      (kid_name-injective p.kid_audience q.kid_audience
        (append-left_cancel (codes "kidAudience=") _ _ e3))

abbrev plain : Policy → Bool
plain p = not (restricted p) && not (is_some p.region)

cache_identity-plain : (p : Policy) → plain p ≡ true → cache_identity p ≡ none
unfolding cache_identity
cache_identity-plain p h = rw h refl

cache_identity-written :
    (p : Policy)
    → plain p ≡ false
    → cache_identity p ≡ some (codes "maturity:v2;maximumAge=" ++ written p)
unfolding cache_identity
cache_identity-written p h = rw h refl

none_of {ℓ} : {A : Type ℓ} (o : Option A) → is_some o ≡ false → o ≡ none
none_of none h = refl
none_of (some a) h = absurd (ground arith)

allow_of : (u : UnknownRatings) → is_block u ≡ false → u ≡ allow
allow_of allow h = refl
allow_of block h = absurd (ground arith)

no_policy : Policy
no_policy = record {
  maximum_age = none;
  unknown_ratings = allow;
  region = none;
  kid_audience = none;
}

plain-no_policy : (p : Policy) → plain p ≡ true → p ≡ no_policy
unfolding restricted age_restricted no_policy
plain-no_policy p h =
    Policy-ext p no_policy (none_of p.maximum_age (ground arith))
      (allow_of p.unknown_ratings (ground arith)) (none_of p.region (ground arith))
      (none_of p.kid_audience (ground arith))

-- Two policies that queries spell share a cache identity, none included, only if they are one policy:
-- an answer kept under an identity is never given to another policy.
pub cache_identity-injective :
    (p q : Policy) → IsValid p → IsValid q → cache_identity p ≡ cache_identity q → p ≡ q
cache_identity-injective p q vp vq e = elim (Bool-cases (plain p)) [
  | inl hp ↦ elim (Bool-cases (plain q)) [
    | inl hq ↦ plain-no_policy p hp ∙ sym (plain-no_policy q hq)
    | inr hq ↦ absurd (ground (arith, cache_identity-plain p hp, cache_identity-written q hq))
  ]
  | inr hp ↦ elim (Bool-cases (plain q)) [
    | inl hq ↦ absurd (ground (arith, cache_identity-written p hp, cache_identity-plain q hq))
    | inr hq ↦ written-injective p q vp vq (
        append-left_cancel (codes "maturity:v2;maximumAge=") (written p) (written q) (
          some-injective _ _ (sym (cache_identity-written p hp) ∙ e ∙ cache_identity-written q hq)))
  ]
]
