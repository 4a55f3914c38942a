-- ===== src/Maturity/Decisions.antt =====
-- What a policy of src/maturity.rs admits.
use den_atlas.Prelude.{
  ℕ, ◌≤◌, ◌≡◌, ◌↔◌, Bool, true, false, Option, none, some, arith, inl, inr, ◌⊎◌, refl, not, ◌&&◌,
  Option-cases,
}
use den_atlas.Maturity.{
  UnknownRatings, allow, block, KidAudience, child, Region, Policy, allows, age_restricted,
  kid_age_allows, allows_title_with, allows_direct,
}

-- No known age over a ceiling.
abbrev pub WithinCeiling : Option ℕ → Option ℕ → Type 0
WithinCeiling none age = Unit
WithinCeiling (some ceiling) none = Unit
WithinCeiling (some ceiling) (some age) = age ≤ ceiling

-- The age is known, or unknown ones are allowed, or the title is made for children.
abbrev pub Excused : UnknownRatings → (KidAudience → Bool) → Option ℕ → Type 0
Excused unknown made_for age =
    ((n : ℕ) × (age ≡ some n)) ⊎ (unknown ≡ allow) ⊎ (made_for child ≡ true)

abbrev pub AgeFits : Policy → (KidAudience → Bool) → Option ℕ → Type 0
AgeFits p made_for age = WithinCeiling p.maximum_age age × Excused p.unknown_ratings made_for age

abbrev policy : Option ℕ → UnknownRatings → Option Region → Option KidAudience → Policy
policy ceiling unknown region audience = record {
  maximum_age = ceiling;
  unknown_ratings = unknown;
  region = region;
  kid_audience = audience;
}

blocked : (made_for : KidAudience → Bool) → Excused block made_for none → made_for child ≡ true
blocked made_for (inl (n, e)) = absurd (ground arith)
blocked made_for (inr (inl e)) = absurd (ground arith)
blocked made_for (inr (inr e)) = e

and_iff : (x y : Bool) {P : Type 0} → (y ≡ true) ↔ P → ((x && y) ≡ true) ↔ ((x ≡ true) × P)
and_iff x y h = (λ e. (ground arith, h.0 (ground arith)), λ e. ground (arith, h.1 e.1))

not_iff : (x y : Bool) {P : Type 0} → (y ≡ true) ↔ P → ((not x && y) ≡ true) ↔ ((x ≡ false) × P)
not_iff x y h = (λ e. (ground arith, h.0 (ground arith)), λ e. ground (arith, h.1 e.1))

fits_iff :
    (ceiling : Option ℕ) (unknown : UnknownRatings) (region : Option Region)
    (audience : Option KidAudience) (made_for : KidAudience → Bool) (age : Option ℕ)
    → (kid_age_allows (policy ceiling unknown region audience) age made_for ≡ true)
      ↔ (WithinCeiling ceiling age × Excused unknown made_for age)
unfolding kid_age_allows allows age_restricted
fits_iff none allow region audience made_for none = (λ h. (tt, inr (inl refl)), λ h. refl)
fits_iff none allow region audience made_for (some n) = (λ h. (tt, inl (n, refl)), λ h. refl)
fits_iff none block region audience made_for none =
    (λ h. (tt, inr (inr h)), λ h. blocked made_for h.1)
fits_iff none block region audience made_for (some n) = (λ h. (tt, inl (n, refl)), λ h. refl)
fits_iff (some c) allow region audience made_for none = (λ h. (tt, inr (inl refl)), λ h. refl)
fits_iff (some c) block region audience made_for none =
    (λ h. (tt, inr (inr h)), λ h. blocked made_for h.1)
fits_iff (some c) allow region audience made_for (some n) =
    (λ h. (ground arith, inl (n, refl)), λ h. ground arith)
fits_iff (some c) block region audience made_for (some n) =
    (λ h. (ground arith, inl (n, refl)), λ h. ground arith)

kid_age_allows_iff :
    (p : Policy) (made_for : KidAudience → Bool) (age : Option ℕ)
    → (kid_age_allows p age made_for ≡ true) ↔ AgeFits p made_for age
kid_age_allows_iff p made_for age =
    fits_iff p.maximum_age p.unknown_ratings p.region p.kid_audience made_for age

shown_to_kid :
    (p : Policy) (band : KidAudience) (age : Option ℕ) (made_for : KidAudience → Bool)
    → p.kid_audience ≡ some band
    → allows_title_with p age made_for ≡ (made_for band && kid_age_allows p age made_for)
unfolding allows_title_with
shown_to_kid p band age made_for e = ground arith

opened_to_kid :
    (p : Policy) (band : KidAudience) (age : Option ℕ) (made_for : KidAudience → Bool)
    (vetoed : Bool)
    → p.kid_audience ≡ some band
    → allows_direct p age made_for vetoed ≡ (not vetoed && kid_age_allows p age made_for)
unfolding allows_direct
opened_to_kid p band age made_for vetoed e = ground arith

-- A Kid's catalogue shows a title exactly if it is made for the Kid's audience, its age is not known to be
-- over the ceiling, where there is one, and its age is known, or unknown ages are allowed, or it is made for
-- children.
pub allows_title_with_iff :
    (p : Policy) (band : KidAudience) (age : Option ℕ) (made_for : KidAudience → Bool)
    → p.kid_audience ≡ some band
    → (allows_title_with p age made_for ≡ true) ↔ ((made_for band ≡ true) × AgeFits p made_for age)
allows_title_with_iff p band age made_for e =
    rw (shown_to_kid p band age made_for e)
      (and_iff (made_for band) (kid_age_allows p age made_for) (kid_age_allows_iff p made_for age))

-- A Kid may open a title exactly if it is not vetoed and its age fits, made for its audience or not.
pub allows_direct_iff :
    (p : Policy) (band : KidAudience) (age : Option ℕ) (made_for : KidAudience → Bool)
    (vetoed : Bool)
    → p.kid_audience ≡ some band
    → (allows_direct p age made_for vetoed ≡ true) ↔ ((vetoed ≡ false) × AgeFits p made_for age)
allows_direct_iff p band age made_for vetoed e =
    rw (opened_to_kid p band age made_for vetoed e)
      (not_iff vetoed (kid_age_allows p age made_for) (kid_age_allows_iff p made_for age))

-- What the catalogue shows may be opened if it is not vetoed, under every policy.
pub allows_direct-allows_title_with :
    (p : Policy) (age : Option ℕ) (made_for : KidAudience → Bool)
    → allows_title_with p age made_for ≡ true
    → allows_direct p age made_for false ≡ true
unfolding allows_direct allows_title_with
allows_direct-allows_title_with p age made_for h = elim (Option-cases p.kid_audience) [
  | inl e ↦ ground arith
  | inr (band, e) ↦ ground arith
]
