-- ===== src/Franchises/Closeness.antt =====
-- What makes an era close to the seed in src/franchises.rs.
use den_atlas.Prelude.{
  ℕ, ◌+◌, ◌-◌, ◌^◌, ◌≤◌, ◌≡◌, refl, ◌⊎◌, inl, inr, Bool, true, false, not, ◌&&◌, ◌||◌, List, [],
  ◌∷◌, Option, none, some, All, arith, leb, ltb, length, if◌then◌else◌, Option-cases, Bool-cases,
}
use den_atlas.Prelude.Integers.{ℤ, distance}
use den_atlas.Franchises.Members.{
  TitleFacts, same_bool, of_kind, years_between, lesser, least_years, years_or_max, closeness_of,
  no_farther,
}

-- How many of the titles are animated as the seed is, if `alike`, or else how many are not.
abbrev pub tally : Bool → TitleFacts → List TitleFacts → ℕ
tally alike own [] = 0
tally alike own (x ∷ xs) =
    (if same_bool (same_bool x.animated own.animated) alike then 1 else 0) + tally alike own xs

-- No title with a year is nearer than so many years.
abbrev pub NoNearer : ℕ → Option ℤ → Option ℤ → Type 0
NoNearer n none own = Unit
NoNearer n (some y) none = Unit
NoNearer n (some y) (some own) = n ≤ distance y own

-- Some title is that many years from the seed.
abbrev pub Attained : ℕ → Option ℤ → List TitleFacts → Type 0
Attained n own [] = ⊥
Attained n own (x ∷ xs) =
    ((y : ℤ) × (z : ℤ) × (x.year ≡ some y) × (own ≡ some z) × (distance y z ≡ n))
    ⊎ Attained n own xs

-- The first is set if fewer titles are of the seed's kind than are not, and the second is the fewest years
-- from the seed, or the largest number where no title and the seed both have a year.
pub record IsCloseness (own : TitleFacts) (facts : List TitleFacts) (other : Bool) (years : ℕ)
    : Type 0 where
  pub by_kind : other ≡ ltb (tally true own facts) (tally false own facts)
  pub least : All (λ (x : TitleFacts). NoNearer years x.year own.year) facts
  pub met : Attained years own.year facts ⊎ (years ≡ 2 ^ 63 - 1)

-- An era of the seed's kind before one that is not, and of the same kind the one fewer years away.
abbrev pub nearer : Bool × ℕ → Bool × ℕ → Bool
nearer (other, years) (other', years') =
    (not other && other') || (same_bool other other' && leb years years')

pub no_farther-nearer : (p q : Bool × ℕ) → no_farther p q ≡ true → nearer p q ≡ true
no_farther-nearer (false, i) (false, j) h = h
no_farther-nearer (false, i) (true, j) h = refl
no_farther-nearer (true, i) (false, j) h = absurd (ground arith)
no_farther-nearer (true, i) (true, j) h = h

tally-of_kind :
    (own : TitleFacts) (facts : List TitleFacts) → of_kind own.animated facts ≡ tally true own facts
unfolding of_kind
tally-of_kind own [] = refl
tally-of_kind own (x ∷ xs) = ground (arith, tally-of_kind own xs)

tally-length :
    (own : TitleFacts) (facts : List TitleFacts)
    → tally true own facts + tally false own facts ≡ length facts
tally-length own [] = omega arith
tally-length own (x ∷ xs) = ground (arith, tally-length own xs)

NoNearer-le : (n m : ℕ) (y own : Option ℤ) → n ≤ m → NoNearer m y own → NoNearer n y own
NoNearer-le n m none own le h = tt
NoNearer-le n m (some y) none le h = tt
NoNearer-le n m (some y) (some own) le h = omega arith

AllNoNearer-le :
    (n m : ℕ) (own : Option ℤ) (facts : List TitleFacts)
    → n ≤ m
    → All (λ (x : TitleFacts). NoNearer m x.year own) facts
    → All (λ (x : TitleFacts). NoNearer n x.year own) facts
AllNoNearer-le n m own [] le h = tt
AllNoNearer-le n m own (x ∷ xs) le h =
    (NoNearer-le n m x.year own le h.0, AllNoNearer-le n m own xs le h.1)

undated_first :
    (n : ℕ) (y own : Option ℤ) (o : Option ℕ)
    → lesser (years_between y own) o ≡ none
    → NoNearer n y own × (o ≡ none)
undated_first n none own o h = (tt, h)
undated_first n (some y) none o h = (tt, h)
undated_first n (some y) (some z) none h = absurd (ground arith)
undated_first n (some y) (some z) (some m) h = absurd (ground arith)

undated :
    (n : ℕ) (own : Option ℤ) (facts : List TitleFacts)
    → least_years own facts ≡ none
    → All (λ (x : TitleFacts). NoNearer n x.year own) facts
unfolding least_years
undated n own [] h = tt
undated n own (x ∷ xs) h =
    let (first, rest) = undated_first n x.year own (least_years own xs) h in
    (first, undated n own xs rest)

dated_first :
    (n : ℕ) (y own : Option ℤ) (o : Option ℕ)
    → lesser (years_between y own) o ≡ some n
    → NoNearer n y own
dated_first n none own o h = tt
dated_first n (some y) none o h = tt
dated_first n (some y) (some z) none h = ground arith
dated_first n (some y) (some z) (some m) h = ground arith

lesser-le : (o p : Option ℕ) (n m : ℕ) → lesser o p ≡ some n → p ≡ some m → n ≤ m
lesser-le none p n m h e = ground arith
lesser-le (some a) none n m h e = absurd (ground arith)
lesser-le (some a) (some b) n m h e = ground arith

dated :
    (n : ℕ) (own : Option ℤ) (facts : List TitleFacts)
    → least_years own facts ≡ some n
    → All (λ (x : TitleFacts). NoNearer n x.year own) facts
unfolding least_years
dated n own [] h = tt
dated n own (x ∷ xs) h = (
  dated_first n x.year own (least_years own xs) h,
  elim (Option-cases (least_years own xs)) [
    | inl e ↦ undated n own xs e
    | inr (m, e) ↦
        AllNoNearer-le n m own xs
          (lesser-le (years_between x.year own) (least_years own xs) n m h e) (dated m own xs e)
  ],
)

abbrev Meets : ℕ → Option ℤ → Option ℤ → Type 0
Meets n year own = (y : ℤ) × (z : ℤ) × (year ≡ some y) × (own ≡ some z) × (distance y z ≡ n)

met_first :
    (n : ℕ) (y own : Option ℤ) (o : Option ℕ)
    → lesser (years_between y own) o ≡ some n
    → Meets n y own ⊎ (o ≡ some n)
met_first n none own o h = inr h
met_first n (some y) none o h = inr h
met_first n (some y) (some z) none h = inl (y, z, refl, refl, ground arith)
met_first n (some y) (some z) (some m) h = elim (Bool-cases (leb (distance y z) m)) [
  | inl e ↦ inl (y, z, refl, refl, ground arith)
  | inr e ↦ inr (ground arith)
]

least_years-Attained :
    (own : Option ℤ) (facts : List TitleFacts) (n : ℕ)
    → least_years own facts ≡ some n
    → Attained n own facts
unfolding least_years
least_years-Attained own [] n h = absurd (ground arith)
least_years-Attained own (x ∷ xs) n h = elim (met_first n x.year own (least_years own xs) h) [
  | inl here ↦ inl here
  | inr later ↦ inr (least_years-Attained own xs n later)
]

least_years-NoNearer :
    (own : Option ℤ) (facts : List TitleFacts) (o : Option ℕ)
    → least_years own facts ≡ o
    → All (λ (x : TitleFacts). NoNearer (years_or_max o) x.year own) facts
      × (Attained (years_or_max o) own facts ⊎ (years_or_max o ≡ 2 ^ 63 - 1))
least_years-NoNearer own facts none h = (undated (2 ^ 63 - 1) own facts h, inr refl)
least_years-NoNearer own facts (some n) h =
    (dated n own facts h, inl (least_years-Attained own facts n h))

pub closeness_of-IsCloseness :
    (own : TitleFacts) (facts : List TitleFacts)
    → IsCloseness own facts (closeness_of own facts).0 (closeness_of own facts).1
unfolding closeness_of
closeness_of-IsCloseness own facts = record {
  by_kind = ground (arith, tally-of_kind own facts, tally-length own facts);
  least = (least_years-NoNearer own.year facts (least_years own.year facts) refl).0;
  met = (least_years-NoNearer own.year facts (least_years own.year facts) refl).1;
}
