-- ===== src/Franchises/Members.antt =====
-- The members around a seed, as src/franchises.rs arranges them. Years so far apart that their difference
-- is no `i64` are not met.
use den_atlas.Prelude.{
  ℕ, suc, ◌-◌, ◌*◌, ◌%◌, ◌^◌, min, Bool, true, false, not, List, [], ◌∷◌, ◌++◌, map, Option, none,
  some, leb, ◌==◌, if◌then◌else◌, length,
}
use mathlib.Core.List.{reverse}
use den_atlas.Prelude.Integers.{ℤ, distance}
use den_atlas.Prelude.Perms.{sort}
use den_atlas.Franchises.{Key, Member, Franchise, Franchises, range, membership, group}

pub record TitleFacts : Type 0 where
  pub year : Option ℤ
  pub animated : Bool

abbrev pub same_bool : Bool → Bool → Bool
same_bool true b = b
same_bool false b = not b

-- The members of one era, in the order of the franchise.
unfoldable pub members_of : ℕ → List Member → List Member
members_of era [] = []
members_of era (m ∷ ms) = if m.era == era then m ∷ members_of era ms else members_of era ms

unfoldable pub of_kind : Bool → List TitleFacts → ℕ
of_kind animated [] = 0
of_kind animated (f ∷ fs) =
    if same_bool f.animated animated then suc (of_kind animated fs) else of_kind animated fs

abbrev pub years_between : Option ℤ → Option ℤ → Option ℕ
years_between (some a) (some b) = some (distance a b)
years_between (some a) none = none
years_between none b = none

abbrev pub lesser : Option ℕ → Option ℕ → Option ℕ
lesser (some a) (some b) = some (min a b)
lesser (some a) none = some a
lesser none b = b

-- The fewest years between a title of the list and the given one.
unfoldable pub least_years : Option ℤ → List TitleFacts → Option ℕ
least_years own [] = none
least_years own (f ∷ fs) = lesser (years_between f.year own) (least_years own fs)

abbrev pub years_or_max : Option ℕ → ℕ
years_or_max none = 2 ^ 63 - 1
years_or_max (some n) = n

-- Whether an era is not of the seed's kind, and the years from it.
unfoldable pub closeness_of : TitleFacts → List TitleFacts → Bool × ℕ
unfolding of_kind least_years
closeness_of own facts = (
  not (leb (length facts) (of_kind own.animated facts * 2)),
  years_or_max (least_years own.year facts),
)

unfoldable pub closeness : (Key → TitleFacts) → TitleFacts → Franchise → ℕ → Bool × ℕ
unfolding members_of closeness_of
closeness title own f era = closeness_of own (map (λ m. title m.key) (members_of era f.members))

-- The order of pairs.
abbrev pub no_farther : Bool × ℕ → Bool × ℕ → Bool
no_farther (false, i) (false, j) = leb i j
no_farther (false, i) (true, j) = true
no_farther (true, i) (false, j) = false
no_farther (true, i) (true, j) = leb i j

unfoldable pub without : ℕ → List ℕ → List ℕ
without era [] = []
without era (e ∷ es) = if e == era then without era es else e ∷ without era es

abbrev pub closer : (Key → TitleFacts) → TitleFacts → Franchise → ℕ → ℕ → Bool
closer title own f a b = no_farther (closeness title own f a) (closeness title own f b)

-- The other eras, the closest first.
unfoldable pub other_eras : (Key → TitleFacts) → TitleFacts → Franchise → ℕ → List ℕ
unfolding range without
other_eras title own f era =
    sort (closer title own f) (without era (range (length f.eras % 2 ^ 32)))

-- The members era by era, those of each era from the last to the first.
unfoldable pub by_era : List Member → List ℕ → List Member
unfolding members_of
by_era ms [] = []
by_era ms (era ∷ eras) = reverse (members_of era ms) ++ by_era ms eras

unfoldable pub members_for : Franchises → Key → (Key → TitleFacts) → Option (List Member)
unfolding membership group other_eras by_era
members_for fs seed title = elim (membership fs seed) [
  | none ↦ none
  | some m ↦ elim (group fs m.franchise) [
    | none ↦ none
    | some f ↦ some (by_era f.members (m.era ∷ other_eras title (title seed) f m.era))
  ]
]
