-- ===== src/Filter/Traits.antt =====
-- The traits of people that a request names: `Trait`, `normalise`, `check`, `one_value`, `Years` and
-- `Order` of src/filter/people.rs.
use den_atlas.Prelude.{
  true, not, ℕ, ◌^◌, Bool, false, ◌&&◌, List, [], ◌∷◌, ◌++◌, Option, none, some, leb, ltb,
  if◌then◌else◌,
}
use den_atlas.Prelude.Bytes.{Text, codes, same_text, split_once, parse_unsigned, all_digits}
use den_atlas.Prelude.Decimal.{decimal, is_empty}
use den_atlas.Prelude.Spaces.{trim_text}
use den_atlas.Prelude.Results.{Result, ok, err, ◌>>=◌}
use den_atlas.Filter.Spec.{Mode, IdFormat, Scope}
use den_atlas.Filter.Ids.{Naming, RequestError, lower, normalise_id}

pub data Trait : Type 0 where
  gender born citizenship occupation birthplace birth_country role : Trait

-- A trait's name, how its values combine, and how they are written; the text about it is left out.
pub record TraitSpec : Type 0 where
  pub name : Text
  pub mode : Mode
  pub id : IdFormat
  pub data_of : Trait

abbrev trait_of : Text → Mode → IdFormat → Trait → TraitSpec
trait_of name mode id data_of = record { name = name; mode = mode; id = id; data_of = data_of }

unfoldable pub traits : List TraitSpec
traits =
    trait_of (codes "gender") Mode.single IdFormat.qid Trait.gender
    ∷ trait_of (codes "born") Mode.single IdFormat.lower Trait.born
    ∷ trait_of (codes "citizenship") Mode.and IdFormat.qid Trait.citizenship
    ∷ trait_of (codes "occupation") Mode.and IdFormat.qid Trait.occupation
    ∷ trait_of (codes "birthplace") Mode.single IdFormat.qid Trait.birthplace
    ∷ trait_of (codes "birthcountry") Mode.single IdFormat.country Trait.birth_country
    ∷ trait_of (codes "role") Mode.and IdFormat.lower Trait.role
    ∷ []

unfoldable pub find_trait : Text → List TraitSpec → Option TraitSpec
find_trait name [] = none
find_trait name (t ∷ ts) = if same_text t.name name then some t else find_trait name ts

unfoldable pub trait_spec : Text → Option TraitSpec
unfolding traits find_trait
trait_spec name = find_trait name traits

abbrev has_entities : IdFormat → Bool
has_entities id = elim id [ IdFormat.qid ↦ true | IdFormat.country ↦ true | _ ↦ false ]

-- The traits whose values are Wikidata items.
unfoldable pub values_kind : Text → Option Text
unfolding trait_spec
values_kind name = elim (trait_spec name) [
  | none ↦ none
  | some t ↦ if has_entities t.id then some t.name else none
]

-- `people.json`'s order.
pub data Order : Type 0 where
  prominence credits by_name born_asc born_desc : Order

unfoldable pub parse_order : Text → Result RequestError Order
unfolding trim_text lower
parse_order text =
    let t = lower (trim_text text) in
    if same_text t (codes "prominence")
    then ok Order.prominence
    else if same_text t (codes "credits")
    then ok Order.credits
    else if same_text t (codes "name")
    then ok Order.by_name
    else if same_text t (codes "born_asc")
    then ok Order.born_asc
    else if same_text t (codes "born_desc")
    then ok Order.born_desc
    else err RequestError.unknown_order

unfoldable pub order_name : Order → Text
order_name Order.prominence = codes "prominence"
order_name Order.credits = codes "credits"
order_name Order.by_name = codes "name"
order_name Order.born_asc = codes "born_asc"
order_name Order.born_desc = codes "born_desc"

abbrev pub first_birth_year : ℕ
first_birth_year = 1800

-- A range of birth years, either end open.
pub record Years : Type 0 where
  pub from : Option ℕ
  pub to : Option ℕ

-- A year of digits alone that fits an `i64` and lies within the bounds.
unfoldable pub checked_year : ℕ → Text → Option ℕ → Result RequestError (Option ℕ)
unfolding all_digits
checked_year latest end none = err RequestError.not_years
checked_year latest end (some year) =
    if not (all_digits end && ltb year (2 ^ 63))
    then err RequestError.not_years
    else if leb first_birth_year year && leb year latest
    then ok (some year)
    else err RequestError.not_birth_year

unfoldable pub read_year : ℕ → Text → Result RequestError (Option ℕ)
unfolding checked_year trim_text parse_unsigned
read_year latest end =
    let t = trim_text end in
    if is_empty t then ok none else checked_year latest t (parse_unsigned t)

unfoldable pub years_of : Option ℕ → Option ℕ → Result RequestError Years
years_of none none = err RequestError.no_year
years_of none (some to) = ok record { from = none; to = some to }
years_of (some from) none = ok record { from = some from; to = none }
years_of (some from) (some to) =
    if ltb to from
    then err RequestError.years_reversed
    else ok record { from = some from; to = some to }

unfoldable pub range_of : ℕ → Option (Text × Text) → Result RequestError Years
unfolding read_year years_of
range_of latest none = err RequestError.not_years
range_of latest (some (from, to)) =
    read_year latest from >>= λ f. read_year latest to >>= λ t. years_of f t

unfoldable pub parse_years : ℕ → Text → Result RequestError Years
unfolding range_of split_once
parse_years latest id = range_of latest (split_once b'-' id)

abbrev pub end_text : Option ℕ → Text
end_text none = []
end_text (some year) = decimal year

unfoldable pub years_text : Years → Text
unfolding decimal
years_text years = end_text years.from ++ b'-' ∷ end_text years.to

abbrev other : Text
other = codes "other"

unfoldable pub read_trait :
    Naming → Scope → Text → Text → TraitSpec → Result RequestError (Text × Text)
unfolding parse_years years_text lower normalise_id
read_trait names scope kind id t = elim t.data_of [
  | born ↦ parse_years names.latest_birth id >>= λ years. ok (kind, years_text years)
  | gender ↦
      if same_text (lower id) other
      then ok (kind, other)
      else normalise_id names t.id scope id >>= λ canonical. ok (kind, canonical)
  | _ ↦ normalise_id names t.id scope id >>= λ canonical. ok (kind, canonical)
]

unfoldable pub normalise_trait : Naming → Scope → Text → Text → Result RequestError (Text × Text)
unfolding trim_text lower trait_spec read_trait
normalise_trait names scope kind id =
    let k = lower (trim_text kind) in
    let i = trim_text id in
    if is_empty k
    then err RequestError.empty_kind
    else if is_empty i
    then err RequestError.empty_id
    else elim (trait_spec k) [ none ↦ ok (k, i) | some t ↦ read_trait names scope k i t ]

unfoldable pub one_value : Text → List Text → Bool
one_value kind [] = false
one_value kind (id ∷ ids) = same_text kind (codes "born")
