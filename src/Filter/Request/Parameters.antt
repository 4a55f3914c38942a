-- ===== src/Filter/Request/Parameters.antt =====
-- The parameters of a query one by one: parts of `Request::parse` of src/filter.rs, with `check` of
-- src/filter/people.rs.
use den_atlas.Prelude.{
  ℕ, ◌+◌, ◌/◌, Bool, true, false, not, ◌&&◌, ◌||◌, List, [], ◌∷◌, Option, none, some, min, max, ltb,
  ◌==◌, if◌then◌else◌,
}
use den_atlas.Prelude.Bytes.{Text, codes, same_text, parse_unsigned}
use den_atlas.Prelude.Decimal.{is_empty}
use den_atlas.Prelude.Spaces.{trim_text}
use den_atlas.Prelude.Results.{Result, ok, err, read_optional}
use den_atlas.Query.{query_param}
use den_atlas.Filter.Spec.{Spec, Data, values_limit, min_prefix, default_values, default_prefix}
use den_atlas.Filter.State.{any_text}
use den_atlas.Filter.Ids.{Naming, RequestError}
use den_atlas.Filter.Traits.{Order, parse_order}
use den_atlas.Filter.Matching.{Item}
use den_atlas.Filter.Request.{decode}

pub data Route : Type 0 where
  counts titles people people_counts : Route
  values : Spec → Route
  people_values : Text → Route

pub record Request : Type 0 where
  pub items : List Item
  pub traits : List Item
  pub order : Order
  pub skip : ℕ
  pub limit : ℕ
  pub q : Option Text
  pub canonical : Bool
  pub canonical_query : Text

unfoldable pub allowed : Route → List Text
allowed Route.counts = codes "sel" ∷ []
allowed Route.titles = codes "sel" ∷ codes "skip" ∷ codes "limit" ∷ []
allowed (Route.values s) = codes "sel" ∷ codes "q" ∷ codes "limit" ∷ []
allowed Route.people =
    codes "sel" ∷ codes "traits" ∷ codes "order" ∷ codes "skip" ∷ codes "limit" ∷ []
allowed Route.people_counts = codes "sel" ∷ codes "traits" ∷ []
allowed (Route.people_values t) = codes "sel" ∷ codes "traits" ∷ codes "q" ∷ codes "limit" ∷ []

-- The first value of a parameter that the route takes.
unfoldable pub param : Route → Text → Text → Option Text
unfolding allowed any_text query_param
param route query name = if any_text name (allowed route) then query_param query name else none

unfoldable pub decoded_some : (Text → Text) → Option Text → Option Text
unfolding decode
decoded_some utf8_lossy none = none
decoded_some utf8_lossy (some v) = some (decode utf8_lossy v)

unfoldable pub decoded : (Text → Text) → Option Text → Text
unfolding decode
decoded utf8_lossy none = []
decoded utf8_lossy (some v) = decode utf8_lossy v

-- `like` and `fans` name one title an item.
abbrev pub one_title : Text → List Text → Bool
one_title kind ids = same_text kind (codes "like") || same_text kind (codes "fans")

unfoldable pub count_births : List Item → ℕ
count_births [] = 0
count_births (item ∷ items) =
    if same_text item.kind (codes "born") && not item.exclude
    then 1 + count_births items
    else count_births items

unfoldable pub check_traits : List Item → Result RequestError (Unit {0})
unfolding count_births
check_traits items = if ltb 1 (count_births items) then err RequestError.one_birth_range else ok tt

unfoldable pub read_order : (Text → Text) → Option Text → Result RequestError Order
unfolding decode parse_order trim_text
read_order utf8_lossy none = ok Order.prominence
read_order utf8_lossy (some v) =
    if is_empty (trim_text (decode utf8_lossy v))
    then ok Order.prominence
    else parse_order (decode utf8_lossy v)

unfoldable pub read_count : Option Text → Result RequestError (Option ℕ)
unfolding parse_unsigned
read_count v =
    read_optional v
      λ s. elim (parse_unsigned s) [ none ↦ err RequestError.not_a_count | some n ↦ ok n ]

abbrev pub page : ℕ
page = 24

abbrev pub max_page : ℕ
max_page = 100

-- The limit when none is named, and the largest.
unfoldable pub limits : Route → ℕ × ℕ
unfolding values_limit
limits Route.counts = (0, 0)
limits Route.people_counts = (0, 0)
limits Route.titles = (page, max_page)
limits Route.people = (page, max_page)
limits (Route.values s) = (values_limit s, values_limit s)
limits (Route.people_values t) = (default_values, default_values)

-- `clamp`
abbrev pub clamp : ℕ → ℕ → ℕ → ℕ
clamp n low high = max low (min n high)

abbrev pub or_default : Option ℕ → ℕ → ℕ
or_default none d = d
or_default (some n) d = n

abbrev pub limit_of : Route → Option ℕ → ℕ
limit_of route limit =
    clamp (or_default limit (limits route).0) (min (limits route).0 1) (limits route).1

-- `chars().count()` of a text in UTF-8
unfoldable pub count_chars : Text → ℕ
count_chars [] = 0
count_chars (c ∷ s) = if c / 64 == 2 then count_chars s else 1 + count_chars s

abbrev is_character : Spec → Bool
is_character s = elim s.data_of [ Data.character_names ↦ true | _ ↦ false ]

unfoldable pub prefix_of : ℕ → Text → Result RequestError (Option Text)
unfolding count_chars
prefix_of least q =
    if ltb (count_chars q) least then err RequestError.prefix_too_short else ok (some q)

-- A decoded text that is not blank.
unfoldable pub not_blank : Option Text → Option Text
unfolding trim_text
not_blank none = none
not_blank (some q) = if is_empty (trim_text q) then none else some q

unfoldable pub value_prefix : Naming → Spec → Option Text → Result RequestError (Option Text)
unfolding prefix_of min_prefix
value_prefix names s none = if is_character s then err RequestError.no_character_prefix else ok none
value_prefix names s (some q) =
    prefix_of (min_prefix s) (if is_character s then names.character_name q else names.name_key q)

unfoldable pub name_prefix : Naming → Option Text → Result RequestError (Option Text)
unfolding prefix_of
name_prefix names none = ok none
name_prefix names (some q) = prefix_of default_prefix (names.name_key q)

unfoldable pub read_prefix : Naming → Route → Option Text → Result RequestError (Option Text)
unfolding value_prefix name_prefix not_blank
read_prefix names Route.counts q = ok none
read_prefix names Route.titles q = ok none
read_prefix names Route.people q = ok none
read_prefix names Route.people_counts q = ok none
read_prefix names (Route.values s) q = value_prefix names s (not_blank q)
read_prefix names (Route.people_values t) q = name_prefix names (not_blank q)
