-- ===== src/Filter/Spec.antt =====
-- The kinds a selection may name: `Mode`, `Id`, `Data`, `Spec` and the look-ups of src/filter.rs. The
-- names of the plot axes (`den_store::FACET_AXES`) are an argument.
pub mod EntityKinds
pub mod Table
pub mod Lookup
pub mod Names
use Prim.Native.String.{String}
use den_atlas.Prelude.{ℕ, Bool, true, false, List, Option, none, some, if◌then◌else◌}
use den_atlas.Prelude.Bytes.{Text, codes, same_text}
use den_atlas.Index.{MediaType, movie, tv}

pub data Mode : Type 0 where
  and single : Mode

unfoldable pub mode_name : Mode → Text
mode_name and = codes "and"
mode_name single = codes "single"

-- How a kind's ids are written.
pub data IdFormat : Type 0 where
  integer decade lower upper label qid country character title : IdFormat

unfoldable pub format_text : IdFormat → Text
format_text integer = codes "integer"
format_text decade = codes "the decade's first year: 1990 is 1990-1999"
format_text lower = codes "lowercase"
format_text upper = codes "uppercase"
format_text label = codes "the label exactly as atlas names it"
format_text qid = codes "Wikidata Q-id"
format_text country = codes "ISO 3166-1 alpha-2 code (SE), uppercase, or Wikidata Q-id (Q34)"
format_text character = codes "the normalised name, lowercase, words joined by -"
format_text title =
    codes "a TMDB id of the route's type; under all, movie-<TMDB id> or series-<TMDB id>"

-- Where a kind's titles are looked up.
pub data Data : Type 0 where
  bits rating : Data
  entity : ℕ → Data
  character_names like fans : Data

pub record Spec : Type 0 where
  pub name : Text
  pub mode : Mode
  pub id : IdFormat
  pub data_of : Data
  pub about : String

-- Whether `counts.json` lists the kind's values.
unfoldable pub listed : Spec → Bool
listed spec = elim spec.data_of [ character_names ↦ false | like ↦ false | fans ↦ false | _ ↦ true ]

unfoldable pub searchable : Spec → Bool
searchable spec = elim spec.data_of [ like ↦ false | fans ↦ false | _ ↦ true ]

abbrev pub default_prefix : ℕ
default_prefix = 2

abbrev pub character_min_prefix : ℕ
character_min_prefix = 3

abbrev pub default_values : ℕ
default_values = 10

abbrev pub character_limit : ℕ
character_limit = 5

unfoldable pub min_prefix : Spec → ℕ
min_prefix spec = elim spec.data_of [ character_names ↦ character_min_prefix | _ ↦ default_prefix ]

unfoldable pub values_limit : Spec → ℕ
values_limit spec = elim spec.data_of [ character_names ↦ character_limit | _ ↦ default_values ]

unfoldable pub is_tmdb : Spec → Bool
is_tmdb spec = elim spec.data_of [ rating ↦ true | character_names ↦ true | _ ↦ false ]

-- A kind of posting lists: the sections of the store it reads, and the fewest titles of a listed value.
pub record EntitySpec : Type 0 where
  pub kind : Text
  pub sections : List (Text × Text)
  pub raw_qids : Bool
  pub min_titles : ℕ
  pub series_only : Bool
  pub only : List ℕ
  pub about : String

-- A kind of scores: its table, its vocabulary, and the floor that a title's score must reach.
pub record DenseKind : Type 0 where
  pub kind : Text
  pub table : Text
  pub names : Text
  pub floor : ℕ
  pub about : String

-- One type's titles, or films and series together.
pub data Scope : Type 0 where
  of_type : MediaType → Scope
  all_types : Scope

-- The type segment of a path.
unfoldable pub parse_scope : Text → Option Scope
unfolding same_text
parse_scope segment =
    if same_text segment (codes "movie")
    then some (of_type movie)
    else if same_text segment (codes "series")
    then some (of_type tv)
    else if same_text segment (codes "all")
    then some all_types
    else none
