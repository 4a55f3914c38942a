-- ===== src/Filter/Ids.antt =====
-- Kinds and ids in canonical form: `normalise`, `qid_of`, `typed_title` and `normalise_id` of
-- src/filter.rs, with `resolve_axis` of src/plotrows.rs. The names of the plot axes (den_store), the reading
-- of bytes as UTF-8 (`String::from_utf8_lossy`) and the readings of names in src/characters.rs and
-- src/facts.rs are fields of `Naming`.
pub mod Numbers
pub mod Stable
use den_atlas.Prelude.{
  ℕ, ◌+◌, ◌-◌, ◌*◌, ◌/◌, Bool, true, false, not, ◌&&◌, ◌||◌, List, [], ◌∷◌, ◌++◌, Option, none,
  some, leb, ltb, ◌==◌, if◌then◌else◌,
}
use den_atlas.Prelude.Bytes.{Text, codes, same_text, split_once, parse_unsigned, all_digits}
use den_atlas.Prelude.Decimal.{decimal, is_empty}
use den_atlas.Prelude.Spaces.{trim_text}
use den_atlas.Prelude.Results.{Result, ok, err, ◌>>=◌}
use den_atlas.Index.{MediaType, movie, tv}
use den_atlas.Filter.Spec.{Spec, IdFormat, Scope}
use den_atlas.Filter.Spec.Lookup.{spec}
use den_atlas.Filter.Values.{parse_u32}

pub record Naming : Type 0 where
  pub axes : List Text
  pub utf8_lossy : Text → Text
  pub character_name : Text → Text
  pub name_key : Text → Text
  pub latest_birth : ℕ

pub data RequestError : Type 0 where
  query_too_long too_many_values not_an_item different_kinds one_value_only : RequestError
  empty_kind empty_id not_an_integer not_a_qid not_a_country no_character no_typed_title :
      RequestError
  not_years not_birth_year no_year years_reversed one_birth_range unknown_order : RequestError
  not_a_count not_a_page prefix_too_short no_character_prefix : RequestError

-- `to_ascii_lowercase` and `to_ascii_uppercase`
abbrev pub to_lower : ℕ → ℕ
to_lower c = if leb b'A' c && leb c b'Z' then c + 32 else c

unfoldable pub lower : Text → Text
lower [] = []
lower (c ∷ s) = to_lower c ∷ lower s

abbrev pub to_upper : ℕ → ℕ
to_upper c = if leb b'a' c && leb c b'z' then c - 32 else c

unfoldable pub upper : Text → Text
upper [] = []
upper (c ∷ s) = to_upper c ∷ upper s

abbrev pub is_alphabetic : ℕ → Bool
is_alphabetic c = (leb b'a' c && leb c b'z') || (leb b'A' c && leb c b'Z')

-- `strip_prefix(['Q', 'q']).unwrap_or(id)`
unfoldable pub without_q : Text → Text
without_q [] = []
without_q (c ∷ s) = if c == b'Q' || c == b'q' then s else c ∷ s

unfoldable pub qid_text : Option ℕ → Bool → Option Text
unfolding decimal
qid_text none digits = none
qid_text (some n) true = some (b'Q' ∷ decimal n)
qid_text (some n) false = none

unfoldable pub digits_qid : Text → Option Text
unfolding parse_u32 all_digits qid_text
digits_qid digits = qid_text (parse_u32 digits) (all_digits digits)

unfoldable pub qid_of : Text → Option Text
unfolding without_q digits_qid
qid_of id = digits_qid (without_q id)

unfoldable pub media_of : Text → Option MediaType
media_of s =
    if same_text s (codes "movie")
    then some movie
    else if same_text s (codes "series")
    then some tv
    else none

unfoldable pub typed_number : Option MediaType → Option ℕ → Option (MediaType × ℕ)
typed_number none o = none
typed_number (some media_type) none = none
typed_number (some media_type) (some n) = some (media_type, n)

unfoldable pub typed_parts : Option (Text × Text) → Option (MediaType × ℕ)
unfolding media_of parse_u32 typed_number
typed_parts none = none
typed_parts (some (media, tmdb_id)) = typed_number (media_of media) (parse_u32 tmdb_id)

unfoldable pub typed_title : Text → Option (MediaType × ℕ)
unfolding split_once typed_parts
typed_title id = typed_parts (split_once b'-' id)

unfoldable pub write_number : Option ℕ → (ℕ → Text) → Result RequestError Text
write_number none write = err RequestError.not_an_integer
write_number (some n) write = ok (write n)

unfoldable pub number_text : Text → (ℕ → Text) → Result RequestError Text
unfolding parse_u32 write_number
number_text id write = write_number (parse_u32 id) write

unfoldable pub country_text : Text → Result RequestError Text
unfolding upper
country_text (a ∷ b ∷ []) =
    if is_alphabetic a && is_alphabetic b
    then ok (upper (a ∷ b ∷ []))
    else err RequestError.not_a_country
country_text id = err RequestError.not_a_country

-- `replace(' ', "-")`
unfoldable pub dashed : Text → Text
dashed [] = []
dashed (c ∷ s) = (if c == b' ' then b'-' else c) ∷ dashed s

unfoldable pub typed_text : Option (MediaType × ℕ) → Result RequestError Text
unfolding decimal
typed_text none = err RequestError.no_typed_title
typed_text (some (movie, n)) = ok (codes "movie-" ++ decimal n)
typed_text (some (tv, n)) = ok (codes "series-" ++ decimal n)

unfoldable pub title_text : Scope → Text → Result RequestError Text
unfolding number_text decimal typed_title typed_text lower
title_text (Scope.of_type t) id = number_text id decimal
title_text Scope.all_types id = typed_text (typed_title (lower id))

unfoldable pub qid_or : Result RequestError Text → Option Text → Result RequestError Text
qid_or other none = other
qid_or other (some qid) = ok qid

unfoldable pub normalise_id : Naming → IdFormat → Scope → Text → Result RequestError Text
unfolding number_text decimal lower upper qid_of qid_or country_text dashed title_text
normalise_id names IdFormat.integer scope id = number_text id decimal
normalise_id names IdFormat.decade scope id = number_text id λ n. decimal (n / 10 * 10)
normalise_id names IdFormat.lower scope id = ok (lower id)
normalise_id names IdFormat.upper scope id = ok (upper id)
normalise_id names IdFormat.label scope id = ok id
normalise_id names IdFormat.qid scope id = qid_or (err RequestError.not_a_qid) (qid_of id)
normalise_id names IdFormat.country scope id = qid_or (country_text id) (qid_of id)
normalise_id names IdFormat.character scope id =
    let name = names.character_name id in
    if is_empty name then err RequestError.no_character else ok (dashed name)
normalise_id names IdFormat.title scope id = title_text scope id

-- The axis that an old `structure` names.
unfoldable pub resolve_axis : Text → Text → Text
resolve_axis axis value =
    if same_text axis (codes "structure")
    then if same_text value (codes "single-day")
      then codes "timespan"
      else if same_text value (codes "anthology")
      then codes "continuity"
      else codes "chronology"
    else axis

unfoldable pub read_id : Naming → Scope → Text → Text → Result RequestError (Text × Text)
unfolding spec normalise_id
read_id names scope kind id = elim (spec names.axes kind) [
  | none ↦ ok (kind, id)
  | some s ↦ normalise_id names s.id scope id >>= λ canonical. ok (kind, canonical)
]

unfoldable pub normalise : Naming → Scope → Text → Text → Result RequestError (Text × Text)
unfolding trim_text lower resolve_axis read_id
normalise names scope kind id =
    let k = lower (trim_text kind) in
    let i = trim_text id in
    if is_empty k
    then err RequestError.empty_kind
    else if is_empty i
    then err RequestError.empty_id
    else read_id names scope
        (if same_text k (codes "structure") then resolve_axis k (lower i) else k) i
