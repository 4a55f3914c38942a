-- ===== src/TitleSearch/Export.antt =====
-- crates/den-titlesearch/src/export.rs: the most popular titles of the exports, scanned line by line
-- from bytes in any chunks. `BinaryHeap` is an interface: which of several least records it gives up is
-- not said. Reading a number and making text of bytes that may not be UTF-8 are parameters.
pub mod Heaps
pub mod Chunks
pub mod Best
pub mod Keeping
pub mod Ranking
pub mod Whole
mod Tests
use den_atlas.Prelude.{
  ℕ, Bool, true, false, ◌&&◌, ◌||◌, not, List, [], ◌∷◌, ◌++◌, Option, none, some, leb, ◌==◌,
  if◌then◌else◌,
}
use den_atlas.Prelude.Bytes.{Text, codes, split}
use den_atlas.Prelude.Decimal.{is_empty}
use den_atlas.Prelude.Perms.{sort}
use den_atlas.TitleSearch.{MediaType, movie, tv, TitleRecord}
use den_atlas.TitleSearch.Popularity.{Popularity}
use den_atlas.TitleSearch.Json.{
  find_after, skip_spaces, skip_colon, take_while, in_number, parse_u32, json_bytes,
}
use den_atlas.TitleSearch.Export.Heaps.{Heap}

abbrev is_movie : MediaType → Bool
is_movie movie = true
is_movie tv = false

-- `media_type.cmp`, then the id.
abbrev pub key_at_most : MediaType → ℕ → MediaType → ℕ → Bool
key_at_most movie i movie j = leb i j
key_at_most movie i tv j = true
key_at_most tv i movie j = false
key_at_most tv i tv j = leb i j

abbrev title_key : MediaType → Text
title_key movie = codes "\"original_title\":\""
title_key tv = codes "\"original_name\":\""

abbrev is_found : Option Text → Bool
is_found none = false
is_found (some rest) = true

module _ (pop : Popularity) (utf8_lossy : Text → Text) where
  open pop use {Value, parse_f64, at_most, le}

  abbrev pub Title : Type 0
  Title = TitleRecord Value

  -- The order of `ByPopularity`.
  abbrev pub weaker : Title → Title → Bool
  weaker a b = at_most a.popularity b.popularity

  unfoldable pub parse_number : Text → Option Value
  parse_number s = parse_f64 (take_while in_number s)

  unfoldable pub line_popularity : Text → Option Value
  unfolding parse_number
  line_popularity line = elim (find_after line (codes "\"popularity\"")) [
    | none ↦ none
    | some rest ↦ parse_number (skip_colon rest)
  ]

  unfoldable pub json_string : Text → Option Text
  json_string s = elim (json_bytes 0 s) [ none ↦ none | some bytes ↦ some (utf8_lossy bytes) ]

  unfoldable pub line_title : MediaType → Text → Option Text
  unfolding json_string
  line_title media line = elim (find_after line (title_key media)) [
    | none ↦ none
    | some rest ↦ elim (json_string rest) [
      | none ↦ none
      | some title ↦ if is_empty title then none else some title
    ]
  ]

  -- What follows the look at the heap: the adult filter, the id and the title.
  unfoldable pub read_record : MediaType → Text → Value → Option Title
  unfolding line_title
  read_record media line popularity =
      if is_movie media && is_found (find_after line (codes "\"adult\":true"))
      then none
      else elim (find_after line (codes "\"id\":")) [
        | none ↦ none
        | some rest ↦ elim (parse_u32 (skip_spaces rest)) [
          | none ↦ none
          | some id ↦ elim (line_title media line) [
            | none ↦ none
            | some title ↦ some (record {
              tmdb_id = id;
              media_type = media;
              title = title;
              popularity = popularity;
            })
          ]
        ]
      ]

  -- The order of `finish`: more popular first, then by type and id.
  unfoldable pub ranks_before : Title → Title → Bool
  ranks_before a b =
      if not (at_most a.popularity b.popularity)
      then true
      else if not (at_most b.popularity a.popularity)
      then false
      else key_at_most a.media_type a.tmdb_id b.media_type b.tmdb_id

  module _ (heaps : Heap Title weaker) where
    open heaps use {State, new, items, size, peek, pop_least, push}

    pub record Scanner : Type 0 where
      pub heap : State
      pub capacity : ℕ
      pub media_type : MediaType
      pub carry : Text

    unfoldable pub new_scanner : ℕ → Scanner
    new_scanner capacity = record {
      heap = new;
      capacity = capacity;
      media_type = movie;
      carry = [];
    }

    abbrev pub is_full : Scanner → Bool
    is_full s = leb s.capacity (size s.heap)

    -- Not more popular than the weakest kept.
    abbrev pub is_beaten : Scanner → Value → Bool
    is_beaten s popularity = elim (peek s.heap) [
      | none ↦ false
      | some weakest ↦ le popularity weakest.popularity
    ]

    unfoldable pub keep : Scanner → Title → Scanner
    keep s r = record s { heap = push r (if is_full s then pop_least s.heap else s.heap) }

    unfoldable pub scan_line : Scanner → Text → Scanner
    unfolding keep
    scan_line s line = if s.capacity == 0 then s else elim (line_popularity line) [
      | none ↦ s
      | some popularity ↦
          if is_full s && is_beaten s popularity
          then s
          else elim (read_record s.media_type line popularity) [ none ↦ s | some r ↦ keep s r ]
    ]

    unfoldable pub flush_line : Scanner → Scanner
    flush_line s = if is_empty s.carry then s else scan_line (record s { carry = [] }) s.carry

    unfoldable pub start : Scanner → MediaType → Scanner
    unfolding flush_line
    start s media = record (flush_line s) { media_type = media }

    -- A line whose end was found.
    unfoldable pub end_line : Scanner → Text → Scanner
    end_line s line =
        if is_empty s.carry
        then scan_line s line
        else scan_line (record s { carry = [] }) (s.carry ++ line)

    -- The chunk cut at its newlines: what follows the last one is carried.
    unfoldable pub feed_parts : Scanner → List Text → Scanner
    unfolding end_line
    feed_parts s [] = s
    feed_parts s (rest ∷ []) = record s { carry = s.carry ++ rest }
    feed_parts s (line ∷ next ∷ parts) = feed_parts (end_line s line) (next ∷ parts)

    unfoldable pub feed : Scanner → Text → Scanner
    unfolding feed_parts
    feed s bytes = feed_parts s (split 10 bytes)

    unfoldable pub finish : Scanner → List Title
    unfolding flush_line
    finish s = sort ranks_before (items (flush_line s).heap)
