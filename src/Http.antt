-- ===== src/Http.antt =====
-- src/http.rs: conditional requests, byte ranges and the answer to them. A header is its value where
-- that reads as text. Dates are read by `httpdate`, and whether a value may stand in a header is for the
-- `http` crate to say: both are parameters.
pub mod Range
pub mod RoundTrip
pub mod Validators
pub mod Serving
pub mod Transfer
mod Tests
use den_atlas.Prelude.{
  ℕ, zero, suc, ◌+◌, ◌-◌, ◌/◌, ◌%◌, Bool, true, false, not, ◌&&◌, ◌||◌, List, [], ◌∷◌, ◌++◌, Option,
  none, some, min, max_word, ltb, leb, ◌==◌, if◌then◌else◌, length, take, drop,
}
use den_atlas.Prelude.Decimal.{decimal, is_empty}
use den_atlas.Prelude.Bytes.{
  Text, codes, same_text, starts_with, strip_prefix, trim, split, all_digits, parse_unsigned,
}

pub data Method : Type 0 where
  head other : Method

-- The request's headers that the code reads.
pub record Headers : Type 0 where
  pub range : Option Text
  pub if_range : Option Text
  pub if_none_match : Option Text
  pub if_modified_since : Option Text

pub record Servable : Type 0 where
  pub etag_base : Text
  pub content_type : Text
  pub cache_control : Text
  pub last_modified : Option Text
  pub accept_ranges : Bool
  pub body : Text

pub record Response : Type 0 where
  pub status : ℕ
  pub headers : List (Text × Text)
  pub body : Text

pub data RangeResult : Type 0 where
  range : ℕ → ℕ → RangeResult
  unsatisfiable no_range : RangeResult

abbrev pub number_or_max : Text → ℕ
number_or_max s = elim (parse_unsigned s) [ none ↦ max_word | some n ↦ n ]

-- `a-`, with `b` empty, or `a-b`: from `start` on.
unfoldable pub from_start : ℕ → Text → ℕ → RangeResult
from_start start b size =
    if leb size start
    then unsatisfiable
    else (let end : ℕ = if is_empty b then size - 1 else min (number_or_max b) (size - 1) in
        if ltb end start then unsatisfiable else range start end)

-- The two halves of a range of a representation that is not empty.
unfoldable pub range_of : Text → Text → ℕ → RangeResult
unfolding from_start
range_of a b size =
    if not (all_digits a) || not (all_digits b)
    then no_range
    else if is_empty a && is_empty b
    then no_range
    else if is_empty a
    then (let suffix = number_or_max b in
        if suffix == 0 then unsatisfiable else range (size - suffix) (size - 1))
    else elim (parse_unsigned a) [ none ↦ unsatisfiable | some start ↦ from_start start b size ]

-- Two parts, or none.
unfoldable pub range_of_parts : List Text → ℕ → RangeResult
unfolding range_of
range_of_parts (a ∷ b ∷ []) size = range_of a b size
range_of_parts parts size = no_range

abbrev pub bytes_unit : Text
bytes_unit = codes "bytes="

unfoldable pub parse_range : Text → ℕ → RangeResult
unfolding range_of_parts
parse_range header size = elim (strip_prefix bytes_unit (trim header)) [
  | none ↦ no_range
  | some rest ↦ if size == 0 then unsatisfiable else range_of_parts (split b'-' rest) size
]

abbrev pub quoted : Text → Text
quoted base = b'"' ∷ (base ++ b'"' ∷ [])

-- `trim_start_matches("W/")`
unfoldable pub strip_weak : Text → Text
strip_weak [] = []
strip_weak (c ∷ []) = c ∷ []
strip_weak (c ∷ d ∷ s) = if c == b'W' && d == b'/' then strip_weak s else c ∷ d ∷ s

unfoldable pub any_matches : Text → List Text → Bool
unfolding strip_weak
any_matches etag [] = false
any_matches etag (t ∷ ts) =
    let tag = strip_weak (trim t) in
    same_text tag (codes "*") || same_text tag etag || any_matches etag ts

unfoldable pub if_range_matches : Headers → Text → Option Text → Bool
if_range_matches h etag last_modified = elim h.if_range [
  | none ↦ true
  | some value ↦
      if starts_with (b'"' ∷ []) (trim value)
      then same_text (trim value) etag
      else elim last_modified [ none ↦ false | some date ↦ same_text date (trim value) ]
]

-- The range a request asks for; none, and the whole is served, where it has no Range header, the
-- representation has no ranges, or If-Range forbids it.
unfoldable pub asked : Headers → Servable → RangeResult
asked h s =
    if s.accept_ranges && if_range_matches h (quoted s.etag_base) s.last_modified
    then elim h.range [ none ↦ no_range | some header ↦ parse_range header (length s.body) ]
    else no_range

module _ (parse_date : Text → Option ℕ) where
  unfoldable pub not_modified_since : Option Text → Option Text → Bool
  not_modified_since none modified = false
  not_modified_since (some since) none = false
  not_modified_since (some since) (some modified) = elim (parse_date since) [
    | none ↦ false
    | some s ↦ elim (parse_date modified) [ none ↦ false | some m ↦ leb m s ]
  ]

  unfoldable pub is_not_modified : Headers → Text → Option Text → Bool
  unfolding not_modified_since any_matches
  is_not_modified h etag last_modified = elim h.if_none_match [
    | some tags ↦ any_matches etag (split b',' tags)
    | none ↦ not_modified_since h.if_modified_since last_modified
  ]

  module _ (valid_value : Text → Bool) where
    unfoldable pub keep_valid : List (Text × Text) → List (Text × Text)
    keep_valid [] = []
    keep_valid ((k, v) ∷ hs) = if valid_value v then (k, v) ∷ keep_valid hs else keep_valid hs

    unfoldable pub build : ℕ → List (Text × Text) → Text → Response
    unfolding keep_valid
    build status headers body = record {
      status = status;
      headers = keep_valid headers;
      body = body;
    }

    abbrev when_some : Option Text → Text → List (Text × Text)
    when_some none name = []
    when_some (some v) name = (name, v) ∷ []

    -- What every answer carries besides its caching.
    abbrev about : Servable → List (Text × Text)
    about s =
        (if s.accept_ranges then (codes "accept-ranges", codes "bytes") ∷ [] else [])
        ++ when_some s.last_modified (codes "last-modified")

    abbrev tagged : Servable → Text × Text
    tagged s = (codes "etag", quoted s.etag_base)

    abbrev base_headers : Servable → List (Text × Text)
    base_headers s = tagged s ∷ (codes "cache-control", s.cache_control) ∷ about s

    unfoldable pub not_modified : Servable → Response
    unfolding build
    not_modified s = build 304 (base_headers s) []

    abbrev body_for : Method → Text → Text
    body_for head body = []
    body_for other body = body

    unfoldable pub whole : Method → Servable → Response
    unfolding build
    whole m s =
        build 200
          (base_headers s
            ++ (codes "content-type", s.content_type)
              ∷ (codes "content-length", decimal (length s.body))
              ∷ [])
          (body_for m s.body)

    unfoldable pub partial : Method → Servable → ℕ → ℕ → Response
    unfolding build
    partial m s start end =
        let len = end - start + 1 in
        build 206
          (base_headers s
            ++ (codes "content-type", s.content_type)
              ∷ (
                codes "content-range",
                codes "bytes "
                    ++ (decimal start
                        ++ (b'-' ∷ (decimal end ++ (b'/' ∷ decimal (length s.body))))),
              )
              ∷ (codes "content-length", decimal len)
              ∷ [])
          (body_for m (take len (drop start s.body)))

    abbrev pub refusal : Servable → List (Text × Text)
    refusal s =
        (tagged s ∷ about s)
        ++ (codes "cache-control", codes "no-store")
          ∷ (codes "content-range", codes "bytes */" ++ decimal (length s.body))
          ∷ (codes "content-type", s.content_type)
          ∷ []

    unfoldable pub refuse : Servable → Response
    unfolding build
    refuse s = build 416 (refusal s) []

    unfoldable pub serve_range : Method → Servable → RangeResult → Response
    serve_range m s (range start end) = partial m s start end
    serve_range m s unsatisfiable = refuse s
    serve_range m s no_range = whole m s

    unfoldable pub serve : Method → Headers → Servable → Response
    unfolding asked not_modified
    serve m h s =
        if is_not_modified h (quoted s.etag_base) s.last_modified
        then not_modified s
        else serve_range m s (asked h s)
