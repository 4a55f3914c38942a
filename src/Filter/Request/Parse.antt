-- ===== src/Filter/Request/Parse.antt =====
-- Reading a whole query: `Request::parse` and `Request::query` of src/filter.rs.
use den_atlas.Prelude.{
  ℕ, ◌%◌, Bool, true, false, not, ◌&&◌, List, [], ◌∷◌, ◌++◌, Option, none, some, ltb, ◌==◌, length,
  if◌then◌else◌,
}
use den_atlas.Prelude.Bytes.{Text, codes, same_text}
use den_atlas.Prelude.Decimal.{decimal, is_empty}
use den_atlas.Prelude.Results.{Result, ok, err, ◌>>=◌}
use den_atlas.Filter.Spec.{Scope}
use den_atlas.Filter.Ids.{Naming, RequestError, normalise}
use den_atlas.Filter.Traits.{Order, order_name, normalise_trait, one_value}
use den_atlas.Filter.Matching.{Item}
use den_atlas.Filter.Request.{max_query, decode, encode, read_items, selection_text, join_text}
use den_atlas.Filter.Request.Parameters.{
  Route, Request, param, decoded_some, decoded, one_title, check_traits, read_order, read_count,
  limits, or_default, limit_of, read_prefix,
}

-- What the query asks for.
pub record Asked : Type 0 where
  pub items : List Item
  pub traits : List Item
  pub order : Order
  pub skip : ℕ
  pub limit : ℕ
  pub q : Option Text

abbrev part : Bool → Text → Text → List Text → List Text
part true name value rest = (name ++ b'=' ∷ value) ∷ rest
part false name value rest = rest

abbrev is_prominence : Order → Bool
is_prominence Order.prominence = true
is_prominence Order.credits = false
is_prominence Order.by_name = false
is_prominence Order.born_asc = false
is_prominence Order.born_desc = false

abbrev no_items : List Item → Bool
no_items [] = true
no_items (item ∷ items) = false

abbrev is_given : Option Text → Bool
is_given none = false
is_given (some q) = true

abbrev given_text : Option Text → Text
given_text none = []
given_text (some q) = q

-- Each parameter that is not its default, in their order.
unfoldable pub canonical_parts : Route → Asked → List Text
unfolding selection_text order_name decimal encode limits
canonical_parts route a = part (not (no_items a.items)) (codes "sel") (selection_text a.items) (
    part (not (no_items a.traits)) (codes "traits") (selection_text a.traits) (
      part (not (is_prominence a.order)) (codes "order") (order_name a.order) (
        part (not (a.skip == 0)) (codes "skip") (decimal a.skip) (
          part (is_given a.q) (codes "q") (encode (given_text a.q))
            (part (not (a.limit == (limits route).0)) (codes "limit") (decimal a.limit) [])))))

unfoldable pub canonical_of : Route → Asked → Text
unfolding canonical_parts join_text
canonical_of route a = join_text b'&' (canonical_parts route a)

-- A skip is a whole number of pages.
unfoldable pub read_page : Option ℕ → ℕ → Result RequestError ℕ
read_page skip limit =
    if ltb 0 limit && not (or_default skip 0 % limit == 0)
    then err RequestError.not_a_page
    else ok (or_default skip 0)

-- The steps of `parse`, each with what those before it read.
unfoldable pub ask_page :
    Naming
    → Route
    → Text
    → List Item
    → List Item
    → Order
    → Option ℕ
    → Option ℕ
    → Result RequestError Asked
unfolding param decoded_some read_page read_prefix limits
ask_page names route query items traits order limit skip =
    read_page skip (limit_of route limit) >>= λ rows.
    read_prefix names route (decoded_some names.utf8_lossy (param route query (codes "q"))) >>= λ q.
    ok record {
      items = items;
      traits = traits;
      order = order;
      skip = rows;
      limit = limit_of route limit;
      q = q;
    }

unfoldable pub ask_counts :
    Naming → Route → Text → List Item → List Item → Order → Result RequestError Asked
unfolding param read_count ask_page
ask_counts names route query items traits order =
    read_count (param route query (codes "limit")) >>= λ limit.
    read_count (param route query (codes "skip")) >>= λ skip.
    ask_page names route query items traits order limit skip

unfoldable pub ask_order : Naming → Route → Text → List Item → List Item → Result RequestError Asked
unfolding param check_traits read_order ask_counts
ask_order names route query items traits = check_traits traits >>= λ _.
    read_order names.utf8_lossy (param route query (codes "order")) >>= λ order.
    ask_counts names route query items traits order

unfoldable pub ask : Naming → Route → Scope → Text → Result RequestError Asked
unfolding param decoded decode read_items normalise normalise_trait one_value ask_order
ask names route scope query =
    read_items (normalise names scope) one_title
      (decoded names.utf8_lossy (param route query (codes "sel")))
    >>= λ items.
        read_items (normalise_trait names scope) one_value
          (decoded names.utf8_lossy (param route query (codes "traits")))
        >>= λ traits. ask_order names route query items traits

abbrev pub request_of : Route → Text → Asked → Request
request_of route query a = record {
  items = a.items;
  traits = a.traits;
  order = a.order;
  skip = a.skip;
  limit = a.limit;
  q = a.q;
  canonical = same_text query (canonical_of route a);
  canonical_query = canonical_of route a;
}

unfoldable pub parse : Naming → Route → Scope → Text → Result RequestError Request
unfolding ask canonical_of
parse names route scope query =
    if ltb max_query (length query)
    then err RequestError.query_too_long
    else ask names route scope query >>= λ a. ok (request_of route query a)

-- The canonical query with its `?`, or nothing.
unfoldable pub query_text : Request → Text
query_text r = if is_empty r.canonical_query then [] else b'?' ∷ r.canonical_query
