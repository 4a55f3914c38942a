-- ===== src/Filter/Request.antt =====
-- The items of a selection: `Item`, `encode` and the selections that
-- `Request::parse` reads, of src/filter.rs.
pub mod Items
pub mod Splitting
pub mod RoundTrip
pub mod Pages
pub mod Parameters
pub mod Parse
mod Tests
use den_atlas.Prelude.{
  ℕ, zero, suc, ◌+◌, ◌/◌, ◌%◌, Bool, true, false, not, ◌&&◌, ◌||◌, List, [], ◌∷◌, ◌++◌, Option,
  none, some, map, min, max, leb, ltb, ◌==◌, length, if◌then◌else◌,
}
use den_atlas.Prelude.Bytes.{
  Text, codes, same_text, trim, split, split_once, strip_prefix, parse_unsigned, is_digit,
}
use den_atlas.Prelude.Decimal.{decimal, is_empty}
use den_atlas.Prelude.Perms.{sort}
use den_atlas.Prelude.Results.{Result, ok, err, ◌>>=◌, read_optional}
use den_atlas.Query.{query_param, percent_decode}
use den_atlas.Query.Escapes.{percent_encode}
use den_atlas.Filter.Spec.{
  Spec, Data, Scope, values_limit, min_prefix, default_values, default_prefix,
}
use den_atlas.Filter.State.{any_text}
use den_atlas.Filter.Ids.{Naming, RequestError, is_alphabetic, normalise}
use den_atlas.Filter.Traits.{Order, parse_order, order_name, normalise_trait, one_value}
use den_atlas.Filter.Matching.{Item}

-- `str`'s order, byte by byte.
unfoldable pub text_leb : Text → Text → Bool
text_leb [] t = true
text_leb (a ∷ s) [] = false
text_leb (a ∷ s) (b ∷ t) = if a == b then text_leb s t else ltb a b

-- Neighbours that are equal become one.
unfoldable pub dedup_by {ℓ} : {A : Type ℓ} → (A → A → Bool) → List A → List A
dedup_by same [] = []
dedup_by same (x ∷ []) = x ∷ []
dedup_by same (x ∷ y ∷ ys) =
    let rest = dedup_by same (y ∷ ys) in if same x y then rest else x ∷ rest

unfoldable pub join_text : ℕ → List Text → Text
join_text d [] = []
join_text d (s ∷ []) = s
join_text d (s ∷ t ∷ ts) = s ++ d ∷ join_text d (t ∷ ts)

-- The bytes that `encode` leaves: letters, digits and `-_.!~*'()`.
abbrev pub is_kept : ℕ → Bool
is_kept c =
    is_alphabetic c
    || is_digit c
    || c == b'-'
    || c == b'_'
    || c == b'.'
    || c == b'!'
    || c == b'~'
    || c == b'*'
    || c == 39
    || c == b'('
    || c == b')'

unfoldable pub encode : Text → Text
unfolding percent_encode
encode text = percent_encode is_kept text

unfoldable pub encoded : List Text → List Text
unfolding encode
encoded [] = []
encoded (id ∷ ids) = encode id ∷ encoded ids

abbrev pub sign : Bool → Text
sign true = b'-' ∷ []
sign false = []

unfoldable pub spelled : Item → Text
unfolding encoded join_text
spelled item = sign item.exclude ++ item.kind ++ b':' ∷ join_text b'|' (encoded item.ids)

-- One value as a lone item is written.
unfoldable pub spelled_value : Item → Text → Text
unfolding encode
spelled_value item id = sign item.exclude ++ item.kind ++ b':' ∷ encode id

-- By kind, then positive before excluded, then the ids joined by `|`.
unfoldable pub item_leb : Item → Item → Bool
unfolding text_leb join_text
item_leb a b =
    if same_text a.kind b.kind
    then if a.exclude
      then b.exclude && text_leb (join_text b'|' a.ids) (join_text b'|' b.ids)
      else b.exclude || text_leb (join_text b'|' a.ids) (join_text b'|' b.ids)
    else text_leb a.kind b.kind

unfoldable pub same_ids : List Text → List Text → Bool
same_ids [] [] = true
same_ids [] (t ∷ ts) = false
same_ids (s ∷ ss) [] = false
same_ids (s ∷ ss) (t ∷ ts) = same_text s t && same_ids ss ts

abbrev same_sign : Bool → Bool → Bool
same_sign true b = b
same_sign false b = not b

unfoldable pub same_item : Item → Item → Bool
unfolding same_ids
same_item a b = same_text a.kind b.kind && same_sign a.exclude b.exclude && same_ids a.ids b.ids

abbrev pub max_selection : ℕ
max_selection = 16

abbrev pub max_query : ℕ
max_query = 2048

abbrev pub Reader : Type 0
Reader = Text → Text → Result RequestError (Text × Text)

-- The ids of an item, which must agree on their kind.
unfoldable pub read_ids :
    Reader → Text → Option Text → List Text → Result RequestError (Option Text × List Text)
read_ids normalise kind resolved [] = ok (resolved, [])
read_ids normalise kind resolved (id ∷ ids) = normalise kind id >>= λ read.
    let rest = read_ids normalise kind (some read.0) ids >>= λ more. ok (more.0, read.1 ∷ more.1) in
    elim resolved [
      | none ↦ rest
      | some r ↦ if same_text r read.0 then rest else err RequestError.different_kinds
    ]

unfoldable pub sorted_ids : List Text → List Text
unfolding dedup_by text_leb
sorted_ids ids = dedup_by same_text (sort text_leb ids)

unfoldable pub ids_where : Bool → List Item → List Text
ids_where exclude [] = []
ids_where exclude (item ∷ items) =
    if same_sign exclude item.exclude
    then item.ids ++ ids_where exclude items
    else ids_where exclude items

-- The values of a kind's positive items and of its excluded ones, sorted and each once.
unfoldable pub selected_ids : List Item → List Text × List Text
unfolding ids_where sorted_ids
selected_ids items = (sorted_ids (ids_where false items), sorted_ids (ids_where true items))

abbrev pub kind_or_empty : Option Text → Text
kind_or_empty none = []
kind_or_empty (some kind) = kind

unfoldable pub make_item :
    (Text → List Text → Bool) → Bool → Text → List Text → Result RequestError Item
make_item one_value exclude kind ids =
    if ltb 1 (length ids) && one_value kind ids
    then err RequestError.one_value_only
    else ok record { kind = kind; exclude = exclude; ids = ids }

unfoldable pub read_parts :
    Reader → (Text → List Text → Bool) → Bool → Option (Text × Text) → Result RequestError Item
unfolding split read_ids sorted_ids make_item
read_parts normalise one_value exclude none = err RequestError.not_an_item
read_parts normalise one_value exclude (some (kind, group)) =
    read_ids normalise kind none (split b'|' group) >>= λ read.
    make_item one_value exclude (kind_or_empty read.0) (sorted_ids read.1)

unfoldable pub read_item : Reader → (Text → List Text → Bool) → Text → Result RequestError Item
unfolding strip_prefix split_once read_parts
read_item normalise one_value item = elim (strip_prefix (b'-' ∷ []) item) [
  | none ↦ read_parts normalise one_value false (split_once b':' item)
  | some rest ↦ read_parts normalise one_value true (split_once b':' rest)
]

unfoldable pub read_each :
    Reader → (Text → List Text → Bool) → List Text → Result RequestError (List Item)
unfolding read_item
read_each normalise one_value [] = ok []
read_each normalise one_value (item ∷ items) = read_item normalise one_value item >>= λ first.
    read_each normalise one_value items >>= λ rest. ok (first ∷ rest)

unfoldable pub not_empty : List Text → List Text
not_empty [] = []
not_empty (s ∷ ss) = if is_empty s then not_empty ss else s ∷ not_empty ss

unfoldable pub count_values : List Text → ℕ
unfolding split
count_values [] = 0
count_values (item ∷ items) = length (split b'|' item) + count_values items

unfoldable pub sorted_items : List Item → List Item
unfolding dedup_by item_leb same_item
sorted_items items = dedup_by same_item (sort item_leb items)

unfoldable pub read_items :
    Reader → (Text → List Text → Bool) → Text → Result RequestError (List Item)
unfolding split not_empty count_values read_each sorted_items
read_items normalise one_value list =
    let raw = not_empty (split b',' list) in
    if ltb max_selection (count_values raw)
    then err RequestError.too_many_values
    else read_each normalise one_value raw >>= λ items. ok (sorted_items items)

-- `replace('+', " ")`
unfoldable pub spaces : Text → Text
spaces [] = []
spaces (c ∷ s) = (if c == b'+' then b' ' else c) ∷ spaces s

unfoldable pub decode : (Text → Text) → Text → Text
unfolding spaces percent_decode
decode utf8_lossy v = percent_decode utf8_lossy (spaces v)

unfoldable pub spelled_items : List Item → List Text
unfolding spelled
spelled_items [] = []
spelled_items (item ∷ items) = spelled item ∷ spelled_items items

-- The value of `sel` or of `traits` in the canonical query.
unfoldable pub selection_text : List Item → Text
unfolding join_text spelled_items
selection_text items = join_text b',' (spelled_items items)
