-- ===== src/Filter/Values.antt =====
-- What a kind's values select: `value_bits`, `entity_value` and `likely_bits` of src/filter.rs.
pub mod Sets
pub mod Shapes
use den_atlas.Prelude.{
  ℕ, zero, suc, ◌+◌, ◌/◌, ◌^◌, Bool, true, false, not, ◌&&◌, List, [], ◌∷◌, ◌++◌, Option, none,
  some, map, length, replicate, ltb, ◌==◌, if◌then◌else◌, get_elem?, ite,
}
use den_atlas.Prelude.Bytes.{Text, same_text, strip_prefix, parse_unsigned, text_dec}
use den_atlas.Prelude.Map.{lookup}
use den_atlas.Index.{MediaType, movie, tv}
use den_atlas.Filter.Spec.{Spec, EntitySpec, Scope, Data}
use den_atlas.Filter.Spec.Lookup.{spec}
use den_atlas.Filter.Spec.EntityKinds.{entity_kinds}
use den_atlas.Filter.Bits.{Bits, set_bit}
use den_atlas.Filter.Entities.{EntityKind, all_rows}
use den_atlas.Filter.State.{Valued, Characters, Context, of_scope, words}

-- `vec![0; words]`
abbrev pub no_rows : ℕ → Bits
no_rows words = replicate words 0

-- Set where there is a word for the row.
unfoldable pub set_within : ℕ → Bits → ℕ → Bits
unfolding set_bit
set_within words bits row =
    if ltb (row / 64) words
    then elim (set_bit bits row) [ none ↦ bits | some after ↦ after ]
    else bits

unfoldable pub add_rows : ℕ → Bits → List ℕ → Bits
unfolding set_within
add_rows words bits [] = bits
add_rows words bits (row ∷ rows) = add_rows words (set_within words bits row) rows

unfoldable pub from_rows : ℕ → List ℕ → Bits
unfolding add_rows
from_rows words rows = add_rows words (no_rows words) rows

unfoldable pub parse_u32 : Text → Option ℕ
unfolding parse_unsigned
parse_u32 s = elim (parse_unsigned s) [
  | none ↦ none
  | some n ↦ if ltb n (2 ^ 32) then some n else none
]

-- `binary_search`, in a table without repeats.
unfoldable pub place_of : ℕ → List ℕ → Option ℕ
place_of n [] = none
place_of n (x ∷ xs) =
    if x == n then some 0 else elim (place_of n xs) [ none ↦ none | some i ↦ some (suc i) ]

unfoldable pub qid_place : Text → List ℕ → Option ℕ
unfolding strip_prefix parse_u32 place_of
qid_place qid ids = elim (strip_prefix (b'Q' ∷ []) qid) [
  | none ↦ none
  | some digits ↦ elim (parse_u32 digits) [ none ↦ none | some n ↦ place_of n ids ]
]

unfoldable pub entity_value : Context → EntityKind → Text → Option ℕ
unfolding qid_place
entity_value c kind qid = elim kind.qids [
  | none ↦ qid_place qid c.ent_qid
  | some qids ↦ qid_place qid qids
]

-- `resize(words, 0)`
unfoldable pub resize : ℕ → Bits → Bits
resize zero bits = []
resize (suc n) [] = 0 ∷ resize n []
resize (suc n) (w ∷ bits) = w ∷ resize n bits

unfoldable pub spaced : Text → Text
spaced [] = []
spaced (c ∷ s) = (if c == b'-' then b' ' else c) ∷ spaced s

unfoldable pub or_no_rows : ℕ → Option Bits → Bits
or_no_rows words none = no_rows words
or_no_rows words (some b) = b

unfoldable pub valued_bits : ℕ → Option Valued → Text → Bits × Bits
unfolding lookup or_no_rows
valued_bits words none id = (no_rows words, no_rows words)
valued_bits words (some valued) id =
    (or_no_rows words (lookup text_dec id valued.values), valued.known)

unfoldable pub rows_at : ℕ → EntityKind → Option ℕ → Bits
unfolding from_rows all_rows
rows_at words kind none = no_rows words
rows_at words kind (some e) = from_rows words (all_rows kind.postings e)

unfoldable pub entity_bits : Context → Option EntityKind → Text → Bits × Bits
unfolding entity_value rows_at
entity_bits c none id = (no_rows (words c), no_rows (words c))
entity_bits c (some kind) id = (rows_at (words c) kind (entity_value c kind id), kind.known)

unfoldable pub character_bits : ℕ → Option Characters → Text → Bits × Bits
unfolding from_rows spaced resize
character_bits words none id = (no_rows words, no_rows words)
character_bits words (some names) id =
    (from_rows words (names.named_rows (spaced id)), resize words names.known)

unfoldable pub data_bits : Context → Data → Text → Text → Bits × Bits
unfolding valued_bits entity_bits character_bits from_rows of_scope lookup
data_bits c Data.bits name id = valued_bits (words c) (lookup text_dec name c.bits) id
data_bits c Data.rating name id = valued_bits (words c) c.rating id
data_bits c (Data.entity i) name id = entity_bits c (c.entities i) id
data_bits c Data.character_names name id = character_bits (words c) c.characters id
data_bits c Data.like name id = (from_rows (words c) (c.like_rows Data.like id), of_scope c)
data_bits c Data.fans name id = (from_rows (words c) (c.like_rows Data.fans id), of_scope c)

-- The titles carrying a value, and the titles its kind is known for.
unfoldable pub value_bits : Context → Spec → Text → Bits × Bits
unfolding data_bits
value_bits c s id = data_bits c s.data_of s.name id

unfoldable pub tier_bits : Option (List (Text × Bits)) → Text → Option Bits
unfolding lookup
tier_bits none id = none
tier_bits (some values) id = lookup text_dec id values

unfoldable pub data_likely : Context → Data → Text → Text → Option Bits
unfolding tier_bits lookup
data_likely c Data.bits name id = tier_bits (lookup text_dec name c.likely) id
data_likely c Data.rating name id = none
data_likely c (Data.entity i) name id = none
data_likely c Data.character_names name id = none
data_likely c Data.like name id = none
data_likely c Data.fans name id = none

-- The titles carrying a value only tentatively.
unfoldable pub likely_bits : Context → Spec → Text → Option Bits
unfolding data_likely
likely_bits c s id = data_likely c s.data_of s.name id
