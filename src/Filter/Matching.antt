-- ===== src/Filter/Matching.antt =====
-- The titles that a selection matches: `Item`, `Context::split`, `item_bits`, `item_likely`,
-- `matched_without`, `base_for` and `counted` of src/filter.rs.
pub mod Items
pub mod Narrowing
pub mod Counts
pub mod Rows
use Prim.Native.Nat.{bit_and, bit_or}
use den_atlas.Prelude.{
  ℕ, zero, suc, ◌+◌, ◌-◌, Bool, true, false, not, ◌&&◌, ◌||◌, List, [], ◌∷◌, ◌++◌, Option, none,
  some, length, ltb, if◌then◌else◌,
}
use den_atlas.Prelude.Binary.{complement}
use den_atlas.Prelude.Bytes.{Text, same_text}
use den_atlas.Filter.Spec.{Spec, Mode}
use den_atlas.Filter.Spec.Lookup.{spec}
use den_atlas.Filter.Bits.{Bits, update, and_count, popcount}
use den_atlas.Filter.State.{Context, Status, status, of_scope, any_text}
use den_atlas.Filter.Values.{value_bits, likely_bits}

-- One `[-]<kind>:<id>[|<id>…]`; `ids` is sorted, each once, and not empty.
pub record Item : Type 0 where
  pub kind : Text
  pub exclude : Bool
  pub ids : List Text

unfoldable pub is_group : Item → Bool
is_group item = ltb 1 (length item.ids)

unfoldable pub counted_apart : Mode → Item → Bool
unfolding is_group
counted_apart Mode.single item = true
counted_apart Mode.and item = is_group item && not item.exclude

-- The kinds that are not applied are named once each, in the order of the items.
unfoldable pub split_items :
    List Text → Context → List Text → List Item → List (Spec × Item) × List Text
unfolding spec status any_text
split_items axes c ignored [] = ([], ignored)
split_items axes c ignored (item ∷ items) =
    let skipped =
      split_items axes c (if any_text item.kind ignored then ignored else ignored ++ item.kind ∷ [])
        items in
    let kept = split_items axes c ignored items in
    elim (spec axes item.kind) [
      | none ↦ skipped
      | some s ↦ elim (status c s) [ Status.ready ↦ ((s, item) ∷ kept.0, kept.1) | _ ↦ skipped ]
    ]

abbrev pub split_selection : List Text → Context → List Item → List (Spec × Item) × List Text
split_selection axes c items = split_items axes c [] items

unfoldable pub first_id : List Text → Text
first_id [] = []
first_id (id ∷ ids) = id

-- The rest of the ids, or-ed on.
unfoldable pub add_values : Context → Spec → Bits → List Text → Bits
unfolding value_bits update
add_values c s value [] = value
add_values c s value (id ∷ ids) = add_values c s (update bit_or value (value_bits c s id).0) ids

abbrev pub rest_of : List Text → List Text
rest_of [] = []
rest_of (id ∷ ids) = ids

unfoldable pub item_bits : Context → Spec → Item → Bits × Bits
unfolding first_id add_values value_bits
item_bits c s item =
    let first = value_bits c s (first_id item.ids) in
    (add_values c s first.0 (rest_of item.ids), first.1)

-- `match union { Some(union) => …, None => … }`
unfoldable pub join_likely : Option Bits → Option Bits → Option Bits
unfolding update
join_likely union none = union
join_likely none (some more) = some more
join_likely (some u) (some more) = some (update bit_or u more)

unfoldable pub add_likely : Context → Spec → Option Bits → List Text → Option Bits
unfolding likely_bits join_likely
add_likely c s union [] = union
add_likely c s union (id ∷ ids) = add_likely c s (join_likely union (likely_bits c s id)) ids

unfoldable pub item_likely : Context → Spec → Item → Option Bits
unfolding add_likely
item_likely c s item = add_likely c s none item.ids

pub record Matched : Type 0 where
  pub sure : Bits
  pub any : Bits

-- `k & !v` on words of 64 bits
abbrev pub and_not : ℕ → ℕ → ℕ
and_not k v = bit_and k (complement 64 v)

abbrev pub with_likely : Bits → Option Bits → Bits
with_likely value none = value
with_likely value (some likely) = update bit_or value likely

-- What an item leaves of the matched titles: excluded, those known without its value.
unfoldable pub narrow : Bool → Bits → Bits → Option Bits → Matched → Matched
unfolding update
narrow true value known likely m =
    let clear = update and_not known value in
    record { sure = update bit_and m.sure clear; any = update bit_and m.any clear }
narrow false value known likely m = record {
  sure = update bit_and m.sure value;
  any = update bit_and m.any (with_likely value likely);
}

unfoldable pub apply_item : Context → Spec → Item → Matched → Matched
unfolding item_bits item_likely narrow
apply_item c s item m =
    let value = item_bits c s item in narrow item.exclude value.0 value.1 (item_likely c s item) m

unfoldable pub apply_items : Context → (Spec → Item → Bool) → List (Spec × Item) → Matched → Matched
unfolding apply_item
apply_items c drop [] m = m
apply_items c drop ((s, item) ∷ applied) m =
    apply_items c drop applied (if drop s item then m else apply_item c s item m)

unfoldable pub restrict : Bits → Option Bits → Bits
unfolding update
restrict rows none = rows
restrict rows (some allowed) = update bit_and rows allowed

-- The titles of the scope that the policy admits.
abbrev pub admitted : Context → Bits
admitted c = restrict (of_scope c) c.maturity

unfoldable pub matched_without : Context → List (Spec × Item) → (Spec → Item → Bool) → Matched
unfolding restrict of_scope apply_items
matched_without c applied drop =
    apply_items c drop applied record { sure = admitted c; any = admitted c }

abbrev pub matched : Context → List (Spec × Item) → Option Text → Matched
matched c applied skip =
    matched_without c applied
      λ s item. elim skip [ none ↦ false | some name ↦ same_text s.name name ]

abbrev pub apart : Spec → Spec → Item → Bool
apart s t item = same_text t.name s.name && counted_apart t.mode item

unfoldable pub any_apart : Spec → List (Spec × Item) → Bool
any_apart s [] = false
any_apart s ((t, item) ∷ applied) = apart s t item || any_apart s applied

unfoldable pub base_for : Context → Spec → List (Spec × Item) → Option Matched
unfolding any_apart matched_without
base_for c s applied =
    if any_apart s applied then some (matched_without c applied (apart s)) else none

pub record Counted : Type 0 where
  pub total : ℕ
  pub likely : ℕ

-- `likely.map_or(0, …)`
unfoldable pub likely_total : Bits → Option Bits → ℕ
unfolding and_count
likely_total any none = 0
likely_total any (some l) = and_count any l

unfoldable pub counted : Matched → Bits → Option Bits → Counted
unfolding and_count likely_total
counted base value likely =
    let total = and_count base.any value + likely_total base.any likely in
    record { total = total; likely = total - and_count base.sure value }

unfoldable pub population : Context → ℕ
unfolding popcount and_count of_scope
population c = elim c.maturity [ none ↦ popcount (of_scope c) | some m ↦ and_count (of_scope c) m ]
