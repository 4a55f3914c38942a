-- ===== src/Filter/Request/Splitting.antt =====
-- Joined items and ids come apart again: the grammar of `sel` and `traits` in src/filter.rs.
use den_atlas.Prelude.{
  ℕ, ◌+◌, ◌≡◌, ◌≢◌, ◌∙◌, ap, refl, sym, Bool, true, false, List, [], ◌∷◌, ◌++◌, arith, All, length,
  ◌==◌,
}
use den_atlas.Prelude.Bytes.{Text, split}
use mathlib.Core.List.{append_assoc}
use den_atlas.Prelude.Decimal.{is_empty}
use den_atlas.Prelude.Separators.{lacks, lacks-append, split-append, split-lacks}
use den_atlas.Filter.Matching.{Item}
use den_atlas.Filter.Request.{is_kept, sign, join_text, not_empty, count_values}
use den_atlas.Filter.Request.Items.{
  plain_kind, IsPlainId, plain_item, IsPlainItem, plain_items, lacks-all,
}

-- Splitting what was joined.
pub split-join_text :
    (d : ℕ) (s : Text) (ts : List Text)
    → lacks d s ≡ true
    → All (λ t. lacks d t ≡ true) ts
    → split d (join_text d (s ∷ ts)) ≡ s ∷ ts
unfolding join_text
split-join_text d s [] h k = split-lacks d s h
split-join_text d s (t ∷ ts) h k =
    split-append d s (join_text d (t ∷ ts)) h ∙ ap (λ l. s ∷ l) (split-join_text d t ts k.0 k.1)

lacks-join_text :
    (c d : ℕ) (ts : List Text)
    → (d == c) ≡ false
    → All (λ t. lacks c t ≡ true) ts
    → lacks c (join_text d ts) ≡ true
unfolding join_text lacks
lacks-join_text c d [] e h = refl
lacks-join_text c d (t ∷ []) e h = h.0
lacks-join_text c d (t ∷ u ∷ ts) e h =
    lacks-append c t (d ∷ join_text d (u ∷ ts)) h.0
      (ground (arith, lacks-join_text c d (u ∷ ts) e h.1))

pub kind-lacks :
    (d : ℕ) (kind : Text) → is_kept d ≡ false → plain_kind kind ≡ true → lacks d kind ≡ true
kind-lacks d kind e h = lacks-all is_kept d kind e h

ids_lack_bar : (ids : List Text) → All IsPlainId ids → All (λ t. lacks b'|' t ≡ true) ids
ids_lack_bar [] h = tt
ids_lack_bar (id ∷ ids) h = (h.0.1, ids_lack_bar ids h.1)

ids_lack_comma : (ids : List Text) → All IsPlainId ids → All (λ t. lacks b',' t ≡ true) ids
ids_lack_comma [] h = tt
ids_lack_comma (id ∷ ids) h = (h.0.0, ids_lack_comma ids h.1)

sign-lacks : (d : ℕ) (b : Bool) → (b'-' == d) ≡ false → lacks d (sign b) ≡ true
unfolding lacks
sign-lacks d true h = ground arith
sign-lacks d false h = refl

pub item-lacks_comma : (item : Item) → IsPlainItem item → lacks b',' (plain_item item) ≡ true
unfolding lacks
item-lacks_comma item h =
    lacks-append b',' (sign item.exclude ++ item.kind) (b':' ∷ join_text b'|' item.ids)
      (lacks-append b',' (sign item.exclude) item.kind (sign-lacks b',' item.exclude refl)
        (kind-lacks b',' item.kind refl h.plain))
      (lacks-join_text b',' b'|' item.ids refl (ids_lack_comma item.ids h.ids_plain))

pub items_lack_comma :
    (items : List Item) → All IsPlainItem items → All (λ t. lacks b',' t ≡ true) (plain_items items)
items_lack_comma [] h = tt
items_lack_comma (item ∷ items) h = (item-lacks_comma item h.0, items_lack_comma items h.1)

pub split-ids :
    (ids : List Text) → ids ≢ [] → All IsPlainId ids → split b'|' (join_text b'|' ids) ≡ ids
split-ids [] ne h = absurd (ne refl)
split-ids (id ∷ ids) ne h = split-join_text b'|' id ids h.0.1 (ids_lack_bar ids h.1)

-- No item is empty.
item_not_empty : (b : Bool) (kind rest : Text) → is_empty (sign b ++ kind ++ b':' ∷ rest) ≡ false
item_not_empty true kind rest = refl
item_not_empty false [] rest = refl
item_not_empty false (c ∷ kind) rest = refl

pub not_empty-plain_items : (items : List Item) → not_empty (plain_items items) ≡ plain_items items
unfolding not_empty
not_empty-plain_items [] = refl
not_empty-plain_items (item ∷ items) =
    rw
      (item_not_empty item.exclude item.kind (join_text b'|' item.ids), not_empty-plain_items items)
      refl

join_prefix :
    (d : ℕ) (pre id : Text) (ids : List Text)
    → pre ++ b':' ∷ join_text d (id ∷ ids) ≡ join_text d ((pre ++ b':' ∷ id) ∷ ids)
unfolding join_text
join_prefix d pre id [] = refl
join_prefix d pre id (t ∷ ts) = sym (append_assoc pre (b':' ∷ id) (d ∷ join_text d (t ∷ ts)))

item_head-lacks :
    (item : Item) (id : Text)
    → IsPlainItem item
    → lacks b'|' id ≡ true
    → lacks b'|' ((sign item.exclude ++ item.kind) ++ b':' ∷ id) ≡ true
unfolding lacks
item_head-lacks item id h k =
    lacks-append b'|' (sign item.exclude ++ item.kind) (b':' ∷ id)
      (lacks-append b'|' (sign item.exclude) item.kind (sign-lacks b'|' item.exclude refl)
        (kind-lacks b'|' item.kind refl h.plain))
      k

split_count :
    (item : Item) (ids : List Text)
    → IsPlainItem item
    → ids ≢ []
    → All IsPlainId ids
    → length (split b'|' ((sign item.exclude ++ item.kind) ++ b':' ∷ join_text b'|' ids))
      ≡ length ids
split_count item [] h ne k = absurd (ne refl)
split_count item (id ∷ ids) h ne k =
    let pre = sign item.exclude ++ item.kind in
    ap (λ t. length (split b'|' t)) (join_prefix b'|' pre id ids)
    ∙ ap length (
        split-join_text b'|' (pre ++ b':' ∷ id) ids (item_head-lacks item id h k.0.1)
          (ids_lack_bar ids k.1))

-- How many values the items name.
abbrev pub total_ids : List Item → ℕ
total_ids [] = 0
total_ids (item ∷ items) = length item.ids + total_ids items

pub count_values-plain_items :
    (items : List Item) → All IsPlainItem items → count_values (plain_items items) ≡ total_ids items
unfolding count_values
count_values-plain_items [] h = refl
count_values-plain_items (item ∷ items) h = omega (
  arith,
  split_count item item.ids h.0 h.0.some_ids h.0.ids_plain,
  count_values-plain_items items h.1,
)
