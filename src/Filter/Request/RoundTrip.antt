-- ===== src/Filter/Request/RoundTrip.antt =====
-- A canonical selection reads back as itself: the grammar of `sel` and `traits` in src/filter.rs.
use den_atlas.Prelude.{
  ◌≤◌, ◌≡◌, ◌≢◌, ◌∙◌, ap, refl, Bool, true, false, not, ◌&&◌, ◌||◌, List, [], ◌∷◌, ◌++◌, none, some,
  arith, All, length, ltb,
}
use den_atlas.Prelude.Bytes.{Text, split, strip_prefix, starts_with, same_text_refl}
use den_atlas.Prelude.Results.{ok}
use den_atlas.Prelude.Separators.{lacks, split_once-append}
use den_atlas.Filter.Matching.{Item}
use den_atlas.Filter.Request.{
  sign, selection_text, join_text, decode, Reader, read_ids, sorted_ids, make_item, read_parts,
  read_item, read_each, not_empty, sorted_items, max_selection, read_items,
}
use den_atlas.Filter.Request.Items.{
  plain_item, IsPlainItem, plain_items, unescaped, decode-selection_text,
}
use den_atlas.Filter.Request.Splitting.{
  split-ids, kind-lacks, item-lacks_comma, items_lack_comma, not_empty-plain_items,
  count_values-plain_items, split-join_text, total_ids,
}

module _ (normalise : Reader) (one_value : Text → List Text → Bool) where
  -- An item in canonical form: each id reads as itself under the kind, the ids are sorted and each once, and
  -- the kind takes as many.
  pub record IsReadable (item : Item) : Type 0 where
    pub is_plain : IsPlainItem item
    pub ids_read : All (λ id. normalise item.kind id ≡ ok (item.kind, id)) item.ids
    pub ids_sorted : sorted_ids item.ids ≡ item.ids
    pub ids_allowed : (ltb 1 (length item.ids) && one_value item.kind item.ids) ≡ false

  read_ids-next :
      (kind id : Text) (ids : List Text)
      → normalise kind id ≡ ok (kind, id)
      → read_ids normalise kind (some kind) ids ≡ ok (some kind, ids)
      → read_ids normalise kind (some kind) (id ∷ ids) ≡ ok (some kind, id ∷ ids)
  unfolding read_ids
  read_ids-next kind id ids h k = rw h (rw (same_text_refl kind, k) refl)

  read_ids-first :
      (kind id : Text) (ids : List Text)
      → normalise kind id ≡ ok (kind, id)
      → read_ids normalise kind (some kind) ids ≡ ok (some kind, ids)
      → read_ids normalise kind none (id ∷ ids) ≡ ok (some kind, id ∷ ids)
  unfolding read_ids
  read_ids-first kind id ids h k = rw h (rw k refl)

  read_ids-All :
      (kind : Text) (ids : List Text)
      → All (λ id. normalise kind id ≡ ok (kind, id)) ids
      → read_ids normalise kind (some kind) ids ≡ ok (some kind, ids)
  read_ids-All kind [] h = unfold read_ids in refl
  read_ids-All kind (id ∷ ids) h = read_ids-next kind id ids h.0 (read_ids-All kind ids h.1)

  read_ids-some :
      (kind : Text) (ids : List Text)
      → ids ≢ []
      → All (λ id. normalise kind id ≡ ok (kind, id)) ids
      → read_ids normalise kind none ids ≡ ok (some kind, ids)
  read_ids-some kind [] ne h = absurd (ne refl)
  read_ids-some kind (id ∷ ids) ne h = read_ids-first kind id ids h.0 (read_ids-All kind ids h.1)

  make_item-allowed :
      (exclude : Bool) (kind : Text) (ids : List Text)
      → (ltb 1 (length ids) && one_value kind ids) ≡ false
      → make_item one_value exclude kind ids
        ≡ ok record { kind = kind; exclude = exclude; ids = ids }
  unfolding make_item
  make_item-allowed exclude kind ids h = rw h refl

  read_parts-item :
      (item : Item)
      → IsReadable item
      → read_parts normalise one_value item.exclude (some (item.kind, join_text b'|' item.ids))
        ≡ ok item
  unfolding read_parts
  read_parts-item item h = rw (split-ids item.ids h.is_plain.some_ids h.is_plain.ids_plain) (
      rw (read_ids-some item.kind item.ids h.is_plain.some_ids h.ids_read)
        (rw h.ids_sorted (make_item-allowed item.exclude item.kind item.ids h.ids_allowed)))

  strip-positive :
      (kind rest : Text)
      → starts_with (b'-' ∷ []) kind ≡ false
      → strip_prefix (b'-' ∷ []) (kind ++ b':' ∷ rest) ≡ none
  unfolding strip_prefix starts_with
  strip-positive [] rest h = refl
  strip-positive (c ∷ kind) rest h = ground arith

  read_item-signed :
      (exclude : Bool) (kind rest : Text) (item : Item)
      → lacks b':' kind ≡ true
      → (exclude || not (starts_with (b'-' ∷ []) kind)) ≡ true
      → read_parts normalise one_value exclude (some (kind, rest)) ≡ ok item
      → read_item normalise one_value (sign exclude ++ kind ++ b':' ∷ rest) ≡ ok item
  unfolding read_item strip_prefix
  read_item-signed true kind rest item h t e = rw (split_once-append b':' kind rest h) e
  read_item-signed false kind rest item h t e =
      rw (strip-positive kind rest (ground arith)) (rw (split_once-append b':' kind rest h) e)

  read_item-plain_item :
      (item : Item) → IsReadable item → read_item normalise one_value (plain_item item) ≡ ok item
  read_item-plain_item item h =
      read_item-signed item.exclude item.kind (join_text b'|' item.ids) item
        (kind-lacks b':' item.kind refl h.is_plain.plain) h.is_plain.told (read_parts-item item h)

  read_each-plain_items :
      (items : List Item)
      → All IsReadable items
      → read_each normalise one_value (plain_items items) ≡ ok items
  unfolding read_each
  read_each-plain_items [] h = refl
  read_each-plain_items (item ∷ items) h =
      rw (read_item-plain_item item h.0) (rw (read_each-plain_items items h.1) refl)

  All-IsPlainItem : (items : List Item) → All IsReadable items → All IsPlainItem items
  All-IsPlainItem [] h = tt
  All-IsPlainItem (item ∷ items) h = (h.0.is_plain, All-IsPlainItem items h.1)

  raw_items :
      (items : List Item)
      → All IsPlainItem items
      → not_empty (split b',' (join_text b',' (plain_items items))) ≡ plain_items items
  raw_items [] h = unfold not_empty join_text split in refl
  raw_items (item ∷ items) h =
      ap not_empty (
        split-join_text b',' (plain_item item) (plain_items items) (item-lacks_comma item h.0)
          (items_lack_comma items h.1))
      ∙ not_empty-plain_items (item ∷ items)

  -- A selection in canonical form, spelled as the canonical query does and decoded, reads as itself: at most sixteen
  -- values, items and ids sorted and each once, each id read as itself under its kind, and no more ids in an item
  -- than its kind takes. A kind is of bytes that need no escape and is not taken for an exclusion, an item has an
  -- id, no id has a comma or a bar in it, and the text without its escapes is UTF-8. The reading of a kind and an
  -- id, and whether a kind takes a group, are any.
  pub read_items-selection_text :
      (utf8_lossy : Text → Text) (items : List Item)
      → All IsReadable items
      → sorted_items items ≡ items
      → total_ids items ≤ max_selection
      → utf8_lossy (unescaped items) ≡ unescaped items
      → read_items normalise one_value (decode utf8_lossy (selection_text items)) ≡ ok items
  unfolding read_items
  read_items-selection_text utf8_lossy items h sorted few text =
      let plain = All-IsPlainItem items h in
      rw (decode-selection_text utf8_lossy items plain text) (
        rw (raw_items items plain) (
          rw (count_values-plain_items items plain)
            (rw (not_less few) (rw (read_each-plain_items items h) (ap ok sorted)))))
    where
      not_less : total_ids items ≤ max_selection → ltb max_selection (total_ids items) ≡ false
      not_less le = ground arith
