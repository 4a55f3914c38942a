-- ===== src/Filter/Request/Items.antt =====
-- A selection as the canonical query writes it: src/filter.rs.
use den_atlas.Prelude.{
  ℕ, ◌/◌, ◌%◌, ◌<◌, ◌≡◌, ◌≢◌, ◌∙◌, ap, refl, sym, Bool, true, false, ◌&&◌, not, ◌||◌, List, [], ◌∷◌,
  ◌++◌, arith, All, ◌==◌, inl, inr, Bool-cases,
}
use mathlib.Core.List.{append_assoc, append-nil}
use den_atlas.Prelude.Bytes.{Text, starts_with}
use den_atlas.Prelude.Perms.{all}
use den_atlas.Prelude.Separators.{lacks}
use den_atlas.Query.{decoded_bytes, percent_decode}
use den_atlas.Query.Escapes.{percent_encode, decoded_bytes-kept, decoded_bytes-append, digit_of}
use den_atlas.Filter.Matching.{Item}
use den_atlas.Filter.Request.{
  is_kept, encode, encoded, sign, spelled, spelled_items, selection_text, join_text, spaces, decode,
}

-- A kind that needs no escapes.
abbrev pub plain_kind : Text → Bool
plain_kind kind = all is_kept kind

abbrev is_written : ℕ → Bool
is_written c = is_kept c || c == b'%'

pub lacks-all : (p : ℕ → Bool) (d : ℕ) (s : Text) → p d ≡ false → all p s ≡ true → lacks d s ≡ true
unfolding lacks
lacks-all p d [] h k = refl
lacks-all p d (c ∷ s) h k = ground (arith, lacks-all p d s, same c)
  where
    same : (c : ℕ) → c == d ≡ true → p c ≡ p d
    same c e = ap p (ground arith)

digit_kept : (n : ℕ) → n < 16 → is_kept (digit_of n) ≡ true
digit_kept n h = ground arith

encode-written : (s : Text) → All (λ c. c < 256) s → all is_written (encode s) ≡ true
unfolding encode percent_encode
encode-written [] h = refl
encode-written (c ∷ s) h = elim (Bool-cases (is_kept c)) [
  | inl e ↦ ground (arith, encode-written s h.1)
  | inr e ↦ ground (
    arith,
    encode-written s h.1,
    digit_kept (c / 16) (omega (arith, h.0)),
    digit_kept (c % 16) (omega arith),
  )
]

-- The bytes that a value decodes to, before they are read as text.
unfoldable value_bytes : Text → Text
unfolding spaces decoded_bytes
value_bytes v = decoded_bytes (spaces v)

-- The bytes `e` value_bytes to `s`, whatever follows.
abbrev Decodes : Text → Text → Type 0
Decodes e s = (t : Text) → value_bytes (e ++ t) ≡ s ++ value_bytes t

value_bytes-plus :
    (c : ℕ) (t : Text)
    → (c == b'%') ≡ false
    → (c == b'+') ≡ false
    → value_bytes (c ∷ t) ≡ c ∷ value_bytes t
unfolding value_bytes spaces
value_bytes-plus c t h k =
    ap (λ d. decoded_bytes (d ∷ spaces t)) {y = c} (ground arith)
    ∙ decoded_bytes-kept c (spaces t) h

cons-Decodes :
    (c : ℕ) (e s : Text)
    → (c == b'%') ≡ false
    → (c == b'+') ≡ false
    → Decodes e s
    → Decodes (c ∷ e) (c ∷ s)
cons-Decodes c e s h k d t = value_bytes-plus c (e ++ t) h k ∙ ap (λ u. c ∷ u) (d t)

append-Decodes : (e s f u : Text) → Decodes e s → Decodes f u → Decodes (e ++ f) (s ++ u)
append-Decodes e s f u d g t =
    ap value_bytes (append_assoc e f t)
    ∙ d (f ++ t)
    ∙ ap (λ v. s ++ v) (g t)
    ∙ sym (append_assoc s u (value_bytes t))

spaces-append : (s t : Text) → lacks b'+' s ≡ true → spaces (s ++ t) ≡ s ++ spaces t
unfolding spaces lacks
spaces-append [] t h = refl
spaces-append (c ∷ s) t h = ground (arith, spaces-append s t)

encode-Decodes : (s : Text) → All (λ c. c < 256) s → Decodes (encode s) s
unfolding value_bytes encode
encode-Decodes s h t =
    ap decoded_bytes
      (spaces-append (encode s) t (lacks-all is_written b'+' (encode s) refl (encode-written s h)))
    ∙ decoded_bytes-append is_kept s (spaces t) refl h

nil-Decodes : Decodes [] []
nil-Decodes t = refl

first_holds : (a b : Bool) → (a && b) ≡ true → a ≡ true
first_holds a b h = ground arith

second_holds : (a b : Bool) → (a && b) ≡ true → b ≡ true
second_holds a b h = ground arith

not_this : (p : ℕ → Bool) (d c : ℕ) → p d ≡ false → p c ≡ true → (c == d) ≡ false
not_this p d c h k = elim (Bool-cases (c == d)) [
  | inl e ↦ clash (p d) (p c) (ap p (ground arith)) h k
  | inr e ↦ e
]
  where
    clash : (x y : Bool) → y ≡ x → x ≡ false → y ≡ true → (c == d) ≡ false
    clash x y e f g = absurd (ground arith)

plain-Decodes : (s : Text) → plain_kind s ≡ true → Decodes s s
plain-Decodes [] h = nil-Decodes
plain-Decodes (c ∷ s) h =
    let kept = first_holds (is_kept c) (plain_kind s) h in
    cons-Decodes c s s (not_this is_kept b'%' c refl kept) (not_this is_kept b'+' c refl kept)
      (plain-Decodes s (second_holds (is_kept c) (plain_kind s) h))

-- The ids of an item can be told apart when they are joined.
abbrev pub IsPlainId : Text → Type 0
IsPlainId id = (lacks b',' id ≡ true) × (lacks b'|' id ≡ true) × All (λ c. c < 256) id

join_ids-Decodes :
    (ids : List Text)
    → All IsPlainId ids
    → Decodes (join_text b'|' (encoded ids)) (join_text b'|' ids)
unfolding join_text encoded
join_ids-Decodes [] h = nil-Decodes
join_ids-Decodes (id ∷ []) h = encode-Decodes id h.0.2
join_ids-Decodes (id ∷ next ∷ ids) h =
    append-Decodes (encode id) id _ _ (encode-Decodes id h.0.2)
      (cons-Decodes b'|' _ _ refl refl (join_ids-Decodes (next ∷ ids) h.1))

-- An item without escapes.
abbrev pub plain_item : Item → Text
plain_item item = sign item.exclude ++ item.kind ++ b':' ∷ join_text b'|' item.ids

sign-Decodes : (b : Bool) → Decodes (sign b) (sign b)
sign-Decodes true = cons-Decodes b'-' [] [] refl refl nil-Decodes
sign-Decodes false = nil-Decodes

-- An item that the canonical query can name: a kind of bytes that need no escape, not taken for an exclusion, and
-- ids that are there.
pub record IsPlainItem (item : Item) : Type 0 where
  pub plain : plain_kind item.kind ≡ true
  pub told : (item.exclude || not (starts_with (b'-' ∷ []) item.kind)) ≡ true
  pub some_ids : item.ids ≢ []
  pub ids_plain : All IsPlainId item.ids

spelled-Decodes : (item : Item) → IsPlainItem item → Decodes (spelled item) (plain_item item)
unfolding spelled
spelled-Decodes item h =
    append-Decodes _ _ _ _
      (append-Decodes (sign item.exclude) (sign item.exclude) item.kind item.kind
        (sign-Decodes item.exclude) (plain-Decodes item.kind h.plain))
      (cons-Decodes b':' _ _ refl refl (join_ids-Decodes item.ids h.ids_plain))

abbrev pub plain_items : List Item → List Text
plain_items [] = []
plain_items (item ∷ items) = plain_item item ∷ plain_items items

join_items-Decodes :
    (items : List Item)
    → All IsPlainItem items
    → Decodes (join_text b',' (spelled_items items)) (join_text b',' (plain_items items))
unfolding join_text spelled_items
join_items-Decodes [] h = nil-Decodes
join_items-Decodes (item ∷ []) h = spelled-Decodes item h.0
join_items-Decodes (item ∷ next ∷ items) h =
    append-Decodes (spelled item) (plain_item item) _ _ (spelled-Decodes item h.0)
      (cons-Decodes b',' _ _ refl refl (join_items-Decodes (next ∷ items) h.1))

value_bytes_nil : value_bytes [] ≡ []
unfolding value_bytes spaces decoded_bytes
value_bytes_nil = refl

value_bytes-selection_text :
    (items : List Item)
    → All IsPlainItem items
    → value_bytes (selection_text items) ≡ join_text b',' (plain_items items)
unfolding selection_text
value_bytes-selection_text items h =
    ap value_bytes (sym (append-nil (join_text b',' (spelled_items items))))
    ∙ join_items-Decodes items h []
    ∙ ap (λ t. join_text b',' (plain_items items) ++ t) value_bytes_nil
    ∙ append-nil (join_text b',' (plain_items items))

-- A selection without escapes.
abbrev pub unescaped : List Item → Text
unescaped items = join_text b',' (plain_items items)

-- A spelled selection decodes to its items without escapes, if those are UTF-8.
pub decode-selection_text :
    (utf8_lossy : Text → Text) (items : List Item)
    → All IsPlainItem items
    → utf8_lossy (unescaped items) ≡ unescaped items
    → decode utf8_lossy (selection_text items) ≡ unescaped items
unfolding decode percent_decode value_bytes
decode-selection_text utf8_lossy items h text =
    ap utf8_lossy (value_bytes-selection_text items h) ∙ text
