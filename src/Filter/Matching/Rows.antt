-- ===== src/Filter/Matching/Rows.antt =====
-- Which titles a selection matches, row by row: `matched_without` of src/filter.rs.
use Prim.Native.Nat.{bit_and}
use den_atlas.Prelude.{
  ℕ, ◌*◌, ◌<◌, ◌≡◌, refl, sym, Bool, true, false, not, ◌&&◌, ◌||◌, List, [], ◌∷◌, Option, none,
  some, arith, if◌then◌else◌,
}
use den_atlas.Filter.Spec.{Spec}
use den_atlas.Filter.Bits.{Bits, has}
use den_atlas.Filter.State.{Context, words, of_scope}
use den_atlas.Filter.Values.{value_bits}
use den_atlas.Filter.Values.Sets.{Fits, update-Fits, bit_and_fits}
use den_atlas.Filter.Values.Shapes.{Holds, IsShaped, of_scope-Fits}
use den_atlas.Filter.Matching.{
  Item, first_id, item_bits, item_likely, Matched, apply_item, apply_items, restrict, admitted,
  matched_without,
}
use den_atlas.Filter.Matching.Items.{
  has-meet, carries_one, leans, item_bits-Fits, has-item_bits, item_likely-Fits,
  has_some-item_likely,
}
use den_atlas.Filter.Matching.Narrowing.{FitsMatched, narrow-Fits, has-narrow}

-- The kind has something on record for the title.
abbrev pub known_for : Context → Spec → Item → ℕ → Bool
known_for c s item r = has (value_bits c s (first_id item.ids)).1 r

-- A title that matches an item for certain, and one that may: an excluded value leaves the titles that
-- are known for the kind without it.
abbrev pub surely : Context → Spec → Item → ℕ → Bool
surely c s item r =
    if item.exclude
    then known_for c s item r && not (carries_one c s item.ids r)
    else carries_one c s item.ids r

abbrev pub possibly : Context → Spec → Item → ℕ → Bool
possibly c s item r =
    if item.exclude
    then known_for c s item r && not (carries_one c s item.ids r)
    else (carries_one c s item.ids r || leans c s item.ids r)

abbrev pub allows : Option Bits → ℕ → Bool
allows none r = true
allows (some m) r = has m r

-- A title of the scope that the policy admits.
abbrev pub is_admitted : Context → ℕ → Bool
is_admitted c r = has (of_scope c) r && allows c.maturity r

-- Every item that is not dropped.
abbrev pub every_kept : (Spec → Item → Bool) → (Spec → Item → Bool) → List (Spec × Item) → Bool
every_kept drop holds [] = true
every_kept drop holds ((s, item) ∷ applied) =
    (drop s item || holds s item) && every_kept drop holds applied

apply_item-Fits :
    (c : Context) (s : Spec) (item : Item) (m : Matched)
    → IsShaped c
    → FitsMatched (words c) m
    → FitsMatched (words c) (apply_item c s item m)
unfolding apply_item
apply_item-Fits c s item m h f =
    let value = item_bits-Fits c s item h in
    narrow-Fits (words c) item.exclude (item_bits c s item).0 (item_bits c s item).1
      (item_likely c s item) m value.0 value.1 (item_likely-Fits c s item h) f

item_bits-known :
    (c : Context) (s : Spec) (item : Item) (r : ℕ)
    → has (item_bits c s item).1 r ≡ known_for c s item r
unfolding item_bits
item_bits-known c s item r = refl

tests_agree :
    (b k v l k' v' l' : Bool) (x y m n : Bool)
    → k ≡ k'
    → v ≡ v'
    → l ≡ l'
    → (x ≡ (m && (if b then k && not v else v))) × (y ≡ (n && (if b then k && not v else (v || l))))
    → (x ≡ (m && (if b then k' && not v' else v')))
      × (y ≡ (n && (if b then k' && not v' else (v' || l'))))
tests_agree b k v l k' v' l' x y m n e f g h = ground arith

has-apply_item :
    (c : Context) (s : Spec) (item : Item) (m : Matched) (r : ℕ)
    → IsShaped c
    → FitsMatched (words c) m
    → r < 64 * words c
    → (has (apply_item c s item m).sure r ≡ (has m.sure r && surely c s item r))
      × (has (apply_item c s item m).any r ≡ (has m.any r && possibly c s item r))
unfolding apply_item
has-apply_item c s item m r h f lt =
    let value = item_bits-Fits c s item h in
    tests_agree item.exclude _ _ _ (known_for c s item r) (carries_one c s item.ids r)
      (leans c s item.ids r) _ _ (has m.sure r) (has m.any r) (item_bits-known c s item r)
      (has-item_bits c s item r h lt) (has_some-item_likely c s item r h lt)
      (has-narrow (words c) item.exclude (item_bits c s item).0 (item_bits c s item).1
        (item_likely c s item) m r value.0 value.1 (item_likely-Fits c s item h) f lt)

-- What is left after all items.
apply_if-Fits :
    (c : Context) (s : Spec) (item : Item) (m : Matched) (b : Bool)
    → IsShaped c
    → FitsMatched (words c) m
    → FitsMatched (words c) (if b then m else apply_item c s item m)
apply_if-Fits c s item m true h f = f
apply_if-Fits c s item m false h f = apply_item-Fits c s item m h f

has-apply_if :
    (c : Context) (s : Spec) (item : Item) (m : Matched) (b : Bool) (r : ℕ)
    → IsShaped c
    → FitsMatched (words c) m
    → r < 64 * words c
    → (has (if b then m else apply_item c s item m).sure r
        ≡ (has m.sure r && (b || surely c s item r)))
      × (has (if b then m else apply_item c s item m).any r
          ≡ (has m.any r && (b || possibly c s item r)))
has-apply_if c s item m true r h f lt = (ground arith, ground arith)
has-apply_if c s item m false r h f lt = has-apply_item c s item m r h f lt

pub apply_items-Fits :
    (c : Context) (drop : Spec → Item → Bool) (applied : List (Spec × Item)) (m : Matched)
    → IsShaped c
    → FitsMatched (words c) m
    → FitsMatched (words c) (apply_items c drop applied m)
unfolding apply_items
apply_items-Fits c drop [] m h f = f
apply_items-Fits c drop ((s, item) ∷ applied) m h f =
    apply_items-Fits c drop applied (if drop s item then m else apply_item c s item m) h
      (apply_if-Fits c s item m (drop s item) h f)

has-apply_items :
    (c : Context) (drop : Spec → Item → Bool) (applied : List (Spec × Item)) (m : Matched) (r : ℕ)
    → IsShaped c
    → FitsMatched (words c) m
    → r < 64 * words c
    → (has (apply_items c drop applied m).sure r
        ≡ (has m.sure r && every_kept drop (λ s item. surely c s item r) applied))
      × (has (apply_items c drop applied m).any r
          ≡ (has m.any r && every_kept drop (λ s item. possibly c s item r) applied))
unfolding apply_items
has-apply_items c drop [] m r h f lt = (ground arith, ground arith)
has-apply_items c drop ((s, item) ∷ applied) m r h f lt =
    let next = (if drop s item then m else apply_item c s item m) in
    let first = has-apply_if c s item m (drop s item) r h f lt in
    let later =
      has-apply_items c drop applied next r h (apply_if-Fits c s item m (drop s item) h f) lt in
    (and_step _ _ _ _ _ first.0 later.0, and_step _ _ _ _ _ first.1 later.1)
  where
    and_step : (x y m a b : Bool) → y ≡ (m && a) → x ≡ (y && b) → x ≡ (m && (a && b))
    and_step x y m a b e f = ground arith

restrict-Fits :
    (n : ℕ) (rows : Bits) (o : Option Bits)
    → Fits n rows
    → Holds (Fits n) o
    → Fits n (restrict rows o)
unfolding restrict
restrict-Fits n rows none h k = h
restrict-Fits n rows (some m) h k = update-Fits bit_and n rows m bit_and_fits h k

has-restrict :
    (n : ℕ) (rows : Bits) (o : Option Bits) (r : ℕ)
    → Fits n rows
    → Holds (Fits n) o
    → r < 64 * n
    → has (restrict rows o) r ≡ (has rows r && allows o r)
unfolding restrict
has-restrict n rows none r h k lt = ground arith
has-restrict n rows (some m) r h k lt = has-meet n rows m r h k lt

pub admitted-Fits : (c : Context) → IsShaped c → Fits (words c) (admitted c)
admitted-Fits c h =
    restrict-Fits (words c) (of_scope c) c.maturity (of_scope-Fits c h) h.fits_maturity

has-admitted :
    (c : Context) (r : ℕ) → IsShaped c → r < 64 * words c → has (admitted c) r ≡ is_admitted c r
has-admitted c r h lt =
    has-restrict (words c) (of_scope c) c.maturity r (of_scope-Fits c h) h.fits_maturity lt

pub matched_without-Fits :
    (c : Context) (applied : List (Spec × Item)) (drop : Spec → Item → Bool)
    → IsShaped c
    → FitsMatched (words c) (matched_without c applied drop)
unfolding matched_without
matched_without-Fits c applied drop h =
    apply_items-Fits c drop applied _ h (admitted-Fits c h, admitted-Fits c h)

-- A title of the scope is matched exactly if the policy admits it and every item that is not dropped holds of it:
-- for certain among the sure, and at least tentatively among all. An excluded item holds of a title that is known for
-- the kind and carries none of its values.
pub has-matched_without :
    (c : Context) (applied : List (Spec × Item)) (drop : Spec → Item → Bool) (r : ℕ)
    → IsShaped c
    → r < 64 * words c
    → (has (matched_without c applied drop).sure r
        ≡ (is_admitted c r && every_kept drop (λ s item. surely c s item r) applied))
      × (has (matched_without c applied drop).any r
          ≡ (is_admitted c r && every_kept drop (λ s item. possibly c s item r) applied))
unfolding matched_without
has-matched_without c applied drop r h lt =
    rw (sym (has-admitted c r h lt))
      (has-apply_items c drop applied _ r h (admitted-Fits c h, admitted-Fits c h) lt)
