-- ===== src/Filter/Matching/Items.antt =====
-- What an item's values select, row by row: `item_bits` and `item_likely` of src/filter.rs.
use Prim.Native.Nat.{bit_and, bit_or}
use den_atlas.Prelude.{
  ℕ, ◌*◌, ◌<◌, ◌≡◌, ◌∙◌, refl, Bool, false, ◌&&◌, ◌||◌, List, [], ◌∷◌, Option, none, some, arith,
}
use den_atlas.Prelude.Binary.{test_bit-bit_and, test_bit-bit_or}
use den_atlas.Prelude.Bytes.{Text}
use den_atlas.Filter.Spec.{Spec}
use den_atlas.Filter.Bits.{Bits, has, update}
use den_atlas.Filter.Bits.Membership.{has-update}
use den_atlas.Filter.State.{Context, words}
use den_atlas.Filter.Values.{value_bits, likely_bits}
use den_atlas.Filter.Values.Sets.{Fits, update-Fits, bit_or_fits}
use den_atlas.Filter.Values.Shapes.{Holds, IsShaped, value_bits-Fits, likely_bits-Fits}
use den_atlas.Filter.Matching.{
  Item, first_id, rest_of, add_values, item_bits, join_likely, add_likely, item_likely,
}

-- The union of two sets of the same words, and what both hold.
pub has-union :
    (n : ℕ) (a b : Bits) (r : ℕ)
    → Fits n a
    → Fits n b
    → r < 64 * n
    → has (update bit_or a b) r ≡ (has a r || has b r)
has-union n a b r h k lt =
    has-update bit_or (λ x y. x || y) (λ x y j _. test_bit-bit_or x y j) a b r
      (omega (arith, h.0, k.0)) (omega (arith, h.0))

pub has-meet :
    (n : ℕ) (a b : Bits) (r : ℕ)
    → Fits n a
    → Fits n b
    → r < 64 * n
    → has (update bit_and a b) r ≡ (has a r && has b r)
has-meet n a b r h k lt =
    has-update bit_and (λ x y. x && y) (λ x y j _. test_bit-bit_and x y j) a b r
      (omega (arith, h.0, k.0)) (omega (arith, h.0))

-- Some value of the rest of the ids is carried.
abbrev pub carries : Context → Spec → List Text → ℕ → Bool
carries c s [] r = false
carries c s (id ∷ ids) r = has (value_bits c s id).0 r || carries c s ids r

has-add_values :
    (c : Context) (s : Spec) (value : Bits) (ids : List Text) (r : ℕ)
    → IsShaped c
    → Fits (words c) value
    → r < 64 * words c
    → has (add_values c s value ids) r ≡ (has value r || carries c s ids r)
unfolding add_values
has-add_values c s value [] r h k lt = ground arith
has-add_values c s value (id ∷ ids) r h k lt =
    let more = value_bits-Fits c s id h in
    ground (
      arith,
      has-add_values c s (update bit_or value (value_bits c s id).0) ids r h
          (update-Fits bit_or (words c) value (value_bits c s id).0 bit_or_fits k more.0) lt,
      has-union (words c) value (value_bits c s id).0 r k more.0 lt,
    )

add_values-Fits :
    (c : Context) (s : Spec) (value : Bits) (ids : List Text)
    → IsShaped c
    → Fits (words c) value
    → Fits (words c) (add_values c s value ids)
unfolding add_values
add_values-Fits c s value [] h k = k
add_values-Fits c s value (id ∷ ids) h k =
    add_values-Fits c s (update bit_or value (value_bits c s id).0) ids h (
      update-Fits bit_or (words c) value (value_bits c s id).0 bit_or_fits k
        (value_bits-Fits c s id h).0)

pub item_bits-Fits :
    (c : Context) (s : Spec) (item : Item)
    → IsShaped c
    → Fits (words c) (item_bits c s item).0 × Fits (words c) (item_bits c s item).1
unfolding item_bits
item_bits-Fits c s item h =
    let first = value_bits-Fits c s (first_id item.ids) h in
    (
      add_values-Fits c s (value_bits c s (first_id item.ids)).0 (rest_of item.ids) h first.0,
      first.1,
    )

-- A row carries one of the ids. Without an id, it is the empty one that is looked up.
abbrev pub carries_one : Context → Spec → List Text → ℕ → Bool
carries_one c s [] r = has (value_bits c s []).0 r
carries_one c s (id ∷ ids) r = carries c s (id ∷ ids) r

first_or_rest :
    (c : Context) (s : Spec) (ids : List Text) (r : ℕ)
    → (has (value_bits c s (first_id ids)).0 r || carries c s (rest_of ids) r)
      ≡ carries_one c s ids r
unfolding first_id
first_or_rest c s [] r = ground arith
first_or_rest c s (id ∷ ids) r = refl

pub has-item_bits :
    (c : Context) (s : Spec) (item : Item) (r : ℕ)
    → IsShaped c
    → r < 64 * words c
    → has (item_bits c s item).0 r ≡ carries_one c s item.ids r
unfolding item_bits
has-item_bits c s item r h lt =
    has-add_values c s (value_bits c s (first_id item.ids)).0 (rest_of item.ids) r h
      (value_bits-Fits c s (first_id item.ids) h).0 lt
    ∙ first_or_rest c s item.ids r

abbrev pub has_some : Option Bits → ℕ → Bool
has_some none r = false
has_some (some b) r = has b r

-- Some value of the ids is carried tentatively.
abbrev pub leans : Context → Spec → List Text → ℕ → Bool
leans c s [] r = false
leans c s (id ∷ ids) r = has_some (likely_bits c s id) r || leans c s ids r

join_likely-Fits :
    (n : ℕ) (u o : Option Bits)
    → Holds (Fits n) u
    → Holds (Fits n) o
    → Holds (Fits n) (join_likely u o)
unfolding join_likely
join_likely-Fits n none none h k = tt
join_likely-Fits n (some u) none h k = h
join_likely-Fits n none (some o) h k = k
join_likely-Fits n (some u) (some o) h k = update-Fits bit_or n u o bit_or_fits h k

has_some-join_likely :
    (n : ℕ) (u o : Option Bits) (r : ℕ)
    → Holds (Fits n) u
    → Holds (Fits n) o
    → r < 64 * n
    → has_some (join_likely u o) r ≡ (has_some u r || has_some o r)
unfolding join_likely
has_some-join_likely n none none r h k lt = refl
has_some-join_likely n (some u) none r h k lt = ground arith
has_some-join_likely n none (some o) r h k lt = refl
has_some-join_likely n (some u) (some o) r h k lt = has-union n u o r h k lt

add_likely-Fits :
    (c : Context) (s : Spec) (u : Option Bits) (ids : List Text)
    → IsShaped c
    → Holds (Fits (words c)) u
    → Holds (Fits (words c)) (add_likely c s u ids)
unfolding add_likely
add_likely-Fits c s u [] h k = k
add_likely-Fits c s u (id ∷ ids) h k =
    add_likely-Fits c s (join_likely u (likely_bits c s id)) ids h
      (join_likely-Fits (words c) u (likely_bits c s id) k (likely_bits-Fits c s id h))

has_some-add_likely :
    (c : Context) (s : Spec) (u : Option Bits) (ids : List Text) (r : ℕ)
    → IsShaped c
    → Holds (Fits (words c)) u
    → r < 64 * words c
    → has_some (add_likely c s u ids) r ≡ (has_some u r || leans c s ids r)
unfolding add_likely
has_some-add_likely c s u [] r h k lt = ground arith
has_some-add_likely c s u (id ∷ ids) r h k lt =
    let more = likely_bits-Fits c s id h in
    ground (
      arith,
      has_some-add_likely c s (join_likely u (likely_bits c s id)) ids r h
          (join_likely-Fits (words c) u (likely_bits c s id) k more) lt,
      has_some-join_likely (words c) u (likely_bits c s id) r k more lt,
    )

pub item_likely-Fits :
    (c : Context) (s : Spec) (item : Item)
    → IsShaped c
    → Holds (Fits (words c)) (item_likely c s item)
unfolding item_likely
item_likely-Fits c s item h = add_likely-Fits c s none item.ids h tt

-- An item's tentative titles are those of its values.
pub has_some-item_likely :
    (c : Context) (s : Spec) (item : Item) (r : ℕ)
    → IsShaped c
    → r < 64 * words c
    → has_some (item_likely c s item) r ≡ leans c s item.ids r
unfolding item_likely
has_some-item_likely c s item r h lt = has_some-add_likely c s none item.ids r h tt lt
