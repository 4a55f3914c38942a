-- ===== src/Filter/Matching/Counts.antt =====
-- How many titles match, and how many of them only tentatively: `counted` of src/filter.rs.
use den_atlas.Prelude.{
  ℕ, zero, suc, ◌+◌, ◌*◌, ◌<◌, ◌≡◌, ◌∙◌, ap, refl, sym, Bool, true, false, not, ◌&&◌, ◌||◌, List,
  [], ◌∷◌, Option, none, some, arith, length,
}
use den_atlas.Filter.Spec.{Spec}
use den_atlas.Filter.Bits.{Bits, has, and_count}
use den_atlas.Filter.Bits.Words.{rows_from, rows_from-cong}
use den_atlas.Filter.Bits.Counting.{and_count-rows_from}
use den_atlas.Filter.State.{Context, words}
use den_atlas.Filter.Values.Sets.{Fits}
use den_atlas.Filter.Values.Shapes.{Holds, IsShaped}
use den_atlas.Filter.Matching.{Item, Matched, counted, likely_total, matched_without}
use den_atlas.Filter.Matching.Items.{has_some}
use den_atlas.Filter.Matching.Rows.{
  surely, possibly, every_kept, has-matched_without, matched_without-Fits,
}

surely→possibly :
    (c : Context) (s : Spec) (item : Item) (r : ℕ)
    → surely c s item r ≡ true
    → possibly c s item r ≡ true
surely→possibly c s item r h = ground arith

every_surely :
    (c : Context) (drop : Spec → Item → Bool) (applied : List (Spec × Item)) (r : ℕ)
    → every_kept drop (λ s item. surely c s item r) applied ≡ true
    → every_kept drop (λ s item. possibly c s item r) applied ≡ true
every_surely c drop [] r h = refl
every_surely c drop ((s, item) ∷ applied) r h =
    ground (arith, surely→possibly c s item r, every_surely c drop applied r)

-- What matches for certain is among all that match.
pub sure-any :
    (c : Context) (applied : List (Spec × Item)) (drop : Spec → Item → Bool) (r : ℕ)
    → IsShaped c
    → r < 64 * words c
    → has (matched_without c applied drop).sure r ≡ true
    → has (matched_without c applied drop).any r ≡ true
sure-any c applied drop r h lt e =
    let rows = has-matched_without c applied drop r h lt in
    ground (arith, rows.0, rows.1, every_surely c drop applied r)

-- Counting rows of two tests.
rows_either :
    (base n : ℕ) (p q : ℕ → Bool)
    → ((i : ℕ) → i < n → (p i && q i) ≡ false)
    → length (rows_from base n λ i. p i || q i)
      ≡ length (rows_from base n p) + length (rows_from base n q)
unfolding rows_from
rows_either base zero p q h = refl
rows_either base (suc n) p q h = ground (
  arith,
  h 0 (omega arith),
  rows_either (suc base) n (λ i. p (suc i)) (λ i. q (suc i)) (λ i lt. h (suc i) (omega arith)),
)

rows_apart :
    (base n : ℕ) (p q : ℕ → Bool)
    → ((i : ℕ) → i < n → q i ≡ true → p i ≡ true)
    → length (rows_from base n λ i. p i && not (q i)) + length (rows_from base n q)
      ≡ length (rows_from base n p)
unfolding rows_from
rows_apart base zero p q h = refl
rows_apart base (suc n) p q h = ground (
  arith,
  h 0 (omega arith),
  rows_apart (suc base) n (λ i. p (suc i)) (λ i. q (suc i)) (λ i lt. h (suc i) (omega arith)),
)

-- How many rows of `n` words pass the test.
abbrev pub count_rows : ℕ → (ℕ → Bool) → ℕ
count_rows n p = length (rows_from 0 (64 * n) p)

and_count-Fits :
    (n : ℕ) (a b : Bits)
    → Fits n a
    → Fits n b
    → and_count a b ≡ count_rows n λ r. has a r && has b r
and_count-Fits n a b h k =
    and_count-rows_from a b (omega (arith, h.0, k.0))
    ∙ ap (λ m. count_rows m λ r. has a r && has b r) h.0

no_row :
    (base n : ℕ) (p : ℕ → Bool) → ((i : ℕ) → i < n → p i ≡ false) → length (rows_from base n p) ≡ 0
unfolding rows_from
no_row base zero p h = refl
no_row base (suc n) p h = ground (
  arith,
  h 0 (omega arith),
  no_row (suc base) n (λ i. p (suc i)) (λ i lt. h (suc i) (omega arith)),
)

likely_total-Fits :
    (n : ℕ) (any : Bits) (o : Option Bits)
    → Fits n any
    → Holds (Fits n) o
    → likely_total any o ≡ count_rows n λ r. has any r && has_some o r
unfolding likely_total
likely_total-Fits n any none h k = sym (no_row 0 (64 * n) _ (λ i lt. ground arith))
likely_total-Fits n any (some l) h k = and_count-Fits n any l h k

-- The rows that a value has in the matched titles.
abbrev pub in_either : Matched → Bits → Option Bits → ℕ → Bool
in_either base value likely r = has base.any r && (has value r || has_some likely r)

-- Of them those that it has for certain.
abbrev pub in_both : Matched → Bits → ℕ → Bool
in_both base value r = has base.sure r && has value r

total_rows :
    (n : ℕ) (base : Matched) (value : Bits) (likely : Option Bits)
    → Fits n base.any
    → Fits n value
    → Holds (Fits n) likely
    → ((r : ℕ) → r < 64 * n → (has value r && has_some likely r) ≡ false)
    → and_count base.any value + likely_total base.any likely
      ≡ count_rows n (in_either base value likely)
total_rows n base value likely f v l apart = omega (
  arith,
  and_count-Fits n base.any value f v,
  likely_total-Fits n base.any likely f l,
  rows_either 0 (64 * n) (λ r. has base.any r && has value r)
      (λ r. has base.any r && has_some likely r)
      (λ i lt. both_apart (has base.any i) (has value i) (has_some likely i) (apart i lt)),
  ap length (
      rows_from-cong 0 (64 * n) _ (in_either base value likely)
        (λ i lt. and_or (has base.any i) (has value i) (has_some likely i))),
)
  where
    both_apart : (m v l : Bool) → (v && l) ≡ false → ((m && v) && (m && l)) ≡ false
    both_apart m v l h = ground arith

    and_or : (m v l : Bool) → ((m && v) || (m && l)) ≡ (m && (v || l))
    and_or m v l = ground arith

-- A value is counted with the titles that match and carry it in either tier, and as likely with those of them that do not
-- both match and carry it for certain. The value's tiers share no title.
pub counted_lem :
    (c : Context) (applied : List (Spec × Item)) (drop : Spec → Item → Bool) (value : Bits)
    (likely : Option Bits)
    → IsShaped c
    → Fits (words c) value
    → Holds (Fits (words c)) likely
    → ((r : ℕ) → r < 64 * words c → (has value r && has_some likely r) ≡ false)
    → ((counted (matched_without c applied drop) value likely).total
        ≡ count_rows (words c) (in_either (matched_without c applied drop) value likely))
      × ((counted (matched_without c applied drop) value likely).likely
          ≡ count_rows (words c) λ r.
            in_either (matched_without c applied drop) value likely r
            && not (in_both (matched_without c applied drop) value r))
unfolding counted
counted_lem c applied drop value likely h v l apart =
    let base = matched_without c applied drop in
    let fits = matched_without-Fits c applied drop h in
    let total = total_rows (words c) base value likely fits.1 v l apart in
    (
      total,
      omega (
        arith,
        total,
        and_count-Fits (words c) base.sure value fits.0 v,
        rows_apart 0 (64 * words c) (in_either base value likely) (in_both base value) (λ i lt e.
            sure_counts (has base.sure i) (has base.any i) (has value i) (has_some likely i)
              (sure-any c applied drop i h lt) e),
      ),
    )
  where
    sure_counts :
        (s a v l : Bool) → (s ≡ true → a ≡ true) → (s && v) ≡ true → (a && (v || l)) ≡ true
    sure_counts s a v l h e = ground arith
