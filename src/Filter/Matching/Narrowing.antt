-- ===== src/Filter/Matching/Narrowing.antt =====
-- What one item leaves of the matched titles: a step of `matched_without` of src/filter.rs.
use Prim.Native.Nat.{bit_and, bit_or}
use den_atlas.Prelude.{
  ℕ, zero, suc, ◌/◌, ◌%◌, ◌*◌, ◌<◌, ◌^◌, ◌≡◌, ◌∙◌, ap, Bool, true, false, not, ◌&&◌, ◌||◌, [], ◌∷◌,
  Option, none, some, arith, length, if◌then◌else◌,
}
use den_atlas.Prelude.Binary.{complement, test_bit, test_bit-bit_and, test_bit-complement}
use den_atlas.Filter.Bits.{Bits, has, update}
use den_atlas.Filter.Bits.Membership.{has-test_at, test_at}
use den_atlas.Filter.Bits.Rows.{IsWords}
use den_atlas.Filter.Values.Sets.{Fits, update-Fits, bit_and_fits, bit_or_fits}
use den_atlas.Filter.Values.Shapes.{Holds}
use den_atlas.Filter.Matching.{Matched, and_not, with_likely, narrow}
use den_atlas.Filter.Matching.Items.{has-union, has-meet, has_some}

clear_digit :
    (x y j : ℕ)
    → y < 2 ^ 64
    → j < 64
    → test_bit (and_not x y) j ≡ (test_bit x j && not (test_bit y j))
clear_digit x y j h k =
    test_bit-bit_and x (complement 64 y) j
    ∙ ap (λ b. test_bit x j && b) (test_bit-complement 64 y j h k)

and_not_fits : (x y : ℕ) → x < 2 ^ 64 → y < 2 ^ 64 → and_not x y < 2 ^ 64
and_not_fits x y h k = bit_and_fits x (complement 64 y) h (omega arith)

test_at-clear :
    (a b : Bits) (i j : ℕ)
    → length a ≡ length b
    → IsWords b
    → j < 64
    → i < length a
    → test_at (update and_not a b) i j ≡ (test_at a i j && not (test_at b i j))
unfolding test_at update
test_at-clear [] b i j e w h k = absurd (omega arith)
test_at-clear (x ∷ a) [] i j e w h k = absurd (omega arith)
test_at-clear (x ∷ a) (y ∷ b) zero j e w h k = clear_digit x y j w.0 h
test_at-clear (x ∷ a) (y ∷ b) (suc i) j e w h k =
    test_at-clear a b i j (omega arith) w.1 h (omega arith)

has-clear :
    (n : ℕ) (a b : Bits) (r : ℕ)
    → Fits n a
    → Fits n b
    → r < 64 * n
    → has (update and_not a b) r ≡ (has a r && not (has b r))
has-clear n a b r h k lt =
    rw (has-test_at (update and_not a b) r, has-test_at a r, has-test_at b r)
      (test_at-clear a b (r / 64) (r % 64) (omega (arith, h.0, k.0)) k.1 (omega arith)
        (omega (arith, h.0)))

abbrev pub FitsMatched : ℕ → Matched → Type 0
FitsMatched n m = Fits n m.sure × Fits n m.any

with_likely-Fits :
    (n : ℕ) (value : Bits) (o : Option Bits)
    → Fits n value
    → Holds (Fits n) o
    → Fits n (with_likely value o)
with_likely-Fits n value none h k = h
with_likely-Fits n value (some b) h k = update-Fits bit_or n value b bit_or_fits h k

has-with_likely :
    (n : ℕ) (value : Bits) (o : Option Bits) (r : ℕ)
    → Fits n value
    → Holds (Fits n) o
    → r < 64 * n
    → has (with_likely value o) r ≡ (has value r || has_some o r)
has-with_likely n value none r h k lt = ground arith
has-with_likely n value (some b) r h k lt = has-union n value b r h k lt

pub narrow-Fits :
    (n : ℕ) (exclude : Bool) (value known : Bits) (likely : Option Bits) (m : Matched)
    → Fits n value
    → Fits n known
    → Holds (Fits n) likely
    → FitsMatched n m
    → FitsMatched n (narrow exclude value known likely m)
unfolding narrow
narrow-Fits n true value known likely m v k l (sure, any) =
    let clear = update-Fits and_not n known value and_not_fits k v in
    (
      update-Fits bit_and n m.sure _ bit_and_fits sure clear,
      update-Fits bit_and n m.any _ bit_and_fits any clear,
    )
narrow-Fits n false value known likely m v k l (sure, any) = (
  update-Fits bit_and n m.sure value bit_and_fits sure v,
  update-Fits bit_and n m.any (with_likely value likely) bit_and_fits any
      (with_likely-Fits n value likely v l),
)

pub has-narrow :
    (n : ℕ) (exclude : Bool) (value known : Bits) (likely : Option Bits) (m : Matched) (r : ℕ)
    → Fits n value
    → Fits n known
    → Holds (Fits n) likely
    → FitsMatched n m
    → r < 64 * n
    → (has (narrow exclude value known likely m).sure r
        ≡ (has m.sure r && (if exclude then has known r && not (has value r) else has value r)))
      × (has (narrow exclude value known likely m).any r ≡ (
          has m.any r
          && (if exclude
              then has known r && not (has value r)
              else (has value r || has_some likely r))))
unfolding narrow
has-narrow n true value known likely m r v k l (sure, any) lt =
    let clear = update-Fits and_not n known value and_not_fits k v in
    let left = has-clear n known value r k v lt in
    (
      has-meet n m.sure (update and_not known value) r sure clear lt
          ∙ ap (λ b. has m.sure r && b) left,
      has-meet n m.any (update and_not known value) r any clear lt
          ∙ ap (λ b. has m.any r && b) left,
    )
has-narrow n false value known likely m r v k l (sure, any) lt = (
  has-meet n m.sure value r sure v lt,
  has-meet n m.any (with_likely value likely) r any (with_likely-Fits n value likely v l) lt
      ∙ ap (λ b. has m.any r && b) (has-with_likely n value likely r v l lt),
)
