-- ===== src/Filter/Bits/Membership.antt =====
-- What a set of rows holds: `set` and `has` of src/filter.rs.
use Prim.Native.Nat.{bit_and, bit_or}
use den_atlas.Prelude.{
  ℕ, zero, suc, ◌*◌, ◌/◌, ◌%◌, ◌^◌, ◌<◌, ◌≡◌, ◌≢◌, ◌∙◌, ap, refl, Bool, false, not, ◌||◌, [], ◌∷◌,
  none, some, arith, length, set, get_elem?, ◌==◌, ==_iff, inl, inr, Option-cases, ℕ_discrete, sym,
}
use den_atlas.Prelude.Binary.{test_bit, test_bit-bit_or, test_bit-power, bit_and-power}
use den_atlas.Filter.Bits.{Bits, set_bit, has, update}

-- Digit j of word i.
unfoldable pub test_at : Bits → ℕ → ℕ → Bool
test_at [] i j = false
test_at (w ∷ ws) zero j = test_bit w j
test_at (w ∷ ws) (suc i) j = test_at ws i j

test_at-get_elem? :
    (bits : Bits) (i j : ℕ)
    → elim (get_elem? bits i) [ none ↦ false | some w ↦ not (bit_and w (2 ^ j) == 0) ]
      ≡ test_at bits i j
unfolding test_at
test_at-get_elem? [] i j = refl
test_at-get_elem? (w ∷ ws) zero j = bit_and-power w j
test_at-get_elem? (w ∷ ws) (suc i) j = test_at-get_elem? ws i j

pub has-test_at : (bits : Bits) (row : ℕ) → has bits row ≡ test_at bits (row / 64) (row % 64)
unfolding has
has-test_at bits row = test_at-get_elem? bits (row / 64) (row % 64)

-- Word i is as `w` says, and all others as before.
test_at-set_self :
    (bits : Bits) (i j w v : ℕ)
    → get_elem? bits i ≡ some w
    → test_at (set bits i (bit_or w v)) i j ≡ (test_at bits i j || test_bit v j)
unfolding test_at
test_at-set_self [] i j w v h = absurd (ground arith)
test_at-set_self (x ∷ xs) zero j w v h = ground (arith, test_bit-bit_or x v j)
test_at-set_self (x ∷ xs) (suc i) j w v h = test_at-set_self xs i j w v h

test_at-set_ne : (bits : Bits) (i k j w : ℕ) → i ≢ k → test_at (set bits i w) k j ≡ test_at bits k j
unfolding test_at
test_at-set_ne [] i k j w h = refl
test_at-set_ne (x ∷ xs) zero zero j w h = absurd (h refl)
test_at-set_ne (x ∷ xs) zero (suc k) j w h = refl
test_at-set_ne (x ∷ xs) (suc i) zero j w h = refl
test_at-set_ne (x ∷ xs) (suc i) (suc k) j w h = test_at-set_ne xs i k j w λ e. h (ap suc e)

same_row : (r q : ℕ) → r / 64 ≡ q / 64 → (r % 64 == q % 64) ≡ (r == q)
same_row r q e = ground (arith, ==_iff (r % 64) (q % 64), ==_iff r q)

other_row : (r q : ℕ) → r / 64 ≢ q / 64 → (r == q) ≡ false
other_row r q h = ground arith

or_swap : (a b c d : Bool) → a ≡ b → c ≡ d → (a || c) ≡ (d || b)
or_swap a b c d e h = ground arith

test_at-set :
    (bits : Bits) (r q w : ℕ)
    → get_elem? bits (r / 64) ≡ some w
    → test_at (set bits (r / 64) (bit_or w (2 ^ (r % 64)))) (q / 64) (q % 64)
      ≡ (r == q || test_at bits (q / 64) (q % 64))
test_at-set bits r q w h =
    let after = set bits (r / 64) (bit_or w (2 ^ (r % 64))) in
    elim (ℕ_discrete (r / 64) (q / 64)) [
      | yes e ↦
          ap (λ k. test_at after k (q % 64)) (sym e)
          ∙ test_at-set_self bits (r / 64) (q % 64) w (2 ^ (r % 64)) h
          ∙ or_swap _ _ _ _ (ap (λ k. test_at bits k (q % 64)) e)
              (test_bit-power (r % 64) (q % 64) ∙ same_row r q e)
      | no e ↦ rw (other_row r q e) (test_at-set_ne bits (r / 64) (q / 64) (q % 64) _ e)
    ]

-- A set row is held, and whether any other is does not change.
pub has-set_bit :
    (bits after : Bits) (r q : ℕ)
    → set_bit bits r ≡ some after
    → has after q ≡ (r == q || has bits q)
unfolding set_bit
has-set_bit bits after r q h = elim (Option-cases (get_elem? bits (r / 64))) [
  | inl e ↦ absurd (ground arith)
  | inr (w, e) ↦
      rw (has-test_at after q, has-test_at bits q)
        (ap (λ bs. test_at bs (q / 64) (q % 64)) (ground arith) ∙ test_at-set bits r q w e)
]

-- Words with the same rows.
pub length-update : (f : ℕ → ℕ → ℕ) (a b : Bits) → length (update f a b) ≡ length a
unfolding update
length-update f [] b = refl
length-update f (x ∷ a) [] = refl
length-update f (x ∷ a) (y ∷ b) = ap suc (length-update f a b)

module _ (f : ℕ → ℕ → ℕ) (g : Bool → Bool → Bool)
    (digit : (x y j : ℕ) → j < 64 → test_bit (f x y) j ≡ g (test_bit x j) (test_bit y j)) where
  test_at-update :
      (a b : Bits) (i j : ℕ)
      → length a ≡ length b
      → j < 64
      → i < length a
      → test_at (update f a b) i j ≡ g (test_at a i j) (test_at b i j)
  unfolding test_at update
  test_at-update [] b i j e h k = absurd (omega arith)
  test_at-update (x ∷ a) [] i j e h k = absurd (omega arith)
  test_at-update (x ∷ a) (y ∷ b) zero j e h k = digit x y j h
  test_at-update (x ∷ a) (y ∷ b) (suc i) j e h k =
      test_at-update a b i j (omega arith) h (omega arith)

  -- A row of the words is held as the digits of the two words say.
  pub has-update :
      (a b : Bits) (row : ℕ)
      → length a ≡ length b
      → row < 64 * length a
      → has (update f a b) row ≡ g (has a row) (has b row)
  has-update a b row e h =
      rw (has-test_at (update f a b) row, has-test_at a row, has-test_at b row)
        (test_at-update a b (row / 64) (row % 64) e (omega arith) (omega arith))
