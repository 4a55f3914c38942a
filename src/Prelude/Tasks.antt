-- ===== src/Prelude/Tasks.antt =====
-- Tasks that share a state, as a list of phases: how many are in a phase, and what a move of one
-- of them does to that number.
use Prim.Native.Nat.{ℕ, zero, suc, ◌+◌, ◌≤◌}
use mathlib.Core.Path.{◌≡◌, refl, ap}
use mathlib.Core.Bool.{Bool, true, false}
use mathlib.Core.List.{List, [], ◌∷◌, ◌++◌}
use mathlib.Core.Option.{some}
use native.Mathlib.Omega.{arith}
use den_atlas.Prelude.Tests.{if◌then◌else◌}
use den_atlas.Prelude.Lists.{length, get_elem?, set, replicate, All}

abbrev pub one_if : Bool → ℕ
one_if b = if b then 1 else 0

module _ {ℓ} {A : Type ℓ} (p : A → Bool) where
  unfoldable pub count : List A → ℕ
  count [] = 0
  count (x ∷ xs) = one_if (p x) + count xs

  pub count-set :
      (xs : List A) (i : ℕ) (old new : A)
      → get_elem? xs i ≡ some old
      → count (set xs i new) + one_if (p old) ≡ count xs + one_if (p new)
  unfolding count
  count-set [] i old new h = ground arith
  count-set (x ∷ xs) zero old new h = ground arith
  count-set (x ∷ xs) (suc i) old new h = ground (arith, count-set xs i old new h)

  pub count-le-length : (xs : List A) → count xs ≤ length xs
  unfolding count
  count-le-length [] = omega arith
  count-le-length (x ∷ xs) = ground (arith, count-le-length xs)

  -- A task in the phase is counted.
  pub count-ge : (xs : List A) (i : ℕ) (x : A) → get_elem? xs i ≡ some x → one_if (p x) ≤ count xs
  unfolding count
  count-ge [] i x h = ground arith
  count-ge (y ∷ ys) zero x h = ground arith
  count-ge (y ∷ ys) (suc i) x h = ground (arith, count-ge ys i x h)

  pub count-append : (xs ys : List A) → count (xs ++ ys) ≡ count xs + count ys
  unfolding count
  count-append [] ys = omega arith
  count-append (x ∷ xs) ys = omega (arith, count-append xs ys)

  -- Where at most one task is in the phase, two places that hold one are the same place.
  pub count_unique :
      (xs : List A) (i j : ℕ) (x y : A)
      → count xs ≤ 1
      → get_elem? xs i ≡ some x
      → p x ≡ true
      → get_elem? xs j ≡ some y
      → p y ≡ true
      → i ≡ j
  unfolding count
  count_unique [] i j x y h at is at' is' = ground arith
  count_unique (z ∷ zs) zero zero x y h at is at' is' = refl
  count_unique (z ∷ zs) zero (suc j) x y h at is at' is' = ground (arith, count-ge zs j y at')
  count_unique (z ∷ zs) (suc i) zero x y h at is at' is' = ground (arith, count-ge zs i x at)
  count_unique (z ∷ zs) (suc i) (suc j) x y h at is at' is' =
      ap suc (count_unique zs i j x y (omega arith) at is at' is')

  -- No task is counted where all are in a phase that does not count.
  pub count_none : (xs : List A) (a : A) → p a ≡ false → All (λ x. x ≡ a) xs → count xs ≡ 0
  unfolding count
  count_none [] a h all = refl
  count_none (x ∷ xs) a h all = ground (arith, all.0, count_none xs a h all.1)

  pub count-replicate : (n : ℕ) (x : A) → p x ≡ false → count (replicate n x) ≡ 0
  unfolding count
  count-replicate zero x h = refl
  count-replicate (suc n) x h = ground (arith, count-replicate n x h)

pub count_mono {ℓ} :
    {A : Type ℓ} (p q : A → Bool)
    → ((x : A) → one_if (p x) ≤ one_if (q x))
    → (xs : List A) → count p xs ≤ count q xs
unfolding count
count_mono p q h [] = omega arith
count_mono p q h (x ∷ xs) = omega (arith, h x, count_mono p q h xs)
