-- ===== src/Prelude/Perms.antt =====
-- Rearrangements of a list, and what all of its elements have in common.
use Prim.Native.Nat.{suc}
use mathlib.Core.Path.{◌≡◌, refl, ap, ◌∙◌}
use mathlib.Core.Logic.{∥∥₁_elim}
use mathlib.Core.Bool.{Bool, true, false, ◌&&◌, Bool-set}
use mathlib.Core.List.{List, [], ◌∷◌, ◌++◌}
use mathlib.Core.List.Perm
use mathlib.Core.List.{Perm, Permᴰ}
use native.Mathlib.Nat.{ℕ_set}
use native.Mathlib.Omega.{arith}
use mathlib.Core.Logic.{inl, inr}
use den_atlas.Prelude.Tests.{if◌then◌else◌, Bool-cases}
use den_atlas.Prelude.Lists.{length}

module _ {ℓ} {A : Type ℓ} where
  abbrev pub all : (A → Bool) → List A → Bool
  all f [] = true
  all f (x ∷ xs) = f x && all f xs

  pub all-append : (f : A → Bool) (xs ys : List A) → all f (xs ++ ys) ≡ (all f xs && all f ys)
  all-append f [] ys = refl
  all-append f (x ∷ xs) ys = ground (arith, all-append f xs ys)

  all-Permᴰ : (f : A → Bool) (xs ys : List A) → Permᴰ xs ys → all f xs ≡ all f ys
  all-Permᴰ f _ _ Permᴰ.nil = refl
  all-Permᴰ f _ _ (Permᴰ.cons {a} {b} {l₁} {l₂} e p) = ground (arith, all-Permᴰ f l₁ l₂ p)
  all-Permᴰ f _ _ (Permᴰ.swap d e) = ground arith
  all-Permᴰ f _ _ (Permᴰ.trans {l₁} {l₂} {l₃} p q) = all-Permᴰ f l₁ l₂ p ∙ all-Permᴰ f l₂ l₃ q

  pub all-Perm : (f : A → Bool) (xs ys : List A) → Perm xs ys → all f xs ≡ all f ys
  all-Perm f xs ys p = ∥∥₁_elim p (Bool-set _ _) (all-Permᴰ f xs ys)

  length-Permᴰ : (xs ys : List A) → Permᴰ xs ys → length xs ≡ length ys
  length-Permᴰ _ _ Permᴰ.nil = refl
  length-Permᴰ _ _ (Permᴰ.cons {a} {b} {l₁} {l₂} e p) = ap suc (length-Permᴰ l₁ l₂ p)
  length-Permᴰ _ _ (Permᴰ.swap d e) = refl
  length-Permᴰ _ _ (Permᴰ.trans {l₁} {l₂} {l₃} p q) = length-Permᴰ l₁ l₂ p ∙ length-Permᴰ l₂ l₃ q

  pub length-Perm : (xs ys : List A) → Perm xs ys → length xs ≡ length ys
  length-Perm xs ys p = ∥∥₁_elim p (ℕ_set _ _) (length-Permᴰ xs ys)

  -- The test holds of every element that passes another test that implies it.
  pub all-imp :
      (f g : A → Bool) (xs : List A)
      → ((x : A) → f x ≡ true → g x ≡ true)
      → all f xs ≡ true
      → all g xs ≡ true
  all-imp f g [] h a = refl
  all-imp f g (x ∷ xs) h a = ground (arith, h x, all-imp f g xs h)

-- A list in order: every element comes before or with all that follow.
module _ {ℓ} {A : Type ℓ} (le : A → A → Bool) where
  unfoldable pub in_order : List A → Bool
  in_order [] = true
  in_order (x ∷ xs) = all (le x) xs && in_order xs

  -- A stable sort.
  unfoldable pub place : A → List A → List A
  place x [] = x ∷ []
  place x (y ∷ ys) = let rest = place x ys in if le x y then x ∷ y ∷ ys else y ∷ rest

  unfoldable pub sort : List A → List A
  unfolding place
  sort [] = []
  sort (x ∷ xs) = place x (sort xs)

  pub place-Perm : (x : A) (l : List A) → Perm (place x l) (x ∷ l)
  unfolding place
  place-Perm x [] = Perm.rfl
  place-Perm x (y ∷ ys) = elim (Bool-cases (le x y)) [
    | inl e ↦ rw e Perm.rfl
    | inr e ↦ rw e (Perm.trans (Perm.cons y (place-Perm x ys)) (Perm.swap x y ys))
  ]

  -- Sorting rearranges.
  pub sort-Perm : (l : List A) → Perm (sort l) l
  unfolding sort
  sort-Perm [] = Perm.rfl
  sort-Perm (x ∷ xs) = Perm.trans (place-Perm x (sort xs)) (Perm.cons x (sort-Perm xs))

  module _ (total : (a b : A) → le a b ≡ false → le b a ≡ true)
      (trans : (a b c : A) → le a b ≡ true → le b c ≡ true → le a c ≡ true) where
    pub place-in_order : (x : A) (l : List A) → in_order l ≡ true → in_order (place x l) ≡ true
    unfolding place in_order
    place-in_order x [] h = refl
    place-in_order x (y ∷ ys) h = elim (Bool-cases (le x y)) [
      | inl e ↦ rw e (ground (arith, all-imp (le y) (le x) ys (λ (z : A). trans x y z e)))
      | inr e ↦ rw e (
          ground (
            arith,
            total x y,
            place-in_order x ys,
            all-Perm (le y) (place x ys) (x ∷ ys) (place-Perm x ys),
          ))
    ]

    -- Sorting by a total order puts in order.
    pub sort-in_order : (l : List A) → in_order (sort l) ≡ true
    unfolding sort
    sort-in_order [] = unfold in_order in refl
    sort-in_order (x ∷ xs) = place-in_order x (sort xs) (sort-in_order xs)

pub in_order-imp {ℓ} :
    {A : Type ℓ} (le le' : A → A → Bool) (l : List A)
    → ((a b : A) → le a b ≡ true → le' a b ≡ true)
    → in_order le l ≡ true
    → in_order le' l ≡ true
unfolding in_order
in_order-imp le le' [] weaker h = refl
in_order-imp le le' (x ∷ xs) weaker h =
    ground (arith, all-imp (le x) (le' x) xs (weaker x), in_order-imp le le' xs weaker)
