-- ===== src/Prelude/Rows.antt =====
-- Lists of numbers: what they hold, ascending ones, and `sort_unstable` followed by `dedup`.
use Prim.Native.Nat.{ℕ}
use mathlib.Core.Path.{◌≡◌, refl, ap, ◌∙◌}
use mathlib.Core.Bool.{Bool, true, false, not, ◌&&◌, ◌||◌}
use mathlib.Core.List.{List, [], ◌∷◌, ◌++◌}
use mathlib.Core.List.{Perm}
use native.Mathlib.Omega.{arith}
use mathlib.Core.Logic.{inl, inr}
use den_atlas.Prelude.Tests.{if◌then◌else◌, ltb, leb, ◌==◌, Bool-cases}
use den_atlas.Prelude.Perms.{all, all-Perm, all-imp, in_order, sort, sort-Perm, sort-in_order}

unfoldable pub contains : ℕ → List ℕ → Bool
contains r [] = false
contains r (x ∷ xs) = x == r || contains r xs

-- Each less than all that follow.
unfoldable pub ascending : List ℕ → Bool
ascending [] = true
ascending (x ∷ xs) = all (ltb x) xs && ascending xs

-- Neighbours that are the same become one.
unfoldable pub dedup_after : ℕ → List ℕ → List ℕ
dedup_after x [] = []
dedup_after x (y ∷ ys) = let rest = dedup_after y ys in if x == y then rest else y ∷ rest

unfoldable pub dedup : List ℕ → List ℕ
unfolding dedup_after
dedup [] = []
dedup (x ∷ xs) = x ∷ dedup_after x xs

unfoldable pub sorted_rows : List ℕ → List ℕ
unfolding dedup
sorted_rows xs = dedup (sort leb xs)

pub contains-append :
    (r : ℕ) (xs ys : List ℕ) → contains r (xs ++ ys) ≡ (contains r xs || contains r ys)
unfolding contains
contains-append r [] ys = refl
contains-append r (x ∷ xs) ys = ground (arith, contains-append r xs ys)

contains-all : (r : ℕ) (xs : List ℕ) → contains r xs ≡ not (all (λ x. not (x == r)) xs)
unfolding contains
contains-all r [] = refl
contains-all r (x ∷ xs) = ground (arith, contains-all r xs)

pub contains-Perm : (r : ℕ) (xs ys : List ℕ) → Perm xs ys → contains r xs ≡ contains r ys
contains-Perm r xs ys p =
    ground (arith, contains-all r xs, contains-all r ys, all-Perm (λ x. not (x == r)) xs ys p)

contains-dedup_after :
    (r x : ℕ) (xs : List ℕ) → (x == r || contains r (dedup_after x xs)) ≡ (x == r || contains r xs)
unfolding contains dedup_after
contains-dedup_after r x [] = refl
contains-dedup_after r x (y ∷ ys) = ground (arith, contains-dedup_after r y ys)

all-dedup_after :
    (f : ℕ → Bool) (x : ℕ) (xs : List ℕ) → all f xs ≡ true → all f (dedup_after x xs) ≡ true
unfolding dedup_after
all-dedup_after f x [] h = refl
all-dedup_after f x (y ∷ ys) h = ground (arith, all-dedup_after f y ys)

ltb_trans : (x y z : ℕ) → ltb x y ≡ true → ltb y z ≡ true → ltb x z ≡ true
ltb_trans x y z h k = ground arith

leb_total : (a b : ℕ) → leb a b ≡ false → leb b a ≡ true
leb_total a b h = ground arith

leb_trans : (a b c : ℕ) → leb a b ≡ true → leb b c ≡ true → leb a c ≡ true
leb_trans a b c h k = ground arith

ascending-dedup_after :
    (x : ℕ) (xs : List ℕ)
    → all (leb x) xs ≡ true
    → in_order leb xs ≡ true
    → ascending (x ∷ dedup_after x xs) ≡ true
unfolding ascending dedup_after in_order
ascending-dedup_after x [] h k = refl
ascending-dedup_after x (y ∷ ys) h k = elim (Bool-cases (x == y)) [
  | inl e ↦ rw e (ground (arith, ascending-dedup_after y ys, same e))
  | inr e ↦ rw e (
      ground (
        arith,
        ascending-dedup_after y ys,
        all-imp (ltb y) (ltb x) (dedup_after y ys) (λ z h'. ltb_trans x y z (ground arith) h'),
      ))
]
  where
    same : x == y ≡ true → ltb x ≡ ltb y
    same e = ap ltb (ground arith)

contains-dedup : (r : ℕ) (xs : List ℕ) → contains r (dedup xs) ≡ contains r xs
unfolding dedup contains
contains-dedup r [] = refl
contains-dedup r (x ∷ xs) = contains-dedup_after r x xs

ascending-dedup : (xs : List ℕ) → in_order leb xs ≡ true → ascending (dedup xs) ≡ true
unfolding dedup ascending in_order
ascending-dedup [] h = refl
ascending-dedup (x ∷ xs) h = ascending-dedup_after x xs (ground arith) (ground arith)

-- The sorted list holds the same numbers, each once and in order.
pub contains-sorted_rows : (r : ℕ) (xs : List ℕ) → contains r (sorted_rows xs) ≡ contains r xs
unfolding sorted_rows
contains-sorted_rows r xs =
    contains-dedup r (sort leb xs) ∙ contains-Perm r (sort leb xs) xs (sort-Perm leb xs)

pub ascending-sorted_rows : (xs : List ℕ) → ascending (sorted_rows xs) ≡ true
unfolding sorted_rows
ascending-sorted_rows xs = ascending-dedup (sort leb xs) (sort-in_order leb leb_total leb_trans xs)
