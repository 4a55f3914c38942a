-- ===== src/Billing/Rows.antt =====
-- A billed row of src/billing.rs holds each entity at its best position.
use den_atlas.Prelude.{
  Bool, ltb, ◌&&◌, ℕ, min, ◌≡◌, ◌∙◌, refl, ap, true, false, List, [], ◌∷◌, Option, none, some,
  arith, ◌==◌, if◌then◌else◌, inl, inr, Bool-cases,
}
use den_atlas.Prelude.Perms.{all, in_order, place, sort, sort-in_order, all-imp}
use den_atlas.Billing.{find_billed, is_none, before_or_same, dedup_after, dedup}

abbrev pub lesser : Option ℕ → Option ℕ → Option ℕ
lesser (some a) (some b) = some (min a b)
lesser (some a) none = some a
lesser none b = b

-- The least position of an entity.
abbrev pub best_in : ℕ → List (ℕ × ℕ) → Option ℕ
best_in entity [] = none
best_in entity (x ∷ xs) =
    if x.0 == entity then lesser (some x.1) (best_in entity xs) else best_in entity xs

find_billed-dedup_after :
    (entity : ℕ) (x : ℕ × ℕ) (xs : List (ℕ × ℕ))
    → find_billed entity (x ∷ dedup_after x xs) ≡ find_billed entity (x ∷ xs)
unfolding find_billed dedup_after
find_billed-dedup_after entity x [] = refl
find_billed-dedup_after entity x (y ∷ ys) =
    ground (arith, find_billed-dedup_after entity x ys, find_billed-dedup_after entity y ys)

find_billed-dedup :
    (entity : ℕ) (xs : List (ℕ × ℕ)) → find_billed entity (dedup xs) ≡ find_billed entity xs
unfolding dedup
find_billed-dedup entity [] = refl
find_billed-dedup entity (x ∷ xs) = find_billed-dedup_after entity x xs

before_total : (a b : ℕ × ℕ) → before_or_same a b ≡ false → before_or_same b a ≡ true
before_total a b h = ground arith

before_trans :
    (a b c : ℕ × ℕ)
    → before_or_same a b ≡ true
    → before_or_same b c ≡ true
    → before_or_same a c ≡ true
before_trans a b c h g = ground arith

find_billed-least :
    (entity : ℕ) (x : ℕ × ℕ) (xs : List (ℕ × ℕ))
    → (x.0 == entity) ≡ true
    → all (before_or_same x) xs ≡ true
    → lesser (some x.1) (find_billed entity xs) ≡ some x.1
unfolding find_billed
find_billed-least entity x [] e h = refl
find_billed-least entity x (y ∷ ys) e h = elim (Bool-cases (y.0 == entity)) [
  | inl same ↦ rw same (ap some (ground arith))
  | inr other ↦ rw other (find_billed-least entity x ys e (ground arith))
]

find_billed-place :
    (entity : ℕ) (x : ℕ × ℕ) (l : List (ℕ × ℕ))
    → in_order before_or_same l ≡ true
    → find_billed entity (place before_or_same x l)
      ≡ (if x.0 == entity then lesser (some x.1) (find_billed entity l) else find_billed entity l)
unfolding find_billed place in_order
find_billed-place entity x [] h = ground arith
find_billed-place entity x (y ∷ ys) h = elim (Bool-cases (before_or_same x y)) [
  | inl e ↦ rw e (
      ground (
        arith,
        find_billed-least entity x (y ∷ ys),
        all-imp (before_or_same y) (before_or_same x) ys (λ (z : ℕ × ℕ). before_trans x y z e),
      ))
  | inr e ↦ rw e (ground (arith, find_billed-place entity x ys))
]

find_billed-sort :
    (entity : ℕ) (l : List (ℕ × ℕ)) → find_billed entity (sort before_or_same l) ≡ best_in entity l
unfolding sort find_billed
find_billed-sort entity [] = refl
find_billed-sort entity (x ∷ xs) =
    find_billed-place entity x (sort before_or_same xs)
      (sort-in_order before_or_same before_total before_trans xs)
    ∙ rw (find_billed-sort entity xs) refl

-- Sorted and without repeated entities, a row says of each entity its best position.
pub find_billed-row :
    (entity : ℕ) (l : List (ℕ × ℕ))
    → find_billed entity (dedup (sort before_or_same l)) ≡ best_in entity l
find_billed-row entity l =
    find_billed-dedup entity (sort before_or_same l) ∙ find_billed-sort entity l

is_none-dedup : (l : List (ℕ × ℕ)) → is_none (dedup l) ≡ is_none l
unfolding dedup
is_none-dedup [] = refl
is_none-dedup (x ∷ xs) = refl

is_none-place : (x : ℕ × ℕ) (l : List (ℕ × ℕ)) → is_none (place before_or_same x l) ≡ false
unfolding place
is_none-place x [] = refl
is_none-place x (y ∷ ys) = elim (Bool-cases (before_or_same x y)) [
  | inl e ↦ rw e refl
  | inr e ↦ rw e refl
]

is_none-sort : (l : List (ℕ × ℕ)) → is_none (sort before_or_same l) ≡ is_none l
unfolding sort
is_none-sort [] = refl
is_none-sort (x ∷ xs) = is_none-place x (sort before_or_same xs)

pub is_none-row : (l : List (ℕ × ℕ)) → is_none (dedup (sort before_or_same l)) ≡ is_none l
is_none-row l = is_none-dedup (sort before_or_same l) ∙ is_none-sort l

abbrev less : ℕ × ℕ → ℕ × ℕ → Bool
less a b = ltb a.0 b.0

less-all :
    (x y : ℕ × ℕ) (l : List (ℕ × ℕ))
    → less x y ≡ true
    → all (less y) l ≡ true
    → all (less x) l ≡ true
less-all x y l h = all-imp (less y) (less x) l (λ (z : ℕ × ℕ) (k : less y z ≡ true). ground arith)

dedup_after-rising :
    (x : ℕ × ℕ) (xs : List (ℕ × ℕ))
    → all (before_or_same x) xs ≡ true
    → in_order before_or_same xs ≡ true
    → (all (less x) (dedup_after x xs) && in_order less (dedup_after x xs)) ≡ true
unfolding dedup_after in_order
dedup_after-rising x [] h o = refl
dedup_after-rising x (y ∷ ys) h o = elim (Bool-cases (y.0 == x.0)) [
  | inl e ↦ rw e (dedup_after-rising x ys (ground arith) (ground arith))
  | inr e ↦ rw e (ground (arith, dedup_after-rising y ys, less-all x y (dedup_after y ys)))
]

dedup-rising :
    (xs : List (ℕ × ℕ)) → in_order before_or_same xs ≡ true → in_order less (dedup xs) ≡ true
unfolding dedup in_order
dedup-rising [] o = refl
dedup-rising (x ∷ xs) o = dedup_after-rising x xs (ground arith) (ground arith)

-- A row rises by entity, so a binary search finds an entity where a search from the start does.
row-rising : (l : List (ℕ × ℕ)) → in_order less (dedup (sort before_or_same l)) ≡ true
row-rising l =
    dedup-rising (sort before_or_same l) (sort-in_order before_or_same before_total before_trans l)
