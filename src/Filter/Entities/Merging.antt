-- ===== src/Filter/Entities/Merging.antt =====
-- Merging two ascending lists: the loop of `EntityKind::each_title` of src/filter.rs.
use den_atlas.Prelude.{
  ℕ, zero, suc, ◌+◌, ◌≤◌, ◌≡◌, ◌∙◌, ap, refl, min, Bool, true, ◌||◌, List, [], ◌∷◌, arith, length,
  ltb, leb, ◌==◌, inl, inr, Bool-cases,
}
use den_atlas.Prelude.Perms.{all, all-imp}
use den_atlas.Prelude.Rows.{contains, ascending}
use den_atlas.Filter.Entities.{skip_row, merge_rows}

all-skip_row :
    (f : ℕ → Bool) (row : ℕ) (l : List ℕ) → all f l ≡ true → all f (skip_row row l) ≡ true
unfolding skip_row
all-skip_row f row [] h = refl
all-skip_row f row (x ∷ xs) h = ground (arith, all-skip_row f row xs)

ascending-skip_row : (row : ℕ) (l : List ℕ) → ascending l ≡ true → ascending (skip_row row l) ≡ true
unfolding skip_row ascending
ascending-skip_row row [] h = refl
ascending-skip_row row (x ∷ xs) h = ground (arith, ascending-skip_row row xs)

-- What comes after a lower bound.
above-skip_row :
    (row : ℕ) (l : List ℕ)
    → all (leb row) l ≡ true
    → ascending l ≡ true
    → all (ltb row) (skip_row row l) ≡ true
unfolding skip_row ascending
above-skip_row row [] h k = refl
above-skip_row row (x ∷ xs) h k =
    ground (arith, above-skip_row row xs, all-imp (ltb x) (ltb row) xs (λ z e. ground arith))

contains-skip_row :
    (r row : ℕ) (l : List ℕ)
    → (row == r || contains r (skip_row row l)) ≡ (row == r || contains r l)
unfolding skip_row contains
contains-skip_row r row [] = refl
contains-skip_row r row (x ∷ xs) = ground (arith, contains-skip_row r row xs)

length-skip_row : (row : ℕ) (l : List ℕ) → length (skip_row row l) ≤ length l
unfolding skip_row
length-skip_row row [] = omega arith
length-skip_row row (x ∷ xs) = ground (arith, length-skip_row row xs)

length-skip_row_head : (row x : ℕ) (l : List ℕ) → x ≡ row → length (skip_row row (x ∷ l)) ≤ length l
unfolding skip_row
length-skip_row_head row x l e = ground (arith, length-skip_row row l)

holds_min : (f : ℕ → Bool) (x y : ℕ) → f x ≡ true → f y ≡ true → f (min x y) ≡ true
holds_min f x y h k = elim (Bool-cases (leb x y)) [
  | inl e ↦ ap f {y = x} (ground arith) ∙ h
  | inr e ↦ ap f {y = y} (ground arith) ∙ k
]

ascending_cons :
    (x : ℕ) (l : List ℕ) → all (ltb x) l ≡ true → ascending l ≡ true → ascending (x ∷ l) ≡ true
unfolding ascending
ascending_cons x l h k = ground arith

all-merge_rows :
    (f : ℕ → Bool) (fuel : ℕ) (a b : List ℕ)
    → all f a ≡ true
    → all f b ≡ true
    → all f (merge_rows fuel a b) ≡ true
unfolding merge_rows
all-merge_rows f zero a b h k = refl
all-merge_rows f (suc fuel) [] [] h k = refl
all-merge_rows f (suc fuel) (x ∷ a) [] h k =
    ground (arith, all-merge_rows f fuel (skip_row x (x ∷ a)) [], all-skip_row f x (x ∷ a) h)
all-merge_rows f (suc fuel) [] (y ∷ b) h k =
    ground (arith, all-merge_rows f fuel [] (skip_row y (y ∷ b)), all-skip_row f y (y ∷ b) k)
all-merge_rows f (suc fuel) (x ∷ a) (y ∷ b) h k =
    let row = min x y in
    ground (
      arith,
      all-merge_rows f fuel (skip_row row (x ∷ a)) (skip_row row (y ∷ b)),
      all-skip_row f row (x ∷ a) h,
      all-skip_row f row (y ∷ b) k,
      holds_min f x y,
    )

head_below :
    (row x : ℕ) (l : List ℕ) → row ≤ x → ascending (x ∷ l) ≡ true → all (leb row) (x ∷ l) ≡ true
unfolding ascending
head_below row x l h k = ground (arith, all-imp (ltb x) (leb row) l (λ z e. ground arith))

above_all :
    (row x : ℕ) (l : List ℕ)
    → row ≤ x
    → ascending (x ∷ l) ≡ true
    → all (ltb row) (skip_row row (x ∷ l)) ≡ true
above_all row x l h k = above-skip_row row (x ∷ l) (head_below row x l h k) k

pub ascending-merge_rows :
    (fuel : ℕ) (a b : List ℕ)
    → ascending a ≡ true
    → ascending b ≡ true
    → ascending (merge_rows fuel a b) ≡ true
unfolding merge_rows
ascending-merge_rows zero a b h k = unfold ascending in refl
ascending-merge_rows (suc fuel) [] [] h k = unfold ascending in refl
ascending-merge_rows (suc fuel) (x ∷ a) [] h k =
    let rest = skip_row x (x ∷ a) in
    ascending_cons x (merge_rows fuel rest [])
      (all-merge_rows (ltb x) fuel rest [] (above_all x x a (omega arith) h) refl)
      (ascending-merge_rows fuel rest [] (ascending-skip_row x (x ∷ a) h) k)
ascending-merge_rows (suc fuel) [] (y ∷ b) h k =
    let rest = skip_row y (y ∷ b) in
    ascending_cons y (merge_rows fuel [] rest)
      (all-merge_rows (ltb y) fuel [] rest refl (above_all y y b (omega arith) k))
      (ascending-merge_rows fuel [] rest h (ascending-skip_row y (y ∷ b) k))
ascending-merge_rows (suc fuel) (x ∷ a) (y ∷ b) h k =
    let row = min x y in
    let left = skip_row row (x ∷ a) in
    let right = skip_row row (y ∷ b) in
    ascending_cons row (merge_rows fuel left right)
      (all-merge_rows (ltb row) fuel left right (above_all row x a (omega arith) h)
        (above_all row y b (omega arith) k))
      (ascending-merge_rows fuel left right (ascending-skip_row row (x ∷ a) h)
        (ascending-skip_row row (y ∷ b) k))

contains_either :
    (r row : ℕ) (m a b a' b' : List ℕ)
    → contains r m ≡ (contains r a' || contains r b')
    → (row == r || contains r a') ≡ (row == r || contains r a)
    → (row == r || contains r b') ≡ (row == r || contains r b)
    → (row == r ≡ true → (contains r a || contains r b) ≡ true)
    → contains r (row ∷ m) ≡ (contains r a || contains r b)
unfolding contains
contains_either r row m a b a' b' e f g h = ground arith

contains_head : (r x : ℕ) (l : List ℕ) → x == r ≡ true → contains r (x ∷ l) ≡ true
unfolding contains
contains_head r x l e = ground arith

contains-min :
    (r x y : ℕ) (a b : List ℕ)
    → min x y == r ≡ true
    → (contains r (x ∷ a) || contains r (y ∷ b)) ≡ true
unfolding contains
contains-min r x y a b e = ground arith

min_fuel :
    (fuel x y : ℕ) (a b : List ℕ)
    → length (x ∷ a) + length (y ∷ b) ≤ suc fuel
    → length (skip_row (min x y) (x ∷ a)) + length (skip_row (min x y) (y ∷ b)) ≤ fuel
min_fuel fuel x y a b h = elim (Bool-cases (leb x y)) [
  | inl e ↦
      omega (
        arith,
        length-skip_row_head (min x y) x a (ground arith),
        length-skip_row (min x y) (y ∷ b),
      )
  | inr e ↦
      omega (
        arith,
        length-skip_row_head (min x y) y b (ground arith),
        length-skip_row (min x y) (x ∷ a),
      )
]

pub contains-merge_rows :
    (fuel : ℕ) (a b : List ℕ) (r : ℕ)
    → length a + length b ≤ fuel
    → contains r (merge_rows fuel a b) ≡ (contains r a || contains r b)
unfolding merge_rows
contains-merge_rows zero [] [] r h = unfold contains in refl
contains-merge_rows zero (x ∷ a) b r h = absurd (omega arith)
contains-merge_rows zero [] (y ∷ b) r h = absurd (omega arith)
contains-merge_rows (suc fuel) [] [] r h = unfold contains in refl
contains-merge_rows (suc fuel) (x ∷ a) [] r h =
    let rest = skip_row x (x ∷ a) in
    contains_either r x (merge_rows fuel rest []) (x ∷ a) [] rest []
      (contains-merge_rows fuel rest [] r (omega (arith, length-skip_row_head x x a refl)))
      (contains-skip_row r x (x ∷ a)) refl (λ e. ground (arith, contains_head r x a e))
contains-merge_rows (suc fuel) [] (y ∷ b) r h =
    let rest = skip_row y (y ∷ b) in
    contains_either r y (merge_rows fuel [] rest) [] (y ∷ b) [] rest
      (contains-merge_rows fuel [] rest r (omega (arith, length-skip_row_head y y b refl))) refl
      (contains-skip_row r y (y ∷ b)) (λ e. ground (arith, contains_head r y b e))
contains-merge_rows (suc fuel) (x ∷ a) (y ∷ b) r h =
    let row = min x y in
    let left = skip_row row (x ∷ a) in
    let right = skip_row row (y ∷ b) in
    contains_either r row (merge_rows fuel left right) (x ∷ a) (y ∷ b) left right
      (contains-merge_rows fuel left right r (min_fuel fuel x y a b h))
      (contains-skip_row r row (x ∷ a)) (contains-skip_row r row (y ∷ b)) (contains-min r x y a b)
