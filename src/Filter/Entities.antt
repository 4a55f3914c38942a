-- ===== src/Filter/Entities.antt =====
-- Posting lists of src/filter.rs: `Postings`, and the titles that an `EntityKind` credits a value on.
pub mod Merging
pub mod Titles
use den_atlas.Prelude.{
  ℕ, zero, suc, ◌+◌, ◌-◌, min, max, Bool, List, [], ◌∷◌, ◌++◌, Option, none, some, get_elem?, take,
  drop, length, if◌then◌else◌, ◌==◌,
}
use den_atlas.Prelude.Rows.{sorted_rows}
use den_atlas.Filter.Bits.{Bits}

-- `starts` has one place more than there are entities.
pub record Postings : Type 0 where
  pub starts : List ℕ
  pub rows : List ℕ

pub record EntityKind : Type 0 where
  pub postings : List Postings
  pub known : Bits
  pub qids : Option (List ℕ)
  pub candidates : List ℕ

-- The starts ascend and end with the number of rows, as `invert` builds them; for a slice with its
-- ends crossed or beyond the rows the code panics.
unfoldable pub rows_of : Postings → ℕ → List ℕ
rows_of p entity = elim (get_elem? p.starts entity) [
  | none ↦ []
  | some start ↦ elim (get_elem? p.starts (suc entity)) [
    | none ↦ []
    | some end ↦ take (end - start) (drop start p.rows)
  ]
]

unfoldable pub most_rows : List Postings → ℕ → ℕ
unfolding rows_of
most_rows [] entity = 0
most_rows (p ∷ ps) entity = max (length (rows_of p entity)) (most_rows ps entity)

unfoldable pub titles : EntityKind → ℕ → ℕ
unfolding most_rows
titles kind entity = most_rows kind.postings entity

-- `while list.get(i) == Some(&row) { i += 1 }`
unfoldable pub skip_row : ℕ → List ℕ → List ℕ
skip_row row [] = []
skip_row row (x ∷ xs) = let rest = skip_row row xs in if x == row then rest else x ∷ xs

-- The loop over two lists; each round moves on in one of them.
unfoldable pub merge_rows : ℕ → List ℕ → List ℕ → List ℕ
unfolding skip_row
merge_rows zero first second = []
merge_rows (suc fuel) [] [] = []
merge_rows (suc fuel) (left ∷ first) [] = left ∷ merge_rows fuel (skip_row left (left ∷ first)) []
merge_rows (suc fuel) [] (right ∷ second) =
    right ∷ merge_rows fuel [] (skip_row right (right ∷ second))
merge_rows (suc fuel) (left ∷ first) (right ∷ second) =
    let row = min left right in
    row ∷ merge_rows fuel (skip_row row (left ∷ first)) (skip_row row (right ∷ second))

-- `flat_map` over the sections.
unfoldable pub all_rows : List Postings → ℕ → List ℕ
unfolding rows_of
all_rows [] entity = []
all_rows (p ∷ ps) entity = rows_of p entity ++ all_rows ps entity

-- The rows visited, in order.
unfoldable pub each_title : List Postings → ℕ → List ℕ
unfolding merge_rows all_rows sorted_rows rows_of
each_title [] entity = []
each_title (one ∷ []) entity = rows_of one entity
each_title (one ∷ two ∷ []) entity =
    let first = rows_of one entity in
    let second = rows_of two entity in merge_rows (length first + length second) first second
each_title (one ∷ two ∷ three ∷ more) entity =
    sorted_rows (all_rows (one ∷ two ∷ three ∷ more) entity)
