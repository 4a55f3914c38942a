-- ===== src/Filter/Entities/Titles.antt =====
-- Each title once: `EntityKind::each_title` of src/filter.rs.
use den_atlas.Prelude.{
  ℕ, ◌+◌, ◌≡◌, ◌∙◌, refl, Bool, true, false, ◌||◌, List, [], ◌∷◌, arith, length,
}
use den_atlas.Prelude.Perms.{all}
use den_atlas.Prelude.Rows.{
  contains, ascending, contains-append, contains-sorted_rows, ascending-sorted_rows,
}
use den_atlas.Filter.Entities.{Postings, rows_of, all_rows, each_title}
use den_atlas.Filter.Entities.Merging.{ascending-merge_rows, contains-merge_rows}

-- Some section credits the entity on the row.
abbrev pub credited : List Postings → ℕ → ℕ → Bool
credited [] entity r = false
credited (p ∷ ps) entity r = contains r (rows_of p entity) || credited ps entity r

contains-all_rows :
    (ps : List Postings) (entity r : ℕ) → contains r (all_rows ps entity) ≡ credited ps entity r
unfolding all_rows
contains-all_rows [] entity r = unfold contains in refl
contains-all_rows (p ∷ ps) entity r = ground (
  arith,
  contains-append r (rows_of p entity) (all_rows ps entity),
  contains-all_rows ps entity r,
)

-- A row is visited exactly if a section credits the entity on it.
contains-each_title :
    (ps : List Postings) (entity r : ℕ) → contains r (each_title ps entity) ≡ credited ps entity r
unfolding each_title
contains-each_title [] entity r = unfold contains in refl
contains-each_title (p ∷ []) entity r = ground arith
contains-each_title (p ∷ q ∷ []) entity r =
    let a = rows_of p entity in
    let b = rows_of q entity in
    contains-merge_rows (length a + length b) a b r (omega arith) ∙ ground arith
contains-each_title (p ∷ q ∷ s ∷ ps) entity r =
    let rows = all_rows (p ∷ q ∷ s ∷ ps) entity in
    contains-sorted_rows r rows ∙ contains-all_rows (p ∷ q ∷ s ∷ ps) entity r

-- Every section lists each row once, in order.
abbrev pub lists_ascending : List Postings → ℕ → Bool
lists_ascending ps entity = all (λ p. ascending (rows_of p entity)) ps

ascending-each_title :
    (ps : List Postings) (entity : ℕ)
    → lists_ascending ps entity ≡ true
    → ascending (each_title ps entity) ≡ true
unfolding each_title
ascending-each_title [] entity h = unfold ascending in refl
ascending-each_title (p ∷ []) entity h = ground arith
ascending-each_title (p ∷ q ∷ []) entity h =
    let a = rows_of p entity in
    let b = rows_of q entity in
    ascending-merge_rows (length a + length b) a b (ground arith) (ground arith)
ascending-each_title (p ∷ q ∷ s ∷ ps) entity h =
    ascending-sorted_rows (all_rows (p ∷ q ∷ s ∷ ps) entity)

-- However many sections a kind reads: if each lists its rows in ascending order, then the titles that credit an
-- entity are visited in ascending order, each once, and are those that some section credits it on.
pub each_title-credited :
    (ps : List Postings) (entity r : ℕ)
    → lists_ascending ps entity ≡ true
    → (ascending (each_title ps entity) ≡ true)
      × (contains r (each_title ps entity) ≡ credited ps entity r)
each_title-credited ps entity r h =
    (ascending-each_title ps entity h, contains-each_title ps entity r)
