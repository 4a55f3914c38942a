-- ===== src/TitleSearch/Index.antt =====
-- crates/den-titlesearch/src/index.rs: the index of titles by trigram, as `build` lays it out, and the titles
-- of a key. The texts of the titles and the positions sorted by id are left out, and so are the scores.
pub mod Groups
pub mod Matches
pub mod Postings
mod Tests
use den_atlas.Prelude.{
  ℕ, zero, suc, ◌+◌, ◌-◌, ◌%◌, ◌^◌, Bool, true, false, ◌&&◌, ◌||◌, not, List, [], ◌∷◌, ◌++◌, map,
  Option, none, some, ltb, leb, ◌==◌, if◌then◌else◌, length, get_elem?, take, drop,
}
use den_atlas.Prelude.Bytes.{Text}
use den_atlas.Prelude.Perms.{sort}
use den_atlas.TitleSearch.{MediaType, TitleRecord}
use den_atlas.TitleSearch.Popularity.{Popularity}
use den_atlas.TitleSearch.Fold.{trigram_keys}
use den_atlas.TitleSearch.Export.{Title, ranks_before}

-- The keys, where the run of each ends, and the runs.
pub record Runs : Type 0 where
  pub keys : List ℕ
  pub key_ends : List ℕ
  pub postings : List ℕ

abbrev pub no_runs : Runs
no_runs = record { keys = []; key_ends = []; postings = [] }

unfoldable pub last_is : ℕ → List ℕ → Bool
last_is key [] = false
last_is key (k ∷ []) = k == key
last_is key (k ∷ l ∷ ks) = last_is key (l ∷ ks)

abbrev pub is_nil : List ℕ → Bool
is_nil [] = true
is_nil (x ∷ xs) = false

abbrev pub end_run : Runs → Runs
end_run r =
    if is_nil r.keys then r else record r { key_ends = r.key_ends ++ length r.postings ∷ [] }

abbrev pub open_run : ℕ → Runs → Runs
open_run key r = let ended = end_run r in record ended { keys = ended.keys ++ key ∷ [] }

abbrev pub post : ℕ → Runs → Runs
post position r = record r { postings = r.postings ++ position ∷ [] }

unfoldable pub add_pair : ℕ × ℕ → Runs → Runs
unfolding last_is
add_pair p r = post p.1 (if last_is p.0 r.keys then r else open_run p.0 r)

unfoldable pub add_pairs : List (ℕ × ℕ) → Runs → Runs
unfolding add_pair
add_pairs [] r = r
add_pairs (p ∷ pairs) r = add_pairs pairs (add_pair p r)

-- `binary_search`, in keys that rise.
unfoldable pub index_of : ℕ → List ℕ → Option ℕ
index_of key [] = none
index_of key (k ∷ ks) =
    if k == key then some 0 else elim (index_of key ks) [ none ↦ none | some i ↦ some (suc i) ]

abbrev pub or_zero : Option ℕ → ℕ
or_zero none = 0
or_zero (some n) = n

abbrev pub run_start : List ℕ → ℕ → ℕ
run_start ends zero = 0
run_start ends (suc i) = or_zero (get_elem? ends i)

unfoldable pub postings_of : Runs → ℕ → List ℕ
unfolding index_of
postings_of r key = elim (index_of key r.keys) [
  | none ↦ []
  | some i ↦
      let from = run_start r.key_ends i in
      take (or_zero (get_elem? r.key_ends i) - from) (drop from r.postings)
]

unfoldable pub dedup_keys_after : ℕ → List ℕ → List ℕ
dedup_keys_after k [] = []
dedup_keys_after k (l ∷ ls) = if l == k then dedup_keys_after k ls else l ∷ dedup_keys_after l ls

unfoldable pub dedup_keys : List ℕ → List ℕ
unfolding dedup_keys_after
dedup_keys [] = []
dedup_keys (k ∷ ks) = k ∷ dedup_keys_after k ks

abbrev pub pair_before : ℕ × ℕ → ℕ × ℕ → Bool
pair_before a b = ltb a.0 b.0 || (a.0 == b.0 && not (ltb b.1 a.1))

module _ (pop : Popularity) (utf8_lossy fold : Text → List ℕ) where
  open pop use {Value}

  unfoldable pub title_keys : Title pop utf8_lossy → List ℕ
  unfolding dedup_keys
  title_keys r = dedup_keys (sort leb (trigram_keys (fold r.title)))

  unfoldable pub pairs_from : ℕ → List (Title pop utf8_lossy) → List (ℕ × ℕ)
  unfolding title_keys
  pairs_from position [] = []
  pairs_from position (r ∷ records) =
      map (λ k. (k, position)) (title_keys r) ++ pairs_from (suc position) records

  pub record TitleIndex : Type 0 where
    pub ids : List ℕ
    pub kinds : List MediaType
    pub popularities : List Value
    pub folded : List (List ℕ)
    pub runs : Runs

  unfoldable pub index_sorted : List (Title pop utf8_lossy) → TitleIndex
  unfolding pairs_from add_pairs
  index_sorted records = record {
    ids = map (λ r. r.tmdb_id) records;
    kinds = map (λ r. r.media_type) records;
    popularities = map (λ r. r.popularity) records;
    folded = map (λ r. fold r.title) records;
    runs = end_run (add_pairs (sort pair_before (pairs_from 0 records)) no_runs);
  }

  unfoldable pub build_index : List (Title pop utf8_lossy) → TitleIndex
  unfolding index_sorted
  build_index records = index_sorted (sort (ranks_before pop utf8_lossy) records)
