-- ===== src/TitleSearch/Export/Ranking.antt =====
-- The order of a finished scan of crates/den-titlesearch/src/export.rs.
use den_atlas.Prelude.{ℕ, ◌≡◌, ◌∙◌, true, false, List, arith}
use mathlib.Core.List.Perm
use den_atlas.Prelude.Bytes.{Text}
use den_atlas.Prelude.Perms.{all, all-Perm, all-imp, length-Perm, sort, sort-Perm}
use den_atlas.TitleSearch.{MediaType, movie, tv}
use den_atlas.TitleSearch.Popularity.{Popularity}
use den_atlas.TitleSearch.Export.{Title, ranks_before, key_at_most}
use den_atlas.TitleSearch.Export.Best.{no_more, Best}

module _ (pop : Popularity) (utf8_lossy : Text → Text) where
  open pop use {at_most, le, at_most_total, at_most_trans}

  abbrev AnyTitle : Type 0
  AnyTitle = Title pop utf8_lossy

  key_total :
      (k : MediaType) (i : ℕ) (l : MediaType) (j : ℕ)
      → key_at_most k i l j ≡ false
      → key_at_most l j k i ≡ true
  key_total movie i movie j h = ground arith
  key_total movie i tv j h = ground arith
  key_total tv i movie j h = ground arith
  key_total tv i tv j h = ground arith

  key_trans :
      (k : MediaType) (i : ℕ) (l : MediaType) (j : ℕ) (m : MediaType) (n : ℕ)
      → key_at_most k i l j ≡ true
      → key_at_most l j m n ≡ true
      → key_at_most k i m n ≡ true
  key_trans movie i movie j movie n h g = ground arith
  key_trans movie i l j tv n h g = ground arith
  key_trans movie i tv j movie n h g = ground arith
  key_trans tv i movie j m n h g = ground arith
  key_trans tv i tv j movie n h g = ground arith
  key_trans tv i tv j tv n h g = ground arith

  pub ranks_total :
      (a b : AnyTitle)
      → ranks_before pop utf8_lossy a b ≡ false
      → ranks_before pop utf8_lossy b a ≡ true
  unfolding ranks_before
  ranks_total a b h = ground (
    arith,
    at_most_total a.popularity b.popularity,
    at_most_total b.popularity a.popularity,
    key_total a.media_type a.tmdb_id b.media_type b.tmdb_id,
  )

  pub ranks_trans :
      (a b c : AnyTitle)
      → ranks_before pop utf8_lossy a b ≡ true
      → ranks_before pop utf8_lossy b c ≡ true
      → ranks_before pop utf8_lossy a c ≡ true
  unfolding ranks_before
  ranks_trans a b c h g = ground (
    arith,
    at_most_total a.popularity b.popularity,
    at_most_total b.popularity c.popularity,
    at_most_trans a.popularity c.popularity b.popularity,
    at_most_trans c.popularity a.popularity b.popularity,
    at_most_trans c.popularity b.popularity a.popularity,
    at_most_trans b.popularity a.popularity c.popularity,
    at_most_trans b.popularity c.popularity a.popularity,
    at_most_trans a.popularity b.popularity c.popularity,
    key_trans a.media_type a.tmdb_id b.media_type b.tmdb_id c.media_type c.tmdb_id,
  )

  pub Best-sort :
      (capacity : ℕ) (kept offered : List AnyTitle)
      → Best pop utf8_lossy capacity kept offered
      → Best pop utf8_lossy capacity (sort (ranks_before pop utf8_lossy) kept) offered
  Best-sort capacity kept offered b =
      let same = sort-Perm (ranks_before pop utf8_lossy) kept in
      record {
        dropped = b.dropped;
        parts = Perm.trans (Perm.append_right b.dropped same) b.parts;
        weakest =
            all-imp (λ (d : AnyTitle). all (no_more pop utf8_lossy d) kept)
              (λ (d : AnyTitle).
                all (no_more pop utf8_lossy d) (sort (ranks_before pop utf8_lossy) kept))
              b.dropped (λ (d : AnyTitle) h. all-Perm (no_more pop utf8_lossy d) _ kept same ∙ h)
              b.weakest;
        count = length-Perm _ kept same ∙ b.count;
      }
