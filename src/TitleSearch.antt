-- ===== src/TitleSearch.antt =====
-- crates/den-titlesearch: the titles that a search finds, from TMDB's exports.
pub mod Popularity
pub mod Json
pub mod Export
pub mod Fold
pub mod Index
use den_atlas.Prelude.{ℕ, Bool, true, false}
use den_atlas.Prelude.Bytes.{Text, codes}

pub data MediaType : Type 0 where
  movie tv : MediaType

abbrev pub stremio_type : MediaType → Text
stremio_type movie = codes "movie"
stremio_type tv = codes "series"

pub record TitleRecord (Value : Type 0) : Type 0 where
  pub tmdb_id : ℕ
  pub media_type : MediaType
  pub title : Text
  pub popularity : Value
