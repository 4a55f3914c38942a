-- ===== src/Index.antt =====
-- crates/den-index: what the other parts share with the index.
pub mod Regions
use den_atlas.Prelude.{◌≡◌, ◌≢◌, refl, sym, arith}

pub data MediaType : Type 0 where
  movie tv : MediaType

pub movie-ne-tv : movie ≢ tv
movie-ne-tv e = ground arith

unfoldable pub media_dec : Discrete MediaType
media_dec movie movie = yes refl
media_dec movie tv = no movie-ne-tv
media_dec tv movie = no (λ e. movie-ne-tv (sym e))
media_dec tv tv = yes refl
