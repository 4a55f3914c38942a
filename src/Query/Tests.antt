-- ===== src/Query/Tests.antt =====
-- Queries and escapes that src/handler.rs reads.
use den_atlas.Prelude.{
  ℕ, ◌≡◌, refl, Bool, not, ◌&&◌, List, [], ◌∷◌, Option, none, some, ◌==◌, arith, ltb, if◌then◌else◌,
}
use den_atlas.Prelude.Bytes.{Text, codes}
use den_atlas.Query.{query_param, extra_value, percent_decode}
use den_atlas.Query.Escapes.{percent_encode, percent_decode-percent_encode}

-- A reading that takes every byte beyond ASCII for an error, and puts U+FFFD in its place.
unfoldable ascii_lossy : Text → Text
ascii_lossy [] = []
ascii_lossy (c ∷ s) =
    let rest = ascii_lossy s in if ltb c 128 then c ∷ rest else 0xEF ∷ 0xBF ∷ 0xBD ∷ rest

decode_search : percent_decode ascii_lossy (codes "the%20matrix") ≡ codes "the matrix"
unfolding percent_decode ascii_lossy
decode_search = refl

decode_malformed : percent_decode ascii_lossy (codes "100%zz%2") ≡ codes "100%zz%2"
unfolding percent_decode ascii_lossy
decode_malformed = refl

decode_invalid : percent_decode ascii_lossy (codes "%FF") ≡ 0xEF ∷ 0xBF ∷ 0xBD ∷ []
unfolding percent_decode ascii_lossy
decode_invalid = refl

extra_skips_empty : extra_value (codes "country=&country=SE") (codes "country") ≡ some (codes "SE")
unfolding extra_value den_atlas.Prelude.Bytes.split den_atlas.Prelude.Bytes.same_text
    den_atlas.Prelude.Bytes.split_once
extra_skips_empty = refl

param_first : query_param (codes "v=&v=2") (codes "v") ≡ some []
unfolding query_param den_atlas.Prelude.Bytes.split den_atlas.Prelude.Bytes.same_text
    den_atlas.Prelude.Bytes.split_once
param_first = refl

-- All but the space and the percent sign.
abbrev usual : ℕ → Bool
usual c = not (c == 32) && not (c == b'%')

percent_decode-percent_encode_example :
    percent_decode ascii_lossy (percent_encode usual (codes "50% of")) ≡ codes "50% of"
unfolding ascii_lossy
percent_decode-percent_encode_example =
    percent_decode-percent_encode ascii_lossy usual (codes "50% of") refl (omega arith) refl
