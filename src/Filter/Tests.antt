-- ===== src/Filter/Tests.antt =====
-- src/filter.rs at concrete selections.
use den_atlas.Prelude.{
  ℕ, ◌+◌, ◌*◌, ◌^◌, ◌<◌, ◌≡◌, refl, Bool, true, false, not, ◌&&◌, List, [], ◌∷◌, Option, none, some,
  arith, ◌==◌, ltb, length, All, ◌↔◌, get_elem?,
}
use den_atlas.Prelude.Bytes.{Text, codes}
use den_atlas.Prelude.Rows.{ascending, contains}
use den_atlas.Index.{movie}
use den_atlas.Filter.Spec.EntityKinds.{entity_kinds}
use den_atlas.Filter.Spec.{EntitySpec, Spec, Mode, IdFormat, Data, Scope}
use den_atlas.Filter.Spec.Lookup.{specs, spec}
use den_atlas.Filter.Spec.Names.{spec-entity}
use den_atlas.Filter.Bits.{has, ones}
use den_atlas.Filter.Bits.Words.{rows_from}
use den_atlas.Filter.Bits.Rows.{ones-rows_from}
use den_atlas.Filter.Entities.{Postings, each_title}
use den_atlas.Filter.Entities.Titles.{each_title-credited}
use den_atlas.Filter.State.{Context, words}
use den_atlas.Filter.Values.Shapes.{IsShaped}
use den_atlas.Filter.Matching.{Item, matched_without, counted}
use den_atlas.Filter.Matching.Rows.{has-matched_without}
use den_atlas.Filter.Matching.Counts.{counted_lem}
use den_atlas.Prelude.{◌≢◌, ◌≤◌}
use den_atlas.Prelude.Bytes.{same_text}
use den_atlas.Filter.Interleaving.{interleave}
use den_atlas.Filter.Interleaving.Fair.{filter, films_in, series_in, IsFair, interleave-IsFair}

ones-rows_from_example : ones (5 ∷ 2 ^ 63 ∷ []) ≡ 0 ∷ 2 ∷ 127 ∷ []
unfolding rows_from has
ones-rows_from_example = ones-rows_from (5 ∷ 2 ^ 63 ∷ []) (omega arith, (omega arith, tt))

-- Entity 1 makes the titles 2 and 3, and plays in 3 and 5.
abbrev makers : Postings
makers = record { starts = 0 ∷ 1 ∷ 3 ∷ []; rows = 4 ∷ 2 ∷ 3 ∷ [] }

abbrev casts : Postings
casts = record { starts = 0 ∷ 0 ∷ 2 ∷ []; rows = 3 ∷ 5 ∷ [] }

each_title-credited_example :
    (ascending (each_title (makers ∷ casts ∷ []) 1) ≡ true)
    × (contains 3 (each_title (makers ∷ casts ∷ []) 1) ≡ true)
unfolding ascending den_atlas.Filter.Entities.rows_of contains
each_title-credited_example = each_title-credited (makers ∷ casts ∷ []) 1 3 refl

-- Three films, of which the first two are dramas and the third a comedy; the first is dark, and the second
-- perhaps.
abbrev sample : Context
sample = record {
  scope = Scope.of_type movie;
  types = record { movies = 7 ∷ []; series = 8 ∷ []; all = 15 ∷ [] };
  bits =
      (
        codes "genre",
        record { values = (codes "18", 3 ∷ []) ∷ (codes "35", 4 ∷ []) ∷ []; known = 7 ∷ [] },
      )
      ∷ (codes "tone", record { values = (codes "dark", 1 ∷ []) ∷ []; known = 1 ∷ [] })
      ∷ [];
  likely = (codes "tone", (codes "dark", 2 ∷ []) ∷ []) ∷ [];
  entities = λ i. none;
  unavailable = [];
  has_ratings = false;
  rating = none;
  characters = none;
  ent_qid = [];
  like_rows = λ d id. [];
  maturity = some (3 ∷ []);
}

sample-IsShaped : IsShaped sample
sample-IsShaped = record {
  fits_movies = (refl, (omega arith, tt));
  fits_series = (refl, (omega arith, tt));
  fits_all = (refl, (omega arith, tt));
  fits_bits = (
    (((refl, (omega arith, tt)), ((refl, (omega arith, tt)), tt)), (refl, (omega arith, tt))),
    ((((refl, (omega arith, tt)), tt), (refl, (omega arith, tt))), tt),
  );
  fits_likely = (((refl, (omega arith, tt)), tt), tt);
  fits_entities = λ i. tt;
  fits_rating = tt;
  fits_characters = tt;
  fits_maturity = (refl, (omega arith, tt));
}

abbrev tone : Spec
tone = record {
  name = codes "tone";
  mode = Mode.single;
  id = IdFormat.lower;
  data_of = Data.bits;
  about = "a plot-facet axis";
}

-- The third kind of posting lists is that of directors.
spec-entity_example :
    ((s : Spec) × (spec (codes "tone" ∷ []) (codes "director") ≡ some s)
      × (s.data_of ≡ Data.entity 2))
    ↔ ((k : EntitySpec) × (get_elem? entity_kinds 2 ≡ some k) × (k.kind ≡ codes "director"))
unfolding specs same_text
spec-entity_example = spec-entity (codes "tone" ∷ []) (codes "director") 2 refl

abbrev dark : List (Spec × Item)
dark = (tone, record { kind = codes "tone"; exclude = false; ids = codes "dark" ∷ [] }) ∷ []

abbrev keep_all : Spec → Item → Bool
keep_all s item = false

has-matched_without_example :
    (has (matched_without sample dark keep_all).sure 1 ≡ false)
    × (has (matched_without sample dark keep_all).any 1 ≡ true)
unfolding has den_atlas.Filter.State.of_scope den_atlas.Filter.Values.value_bits
    den_atlas.Prelude.Bytes.text_dec den_atlas.Filter.Values.likely_bits
has-matched_without_example =
    has-matched_without sample dark keep_all 1 sample-IsShaped (omega arith)

no_tier : (r : ℕ) → r < 64 * words sample → (has (3 ∷ []) r && false) ≡ false
no_tier r h = ground arith

counted_lem_example :
    ((counted (matched_without sample dark keep_all) (3 ∷ []) none).total ≡ 2)
    × ((counted (matched_without sample dark keep_all) (3 ∷ []) none).likely ≡ 1)
unfolding rows_from has matched_without den_atlas.Prelude.Bytes.text_dec
counted_lem_example =
    counted_lem sample dark keep_all (3 ∷ []) none sample-IsShaped (refl, (omega arith, tt)) tt
      no_tier

abbrev is_film : ℕ → Bool
is_film n = ltb n 10

interleave-IsFair_example :
    (filter is_film (interleave (1 ∷ 2 ∷ 3 ∷ []) (11 ∷ [])) ≡ 1 ∷ 2 ∷ 3 ∷ [])
    × (filter (λ n. not (is_film n)) (interleave (1 ∷ 2 ∷ 3 ∷ []) (11 ∷ [])) ≡ 11 ∷ [])
    × IsFair 3 1
        (films_in is_film 2 (interleave (1 ∷ 2 ∷ 3 ∷ []) (11 ∷ [])))
        (series_in is_film 2 (interleave (1 ∷ 2 ∷ 3 ∷ []) (11 ∷ [])))
interleave-IsFair_example = interleave-IsFair is_film (1 ∷ 2 ∷ 3 ∷ []) (11 ∷ []) 2 refl refl
