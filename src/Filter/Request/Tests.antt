-- ===== src/Filter/Request/Tests.antt =====
-- The reading of ids and requests of src/filter.rs, at concrete ones.
use den_atlas.Prelude.{
  ℕ, ◌+◌, ◌*◌, ◌^◌, ◌<◌, ◌≡◌, refl, Bool, true, false, not, ◌&&◌, List, [], ◌∷◌, Option, none, some,
  arith, ◌==◌, ltb, length, All,
}
use den_atlas.Prelude.Bytes.{Text, codes}
use den_atlas.Filter.Spec.{IdFormat, Scope}
use den_atlas.Filter.Matching.{Item}
use den_atlas.Prelude.{◌≢◌, if◌then◌else◌, ◌≤◌}
use den_atlas.Prelude.Bytes.{same_text}
use den_atlas.Prelude.Results.{ok}
use den_atlas.Filter.Ids.{Naming, normalise_id, normalise}
use den_atlas.Filter.Ids.Stable.{normalise_id_stable}
use den_atlas.Filter.Traits.{Order}
use den_atlas.Filter.Request.{read_items, decode, selection_text}
use den_atlas.Filter.Request.RoundTrip.{IsReadable, read_items-selection_text}
use den_atlas.Filter.Request.Parameters.{Route, Request, one_title}
use den_atlas.Filter.Request.Parse.{parse}
use den_atlas.Filter.Request.Pages.{IsPage, parse-IsPage}

-- A reading that takes every byte beyond ASCII for an error, and puts U+FFFD in its place.
unfoldable ascii_lossy : Text → Text
ascii_lossy [] = []
ascii_lossy (c ∷ s) =
    let rest = ascii_lossy s in if ltb c 128 then c ∷ rest else 0xEF ∷ 0xBF ∷ 0xBD ∷ rest

abbrev naming : Naming
naming = record {
  axes = codes "tone" ∷ [];
  utf8_lossy = ascii_lossy;
  character_name = λ s. s;
  name_key = λ s. s;
  latest_birth = 2027;
}

title_not_character : IdFormat.title ≢ IdFormat.character
title_not_character e = ground arith

normalise_id_stable_example :
    normalise_id naming IdFormat.title Scope.all_types (codes "series-1396")
    ≡ ok (codes "series-1396")
unfolding normalise_id same_text den_atlas.Prelude.Bytes.parse_digits
normalise_id_stable_example =
    normalise_id_stable naming IdFormat.title Scope.all_types (codes "Series-01396")
      (codes "series-1396") title_not_character refl

-- France or Italy, and not dark.
abbrev chosen : List Item
chosen =
    record { kind = codes "country"; exclude = false; ids = codes "FR" ∷ codes "IT" ∷ [] }
    ∷ record { kind = codes "tone"; exclude = true; ids = codes "very dark" ∷ [] }
    ∷ []

some_ids : (id : Text) (ids : List Text) → id ∷ ids ≢ []
some_ids id ids e = ground arith

small_bytes : (c : ℕ) → ltb c 256 ≡ true → c < 256
small_bytes c h = ground arith

chosen-IsReadable : All (IsReadable (normalise naming Scope.all_types) one_title) chosen
unfolding den_atlas.Prelude.Bytes.starts_with den_atlas.Prelude.Separators.lacks normalise same_text
    den_atlas.Filter.Request.sorted_ids den_atlas.Prelude.Perms.sort
chosen-IsReadable = (
  record {
    is_plain = record {
      plain = refl;
      told = refl;
      some_ids = some_ids (codes "FR") (codes "IT" ∷ []);
      ids_plain = (
        (refl, refl, (omega arith, (omega arith, tt))),
        ((refl, refl, (omega arith, (omega arith, tt))), tt),
      );
    };
    ids_read = (refl, (refl, tt));
    ids_sorted = refl;
    ids_allowed = refl;
  },
  (
    record {
      is_plain = record {
        plain = refl;
        told = refl;
        some_ids = some_ids (codes "very dark") [];
        ids_plain = ((refl, refl, small_text), tt);
      };
      ids_read = (refl, tt);
      ids_sorted = refl;
      ids_allowed = refl;
    },
    tt,
  ),
)
  where
    small_text : All (λ c. c < 256) (codes "very dark")
    small_text = (
      omega arith,
      (
        omega arith,
        (
          omega arith,
          (
            omega arith,
            (omega arith, (omega arith, (omega arith, (omega arith, (omega arith, tt))))),
          ),
        ),
      ),
    )

read_items-selection_text_example :
    read_items
      (normalise naming Scope.all_types)
      one_title
      (decode ascii_lossy (selection_text chosen))
    ≡ ok chosen
unfolding den_atlas.Filter.Request.sorted_items den_atlas.Prelude.Perms.sort same_text ascii_lossy
read_items-selection_text_example =
    read_items-selection_text (normalise naming Scope.all_types) one_title ascii_lossy chosen
      chosen-IsReadable refl (omega arith) refl

abbrev page_three : Request
page_three = record {
  items =
      record { kind = codes "country"; exclude = false; ids = codes "FR" ∷ codes "IT" ∷ [] } ∷ [];
  traits = [];
  order = Order.prominence;
  skip = 48;
  limit = 24;
  q = none;
  canonical = false;
  canonical_query = codes "sel=country:FR|IT&skip=48";
}

parse-IsPage_example :
    (length (codes "sel=country:fr|IT&skip=48&limit=24") ≤ 2048)
    × IsPage Route.titles 24 48
    × (page_three.canonical
        ≡ same_text (codes "sel=country:fr|IT&skip=48&limit=24") page_three.canonical_query)
unfolding parse ascii_lossy same_text den_atlas.Prelude.Perms.sort
    den_atlas.Prelude.Bytes.parse_digits
parse-IsPage_example =
    parse-IsPage naming Route.titles Scope.all_types (codes "sel=country:fr|IT&skip=48&limit=24")
      page_three refl
