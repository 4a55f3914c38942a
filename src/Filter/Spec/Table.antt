-- ===== src/Filter/Spec/Table.antt =====
-- The tables of src/filter.rs: `DENSE_KINDS`, and the kinds that `SPECS`
-- lists before and after them.
use den_atlas.Prelude.{List, [], ◌∷◌}
use den_atlas.Prelude.Bytes.{codes}
use den_atlas.Filter.Spec.{Mode, IdFormat, Data, Spec, DenseKind}

abbrev pub dense_kinds : List DenseKind
dense_kinds =
    record {
      kind = codes "technique";
      table = codes "technique";
      names = codes "technique_names";
      floor = 40;
      about = "how it is made: live action, anime, CG, …";
    }
    ∷ record {
      kind = codes "audience";
      table = codes "audience";
      names = codes "audience_names";
      floor = 50;
      about = "who it is made for";
    }
    ∷ record {
      kind = codes "critique";
      table = codes "critique";
      names = codes "critique_names";
      floor = 60;
      about = "what it critiques";
    }
    ∷ record {
      kind = codes "warning";
      table = codes "depicts";
      names = codes "depicts_names";
      floor = 50;
      about = "what it depicts; exclude one with -warning:<id>";
    }
    ∷ []

unfoldable pub first_kinds : List Spec
first_kinds =
    record {
      name = codes "genre";
      mode = Mode.and;
      id = IdFormat.integer;
      data_of = Data.bits;
      about =
          "TMDB genre id; a series also under TMDB's composites, and under all a film id matches the series filed under it too";
    }
    ∷ record {
      name = codes "language";
      mode = Mode.and;
      id = IdFormat.lower;
      data_of = Data.bits;
      about = "ISO 639-1, every original language";
    }
    ∷ record {
      name = codes "country";
      mode = Mode.and;
      id = IdFormat.upper;
      data_of = Data.bits;
      about = "ISO 3166-1, every country of origin";
    }
    ∷ record {
      name = codes "region";
      mode = Mode.single;
      id = IdFormat.lower;
      data_of = Data.bits;
      about = "a notable region by slug (`regions`): any of its countries of origin";
    }
    ∷ record {
      name = codes "decade";
      mode = Mode.single;
      id = IdFormat.decade;
      data_of = Data.bits;
      about = "the release, or a series' first air date";
    }
    ∷ record {
      name = codes "mood";
      mode = Mode.and;
      id = IdFormat.label;
      data_of = Data.bits;
      about = "a mood label at 0.55 or more";
    }
    ∷ record {
      name = codes "subgenre";
      mode = Mode.and;
      id = IdFormat.label;
      data_of = Data.bits;
      about = "a subgenre label at 0.55 or more";
    }
    ∷ record {
      name = codes "primary";
      mode = Mode.single;
      id = IdFormat.label;
      data_of = Data.bits;
      about = "the labels' primary genre";
    }
    ∷ record {
      name = codes "animated";
      mode = Mode.single;
      id = IdFormat.lower;
      data_of = Data.bits;
      about = "yes or no";
    }
    ∷ record {
      name = codes "runtime";
      mode = Mode.single;
      id = IdFormat.lower;
      data_of = Data.bits;
      about = "under-90, 90-120, 120-150, over-150; a series per episode";
    }
    ∷ record {
      name = codes "source";
      mode = Mode.and;
      id = IdFormat.lower;
      data_of = Data.bits;
      about = "what it was adapted from: book, play, …";
    }
    ∷ record {
      name = codes "rating";
      mode = Mode.single;
      id = IdFormat.integer;
      data_of = Data.rating;
      about = "the rating provider's average at or above 6, 7 or 8 out of 10, on 10+ votes";
    }
    ∷ []

unfoldable pub last_kinds : List Spec
last_kinds =
    record {
      name = codes "studio";
      mode = Mode.and;
      id = IdFormat.qid;
      data_of = Data.bits;
      about =
          "an iconic studio by its own item (/index/studios.json): a title crediting any item the studio is, its TV or animation arm included";
    }
    ∷ record {
      name = codes "award";
      mode = Mode.and;
      id = IdFormat.qid;
      data_of = Data.bits;
      about =
          "a ceremony or awarding body by its Wikidata item (/index/awards.json): won or nominated there (P166, P1411), award:Q19020 the Academy Awards. Categories are not held; a title with no award on record is not known to lack one";
    }
    ∷ record {
      name = codes "won";
      mode = Mode.and;
      id = IdFormat.qid;
      data_of = Data.bits;
      about =
          "a ceremony a title won at least one award at (P166), by its item: won:Q19020 won an Oscar";
    }
    ∷ record {
      name = codes "character";
      mode = Mode.and;
      id = IdFormat.character;
      data_of = Data.character_names;
      about = "a character; search-only";
    }
    ∷ record {
      name = codes "like";
      mode = Mode.single;
      id = IdFormat.title;
      data_of = Data.like;
      about =
          "More Like This for a title of the route's type; under all, for a typed title, films and series mixed";
    }
    ∷ record {
      name = codes "fans";
      mode = Mode.single;
      id = IdFormat.title;
      data_of = Data.fans;
      about =
          "You Might Also Like for a title of the route's type (its fan picks, then the titles they tie to it); under all, for a typed title, films and series mixed";
    }
    ∷ []
