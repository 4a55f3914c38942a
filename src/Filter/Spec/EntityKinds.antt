-- ===== src/Filter/Spec/EntityKinds.antt =====
-- src/filter.rs: `FORMATS` and `ENTITY_KINDS`, the kinds of posting lists.
use Prim.Native.String.{String}
use den_atlas.Prelude.{ℕ, true, false, List, [], ◌∷◌}
use den_atlas.Prelude.Bytes.{codes}
use den_atlas.Filter.Spec.{EntitySpec}

abbrev pub formats : List (ℕ × String)
formats =
    (506240, "Television film")
    ∷ (202866, "Animated film")
    ∷ (63952888, "Anime television series")
    ∷ (24862, "Short film")
    ∷ (117467246, "Animated series")
    ∷ (1259759, "Miniseries")
    ∷ (17517379, "Animated short film")
    ∷ (20650540, "Anime film")
    ∷ (526877, "Web series")
    ∷ (1261214, "Television special")
    ∷ (98701476, "Television film broadcast in two parts")
    ∷ (20667187, "Silent short film")
    ∷ (113671041, "Original net animation series")
    ∷ (98807719, "Animated television film")
    ∷ (123126551, "Animated television special")
    ∷ []

unfoldable pub entity_kinds : List EntitySpec
entity_kinds =
    record {
      kind = codes "person";
      sections = (codes "makers_v", codes "makers_o") ∷ (codes "cast_v", codes "cast_o") ∷ [];
      raw_qids = false;
      min_titles = 1;
      series_only = false;
      only = [];
      about = "anyone credited: director, creator, screenwriter or cast";
    }
    ∷ record {
      kind = codes "made";
      sections = (codes "makers_v", codes "makers_o") ∷ [];
      raw_qids = false;
      min_titles = 1;
      series_only = false;
      only = [];
      about = "a director, creator or screenwriter";
    }
    ∷ record {
      kind = codes "director";
      sections = (codes "directors_v", codes "directors_o") ∷ [];
      raw_qids = false;
      min_titles = 1;
      series_only = false;
      only = [];
      about = "a director credited on the title";
    }
    ∷ record {
      kind = codes "writer";
      sections = (codes "writers_v", codes "writers_o") ∷ [];
      raw_qids = false;
      min_titles = 1;
      series_only = false;
      only = [];
      about = "a screenwriter credited on the title";
    }
    ∷ record {
      kind = codes "creator";
      sections = (codes "creators_v", codes "creators_o") ∷ [];
      raw_qids = false;
      min_titles = 1;
      series_only = false;
      only = [];
      about = "a creator credited on the title";
    }
    ∷ record {
      kind = codes "cast";
      sections = (codes "cast_v", codes "cast_o") ∷ [];
      raw_qids = false;
      min_titles = 1;
      series_only = false;
      only = [];
      about = "a cast member";
    }
    ∷ record {
      kind = codes "author";
      sections = (codes "src_authors_v", codes "src_authors_o") ∷ [];
      raw_qids = false;
      min_titles = 1;
      series_only = false;
      only = [];
      about =
          "the author (P50) of a work the title is adapted from (P144): author:Q39829 is adapted from Stephen King. Not a credit: a screenwriter is not a source author";
    }
    ∷ record {
      kind = codes "company";
      sections = (codes "companies_v", codes "companies_o") ∷ [];
      raw_qids = false;
      min_titles = 5;
      series_only = false;
      only = [];
      about = "a production company (P272)";
    }
    ∷ record {
      kind = codes "network";
      sections = (codes "broadcasters_v", codes "broadcasters_o") ∷ [];
      raw_qids = false;
      min_titles = 1;
      series_only = true;
      only = [];
      about = "the network or service a series first aired on (P449)";
    }
    ∷ record {
      kind = codes "franchise";
      sections = (codes "franchise_v", codes "franchise_o") ∷ [];
      raw_qids = true;
      min_titles = 1;
      series_only = false;
      only = [];
      about = "a film or television series the title is part of (P179)";
    }
    ∷ record {
      kind = codes "subject";
      sections = (codes "subjects_v", codes "subjects_o") ∷ [];
      raw_qids = false;
      min_titles = 5;
      series_only = false;
      only = [];
      about = "a main subject (P921)";
    }
    ∷ record {
      kind = codes "place";
      sections = (codes "locations_v", codes "locations_o") ∷ [];
      raw_qids = false;
      min_titles = 5;
      series_only = false;
      only = [];
      about = "a narrative location (P840)";
    }
    ∷ record {
      kind = codes "format";
      sections = (codes "instance_of_v", codes "instance_of_o") ∷ [];
      raw_qids = false;
      min_titles = 5;
      series_only = false;
      only =
          506240 ∷ 202866 ∷ 63952888 ∷ 24862 ∷ 117467246 ∷ 1259759 ∷ 17517379 ∷ 20650540 ∷ 526877
          ∷ 1261214 ∷ 98701476 ∷ 20667187 ∷ 113671041 ∷ 98807719 ∷ 123126551 ∷ [];
      about =
          "what the title is an instance of (P31): feature film, miniseries, animated series, …";
    }
    ∷ []
