-- ===== src/Index/Regions.antt =====
-- crates/den-index/src/regions.rs: groups of countries, and the continents.
pub mod Tables
mod Tests
use den_atlas.Prelude.{ℕ, Bool, true, false, List, [], ◌∷◌, ◌++◌, Option, none, some, if◌then◌else◌}
use Prim.Native.String.{String}
use den_atlas.Prelude.Bytes.{Text, codes, same_text, split}

pub record Region : Type 0 where
  pub slug : Text
  pub label : Text
  pub aliases : List Text
  pub countries : List Text

-- Codes written with a space between two.
unfoldable words : String → List Text
unfolding split
words s = split 32 (codes s)

unfoldable pub regions : List Region
unfolding words
regions =
    record {
      slug = codes "nordic";
      label = codes "Nordic";
      aliases = codes "nordic" ∷ codes "nordics" ∷ [];
      countries = words "SE NO DK FI IS";
    }
    ∷ record {
      slug = codes "scandinavian";
      label = codes "Scandinavian";
      aliases = codes "scandinavian" ∷ codes "scandinavia" ∷ codes "scandi" ∷ [];
      countries = words "SE NO DK";
    }
    ∷ record {
      slug = codes "british-irish";
      label = codes "British & Irish";
      aliases = codes "british isles" ∷ codes "uk and ireland" ∷ [];
      countries = words "GB IE";
    }
    ∷ record {
      slug = codes "slavic";
      label = codes "Slavic";
      aliases = codes "slavic" ∷ codes "eastern european" ∷ [];
      countries = words "RU UA BY PL CZ SK SI HR RS BA ME MK BG";
    }
    ∷ record {
      slug = codes "north-american";
      label = codes "North American";
      aliases = [];
      countries = words "US CA";
    }
    ∷ record {
      slug = codes "latin-american";
      label = codes "Latin American";
      aliases =
          codes "latin" ∷ codes "latino" ∷ codes "latin america" ∷ codes "south american" ∷ [];
      countries = words "MX GT BZ HN SV NI CR PA CU DO PR CO VE EC PE BO BR PY UY AR CL";
    }
    ∷ record {
      slug = codes "east-asian";
      label = codes "East Asian";
      aliases = codes "east asian" ∷ codes "asian" ∷ [];
      countries = words "JP KR CN TW HK";
    }
    ∷ record {
      slug = codes "southeast-asian";
      label = codes "Southeast Asian";
      aliases = [];
      countries = words "TH VN PH ID MY SG KH LA MM";
    }
    ∷ record {
      slug = codes "south-asian";
      label = codes "South Asian";
      aliases = codes "indian subcontinent" ∷ codes "desi" ∷ [];
      countries = words "IN PK BD LK NP";
    }
    ∷ record {
      slug = codes "middle-eastern";
      label = codes "Middle Eastern";
      aliases = codes "middle east" ∷ codes "arab" ∷ [];
      countries = words "TR IR IL SA AE QA KW BH OM JO LB SY IQ YE PS EG";
    }
    ∷ record {
      slug = codes "african";
      label = codes "African";
      aliases = codes "africa" ∷ codes "nollywood" ∷ [];
      countries =
          words "DZ AO BJ BW BF BI CM CV CF TD KM CG CD CI DJ EG GQ ER SZ ET GA GM GH GN GW"
          ++ (words "KE LS LR LY MG MW ML MR MU MA MZ NA NE NG RW ST SN SC SL SO ZA SS SD TZ TG"
              ++ words "TN UG ZM ZW");
    }
    ∷ record {
      slug = codes "oceanian";
      label = codes "Oceanian";
      aliases = codes "australian" ∷ codes "new zealand" ∷ codes "oceania" ∷ codes "aussie" ∷ [];
      countries = words "AU NZ";
    }
    ∷ []

-- The first with the slug.
unfoldable pub find_region : Text → List Region → Option Region
find_region slug [] = none
find_region slug (r ∷ rs) = if same_text r.slug slug then some r else find_region slug rs

unfoldable pub region : Text → Option Region
unfolding find_region
region slug = find_region slug regions

unfoldable pub continents : List Region
unfolding words
continents =
    record {
      slug = codes "europe";
      label = codes "Europe";
      aliases = [];
      countries =
          words "AD AL AT BA BE BG BY CH CY CZ DE DK EE ES FI FO FR GB GI GR HR HU IE IS IT"
          ++ words "LI LT LU LV MC MD ME MK MT NL NO PL PT RO RS RU SE SI SK SM UA VA XK";
    }
    ∷ record {
      slug = codes "asia";
      label = codes "Asia";
      aliases = [];
      countries =
          words "AE AF AM AZ BD BH BN BT CN GE HK ID IL IN IQ IR JO JP KG KH KP KR KW KZ LA"
          ++ words "LB LK MM MN MO MV MY NP OM PH PK PS QA SA SG SY TH TJ TL TM TR TW UZ VN YE";
    }
    ∷ record {
      slug = codes "africa";
      label = codes "Africa";
      aliases = [];
      countries =
          words "DZ AO BJ BW BF BI CM CV CF TD KM CG CD CI DJ EG GQ ER SZ ET GA GM GH GN GW"
          ++ (words "KE LS LR LY MG MW ML MR MU MA MZ NA NE NG RW ST SN SC SL SO ZA SS SD TZ TG"
              ++ words "TN UG ZM ZW");
    }
    ∷ record {
      slug = codes "north-america";
      label = codes "North America";
      aliases = [];
      countries = words "US CA MX GT BZ HN SV NI CR PA CU DO PR HT JM BS BB TT";
    }
    ∷ record {
      slug = codes "south-america";
      label = codes "South America";
      aliases = [];
      countries = words "CO VE EC PE BO BR PY UY AR CL GY SR";
    }
    ∷ record {
      slug = codes "oceania";
      label = codes "Oceania";
      aliases = [];
      countries = words "AU NZ FJ PG WS TO";
    }
    ∷ []
