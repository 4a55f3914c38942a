-- ===== src/Config/Tests.antt =====
-- Segments that src/config.rs reads.
use den_atlas.Prelude.{ℕ, ◌≤◌, ◌≡◌, refl, List, [], ◌∷◌, ◌++◌, Option, none, some, inl, inr, length}
use den_atlas.Prelude.Bytes.{Text, codes}
use den_atlas.Config.{Config, Provider, fixed, auto, parse, country, add_codes}
use den_atlas.Config.Selection.{IsSelection, parse-IsSelection}

abbrev netflix : Provider
netflix = record {
  code = codes "nfx";
  id = codes "jw-nfx";
  name = codes "Popular on Netflix";
  package_ids = 8 ∷ [];
  motn = codes "netflix";
}

abbrev max : Provider
max = record {
  code = codes "mxx";
  id = codes "jw-mxx";
  name = codes "Popular on HBO Max";
  package_ids = 1899 ∷ [];
  motn = codes "hbo";
}

abbrev table : List Provider
table = netflix ∷ max ∷ []

abbrev sweden : Config
sweden = record { region = fixed (codes "SE"); providers = max ∷ netflix ∷ [] }

parse_manifest : parse table (codes "manifest.json") ≡ none
unfolding parse den_atlas.Prelude.Bytes.split_once
parse_manifest = refl

parse-IsSelection_example :
    IsSelection table (max ∷ netflix ∷ []) × (length (max ∷ netflix ∷ []) ≤ length table)
unfolding parse den_atlas.Prelude.Bytes.split_once den_atlas.Config.eq_ignore_case
    den_atlas.Prelude.Bytes.same_text den_atlas.Config.normalize_country
    den_atlas.Prelude.Bytes.trim den_atlas.Config.all_alphabetic den_atlas.Prelude.Bytes.split
parse-IsSelection_example = parse-IsSelection table (codes "se_mxx-nfx-zz-mxx") sweden refl

abbrev anywhere : Config
anywhere = record { region = auto; providers = netflix ∷ [] }
