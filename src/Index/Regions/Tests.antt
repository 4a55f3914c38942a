-- ===== src/Index/Regions/Tests.antt =====
-- Countries in the tables of crates/den-index/src/regions.rs.
use den_atlas.Prelude.{[], ◌∷◌}
use den_atlas.Prelude.Bytes.{codes}
use den_atlas.Index.Regions.{Region}

abbrev scandinavian : Region
scandinavian = record {
  slug = codes "scandinavian";
  label = codes "Scandinavian";
  aliases = codes "scandinavian" ∷ codes "scandinavia" ∷ codes "scandi" ∷ [];
  countries = codes "SE" ∷ codes "NO" ∷ codes "DK" ∷ [];
}

abbrev oceania : Region
oceania = record {
  slug = codes "oceania";
  label = codes "Oceania";
  aliases = [];
  countries = codes "AU" ∷ codes "NZ" ∷ codes "FJ" ∷ codes "PG" ∷ codes "WS" ∷ codes "TO" ∷ [];
}
