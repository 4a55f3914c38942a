-- ===== src/Config/Path.antt =====
-- The configuration at the start of a path, as src/handler.rs splits it off.
use den_atlas.Prelude.{
  ℕ, ◌≡◌, ap, true, List, [], ◌∷◌, ◌++◌, none, some, arith, ◌==◌, if◌then◌else◌,
}
use den_atlas.Prelude.Bytes.{Text, split_once}
use den_atlas.Prelude.Separators.{lacks, split_once-append}
use den_atlas.Config.{Config, Provider, parse}

-- `trim_start_matches('/')`
unfoldable pub trim_slashes : Text → Text
trim_slashes [] = []
trim_slashes (c ∷ s) = if c == b'/' then trim_slashes s else c ∷ s

-- The first part of the path, and what follows it.
unfoldable pub first_part : Text → Text × Text
unfolding trim_slashes
first_part path = elim (split_once b'/' (trim_slashes path)) [
  | none ↦ (trim_slashes path, [])
  | some parts ↦ parts
]

abbrev pub configured : List Provider → Config → Text → Text × Text → Config × Text
configured table default path parts = elim (parse table parts.0) [
  | some cfg ↦ (cfg, b'/' ∷ parts.1)
  | none ↦ (default, path)
]

unfoldable pub split_config : List Provider → Config → Text → Config × Text
unfolding first_part
split_config table default path = configured table default path (first_part path)

trim_slashes-append :
    (c : ℕ) (s t : Text)
    → lacks b'/' (c ∷ s) ≡ true
    → trim_slashes (b'/' ∷ ((c ∷ s) ++ t)) ≡ (c ∷ s) ++ t
unfolding trim_slashes lacks
trim_slashes-append c s t h = ground arith

first_part-append :
    (c : ℕ) (s rest : Text)
    → lacks b'/' (c ∷ s) ≡ true
    → first_part (b'/' ∷ ((c ∷ s) ++ b'/' ∷ rest)) ≡ (c ∷ s, rest)
unfolding first_part
first_part-append c s rest h =
    ground (arith, trim_slashes-append c s (b'/' ∷ rest) h, split_once-append b'/' (c ∷ s) rest h)

-- A path whose first segment is a configuration is answered under it, as the path that follows; under
-- the operator's configuration and whole if it is none. The segment is not empty and has no slash.
pub split_config-append :
    (table : List Provider) (default : Config) (c : ℕ) (s rest : Text)
    → lacks b'/' (c ∷ s) ≡ true
    → split_config table default (b'/' ∷ ((c ∷ s) ++ b'/' ∷ rest)) ≡ elim (parse table (c ∷ s)) [
      | some cfg ↦ (cfg, b'/' ∷ rest)
      | none ↦ (default, b'/' ∷ ((c ∷ s) ++ b'/' ∷ rest))
    ]
unfolding split_config
split_config-append table default c s rest h =
    let path = b'/' ∷ ((c ∷ s) ++ b'/' ∷ rest) in
    ap (configured table default path) (first_part-append c s rest h)
