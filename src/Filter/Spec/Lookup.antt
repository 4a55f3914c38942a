-- ===== src/Filter/Spec/Lookup.antt =====
-- All kinds and the look-up of one by its name: `SPECS`, `spec`, `tmdb_kinds` and `format_label` of
-- src/filter.rs. The names of the plot axes (`den_store::FACET_AXES`) are an argument.
use Prim.Native.String.{String}
use den_atlas.Prelude.{
  ℕ, suc, Bool, List, [], ◌∷◌, ◌++◌, Option, none, some, map, if◌then◌else◌, ◌==◌,
}
use den_atlas.Prelude.Bytes.{Text, same_text}
use den_atlas.Filter.Spec.{Mode, IdFormat, Data, Spec, EntitySpec, DenseKind, is_tmdb}
use den_atlas.Filter.Spec.Table.{first_kinds, dense_kinds, last_kinds}
use den_atlas.Filter.Spec.EntityKinds.{entity_kinds, formats}

unfoldable pub find_label : ℕ → List (ℕ × String) → Option String
find_label qid [] = none
find_label qid ((id, name) ∷ rest) = if id == qid then some name else find_label qid rest

unfoldable pub format_label : ℕ → Option String
unfolding find_label
format_label qid = find_label qid formats

abbrev pub dense_spec : DenseKind → Spec
dense_spec k = record {
  name = k.kind;
  mode = Mode.and;
  id = IdFormat.lower;
  data_of = Data.bits;
  about = k.about;
}

abbrev pub axis_spec : Text → Spec
axis_spec axis = record {
  name = axis;
  mode = Mode.single;
  id = IdFormat.lower;
  data_of = Data.bits;
  about = "a plot-facet axis";
}

-- `iter().enumerate()`
unfoldable pub entity_specs : ℕ → List EntitySpec → List Spec
entity_specs i [] = []
entity_specs i (k ∷ ks) =
    record {
      name = k.kind;
      mode = Mode.and;
      id = IdFormat.qid;
      data_of = Data.entity i;
      about = k.about;
    }
    ∷ entity_specs (suc i) ks

unfoldable pub specs : List Text → List Spec
unfolding first_kinds last_kinds entity_kinds entity_specs
specs axes =
    first_kinds
    ++ map dense_spec dense_kinds
    ++ map axis_spec axes
    ++ entity_specs 0 entity_kinds
    ++ last_kinds

unfoldable pub find_spec : Text → List Spec → Option Spec
find_spec name [] = none
find_spec name (s ∷ ss) = if same_text s.name name then some s else find_spec name ss

unfoldable pub spec : List Text → Text → Option Spec
unfolding specs find_spec
spec axes name = find_spec name (specs axes)

unfoldable pub names_where : (Spec → Bool) → List Spec → List Text
names_where p [] = []
names_where p (s ∷ ss) = if p s then s.name ∷ names_where p ss else names_where p ss

unfoldable pub tmdb_kinds : List Text → List Text
unfolding specs names_where is_tmdb
tmdb_kinds axes = names_where is_tmdb (specs axes)
