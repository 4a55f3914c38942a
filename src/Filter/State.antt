-- ===== src/Filter/State.antt =====
-- What a request reads: `Valued`, `Context` and `Context::status` of src/filter.rs. The characters'
-- rows (src/characters.rs) and the rows of More Like This (src/queries.rs) are fields.
use den_atlas.Prelude.{
  ℕ, zero, suc, Bool, true, false, not, ◌&&◌, List, [], ◌∷◌, Option, none, some, length,
  if◌then◌else◌, get_elem?,
}
use den_atlas.Prelude.Bytes.{Text, same_text, text_dec}
use den_atlas.Prelude.Map.{lookup}
use den_atlas.Index.{movie, tv}
use den_atlas.Filter.Spec.{Spec, Scope, Data}
use den_atlas.Filter.Spec.EntityKinds.{entity_kinds}
use den_atlas.Filter.Bits.{Bits}
use den_atlas.Filter.Entities.{EntityKind}

-- A kind's values with the titles carrying each, and the titles the kind is known for.
pub record Valued : Type 0 where
  pub values : List (Text × Bits)
  pub known : Bits

pub record Characters : Type 0 where
  pub named_rows : Text → List ℕ
  pub known : Bits

-- One table per scope.
pub record Types : Type 0 where
  pub movies : Bits
  pub series : Bits
  pub all : Bits

pub record Context : Type 0 where
  pub scope : Scope
  pub types : Types
  pub bits : List (Text × Valued)
  pub likely : List (Text × List (Text × Bits))
  pub entities : ℕ → Option EntityKind
  pub unavailable : List Text
  pub has_ratings : Bool
  pub rating : Option Valued
  pub characters : Option Characters
  pub ent_qid : List ℕ
  pub like_rows : Data → Text → List ℕ
  pub maturity : Option Bits

unfoldable pub scope_index : Scope → ℕ
scope_index (Scope.of_type movie) = 0
scope_index (Scope.of_type tv) = 1
scope_index Scope.all_types = 2

unfoldable pub table : Types → ℕ → Bits
table t zero = t.movies
table t (suc zero) = t.series
table t (suc (suc n)) = t.all

-- `types[self.t()]`
unfoldable pub of_scope : Context → Bits
unfolding table scope_index
of_scope c = table c.types (scope_index c.scope)

abbrev pub words : Context → ℕ
words c = length c.types.movies

pub data Status : Type 0 where
  ready unavailable_now not_offered : Status

unfoldable pub any_text : Text → List Text → Bool
any_text t [] = false
any_text t (s ∷ ss) = if same_text s t then true else any_text t ss

abbrev is_some {ℓ} : {A : Type ℓ} → Option A → Bool
is_some none = false
is_some (some a) = true

abbrev movies_only : Scope → Bool
movies_only (Scope.of_type movie) = true
movies_only (Scope.of_type tv) = false
movies_only Scope.all_types = false

unfoldable pub is_series_only : ℕ → Bool
unfolding entity_kinds
is_series_only i = elim (get_elem? entity_kinds i) [ none ↦ false | some k ↦ k.series_only ]

unfoldable pub status : Context → Spec → Status
unfolding any_text lookup is_series_only
status c s = elim s.data_of [
  | Data.bits ↦
      if is_some (lookup text_dec s.name c.bits)
      then Status.ready
      else if any_text s.name c.unavailable
      then Status.unavailable_now
      else Status.not_offered
  | Data.rating ↦
      if not c.has_ratings
      then Status.not_offered
      else if is_some c.rating
      then Status.ready
      else Status.unavailable_now
  | Data.entity i ↦
      if is_series_only i && movies_only c.scope
      then Status.not_offered
      else if is_some (c.entities i)
      then Status.ready
      else Status.not_offered
  | Data.character_names ↦ if is_some c.characters then Status.ready else Status.not_offered
  | Data.like ↦ Status.ready
  | Data.fans ↦ Status.ready
]
