-- ===== src/Filter/Values/Shapes.antt =====
-- Every set of a context has the words of its table of films, and so has every set that `value_bits`
-- and `likely_bits` of src/filter.rs answer.
use den_atlas.Prelude.{ℕ, List, [], ◌∷◌, Option, none, some, All, ite}
use den_atlas.Prelude.Bytes.{Text, text_dec}
use den_atlas.Prelude.Map.{lookup}
use den_atlas.Index.{movie, tv}
use den_atlas.Filter.Spec.{Spec, Data, Scope}
use den_atlas.Filter.Bits.{Bits}
use den_atlas.Filter.Bits.Rows.{IsWords}
use den_atlas.Filter.Entities.{EntityKind, all_rows}
use den_atlas.Filter.State.{Context, Valued, Characters, words, of_scope, table, scope_index}
use den_atlas.Filter.Values.{
  no_rows, or_no_rows, valued_bits, rows_at, entity_bits, character_bits, data_bits, data_likely,
  tier_bits, spaced, entity_value, value_bits, likely_bits, from_rows,
}
use den_atlas.Filter.Values.Sets.{Fits, no_rows-Fits, resize-Fits, add_rows-Fits}

-- What an option holds, if anything.
abbrev pub Holds {ℓ} : {A : Type ℓ} → (A → Type 0) → Option A → Type 0
Holds P none = Unit
Holds P (some a) = P a

abbrev pub FitsValues : ℕ → List (Text × Bits) → Type 0
FitsValues n values = All (λ v. Fits n v.1) values

abbrev pub FitsValued : ℕ → Valued → Type 0
FitsValued n v = FitsValues n v.values × Fits n v.known

pub record IsShaped (c : Context) : Type 0 where
  pub fits_movies : Fits (words c) c.types.movies
  pub fits_series : Fits (words c) c.types.series
  pub fits_all : Fits (words c) c.types.all
  pub fits_bits : All (λ k. FitsValued (words c) k.1) c.bits
  pub fits_likely : All (λ k. FitsValues (words c) k.1) c.likely
  pub fits_entities : (i : ℕ) → Holds (λ k. Fits (words c) k.known) (c.entities i)
  pub fits_rating : Holds (FitsValued (words c)) c.rating
  pub fits_characters : Holds (λ x. IsWords x.known) c.characters
  pub fits_maturity : Holds (Fits (words c)) c.maturity

lookup-All :
    {V : Type 0} (P : V → Type 0) (k : Text) (m : List (Text × V))
    → All (λ e. P e.1) m
    → Holds P (lookup text_dec k m)
unfolding lookup
lookup-All P k [] h = tt
lookup-All P k ((j, v) ∷ m) h =
    elim (text_dec j k) as (λ d. Holds P (ite d (some v) (lookup text_dec k m))) [
      | yes e ↦ h.0
      | no e ↦ lookup-All P k m h.1
    ]

scope-Fits : (c : Context) (s : Scope) → IsShaped c → Fits (words c) (table c.types (scope_index s))
unfolding table scope_index
scope-Fits c (Scope.of_type movie) h = h.fits_movies
scope-Fits c (Scope.of_type tv) h = h.fits_series
scope-Fits c Scope.all_types h = h.fits_all

pub of_scope-Fits : (c : Context) → IsShaped c → Fits (words c) (of_scope c)
unfolding of_scope
of_scope-Fits c h = scope-Fits c c.scope h

from_rows-Fits : (n : ℕ) (rows : List ℕ) → Fits n (from_rows n rows)
unfolding from_rows
from_rows-Fits n rows = add_rows-Fits n (no_rows n) rows (no_rows-Fits n)

abbrev FitsBoth : ℕ → Bits × Bits → Type 0
FitsBoth n b = Fits n b.0 × Fits n b.1

or_no_rows-Fits : (n : ℕ) (o : Option Bits) → Holds (Fits n) o → Fits n (or_no_rows n o)
unfolding or_no_rows
or_no_rows-Fits n none h = no_rows-Fits n
or_no_rows-Fits n (some b) h = h

valued_bits-Fits :
    (n : ℕ) (v : Option Valued) (id : Text)
    → Holds (FitsValued n) v
    → FitsBoth n (valued_bits n v id)
unfolding valued_bits
valued_bits-Fits n none id h = (no_rows-Fits n, no_rows-Fits n)
valued_bits-Fits n (some v) id h =
    (or_no_rows-Fits n (lookup text_dec id v.values) (lookup-All (Fits n) id v.values h.0), h.1)

rows_at-Fits : (n : ℕ) (k : EntityKind) (o : Option ℕ) → Fits n (rows_at n k o)
unfolding rows_at
rows_at-Fits n k none = no_rows-Fits n
rows_at-Fits n k (some e) = from_rows-Fits n (all_rows k.postings e)

entity_bits-Fits :
    (c : Context) (k : Option EntityKind) (id : Text)
    → Holds (λ x. Fits (words c) x.known) k
    → FitsBoth (words c) (entity_bits c k id)
unfolding entity_bits
entity_bits-Fits c none id h = (no_rows-Fits (words c), no_rows-Fits (words c))
entity_bits-Fits c (some k) id h = (rows_at-Fits (words c) k (entity_value c k id), h)

character_bits-Fits :
    (n : ℕ) (x : Option Characters) (id : Text)
    → Holds (λ x. IsWords x.known) x
    → FitsBoth n (character_bits n x id)
unfolding character_bits
character_bits-Fits n none id h = (no_rows-Fits n, no_rows-Fits n)
character_bits-Fits n (some x) id h =
    (from_rows-Fits n (x.named_rows (spaced id)), resize-Fits n x.known h)

data_bits-Fits :
    (c : Context) (d : Data) (name id : Text)
    → IsShaped c
    → FitsBoth (words c) (data_bits c d name id)
unfolding data_bits
data_bits-Fits c Data.bits name id h =
    valued_bits-Fits (words c) (lookup text_dec name c.bits) id
      (lookup-All (FitsValued (words c)) name c.bits h.fits_bits)
data_bits-Fits c Data.rating name id h = valued_bits-Fits (words c) c.rating id h.fits_rating
data_bits-Fits c (Data.entity i) name id h =
    entity_bits-Fits c (c.entities i) id (h.fits_entities i)
data_bits-Fits c Data.character_names name id h =
    character_bits-Fits (words c) c.characters id h.fits_characters
data_bits-Fits c Data.like name id h =
    (from_rows-Fits (words c) (c.like_rows Data.like id), of_scope-Fits c h)
data_bits-Fits c Data.fans name id h =
    (from_rows-Fits (words c) (c.like_rows Data.fans id), of_scope-Fits c h)

pub value_bits-Fits :
    (c : Context) (s : Spec) (id : Text) → IsShaped c → FitsBoth (words c) (value_bits c s id)
unfolding value_bits
value_bits-Fits c s id h = data_bits-Fits c s.data_of s.name id h

tier_bits-Fits :
    (n : ℕ) (o : Option (List (Text × Bits))) (id : Text)
    → Holds (FitsValues n) o
    → Holds (Fits n) (tier_bits o id)
unfolding tier_bits
tier_bits-Fits n none id h = tt
tier_bits-Fits n (some values) id h = lookup-All (Fits n) id values h

data_likely-Fits :
    (c : Context) (d : Data) (name id : Text)
    → IsShaped c
    → Holds (Fits (words c)) (data_likely c d name id)
unfolding data_likely
data_likely-Fits c Data.bits name id h =
    tier_bits-Fits (words c) (lookup text_dec name c.likely) id
      (lookup-All (FitsValues (words c)) name c.likely h.fits_likely)
data_likely-Fits c Data.rating name id h = tt
data_likely-Fits c (Data.entity i) name id h = tt
data_likely-Fits c Data.character_names name id h = tt
data_likely-Fits c Data.like name id h = tt
data_likely-Fits c Data.fans name id h = tt

pub likely_bits-Fits :
    (c : Context) (s : Spec) (id : Text) → IsShaped c → Holds (Fits (words c)) (likely_bits c s id)
unfolding likely_bits
likely_bits-Fits c s id h = data_likely-Fits c s.data_of s.name id h
