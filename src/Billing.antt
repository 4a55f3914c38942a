-- ===== src/Billing.antt =====
-- src/billing.rs: where each title bills the people of its cast. The columns of the store, its mark for no
-- person and the kept credits are arguments. A binary search of a row sorted by entity, each entity once, finds what a search
-- from its start finds.
pub mod Rows
pub mod Spans
pub mod Positions
mod Tests
use den_atlas.Prelude.{
  ℕ, zero, suc, ◌+◌, ◌-◌, ◌/◌, ◌%◌, ◌^◌, Bool, true, false, not, ◌&&◌, ◌||◌, List, [], ◌∷◌, ◌++◌,
  map, Option, none, some, ltb, ◌==◌, if◌then◌else◌, length, get_elem?, take, drop, ℕ_discrete,
}
use den_atlas.Prelude.Bytes.{Text, codes}
use den_atlas.Prelude.Map.{lookup, insert}
use den_atlas.Prelude.Perms.{sort}
use den_atlas.Prelude.Results.{Result, ok, err, ◌>>=◌}

pub data Billed : Type 0 where
  at : ℕ → Billed
  below : Billed

-- Row `r` is billed in `billed` from `starts[r]` to `starts[r + 1]`.
pub record Billing : Type 0 where
  pub starts : List ℕ
  pub billed : List (ℕ × ℕ)
  pub on_tmdb : List Bool

pub record Role : Type 0 where
  pub order : ℕ
  pub person : ℕ
  pub character : Text

unfoldable pub find_billed : ℕ → List (ℕ × ℕ) → Option ℕ
find_billed entity [] = none
find_billed entity (x ∷ xs) = if x.0 == entity then some x.1 else find_billed entity xs

abbrev pub is_none : List (ℕ × ℕ) → Bool
is_none [] = true
is_none (x ∷ xs) = false

abbrev pub or_false : Option Bool → Bool
or_false none = false
or_false (some b) = b

-- What a billed row says of an entity.
unfoldable pub billed_in : List (ℕ × ℕ) → Bool → ℕ → Option Billed
unfolding find_billed
billed_in row known entity =
    if is_none row || not known
    then none
    else some (elim (find_billed entity row) [ some position ↦ at position | none ↦ below ])

unfoldable pub of : Billing → ℕ → ℕ → Option Billed
unfolding billed_in
of b row entity = elim (get_elem? b.starts row) [
  | none ↦ none
  | some from ↦ elim (get_elem? b.starts (row + 1)) [
    | none ↦ none
    | some to ↦
        billed_in (take (to - from) (drop from b.billed)) (or_false (get_elem? b.on_tmdb entity))
          entity
  ]
]

abbrev pub or_default : Option (List ℕ) → List ℕ
or_default none = []
or_default (some es) = es

abbrev pub entities_of : List (ℕ × List ℕ) → ℕ → List ℕ
entities_of entities person = or_default (lookup ℕ_discrete person entities)

-- The entities that the roles name, each with the role's position.
unfoldable pub named : List (ℕ × List ℕ) → List Role → List (ℕ × ℕ)
named entities [] = []
named entities (r ∷ roles) =
    map (λ e. (e, r.order)) (entities_of entities r.person) ++ named entities roles

abbrev pub before_or_same : ℕ × ℕ → ℕ × ℕ → Bool
before_or_same a b = ltb a.0 b.0 || (a.0 == b.0 && not (ltb b.1 a.1))

-- `dedup_by_key`: after the given one.
unfoldable pub dedup_after : ℕ × ℕ → List (ℕ × ℕ) → List (ℕ × ℕ)
dedup_after x [] = []
dedup_after x (y ∷ ys) = if y.0 == x.0 then dedup_after x ys else y ∷ dedup_after y ys

unfoldable pub dedup : List (ℕ × ℕ) → List (ℕ × ℕ)
unfolding dedup_after
dedup [] = []
dedup (x ∷ xs) = x ∷ dedup_after x xs

unfoldable pub billed_row : List (ℕ × List ℕ) → List Role → List (ℕ × ℕ)
unfolding named dedup
billed_row entities roles = dedup (sort before_or_same (named entities roles))

abbrev pub or_no_roles : Option (List Role) → List Role
or_no_roles none = []
or_no_roles (some roles) = roles

module _ (no_person : ℕ) where
  -- The entities of each person, from the given one on.
  unfoldable pub index_entities : ℕ → List ℕ → List (ℕ × List ℕ) → List (ℕ × List ℕ)
  index_entities entity [] entities = entities
  index_entities entity (person ∷ people) entities = index_entities (suc entity) people (
      if person == no_person
      then entities
      else insert ℕ_discrete person (entities_of entities person ++ entity ∷ []) entities)

  module _ (credits : ℕ × ℕ → Option (List Role)) where
    unfoldable pub roles_of : ℕ → List Role
    roles_of packed = or_no_roles (credits (if packed / 2 ^ 32 == 1 then 1 else 0, packed % 2 ^ 32))

    unfoldable pub add_row : List (ℕ × List ℕ) → ℕ → Billing → Billing
    unfolding billed_row roles_of
    add_row entities packed b =
        let billed = b.billed ++ billed_row entities (roles_of packed) in
        record b { billed = billed; starts = b.starts ++ length billed ∷ [] }

    unfoldable pub add_rows : List (ℕ × List ℕ) → List ℕ → Billing → Result Text Billing
    unfolding add_row
    add_rows entities [] b = ok b
    add_rows entities (packed ∷ keys) b =
        let next = add_row entities packed b in
        if ltb (length next.billed) (2 ^ 32)
        then add_rows entities keys next
        else err (codes "too many billed credits")

    unfoldable pub build_billing : List ℕ → List ℕ → Result Text Billing
    unfolding index_entities add_rows
    build_billing keys tmdb =
        add_rows (index_entities 0 tmdb []) keys
          (record { starts = 0 ∷ []; billed = []; on_tmdb = map (λ p. not (p == no_person)) tmdb })
