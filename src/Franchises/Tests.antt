-- ===== src/Franchises/Tests.antt =====
-- A franchise of two eras through src/franchises.rs.
use den_atlas.Prelude.{
  ℕ, ◌+◌, ◌^◌, ◌≡◌, ◌<◌, refl, Bool, true, false, List, [], ◌∷◌, ◌++◌, Option, none, some, arith,
  ltb, ◌==◌, if◌then◌else◌,
}
use mathlib.Core.List.{Perm, reverse}
use den_atlas.Prelude.Bytes.{Text, codes}
use den_atlas.Prelude.Integers.{pos}
use den_atlas.Prelude.Perms.{in_order}
use den_atlas.Prelude.Results.{ok, err}
use den_atlas.Index.{movie, tv}
use den_atlas.Franchises.{
  Key, Member, Franchise, Franchises, Store, from_store, membership, primary, shares_primary,
  umbrella,
}
use den_atlas.Franchises.Members.{TitleFacts, members_of, by_era, members_for}
use den_atlas.Franchises.Links.{Holds, primary-membership}
use den_atlas.Franchises.Closeness.{IsCloseness, nearer}
use den_atlas.Franchises.Arrangement.{Eras, times, facts_of, members_for-Perm, members_for-in_order}

abbrev strings : ℕ → Option Text
strings n =
    if n == 0
    then some (codes "spider")
    else if n == 1
    then some (codes "trilogy")
    else if n == 2
    then some (codes "series")
    else none

-- Two films and a series; the franchise lists them under two eras.
abbrev store : Store
store = record {
  strings = ok strings;
  keys = ok (7 ∷ 8 ∷ (4294967296 + 7) ∷ []);
  curated = ok (
    record {
      id = 0;
      name = 0;
      confidence = 90;
      source = 2;
      eras = record { id = 1; name = 1; order = 0 } ∷ record { id = 2; name = 2; order = 1 } ∷ [];
      members =
          record { row = 2; era = 1; order = 0 }
          ∷ record { row = 0; era = 0; order = 1 }
          ∷ record { row = 1; era = 0; order = 2 }
          ∷ [];
    }
        ∷ [],
    λ row. if row == 0 then some (0, 1) else none,
  );
}

abbrev first : Member
first = record { key = (movie, 7); era = 0; order = 1 }

abbrev second : Member
second = record { key = (movie, 8); era = 0; order = 2 }

abbrev show : Member
show = record { key = (tv, 7); era = 1; order = 0 }

abbrev spider : Franchise
spider = record {
  id = codes "spider";
  name = codes "spider";
  confidence = 90;
  source = codes "series";
  eras =
      record { id = codes "trilogy"; name = codes "trilogy"; order = 0 }
      ∷ record { id = codes "series"; name = codes "series"; order = 1 }
      ∷ [];
  members = show ∷ first ∷ second ∷ [];
}

abbrev read : Franchises
read = record {
  groups = spider ∷ [];
  memberships =
      ((tv, 7), record { franchise = 0; era = 1 })
      ∷ ((movie, 7), record { franchise = 0; era = 0 })
      ∷ ((movie, 8), record { franchise = 0; era = 0 })
      ∷ [];
  umbrellas = ((movie, 7), record { id = codes "spider"; name = codes "trilogy" }) ∷ [];
}

from_store_two : from_store store ≡ ok read
unfolding from_store den_atlas.Prelude.Map.insert den_atlas.Franchises.key_dec
    den_atlas.Prelude.ℕ_discrete
from_store_two = refl

-- A member's row that the store does not have is an error.
from_store_bad_row :
    from_store (record store { keys = ok (7 ∷ []) }) ≡ err (codes "bad franchise member row 2")
unfolding from_store den_atlas.Prelude.Decimal.decimal
from_store_bad_row = refl

shares_two : shares_primary read (movie, 7) (tv, 7) ≡ true
unfolding shares_primary den_atlas.Prelude.Map.lookup den_atlas.Franchises.key_dec
    den_atlas.Prelude.ℕ_discrete
shares_two = refl

shares_none : shares_primary read (movie, 7) (movie, 9) ≡ false
unfolding shares_primary den_atlas.Prelude.Map.lookup den_atlas.Franchises.key_dec
    den_atlas.Prelude.ℕ_discrete
shares_none = refl

umbrella_first :
    umbrella read (movie, 7) ≡ some (record { id = codes "spider"; name = codes "trilogy" })
unfolding umbrella den_atlas.Prelude.Map.lookup den_atlas.Franchises.key_dec
    den_atlas.Prelude.ℕ_discrete
umbrella_first = refl

abbrev facts : Key → TitleFacts
facts k = record { year = some (pos 2002); animated = false }

members_for_first : members_for read (movie, 7) facts ≡ some (second ∷ first ∷ show ∷ [])
unfolding members_for den_atlas.Prelude.Map.lookup den_atlas.Franchises.key_dec
    den_atlas.Prelude.ℕ_discrete den_atlas.Prelude.Perms.sort
members_for_first = refl

primary-membership_example :
    (f : Franchise) × (primary read (movie, 7) ≡ some f) × Holds f.members (movie, 7) 0
unfolding membership den_atlas.Prelude.Map.lookup den_atlas.Franchises.key_dec
    den_atlas.Prelude.ℕ_discrete
primary-membership_example =
    primary-membership store read (movie, 7) (record { franchise = 0; era = 0 }) from_store_two refl

spider-Eras : Eras spider
spider-Eras = (omega arith, refl)

members_for-Perm_example :
    (ms : List Member) × (members_for read (movie, 7) facts ≡ some ms)
    × Perm ms (show ∷ first ∷ second ∷ [])
unfolding membership den_atlas.Prelude.Map.lookup den_atlas.Franchises.key_dec
    den_atlas.Prelude.ℕ_discrete primary
members_for-Perm_example =
    members_for-Perm read (movie, 7) facts (record { franchise = 0; era = 0 }) spider refl refl
      spider-Eras

members_for-in_order_example :
    (es : List ℕ) × (rank : ℕ → Bool × ℕ) × (members_for read (movie, 7) facts
      ≡ some (
          reverse (members_of 0 (show ∷ first ∷ second ∷ []))
          ++ by_era (show ∷ first ∷ second ∷ []) es))
    × ((e : ℕ) → IsCloseness (facts (movie, 7)) (facts_of facts spider e) (rank e).0 (rank e).1)
    × (in_order (λ a b. nearer (rank a) (rank b)) es ≡ true)
    × ((e : ℕ) → times e es ≡ (if e == 0 then 0 else if ltb e 2 then 1 else 0))
unfolding membership den_atlas.Prelude.Map.lookup den_atlas.Franchises.key_dec
    den_atlas.Prelude.ℕ_discrete primary
members_for-in_order_example =
    members_for-in_order read (movie, 7) facts (record { franchise = 0; era = 0 }) spider refl refl
      (omega arith)
