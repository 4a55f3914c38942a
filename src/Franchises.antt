-- ===== src/Franchises.antt =====
-- src/franchises.rs: the curated franchises of the store, and the order of a franchise's members. The store
-- is read by a library: what is read of it is the record Store.

pub mod Members
pub mod Links
pub mod Arrangement
pub mod Closeness
mod Tests
use den_atlas.Prelude.{
  ◌≡◌, ap, ℕ, zero, suc, ◌+◌, ◌-◌, ◌*◌, ◌/◌, ◌%◌, ◌^◌, min, Bool, true, false, not, ◌&&◌, ◌||◌,
  List, [], ◌∷◌, ◌++◌, map, Option, none, some, ltb, leb, ◌==◌, if◌then◌else◌, length, get_elem?,
  ℕ_discrete,
}
use mathlib.Core.List.{reverse}
use den_atlas.Prelude.Bytes.{Text, codes}
use den_atlas.Prelude.Decimal.{decimal}
use den_atlas.Prelude.Integers.{ℤ, distance}
use den_atlas.Prelude.Map.{lookup, insert}
use den_atlas.Prelude.Perms.{sort}
use den_atlas.Prelude.Results.{Result, ok, err, ◌>>=◌}
use den_atlas.Index.{MediaType, movie, tv, media_dec}

abbrev pub Key : Type 0
Key = MediaType × ℕ

pub pair_eq : (p q : Key) → p.0 ≡ q.0 → p.1 ≡ q.1 → p ≡ q
pair_eq p q e f = cc

unfoldable pub key_dec : Discrete Key
unfolding media_dec
key_dec p q = elim (media_dec p.0 q.0) [
  | no other ↦ no (λ e. other (ap (λ x. x.0) e))
  | yes e ↦ elim (ℕ_discrete p.1 q.1) [
    | no other ↦ no (λ e. other (ap (λ x. x.1) e))
    | yes f ↦ yes (pair_eq p q e f)
  ]
]

pub record Era : Type 0 where
  pub id : Text
  pub name : Text
  pub order : ℕ

pub record Member : Type 0 where
  pub key : Key
  pub era : ℕ
  pub order : ℕ

pub record Umbrella : Type 0 where
  pub id : Text
  pub name : Text

pub record Franchise : Type 0 where
  pub id : Text
  pub name : Text
  pub confidence : ℕ
  pub source : Text
  pub eras : List Era
  pub members : List Member

pub record Membership : Type 0 where
  pub franchise : ℕ
  pub era : ℕ

pub record Franchises : Type 0 where
  pub groups : List Franchise
  pub memberships : List (Key × Membership)
  pub umbrellas : List (Key × Umbrella)

-- What is read of the store: strings by number, packed keys by row, and the curated table.
pub record StoredEra : Type 0 where
  pub id : ℕ
  pub name : ℕ
  pub order : ℕ

pub record StoredMember : Type 0 where
  pub row : ℕ
  pub era : ℕ
  pub order : ℕ

pub record StoredFranchise : Type 0 where
  pub id : ℕ
  pub name : ℕ
  pub confidence : ℕ
  pub source : ℕ
  pub eras : List StoredEra
  pub members : List StoredMember

pub record Store : Type 0 where
  pub strings : Result Text (ℕ → Option Text)
  pub keys : Result Text (List ℕ)
  pub curated : Result Text (List StoredFranchise × (ℕ → Option (ℕ × ℕ)))

unfoldable pub unpack : ℕ → Key
unpack packed = (if packed / 2 ^ 32 == 1 then tv else movie, packed % 2 ^ 32)

-- Each element read, up to the first error.
unfoldable pub read_all {ℓ κ} :
    {A : Type ℓ} {B : Type κ} → (A → Result Text B) → List A → Result Text (List B)
read_all f [] = ok []
read_all f (x ∷ xs) = f x >>= λ y. read_all f xs >>= λ ys. ok (y ∷ ys)

-- `0..n`
unfoldable pub range : ℕ → List ℕ
range zero = []
range (suc n) = range n ++ n ∷ []

abbrev pub member_of : ℕ → Member → Membership
member_of franchise m = record { franchise = franchise; era = m.era }

-- The members of a group, each under its key: a key met before is overwritten.
unfoldable pub join_members : ℕ → List Member → List (Key × Membership) → List (Key × Membership)
join_members franchise [] old = old
join_members franchise (m ∷ ms) old =
    join_members franchise ms (insert key_dec m.key (member_of franchise m) old)

unfoldable pub add_franchise : ℕ → Franchise → Franchises → Franchises
unfolding join_members
add_franchise index f out = record out {
  memberships = join_members index f.members out.memberships;
  groups = out.groups ++ f ∷ [];
}

abbrev pub no_franchises : Franchises
no_franchises = record { groups = []; memberships = []; umbrellas = [] }

unfoldable pub add_umbrella : Key × Umbrella → Franchises → Franchises
add_umbrella u out = record out { umbrellas = insert key_dec u.0 u.1 out.umbrellas }

module _ (strings : ℕ → Option Text) (keys : List ℕ) where
  unfoldable pub text : ℕ → Result Text Text
  text id = elim (strings id) [
    | none ↦ err (codes "bad franchise string " ++ decimal id)
    | some t ↦ ok t
  ]

  unfoldable pub key_at : ℕ → Result Text Key
  unfolding unpack
  key_at row = elim (get_elem? keys row) [
    | none ↦ err (codes "bad franchise member row " ++ decimal row)
    | some packed ↦ ok (unpack packed)
  ]

  unfoldable pub read_era : StoredEra → Result Text Era
  unfolding text
  read_era raw = do
    id ← text raw.id
    name ← text raw.name
    ok (record { id = id; name = name; order = raw.order })

  unfoldable pub read_member : StoredMember → Result Text Member
  unfolding key_at
  read_member raw = do
    key ← key_at raw.row
    ok (record { key = key; era = raw.era; order = raw.order })

  -- `u32::try_from`
  abbrev pub index_of : ℕ → Result Text ℕ
  index_of index =
      if ltb index (2 ^ 32) then ok index else err (codes "too many curated franchises")

  unfoldable pub read_franchise : ℕ → StoredFranchise → Result Text Franchise
  unfolding text read_all read_era read_member
  read_franchise index raw = do
    eras ← read_all read_era raw.eras
    members ← read_all read_member raw.members
    franchise ← index_of index
    id ← text raw.id
    name ← text raw.name
    source ← text raw.source
    ok (record {
      id = id;
      name = name;
      confidence = raw.confidence;
      source = source;
      eras = eras;
      members = members;
    })

  unfoldable pub add_franchises : ℕ → List StoredFranchise → Franchises → Result Text Franchises
  unfolding read_franchise add_franchise
  add_franchises index [] out = ok out
  add_franchises index (raw ∷ raws) out =
      read_franchise index raw >>= λ f. add_franchises (suc index) raws (add_franchise index f out)

  unfoldable pub read_umbrella : ℕ → ℕ × ℕ → Result Text (Key × Umbrella)
  unfolding text key_at
  read_umbrella row raw = do
    key ← key_at row
    id ← text raw.0
    name ← text raw.1
    ok (key, record { id = id; name = name })

  unfoldable pub add_umbrellas : (ℕ → Option (ℕ × ℕ)) → List ℕ → Franchises → Result Text Franchises
  unfolding read_umbrella add_umbrella
  add_umbrellas umbrella_of [] out = ok out
  add_umbrellas umbrella_of (row ∷ rows) out = elim (umbrella_of row) [
    | none ↦ add_umbrellas umbrella_of rows out
    | some raw ↦ read_umbrella row raw >>= λ u. add_umbrellas umbrella_of rows (add_umbrella u out)
  ]

unfoldable pub from_store : Store → Result Text Franchises
unfolding add_franchises add_umbrellas range
from_store store = do
  strings ← store.strings
  keys ← store.keys
  table ← store.curated
  grouped ← add_franchises strings keys 0 table.0 no_franchises
  add_umbrellas strings keys table.1 (range (length keys)) grouped

unfoldable pub membership : Franchises → Key → Option Membership
membership fs key = lookup key_dec key fs.memberships

unfoldable pub group : Franchises → ℕ → Option Franchise
group fs franchise = get_elem? fs.groups franchise

unfoldable pub primary : Franchises → Key → Option Franchise
unfolding membership group
primary fs key = elim (membership fs key) [ none ↦ none | some m ↦ group fs m.franchise ]

unfoldable pub umbrella : Franchises → Key → Option Umbrella
umbrella fs key = lookup key_dec key fs.umbrellas

unfoldable pub shares_primary : Franchises → Key → Key → Bool
unfolding membership
shares_primary fs seed candidate = elim (membership fs seed) [
  | none ↦ false
  | some a ↦ elim (membership fs candidate) [ none ↦ false | some b ↦ a.franchise == b.franchise ]
]
