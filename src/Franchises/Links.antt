-- ===== src/Franchises/Links.antt =====
-- What src/franchises.rs reads of the store hangs together: a membership names a franchise and an era.
use den_atlas.Prelude.{
  ℕ, zero, suc, ◌≡◌, refl, sym, subst, ◌⊎◌, inl, inr, List, [], ◌∷◌, ◌++◌, Option, some, arith,
  get_elem?, length, length-append, if_pos, if_neg, ◌∙◌, Option-cases,
}
use den_atlas.Prelude.Bytes.{Text}
use den_atlas.Prelude.Map.{lookup, insert, lookup-insert}
use den_atlas.Prelude.Results.{ok, ◌>>=◌, bind_ok, ok_eq}
use den_atlas.Franchises.{
  Key, key_dec, Umbrella, read_umbrella, add_umbrella, range, member_of, read_franchise, Member,
  Franchise, Membership, Franchises, StoredFranchise, Store, join_members, no_franchises,
  add_franchise, add_franchises, add_umbrellas, from_store, membership, group, primary,
}

-- A member with the key stands in the era.
abbrev pub Holds : List Member → Key → ℕ → Type 0
Holds ms k era = (i : ℕ) × (m : Member) × (get_elem? ms i ≡ some m) × (m.key ≡ k) × (m.era ≡ era)

-- Each membership names a franchise that has the key among its members, in the era.
abbrev pub Linked : Franchises → Type 0
Linked fs =
    (k : Key) (m : Membership)
    → lookup key_dec k fs.memberships ≡ some m
    → (f : Franchise) × (get_elem? fs.groups m.franchise ≡ some f) × Holds f.members k m.era

join_members-cases :
    (franchise : ℕ) (ms : List Member) (old : List (Key × Membership)) (k : Key) (v : Membership)
    → lookup key_dec k (join_members franchise ms old) ≡ some v
    → (lookup key_dec k old ≡ some v) ⊎ ((v.franchise ≡ franchise) × Holds ms k v.era)
unfolding join_members
join_members-cases franchise [] old k v h = inl h
join_members-cases franchise (x ∷ ms) old k v h =
    elim (join_members-cases franchise ms (insert key_dec x.key (member_of franchise x) old) k v
      h) [
        | inr (e, (i, m, at, named, placed)) ↦ inr (e, (suc i, m, at, named, placed))
        | inl found ↦
            let looked = sym (lookup-insert key_dec x.key k (member_of franchise x) old) ∙ found in
            elim (key_dec x.key k) [
              | yes same ↦
                  let e = sym (if_pos (key_dec x.key k) same _ _) ∙ looked in
                  inr (ground arith, (zero, x, refl, same, ground arith))
              | no other ↦ inl (sym (if_neg (key_dec x.key k) other _ _) ∙ looked)
            ]
      ]

get_elem?-append :
    (fs : List Franchise) (i : ℕ) (f g : Franchise)
    → get_elem? fs i ≡ some f
    → get_elem? (fs ++ g ∷ []) i ≡ some f
get_elem?-append [] i f g h = absurd (ground arith)
get_elem?-append (x ∷ fs) zero f g h = h
get_elem?-append (x ∷ fs) (suc i) f g h = get_elem?-append fs i f g h

get_elem?-last :
    (fs : List Franchise) (g : Franchise) → get_elem? (fs ++ g ∷ []) (length fs) ≡ some g
get_elem?-last [] g = refl
get_elem?-last (x ∷ fs) g = get_elem?-last fs g

none-Linked : Linked no_franchises
unfolding lookup
none-Linked k m h = absurd (ground arith)

add_franchise-Linked :
    (index : ℕ) (f : Franchise) (out : Franchises)
    → length out.groups ≡ index
    → Linked out
    → Linked (add_franchise index f out) × (length (add_franchise index f out).groups ≡ suc index)
unfolding add_franchise
add_franchise-Linked index f out size linked = (
  λ k m h. elim (join_members-cases index f.members out.memberships k m h) [
    | inl old ↦
        let (g, at, holds) = linked k m old in
        (g, get_elem?-append out.groups m.franchise g f at, holds)
    | inr (e, holds) ↦ (
      f,
      subst (λ i. get_elem? (out.groups ++ f ∷ []) i ≡ some f) (size ∙ sym e)
          (get_elem?-last out.groups f),
      holds,
    )
  ],
  omega (arith, length-append out.groups (f ∷ []), size),
)

module _ (strings : ℕ → Option Text) (keys : List ℕ) where
  add_franchises-Linked :
      (index : ℕ) (raws : List StoredFranchise) (out fs : Franchises)
      → length out.groups ≡ index
      → Linked out
      → add_franchises strings keys index raws out ≡ ok fs
      → Linked fs
  unfolding add_franchises
  add_franchises-Linked index [] out fs size linked h =
      subst Linked (ok_eq (ok out) out fs refl h) linked
  add_franchises-Linked index (raw ∷ raws) out fs size linked h =
      let (f, e, rest) =
        bind_ok (read_franchise strings keys index raw)
          (λ f. add_franchises strings keys (suc index) raws (add_franchise index f out)) fs h in
      let (next, size') = add_franchise-Linked index f out size linked in
      add_franchises-Linked (suc index) raws (add_franchise index f out) fs size' next rest

  add_umbrellas-Linked :
      (umbrella_of : ℕ → Option (ℕ × ℕ)) (rows : List ℕ) (out fs : Franchises)
      → Linked out
      → add_umbrellas strings keys umbrella_of rows out ≡ ok fs
      → Linked fs
  unfolding add_umbrellas
  add_umbrellas-Linked umbrella_of [] out fs linked h =
      subst Linked (ok_eq (ok out) out fs refl h) linked
  add_umbrellas-Linked umbrella_of (row ∷ rows) out fs linked h =
      elim (Option-cases (umbrella_of row)) [
        | inl e ↦ add_umbrellas-Linked umbrella_of rows out fs linked (ground arith)
        | inr (raw, e) ↦
            let next = λ (u : Key × Umbrella).
              add_umbrellas strings keys umbrella_of rows (add_umbrella u out) in
            let (u, read, rest) =
              bind_ok (read_umbrella strings keys row raw) next fs (ground arith) in
            add_umbrellas-Linked umbrella_of rows (add_umbrella u out) fs linked rest
      ]

-- What is read of a store is linked.
pub from_store-Linked : (store : Store) (fs : Franchises) → from_store store ≡ ok fs → Linked fs
unfolding from_store
from_store-Linked store fs h =
    let (strings, e1, h1) =
      bind_ok store.strings
        (λ strings. store.keys >>= λ keys. store.curated >>= λ table.
          add_franchises strings keys 0 table.0 no_franchises >>= λ grouped.
          add_umbrellas strings keys table.1 (range (length keys)) grouped)
        fs h in
    let (keys, e2, h2) =
      bind_ok store.keys
        (λ keys. store.curated >>= λ table.
          add_franchises strings keys 0 table.0 no_franchises >>= λ grouped.
          add_umbrellas strings keys table.1 (range (length keys)) grouped)
        fs h1 in
    let (table, e3, h3) =
      bind_ok store.curated
        (λ table. add_franchises strings keys 0 table.0 no_franchises >>= λ grouped.
          add_umbrellas strings keys table.1 (range (length keys)) grouped)
        fs h2 in
    let (grouped, e4, h4) =
      bind_ok (add_franchises strings keys 0 table.0 no_franchises)
        (λ grouped. add_umbrellas strings keys table.1 (range (length keys)) grouped) fs h3 in
    add_umbrellas-Linked strings keys table.1 (range (length keys)) grouped fs
      (add_franchises-Linked strings keys 0 table.0 no_franchises grouped refl none-Linked e4) h4

pub primary_found :
    (fs : Franchises) (key : Key) (m : Membership) (f : Franchise)
    → membership fs key ≡ some m
    → group fs m.franchise ≡ some f
    → primary fs key ≡ some f
unfolding primary
primary_found fs key m f e at = ground arith

-- A membership always names a franchise, in which the title has a place in its era.
pub primary-membership :
    (store : Store) (fs : Franchises) (key : Key) (m : Membership)
    → from_store store ≡ ok fs
    → membership fs key ≡ some m
    → (f : Franchise) × (primary fs key ≡ some f) × Holds f.members key m.era
unfolding membership group
primary-membership store fs key m h e =
    let (f, at, holds) = from_store-Linked store fs h key m e in
    (f, primary_found fs key m f e at, holds)
