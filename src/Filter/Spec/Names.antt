-- ===== src/Filter/Spec/Names.antt =====
-- `spec` of src/filter.rs finds each kind under its name.
use mathlib.Core.Path.{ap}
use mathlib.Core.Option.{some-injective}
use den_atlas.Prelude.{
  ℕ, zero, suc, ◌≡◌, ◌↔◌, sym, ◌∙◌, Bool, true, false, not, ◌&&◌, ◌||◌, List, [], ◌∷◌, some,
  get_elem?, map, subst, ◌+◌, refl, All, ◌++◌, arith, Bool-cases, inl, inr,
}
use den_atlas.Prelude.Bytes.{Text, same_text, same_text-eq, same_text_refl}
use den_atlas.Filter.Spec.{Spec, Data, EntitySpec, DenseKind}
use den_atlas.Filter.Spec.EntityKinds.{entity_kinds}
use den_atlas.Filter.Spec.Table.{first_kinds, last_kinds, dense_kinds}
use den_atlas.Filter.Spec.Lookup.{find_spec, spec, specs, dense_spec, axis_spec, entity_specs}

abbrev taken : Text → List Spec → Bool
taken name [] = false
taken name (s ∷ ss) = same_text s.name name || taken name ss

-- No two kinds have one name.
abbrev pub told_apart : List Spec → Bool
told_apart [] = true
told_apart (s ∷ ss) = not (taken s.name ss) && told_apart ss

taken-get_elem? :
    (ss : List Spec) (i : ℕ) (s : Spec) → get_elem? ss i ≡ some s → taken s.name ss ≡ true
taken-get_elem? [] i s h = ground arith
taken-get_elem? (x ∷ ss) zero s h =
    ground (arith, ap Spec.name (some-injective x s h), same_text_refl x.name)
taken-get_elem? (x ∷ ss) (suc i) s h = ground (arith, taken-get_elem? ss i s h)

find_spec-name :
    (ss : List Spec) (i : ℕ) (s : Spec)
    → told_apart ss ≡ true
    → get_elem? ss i ≡ some s
    → find_spec s.name ss ≡ some s
unfolding find_spec
find_spec-name [] i s d h = ground arith
find_spec-name (x ∷ ss) zero s d h =
    ground (arith, ap Spec.name (some-injective x s h), same_text_refl x.name)
find_spec-name (x ∷ ss) (suc i) s d h = ground (
  arith,
  taken-get_elem? ss i s h,
  find_spec-name ss i s,
  same_text-eq x.name s.name,
  ap (λ n. taken n ss) {x = x.name} {y = s.name},
)

find_spec-found :
    (ss : List Spec) (name : Text) (s : Spec)
    → find_spec name ss ≡ some s
    → (s.name ≡ name) × ((i : ℕ) × (get_elem? ss i ≡ some s))
unfolding find_spec
find_spec-found [] name s h = ground arith
find_spec-found (x ∷ ss) name s h = elim (Bool-cases (same_text x.name name)) [
  | inl e ↦
      let same = some-injective x s (ground arith) in
      (ap Spec.name (sym same) ∙ same_text-eq x.name name e, (0, ap some same))
  | inr e ↦
      let rest = find_spec-found ss name s (ground arith) in (rest.0, (suc rest.1.0, rest.1.1))
]

-- The place of a kind among those of posting lists, in terms of the table of those.
abbrev Place : Text → ℕ → Type 0
Place name i = (k : EntitySpec) × (get_elem? entity_kinds i ≡ some k) × (k.kind ≡ name)

abbrev LinksTo : Text → Data → Type 0
LinksTo name (Data.entity i) = Place name i
LinksTo name Data.bits = Unit
LinksTo name Data.rating = Unit
LinksTo name Data.character_names = Unit
LinksTo name Data.like = Unit
LinksTo name Data.fans = Unit

-- What a kind reads posting lists of is the kind of its own name.
abbrev IsLinked : Spec → Type 0
IsLinked s = LinksTo s.name s.data_of

append-All : (P : Spec → Type 0) (xs ys : List Spec) → All P xs → All P ys → All P (xs ++ ys)
append-All P [] ys h g = g
append-All P (x ∷ xs) ys h g = (h.0, append-All P xs ys h.1 g)

All-get_elem? :
    (P : Spec → Type 0) (ss : List Spec) (i : ℕ) (s : Spec)
    → All P ss
    → get_elem? ss i ≡ some s
    → P s
All-get_elem? P [] i s h e = absurd (ground arith)
All-get_elem? P (x ∷ ss) zero s h e = subst P (some-injective x s e) h.0
All-get_elem? P (x ∷ ss) (suc i) s h e = All-get_elem? P ss i s h.1 e

first_kinds-All : All IsLinked first_kinds
unfolding first_kinds
first_kinds-All = (tt, (tt, (tt, (tt, (tt, (tt, (tt, (tt, (tt, (tt, (tt, (tt, tt))))))))))))

last_kinds-All : All IsLinked last_kinds
unfolding last_kinds
last_kinds-All = (tt, (tt, (tt, (tt, (tt, (tt, tt))))))

dense_kinds-All : (ks : List DenseKind) → All IsLinked (map dense_spec ks)
dense_kinds-All [] = tt
dense_kinds-All (k ∷ ks) = (tt, dense_kinds-All ks)

axis_spec-All : (axes : List Text) → All IsLinked (map axis_spec axes)
axis_spec-All [] = tt
axis_spec-All (axis ∷ axes) = (tt, axis_spec-All axes)

-- The kinds from the `n`-th on stand at their places.
entity_specs-All :
    (n : ℕ) (ks : List EntitySpec)
    → ((i : ℕ) → get_elem? entity_kinds (n + i) ≡ get_elem? ks i)
    → All IsLinked (entity_specs n ks)
unfolding entity_specs
entity_specs-All n [] h = tt
entity_specs-All n (k ∷ ks) h = (
  (k, ap (λ i. get_elem? entity_kinds i) {x = n} {y = n + 0} (omega arith) ∙ h 0, refl),
  entity_specs-All (suc n) ks (λ i.
      ap (λ j. get_elem? entity_kinds j) {x = suc n + i} {y = n + suc i} (omega arith) ∙ h (suc i)),
)

entities-All : All IsLinked (entity_specs 0 entity_kinds)
entities-All =
    entity_specs-All 0 entity_kinds λ i. ap (λ j. get_elem? entity_kinds j) {y = i} (omega arith)

specs-All : (axes : List Text) → All IsLinked (specs axes)
unfolding specs first_kinds last_kinds entity_kinds entity_specs
specs-All axes =
    let plain = first_kinds ++ map dense_spec dense_kinds in
    let bits = plain ++ map axis_spec axes in
    let entities = entity_specs 0 entity_kinds in
    append-All IsLinked (bits ++ entities) last_kinds
      (append-All IsLinked bits entities
        (append-All IsLinked plain (map axis_spec axes)
          (append-All IsLinked first_kinds (map dense_spec dense_kinds) first_kinds-All
            (dense_kinds-All dense_kinds))
          (axis_spec-All axes))
        entities-All)
      last_kinds-All

-- A kind of posting lists that stands among them stands in the table.
record At (i : ℕ) (name : Text) (ss : List Spec) : Type 0 where
  place : ℕ
  kind : Spec
  there : get_elem? ss place ≡ some kind
  named_so : kind.name ≡ name
  reads : kind.data_of ≡ Data.entity i

cons-At : (i : ℕ) (name : Text) (x : Spec) (ss : List Spec) → At i name ss → At i name (x ∷ ss)
cons-At i name x ss h = record {
  place = suc h.place;
  kind = h.kind;
  there = h.there;
  named_so = h.named_so;
  reads = h.reads;
}

before-At : (i : ℕ) (name : Text) (xs ss : List Spec) → At i name ss → At i name (xs ++ ss)
before-At i name [] ss h = h
before-At i name (x ∷ xs) ss h = cons-At i name x (xs ++ ss) (before-At i name xs ss h)

get_elem?-append :
    (xs ss : List Spec) (j : ℕ) (s : Spec)
    → get_elem? xs j ≡ some s
    → get_elem? (xs ++ ss) j ≡ some s
get_elem?-append [] ss j s e = absurd (ground arith)
get_elem?-append (x ∷ xs) ss zero s e = e
get_elem?-append (x ∷ xs) ss (suc j) s e = get_elem?-append xs ss j s e

after-At : (i : ℕ) (name : Text) (xs ss : List Spec) → At i name xs → At i name (xs ++ ss)
after-At i name xs ss h = record {
  place = h.place;
  kind = h.kind;
  there = get_elem?-append xs ss h.place h.kind h.there;
  named_so = h.named_so;
  reads = h.reads;
}

entity_specs-At :
    (n m i : ℕ) (ks : List EntitySpec) (k : EntitySpec)
    → get_elem? ks i ≡ some k
    → n + i ≡ m
    → At m k.kind (entity_specs n ks)
unfolding entity_specs
entity_specs-At n m i [] k h e = absurd (ground arith)
entity_specs-At n m zero (x ∷ ks) k h e = record {
  place = 0;
  kind = _;
  there = refl;
  named_so = ap EntitySpec.kind (some-injective x k h);
  reads = ap Data.entity {x = n} {y = m} (omega arith);
}
entity_specs-At n m (suc i) (x ∷ ks) k h e =
    cons-At m k.kind _ (entity_specs (suc n) ks) (entity_specs-At (suc n) m i ks k h (omega arith))

specs-At :
    (axes : List Text) (i : ℕ) (k : EntitySpec)
    → get_elem? entity_kinds i ≡ some k
    → At i k.kind (specs axes)
unfolding specs first_kinds last_kinds entity_kinds entity_specs
specs-At axes i k at =
    let bits = first_kinds ++ map dense_spec dense_kinds ++ map axis_spec axes in
    let entities = entity_specs 0 entity_kinds in
    after-At i k.kind (bits ++ entities) last_kinds
      (before-At i k.kind bits entities (entity_specs-At 0 i i entity_kinds k at (omega arith)))

linked-Place :
    (name other : Text) (d : Data) (i : ℕ)
    → LinksTo other d
    → d ≡ Data.entity i
    → other ≡ name
    → Place name i
linked-Place name other d i h e n = subst (λ x. Place x i) n (subst (LinksTo other) e h)

-- A kind reads the posting lists of one of the kinds of them exactly if that kind has its name, and then it
-- is found under it: the places in the two tables agree. No two kinds of the table have one name.
pub spec-entity :
    (axes : List Text) (name : Text) (i : ℕ)
    → told_apart (specs axes) ≡ true
    → ((s : Spec) × (spec axes name ≡ some s) × (s.data_of ≡ Data.entity i))
      ↔ ((k : EntitySpec) × (get_elem? entity_kinds i ≡ some k) × (k.kind ≡ name))
unfolding spec
spec-entity axes name i d = (
  λ h.
      let (called, (j, at)) = find_spec-found (specs axes) name h.0 h.1 in
      linked-Place name h.0.name h.0.data_of i
        (All-get_elem? IsLinked (specs axes) j h.0 (specs-All axes) at) h.2 called,
  λ h.
      let here = specs-At axes i h.0 h.1 in
      (
        here.kind,
        ap (λ n. find_spec n (specs axes)) (sym h.2)
            ∙ ap (λ n. find_spec n (specs axes)) (sym here.named_so)
            ∙ find_spec-name (specs axes) here.place here.kind d here.there,
        here.reads,
      ),
)
