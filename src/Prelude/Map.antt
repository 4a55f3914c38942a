-- ===== src/Prelude/Map.antt =====
-- A `HashMap` as an association list in its iteration order, which the program cannot rely on: a
-- theorem about it holds for every list with distinct keys. A new key goes to the end.
use Prim.Native.Nat.{ℕ, ◌+◌, ◌≤◌}
use mathlib.Core.Path.{◌≡◌, refl}
use mathlib.Core.Logic.{◌≢◌, ite}
use mathlib.Core.Bool.{Bool, true, false}
use mathlib.Core.List.{List, [], ◌∷◌}
use mathlib.Core.Option.{Option, none, some}
use native.Mathlib.Omega.{arith}
use den_atlas.Prelude.Tests.{if◌then◌else◌, leb}
use den_atlas.Prelude.Lists.{length}

module _ {K V : Type 0} (dec : Discrete K) where
  unfoldable pub lookup : K → List (K × V) → Option V
  lookup k [] = none
  lookup k ((j, v) ∷ m) = ite (dec j k) (some v) (lookup k m)

  abbrev pub contains_key : K → List (K × V) → Bool
  contains_key k m = elim (lookup k m) [ none ↦ false | some _ ↦ true ]

  unfoldable pub insert : K → V → List (K × V) → List (K × V)
  insert k v [] = (k, v) ∷ []
  insert k v ((j, w) ∷ m) = ite (dec j k) ((k, v) ∷ m) ((j, w) ∷ insert k v m)

  unfoldable pub remove : K → List (K × V) → List (K × V)
  remove k [] = []
  remove k ((j, w) ∷ m) = ite (dec j k) m ((j, w) ∷ remove k m)

  -- No key twice.
  abbrev pub Distinct : List (K × V) → Type 0
  Distinct [] = Unit {0}
  Distinct ((k, v) ∷ m) = (lookup k m ≡ none) × Distinct m

  pub lookup-insert :
      (k q : K) (v : V) (m : List (K × V))
      → lookup q (insert k v m) ≡ ite (dec k q) (some v) (lookup q m)
  unfolding lookup insert
  lookup-insert k q v [] = refl
  lookup-insert k q v ((j, w) ∷ m) = ground (arith, lookup-insert k q v m)

  pub lookup-remove_ne : (k q : K) (m : List (K × V)) → k ≢ q → lookup q (remove k m) ≡ lookup q m
  unfolding lookup remove
  lookup-remove_ne k q [] h = refl
  lookup-remove_ne k q ((j, w) ∷ m) h = ground (arith, lookup-remove_ne k q m)

  pub lookup-remove_self : (k : K) (m : List (K × V)) → Distinct m → lookup k (remove k m) ≡ none
  unfolding lookup remove
  lookup-remove_self k [] d = refl
  lookup-remove_self k ((j, w) ∷ m) d = ground (arith, lookup-remove_self k m d.1)

  pub remove-Distinct : (k : K) (m : List (K × V)) → Distinct m → Distinct (remove k m)
  unfolding remove
  remove-Distinct k [] d = tt
  remove-Distinct k ((j, w) ∷ m) d = ground (arith, remove-Distinct k m d.1, lookup-remove_ne k j m)

  pub insert-Distinct : (k : K) (v : V) (m : List (K × V)) → Distinct m → Distinct (insert k v m)
  unfolding insert lookup
  insert-Distinct k v [] d = (refl, tt)
  insert-Distinct k v ((j, w) ∷ m) d =
      ground (arith, insert-Distinct k v m d.1, lookup-insert k j v m)

  pub length-insert :
      (k : K) (v : V) (m : List (K × V))
      → length (insert k v m) ≡ (if contains_key k m then length m else length m + 1)
  unfolding insert lookup
  length-insert k v [] = refl
  length-insert k v ((j, w) ∷ m) = ground (arith, length-insert k v m)

  pub length-remove :
      (k : K) (m : List (K × V)) (v : V) → lookup k m ≡ some v → length (remove k m) + 1 ≡ length m
  unfolding lookup remove
  length-remove k [] v h = cc
  length-remove k ((j, w) ∷ m) v h = ground (arith, length-remove k m v)

  pub length-remove-le : (k : K) (m : List (K × V)) → length (remove k m) ≤ length m
  unfolding remove
  length-remove-le k [] = omega arith
  length-remove-le k ((j, w) ∷ m) = ground (arith, length-remove-le k m)

-- `iter().min_by_key(…)`: the first of the least entries.
module _ {K V : Type 0} (weight : V → ℕ) where
  unfoldable pub least_from : K × V → List (K × V) → K × V
  least_from e [] = e
  least_from e (f ∷ m) = least_from (if leb (weight e.1) (weight f.1) then e else f) m

  unfoldable pub min_by_key : List (K × V) → Option (K × V)
  unfolding least_from
  min_by_key [] = none
  min_by_key (e ∷ m) = some (least_from e m)

  least_from-le : (e : K × V) (m : List (K × V)) → weight (least_from e m).1 ≤ weight e.1
  unfolding least_from
  least_from-le e [] = omega arith
  least_from-le e (f ∷ m) =
      ground (arith, least_from-le (if leb (weight e.1) (weight f.1) then e else f) m)

  module _ (dec : Discrete K) where
    least_from-le-lookup :
        (e : K × V) (m : List (K × V)) (q : K) (v : V)
        → lookup dec q m ≡ some v
        → weight (least_from e m).1 ≤ weight v
    unfolding least_from lookup
    least_from-le-lookup e [] q v h = ground arith
    least_from-le-lookup e ((k, w) ∷ m) q v h =
        let kept = (if leb (weight e.1) (weight w) then e else (k, w)) in
        ground (arith, least_from-le kept m, least_from-le-lookup kept m q v)

    -- The least entry is an entry of the map, and no entry is less.
    pub min_by_key-le :
        (m : List (K × V)) (e : K × V) (q : K) (v : V)
        → min_by_key m ≡ some e
        → lookup dec q m ≡ some v
        → weight e.1 ≤ weight v
    unfolding min_by_key lookup
    min_by_key-le [] e q v h found = ground arith
    min_by_key-le (f ∷ m) e q v h found =
        ground (arith, least_from-le f m, least_from-le-lookup f m q v)

    lookup_head : (e : K × V) (m : List (K × V)) → lookup dec e.0 (e ∷ m) ≡ some e.1
    unfolding lookup
    lookup_head e m = ground arith

    kept-Distinct :
        (e f : K × V) (m : List (K × V)) (b : Bool)
        → Distinct dec (e ∷ f ∷ m)
        → Distinct dec ((if b then e else f) ∷ m)
    unfolding lookup
    kept-Distinct e f m true d = ground arith
    kept-Distinct e f m false d = d.1

    lookup-kept :
        (e f : K × V) (m : List (K × V)) (b : Bool) (r : K × V)
        → Distinct dec (e ∷ f ∷ m)
        → lookup dec r.0 ((if b then e else f) ∷ m) ≡ some r.1
        → lookup dec r.0 (e ∷ f ∷ m) ≡ some r.1
    unfolding lookup
    lookup-kept e f m true r d h = ground arith
    lookup-kept e f m false r d h = ground arith

    lookup-least_from :
        (e : K × V) (m : List (K × V))
        → Distinct dec (e ∷ m)
        → lookup dec (least_from e m).0 (e ∷ m) ≡ some (least_from e m).1
    unfolding least_from
    lookup-least_from e [] d = lookup_head e []
    lookup-least_from e (f ∷ m) d =
        let b = leb (weight e.1) (weight f.1) in
        lookup-kept e f m b (least_from (if b then e else f) m) d
          (lookup-least_from (if b then e else f) m (kept-Distinct e f m b d))

    pub lookup-min_by_key :
        (m : List (K × V)) (e : K × V)
        → Distinct dec m
        → min_by_key m ≡ some e
        → lookup dec e.0 m ≡ some e.1
    unfolding min_by_key
    lookup-min_by_key [] e d h = ground arith
    lookup-min_by_key (f ∷ m) e d h = ground (arith, lookup-least_from f m d)

  pub min_by_key-none : (m : List (K × V)) → min_by_key m ≡ none → m ≡ []
  unfolding min_by_key
  min_by_key-none [] h = refl
  min_by_key-none (e ∷ m) h = ground arith
