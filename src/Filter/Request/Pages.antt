-- ===== src/Filter/Request/Pages.antt =====
-- What a request that reads well keeps to: `Request::parse` of src/filter.rs.
use den_atlas.Prelude.{
  ℕ, ◌%◌, ◌≤◌, ◌≡◌, ◌⊎◌, inl, inr, sym, subst, refl, Bool, true, false, if◌then◌else◌, Option,
  arith, min, ltb, length, Bool-cases, List,
}
use den_atlas.Prelude.Bytes.{Text, codes, same_text}
use den_atlas.Prelude.Results.{Result, ok, err, ◌>>=◌, Result-cases}
use den_atlas.Filter.Spec.{Scope, values_limit}
use den_atlas.Filter.Ids.{Naming, RequestError, normalise}
use den_atlas.Filter.Traits.{Order, normalise_trait, one_value}
use den_atlas.Filter.Matching.{Item}
use den_atlas.Filter.Request.{max_query, read_items}
use den_atlas.Filter.Request.Parameters.{
  Route, Request, one_title, param, decoded, decoded_some, check_traits, read_order, read_count,
  read_prefix, limits, limit_of, clamp, or_default,
}
use den_atlas.Filter.Request.Parse.{
  Asked, ask_page, ask_counts, ask_order, ask, read_page, request_of, parse,
}

-- A limit that the route takes, and whole pages before it.
abbrev pub IsPage : Route → ℕ → ℕ → Type 0
IsPage route limit skip =
    (min (limits route).0 1 ≤ limit)
    × (limit ≤ (limits route).1)
    × ((limit ≡ 0) ⊎ (skip % limit ≡ 0))

limits_in_order : (route : Route) → min (limits route).0 1 ≤ (limits route).1
unfolding limits values_limit
limits_in_order Route.counts = omega arith
limits_in_order Route.titles = omega arith
limits_in_order Route.people = omega arith
limits_in_order Route.people_counts = omega arith
limits_in_order (Route.values s) = omega arith
limits_in_order (Route.people_values t) = omega arith

read_page-whole :
    (skip : Option ℕ) (limit rows : ℕ)
    → read_page skip limit ≡ ok rows
    → (limit ≡ 0) ⊎ (rows % limit ≡ 0)
unfolding read_page
read_page-whole skip limit rows h = elim (Bool-cases (ltb 0 limit)) [
  | inl e ↦ inr (ground arith)
  | inr e ↦ inl (ground arith)
]

bind_two :
    {A B C : Type 0} (r : Result RequestError A) (s : Result RequestError B)
    (f : A → B → Result RequestError C) (c : C)
    → (r >>= λ a. s >>= λ b. f a b) ≡ ok c
    → (a : A) × (b : B) × (f a b ≡ ok c)
bind_two (ok a) (ok b) f c h = (a, b, h)
bind_two (ok a) (err e) f c h = absurd (ground arith)
bind_two (err e) s f c h = absurd (ground arith)

same-IsPage :
    (route : Route) (l l' r r' : ℕ) → l ≡ l' → r ≡ r' → IsPage route l r → IsPage route l' r'
same-IsPage route l l' r r' e f h = rw (sym e, sym f) h

clamp_low : (n low high : ℕ) → low ≤ clamp n low high
clamp_low n low high = omega arith

clamp_high : (n low high : ℕ) → low ≤ high → clamp n low high ≤ high
clamp_high n low high h = omega arith

limit_of-IsPage :
    (route : Route) (limit skip : Option ℕ) (rows : ℕ)
    → read_page skip (limit_of route limit) ≡ ok rows
    → IsPage route (limit_of route limit) rows
limit_of-IsPage route limit skip rows h =
    let n = or_default limit (limits route).0 in
    (
      clamp_low n (min (limits route).0 1) (limits route).1,
      clamp_high n (min (limits route).0 1) (limits route).1 (limits_in_order route),
      read_page-whole skip (limit_of route limit) rows h,
    )

ask_page-IsPage :
    (names : Naming) (route : Route) (query : Text) (items traits : List Item) (order : Order)
    (limit skip : Option ℕ) (a : Asked)
    → ask_page names route query items traits order limit skip ≡ ok a
    → IsPage route a.limit a.skip
unfolding ask_page
ask_page-IsPage names route query items traits order limit skip a h =
    elim (Result-cases (read_page skip (limit_of route limit))) [
      | inl (e, eq) ↦ absurd (ground arith)
      | inr (rows, eq) ↦
          elim (Result-cases (
            read_prefix names route
              (decoded_some names.utf8_lossy (param route query (codes "q"))))) [
                | inl (e, eq') ↦ absurd (ground arith)
                | inr (q, eq') ↦
                    same-IsPage route (limit_of route limit) a.limit rows a.skip (ground arith)
                      (ground arith) (limit_of-IsPage route limit skip rows eq)
              ]
    ]

ask-IsPage :
    (names : Naming) (route : Route) (scope : Scope) (query : Text) (a : Asked)
    → ask names route scope query ≡ ok a
    → IsPage route a.limit a.skip
unfolding ask ask_order ask_counts
ask-IsPage names route scope query a h =
    let (items, traits, h1) =
      bind_two
        (read_items (normalise names scope) one_title
          (decoded names.utf8_lossy (param route query (codes "sel"))))
        (read_items (normalise_trait names scope) one_value
          (decoded names.utf8_lossy (param route query (codes "traits"))))
        (ask_order names route query) a h in
    let (u, order, h2) =
      bind_two (check_traits traits)
        (read_order names.utf8_lossy (param route query (codes "order")))
        (λ (v : Unit {0}). ask_counts names route query items traits) a h1 in
    let (limit, skip, h3) =
      bind_two (read_count (param route query (codes "limit")))
        (read_count (param route query (codes "skip")))
        (ask_page names route query items traits order) a h2 in
    ask_page-IsPage names route query items traits order limit skip a h3

ok_injective : {A : Type 0} (a b : A) → ◌≡◌ {A = Result RequestError A} (ok a) (ok b) → a ≡ b
ok_injective a b h = cc

guarded :
    {A B : Type 0} (e : RequestError) (long : Bool) (x : Result RequestError A) (f : A → B) (b : B)
    → (if long then err e else (x >>= λ a. ok (f a))) ≡ ok b
    → (long ≡ false) × (a : A) × (x ≡ ok a) × (f a ≡ b)
guarded e true x f b h = absurd (ground arith)
guarded e false (ok a) f b h = (refl, a, refl, ok_injective (f a) b h)
guarded e false (err e') f b h = absurd (ground arith)

not_longer : (n m : ℕ) → ltb m n ≡ false → n ≤ m
not_longer n m h = ground arith

abbrev Kept : Text → Route → Request → Type 0
Kept query route r =
    (length query ≤ max_query)
    × IsPage route r.limit r.skip
    × (r.canonical ≡ same_text query r.canonical_query)

-- A query that reads well is not too long, and asks for a page that its route takes: a limit within the route's
-- bounds, and whole pages skipped. It is canonical exactly if it is spelled as the canonical query.
pub parse-IsPage :
    (names : Naming) (route : Route) (scope : Scope) (query : Text) (r : Request)
    → parse names route scope query ≡ ok r
    → (length query ≤ max_query)
      × IsPage route r.limit r.skip
      × (r.canonical ≡ same_text query r.canonical_query)
unfolding parse
parse-IsPage names route scope query r h =
    let (short, a, eq, same) =
      guarded RequestError.query_too_long (ltb max_query (length query))
        (ask names route scope query) (request_of route query) r h in
    subst (Kept query route) same
      (not_longer (length query) max_query short, ask-IsPage names route scope query a eq, refl)
