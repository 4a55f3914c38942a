-- ===== src/Billing/Positions.antt =====
-- What src/billing.rs answers, against the credits and the store.
use den_atlas.Prelude.{
  ℕ, zero, suc, ◌+◌, ◌<◌, ◌≡◌, ◌∙◌, refl, sym, ap, subst, Bool, true, false, ◌&&◌, ◌||◌, not, List,
  [], ◌∷◌, ◌++◌, map, Option, none, some, arith, ◌==◌, if◌then◌else◌, inl, inr, Bool-cases,
  get_elem?, ℕ_discrete,
}
use den_atlas.Prelude.Map.{lookup, insert, lookup-insert}
use den_atlas.Prelude.Results.{ok}
use den_atlas.Billing.{
  or_false, Billed, at, below, Billing, Role, is_none, billed_in, of, entities_of, named,
  billed_row, index_entities, roles_of, build_billing,
}
use den_atlas.Billing.Rows.{lesser, best_in, find_billed-row, is_none-row}
use den_atlas.Billing.Spans.{Spans, add_rows-Spans, add_rows-on_tmdb}

-- Whether an entity stands in a list.
abbrev member : ℕ → List ℕ → Bool
member e [] = false
member e (x ∷ xs) = x == e || member e xs

member-append : (e : ℕ) (xs ys : List ℕ) → member e (xs ++ ys) ≡ (member e xs || member e ys)
member-append e [] ys = refl
member-append e (x ∷ xs) ys = ground (arith, member-append e xs ys)

lesser_assoc : (a b c : Option ℕ) → lesser (lesser a b) c ≡ lesser a (lesser b c)
lesser_assoc none b c = refl
lesser_assoc (some a) none c = refl
lesser_assoc (some a) (some b) none = refl
lesser_assoc (some a) (some b) (some c) = ap some (omega arith)

best_in-append :
    (e : ℕ) (xs ys : List (ℕ × ℕ)) → best_in e (xs ++ ys) ≡ lesser (best_in e xs) (best_in e ys)
best_in-append e [] ys = refl
best_in-append e (x ∷ xs) ys = elim (Bool-cases (x.0 == e)) [
  | inl h ↦
      rw h
        (rw (best_in-append e xs ys) (sym (lesser_assoc (some x.1) (best_in e xs) (best_in e ys))))
  | inr h ↦ rw h (best_in-append e xs ys)
]

lesser_same : (n : ℕ) → lesser (some n) (some n) ≡ some n
lesser_same n = ap some (omega arith)

best_in-map :
    (e order : ℕ) (es : List ℕ)
    → best_in e (map (λ x. (x, order)) es) ≡ (if member e es then some order else none)
best_in-map e order [] = refl
best_in-map e order (x ∷ es) = elim (Bool-cases (x == e)) [
  | inl h ↦ rw h (
      rw (best_in-map e order es)
        (elim (Bool-cases (member e es)) [ inl k ↦ rw k (lesser_same order) | inr k ↦ rw k refl ]))
  | inr h ↦ rw h (best_in-map e order es)
]

abbrev some_in : List ℕ → Bool
some_in [] = false
some_in (x ∷ xs) = true

some_in-append : (xs : List ℕ) (x : ℕ) → some_in (xs ++ x ∷ []) ≡ true
some_in-append [] x = refl
some_in-append (y ∷ xs) x = refl

is_none-map :
    (order : ℕ) (es : List ℕ) (l : List (ℕ × ℕ))
    → is_none (map (λ x. (x, order)) es ++ l) ≡ (not (some_in es) && is_none l)
is_none-map order [] l = refl
is_none-map order (x ∷ es) l = refl

of-Spans :
    (b : Billing) (row : ℕ) (content : List (ℕ × ℕ)) (entity : ℕ)
    → Spans b row content
    → of b row entity ≡ billed_in content (or_false (get_elem? b.on_tmdb entity)) entity
unfolding of
of-Spans b row content entity s = ground (arith, s.starts_at, s.ends_at, s.holds)

module _ (no_person : ℕ) where
  -- An entity, counted from the given one, has the person's id.
  abbrev held : ℕ → List ℕ → ℕ → ℕ → Bool
  held from [] e p = false
  held from (q ∷ qs) e p = (from == e && (q == p && not (q == no_person))) || held (suc from) qs e p

  abbrev is_person : Option ℕ → ℕ → Bool
  is_person none p = false
  is_person (some q) p = q == p && not (q == no_person)

  held_past : (from : ℕ) (qs : List ℕ) (e p : ℕ) → e < from → held from qs e p ≡ false
  held_past from [] e p h = refl
  held_past from (q ∷ qs) e p h = ground (arith, held_past (suc from) qs e p)

  held-get_elem? :
      (from i : ℕ) (qs : List ℕ) (p : ℕ) → held from qs (from + i) p ≡ is_person (get_elem? qs i) p
  held-get_elem? from i [] p = refl
  held-get_elem? from zero (q ∷ qs) p = ground (arith, held_past (suc from) qs (from + 0) p)
  held-get_elem? from (suc i) (q ∷ qs) p =
      let shift : suc from + i ≡ from + suc i = omega arith in
      let later =
        subst (λ n. held (suc from) qs n p ≡ is_person (get_elem? qs i) p) shift
          (held-get_elem? (suc from) i qs p) in
      ground (arith, later)

  abbrev with_entity : ℕ → ℕ → List (ℕ × List ℕ) → List (ℕ × List ℕ)
  with_entity entity person m =
      if person == no_person
      then m
      else insert ℕ_discrete person (entities_of m person ++ entity ∷ []) m

  entities_of-with_entity :
      (entity q p : ℕ) (m : List (ℕ × List ℕ))
      → entities_of (with_entity entity q m) p ≡ (
          if q == p && not (q == no_person)
          then entities_of m p ++ entity ∷ []
          else entities_of m p)
  entities_of-with_entity entity q p m =
      ground (arith, lookup-insert ℕ_discrete q p (entities_of m q ++ entity ∷ []) m)

  member-entities_of :
      (from : ℕ) (qs : List ℕ) (m : List (ℕ × List ℕ)) (e p : ℕ)
      → member e (entities_of (index_entities no_person from qs m) p)
        ≡ (member e (entities_of m p) || held from qs e p)
  unfolding index_entities
  member-entities_of from [] m e p = ground arith
  member-entities_of from (q ∷ qs) m e p =
      member-entities_of (suc from) qs (with_entity from q m) e p
      ∙ ground
          (arith, entities_of-with_entity from q p m, member-append e (entities_of m p) (from ∷ []))

  some_in-entities_of :
      (from : ℕ) (qs : List ℕ) (m : List (ℕ × List ℕ)) (p : ℕ)
      → some_in (entities_of (index_entities no_person from qs m) p)
        ≡ (some_in (entities_of m p) || (member p qs && not (p == no_person)))
  unfolding index_entities
  some_in-entities_of from [] m p = ground arith
  some_in-entities_of from (q ∷ qs) m p =
      some_in-entities_of (suc from) qs (with_entity from q m) p
      ∙ ground (arith, entities_of-with_entity from q p m, some_in-append (entities_of m p) from)

  module _ (tmdb : List ℕ) where
    -- Whether a role names the entity: it has the person's id, and that is one.
    abbrev pub names : Role → ℕ → Bool
    names r entity = is_person (get_elem? tmdb entity) r.person

    -- The best position of the roles that name an entity.
    abbrev pub best_position : List Role → ℕ → Option ℕ
    best_position [] entity = none
    best_position (r ∷ roles) entity =
        lesser (if names r entity then some r.order else none) (best_position roles entity)

    -- Whether the roles name nobody of the store.
    abbrev pub unbilled : List Role → Bool
    unbilled [] = true
    unbilled (r ∷ roles) =
        not (member r.person tmdb && not (r.person == no_person)) && unbilled roles

    abbrev pub known : ℕ → Bool
    known entity = elim (get_elem? tmdb entity) [ none ↦ false | some p ↦ not (p == no_person) ]

    -- What is said of an entity on a title with the roles.
    abbrev pub answer : List Role → ℕ → Option Billed
    answer roles entity =
        if unbilled roles || not (known entity)
        then none
        else some (elim (best_position roles entity) [ some position ↦ at position | none ↦ below ])

    abbrev entities : List (ℕ × List ℕ)
    entities = index_entities no_person 0 tmdb []

    member-entities : (e p : ℕ) → member e (entities_of entities p) ≡ is_person (get_elem? tmdb e) p
    unfolding lookup
    member-entities e p =
        let start : 0 + e ≡ e = omega arith in
        member-entities_of 0 tmdb [] e p
        ∙ subst (λ n. held 0 tmdb n p ≡ is_person (get_elem? tmdb e) p) start
            (held-get_elem? 0 e tmdb p)

    best_in-named :
        (roles : List Role) (e : ℕ) → best_in e (named entities roles) ≡ best_position roles e
    unfolding named
    best_in-named [] e = refl
    best_in-named (r ∷ roles) e =
        best_in-append e (map (λ x. (x, r.order)) (entities_of entities r.person))
          (named entities roles)
        ∙ ap (λ x. lesser x (best_in e (named entities roles)))
            (best_in-map e r.order (entities_of entities r.person))
        ∙ ap (λ b. lesser (if b then some r.order else none) (best_in e (named entities roles)))
            (member-entities e r.person)
        ∙ ap (lesser (if names r e then some r.order else none)) (best_in-named roles e)

    is_none-named : (roles : List Role) → is_none (named entities roles) ≡ unbilled roles
    unfolding named lookup
    is_none-named [] = refl
    is_none-named (r ∷ roles) =
        is_none-map r.order (entities_of entities r.person) (named entities roles)
        ∙ ground (arith, some_in-entities_of 0 tmdb [] r.person, is_none-named roles)

    known-map :
        (people : List ℕ) (entity : ℕ)
        → or_false (get_elem? (map (λ p. not (p == no_person)) people) entity)
          ≡ elim (get_elem? people entity) [ none ↦ false | some p ↦ not (p == no_person) ]
    known-map [] entity = refl
    known-map (p ∷ people) zero = refl
    known-map (p ∷ people) (suc i) = known-map people i

    known-on_tmdb :
        (entity : ℕ)
        → or_false (get_elem? (map (λ p. not (p == no_person)) tmdb) entity) ≡ known entity
    known-on_tmdb entity = known-map tmdb entity

    billed_in-row :
        (roles : List Role) (entity : ℕ)
        → billed_in (billed_row entities roles) (known entity) entity ≡ answer roles entity
    unfolding billed_in billed_row
    billed_in-row roles entity = rw (is_none-row (named entities roles)) (
        rw (is_none-named roles) (
          rw (find_billed-row entity (named entities roles))
            (rw (best_in-named roles entity) refl)))

-- Wherever the billing could be built, it answers for each row of the store and each entity: nothing if
-- the title's roles name nobody or the entity is not on TMDB, and else the best position of the roles that
-- name the entity, or that there is none.
pub of-build_billing :
    (no_person : ℕ) (credits : ℕ × ℕ → Option (List Role)) (keys tmdb : List ℕ) (b : Billing)
    (row packed entity : ℕ)
    → build_billing no_person credits keys tmdb ≡ ok b
    → get_elem? keys row ≡ some packed
    → of b row entity ≡ answer no_person tmdb (roles_of no_person credits packed) entity
unfolding build_billing
of-build_billing no_person credits keys tmdb b row packed entity h e =
    let ents = index_entities no_person 0 tmdb [] in
    let roles = roles_of no_person credits packed in
    let empty : Billing = record {
      starts = 0 ∷ [];
      billed = [];
      on_tmdb = map (λ p. not (p == no_person)) tmdb;
    } in
    let start : 0 + row ≡ row = omega arith in
    let spans =
      subst (λ n. Spans b n (billed_row ents roles)) start
        (add_rows-Spans no_person credits ents keys empty b 0 row packed (refl, refl) h e) in
    of-Spans b row (billed_row ents roles) entity spans
    ∙ ap (λ t. billed_in (billed_row ents roles) (or_false (get_elem? t entity)) entity)
        (add_rows-on_tmdb no_person credits ents keys empty b h)
    ∙ ap (λ k. billed_in (billed_row ents roles) k entity) (known-on_tmdb no_person tmdb entity)
    ∙ billed_in-row no_person tmdb roles entity
