-- ===== src/TitleSearch/Index/Groups.antt =====
-- The runs that crates/den-titlesearch/src/index.rs lays flat, as groups: the last one first.
use den_atlas.Prelude.{
  ℕ, zero, suc, ◌-◌, ◌≤◌, ◌≡◌, ◌∙◌, refl, sym, ap, subst, false, List, [], ◌∷◌, ◌++◌, Option, none,
  some, arith, ◌==◌, if◌then◌else◌, inl, inr, Bool-cases, Option-cases, length, length-append,
  get_elem?, take, drop,
}
use den_atlas.Prelude.Spans.{
  get_elem?-append_left, get_elem?-append_last, span-append, span-append_left,
}
use den_atlas.TitleSearch.Index.{
  Runs, no_runs, last_is, is_nil, end_run, add_pair, add_pairs, index_of, or_zero, run_start,
  postings_of,
}

abbrev pub Groups : Type 0
Groups = List (ℕ × List ℕ)

abbrev pub keys_of : Groups → List ℕ
keys_of [] = []
keys_of (g ∷ gs) = keys_of gs ++ g.0 ∷ []

abbrev pub posted : Groups → List ℕ
posted [] = []
posted (g ∷ gs) = posted gs ++ g.1

abbrev pub ends_of : Groups → List ℕ
ends_of [] = []
ends_of (g ∷ gs) = ends_of gs ++ length (posted (g ∷ gs)) ∷ []

abbrev pub laid : Groups → Runs
laid gs = record { keys = keys_of gs; key_ends = ends_of gs; postings = posted gs }

-- Before the last run is ended.
abbrev pub unended : Groups → Runs
unended [] = no_runs
unended (g ∷ gs) = record (laid (g ∷ gs)) { key_ends = ends_of gs }

abbrev pub add : ℕ × ℕ → Groups → Groups
add p [] = (p.0, p.1 ∷ []) ∷ []
add p (g ∷ gs) = if g.0 == p.0 then (g.0, g.1 ++ p.1 ∷ []) ∷ gs else (p.0, p.1 ∷ []) ∷ g ∷ gs

abbrev pub add_all : List (ℕ × ℕ) → Groups → Groups
add_all [] gs = gs
add_all (p ∷ ps) gs = add_all ps (add p gs)

last_is-append : (key k : ℕ) (ks : List ℕ) → last_is key (ks ++ k ∷ []) ≡ (k == key)
unfolding last_is
last_is-append key k [] = refl
last_is-append key k (x ∷ []) = refl
last_is-append key k (x ∷ y ∷ ks) = last_is-append key k (y ∷ ks)

is_nil-append : (ks : List ℕ) (k : ℕ) → is_nil (ks ++ k ∷ []) ≡ false
is_nil-append [] k = refl
is_nil-append (x ∷ ks) k = refl

pub append_assoc : (a b c : List ℕ) → (a ++ b) ++ c ≡ a ++ (b ++ c)
append_assoc [] b c = refl
append_assoc (x ∷ a) b c = ap (λ l. x ∷ l) (append_assoc a b c)

pub append_nil : (a : List ℕ) → a ++ [] ≡ a
append_nil [] = refl
append_nil (x ∷ a) = ap (λ l. x ∷ l) (append_nil a)

add_pair-unended : (p : ℕ × ℕ) (gs : Groups) → add_pair p (unended gs) ≡ unended (add p gs)
unfolding add_pair last_is
add_pair-unended p [] = refl
add_pair-unended p (g ∷ gs) = elim (Bool-cases (g.0 == p.0)) [
  | inl e ↦
      rw (last_is-append p.0 g.0 (keys_of gs))
        (rw e (rw (append_assoc (posted gs) g.1 (p.1 ∷ [])) refl))
  | inr e ↦
      rw (last_is-append p.0 g.0 (keys_of gs)) (rw e (rw (is_nil-append (keys_of gs) g.0) refl))
]

add_pairs-unended :
    (ps : List (ℕ × ℕ)) (gs : Groups) → add_pairs ps (unended gs) ≡ unended (add_all ps gs)
unfolding add_pairs
add_pairs-unended [] gs = refl
add_pairs-unended (p ∷ ps) gs =
    ap (add_pairs ps) (add_pair-unended p gs) ∙ add_pairs-unended ps (add p gs)

end_run-unended : (gs : Groups) → end_run (unended gs) ≡ laid gs
end_run-unended [] = refl
end_run-unended (g ∷ gs) = rw (is_nil-append (keys_of gs) g.0) refl

-- The loop lays the groups flat.
pub add_pairs-laid : (ps : List (ℕ × ℕ)) → end_run (add_pairs ps no_runs) ≡ laid (add_all ps [])
add_pairs-laid ps = ap end_run (add_pairs-unended ps []) ∙ end_run-unended (add_all ps [])

-- The first group of a key.
abbrev pub find_group : Groups → ℕ → Option (List ℕ)
find_group [] key = none
find_group (g ∷ gs) key = elim (find_group gs key) [
  | some l ↦ some l
  | none ↦ if g.0 == key then some g.1 else none
]

abbrev pub or_nil : Option (List ℕ) → List ℕ
or_nil none = []
or_nil (some l) = l

index_of-append :
    (key k : ℕ) (ks : List ℕ)
    → index_of key (ks ++ k ∷ []) ≡ elim (index_of key ks) [
      | some i ↦ some i
      | none ↦ if k == key then some (length ks) else none
    ]
unfolding index_of
index_of-append key k [] = ground arith
index_of-append key k (x ∷ ks) = ground (arith, index_of-append key k ks)

-- A group's run, by the index of its key.
record RunAt (gs : Groups) (i : ℕ) (l : List ℕ) : Type 0 where
  from : ℕ
  to : ℕ
  begins : run_start (ends_of gs) i ≡ from
  ends : get_elem? (ends_of gs) i ≡ some to
  forward : from ≤ to
  inside : to ≤ length (posted gs)
  holds : take (to - from) (drop from (posted gs)) ≡ l

length-ends_of : (gs : Groups) → length (ends_of gs) ≡ length (keys_of gs)
length-ends_of [] = refl
length-ends_of (g ∷ gs) = omega (
  arith,
  length-ends_of gs,
  length-append (ends_of gs) (length (posted (g ∷ gs)) ∷ []),
  length-append (keys_of gs) (g.0 ∷ []),
)

get_elem?-before :
    (xs : List ℕ) (i x : ℕ) → get_elem? xs (suc i) ≡ some x → (y : ℕ) × (get_elem? xs i ≡ some y)
get_elem?-before [] i x h = absurd (ground arith)
get_elem?-before (z ∷ xs) zero x h = (z, refl)
get_elem?-before (z ∷ xs) (suc i) x h = get_elem?-before xs i x h

run_start-append :
    (ends : List ℕ) (i to last : ℕ)
    → get_elem? ends i ≡ some to
    → run_start (ends ++ last ∷ []) i ≡ run_start ends i
run_start-append ends zero to last h = refl
run_start-append ends (suc i) to last h =
    let (y, e) = get_elem?-before ends i to h in
    ap or_zero (get_elem?-append_left ends (last ∷ []) i y e ∙ sym e)

run_start-last :
    (ends : List ℕ) (a b n : ℕ)
    → n ≡ suc (length ends)
    → run_start ((ends ++ a ∷ []) ++ b ∷ []) n ≡ a
run_start-last ends a b n e =
    subst (λ m. run_start ((ends ++ a ∷ []) ++ b ∷ []) m ≡ a) (sym e)
      (ap or_zero (
        get_elem?-append_left (ends ++ a ∷ []) (b ∷ []) (length ends) a
          (get_elem?-append_last ends a)))

RunAt-kept : (g : ℕ × List ℕ) (gs : Groups) (i : ℕ) (l : List ℕ) → RunAt gs i l → RunAt (g ∷ gs) i l
RunAt-kept g gs i l r = record {
  from = r.from;
  to = r.to;
  begins = run_start-append (ends_of gs) i r.to (length (posted (g ∷ gs))) r.ends ∙ r.begins;
  ends = get_elem?-append_left (ends_of gs) _ i r.to r.ends;
  forward = r.forward;
  inside = omega (arith, r.inside, length-append (posted gs) g.1);
  holds =
      span-append_left (r.to - r.from) r.from (posted gs) g.1 (omega (arith, r.forward, r.inside))
      ∙ r.holds;
}

begins_last :
    (g : ℕ × List ℕ) (gs : Groups)
    → run_start (ends_of (g ∷ gs)) (length (keys_of gs)) ≡ length (posted gs)
begins_last g [] = refl
begins_last g (h ∷ hs) =
    run_start-last (ends_of hs) (length (posted (h ∷ hs))) (length (posted (g ∷ h ∷ hs)))
      (length (keys_of (h ∷ hs)))
      (omega (arith, length-ends_of hs, length-append (keys_of hs) (h.0 ∷ [])))

RunAt-last : (g : ℕ × List ℕ) (gs : Groups) → RunAt (g ∷ gs) (length (keys_of gs)) g.1
RunAt-last g gs = record {
  from = length (posted gs);
  to = length (posted gs ++ g.1);
  begins = begins_last g gs;
  ends =
      subst (λ i. get_elem? (ends_of (g ∷ gs)) i ≡ some (length (posted gs ++ g.1)))
        (length-ends_of gs) (get_elem?-append_last (ends_of gs) (length (posted gs ++ g.1)));
  forward = omega (arith, length-append (posted gs) g.1);
  inside = omega arith;
  holds = span-append (posted gs) g.1;
}

find_group-none :
    (gs : Groups) (key : ℕ) → index_of key (keys_of gs) ≡ none → find_group gs key ≡ none
unfolding index_of
find_group-none [] key h = refl
find_group-none (g ∷ gs) key h =
    let e = sym (index_of-append key g.0 (keys_of gs)) ∙ h in
    elim (Option-cases (index_of key (keys_of gs))) [
      | inr (i, found) ↦ absurd (ground arith)
      | inl missing ↦ ground (arith, find_group-none gs key missing)
    ]

find_group-some :
    (gs : Groups) (key i : ℕ)
    → index_of key (keys_of gs) ≡ some i
    → (l : List ℕ) × (find_group gs key ≡ some l) × RunAt gs i l
unfolding index_of
find_group-some [] key i h = absurd (ground arith)
find_group-some (g ∷ gs) key i h =
    let e = sym (index_of-append key g.0 (keys_of gs)) ∙ h in
    elim (Option-cases (index_of key (keys_of gs))) [
      | inr (j, found) ↦
          let (l, at, run) = find_group-some gs key j found in
          let same : j ≡ i = ground arith in
          (l, ground arith, subst (λ n. RunAt (g ∷ gs) n l) same (RunAt-kept g gs j l run))
      | inl missing ↦
          let same : length (keys_of gs) ≡ i = ground arith in
          (
            g.1,
            ground (arith, find_group-none gs key missing),
            subst (λ n. RunAt (g ∷ gs) n g.1) same (RunAt-last g gs),
          )
    ]

run_lem :
    (gs : Groups) (i : ℕ) (l : List ℕ)
    → RunAt gs i l
    → take
        (or_zero (get_elem? (ends_of gs) i) - run_start (ends_of gs) i)
        (drop (run_start (ends_of gs) i) (posted gs))
      ≡ l
run_lem gs i l r = rw r.ends (rw r.begins r.holds)

-- What is laid flat is read back.
pub postings_of-laid :
    (gs : Groups) (key : ℕ) → postings_of (laid gs) key ≡ or_nil (find_group gs key)
unfolding postings_of
postings_of-laid gs key = elim (Option-cases (index_of key (keys_of gs))) [
  | inl e ↦ ground (arith, find_group-none gs key e)
  | inr (i, e) ↦ let (l, at, run) = find_group-some gs key i e in ground (arith, run_lem gs i l run)
]
