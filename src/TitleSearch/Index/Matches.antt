-- ===== src/TitleSearch/Index/Matches.antt =====
-- The group of a key, of the pairs of crates/den-titlesearch/src/index.rs in order.
use den_atlas.Prelude.{
  ℕ, ◌≡◌, ◌∙◌, refl, sym, ap, subst, Bool, true, ◌&&◌, List, [], ◌∷◌, ◌++◌, none, arith, ltb, leb,
  ◌==◌, if◌then◌else◌, inl, inr, Bool-cases,
}
use den_atlas.Prelude.Perms.{all, all-imp, in_order}
use den_atlas.TitleSearch.Index.{pair_before}
use den_atlas.TitleSearch.Index.Groups.{
  Groups, add, add_all, find_group, or_nil, append_assoc, append_nil,
}

-- The positions paired with a key.
abbrev pub matching : ℕ → List (ℕ × ℕ) → List ℕ
matching key [] = []
matching key (p ∷ ps) = if p.0 == key then p.1 ∷ matching key ps else matching key ps

abbrev rising : Groups → Bool
rising [] = true
rising (g ∷ gs) = all (λ h. ltb h.0 g.0) gs && rising gs

abbrev up_to : Groups → ℕ → Bool
up_to [] k = true
up_to (g ∷ gs) k = leb g.0 k

find_group_below :
    (gs : Groups) (key : ℕ) → all (λ g. ltb g.0 key) gs ≡ true → find_group gs key ≡ none
find_group_below [] key h = refl
find_group_below (g ∷ gs) key h = ground (arith, find_group_below gs key)

find_group-same :
    (p g : ℕ × List ℕ) (gs : Groups) (key : ℕ)
    → (g.0 ≡ p.0)
    → all (λ h. ltb h.0 g.0) gs ≡ true
    → or_nil (find_group ((g.0, g.1 ++ p.1) ∷ gs) key)
      ≡ or_nil (find_group (g ∷ gs) key) ++ (if p.0 == key then p.1 else [])
find_group-same p g gs key e h = elim (Bool-cases (p.0 == key)) [
  | inl k ↦
      let same : g.0 ≡ key = ground arith in
      let none_below =
        find_group_below gs key (subst (λ n. all (λ h. ltb h.0 n) gs ≡ true) same h) in
      ground (arith, none_below)
  | inr k ↦ ground (arith, append_nil (or_nil (find_group (g ∷ gs) key)))
]

find_group-new :
    (p : ℕ × List ℕ) (gs : Groups) (key : ℕ)
    → all (λ h. ltb h.0 p.0) gs ≡ true
    → or_nil (find_group (p ∷ gs) key)
      ≡ or_nil (find_group gs key) ++ (if p.0 == key then p.1 else [])
find_group-new p gs key h = elim (Bool-cases (p.0 == key)) [
  | inl k ↦
      let same : p.0 ≡ key = ground arith in
      let none_below =
        find_group_below gs key (subst (λ n. all (λ h. ltb h.0 n) gs ≡ true) same h) in
      ground (arith, none_below)
  | inr k ↦ ground (arith, append_nil (or_nil (find_group gs key)))
]

find_group-add :
    (p : ℕ × ℕ) (gs : Groups) (key : ℕ)
    → rising gs ≡ true
    → up_to gs p.0 ≡ true
    → or_nil (find_group (add p gs) key)
      ≡ or_nil (find_group gs key) ++ (if p.0 == key then p.1 ∷ [] else [])
find_group-add p [] key r u = ground arith
find_group-add p (g ∷ gs) key r u = elim (Bool-cases (g.0 == p.0)) [
  | inl e ↦ rw e (find_group-same (p.0, p.1 ∷ []) g gs key (ground arith) (ground arith))
  | inr e ↦ rw e (
      find_group-new (p.0, p.1 ∷ []) (g ∷ gs) key
        (ground (
          arith,
          all-imp (λ h. ltb h.0 g.0) (λ h. ltb h.0 p.0) gs
              (λ (h : ℕ × List ℕ) (l : ltb h.0 g.0 ≡ true). ground arith),
        )))
]

rising-add :
    (p : ℕ × ℕ) (gs : Groups) → rising gs ≡ true → up_to gs p.0 ≡ true → rising (add p gs) ≡ true
rising-add p [] r u = refl
rising-add p (g ∷ gs) r u = elim (Bool-cases (g.0 == p.0)) [
  | inl e ↦ rw e r
  | inr e ↦ rw e (
      ground (
        arith,
        all-imp (λ h. ltb h.0 g.0) (λ h. ltb h.0 p.0) gs
            (λ (h : ℕ × List ℕ) (l : ltb h.0 g.0 ≡ true). ground arith),
      ))
]

up_to-add : (p q : ℕ × ℕ) (gs : Groups) → pair_before p q ≡ true → up_to (add p gs) q.0 ≡ true
up_to-add p q [] h = ground arith
up_to-add p q (g ∷ gs) h = elim (Bool-cases (g.0 == p.0)) [
  | inl e ↦ rw e (ground arith)
  | inr e ↦ rw e (ground arith)
]

abbrev first_up : Groups → List (ℕ × ℕ) → Bool
first_up gs [] = true
first_up gs (p ∷ ps) = up_to gs p.0

pub first_up_nil : (ps : List (ℕ × ℕ)) → first_up [] ps ≡ true
first_up_nil [] = refl
first_up_nil (p ∷ ps) = refl

first_up-add :
    (p : ℕ × ℕ) (gs : Groups) (ps : List (ℕ × ℕ))
    → in_order pair_before (p ∷ ps) ≡ true
    → first_up (add p gs) ps ≡ true
unfolding in_order
first_up-add p gs [] o = refl
first_up-add p gs (q ∷ ps) o = up_to-add p q gs (ground arith)

pub find_group-add_all :
    (ps : List (ℕ × ℕ)) (gs : Groups) (key : ℕ)
    → in_order pair_before ps ≡ true
    → rising gs ≡ true
    → first_up gs ps ≡ true
    → or_nil (find_group (add_all ps gs) key) ≡ or_nil (find_group gs key) ++ matching key ps
find_group-add_all [] gs key o r u = sym (append_nil (or_nil (find_group gs key)))
find_group-add_all (p ∷ ps) gs key o r u =
    find_group-add_all ps (add p gs) key (unfold in_order in ground arith) (rising-add p gs r u)
      (first_up-add p gs ps o)
    ∙ ap (λ l. l ++ matching key ps) (find_group-add p gs key r u)
    ∙ append_assoc (or_nil (find_group gs key)) (if p.0 == key then p.1 ∷ [] else [])
        (matching key ps)
    ∙ ap (λ l. or_nil (find_group gs key) ++ l) (ground arith)
