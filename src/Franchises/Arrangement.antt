-- ===== src/Franchises/Arrangement.antt =====
-- How src/franchises.rs arranges the members of a franchise around a seed.
use den_atlas.Prelude.{
  ℕ, zero, suc, ◌+◌, ◌%◌, ◌^◌, ◌<◌, ◌≡◌, ◌∙◌, refl, sym, subst, Bool, true, false, List, [], ◌∷◌,
  ◌++◌, some, arith, ltb, ◌==◌, if◌then◌else◌, inl, inr, Bool-cases, length, map,
}
use mathlib.Core.Logic.{∥∥₁_elim}
use mathlib.Core.List.{Perm, Permᴰ, reverse, reverse_perm, perm_middle}
use mathlib.Core.List.Perm
use native.Mathlib.Nat.{ℕ_set}
use den_atlas.Prelude.Perms.{all, all-imp, sort-Perm, sort-in_order, in_order, in_order-imp}
use den_atlas.Franchises.Closeness.{
  IsCloseness, nearer, no_farther-nearer, closeness_of-IsCloseness,
}
use den_atlas.Franchises.{
  Key, Member, Franchise, Membership, Franchises, range, membership, primary,
}
use den_atlas.Franchises.Members.{
  TitleFacts, members_of, closeness, no_farther, without, closer, other_eras, by_era, members_for,
}

-- How often an era stands in a list.
abbrev pub times : ℕ → List ℕ → ℕ
times e [] = 0
times e (x ∷ xs) = (if x == e then 1 else 0) + times e xs

times-append : (e : ℕ) (xs ys : List ℕ) → times e (xs ++ ys) ≡ times e xs + times e ys
times-append e [] ys = omega arith
times-append e (x ∷ xs) ys = omega (arith, times-append e xs ys)

times-Permᴰ : (e : ℕ) (xs ys : List ℕ) → Permᴰ xs ys → times e xs ≡ times e ys
times-Permᴰ e _ _ Permᴰ.nil = refl
times-Permᴰ e _ _ (Permᴰ.cons {a} {b} {l₁} {l₂} p q) = ground (arith, times-Permᴰ e l₁ l₂ q)
times-Permᴰ e _ _ (Permᴰ.swap p q) = ground arith
times-Permᴰ e _ _ (Permᴰ.trans {l₁} {l₂} {l₃} p q) = times-Permᴰ e l₁ l₂ p ∙ times-Permᴰ e l₂ l₃ q

times-Perm : (e : ℕ) (xs ys : List ℕ) → Perm xs ys → times e xs ≡ times e ys
times-Perm e xs ys p = ∥∥₁_elim p (ℕ_set _ _) (times-Permᴰ e xs ys)

times-range : (e n : ℕ) → times e (range n) ≡ (if ltb e n then 1 else 0)
unfolding range
times-range e zero = ground arith
times-range e (suc n) = ground (arith, times-append e (range n) (n ∷ []), times-range e n)

times-without :
    (e d : ℕ) (xs : List ℕ) → times e (without d xs) ≡ (if e == d then 0 else times e xs)
unfolding without
times-without e d [] = ground arith
times-without e d (x ∷ xs) = ground (arith, times-without e d xs)

-- The members of each era of the list, era by era.
abbrev gathered : List Member → List ℕ → List Member
gathered ms [] = []
gathered ms (e ∷ es) = members_of e ms ++ gathered ms es

by_era-Perm : (ms : List Member) (es : List ℕ) → Perm (by_era ms es) (gathered ms es)
unfolding by_era
by_era-Perm ms [] = Perm.rfl
by_era-Perm ms (e ∷ es) = Perm.append (reverse_perm (members_of e ms)) (by_era-Perm ms es)

gathered-none : (es : List ℕ) → gathered [] es ≡ []
unfolding members_of
gathered-none [] = refl
gathered-none (e ∷ es) = gathered-none es

gathered_apart :
    (m : Member) (ms : List Member) (es : List ℕ)
    → times m.era es ≡ 0
    → gathered (m ∷ ms) es ≡ gathered ms es
unfolding members_of
gathered_apart m ms [] h = refl
gathered_apart m ms (e ∷ es) h = ground (arith, gathered_apart m ms es)

gathered-cons :
    (m : Member) (ms : List Member) (es : List ℕ)
    → times m.era es ≡ 1
    → Perm (gathered (m ∷ ms) es) (m ∷ gathered ms es)
unfolding members_of
gathered-cons m ms [] h = absurd (ground arith)
gathered-cons m ms (e ∷ es) h = elim (Bool-cases (m.era == e)) [
  | inl same ↦ rw same (rw (gathered_apart m ms es (ground arith)) Perm.rfl)
  | inr other ↦ rw other (
      Perm.trans (Perm.append_left (members_of e ms) (gathered-cons m ms es (ground arith)))
        (perm_middle (members_of e ms) (gathered ms es)))
]

-- Every member stands in an era of the list, and the list has that era once.
gathered-Perm :
    (ms : List Member) (es : List ℕ)
    → all (λ m. times m.era es == 1) ms ≡ true
    → Perm (gathered ms es) ms
gathered-Perm [] es h = subst (λ l. Perm l []) (sym (gathered-none es)) Perm.rfl
gathered-Perm (m ∷ ms) es h =
    Perm.trans (gathered-cons m ms es (ground arith))
      (Perm.cons m (gathered-Perm ms es (ground arith)))

-- Every member's era is one of the franchise's.
abbrev pub Eras : Franchise → Type 0
Eras f = (length f.eras < 2 ^ 32) × (all (λ m. ltb m.era (length f.eras)) f.members ≡ true)

module _ (title : Key → TitleFacts) (own : TitleFacts) (f : Franchise) where
  times-other_eras :
      (era e : ℕ)
      → length f.eras < 2 ^ 32
      → times e (other_eras title own f era)
        ≡ (if e == era then 0 else if ltb e (length f.eras) then 1 else 0)
  unfolding other_eras
  times-other_eras era e h =
      times-Perm e (other_eras title own f era) (without era (range (length f.eras % 2 ^ 32)))
        (sort-Perm (closer title own f) (without era (range (length f.eras % 2 ^ 32))))
      ∙ times-without e era (range (length f.eras % 2 ^ 32))
      ∙ ground (arith, times-range e (length f.eras % 2 ^ 32))

  times-eras :
      (era : ℕ) (m : Member)
      → length f.eras < 2 ^ 32
      → ltb m.era (length f.eras) ≡ true
      → (times m.era (era ∷ other_eras title own f era) == 1) ≡ true
  times-eras era m h within = ground (arith, times-other_eras era m.era h)

  -- The members around a seed are the franchise's, each as often as it is there.
  arranged-Perm :
      (era : ℕ) → Eras f → Perm (by_era f.members (era ∷ other_eras title own f era)) f.members
  arranged-Perm era h = Perm.trans (by_era-Perm f.members (era ∷ other_eras title own f era)) (
      gathered-Perm f.members (era ∷ other_eras title own f era) (
        all-imp (λ m. ltb m.era (length f.eras))
          (λ m. times m.era (era ∷ other_eras title own f era) == 1) f.members
          (λ (m : Member). times-eras era m h.0) h.1))

no_farther_total : (p q : Bool × ℕ) → no_farther p q ≡ false → no_farther q p ≡ true
no_farther_total (false, i) (false, j) h = ground arith
no_farther_total (false, i) (true, j) h = ground arith
no_farther_total (true, i) (false, j) h = refl
no_farther_total (true, i) (true, j) h = ground arith

no_farther_trans :
    (p q r : Bool × ℕ) → no_farther p q ≡ true → no_farther q r ≡ true → no_farther p r ≡ true
no_farther_trans (false, i) (b, j) (true, k) h g = refl
no_farther_trans (false, i) (false, j) (false, k) h g = ground arith
no_farther_trans (false, i) (true, j) (false, k) h g = absurd (ground arith)
no_farther_trans (true, i) (false, j) r h g = absurd (ground arith)
no_farther_trans (true, i) (true, j) (false, k) h g = absurd (ground arith)
no_farther_trans (true, i) (true, j) (true, k) h g = ground arith

members_for_found :
    (fs : Franchises) (seed : Key) (title : Key → TitleFacts) (m : Membership) (f : Franchise)
    → membership fs seed ≡ some m
    → primary fs seed ≡ some f
    → members_for fs seed title
      ≡ some (by_era f.members (m.era ∷ other_eras title (title seed) f m.era))
unfolding members_for primary
members_for_found fs seed title m f e at = ground arith

-- The members around a title of a franchise are those of the franchise, each once, when their eras are
-- eras of the franchise.
pub members_for-Perm :
    (fs : Franchises) (seed : Key) (title : Key → TitleFacts) (m : Membership) (f : Franchise)
    → membership fs seed ≡ some m
    → primary fs seed ≡ some f
    → Eras f
    → (ms : List Member) × (members_for fs seed title ≡ some ms) × Perm ms f.members
members_for-Perm fs seed title m f e at h = (
  by_era f.members (m.era ∷ other_eras title (title seed) f m.era),
  members_for_found fs seed title m f e at,
  arranged-Perm title (title seed) f m.era h,
)

-- The titles of an era.
abbrev pub facts_of : (Key → TitleFacts) → Franchise → ℕ → List TitleFacts
facts_of title f era = map (λ m. title m.key) (members_of era f.members)

-- The seed's era comes first, from its last member to its first, and then each other era once, so too: those
-- with at least as many titles of the seed's kind as not before the others, and of each sort those before
-- whose nearest title is fewer years from the seed. An era without a year to compare counts as the farthest.
pub members_for-in_order :
    (fs : Franchises) (seed : Key) (title : Key → TitleFacts) (m : Membership) (f : Franchise)
    → membership fs seed ≡ some m
    → primary fs seed ≡ some f
    → length f.eras < 2 ^ 32
    → (es : List ℕ) × (rank : ℕ → Bool × ℕ) × (members_for fs seed title
        ≡ some (reverse (members_of m.era f.members) ++ by_era f.members es))
      × ((e : ℕ) → IsCloseness (title seed) (facts_of title f e) (rank e).0 (rank e).1)
      × (in_order (λ a b. nearer (rank a) (rank b)) es ≡ true)
      × ((e : ℕ) → times e es ≡ (if e == m.era then 0 else if ltb e (length f.eras) then 1 else 0))
unfolding by_era other_eras closeness
members_for-in_order fs seed title m f e at h = (
  other_eras title (title seed) f m.era,
  closeness title (title seed) f,
  members_for_found fs seed title m f e at,
  λ era. closeness_of-IsCloseness (title seed) (facts_of title f era),
  in_order-imp (closer title (title seed) f) _ (other_eras title (title seed) f m.era)
      (λ a b.
        no_farther-nearer (closeness title (title seed) f a) (closeness title (title seed) f b))
      (sort-in_order (closer title (title seed) f)
        (λ a b.
          no_farther_total (closeness title (title seed) f a) (closeness title (title seed) f b))
        (λ a b c.
          no_farther_trans (closeness title (title seed) f a) (closeness title (title seed) f b)
            (closeness title (title seed) f c))
        (without m.era (range (length f.eras % 2 ^ 32)))),
  λ era. times-other_eras title (title seed) f m.era era h,
)
