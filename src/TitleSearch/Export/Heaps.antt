-- ===== src/TitleSearch/Export/Heaps.antt =====
-- What crates/den-titlesearch/src/export.rs relies on of `BinaryHeap`, turned round by `Reverse`: the
-- least element is at hand and is what is given up. Among several least ones it may be any.
use den_atlas.Prelude.{ℕ, ◌≡◌, Bool, true, List, [], ◌∷◌, Option, none, some, length}
use den_atlas.Prelude.Perms.{all}
use mathlib.Core.List.{Perm}

pub record Heap (A : Type 0) (weaker : A → A → Bool) : Type 1 where
  pub State : Type 0
  pub new : State
  pub items : State → List A
  pub size : State → ℕ
  pub peek : State → Option A
  pub pop_least : State → State
  pub push : A → State → State
  pub items-new : items new ≡ []
  pub size-items : (h : State) → size h ≡ length (items h)
  pub peek_empty : (h : State) → peek h ≡ none → items h ≡ []
  pub peek_least : (h : State) (a : A) → peek h ≡ some a → all (weaker a) (items h) ≡ true
  pub items-pop : (h : State) (a : A) → peek h ≡ some a → Perm (a ∷ items (pop_least h)) (items h)
  pub items-push : (a : A) (h : State) → Perm (items (push a h)) (a ∷ items h)
