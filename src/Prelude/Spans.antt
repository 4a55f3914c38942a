-- ===== src/Prelude/Spans.antt =====
-- Parts of a list that a longer one holds.
use Prim.Native.Nat.{ℕ, zero, suc, ◌+◌, ◌-◌, ◌≤◌}
use mathlib.Core.Path.{◌≡◌, refl, ap, ◌∙◌}
use mathlib.Core.List.{List, [], ◌∷◌, ◌++◌}
use mathlib.Core.Option.{some}
use native.Mathlib.Omega.{arith}
use den_atlas.Prelude.Lists.{length, length-append, get_elem?, take, drop}

pub get_elem?-append_left {ℓ} :
    {A : Type ℓ} (xs ys : List A) (i : ℕ) (x : A)
    → get_elem? xs i ≡ some x
    → get_elem? (xs ++ ys) i ≡ some x
get_elem?-append_left [] ys i x h = absurd (ground arith)
get_elem?-append_left (z ∷ xs) ys zero x h = h
get_elem?-append_left (z ∷ xs) ys (suc i) x h = get_elem?-append_left xs ys i x h

pub get_elem?-append_last {ℓ} :
    {A : Type ℓ} (xs : List A) (y : A) → get_elem? (xs ++ y ∷ []) (length xs) ≡ some y
get_elem?-append_last [] y = refl
get_elem?-append_last (x ∷ xs) y = get_elem?-append_last xs y

drop-length-append {ℓ} : {A : Type ℓ} (xs ys : List A) → drop (length xs) (xs ++ ys) ≡ ys
drop-length-append [] ys = refl
drop-length-append (x ∷ xs) ys = drop-length-append xs ys

take-length {ℓ} : {A : Type ℓ} (xs : List A) → take (length xs) xs ≡ xs
take-length [] = refl
take-length (x ∷ xs) = ap (λ l. x ∷ l) (take-length xs)

pub span-append {ℓ} :
    {A : Type ℓ} (xs ys : List A)
    → take (length (xs ++ ys) - length xs) (drop (length xs) (xs ++ ys)) ≡ ys
span-append xs ys =
    ap (λ n. take n (drop (length xs) (xs ++ ys))) (omega (arith, length-append xs ys))
    ∙ ap (take (length ys)) (drop-length-append xs ys)
    ∙ take-length ys

take-append_left {ℓ} :
    {A : Type ℓ} (n : ℕ) (xs ys : List A) → n ≤ length xs → take n (xs ++ ys) ≡ take n xs
take-append_left zero xs ys h = refl
take-append_left (suc n) [] ys h = absurd (omega arith)
take-append_left (suc n) (x ∷ xs) ys h = ap (λ l. x ∷ l) (take-append_left n xs ys (omega arith))

pub span-append_left {ℓ} :
    {A : Type ℓ} (n d : ℕ) (xs ys : List A)
    → n + d ≤ length xs
    → take n (drop d (xs ++ ys)) ≡ take n (drop d xs)
span-append_left n zero xs ys h = take-append_left n xs ys (omega arith)
span-append_left n (suc d) [] ys h = absurd (omega arith)
span-append_left n (suc d) (x ∷ xs) ys h = span-append_left n d xs ys (omega arith)
