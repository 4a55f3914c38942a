-- ===== src/Config/Repeats.antt =====
-- Repeated codes in the path of src/config.rs.
use den_atlas.Prelude.{
  ◌≡◌, ◌⊎◌, ap, subst, true, Bool, List, [], ◌∷◌, ◌++◌, none, some, arith, inl, inr, Option-cases,
  ◌||◌,
}
use den_atlas.Prelude.Bytes.{Text, same_text_refl}
use den_atlas.Prelude.Decimal.{is_empty}
use den_atlas.Config.{Provider, selected, provider_by_code, add_code, add_codes}
use den_atlas.Config.Selection.{selected-append}

-- Nothing to add for this code: it is empty, unknown, or its provider is selected.
unfoldable settled : List Provider → List Provider → Text → Bool
settled table ps code =
    is_empty code
    || elim (provider_by_code table code) [ none ↦ true | some p ↦ selected p.code ps ]

add_code-settled :
    (table ps : List Provider) (code : Text)
    → settled table ps code ≡ true
    → add_code table ps code ≡ ps
unfolding add_code settled
add_code-settled table ps code h = ground arith

selected-add_code :
    (table ps : List Provider) (c code : Text)
    → selected c ps ≡ true
    → selected c (add_code table ps code) ≡ true
unfolding add_code
selected-add_code table ps c code h = elim (Option-cases (provider_by_code table code)) [
  | inl p ↦ ground arith
  | inr (q, p) ↦ ground (arith, selected-append c ps q)
]

settled-add_code :
    (table ps : List Provider) (c code : Text)
    → settled table ps c ≡ true
    → settled table (add_code table ps code) c ≡ true
unfolding settled
settled-add_code table ps c code h = elim (Option-cases (provider_by_code table c)) [
  | inl p ↦ ground arith
  | inr (q, p) ↦ ground (arith, selected-add_code table ps q.code code)
]

settled-add_code_self :
    (table ps : List Provider) (code : Text) → settled table (add_code table ps code) code ≡ true
unfolding settled add_code
settled-add_code_self table ps code = elim (Option-cases (provider_by_code table code)) [
  | inl p ↦ ground arith
  | inr (q, p) ↦ ground (arith, selected-append q.code ps q, same_text_refl q.code)
]

add_codes-settled :
    (table ps : List Provider) (before after : List Text) (code : Text)
    → settled table ps code ≡ true
    → add_codes table ps (before ++ code ∷ after) ≡ add_codes table ps (before ++ after)
unfolding add_codes
add_codes-settled table ps [] after code h =
    ap (λ x. add_codes table x after) (add_code-settled table ps code h)
add_codes-settled table ps (b ∷ before) after code h =
    add_codes-settled table (add_code table ps b) before after code
      (settled-add_code table ps code b h)

-- The code is among those given.
unfoldable pub Given : Text → List Text → Type 0
Given code [] = ⊥
Given code (c ∷ cs) = (c ≡ code) ⊎ Given code cs

-- A code that was given before changes nothing, wherever it is repeated.
pub add_codes_again :
    (table ps : List Provider) (before after : List Text) (code : Text)
    → Given code before
    → add_codes table ps (before ++ code ∷ after) ≡ add_codes table ps (before ++ after)
unfolding add_codes Given
add_codes_again table ps [] after code g = elim g [ ]
add_codes_again table ps (c ∷ before) after code (inl e) =
    add_codes-settled table (add_code table ps c) before after code (
      subst (λ x. settled table (add_code table ps c) x ≡ true) e
        (settled-add_code_self table ps c))
add_codes_again table ps (c ∷ before) after code (inr g) =
    add_codes_again table (add_code table ps c) before after code g
