-- ===== src/TitleSearch/Json/Strings.antt =====
-- A JSON string that was written is read back by crates/den-titlesearch/src/export.rs.
use den_atlas.Prelude.{
  ℕ, zero, ◌≡◌, ◌∙◌, ap, refl, true, false, ◌||◌, [], ◌∷◌, ◌++◌, some, arith, ◌==◌, inl, inr,
  Bool-cases, if◌then◌else◌,
}
use den_atlas.Prelude.Bytes.{Text}
use den_atlas.TitleSearch.Json.{escape, before, json_bytes}

-- A text with its quotes and backslashes escaped.
unfoldable pub quote : Text → Text
quote [] = []
quote (c ∷ s) = let rest = quote s in if c == 34 || c == 92 then 92 ∷ c ∷ rest else c ∷ rest

json_bytes-plain :
    (c : ℕ) (s : Text)
    → (c == 34 || c == 92) ≡ false
    → json_bytes zero (c ∷ s) ≡ before (c ∷ []) (json_bytes zero s)
unfolding json_bytes
json_bytes-plain c s h = ground arith

escape-special :
    (c : ℕ) (s : Text) → (c == 34 || c == 92) ≡ true → escape (c ∷ s) ≡ some (c ∷ [], 1)
unfolding escape
escape-special c s h = ground arith

json_bytes-escape :
    (s bytes : Text) (n : ℕ)
    → escape s ≡ some (bytes, n)
    → json_bytes zero (92 ∷ s) ≡ before bytes (json_bytes n s)
unfolding json_bytes
json_bytes-escape s bytes n e = ground arith

json_bytes-special :
    (c : ℕ) (s : Text)
    → (c == 34 || c == 92) ≡ true
    → json_bytes zero (92 ∷ c ∷ s) ≡ before (c ∷ []) (json_bytes zero s)
unfolding json_bytes
json_bytes-special c s h = json_bytes-escape (c ∷ s) (c ∷ []) 1 (escape-special c s h)

-- A string that was written with its quotes and backslashes escaped is read back, whatever follows it.
pub json_bytes-quote : (t rest : Text) → json_bytes zero (quote t ++ 34 ∷ rest) ≡ some t
unfolding quote
json_bytes-quote [] rest = unfold json_bytes in refl
json_bytes-quote (c ∷ t) rest = elim (Bool-cases (c == 34 || c == 92)) [
  | inl e ↦ rw e (
      json_bytes-special c (quote t ++ 34 ∷ rest) e
      ∙ ap (before (c ∷ [])) (json_bytes-quote t rest))
  | inr e ↦
      rw e (
        json_bytes-plain c (quote t ++ 34 ∷ rest) e
        ∙ ap (before (c ∷ [])) (json_bytes-quote t rest))
]
