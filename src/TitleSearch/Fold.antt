-- ===== src/TitleSearch/Fold.antt =====
-- crates/den-titlesearch/src/fold.rs: text folded for comparison, and its trigrams. A character is its code
-- point. The decomposition of text, which characters are combining marks, and lower case are parameters.
use den_atlas.Prelude.{
  ℕ, ◌+◌, ◌*◌, ◌^◌, ◌<◌, ◌≡◌, Bool, ◌&&◌, ◌||◌, List, [], ◌∷◌, ◌++◌, arith, leb, ◌==◌,
  if◌then◌else◌,
}
use den_atlas.Prelude.Bytes.{Text, codes}

-- `char::is_whitespace`
abbrev is_whitespace : ℕ → Bool
is_whitespace c =
    (leb 9 c && leb c 13)
    || c == 32
    || c == 133
    || c == 160
    || c == 5760
    || (leb 8192 c && leb c 8202)
    || c == 8232
    || c == 8233
    || c == 8239
    || c == 8287
    || c == 12288

unfoldable pub without_spaces : List ℕ → List ℕ
without_spaces [] = []
without_spaces (c ∷ s) = if is_whitespace c then without_spaces s else c ∷ without_spaces s

abbrev pub trigram_key : ℕ → ℕ → ℕ → ℕ
trigram_key a b c = a * 2 ^ 42 + b * 2 ^ 21 + c

unfoldable pub windows : List ℕ → List ℕ
windows (a ∷ b ∷ c ∷ s) = trigram_key a b c ∷ windows (b ∷ c ∷ s)
windows s = []

unfoldable pub trigram_keys : List ℕ → List ℕ
unfolding without_spaces windows
trigram_keys folded = windows (without_spaces folded)

unfoldable pub replace_and : List ℕ → List ℕ
replace_and [] = []
replace_and (c ∷ s) = if c == b'&' then codes " and " ++ replace_and s else c ∷ replace_and s

module _ (nfd : Text → List ℕ) (is_combining_mark : ℕ → Bool) (to_lowercase : List ℕ → List ℕ) where
  unfoldable pub without_marks : List ℕ → List ℕ
  without_marks [] = []
  without_marks (c ∷ s) = if is_combining_mark c then without_marks s else c ∷ without_marks s

  unfoldable pub fold : Text → List ℕ
  unfolding without_marks replace_and
  fold s = replace_and (to_lowercase (without_marks (nfd s)))

-- A trigram's key names its three characters.
pub trigram_key-injective :
    (a b c d e f : ℕ)
    → b < 2 ^ 21
    → c < 2 ^ 21
    → e < 2 ^ 21
    → f < 2 ^ 21
    → trigram_key a b c ≡ trigram_key d e f
    → (a ≡ d) × (b ≡ e) × (c ≡ f)
trigram_key-injective a b c d e f hb hc he hf h = (omega arith, omega arith, omega arith)
