-- ===== src/TitleSearch/Popularity.antt =====
-- A popularity: a floating-point number as `str::parse` reads one from the characters of a number, so
-- never NaN. `total_cmp` orders all of them; `<=` says no less, and more of the two zeros only.
use den_atlas.Prelude.{◌≡◌, Bool, true, false, Option}
use den_atlas.Prelude.Bytes.{Text}

pub record Popularity : Type 1 where
  pub Value : Type 0
  pub parse_f64 : Text → Option Value
  pub at_most : Value → Value → Bool
  pub le : Value → Value → Bool
  pub at_most_total : (a b : Value) → at_most a b ≡ false → at_most b a ≡ true
  pub at_most_trans : (a b c : Value) → at_most a b ≡ true → at_most b c ≡ true → at_most a c ≡ true
  pub le_trans : (a b c : Value) → le a b ≡ true → le b c ≡ true → le a c ≡ true
  pub le-at_most : (a b : Value) → at_most a b ≡ true → le a b ≡ true
