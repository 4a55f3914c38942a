-- ===== src/Prelude/Separators.antt =====
-- Text around a separator.
use Prim.Native.Nat.{ℕ, ◌<◌}
use mathlib.Core.Path.{◌≡◌, refl}
use mathlib.Core.Bool.{Bool, true, ◌&&◌, not}
use mathlib.Core.List.{[], ◌∷◌, ◌++◌}
use mathlib.Core.Option.{some}
use native.Mathlib.Omega.{arith}
use den_atlas.Prelude.Tests.{◌==◌}
use den_atlas.Prelude.Bytes.{Text, all_digits, split, split_once}

-- The byte is not in the text.
unfoldable pub lacks : ℕ → Text → Bool
lacks d [] = true
lacks d (c ∷ s) = not (c == d) && lacks d s

pub lacks-append :
    (d : ℕ) (s t : Text) → lacks d s ≡ true → lacks d t ≡ true → lacks d (s ++ t) ≡ true
unfolding lacks
lacks-append d [] t h k = k
lacks-append d (c ∷ s) t h k = ground (arith, lacks-append d s t)

-- Digits hold no byte below them.
pub lacks-digits : (d : ℕ) (s : Text) → all_digits s ≡ true → (d < b'0') → lacks d s ≡ true
unfolding lacks all_digits
lacks-digits d [] h k = refl
lacks-digits d (c ∷ s) h k = ground (arith, lacks-digits d s)

pub lacks-digits_above : (d : ℕ) (s : Text) → all_digits s ≡ true → (b'9' < d) → lacks d s ≡ true
unfolding lacks all_digits
lacks-digits_above d [] h k = refl
lacks-digits_above d (c ∷ s) h k = ground (arith, lacks-digits_above d s)

-- The first separator cuts a text in one way.
pub append_cut :
    (d : ℕ) (a b s t : Text)
    → lacks d a ≡ true
    → lacks d b ≡ true
    → a ++ d ∷ s ≡ b ++ d ∷ t
    → (a ≡ b) × (s ≡ t)
unfolding lacks
append_cut d [] [] s t ha hb e = ground arith
append_cut d [] (y ∷ b) s t ha hb e = absurd (ground arith)
append_cut d (x ∷ a) [] s t ha hb e = absurd (ground arith)
append_cut d (x ∷ a) (y ∷ b) s t ha hb e = ground (arith, append_cut d a b s t)

pub append-left_cancel : (l s t : Text) → l ++ s ≡ l ++ t → s ≡ t
append-left_cancel [] s t e = e
append-left_cancel (c ∷ l) s t e = append-left_cancel l s t (cc)

pub split-lacks : (d : ℕ) (s : Text) → lacks d s ≡ true → split d s ≡ s ∷ []
unfolding split lacks
split-lacks d [] h = refl
split-lacks d (c ∷ s) h = ground (arith, split-lacks d s)

pub split-append : (d : ℕ) (a b : Text) → lacks d a ≡ true → split d (a ++ d ∷ b) ≡ a ∷ split d b
unfolding split lacks
split-append d [] b h = ground arith
split-append d (c ∷ a) b h = ground (arith, split-append d a b)

pub split_once-append :
    (d : ℕ) (a b : Text) → lacks d a ≡ true → split_once d (a ++ d ∷ b) ≡ some (a, b)
unfolding split_once lacks
split_once-append d [] b h = ground arith
split_once-append d (c ∷ a) b h = ground (arith, split_once-append d a b)
