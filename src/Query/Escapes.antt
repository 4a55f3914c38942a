-- ===== src/Query/Escapes.antt =====
-- Escapes in a URL, decoded by src/handler.rs.
use den_atlas.Prelude.{
  ℕ, ◌+◌, ◌-◌, ◌*◌, ◌/◌, ◌%◌, ◌<◌, ◌≡◌, ◌∙◌, ap, refl, Bool, true, false, [], ◌∷◌, ◌++◌, some,
  arith, All, ltb, ◌==◌, inl, inr, Bool-cases, if◌then◌else◌,
}
use den_atlas.Prelude.Bytes.{Text}
use den_atlas.Prelude.Separators.{lacks}
use den_atlas.Query.{hex_digit, escaped, decoded_bytes, percent_decode}

-- A digit from 0 to 15, in capitals.
abbrev pub digit_of : ℕ → ℕ
digit_of n = if ltb n 10 then b'0' + n else b'A' + (n - 10)

-- The text with the bytes that `keep` does not name escaped.
unfoldable pub percent_encode : (ℕ → Bool) → Text → Text
percent_encode keep [] = []
percent_encode keep (c ∷ s) =
    let rest = percent_encode keep s in
    if keep c then c ∷ rest else b'%' ∷ digit_of (c / 16) ∷ digit_of (c % 16) ∷ rest

hex_digit-digit_of : (n : ℕ) → n < 16 → hex_digit (digit_of n) ≡ some n
unfolding hex_digit
hex_digit-digit_of n h = ground arith

escaped-digits :
    (c d m n : ℕ) → hex_digit c ≡ some m → hex_digit d ≡ some n → escaped c d ≡ some (m * 16 + n)
unfolding escaped
escaped-digits c d m n hc hd = ground arith

escaped-digit_of : (n : ℕ) → n < 256 → escaped (digit_of (n / 16)) (digit_of (n % 16)) ≡ some n
escaped-digit_of n h =
    escaped-digits (digit_of (n / 16)) (digit_of (n % 16)) (n / 16) (n % 16)
      (hex_digit-digit_of (n / 16) (omega arith)) (hex_digit-digit_of (n % 16) (omega arith))
    ∙ ap some (omega arith)

not_escaped : (keep : ℕ → Bool) (c : ℕ) → keep b'%' ≡ false → keep c ≡ true → (c == b'%') ≡ false
not_escaped keep c h k = ground arith

pub decoded_bytes-kept :
    (c : ℕ) (s : Text) → (c == b'%') ≡ false → decoded_bytes (c ∷ s) ≡ c ∷ decoded_bytes s
unfolding decoded_bytes
decoded_bytes-kept c [] h = refl
decoded_bytes-kept c (d ∷ []) h = refl
decoded_bytes-kept c (d ∷ e ∷ s) h = rw h refl

decoded_bytes-escaped :
    (n : ℕ) (s : Text)
    → n < 256
    → decoded_bytes (b'%' ∷ digit_of (n / 16) ∷ digit_of (n % 16) ∷ s) ≡ n ∷ decoded_bytes s
unfolding decoded_bytes
decoded_bytes-escaped n s h = rw (escaped-digit_of n h) refl

-- The bytes of an escaped text are those of the text.
pub decoded_bytes-percent_encode :
    (keep : ℕ → Bool) (s : Text)
    → keep b'%' ≡ false
    → All (λ c. c < 256) s
    → decoded_bytes (percent_encode keep s) ≡ s
unfolding percent_encode
decoded_bytes-percent_encode keep [] h small = unfold decoded_bytes in refl
decoded_bytes-percent_encode keep (c ∷ s) h small = elim (Bool-cases (keep c)) [
  | inl e ↦ rw e (
      decoded_bytes-kept c (percent_encode keep s) (not_escaped keep c h e)
      ∙ ap (λ x. c ∷ x) (decoded_bytes-percent_encode keep s h small.1))
  | inr e ↦ rw e (
      decoded_bytes-escaped c (percent_encode keep s) small.0
      ∙ ap (λ x. c ∷ x) (decoded_bytes-percent_encode keep s h small.1))
]

-- An escaped text is decoded to itself, whichever bytes are escaped, if the percent sign is. The text is
-- UTF-8, so that its bytes read as themselves.
pub percent_decode-percent_encode :
    (utf8_lossy : Text → Text) (keep : ℕ → Bool) (s : Text)
    → keep b'%' ≡ false
    → All (λ c. c < 256) s
    → utf8_lossy s ≡ s
    → percent_decode utf8_lossy (percent_encode keep s) ≡ s
unfolding percent_decode
percent_decode-percent_encode utf8_lossy keep s h small text =
    ap utf8_lossy (decoded_bytes-percent_encode keep s h small) ∙ text

-- Escapes end where the escaped text ends.
pub decoded_bytes-append :
    (keep : ℕ → Bool) (s t : Text)
    → keep b'%' ≡ false
    → All (λ c. c < 256) s
    → decoded_bytes (percent_encode keep s ++ t) ≡ s ++ decoded_bytes t
unfolding percent_encode
decoded_bytes-append keep [] t h small = refl
decoded_bytes-append keep (c ∷ s) t h small = elim (Bool-cases (keep c)) [
  | inl e ↦ rw e (
      decoded_bytes-kept c (percent_encode keep s ++ t) (not_escaped keep c h e)
      ∙ ap (λ x. c ∷ x) (decoded_bytes-append keep s t h small.1))
  | inr e ↦ rw e (
      decoded_bytes-escaped c (percent_encode keep s ++ t) small.0
      ∙ ap (λ x. c ∷ x) (decoded_bytes-append keep s t h small.1))
]

-- A text without a percent sign is left as it is.
decoded_bytes-lacks : (s : Text) → lacks b'%' s ≡ true → decoded_bytes s ≡ s
unfolding lacks
decoded_bytes-lacks [] h = unfold decoded_bytes in refl
decoded_bytes-lacks (c ∷ s) h =
    decoded_bytes-kept c s (ground arith) ∙ ap (λ x. c ∷ x) (decoded_bytes-lacks s (ground arith))
