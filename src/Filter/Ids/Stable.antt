-- ===== src/Filter/Ids/Stable.antt =====
-- A canonical id reads as itself: `normalise_id` of src/filter.rs.
use den_atlas.Prelude.{
  ℕ, ◌^◌, ◌<◌, ◌≡◌, ◌≢◌, ◌∙◌, ap, refl, subst, ◌⊎◌, true, false, ◌&&◌, ◌||◌, [], ◌∷◌, ◌++◌, Option,
  none, some, arith, leb, ◌==◌, inl, inr, Option-cases, Bool-cases,
}
use den_atlas.Prelude.Bytes.{Text, codes, same_text, split_once, all_digits}
use den_atlas.Prelude.Decimal.{decimal, all_digits-decimal}
use den_atlas.Prelude.Separators.{lacks, split_once-append}
use den_atlas.Prelude.Results.{Result, ok, err}
use den_atlas.Index.{MediaType, movie, tv}
use den_atlas.Filter.Spec.{IdFormat, Scope}
use den_atlas.Filter.Values.{parse_u32}
use den_atlas.Filter.Ids.{
  Naming, RequestError, to_lower, lower, to_upper, upper, is_alphabetic, without_q, digits_qid,
  qid_of, media_of, typed_title, qid_text, qid_or, typed_number, typed_parts, country_text,
  typed_text, title_text, normalise_id,
}
use den_atlas.Filter.Ids.Numbers.{
  parse_u32-lt, parse_u32-decimal, integer_stable, decade_stable, lower-lower, upper-to_upper,
  upper-upper, qid_stable,
}

-- Two letters are no item.
no_qid : (o : Option ℕ) → qid_text o false ≡ none
unfolding qid_text
no_qid none = refl
no_qid (some n) = refl

letter_digits : (c : ℕ) (s : Text) → is_alphabetic c ≡ true → digits_qid (c ∷ s) ≡ none
unfolding digits_qid all_digits
letter_digits c s h =
    ap (qid_text (parse_u32 (c ∷ s))) {y = false} (ground arith) ∙ no_qid (parse_u32 (c ∷ s))

letters_qid :
    (c d : ℕ) → is_alphabetic c ≡ true → is_alphabetic d ≡ true → qid_of (c ∷ d ∷ []) ≡ none
unfolding qid_of without_q
letters_qid c d h k = elim (Bool-cases (c == b'Q' || c == b'q')) [
  | inl e ↦ rw e (letter_digits d [] k)
  | inr e ↦ rw e (letter_digits c (d ∷ []) h)
]

upper_letter : (c : ℕ) → is_alphabetic c ≡ true → is_alphabetic (to_upper c) ≡ true
upper_letter c h = ground arith

code_again :
    (a b : ℕ)
    → is_alphabetic a ≡ true
    → is_alphabetic b ≡ true
    → country_text (to_upper a ∷ to_upper b ∷ []) ≡ ok (to_upper a ∷ to_upper b ∷ [])
unfolding country_text upper
code_again a b h k =
    rw (upper_letter a h, upper_letter b k, upper-to_upper a, upper-to_upper b) refl

code_stable :
    (a b : ℕ)
    → is_alphabetic a ≡ true
    → is_alphabetic b ≡ true
    → qid_or (country_text (to_upper a ∷ to_upper b ∷ [])) (qid_of (to_upper a ∷ to_upper b ∷ []))
      ≡ ok (to_upper a ∷ to_upper b ∷ [])
unfolding qid_or
code_stable a b h k =
    ap (qid_or (country_text (to_upper a ∷ to_upper b ∷ [])))
      (letters_qid (to_upper a) (to_upper b) (upper_letter a h) (upper_letter b k))
    ∙ code_again a b h k

-- A code is written in capitals, which are two letters again.
country_stable : (id t : Text) → country_text id ≡ ok t → qid_or (country_text t) (qid_of t) ≡ ok t
unfolding country_text upper
country_stable [] t h = absurd (ground arith)
country_stable (a ∷ []) t h = absurd (ground arith)
country_stable (a ∷ b ∷ []) t h = elim (Bool-cases (is_alphabetic a && is_alphabetic b)) [
  | inl e ↦
      subst (λ u. qid_or (country_text u) (qid_of u) ≡ ok u) {x = to_upper a ∷ to_upper b ∷ []}
        (ground arith) (code_stable a b (ground arith) (ground arith))
  | inr e ↦ absurd (ground arith)
]
country_stable (a ∷ b ∷ c ∷ s) t h = absurd (ground arith)

lower-digits : (s : Text) → all_digits s ≡ true → lower s ≡ s
unfolding lower all_digits
lower-digits [] h = refl
lower-digits (c ∷ s) h =
    rw (lower-digits s (ground arith)) (ap (λ d. d ∷ s) (small c (ground arith)))
  where
    small : (c : ℕ) → leb b'0' c && leb c b'9' ≡ true → to_lower c ≡ c
    small c h = ground arith

typed_title-lt : (id : Text) (t : MediaType) (n : ℕ) → typed_title id ≡ some (t, n) → n < 2 ^ 32
unfolding typed_title typed_parts typed_number
typed_title-lt id t n h = elim (Option-cases (split_once b'-' id)) [
  | inl e ↦ absurd (ground arith)
  | inr ((media, digits), e) ↦ elim (Option-cases (media_of media)) [
    | inl f ↦ absurd (ground arith)
    | inr (m, f) ↦ elim (Option-cases (parse_u32 digits)) [
      | inl g ↦ absurd (ground arith)
      | inr (k, g) ↦ parse_u32-lt digits n (ground arith)
    ]
  ]
]

movie_again :
    (n : ℕ) → n < 2 ^ 32 → typed_title (lower (codes "movie-" ++ decimal n)) ≡ some (movie, n)
unfolding typed_title typed_parts typed_number lower media_of same_text lacks
movie_again n h =
    ap (λ s. typed_parts (split_once b'-' (codes "movie-" ++ s)))
      (lower-digits (decimal n) (all_digits-decimal n))
    ∙ ap typed_parts (split_once-append b'-' (codes "movie") (decimal n) refl)
    ∙ ap (typed_number (some movie)) (parse_u32-decimal n h)

series_again :
    (n : ℕ) → n < 2 ^ 32 → typed_title (lower (codes "series-" ++ decimal n)) ≡ some (tv, n)
unfolding typed_title typed_parts typed_number lower media_of same_text lacks
series_again n h =
    ap (λ s. typed_parts (split_once b'-' (codes "series-" ++ s)))
      (lower-digits (decimal n) (all_digits-decimal n))
    ∙ ap typed_parts (split_once-append b'-' (codes "series") (decimal n) refl)
    ∙ ap (typed_number (some tv)) (parse_u32-decimal n h)

typed_stable :
    (id t : Text) → typed_text (typed_title id) ≡ ok t → typed_text (typed_title (lower t)) ≡ ok t
unfolding typed_text
typed_stable id t h = elim (Option-cases (typed_title id)) [
  | inl e ↦ absurd (ground arith)
  | inr ((movie, n), e) ↦
      again (codes "movie-" ++ decimal n) (ground arith)
        (ap typed_text (movie_again n (typed_title-lt id movie n e)))
  | inr ((tv, n), e) ↦
      again (codes "series-" ++ decimal n) (ground arith)
        (ap typed_text (series_again n (typed_title-lt id tv n e)))
]
  where
    again :
        (u : Text)
        → u ≡ t
        → typed_text (typed_title (lower u)) ≡ ok u
        → typed_text (typed_title (lower t)) ≡ ok t
    again u e k = subst (λ v. typed_text (typed_title (lower v)) ≡ ok v) e k

title_stable :
    (scope : Scope) (id t : Text) → title_text scope id ≡ ok t → title_text scope t ≡ ok t
unfolding title_text
title_stable (Scope.of_type m) id t h = integer_stable id t h
title_stable Scope.all_types id t h = typed_stable (lower id) t h

qid_or_ok :
    (other : Result RequestError Text) (id t : Text)
    → qid_or other (qid_of id) ≡ ok t
    → (qid_of t ≡ some t) ⊎ (other ≡ ok t)
unfolding qid_or
qid_or_ok other id t h = elim (Option-cases (qid_of id)) [
  | inl e ↦ inr (ground arith)
  | inr (q, e) ↦ inl (subst (λ u. qid_of u ≡ some u) (ground arith) (qid_stable id q e))
]

-- An id in canonical form is read as itself, whatever the kind's format, but for a character's name, whose reading is
-- a parameter.
pub normalise_id_stable :
    (names : Naming) (format : IdFormat) (scope : Scope) (id canonical : Text)
    → format ≢ IdFormat.character
    → normalise_id names format scope id ≡ ok canonical
    → normalise_id names format scope canonical ≡ ok canonical
unfolding normalise_id
normalise_id_stable names IdFormat.integer scope id t ne h = integer_stable id t h
normalise_id_stable names IdFormat.decade scope id t ne h = decade_stable id t h
normalise_id_stable names IdFormat.lower scope id t ne h =
    subst (λ u. ◌≡◌ {A = Result RequestError Text} (ok (lower u)) (ok u)) {x = lower id}
      (ground arith) (ap ok (lower-lower id))
normalise_id_stable names IdFormat.upper scope id t ne h =
    subst (λ u. ◌≡◌ {A = Result RequestError Text} (ok (upper u)) (ok u)) {x = upper id}
      (ground arith) (ap ok (upper-upper id))
normalise_id_stable names IdFormat.label scope id t ne h = refl
normalise_id_stable names IdFormat.qid scope id t ne h =
    elim (qid_or_ok (err RequestError.not_a_qid) id t h) [
      | inl e ↦ ap (qid_or (err RequestError.not_a_qid)) e
      | inr e ↦ absurd (ground arith)
    ]
normalise_id_stable names IdFormat.country scope id t ne h =
    elim (qid_or_ok (country_text id) id t h) [
      | inl e ↦ ap (qid_or (country_text t)) e
      | inr e ↦ country_stable id t e
    ]
normalise_id_stable names IdFormat.character scope id t ne h = absurd (ne refl)
normalise_id_stable names IdFormat.title scope id t ne h = title_stable scope id t h
