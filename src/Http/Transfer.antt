-- ===== src/Http/Transfer.antt =====
-- A body fetched from src/http.rs in pieces, and what the answer to a bad range may be stored as.
use den_atlas.Prelude.{
  ℕ, zero, suc, ◌+◌, ◌-◌, ◌^◌, ◌≤◌, ◌<◌, ◌≡◌, ◌∙◌, ap, refl, true, false, Bool, List, [], ◌∷◌, ◌++◌,
  Option, none, some, arith, ◌||◌, ◌&&◌, not, leb, ltb, length, take, drop, length-drop,
  take-append-drop, min, if◌then◌else◌, inl, inr, Bool-cases,
}
use den_atlas.Prelude.Decimal.{decimal}
use den_atlas.Prelude.Bytes.{Text, same_text, codes}
use den_atlas.Http.{
  Method, other, Headers, Servable, Response, RangeResult, range, unsatisfiable, no_range, serve,
  build, whole, partial, refuse, serve_range, is_not_modified, not_modified, not_modified_since,
  asked, if_range_matches, parse_range, keep_valid, refusal,
}
use den_atlas.Http.Serving.{serve-fresh, serve-changed, revalidated}
use den_atlas.Http.RoundTrip.{bytes_header, parse_range-between, parse_range-from}

-- A request for a range, without conditions.
abbrev pub asks_range : Text → Headers
asks_range r = record {
  range = some (bytes_header r);
  if_range = none;
  if_none_match = none;
  if_modified_since = none;
}

asked-asks_range :
    (r : Text) (s : Servable)
    → s.accept_ranges ≡ true
    → asked (asks_range r) s ≡ parse_range (bytes_header r) (length s.body)
unfolding asked if_range_matches
asked-asks_range r s e = rw e refl

take-all {ℓ} : {A : Type ℓ} (n : ℕ) (xs : List A) → length xs ≤ n → take n xs ≡ xs
take-all zero [] h = refl
take-all zero (x ∷ xs) h = absurd (omega arith)
take-all (suc n) [] h = refl
take-all (suc n) (x ∷ xs) h = ap (λ t. x ∷ t) (take-all n xs (omega arith))

first_part :
    (n size : ℕ)
    → 0 < n
    → n < size
    → (if leb size 0 || ltb (n - 1) 0 then unsatisfiable else range 0 (min (n - 1) (size - 1)))
      ≡ range 0 (n - 1)
first_part n size pos inside = ground arith

second_part :
    (n size : ℕ)
    → n < size
    → (if leb size n then unsatisfiable else range n (size - 1)) ≡ range n (size - 1)
second_part n size inside = ground arith

take_first : (n : ℕ) (body : Text) → 0 < n → take (n - 1 - 0 + 1) (drop 0 body) ≡ take n body
take_first n body pos = ap (λ k. take k body) (omega arith)

take_rest :
    (n : ℕ) (body : Text)
    → n < length body
    → take (length body - 1 - n + 1) (drop n body) ≡ drop n body
take_rest n body inside =
    take-all (length body - 1 - n + 1) (drop n body) (omega (arith, length-drop n body))

-- A header that is not Cache-Control, or says no-store.
abbrev pub unstored : Text × Text → Bool
unstored (k, v) = not (same_text k (codes "cache-control")) || same_text v (codes "no-store")

unfoldable pub all_unstored : List (Text × Text) → Bool
all_unstored [] = true
all_unstored (h ∷ hs) = unstored h && all_unstored hs

module _ (parse_date : Text → Option ℕ) (valid_value : Text → Bool) where
  abbrev get : Text → Servable → Response
  get r s = serve parse_date valid_value other (asks_range r) s

  get-range :
      (r : Text) (s : Servable) (a b : ℕ)
      → s.accept_ranges ≡ true
      → parse_range (bytes_header r) (length s.body) ≡ range a b
      → (get r s).body ≡ take (b - a + 1) (drop a s.body)
  unfolding serve is_not_modified not_modified_since serve_range partial build
  get-range r s a b e p = rw (asked-asks_range r s e ∙ p) refl

  -- A body fetched in two parts, the first `n` bytes and then the rest, is the body. The representation
  -- has ranges, both parts are not empty, and its length fits a word.
  pub serve-parts :
      (s : Servable) (n : ℕ)
      → s.accept_ranges ≡ true
      → 0 < n
      → n < length s.body
      → length s.body < 2 ^ 64
      → (serve parse_date valid_value other
            (asks_range (decimal 0 ++ b'-' ∷ decimal (n - 1)))
            s).body
          ++ (serve parse_date valid_value other (asks_range (decimal n ++ b'-' ∷ [])) s).body
        ≡ s.body
  serve-parts s n e pos inside small =
      rw
        (
          get-range (decimal 0 ++ b'-' ∷ decimal (n - 1)) s 0 (n - 1) e (
                parse_range-between 0 (n - 1) (length s.body) (omega arith) (omega arith)
                  (omega arith)
                ∙ first_part n (length s.body) pos inside)
              ∙ take_first n s.body pos,
          get-range (decimal n ++ b'-' ∷ []) s n (length s.body - 1) e (
                parse_range-from n (length s.body) (omega arith) (omega arith)
                ∙ second_part n (length s.body) inside)
              ∙ take_rest n s.body inside,
        )
        (take-append-drop n s.body)

  all_unstored-keep_valid :
      (hs : List (Text × Text))
      → all_unstored hs ≡ true
      → all_unstored (keep_valid parse_date valid_value hs) ≡ true
  unfolding all_unstored keep_valid
  all_unstored-keep_valid [] h = refl
  all_unstored-keep_valid ((k, v) ∷ hs) h = ground (arith, all_unstored-keep_valid hs)

  refusal_unstored :
      (s : Servable) (ranges : Bool) (date : Option Text)
      → s.accept_ranges ≡ ranges
      → s.last_modified ≡ date
      → all_unstored (refusal parse_date valid_value s) ≡ true
  unfolding all_unstored same_text
  refusal_unstored s true none a d = rw (a, d) refl
  refusal_unstored s true (some date) a d = rw (a, d) refl
  refusal_unstored s false none a d = rw (a, d) refl
  refusal_unstored s false (some date) a d = rw (a, d) refl

  serve_range_unstored :
      (m : Method) (s : Servable) (r : RangeResult)
      → (serve_range parse_date valid_value m s r).status ≡ 416
      → all_unstored (serve_range parse_date valid_value m s r).headers ≡ true
  unfolding serve_range whole partial refuse build
  serve_range_unstored m s (range a b) e = absurd (ground arith)
  serve_range_unstored m s unsatisfiable e =
      all_unstored-keep_valid (refusal parse_date valid_value s)
        (refusal_unstored s s.accept_ranges s.last_modified refl refl)
  serve_range_unstored m s no_range e = absurd (ground arith)

  -- The answer to a range outside the representation is never stored: it has no Cache-Control but
  -- no-store, whatever the representation's own caching is.
  pub serve_unstored :
      (m : Method) (h : Headers) (s : Servable)
      → (serve parse_date valid_value m h s).status ≡ 416
      → all_unstored (serve parse_date valid_value m h s).headers ≡ true
  unfolding not_modified build
  serve_unstored m h s = elim (Bool-cases (revalidated parse_date valid_value h s)) [
    | inl e ↦ rw (serve-fresh parse_date valid_value m h s e) (λ p. absurd (ground arith))
    | inr e ↦
        rw (serve-changed parse_date valid_value m h s e) (serve_range_unstored m s (asked h s))
  ]
