-- ===== src/Http/Validators.antt =====
-- When a request is answered with "not modified" in src/http.rs.
use den_atlas.Prelude.{
  ℕ, ◌≡◌, ◌∙◌, refl, true, false, Bool, [], ◌∷◌, ◌++◌, Option, some, arith, ◌==◌, ◌&&◌, not, ◌↔◌,
}
use den_atlas.Prelude.Decimal.{no_space, no_space-append, trim-no_space}
use den_atlas.Prelude.Bytes.{
  Text, trim, split, same_text, same_text_refl, same_text_iff, starts_with,
}
use den_atlas.Http.{Headers, quoted, strip_weak, any_matches, if_range_matches, is_not_modified}

unfoldable pub no_comma : Text → Bool
no_comma [] = true
no_comma (c ∷ s) = not (c == b',') && no_comma s

split-no_comma : (s : Text) → no_comma s ≡ true → split b',' s ≡ s ∷ []
unfolding split no_comma
split-no_comma [] h = refl
split-no_comma (c ∷ s) h = ground (arith, split-no_comma s)

no_comma-append : (s t : Text) → no_comma s ≡ true → no_comma t ≡ true → no_comma (s ++ t) ≡ true
unfolding no_comma
no_comma-append [] t h k = k
no_comma-append (c ∷ s) t h k = ground (arith, no_comma-append s t)

quoted-no_comma : (base : Text) → no_comma base ≡ true → no_comma (quoted base) ≡ true
unfolding no_comma
quoted-no_comma base h = no_comma-append base (b'"' ∷ []) h refl

quoted-no_space : (base : Text) → no_space base ≡ true → no_space (quoted base) ≡ true
unfolding no_space
quoted-no_space base h = no_space-append base (b'"' ∷ []) h refl

-- As sent, or marked weak.
abbrev pub weak : Text → Text
weak tag = b'W' ∷ b'/' ∷ tag

strip_weak-quoted : (base : Text) → strip_weak (quoted base) ≡ quoted base
unfolding strip_weak
strip_weak-quoted [] = refl
strip_weak-quoted (c ∷ s) = refl

strip_weak-weak : (base : Text) → strip_weak (weak (quoted base)) ≡ quoted base
unfolding strip_weak
strip_weak-weak base = strip_weak-quoted base

any_matches-one :
    (etag sent : Text) → strip_weak (trim sent) ≡ etag → any_matches etag (sent ∷ []) ≡ true
unfolding any_matches
any_matches-one etag sent e = ground (arith, same_text_refl etag)

same_text-end : (a b : Text) (c : ℕ) → same_text (a ++ c ∷ []) (b ++ c ∷ []) ≡ same_text a b
unfolding same_text
same_text-end [] [] c = ground arith
same_text-end [] (d ∷ []) c = ground arith
same_text-end [] (d ∷ e ∷ b) c = ground arith
same_text-end (d ∷ []) [] c = ground arith
same_text-end (d ∷ e ∷ a) [] c = ground arith
same_text-end (d ∷ a) (e ∷ b) c = ground (arith, same_text-end a b c)

same_text-quoted : (a b : Text) → same_text (quoted a) (quoted b) ≡ same_text a b
unfolding same_text
same_text-quoted a b = same_text-end a b b'"'

any_matches-tag :
    (sent tag base : Text)
    → strip_weak (trim sent) ≡ quoted tag
    → any_matches (quoted base) (sent ∷ []) ≡ same_text tag base
unfolding any_matches same_text
any_matches-tag sent tag base e = rw (e, same_text-quoted tag base) (ground arith)

if_range_matches-trim :
    (h : Headers) (sent tag base : Text) (modified : Option Text)
    → h.if_range ≡ some sent
    → trim sent ≡ quoted tag
    → if_range_matches h (quoted base) modified ≡ same_text tag base
unfolding if_range_matches starts_with
if_range_matches-trim h sent tag base modified asks e = rw (asks, e, same_text-quoted tag base) refl

-- If-Range with an entity tag lets the range through exactly if the tag is that of what is served. The
-- tag sent has no white space in it.
pub if_range_matches-tag :
    (h : Headers) (sent base : Text) (modified : Option Text)
    → no_space sent ≡ true
    → h.if_range ≡ some (quoted sent)
    → (if_range_matches h (quoted base) modified ≡ true) ↔ (sent ≡ base)
if_range_matches-tag h sent base modified clean asks =
    rw
      (if_range_matches-trim h (quoted sent) sent base modified asks
        (trim-no_space (quoted sent) (quoted-no_space sent clean)))
      (same_text_iff sent base)

-- If-Range with a weak tag never lets the range through, unless it is the very text of the date.
if_range_matches-weak :
    (h : Headers) (tag base date : Text)
    → no_space tag ≡ true
    → h.if_range ≡ some (weak (quoted tag))
    → same_text date (weak (quoted tag)) ≡ false
    → if_range_matches h (quoted base) (some date) ≡ false
unfolding if_range_matches starts_with no_space
if_range_matches-weak h tag base date clean asks ne =
    rw (asks, trim-no_space (weak (quoted tag)) (quoted-no_space tag clean)) ne

-- An entity tag as a client sends it back: as it got it, or marked weak.
pub data SentAs (tag : Text) : Text → Type 0 where
  as_is : SentAs tag (quoted tag)
  as_weak : SentAs tag (weak (quoted tag))

SentAs-no_comma : (tag sent : Text) → SentAs tag sent → no_comma tag ≡ true → no_comma sent ≡ true
unfolding no_comma
SentAs-no_comma tag _ as_is h = quoted-no_comma tag h
SentAs-no_comma tag _ as_weak h = quoted-no_comma tag h

SentAs-strip_weak :
    (tag sent : Text) → SentAs tag sent → no_space tag ≡ true → strip_weak (trim sent) ≡ quoted tag
unfolding no_space
SentAs-strip_weak tag _ as_is h =
    rw (trim-no_space (quoted tag) (quoted-no_space tag h)) (strip_weak-quoted tag)
SentAs-strip_weak tag _ as_weak h =
    rw (trim-no_space (weak (quoted tag)) (quoted-no_space tag h)) (strip_weak-weak tag)

module _ (parse_date : Text → Option ℕ) where
  is_not_modified-none_match :
      (h : Headers) (sent etag : Text) (modified : Option Text)
      → no_comma sent ≡ true
      → h.if_none_match ≡ some sent
      → is_not_modified parse_date h etag modified ≡ any_matches etag (sent ∷ [])
  unfolding is_not_modified
  is_not_modified-none_match h sent etag modified plain asks =
      rw (asks, split-no_comma sent plain) refl

  -- With an entity tag in If-None-Match, strong or weak, a request is answered "not modified" exactly if
  -- the tag is that of what is served, whatever dates it has. The tag has no comma and no white space.
  pub is_not_modified-tag :
      (h : Headers) (sent tag base : Text) (modified : Option Text)
      → no_comma tag ≡ true
      → no_space tag ≡ true
      → SentAs tag sent
      → h.if_none_match ≡ some sent
      → (is_not_modified parse_date h (quoted base) modified ≡ true) ↔ (tag ≡ base)
  is_not_modified-tag h sent tag base modified plain clean how asks =
      rw
        (is_not_modified-none_match h sent (quoted base) modified
            (SentAs-no_comma tag sent how plain) asks
          ∙ any_matches-tag sent tag base (SentAs-strip_weak tag sent how clean))
        (same_text_iff tag base)
