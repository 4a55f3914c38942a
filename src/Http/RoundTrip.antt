-- ===== src/Http/RoundTrip.antt =====
-- A Range header that a client writes is read back by src/http.rs.
use den_atlas.Prelude.{
  ℕ, ◌-◌, ◌^◌, ◌<◌, ◌≡◌, refl, ◌∙◌, ap, true, false, [], ◌∷◌, ◌++◌, some, arith, ◌==◌, min, leb,
  ltb, if◌then◌else◌, ◌||◌,
}
use den_atlas.Prelude.Decimal.{
  decimal, is_empty, all_digits-decimal, is_empty-decimal, parse_unsigned-decimal, split-digits,
  split-digits_last, no_space, no_space-append, no_space-digits, trim-no_space,
}
use den_atlas.Prelude.Bytes.{Text, trim, split, strip_prefix, parse_unsigned, all_digits}
use den_atlas.Http.{
  range, unsatisfiable, from_start, range_of, range_of_parts, parse_range, bytes_unit,
  number_or_max,
}

-- `bytes=` and the given text.
abbrev pub bytes_header : Text → Text
bytes_header s = bytes_unit ++ s

strip_prefix-append : (p s : Text) → strip_prefix p (p ++ s) ≡ some s
unfolding strip_prefix
strip_prefix-append [] s = refl
strip_prefix-append (c ∷ p) s = ground (arith, strip_prefix-append p s)

unit-no_space : no_space bytes_unit ≡ true
unfolding no_space
unit-no_space = refl

parse_range-stripped :
    (header rest : Text) (size : ℕ)
    → strip_prefix bytes_unit (trim header) ≡ some rest
    → 0 < size
    → parse_range header size ≡ range_of_parts (split b'-' rest) size
unfolding parse_range
parse_range-stripped header rest size h pos = ground arith

parse_range-header :
    (s : Text) (size : ℕ)
    → no_space s ≡ true
    → 0 < size
    → parse_range (bytes_header s) size ≡ range_of_parts (split b'-' s) size
parse_range-header s size h pos =
    parse_range-stripped (bytes_header s) s size
      (ap (strip_prefix bytes_unit)
          (trim-no_space (bytes_header s) (no_space-append bytes_unit s unit-no_space h))
        ∙ strip_prefix-append bytes_unit s)
      pos

range_of_pair :
    (s a b : Text) (size : ℕ)
    → split b'-' s ≡ a ∷ b ∷ []
    → range_of_parts (split b'-' s) size ≡ range_of a b size
unfolding range_of_parts
range_of_pair s a b size h = rw h refl

parse_range-parts :
    (a b : Text) (size : ℕ)
    → all_digits a ≡ true
    → all_digits b ≡ true
    → 0 < size
    → parse_range (bytes_header (a ++ b'-' ∷ b)) size ≡ range_of a b size
unfolding no_space
parse_range-parts a b size ha hb pos =
    parse_range-header (a ++ b'-' ∷ b) size
      (no_space-append a (b'-' ∷ b) (no_space-digits a ha) (no_space-digits b hb)) pos
    ∙ range_of_pair (a ++ b'-' ∷ b) a b size (
        split-digits b'-' a b (omega arith) ha
        ∙ ap (λ x. a ∷ x) (split-digits_last b'-' b (omega arith) hb))

-- From byte `a` to byte `b`, as a client asks for them.
abbrev pub between : ℕ → ℕ → Text
between a b = decimal a ++ b'-' ∷ decimal b

number_or_max-decimal : (n : ℕ) → n < 2 ^ 64 → number_or_max (decimal n) ≡ n
number_or_max-decimal n h = rw (number_or_max, parse_unsigned-decimal n h) refl

range_of-start :
    (s b : Text) (a size : ℕ)
    → all_digits s ≡ true
    → all_digits b ≡ true
    → is_empty s ≡ false
    → parse_unsigned s ≡ some a
    → range_of s b size ≡ from_start a b size
unfolding range_of
range_of-start s b a size hs hb e p = ground arith

range_of-suffix :
    (b : Text) (n size : ℕ)
    → all_digits b ≡ true
    → is_empty b ≡ false
    → number_or_max b ≡ n
    → range_of [] b size ≡ (if n == 0 then unsatisfiable else range (size - n) (size - 1))
unfolding range_of all_digits
range_of-suffix b n size hb e p = ground arith

from_start-end :
    (a : ℕ) (b : Text) (n size : ℕ)
    → is_empty b ≡ false
    → number_or_max b ≡ n
    → 0 < size
    → from_start a b size
      ≡ (if leb size a || ltb n a then unsatisfiable else range a (min n (size - 1)))
unfolding from_start
from_start-end a b n size e p pos = ground arith

from_start-open :
    (a size : ℕ)
    → 0 < size
    → from_start a [] size ≡ (if leb size a then unsatisfiable else range a (size - 1))
unfolding from_start
from_start-open a size pos = ground arith

-- What `bytes=a-b` selects: from `a` to `b`, or to the end if `b` lies behind it; nothing can be
-- selected from behind the end or backwards. Both numbers fit a word and there is something to serve.
pub parse_range-between :
    (a b size : ℕ)
    → a < 2 ^ 64
    → b < 2 ^ 64
    → 0 < size
    → parse_range (bytes_header (decimal a ++ b'-' ∷ decimal b)) size
      ≡ (if leb size a || ltb b a then unsatisfiable else range a (min b (size - 1)))
parse_range-between a b size ha hb pos =
    parse_range-parts (decimal a) (decimal b) size (all_digits-decimal a) (all_digits-decimal b) pos
    ∙ range_of-start (decimal a) (decimal b) a size (all_digits-decimal a) (all_digits-decimal b)
        (is_empty-decimal a) (parse_unsigned-decimal a ha)
    ∙ from_start-end a (decimal b) b size (is_empty-decimal b) (number_or_max-decimal b hb) pos

-- What `bytes=a-` selects: all from byte `a` on. The number fits a word and there is something to
-- serve.
pub parse_range-from :
    (a size : ℕ)
    → a < 2 ^ 64
    → 0 < size
    → parse_range (bytes_header (decimal a ++ b'-' ∷ [])) size
      ≡ (if leb size a then unsatisfiable else range a (size - 1))
unfolding all_digits
parse_range-from a size ha pos =
    parse_range-parts (decimal a) [] size (all_digits-decimal a) refl pos
    ∙ range_of-start (decimal a) [] a size (all_digits-decimal a) refl (is_empty-decimal a)
        (parse_unsigned-decimal a ha)
    ∙ from_start-open a size pos

-- What `bytes=-n` selects: the last `n` bytes, or all if there are fewer. The number fits a word and
-- there is something to serve.
pub parse_range-suffix :
    (n size : ℕ)
    → n < 2 ^ 64
    → 0 < size
    → parse_range (bytes_header (b'-' ∷ decimal n)) size
      ≡ (if n == 0 then unsatisfiable else range (size - n) (size - 1))
unfolding all_digits
parse_range-suffix n size hn pos =
    parse_range-parts [] (decimal n) size refl (all_digits-decimal n) pos
    ∙ range_of-suffix (decimal n) n size (all_digits-decimal n) (is_empty-decimal n)
        (number_or_max-decimal n hn)
