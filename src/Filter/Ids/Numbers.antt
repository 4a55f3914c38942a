-- ===== src/Filter/Ids/Numbers.antt =====
-- Numbers and letters in canonical form: parts of `normalise_id` of src/filter.rs.
use den_atlas.Prelude.{
  ℕ, ◌*◌, ◌/◌, ◌^◌, ◌<◌, ◌≡◌, ◌∙◌, ap, refl, sym, Bool, true, false, [], ◌∷◌, some, arith, inl, inr,
  Option-cases,
}
use den_atlas.Prelude.Bytes.{Text, all_digits}
use den_atlas.Prelude.Decimal.{decimal, parse_unsigned-decimal, all_digits-decimal}
use den_atlas.Prelude.Results.{ok}
use den_atlas.Filter.Values.{parse_u32}
use den_atlas.Filter.Ids.{
  to_lower, lower, to_upper, upper, without_q, digits_qid, qid_of, qid_text, write_number,
  number_text,
}

pub parse_u32-lt : (s : Text) (n : ℕ) → parse_u32 s ≡ some n → n < 2 ^ 32
unfolding parse_u32
parse_u32-lt s n e = ground arith

pub parse_u32-decimal : (n : ℕ) → n < 2 ^ 32 → parse_u32 (decimal n) ≡ some n
unfolding parse_u32
parse_u32-decimal n h = ground (arith, parse_unsigned-decimal n (omega arith))

pub number_of :
    (id : Text) (write : ℕ → Text) (t : Text)
    → number_text id write ≡ ok t
    → (n : ℕ) × (n < 2 ^ 32) × (write n ≡ t)
unfolding number_text write_number
number_of id write t h = elim (Option-cases (parse_u32 id)) [
  | inl e ↦ absurd (ground arith)
  | inr (n, e) ↦ (n, parse_u32-lt id n e, ground arith)
]

pub number_text-decimal :
    (n : ℕ) (write : ℕ → Text) → n < 2 ^ 32 → number_text (decimal n) write ≡ ok (write n)
unfolding number_text write_number
number_text-decimal n write h = ap (λ o. write_number o write) (parse_u32-decimal n h)

pub integer_stable : (id t : Text) → number_text id decimal ≡ ok t → number_text t decimal ≡ ok t
integer_stable id t h =
    let (n, lt, e) = number_of id decimal t h in rw (sym e) (number_text-decimal n decimal lt)

abbrev pub decade_text : ℕ → Text
decade_text n = decimal (n / 10 * 10)

pub decade_again : (n : ℕ) → n / 10 * 10 / 10 * 10 ≡ n / 10 * 10
decade_again n = omega arith

pub decade_stable :
    (id t : Text) → number_text id decade_text ≡ ok t → number_text t decade_text ≡ ok t
decade_stable id t h =
    let (n, lt, e) = number_of id decade_text t h in
    rw (sym e) (
      number_text-decimal (n / 10 * 10) decade_text (omega arith)
      ∙ ap (λ m. ok (decimal m)) (decade_again n))

pub lower-to_lower : (c : ℕ) → to_lower (to_lower c) ≡ to_lower c
lower-to_lower c = ground arith

pub lower-lower : (s : Text) → lower (lower s) ≡ lower s
unfolding lower
lower-lower [] = refl
lower-lower (c ∷ s) = rw (lower-to_lower c, lower-lower s) refl

pub upper-to_upper : (c : ℕ) → to_upper (to_upper c) ≡ to_upper c
upper-to_upper c = ground arith

pub upper-upper : (s : Text) → upper (upper s) ≡ upper s
unfolding upper
upper-upper [] = refl
upper-upper (c ∷ s) = rw (upper-to_upper c, upper-upper s) refl

pub digits_of :
    (digits qid : Text)
    → digits_qid digits ≡ some qid
    → (n : ℕ) × (n < 2 ^ 32) × (b'Q' ∷ decimal n ≡ qid)
unfolding digits_qid qid_text
digits_of digits qid h = elim (Option-cases (parse_u32 digits)) [
  | inl e ↦ absurd (ground arith)
  | inr (n, e) ↦ (
    n,
    parse_u32-lt digits n e,
    written n (all_digits digits) (sym (ap (λ o. qid_text o (all_digits digits)) e) ∙ h),
  )
]
  where
    written : (n : ℕ) (b : Bool) → qid_text (some n) b ≡ some qid → b'Q' ∷ decimal n ≡ qid
    written n true e = ground arith
    written n false e = absurd (ground arith)

pub digits_qid-decimal : (n : ℕ) → n < 2 ^ 32 → digits_qid (decimal n) ≡ some (b'Q' ∷ decimal n)
unfolding digits_qid qid_text
digits_qid-decimal n h =
    ap (λ o. qid_text o (all_digits (decimal n))) (parse_u32-decimal n h)
    ∙ ap (qid_text (some n)) (all_digits-decimal n)

pub qid_stable : (id qid : Text) → qid_of id ≡ some qid → qid_of qid ≡ some qid
unfolding qid_of without_q
qid_stable id qid h =
    let (n, lt, e) = digits_of (without_q id) qid h in rw (sym e) (digits_qid-decimal n lt)
