-- ===== src/TitleSearch/Export/Chunks.antt =====
-- A line that straddles chunks in crates/den-titlesearch/src/export.rs.
use den_atlas.Prelude.{
  ℕ, ◌≡◌, ◌∙◌, sym, ap, refl, List, [], ◌∷◌, ◌++◌, arith, ◌==◌, inl, inr, Bool-cases, if◌then◌else◌,
}
use mathlib.Core.List.{append-nil, append_assoc}
use den_atlas.Prelude.Bytes.{Text, split, add_to_first}
use den_atlas.TitleSearch.Popularity.{Popularity}
use den_atlas.TitleSearch.Export.Heaps.{Heap}
use den_atlas.TitleSearch.Export.{Title, weaker, Scanner, scan_line, end_line, feed_parts, feed}

pub split-cons :
    (d : ℕ) (s : Text) → (rest : Text) × (parts : List Text) × (split d s ≡ rest ∷ parts)
unfolding split add_to_first
split-cons d [] = ([], [], refl)
split-cons d (c ∷ s) = elim (Bool-cases (c == d)) [
  | inl e ↦ ([], split d s, ground arith)
  | inr e ↦ let (rest, parts, h) = split-cons d s in (c ∷ rest, parts, ground arith)
]

module _ (pop : Popularity) (utf8_lossy : Text → Text)
    (heaps : Heap (Title pop utf8_lossy) (weaker pop utf8_lossy)) where
  abbrev AnyScanner : Type 0
  AnyScanner = Scanner pop utf8_lossy heaps

  abbrev fed : AnyScanner → Text → AnyScanner
  fed s bytes = feed pop utf8_lossy heaps s bytes

  abbrev parts_fed : AnyScanner → List Text → AnyScanner
  parts_fed s parts = feed_parts pop utf8_lossy heaps s parts

  abbrev carrying : AnyScanner → ℕ → AnyScanner
  carrying s c = record s { carry = s.carry ++ c ∷ [] }

  -- One byte of input.
  unfoldable pub feed_byte : AnyScanner → ℕ → AnyScanner
  feed_byte s c = if c == 10 then end_line pop utf8_lossy heaps s [] else carrying s c

  unfoldable pub feed_bytes : AnyScanner → Text → AnyScanner
  unfolding feed_byte
  feed_bytes s [] = s
  feed_bytes s (c ∷ bytes) = feed_bytes (feed_byte s c) bytes

  -- With something carried or nothing, a line is what was carried and what ends it.
  end_line-carried :
      (s : AnyScanner) (carry line : Text)
      → end_line pop utf8_lossy heaps (record s { carry = carry }) line
        ≡ scan_line pop utf8_lossy heaps (record s { carry = [] }) (carry ++ line)
  unfolding end_line
  end_line-carried s [] line = refl
  end_line-carried s (c ∷ carry) line = refl

  -- A line that ends is scanned with what was carried before it.
  pub end_line_lem :
      (s : AnyScanner) (line : Text)
      → end_line pop utf8_lossy heaps s line
        ≡ scan_line pop utf8_lossy heaps (record s { carry = [] }) (s.carry ++ line)
  end_line_lem s line = end_line-carried s s.carry line

  end_line-carrying :
      (s : AnyScanner) (c : ℕ) (line : Text)
      → end_line pop utf8_lossy heaps (carrying s c) line
        ≡ end_line pop utf8_lossy heaps s (c ∷ line)
  end_line-carrying s c line =
      end_line_lem (carrying s c) line
      ∙ ap (scan_line pop utf8_lossy heaps (record s { carry = [] }))
          (append_assoc s.carry (c ∷ []) line)
      ∙ sym (end_line_lem s (c ∷ line))

  feed_parts-carrying :
      (s : AnyScanner) (c : ℕ) (rest : Text) (parts : List Text)
      → parts_fed s ((c ∷ rest) ∷ parts) ≡ parts_fed (carrying s c) (rest ∷ parts)
  unfolding feed_parts
  feed_parts-carrying s c rest [] =
      ap (λ x. record s { carry = x }) (sym (append_assoc s.carry (c ∷ []) rest))
  feed_parts-carrying s c rest (next ∷ parts) =
      ap (λ x. parts_fed x (next ∷ parts)) (sym (end_line-carrying s c rest))

  feed_parts-step :
      (s : AnyScanner) (c : ℕ) (bytes rest : Text) (parts : List Text)
      → split 10 bytes ≡ rest ∷ parts
      → fed s (c ∷ bytes) ≡ parts_fed (feed_byte s c) (rest ∷ parts)
  unfolding feed split add_to_first feed_byte
  feed_parts-step s c bytes rest parts h = elim (Bool-cases (c == 10)) [
    | inl e ↦ rw (e, h) (unfold feed_parts in refl)
    | inr e ↦ rw (e, h) (feed_parts-carrying s c rest parts)
  ]

  feed-cons :
      (s : AnyScanner) (c : ℕ) (bytes : Text) → fed s (c ∷ bytes) ≡ fed (feed_byte s c) bytes
  feed-cons s c bytes =
      let (rest, parts, h) = split-cons 10 bytes in
      feed_parts-step s c bytes rest parts h ∙ sym (unfold feed in ap (parts_fed (feed_byte s c)) h)

  feed-nil : (s : AnyScanner) → fed s [] ≡ s
  unfolding feed feed_parts split
  feed-nil s = ap (λ x. record s { carry = x }) (append-nil s.carry)

  -- A chunk is its bytes, one after the other.
  pub feed-feed_bytes : (s : AnyScanner) (bytes : Text) → fed s bytes ≡ feed_bytes s bytes
  unfolding feed_bytes
  feed-feed_bytes s [] = feed-nil s
  feed-feed_bytes s (c ∷ bytes) = feed-cons s c bytes ∙ feed-feed_bytes (feed_byte s c) bytes

  feed_bytes-append :
      (s : AnyScanner) (a b : Text) → feed_bytes s (a ++ b) ≡ feed_bytes (feed_bytes s a) b
  unfolding feed_bytes
  feed_bytes-append s [] b = refl
  feed_bytes-append s (c ∷ a) b = feed_bytes-append (feed_byte s c) a b

  -- How the bytes are cut into chunks makes no difference, also where a line straddles two.
  pub feed-append :
      (s : AnyScanner) (a b : Text)
      → feed pop utf8_lossy heaps s (a ++ b)
        ≡ feed pop utf8_lossy heaps (feed pop utf8_lossy heaps s a) b
  feed-append s a b =
      feed-feed_bytes s (a ++ b)
      ∙ feed_bytes-append s a b
      ∙ ap (λ x. feed_bytes x b) (sym (feed-feed_bytes s a))
      ∙ sym (feed-feed_bytes (fed s a) b)
