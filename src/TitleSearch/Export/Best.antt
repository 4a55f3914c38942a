-- ===== src/TitleSearch/Export/Best.antt =====
-- What the heap of crates/den-titlesearch/src/export.rs keeps.
use den_atlas.Prelude.{
  ℕ, ◌≤◌, ◌<◌, ◌≡◌, sym, subst, refl, Bool, true, List, [], ◌∷◌, ◌++◌, Option, none, some, arith,
  min, length, length-append,
}
use mathlib.Core.List.{Perm, perm_middle}
use mathlib.Core.List.Perm
use den_atlas.Prelude.Bytes.{Text}
use den_atlas.Prelude.Perms.{all, all-Perm, all-imp, length-Perm}
use den_atlas.TitleSearch.{MediaType}
use den_atlas.TitleSearch.Popularity.{Popularity}
use den_atlas.TitleSearch.Export.{Title, line_popularity, read_record}

module _ (pop : Popularity) (utf8_lossy : Text → Text) where
  open pop use {Value, at_most, le, at_most_total, le_trans, le-at_most}

  abbrev pub AnyTitle : Type 0
  AnyTitle = Title pop utf8_lossy

  -- No more popular, as numbers.
  abbrev pub no_more : AnyTitle → AnyTitle → Bool
  no_more a b = le a.popularity b.popularity

  -- The title that a line spells, whatever is kept already.
  unfoldable pub spelled : MediaType → Text → Option AnyTitle
  spelled media line = elim (line_popularity pop utf8_lossy line) [
    | none ↦ none
    | some popularity ↦ read_record pop utf8_lossy media line popularity
  ]

  abbrev pub with_title : Option AnyTitle → List AnyTitle → List AnyTitle
  with_title none offered = offered
  with_title (some r) offered = r ∷ offered

  -- Of all that was offered the most popular are kept, as many as there is room for.
  pub record Best (capacity : ℕ) (kept offered : List AnyTitle) : Type 0 where
    pub dropped : List AnyTitle
    pub parts : Perm (kept ++ dropped) offered
    pub weakest : all (λ d. all (no_more d) kept) dropped ≡ true
    pub count : length kept ≡ min capacity (length offered)

  pub read_record-popularity :
      (media : MediaType) (line : Text) (p : Value) (r : AnyTitle)
      → read_record pop utf8_lossy media line p ≡ some r
      → r.popularity ≡ p
  unfolding read_record
  read_record-popularity media line p r e = ground arith

  pub Best-drop :
      (capacity : ℕ) (kept offered : List AnyTitle) (r : AnyTitle)
      → all (no_more r) kept ≡ true
      → capacity ≤ length kept
      → Best capacity kept offered
      → Best capacity kept (r ∷ offered)
  Best-drop capacity kept offered r weak full b = record {
    dropped = r ∷ b.dropped;
    parts = Perm.trans (perm_middle kept b.dropped) (Perm.cons r b.parts);
    weakest = ground (arith, weak, b.weakest);
    count = omega (arith, b.count);
  }

  -- What is no more than all of a list with its least in it is no more than what replaces the least.
  no_more-replaced :
      (kept rest kept' : List AnyTitle) (w r d : AnyTitle)
      → Perm (w ∷ rest) kept
      → Perm kept' (r ∷ rest)
      → no_more w r ≡ true
      → all (no_more d) kept ≡ true
      → all (no_more d) kept' ≡ true
  no_more-replaced kept rest kept' w r d old new stronger h = ground (
    arith,
    all-Perm (no_more d) (w ∷ rest) kept old,
    all-Perm (no_more d) kept' (r ∷ rest) new,
    le_trans d.popularity w.popularity r.popularity,
  )

  -- The least kept gives way to one that is no weaker.
  pub Best-replace :
      (capacity : ℕ) (kept rest kept' offered : List AnyTitle) (w r : AnyTitle)
      → Perm (w ∷ rest) kept
      → Perm kept' (r ∷ rest)
      → no_more w r ≡ true
      → all (no_more w) kept ≡ true
      → capacity ≤ length kept
      → Best capacity kept offered
      → Best capacity kept' (r ∷ offered)
  Best-replace capacity kept rest kept' offered w r old new stronger least full b = record {
    dropped = w ∷ b.dropped;
    parts = Perm.trans (Perm.append_right (w ∷ b.dropped) new) (
        Perm.cons r (
          Perm.trans (perm_middle rest b.dropped)
            (Perm.trans (Perm.append_right b.dropped old) b.parts)));
    weakest = ground (
      arith,
      no_more-replaced kept rest kept' w r w old new stronger least,
      all-imp (λ (d : AnyTitle). all (no_more d) kept) (λ (d : AnyTitle). all (no_more d) kept')
          b.dropped (λ (d : AnyTitle). no_more-replaced kept rest kept' w r d old new stronger)
          b.weakest,
    );
    count =
        omega (arith, b.count, length-Perm kept' (r ∷ rest) new, length-Perm (w ∷ rest) kept old);
  }

  nothing_dropped :
      (kept dropped offered : List AnyTitle)
      → Perm (kept ++ dropped) offered
      → length kept ≡ length offered
      → dropped ≡ []
  nothing_dropped kept [] offered p e = refl
  nothing_dropped kept (d ∷ dropped) offered p e =
      absurd (
        omega
          (arith, length-Perm (kept ++ d ∷ dropped) offered p, length-append kept (d ∷ dropped)))

  -- With room left nothing was dropped yet.
  pub Best-add :
      (capacity : ℕ) (kept kept' offered : List AnyTitle) (r : AnyTitle)
      → Perm kept' (r ∷ kept)
      → length kept < capacity
      → Best capacity kept offered
      → Best capacity kept' (r ∷ offered)
  Best-add capacity kept kept' offered r new room b = record {
    dropped = b.dropped;
    parts = Perm.trans (Perm.append_right b.dropped new) (Perm.cons r b.parts);
    weakest =
        subst (λ ds. all (λ d. all (no_more d) kept') ds ≡ true)
          (sym (nothing_dropped kept b.dropped offered b.parts (omega (arith, b.count)))) refl;
    count = omega (arith, b.count, length-Perm kept' (r ∷ kept) new);
  }
