-- ===== src/TitleSearch/Export/Keeping.antt =====
-- The heap, step by step, of crates/den-titlesearch/src/export.rs keeps.
use den_atlas.Prelude.{
  ◌<◌, ◌≡◌, sym, ap, subst, refl, true, false, ◌&&◌, List, [], ◌∷◌, none, some, arith, ◌==◌, length,
  inl, inr, Bool-cases, Option-cases, if◌then◌else◌,
}
use den_atlas.Prelude.Bytes.{Text}
use den_atlas.Prelude.Perms.{all, all-imp}
use den_atlas.TitleSearch.Popularity.{Popularity}
use den_atlas.TitleSearch.Export.Heaps.{Heap}
use den_atlas.TitleSearch.Export.{
  Title, weaker, Scanner, scan_line, keep, is_full, is_beaten, line_popularity, read_record,
}
use den_atlas.TitleSearch.Export.Best.{
  no_more, spelled, with_title, Best, Best-drop, Best-replace, Best-add, read_record-popularity,
}

module _ (pop : Popularity) (utf8_lossy : Text → Text)
    (heaps : Heap (Title pop utf8_lossy) (weaker pop utf8_lossy)) where
  open pop use {Value, at_most, le, at_most_total, le_trans, le-at_most}

  abbrev AnyTitle : Type 0
  AnyTitle = Title pop utf8_lossy

  open heaps use {
    State, items, size, peek, pop_least, push, size-items, peek_empty, peek_least, items-pop,
    items-push,
  }

  abbrev pub AnyScanner : Type 0
  AnyScanner = Scanner pop utf8_lossy heaps

  all-least :
      (h : State) (w : AnyTitle) → peek h ≡ some w → all (no_more pop utf8_lossy w) (items h) ≡ true
  all-least h w e =
      all-imp (weaker pop utf8_lossy w) (no_more pop utf8_lossy w) (items h)
        (λ (x : AnyTitle). le-at_most w.popularity x.popularity) (peek_least h w e)

  stronger-least : (p : Value) (w : AnyTitle) → le p w.popularity ≡ false → le w.popularity p ≡ true
  stronger-least p w h =
      ground
        (arith, le-at_most p w.popularity, at_most_total p w.popularity, le-at_most w.popularity p)

  -- Not kept, since the least kept is at least as popular.
  Best-beaten :
      (s : AnyScanner) (offered : List AnyTitle) (r : AnyTitle)
      → is_full pop utf8_lossy heaps s ≡ true
      → is_beaten pop utf8_lossy heaps s r.popularity ≡ true
      → Best pop utf8_lossy s.capacity (items s.heap) offered
      → Best pop utf8_lossy s.capacity (items s.heap) (r ∷ offered)
  Best-beaten s offered r full beaten b = elim (Option-cases (peek s.heap)) [
    | inl e ↦ absurd (ground arith)
    | inr (w, e) ↦
        Best-drop pop utf8_lossy s.capacity (items s.heap) offered r
          (all-imp (no_more pop utf8_lossy w) (no_more pop utf8_lossy r) (items s.heap)
            (λ (x : AnyTitle). le_trans r.popularity w.popularity x.popularity (ground arith))
            (all-least s.heap w e))
          (ground (arith, size-items s.heap)) b
  ]

  -- Kept, in place of the least if the heap is full.
  Best-keep :
      (s : AnyScanner) (offered : List AnyTitle) (r : AnyTitle)
      → 0 < s.capacity
      → is_full pop utf8_lossy heaps s && is_beaten pop utf8_lossy heaps s r.popularity ≡ false
      → Best pop utf8_lossy s.capacity (items s.heap) offered
      → Best pop utf8_lossy s.capacity (items (keep pop utf8_lossy heaps s r).heap) (r ∷ offered)
  unfolding keep
  Best-keep s offered r pos better b = elim (Bool-cases (is_full pop utf8_lossy heaps s)) [
    | inl full ↦ elim (Option-cases (peek s.heap)) [
      | inl e ↦ absurd (ground (arith, size-items s.heap, ap length (peek_empty s.heap e)))
      | inr (w, e) ↦ rw full (
          (Best-replace pop utf8_lossy) s.capacity (items s.heap) (items (pop_least s.heap))
            (items (push r (pop_least s.heap))) offered w r (items-pop s.heap w e)
            (items-push r (pop_least s.heap)) (stronger-least r.popularity w (ground arith))
            (all-least s.heap w e) (ground (arith, size-items s.heap)) b)
    ]
    | inr room ↦ rw room (
        (Best-add pop utf8_lossy) s.capacity (items s.heap) (items (push r s.heap)) offered r
          (items-push r s.heap) (ground (arith, size-items s.heap)) b)
  ]

  Best-none :
      (kept offered : List AnyTitle) (r : AnyTitle)
      → Best pop utf8_lossy 0 kept offered
      → Best pop utf8_lossy 0 kept (r ∷ offered)
  Best-none [] offered r b = Best-drop pop utf8_lossy 0 [] offered r refl (omega arith) b
  Best-none (k ∷ kept) offered r b = absurd (omega (arith, b.count))

  Best-offered :
      (s : AnyScanner) (offered : List AnyTitle) (r : AnyTitle)
      → Best pop utf8_lossy s.capacity (items s.heap) offered
      → Best pop utf8_lossy s.capacity
          (items
            (if s.capacity == 0
              then s
              else if is_full pop utf8_lossy heaps s
                  && is_beaten pop utf8_lossy heaps s r.popularity
              then s
              else keep pop utf8_lossy heaps s r).heap)
          (r ∷ offered)
  Best-offered s offered r b = elim (Bool-cases (s.capacity == 0)) [
    | inl e ↦
        let zero_room : s.capacity ≡ 0 = ground arith in
        rw e (
          subst (λ n. (Best pop utf8_lossy) n (items s.heap) (r ∷ offered)) (sym zero_room)
            (Best-none (items s.heap) offered r
              (subst (λ n. (Best pop utf8_lossy) n (items s.heap) offered) zero_room b)))
    | inr e ↦
        elim (Bool-cases
          (is_full pop utf8_lossy heaps s && is_beaten pop utf8_lossy heaps s r.popularity)) [
            | inl h ↦ rw (e, h) (Best-beaten s offered r (ground arith) (ground arith) b)
            | inr h ↦ rw (e, h) (Best-keep s offered r (ground arith) h b)
          ]
  ]

  pub scan_line-nothing :
      (s : AnyScanner) (line : Text)
      → spelled pop utf8_lossy s.media_type line ≡ none
      → scan_line pop utf8_lossy heaps s line ≡ s
  unfolding scan_line spelled
  scan_line-nothing s line e = elim (Option-cases (line_popularity pop utf8_lossy line)) [
    | inl n ↦ ground arith
    | inr (p, h) ↦ ground arith
  ]

  scan_line-spelled :
      (s : AnyScanner) (line : Text) (r : AnyTitle)
      → spelled pop utf8_lossy s.media_type line ≡ some r
      → scan_line pop utf8_lossy heaps s line ≡ (
          if s.capacity == 0
          then s
          else if is_full pop utf8_lossy heaps s && is_beaten pop utf8_lossy heaps s r.popularity
          then s
          else keep pop utf8_lossy heaps s r)
  unfolding scan_line spelled
  scan_line-spelled s line r e = elim (Option-cases (line_popularity pop utf8_lossy line)) [
    | inl n ↦ absurd (ground arith)
    | inr (p, h) ↦
        let read : read_record pop utf8_lossy s.media_type line p ≡ some r = ground arith in
        rw (h, read, (read_record-popularity pop utf8_lossy) s.media_type line p r read) refl
  ]

  -- A line leaves the best of what was offered, its own title included.
  pub scan_line-Best :
      (s : AnyScanner) (offered : List AnyTitle) (line : Text)
      → Best pop utf8_lossy s.capacity (items s.heap) offered
      → Best pop utf8_lossy s.capacity
          (items (scan_line pop utf8_lossy heaps s line).heap)
          ((with_title pop utf8_lossy) ((spelled pop utf8_lossy) s.media_type line) offered)
  scan_line-Best s offered line b =
      elim (Option-cases ((spelled pop utf8_lossy) s.media_type line)) [
        | inl e ↦ rw (e, scan_line-nothing s line e) b
        | inr (r, e) ↦ rw (e, scan_line-spelled s line r e) (Best-offered s offered r b)
      ]
