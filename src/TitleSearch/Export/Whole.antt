-- ===== src/TitleSearch/Export/Whole.antt =====
-- Whole exports through the scanner of crates/den-titlesearch/src/export.rs.
use den_atlas.Prelude.{
  ℕ, ◌≡◌, ◌∙◌, sym, ap, subst, refl, true, List, [], ◌∷◌, ◌++◌, none, arith, inl, inr, Option-cases,
}
use mathlib.Core.List.Perm
use den_atlas.Prelude.Bytes.{Text, split}
use den_atlas.Prelude.Perms.{in_order, sort-in_order}
use den_atlas.TitleSearch.{MediaType, movie, tv}
use den_atlas.TitleSearch.Popularity.{Popularity}
use den_atlas.TitleSearch.Json.{find_after}
use den_atlas.TitleSearch.Export.Heaps.{Heap}
use den_atlas.TitleSearch.Export.{
  Title, weaker, Scanner, new_scanner, scan_line, keep, end_line, feed_parts, feed, flush_line,
  start, finish, line_popularity, read_record, ranks_before,
}
use den_atlas.TitleSearch.Export.Chunks.{end_line_lem, split-cons}
use den_atlas.TitleSearch.Export.Ranking.{ranks_total, ranks_trans, Best-sort}
use den_atlas.TitleSearch.Export.Best.{spelled, with_title, Best}
use den_atlas.TitleSearch.Export.Keeping.{scan_line-Best, scan_line-nothing}

module _ (pop : Popularity) (utf8_lossy : Text → Text) where
  open pop use {at_most, le, at_most_total, at_most_trans}

  abbrev AnyTitle : Type 0
  AnyTitle = Title pop utf8_lossy

  -- The titles of an export's lines, on top of those before.
  unfoldable pub titles : MediaType → List Text → List AnyTitle → List AnyTitle
  titles media [] offered = offered
  titles media (line ∷ lines) offered =
      titles media lines (with_title pop utf8_lossy (spelled pop utf8_lossy media line) offered)

  spelled_empty : (media : MediaType) → spelled pop utf8_lossy media [] ≡ none
  unfolding spelled line_popularity find_after
  spelled_empty media = refl

  module _ (heaps : Heap (Title pop utf8_lossy) (weaker pop utf8_lossy)) where
    open heaps use {items, items-new}

    abbrev AnyScanner : Type 0
    AnyScanner = Scanner pop utf8_lossy heaps

    abbrev scanned : AnyScanner → Text → AnyScanner
    scanned s line = scan_line pop utf8_lossy heaps s line

    -- Between two lines: nothing is carried, and what is kept is the best of what was offered.
    record Ready (media : MediaType) (capacity : ℕ) (offered : List AnyTitle) (s : AnyScanner)
        : Type 0 where
      reads : s.media_type ≡ media
      room : s.capacity ≡ capacity
      bare : s.carry ≡ []
      best : Best pop utf8_lossy s.capacity (items s.heap) offered

    scan_line-frame :
        (s : AnyScanner) (line : Text)
        → ((scanned s line).media_type ≡ s.media_type)
          × ((scanned s line).capacity ≡ s.capacity)
          × ((scanned s line).carry ≡ s.carry)
    unfolding scan_line keep
    scan_line-frame s line = elim (Option-cases (line_popularity pop utf8_lossy line)) [
      | inl e ↦ ground arith
      | inr (p, e) ↦ elim (Option-cases (read_record pop utf8_lossy s.media_type line p)) [
        | inl h ↦ ground arith
        | inr (r, h) ↦ ground arith
      ]
    ]

    Ready-scan_line :
        (media : MediaType) (capacity : ℕ) (offered : List AnyTitle) (s : AnyScanner) (line : Text)
        → Ready media capacity offered s
        → Ready media capacity
            (with_title pop utf8_lossy (spelled pop utf8_lossy media line) offered)
            (scanned s line)
    Ready-scan_line media capacity offered s line h =
        let (same_media, same_room, same_carry) = scan_line-frame s line in
        record {
          reads = same_media ∙ h.reads;
          room = same_room ∙ h.room;
          bare = same_carry ∙ h.bare;
          best =
              subst
                (λ m.
                  Best pop utf8_lossy (scanned s line).capacity (items (scanned s line).heap)
                    (with_title pop utf8_lossy (spelled pop utf8_lossy m line) offered))
                h.reads
                (subst
                  (λ c.
                    Best pop utf8_lossy c (items (scanned s line).heap) (
                      with_title pop utf8_lossy (spelled pop utf8_lossy s.media_type line) offered))
                  (sym same_room) (scan_line-Best pop utf8_lossy heaps s offered line h.best));
        }

    bare_lem : (s : AnyScanner) → s.carry ≡ [] → record s { carry = [] } ≡ s
    bare_lem s h = ap (λ c. record s { carry = c }) (sym h)

    -- Flushing scans what is carried, and scanning nothing changes nothing.
    flush-carrying :
        (s : AnyScanner) (line : Text)
        → flush_line pop utf8_lossy heaps (record s { carry = line })
          ≡ scanned (record s { carry = [] }) line
    unfolding flush_line
    flush-carrying s [] = sym (
        scan_line-nothing pop utf8_lossy heaps (record s { carry = [] }) []
          (spelled_empty s.media_type))
    flush-carrying s (c ∷ line) = refl

    flush-last :
        (s : AnyScanner) (line : Text)
        → s.carry ≡ []
        → flush_line pop utf8_lossy heaps (record s { carry = s.carry ++ line }) ≡ scanned s line
    flush-last s line h =
        ap (λ c. flush_line pop utf8_lossy heaps (record s { carry = c ++ line })) h
        ∙ flush-carrying s line
        ∙ ap (λ x. scanned x line) (bare_lem s h)

    end_line-bare :
        (s : AnyScanner) (line : Text)
        → s.carry ≡ []
        → end_line pop utf8_lossy heaps s line ≡ scanned s line
    end_line-bare s line h =
        end_line_lem pop utf8_lossy heaps s line
        ∙ ap (λ c. scanned (record s { carry = [] }) (c ++ line)) h
        ∙ ap (λ x. scanned x line) (bare_lem s h)

    Ready-feed_parts :
        (media : MediaType) (capacity : ℕ) (offered : List AnyTitle) (s : AnyScanner) (line : Text)
        (parts : List Text)
        → Ready media capacity offered s
        → Ready media capacity
            (titles media (line ∷ parts) offered)
            (flush_line pop utf8_lossy heaps (feed_parts pop utf8_lossy heaps s (line ∷ parts)))
    unfolding titles feed_parts
    Ready-feed_parts media capacity offered s line [] h =
        subst
          (Ready media capacity
            (with_title pop utf8_lossy (spelled pop utf8_lossy media line) offered))
          (sym (flush-last s line h.bare)) (Ready-scan_line media capacity offered s line h)
    Ready-feed_parts media capacity offered s line (next ∷ parts) h =
        Ready-feed_parts media capacity
          (with_title pop utf8_lossy (spelled pop utf8_lossy media line) offered)
          (end_line pop utf8_lossy heaps s line) next parts
          (subst
            (Ready media capacity
              (with_title pop utf8_lossy (spelled pop utf8_lossy media line) offered))
            (sym (end_line-bare s line h.bare)) (Ready-scan_line media capacity offered s line h))

    -- One export, fed and flushed.
    Ready-feed :
        (media : MediaType) (capacity : ℕ) (offered : List AnyTitle) (s : AnyScanner) (bytes : Text)
        → Ready media capacity offered s
        → Ready media capacity
            (titles media (split 10 bytes) offered)
            (flush_line pop utf8_lossy heaps (feed pop utf8_lossy heaps s bytes))
    unfolding feed
    Ready-feed media capacity offered s bytes h =
        let (line, parts, e) = split-cons 10 bytes in
        rw e (Ready-feed_parts media capacity offered s line parts h)

    Ready-new : (capacity : ℕ) → Ready movie capacity [] (new_scanner pop utf8_lossy heaps capacity)
    unfolding new_scanner
    Ready-new capacity = record {
      reads = refl;
      room = refl;
      bare = refl;
      best =
          rw items-new
            (record { dropped = []; parts = Perm.rfl; weakest = refl; count = omega arith });
    }

    abbrev pub movies_fed : ℕ → Text → AnyScanner
    movies_fed capacity movies =
        feed pop utf8_lossy heaps (new_scanner pop utf8_lossy heaps capacity) movies

    abbrev pub both_fed : ℕ → Text → Text → AnyScanner
    both_fed capacity movies shows =
        feed pop utf8_lossy heaps (start pop utf8_lossy heaps (movies_fed capacity movies) tv) shows

    -- The next export, from where the last was flushed.
    Ready-start :
        (media next : MediaType) (capacity : ℕ) (offered : List AnyTitle) (s : AnyScanner)
        → Ready media capacity offered (flush_line pop utf8_lossy heaps s)
        → Ready next capacity offered (start pop utf8_lossy heaps s next)
    unfolding start
    Ready-start media next capacity offered s h = record {
      reads = refl;
      room = h.room;
      bare = h.bare;
      best = h.best;
    }

    Ready-both :
        (capacity : ℕ) (movies shows : Text)
        → Ready tv capacity
            (titles tv (split 10 shows) (titles movie (split 10 movies) []))
            (flush_line pop utf8_lossy heaps (both_fed capacity movies shows))
    Ready-both capacity movies shows =
        Ready-feed tv capacity (titles movie (split 10 movies) [])
          (start pop utf8_lossy heaps (movies_fed capacity movies) tv) shows
          (Ready-start movie tv capacity (titles movie (split 10 movies) [])
            (movies_fed capacity movies)
            (Ready-feed movie capacity [] (new_scanner pop utf8_lossy heaps capacity) movies
              (Ready-new capacity)))

    finish-Ready :
        (media : MediaType) (capacity : ℕ) (offered : List AnyTitle) (s : AnyScanner)
        → Ready media capacity offered (flush_line pop utf8_lossy heaps s)
        → (in_order (ranks_before pop utf8_lossy) (finish pop utf8_lossy heaps s) ≡ true)
          × Best pop utf8_lossy capacity (finish pop utf8_lossy heaps s) offered
    unfolding finish
    finish-Ready media capacity offered s h =
        let kept = items (flush_line pop utf8_lossy heaps s).heap in
        (
          sort-in_order (ranks_before pop utf8_lossy) (ranks_total pop utf8_lossy)
              (ranks_trans pop utf8_lossy) kept,
          Best-sort pop utf8_lossy capacity kept offered
              (subst (λ n. Best pop utf8_lossy n kept offered) h.room h.best),
        )

    -- The two exports, one after the other: what comes out is in order, and of all the titles that the
    -- lines of both spell it is the most popular, as many as there is room for.
    pub finish-Best :
        (capacity : ℕ) (movies shows : Text)
        → (in_order
              (ranks_before pop utf8_lossy)
              (finish pop utf8_lossy heaps (both_fed capacity movies shows))
            ≡ true)
          × Best pop utf8_lossy capacity
              (finish pop utf8_lossy heaps (both_fed capacity movies shows))
              (titles tv (split 10 shows) (titles movie (split 10 movies) []))
    finish-Best capacity movies shows =
        finish-Ready tv capacity (titles tv (split 10 shows) (titles movie (split 10 movies) []))
          (both_fed capacity movies shows) (Ready-both capacity movies shows)
