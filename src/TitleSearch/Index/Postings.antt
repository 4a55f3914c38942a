-- ===== src/TitleSearch/Index/Postings.antt =====
-- The titles that crates/den-titlesearch/src/index.rs finds for a trigram, against a scan of all titles.
use den_atlas.Prelude.{
  ℕ, zero, suc, ◌+◌, ◌<◌, ◌≡◌, ◌∙◌, refl, sym, ap, subst, Bool, true, false, ◌&&◌, ◌||◌, not, List,
  [], ◌∷◌, ◌++◌, map, Option, none, some, arith, leb, ◌==◌, inl, inr, Bool-cases, get_elem?,
}
use den_atlas.Prelude.Perms.{all, all-Perm, all-append, sort, sort-Perm, sort-in_order}
use den_atlas.Prelude.Bytes.{Text}
use den_atlas.TitleSearch.Popularity.{Popularity}
use den_atlas.TitleSearch.Fold.{trigram_keys}
use den_atlas.TitleSearch.Export.{Title, ranks_before}
use den_atlas.TitleSearch.Index.{
  pair_before, dedup_keys_after, dedup_keys, title_keys, pairs_from, postings_of, index_sorted,
  build_index,
}
use den_atlas.TitleSearch.Index.Groups.{add_all, add_pairs-laid, postings_of-laid}
use den_atlas.TitleSearch.Index.Matches.{matching, find_group-add_all, first_up_nil}

abbrev pub member : ℕ → List ℕ → Bool
member x [] = false
member x (y ∷ ys) = y == x || member x ys

member-all : (x : ℕ) (l : List ℕ) → member x l ≡ not (all (λ y. not (y == x)) l)
member-all x [] = refl
member-all x (y ∷ ys) = ground (arith, member-all x ys)

member-sort : (x : ℕ) (l : List ℕ) → member x (sort leb l) ≡ member x l
member-sort x l =
    member-all x (sort leb l)
    ∙ ap not (all-Perm (λ y. not (y == x)) (sort leb l) l (sort-Perm leb l))
    ∙ sym (member-all x l)

member-dedup_keys_after :
    (x k : ℕ) (l : List ℕ) → member x (k ∷ dedup_keys_after k l) ≡ member x (k ∷ l)
unfolding dedup_keys_after
member-dedup_keys_after x k [] = refl
member-dedup_keys_after x k (y ∷ ys) =
    ground (arith, member-dedup_keys_after x k ys, member-dedup_keys_after x y ys)

member-dedup_keys : (x : ℕ) (l : List ℕ) → member x (dedup_keys l) ≡ member x l
unfolding dedup_keys
member-dedup_keys x [] = refl
member-dedup_keys x (k ∷ l) = member-dedup_keys_after x k l

-- Whether the position is paired with the key.
abbrev posts : ℕ → ℕ → List (ℕ × ℕ) → Bool
posts key i ps = not (all (λ p. not (p.0 == key && p.1 == i)) ps)

member-matching : (key i : ℕ) (ps : List (ℕ × ℕ)) → member i (matching key ps) ≡ posts key i ps
member-matching key i [] = refl
member-matching key i (p ∷ ps) = elim (Bool-cases (p.0 == key)) [
  | inl e ↦ rw e (ground (arith, member-matching key i ps))
  | inr e ↦ rw e (member-matching key i ps)
]

posts-append :
    (key i : ℕ) (ps qs : List (ℕ × ℕ)) → posts key i (ps ++ qs) ≡ (posts key i ps || posts key i qs)
posts-append key i ps qs = ground (arith, all-append (λ p. not (p.0 == key && p.1 == i)) ps qs)

posts-map :
    (key i position : ℕ) (ks : List ℕ)
    → posts key i (map (λ k. (k, position)) ks) ≡ (position == i && member key ks)
posts-map key i position [] = ground arith
posts-map key i position (k ∷ ks) = ground (arith, posts-map key i position ks)

before_total : (a b : ℕ × ℕ) → pair_before a b ≡ false → pair_before b a ≡ true
before_total a b h = ground arith

before_trans :
    (a b c : ℕ × ℕ) → pair_before a b ≡ true → pair_before b c ≡ true → pair_before a c ≡ true
before_trans a b c h g = ground arith

module _ (pop : Popularity) (utf8_lossy fold : Text → List ℕ) where
  abbrev AnyTitle : Type 0
  AnyTitle = Title pop utf8_lossy

  -- The title at a place has the trigram, after folding.
  abbrev pub has_trigram : ℕ → Option AnyTitle → Bool
  has_trigram key none = false
  has_trigram key (some r) = member key (trigram_keys (fold r.title))

  member-title_keys :
      (key : ℕ) (r : AnyTitle)
      → member key (title_keys pop utf8_lossy fold r) ≡ has_trigram key (some r)
  unfolding title_keys
  member-title_keys key r =
      member-dedup_keys key (sort leb (trigram_keys (fold r.title)))
      ∙ member-sort key (trigram_keys (fold r.title))

  abbrev pairs : ℕ → List AnyTitle → List (ℕ × ℕ)
  pairs from records = pairs_from pop utf8_lossy fold from records

  posts_past :
      (key from i : ℕ) (records : List AnyTitle)
      → i < from
      → posts key i (pairs from records) ≡ false
  unfolding pairs_from
  posts_past key from i [] h = refl
  posts_past key from i (r ∷ records) h =
      let ks = title_keys pop utf8_lossy fold r in
      ground (
        arith,
        posts-append key i (map (λ k. (k, from)) ks) (pairs (suc from) records),
        posts-map key i from ks,
        posts_past key (suc from) i records,
      )

  posts-pairs :
      (key from i : ℕ) (records : List AnyTitle)
      → posts key (from + i) (pairs from records) ≡ has_trigram key (get_elem? records i)
  unfolding pairs_from
  posts-pairs key from i [] = refl
  posts-pairs key from zero (r ∷ records) =
      let ks = title_keys pop utf8_lossy fold r in
      posts-append key (from + 0) (map (λ k. (k, from)) ks) (pairs (suc from) records)
      ∙ ground (
        arith,
        posts-map key (from + 0) from ks,
        posts_past key (suc from) (from + 0) records,
        member-title_keys key r,
      )
  posts-pairs key from (suc i) (r ∷ records) =
      let ks = title_keys pop utf8_lossy fold r in
      let shift : suc from + i ≡ from + suc i = omega arith in
      let later =
        subst (λ n. posts key n (pairs (suc from) records) ≡ has_trigram key (get_elem? records i))
          shift (posts-pairs key (suc from) i records) in
      posts-append key (from + suc i) (map (λ k. (k, from)) ks) (pairs (suc from) records)
      ∙ ground (arith, posts-map key (from + suc i) from ks, later)

  postings_of-index_sorted :
      (records : List AnyTitle) (key : ℕ)
      → postings_of (index_sorted pop utf8_lossy fold records).runs key
        ≡ matching key (sort pair_before (pairs 0 records))
  unfolding index_sorted
  postings_of-index_sorted records key =
      let ps = sort pair_before (pairs 0 records) in
      ap (λ r. postings_of r key) (add_pairs-laid ps)
      ∙ postings_of-laid (add_all ps []) key
      ∙ find_group-add_all ps [] key
          (sort-in_order pair_before before_total before_trans (pairs 0 records)) refl
          (first_up_nil ps)

  -- For each trigram the index has exactly the titles, by their places in the order of popularity, whose
  -- folded text has the trigram.
  pub member-postings_of :
      (records : List AnyTitle) (key i : ℕ)
      → member i (postings_of (build_index pop utf8_lossy fold records).runs key)
        ≡ has_trigram key (get_elem? (sort (ranks_before pop utf8_lossy) records) i)
  unfolding build_index
  member-postings_of records key i =
      let sorted = sort (ranks_before pop utf8_lossy) records in
      let test = λ (p : ℕ × ℕ). not (p.0 == key && p.1 == i) in
      let start : 0 + i ≡ i = omega arith in
      ap (member i) (postings_of-index_sorted sorted key)
      ∙ member-matching key i (sort pair_before (pairs 0 sorted))
      ∙ ap not (
          all-Perm test (sort pair_before (pairs 0 sorted)) (pairs 0 sorted)
            (sort-Perm pair_before (pairs 0 sorted)))
      ∙ subst (λ n. posts key n (pairs 0 sorted) ≡ has_trigram key (get_elem? sorted i)) start
          (posts-pairs key 0 i sorted)
