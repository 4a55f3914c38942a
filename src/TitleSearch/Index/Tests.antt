-- ===== src/TitleSearch/Index/Tests.antt =====
-- Three titles through the index of crates/den-titlesearch/src/index.rs.
use den_atlas.Prelude.{
  ℕ, ◌<◌, ◌^◌, ◌+◌, ◌*◌, ◌≡◌, refl, ◌==◌, Bool, true, List, [], ◌∷◌, Option, none, arith,
}
use den_atlas.Prelude.Bytes.{Text, codes}
use den_atlas.TitleSearch.{MediaType, movie, tv, TitleRecord}
use den_atlas.TitleSearch.Popularity.{Popularity}
use den_atlas.TitleSearch.Fold.{trigram_key, trigram_keys, fold}
use den_atlas.TitleSearch.Export.{Title}
use den_atlas.TitleSearch.Index.{postings_of, build_index}
use den_atlas.TitleSearch.Index.Postings.{member, member-postings_of}

-- All titles as popular as another: the order is by type and id.
abbrev alike : Popularity
alike = record {
  Value = ℕ;
  parse_f64 = λ s. none;
  at_most = λ a b. true;
  le = λ a b. true;
  at_most_total = λ a b h. refl;
  at_most_trans = λ a b c h g. refl;
  le_trans = λ a b c h g. refl;
  le-at_most = λ a b h. refl;
}

abbrev as_is : Text → Text
as_is s = s

abbrev film : ℕ → Text → Title alike as_is
film id name = record { tmdb_id = id; media_type = movie; title = name; popularity = 0 }

abbrev films : List (Title alike as_is)
films = film 7 (codes "a mat") ∷ film 3 (codes "matt") ∷ film 5 (codes "attic") ∷ []

abbrev key : Text → ℕ
key (a ∷ b ∷ c ∷ s) = trigram_key a b c
key s = 0

trigrams_matt : trigram_keys (codes "m at") ≡ key (codes "mat") ∷ []
unfolding trigram_keys
trigrams_matt = refl

fold_and : fold (λ s. s) (λ c. c == 769) (λ s. s) (97 ∷ 769 ∷ codes "&b") ≡ codes "a and b"
unfolding fold
fold_and = refl

postings_mat :
    postings_of (build_index alike as_is as_is films).runs (key (codes "mat")) ≡ 0 ∷ 2 ∷ []
unfolding postings_of build_index den_atlas.Prelude.Perms.sort
    den_atlas.TitleSearch.Export.ranks_before trigram_keys
postings_mat = refl

postings_none : postings_of (build_index alike as_is as_is films).runs (key (codes "xyz")) ≡ []
unfolding postings_of build_index den_atlas.Prelude.Perms.sort
    den_atlas.TitleSearch.Export.ranks_before trigram_keys
postings_none = refl

member-postings_of_example :
    member 1 (postings_of (build_index alike as_is as_is films).runs (key (codes "att"))) ≡ true
unfolding den_atlas.Prelude.Perms.sort den_atlas.TitleSearch.Export.ranks_before trigram_keys
member-postings_of_example = member-postings_of alike as_is as_is films (key (codes "att")) 1
