-- ===== src/Index/Regions/Tables.antt =====
-- What the tables of crates/den-index/src/regions.rs keep to.
use den_atlas.Prelude.{
  ℕ, zero, suc, ◌≡◌, refl, ap, Bool, true, false, not, ◌&&◌, ◌||◌, List, [], ◌∷◌, ◌++◌, some, arith,
  get_elem?,
}
use den_atlas.Prelude.Bytes.{Text, same_text, same_text-eq, same_text_refl}
use den_atlas.Prelude.Perms.{all}
use den_atlas.Index.Regions.{Region, regions, find_region, region, continents}

abbrev pub listed : Text → List Text → Bool
listed c [] = false
listed c (x ∷ xs) = same_text x c || listed c xs

all-listed :
    (f : Text → Bool) (xs : List Text) (c : Text)
    → all f xs ≡ true
    → listed c xs ≡ true
    → f c ≡ true
all-listed f [] c h l = ground arith
all-listed f (x ∷ xs) c h l = ground (arith, same_text-eq x c, all-listed f xs c)

-- No country of the one is listed in the other.
abbrev apart : Region → Region → Bool
apart r s = all (λ c. not (listed c s.countries)) r.countries

abbrev all_apart : List Region → Bool
all_apart [] = true
all_apart (r ∷ rs) = all (apart r) rs && all_apart rs

all-get_elem? :
    (f : Region → Bool) (rs : List Region) (i : ℕ) (r : Region)
    → all f rs ≡ true
    → get_elem? rs i ≡ some r
    → f r ≡ true
all-get_elem? f [] i r h e = absurd (ground arith)
all-get_elem? f (s ∷ rs) zero r h e = ground arith
all-get_elem? f (s ∷ rs) (suc i) r h e = all-get_elem? f rs i r (ground arith) e

apart-listed :
    (r s : Region) (c : Text)
    → apart r s ≡ true
    → listed c r.countries ≡ true
    → listed c s.countries ≡ false
apart-listed r s c h l =
    ground (arith, all-listed (λ x. not (listed x s.countries)) r.countries c h l)

all_apart-listed :
    (rs : List Region) (c : Text) (i j : ℕ) (r s : Region)
    → all_apart rs ≡ true
    → get_elem? rs i ≡ some r
    → get_elem? rs j ≡ some s
    → listed c r.countries ≡ true
    → listed c s.countries ≡ true
    → i ≡ j
all_apart-listed [] c i j r s h a b l m = absurd (ground arith)
all_apart-listed (x ∷ rs) c zero zero r s h a b l m = refl
all_apart-listed (x ∷ rs) c zero (suc j) r s h a b l m =
    absurd (ground (arith, apart-listed x s c (all-get_elem? (apart x) rs j s (ground arith) b)))
all_apart-listed (x ∷ rs) c (suc i) zero r s h a b l m =
    absurd (ground (arith, apart-listed x r c (all-get_elem? (apart x) rs i r (ground arith) a)))
all_apart-listed (x ∷ rs) c (suc i) (suc j) r s h a b l m =
    ap suc (all_apart-listed rs c i j r s (ground arith) a b l m)

continents-apart : all_apart continents ≡ true
unfolding same_text continents
continents-apart = refl

-- No country is on two continents.
pub continents-listed :
    (c : Text) (i j : ℕ) (r s : Region)
    → get_elem? continents i ≡ some r
    → get_elem? continents j ≡ some s
    → listed c r.countries ≡ true
    → listed c s.countries ≡ true
    → i ≡ j
continents-listed c i j r s = all_apart-listed continents c i j r s continents-apart

-- The first region of the table with each slug is the one itself.
abbrev none_before : List Region → Bool
none_before [] = true
none_before (r ∷ rs) = all (λ s. not (same_text r.slug s.slug)) rs && none_before rs

find_region-slug :
    (rs : List Region) (i : ℕ) (r : Region)
    → none_before rs ≡ true
    → get_elem? rs i ≡ some r
    → find_region r.slug rs ≡ some r
unfolding find_region
find_region-slug [] i r h e = absurd (ground arith)
find_region-slug (s ∷ rs) zero r h e = ground (arith, same_text_refl r.slug)
find_region-slug (s ∷ rs) (suc i) r h e = ground (
  arith,
  all-get_elem? (λ x. not (same_text s.slug x.slug)) rs i r (ground arith) e,
  find_region-slug rs i r,
)

regions-none_before : none_before regions ≡ true
unfolding same_text regions
regions-none_before = refl

-- Every region of the table is found by its slug.
pub region-slug : (i : ℕ) (r : Region) → get_elem? regions i ≡ some r → region r.slug ≡ some r
unfolding region
region-slug i r = find_region-slug regions i r regions-none_before

-- The countries of all of them.
abbrev pub all_countries : List Region → List Text
all_countries [] = []
all_countries (r ∷ rs) = r.countries ++ all_countries rs

abbrev on_continent : Region → Bool
on_continent r = all (λ c. listed c (all_countries continents)) r.countries

regions-on_continent : all on_continent regions ≡ true
unfolding same_text regions continents
regions-on_continent = refl

-- Every country of a region is on a continent.
pub regions-listed :
    (i : ℕ) (r : Region) (c : Text)
    → get_elem? regions i ≡ some r
    → listed c r.countries ≡ true
    → listed c (all_countries continents) ≡ true
regions-listed i r c e =
    all-listed (λ x. listed x (all_countries continents)) r.countries c
      (all-get_elem? on_continent regions i r regions-on_continent e)
