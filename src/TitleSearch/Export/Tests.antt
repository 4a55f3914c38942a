-- ===== src/TitleSearch/Export/Tests.antt =====
-- A small export through the scanner of crates/den-titlesearch/src/export.rs.
use den_atlas.Prelude.{
  ℕ, ◌≡◌, refl, Bool, true, false, List, [], ◌∷◌, ◌++◌, Option, none, some, arith, leb, length,
}
use mathlib.Core.List.{Perm}
use mathlib.Core.List.Perm
use den_atlas.Prelude.Bytes.{Text, codes, split, parse_unsigned}
use den_atlas.Prelude.Perms.{all, in_order, place, place-Perm, place-in_order}
use den_atlas.TitleSearch.{movie, tv}
use den_atlas.TitleSearch.Popularity.{Popularity}
use den_atlas.TitleSearch.Json.{json_bytes}
use den_atlas.TitleSearch.Json.Strings.{quote, json_bytes-quote}
use den_atlas.TitleSearch.Export.Heaps.{Heap}
use den_atlas.TitleSearch.Export.{Title, weaker, Scanner, new_scanner, feed, finish, ranks_before}
use den_atlas.TitleSearch.Export.Chunks.{feed-append}
use den_atlas.TitleSearch.Export.Best.{Best}
use den_atlas.TitleSearch.Export.Whole.{titles, both_fed, finish-Best}

total : (a b : ℕ) → leb a b ≡ false → leb b a ≡ true
total a b h = ground arith

trans : (a b c : ℕ) → leb a b ≡ true → leb b c ≡ true → leb a c ≡ true
trans a b c h g = ground arith

-- Whole numbers.
abbrev whole_numbers : Popularity
whole_numbers = record {
  Value = ℕ;
  parse_f64 = parse_unsigned;
  at_most = leb;
  le = leb;
  at_most_total = total;
  at_most_trans = trans;
  le_trans = trans;
  le-at_most = λ a b h. h;
}

abbrev as_is : Text → Text
as_is s = s

abbrev AnyTitle : Type 0
AnyTitle = Title whole_numbers as_is

abbrev below : AnyTitle → AnyTitle → Bool
below a b = weaker whole_numbers as_is a b

below_total : (a b : AnyTitle) → below a b ≡ false → below b a ≡ true
below_total a b h = ground arith

below_trans : (a b c : AnyTitle) → below a b ≡ true → below b c ≡ true → below a c ≡ true
below_trans a b c h g = ground arith

-- A heap that is a list in order.
abbrev Ordered : Type 0
Ordered = (l : List AnyTitle) × (in_order below l ≡ true)

abbrev head_of : List AnyTitle → Option AnyTitle
head_of [] = none
head_of (x ∷ xs) = some x

tail-in_order :
    (x : AnyTitle) (xs : List AnyTitle) → in_order below (x ∷ xs) ≡ true → in_order below xs ≡ true
unfolding in_order
tail-in_order x xs h = ground arith

abbrev pop : Ordered → Ordered
pop ([], h) = ([], h)
pop (x ∷ xs, h) = (xs, tail-in_order x xs h)

head-least : (h : Ordered) (a : AnyTitle) → head_of h.0 ≡ some a → all (below a) h.0 ≡ true
unfolding in_order
head-least ([], h) a e = absurd (ground arith)
head-least (x ∷ xs, h) a e = ground (arith, below_total x x)

head-empty : (h : Ordered) → head_of h.0 ≡ none → h.0 ≡ []
head-empty ([], h) e = refl
head-empty (x ∷ xs, h) e = absurd (ground arith)

head-Perm : (h : Ordered) (a : AnyTitle) → head_of h.0 ≡ some a → Perm (a ∷ (pop h).0) h.0
head-Perm ([], h) a e = absurd (ground arith)
head-Perm (x ∷ xs, h) a e = Perm.cons' (cc) Perm.rfl

abbrev ordered : Heap AnyTitle (weaker whole_numbers as_is)
ordered = record {
  State = Ordered;
  new = ([], unfold in_order in refl);
  items = λ h. h.0;
  size = λ h. length h.0;
  peek = λ h. head_of h.0;
  pop_least = pop;
  push = λ a h. (place below a h.0, place-in_order below below_total below_trans a h.0 h.1);
  items-new = refl;
  size-items = λ h. refl;
  peek_empty = head-empty;
  peek_least = head-least;
  items-pop = head-Perm;
  items-push = λ a h. place-Perm below a h.0;
}

abbrev film : Text → Text → Text → Text
film id name popularity =
    codes "{\"adult\":false,\"id\":"
    ++ (id
        ++ (codes ",\"original_title\":\""
            ++ (name ++ (codes "\",\"popularity\": " ++ (popularity ++ codes "}")))))

abbrev films : Text
films =
    film (codes "1") (codes "Low") (codes "1")
    ++ 10 ∷ (film (codes "2") (codes "High") (codes "90") ++ 10 ∷ codes "junk")

abbrev shows : Text
shows = codes "{\"id\":7,\"original_name\":\"Show\",\"popularity\":50}"

finish-Best_example :
    (in_order
        (ranks_before whole_numbers as_is)
        (finish whole_numbers as_is ordered (both_fed whole_numbers as_is ordered 2 films shows))
      ≡ true)
    × Best whole_numbers as_is 2
        (finish whole_numbers as_is ordered (both_fed whole_numbers as_is ordered 2 films shows))
        (titles whole_numbers as_is tv
          (split 10 shows)
          (titles whole_numbers as_is movie (split 10 films) []))
finish-Best_example = finish-Best whole_numbers as_is ordered 2 films shows

abbrev fresh : Scanner whole_numbers as_is ordered
unfolding new_scanner
fresh = new_scanner whole_numbers as_is ordered 2

feed-append_example :
    feed whole_numbers as_is ordered fresh (codes "{\"id\":7,\"popu" ++ codes "larity\":50}")
    ≡ feed whole_numbers as_is ordered
        (feed whole_numbers as_is ordered fresh (codes "{\"id\":7,\"popu"))
        (codes "larity\":50}")
feed-append_example =
    feed-append whole_numbers as_is ordered fresh (codes "{\"id\":7,\"popu") (codes "larity\":50}")

json_bytes-quote_example :
    json_bytes 0 (quote (codes "Am\\lie \"Q\"") ++ 34 ∷ codes ",1}") ≡ some (codes "Am\\lie \"Q\"")
json_bytes-quote_example = json_bytes-quote (codes "Am\\lie \"Q\"") (codes ",1}")
