-- ===== src/Query/Pairs.antt =====
-- A query string read back: src/handler.rs.
use den_atlas.Prelude.{
  ◌≡◌, ◌∙◌, ap, refl, true, List, [], ◌∷◌, ◌++◌, Option, none, some, All, if◌then◌else◌,
}
use den_atlas.Prelude.Bytes.{Text, same_text, split}
use den_atlas.Prelude.Separators.{lacks, lacks-append, split-append, split-lacks, split_once-append}
use den_atlas.Query.{pair_of, find_param, query_param}

-- Keys without `=` and `&`, values without `&`.
abbrev pub IsPlain : Text × Text → Type 0
IsPlain (k, v) = (lacks b'=' k ≡ true) × (lacks b'&' k ≡ true) × (lacks b'&' v ≡ true)

abbrev pub pair : Text × Text → Text
pair (k, v) = k ++ b'=' ∷ v

-- The pairs as a client writes them.
abbrev pub query_of : Text × Text → List (Text × Text) → Text
query_of p [] = pair p
query_of p (q ∷ ps) = pair p ++ b'&' ∷ query_of q ps

-- The value of a key's first pair.
abbrev pub first_value : Text → List (Text × Text) → Option Text
first_value key [] = none
first_value key ((k, v) ∷ ps) = if same_text k key then some v else first_value key ps

abbrev written : List (Text × Text) → List Text
written [] = []
written (p ∷ ps) = pair p ∷ written ps

pair-lacks : (p : Text × Text) → IsPlain p → lacks b'&' (pair p) ≡ true
unfolding lacks
pair-lacks (k, v) (eq, key, value) = lacks-append b'&' k (b'=' ∷ v) key value

split-query_of :
    (p : Text × Text) (ps : List (Text × Text))
    → IsPlain p
    → All IsPlain ps
    → split b'&' (query_of p ps) ≡ written (p ∷ ps)
split-query_of p [] h hs = split-lacks b'&' (pair p) (pair-lacks p h)
split-query_of p (q ∷ ps) h hs =
    split-append b'&' (pair p) (query_of q ps) (pair-lacks p h)
    ∙ ap (λ x. pair p ∷ x) (split-query_of q ps hs.0 hs.1)

pair_of-pair : (k v : Text) → lacks b'=' k ≡ true → pair_of (pair (k, v)) ≡ (k, v)
unfolding pair_of
pair_of-pair k v h = rw (pair_of, split_once-append b'=' k v h) refl

find_param-written :
    (key : Text) (ps : List (Text × Text))
    → All IsPlain ps
    → find_param key (written ps) ≡ first_value key ps
unfolding find_param
find_param-written key [] h = refl
find_param-written key ((k, v) ∷ ps) h =
    rw (pair_of-pair k v h.0.0, find_param-written key ps h.1) refl

-- A key of a query that a client wrote reads as the value of its first pair, or as nothing without one.
-- Keys hold no separator, values no `&`.
pub query_param-query_of :
    (key : Text) (p : Text × Text) (ps : List (Text × Text))
    → IsPlain p
    → All IsPlain ps
    → query_param (query_of p ps) key ≡ first_value key (p ∷ ps)
unfolding query_param
query_param-query_of key p ps h hs =
    rw (split-query_of p ps h hs) (find_param-written key (p ∷ ps) (h, hs))
