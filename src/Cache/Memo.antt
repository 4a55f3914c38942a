-- ===== src/Cache/Memo.antt =====
-- src/cache.rs, `EmbedMemo`: the vectors of query texts, the least recently used of them evicted
-- first and none served past its time. Its file is not modelled.
pub mod Laws
use den_atlas.Prelude.{
  ℕ, zero, suc, ◌+◌, ◌-◌, ◌≤◌, ◌<◌, ◌≡◌, ◌≢◌, ◌⊎◌, refl, inl, inr, Bool, true, false, not, ◌&&◌,
  List, [], ◌∷◌, ◌++◌, Option, none, some, arith, ltb, leb, if◌then◌else◌, length, Option-cases,
  Bool-cases, ite, subst, max_word,
}
use den_atlas.Prelude.Bytes.{Text, text_dec}
use den_atlas.Prelude.Map.{
  lookup, insert, remove, contains_key, Distinct, min_by_key, min_by_key-le, lookup-min_by_key,
  min_by_key-none, lookup-insert, lookup-remove_ne, lookup-remove_self, remove-Distinct,
  insert-Distinct, length-insert, length-remove,
}

-- A vector's components are bytes.
pub record Remembered : Type 0 where
  pub vector : List ℕ
  pub stored : ℕ
  pub used : ℕ

abbrev pub Memory : Type 0
Memory = List (Text × Remembered)

pub record EmbedMemo : Type 0 where
  pub ttl : ℕ
  pub max_entries : ℕ
  pub map : Memory

unfoldable pub new : ℕ → ℕ → EmbedMemo
new ttl max_entries = record { ttl = ttl; max_entries = max_entries; map = [] }

-- `key`: the space, a zero byte, the text.
unfoldable pub key : Text → Text → Text
key space text = space ++ 0 ∷ text

abbrev last_used : Remembered → ℕ
last_used r = r.used

unfoldable pub evict_one : Memory → Memory
evict_one m = elim (min_by_key last_used m) [
  | none ↦ m
  | some (coldest, _) ↦ remove text_dec coldest m
]

-- The memo after a look, and what it found.
unfoldable pub get : EmbedMemo → Text → ℕ → EmbedMemo × Option (List ℕ)
get c k now = elim (lookup text_dec k c.map) [
  | none ↦ (c, none)
  | some r ↦
      if leb c.ttl (now - r.stored)
      then (record c { map = remove text_dec k c.map }, none)
      else (record c { map = insert text_dec k (record r { used = now }) c.map }, some r.vector)
]

unfoldable pub put : EmbedMemo → Text → List ℕ → ℕ → EmbedMemo
unfolding evict_one
put c k vector now =
    let room =
      if leb c.max_entries (length c.map) && not (contains_key text_dec k c.map)
      then evict_one c.map
      else c.map in
    record c { map = insert text_dec k (record { vector = vector; stored = now; used = now }) room }

-- A memo within its limit that knows no key twice.
pub record IsValid (c : EmbedMemo) : Type 0 where
  pub some_room : 0 < c.max_entries
  pub bounded : length c.map ≤ c.max_entries
  pub no_repeats : Distinct text_dec c.map
