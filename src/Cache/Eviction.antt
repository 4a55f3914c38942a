-- ===== src/Cache/Eviction.antt =====
-- What the rows of src/cache.rs lose when the cache is full, and what they keep.
use den_atlas.Prelude.{
  ℕ, zero, suc, min, ◌+◌, ◌≤◌, ◌<◌, ◌≡◌, ◌≢◌, ◌⊎◌, inl, inr, true, false, not, ◌&&◌, [], ◌∷◌,
  Option, none, some, arith, ltb, leb, length, Option-cases, Bool-cases, tests, subst, ite,
}
use den_atlas.Prelude.Bytes.{Text, text_dec}
use den_atlas.Prelude.Map.{
  lookup, contains_key, Distinct, min_by_key, min_by_key-le, lookup-min_by_key, min_by_key-none,
  lookup-insert, lookup-remove_ne, lookup-remove_self, remove-Distinct, insert-Distinct,
  length-insert, length-remove,
}
use den_atlas.Cache.{
  Entry, Rows, evict_one, evict_down, put_row, kept_rows, persisted, default_max_entries,
  ReadResult,
}

abbrev pub NoRepeats : Rows → Type 0
NoRepeats = Distinct text_dec

abbrev stored_at : Entry → ℕ
stored_at e = e.stored

-- One eviction takes one row away, the oldest, and no other.
pub record Evicts (m m' : Rows) : Type 0 where
  pub victim : Text
  pub entry : Entry
  pub was_there : lookup text_dec victim m ≡ some entry
  pub gone : lookup text_dec victim m' ≡ none
  pub others : (q : Text) → victim ≢ q → lookup text_dec q m' ≡ lookup text_dec q m
  pub oldest : (q : Text) (e : Entry) → lookup text_dec q m ≡ some e → entry.stored ≤ e.stored
  pub one_less : length m' + 1 ≡ length m
  pub no_repeats : NoRepeats m'

not_empty : (m : Rows) → 0 < length m → m ≢ []
not_empty [] h e = absurd (omega arith)
not_empty (r ∷ m) h e = cc

pub evict_one-Evicts : (m : Rows) → NoRepeats m → 0 < length m → Evicts m (evict_one m)
unfolding evict_one
evict_one-Evicts m d h = elim (Option-cases (min_by_key stored_at m)) [
  | inl p ↦ absurd (not_empty m h (min_by_key-none stored_at m p))
  | inr (e, p) ↦
      rw (p, evict_one)
        (let there = lookup-min_by_key stored_at text_dec m e d p in
          record {
            victim = e.0;
            entry = e.1;
            was_there = there;
            gone = lookup-remove_self text_dec e.0 m d;
            others = λ q ne. lookup-remove_ne text_dec e.0 q m ne;
            oldest = λ q v found. min_by_key-le stored_at text_dec m e q v p found;
            one_less = length-remove text_dec e.0 m e.1 there;
            no_repeats = remove-Distinct text_dec e.0 m d;
          })
]

-- What is left of the rows is as it was, and nothing that is gone is newer than anything that is left.
pub record KeepsNewest (m m' : Rows) : Type 0 where
  pub unchanged :
      (q : Text) (e : Entry) → lookup text_dec q m' ≡ some e → lookup text_dec q m ≡ some e
  pub older :
      (q r : Text) (e f : Entry)
      → lookup text_dec q m ≡ some e
      → lookup text_dec q m' ≡ none
      → lookup text_dec r m' ≡ some f
      → e.stored ≤ f.stored

KeepsNewest-refl : (m : Rows) → KeepsNewest m m
KeepsNewest-refl m = record { unchanged = λ q e h. h; older = λ q r e f h h' h''. cc }

module _ (m m₁ m' : Rows) (first : Evicts m m₁) (rest : KeepsNewest m₁ m') where
  later_unchanged :
      (q : Text) (e : Entry) → lookup text_dec q m' ≡ some e → lookup text_dec q m ≡ some e
  later_unchanged q e h = elim (text_dec first.victim q) [
    | yes same ↦
        let gone = subst (λ v. lookup text_dec v m₁ ≡ none) same first.gone in
        ground (arith, rest.unchanged q e h)
    | no other ↦ ground (arith, first.others q other, rest.unchanged q e h)
  ]

  later_older :
      (q r : Text) (e f : Entry)
      → lookup text_dec q m ≡ some e
      → lookup text_dec q m' ≡ none
      → lookup text_dec r m' ≡ some f
      → e.stored ≤ f.stored
  later_older q r e f there gone left = elim (text_dec first.victim q) [
    | yes same ↦
        let at = subst (λ v. lookup text_dec v m ≡ some first.entry) same first.was_there in
        let old = first.oldest r f (later_unchanged r f left) in ground arith
    | no other ↦ rest.older q r e f (ground (arith, first.others q other)) gone left
  ]

below : (a b : ℕ) → ltb a b ≡ true → a < b
below a b h = ground arith

-- As many rounds as there are rows are enough: at the end as many rows are left as fit.
pub evict_down-KeepsNewest :
    (rounds cap : ℕ) (m : Rows)
    → NoRepeats m
    → length m ≤ rounds
    → (length (evict_down rounds cap m) ≡ min cap (length m))
      × KeepsNewest m (evict_down rounds cap m)
      × NoRepeats (evict_down rounds cap m)
unfolding evict_down
evict_down-KeepsNewest zero cap m d h = (omega arith, KeepsNewest-refl m, d)
evict_down-KeepsNewest (suc rounds) cap m d h = elim (Bool-cases (ltb cap (length m))) [
  | inr fits ↦ rw fits (ground arith, KeepsNewest-refl m, d)
  | inl full ↦
      let first = evict_one-Evicts m d (omega tests) in
      let (fits, newest, d') =
        evict_down-KeepsNewest rounds cap (evict_one m) first.no_repeats
          (omega (arith, first.one_less)) in
      rw full (
        omega (arith, fits, first.one_less, below cap (length m) full),
        record {
          unchanged = later_unchanged m (evict_one m) _ first newest;
          older = later_older m (evict_one m) _ first newest;
        },
        d',
      )
]

-- What a restart takes from a file that decodes to rows without repetition: all of them if the cache
-- has room for them, and else as many as it holds, each as it was kept, and the newest. A file that does
-- not decode, is not there or cannot be read leaves the cache empty.
pub persisted-KeepsNewest :
    (decode : Text → Option Rows) (ttl : ℕ) (result : ReadResult)
    → NoRepeats (kept_rows decode result)
    → (length (persisted decode ttl result).map
        ≡ min default_max_entries (length (kept_rows decode result)))
      × KeepsNewest (kept_rows decode result) (persisted decode ttl result).map
      × NoRepeats (persisted decode ttl result).map
unfolding persisted
persisted-KeepsNewest decode ttl result d =
    evict_down-KeepsNewest (length (kept_rows decode result)) default_max_entries
      (kept_rows decode result) d (omega arith)

-- Storing a row into a cache with room for it, or over the row of the same key: every other key reads
-- as before.
pub lookup-put_row_room :
    (cap : ℕ) (m : Rows) (key value : Text) (now : ℕ)
    → (length m < cap) ⊎ (contains_key text_dec key m ≡ true)
    → (q : Text)
    → lookup text_dec q (put_row cap m key value now)
      ≡ ite (text_dec key q) (some (record { stored = now; value = value })) (lookup text_dec q m)
unfolding put_row
lookup-put_row_room cap m key value now (inl room) q =
    let e : Entry = record { stored = now; value = value } in
    ground (arith, lookup-insert text_dec key q e m)
lookup-put_row_room cap m key value now (inr there) q =
    let e : Entry = record { stored = now; value = value } in
    rw there (ground (arith, lookup-insert text_dec key q e m))

-- Storing a row under a new key into a full cache: exactly one row goes, the oldest, and every key but
-- that one and the stored one reads as before.
pub lookup-put_row_full :
    (cap : ℕ) (m : Rows) (key value : Text) (now : ℕ)
    → NoRepeats m
    → 0 < cap
    → cap ≤ length m
    → contains_key text_dec key m ≡ false
    → Evicts m (evict_one m)
      × ((q : Text)
          → lookup text_dec q (put_row cap m key value now)
            ≡ ite
                (text_dec key q)
                (some (record { stored = now; value = value }))
                (lookup text_dec q (evict_one m)))
unfolding put_row
lookup-put_row_full cap m key value now d pos full new =
    let e : Entry = record { stored = now; value = value } in
    (
      evict_one-Evicts m d (omega arith),
      λ q. rw new (ground (arith, lookup-insert text_dec key q e (evict_one m))),
    )

-- The cache never outgrows its limit and never holds a key twice.
pub put_row-bounded :
    (cap : ℕ) (m : Rows) (key value : Text) (now : ℕ)
    → NoRepeats m
    → 0 < cap
    → length m ≤ cap
    → (length (put_row cap m key value now) ≤ cap) × NoRepeats (put_row cap m key value now)
unfolding put_row
put_row-bounded cap m key value now d pos fits =
    let e : Entry = record { stored = now; value = value } in
    elim (Bool-cases (leb cap (length m) && not (contains_key text_dec key m))) [
      | inl full ↦
          let out = evict_one-Evicts m d (ground arith) in
          let grown = length-insert text_dec key e (evict_one m) in
          rw full (
            ground (arith, out.one_less, grown),
            insert-Distinct text_dec key e (evict_one m) out.no_repeats,
          )
      | inr room ↦
          let grown = length-insert text_dec key e m in
          rw room (ground (arith, grown), insert-Distinct text_dec key e m d)
    ]
