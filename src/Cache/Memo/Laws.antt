-- ===== src/Cache/Memo/Laws.antt =====
-- What `EmbedMemo` of src/cache.rs remembers, and whom it forgets.
use den_atlas.Prelude.{
  ℕ, ◌+◌, ◌-◌, ◌≤◌, ◌<◌, ◌≡◌, ◌≢◌, refl, inl, inr, false, not, ◌&&◌, List, [], ◌∷◌, none, some,
  arith, leb, if◌then◌else◌, length, Option-cases, Bool-cases, subst, All, ◌∙◌,
}
use den_atlas.Prelude.Bytes.{Text, text_dec}
use den_atlas.Prelude.Map.{
  lookup, insert, remove, contains_key, Distinct, min_by_key, min_by_key-le, lookup-min_by_key,
  min_by_key-none, lookup-insert, lookup-remove_ne, remove-Distinct, insert-Distinct, length-insert,
  length-remove, length-remove-le,
}
use den_atlas.Cache.Memo.{
  Remembered, Memory, EmbedMemo, IsValid, key, evict_one, get, put, last_used,
}

not_empty : (m : Memory) → 0 < length m → m ≢ []
not_empty [] h e = absurd (omega arith)
not_empty (r ∷ m) h e = cc

-- The row that goes was used no later than any other.
record Evicts (m m' : Memory) : Type 0 where
  victim : Text
  entry : Remembered
  was_there : lookup text_dec victim m ≡ some entry
  others : (q : Text) → victim ≢ q → lookup text_dec q m' ≡ lookup text_dec q m
  coldest : (q : Text) (r : Remembered) → lookup text_dec q m ≡ some r → entry.used ≤ r.used
  one_less : length m' + 1 ≡ length m
  no_repeats : Distinct text_dec m'

evict_one-Evicts : (m : Memory) → Distinct text_dec m → 0 < length m → Evicts m (evict_one m)
unfolding evict_one
evict_one-Evicts m d h = elim (Option-cases (min_by_key last_used m)) [
  | inl p ↦ absurd (not_empty m h (min_by_key-none last_used m p))
  | inr (e, p) ↦
      let there = lookup-min_by_key last_used text_dec m e d p in
      rw (p, evict_one)
        (record {
          victim = e.0;
          entry = e.1;
          was_there = there;
          others = λ q ne. lookup-remove_ne text_dec e.0 q m ne;
          coldest = λ q r found. min_by_key-le last_used text_dec m e q r p found;
          one_less = length-remove text_dec e.0 m e.1 there;
          no_repeats = remove-Distinct text_dec e.0 m d;
        })
]

forget-IsValid :
    (c : EmbedMemo) (k : Text) → IsValid c → IsValid (record c { map = remove text_dec k c.map })
forget-IsValid c k v = record {
  some_room = v.some_room;
  bounded = omega (arith, v.bounded, length-remove-le text_dec k c.map);
  no_repeats = remove-Distinct text_dec k c.map v.no_repeats;
}

touch-IsValid :
    (c : EmbedMemo) (k : Text) (r r' : Remembered)
    → lookup text_dec k c.map ≡ some r
    → IsValid c
    → IsValid (record c { map = insert text_dec k r' c.map })
touch-IsValid c k r r' there v = record {
  some_room = v.some_room;
  bounded = ground (arith, v.bounded, length-insert text_dec k r' c.map);
  no_repeats = insert-Distinct text_dec k r' c.map v.no_repeats;
}

-- A look keeps the memo within its limit, with no key twice.
pub get-IsValid : (c : EmbedMemo) (k : Text) (now : ℕ) → IsValid c → IsValid (get c k now).0
unfolding get
get-IsValid c k now v = elim (Option-cases (lookup text_dec k c.map)) [
  | inl p ↦ rw (p, get) v
  | inr (r, p) ↦ elim (Bool-cases (leb c.ttl (now - r.stored))) [
    | inl old ↦ rw (p, get) (rw old (forget-IsValid c k v))
    | inr young ↦ rw (p, get) (rw young (touch-IsValid c k r (record r { used = now }) p v))
  ]
]

-- So does remembering a vector.
pub put-IsValid :
    (c : EmbedMemo) (k : Text) (vector : List ℕ) (now : ℕ)
    → IsValid c
    → IsValid (put c k vector now)
unfolding put
put-IsValid c k vector now v =
    let r : Remembered = record { vector = vector; stored = now; used = now } in
    elim (Bool-cases (leb c.max_entries (length c.map) && not (contains_key text_dec k c.map))) [
      | inl full ↦
          let out = evict_one-Evicts c.map v.no_repeats (ground (arith, v.some_room)) in
          let grown = length-insert text_dec k r (evict_one c.map) in
          rw full (record {
            some_room = v.some_room;
            bounded = ground (arith, out.one_less, grown, v.bounded);
            no_repeats = insert-Distinct text_dec k r (evict_one c.map) out.no_repeats;
          })
      | inr room ↦
          let grown = length-insert text_dec k r c.map in
          rw room (record {
            some_room = v.some_room;
            bounded = ground (arith, grown, v.bounded);
            no_repeats = insert-Distinct text_dec k r c.map v.no_repeats;
          })
    ]

-- What was just remembered is found until it is as old as the time to live, and not after.
pub get-put_vector :
    (c : EmbedMemo) (k : Text) (vector : List ℕ) (now later : ℕ)
    → (get (put c k vector now) k later).1 ≡ (if leb c.ttl (later - now) then none else some vector)
unfolding get put
get-put_vector c k vector now later =
    let r : Remembered = record { vector = vector; stored = now; used = now } in
    ground
      (arith, lookup-insert text_dec k k r c.map, lookup-insert text_dec k k r (evict_one c.map))

hit :
    (c : EmbedMemo) (k : Text) (now : ℕ) (r : Remembered)
    → lookup text_dec k c.map ≡ some r
    → leb c.ttl (now - r.stored) ≡ false
    → (get c k now).0 ≡ record c { map = insert text_dec k (record r { used = now }) c.map }
unfolding get
hit c k now r at young = rw (at, get) (rw young refl)

put_keeps :
    (c : EmbedMemo) (k j q : Text) (vector : List ℕ) (later : ℕ) (r s : Remembered)
    → IsValid c
    → lookup text_dec k c.map ≡ some r
    → lookup text_dec q c.map ≡ some s
    → s.used < r.used
    → j ≢ k
    → lookup text_dec k (put c j vector later).map ≡ some r
unfolding put
put_keeps c k j q vector later r s v at other older ne =
    let e : Remembered = record { vector = vector; stored = later; used = later } in
    elim (Bool-cases (leb c.max_entries (length c.map) && not (contains_key text_dec j c.map))) [
      | inl full ↦
          let out = evict_one-Evicts c.map v.no_repeats (ground (arith, v.some_room)) in
          let kept : lookup text_dec k (evict_one c.map) ≡ some r =
            out.others k (not_victim out) ∙ at in
          rw full (ground (arith, lookup-insert text_dec j k e (evict_one c.map)))
      | inr room ↦ rw room (ground (arith, lookup-insert text_dec j k e c.map))
    ]
  where
    not_victim : (out : Evicts c.map (evict_one c.map)) → out.victim ≢ k
    not_victim out same =
        let there : lookup text_dec k c.map ≡ some out.entry =
          subst (λ u. lookup text_dec u c.map ≡ some out.entry) same out.was_there in
        let cold = out.coldest q s other in absurd (ground arith)

-- A read protects: a key that was just found is still there after another is remembered, however full
-- the memo, so long as it holds one more key that was last used before.
pub lookup-put-get :
    (c : EmbedMemo) (k j q : Text) (vector : List ℕ) (now later : ℕ) (r s : Remembered)
    → IsValid c
    → lookup text_dec k c.map ≡ some r
    → now - r.stored < c.ttl
    → lookup text_dec q c.map ≡ some s
    → s.used < now
    → q ≢ k
    → j ≢ k
    → lookup text_dec k (put (get c k now).0 j vector later).map ≡ some (record r { used = now })
lookup-put-get c k j q vector now later r s v at young other older ne ne' =
    let young' : leb c.ttl (now - r.stored) ≡ false = ground arith in
    rw (hit c k now r at young') (
      put_keeps touched k j q vector later (record r { used = now }) s (touch-IsValid c k r _ at v)
        (ground (arith, lookup-insert text_dec k k (record r { used = now }) c.map))
        (ground (arith, lookup-insert text_dec k q (record r { used = now }) c.map)) older ne')
  where
    touched : EmbedMemo
    touched = record c { map = insert text_dec k (record r { used = now }) c.map }

-- The key of a text names its space: two keys are equal only if both are, no space having a zero byte.
pub key_injective :
    (space space' text text' : Text)
    → All (λ b. b ≢ 0) space
    → All (λ b. b ≢ 0) space'
    → key space text ≡ key space' text'
    → (space ≡ space') × (text ≡ text')
unfolding key
key_injective [] [] t t' h h' e = ground arith
key_injective [] (b ∷ s') t t' h h' e = absurd (h'.0 (ground arith))
key_injective (a ∷ s) [] t t' h h' e = absurd (h.0 (ground arith))
key_injective (a ∷ s) (b ∷ s') t t' h h' e =
    ground (arith, key_injective s s' t t' h.1 h'.1 (ground arith))
