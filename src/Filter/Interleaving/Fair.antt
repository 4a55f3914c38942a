-- ===== src/Filter/Interleaving/Fair.antt =====
-- Films and series at their shares: `interleave` of src/filter.rs.
use den_atlas.Prelude.{
  ℕ, zero, suc, ◌+◌, ◌*◌, ◌≤◌, ◌≡◌, refl, Bool, true, false, not, List, [], ◌∷◌, arith, leb, leb→le,
  length, sym, take, if◌then◌else◌, inl, inr, Bool-cases,
}
use den_atlas.Prelude.Perms.{all}
use den_atlas.Filter.Interleaving.{interleave_from, interleave}

unfoldable pub filter {ℓ} : {A : Type ℓ} → (A → Bool) → List A → List A
filter p [] = []
filter p (x ∷ xs) = if p x then x ∷ filter p xs else filter p xs

module _ {ℓ} {A : Type ℓ} (film : A → Bool) where
  filter_films :
      (fuel n m i j : ℕ) (movies series : List A)
      → length movies + length series ≤ fuel
      → all film movies ≡ true
      → all (λ x. not (film x)) series ≡ true
      → filter film (interleave_from fuel n m i j movies series) ≡ movies
  unfolding interleave_from filter
  filter_films zero n m i j [] [] h f s = refl
  filter_films zero n m i j (x ∷ movies) series h f s = absurd (omega arith)
  filter_films zero n m i j [] (y ∷ series) h f s = absurd (omega arith)
  filter_films (suc fuel) n m i j [] [] h f s = refl
  filter_films (suc fuel) n m i j (x ∷ movies) [] h f s =
      ground (arith, filter_films fuel n m (suc i) j movies [] (omega arith))
  filter_films (suc fuel) n m i j [] (y ∷ series) h f s =
      ground (arith, filter_films fuel n m i (suc j) [] series (omega arith))
  filter_films (suc fuel) n m i j (x ∷ movies) (y ∷ series) h f s = ground (
    arith,
    filter_films fuel n m (suc i) j movies (y ∷ series) (omega arith),
    filter_films fuel n m i (suc j) (x ∷ movies) series (omega arith),
  )

  filter_series :
      (fuel n m i j : ℕ) (movies series : List A)
      → length movies + length series ≤ fuel
      → all film movies ≡ true
      → all (λ x. not (film x)) series ≡ true
      → filter (λ x. not (film x)) (interleave_from fuel n m i j movies series) ≡ series
  unfolding interleave_from filter
  filter_series zero n m i j [] [] h f s = refl
  filter_series zero n m i j (x ∷ movies) series h f s = absurd (omega arith)
  filter_series zero n m i j [] (y ∷ series) h f s = absurd (omega arith)
  filter_series (suc fuel) n m i j [] [] h f s = refl
  filter_series (suc fuel) n m i j (x ∷ movies) [] h f s =
      ground (arith, filter_series fuel n m (suc i) j movies [] (omega arith))
  filter_series (suc fuel) n m i j [] (y ∷ series) h f s =
      ground (arith, filter_series fuel n m i (suc j) [] series (omega arith))
  filter_series (suc fuel) n m i j (x ∷ movies) (y ∷ series) h f s = ground (
    arith,
    filter_series fuel n m (suc i) j movies (y ∷ series) (omega arith),
    filter_series fuel n m i (suc j) (x ∷ movies) series (omega arith),
  )

-- i of n films and j of m series: neither type is more than one title ahead of its share.
abbrev pub IsFair : ℕ → ℕ → ℕ → ℕ → Type 0
IsFair n m i j = (i * m ≤ j * n + m) × (j * n ≤ i * m + n)

take_film : (n m i j : ℕ) → IsFair n m i j → i * m ≤ j * n → IsFair n m (suc i) j
take_film n m i j h le = grind arith

take_series : (n m i j : ℕ) → IsFair n m i j → j * n ≤ i * m → IsFair n m i (suc j)
take_series n m i j h le = grind arith

all_series_taken : (n m i j : ℕ) → i ≤ n → j ≡ m → i * m ≤ j * n
all_series_taken n m i j h e = grind arith

all_films_taken : (n m i j : ℕ) → j ≤ m → i ≡ n → j * n ≤ i * m
all_films_taken n m i j h e = grind arith

moved : (n m i j i' j' : ℕ) → i ≡ i' → j ≡ j' → IsFair n m i j → IsFair n m i' j'
moved n m i j i' j' e f h = rw (sym e, sym f) h

module _ {ℓ} {A : Type ℓ} (film : A → Bool) where
  -- The films and the series among the first k.
  abbrev pub films_in : ℕ → List A → ℕ
  films_in k l = length (filter film (take k l))

  abbrev pub series_in : ℕ → List A → ℕ
  series_in k l = length (filter (λ x. not (film x)) (take k l))

  films_in-film :
      (k : ℕ) (x : A) (l : List A) → film x ≡ true → films_in (suc k) (x ∷ l) ≡ suc (films_in k l)
  unfolding filter
  films_in-film k x l h = ground arith

  films_in-series :
      (k : ℕ) (x : A) (l : List A) → film x ≡ false → films_in (suc k) (x ∷ l) ≡ films_in k l
  unfolding filter
  films_in-series k x l h = ground arith

  series_in-film :
      (k : ℕ) (x : A) (l : List A) → film x ≡ true → series_in (suc k) (x ∷ l) ≡ series_in k l
  unfolding filter
  series_in-film k x l h = ground arith

  series_in-series :
      (k : ℕ) (x : A) (l : List A)
      → film x ≡ false
      → series_in (suc k) (x ∷ l) ≡ suc (series_in k l)
  unfolding filter
  series_in-series k x l h = ground arith

  after_film :
      (n m i j k : ℕ) (x : A) (l : List A)
      → film x ≡ true
      → IsFair n m (suc i + films_in k l) (j + series_in k l)
      → IsFair n m (i + films_in (suc k) (x ∷ l)) (j + series_in (suc k) (x ∷ l))
  after_film n m i j k x l e h =
      moved n m _ _ _ _ (omega (arith, films_in-film k x l e))
        (omega (arith, series_in-film k x l e)) h

  after_series :
      (n m i j k : ℕ) (x : A) (l : List A)
      → film x ≡ false
      → IsFair n m (i + films_in k l) (suc j + series_in k l)
      → IsFair n m (i + films_in (suc k) (x ∷ l)) (j + series_in (suc k) (x ∷ l))
  after_series n m i j k x l e h =
      moved n m _ _ _ _ (omega (arith, films_in-series k x l e))
        (omega (arith, series_in-series k x l e)) h

  none_taken :
      (n m i j k : ℕ) → IsFair n m i j → IsFair n m (i + films_in k []) (j + series_in k [])
  unfolding filter
  none_taken n m i j zero h = moved n m i j _ _ (omega arith) (omega arith) h
  none_taken n m i j (suc k) h = moved n m i j _ _ (omega arith) (omega arith) h

  start :
      (n m i j : ℕ) (l : List A)
      → IsFair n m i j
      → IsFair n m (i + films_in 0 l) (j + series_in 0 l)
  unfolding filter
  start n m i j l h = moved n m i j _ _ (omega arith) (omega arith) h

  fair_from :
      (fuel n m i j : ℕ) (movies series : List A) (k : ℕ)
      → i + length movies ≡ n
      → j + length series ≡ m
      → all film movies ≡ true
      → all (λ x. not (film x)) series ≡ true
      → IsFair n m i j
      → IsFair n m
          (i + films_in k (interleave_from fuel n m i j movies series))
          (j + series_in k (interleave_from fuel n m i j movies series))
  unfolding interleave_from
  fair_from fuel n m i j movies series zero a b f s h =
      start n m i j (interleave_from fuel n m i j movies series) h
  fair_from zero n m i j movies series (suc k) a b f s h = none_taken n m i j (suc k) h
  fair_from (suc fuel) n m i j [] [] (suc k) a b f s h = none_taken n m i j (suc k) h
  fair_from (suc fuel) n m i j (x ∷ movies) [] (suc k) a b f s h =
      after_film n m i j k x _ (ground arith) (
        fair_from fuel n m (suc i) j movies [] k (omega arith) b (ground arith) s
          (take_film n m i j h (all_series_taken n m i j (omega arith) (omega arith))))
  fair_from (suc fuel) n m i j [] (y ∷ series) (suc k) a b f s h =
      after_series n m i j k y _ (ground arith) (
        fair_from fuel n m i (suc j) [] series k a (omega arith) f (ground arith)
          (take_series n m i j h (all_films_taken n m i j (omega arith) (omega arith))))
  fair_from (suc fuel) n m i j (x ∷ movies) (y ∷ series) (suc k) a b f s h =
      elim (Bool-cases (leb (i * m) (j * n))) [
        | inl e ↦ rw e (
            after_film n m i j k x (interleave_from fuel n m (suc i) j movies (y ∷ series))
              (ground arith)
              (fair_from fuel n m (suc i) j movies (y ∷ series) k (omega arith) b (ground arith) s
                (take_film n m i j h (leb→le (i * m) (j * n) e))))
        | inr e ↦ rw e (
            after_series n m i j k y (interleave_from fuel n m i (suc j) (x ∷ movies) series)
              (ground arith)
              (fair_from fuel n m i (suc j) (x ∷ movies) series k a (omega arith) f (ground arith)
                (take_series n m i j h (later (i * m) (j * n) e))))
      ]
    where
      later : (a b : ℕ) → leb a b ≡ false → b ≤ a
      later a b e = ground arith

  -- Both types in one list: the films keep their order, and so do the series, none is lost, and at every place of the list
  -- neither type is more than one title ahead of its share of all. The test tells the two apart.
  pub interleave-IsFair :
      (movies series : List A) (k : ℕ)
      → all film movies ≡ true
      → all (λ x. not (film x)) series ≡ true
      → (filter film (interleave movies series) ≡ movies)
        × (filter (λ x. not (film x)) (interleave movies series) ≡ series)
        × IsFair
            (length movies)
            (length series)
            (films_in k (interleave movies series))
            (series_in k (interleave movies series))
  unfolding interleave
  interleave-IsFair movies series k f s =
      let n = length movies in
      let m = length series in
      (
        filter_films film (n + m) n m 0 0 movies series (omega arith) f s,
        filter_series film (n + m) n m 0 0 movies series (omega arith) f s,
        moved n m _ _ _ _ (omega arith) (omega arith) (
            fair_from (n + m) n m 0 0 movies series k (omega arith) (omega arith) f s
              (omega arith, omega arith)),
      )
