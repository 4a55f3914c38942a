-- ===== src/Filter/Interleaving.antt =====
-- The order of films and series together: `interleave` of src/filter.rs.
pub mod Fair
use den_atlas.Prelude.{ℕ, zero, suc, ◌+◌, ◌*◌, List, [], ◌∷◌, leb, length, if◌then◌else◌}

-- The loop: `n` films and `m` series in all, i and j of them taken; each round takes one.
unfoldable pub interleave_from {ℓ} : {A : Type ℓ} → ℕ → ℕ → ℕ → ℕ → ℕ → List A → List A → List A
interleave_from zero n m i j movies series = []
interleave_from (suc fuel) n m i j [] [] = []
interleave_from (suc fuel) n m i j (x ∷ movies) [] =
    x ∷ interleave_from fuel n m (suc i) j movies []
interleave_from (suc fuel) n m i j [] (y ∷ series) =
    y ∷ interleave_from fuel n m i (suc j) [] series
interleave_from (suc fuel) n m i j (x ∷ movies) (y ∷ series) =
    let film = interleave_from fuel n m (suc i) j movies (y ∷ series) in
    let show = interleave_from fuel n m i (suc j) (x ∷ movies) series in
    if leb (i * m) (j * n) then x ∷ film else y ∷ show

unfoldable pub interleave {ℓ} : {A : Type ℓ} → List A → List A → List A
unfolding interleave_from
interleave movies series =
    interleave_from (length movies + length series) (length movies) (length series) 0 0 movies
      series
