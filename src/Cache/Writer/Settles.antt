-- ===== src/Cache/Writer/Settles.antt =====
-- No stored row stays unwritten: when the tasks of src/cache.rs have come to rest, the file holds the
-- rows, if no write failed.
use den_atlas.Prelude.{
  ℕ, ◌+◌, ◌≤◌, ◌<◌, ◌≡◌, ◌≢◌, refl, true, false, List, [], ◌∷◌, some, arith, get_elem?,
  Option-cases, inl, inr, word, All, length,
}
use den_atlas.Prelude.Tasks.{count, count_none}
use den_atlas.Prelude.Bytes.{Text}
use den_atlas.Cache.{Rows}
use den_atlas.Cache.Writer.{
  PutPhase, storing, done, stopped, Env, System, Turn, putter, writer, step, run,
}
use den_atlas.Cache.Writer.Owner.{count-owns-nil, none_there, owns, claims}
use den_atlas.Cache.Writer.Snapshots.{Good, looks_again, filed}
use den_atlas.Cache.Writer.Pending.{Inv, awake, is_storing, is_swapping, moved-Inv}
use den_atlas.Cache.Writer.Putters.{putter-Inv}

storing-claims-le : (xs : List PutPhase) → count is_storing xs + count claims xs ≤ length xs
unfolding count is_storing claims
storing-claims-le [] = omega arith
storing-claims-le (storing k v ∷ xs) = omega (arith, storing-claims-le xs)
storing-claims-le (ph ∷ xs) = omega (arith, storing-claims-le xs)

length_pos : (xs : List PutPhase) → xs ≢ [] → 1 ≤ length xs
length_pos [] h = absurd (h refl)
length_pos (x ∷ xs) h = omega arith

-- Nobody is awake when all have come to rest.
awake_rest :
    (s : System)
    → All (λ ph. ph ≡ done) s.putters
    → All (λ ph. ph ≡ stopped) s.writers
    → (awake s ≡ 0) × (count is_storing s.putters ≡ 0)
unfolding owns claims looks_again is_swapping is_storing
awake_rest s d w = omega (
  arith,
  count_none owns s.writers stopped refl w,
  count_none looks_again s.writers stopped refl w,
  count_none claims s.putters done refl d,
  count_none is_swapping s.putters done refl d,
  count_none is_storing s.putters done refl d,
)

module _ (encode : Rows → Text) where
  step-Inv :
      (n on_file : ℕ) (s : System) (t : Turn) (e : Env)
      → n < word
      → Good e
      → Inv encode n on_file s
      → (on_file' : ℕ) × Inv encode n on_file' (step encode s t e)
  unfolding step
  step-Inv n on_file s (putter i) e small good v = elim (Option-cases (get_elem? s.putters i)) [
    | inl p ↦ (on_file, rw (p, step) v)
    | inr (ph, at) ↦ (on_file, rw (at, step) (putter-Inv encode n on_file s e good v small i ph at))
  ]
  step-Inv n on_file s (writer i) e small good v = elim (Option-cases (get_elem? s.writers i)) [
    | inl p ↦ (on_file, rw (p, step) v)
    | inr (ph, at) ↦
        (filed on_file ph, rw (at, step) (moved-Inv encode n on_file s e good v i ph at))
  ]

  run-Inv :
      (n on_file : ℕ) (s : System) (schedule : List (Turn × Env))
      → n < word
      → All (λ te. Good te.1) schedule
      → Inv encode n on_file s
      → (on_file' : ℕ) × Inv encode n on_file' (run encode s schedule)
  unfolding run
  run-Inv n on_file s [] small good v = (on_file, v)
  run-Inv n on_file s ((t, e) ∷ schedule) small good v =
      let (on_file', v') = step-Inv n on_file s t e small good.0 v in
      run-Inv n on_file' (step encode s t e) schedule small good.1 v'

  -- A cache with a file, whose tasks have yet to store their rows.
  pub record Fresh (s : System) : Type 0 where
    pub persists : s.cache.on_disk ≡ true
    pub idle : s.cache.saving ≡ false
    pub unchanged : s.cache.generation ≡ 0
    pub no_writers : s.writers ≡ []
    pub all_storing : count is_storing s.putters ≡ length s.putters

  Fresh-Inv : (s : System) → Fresh s → Inv encode (length s.putters) 0 s
  Fresh-Inv s f =
      let few = storing-claims-le s.putters in
      let none_owns : count owns s.writers ≡ 0 = rw f.no_writers count-owns-nil in
      let on_file : 0 ≤ s.cache.generation = omega arith in
      record {
        one_owner = rw f.idle (omega (arith, f.all_storing));
        persists = f.persists;
        stored = rw f.unchanged (omega (arith, f.all_storing));
        on_the_file = (on_file, λ e. inl refl);
        snapshots = λ j ph h. absurd (none_there j ph (rw f.no_writers at h));
        pending = inl f.unchanged;
      }

  -- Rows stored by any number of tasks, in any interleaving with the coordinators that they spawn,
  -- reach the file: once every task is done and every coordinator has stopped, the file holds exactly
  -- the rows of the cache. No operation failed, the process has a runtime, there was a row to store,
  -- and there were fewer than 2 ^ 64.
  pub run_settles :
      (s : System) (schedule : List (Turn × Env))
      → Fresh s
      → s.putters ≢ []
      → length s.putters < word
      → All (λ te. Good te.1) schedule
      → All (λ ph. ph ≡ done) (run encode s schedule).putters
      → All (λ ph. ph ≡ stopped) (run encode s schedule).writers
      → (run encode s schedule).file ≡ some (encode (run encode s schedule).cache.map)
  run_settles s schedule f some_put small good all_done all_stopped =
      let t = run encode s schedule in
      let (on_file, v) = run-Inv (length s.putters) 0 s schedule small good (Fresh-Inv s f) in
      let (asleep, all_stored) = awake_rest t all_done all_stopped in
      let latest : on_file ≡ t.cache.generation = omega (arith, v.pending) in
      elim (v.on_the_file.1 latest) [
        | inl zero_on_file ↦ absurd (omega (arith, v.stored, length_pos s.putters some_put))
        | inr e ↦ e
      ]
