-- ===== src/Cache/Writer/Owner.antt =====
-- The flag `saving` of src/cache.rs as a lock: one task at most has it.
use den_atlas.Prelude.{
  ℕ, ◌+◌, ◌-◌, ◌≤◌, ◌≡◌, refl, Bool, true, false, List, [], ◌∷◌, none, some, arith, get_elem?, ◌≢◌,
  Option-cases, inl, inr,
}
use den_atlas.Prelude.Tasks.{one_if, count, count-set, count-ge, count-append}
use den_atlas.Prelude.Bytes.{Text}
use den_atlas.Cache.{Rows, put}
use den_atlas.Cache.Writer.{
  PutPhase, storing, swapping, spawning, done, WritePhase, sleeping, finished, clearing, checking,
  reclaiming, stopped, Env, System, put_step, write_step, write_partial, rename_over, Turn, putter,
  writer, step, run, set_putter, set_writer,
}

-- A coordinator that set `saving`, or took it over, and has not cleared it.
unfoldable pub owns : WritePhase → Bool
owns (checking w) = false
owns (reclaiming g) = false
owns stopped = false
owns ph = true

-- A task that set `saving` and has not spawned its coordinator.
unfoldable pub claims : PutPhase → Bool
claims spawning = true
claims ph = false

pub count-sleeping : count owns (sleeping ∷ []) ≡ 1
unfolding count owns
count-sleeping = refl

-- The flag is set exactly while one task has it.
abbrev pub OneOwner : System → Type 0
OneOwner s = count owns s.writers + count claims s.putters ≡ one_if s.cache.saving

pub at_most : (s : System) → OneOwner s → count owns s.writers ≤ 1
at_most s one = ground arith

pub count-owns-nil : count owns [] ≡ 0
unfolding count
count-owns-nil = refl

pub none_there : (j : ℕ) (ph : WritePhase) → get_elem? [] j ≢ some ph
none_there j ph h = cc

module _ (encode : Rows → Text) where
  put_step-owner :
      (s : System) (ph : PutPhase) (e : Env) (c : ℕ)
      → count owns s.writers + (c + one_if (claims ph)) ≡ one_if s.cache.saving
      → count owns (put_step encode s ph e).0.writers
          + (c + one_if (claims (put_step encode s ph e).1))
        ≡ one_if (put_step encode s ph e).0.cache.saving
  unfolding put_step put claims
  put_step-owner s (storing k v) e c h = ground arith
  put_step-owner s swapping e c h = ground arith
  put_step-owner s spawning e c h =
      ground (arith, count-append owns s.writers (sleeping ∷ []), count-sleeping)
  put_step-owner s done e c h = ground arith

  write_step-owner :
      (s : System) (ph : WritePhase) (e : Env) (c : ℕ)
      → c + one_if (owns ph) ≡ one_if s.cache.saving
      → c + one_if (owns (write_step encode s ph e).1)
        ≡ one_if (write_step encode s ph e).0.cache.saving
  unfolding write_step write_partial rename_over owns
  write_step-owner s sleeping e c h = ground arith
  write_step-owner s (finished none) e c h = ground arith
  write_step-owner s (finished (some g)) e c h = ground arith
  write_step-owner s (checking none) e c h = ground arith
  write_step-owner s (checking (some g)) e c h = ground arith
  write_step-owner s (clearing w) e c h = ground arith
  write_step-owner s (reclaiming g) e c h = ground arith
  write_step-owner s _ e c h = ground arith

  pub put_step-putters :
      (s : System) (ph : PutPhase) (e : Env) → (put_step encode s ph e).0.putters ≡ s.putters
  unfolding put_step
  put_step-putters s (storing k v) e = refl
  put_step-putters s _ e = ground arith

  pub write_step-tasks :
      (s : System) (ph : WritePhase) (e : Env)
      → ((write_step encode s ph e).0.putters ≡ s.putters)
        × ((write_step encode s ph e).0.writers ≡ s.writers)
  unfolding write_step write_partial rename_over
  write_step-tasks s sleeping e = (refl, refl)
  write_step-tasks s (finished none) e = (refl, refl)
  write_step-tasks s (finished (some g)) e = ground arith
  write_step-tasks s (checking none) e = (refl, refl)
  write_step-tasks s (checking (some g)) e = ground arith
  write_step-tasks s _ e = ground arith

  pub set_putter-OneOwner :
      (s : System) (i : ℕ) (ph : PutPhase) (e : Env)
      → get_elem? s.putters i ≡ some ph
      → OneOwner s
      → OneOwner (set_putter i (put_step encode s ph e))
  set_putter-OneOwner s i ph e at one =
      let before = count-ge claims s.putters i ph at in
      let moved = count-set claims s.putters i ph (put_step encode s ph e).1 at in
      let own = put_step-owner s ph e (count claims s.putters - one_if (claims ph)) (omega arith) in
      rw (put_step-putters s ph e) (omega arith)

  pub set_writer-OneOwner :
      (s : System) (i : ℕ) (ph : WritePhase) (e : Env)
      → get_elem? s.writers i ≡ some ph
      → OneOwner s
      → OneOwner (set_writer i (write_step encode s ph e))
  set_writer-OneOwner s i ph e at one =
      let before = count-ge owns s.writers i ph at in
      let moved = count-set owns s.writers i ph (write_step encode s ph e).1 at in
      let c = count owns s.writers + count claims s.putters - one_if (owns ph) in
      let own = write_step-owner s ph e c (omega arith) in
      let (same, same') = write_step-tasks s ph e in rw (same, same') (omega arith)

  step-OneOwner : (s : System) (t : Turn) (e : Env) → OneOwner s → OneOwner (step encode s t e)
  unfolding step
  step-OneOwner s (putter i) e one = elim (Option-cases (get_elem? s.putters i)) [
    | inl p ↦ rw (p, step) one
    | inr (ph, at) ↦ rw (at, step) (set_putter-OneOwner s i ph e at one)
  ]
  step-OneOwner s (writer i) e one = elim (Option-cases (get_elem? s.writers i)) [
    | inl p ↦ rw (p, step) one
    | inr (ph, at) ↦ rw (at, step) (set_writer-OneOwner s i ph e at one)
  ]

  -- Whatever the order of the steps, and whatever fails: at most one coordinator is at work at any
  -- time, counting a task that is about to spawn one, and `saving` is set exactly while there is one.
  pub run-OneOwner :
      (s : System) (schedule : List (Turn × Env)) → OneOwner s → OneOwner (run encode s schedule)
  unfolding run
  run-OneOwner s [] one = one
  run-OneOwner s ((t, e) ∷ schedule) one =
      run-OneOwner (step encode s t e) schedule (step-OneOwner s t e one)
