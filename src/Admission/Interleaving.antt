-- ===== src/Admission/Interleaving.antt =====
-- What holds of a gate of src/admission.rs however its tasks interleave.
use den_atlas.Prelude.{
  ℕ, ◌+◌, ◌-◌, ◌%◌, ◌≤◌, ◌<◌, ◌≡◌, refl, Bool, false, List, [], ◌∷◌, some, arith, word,
  Option-cases, inl, inr, get_elem?, set, max, sym, replicate, length, length-set, length-replicate,
}
use den_atlas.Prelude.Tasks.{one_if, count, count-set, count_mono, count-ge, count-replicate}
use den_atlas.Admission.Permits.{Semaphore}
use den_atlas.Admission.{Phase, Class, Env, start, new_gate, advance, System, step, run}
use den_atlas.Admission.Counters.{
  has_permit, is_active, is_queued, is_completed, is_refused, is_cancelled, count-over-le, is_over,
  is_active-has_permit, available-advance, active-advance, queued-advance, queued-advance-le,
  completed-advance, refused-advance, config-advance,
}

module _ (sem : Semaphore) where
  open sem use {available, available-create}

  pub record Inv (s : System sem) : Type 0 where
    -- the permits are with the semaphore or with a task
    pub conserved : available s.gate.permits + count has_permit s.tasks ≡ s.gate.capacity
    pub actives : s.gate.active ≡ count is_active s.tasks
    pub queueds : s.gate.queued ≡ count is_queued s.tasks
    pub bounded : s.gate.queued ≤ s.gate.queue_max
    pub completeds : s.gate.completed ≡ count is_completed s.tasks % word
    pub refuseds : s.gate.refused ≡ count is_refused s.tasks % word
    pub capacity_word : s.gate.capacity + 1 < word
    pub queue_word : s.gate.queue_max < word

  -- The counters of the state after task `i`, in the phase `ph`, made its move.
  module _ (s : System sem) (i : ℕ) (ph : Phase) (e : Env)
      (at : get_elem? s.tasks i ≡ some ph) where
    abbrev moved : System sem
    moved = record {
      gate = (advance sem s.gate ph e).0;
      tasks = set s.tasks i (advance sem s.gate ph e).1;
    }

    moved_count :
        (p : Phase → Bool)
        → (count p moved.tasks + one_if (p ph)
            ≡ count p s.tasks + one_if (p (advance sem s.gate ph e).1))
          × (one_if (p ph) ≤ count p s.tasks)
    moved_count p = (count-set p s.tasks i ph _ at, count-ge p s.tasks i ph at)

    -- A count modulo the word, moved along with the tasks.
    moved_word :
        (p : Phase → Bool) (c c' : ℕ)
        → c ≡ count p s.tasks % word
        → ((n : ℕ)
            → c ≡ (n + one_if (p ph)) % word
            → c' ≡ (n + one_if (p (advance sem s.gate ph e).1)) % word)
        → c' ≡ count p moved.tasks % word
    moved_word p c c' h f =
        let n = count p s.tasks - one_if (p ph) in
        let same : n + one_if (p ph) ≡ count p s.tasks = omega (arith, moved_count p) in
        let known : c ≡ (n + one_if (p ph)) % word = rw same h in
        omega (arith, f n known, moved_count p)

    moved-Inv : Inv s → Inv moved
    moved-Inv v = record {
      conserved = omega (
        arith,
        v.conserved,
        available-advance sem s.gate ph e,
        moved_count has_permit,
        config-advance sem s.gate ph e,
      );
      actives = omega (
        arith,
        v.actives,
        v.conserved,
        v.capacity_word,
        moved_count is_active,
        permits,
        active-advance sem s.gate ph e,
      );
      queueds = omega (
        arith,
        v.queueds,
        v.bounded,
        v.queue_word,
        moved_count is_queued,
        queued-advance sem s.gate ph e,
      );
      bounded = omega (
        arith,
        v.queueds,
        v.bounded,
        v.queue_word,
        moved_count is_queued,
        queued-advance-le sem s.gate ph e,
        config-advance sem s.gate ph e,
      );
      completeds =
          moved_word is_completed s.gate.completed _ v.completeds
            (completed-advance sem s.gate ph e);
      refuseds =
          moved_word is_refused s.gate.refused _ v.refuseds (refused-advance sem s.gate ph e);
      capacity_word = omega (arith, v.capacity_word, config-advance sem s.gate ph e);
      queue_word = omega (arith, v.queue_word, config-advance sem s.gate ph e);
    }
      where
        permits : count is_active s.tasks ≤ count has_permit s.tasks
        permits = count_mono is_active has_permit is_active-has_permit s.tasks

  -- One atomic operation of one task keeps the invariant.
  pub step-Inv : (s : System sem) (i : ℕ) (e : Env) → Inv s → Inv (step sem s i e)
  unfolding step
  step-Inv s i e v = elim (Option-cases (get_elem? s.tasks i)) [
    | inl none_there ↦ rw (none_there, step) v
    | inr (ph, at) ↦ rw (at, step) (moved-Inv s i ph e at v)
  ]

  pub run-Inv : (s : System sem) (schedule : List (ℕ × Env)) → Inv s → Inv (run sem s schedule)
  unfolding run
  run-Inv s [] v = v
  run-Inv s ((i, e) ∷ schedule) v = run-Inv (step sem s i e) schedule (step-Inv s i e v)

  abbrev SameShape : System sem → System sem → Type 0
  SameShape s t =
      (t.gate.capacity ≡ s.gate.capacity)
      × (t.gate.queue_max ≡ s.gate.queue_max)
      × (length t.tasks ≡ length s.tasks)

  step-SameShape : (s : System sem) (i : ℕ) (e : Env) → SameShape s (step sem s i e)
  unfolding step
  step-SameShape s i e = elim (Option-cases (get_elem? s.tasks i)) [
    | inl none_there ↦ rw (none_there, step) (refl, refl, refl)
    | inr (ph, at) ↦
        let (same_capacity, same_queue) = config-advance sem s.gate ph e in
        rw (at, step) (same_capacity, same_queue, length-set s.tasks i _)
  ]

  run-SameShape : (s : System sem) (schedule : List (ℕ × Env)) → SameShape s (run sem s schedule)
  unfolding run
  run-SameShape s [] = (refl, refl, refl)
  run-SameShape s ((i, e) ∷ schedule) =
      omega (arith, step-SameShape s i e, run-SameShape (step sem s i e) schedule)

  -- A gate before any of its `n` tasks has come.
  unfoldable pub fresh : Class → ℕ → ℕ → ℕ → ℕ → System sem
  fresh cls capacity queue_max wait n = record {
    gate = new_gate sem cls capacity queue_max wait;
    tasks = replicate n start;
  }

  module _ (cls : Class) (capacity queue_max wait n : ℕ) where
    none_yet : (p : Phase → Bool) → p start ≡ false → count p (replicate n start) ≡ 0
    none_yet p h = count-replicate p n start h

    pub fresh-Inv :
        capacity + 2 < word → queue_max < word → Inv (fresh cls capacity queue_max wait n)
    unfolding fresh new_gate has_permit is_active is_queued is_completed is_refused
    fresh-Inv small queue = record {
      conserved = omega (arith, none_yet has_permit refl, available-create (max capacity 1));
      actives = sym (none_yet is_active refl);
      queueds = sym (none_yet is_queued refl);
      bounded = omega arith;
      completeds = omega (arith, none_yet is_completed refl);
      refuseds = omega (arith, none_yet is_refused refl);
      capacity_word = omega arith;
      queue_word = queue;
    }

  -- Of any gate that was new, after any schedule: the counter `active` is the number of tasks with a
  -- permit in use, `queued` the number of tasks in the queue; neither is above its limit (a capacity
  -- of 0 counts as 1), and the permits that the semaphore has left and those with a task make up the
  -- capacity. The limits are below the largest word.
  pub run_limits :
      (cls : Class) (capacity queue_max wait n : ℕ) (schedule : List (ℕ × Env))
      → capacity + 2 < word
      → queue_max < word
      → let s = run sem (fresh cls capacity queue_max wait n) schedule in
        (s.gate.active ≡ count is_active s.tasks)
        × (s.gate.active ≤ max capacity 1)
        × (s.gate.queued ≡ count is_queued s.tasks)
        × (s.gate.queued ≤ queue_max)
        × (available s.gate.permits + count has_permit s.tasks ≡ max capacity 1)
  unfolding fresh new_gate
  run_limits cls capacity queue_max wait n schedule small queue =
      let s = fresh cls capacity queue_max wait n in
      let t = run sem s schedule in
      let v : Inv t = run-Inv s schedule (fresh-Inv cls capacity queue_max wait n small queue) in
      let fewer : count is_active t.tasks ≤ count has_permit t.tasks =
        count_mono is_active has_permit is_active-has_permit t.tasks in
      let same : SameShape s t = run-SameShape s schedule in
      omega (arith, v.conserved, v.actives, v.queueds, v.bounded, fewer, same)

  -- When all tasks are over, nothing is left behind: no permit is counted as active and no task as
  -- queued, the semaphore has all its permits back, and modulo the word each task was counted once,
  -- as completed or as refused, but for those that were cancelled in the queue.
  pub run_over :
      (cls : Class) (capacity queue_max wait n : ℕ) (schedule : List (ℕ × Env))
      → capacity + 2 < word
      → queue_max < word
      → let s = run sem (fresh cls capacity queue_max wait n) schedule in
        count is_over s.tasks ≡ n
        → (s.gate.active ≡ 0)
          × (s.gate.queued ≡ 0)
          × (available s.gate.permits ≡ max capacity 1)
          × ((s.gate.completed + s.gate.refused + count is_cancelled s.tasks) % word ≡ n % word)
  unfolding fresh new_gate
  run_over cls capacity queue_max wait n schedule small queue over =
      let s = fresh cls capacity queue_max wait n in
      let t = run sem s schedule in
      let v : Inv t = run-Inv s schedule (fresh-Inv cls capacity queue_max wait n small queue) in
      let same : SameShape s t = run-SameShape s schedule in
      let fewer : count is_active t.tasks ≤ count has_permit t.tasks =
        count_mono is_active has_permit is_active-has_permit t.tasks in
      let all : length t.tasks ≡ n = omega (arith, same, length-replicate n start) in
      omega (
        arith,
        v.conserved,
        v.actives,
        v.queueds,
        v.completeds,
        v.refuseds,
        fewer,
        same,
        all,
        over,
        count-over-le t.tasks,
      )
