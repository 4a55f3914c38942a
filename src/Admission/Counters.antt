-- ===== src/Admission/Counters.antt =====
-- The phases that the counters of a gate count, and what one atomic operation does to each counter.
use den_atlas.Prelude.{
  ℕ, ◌+◌, ◌%◌, ◌≤◌, ◌<◌, ◌≡◌, Bool, true, false, arith, word, Option-cases, inl, inr, List, [], ◌∷◌,
  length,
}
use den_atlas.Prelude.Tasks.{one_if, count}
use den_atlas.Admission.Permits.{Semaphore}
use den_atlas.Admission.{
  Gate, Phase, Env, start, entering, waiting, granted, lapsed, abandoned, obtained, holding,
  counting, timing, releasing, served, turned_away, cancelled, advance, take_permit, enter,
  await_permit, leave,
}

-- A permit of the semaphore is with the task.
unfoldable pub has_permit : Phase → Bool
has_permit granted = true
has_permit obtained = true
has_permit holding = true
has_permit counting = true
has_permit timing = true
has_permit releasing = true
has_permit ph = false

-- The task is in the count `active`: it has a `Permit`.
unfoldable pub is_active : Phase → Bool
is_active holding = true
is_active ph = false

-- The task is in the count `queued`: it has a `Queued`.
unfoldable pub is_queued : Phase → Bool
is_queued waiting = true
is_queued granted = true
is_queued lapsed = true
is_queued abandoned = true
is_queued ph = false

unfoldable pub is_completed : Phase → Bool
is_completed timing = true
is_completed releasing = true
is_completed served = true
is_completed ph = false

unfoldable pub is_refused : Phase → Bool
is_refused turned_away = true
is_refused ph = false

unfoldable pub is_cancelled : Phase → Bool
is_cancelled cancelled = true
is_cancelled ph = false

-- The task has nothing left to do.
unfoldable pub is_over : Phase → Bool
is_over served = true
is_over turned_away = true
is_over cancelled = true
is_over ph = false

pub is_active-has_permit : (ph : Phase) → one_if (is_active ph) ≤ one_if (has_permit ph)
unfolding is_active has_permit
is_active-has_permit start = omega arith
is_active-has_permit _ = omega arith

-- A task that is over is in none of the counts of those at work, and in one of the three of the rest.
Settled : Phase → Type 0
unfolding is_over has_permit is_queued is_completed is_refused is_cancelled
Settled ph =
    (one_if (is_over ph) + one_if (has_permit ph) ≤ 1)
    × (one_if (is_over ph) + one_if (is_queued ph) ≤ 1)
    × (one_if (is_over ph)
        ≤ one_if (is_completed ph) + one_if (is_refused ph) + one_if (is_cancelled ph))
    × (one_if (is_completed ph) + one_if (is_refused ph) + one_if (is_cancelled ph) ≤ 1)

every-Settled : (ph : Phase) → Settled ph
unfolding Settled
every-Settled start = omega arith
every-Settled _ = omega arith

pub count-over-le :
    (xs : List Phase)
    → (count is_over xs + count has_permit xs ≤ length xs)
      × (count is_over xs + count is_queued xs ≤ length xs)
      × (count is_over xs ≤ count is_completed xs + count is_refused xs + count is_cancelled xs)
      × (count is_completed xs + count is_refused xs + count is_cancelled xs ≤ length xs)
unfolding count Settled
count-over-le [] = omega arith
count-over-le (x ∷ xs) = omega (arith, every-Settled x, count-over-le xs)

module _ (sem : Semaphore) where
  open sem use {State, available, try_acquire, available-try_acquire, available-release}

  -- Permits are neither made nor lost: what the semaphore has and what the task has adds up.
  pub available-advance :
      (g : Gate State) (ph : Phase) (e : Env)
      → available (advance sem g ph e).0.permits + one_if (has_permit (advance sem g ph e).1)
        ≡ available g.permits + one_if (has_permit ph)
  unfolding advance take_permit enter await_permit has_permit
  available-advance g start e = elim (Option-cases (try_acquire g.permits)) [
    | inl p ↦ ground arith
    | inr (s, p) ↦ ground (arith, available-try_acquire g.permits s p)
  ]
  available-advance g waiting e = elim (Option-cases (try_acquire g.permits)) [
    | inl p ↦ ground arith
    | inr (s, p) ↦ ground (arith, available-try_acquire g.permits s p)
  ]
  available-advance g releasing e = omega (arith, available-release g.permits)
  available-advance g entering e = ground arith
  available-advance g _ e = ground arith

  -- `active` never wraps round while it counts one task and leaves room for one more.
  pub active-advance :
      (g : Gate State) (ph : Phase) (e : Env)
      → one_if (is_active ph) ≤ g.active
      → g.active + 1 < word
      → (advance sem g ph e).0.active + one_if (is_active ph)
        ≡ g.active + one_if (is_active (advance sem g ph e).1)
  unfolding advance take_permit enter await_permit leave is_active
  active-advance g start e lo hi = ground arith
  active-advance g waiting e lo hi = ground arith
  active-advance g entering e lo hi = ground arith
  active-advance g _ e lo hi = ground arith

  -- Nor does `queued`.
  pub queued-advance :
      (g : Gate State) (ph : Phase) (e : Env)
      → one_if (is_queued ph) ≤ g.queued
      → g.queued < word
      → (advance sem g ph e).0.queued + one_if (is_queued ph)
        ≡ g.queued + one_if (is_queued (advance sem g ph e).1)
  unfolding advance take_permit enter await_permit leave is_queued
  queued-advance g start e lo hi = ground arith
  queued-advance g waiting e lo hi = ground arith
  queued-advance g entering e lo hi = ground arith
  queued-advance g _ e lo hi = ground arith

  pub queued-advance-le :
      (g : Gate State) (ph : Phase) (e : Env)
      → one_if (is_queued ph) ≤ g.queued
      → g.queued ≤ g.queue_max
      → g.queued < word
      → (advance sem g ph e).0.queued ≤ g.queue_max
  unfolding advance take_permit enter await_permit leave is_queued
  queued-advance-le g start e lo hi w = ground arith
  queued-advance-le g waiting e lo hi w = ground arith
  queued-advance-le g entering e lo hi w = ground arith
  queued-advance-le g _ e lo hi w = ground arith

  -- The two counts of what has ended go up with the tasks that end, modulo the word.
  pub completed-advance :
      (g : Gate State) (ph : Phase) (e : Env) (n : ℕ)
      → g.completed ≡ (n + one_if (is_completed ph)) % word
      → (advance sem g ph e).0.completed ≡ (n + one_if (is_completed (advance sem g ph e).1)) % word
  unfolding advance take_permit enter await_permit leave is_completed
  completed-advance g start e n h = ground arith
  completed-advance g waiting e n h = ground arith
  completed-advance g entering e n h = ground arith
  completed-advance g _ e n h = ground arith

  pub refused-advance :
      (g : Gate State) (ph : Phase) (e : Env) (n : ℕ)
      → g.refused ≡ (n + one_if (is_refused ph)) % word
      → (advance sem g ph e).0.refused ≡ (n + one_if (is_refused (advance sem g ph e).1)) % word
  unfolding advance take_permit enter await_permit leave is_refused
  refused-advance g start e n h = ground arith
  refused-advance g waiting e n h = ground arith
  refused-advance g entering e n h = ground arith
  refused-advance g _ e n h = ground arith

  -- What the gate is configured with stays.
  pub config-advance :
      (g : Gate State) (ph : Phase) (e : Env)
      → ((advance sem g ph e).0.capacity ≡ g.capacity)
        × ((advance sem g ph e).0.queue_max ≡ g.queue_max)
  unfolding advance take_permit enter await_permit leave
  config-advance g start e = ground arith
  config-advance g waiting e = ground arith
  config-advance g entering e = ground arith
  config-advance g _ e = ground arith
