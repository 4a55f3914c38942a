-- ===== src/Admission.antt =====
-- src/admission.rs: the gates that bound the work in progress. An acquisition is the sequence of its
-- atomic operations (`advance`), one a step, so that the tasks of a gate interleave freely (`run`).
-- Counters are words of 64 bits.
pub mod Permits
pub mod Counters
pub mod Interleaving
pub mod Acquire
pub mod Jobs
mod Tests
use den_atlas.Prelude.{
  ℕ, ◌+◌, List, [], ◌∷◌, none, some, max, min, max_word, wrapping_add, wrapping_sub, saturating_mul,
  ltb, if◌then◌else◌, get_elem?, set,
}
use Permits.{Semaphore}

pub data Class : Type 0 where
  cpu body : Class

pub record Gate (S : Type 0) : Type 0 where
  pub cls : Class
  pub permits : S
  pub capacity : ℕ
  pub queue_max : ℕ
  pub wait : ℕ
  pub active : ℕ
  pub queued : ℕ
  pub refused : ℕ
  pub completed : ℕ
  pub held_micros : ℕ

-- How far a task's acquisition is, in the order of the code: `try_acquire_owned`, `Queued::enter`,
-- the timed wait, the drop of `Queued`, `Permit::new`; then the drop of the permit, field by field.
pub data Phase : Type 0 where
  start entering waiting granted lapsed abandoned obtained refusing : Phase
  holding counting timing releasing : Phase
  served turned_away cancelled : Phase

-- What the wait of a queued task comes to, if it comes to anything.
pub data Outcome : Type 0 where
  pending permit_ready elapsed closed dropped : Outcome

-- What the environment decides of a step: the outcome of a wait, and the time that a permit was held.
pub record Env : Type 0 where
  pub outcome : Outcome
  pub micros : ℕ

module _ (sem : Semaphore) where
  open sem use {State, create, try_acquire, release}

  unfoldable pub new_gate : Class → ℕ → ℕ → ℕ → Gate State
  new_gate cls capacity queue_max wait =
      let capacity' = max capacity 1 in
      record {
        cls = cls;
        permits = create capacity';
        capacity = capacity';
        queue_max = queue_max;
        wait = wait;
        active = 0;
        queued = 0;
        refused = 0;
        completed = 0;
        held_micros = 0;
      }

  -- A permit, if the semaphore has one, and then the phase `next`; otherwise the phase `other`.
  unfoldable pub take_permit : Gate State → Phase → Phase → Gate State × Phase
  take_permit g next other = elim (try_acquire g.permits) [
    | none ↦ (g, other)
    | some s ↦ (record g { permits = s }, next)
  ]

  -- `Queued::enter`
  unfoldable pub enter : Gate State → Gate State × Phase
  enter g =
      if ltb g.queued g.queue_max
      then (record g { queued = g.queued + 1 }, waiting)
      else (g, refusing)

  -- The timed wait. A future that is dropped here was cancelled.
  unfoldable pub await_permit : Gate State → Outcome → Gate State × Phase
  unfolding take_permit
  await_permit g pending = (g, waiting)
  await_permit g permit_ready = take_permit g granted waiting
  await_permit g elapsed = (g, lapsed)
  await_permit g closed = (g, lapsed)
  await_permit g dropped = (g, abandoned)

  -- The drop of `Queued`
  unfoldable pub leave : Gate State → Gate State
  leave g = record g { queued = wrapping_sub g.queued 1 }

  -- One atomic operation of a task in the given phase.
  unfoldable pub advance : Gate State → Phase → Env → Gate State × Phase
  unfolding take_permit enter await_permit leave
  advance g start e = take_permit g obtained entering
  advance g entering e = enter g
  advance g waiting e = await_permit g e.outcome
  advance g granted e = (leave g, obtained)
  advance g lapsed e = (leave g, refusing)
  advance g abandoned e = (leave g, cancelled)
  advance g obtained e = (record g { active = wrapping_add g.active 1 }, holding)
  advance g refusing e = (record g { refused = wrapping_add g.refused 1 }, turned_away)
  advance g holding e = (record g { active = wrapping_sub g.active 1 }, counting)
  advance g counting e = (record g { completed = wrapping_add g.completed 1 }, timing)
  advance g timing e =
      (record g { held_micros = wrapping_add g.held_micros (min e.micros max_word) }, releasing)
  advance g releasing e = (record g { permits = release g.permits }, served)
  advance g served e = (g, served)
  advance g turned_away e = (g, turned_away)
  advance g cancelled e = (g, cancelled)

  pub record System : Type 0 where
    pub gate : Gate State
    pub tasks : List Phase

  -- Task `i` does its next atomic operation.
  unfoldable pub step : System → ℕ → Env → System
  step s i e = elim (get_elem? s.tasks i) [
    | none ↦ s
    | some ph ↦ record {
      gate = (advance s.gate ph e).0;
      tasks = set s.tasks i (advance s.gate ph e).1;
    }
  ]

  unfoldable pub run : System → List (ℕ × Env) → System
  run s [] = s
  run s ((i, e) ∷ schedule) = run (step s i e) schedule
