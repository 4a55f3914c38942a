-- ===== src/Admission/Tests.antt =====
-- Runs of the gates of src/admission.rs on small inputs.
use den_atlas.Prelude.{
  ℕ, zero, suc, ◌++◌, ◌+◌, ◌%◌, ◌≤◌, ◌≡◌, refl, List, [], ◌∷◌, Option, none, some, arith, word,
}
use den_atlas.Prelude.Bytes.{codes, parse_unsigned, parse_digits}
use den_atlas.Prelude.Tasks.{count}
use den_atlas.Admission.Permits.{Semaphore}
use den_atlas.Admission.{
  Gate, Env, cpu, pending, permit_ready, elapsed, new_gate, advance, step, run,
}
use den_atlas.Admission.Counters.{has_permit, is_active, is_queued, is_cancelled, is_over}
use den_atlas.Admission.Interleaving.{fresh, run_limits, run_over}
use den_atlas.Admission.Jobs.{jobs_from_env}

-- A semaphore that is the number of its permits.
abbrev take_one : ℕ → Option ℕ
take_one zero = none
take_one (suc n) = some n

take_one-some : (s t : ℕ) → take_one s ≡ some t → s ≡ suc t
take_one-some zero t e = ground arith
take_one-some (suc s) t e = ground arith

take_one-none : (s : ℕ) → take_one s ≡ none → s ≡ 0
take_one-none zero e = refl
take_one-none (suc s) e = ground arith

abbrev counter : Semaphore
counter = record {
  State = ℕ;
  create = λ n. n;
  available = λ n. n;
  try_acquire = take_one;
  release = suc;
  available-create = λ n. refl;
  available-try_acquire = take_one-some;
  try_acquire_empty = take_one-none;
  available-release = λ s. refl;
}

abbrev calm : Env
calm = record { outcome = pending; micros = 5 }

abbrev ready : Env
ready = record calm { outcome = permit_ready }

abbrev late : Env
late = record calm { outcome = elapsed }

abbrev turns : ℕ → ℕ → List (ℕ × Env)
turns zero i = []
turns (suc k) i = (i, calm) ∷ turns k i

-- One permit and one place in the queue for three tasks: the first takes the permit, the second
-- waits, the third is turned away; then the first is done and the second is served.
abbrev schedule : List (ℕ × Env)
schedule = turns 2 0 ++ turns 2 1 ++ turns 3 2 ++ turns 5 0 ++ (1, ready) ∷ turns 7 1

schedule-run :
    let s = run counter (fresh counter cpu 1 1 100 3) schedule in
    (s.gate.completed ≡ 2) × (s.gate.refused ≡ 1) × (s.gate.held_micros ≡ 10)
unfolding run step fresh new_gate advance
schedule-run = (refl, refl, refl)

run_limits_example :
    let s = run counter (fresh counter cpu 1 1 100 3) schedule in
    (s.gate.active ≡ count is_active s.tasks)
    × (s.gate.active ≤ 1)
    × (s.gate.queued ≡ count is_queued s.tasks)
    × (s.gate.queued ≤ 1)
    × (s.gate.permits + count has_permit s.tasks ≡ 1)
run_limits_example = run_limits counter cpu 1 1 100 3 schedule (omega arith) (omega arith)

run_over_example :
    let s = run counter (fresh counter cpu 1 1 100 3) schedule in
    (s.gate.active ≡ 0)
    × (s.gate.queued ≡ 0)
    × (s.gate.permits ≡ 1)
    × ((s.gate.completed + s.gate.refused + count is_cancelled s.tasks) % word ≡ 3)
unfolding run step fresh new_gate advance count is_over
run_over_example = run_over counter cpu 1 1 100 3 schedule (omega arith) (omega arith) refl

abbrev busy_gate : Gate ℕ
busy_gate = record {
  cls = cpu;
  permits = 0;
  capacity = 1;
  queue_max = 2;
  wait = 100;
  active = 1;
  queued = 1;
  refused = 0;
  completed = 0;
  held_micros = 0;
}

jobs_from_env_tests :
    (jobs_from_env (some (codes "12")) 4 ≡ 12)
    × (jobs_from_env (some (codes "0")) 4 ≡ 4)
    × (jobs_from_env (some (codes "-1")) 4 ≡ 4)
    × (jobs_from_env (some (codes "1000")) 4 ≡ 64)
unfolding jobs_from_env parse_unsigned parse_digits
jobs_from_env_tests = (refl, refl, refl, refl)
