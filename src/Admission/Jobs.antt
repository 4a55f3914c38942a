-- ===== src/Admission/Jobs.antt =====
-- src/admission.rs: how many jobs a gate lets in, from the environment.
use den_atlas.Prelude.{
  ℕ, ◌-◌, ◌*◌, ◌≤◌, ◌≡◌, Option, none, some, arith, min, max, ltb, if◌then◌else◌, saturating_mul,
}
use den_atlas.Prelude.Bytes.{Text, parse_unsigned}
use den_atlas.Admission.Permits.{Semaphore}
use den_atlas.Admission.{Gate, cpu, body, new_gate}

abbrev default_body_jobs : ℕ
default_body_jobs = 4

abbrev pub max_jobs : ℕ
max_jobs = 64

-- `WAIT`, in milliseconds.
abbrev pub wait_limit : ℕ
wait_limit = 100

-- The value of the variable, if it is set.
unfoldable pub jobs_from_env : Option Text → ℕ → ℕ
jobs_from_env none default = min default max_jobs
jobs_from_env (some value) default = elim (parse_unsigned value) [
  | none ↦ min default max_jobs
  | some jobs ↦ min (if ltb 0 jobs then jobs else default) max_jobs
]

pub record Admission (S : Type 0) : Type 0 where
  pub cpu : Gate S
  pub body : Gate S

module _ (sem : Semaphore) where
  open sem use {State}

  unfoldable pub new : ℕ → ℕ → ℕ → ℕ → ℕ → Admission State
  new cpu_jobs cpu_queue body_jobs body_queue wait = record {
    cpu = new_gate sem cpu cpu_jobs cpu_queue wait;
    body = new_gate sem body body_jobs body_queue wait;
  }

  -- `available_parallelism`, where the system tells it, and the two variables.
  unfoldable pub from_env : Option ℕ → Option Text → Option Text → Admission State
  unfolding new
  from_env parallelism cpu_jobs body_jobs =
      let visible : ℕ = elim parallelism [ none ↦ 2 | some n ↦ n ] in
      let cpu_default : ℕ = min (max (visible - 1) 1) 4 in
      let cpu : ℕ = jobs_from_env cpu_jobs cpu_default in
      let body : ℕ = jobs_from_env body_jobs default_body_jobs in
      new cpu (saturating_mul cpu 2) body (saturating_mul body 2) wait_limit

pub jobs_from_env_bounds :
    (value : Option Text) (default : ℕ)
    → 1 ≤ default
    → (1 ≤ jobs_from_env value default) × (jobs_from_env value default ≤ max_jobs)
unfolding jobs_from_env
jobs_from_env_bounds none default h = omega arith
jobs_from_env_bounds (some value) default h = ground arith

-- At least one job, at most 64, and a queue of twice the capacity.
abbrev pub Reasonable : {S : Type 0} → Gate S → Type 0
Reasonable g = (1 ≤ g.capacity) × (g.capacity ≤ max_jobs) × (g.queue_max ≡ 2 * g.capacity)

-- Whatever the environment says, each gate lets in between 1 and 64 jobs and queues twice as many.
pub from_env-Reasonable :
    (sem : Semaphore) (parallelism : Option ℕ) (cpu_jobs body_jobs : Option Text)
    → Reasonable (from_env sem parallelism cpu_jobs body_jobs).cpu
      × Reasonable (from_env sem parallelism cpu_jobs body_jobs).body
unfolding from_env new_gate
from_env-Reasonable sem parallelism cpu_jobs body_jobs = omega (arith, jobs_from_env_bounds)
