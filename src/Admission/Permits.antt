-- ===== src/Admission/Permits.antt =====
-- The semaphore that admission.rs takes from tokio, as an interface: a number of permits that an
-- acquisition takes one of, and that a dropped permit goes back to. A permit that a waiter is handed
-- is no longer available to others.
use den_atlas.Prelude.{ℕ, suc, ◌≡◌, Option, none, some}

pub record Semaphore : Type 1 where
  pub State : Type 0
  -- `Semaphore::new`
  pub create : ℕ → State
  -- `available_permits`
  pub available : State → ℕ
  -- `try_acquire_owned`; also the acquisition of a waiter whose turn it is
  pub try_acquire : State → Option State
  -- the drop of an `OwnedSemaphorePermit`
  pub release : State → State
  pub available-create : (n : ℕ) → available (create n) ≡ n
  pub available-try_acquire :
      (s t : State) → try_acquire s ≡ some t → available s ≡ suc (available t)
  pub try_acquire_empty : (s : State) → try_acquire s ≡ none → available s ≡ 0
  pub available-release : (s : State) → available (release s) ≡ suc (available s)
