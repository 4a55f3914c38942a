-- ===== src/Cache/Writer.antt =====
-- src/cache.rs, the writer of `TtlCache`: `save`, the coordinator that it spawns, and
-- `write_atomically`, as a machine. The tasks that call `put` and the coordinators share the cache and
-- the two files, and each step is one atomic operation of one of them, in any order.
pub mod Owner
pub mod Snapshots
pub mod Pending
pub mod Putters
pub mod Settles
pub mod Operations
pub mod WholeFile
use den_atlas.Prelude.{
  ℕ, ◌+◌, Bool, true, false, List, [], ◌∷◌, ◌++◌, Option, none, some, ◌==◌, if◌then◌else◌, length,
  get_elem?, set, take, wrapping_add,
}
use den_atlas.Prelude.Bytes.{Text}
use den_atlas.Cache.{Rows, TtlCache, put}

-- A task that calls `put`: it has the lock and stores; it swaps `saving`; it spawns a coordinator.
pub data PutPhase : Type 0 where
  storing : Text → Text → PutPhase
  swapping spawning done : PutPhase

-- A coordinator, in the order of its loop. Two of its phases carry the serialized rows and the
-- generation that they were read at; later ones carry what the write returned, `none` for a panic.
pub data WritePhase : Type 0 where
  sleeping taking : WritePhase
  writing renaming : Text → ℕ → WritePhase
  counting : ℕ → ℕ → WritePhase
  failed : ℕ → WritePhase
  aborted : WritePhase
  finished clearing checking : Option ℕ → WritePhase
  reclaiming : ℕ → WritePhase
  stopped : WritePhase

-- How an operation on the file system, or the blocking task around it, goes.
pub data Outcome : Type 0 where
  succeeds panics : Outcome
  -- an error; of a write, after this many bytes
  fails : ℕ → Outcome

-- What a step takes from outside: the clocks, whether there is a runtime, and the outcome.
pub record Env : Type 0 where
  pub now : ℕ
  pub elapsed_ms : ℕ
  pub runtime : Bool
  pub outcome : Outcome

pub record System : Type 0 where
  pub cache : TtlCache
  pub putters : List PutPhase
  pub writers : List WritePhase
  pub file : Option Text
  pub partial : Option Text

-- Which task is next.
pub data Turn : Type 0 where
  putter writer : ℕ → Turn

abbrev pub set_putter : ℕ → System × PutPhase → System
set_putter i out = record (out.0) { putters = set out.0.putters i out.1 }

abbrev pub set_writer : ℕ → System × WritePhase → System
set_writer i out = record (out.0) { writers = set out.0.writers i out.1 }

-- `encode` is `serde_json::to_vec`.
module _ (encode : Rows → Text) where
  -- An operation of `put`, then of `save`.
  unfoldable pub put_step : System → PutPhase → Env → System × PutPhase
  put_step s (storing key value) e = (record s { cache = put s.cache key value e.now }, swapping)
  put_step s swapping e =
      if s.cache.on_disk
      then (if s.cache.saving
          then (s, done)
          else (record s { cache = record (s.cache) { saving = true } }, spawning))
      else (s, done)
  put_step s spawning e =
      if e.runtime
      then (record s { writers = s.writers ++ sleeping ∷ [] }, done)
      else (record s { cache = record (s.cache) { saving = false } }, done)
  put_step s done e = (s, done)

  -- `write_atomically`: first the file beside, then the rename over the file.
  unfoldable pub write_partial : System → Text → ℕ → Outcome → System × WritePhase
  write_partial s body g succeeds = (record s { partial = some body }, renaming body g)
  write_partial s body g (fails n) = (record s { partial = some (take n body) }, failed g)
  write_partial s body g panics = (s, aborted)

  unfoldable pub rename_over : System → Text → ℕ → Outcome → System × WritePhase
  rename_over s body g succeeds =
      (record s { file = s.partial; partial = none }, counting (length body) g)
  rename_over s body g (fails n) = (s, failed g)
  rename_over s body g panics = (s, aborted)

  abbrev add_error : TtlCache → TtlCache
  add_error c = record c { errors = wrapping_add c.errors 1 }

  -- An operation of a coordinator.
  unfoldable pub write_step : System → WritePhase → Env → System × WritePhase
  unfolding write_partial rename_over
  write_step s sleeping e = (s, taking)
  write_step s taking e = elim e.outcome [
    | succeeds ↦ (s, writing (encode s.cache.map) s.cache.generation)
    | fails n ↦ (s, failed s.cache.generation)
    | panics ↦ (s, aborted)
  ]
  write_step s (writing body g) e = write_partial s body g e.outcome
  write_step s (renaming body g) e = rename_over s body g e.outcome
  write_step s (counting n g) e = (
    record s {
      cache = record (s.cache) {
        writes = wrapping_add s.cache.writes 1;
        bytes = wrapping_add s.cache.bytes n;
        last_write_ms = e.elapsed_ms;
      };
    },
    finished (some g),
  )
  write_step s (failed g) e = (record s { cache = add_error s.cache }, finished (some g))
  write_step s aborted e = (record s { cache = add_error s.cache }, finished none)
  write_step s (finished none) e = (s, clearing none)
  write_step s (finished (some g)) e =
      if s.cache.generation == g then (s, clearing (some g)) else (s, sleeping)
  write_step s (clearing w) e =
      (record s { cache = record (s.cache) { saving = false } }, checking w)
  write_step s (checking none) e = (s, stopped)
  write_step s (checking (some g)) e =
      if s.cache.generation == g then (s, stopped) else (s, reclaiming g)
  write_step s (reclaiming g) e =
      if s.cache.saving
      then (s, stopped)
      else (record s { cache = record (s.cache) { saving = true } }, sleeping)
  write_step s stopped e = (s, stopped)

  unfoldable pub step : System → Turn → Env → System
  step s (putter i) e = elim (get_elem? s.putters i) [
    | none ↦ s
    | some ph ↦ set_putter i (put_step s ph e)
  ]
  step s (writer i) e = elim (get_elem? s.writers i) [
    | none ↦ s
    | some ph ↦ set_writer i (write_step s ph e)
  ]

  unfoldable pub run : System → List (Turn × Env) → System
  run s [] = s
  run s ((t, e) ∷ schedule) = run (step s t e) schedule
