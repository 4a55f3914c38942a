-- ===== src/Admission/Acquire.antt =====
-- One acquisition of src/admission.rs alone: that it ends, and how.
use den_atlas.Prelude.{
  ◌≡◌, List, [], ◌∷◌, wrapping_add, wrapping_sub, ◌+◌, min, max_word, ltb, if◌then◌else◌,
}
use den_atlas.Admission.Permits.{Semaphore}
use den_atlas.Admission.{
  Gate, Phase, Outcome, Env, served, turned_away, cancelled, dropped, advance,
}

module _ (sem : Semaphore) where
  open sem use {
    State, available, try_acquire, try_acquire_empty, release, available-try_acquire,
    available-release,
  }

  -- A task that makes its operations alone.
  unfoldable pub solo : Gate State → Phase → List Env → Gate State × Phase
  solo g ph [] = (g, ph)
  solo g ph (e ∷ es) = solo (advance sem g ph e).0 (advance sem g ph e).1 es

  -- Active and queued as before, and as many permits.
  abbrev pub Settled : Gate State → Gate State → Type 0
  Settled g g' =
      (g'.active ≡ g.active) × (g'.queued ≡ g.queued) × (available g'.permits ≡ available g.permits)

  -- How the end of a task is counted.
  abbrev pub Tallied : Phase → Gate State → Gate State → Type 0
  Tallied served g g' = (g'.completed ≡ wrapping_add g.completed 1) × (g'.refused ≡ g.refused)
  Tallied turned_away g g' = (g'.completed ≡ g.completed) × (g'.refused ≡ wrapping_add g.refused 1)
  Tallied cancelled g g' = (g'.completed ≡ g.completed) × (g'.refused ≡ g.refused)
  Tallied ph g g' = ⊥

  -- A task that waited in vain.
  abbrev pub after_wait : Outcome → Phase
  after_wait dropped = cancelled
  after_wait outcome = turned_away

  abbrev pub end_of : Gate State → Env → Phase
  end_of g e =
      if ltb 0 (available g.permits)
      then served
      else if ltb g.queued g.queue_max
      then after_wait e.outcome
      else turned_away

  abbrev Ends : Gate State → Env → Gate State × Phase → Type 0
  Ends g late r = (r.1 ≡ end_of g late) × Settled g r.0 × Tallied (end_of g late) g r.0

  abbrev served_gate : Gate State → State → Env → Gate State
  served_gate g s e = record g {
    permits = release s;
    active = wrapping_sub (wrapping_add g.active 1) 1;
    completed = wrapping_add g.completed 1;
    held_micros = wrapping_add g.held_micros (min e.micros max_word);
  }

  abbrev waited_gate : Gate State → Gate State
  waited_gate g = record g { queued = wrapping_sub (g.queued + 1) 1 }
