-- ===== src/Cache/Writer/Pending.antt =====
-- The invariant of the writer of src/cache.rs while nothing fails, and the steps of its coordinators.
use den_atlas.Prelude.{
  ℕ, ◌+◌, ◌-◌, ◌≤◌, ◌≡◌, ◌≢◌, refl, Bool, true, false, none, some, arith, get_elem?, Bool-cases,
  inl, inr, ◌⊎◌, set-pointwise, ◌∙◌,
}
use den_atlas.Prelude.Tasks.{one_if, count, count-set, count-ge, count_unique}
use den_atlas.Prelude.Bytes.{Text}
use den_atlas.Cache.{Rows}
use den_atlas.Cache.Writer.{
  PutPhase, storing, swapping, WritePhase, sleeping, taking, writing, renaming, finished, clearing,
  checking, reclaiming, Env, System, write_step, write_partial, rename_over, set_writer,
}
use den_atlas.Cache.Writer.Owner.{
  at_most, owns, claims, OneOwner, set_writer-OneOwner, write_step-tasks,
}
use den_atlas.Cache.Writer.Snapshots.{
  Good, looks_again, FitsIn, Filed, filed, write_step-FitsIn, Moved, write_step-Moved, Fits-mono,
}

unfoldable pub is_storing : PutPhase → Bool
is_storing (storing k v) = true
is_storing ph = false

unfoldable pub is_swapping : PutPhase → Bool
is_swapping swapping = true
is_swapping ph = false

-- Who will still see to the file.
abbrev pub awake : System → ℕ
awake s =
    count owns s.writers
    + count looks_again s.writers
    + count claims s.putters
    + count is_swapping s.putters

module _ (encode : Rows → Text) where
  pub record Inv (n on_file : ℕ) (s : System) : Type 0 where
    pub one_owner : OneOwner s
    pub persists : s.cache.on_disk ≡ true
    pub stored : s.cache.generation + count is_storing s.putters ≡ n
    pub on_the_file : Filed encode on_file s
    pub snapshots :
        (j : ℕ) (ph : WritePhase) → get_elem? s.writers j ≡ some ph → FitsIn encode on_file s ph
    pub pending : (s.cache.generation ≡ on_file) ⊎ (1 ≤ awake s)

  -- Somebody is left to see to the file, when a coordinator made a step.
  write_step-pending :
      (on_file : ℕ) (s : System) (ph : WritePhase) (e : Env) (c own : ℕ)
      → Good e
      → Filed encode on_file s
      → FitsIn encode on_file s ph
      → own ≤ c
      → own + one_if (owns ph) ≡ one_if s.cache.saving
      → (s.cache.generation ≡ on_file) ⊎ (1 ≤ c + one_if (owns ph) + one_if (looks_again ph))
      → ((write_step encode s ph e).0.cache.generation ≡ filed on_file ph)
        ⊎ (1
            ≤ c
              + one_if (owns (write_step encode s ph e).1)
              + one_if (looks_again (write_step encode s ph e).1))
  unfolding write_step write_partial rename_over filed owns looks_again
  write_step-pending on_file s sleeping e c own good f h le one p = ground arith
  write_step-pending on_file s taking e c own good f h le one p = ground arith
  write_step-pending on_file s (writing b g) e c own good f h le one p = ground arith
  write_step-pending on_file s (renaming b g) e c own good f h le one p = ground arith
  write_step-pending on_file s (finished (some g)) e c own good f h le one p = ground arith
  write_step-pending on_file s (checking (some g)) e c own good f h le one p = ground arith
  write_step-pending on_file s (reclaiming g) e c own good f h le one p = ground arith
  write_step-pending on_file s (finished none) e c own good f h le one p = absurd h
  write_step-pending on_file s (clearing none) e c own good f h le one p = absurd h
  write_step-pending on_file s (checking none) e c own good f h le one p = absurd h
  write_step-pending on_file s _ e c own good f h le one p = ground arith

  write_step-on_disk :
      (s : System) (ph : WritePhase) (e : Env)
      → (write_step encode s ph e).0.cache.on_disk ≡ s.cache.on_disk
  unfolding write_step write_partial rename_over
  write_step-on_disk s sleeping e = refl
  write_step-on_disk s (finished none) e = refl
  write_step-on_disk s (finished (some g)) e = ground arith
  write_step-on_disk s (checking none) e = refl
  write_step-on_disk s (checking (some g)) e = ground arith
  write_step-on_disk s _ e = ground arith

  module _ (n on_file : ℕ) (s : System) (e : Env) (good : Good e) (v : Inv n on_file s) where
    module _ (i : ℕ) (ph : WritePhase) (at : get_elem? s.writers i ≡ some ph) where
      abbrev out : System × WritePhase
      out = write_step encode s ph e

      abbrev m : System
      m = set_writer i out

      moved : Moved encode on_file s ph out.0
      moved = write_step-Moved encode on_file s ph e good v.on_the_file (v.snapshots i ph at)

      not_owner :
          (j : ℕ) (y : WritePhase)
          → i ≢ j
          → get_elem? s.writers j ≡ some y
          → owns ph ≡ true
          → owns y ≡ false
      not_owner j y ne h is = elim (Bool-cases (owns y)) [
        | inr is_not ↦ is_not
        | inl also ↦
            absurd (ne (count_unique owns s.writers i j ph y (at_most s v.one_owner) at is h also))
      ]

      others_fit :
          (j : ℕ) (y : WritePhase)
          → i ≢ j
          → get_elem? out.0.writers j ≡ some y
          → FitsIn encode (filed on_file ph) out.0 y
      others_fit j y ne h' =
          let h = rw (write_step-tasks encode s ph e).1 at h' in
          let old = v.snapshots j y h in
          rw (moved.generation, moved.rows)
            (elim moved.files [
              | inl is ↦ Fits-mono _ _ _ _ _ _ y (not_owner j y ne h is) moved.later old
              | inr (same, on) ↦ rw (same, on) old
            ])

      snapshots :
          (j : ℕ) (y : WritePhase)
          → get_elem? m.writers j ≡ some y
          → FitsIn encode (filed on_file ph) m y
      snapshots =
          set-pointwise (FitsIn encode (filed on_file ph) out.0) out.0.writers i ph out.1
            (rw (write_step-tasks encode s ph e).1 at)
            (write_step-FitsIn encode on_file s ph e good v.on_the_file (v.snapshots i ph at))
            others_fit

      pending : (m.cache.generation ≡ filed on_file ph) ⊎ (1 ≤ awake m)
      pending =
          let owners = count owns s.writers - one_if (owns ph) in
          let again = count looks_again s.writers - one_if (looks_again ph) in
          let own = owners + count claims s.putters in
          let c = own + again + count is_swapping s.putters in
          let before = count-ge owns s.writers i ph at in
          let before' = count-ge looks_again s.writers i ph at in
          let left =
            write_step-pending on_file s ph e c own good v.on_the_file (v.snapshots i ph at)
              (omega arith) (omega (arith, v.one_owner)) (omega (arith, v.pending)) in
          let (same, same') = write_step-tasks encode s ph e in
          let now_owns = count-set owns s.writers i ph out.1 at in
          let now_looks = count-set looks_again s.writers i ph out.1 at in
          rw (same, same') (omega arith)

      pub moved-Inv : Inv n (filed on_file ph) m
      moved-Inv = record {
        one_owner = set_writer-OneOwner encode s i ph e at v.one_owner;
        persists = write_step-on_disk s ph e ∙ v.persists;
        stored = rw (moved.generation, (write_step-tasks encode s ph e).0) v.stored;
        on_the_file = moved.on_the_file;
        snapshots = snapshots;
        pending = pending;
      }
