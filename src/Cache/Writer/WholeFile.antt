-- ===== src/Cache/Writer/WholeFile.antt =====
-- What is in the file of src/cache.rs at any moment, so also after a crash.
use den_atlas.Prelude.{
  ℕ, ◌≤◌, ◌<◌, ◌≡◌, ◌≢◌, refl, ◌∙◌, ap, Bool, true, false, List, [], ◌∷◌, ◌++◌, Option, some, arith,
  get_elem?, if◌then◌else◌, Option-cases, Bool-cases, inl, inr, ◌⊎◌, length, set-pointwise,
  append-pointwise,
}
use den_atlas.Prelude.Tasks.{count, count_unique}
use den_atlas.Prelude.Bytes.{Text}
use den_atlas.Cache.{Rows, TtlCache, put}
use den_atlas.Cache.Eviction.{NoRepeats, put_row-bounded}
use den_atlas.Cache.Writer.{
  PutPhase, storing, swapping, spawning, done, WritePhase, sleeping, Env, System, put_step,
  write_step, Turn, putter, writer, step, run, set_writer, set_putter,
}
use den_atlas.Cache.Writer.Owner.{
  at_most, claims, count-owns-nil, none_there, owns, OneOwner, set_writer-OneOwner,
  set_putter-OneOwner, write_step-tasks,
}
use den_atlas.Cache.Writer.Operations.{Kept, Inv, Holds, write_step-Kept, Holds-other}

module _ (encode : Rows → Text) (cap : ℕ) (start : Option Text) where
  module _ (s : System) (e : Env) (v : Inv encode cap start s) (i : ℕ) where
    module _ (ph : WritePhase) (at : get_elem? s.writers i ≡ some ph) where
      abbrev out : System × WritePhase
      out = write_step encode s ph e

      kept : Kept encode cap start s out.0 ph out.1
      kept = write_step-Kept encode cap start s ph e v (v.holds i ph at)

      others_hold :
          (j : ℕ) (y : WritePhase)
          → i ≢ j
          → get_elem? out.0.writers j ≡ some y
          → Holds encode cap start out.0.partial y
      others_hold j y ne h' =
          let h = rw (write_step-tasks encode s ph e).1 at h' in
          elim kept.files [
            | inl is ↦ elim (Bool-cases (owns y)) [
              | inr not_owner ↦ Holds-other encode cap start out.0.partial y not_owner
              | inl also ↦ absurd (
                  ne (
                    count_unique owns s.writers i j ph y (omega (arith, at_most s v.one_owner)) at
                      is h also))
            ]
            | inr same ↦ rw same (v.holds j y h)
          ]

      writer-Inv : Inv encode cap start (set_writer i out)
      writer-Inv = record {
        one_owner = set_writer-OneOwner encode s i ph e at v.one_owner;
        limit = kept.limit ∙ v.limit;
        bounded = rw kept.rows v.bounded;
        no_repeats = rw kept.rows v.no_repeats;
        holds =
            set-pointwise (Holds encode cap start out.0.partial) out.0.writers i ph out.1
              (rw (write_step-tasks encode s ph e).1 at) kept.next others_hold;
        whole = elim kept.whole [ inl same ↦ rw same v.whole | inr w ↦ inr w ];
      }

    -- A task that stores a row leaves the files alone.
    module _ (some_room : 0 < cap) where
      changed :
          (c : TtlCache) (ws : List WritePhase) (ps : List PutPhase)
          → OneOwner (record s { cache = c; writers = ws; putters = ps })
          → c.max_entries ≡ s.cache.max_entries
          → (length c.map ≤ cap) × NoRepeats c.map
          → ((j : ℕ) (ph : WritePhase)
              → get_elem? ws j ≡ some ph
              → Holds encode cap start s.partial ph)
          → Inv encode cap start (record s { cache = c; writers = ws; putters = ps })
      changed c ws ps one same rows holds = record {
        one_owner = one;
        limit = same ∙ v.limit;
        bounded = rows.0;
        no_repeats = rows.1;
        holds = holds;
        whole = v.whole;
      }

      put_rows :
          (key value : Text)
          → (length (put s.cache key value e.now).map ≤ cap)
            × NoRepeats (put s.cache key value e.now).map
      unfolding put
      put_rows key value =
          rw v.limit
            (put_row-bounded cap s.cache.map key value e.now v.no_repeats some_room v.bounded)

      old : (length s.cache.map ≤ cap) × NoRepeats s.cache.map
      old = (v.bounded, v.no_repeats)

      swap-Inv :
          (on_disk saving : Bool)
          → let flagged = record s { cache = record (s.cache) { saving = true } } in
            let out : System × PutPhase =
              (if on_disk
                then (if saving then (s, done) else (flagged, spawning))
                else (s, done)) in
            OneOwner (set_putter i out) → Inv encode cap start (set_putter i out)
      swap-Inv true true one = changed s.cache s.writers _ one refl old v.holds
      swap-Inv true false one = changed _ s.writers _ one refl old v.holds
      swap-Inv false saving one = changed s.cache s.writers _ one refl old v.holds

      spawn-Inv :
          (runtime : Bool)
          → let spawned = record s { writers = s.writers ++ sleeping ∷ [] } in
            let cleared = record s { cache = record (s.cache) { saving = false } } in
            let out : System × PutPhase = (if runtime then (spawned, done) else (cleared, done)) in
            OneOwner (set_putter i out) → Inv encode cap start (set_putter i out)
      spawn-Inv true one =
          changed s.cache _ _ one refl old
            (append-pointwise (Holds encode cap start s.partial) s.writers sleeping tt v.holds)
      spawn-Inv false one = changed _ s.writers _ one refl old v.holds

      put_cases :
          (ph : PutPhase)
          → OneOwner (set_putter i (put_step encode s ph e))
          → Inv encode cap start (set_putter i (put_step encode s ph e))
      unfolding put_step put
      put_cases (storing k value) one = changed _ s.writers _ one refl (put_rows k value) v.holds
      put_cases swapping one = swap-Inv s.cache.on_disk s.cache.saving one
      put_cases spawning one = spawn-Inv e.runtime one
      put_cases done one = changed s.cache s.writers _ one refl old v.holds

  step-Inv :
      (s : System) (t : Turn) (e : Env)
      → 0 < cap
      → Inv encode cap start s
      → Inv encode cap start (step encode s t e)
  unfolding step
  step-Inv s (putter i) e room v = elim (Option-cases (get_elem? s.putters i)) [
    | inl p ↦ rw (p, step) v
    | inr (ph, at) ↦
        rw (at, step)
          (put_cases s e v i room ph (set_putter-OneOwner encode s i ph e at v.one_owner))
  ]
  step-Inv s (writer i) e room v = elim (Option-cases (get_elem? s.writers i)) [
    | inl p ↦ rw (p, step) v
    | inr (ph, at) ↦ rw (at, step) (writer-Inv s e v i ph at)
  ]

  run-Inv :
      (s : System) (schedule : List (Turn × Env))
      → 0 < cap
      → Inv encode cap start s
      → Inv encode cap start (run encode s schedule)
  unfolding run
  run-Inv s [] room v = v
  run-Inv s ((t, e) ∷ schedule) room v =
      run-Inv (step encode s t e) schedule room (step-Inv s t e room v)

-- A crash at any moment of any run leaves the file as it was at the start, or holding all of some
-- rows, at most as many as the cache may hold and no key twice: never a part of them. Every kind of
-- failure is in the run: of a write, which leaves the file beside cut short, of the rename, a panic of
-- the writer's task, a process with no runtime. The run starts with no coordinator, a cache within its
-- limit, and a limit above 0.
pub run_whole_file :
    (encode : Rows → Text) (s : System) (schedule : List (Turn × Env))
    → 0 < s.cache.max_entries
    → length s.cache.map ≤ s.cache.max_entries
    → NoRepeats s.cache.map
    → s.writers ≡ []
    → s.cache.saving ≡ false
    → count claims s.putters ≡ 0
    → ((run encode s schedule).file ≡ s.file)
      ⊎ ((m : Rows) × ((run encode s schedule).file ≡ some (encode m))
          × (length m ≤ s.cache.max_entries)
          × NoRepeats m)
run_whole_file encode s schedule room fits d quiet free none_claims =
    let cap = s.cache.max_entries in
    let v : Inv encode cap s.file s = record {
      one_owner = rw (quiet, free) (omega (arith, count-owns-nil));
      limit = refl;
      bounded = fits;
      no_repeats = d;
      holds = λ j ph h. absurd (none_there j ph (rw quiet at h));
      whole = inl refl;
    } in
    elim (run-Inv encode cap s.file s schedule room v).whole [
      | inl same ↦ inl same
      | inr (b, on_file, (m, all, few, unique)) ↦ inr (m, on_file ∙ ap some all, few, unique)
    ]
