-- ===== src/Cache/Writer/Putters.antt =====
-- The steps of the tasks of src/cache.rs that store a row, while nothing fails.
use den_atlas.Prelude.{
  ℕ, ◌+◌, ◌%◌, ◌<◌, ◌≡◌, refl, true, false, [], ◌∷◌, ◌++◌, some, arith, get_elem?, Bool-cases, inl,
  inr, word, append-pointwise,
}
use den_atlas.Prelude.Tasks.{count-set, count-ge, count-append}
use den_atlas.Prelude.Bytes.{Text}
use den_atlas.Cache.{Rows, put}
use den_atlas.Cache.Writer.{
  PutPhase, storing, swapping, spawning, done, sleeping, Env, System, put_step, set_putter,
}
use den_atlas.Cache.Writer.Owner.{owns, claims, OneOwner, set_putter-OneOwner, count-sleeping}
use den_atlas.Cache.Writer.Snapshots.{Good, FitsIn, Fits-later}
use den_atlas.Cache.Writer.Pending.{Inv, is_storing, is_swapping}

module _ (encode : Rows → Text) where
  module _ (n on_file : ℕ) (s : System) (e : Env) (good : Good e) (v : Inv encode n on_file s) where
    -- The step of a task that calls `put`, phase by phase.
    module _ (small : n < word) (i : ℕ) where
      storing-Inv :
          (k value : Text)
          → get_elem? s.putters i ≡ some (storing k value)
          → Inv encode n on_file (set_putter i (put_step encode s (storing k value) e))
      unfolding put_step put is_storing is_swapping
      storing-Inv k value at =
          let ph = storing k value in
          let latest = s.cache.generation in
          let some_left = count-ge is_storing s.putters i ph at in
          let one_less = count-set is_storing s.putters i ph swapping at in
          let one_more = count-set is_swapping s.putters i ph swapping at in
          let gen : (latest + 1) % word ≡ latest + 1 = omega (arith, v.stored) in
          record {
            one_owner = set_putter-OneOwner encode s i ph e at v.one_owner;
            persists = v.persists;
            stored = rw gen (omega (arith, v.stored));
            on_the_file =
                rw gen (omega (arith, v.on_the_file), λ q. absurd (omega (arith, v.on_the_file)));
            snapshots = λ j y h. rw gen (
                Fits-later on_file latest (encode s.cache.map) _ s.partial y v.on_the_file.0
                  (v.snapshots j y h));
            pending = inr (omega arith);
          }

      -- The flag was set: its owner will write the row.
      taken-Inv :
          get_elem? s.putters i ≡ some swapping
          → s.cache.saving ≡ true
          → OneOwner (set_putter i (s, done))
          → Inv encode n on_file (set_putter i (s, done))
      unfolding is_storing is_swapping claims
      taken-Inv at taken one =
          let storers = count-set is_storing s.putters i swapping done at in
          record {
            one_owner = one;
            persists = v.persists;
            stored = omega (arith, v.stored);
            on_the_file = v.on_the_file;
            snapshots = v.snapshots;
            pending = inr (ground (arith, one));
          }

      -- The flag was free: this task has it now.
      abbrev flagged : System
      flagged = record s { cache = record (s.cache) { saving = true } }

      free-Inv :
          get_elem? s.putters i ≡ some swapping
          → OneOwner (set_putter i (flagged, spawning))
          → Inv encode n on_file (set_putter i (flagged, spawning))
      unfolding is_storing is_swapping claims
      free-Inv at one =
          let storers = count-set is_storing s.putters i swapping spawning at in
          let claimers = count-set claims s.putters i swapping spawning at in
          record {
            one_owner = one;
            persists = v.persists;
            stored = omega (arith, v.stored);
            on_the_file = v.on_the_file;
            snapshots = v.snapshots;
            pending = inr (omega arith);
          }

      abbrev spawned : System
      spawned = record s { writers = s.writers ++ sleeping ∷ [] }

      spawning-Inv :
          get_elem? s.putters i ≡ some spawning
          → OneOwner (set_putter i (spawned, done))
          → Inv encode n on_file (set_putter i (spawned, done))
      unfolding is_storing is_swapping claims
      spawning-Inv at one =
          let storers = count-set is_storing s.putters i spawning done at in
          let owners = count-append owns s.writers (sleeping ∷ []) in
          record {
            one_owner = one;
            persists = v.persists;
            stored = omega (arith, v.stored);
            on_the_file = v.on_the_file;
            snapshots =
                append-pointwise (FitsIn encode on_file s) s.writers sleeping tt v.snapshots;
            pending = inr (omega (arith, count-sleeping));
          }

      done-Inv :
          get_elem? s.putters i ≡ some done
          → OneOwner (set_putter i (s, done))
          → Inv encode n on_file (set_putter i (s, done))
      done-Inv at one =
          let storers = count-set is_storing s.putters i done done at in
          let claimers = count-set claims s.putters i done done at in
          let swappers = count-set is_swapping s.putters i done done at in
          record {
            one_owner = one;
            persists = v.persists;
            stored = omega (arith, v.stored);
            on_the_file = v.on_the_file;
            snapshots = v.snapshots;
            pending = omega (arith, v.pending);
          }

      swap_taken : s.cache.saving ≡ true → put_step encode s swapping e ≡ (s, done)
      unfolding put_step
      swap_taken h = rw (v.persists, h)

      swap_free : s.cache.saving ≡ false → put_step encode s swapping e ≡ (flagged, spawning)
      unfolding put_step
      swap_free h = rw (v.persists, h)

      spawn : put_step encode s spawning e ≡ (spawned, done)
      unfolding put_step
      spawn = rw good.1

      rest : put_step encode s done e ≡ (s, done)
      unfolding put_step
      rest = refl

      pub putter-Inv :
          (ph : PutPhase)
          → get_elem? s.putters i ≡ some ph
          → Inv encode n on_file (set_putter i (put_step encode s ph e))
      putter-Inv (storing k value) at = storing-Inv k value at
      putter-Inv swapping at =
          let one = set_putter-OneOwner encode s i swapping e at v.one_owner in
          elim (Bool-cases s.cache.saving) [
            | inl taken ↦ rw (swap_taken taken) (taken-Inv at taken (rw (swap_taken taken) at one))
            | inr free ↦ rw (swap_free free) (free-Inv at (rw (swap_free free) at one))
          ]
      putter-Inv spawning at =
          let one = set_putter-OneOwner encode s i spawning e at v.one_owner in
          rw spawn (spawning-Inv at (rw spawn at one))
      putter-Inv done at =
          let one = set_putter-OneOwner encode s i done e at v.one_owner in
          rw rest (done-Inv at (rw rest at one))
