-- ===== src/Cache/Tests.antt =====
-- Runs of the caches of src/cache.rs on small inputs.
use den_atlas.Prelude.{
  ℕ, zero, suc, ◌≢◌, ◌<◌, ◌/◌, ◌%◌, ◌≤◌, ◌≡◌, ◌⊎◌, refl, true, false, List, [], ◌∷◌, ◌++◌, Option,
  none, some, arith, length, ite, All,
}
use den_atlas.Prelude.Bytes.{Text, text_dec, same_text, codes}
use den_atlas.Prelude.Tasks.{count}
use den_atlas.Prelude.Map.{lookup, insert, remove, min_by_key}
use den_atlas.Cache.{
  Entry, Rows, TtlCache, evict_one, evict_down, get, put, put_row, persisted, kept_rows, read,
  with_max_entries,
}
use den_atlas.Cache.Eviction.{
  NoRepeats, Evicts, KeepsNewest, persisted-KeepsNewest, lookup-put_row_full,
}
use den_atlas.Cache.Writer.{
  storing, succeeds, fails, Env, System, put_step, write_step, Turn, putter, writer, step, run,
}
use den_atlas.Cache.Writer.Owner.{owns, claims, OneOwner, run-OneOwner}
use den_atlas.Cache.Writer.Pending.{is_storing}
use den_atlas.Cache.Writer.Snapshots.{Good}
use den_atlas.Cache.Writer.Settles.{Fresh, run_settles}
use den_atlas.Cache.Writer.WholeFile.{run_whole_file}
use den_atlas.Cache.Memo
use den_atlas.Cache.Memo.{Remembered, EmbedMemo, IsValid}
use den_atlas.Cache.Memo.Laws

program : Unit {0}
unfolding text_dec same_text lookup insert remove min_by_key evict_one evict_down get put put_row
    persisted with_max_entries
program = tt

machine : Unit {0}
unfolding program put_step write_step step run count owns claims is_storing
machine = tt

abbrev key_a : Text
key_a = codes "a"

abbrev key_b : Text
key_b = codes "b"

abbrev entry_at : ℕ → Entry
entry_at t = record { stored = t; value = codes "row" }

abbrev two_rows : Rows
two_rows = (key_a, entry_at 5) ∷ (key_b, entry_at 3) ∷ []

two_rows-NoRepeats : NoRepeats two_rows
unfolding program
two_rows-NoRepeats = (refl, (refl, tt))

-- A full cache loses `b`, its oldest row.
put_row_test : lookup text_dec key_b (put_row 2 two_rows (codes "c") (codes "new") 9) ≡ none
unfolding program
put_row_test = refl

lookup-put_row_full_example :
    Evicts two_rows (evict_one two_rows)
    × ((q : Text)
        → lookup text_dec q (put_row 2 two_rows (codes "c") (codes "new") 9)
          ≡ ite
              (text_dec (codes "c") q)
              (some (record { stored = 9; value = codes "new" }))
              (lookup text_dec q (evict_one two_rows)))
unfolding program
lookup-put_row_full_example =
    lookup-put_row_full 2 two_rows (codes "c") (codes "new") 9 two_rows-NoRepeats (omega arith)
      (omega arith) refl

abbrev decode_two : Text → Option Rows
decode_two t = some two_rows

-- As many rows as asked for, each with a key of its own.
unfoldable numbered : ℕ → Rows
numbered zero = []
numbered (suc n) = ((n / 256) ∷ (n % 256) ∷ [], entry_at n) ∷ numbered n

keys_apart : (n k : ℕ) → n < k → (n / 256) ∷ (n % 256) ∷ [] ≢ (k / 256) ∷ (k % 256) ∷ []
keys_apart n k h e = ground arith

numbered_apart :
    (n k : ℕ) → n ≤ k → lookup text_dec ((k / 256) ∷ (k % 256) ∷ []) (numbered n) ≡ none
unfolding numbered lookup
numbered_apart zero k h = refl
numbered_apart (suc n) k h = ground (arith, numbered_apart n k, keys_apart n k)

numbered-NoRepeats : (n : ℕ) → NoRepeats (numbered n)
unfolding numbered
numbered-NoRepeats zero = tt
numbered-NoRepeats (suc n) = (numbered_apart n n (omega arith), numbered-NoRepeats n)

abbrev decode_many : Text → Option Rows
decode_many s = some (numbered 2100)

persisted-KeepsNewest_example :
    (length (persisted decode_many 60 (read [])).map ≡ 2000)
    × KeepsNewest (numbered 2100) (persisted decode_many 60 (read [])).map
    × NoRepeats (persisted decode_many 60 (read [])).map
unfolding kept_rows numbered
persisted-KeepsNewest_example =
    persisted-KeepsNewest decode_many 60 (read []) (numbered-NoRepeats 2100)

abbrev cache : TtlCache
cache = record {
  ttl = 10;
  max_entries = 2;
  map = two_rows;
  on_disk = true;
  generation = 0;
  saving = false;
  writes = 0;
  bytes = 0;
  errors = 0;
  last_write_ms = 0;
}

-- A stand-in for the serializer: the keys and the values in order.
abbrev encode : Rows → Text
encode [] = []
encode ((k, e) ∷ m) = k ++ e.value ++ encode m

abbrev well : Env
well = record { now = 9; elapsed_ms = 4; runtime = true; outcome = succeeds }

abbrev steps : ℕ → Turn → List (Turn × Env)
steps zero t = []
steps (suc n) t = (t, well) ∷ steps n t

abbrev quiet : System
quiet = record {
  cache = cache;
  putters = storing key_a (codes "x") ∷ storing key_b (codes "y") ∷ [];
  writers = [];
  file = none;
  partial = none;
}

-- The second row is stored after the coordinator took its snapshot, so it writes once more.
abbrev schedule : List (Turn × Env)
schedule = steps 3 (putter 0) ++ (steps 2 (writer 0) ++ (steps 2 (putter 1) ++ steps 13 (writer 0)))

run_test :
    let s = run encode quiet schedule in
    (s.file ≡ some (codes "axby")) × (s.cache.writes ≡ 2) × (s.cache.saving ≡ false)
unfolding machine
run_test = (refl, refl, refl)

quiet-Fresh : Fresh encode quiet
unfolding machine
quiet-Fresh = record {
  persists = refl;
  idle = refl;
  unchanged = refl;
  no_writers = refl;
  all_storing = refl;
}

steps-Good :
    (n : ℕ) (t : Turn) (rest : List (Turn × Env))
    → All (λ te. Good te.1) rest
    → All (λ te. Good te.1) (steps n t ++ rest)
steps-Good zero t rest h = h
steps-Good (suc n) t rest h = ((refl, refl), steps-Good n t rest h)

schedule-Good : All (λ te. Good te.1) schedule
schedule-Good =
    steps-Good 3 (putter 0) (steps 2 (writer 0) ++ (steps 2 (putter 1) ++ steps 13 (writer 0))) (
      steps-Good 2 (writer 0) (steps 2 (putter 1) ++ steps 13 (writer 0))
        (steps-Good 2 (putter 1) (steps 13 (writer 0)) after))
  where
    after : All (λ te. Good te.1) (steps 13 (writer 0))
    after = steps-Good 13 (writer 0) [] tt

run_settles_example :
    (run encode quiet schedule).file ≡ some (encode (run encode quiet schedule).cache.map)
unfolding machine
run_settles_example =
    run_settles encode quiet schedule quiet-Fresh (λ e. cc) (omega arith) schedule-Good
      (refl, (refl, tt)) (refl, tt)

-- A write that fails after two bytes leaves the file as it was.
abbrev short_write : List (Turn × Env)
short_write =
    steps 3 (putter 0) ++ (steps 2 (writer 0) ++ (writer 0, record well { outcome = fails 2 }) ∷ [])

short_write_test :
    ((run encode quiet short_write).file ≡ none)
    × ((run encode quiet short_write).partial ≡ some (codes "ax"))
unfolding machine
short_write_test = (refl, refl)

run_whole_file_example :
    ((run encode quiet short_write).file ≡ none)
    ⊎ ((m : Rows) × ((run encode quiet short_write).file ≡ some (encode m))
        × (length m ≤ 2)
        × NoRepeats m)
unfolding machine
run_whole_file_example =
    run_whole_file encode quiet short_write (omega arith) (omega arith) two_rows-NoRepeats refl refl
      refl

run-OneOwner_example : OneOwner (run encode quiet schedule)
unfolding machine
run-OneOwner_example = run-OneOwner encode quiet schedule refl

abbrev memo : EmbedMemo
memo = record {
  ttl = 100;
  max_entries = 2;
  map =
      (key_a, record { vector = 1 ∷ []; stored = 0; used = 3 })
      ∷ (key_b, record { vector = 2 ∷ []; stored = 0; used = 4 })
      ∷ [];
}

memo-IsValid : IsValid memo
unfolding program
memo-IsValid = record {
  some_room = omega arith;
  bounded = omega arith;
  no_repeats = (refl, (refl, tt));
}

lookup-put-get_example :
    lookup text_dec key_a (Memo.put (Memo.get memo key_a 9).0 (codes "c") (3 ∷ []) 10).map
    ≡ some (record { vector = 1 ∷ []; stored = 0; used = 9 })
unfolding program
lookup-put-get_example =
    Laws.lookup-put-get memo key_a (codes "c") key_b (3 ∷ []) 9 10
      (record { vector = 1 ∷ []; stored = 0; used = 3 })
      (record { vector = 2 ∷ []; stored = 0; used = 4 }) memo-IsValid refl (omega arith) refl
      (omega arith) (λ e. ground arith) (λ e. ground arith)
