-- ===== src/Cache/Writer/Snapshots.antt =====
-- What a coordinator of src/cache.rs knows of the generation that it wrote, while nothing fails.
use den_atlas.Prelude.{
  ℕ, ◌+◌, ◌≤◌, ◌≡◌, refl, Bool, true, false, Option, none, some, arith, inl, inr, ◌⊎◌, ◌∙◌, ap,
}
use den_atlas.Prelude.Bytes.{Text}
use den_atlas.Cache.{Rows}
use den_atlas.Cache.Writer.{
  WritePhase, sleeping, taking, writing, renaming, counting, failed, aborted, finished, clearing,
  checking, reclaiming, stopped, succeeds, Env, System, write_step, write_partial, rename_over,
}
use den_atlas.Cache.Writer.Owner.{owns}

-- An operation that works, in a process with a runtime.
abbrev pub Good : Env → Type 0
Good e = (e.outcome ≡ succeeds) × (e.runtime ≡ true)

-- A coordinator that has given `saving` back and will look once more.
unfoldable pub looks_again : WritePhase → Bool
looks_again (checking w) = true
looks_again (reclaiming g) = true
looks_again ph = false

-- `on_file` is the generation that the file holds, `latest` the cache's, and `body` its rows.
abbrev pub Fits : ℕ → ℕ → Text → Option Text → WritePhase → Type 0
Fits on_file latest body partial sleeping = Unit {0}
Fits on_file latest body partial taking = Unit {0}
Fits on_file latest body partial (writing b g) =
    (on_file ≤ g) × (g ≤ latest) × (g ≡ latest → b ≡ body)
Fits on_file latest body partial (renaming b g) =
    (on_file ≤ g) × (g ≤ latest) × (g ≡ latest → b ≡ body) × (partial ≡ some b)
Fits on_file latest body partial (counting n g) = g ≤ on_file
Fits on_file latest body partial (failed g) = ⊥
Fits on_file latest body partial aborted = ⊥
Fits on_file latest body partial (finished none) = ⊥
Fits on_file latest body partial (finished (some g)) = g ≤ on_file
Fits on_file latest body partial (clearing none) = ⊥
Fits on_file latest body partial (clearing (some g)) = g ≤ on_file
Fits on_file latest body partial (checking none) = ⊥
Fits on_file latest body partial (checking (some g)) = g ≤ on_file
Fits on_file latest body partial (reclaiming g) = g ≤ on_file
Fits on_file latest body partial stopped = Unit {0}

-- The generation on file after a step.
unfoldable pub filed : ℕ → WritePhase → ℕ
filed on_file (renaming b g) = g
filed on_file ph = on_file

-- Whatever does not own the flag keeps what it knows while the file moves on.
pub Fits-mono :
    (on_file on_file' latest : ℕ) (body : Text) (partial partial' : Option Text) (ph : WritePhase)
    → owns ph ≡ false
    → on_file ≤ on_file'
    → Fits on_file latest body partial ph
    → Fits on_file' latest body partial' ph
unfolding owns
Fits-mono f f' l b p p' (checking none) o le h = absurd h
Fits-mono f f' l b p p' (checking (some g)) o le h = omega arith
Fits-mono f f' l b p p' (reclaiming g) o le h = omega arith
Fits-mono f f' l b p p' stopped o le h = tt
Fits-mono f f' l b p p' _ o le h = absurd (ground arith)

-- A row stored makes every snapshot an old one.
pub Fits-later :
    (on_file latest : ℕ) (body body' : Text) (partial : Option Text) (ph : WritePhase)
    → on_file ≤ latest
    → Fits on_file latest body partial ph
    → Fits on_file (latest + 1) body' partial ph
Fits-later f l b b' p sleeping le h = tt
Fits-later f l b b' p taking le h = tt
Fits-later f l b b' p (writing t g) le h = (h.0, omega arith, λ e. absurd (omega arith))
Fits-later f l b b' p (renaming t g) le h = (h.0, omega arith, λ e. absurd (omega arith), h.3)
Fits-later f l b b' p (counting n g) le h = h
Fits-later f l b b' p (failed g) le h = h
Fits-later f l b b' p aborted le h = h
Fits-later f l b b' p (finished none) le h = h
Fits-later f l b b' p (finished (some g)) le h = h
Fits-later f l b b' p (clearing none) le h = h
Fits-later f l b b' p (clearing (some g)) le h = h
Fits-later f l b b' p (checking none) le h = h
Fits-later f l b b' p (checking (some g)) le h = h
Fits-later f l b b' p (reclaiming g) le h = h
Fits-later f l b b' p stopped le h = tt

module _ (encode : Rows → Text) where
  abbrev pub FitsIn : ℕ → System → WritePhase → Type 0
  FitsIn on_file s = Fits on_file s.cache.generation (encode s.cache.map) s.partial

  -- The file holds the rows of its generation, if that is still the latest; 0 is the file at the start.
  abbrev pub Filed : ℕ → System → Type 0
  Filed on_file s =
      (on_file ≤ s.cache.generation)
      × (on_file ≡ s.cache.generation → (on_file ≡ 0) ⊎ (s.file ≡ some (encode s.cache.map)))

  pub write_step-FitsIn :
      (on_file : ℕ) (s : System) (ph : WritePhase) (e : Env)
      → Good e
      → Filed on_file s
      → FitsIn on_file s ph
      → FitsIn (filed on_file ph) (write_step encode s ph e).0 (write_step encode s ph e).1
  unfolding write_step write_partial rename_over filed
  write_step-FitsIn on_file s taking e good f h = ground arith
  write_step-FitsIn on_file s (writing b g) e good f h = ground arith
  write_step-FitsIn on_file s (renaming b g) e good f h = ground arith
  write_step-FitsIn on_file s (finished (some g)) e good f h = ground arith
  write_step-FitsIn on_file s (checking (some g)) e good f h = ground arith
  write_step-FitsIn on_file s (reclaiming g) e good f h = ground arith
  write_step-FitsIn on_file s (finished none) e good f h = absurd h
  write_step-FitsIn on_file s (clearing none) e good f h = absurd h
  write_step-FitsIn on_file s (clearing (some g)) e good f h = h
  write_step-FitsIn on_file s (checking none) e good f h = absurd h
  write_step-FitsIn on_file s (failed g) e good f h = absurd h
  write_step-FitsIn on_file s aborted e good f h = absurd h
  write_step-FitsIn on_file s (counting n g) e good f h = h
  write_step-FitsIn on_file s sleeping e good f h = tt
  write_step-FitsIn on_file s stopped e good f h = tt

  -- What a coordinator's operation leaves alone. Only the owner of the flag touches the files.
  pub record Moved (on_file : ℕ) (s : System) (ph : WritePhase) (t : System) : Type 0 where
    pub on_the_file : Filed (filed on_file ph) t
    pub later : on_file ≤ filed on_file ph
    pub generation : t.cache.generation ≡ s.cache.generation
    pub rows : t.cache.map ≡ s.cache.map
    pub files : (owns ph ≡ true) ⊎ ((t.partial ≡ s.partial) × (filed on_file ph ≡ on_file))

  pub write_step-Moved :
      (on_file : ℕ) (s : System) (ph : WritePhase) (e : Env)
      → Good e
      → Filed on_file s
      → FitsIn on_file s ph
      → Moved on_file s ph (write_step encode s ph e).0
  unfolding write_step write_partial rename_over filed owns
  write_step-Moved on_file s taking e good f h = ground arith
  write_step-Moved on_file s (writing b g) e good f h = ground arith
  write_step-Moved on_file s (renaming b g) e good f h = rw good.0 (record {
    on_the_file = (h.1, λ q. inr (h.3 ∙ ap some (h.2 q)));
    later = h.0;
    generation = refl;
    rows = refl;
    files = inl refl;
  })
  write_step-Moved on_file s (finished (some g)) e good f h = ground arith
  write_step-Moved on_file s (checking (some g)) e good f h = ground arith
  write_step-Moved on_file s (reclaiming g) e good f h = ground arith
  write_step-Moved on_file s (finished none) e good f h = absurd h
  write_step-Moved on_file s (clearing none) e good f h = absurd h
  write_step-Moved on_file s (checking none) e good f h = absurd h
  write_step-Moved on_file s (failed g) e good f h = absurd h
  write_step-Moved on_file s aborted e good f h = absurd h
  write_step-Moved on_file s _ e good f h = ground arith
