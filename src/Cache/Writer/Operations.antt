-- ===== src/Cache/Writer/Operations.antt =====
-- What the operations of a coordinator of src/cache.rs do to the two files, whatever their outcome.
use den_atlas.Prelude.{
  ℕ, ◌≤◌, ◌≡◌, refl, Bool, true, false, Option, none, some, arith, ◌==◌, get_elem?, if◌then◌else◌,
  inl, inr, ◌⊎◌, length,
}
use den_atlas.Prelude.Bytes.{Text}
use den_atlas.Cache.{Rows, TtlCache}
use den_atlas.Cache.Eviction.{NoRepeats}
use den_atlas.Cache.Writer.{
  WritePhase, sleeping, taking, writing, renaming, counting, failed, aborted, finished, clearing,
  checking, reclaiming, stopped, Outcome, succeeds, fails, panics, Env, System, write_step,
  write_partial, rename_over,
}
use den_atlas.Cache.Writer.Owner.{owns, OneOwner}

module _ (encode : Rows → Text) (cap : ℕ) (start : Option Text) where
  -- A text that is all of some rows, as many as the cache may hold.
  abbrev pub IsWhole : Text → Type 0
  IsWhole b = (m : Rows) × (b ≡ encode m) × (length m ≤ cap) × NoRepeats m

  abbrev pub Holds : Option Text → WritePhase → Type 0
  Holds partial (writing b g) = IsWhole b
  Holds partial (renaming b g) = IsWhole b × (partial ≡ some b)
  Holds partial (taking) = Unit {0}
  Holds partial ph = Unit {0}

  pub record Inv (s : System) : Type 0 where
    pub one_owner : OneOwner s
    pub limit : s.cache.max_entries ≡ cap
    pub bounded : length s.cache.map ≤ cap
    pub no_repeats : NoRepeats s.cache.map
    pub holds : (j : ℕ) (ph : WritePhase) → get_elem? s.writers j ≡ some ph → Holds s.partial ph
    pub whole : (s.file ≡ start) ⊎ ((b : Text) × (s.file ≡ some b) × IsWhole b)

  pub Holds-other : (partial : Option Text) (ph : WritePhase) → owns ph ≡ false → Holds partial ph
  unfolding owns
  Holds-other p (writing b g) h = absurd (ground arith)
  Holds-other p (renaming b g) h = absurd (ground arith)
  Holds-other p sleeping h = tt
  Holds-other p _ h = tt

  -- What a coordinator's operation does, whatever its outcome.
  pub record Kept (s t : System) (ph ph' : WritePhase) : Type 0 where
    pub limit : t.cache.max_entries ≡ s.cache.max_entries
    pub rows : t.cache.map ≡ s.cache.map
    pub next : Holds t.partial ph'
    pub whole : (t.file ≡ s.file) ⊎ ((b : Text) × (t.file ≡ some b) × IsWhole b)
    pub files : (owns ph ≡ true) ⊎ (t.partial ≡ s.partial)

  write_partial-Kept :
      (s : System) (b : Text) (g : ℕ) (o : Outcome)
      → IsWhole b
      → Kept s (write_partial encode s b g o).0 (writing b g) (write_partial encode s b g o).1
  unfolding write_partial owns
  write_partial-Kept s b g succeeds w = record {
    limit = refl;
    rows = refl;
    next = (w, refl);
    whole = inl refl;
    files = inl refl;
  }
  write_partial-Kept s b g _ w = record {
    limit = refl;
    rows = refl;
    next = tt;
    whole = inl refl;
    files = inl refl;
  }

  rename_over-Kept :
      (s : System) (b : Text) (g : ℕ) (o : Outcome)
      → IsWhole b × (s.partial ≡ some b)
      → Kept s (rename_over encode s b g o).0 (renaming b g) (rename_over encode s b g o).1
  unfolding rename_over owns
  rename_over-Kept s b g succeeds w = record {
    limit = refl;
    rows = refl;
    next = tt;
    whole = inr (b, w.1, w.0);
    files = inl refl;
  }
  rename_over-Kept s b g _ w = record {
    limit = refl;
    rows = refl;
    next = tt;
    whole = inl refl;
    files = inl refl;
  }

  taking-Kept :
      (s : System) (o : Outcome) (e : Env)
      → e.outcome ≡ o
      → Inv s
      → Kept s (write_step encode s taking e).0 taking (write_step encode s taking e).1
  unfolding write_step owns
  taking-Kept s succeeds e h v = rw h (record {
    limit = refl;
    rows = refl;
    next = (s.cache.map, refl, v.bounded, v.no_repeats);
    whole = inl refl;
    files = inl refl;
  })
  taking-Kept s (fails n) e h v =
      rw h (record { limit = refl; rows = refl; next = tt; whole = inl refl; files = inl refl })
  taking-Kept s panics e h v =
      rw h (record { limit = refl; rows = refl; next = tt; whole = inl refl; files = inl refl })

  -- An operation on the cache alone, which leaves the rows.
  cached :
      (s : System) (c : TtlCache) (ph ph' : WritePhase)
      → c.max_entries ≡ s.cache.max_entries
      → c.map ≡ s.cache.map
      → Holds s.partial ph'
      → Kept s (record s { cache = c }) ph ph'
  cached s c ph ph' l r h = record {
    limit = l;
    rows = r;
    next = h;
    whole = inl refl;
    files = inr refl;
  }

  branch-Kept :
      (s : System) (ph : WritePhase) (b : Bool) (x y : System × WritePhase)
      → Kept s x.0 ph x.1
      → Kept s y.0 ph y.1
      → Kept s (if b then x else y).0 ph (if b then x else y).1
  branch-Kept s ph true x y h k = h
  branch-Kept s ph false x y h k = k

  pub write_step-Kept :
      (s : System) (ph : WritePhase) (e : Env)
      → Inv s
      → Holds s.partial ph
      → Kept s (write_step encode s ph e).0 ph (write_step encode s ph e).1
  unfolding write_step
  write_step-Kept s sleeping e v h = cached s s.cache _ _ refl refl tt
  write_step-Kept s taking e v h = taking-Kept s e.outcome e refl v
  write_step-Kept s (writing b g) e v h = write_partial-Kept s b g e.outcome h
  write_step-Kept s (renaming b g) e v h = rename_over-Kept s b g e.outcome h
  write_step-Kept s (counting n g) e v h = cached s _ _ _ refl refl tt
  write_step-Kept s (failed g) e v h = cached s _ _ _ refl refl tt
  write_step-Kept s aborted e v h = cached s _ _ _ refl refl tt
  write_step-Kept s (finished none) e v h = cached s s.cache _ _ refl refl tt
  write_step-Kept s (finished (some g)) e v h =
      branch-Kept s _ (s.cache.generation == g) _ _ (cached s s.cache _ _ refl refl tt)
        (cached s s.cache _ _ refl refl tt)
  write_step-Kept s (clearing w) e v h = cached s _ _ _ refl refl tt
  write_step-Kept s (checking none) e v h = cached s s.cache _ _ refl refl tt
  write_step-Kept s (checking (some g)) e v h =
      branch-Kept s _ (s.cache.generation == g) _ _ (cached s s.cache _ _ refl refl tt)
        (cached s s.cache _ _ refl refl tt)
  write_step-Kept s (reclaiming g) e v h =
      branch-Kept s _ s.cache.saving _ _ (cached s s.cache _ _ refl refl tt)
        (cached s _ _ _ refl refl tt)
  write_step-Kept s stopped e v h = cached s s.cache _ _ refl refl tt
