-- ===== src/Upstream/Pauses.antt =====
-- How long an upstream of src/util.rs is left alone.
use den_atlas.Prelude.{
  ℕ, zero, suc, ◌+◌, ◌-◌, ◌*◌, ◌/◌, ◌^◌, ◌≤◌, ◌<◌, ◌≡◌, refl, List, [], ◌∷◌, Option, none, some,
  arith, min, inl, inr, length, ltb, ap, Bool-cases, if◌then◌else◌, Option-cases, word, sym, subst,
  ◌∙◌,
}
use mathlib.Core.Option.{some-injective}
use native.Mathlib.Nat.{mul-pos}
use den_atlas.Upstream.{
  Backoff, Refusal, refused_all, paused, doubled, jitter, pause_for, refused, answered, pausing,
  millis_of, one_day,
}

-- Upstreams that pause for at most a day.
pub record IsSane (b : Backoff) : Type 0 where
  pub base_positive : 0 < b.base
  pub max_positive : 0 < b.max_pause
  pub max_a_day : b.max_pause ≤ one_day

jitter-bound : (pause nanos : ℕ) → pause ≤ one_day → jitter pause nanos * 1000000 ≤ pause / 4
unfolding jitter
jitter-bound pause nanos h = ground arith

pow-positive : (n : ℕ) → 0 < 2 ^ n
pow-positive zero = omega arith
pow-positive (suc n) = omega (arith, pow-positive n)

doubled-bounds : (b : Backoff) → IsSane b → (0 < doubled b) × (doubled b ≤ b.max_pause)
unfolding doubled
doubled-bounds b h =
    omega (arith, h.max_positive, mul-pos h.base_positive (pow-positive (min b.refusals 16)))

pause_for-sane :
    (b : Backoff) (nanos : ℕ)
    → IsSane b
    → pause_for b none nanos ≡ some (doubled b + jitter (doubled b) nanos * 1000000)
unfolding pause_for
pause_for-sane b nanos h =
    ground (arith, doubled-bounds b h, h.max_a_day, jitter-bound (doubled b) nanos)

refused-some :
    (b : Backoff) (retry_after : Option ℕ) (nanos now pause : ℕ)
    → pause_for b retry_after nanos ≡ some pause
    → refused b retry_after nanos now ≡ some (pause, pausing b pause now)
unfolding refused
refused-some b retry_after nanos now pause e = rw (refused, e) refl

-- A refusal without Retry-After pauses for what the refusals in a row double to, and up to a quarter
-- more, never for nothing, when the pauses are of at most a day and not empty.
pub refused-bounds :
    (b : Backoff) (nanos now : ℕ)
    → IsSane b
    → (pause : ℕ) × (refused b none nanos now ≡ some (pause, pausing b pause now))
      × (0 < pause)
      × (doubled b ≤ pause)
      × (pause ≤ doubled b + doubled b / 4)
refused-bounds b nanos now h =
    let bounds = doubled-bounds b h in
    let jitters = jitter-bound (doubled b) nanos (omega (arith, bounds, h.max_a_day)) in
    (
      doubled b + jitter (doubled b) nanos * 1000000,
      refused-some b none nanos now (doubled b + jitter (doubled b) nanos * 1000000)
          (pause_for-sane b nanos h),
      omega (arith, bounds),
      omega arith,
      omega (arith, jitters),
    )

refused-pausing :
    (b b' : Backoff) (retry_after : Option ℕ) (nanos now pause : ℕ)
    → refused b retry_after nanos now ≡ some (pause, b')
    → b' ≡ pausing b pause now
unfolding refused
refused-pausing b b' retry_after nanos now pause e =
    elim (Option-cases (pause_for b retry_after nanos)) [
      | inl p ↦ absurd (ground arith)
      | inr (q, p) ↦ ground arith
    ]

pub paused-pausing :
    (b : Backoff) (now pause t : ℕ)
    → now + millis_of pause < word
    → t < now + millis_of pause
    → (left : ℕ) × (paused (pausing b pause now) t ≡ some left)
      × ((now + millis_of pause - t) * 1000000 ≤ left)
unfolding paused
paused-pausing b now pause t fits before =
    (((pausing b pause now).until - t) * 1000000, ground arith, omega arith)

-- After a refusal the upstream is left alone for as long as it was said: until then every caller is
-- turned away, for at least the rest of the pause. The end of the pause fits a word of milliseconds.
pub paused-refused :
    (b b' : Backoff) (retry_after : Option ℕ) (nanos now pause t : ℕ)
    → refused b retry_after nanos now ≡ some (pause, b')
    → now + millis_of pause < word
    → t < now + millis_of pause
    → (left : ℕ) × (paused b' t ≡ some left) × ((now + millis_of pause - t) * 1000000 ≤ left)
paused-refused b b' retry_after nanos now pause t e fits before =
    subst
      (λ x. (left : ℕ) × (paused x t ≡ some left) × ((now + millis_of pause - t) * 1000000 ≤ left))
      (sym (refused-pausing b b' retry_after nanos now pause e))
      (paused-pausing b now pause t fits before)

record After (b b' : Backoff) (n : ℕ) : Type 0 where
  same_base : b'.base ≡ b.base
  same_max : b'.max_pause ≡ b.max_pause
  counted : b'.refusals ≡ b.refusals + n

refused-After :
    (b b' : Backoff) (retry_after : Option ℕ) (nanos now pause : ℕ)
    → b.refusals + 1 < 2 ^ 32
    → refused b retry_after nanos now ≡ some (pause, b')
    → After b b' 1
refused-After b b' retry_after nanos now pause h e =
    subst (λ x. After b x 1) (sym (refused-pausing b b' retry_after nanos now pause e))
      (record { same_base = refl; same_max = refl; counted = omega arith })

After-trans : (a b c : Backoff) (m n k : ℕ) → After a b m → After b c n → k ≡ m + n → After a c k
After-trans a b c m n k h g e = record {
  same_base = g.same_base ∙ h.same_base;
  same_max = g.same_max ∙ h.same_max;
  counted = omega (arith, h.counted, g.counted);
}

refused_all-After :
    (b b' : Backoff) (rs : List Refusal)
    → b.refusals + length rs < 2 ^ 32
    → refused_all b rs ≡ some b'
    → After b b' (length rs)
unfolding refused_all
refused_all-After b b' [] h e =
    subst (λ x. After b x 0) (some-injective b b' e)
      (record { same_base = refl; same_max = refl; counted = omega arith })
refused_all-After b b' (r ∷ rs) h e = elim (Option-cases (refused b r.retry_after r.nanos r.now)) [
  | inl p ↦ absurd (ground arith)
  | inr ((pause, b1), p) ↦
      let one = refused-After b b1 r.retry_after r.nanos r.now pause (omega arith) p in
      After-trans b b1 b' 1 (length rs) (suc (length rs)) one
        (refused_all-After b1 b' rs (omega (arith, one.counted)) (ground arith)) (omega arith)
]

-- The pause after so many refusals in a row: the base, then twice the pause before, sixteen times at most and
-- never over the longest.
abbrev pub pause_after : ℕ → ℕ → ℕ → ℕ
pause_after base longest zero = min base longest
pause_after base longest (suc n) =
    let before = pause_after base longest n in if ltb n 16 then min (2 * before) longest else before

power_twice : (base n : ℕ) → base * 2 ^ suc n ≡ 2 * (base * 2 ^ n)
power_twice base n = grind arith

power_step :
    (base n : ℕ)
    → base * 2 ^ min (suc n) 16
      ≡ (if ltb n 16 then 2 * (base * 2 ^ min n 16) else base * 2 ^ min n 16)
power_step base n = elim (Bool-cases (ltb n 16)) [
  | inl e ↦ rw e (
      ap (λ k. base * 2 ^ k) {y = suc n} (ground arith)
      ∙ power_twice base n
      ∙ ap (λ k. 2 * (base * 2 ^ k)) {x = n} {y = min n 16} (ground arith))
  | inr e ↦ rw e (ap (λ k. base * 2 ^ k) {x = min (suc n) 16} {y = min n 16} (ground arith))
]

pause_after_lem :
    (base longest n : ℕ) → min (base * 2 ^ min n 16) longest ≡ pause_after base longest n
pause_after_lem base longest zero = omega arith
pause_after_lem base longest (suc n) =
    ground (arith, pause_after_lem base longest n, power_step base n)

-- After the refusals the pauses are of the same base and as long at most.
IsSane-After : (b b' : Backoff) (n : ℕ) → IsSane b → After b b' n → IsSane b'
IsSane-After b b' n h after = record {
  base_positive = omega (arith, h.base_positive, after.same_base);
  max_positive = omega (arith, h.max_positive, after.same_max);
  max_a_day = omega (arith, h.max_a_day, after.same_max);
}

doubled-After :
    (b b' : Backoff) (n : ℕ)
    → IsSane b
    → b.refusals ≡ 0
    → After b b' n
    → doubled b' ≡ pause_after b.base b.max_pause n
unfolding doubled
doubled-After b b' n h none_yet after =
    let all : b'.refusals ≡ n = omega (arith, after.counted) in
    rw (after.same_base, after.same_max, all)
      (omega (arith, pause_after_lem b.base b.max_pause n, h.max_a_day))

-- After an answer and any number of refusals in a row, whatever Retry-After they had, the next refusal
-- without one pauses for the base, doubled once for each refusal before but sixteen times at most and up to
-- the longest pause, and for up to a quarter more. Pauses are of at most a day and not empty, and there were
-- fewer than 2^32 refusals.
pub refused-answered :
    (b b' : Backoff) (rs : List Refusal) (nanos now : ℕ)
    → IsSane b
    → length rs < 2 ^ 32
    → refused_all (answered b) rs ≡ some b'
    → (pause : ℕ) × (c : Backoff) × (refused b' none nanos now ≡ some (pause, c))
      × (pause_after b.base b.max_pause (length rs) ≤ pause)
      × (pause
          ≤ pause_after b.base b.max_pause (length rs)
            + pause_after b.base b.max_pause (length rs) / 4)
unfolding answered
refused-answered b b' rs nanos now sane h e =
    let start = answered b in
    let fresh : IsSane start = record {
      base_positive = sane.base_positive;
      max_positive = sane.max_positive;
      max_a_day = sane.max_a_day;
    } in
    let after = refused_all-After start b' rs (omega arith) e in
    let same = doubled-After start b' (length rs) fresh refl after in
    let (pause, done, positive, low, high) =
      refused-bounds b' nanos now (IsSane-After start b' (length rs) fresh after) in
    (pause, pausing b' pause now, done, omega (arith, same, low), omega (arith, same, high))
