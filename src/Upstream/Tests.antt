-- ===== src/Upstream/Tests.antt =====
-- The pauses of src/util.rs on readings of the clock.
use den_atlas.Prelude.{
  ℕ, ◌+◌, ◌-◌, ◌*◌, ◌/◌, ◌^◌, ◌≤◌, ◌≡◌, refl, true, false, [], ◌∷◌, none, some, arith, min, length,
}
use den_atlas.Prelude.{if◌then◌else◌, Option}
use den_atlas.Prelude.Bytes.{Text, codes, same_text}
use den_atlas.Prelude.Decimal.{decimal}
use den_atlas.Upstream.Allowance.{
  retry_after, allowance, exhausted_for, exhausted_for-allowance, refused-retry_after,
}
use den_atlas.Upstream.{
  Backoff, Refusal, paused, refused, refused_all, answered, pausing, millis_of, log_due,
}
use den_atlas.Upstream.Pauses.{IsSane, paused-refused, refused-answered}

-- Ten seconds, up to a minute.
abbrev usual : Backoff
usual = record { until = 0; refusals = 0; base = 10000000000; max_pause = 60000000000 }

-- After two refusals, at five seconds.
abbrev twice : Backoff
twice = record usual { refusals = 2; until = 4000 }

abbrev refusal : Refusal
refusal = record { retry_after = none; nanos = 7; now = 5000 }

log_due_first : log_due 0 60000 0 ≡ (1, true)
unfolding log_due
log_due_first = refl

log_due_soon : log_due 1000 60000 60999 ≡ (1000, false)
unfolding log_due
log_due_soon = refl

paused-refused_example :
    (left : ℕ) × (paused (pausing twice 300000000000 5000) 204999 ≡ some left)
    × ((5000 + millis_of 300000000000 - 204999) * 1000000 ≤ left)
unfolding refused
paused-refused_example =
    paused-refused twice (pausing twice 300000000000 5000) (some 300000000000) 7 5000 300000000000
      204999 refl (omega arith) (omega arith)

abbrev three_more : Backoff
three_more = record usual { refusals = 3; until = 45007 }

twice-IsSane : IsSane twice
twice-IsSane = record {
  base_positive = omega arith;
  max_positive = omega arith;
  max_a_day = omega arith;
}

-- After three refusals the pause would be eighty seconds, and is a minute.
refused-answered_example :
    (pause : ℕ) × (c : Backoff) × (refused three_more none 7 5000 ≡ some (pause, c))
    × (60000000000 ≤ pause)
    × (pause ≤ 60000000000 + 60000000000 / 4)
unfolding refused_all refused answered
refused-answered_example =
    refused-answered twice three_more (refusal ∷ refusal ∷ refusal ∷ []) 7 5000 twice-IsSane
      (omega arith) refl

-- Nothing is left for half a minute; the answer also asks for a day and more.
abbrev headers : Text → Option Text
headers name =
    if same_text name (codes "ratelimit")
    then some (allowance (codes "burst\"") 0 30)
    else if same_text name (codes "retry-after")
    then some (decimal 90000)
    else none

exhausted_for_reset :
    exhausted_for
      (λ name.
        if same_text name (codes "x-ratelimit-remaining")
        then some (codes " 0")
        else if same_text name (codes "x-ratelimit-reset")
        then some (codes "1000000060")
        else none)
      1000000000
    ≡ some 60000000000
unfolding exhausted_for same_text den_atlas.Prelude.Bytes.parse_unsigned
    den_atlas.Prelude.Bytes.trim den_atlas.Prelude.Bytes.parse_digits
exhausted_for_reset = refl

exhausted_for-allowance_example : exhausted_for headers 5 ≡ some 30000000000
unfolding den_atlas.Prelude.Separators.lacks den_atlas.Prelude.Decimal.no_space same_text
exhausted_for-allowance_example =
    exhausted_for-allowance headers 5 (codes "burst\"") 0 30 refl refl (omega arith) (omega arith)
      refl

exhausted_for_remaining :
    exhausted_for
      (λ name. if same_text name (codes "ratelimit") then some (allowance [] 3 30) else none)
      5
    ≡ none
unfolding exhausted_for same_text den_atlas.Prelude.Bytes.parse_unsigned
    den_atlas.Prelude.Bytes.trim den_atlas.Prelude.Bytes.parse_digits
    den_atlas.Prelude.Decimal.decimal den_atlas.Prelude.Bytes.split
    den_atlas.Prelude.Bytes.strip_prefix
exhausted_for_remaining = refl

refused-retry_after_example :
    (c : Backoff) × (left : ℕ) × (refused usual (retry_after (λ s. none) headers 0) 7 5000
      ≡ some (86400000000000, c))
    × (paused c 6000 ≡ some left)
    × ((5000 + 86400000 - 6000) * 1000000 ≤ left)
unfolding same_text
refused-retry_after_example =
    refused-retry_after (λ s. none) headers usual 90000 7 0 5000 6000 (omega arith) refl
      (omega arith) (omega arith)
