-- ===== src/Upstream/Allowance.antt =====
-- What the answer of an upstream asks for, as src/util.rs reads its headers. Headers are a function from a
-- name to its value, where there is one and it is text.
use den_atlas.Prelude.{
  ℕ, ◌+◌, ◌≤◌, leb, word, ◌-◌, ◌*◌, ◌^◌, ◌<◌, ◌≡◌, ◌∙◌, refl, ap, Bool, true, false, List, [], ◌∷◌,
  ◌++◌, Option, none, some, arith, min, ltb, ◌==◌, if◌then◌else◌,
}
use den_atlas.Prelude.Bytes.{
  same_text, Text, all_digits, codes, strip_prefix, trim, split, parse_unsigned,
}
use den_atlas.Prelude.Decimal.{
  decimal, all_digits-decimal, parse_unsigned-decimal, no_space, no_space-append, no_space-digits,
  trim-no_space,
}
use den_atlas.Prelude.Separators.{lacks, split-append, split-lacks}
use den_atlas.Upstream.{second, one_day, millis_of, Backoff, pausing, pause_for, refused, paused}
use den_atlas.Upstream.Pauses.{paused-pausing}

module _ (parse_date : Text → Option ℕ) where
  -- The clock in nanoseconds.
  unfoldable pub retry_after : (Text → Option Text) → ℕ → Option ℕ
  retry_after headers now = elim (headers (codes "retry-after")) [
    | none ↦ none
    | some value ↦ elim (parse_unsigned (trim value)) [
      | some seconds ↦ some (seconds * second)
      | none ↦ elim (parse_date (trim value)) [
        | none ↦ none
        | some moment ↦ some (moment * second - now)
      ]
    ]
  ]

-- The clock in seconds.
abbrev pub wait_for : ℕ → ℕ → ℕ
wait_for now reset = (if ltb 1000000000 reset then reset - now else reset) * second

abbrev number_of : Option Text → Option ℕ
number_of none = none
number_of (some value) = parse_unsigned value

abbrev or_zero : Option ℕ → ℕ
or_zero none = 0
or_zero (some n) = n

abbrev is_zero : Option ℕ → Bool
is_zero none = false
is_zero (some n) = n == 0

-- The value of the first part of that name.
unfoldable pub find_part : Text → List Text → Option Text
find_part key [] = none
find_part key (part ∷ parts) = elim (strip_prefix key (trim part)) [
  | none ↦ find_part key parts
  | some rest ↦ elim (strip_prefix (codes "=") rest) [
    | none ↦ find_part key parts
    | some value ↦ some value
  ]
]

unfoldable pub param : Text → Text → Option ℕ
unfolding find_part
param field key = number_of (find_part key (split b';' field))

unfoldable pub header_number : (Text → Option Text) → Text → Option ℕ
header_number headers name = elim (headers name) [
  | none ↦ none
  | some value ↦ parse_unsigned (trim value)
]

unfoldable pub exhausted_pairs : (Text → Option Text) → ℕ → List (Text × Text) → Option ℕ
unfolding header_number
exhausted_pairs headers now [] = none
exhausted_pairs headers now ((remaining, reset) ∷ pairs) =
    if is_zero (header_number headers remaining)
    then some (wait_for now (or_zero (header_number headers reset)))
    else exhausted_pairs headers now pairs

abbrev pub older_headers : List (Text × Text)
older_headers =
    (codes "ratelimit-remaining", codes "ratelimit-reset")
    ∷ (codes "x-ratelimit-remaining", codes "x-ratelimit-reset")
    ∷ []

abbrev pub exhausted_field : Option Text → ℕ → Option ℕ
exhausted_field none now = none
exhausted_field (some value) now =
    if is_zero (param (trim value) (codes "r"))
    then some (wait_for now (or_zero (param (trim value) (codes "t"))))
    else none

unfoldable pub exhausted_for : (Text → Option Text) → ℕ → Option ℕ
unfolding param exhausted_pairs
exhausted_for headers now = elim (exhausted_field (headers (codes "ratelimit")) now) [
  | some wait ↦ some wait
  | none ↦ exhausted_pairs headers now older_headers
]

-- The field that says how many requests remain, and in how many seconds there are more.
abbrev pub allowance : Text → ℕ → ℕ → Text
allowance policy remaining seconds =
    (b'"' ∷ policy)
    ++ (b';' ∷ ((codes "r=" ++ decimal remaining) ++ (b';' ∷ (codes "t=" ++ decimal seconds))))

decimal-no_space : (n : ℕ) → no_space (decimal n) ≡ true
decimal-no_space n = no_space-digits (decimal n) (all_digits-decimal n)

allowance-no_space :
    (policy : Text) (r t : ℕ) → no_space policy ≡ true → no_space (allowance policy r t) ≡ true
unfolding no_space
allowance-no_space policy r t h =
    let last = codes ";t=" ++ decimal t in
    let digits = no_space-append (decimal r) last (decimal-no_space r) (decimal-no_space t) in
    no_space-append policy (codes ";r=" ++ (decimal r ++ last)) h digits

lacks-digits : (s : Text) → all_digits s ≡ true → lacks b';' s ≡ true
unfolding lacks all_digits
lacks-digits [] h = refl
lacks-digits (c ∷ s) h = ground (arith, lacks-digits s)

split-allowance :
    (policy : Text) (r t : ℕ)
    → lacks b';' policy ≡ true
    → split b';' (allowance policy r t)
      ≡ (b'"' ∷ policy) ∷ (codes "r=" ++ decimal r) ∷ (codes "t=" ++ decimal t) ∷ []
unfolding lacks
split-allowance policy r t h =
    let first = codes "r=" ++ decimal r in
    let last = codes "t=" ++ decimal t in
    split-append b';' (b'"' ∷ policy) (first ++ (b';' ∷ last)) h
    ∙ ap (λ l. (b'"' ∷ policy) ∷ l)
        (split-append b';' first last (lacks-digits (decimal r) (all_digits-decimal r))
          ∙ ap (λ l. first ∷ l)
              (split-lacks b';' last (lacks-digits (decimal t) (all_digits-decimal t))))

module _ (policy : Text) (r t : ℕ) (bare : lacks b';' policy ≡ true)
    (tight : no_space policy ≡ true) (small : r < 2 ^ 64) (short : t < 2 ^ 64) where
  trim-policy : trim (b'"' ∷ policy) ≡ b'"' ∷ policy
  trim-policy = trim-no_space (b'"' ∷ policy) (unfold no_space in tight)

  param-remaining : param (allowance policy r t) (codes "r") ≡ some r
  unfolding param find_part strip_prefix no_space trim
  param-remaining = rw (split-allowance policy r t bare) (
      rw trim-policy (
        rw (trim-no_space (codes "r=" ++ decimal r) (decimal-no_space r))
          (parse_unsigned-decimal r small)))

  param-reset : param (allowance policy r t) (codes "t") ≡ some t
  unfolding param find_part strip_prefix no_space trim
  param-reset = rw (split-allowance policy r t bare) (
      rw trim-policy (
        rw (trim-no_space (codes "r=" ++ decimal r) (decimal-no_space r)) (
          rw (trim-no_space (codes "t=" ++ decimal t) (decimal-no_space t))
            (parse_unsigned-decimal t short))))

  exhausted_field-allowance :
      (now : ℕ)
      → exhausted_field (some (allowance policy r t)) now
        ≡ (if r == 0 then some (wait_for now t) else none)
  exhausted_field-allowance now =
      rw (trim-no_space (allowance policy r t) (allowance-no_space policy r t tight))
        (rw param-remaining (rw param-reset refl))

-- The headers but the RateLimit field.
abbrev pub without_field : (Text → Option Text) → Text → Option Text
without_field headers name = if same_text name (codes "ratelimit") then none else headers name

exhausted_for-without :
    (headers : Text → Option Text) (now : ℕ)
    → exhausted_for (without_field headers) now ≡ exhausted_pairs headers now older_headers
unfolding exhausted_for exhausted_pairs header_number same_text
exhausted_for-without headers now = refl

wait_for_lem :
    (now t : ℕ) → wait_for now t ≡ (if leb t 1000000000 then t * second else (t - now) * second)
wait_for_lem now t = ground arith

exhausted_for-field :
    (headers : Text → Option Text) (now wait wait' : ℕ) (b : Bool)
    → exhausted_field (headers (codes "ratelimit")) now ≡ (if b then some wait else none)
    → wait ≡ wait'
    → exhausted_for headers now
      ≡ (if b then some wait' else exhausted_for (without_field headers) now)
unfolding exhausted_for exhausted_pairs
exhausted_for-field headers now wait wait' true h e = rw (h, exhausted_for) (ap some e)
exhausted_for-field headers now wait wait' false h e =
    rw (exhausted_for-without headers now) (rw (h, exhausted_for) refl)

-- A RateLimit field, of a quoted policy without space and semicolon, that leaves no request says how long the
-- allowance is exhausted: for its reset in seconds, or, if that is over a billion, until then as a Unix time,
-- and not at all when it is past. If it leaves requests the answer is as without the field.
pub exhausted_for-allowance :
    (headers : Text → Option Text) (now : ℕ) (policy : Text) (r t : ℕ)
    → lacks b';' policy ≡ true
    → no_space policy ≡ true
    → r < 2 ^ 64
    → t < 2 ^ 64
    → headers (codes "ratelimit") ≡ some (allowance policy r t)
    → exhausted_for headers now ≡ (
        if r == 0
        then some (if leb t 1000000000 then t * second else (t - now) * second)
        else exhausted_for (without_field headers) now)
exhausted_for-allowance headers now policy r t bare tight small short e =
    exhausted_for-field headers now (wait_for now t)
      (if leb t 1000000000 then t * second else (t - now) * second) (r == 0)
      (ap (λ f. exhausted_field f now) e
        ∙ exhausted_field-allowance policy r t bare tight small short now)
      (wait_for_lem now t)

retry_after-decimal :
    (parse_date : Text → Option ℕ) (headers : Text → Option Text) (n clock : ℕ)
    → n < 2 ^ 64
    → headers (codes "retry-after") ≡ some (decimal n)
    → retry_after parse_date headers clock ≡ some (n * second)
unfolding retry_after
retry_after-decimal parse_date headers n clock h e =
    ground (arith, e, trim-no_space (decimal n) (decimal-no_space n), parse_unsigned-decimal n h)

day_millis : (n : ℕ) → millis_of (min (n * second) one_day) ≡ min (n * 1000) 86400000
day_millis n = omega arith

-- An upstream that asks for some seconds pauses for as many, or for a day if they are more, and is left alone
-- until then: every caller in between is turned away, for at least the rest. The end of the pause fits a word
-- of milliseconds.
pub refused-retry_after :
    (parse_date : Text → Option ℕ) (headers : Text → Option Text) (b : Backoff)
    (n nanos clock now t : ℕ)
    → n < 2 ^ 64
    → headers (codes "retry-after") ≡ some (decimal n)
    → now + min (n * 1000) 86400000 < word
    → t < now + min (n * 1000) 86400000
    → (c : Backoff) × (left : ℕ) × (refused b (retry_after parse_date headers clock) nanos now
        ≡ some (min (n * second) one_day, c))
      × (paused c t ≡ some left)
      × ((now + min (n * 1000) 86400000 - t) * 1000000 ≤ left)
unfolding refused pause_for
refused-retry_after parse_date headers b n nanos clock now t h e fits before =
    let pause = min (n * second) one_day in
    let millis = day_millis n in
    let (left, turned, rest) =
      paused-pausing b now pause t (omega (arith, millis)) (omega (arith, millis)) in
    (
      pausing b pause now,
      left,
      ap (λ asked. refused b asked nanos now) (retry_after-decimal parse_date headers n clock h e),
      turned,
      omega (arith, millis, rest),
    )
