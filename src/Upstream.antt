-- ===== src/Upstream.antt =====
-- src/util.rs: the pause on an upstream and what its headers ask for. A Duration is its nanoseconds,
-- from 0 to its largest value; a sum of two that is larger panics, here `none`. Milliseconds are words
-- of 64 bits. The clock's readings are arguments, and a call is taken as a whole.
pub mod Pauses
pub mod Allowance
mod Tests
use den_atlas.Prelude.{
  ℕ, ◌+◌, ◌-◌, ◌*◌, ◌/◌, ◌%◌, ◌^◌, Bool, true, false, ◌&&◌, ◌||◌, not, List, [], ◌∷◌, Option, none,
  some, min, max, ltb, leb, ◌==◌, if◌then◌else◌, word,
}

abbrev pub second : ℕ
second = 1000000000

abbrev pub millis_of : ℕ → ℕ
millis_of d = d / 1000000 % word

abbrev pub max_duration : ℕ
max_duration = word * second - 1

abbrev pub add_durations : ℕ → ℕ → Option ℕ
add_durations a b = if leb (a + b) max_duration then some (a + b) else none

abbrev pub one_day : ℕ
one_day = 86400 * second

pub record Backoff : Type 0 where
  pub until : ℕ
  pub refusals : ℕ
  pub base : ℕ
  pub max_pause : ℕ

unfoldable pub new : ℕ → ℕ → Backoff
new base max_pause = record { until = 0; refusals = 0; base = base; max_pause = max_pause }

unfoldable pub paused : Backoff → ℕ → Option ℕ
paused b now = if ltb now b.until then some ((b.until - now) * 1000000) else none

-- The pause after so many refusals in a row, before its jitter.
unfoldable pub doubled : Backoff → ℕ
doubled b = min (min (b.base * 2 ^ min b.refusals 16) max_duration) b.max_pause

-- The nanoseconds are of the clock's current second.
unfoldable pub jitter : ℕ → ℕ → ℕ
jitter pause nanos = let spread = millis_of pause / 4 in if spread == 0 then 0 else nanos % spread

unfoldable pub pause_for : Backoff → Option ℕ → ℕ → Option ℕ
unfolding doubled jitter
pause_for b (some asked) nanos = some (min asked one_day)
pause_for b none nanos = add_durations (doubled b) (jitter (doubled b) nanos * 1000000)

abbrev pub pausing : Backoff → ℕ → ℕ → Backoff
pausing b pause now = record b {
  until = max b.until (max ((now + millis_of pause) % word) 1);
  refusals = (b.refusals + 1) % 2 ^ 32;
}

unfoldable pub refused : Backoff → Option ℕ → ℕ → ℕ → Option (ℕ × Backoff)
unfolding pause_for
refused b retry_after nanos now = elim (pause_for b retry_after nanos) [
  | none ↦ none
  | some pause ↦ some (pause, pausing b pause now)
]

-- Refusals in a row: what each sent as Retry-After, and the clock.
pub record Refusal : Type 0 where
  pub retry_after : Option ℕ
  pub nanos : ℕ
  pub now : ℕ

unfoldable pub refused_all : Backoff → List Refusal → Option Backoff
refused_all b [] = some b
refused_all b (r ∷ rs) = elim (refused b r.retry_after r.nanos r.now) [
  | none ↦ none
  | some (pause, b') ↦ refused_all b' rs
]

unfoldable pub answered : Backoff → Backoff
answered b = record b { refusals = 0; until = 0 }

unfoldable pub backs_off : ℕ → Bool
backs_off status = status == 429 || (leb 500 status && ltb status 600)

-- The slot of a message, and whether it is due.
unfoldable pub log_due : ℕ → ℕ → ℕ → ℕ × Bool
log_due slot every now =
    if not (slot == 0) && ltb (now - slot) every then (slot, false) else (max now 1, true)
