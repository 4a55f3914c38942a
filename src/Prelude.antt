-- ===== src/Prelude.antt =====
-- The names that every part shares: the libraries', passed on, the Boolean tests, lists over the
-- native numbers, bytes, maps as association lists, and counting over tasks.
mod Tests
mod Lists
pub mod Binary
pub mod Bytes
pub mod Decimal
pub mod Map
pub mod Integers
pub mod Perms
pub mod Results
pub mod Rows
pub mod Separators
pub mod Spaces
pub mod Spans
pub mod Tasks
pub use Tests.*
pub use Lists.*
pub use Prim.Native.Nat.{ℕ, zero, suc, ◌+◌, ◌-◌, ◌*◌, ◌/◌, ◌%◌, ◌^◌, ◌≤◌, ◌<◌, min, max}
pub use mathlib.Core.Path.{◌≡◌, refl, sym, ap, ◌∙◌, subst}
pub use mathlib.Core.Logic.{◌≢◌, ◌↔◌, ◌⊎◌, inl, inr, ite, if_pos, if_neg}
pub use mathlib.Core.Bool.{Bool, true, false, not, ◌&&◌, ◌||◌}
pub use mathlib.Core.Option.{Option, none, some}
pub use mathlib.Core.List.{List, [], ◌∷◌, ◌++◌, map}
pub use native.Mathlib.Omega.{arith}
unfoldable pub use native.Mathlib.Decide.{dec_lt, dec_le, ℕ_discrete}

-- The arithmetic of a w-bit counter, as `fetch_add` and `fetch_sub` do it.
abbrev pub word : ℕ
word = 2 ^ 64

abbrev pub wrapping_add : ℕ → ℕ → ℕ
wrapping_add a b = (a + b) % word

abbrev pub wrapping_sub : ℕ → ℕ → ℕ
wrapping_sub a b = (a + word - b) % word

-- The largest u64, where saturating operations stop.
abbrev pub max_word : ℕ
max_word = word - 1

abbrev pub saturating_mul : ℕ → ℕ → ℕ
saturating_mul a b = min (a * b) max_word
