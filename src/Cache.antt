-- ===== src/Cache.antt =====
-- src/cache.rs, the catalogue rows: `TtlCache` without its writer (Cache/Writer.antt). Time is an
-- argument: `now` is the wall clock at the call, and `elapsed` of a moment that lies in the future,
-- after a step back of the clock, is 0.
pub mod Eviction
pub mod Reading
pub mod Writer
pub mod Memo
mod Tests
use den_atlas.Prelude.{
  ℕ, zero, suc, ◌+◌, ◌-◌, Bool, true, false, not, ◌&&◌, List, [], ◌∷◌, Option, none, some, ltb, leb,
  if◌then◌else◌, length, wrapping_add,
}
use den_atlas.Prelude.Bytes.{Text, text_dec}
use den_atlas.Prelude.Map.{lookup, insert, remove, contains_key, min_by_key}

pub record Entry : Type 0 where
  pub stored : ℕ
  pub value : Text

abbrev pub Rows : Type 0
Rows = List (Text × Entry)

abbrev pub default_max_entries : ℕ
default_max_entries = 2000

-- The cache, with the counters that its writer shares with it. `on_disk` says whether it has a file.
pub record TtlCache : Type 0 where
  pub ttl : ℕ
  pub max_entries : ℕ
  pub map : Rows
  pub on_disk : Bool
  pub generation : ℕ
  pub saving : Bool
  pub writes : ℕ
  pub bytes : ℕ
  pub errors : ℕ
  pub last_write_ms : ℕ

unfoldable pub evict_one : Rows → Rows
evict_one m = elim (min_by_key (λ e. e.stored) m) [
  | none ↦ m
  | some (oldest, _) ↦ remove text_dec oldest m
]

pub data Lookup : Type 0 where
  fresh stale : Text → Lookup
  miss : Lookup

unfoldable pub with_max_entries : ℕ → ℕ → TtlCache
with_max_entries ttl max_entries = record {
  ttl = ttl;
  max_entries = max_entries;
  map = [];
  on_disk = false;
  generation = 0;
  saving = false;
  writes = 0;
  bytes = 0;
  errors = 0;
  last_write_ms = 0;
}

-- What `std::fs::read` says of the file.
pub data ReadResult : Type 0 where
  read : Text → ReadResult
  not_found failed : ReadResult

-- `while map.len() > cache.max_entries { evict_one(&mut map) }`, with a round for each row.
unfoldable pub evict_down : ℕ → ℕ → Rows → Rows
evict_down zero cap m = m
evict_down (suc rounds) cap m =
    let rest = evict_down rounds cap (evict_one m) in if ltb cap (length m) then rest else m

-- `decode` is `serde_json::from_slice`.
unfoldable pub kept_rows : (Text → Option Rows) → ReadResult → Rows
kept_rows decode (read bytes) = elim (decode bytes) [ none ↦ [] | some m ↦ m ]
kept_rows decode not_found = []
kept_rows decode failed = []

unfoldable pub persisted : (Text → Option Rows) → ℕ → ReadResult → TtlCache
unfolding with_max_entries kept_rows
persisted decode ttl result =
    let m = kept_rows decode result in
    record (with_max_entries ttl default_max_entries) {
      map = evict_down (length m) default_max_entries m;
      on_disk = true;
    }

unfoldable pub get : TtlCache → Text → ℕ → Lookup
get c key now = elim (lookup text_dec key c.map) [
  | none ↦ miss
  | some e ↦ if ltb (now - e.stored) c.ttl then fresh e.value else stale e.value
]

unfoldable pub age : TtlCache → Text → ℕ → Option ℕ
age c key now = elim (lookup text_dec key c.map) [ none ↦ none | some e ↦ some (now - e.stored) ]

-- The rows after `put`.
unfoldable pub put_row : ℕ → Rows → Text → Text → ℕ → Rows
put_row cap m key value now =
    let room = if leb cap (length m) && not (contains_key text_dec key m) then evict_one m else m in
    insert text_dec key (record { stored = now; value = value }) room

-- `put` while it holds the lock; then it calls `save` (Cache/Writer.antt).
unfoldable pub put : TtlCache → Text → Text → ℕ → TtlCache
put c key value now = record c {
  map = put_row c.max_entries c.map key value now;
  generation = wrapping_add c.generation 1;
}
