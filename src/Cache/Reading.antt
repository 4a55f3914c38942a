-- ===== src/Cache/Reading.antt =====
-- What `get` and `age` of src/cache.rs say of a row, through `put` and the clock.
use den_atlas.Prelude.{ℕ, ◌-◌, ◌<◌, ◌≡◌, ◌≢◌, ◌⊎◌, true, arith, length, ltb, if◌then◌else◌}
use den_atlas.Prelude.Bytes.{Text, text_dec}
use den_atlas.Prelude.Map.{contains_key, lookup-insert}
use den_atlas.Cache.{Entry, TtlCache, fresh, stale, get, age, put, put_row, evict_one}
use den_atlas.Cache.Eviction.{lookup-put_row_room}

-- The row just stored is what its key reads, whatever else the cache held: fresh for as long as less
-- than the time to live has passed, a clock that went back included, and the same row, stale, after.
pub get-put :
    (c : TtlCache) (key value : Text) (now later : ℕ)
    → get (put c key value now) key later
      ≡ (if ltb (later - now) c.ttl then fresh value else stale value)
unfolding get put put_row
get-put c key value now later =
    let e : Entry = record { stored = now; value = value } in
    ground (
      arith,
      lookup-insert text_dec key key e c.map,
      lookup-insert text_dec key key e (evict_one c.map),
    )

-- Refreshing a row, or storing one while there is room, changes the answer for no other key: nor its
-- age.
pub get-put_ne :
    (c : TtlCache) (key q value : Text) (now later : ℕ)
    → key ≢ q
    → (length c.map < c.max_entries) ⊎ (contains_key text_dec key c.map ≡ true)
    → (get (put c key value now) q later ≡ get c q later)
      × (age (put c key value now) q later ≡ age c q later)
unfolding get age put
get-put_ne c key q value now later ne room =
    ground (arith, lookup-put_row_room c.max_entries c.map key value now room q)
