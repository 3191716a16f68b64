-- ===== src/Weather.antt =====
-- aurarisk-backend/internal/services/weather.go: the cache of weather by grid cell, shared fetches,
-- the circuit breaker and the call budget. Times are nanoseconds; Go's zero time is `none`. A cell
-- is a number, and what a fetch gives is a parameter. The budget's float tokens are counted in parts
-- of 1/`minute`; rounding, logging and metrics are left out. Each part of `get` and `fetch` that
-- holds the mutex is one step.
pub mod Steps
pub mod Bounds
pub mod Numbering
pub mod Age
pub mod Suspension
pub mod Outgoing
mod Examples
use aura_risk.Base.{
  ℕ, zero, suc, ◌+◌, ◌-◌, ◌*◌, ◌≤◌, min, Bool, true, false, not, ◌&&◌, ◌||◌, Option, none, some,
  List, [], ◌∷◌, ltb, leb, ◌==◌, if◌then◌else◌, length, find, exists, select, delete,
}
use aura_risk.RateLimit.{minute}

pub record WeatherConfig : Type 0 where
  pub fresh_for : ℕ
  pub stale_for : ℕ
  pub max_entries : ℕ
  pub breaker_threshold : ℕ
  pub breaker_cooldown : ℕ
  pub max_requests_per_minute : ℕ

abbrev pub second : ℕ
second = 1000000000

abbrev pub or_default : ℕ → ℕ → ℕ
or_default zero d = d
or_default (suc n) d = suc n

-- withDefaults, of a configuration with no negative value.
unfoldable pub with_defaults : WeatherConfig → WeatherConfig
with_defaults c = record {
  fresh_for = or_default c.fresh_for (15 * minute);
  stale_for = or_default c.stale_for (180 * minute);
  max_entries = or_default c.max_entries 5000;
  breaker_threshold = or_default c.breaker_threshold 5;
  breaker_cooldown = or_default c.breaker_cooldown (30 * second);
  max_requests_per_minute = or_default c.max_requests_per_minute 300;
}

pub record WeatherResult (D : Type 0) : Type 0 where
  pub content : D
  pub fetched_at : ℕ
  pub stale : Bool

pub record CachedWeather (D : Type 0) : Type 0 where
  pub cell : ℕ
  pub content : D
  pub fetched_at : ℕ

-- inflight: a call for a cell that is not done, by a number for its address.
pub record Flight : Type 0 where
  pub id : ℕ
  pub cell : ℕ

-- A call that is done; it failed where it has no data.
pub record Landed (D : Type 0) : Type 0 where
  pub id : ℕ
  pub content : Option D
  pub fetched_at : ℕ

pub record Breaker : Type 0 where
  pub failures : ℕ
  pub open_until : Option ℕ
  pub probing : Bool
  pub tokens : ℕ
  pub last_refill : Option ℕ

pub record WeatherService (D : Type 0) : Type 0 where
  pub cfg : WeatherConfig
  pub cache : List (CachedWeather D)
  pub inflight : List Flight
  pub landed : List (Landed D)
  pub next_id : ℕ
  pub breaker : Breaker

abbrev pub is_before : ℕ → Option ℕ → Bool
is_before now none = false
is_before now (some t) = ltb now t

abbrev pub is_set {ℓ} : {A : Type ℓ} → Option A → Bool
is_set none = false
is_set (some a) = true

abbrev pub refilled : ℕ → ℕ → Breaker → ℕ
refilled now n b = elim b.last_refill [
  | none ↦ b.tokens
  | some t ↦ min (n * minute) (b.tokens + (now - t) * n)
]

-- The part of allowCallLocked that spends a token.
unfoldable pub spend : ℕ → ℕ → Breaker → Bool × Breaker
spend now n b =
    if ltb (refilled now n b) minute
    then (false, record b { probing = false; tokens = refilled now n b; last_refill = some now })
    else (true, record b { tokens = refilled now n b - minute; last_refill = some now })

-- allowCallLocked
unfoldable pub allow_call : ℕ → ℕ → Breaker → Bool × Breaker
allow_call now n b =
    if is_before now b.open_until
    then (false, b)
    else if is_set b.open_until && b.probing
    then (false, b)
    else spend now n (record b { probing = b.probing || is_set b.open_until })

-- recordResultLocked, given whether the call failed.
unfoldable pub record_result : ℕ → WeatherConfig → Bool → Breaker → Breaker
record_result now cfg false b = record b { probing = false; failures = 0; open_until = none }
record_result now cfg true b = record b {
  probing = false;
  failures = suc b.failures;
  open_until =
      if is_set b.open_until || leb cfg.breaker_threshold (suc b.failures)
      then some (now + cfg.breaker_cooldown)
      else b.open_until;
}

-- CircuitOpen
unfoldable pub circuit_open : ℕ → Breaker → Bool
circuit_open now b = is_before now b.open_until

module _ {D : Type 0} where
  unfoldable pub new_weather_service : WeatherConfig → WeatherService D
  unfolding with_defaults
  new_weather_service c = record {
    cfg = with_defaults c;
    cache = [];
    inflight = [];
    landed = [];
    next_id = 0;
    breaker = record {
      failures = 0;
      open_until = none;
      probing = false;
      tokens = (with_defaults c).max_requests_per_minute * minute;
      last_refill = none;
    };
  }

  abbrev pub in_cell : ℕ → CachedWeather D → Bool
  in_cell k c = c.cell == k

  abbrev pub is_recent : ℕ → ℕ → CachedWeather D → Bool
  is_recent now stale_for c = leb (now - c.fetched_at) stale_for

  -- The oldest entry that the loop of storeLocked ends with.
  unfoldable pub oldest_from :
      Option (CachedWeather D) → List (CachedWeather D) → Option (CachedWeather D)
  oldest_from best [] = best
  oldest_from none (c ∷ cs) = oldest_from (some c) cs
  oldest_from (some b) (c ∷ cs) =
      oldest_from (some (if ltb c.fetched_at b.fetched_at then c else b)) cs

  abbrev pub drop_cell : Option (CachedWeather D) → List (CachedWeather D) → List (CachedWeather D)
  drop_cell none cs = cs
  drop_cell (some c) cs = delete (in_cell c.cell) cs

  -- The eviction of storeLocked.
  unfoldable pub make_room : ℕ → WeatherConfig → List (CachedWeather D) → List (CachedWeather D)
  make_room now cfg cache =
      let kept = select (is_recent now cfg.stale_for) cache in
      if leb cfg.max_entries (length kept) then drop_cell (oldest_from none kept) kept else kept

  -- storeLocked
  unfoldable pub store :
      ℕ → WeatherConfig → CachedWeather D → List (CachedWeather D) → List (CachedWeather D)
  unfolding make_room
  store now cfg entry cache =
      let room =
        if not (exists (in_cell entry.cell) cache) && leb cfg.max_entries (length cache)
        then make_room now cfg cache
        else cache in
      entry ∷ delete (in_cell entry.cell) room
