-- ===== src/Weather/Steps.antt =====
-- weather.go: Get and fetch, as steps that other calls may come between.
use aura_risk.Base.{
  ℕ, suc, ◌-◌, ◌≤◌, Bool, true, false, not, Option, none, some, List, [], ◌∷◌, ltb, leb, ◌==◌,
  if◌then◌else◌, find, delete,
}
use aura_risk.Weather.{
  WeatherConfig, WeatherResult, CachedWeather, Flight, Landed, WeatherService, in_cell, store,
  allow_call, record_result, is_set,
}

abbrev pub flies_to : ℕ → Flight → Bool
flies_to cell f = f.cell == cell

abbrev pub has_flight : ℕ → Flight → Bool
has_flight id f = f.id == id

-- What the first part of Get leads to: an answer from the cache, no call allowed, or waiting for the
-- call of a number; with the cached entry that a fallback may use.
pub data Began (D : Type 0) : Type 0 where
  hit : CachedWeather D → Began D
  throttled : Option (CachedWeather D) → Began D
  waits : ℕ → Option (CachedWeather D) → Began D

-- What happens to the service: a request begins, or the fetch of a call ends.
pub data Event (D : Type 0) : Type 0 where
  asks : ℕ → Event D
  ends : ℕ → Option D → Event D

module _ {D : Type 0} where
  abbrev pub has_landed : ℕ → Landed D → Bool
  has_landed id l = l.id == id

  abbrev pub is_fresh : ℕ → WeatherConfig → Option (CachedWeather D) → Bool
  is_fresh now cfg none = false
  is_fresh now cfg (some c) = ltb (now - c.fetched_at) cfg.fresh_for

  -- Once the call budget is asked.
  abbrev pub launch :
      ℕ → Option (CachedWeather D) → WeatherService D → Bool → Began D × WeatherService D
  launch cell cached s false = (throttled cached, s)
  launch cell cached s true = (
    waits s.next_id cached,
    record s {
      inflight = record { id = s.next_id; cell = cell } ∷ s.inflight;
      next_id = suc s.next_id;
    },
  )

  -- Where the cache has no fresh entry.
  unfoldable pub join_or_call :
      ℕ
      → ℕ
      → Option (CachedWeather D)
      → WeatherService D
      → Option Flight
      → Began D × WeatherService D
  join_or_call now cell cached s (some f) = (waits f.id cached, s)
  join_or_call now cell cached s none =
      let (ok, breaker) = allow_call now s.cfg.max_requests_per_minute s.breaker in
      launch cell cached (record s { breaker = breaker }) ok

  abbrev pub hit_or :
      Option (CachedWeather D)
      → Bool
      → WeatherService D
      → Began D × WeatherService D
      → Began D × WeatherService D
  hit_or none fresh s rest = rest
  hit_or (some c) fresh s rest = if fresh then (hit c, s) else rest

  -- The part of Get under the mutex.
  unfoldable pub get_begin : ℕ → ℕ → WeatherService D → Began D × WeatherService D
  unfolding join_or_call
  get_begin now cell s =
      let cached = find (in_cell cell) s.cache in
      hit_or cached (is_fresh now s.cfg cached) s
        (join_or_call now cell cached s (find (flies_to cell) s.inflight))

  -- fallback; `none` is ErrWeatherUnavailable.
  unfoldable pub fallback : ℕ → WeatherConfig → Option (CachedWeather D) → Option (WeatherResult D)
  fallback now cfg none = none
  fallback now cfg (some c) =
      if leb (now - c.fetched_at) cfg.stale_for
      then some (record { content = c.content; fetched_at = c.fetched_at; stale = true })
      else none

  abbrev pub stored : ℕ → ℕ → Option D → WeatherService D → List (CachedWeather D)
  stored now cell none s = s.cache
  stored now cell (some d) s =
      store now s.cfg (record { cell = cell; content = d; fetched_at = now }) s.cache

  -- The part of fetch under the mutex, when the call of a flight comes back.
  unfoldable pub fetch_end : ℕ → Flight → Option D → WeatherService D → WeatherService D
  fetch_end now f answer s = record s {
    inflight = delete (flies_to f.cell) s.inflight;
    landed = record { id = f.id; content = answer; fetched_at = now } ∷ s.landed;
    cache = stored now f.cell answer s;
    breaker = record_result now s.cfg (not (is_set answer)) s.breaker;
  }

  -- The end of Get, once the call that it waits for is done.
  unfoldable pub get_end :
      ℕ → WeatherConfig → Option (CachedWeather D) → Landed D → Option (WeatherResult D)
  unfolding fallback
  get_end now cfg cached l = elim l.content [
    | none ↦ fallback now cfg cached
    | some d ↦ some (record { content = d; fetched_at = l.fetched_at; stale = false })
  ]

  -- A fetch ends only once: where no call of the number is in flight, nothing happens.
  abbrev pub end_of : ℕ → Option Flight → Option D → WeatherService D → WeatherService D
  end_of now none answer s = s
  end_of now (some f) answer s = fetch_end now f answer s

  unfoldable pub happen : ℕ → Event D → WeatherService D → WeatherService D
  happen now (asks cell) s = (get_begin now cell s).1
  happen now (ends id answer) s = end_of now (find (has_flight id) s.inflight) answer s

  unfoldable pub happen_all : List (ℕ × Event D) → WeatherService D → WeatherService D
  happen_all [] s = s
  happen_all ((now, e) ∷ more) s = happen_all more (happen now e s)

  abbrev pub Ordered : ℕ → List (ℕ × Event D) → Type 0
  Ordered n [] = Unit {0}
  Ordered n ((now, e) ∷ more) = (n ≤ now) × Ordered now more

  abbrev pub landed_answer :
      ℕ → WeatherConfig → Option (CachedWeather D) → Option (Landed D) → Option (WeatherResult D)
  landed_answer now cfg cached none = none
  landed_answer now cfg cached (some l) = get_end now cfg cached l

  -- What Get returns at a time, in the service as it is then; `none` while its call is not done, and
  -- for an error. The caller's context is not cancelled.
  unfoldable pub answer : ℕ → WeatherConfig → Began D → WeatherService D → Option (WeatherResult D)
  unfolding fallback
  answer now cfg (hit c) s =
      some (record { content = c.content; fetched_at = c.fetched_at; stale = false })
  answer now cfg (throttled cached) s = fallback now cfg cached
  answer now cfg (waits id cached) s = landed_answer now cfg cached (find (has_landed id) s.landed)
