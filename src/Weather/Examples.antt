-- ===== src/Weather/Examples.antt =====
-- weather.go at concrete inputs.
use aura_risk.Base.{ℕ, ◌*◌, refl, true, false, none, some, List, [], ◌∷◌, arith}
use aura_risk.RateLimit.{minute}
use aura_risk.Weather.{
  WeatherConfig, WeatherResult, WeatherService, Breaker, second, allow_call, spend, record_result,
  store, make_room,
}
use aura_risk.Weather.Steps.{
  Event, asks, ends, answer, get_begin, join_or_call, get_end, fetch_end, happen, happen_all,
}
use aura_risk.Weather.Bounds.{IsBounded, happen_all-IsBounded}
use aura_risk.Weather.Age.{IsCurrent, get_begin-IsCurrent}
use aura_risk.Weather.Outgoing.{Traffic, calls, returns}

abbrev config : WeatherConfig
config = record {
  fresh_for = 15 * minute;
  stale_for = 180 * minute;
  max_entries = 2;
  breaker_threshold = 2;
  breaker_cooldown = 30 * second;
  max_requests_per_minute = 300;
}

abbrev closed : Breaker
closed = record {
  failures = 0;
  open_until = none;
  probing = false;
  tokens = 300 * minute;
  last_refill = none;
}

abbrev idle : WeatherService ℕ
idle = record {
  cfg = config;
  cache = [];
  inflight = [];
  landed = [];
  next_id = 0;
  breaker = closed;
}

abbrev three_cells : List (ℕ × Event ℕ)
three_cells =
    (10, asks 1)
    ∷ (11, asks 2)
    ∷ (12, asks 1)
    ∷ (20, ends 0 (some 7))
    ∷ (21, ends 1 (some 8))
    ∷ (30, asks 3)
    ∷ (40, ends 2 (some 9))
    ∷ []

bounds_example : IsBounded (happen_all three_cells idle)
bounds_example =
    happen_all-IsBounded three_cells idle
      (record { some_room = omega arith; bounded = omega arith; one_entry = tt; one_call = tt })

abbrev fetched : WeatherResult ℕ
fetched = record { content = 7; fetched_at = 5; stale = false }

age_example : IsCurrent config 0 6 fetched
unfolding answer get_begin join_or_call get_end fetch_end happen happen_all allow_call spend
    record_result store make_room
age_example =
    get_begin-IsCurrent 0 6 1 idle ((5, ends 0 (some 7)) ∷ []) fetched (omega arith)
      (record { flying = tt; done = tt; apart = tt; one_id = tt }) (omega arith, tt) refl

abbrev traffic : List (ℕ × Traffic)
traffic = (5, calls) ∷ (6, returns true) ∷ (7, calls) ∷ []
