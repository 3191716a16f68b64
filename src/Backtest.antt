-- ===== src/Backtest.antt =====
-- aurarisk-backend/internal/backtest/backtest.go: past floods and control days, scored hour by hour by
-- the live code. What a source fetches, and the reading of times, are parameters. Times are seconds
-- since a midnight that is long before the events; floats are those of Risk.
pub mod Hours
pub mod Consistent
mod Examples
use aura_risk.Base.{
  ℕ, zero, suc, ◌+◌, ◌-◌, ◌*◌, ◌/◌, ◌%◌, Bool, true, false, not, ◌&&◌, ◌||◌, Option, none, some,
  List, [], ◌∷◌, ltb, leb, ◌==◌, if◌then◌else◌, Text, text_eq, is_empty, String, codes, Result, ok,
  err,
}
use aura_risk.Base.Int.{ℤ, pos, negsuc, ltb_ℤ}
use aura_risk.Channels.{trim_space}
use aura_risk.Notifier.{Level, normal, level_rank}
use aura_risk.Risk.{
  OpenMeteoResponse, Terrain, RiverFlow, Hydrology, calculate_risk_score, f0, has_prefix,
}
use aura_risk.Risk.Float.{Floats}
use aura_risk.Risk.Levels.{score_to_level}
use aura_risk.Hydrology.River.{RiverSeries, LocatedFlow, river_flow_on}

abbrev pub day_seconds : ℕ
day_seconds = 86400

-- levelRank; a level that the map does not know is 0, as normal is.
unfoldable pub event_rank : Level → ℕ
unfolding level_rank
event_rank l = level_rank l - 1

-- Whole hours from a time to another, towards zero.
abbrev pub minus : ℕ → ℤ
minus zero = pos 0
minus (suc n) = negsuc n

abbrev pub hours_between : ℕ → ℕ → ℤ
hours_between at date = if leb at date then pos ((date - at) / 3600) else minus ((at - date) / 3600)

-- Outcome, with the local variable firstWarning.
pub record Outcome : Type 0 where
  pub max_score : ℤ
  pub max_level : Level
  pub warned : Bool
  pub lead_hours : ℤ
  pub had_terrain : Bool
  pub had_river : Bool
  pub first_warning : Option ℕ

abbrev pub is_some {ℓ} : {A : Type ℓ} → Option A → Bool
is_some none = false
is_some (some a) = true

-- score > o.MaxScore
abbrev pub with_score : ℤ → Outcome → Outcome
with_score score o =
    if ltb_ℤ o.max_score score
    then record o { max_score = score; max_level = score_to_level score }
    else o

-- levelRank[level] >= threshold && firstWarning < 0
abbrev pub with_warning : ℕ → ℕ → ℤ → ℤ → Outcome → Outcome
with_warning threshold i lead score o =
    if leb threshold (event_rank (score_to_level score)) && not (is_some o.first_warning)
    then record o { first_warning = some i; warned = true; lead_hours = lead }
    else o

abbrev pub start_outcome : Bool → Outcome
start_outcome had_terrain = record {
  max_score = pos 0;
  max_level = normal;
  warned = false;
  lead_hours = pos 0;
  had_terrain = had_terrain;
  had_river = false;
  first_warning = none;
}

abbrev pub code_at : ℕ → List ℕ → ℕ → ℕ
code_at old [] i = old
code_at old (c ∷ cs) zero = c
code_at old (c ∷ cs) (suc i) = code_at old cs i

-- The days from the start of the river's series to a time.
abbrev pub day_of : ℕ → ℕ → ℕ
day_of river_start at = (at - at % day_seconds - river_start) / day_seconds

-- A scored hour, from its score.
abbrev pub scored : ℕ → ℕ → ℤ → Bool → ℤ → Outcome → Outcome
scored threshold i lead river score o =
    with_warning threshold i lead score
      (with_score score (record o { had_river = o.had_river || river }))

abbrev pub river_history_days : ℕ
river_history_days = 92

module _ (fl : Floats) where
  open fl use {F}

  -- What FetchArchive gives: the response, whose weather code is that of the current hour, and the
  -- hourly weather codes.
  pub record Archive : Type 0 where
    pub response : OpenMeteoResponse fl
    pub weather_codes : List ℕ

  abbrev pub value_at : List F → ℕ → F
  value_at [] i = f0 fl
  value_at (v ∷ vs) zero = v
  value_at (v ∷ vs) (suc i) = value_at vs i

  -- atHour, of the hour's time and index
  abbrev pub at_hour : Archive → Text → ℕ → OpenMeteoResponse fl
  at_hour a time i = record (a.response) {
    current_time = time;
    current_precipitation = value_at a.response.precipitation i;
    weather_code = code_at a.response.weather_code a.weather_codes i;
  }

  abbrev pub flow_of : Option (LocatedFlow fl) → Option (RiverFlow fl)
  flow_of none = none
  flow_of (some f) = some (record { baseline = f.baseline; peak = f.peak })

  -- What a run is given for an event: the parsed times, the archive, the ground and the river.
  pub record Inputs : Type 0 where
    pub parse_hour : Text → Option ℕ
    pub archive : Archive
    pub terrain : Option (Terrain fl)
    pub river : List (RiverSeries fl)

  -- The body of the loop for a time in the window; a panic is none.
  abbrev pub score_hour :
      Inputs
      → ℕ
      → ℕ
      → ℕ
      → Text
      → ℕ
      → ℕ
      → Option (Option (LocatedFlow fl))
      → Outcome
      → Option Outcome
  score_hour inputs threshold date river_start time i at none o = none
  score_hour inputs threshold date river_start time i at (some flow) o =
      elim (calculate_risk_score fl (at_hour inputs.archive time i)
        (record { terrain = inputs.terrain; river = flow_of flow })) [
          | none ↦ none
          | some score ↦ some (scored threshold i (hours_between at date) (is_some flow) score o)
        ]

  -- The body of the loop, of the time of an hour.
  abbrev pub visit_hour : Inputs → ℕ → ℕ → ℕ → ℕ → Text → ℕ → Option ℕ → Outcome → Option Outcome
  visit_hour inputs threshold first date river_start time i none o = some o
  visit_hour inputs threshold first date river_start time i (some at) o =
      if ltb at first || leb (date + day_seconds) at
      then some o
      else score_hour inputs threshold date river_start time i at
          (river_flow_on fl inputs.river (day_of river_start at)) o

  -- The loop over the hours left.
  unfoldable pub visit_hours : Inputs → ℕ → ℕ → ℕ → ℕ → ℕ → List Text → Outcome → Option Outcome
  visit_hours inputs threshold first date river_start i [] o = some o
  visit_hours inputs threshold first date river_start i (time ∷ times) o =
      elim (visit_hour inputs threshold first date river_start time i (inputs.parse_hour time) o) [
        | none ↦ none
        | some o' ↦ visit_hours inputs threshold first date river_start (suc i) times o'
      ]

  -- evaluate, where the weather was fetched, for the rank of the threshold and the days of lead.
  unfoldable pub evaluate : Inputs → ℕ → ℕ → ℕ → Result (Option Outcome)
  evaluate inputs threshold lead_days date =
      if is_empty inputs.archive.response.hourly_time
      then err 0 "weather: no hourly data"
      else let first = date - lead_days * day_seconds in
        ok (
          visit_hours inputs threshold first date (first - river_history_days * day_seconds) 0
            inputs.archive.response.hourly_time (start_outcome (is_some inputs.terrain)))
