-- ===== src/Backtest/Examples.antt =====
-- The evaluation of backtest.go at concrete inputs, with numbers in hundredths for floats.
use aura_risk.Base.{
  ℕ, ◌+◌, ◌*◌, ◌≡◌, refl, true, false, Option, none, some, [], ◌∷◌, if◌then◌else◌, Text, text_eq,
  codes, ok, arith,
}
use aura_risk.Base.Int.{pos, negsuc}
use aura_risk.Notifier.{alert, level_rank}
use aura_risk.Risk.{
  calculate_risk_score, score_at, hours_after, current_hour_index, hour_from, slice_from,
  sum_previous_hours, clamp, raw_score, forecast_from, rain_score, sum_from, soil_score,
  latest_positive, low_lying_score, river_score, severity,
}
use aura_risk.Risk.Levels.{score_to_level}
use aura_risk.Risk.Hundredths.{hundredths, hundredths-IsMonotone}
use aura_risk.Hydrology.River.{flow_among}
use aura_risk.Backtest.{Archive, Inputs, Outcome, event_rank, visit_hours, evaluate}
use aura_risk.Backtest.Hours.{Hours, HoursOf}
use aura_risk.Backtest.Consistent.{IsConsistent, evaluate-IsConsistent}

abbrev at_six : Text
at_six = codes "2026-05-06T06:00"

abbrev at_seven : Text
at_seven = codes "2026-05-06T07:00"

-- Day 200 is the event's.
abbrev parse_hour : Text → Option ℕ
parse_hour t =
    if text_eq t at_six
    then some (200 * 86400 + 6 * 3600)
    else if text_eq t at_seven
    then some (200 * 86400 + 7 * 3600)
    else none

abbrev archive : Archive hundredths
archive = record {
  response = record {
    current_time = [];
    current_precipitation = 0;
    weather_code = 0;
    hourly_time = at_six ∷ at_seven ∷ [];
    precipitation = 150 ∷ 300 ∷ [];
    soil_moisture = 20 ∷ 0 ∷ [];
  };
  weather_codes = 61 ∷ 95 ∷ [];
}

abbrev flood : Inputs hundredths
flood = record { parse_hour = parse_hour; archive = archive; terrain = none; river = [] }

warned_flood :
    evaluate hundredths flood 2 3 (200 * 86400)
    ≡ ok (
        some (record {
          max_score = pos 72;
          max_level = alert;
          warned = true;
          lead_hours = negsuc 5;
          had_terrain = false;
          had_river = false;
          first_warning = some 0;
        }))
unfolding evaluate visit_hours flow_among event_rank level_rank score_to_level calculate_risk_score
    score_at hours_after current_hour_index hour_from slice_from sum_previous_hours clamp raw_score
    forecast_from rain_score sum_from soil_score latest_positive low_lying_score river_score
    severity
warned_flood = refl

flood_example :
    (o : Outcome) × (hours : Hours) × (evaluate hundredths flood 2 3 (200 * 86400) ≡ ok (some o))
    × HoursOf hundredths flood
        (197 * 86400)
        (200 * 86400)
        (105 * 86400)
        0
        (at_six ∷ at_seven ∷ [])
        hours
    × IsConsistent 2 hours o
flood_example =
    evaluate-IsConsistent hundredths hundredths-IsMonotone flood refl 2 (200 * 86400) 3
      (omega arith) refl
