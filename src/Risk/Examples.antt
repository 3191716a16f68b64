-- ===== src/Risk/Examples.antt =====
-- risk.go at concrete inputs, with numbers in hundredths for floats.
use aura_risk.Base.{◌≡◌, ◌≢◌, ◌↔◌, refl, false, some, [], ◌∷◌, Text, codes, arith}
use aura_risk.Base.Int.{pos}
use aura_risk.Risk.{
  OpenMeteoResponse, Hydrology, calculate_risk_score, score_at, hours_after, current_hour_index,
  hour_from, slice_from, sum_previous_hours, clamp, raw_score, forecast_from, rain_score, sum_from,
  soil_score, latest_positive, low_lying_score, river_score, severity,
}
use aura_risk.Risk.Confidence.{Confidence, high, medium, assess_confidence, IsFull}
use aura_risk.Risk.Trust.{assess_confidence-IsFull}
use aura_risk.Risk.Growth.{NoHigher, calculate_risk_score_mono}
use aura_risk.Risk.Hundredths.{hundredths, hundredths-IsMonotone}

abbrev at_six : Text
at_six = codes "2026-05-06T06"

abbrev at_seven : Text
at_seven = codes "2026-05-06T07"

abbrev light_rain : OpenMeteoResponse hundredths
light_rain = record {
  current_time = at_six;
  current_precipitation = 150;
  weather_code = 61;
  hourly_time = at_six ∷ at_seven ∷ [];
  precipitation = 150 ∷ 300 ∷ [];
  soil_moisture = 20 ∷ 0 ∷ [];
}

abbrev heavy_rain : OpenMeteoResponse hundredths
heavy_rain = record {
  current_time = at_six;
  current_precipitation = 400;
  weather_code = 95;
  hourly_time = at_six ∷ at_seven ∷ [];
  precipitation = 400 ∷ 300 ∷ [];
  soil_moisture = 20 ∷ 0 ∷ [];
}

abbrev valley : Hydrology hundredths
valley = record {
  terrain = some (record { elevation = 120000; depression = 1500 });
  river = some (record { baseline = 2000; peak = 8000 });
}

abbrev slope : Hydrology hundredths
slope = record {
  terrain = some (record { elevation = 120000; depression = 0 });
  river = some (record { baseline = 2000; peak = 2000 });
}

scores : calculate_risk_score hundredths light_rain slope ≡ some (pos 50)
unfolding calculate_risk_score score_at hours_after current_hour_index hour_from slice_from
    sum_previous_hours clamp raw_score forecast_from rain_score sum_from soil_score latest_positive
    low_lying_score river_score severity
scores = refl

high_scores : calculate_risk_score hundredths heavy_rain valley ≡ some (pos 100)
unfolding calculate_risk_score score_at hours_after current_hour_index hour_from slice_from
    sum_previous_hours clamp raw_score forecast_from rain_score sum_from soil_score latest_positive
    low_lying_score river_score severity
high_scores = refl

growth_example :
    NoHigher
      (calculate_risk_score hundredths light_rain slope)
      (calculate_risk_score hundredths heavy_rain valley)
growth_example =
    calculate_risk_score_mono hundredths hundredths-IsMonotone light_rain heavy_rain slope valley
      (record {
        same_time = refl;
        same_hours = refl;
        same_soil = refl;
        now = refl;
        hourly = (refl, (refl, tt));
        code = omega arith;
        ground = refl;
        river = (refl, refl);
      })

trust_example :
    (c : Confidence) × (assess_confidence hundredths heavy_rain (some 30) false 90 [] ≡ some c)
    × (c.level ≢ high)
    × (c.level ≡ medium ↔ IsFull hundredths heavy_rain (some 30) false 90 [])
trust_example =
    assess_confidence-IsFull hundredths hundredths-IsMonotone heavy_rain (some 30) false 90 []
