-- ===== src/Risk.antt =====
-- aurarisk-backend/internal/services/risk.go: the flood risk score. Go's float64 is a parameter: its
-- operations as `Floats`, and what the proofs ask of them as `IsMonotone`. NaN and signed zeros are
-- left out, as are negative weather codes, which score as 0 does. A slice of Go whose bounds are
-- out of range panics, which is `none` here.
pub mod Float
pub mod Order
pub mod Total
pub mod Growth
pub mod Levels
pub mod Confidence
pub mod Trust
pub mod Hundredths
mod Examples
use aura_risk.Base.{
  ℕ, zero, suc, ◌+◌, ◌-◌, ◌*◌, ◌≤◌, min, max, Bool, true, false, not, ◌&&◌, ◌||◌, Option, none,
  some, List, [], ◌∷◌, ltb, leb, ◌==◌, if◌then◌else◌, Text, length,
}
use aura_risk.Base.Int.{ℤ, pos, negsuc, sub_ℕ, max_ℤ}
use aura_risk.Risk.Float.{Floats}

abbrev pub forecast_hours : ℕ
forecast_hours = 6

abbrev pub historical_days : ℕ
historical_days = 7

-- values[start:stop]
unfoldable pub slice_from {ℓ} : {A : Type ℓ} → ℕ → ℕ → List A → Option (List A)
slice_from zero zero xs = some []
slice_from zero (suc n) [] = none
slice_from zero (suc n) (x ∷ xs) = elim (slice_from zero n xs) [
  | none ↦ none
  | some ys ↦ some (x ∷ ys)
]
slice_from (suc k) n [] = none
slice_from (suc k) n (x ∷ xs) = slice_from k n xs

abbrev pub slice {ℓ} : {A : Type ℓ} → ℕ → ℕ → List A → Option (List A)
slice start stop xs = if leb start stop then slice_from start (stop - start) xs else none

-- values[start:stop], where start may be negative
abbrev pub slice_at {ℓ} : {A : Type ℓ} → ℤ → ℕ → List A → Option (List A)
slice_at (pos start) stop xs = slice start stop xs
slice_at (negsuc n) stop xs = none

-- strings.HasPrefix
abbrev pub has_prefix : Text → Text → Bool
has_prefix t [] = true
has_prefix [] (p ∷ ps) = false
has_prefix (c ∷ cs) (p ∷ ps) = c == p && has_prefix cs ps

unfoldable pub hour_from : ℕ → Text → List Text → Option ℕ
hour_from i hour [] = none
hour_from i hour (t ∷ ts) =
    let rest = hour_from (suc i) hour ts in if has_prefix t hour then some i else rest

abbrev pub take_text : ℕ → Text → Text
take_text zero t = []
take_text (suc n) [] = []
take_text (suc n) (c ∷ cs) = c ∷ take_text n cs

module _ (fl : Floats) where
  open fl use {F, le, lit, add, sub, mul, div, truncate}

  -- The fields of OpenMeteoResponse that the score reads.
  pub record OpenMeteoResponse : Type 0 where
    pub current_time : Text
    pub current_precipitation : F
    pub weather_code : ℕ
    pub hourly_time : List Text
    pub precipitation : List F
    pub soil_moisture : List F

  pub record Terrain : Type 0 where
    pub elevation : F
    pub depression : F

  pub record RiverFlow : Type 0 where
    pub baseline : F
    pub peak : F

  pub record Hydrology : Type 0 where
    pub terrain : Option Terrain
    pub river : Option RiverFlow

  abbrev pub fmin : F → F → F
  fmin a b = if le a b then a else b

  abbrev pub fmax : F → F → F
  fmax a b = if le a b then b else a

  abbrev pub f0 : F
  f0 = lit 0 1

  -- currentHourIndex: the index, and whether the hour was matched.
  unfoldable pub current_hour_index : OpenMeteoResponse → ℕ × Bool
  current_hour_index w =
      let fallback : ℕ × Bool = (min (historical_days * 24) (length w.precipitation), false) in
      if leb 13 (length w.current_time)
      then elim (hour_from 0 (take_text 13 w.current_time) w.hourly_time) [
        | none ↦ fallback
        | some i ↦ (i, true)
      ]
      else fallback

  -- hoursAfter
  unfoldable pub hours_after : List F → ℕ → ℕ → Option (List F)
  hours_after values index n =
      let start = min (index + 1) (length values) in
      slice start (min (start + n) (length values)) values

  unfoldable pub sum_from : F → List F → F
  sum_from total [] = total
  sum_from total (v ∷ vs) = sum_from (add total v) vs

  -- sumPreviousHours
  unfoldable pub sum_previous_hours : List F → ℕ → ℕ → Option F
  sum_previous_hours values stop hours =
      elim (slice_at (max_ℤ (sub_ℕ stop hours) (pos 0)) (min stop (length values)) values) [
        | none ↦ none
        | some vs ↦ some (sum_from f0 vs)
      ]

  -- The forecast's part of the score: each value times 5, added up.
  unfoldable pub forecast_from : F → List F → F
  forecast_from total [] = total
  forecast_from total (v ∷ vs) = forecast_from (add total (mul v (lit 5 1))) vs

  -- latestPositive's value, of the first values counted back from the end.
  unfoldable pub latest_positive : List F → ℕ → Option F → Option F
  latest_positive [] n best = best
  latest_positive (v ∷ vs) zero best = best
  latest_positive (v ∷ vs) (suc n) best = latest_positive vs n (if le v f0 then best else some v)

  -- soilMoistureRiskScore
  unfoldable pub soil_score : List F → ℕ → F
  soil_score values stop = elim (latest_positive values stop none) [
    | none ↦ f0
    | some v ↦ fmin (lit 20 1) (mul (div v (lit 4 10)) (lit 20 1))
  ]

  -- lowLyingScore
  unfoldable pub low_lying_score : Option Terrain → F
  low_lying_score none = f0
  low_lying_score (some t) =
      fmin (lit 10 1) (mul (div (fmax f0 t.depression) (lit 15 1)) (lit 10 1))

  -- riverScore
  unfoldable pub river_score : Option RiverFlow → F
  river_score none = f0
  river_score (some r) =
      if not (le (lit 10 1) r.peak)
      then f0
      else fmin (lit 20 1) (
          fmax f0 (
            mul (div (sub (div r.peak (fmax r.baseline (lit 10 1))) (lit 15 10)) (lit 25 10))
              (lit 20 1)))

  unfoldable pub severity : ℕ → F
  severity code =
      if leb 95 code
      then lit 30 1
      else if leb 80 code
      then lit 15 1
      else if leb 60 code
      then lit 10 1
      else f0

  unfoldable pub rain_score : F → F → F
  rain_score two_days week =
      add (fmin (lit 20 1) (mul (div two_days (lit 50 1)) (lit 20 1)))
        (fmin (lit 15 1) (mul (div week (lit 150 1)) (lit 15 1)))

  -- int(math.Min(100, math.Max(0, raw)))
  unfoldable pub clamp : F → ℤ
  clamp raw = truncate (fmin (lit 100 1) (fmax f0 raw))

  -- The sum of the seven terms, in the source's order.
  unfoldable pub raw_score : OpenMeteoResponse → Hydrology → ℕ → List F → F → F → F
  raw_score w h now ahead two_days week =
      add
        (add
          (add
            (add
              (add (add (mul w.current_precipitation (lit 10 1)) (forecast_from f0 ahead))
                (rain_score two_days week))
              (soil_score w.soil_moisture (now + 1)))
            (low_lying_score h.terrain))
          (river_score h.river))
        (severity w.weather_code)

  -- The three reads of the hourly rain, which may panic, and the score.
  unfoldable pub score_at : OpenMeteoResponse → Hydrology → ℕ → Option ℤ
  score_at w h now = elim (hours_after w.precipitation now forecast_hours) [
    | none ↦ none
    | some ahead ↦ elim (sum_previous_hours w.precipitation (now + 1) 48) [
      | none ↦ none
      | some two_days ↦ elim (sum_previous_hours w.precipitation (now + 1) (historical_days * 24)) [
        | none ↦ none
        | some week ↦ some (clamp (raw_score w h now ahead two_days week))
      ]
    ]
  ]

  -- CalculateRiskScore
  unfoldable pub calculate_risk_score : OpenMeteoResponse → Hydrology → Option ℤ
  calculate_risk_score w h = score_at w h (current_hour_index w).0
