-- ===== src/Risk/Confidence.antt =====
-- confidence.go: how far an assessment's inputs can be trusted. Each reason is a value here, for its
-- sentence; the weather's time of observation, which openmeteo.go parses, and the missing inputs are
-- arguments, as they are in the source or nearly so.
use aura_risk.Base.{
  ℕ, ◌+◌, ◌-◌, ◌*◌, ◌≤◌, min, ◌≡◌, Bool, true, false, Option, none, some, List, [], ◌∷◌, ◌++◌, ltb,
  if◌then◌else◌, length,
}
use aura_risk.RateLimit.{minute}
use aura_risk.Risk.Float.{Floats}
use aura_risk.Risk.{
  forecast_hours, historical_days, OpenMeteoResponse, Hydrology, current_hour_index, hours_after,
  latest_positive,
}

pub data ConfidenceLevel : Type 0 where
  low : ConfidenceLevel
  medium : ConfidenceLevel
  high : ConfidenceLevel

pub data Reason : Type 0 where
  no_elevation : Reason
  no_river : Reason
  cached : Reason
  not_observed : Reason
  old : ℕ → Reason
  hour_unmatched : Reason
  short_history : ℕ → Reason
  short_forecast : ℕ → Reason
  no_soil : Reason
  not_validated : Reason

pub record Confidence : Type 0 where
  pub level : ConfidenceLevel
  pub reasons : List Reason

abbrev model_calibrated : Bool
model_calibrated = false

abbrev pub max_observation_age : ℕ
max_observation_age = 120 * minute

-- append(low, r) under a condition
abbrev pub when : Bool → Reason → List Reason
when c r = if c then r ∷ [] else []

-- now.Sub(observed) > maxObservationAge, where a time in the future has a negative age.
unfoldable pub observation_gaps : Option ℕ → ℕ → List Reason
observation_gaps none now = not_observed ∷ []
observation_gaps (some observed) now =
    when (ltb max_observation_age (now - observed)) (old (now - observed))

-- The last lines: the level and the reasons of the low ones.
unfoldable pub rate : List Reason → Confidence
rate gaps =
    let reasons = if model_calibrated then gaps else gaps ++ (not_validated ∷ []) in
    let level = if model_calibrated then high else medium in
    if ltb 0 (length gaps)
    then record { level = low; reasons = reasons }
    else record { level = level; reasons = reasons }

module _ (fl : Floats) where
  open fl use {F}

  unfoldable pub hour_gaps : List F → ℕ × Bool → Option (List Reason)
  hour_gaps precip (index, false) = some (hour_unmatched ∷ [])
  hour_gaps precip (index, true) =
      let have = min (index + 1) (length precip) in
      elim (hours_after fl precip index forecast_hours) [
        | none ↦ none
        | some ahead ↦ some (
            when (ltb have (historical_days * 24)) (short_history have)
            ++ when (ltb (length ahead) forecast_hours) (short_forecast (length ahead)))
      ]

  unfoldable pub soil_gaps : List F → ℕ → List Reason
  soil_gaps values stop = elim (latest_positive fl values stop none) [
    | none ↦ no_soil ∷ []
    | some v ↦ []
  ]

  -- AssessConfidence
  unfoldable pub assess_confidence :
      OpenMeteoResponse fl → Option ℕ → Bool → ℕ → List Reason → Option Confidence
  assess_confidence w observed stale now missing =
      let current = current_hour_index fl w in
      elim (hour_gaps w.precipitation current) [
        | none ↦ none
        | some hours ↦ some (
            rate (
              missing
              ++ when stale cached
              ++ observation_gaps observed now
              ++ hours
              ++ soil_gaps w.soil_moisture (current.0 + 1)))
      ]

  -- hydrologyGaps
  unfoldable pub hydrology_gaps : Hydrology fl → Bool → List Reason
  hydrology_gaps h false = []
  hydrology_gaps h true =
      elim h.terrain [ none ↦ no_elevation ∷ [] | some t ↦ [] ]
      ++ elim h.river [ none ↦ no_river ∷ [] | some r ↦ [] ]

  -- What an assessment above low confidence is made of.
  pub record IsFull (w : OpenMeteoResponse fl) (observed : Option ℕ) (stale : Bool) (now : ℕ)
      (missing : List Reason) : Type 0 where
    pub nothing_missing : missing ≡ []
    pub live : stale ≡ false
    pub recent : (t : ℕ) × (observed ≡ some t) × (now ≤ t + max_observation_age)
    pub matched : (current_hour_index fl w).1 ≡ true
    pub history :
        historical_days * 24 ≤ min ((current_hour_index fl w).0 + 1) (length w.precipitation)
    pub forecast : (current_hour_index fl w).0 + 1 + forecast_hours ≤ length w.precipitation
    pub soil :
        (v : F) × (latest_positive fl w.soil_moisture ((current_hour_index fl w).0 + 1) none
          ≡ some v)
