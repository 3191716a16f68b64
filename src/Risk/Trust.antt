-- ===== src/Risk/Trust.antt =====
-- confidence.go: when an assessment is rated above low.
use aura_risk.Base.{
  ℕ, ◌+◌, ◌-◌, ◌*◌, ◌≤◌, min, ◌≡◌, ◌≢◌, ◌↔◌, refl, ap, inl, inr, Bool, true, false, Option, none,
  some, List, [], ◌∷◌, ◌++◌, ltb, length, arith, Option-cases,
}
use aura_risk.Risk.Float.{Floats, IsMonotone}
use aura_risk.Risk.{
  forecast_hours, historical_days, OpenMeteoResponse, current_hour_index, hours_after,
  latest_positive,
}
use aura_risk.Risk.Total.{hours_after-some}
use aura_risk.Risk.Confidence.{
  medium, high, Reason, short_history, short_forecast, cached, Confidence, max_observation_age,
  when, observation_gaps, rate, hour_gaps, soil_gaps, assess_confidence, IsFull,
}

append_nil : (xs ys : List Reason) → xs ++ ys ≡ [] → (xs ≡ []) × (ys ≡ [])
append_nil [] ys e = (refl, e)
append_nil (x ∷ xs) ys e = absurd (ground (arith, e))

when_nil : (c : Bool) (r : Reason) → when c r ≡ [] → c ≡ false
when_nil false r e = refl
when_nil true r e = absurd (ground (arith, e))

rate_not_high : (gaps : List Reason) → (rate gaps).level ≢ high
unfolding rate
rate_not_high [] e = ground (arith, e)
rate_not_high (x ∷ xs) e = ground (arith, e)

rate_medium : (gaps : List Reason) → (rate gaps).level ≡ medium → gaps ≡ []
unfolding rate
rate_medium [] e = refl
rate_medium (x ∷ xs) e = absurd (ground (arith, e))

five_nil :
    (a b c d e : List Reason)
    → a ++ b ++ c ++ d ++ e ≡ []
    → (a ≡ []) × (b ≡ []) × (c ≡ []) × (d ≡ []) × (e ≡ [])
five_nil a b c d e h =
    let (h1, t) = append_nil (a ++ b ++ c ++ d) e h in
    let (h2, s) = append_nil (a ++ b ++ c) d h1 in
    let (h3, r) = append_nil (a ++ b) c h2 in let (p, q) = append_nil a b h3 in (p, q, r, s, t)

module _ (fl : Floats) (law : IsMonotone fl) where
  open fl use {F}

  -- The hour's reasons, and when there is none.
  abbrev HourFull : List F → ℕ × Bool → Type 0
  HourFull precip current =
      (current.1 ≡ true)
      × (historical_days * 24 ≤ min (current.0 + 1) (length precip))
      × (current.0 + 1 + forecast_hours ≤ length precip)

  hour_gaps-some :
      (precip : List F) (current : ℕ × Bool)
      → (gaps : List Reason) × (hour_gaps fl precip current ≡ some gaps)
        × (gaps ≡ [] ↔ HourFull precip current)
  unfolding hour_gaps
  hour_gaps-some precip (i, false) =
      (_, refl, (λ e. absurd (ground (arith, e)), λ f. absurd (ground (arith, f.0))))
  hour_gaps-some precip (i, true) = of_ahead (hours_after-some fl law precip i forecast_hours)
    where
      have : ℕ
      have = min (i + 1) (length precip)

      both_nil :
          (n : ℕ)
          → n ≡ min forecast_hours (length precip - (i + 1))
          → (when (ltb have (historical_days * 24)) (short_history have)
                ++ when (ltb n forecast_hours) (short_forecast n)
              ≡ [])
            ↔ HourFull precip (i, true)
      both_nil n e = ground (arith, e)

      of_ahead :
          ((ys : List F) × (hours_after fl precip i forecast_hours ≡ some ys)
            × (length ys ≡ min forecast_hours (length precip - (i + 1))))
          → (gaps : List Reason) × (hour_gaps fl precip (i, true) ≡ some gaps)
            × (gaps ≡ [] ↔ HourFull precip (i, true))
      of_ahead (ys, e, l) = (_, rw (hour_gaps, e) refl, both_nil (length ys) l)

  soil_gaps_nil :
      (values : List F) (stop : ℕ)
      → (soil_gaps fl values stop ≡ []) ↔ ((v : F) × (latest_positive fl values stop none ≡ some v))
  unfolding soil_gaps
  soil_gaps_nil values stop = elim (Option-cases (latest_positive fl values stop none)) [
    | inl e ↦ (λ f. absurd (ground (arith, e, f)), λ (v, f). absurd (ground (arith, e, f)))
    | inr (v, e) ↦ (λ f. (v, e), λ f. rw (soil_gaps, e) refl)
  ]

  observation_nil :
      (observed : Option ℕ) (now : ℕ)
      → (observation_gaps observed now ≡ [])
        ↔ ((t : ℕ) × (observed ≡ some t) × (now ≤ t + max_observation_age))
  unfolding observation_gaps
  observation_nil none now =
      (λ e. absurd (ground (arith, e)), λ (t, e, _). absurd (ground (arith, e)))
  observation_nil (some t) now =
      (λ e. (t, refl, ground (arith, e)), λ (s, e, h). ground (arith, e, h))

  -- The level is never high, and it is medium exactly for an assessment of live weather observed in
  -- the last two hours, at an hour that was matched in the forecast, with a week of hours before it,
  -- six after it, a soil reading and no other input missing.
  pub assess_confidence-IsFull :
      (w : OpenMeteoResponse fl) (observed : Option ℕ) (stale : Bool) (now : ℕ)
      (missing : List Reason)
      → (c : Confidence) × (assess_confidence fl w observed stale now missing ≡ some c)
        × (c.level ≢ high)
        × (c.level ≡ medium ↔ IsFull fl w observed stale now missing)
  unfolding assess_confidence rate
  assess_confidence-IsFull w observed stale now missing =
      of_hours (hour_gaps-some w.precipitation (current_hour_index fl w))
    where
      all : List Reason → List Reason
      all gaps =
          missing
          ++ when stale cached
          ++ observation_gaps observed now
          ++ gaps
          ++ soil_gaps fl w.soil_moisture ((current_hour_index fl w).0 + 1)

      of_hours :
          ((gaps : List Reason) × (hour_gaps fl w.precipitation (current_hour_index fl w)
              ≡ some gaps)
            × (gaps ≡ [] ↔ HourFull w.precipitation (current_hour_index fl w)))
          → (c : Confidence) × (assess_confidence fl w observed stale now missing ≡ some c)
            × (c.level ≢ high)
            × (c.level ≡ medium ↔ IsFull fl w observed stale now missing)
      of_hours (gaps, e, hours) = (
        rate (all gaps),
        rw (assess_confidence, e) refl,
        rate_not_high (all gaps),
        (full, λ f. ap (λ g. (rate g).level) (none_missing f)),
      )
        where
          full : (rate (all gaps)).level ≡ medium → IsFull fl w observed stale now missing
          full m =
              let (a, b, c, d, s) =
                five_nil missing (when stale cached) (observation_gaps observed now) gaps
                  (soil_gaps fl w.soil_moisture ((current_hour_index fl w).0 + 1))
                  (rate_medium (all gaps) m) in
              let (found, history, forecast) = hours.0 d in
              record {
                nothing_missing = a;
                live = when_nil stale cached b;
                recent = (observation_nil observed now).0 c;
                matched = found;
                history = history;
                forecast = forecast;
                soil = (soil_gaps_nil w.soil_moisture ((current_hour_index fl w).0 + 1)).0 s;
              }

          none_missing : IsFull fl w observed stale now missing → all gaps ≡ []
          none_missing f =
              rw
                (
                  f.nothing_missing,
                  f.live,
                  (observation_nil observed now).1 f.recent,
                  hours.1 (f.matched, f.history, f.forecast),
                  (soil_gaps_nil w.soil_moisture ((current_hour_index fl w).0 + 1)).1 f.soil,
                )
                refl
