-- ===== src/Risk/Growth.antt =====
-- risk.go: worse weather on worse ground never lowers the score or the level.
use aura_risk.Base.{
  ℕ, zero, suc, ◌+◌, ◌-◌, ◌*◌, ◌≤◌, min, ◌≡◌, refl, inl, inr, Option, none, some, List, [], ◌∷◌,
  leb, length, Bool-cases,
}
use aura_risk.Notifier.{level_rank}
use aura_risk.Base.Int.{ℤ, ◌≤ℤ◌, max_sub_ℕ}
use aura_risk.Risk.Float.{Floats, IsMonotone}
use aura_risk.Risk.{
  forecast_hours, historical_days, slice, slice_from, hour_from, take_text, OpenMeteoResponse,
  Hydrology, f0, current_hour_index, hours_after, sum_from, sum_previous_hours, soil_score,
  raw_score, score_at, calculate_risk_score,
}
use aura_risk.Risk.Levels.{score_to_level, score_to_level_mono}
use aura_risk.Risk.Order.{
  Below, AllBelow, IsMilder, length-AllBelow, sum_mono, forecast_mono, low_lying_mono, river_mono,
  severity_mono, rain_mono, clamp_mono,
}

-- Both calculations panic, or the second score and its level are the first's or higher.
abbrev pub NoHigher : Option ℤ → Option ℤ → Type 0
NoHigher none none = Unit {0}
NoHigher (some s) (some t) =
    (s ≤ℤ t) × (level_rank (score_to_level s) ≤ level_rank (score_to_level t))
NoHigher _ _ = ⊥

module _ (fl : Floats) (law : IsMonotone fl) where
  open fl use {F, le, lit, add, sub, mul, div, truncate}

  abbrev BothBelow : Option (List F) → Option (List F) → Type 0
  BothBelow none none = Unit {0}
  BothBelow (some xs) (some ys) = AllBelow fl law xs ys
  BothBelow _ _ = ⊥

  abbrev SumBelow : Option F → Option F → Type 0
  SumBelow none none = Unit {0}
  SumBelow (some a) (some b) = Below fl law a b
  SumBelow _ _ = ⊥

  cons_mono :
      (x y : F) (us vs : Option (List F))
      → Below fl law x y
      → BothBelow us vs
      → BothBelow
          (elim us [ none ↦ none | some zs ↦ some (x ∷ zs) ])
          (elim vs [ none ↦ none | some zs ↦ some (y ∷ zs) ])
  cons_mono x y none none h b = b
  cons_mono x y (some us) (some vs) h b = (h, b)
  cons_mono x y none (some vs) h b = absurd b
  cons_mono x y (some us) none h b = absurd b

  slice_from_mono :
      (k n : ℕ) (xs ys : List F)
      → AllBelow fl law xs ys
      → BothBelow (slice_from k n xs) (slice_from k n ys)
  unfolding slice_from
  slice_from_mono zero zero xs ys b = tt
  slice_from_mono zero (suc n) [] [] b = tt
  slice_from_mono zero (suc n) (x ∷ xs) (y ∷ ys) b =
      cons_mono x y (slice_from zero n xs) (slice_from zero n ys) b.0
        (slice_from_mono zero n xs ys b.1)
  slice_from_mono (suc k) n [] [] b = tt
  slice_from_mono (suc k) n (x ∷ xs) (y ∷ ys) b = slice_from_mono k n xs ys b.1
  slice_from_mono zero (suc n) [] (y ∷ ys) b = absurd b
  slice_from_mono zero (suc n) (x ∷ xs) [] b = absurd b
  slice_from_mono (suc k) n [] (y ∷ ys) b = absurd b
  slice_from_mono (suc k) n (x ∷ xs) [] b = absurd b

  slice_mono :
      (start stop : ℕ) (xs ys : List F)
      → AllBelow fl law xs ys
      → BothBelow (slice start stop xs) (slice start stop ys)
  slice_mono start stop xs ys b = elim (Bool-cases (leb start stop)) [
    | inl e ↦ rw e (slice_from_mono start (stop - start) xs ys b)
    | inr e ↦ rw e tt
  ]

  hours_after_mono :
      (xs ys : List F) (i n : ℕ)
      → AllBelow fl law xs ys
      → BothBelow (hours_after fl xs i n) (hours_after fl ys i n)
  unfolding hours_after
  hours_after_mono xs ys i n b =
      rw (hours_after, length-AllBelow fl law xs ys b)
        (slice_mono (min (i + 1) (length ys)) (min (min (i + 1) (length ys) + n) (length ys)) xs ys
          b)

  sum_previous_mono :
      (xs ys : List F) (stop hours : ℕ)
      → AllBelow fl law xs ys
      → SumBelow (sum_previous_hours fl xs stop hours) (sum_previous_hours fl ys stop hours)
  unfolding sum_previous_hours
  sum_previous_mono xs ys stop hours b =
      rw (sum_previous_hours, length-AllBelow fl law xs ys b, max_sub_ℕ stop hours)
        (summed (slice (stop - hours) (min stop (length ys)) xs)
          (slice (stop - hours) (min stop (length ys)) ys)
          (slice_mono (stop - hours) (min stop (length ys)) xs ys b))
    where
      summed :
          (us vs : Option (List F))
          → BothBelow us vs
          → SumBelow
              (elim us [ none ↦ none | some zs ↦ some (sum_from fl (f0 fl) zs) ])
              (elim vs [ none ↦ none | some zs ↦ some (sum_from fl (f0 fl) zs) ])
      summed none none b = b
      summed (some us) (some vs) b = sum_mono fl law (f0 fl) (f0 fl) us vs (law.le_refl (f0 fl)) b
      summed none (some vs) b = absurd b
      summed (some us) none b = absurd b

  raw_mono :
      (w v : OpenMeteoResponse fl) (h k : Hydrology fl) (now : ℕ) (us vs : List F) (a b c d : F)
      → IsMilder fl law w v h k
      → AllBelow fl law us vs
      → Below fl law a b
      → Below fl law c d
      → Below fl law (raw_score fl w h now us a c) (raw_score fl v k now vs b d)
  unfolding raw_score
  raw_mono w v h k now us vs a b c d m ahead two week =
      law.add_mono _ _ _ _
        (law.add_mono _ _ _ _
          (law.add_mono _ _ _ _
            (law.add_mono _ _ _ _
              (law.add_mono _ _ _ _
                (law.add_mono _ _ _ _ (law.mul_mono _ _ (lit 10 1) (law.lit_nonneg 10 1) m.now)
                  (forecast_mono fl law (f0 fl) (f0 fl) us vs (law.le_refl (f0 fl)) ahead))
                (rain_mono fl law a b c d two week))
              (rw m.same_soil (law.le_refl (soil_score fl v.soil_moisture (now + 1)))))
            (low_lying_mono fl law h.terrain k.terrain m.ground))
          (river_mono fl law h.river k.river m.river))
        (severity_mono fl law w.weather_code v.weather_code m.code)

  scored_mono :
      (w v : OpenMeteoResponse fl) (h k : Hydrology fl) (now : ℕ) (us vs : Option (List F))
      (a b c d : Option F)
      → IsMilder fl law w v h k
      → BothBelow us vs
      → SumBelow a b
      → SumBelow c d
      → hours_after fl w.precipitation now forecast_hours ≡ us
      → hours_after fl v.precipitation now forecast_hours ≡ vs
      → sum_previous_hours fl w.precipitation (now + 1) 48 ≡ a
      → sum_previous_hours fl v.precipitation (now + 1) 48 ≡ b
      → sum_previous_hours fl w.precipitation (now + 1) (historical_days * 24) ≡ c
      → sum_previous_hours fl v.precipitation (now + 1) (historical_days * 24) ≡ d
      → NoHigher (score_at fl w h now) (score_at fl v k now)
  unfolding score_at
  scored_mono w v h k now none none a b c d m x y z e f p q r s = rw (score_at, e, f) tt
  scored_mono w v h k now (some us) (some vs) none none c d m x y z e f p q r s =
      rw (score_at, e, f, p, q) tt
  scored_mono w v h k now (some us) (some vs) (some a) (some b) none none m x y z e f p q r s =
      rw (score_at, e, f, p, q, r, s) tt
  scored_mono w v h k now (some us) (some vs) (some a) (some b) (some c) (some d) m x y z e f p q r
        s =
      let grows = clamp_mono fl law _ _ (raw_mono w v h k now us vs a b c d m x y z) in
      rw (score_at, e, f, p, q, r, s) (grows, score_to_level_mono _ _ grows)
  scored_mono w v h k now none (some vs) a b c d m x y z e f p q r s = absurd x
  scored_mono w v h k now (some us) none a b c d m x y z e f p q r s = absurd x
  scored_mono w v h k now (some us) (some vs) none (some b) c d m x y z e f p q r s = absurd y
  scored_mono w v h k now (some us) (some vs) (some a) none c d m x y z e f p q r s = absurd y
  scored_mono w v h k now (some us) (some vs) (some a) (some b) none (some d) m x y z e f p q r s =
      absurd z
  scored_mono w v h k now (some us) (some vs) (some a) (some b) (some c) none m x y z e f p q r s =
      absurd z

  score_at_mono :
      (w v : OpenMeteoResponse fl) (h k : Hydrology fl) (now : ℕ)
      → IsMilder fl law w v h k
      → NoHigher (score_at fl w h now) (score_at fl v k now)
  score_at_mono w v h k now m =
      scored_mono w v h k now _ _ _ _ _ _ m
        (hours_after_mono w.precipitation v.precipitation now forecast_hours m.hourly)
        (sum_previous_mono w.precipitation v.precipitation (now + 1) 48 m.hourly)
        (sum_previous_mono w.precipitation v.precipitation (now + 1) (historical_days * 24)
          m.hourly)
        refl refl refl refl refl refl

  same_hour :
      (w v : OpenMeteoResponse fl) (h k : Hydrology fl)
      → IsMilder fl law w v h k
      → current_hour_index fl w ≡ current_hour_index fl v
  unfolding current_hour_index
  same_hour w v h k m = at_hour (hour_from 0 (take_text 13 v.current_time) v.hourly_time) refl
    where
      same_length : length w.precipitation ≡ length v.precipitation
      same_length = length-AllBelow fl law w.precipitation v.precipitation m.hourly

      at_hour :
          (found : Option ℕ)
          → hour_from 0 (take_text 13 v.current_time) v.hourly_time ≡ found
          → current_hour_index fl w ≡ current_hour_index fl v
      at_hour none e = rw (current_hour_index, m.same_time, m.same_hours, e, same_length) refl
      at_hour (some i) e = rw (current_hour_index, m.same_time, m.same_hours, e, same_length) refl

  -- Where a second weather and ground are as bad as the first or worse, term by term, its score and
  -- its level are no lower, unless both calculations panic.
  pub calculate_risk_score_mono :
      (w v : OpenMeteoResponse fl) (h k : Hydrology fl)
      → IsMilder fl law w v h k
      → NoHigher (calculate_risk_score fl w h) (calculate_risk_score fl v k)
  unfolding calculate_risk_score
  calculate_risk_score_mono w v h k m =
      rw (same_hour w v h k m) (score_at_mono w v h k (current_hour_index fl v).0 m)
