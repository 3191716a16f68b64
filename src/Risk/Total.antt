-- ===== src/Risk/Total.antt =====
-- risk.go: when there is a score, its bounds, and how it grows.
use aura_risk.Base.{
  ℕ, zero, suc, ◌+◌, ◌-◌, ◌*◌, ◌≤◌, ◌<◌, min, ◌≡◌, refl, inl, inr, some, List, [], ◌∷◌, leb, Text,
  length, arith, Bool-cases, Option-cases,
}
use aura_risk.Base.Int.{ℤ, pos, ◌≤ℤ◌, max_sub_ℕ}
use aura_risk.Risk.Float.{Floats, IsMonotone}
use aura_risk.Risk.{
  forecast_hours, historical_days, slice, slice_from, has_prefix, hour_from, take_text,
  OpenMeteoResponse, Hydrology, f0, fmin, fmax, current_hour_index, hours_after, sum_from,
  sum_previous_hours, clamp, raw_score, score_at, calculate_risk_score,
}
use aura_risk.Risk.Order.{Below}

slice_from-some {ℓ} :
    {A : Type ℓ} (k n : ℕ) (xs : List A)
    → k + n ≤ length xs
    → (ys : List A) × (slice_from k n xs ≡ some ys) × (length ys ≡ n)
unfolding slice_from
slice_from-some zero zero xs h = ([], refl, refl)
slice_from-some zero (suc n) [] h = absurd (omega arith)
slice_from-some zero (suc n) (x ∷ xs) h =
    let (ys, e, l) = slice_from-some zero n xs (omega arith) in
    (x ∷ ys, rw e refl, omega (arith, l))
slice_from-some (suc k) n [] h = absurd (omega arith)
slice_from-some (suc k) n (x ∷ xs) h = slice_from-some k n xs (omega arith)

pub slice-some {ℓ} :
    {A : Type ℓ} (start stop : ℕ) (xs : List A)
    → start ≤ stop
    → stop ≤ length xs
    → (ys : List A) × (slice start stop xs ≡ some ys) × (length ys ≡ stop - start)
slice-some start stop xs h k =
    let (ys, e, l) = slice_from-some start (stop - start) xs (omega arith) in (ys, ground arith, l)

hour_from-lt :
    (i : ℕ) (hour : Text) (ts : List Text) (j : ℕ)
    → hour_from i hour ts ≡ some j
    → j < i + length ts
unfolding hour_from
hour_from-lt i hour [] j e = absurd (ground arith)
hour_from-lt i hour (t ∷ ts) j e = elim (Bool-cases (has_prefix t hour)) [
  | inl hit ↦ ground arith
  | inr miss ↦ ground (arith, hour_from-lt (suc i) hour ts j)
]

module _ (fl : Floats) (law : IsMonotone fl) where
  open fl use {F, le, lit, add, sub, mul, div, truncate}

  current_hour_index-le :
      (w : OpenMeteoResponse fl)
      → length w.hourly_time ≡ length w.precipitation
      → (current_hour_index fl w).0 ≤ length w.precipitation
  unfolding current_hour_index
  current_hour_index-le w h = elim (Bool-cases (leb 13 (length w.current_time))) [
    | inr short ↦ rw short (omega arith)
    | inl long ↦
        rw long (elim (Option-cases (hour_from 0 (take_text 13 w.current_time) w.hourly_time)) [
          | inl miss ↦ rw miss (omega arith)
          | inr (i, hit) ↦
              rw hit
                (omega (arith, hour_from-lt 0 (take_text 13 w.current_time) w.hourly_time i hit))
        ])
  ]

  clamp-from_0 : (a : F) → pos 0 ≤ℤ clamp fl a
  unfolding clamp
  clamp-from_0 a =
      let bottom : Below fl law (f0 fl) (fmin fl (lit 100 1) (fmax fl (f0 fl) a)) =
        between (lit 100 1) (fmax fl (f0 fl) a) (law.lit_mono 0 100 1 (omega arith))
          (above (f0 fl) a) in
      let least : truncate (lit 0 1) ≡ pos 0 = law.truncate_lit 0 (omega arith) in
      rw least at (law.truncate_mono (f0 fl) (fmin fl (lit 100 1) (fmax fl (f0 fl) a)) bottom)
    where
      above : (b c : F) → Below fl law b (fmax fl b c)
      above b c = elim (Bool-cases (le b c)) [ inl e ↦ rw e e | inr e ↦ rw e (law.le_refl b) ]

      between :
          (b c : F)
          → Below fl law (f0 fl) b
          → Below fl law (f0 fl) c
          → Below fl law (f0 fl) (fmin fl b c)
      between b c h k = elim (Bool-cases (le b c)) [ inl e ↦ rw e h | inr e ↦ rw e k ]

  clamp-le : (a : F) → clamp fl a ≤ℤ pos 100
  unfolding clamp
  clamp-le a =
      let top : Below fl law (fmin fl (lit 100 1) (fmax fl (f0 fl) a)) (lit 100 1) =
        below_first (fmax fl (f0 fl) a) in
      let limit : truncate (lit 100 1) ≡ pos 100 = law.truncate_lit 100 (omega arith) in
      rw limit at (law.truncate_mono (fmin fl (lit 100 1) (fmax fl (f0 fl) a)) (lit 100 1) top)
    where
      below_first : (b : F) → Below fl law (fmin fl (lit 100 1) b) (lit 100 1)
      below_first b = elim (Bool-cases (le (lit 100 1) b)) [
        | inl e ↦ rw e (law.le_refl (lit 100 1))
        | inr e ↦ rw e (law.le_total (lit 100 1) b e)
      ]

  pub hours_after-some :
      (xs : List F) (i n : ℕ)
      → (ys : List F) × (hours_after fl xs i n ≡ some ys)
        × (length ys ≡ min n (length xs - (i + 1)))
  unfolding hours_after
  hours_after-some xs i n =
      let (ys, e, l) =
        slice-some (min (i + 1) (length xs)) (min (min (i + 1) (length xs) + n) (length xs)) xs
          (omega arith) (omega arith) in
      (ys, e, omega (arith, l))

  sum_previous_some :
      (xs : List F) (stop hours : ℕ)
      → stop - hours ≤ length xs
      → (s : F) × (sum_previous_hours fl xs stop hours ≡ some s)
  unfolding sum_previous_hours
  sum_previous_some xs stop hours h =
      of_slice (slice-some (stop - hours) (min stop (length xs)) xs (omega arith) (omega arith))
    where
      of_slice :
          ((ys : List F) × (slice (stop - hours) (min stop (length xs)) xs ≡ some ys)
            × (length ys ≡ min stop (length xs) - (stop - hours)))
          → (s : F) × (sum_previous_hours fl xs stop hours ≡ some s)
      of_slice (ys, e, l) =
          (sum_from fl (f0 fl) ys, rw (sum_previous_hours, max_sub_ℕ stop hours, e) refl)

  score_at-some :
      (w : OpenMeteoResponse fl) (h : Hydrology fl) (now : ℕ)
      → ((ys : List F) × (hours_after fl w.precipitation now forecast_hours ≡ some ys)
          × (length ys ≡ min forecast_hours (length w.precipitation - (now + 1))))
      → ((s : F) × (sum_previous_hours fl w.precipitation (now + 1) 48 ≡ some s))
      → ((s : F) × (sum_previous_hours fl w.precipitation (now + 1) (historical_days * 24)
            ≡ some s))
      → (s : ℤ) × (score_at fl w h now ≡ some s) × (pos 0 ≤ℤ s) × (s ≤ℤ pos 100)
  unfolding score_at
  score_at-some w h now (ahead, e, _) (two, f) (week, g) = (
    clamp fl (raw_score fl w h now ahead two week),
    rw (score_at, e, f, g) refl,
    clamp-from_0 (raw_score fl w h now ahead two week),
    clamp-le (raw_score fl w h now ahead two week),
  )

  pub calculate_risk_score_bounds :
      (w : OpenMeteoResponse fl) (h : Hydrology fl)
      → length w.hourly_time ≡ length w.precipitation
      → (s : ℤ) × (calculate_risk_score fl w h ≡ some s) × (pos 0 ≤ℤ s) × (s ≤ℤ pos 100)
  unfolding calculate_risk_score
  calculate_risk_score_bounds w h same =
      let now = (current_hour_index fl w).0 in
      let fits = current_hour_index-le w same in
      score_at-some w h now (hours_after-some w.precipitation now forecast_hours)
        (sum_previous_some w.precipitation (now + 1) 48 (omega (arith, fits)))
        (sum_previous_some w.precipitation (now + 1) (historical_days * 24) (omega (arith, fits)))
