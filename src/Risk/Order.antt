-- ===== src/Risk/Order.antt =====
-- risk.go: more of what floods raises the score.
use aura_risk.Base.{
  ℕ, ◌≤◌, ◌<◌, ◌≡◌, refl, inl, inr, true, false, Option, none, some, List, [], ◌∷◌, length, arith,
  Bool-cases,
}
use aura_risk.Base.Int.{◌≤ℤ◌}
use aura_risk.Risk.Float.{Floats, IsMonotone}
use aura_risk.Risk.{
  OpenMeteoResponse, Terrain, RiverFlow, Hydrology, fmin, fmax, f0, sum_from, forecast_from,
  low_lying_score, river_score, severity, rain_score, clamp,
}

module _ (fl : Floats) (law : IsMonotone fl) where
  open fl use {F, le, lit, add, sub, mul, div, truncate}

  -- Below, term by term.
  abbrev pub Below : F → F → Type 0
  Below a b = le a b ≡ true

  abbrev pub AllBelow : List F → List F → Type 0
  AllBelow [] [] = Unit {0}
  AllBelow (x ∷ xs) (y ∷ ys) = Below x y × AllBelow xs ys
  AllBelow _ _ = ⊥

  abbrev pub Shallower : Option (Terrain fl) → Option (Terrain fl) → Type 0
  Shallower none none = Unit {0}
  Shallower (some t) (some u) = Below t.depression u.depression
  Shallower _ _ = ⊥

  abbrev pub Calmer : Option (RiverFlow fl) → Option (RiverFlow fl) → Type 0
  Calmer none none = Unit {0}
  Calmer (some r) (some s) = Below r.peak s.peak × Below s.baseline r.baseline
  Calmer _ _ = ⊥

  -- The second weather and ground are as bad as the first or worse: more rain now and in each hour,
  -- as severe a weather code or more, lower ground, a higher river peak over a lower baseline; at the
  -- same time, of the same hours and on the same soil.
  pub record IsMilder (w v : OpenMeteoResponse fl) (h k : Hydrology fl) : Type 0 where
    pub same_time : w.current_time ≡ v.current_time
    pub same_hours : w.hourly_time ≡ v.hourly_time
    pub same_soil : w.soil_moisture ≡ v.soil_moisture
    pub now : Below w.current_precipitation v.current_precipitation
    pub hourly : AllBelow w.precipitation v.precipitation
    pub code : w.weather_code ≤ v.weather_code
    pub ground : Shallower h.terrain k.terrain
    pub river : Calmer h.river k.river

  pub length-AllBelow : (xs ys : List F) → AllBelow xs ys → length xs ≡ length ys
  length-AllBelow [] [] b = refl
  length-AllBelow (x ∷ xs) (y ∷ ys) b = omega (arith, length-AllBelow xs ys b.1)
  length-AllBelow [] (y ∷ ys) b = absurd b
  length-AllBelow (x ∷ xs) [] b = absurd b

  pub min_mono : (a b c d : F) → Below a b → Below c d → Below (fmin fl a c) (fmin fl b d)
  min_mono a b c d h k = elim (Bool-cases (le a c)) [
    | inl e ↦ elim (Bool-cases (le b d)) [
      | inl f ↦ rw (e, f) h
      | inr f ↦ rw (e, f) (law.le_trans a c d e k)
    ]
    | inr e ↦ elim (Bool-cases (le b d)) [
      | inl f ↦ rw (e, f) (law.le_trans c a b (law.le_total a c e) h)
      | inr f ↦ rw (e, f) k
    ]
  ]

  max_mono : (a b c d : F) → Below a b → Below c d → Below (fmax fl a c) (fmax fl b d)
  max_mono a b c d h k = elim (Bool-cases (le a c)) [
    | inl e ↦ elim (Bool-cases (le b d)) [
      | inl f ↦ rw (e, f) k
      | inr f ↦ rw (e, f) (law.le_trans c d b k (law.le_total b d f))
    ]
    | inr e ↦ elim (Bool-cases (le b d)) [
      | inl f ↦ rw (e, f) (law.le_trans a b d h f)
      | inr f ↦ rw (e, f) h
    ]
  ]

  max-left : (a b : F) → Below a (fmax fl a b)
  max-left a b = elim (Bool-cases (le a b)) [ inl e ↦ rw e e | inr e ↦ rw e (law.le_refl a) ]

  max-right : (a b : F) → Below b (fmax fl a b)
  max-right a b = elim (Bool-cases (le a b)) [
    | inl e ↦ rw e (law.le_refl b)
    | inr e ↦ rw e (law.le_total a b e)
  ]

  positive_above : (a b : F) → le a (f0 fl) ≡ false → Below a b → le b (f0 fl) ≡ false
  positive_above a b p h = elim (Bool-cases (le b (f0 fl))) [
    | inl e ↦ absurd (cc (law.le_trans a b (f0 fl) h e))
    | inr e ↦ e
  ]

  pub lit-nonneg : (n d : ℕ) → Below (f0 fl) (lit n d)
  lit-nonneg n d = law.lit_nonneg n d

  -- x / d * m, of a positive constant d.
  scaled_mono :
      (a b : F) (n d m k : ℕ)
      → 0 < n
      → 0 < d
      → d ≤ 100
      → Below a b
      → Below (mul (div a (lit n d)) (lit m k)) (mul (div b (lit n d)) (lit m k))
  scaled_mono a b n d m k p q r h =
      law.mul_mono (div a (lit n d)) (div b (lit n d)) (lit m k) (lit-nonneg m k)
        (law.div_mono a b (lit n d) (law.lit_pos n d p q r) h)

  pub sum_mono :
      (s t : F) (xs ys : List F)
      → Below s t
      → AllBelow xs ys
      → Below (sum_from fl s xs) (sum_from fl t ys)
  unfolding sum_from
  sum_mono s t [] [] h b = h
  sum_mono s t (x ∷ xs) (y ∷ ys) h b =
      sum_mono (add s x) (add t y) xs ys (law.add_mono s t x y h b.0) b.1
  sum_mono s t [] (y ∷ ys) h b = absurd b
  sum_mono s t (x ∷ xs) [] h b = absurd b

  pub forecast_mono :
      (s t : F) (xs ys : List F)
      → Below s t
      → AllBelow xs ys
      → Below (forecast_from fl s xs) (forecast_from fl t ys)
  unfolding forecast_from
  forecast_mono s t [] [] h b = h
  forecast_mono s t (x ∷ xs) (y ∷ ys) h b =
      forecast_mono (add s (mul x (lit 5 1))) (add t (mul y (lit 5 1))) xs ys
        (law.add_mono s t (mul x (lit 5 1)) (mul y (lit 5 1)) h
          (law.mul_mono x y (lit 5 1) (lit-nonneg 5 1) b.0))
        b.1
  forecast_mono s t [] (y ∷ ys) h b = absurd b
  forecast_mono s t (x ∷ xs) [] h b = absurd b

  pub low_lying_mono :
      (t u : Option (Terrain fl))
      → Shallower t u
      → Below (low_lying_score fl t) (low_lying_score fl u)
  unfolding low_lying_score
  low_lying_mono none none s = law.le_refl (f0 fl)
  low_lying_mono (some t) (some u) s = min_mono (lit 10 1) (lit 10 1) _ _ (law.le_refl (lit 10 1)) (
      scaled_mono (fmax fl (f0 fl) t.depression) (fmax fl (f0 fl) u.depression) 15 1 10 1
        (omega arith) (omega arith) (omega arith)
        (max_mono (f0 fl) (f0 fl) t.depression u.depression (law.le_refl (f0 fl)) s))
  low_lying_mono none (some u) s = absurd s
  low_lying_mono (some t) none s = absurd s

  -- The ratio of peak and baseline.
  ratio_mono :
      (r s : RiverFlow fl)
      → Below (lit 10 1) r.peak
      → Below r.peak s.peak
      → Below s.baseline r.baseline
      → Below
          (div r.peak (fmax fl r.baseline (lit 10 1)))
          (div s.peak (fmax fl s.baseline (lit 10 1)))
  ratio_mono r s high p b =
      let least = max_mono s.baseline r.baseline (lit 10 1) (lit 10 1) b (law.le_refl (lit 10 1)) in
      let above : le (fmax fl s.baseline (lit 10 1)) (f0 fl) ≡ false =
        positive_above (lit 10 1) (fmax fl s.baseline (lit 10 1))
          (law.lit_pos 10 1 (omega arith) (omega arith) (omega arith))
          (max-right s.baseline (lit 10 1)) in
      let not_below : Below (f0 fl) r.peak =
        law.le_trans (f0 fl) (lit 10 1) r.peak (lit-nonneg 10 1) high in
      law.le_trans (div r.peak (fmax fl r.baseline (lit 10 1)))
        (div r.peak (fmax fl s.baseline (lit 10 1))) (div s.peak (fmax fl s.baseline (lit 10 1)))
        (law.div_anti r.peak (fmax fl s.baseline (lit 10 1)) (fmax fl r.baseline (lit 10 1))
          not_below above least)
        (law.div_mono r.peak s.peak (fmax fl s.baseline (lit 10 1)) above p)

  pub river_mono :
      (r s : Option (RiverFlow fl)) → Calmer r s → Below (river_score fl r) (river_score fl s)
  unfolding river_score
  river_mono none none c = law.le_refl (f0 fl)
  river_mono (some r) (some s) (p, b) = elim (Bool-cases (le (lit 10 1) r.peak)) [
    | inl high ↦
        let higher : le (lit 10 1) s.peak ≡ true = law.le_trans (lit 10 1) r.peak s.peak high p in
        rw (high, higher)
          (min_mono (lit 20 1) (lit 20 1) _ _ (law.le_refl (lit 20 1)) (
            max_mono (f0 fl) (f0 fl) _ _ (law.le_refl (f0 fl)) (
              scaled_mono _ _ 25 10 20 1 (omega arith) (omega arith) (omega arith)
                (law.sub_mono _ _ (lit 15 10) (ratio_mono r s high p b)))))
    | inr low ↦ elim (Bool-cases (le (lit 10 1) s.peak)) [
      | inl high ↦
          rw (low, high)
            (some_score (
              mul (div (sub (div s.peak (fmax fl s.baseline (lit 10 1))) (lit 15 10)) (lit 25 10))
                (lit 20 1)))
      | inr low' ↦ rw (low, low') (law.le_refl (f0 fl))
    ]
  ]
    where
      some_score : (x : F) → Below (f0 fl) (fmin fl (lit 20 1) (fmax fl (f0 fl) x))
      some_score x = elim (Bool-cases (le (lit 20 1) (fmax fl (f0 fl) x))) [
        | inl e ↦ rw e (lit-nonneg 20 1)
        | inr e ↦ rw e (max-left (f0 fl) x)
      ]
  river_mono none (some s) c = absurd c
  river_mono (some r) none c = absurd c

  pub severity_mono : (a b : ℕ) → a ≤ b → Below (severity fl a) (severity fl b)
  unfolding severity
  severity_mono a b h = ground (
    arith,
    law.lit_mono 10 15 1,
    law.lit_mono 10 30 1,
    law.lit_mono 15 30 1,
    law.lit_nonneg 10 1,
    law.lit_nonneg 15 1,
    law.lit_nonneg 30 1,
    law.le_refl (lit 10 1),
    law.le_refl (lit 15 1),
    law.le_refl (lit 30 1),
    law.le_refl (lit 0 1),
  )

  pub rain_mono :
      (a b c d : F) → Below a b → Below c d → Below (rain_score fl a c) (rain_score fl b d)
  unfolding rain_score
  rain_mono a b c d h k =
      law.add_mono _ _ _ _
        (min_mono (lit 20 1) (lit 20 1) _ _ (law.le_refl (lit 20 1))
          (scaled_mono a b 50 1 20 1 (omega arith) (omega arith) (omega arith) h))
        (min_mono (lit 15 1) (lit 15 1) _ _ (law.le_refl (lit 15 1))
          (scaled_mono c d 150 1 15 1 (omega arith) (omega arith) (omega arith) k))

  pub clamp_mono : (a b : F) → Below a b → clamp fl a ≤ℤ clamp fl b
  unfolding clamp
  clamp_mono a b h = law.truncate_mono _ _ (
      min_mono (lit 100 1) (lit 100 1) _ _ (law.le_refl (lit 100 1))
        (max_mono (f0 fl) (f0 fl) a b (law.le_refl (f0 fl)) h))
