-- ===== src/Hydrology/Flows.antt =====
-- hydrology.go: the flow of a cell is computed without a panic.
use aura_risk.Base.{
  ℕ, zero, suc, ◌+◌, ◌-◌, ◌/◌, ◌%◌, ◌≤◌, ◌<◌, ◌≡◌, refl, false, Option, none, some, List, [], ◌∷◌,
  ◌||◌, ltb, ◌==◌, length, inl, inr, arith, Bool-cases,
}
use aura_risk.Base.Int.{sub_ℕ-pos}
use aura_risk.Risk.Total.{slice-some}
use aura_risk.Risk.Float.{Floats}
use aura_risk.Hydrology.River.{
  river_past_days, river_peak_days, RiverSeries, LocatedFlow, values, insert_float, sort_floats,
  float_at, median, flow_from, flow_on,
}

module _ (fl : Floats) where
  open fl use {F, le}

  insert_float-length : (v : F) (ws : List F) → length (insert_float fl v ws) ≡ suc (length ws)
  insert_float-length v [] = omega arith
  insert_float-length v (w ∷ ws) = elim (Bool-cases (le v w)) [
    | inl first ↦ rw first (omega arith)
    | inr later ↦ rw later (omega (arith, insert_float-length v ws))
  ]

  sort_floats-length : (vs : List F) → length (sort_floats fl vs) ≡ length vs
  unfolding sort_floats
  sort_floats-length [] = omega arith
  sort_floats-length (v ∷ vs) =
      omega (arith, insert_float-length v (sort_floats fl vs), sort_floats-length vs)

  float_at-some : (i : ℕ) (vs : List F) → i < length vs → (v : F) × (float_at fl i vs ≡ some v)
  float_at-some i [] h = absurd (omega arith)
  float_at-some zero (v ∷ vs) h = (v, refl)
  float_at-some (suc i) (v ∷ vs) h = float_at-some i vs (omega arith)

  median-some : (v : F) (vs : List F) → (m : F) × (median fl (v ∷ vs) ≡ some m)
  unfolding median
  median-some v vs =
      let s = sort_floats fl (v ∷ vs) in
      let n = length s in
      let some_values : 0 < n = omega (arith, sort_floats-length (v ∷ vs)) in
      elim (Bool-cases (n % 2 == 1)) [
        | inl odd ↦ rw odd (float_at-some (n / 2) s (omega (arith, some_values)))
        | inr even ↦
            let paired : (n == 0) ≡ false = ground (arith, some_values) in
            let (a, at_a) = float_at-some (n / 2 - 1) s (omega (arith, some_values)) in
            let (b, at_b) = float_at-some (n / 2) s (omega (arith, some_values)) in
            rw (even, paired, at_a, at_b) (_, refl)
      ]

  with_values :
      (cell : RiverSeries fl) (past ahead : List F)
      → (o : Option (LocatedFlow fl)) × (flow_from fl cell past ahead ≡ some o)
  with_values cell [] ahead = (none, refl)
  with_values cell (p ∷ past) [] = (none, refl)
  with_values cell (p ∷ past) (a ∷ ahead) =
      let (m, e) = median-some p past in rw (flow_from, e) (_, refl)

  pub flow_on-some :
      (day : ℕ) (cell : RiverSeries fl)
      → (o : Option (LocatedFlow fl)) × (flow_on fl day cell ≡ some o)
  unfolding flow_on
  flow_on-some day cell =
      elim (Bool-cases
        (ltb day river_past_days || ltb (length cell.discharge) (day + river_peak_days))) [
          | inl outside ↦ rw outside (none, refl)
          | inr inside ↦
              let enough : day + 3 ≤ length cell.discharge = ground (arith, inside) in
              let (past, e, _) =
                slice-some (day - river_past_days) day cell.discharge (omega arith)
                  (omega (arith, enough)) in
              let (ahead, e', _) =
                slice-some day (day + river_peak_days) cell.discharge (omega arith) enough in
              let from = sub_ℕ-pos day river_past_days (ground (arith, inside)) in
              rw (inside, from, e, e') (with_values cell (values fl past) (values fl ahead))
        ]
