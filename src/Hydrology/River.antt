-- ===== src/Hydrology/River.antt =====
-- hydrology.go: the discharge of the main river near a point. A float is of the record of operations;
-- a read or a slice out of range panics in Go, which is `none` here.
use aura_risk.Base.{
  ℕ, zero, suc, ◌+◌, ◌-◌, ◌/◌, ◌%◌, ◌||◌, Option, none, some, List, [], ◌∷◌, ltb, ◌==◌,
  if◌then◌else◌, length,
}
use aura_risk.Base.Int.{sub_ℕ}
use aura_risk.Risk.{slice, slice_at}
use aura_risk.Risk.Float.{Floats}

abbrev pub river_past_days : ℕ
river_past_days = 92

abbrev pub river_peak_days : ℕ
river_peak_days = 3

module _ (fl : Floats) where
  open fl use {F, le, lit, add, div}

  -- The place and the discharges of a cell; a day may have no value.
  pub record RiverSeries : Type 0 where
    pub latitude : F
    pub longitude : F
    pub discharge : List (Option F)

  pub record LocatedFlow : Type 0 where
    pub lat : F
    pub lon : F
    pub baseline : F
    pub peak : F

  -- values
  abbrev pub values : List (Option F) → List F
  values [] = []
  values (none ∷ vs) = values vs
  values (some v ∷ vs) = v ∷ values vs

  -- slices.Sort
  abbrev pub insert_float : F → List F → List F
  insert_float v [] = v ∷ []
  insert_float v (w ∷ ws) = if le v w then v ∷ w ∷ ws else w ∷ insert_float v ws

  unfoldable pub sort_floats : List F → List F
  sort_floats [] = []
  sort_floats (v ∷ vs) = insert_float v (sort_floats vs)

  -- s[i]
  abbrev pub float_at : ℕ → List F → Option F
  float_at i [] = none
  float_at zero (v ∷ vs) = some v
  float_at (suc i) (v ∷ vs) = float_at i vs

  abbrev pub middle_of : Option F → Option F → Option F
  middle_of none b = none
  middle_of (some a) none = none
  middle_of (some a) (some b) = some (div (add a b) (lit 2 1))

  unfoldable pub median : List F → Option F
  median v =
      let s = sort_floats v in
      let n = length s in
      if n % 2 == 1
      then float_at (n / 2) s
      else if n == 0
      then none
      else middle_of (float_at (n / 2 - 1) s) (float_at (n / 2) s)

  -- slices.Max of a list with a first value
  abbrev pub max_from : F → List F → F
  max_from v [] = v
  max_from v (w ∷ ws) = max_from (if le v w then w else v) ws

  -- The body of the loop, with what it makes of a cell: none, where it goes on with the next.
  abbrev pub flow_from : RiverSeries → List F → List F → Option (Option LocatedFlow)
  flow_from cell [] ahead = some none
  flow_from cell (p ∷ past) [] = some none
  flow_from cell (p ∷ past) (a ∷ ahead) = elim (median (p ∷ past)) [
    | none ↦ none
    | some b ↦ some (
        some (record {
          lat = cell.latitude;
          lon = cell.longitude;
          baseline = b;
          peak = max_from a ahead;
        }))
  ]

  abbrev pub with_slices :
      RiverSeries
      → Option (List (Option F))
      → Option (List (Option F))
      → Option (Option LocatedFlow)
  with_slices cell none ahead = none
  with_slices cell (some past) none = none
  with_slices cell (some past) (some ahead) = flow_from cell (values past) (values ahead)

  unfoldable pub flow_on : ℕ → RiverSeries → Option (Option LocatedFlow)
  flow_on day cell =
      if ltb day river_past_days || ltb (length cell.discharge) (day + river_peak_days)
      then some none
      else with_slices cell (slice_at (sub_ℕ day river_past_days) day cell.discharge)
          (slice day (day + river_peak_days) cell.discharge)

  -- if best == nil || flow.Baseline > best.Baseline
  abbrev pub better : Option LocatedFlow → LocatedFlow → Option LocatedFlow
  better none flow = some flow
  better (some best) flow = if le flow.baseline best.baseline then some best else some flow

  abbrev pub or_better : Option LocatedFlow → Option LocatedFlow → Option LocatedFlow
  or_better best none = best
  or_better best (some flow) = better best flow

  -- RiverFlowOn, from the best flow so far.
  unfoldable pub flow_among :
      List RiverSeries → ℕ → Option LocatedFlow → Option (Option LocatedFlow)
  flow_among [] day best = some best
  flow_among (cell ∷ cells) day best = elim (flow_on day cell) [
    | none ↦ none
    | some flow ↦ flow_among cells day (or_better best flow)
  ]

  abbrev pub river_flow_on : List RiverSeries → ℕ → Option (Option LocatedFlow)
  river_flow_on cells day = flow_among cells day none
