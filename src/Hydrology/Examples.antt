-- ===== src/Hydrology/Examples.antt =====
-- The cache of hydrology.go at concrete inputs.
use aura_risk.Base.{ℕ, zero, suc, Option, ◌≡◌, refl, none, some, List, [], ◌∷◌}
use aura_risk.Hydrology.{
  State, Event, asks, ends, lookup_begin, lookup_end, store_bounded, note_failure, happen,
  happen_all,
}
use aura_risk.Risk.{slice_from}
use aura_risk.Risk.Hundredths.{hundredths, hundredths-IsMonotone}
use aura_risk.Hydrology.River.{
  RiverSeries, LocatedFlow, sort_floats, median, flow_on, flow_among, river_flow_on,
}
use aura_risk.Hydrology.MainRiver.{IsMain, river_flow_on-IsMain}
use aura_risk.Hydrology.Sources.{IsSourced, happen_all-IsSourced}

-- Values are numbers.
abbrev start : State ℕ
start = record {
  cache = record { cells = []; entries = []; next = 0 };
  lookups = [];
  answered = [];
  arrived = [];
  clock = 1000;
}

-- Two lookups of cell 7 whose fetches overlap: the first brings 42, the second fails. A third asks
-- for the cell afterwards.
abbrev overlap : List (Event ℕ)
overlap = asks 0 7 ∷ asks 1 7 ∷ ends 1 1 0 (some 42) ∷ ends 0 1 0 none ∷ asks 1 7 ∷ []

-- The third lookup gets no value, though one was fetched two units of time before.
overlap_answers :
    (happen_all 100 200 50 10 overlap start).answered
    ≡ record { key = 7; asked_at = 1004; value = none }
      ∷ record { key = 7; asked_at = 1001; value = none }
      ∷ record { key = 7; asked_at = 1000; value = some 42 }
      ∷ []
unfolding happen_all happen lookup_begin lookup_end store_bounded note_failure
overlap_answers = refl

source_example : IsSourced 100 200 (happen_all 100 200 50 10 overlap start)
source_example =
    happen_all-IsSourced 100 200 50 10 overlap start (record { safe = tt; going = tt; told = tt })

-- As many days of one discharge.
abbrev steady : ℕ → ℕ → List (Option ℕ)
steady zero v = []
steady (suc n) v = some v ∷ steady n v

abbrev cell : ℕ → ℕ → RiverSeries hundredths
cell at v = record { latitude = at; longitude = at; discharge = steady 99 v }

-- A cell without enough days, and two with.
abbrev cells : List (RiverSeries hundredths)
cells =
    record { latitude = 0; longitude = 0; discharge = steady 50 9000 }
    ∷ cell 1 300
    ∷ cell 2 700
    ∷ []

abbrev main_flow : LocatedFlow hundredths
main_flow = record { lat = 2; lon = 2; baseline = 700; peak = 700 }

second_cell : river_flow_on hundredths cells 92 ≡ some (some main_flow)
unfolding flow_among flow_on median sort_floats slice_from
second_cell = refl

basin_example :
    (best : Option (LocatedFlow hundredths)) × (river_flow_on hundredths cells 92 ≡ some best)
    × IsMain hundredths cells 92 best
basin_example = river_flow_on-IsMain hundredths hundredths-IsMonotone cells 92
