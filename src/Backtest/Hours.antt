-- ===== src/Backtest/Hours.antt =====
-- backtest.go: the hours that an event is scored on, told apart from the loop.
use aura_risk.Base.{
  ℕ, suc, ◌+◌, ◌≤◌, ◌<◌, ◌≡◌, ◌⊎◌, Option, none, some, List, [], ◌∷◌, leb, if◌then◌else◌, Text,
}
use aura_risk.Base.Int.{ℤ}
use aura_risk.Risk.{calculate_risk_score}
use aura_risk.Risk.Float.{Floats}
use aura_risk.Risk.Levels.{score_to_level}
use aura_risk.Hydrology.River.{LocatedFlow, river_flow_on}
use aura_risk.Backtest.{event_rank, day_seconds, day_of, at_hour, flow_of, Inputs}

-- Hours by their index, each with its score.
abbrev pub Hours : Type 0
Hours = List (ℕ × ℤ)

-- One of the hours has the score.
abbrev pub Scored : ℤ → Hours → Type 0
Scored s [] = ⊥
Scored s (h ∷ hs) = (h.1 ≡ s) ⊎ Scored s hs

-- The first hour whose level reaches the threshold.
abbrev pub first_reaching : ℕ → Hours → Option ℕ
first_reaching threshold [] = none
first_reaching threshold ((i, s) ∷ hs) =
    if leb threshold (event_rank (score_to_level s)) then some i else first_reaching threshold hs

module _ (fl : Floats) (inputs : Inputs fl) (first date river_start : ℕ) where
  -- A time that is none, or that is not from the first day to the end of the event's.
  abbrev pub Outside : Text → Type 0
  Outside time =
      (inputs.parse_hour time ≡ none)
      ⊎ ((at : ℕ) × (inputs.parse_hour time ≡ some at) × ((at < first) ⊎ (date + day_seconds ≤ at)))

  -- A time that is, with the score of the weather, the ground and the river of its hour.
  pub record Inside (time : Text) (i : ℕ) (s : ℤ) : Type 0 where
    pub at : ℕ
    pub read : inputs.parse_hour time ≡ some at
    pub since : first ≤ at
    pub in_time : at < date + day_seconds
    pub flow : Option (LocatedFlow fl)
    pub river : river_flow_on fl inputs.river (day_of river_start at) ≡ some flow
    pub score :
        calculate_risk_score fl
          (at_hour fl inputs.archive time i)
          (record { terrain = inputs.terrain; river = flow_of fl flow })
        ≡ some s

  -- The hours are those of the times inside, in their order.
  abbrev pub HoursOf : ℕ → List Text → Hours → Type 0
  HoursOf i [] hours = hours ≡ []
  HoursOf i (time ∷ times) hours =
      (Outside time × HoursOf (suc i) times hours)
      ⊎ ((s : ℤ) × (rest : Hours) × Inside time i s
          × (hours ≡ (i, s) ∷ rest)
          × HoursOf (suc i) times rest)
