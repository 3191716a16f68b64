-- ===== src/Backtest/Consistent.antt =====
-- backtest.go: the outcome of an event, by the hours it is scored on.
use aura_risk.Base.{
  ℕ, suc, ◌+◌, ◌-◌, ◌*◌, ◌≤◌, ◌<◌, ◌≡◌, refl, ap, ◌∙◌, sym, Bool, false, ◌||◌, ◌⊎◌, Option, none,
  some, List, [], ◌∷◌, ltb, leb, Text, is_empty, length, ok, inl, inr, arith, Bool-cases, All,
  if◌then◌else◌,
}
use aura_risk.Base.Int.{ℤ, pos, ltb_ℤ, ◌≤ℤ◌}
use aura_risk.Notifier.{level_rank}
use aura_risk.Risk.Float.{Floats, IsMonotone}
use aura_risk.Risk.Levels.{score_to_level, score_to_level_mono}
use aura_risk.Risk.Total.{calculate_risk_score_bounds}
use aura_risk.Hydrology.MainRiver.{river_flow_on-IsMain}
use aura_risk.Backtest.{
  event_rank, Outcome, is_some, start_outcome, at_hour, flow_of, Inputs, scored, score_hour,
  visit_hour, visit_hours, evaluate, river_history_days, day_seconds, day_of, hours_between,
}
use aura_risk.Backtest.Hours.{Hours, Scored, first_reaching, Outside, Inside, HoursOf}

-- What the outcome says of the hours: its highest score is from 0 to 100, no hour's is higher, and it is
-- an hour's or 0; its level is that score's; and it was warned of exactly if that level reaches the
-- threshold, first at the first hour whose level does.
pub record IsConsistent (threshold : ℕ) (hours : Hours) (o : Outcome) : Type 0 where
  pub bounded : (pos 0 ≤ℤ o.max_score) × (o.max_score ≤ℤ pos 100)
  pub highest : All (λ h. h.1 ≤ℤ o.max_score) hours
  pub reached : (o.max_score ≡ pos 0) ⊎ Scored o.max_score hours
  pub level : o.max_level ≡ score_to_level o.max_score
  pub warning : o.warned ≡ leb threshold (event_rank o.max_level)
  pub first : o.first_warning ≡ first_reaching threshold hours
  pub since : o.warned ≡ is_some o.first_warning

-- What every outcome on the way is.
record IsOutcome (threshold : ℕ) (o : Outcome) : Type 0 where
  bounded : (pos 0 ≤ℤ o.max_score) × (o.max_score ≤ℤ pos 100)
  level : o.max_level ≡ score_to_level o.max_score
  warning : o.warned ≡ leb threshold (event_rank o.max_level)
  since : o.warned ≡ is_some o.first_warning

abbrev or_first : Option ℕ → Option ℕ → Option ℕ
or_first none later = later
or_first (some i) later = some i

-- What hours make of an outcome.
record Follows (threshold : ℕ) (hours : Hours) (o o' : Outcome) : Type 0 where
  grows : o.max_score ≤ℤ o'.max_score
  highest : All (λ h. h.1 ≤ℤ o'.max_score) hours
  reached : (o'.max_score ≡ o.max_score) ⊎ Scored o'.max_score hours
  first : o'.first_warning ≡ or_first o.first_warning (first_reaching threshold hours)

event_rank_mono : (a b : ℤ) → a ≤ℤ b → event_rank (score_to_level a) ≤ event_rank (score_to_level b)
unfolding event_rank
event_rank_mono a b h = omega (arith, score_to_level_mono a b h)

module _ (threshold i : ℕ) (lead : ℤ) (river : Bool) (score : ℤ) (o : Outcome) where
  scored-IsOutcome :
      pos 0 ≤ℤ score
      → score ≤ℤ pos 100
      → IsOutcome threshold o
      → IsOutcome threshold (scored threshold i lead river score o)
  scored-IsOutcome low small c = record {
    bounded = (ground (arith, c.bounded), ground (arith, c.bounded));
    level = ground (arith, c.level);
    warning = ground (
      arith,
      c.warning,
      c.since,
      ap event_rank c.level,
      event_rank_mono score o.max_score,
      event_rank_mono o.max_score score,
    );
    since = ground (arith, c.since);
  }

  scored-grows :
      (o.max_score ≤ℤ (scored threshold i lead river score o).max_score)
      × (score ≤ℤ (scored threshold i lead river score o).max_score)
  scored-grows = ground arith

  scored-reached :
      ((scored threshold i lead river score o).max_score ≡ o.max_score)
      ⊎ ((scored threshold i lead river score o).max_score ≡ score)
  scored-reached = elim (Bool-cases (ltb_ℤ o.max_score score)) [
    | inl higher ↦ inr (ground (arith, higher))
    | inr lower ↦ inl (ground (arith, lower))
  ]

  scored-first :
      (later : Option ℕ)
      → or_first (scored threshold i lead river score o).first_warning later
        ≡ or_first o.first_warning
            (if leb threshold (event_rank (score_to_level score)) then some i else later)
  scored-first later = ground arith

  before-Follows :
      (hours : Hours) (o' : Outcome)
      → Follows threshold hours (scored threshold i lead river score o) o'
      → Follows threshold ((i, score) ∷ hours) o o'
  before-Follows hours o' f = record {
    grows = omega (arith, f.grows, scored-grows.0);
    highest = (omega (arith, f.grows, scored-grows.1), f.highest);
    reached = elim f.reached [
      | inr later ↦ inr (inr later)
      | inl same ↦ elim scored-reached [
        | inl kept ↦ inl (same ∙ kept)
        | inr taken ↦ inr (inl (sym (same ∙ taken)))
      ]
    ];
    first = f.first ∙ scored-first (first_reaching threshold hours);
  }

unchanged : (threshold : ℕ) (o : Outcome) → Follows threshold [] o o
unchanged threshold o = record {
  grows = omega arith;
  highest = tt;
  reached = inl refl;
  first = ground arith;
}

module _ (fl : Floats) (monotone : IsMonotone fl) (inputs : Inputs fl)
    (same : length inputs.archive.response.hourly_time
      ≡ length inputs.archive.response.precipitation)
    (threshold date : ℕ) where
  module _ (first river_start : ℕ) where
    -- An hour that is passed over, or scored.
    abbrev Visited : Text → ℕ → Outcome → Option Outcome → Type 0
    Visited time i o r =
        ((r ≡ some o) × Outside fl inputs first date river_start time)
        ⊎ ((s : ℤ) × (lead : ℤ) × (river : Bool) × (r ≡ some (scored threshold i lead river s o))
            × Inside fl inputs first date river_start time i s
            × (pos 0 ≤ℤ s)
            × (s ≤ℤ pos 100))

    visit_hour-Visited :
        (time : Text) (i : ℕ) (read : Option ℕ) (o : Outcome)
        → inputs.parse_hour time ≡ read
        → Visited time i o (visit_hour fl inputs threshold first date river_start time i read o)
    visit_hour-Visited time i none o e = inl (refl, inl e)
    visit_hour-Visited time i (some at) o e =
        elim (Bool-cases (ltb at first || leb (date + day_seconds) at)) [
          | inl outside ↦ rw outside (
              inl (
                refl,
                inr (
                  at,
                  e,
                  elim (Bool-cases (ltb at first)) [
                    | inl early ↦ inl (ground (arith, early))
                    | inr late ↦ inr (ground (arith, outside, late))
                  ],
                ),
              ))
          | inr inside ↦
              let (flow, river, _) =
                river_flow_on-IsMain fl monotone inputs.river (day_of river_start at) in
              let (s, score, low, small) =
                calculate_risk_score_bounds fl monotone (at_hour fl inputs.archive time i)
                  (record { terrain = inputs.terrain; river = flow_of fl flow }) same in
              rw (inside, river, score_hour, score)
                (inr (
                  s,
                  hours_between at date,
                  is_some flow,
                  refl,
                  record {
                    at = at;
                    read = e;
                    since = ground (arith, inside);
                    in_time = ground (arith, inside);
                    flow = flow;
                    river = river;
                    score = score;
                  },
                  low,
                  small,
                ))
        ]

    -- The rest of the loop, and what comes of it.
    abbrev Goes : ℕ → List Text → Outcome → Type 0
    Goes i times o =
        (hours : Hours) × (o' : Outcome) × (visit_hours fl inputs threshold first date river_start i
            times o
          ≡ some o')
        × HoursOf fl inputs first date river_start i times hours
        × IsOutcome threshold o'
        × Follows threshold hours o o'

    visit_hours-Goes :
        (i : ℕ) (times : List Text) (o : Outcome) → IsOutcome threshold o → Goes i times o
    unfolding visit_hours
    visit_hours-Goes i [] o c = ([], o, refl, refl, c, unchanged threshold o)
    visit_hours-Goes i (time ∷ times) o c =
        elim (visit_hour-Visited time i (inputs.parse_hour time) o refl) [
          | inl (e, outside) ↦
              let (hours, o', e', of, c', f) = visit_hours-Goes (suc i) times o c in
              (hours, o', rw (visit_hours, e) e', inl (outside, of), c', f)
          | inr (s, lead, river, e, inside, low, small) ↦
              let (hours, o', e', of, c', f) =
                visit_hours-Goes (suc i) times (scored threshold i lead river s o)
                  (scored-IsOutcome threshold i lead river s o low small c) in
              (
                (i, s) ∷ hours,
                o',
                rw (visit_hours, e) e',
                inr (s, hours, inside, refl, of),
                c',
                before-Follows threshold i lead river s o hours o' f,
              )
        ]

  start-IsOutcome :
      (had_terrain : Bool) → 0 < threshold → IsOutcome threshold (start_outcome had_terrain)
  unfolding event_rank level_rank score_to_level
  start-IsOutcome had_terrain h = record {
    bounded = (omega arith, omega arith);
    level = refl;
    warning = ground (arith, h);
    since = refl;
  }

  -- An event whose archive has hours, as many as it has values of rain, is evaluated without a panic for
  -- every threshold above normal, and its outcome is that of its hours: the highest score is from 0 to
  -- 100, no lower than any hour's, and an hour's or 0; the level is that score's; and it was warned of
  -- exactly if that level reaches the threshold, first at the first hour whose level does. The hours are
  -- those of the archive from the lead days before the event to the end of its day, each with its score.
  pub evaluate-IsConsistent :
      (lead_days : ℕ)
      → 0 < threshold
      → is_empty inputs.archive.response.hourly_time ≡ false
      → let first = date - lead_days * day_seconds in
        (o : Outcome) × (hours : Hours) × (evaluate fl inputs threshold lead_days date
          ≡ ok (some o))
        × HoursOf fl inputs first date
            (first - river_history_days * day_seconds)
            0
            inputs.archive.response.hourly_time
            hours
        × IsConsistent threshold hours o
  unfolding evaluate
  evaluate-IsConsistent lead_days h some_hours =
      let first = date - lead_days * day_seconds in
      let (hours, o, e, of, c, f) =
        visit_hours-Goes first (first - river_history_days * day_seconds) 0
          inputs.archive.response.hourly_time (start_outcome (is_some inputs.terrain))
          (start-IsOutcome (is_some inputs.terrain) h) in
      (
        o,
        hours,
        rw (evaluate, some_hours, e) refl,
        of,
        record {
          bounded = c.bounded;
          highest = f.highest;
          reached = f.reached;
          level = c.level;
          warning = c.warning;
          first = f.first;
          since = c.since;
        },
      )
