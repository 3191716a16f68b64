-- ===== src/Hydrology/MainRiver.antt =====
-- hydrology.go: RiverFlowOn ends without a panic, with the cell of the highest baseline.
use aura_risk.Base.{
  ℕ, ◌≡◌, refl, sym, ap, subst, ◌∙◌, some_eq, true, Option, none, some, List, [], ◌∷◌, All, inl,
  inr, ◌⊎◌, Bool-cases,
}
use aura_risk.Risk.Float.{Floats, IsMonotone}
use aura_risk.Hydrology.River.{
  RiverSeries, LocatedFlow, flow_on, better, or_better, flow_among, river_flow_on,
}
use aura_risk.Hydrology.Flows.{flow_on-some}

module _ (fl : Floats) where
  open fl use {F, le}

  -- A flow of at least the other's baseline.
  abbrev pub Tops : Option (LocatedFlow fl) → LocatedFlow fl → Type 0
  Tops none flow = ⊥
  Tops (some best) flow = le flow.baseline best.baseline ≡ true

  -- The flow of one of the cells on the day.
  abbrev pub Among : List (RiverSeries fl) → ℕ → LocatedFlow fl → Type 0
  Among [] day flow = ⊥
  Among (cell ∷ cells) day flow = (flow_on fl day cell ≡ some (some flow)) ⊎ Among cells day flow

  -- The flow, if there is one, is that of a cell, and has the highest baseline of all cells.
  pub record IsMain (cells : List (RiverSeries fl)) (day : ℕ) (best : Option (LocatedFlow fl))
      : Type 0 where
    pub highest :
        All
          (λ cell.
            (flow : LocatedFlow fl) → flow_on fl day cell ≡ some (some flow) → Tops best flow)
          cells
    pub of_cell : (flow : LocatedFlow fl) → best ≡ some flow → Among cells day flow

  module _ (monotone : IsMonotone fl) where
    Tops-trans :
        (best middle : Option (LocatedFlow fl)) (flow : LocatedFlow fl)
        → ((f : LocatedFlow fl) → middle ≡ some f → Tops best f)
        → Tops middle flow
        → Tops best flow
    Tops-trans best none flow above h = absurd h
    Tops-trans none (some m) flow above h = absurd (above m refl)
    Tops-trans (some b) (some m) flow above h =
        monotone.le_trans flow.baseline m.baseline b.baseline h (above m refl)

    better-Tops :
        (acc : Option (LocatedFlow fl)) (flow : LocatedFlow fl) → Tops (better fl acc flow) flow
    better-Tops none flow = monotone.le_refl flow.baseline
    better-Tops (some b) flow = elim (Bool-cases (le flow.baseline b.baseline)) [
      | inl lower ↦ rw lower lower
      | inr higher ↦ rw higher (monotone.le_refl flow.baseline)
    ]

    better-keeps :
        (acc : Option (LocatedFlow fl)) (flow f : LocatedFlow fl)
        → acc ≡ some f
        → Tops (better fl acc flow) f
    better-keeps none flow f h = absurd (cc h)
    better-keeps (some b) flow f h =
        subst (Tops (better fl (some b) flow)) (some_eq h)
          (elim (Bool-cases (le flow.baseline b.baseline)) [
            | inl lower ↦ rw lower (monotone.le_refl b.baseline)
            | inr higher ↦ rw higher (monotone.le_total flow.baseline b.baseline higher)
          ])

    better-cases :
        (acc : Option (LocatedFlow fl)) (flow : LocatedFlow fl)
        → (better fl acc flow ≡ acc) ⊎ (better fl acc flow ≡ some flow)
    better-cases none flow = inr refl
    better-cases (some b) flow = elim (Bool-cases (le flow.baseline b.baseline)) [
      | inl lower ↦ inl (rw lower refl)
      | inr higher ↦ inr (rw higher refl)
    ]

    -- The end of the loop, from the best flow so far.
    record Ends (cells : List (RiverSeries fl)) (day : ℕ) (acc best : Option (LocatedFlow fl))
        : Type 0 where
      over : (f : LocatedFlow fl) → acc ≡ some f → Tops best f
      highest :
          All
            (λ cell.
              (flow : LocatedFlow fl) → flow_on fl day cell ≡ some (some flow) → Tops best flow)
            cells
      of_cell : (f : LocatedFlow fl) → best ≡ some f → (acc ≡ some f) ⊎ Among cells day f

    at_end : (day : ℕ) (acc : Option (LocatedFlow fl)) → Ends [] day acc acc
    at_end day acc = record {
      over = λ f h. subst (λ o. Tops o f) (sym h) (monotone.le_refl f.baseline);
      highest = tt;
      of_cell = λ f h. inl h;
    }

    before_skip :
        (cell : RiverSeries fl) (cells : List (RiverSeries fl)) (day : ℕ)
        (acc best : Option (LocatedFlow fl))
        → flow_on fl day cell ≡ some none
        → Ends cells day acc best
        → Ends (cell ∷ cells) day acc best
    before_skip cell cells day acc best skip rest = record {
      over = rest.over;
      highest = (λ flow h. absurd (cc (skip, h)), rest.highest);
      of_cell = λ f h. elim (rest.of_cell f h) [ inl a ↦ inl a | inr b ↦ inr (inr b) ];
    }

    before_flow :
        (cell : RiverSeries fl) (cells : List (RiverSeries fl)) (day : ℕ)
        (acc best : Option (LocatedFlow fl)) (flow : LocatedFlow fl)
        → flow_on fl day cell ≡ some (some flow)
        → Ends cells day (better fl acc flow) best
        → Ends (cell ∷ cells) day acc best
    before_flow cell cells day acc best flow found rest = record {
      over = λ f h. Tops-trans best (better fl acc flow) f rest.over (better-keeps acc flow f h);
      highest = (
        λ f h.
            subst (Tops best) (some_eq (some_eq (sym found ∙ h)))
              (Tops-trans best (better fl acc flow) flow rest.over (better-Tops acc flow)),
        rest.highest,
      );
      of_cell = λ f h. elim (rest.of_cell f h) [
        | inr b ↦ inr (inr b)
        | inl a ↦ elim (better-cases acc flow) [
          | inl kept ↦ inl (sym kept ∙ a)
          | inr taken ↦ inr (inl (found ∙ ap some (sym taken ∙ a)))
        ]
      ];
    }

    flow_among-Ends :
        (cells : List (RiverSeries fl)) (day : ℕ) (acc : Option (LocatedFlow fl))
        → (best : Option (LocatedFlow fl)) × (flow_among fl cells day acc ≡ some best)
          × Ends cells day acc best
    unfolding flow_among
    flow_among-Ends [] day acc = (acc, refl, at_end day acc)
    flow_among-Ends (cell ∷ cells) day acc =
        of_flow (flow_on-some fl day cell) (λ o. flow_among-Ends cells day (or_better fl acc o))
      where
        of_flow :
            ((o : Option (LocatedFlow fl)) × (flow_on fl day cell ≡ some o))
            → ((o : Option (LocatedFlow fl))
                → (best : Option (LocatedFlow fl)) × (flow_among fl cells day (or_better fl acc o)
                    ≡ some best)
                  × Ends cells day (or_better fl acc o) best)
            → (best : Option (LocatedFlow fl)) × (flow_among fl (cell ∷ cells) day acc ≡ some best)
              × Ends (cell ∷ cells) day acc best
        of_flow (none, e) rest =
            let (best, found, end) = rest none in
            (best, rw (flow_among, e) found, before_skip cell cells day acc best e end)
        of_flow (some flow, e) rest =
            let (best, found, end) = rest (some flow) in
            (best, rw (flow_among, e) found, before_flow cell cells day acc best flow e end)

    -- RiverFlowOn reads and slices in range, whatever the cells, and what it gives is the flow of one of
    -- the cells, with a baseline at least as high as that of every cell with usable data; it gives
    -- nothing only if no cell has usable data.
    pub river_flow_on-IsMain :
        (cells : List (RiverSeries fl)) (day : ℕ)
        → (best : Option (LocatedFlow fl)) × (river_flow_on fl cells day ≡ some best)
          × IsMain cells day best
    river_flow_on-IsMain cells day =
        let (best, found, end) = flow_among-Ends cells day none in
        (
          best,
          found,
          record {
            highest = end.highest;
            of_cell = λ f h. elim (end.of_cell f h) [ inl a ↦ absurd (cc a) | inr b ↦ b ];
          },
        )
