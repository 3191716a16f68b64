-- ===== src/Hydrology/Sources.antt =====
-- hydrology.go: where the values that lookups answer come from, and how old they are.
use aura_risk.Base.{
  ℕ, zero, suc, ◌+◌, ◌≤◌, ◌≡◌, refl, subst, Option, none, some, some_eq, List, [], ◌∷◌, All,
  All-imp, inl, inr, arith, Option-cases,
}
use aura_risk.Hydrology.{
  Lookup, State, Begun, answers, fetches, Event, asks, ends, lookup_begin, fail_at, lookup_end,
  at_index, without_index, begun, arrive, ended, happen, happen_all,
}
use aura_risk.Hydrology.Cells.{
  SafeCell, Arrived-arrive, store_bounded-SafeCell, note_failure-SafeCell,
}
use aura_risk.Hydrology.Ages.{Aged, BegunAged, lookup_begin-Aged}

module _ {V : Type 0} (fresh_for stale_for : ℕ) where
  -- The cells hold what fetches brought for their keys, and so do the lookups and the answers.
  pub record IsSourced (s : State V) : Type 0 where
    pub safe : All (SafeCell s.cache s.arrived) s.cache.cells
    pub going :
        All
          (λ l.
            (l.asked_at ≤ s.clock) × Aged fresh_for stale_for s.arrived l.key l.asked_at l.cached)
          s.lookups
    pub told : All (λ a. Aged fresh_for stale_for s.arrived a.key a.asked_at a.value) s.answered

  -- What was going on and what was answered, once time has passed and a fetch may have come.
  module _ (now key : ℕ) (fetched : Option V) (s : State V) where
    Aged-arrive :
        (k asked : ℕ) (o : Option V)
        → Aged fresh_for stale_for s.arrived k asked o
        → Aged fresh_for stale_for (arrive now key fetched s.arrived) k asked o
    Aged-arrive k asked o aged v h =
        let (t, came, young) = aged v h in
        (t, Arrived-arrive now key fetched s.arrived k v t came, young)

    SafeCell-arrive :
        All (SafeCell s.cache s.arrived) s.cache.cells
        → All (SafeCell s.cache (arrive now key fetched s.arrived)) s.cache.cells
    SafeCell-arrive safe =
        All-imp s.cache.cells
          (λ c h. (
            h.0,
            λ e v a b. Arrived-arrive now key fetched s.arrived c.key v e.fetched_at (h.1 e v a b),
          ))
          safe

  begun-IsSourced :
      (now key : ℕ) (b : Begun V) (s : State V)
      → s.clock ≤ now
      → BegunAged fresh_for stale_for s.arrived key now b
      → IsSourced s
      → IsSourced (begun now key b s)
  begun-IsSourced now key (answers o) s later aged sourced = record {
    safe = sourced.safe;
    going = All-imp s.lookups (λ l h. (omega (arith, h.0, later), h.1)) sourced.going;
    told = (aged, sourced.told);
  }
  begun-IsSourced now key (fetches entry o) s later aged sourced = record {
    safe = sourced.safe;
    going = (
      (omega arith, aged),
      All-imp s.lookups (λ l h. (omega (arith, h.0, later), h.1)) sourced.going,
    );
    told = sourced.told;
  }

  All-without_index :
      (P : Lookup V → Type 0) (n : ℕ) (ls : List (Lookup V)) → All P ls → All P (without_index n ls)
  All-without_index P n [] all = tt
  All-without_index P zero (l ∷ ls) all = all.1
  All-without_index P (suc n) (l ∷ ls) all = (all.0, All-without_index P n ls all.1)

  All-at_index :
      (P : Lookup V → Type 0) (n : ℕ) (ls : List (Lookup V)) (l : Lookup V)
      → All P ls
      → at_index n ls ≡ some l
      → P l
  All-at_index P n [] l all h = absurd (cc h)
  All-at_index P zero (x ∷ ls) l all h = subst P (some_eq h) all.0
  All-at_index P (suc n) (x ∷ ls) l all h = All-at_index P n ls l all.1 h

  module _ (most n now victim : ℕ) (l : Lookup V) (s : State V) (later : s.clock ≤ now) where
    ended-IsSourced :
        (fetched : Option V)
        → l.asked_at ≤ s.clock
        → Aged fresh_for stale_for s.arrived l.key l.asked_at l.cached
        → IsSourced s
        → IsSourced (ended most n now victim fetched l s)
    unfolding lookup_end
    ended-IsSourced (some v) asked aged sourced = record {
      safe =
          store_bounded-SafeCell most victim l.key (some v) now none s.cache
            (arrive now l.key (some v) s.arrived) (λ w h. inl (refl, some_eq h, refl))
            (SafeCell-arrive now l.key (some v) s sourced.safe);
      going = All-without_index _ n s.lookups (
          All-imp s.lookups
            (λ x h. (
              omega (arith, h.0, later),
              Aged-arrive now l.key (some v) s x.key x.asked_at x.cached h.1,
            ))
            sourced.going);
      told = (
        λ w h. (now, inl (refl, some_eq h, refl), inr (omega (arith, asked, later))),
        All-imp s.answered (λ a h. Aged-arrive now l.key (some v) s a.key a.asked_at a.value h)
            sourced.told,
      );
    }
    ended-IsSourced none asked aged sourced = record {
      safe = failed l.entry;
      going =
          All-without_index _ n s.lookups
            (All-imp s.lookups (λ x h. (omega (arith, h.0, later), h.1)) sourced.going);
      told = (aged, sourced.told);
    }
      where
        failed :
            (entry : Option ℕ)
            → let after = fail_at most victim now l.key entry s.cache in
              All (SafeCell after s.arrived) after.cells
        failed none =
            store_bounded-SafeCell most victim l.key none 0 (some now) s.cache s.arrived
              (λ w h. absurd (cc h)) sourced.safe
        failed (some a) = note_failure-SafeCell now a s.cache s.arrived sourced.safe

  module _ (retry_after most : ℕ) where
    happen-IsSourced :
        (e : Event V) (s : State V)
        → IsSourced s
        → IsSourced (happen fresh_for stale_for retry_after most e s)
    unfolding happen
    happen-IsSourced (asks passed key) s sourced =
        let now = s.clock + passed in
        begun-IsSourced now key (lookup_begin fresh_for stale_for retry_after now key s.cache) s
          (omega arith)
          (lookup_begin-Aged fresh_for stale_for retry_after now key s.arrived s.cache sourced.safe)
          sourced
    happen-IsSourced (ends n passed victim fetched) s sourced =
        elim (Option-cases (at_index n s.lookups)) [
          | inl nobody ↦ rw (happen, nobody) sourced
          | inr (l, there) ↦
              let (asked, aged) = All-at_index _ n s.lookups l sourced.going there in
              rw (happen, there)
                (ended-IsSourced most n (s.clock + passed) victim l s (omega arith) fetched asked
                  aged sourced)
        ]

    -- However lookups interleave, whatever fetches bring or fail, and whichever cells are dropped: a
    -- value that a lookup answers is one that a fetch brought for the same key, and, unless values are
    -- fresh for ever, at the time of asking it was no older than the longer of the two windows.
    pub happen_all-IsSourced :
        (es : List (Event V)) (s : State V)
        → IsSourced s
        → IsSourced (happen_all fresh_for stale_for retry_after most es s)
    unfolding happen_all
    happen_all-IsSourced [] s sourced = sourced
    happen_all-IsSourced (e ∷ es) s sourced =
        happen_all-IsSourced es (happen fresh_for stale_for retry_after most e s)
          (happen-IsSourced e s sourced)
