-- ===== src/Hydrology/Ages.antt =====
-- hydrology.go: how old a cached value is that a lookup answers.
use aura_risk.Base.{
  ℕ, ◌+◌, ◌-◌, ◌≤◌, ◌≡◌, refl, ap, subst, ◌∙◌, Option, none, some, List, leb, ◌==◌, max, All, inl,
  inr, ◌⊎◌, arith, Bool-cases, Option-cases,
}
use aura_risk.Hydrology.{
  HydrologyEntry, Cache, Arrival, Begun, answers, fetches, entry_at, cell_at, fallback_on,
  failed_lately, refetch, is_fresh, with_value, lookup_begin,
}
use aura_risk.Hydrology.Cells.{Arrived, SafeCell, All-cell_at}

module _ {V : Type 0} (fresh_for stale_for : ℕ) where
  -- A value, if there is one, came from a fetch for the key, and was not too old when it was asked for,
  -- unless values are fresh for ever.
  abbrev pub Aged : List (Arrival V) → ℕ → ℕ → Option V → Type 0
  Aged arrivals key asked o =
      (v : V)
      → o ≡ some v
      → (t : ℕ) × Arrived arrivals key v t
        × ((fresh_for ≡ 0) ⊎ (asked ≤ t + max fresh_for stale_for))

  abbrev pub BegunAged : List (Arrival V) → ℕ → ℕ → Begun V → Type 0
  BegunAged arrivals key now (answers o) = Aged arrivals key now o
  BegunAged arrivals key now (fetches entry o) = Aged arrivals key now o

  module _ (retry_after now key : ℕ) (arrivals : List (Arrival V)) where
    no_value : Aged arrivals key now none
    no_value v h = absurd (cc h)

    refetch-Aged :
        (e : HydrologyEntry V) (cached : Option V)
        → Aged arrivals key now cached
        → BegunAged arrivals key now (refetch retry_after now e cached)
    refetch-Aged e cached aged = elim (Bool-cases (failed_lately retry_after now e.failed_at)) [
      | inl failed ↦ rw failed aged
      | inr old ↦ rw old aged
    ]

    fallback_on-Aged :
        (e : HydrologyEntry V)
        → ((v : V) → e.value ≡ some v → Arrived arrivals key v e.fetched_at)
        → Aged arrivals key now (fallback_on stale_for now e)
    fallback_on-Aged e came v h = elim (Bool-cases (leb (now - e.fetched_at) stale_for)) [
      | inl stale ↦ (e.fetched_at, came v (rw stale at h), inr (ground (arith, stale)))
      | inr over ↦ absurd (cc (rw over at h))
    ]

    with_value-Aged :
        (e : HydrologyEntry V) (o : Option V)
        → e.value ≡ o
        → ((v : V) → e.value ≡ some v → Arrived arrivals key v e.fetched_at)
        → BegunAged arrivals key now (with_value fresh_for stale_for retry_after now e o)
    with_value-Aged e none is came = refetch-Aged e none no_value
    with_value-Aged e (some v) is came = elim (Bool-cases (is_fresh fresh_for now e)) [
      | inr old ↦ rw old (refetch-Aged e (fallback_on stale_for now e) (fallback_on-Aged e came))
      | inl fresh ↦ rw fresh (λ w h. (
        e.fetched_at,
        came w (is ∙ h),
        elim (Bool-cases (fresh_for == 0)) [
          | inl forever ↦ inl (ground (arith, forever))
          | inr bounded ↦ inr (ground (arith, bounded, fresh))
        ],
      ))
    ]

    pub lookup_begin-Aged :
        (cache : Cache V)
        → All (SafeCell cache arrivals) cache.cells
        → BegunAged arrivals key now (lookup_begin fresh_for stale_for retry_after now key cache)
    unfolding lookup_begin
    lookup_begin-Aged cache safe = elim (Option-cases (cell_at key cache.cells)) [
      | inl missing ↦ rw (lookup_begin, missing) no_value
      | inr (a, there) ↦ elim (Option-cases (entry_at a cache.entries)) [
        | inl lost ↦ rw (lookup_begin, there, lost) no_value
        | inr (e, found) ↦
            let (c, same, at, kept) =
              All-cell_at (SafeCell cache arrivals) key a cache.cells safe there in
            rw (lookup_begin, there, found)
              (with_value-Aged e e.value refl (λ v h.
                subst (λ k. Arrived arrivals k v e.fetched_at) same
                  (kept.1 e v (ap (λ b. entry_at b cache.entries) at ∙ found) h)))
      ]
    ]
