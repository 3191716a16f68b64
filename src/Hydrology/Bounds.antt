-- ===== src/Hydrology/Bounds.antt =====
-- hydrology.go: the cache keeps within its bound.
use aura_risk.Base.{
  ℕ, zero, suc, ◌+◌, ◌≤◌, ◌<◌, ◌≡◌, refl, false, Option, none, some, List, [], ◌∷◌, leb, ◌==◌,
  if◌then◌else◌, length, Distinct, inl, inr, arith, Bool-cases,
}
use aura_risk.Hydrology.{
  Cell, drop_one, has_key, set_cell, make_place, store_bounded, note_failure, fail_at, lookup_begin,
  lookup_end, Begun, answers, fetches, Lookup, State, Event, asks, ends, at_index, begun, ended,
  happen, happen_all,
}

drop_one-length : (n : ℕ) (cs : List Cell) → 0 < length cs → length (drop_one n cs) + 1 ≡ length cs
drop_one-length n [] h = absurd (omega arith)
drop_one-length n (c ∷ []) h = omega arith
drop_one-length zero (c ∷ d ∷ cs) h = omega arith
drop_one-length (suc n) (c ∷ d ∷ cs) h = omega (arith, drop_one-length n (d ∷ cs) (omega arith))

set_cell-length :
    (key a : ℕ) (cs : List Cell)
    → length (set_cell key a cs) ≡ (if has_key key cs then length cs else suc (length cs))
set_cell-length key a [] = omega arith
set_cell-length key a (c ∷ cs) = ground (arith, set_cell-length key a cs)

drop_one-missing :
    (n key : ℕ) (cs : List Cell) → has_key key cs ≡ false → has_key key (drop_one n cs) ≡ false
drop_one-missing n key [] h = h
drop_one-missing n key (c ∷ []) h = refl
drop_one-missing zero key (c ∷ d ∷ cs) h = ground (arith, h)
drop_one-missing (suc n) key (c ∷ d ∷ cs) h = ground (arith, h, drop_one-missing n key (d ∷ cs))

drop_one-Distinct :
    (n : ℕ) (cs : List Cell) → Distinct (λ c. c.key) cs → Distinct (λ c. c.key) (drop_one n cs)
drop_one-Distinct n [] d = d
drop_one-Distinct n (c ∷ []) d = tt
drop_one-Distinct zero (c ∷ d ∷ cs) apart = apart.1
drop_one-Distinct (suc n) (c ∷ d ∷ cs) apart =
    (drop_one-missing n c.key (d ∷ cs) apart.0, drop_one-Distinct n (d ∷ cs) apart.1)

set_cell-missing :
    (key a other : ℕ) (cs : List Cell)
    → has_key other cs ≡ false
    → (key == other) ≡ false
    → has_key other (set_cell key a cs) ≡ false
set_cell-missing key a other [] h apart = rw apart refl
set_cell-missing key a other (c ∷ cs) h apart =
    ground (arith, h, apart, set_cell-missing key a other cs)

set_cell-Distinct :
    (key a : ℕ) (cs : List Cell)
    → Distinct (λ c. c.key) cs
    → Distinct (λ c. c.key) (set_cell key a cs)
set_cell-Distinct key a [] d = (refl, tt)
set_cell-Distinct key a (c ∷ cs) d = elim (Bool-cases (c.key == key)) [
  | inl hit ↦ rw hit (ground (arith, hit, d.0), d.1)
  | inr miss ↦
      rw miss
        (set_cell-missing key a c.key cs d.0 (ground (arith, miss)), set_cell-Distinct key a cs d.1)
]

-- One cell for each key, and no more than the bound.
pub record IsBounded (most : ℕ) (cells : List Cell) : Type 0 where
  pub distinct : Distinct (λ c. c.key) cells
  pub bounded : length cells ≤ most

module _ (most : ℕ) (some_room : 0 < most) where
  store-IsBounded :
      (victim key a : ℕ) (cs : List Cell)
      → IsBounded most cs
      → IsBounded most (set_cell key a (make_place most victim key cs))
  store-IsBounded victim key a cs b = elim (Bool-cases (has_key key cs)) [
    | inl old ↦
        rw (make_place, old)
          (record {
            distinct = set_cell-Distinct key a cs b.distinct;
            bounded = ground (arith, set_cell-length key a cs, old, b.bounded);
          })
    | inr new ↦ elim (Bool-cases (leb most (length cs))) [
      | inl full ↦
          let missing = drop_one-missing victim key cs new in
          rw (make_place, new, full)
            (record {
              distinct =
                  set_cell-Distinct key a (drop_one victim cs)
                    (drop_one-Distinct victim cs b.distinct);
              bounded = ground (
                arith,
                set_cell-length key a (drop_one victim cs),
                missing,
                b.bounded,
                drop_one-length victim cs (ground (arith, full)),
              );
            })
      | inr room ↦
          rw (make_place, new, room)
            (record {
              distinct = set_cell-Distinct key a cs b.distinct;
              bounded = ground (arith, set_cell-length key a cs, new, room);
            })
    ]
  ]

module _ {V : Type 0} (fresh_for stale_for retry_after most : ℕ) (some_room : 0 < most) where
  begun-IsBounded :
      (now key : ℕ) (b : Begun V) (s : State V)
      → IsBounded most s.cache.cells
      → IsBounded most (begun now key b s).cache.cells
  begun-IsBounded now key (answers v) s b = b
  begun-IsBounded now key (fetches entry cached) s b = b

  ended-IsBounded :
      (n now victim : ℕ) (fetched : Option V) (l : Lookup V) (s : State V)
      → IsBounded most s.cache.cells
      → IsBounded most (ended most n now victim fetched l s).cache.cells
  unfolding lookup_end store_bounded note_failure
  ended-IsBounded n now victim (some v) l s b =
      store-IsBounded most some_room victim l.key s.cache.next s.cache.cells b
  ended-IsBounded n now victim none l s b = failed l.entry
    where
      failed :
          (entry : Option ℕ) → IsBounded most (fail_at most victim now l.key entry s.cache).cells
      failed none = store-IsBounded most some_room victim l.key s.cache.next s.cache.cells b
      failed (some a) = b

  happen-IsBounded :
      (e : Event V) (s : State V)
      → IsBounded most s.cache.cells
      → IsBounded most (happen fresh_for stale_for retry_after most e s).cache.cells
  unfolding happen
  happen-IsBounded (asks passed key) s b =
      begun-IsBounded (s.clock + passed) key
        (lookup_begin fresh_for stale_for retry_after (s.clock + passed) key s.cache) s b
  happen-IsBounded (ends n passed victim fetched) s b =
      elim (at_index n s.lookups)
        as (λ o.
          IsBounded most
            (State.cache (elim o [
              | none ↦ s
              | some l ↦ ended most n (s.clock + passed) victim fetched l s
            ])).cells) [
              | none ↦ b
              | some l ↦ ended-IsBounded n (s.clock + passed) victim fetched l s b
            ]

  -- However lookups interleave, whatever fetches bring and whichever cells are dropped, the cache has
  -- no more cells than its bound, and one for each key.
  pub happen_all-IsBounded :
      (es : List (Event V)) (s : State V)
      → IsBounded most s.cache.cells
      → IsBounded most (happen_all fresh_for stale_for retry_after most es s).cache.cells
  unfolding happen_all
  happen_all-IsBounded [] s b = b
  happen_all-IsBounded (e ∷ es) s b =
      happen_all-IsBounded es (happen fresh_for stale_for retry_after most e s)
        (happen-IsBounded e s b)
