-- ===== src/Hydrology/Cells.antt =====
-- hydrology.go: the cells of the cache and the values that their entries hold.
use aura_risk.Base.{
  ℕ, zero, suc, ◌<◌, ◌≡◌, refl, sym, ap, subst, ◌∙◌, true, false, not, ◌&&◌, Option, none, some,
  some_eq, List, [], ◌∷◌, leb, ◌==◌, length, update, All, All-imp, inl, inr, ◌⊎◌, arith, Bool-cases,
}
use aura_risk.Hydrology.{
  Cell, HydrologyEntry, Cache, Arrival, entry_at, cell_at, drop_one, has_key, set_cell, make_place,
  store_bounded, note_failure, arrive,
}

module _ (P : Cell → Type 0) where
  pub All-cell_at :
      (key a : ℕ) (cs : List Cell)
      → All P cs
      → cell_at key cs ≡ some a
      → (c : Cell) × (c.key ≡ key) × (c.entry ≡ a) × P c
  All-cell_at key a [] all h = absurd (cc h)
  All-cell_at key a (c ∷ cs) all h = elim (Bool-cases (c.key == key)) [
    | inl hit ↦ (c, ground (arith, hit), some_eq (rw hit at h), all.0)
    | inr miss ↦ All-cell_at key a cs all.1 (rw miss at h)
  ]

  All-drop_one : (n : ℕ) (cs : List Cell) → All P cs → All P (drop_one n cs)
  All-drop_one n [] all = tt
  All-drop_one n (c ∷ []) all = tt
  All-drop_one zero (c ∷ d ∷ cs) all = all.1
  All-drop_one (suc n) (c ∷ d ∷ cs) all = (all.0, All-drop_one n (d ∷ cs) all.1)

  All-make_place :
      (most victim key : ℕ) (cs : List Cell) → All P cs → All P (make_place most victim key cs)
  All-make_place most victim key cs all =
      elim (Bool-cases (not (has_key key cs) && leb most (length cs))) [
        | inl full ↦ rw full (All-drop_one victim cs all)
        | inr room ↦ rw room all
      ]

  All-set_cell :
      (key a : ℕ) (cs : List Cell)
      → P (record { key = key; entry = a })
      → All P cs
      → All P (set_cell key a cs)
  All-set_cell key a [] p all = (p, tt)
  All-set_cell key a (c ∷ cs) p all = elim (Bool-cases (c.key == key)) [
    | inl hit ↦ rw hit (p, all.1)
    | inr miss ↦ rw miss (all.0, All-set_cell key a cs p all.1)
  ]

  pub All-stored :
      (most victim key a : ℕ) (cs : List Cell)
      → P (record { key = key; entry = a })
      → All P cs
      → All P (set_cell key a (make_place most victim key cs))
  All-stored most victim key a cs p all =
      All-set_cell key a (make_place most victim key cs) p (All-make_place most victim key cs all)

module _ {V : Type 0} where
  -- A fetch brought the value for the key, at the time.
  abbrev pub Arrived : List (Arrival V) → ℕ → V → ℕ → Type 0
  Arrived [] key v t = ⊥
  Arrived (a ∷ more) key v t = ((a.key ≡ key) × (a.value ≡ v) × (a.at ≡ t)) ⊎ Arrived more key v t

  -- A fetch brought the value that the cell's entry holds, for the cell's key, when the entry says.
  abbrev pub Held : List (HydrologyEntry V) → List (Arrival V) → Cell → Type 0
  Held entries arrivals c =
      (e : HydrologyEntry V) (v : V)
      → entry_at c.entry entries ≡ some e
      → e.value ≡ some v
      → Arrived arrivals c.key v e.fetched_at

  pub Arrived-arrive :
      (now key : ℕ) (fetched : Option V) (arrivals : List (Arrival V)) (k : ℕ) (v : V) (t : ℕ)
      → Arrived arrivals k v t
      → Arrived (arrive now key fetched arrivals) k v t
  Arrived-arrive now key none arrivals k v t h = h
  Arrived-arrive now key (some w) arrivals k v t h = inr h

  abbrev pub SafeCell : Cache V → List (Arrival V) → Cell → Type 0
  SafeCell cache arrivals c = (c.entry < cache.next) × Held cache.entries arrivals c

  -- What a new entry brings is what the fetch brought.
  abbrev Brought : List (Arrival V) → ℕ → Option V → ℕ → Type 0
  Brought arrivals key value t = (v : V) → value ≡ some v → Arrived arrivals key v t

  own_value :
      (new : HydrologyEntry V) (arrivals : List (Arrival V)) (key : ℕ)
      (entries : List (HydrologyEntry V))
      → Brought arrivals key new.value new.fetched_at
      → Held (new ∷ entries) arrivals (record { key = key; entry = new.address })
  own_value new arrivals key entries brought e v h h' =
      let here : (new.address == new.address) ≡ true = ground arith in
      let same = some_eq (rw here at h) in
      subst (λ x. Arrived arrivals key v x.fetched_at) same
        (brought v (ap (λ x. x.value) same ∙ h'))

  -- A cell keeps its value where an entry is added.
  Held-new :
      (new : HydrologyEntry V) (entries : List (HydrologyEntry V)) (arrivals : List (Arrival V))
      (c : Cell)
      → c.entry < new.address
      → Held entries arrivals c
      → Held (new ∷ entries) arrivals c
  Held-new new entries arrivals c below held e v h h' =
      let other : (new.address == c.entry) ≡ false = ground (arith, below) in
      held e v (rw other at h) h'

  pub store_bounded-SafeCell :
      (most victim key : ℕ) (value : Option V) (at : ℕ) (failed : Option ℕ) (cache : Cache V)
      (arrivals : List (Arrival V))
      → Brought arrivals key value at
      → All (SafeCell cache arrivals) cache.cells
      → let after = store_bounded most victim key value at failed cache in
        All (SafeCell after arrivals) after.cells
  unfolding store_bounded
  store_bounded-SafeCell most victim key value at failed cache arrivals brought safe =
      let new : HydrologyEntry V = record {
        address = cache.next;
        value = value;
        fetched_at = at;
        failed_at = failed;
      } in
      let after : Cache V = store_bounded most victim key value at failed cache in
      All-stored (SafeCell after arrivals) most victim key cache.next cache.cells
        (omega arith, own_value new arrivals key cache.entries brought)
        (All-imp cache.cells
          (λ c h. (omega (arith, h.0), Held-new new cache.entries arrivals c h.0 h.1)) safe)

  -- A write to an entry's time of failure changes no value.
  noted_entry :
      (now a b : ℕ) (es : List (HydrologyEntry V)) (e : HydrologyEntry V)
      → entry_at b (update (λ x. x.address == a) (λ x. record x { failed_at = some now }) es)
        ≡ some e
      → (old : HydrologyEntry V) × (entry_at b es ≡ some old)
        × (e.value ≡ old.value)
        × (e.fetched_at ≡ old.fetched_at)
  noted_entry now a b [] e h = absurd (cc h)
  noted_entry now a b (x ∷ es) e h = elim (Bool-cases (x.address == a)) [
    | inl noted ↦ elim (Bool-cases (x.address == b)) [
      | inl hit ↦
          let same = some_eq (rw (noted, hit) at h) in
          rw hit (x, refl, sym (ap (λ y. y.value) same), sym (ap (λ y. y.fetched_at) same))
      | inr miss ↦ rw miss (noted_entry now a b es e (rw (noted, miss) at h))
    ]
    | inr left ↦ elim (Bool-cases (x.address == b)) [
      | inl hit ↦
          let same = some_eq (rw (left, hit) at h) in
          rw hit (x, refl, sym (ap (λ y. y.value) same), sym (ap (λ y. y.fetched_at) same))
      | inr miss ↦ rw miss (noted_entry now a b es e (rw (left, miss) at h))
    ]
  ]

  pub note_failure-SafeCell :
      (now a : ℕ) (cache : Cache V) (arrivals : List (Arrival V))
      → All (SafeCell cache arrivals) cache.cells
      → All (SafeCell (note_failure now a cache) arrivals) (note_failure now a cache).cells
  unfolding note_failure
  note_failure-SafeCell now a cache arrivals safe =
      All-imp cache.cells (λ c h. (h.0, kept c h.1)) safe
    where
      kept :
          (c : Cell)
          → Held cache.entries arrivals c
          → Held (note_failure now a cache).entries arrivals c
      kept c held e v h h' =
          let (old, there, same, at) = noted_entry now a c.entry cache.entries e h in
          subst (Arrived arrivals c.key v) (sym at) (held old v there (sym same ∙ h'))
