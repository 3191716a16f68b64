-- ===== src/Hydrology.antt =====
-- aurarisk-backend/internal/services/hydrology.go: the cache of ground and river inputs. A lookup is
-- two steps, before and after the fetch, so that lookups interleave between them as they do where the
-- mutex is not held. The cache holds pointers: an entry is an address, and a failed lookup writes to
-- the entry that it found before its fetch, which may have left the cache. Times are nanoseconds.
pub mod River
pub mod Flows
pub mod MainRiver
pub mod Bounds
pub mod Cells
pub mod Ages
pub mod Sources
mod Examples
use aura_risk.Base.{
  ℕ, zero, suc, ◌+◌, ◌-◌, ◌*◌, Bool, true, false, not, ◌&&◌, ◌||◌, Option, none, some, List, [],
  ◌∷◌, ltb, leb, ◌==◌, if◌then◌else◌, length, exists, update,
}

abbrev pub second : ℕ
second = 1_000_000_000

-- HydrologyConfig; a number that is not positive is 0 here.
pub record HydrologyConfig : Type 0 where
  pub timeout : ℕ
  pub river_fresh_for : ℕ
  pub river_stale_for : ℕ
  pub retry_after : ℕ
  pub max_entries : ℕ

abbrev or_default : ℕ → ℕ → ℕ
or_default zero n = n
or_default (suc m) n = suc m

-- withDefaults
unfoldable pub with_defaults : HydrologyConfig → HydrologyConfig
with_defaults c = record {
  timeout = or_default c.timeout (4 * second);
  river_fresh_for = or_default c.river_fresh_for (6 * 3600 * second);
  river_stale_for = or_default c.river_stale_for (48 * 3600 * second);
  retry_after = or_default c.retry_after (600 * second);
  max_entries = or_default c.max_entries 20000;
}

-- An entry at its address; no time is Go's zero time.
pub record HydrologyEntry (V : Type 0) : Type 0 where
  pub address : ℕ
  pub value : Option V
  pub fetched_at : ℕ
  pub failed_at : Option ℕ

-- A cell of the map: a key, with the address of its entry.
pub record Cell : Type 0 where
  pub key : ℕ
  pub entry : ℕ

abbrev pub cell_at : ℕ → List Cell → Option ℕ
cell_at key [] = none
cell_at key (c ∷ cs) = if c.key == key then some c.entry else cell_at key cs

abbrev pub failed_lately : ℕ → ℕ → Option ℕ → Bool
failed_lately retry_after now none = false
failed_lately retry_after now (some at) = ltb (now - at) retry_after

-- The cells without an arbitrary one, which the order of the map decides.
abbrev pub drop_one : ℕ → List Cell → List Cell
drop_one n [] = []
drop_one n (c ∷ []) = []
drop_one zero (c ∷ d ∷ cs) = d ∷ cs
drop_one (suc n) (c ∷ d ∷ cs) = c ∷ drop_one n (d ∷ cs)

abbrev pub has_key : ℕ → List Cell → Bool
has_key key = exists (λ c. c.key == key)

-- cache[key] = entry
abbrev pub set_cell : ℕ → ℕ → List Cell → List Cell
set_cell key a [] = record { key = key; entry = a } ∷ []
set_cell key a (c ∷ cs) =
    let rest = set_cell key a cs in
    if c.key == key then record { key = key; entry = a } ∷ cs else c ∷ rest

abbrev pub make_place : ℕ → ℕ → ℕ → List Cell → List Cell
make_place most victim key cs =
    if not (has_key key cs) && leb most (length cs) then drop_one victim cs else cs

-- The map and the entries, with the next address.
pub record Cache (V : Type 0) : Type 0 where
  pub cells : List Cell
  pub entries : List (HydrologyEntry V)
  pub next : ℕ

module _ {V : Type 0} where
  abbrev pub entry_at : ℕ → List (HydrologyEntry V) → Option (HydrologyEntry V)
  entry_at a [] = none
  entry_at a (e ∷ es) = if e.address == a then some e else entry_at a es

-- What a lookup does before its fetch: it answers, or it fetches, with the entry that it found and
-- the older value that it may fall back on.
pub data Begun (V : Type 0) : Type 0 where
  answers : Option V → Begun V
  fetches : Option ℕ → Option V → Begun V

module _ {V : Type 0} where
  abbrev pub fallback_on : ℕ → ℕ → HydrologyEntry V → Option V
  fallback_on stale_for now e = if leb (now - e.fetched_at) stale_for then e.value else none

  -- Past the test of freshness, with the older value.
  abbrev pub refetch : ℕ → ℕ → HydrologyEntry V → Option V → Begun V
  refetch retry_after now e cached =
      if failed_lately retry_after now e.failed_at
      then answers cached
      else fetches (some e.address) cached

  abbrev pub is_fresh : ℕ → ℕ → HydrologyEntry V → Bool
  is_fresh fresh_for now e = fresh_for == 0 || ltb (now - e.fetched_at) fresh_for

  abbrev pub with_value : ℕ → ℕ → ℕ → ℕ → HydrologyEntry V → Option V → Begun V
  with_value fresh_for stale_for retry_after now e none = refetch retry_after now e none
  with_value fresh_for stale_for retry_after now e (some v) =
      if is_fresh fresh_for now e
      then answers (some v)
      else refetch retry_after now e (fallback_on stale_for now e)

  -- lookup, up to the fetch.
  unfoldable pub lookup_begin : ℕ → ℕ → ℕ → ℕ → ℕ → Cache V → Begun V
  lookup_begin fresh_for stale_for retry_after now key c = elim (cell_at key c.cells) [
    | none ↦ fetches none none
    | some a ↦ elim (entry_at a c.entries) [
      | none ↦ fetches none none
      | some e ↦ with_value fresh_for stale_for retry_after now e e.value
    ]
  ]

  -- storeBounded, of a new entry.
  unfoldable pub store_bounded : ℕ → ℕ → ℕ → Option V → ℕ → Option ℕ → Cache V → Cache V
  store_bounded most victim key value fetched_at failed_at c = record {
    cells = set_cell key c.next (make_place most victim key c.cells);
    entries =
        record { address = c.next; value = value; fetched_at = fetched_at; failed_at = failed_at }
        ∷ c.entries;
    next = suc c.next;
  }

  -- entry.failedAt = s.now()
  unfoldable pub note_failure : ℕ → ℕ → Cache V → Cache V
  note_failure now a c = record c {
    entries = update (λ e. e.address == a) (λ e. record e { failed_at = some now }) c.entries;
  }

  abbrev pub fail_at : ℕ → ℕ → ℕ → ℕ → Option ℕ → Cache V → Cache V
  fail_at most victim now key none c = store_bounded most victim key none 0 (some now) c
  fail_at most victim now key (some a) c = note_failure now a c

  -- lookup, from the end of the fetch, which gives a value or an error.
  unfoldable pub lookup_end :
      ℕ → ℕ → ℕ → ℕ → Option ℕ → Option V → Option V → Cache V → Option V × Cache V
  lookup_end most victim now key entry cached none c = (cached, fail_at most victim now key entry c)
  lookup_end most victim now key entry cached (some v) c =
      (some v, store_bounded most victim key (some v) now none c)

-- A lookup whose fetch is going on.
pub record Lookup (V : Type 0) : Type 0 where
  pub key : ℕ
  pub asked_at : ℕ
  pub entry : Option ℕ
  pub cached : Option V

-- What a lookup answered.
pub record Answer (V : Type 0) : Type 0 where
  pub key : ℕ
  pub asked_at : ℕ
  pub value : Option V

-- A value that a fetch brought.
pub record Arrival (V : Type 0) : Type 0 where
  pub key : ℕ
  pub value : V
  pub at : ℕ

-- The cache, the lookups going on, what was answered and fetched, and the time.
pub record State (V : Type 0) : Type 0 where
  pub cache : Cache V
  pub lookups : List (Lookup V)
  pub answered : List (Answer V)
  pub arrived : List (Arrival V)
  pub clock : ℕ

-- Some time passes, and then a lookup begins, for a key, or the fetch of one that is going on ends,
-- with a victim for the cache if it is full.
pub data Event (V : Type 0) : Type 0 where
  asks : ℕ → ℕ → Event V
  ends : ℕ → ℕ → ℕ → Option V → Event V

module _ {V : Type 0} where
  abbrev pub at_index : ℕ → List (Lookup V) → Option (Lookup V)
  at_index n [] = none
  at_index zero (l ∷ ls) = some l
  at_index (suc n) (l ∷ ls) = at_index n ls

  abbrev pub without_index : ℕ → List (Lookup V) → List (Lookup V)
  without_index n [] = []
  without_index zero (l ∷ ls) = ls
  without_index (suc n) (l ∷ ls) = l ∷ without_index n ls

  abbrev pub begun : ℕ → ℕ → Begun V → State V → State V
  begun now key (answers v) s = record s {
    clock = now;
    answered = record { key = key; asked_at = now; value = v } ∷ s.answered;
  }
  begun now key (fetches entry cached) s = record s {
    clock = now;
    lookups = record { key = key; asked_at = now; entry = entry; cached = cached } ∷ s.lookups;
  }

  abbrev pub arrive : ℕ → ℕ → Option V → List (Arrival V) → List (Arrival V)
  arrive now key none more = more
  arrive now key (some v) more = record { key = key; value = v; at = now } ∷ more

  abbrev pub ended : ℕ → ℕ → ℕ → ℕ → Option V → Lookup V → State V → State V
  ended most n now victim fetched l s =
      let (v, cache) = lookup_end most victim now l.key l.entry l.cached fetched s.cache in
      record {
        cache = cache;
        lookups = without_index n s.lookups;
        answered = record { key = l.key; asked_at = l.asked_at; value = v } ∷ s.answered;
        arrived = arrive now l.key fetched s.arrived;
        clock = now;
      }

module _ {V : Type 0} (fresh_for stale_for retry_after most : ℕ) where
  unfoldable pub happen : Event V → State V → State V
  happen (asks passed key) s =
      let now = s.clock + passed in
      begun now key (lookup_begin fresh_for stale_for retry_after now key s.cache) s
  happen (ends n passed victim fetched) s = elim (at_index n s.lookups) [
    | none ↦ s
    | some l ↦ ended most n (s.clock + passed) victim fetched l s
  ]

  unfoldable pub happen_all : List (Event V) → State V → State V
  happen_all [] s = s
  happen_all (e ∷ es) s = happen_all es (happen e s)
