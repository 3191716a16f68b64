-- ===== src/Weather/Bounds.antt =====
-- weather.go: the cache is bounded, and a cell has one call at a time.
use aura_risk.Base.{
  Distinct, length-select, length-delete, length-delete_there, exists-delete_same, find-exists,
  Distinct-select, Distinct-delete, ℕ, zero, suc, ◌≤◌, ◌<◌, ◌≡◌, refl, inl, inr, Bool, true, false,
  not, ◌&&◌, Option, none, some, List, [], ◌∷◌, ltb, leb, length, find, exists, select, delete,
  arith, Bool-cases,
}
use aura_risk.Weather.{
  WeatherConfig, CachedWeather, Flight, WeatherService, in_cell, store, make_room, oldest_from,
  drop_cell, is_recent, allow_call,
}
use aura_risk.Weather.Steps.{
  Event, asks, ends, Began, flies_to, has_flight, stored, fetch_end, get_begin, join_or_call,
  launch, hit_or, end_of, happen, happen_all, is_fresh,
}

module _ {D : Type 0} where
  -- The entry that the loop ends with is one of those it went over.
  oldest_there :
      (best : CachedWeather D) (cs : List (CachedWeather D))
      → (c : CachedWeather D) × (oldest_from (some best) cs ≡ some c)
        × (exists (in_cell c.cell) (best ∷ cs) ≡ true)
  unfolding oldest_from
  oldest_there best [] = (best, refl, ground arith)
  oldest_there best (x ∷ cs) = elim (Bool-cases (ltb x.fetched_at best.fetched_at)) [
    | inl older ↦ let (c, e, there) = oldest_there x cs in (c, rw older e, ground (arith, there))
    | inr newer ↦ let (c, e, there) = oldest_there best cs in (c, rw newer e, ground (arith, there))
  ]

  drop_oldest :
      (cs : List (CachedWeather D)) (n : ℕ)
      → length cs ≤ suc n
      → length (drop_cell (oldest_from none cs) cs) ≤ n
  unfolding oldest_from
  drop_oldest [] n h = omega arith
  drop_oldest (x ∷ cs) n h =
      let (c, e, there) = oldest_there x cs in
      let fewer : length (delete (in_cell c.cell) (x ∷ cs)) < length (x ∷ cs) =
        length-delete_there (in_cell c.cell) (x ∷ cs) there in
      let short : length (delete (in_cell c.cell) (x ∷ cs)) ≤ n = omega arith in rw e short

  make_room-lt :
      (now : ℕ) (cfg : WeatherConfig) (cs : List (CachedWeather D)) (n : ℕ)
      → cfg.max_entries ≡ suc n
      → length cs ≤ suc n
      → length (make_room now cfg cs) ≤ n
  unfolding make_room
  make_room-lt now cfg cs n m h =
      let kept : length (select (is_recent now cfg.stale_for) cs) ≤ length cs =
        length-select (is_recent now cfg.stale_for) cs in
      elim (Bool-cases (leb cfg.max_entries (length (select (is_recent now cfg.stale_for) cs)))) [
        | inl full ↦ rw full (drop_oldest (select (is_recent now cfg.stale_for) cs) n (omega arith))
        | inr room ↦ rw room (ground arith)
      ]

  store-le :
      (now : ℕ) (cfg : WeatherConfig) (entry : CachedWeather D) (cs : List (CachedWeather D))
      (n : ℕ)
      → cfg.max_entries ≡ suc n
      → length cs ≤ suc n
      → length (store now cfg entry cs) ≤ suc n
  unfolding store
  store-le now cfg entry cs n m h = elim (Bool-cases (exists (in_cell entry.cell) cs)) [
    | inl there ↦ rw there (ground (arith, length-delete_there (in_cell entry.cell) cs there))
    | inr gone ↦ rw gone (elim (Bool-cases (leb cfg.max_entries (length cs))) [
      | inl full ↦ rw full (
          omega (
            arith,
            length-delete (in_cell entry.cell) (make_room now cfg cs),
            make_room-lt now cfg cs n m h,
          ))
      | inr room ↦ rw room (ground (arith, length-delete (in_cell entry.cell) cs))
    ])
  ]

abbrev pub flight_cell : Flight → ℕ
flight_cell f = f.cell

module _ {D : Type 0} where
  abbrev pub cell_of : CachedWeather D → ℕ
  cell_of c = c.cell

  -- The cache has no more entries than it may and one for each cell, and each cell has one call.
  pub record IsBounded (s : WeatherService D) : Type 0 where
    pub some_room : 0 < s.cfg.max_entries
    pub bounded : length s.cache ≤ s.cfg.max_entries
    pub one_entry : Distinct cell_of s.cache
    pub one_call : Distinct flight_cell s.inflight

  drop_cell-Distinct :
      (o : Option (CachedWeather D)) (cs : List (CachedWeather D))
      → Distinct cell_of cs
      → Distinct cell_of (drop_cell o cs)
  drop_cell-Distinct none cs d = d
  drop_cell-Distinct (some c) cs d = Distinct-delete cell_of (in_cell c.cell) cs d

  make_room-Distinct :
      (now : ℕ) (cfg : WeatherConfig) (cs : List (CachedWeather D))
      → Distinct cell_of cs
      → Distinct cell_of (make_room now cfg cs)
  unfolding make_room
  make_room-Distinct now cfg cs d =
      let kept = select (is_recent now cfg.stale_for) cs in
      let k : Distinct cell_of kept = Distinct-select cell_of (is_recent now cfg.stale_for) cs d in
      elim (Bool-cases (leb cfg.max_entries (length kept))) [
        | inl full ↦ rw full (drop_cell-Distinct (oldest_from none kept) kept k)
        | inr room ↦ rw room k
      ]

  store-Distinct :
      (now : ℕ) (cfg : WeatherConfig) (entry : CachedWeather D) (cs : List (CachedWeather D))
      → Distinct cell_of cs
      → Distinct cell_of (store now cfg entry cs)
  unfolding store
  store-Distinct now cfg entry cs d =
      elim (Bool-cases (not (exists (in_cell entry.cell) cs) && leb cfg.max_entries (length cs))) [
        | inl full ↦ rw full (
          exists-delete_same (in_cell entry.cell) (make_room now cfg cs),
          Distinct-delete cell_of (in_cell entry.cell) (make_room now cfg cs)
              (make_room-Distinct now cfg cs d),
        )
        | inr room ↦ rw room (
          exists-delete_same (in_cell entry.cell) cs,
          Distinct-delete cell_of (in_cell entry.cell) cs d,
        )
      ]

  stored-IsBounded :
      (now cell : ℕ) (answer : Option D) (s : WeatherService D)
      → IsBounded s
      → (length (stored now cell answer s) ≤ s.cfg.max_entries)
        × Distinct cell_of (stored now cell answer s)
  stored-IsBounded now cell none s b = (b.bounded, b.one_entry)
  stored-IsBounded now cell (some d) s b = (
    stored_le s.cfg.max_entries refl b.some_room b.bounded,
    store-Distinct now s.cfg _ s.cache b.one_entry,
  )
    where
      stored_le :
          (m : ℕ)
          → s.cfg.max_entries ≡ m
          → 0 < m
          → length s.cache ≤ m
          → length (store now s.cfg (record { cell = cell; content = d; fetched_at = now }) s.cache)
            ≤ m
      stored_le zero e p h = absurd (omega arith)
      stored_le (suc n) e p h = store-le now s.cfg _ s.cache n e h

  launch-IsBounded :
      (cell : ℕ) (cached : Option (CachedWeather D)) (s : WeatherService D) (allowed : Bool)
      → exists (flies_to cell) s.inflight ≡ false
      → IsBounded s
      → IsBounded (launch cell cached s allowed).1
  launch-IsBounded cell cached s false n b = b
  launch-IsBounded cell cached s true n b = record {
    some_room = b.some_room;
    bounded = b.bounded;
    one_entry = b.one_entry;
    one_call = (n, b.one_call);
  }

  join_or_call-IsBounded :
      (now cell : ℕ) (cached : Option (CachedWeather D)) (s : WeatherService D) (o : Option Flight)
      → find (flies_to cell) s.inflight ≡ o
      → IsBounded s
      → IsBounded (join_or_call now cell cached s o).1
  unfolding join_or_call
  join_or_call-IsBounded now cell cached s (some f) e b = b
  join_or_call-IsBounded now cell cached s none e b =
      let called = allow_call now s.cfg.max_requests_per_minute s.breaker in
      launch-IsBounded cell cached (record s { breaker = called.1 }) called.0
        (find-exists (flies_to cell) s.inflight e)
        (record {
          some_room = b.some_room;
          bounded = b.bounded;
          one_entry = b.one_entry;
          one_call = b.one_call;
        })

  hit_or-IsBounded :
      (o : Option (CachedWeather D)) (fresh : Bool) (s : WeatherService D)
      (rest : Began D × WeatherService D)
      → IsBounded s
      → IsBounded rest.1
      → IsBounded (hit_or o fresh s rest).1
  hit_or-IsBounded none fresh s rest b r = r
  hit_or-IsBounded (some c) true s rest b r = b
  hit_or-IsBounded (some c) false s rest b r = r

  get_begin-IsBounded :
      (now cell : ℕ) (s : WeatherService D) → IsBounded s → IsBounded (get_begin now cell s).1
  unfolding get_begin
  get_begin-IsBounded now cell s b =
      hit_or-IsBounded (find (in_cell cell) s.cache)
        (is_fresh now s.cfg (find (in_cell cell) s.cache)) s
        (join_or_call now cell (find (in_cell cell) s.cache) s (find (flies_to cell) s.inflight)) b
        (join_or_call-IsBounded now cell (find (in_cell cell) s.cache) s
          (find (flies_to cell) s.inflight) refl b)

  fetch_end-IsBounded :
      (now : ℕ) (f : Flight) (answer : Option D) (s : WeatherService D)
      → IsBounded s
      → IsBounded (fetch_end now f answer s)
  unfolding fetch_end
  fetch_end-IsBounded now f answer s b = record {
    some_room = b.some_room;
    bounded = (stored-IsBounded now f.cell answer s b).0;
    one_entry = (stored-IsBounded now f.cell answer s b).1;
    one_call = Distinct-delete flight_cell (flies_to f.cell) s.inflight b.one_call;
  }

  happen-IsBounded :
      (now : ℕ) (e : Event D) (s : WeatherService D) → IsBounded s → IsBounded (happen now e s)
  unfolding happen
  happen-IsBounded now (asks cell) s b = get_begin-IsBounded now cell s b
  happen-IsBounded now (ends id answer) s b = ended (find (has_flight id) s.inflight)
    where
      ended : (o : Option Flight) → IsBounded (end_of now o answer s)
      ended none = b
      ended (some f) = fetch_end-IsBounded now f answer s b

  -- Whatever requests begin and whatever calls end, in any order and at any times, the cache keeps
  -- within its bound and has one entry for each cell, and no cell has two calls at a time.
  pub happen_all-IsBounded :
      (es : List (ℕ × Event D)) (s : WeatherService D) → IsBounded s → IsBounded (happen_all es s)
  unfolding happen_all
  happen_all-IsBounded [] s b = b
  happen_all-IsBounded ((now, e) ∷ es) s b =
      happen_all-IsBounded es (happen now e s) (happen-IsBounded now e s b)
