-- ===== src/Weather/Numbering.antt =====
-- weather.go: the numbers of calls, of those in flight and of those that are done.
use aura_risk.Base.{
  ℕ, ◌<◌, ◌≡◌, refl, inl, inr, subst, Bool, true, false, Option, none, some, List, [], ◌∷◌, ◌==◌,
  find, exists, delete, All, All-imp, All-delete, All-find, Distinct, Distinct-delete, some_eq,
  arith, Bool-cases,
}
use aura_risk.Weather.{CachedWeather, Flight, Landed, WeatherService, in_cell, allow_call}
use aura_risk.Weather.Steps.{
  Event, asks, ends, Began, hit, throttled, waits, flies_to, has_flight, has_landed, fetch_end,
  get_begin, join_or_call, launch, hit_or, end_of, happen, is_fresh,
}

abbrev pub flight_id : Flight → ℕ
flight_id f = f.id

-- The rows of an id are one row, where ids are distinct.
one_cell :
    (i : ℕ) (f : Flight) (fs : List Flight)
    → Distinct flight_id fs
    → find (has_flight i) fs ≡ some f
    → All (λ g. has_flight i g ≡ true → flies_to f.cell g ≡ true) fs
one_cell i f [] d e = tt
one_cell i f (x ∷ fs) d e = elim (Bool-cases (has_flight i x)) [
  | inl same ↦ (
    λ h. subst (λ y. flies_to y.cell x ≡ true) (some_eq (rw same at e)) (ground arith),
    vacuous fs (subst (λ j. exists (λ y. y.id == j) fs ≡ false) (ground arith) d.0),
  )
  | inr other ↦ (λ h. absurd (ground arith), one_cell i f fs d.1 (rw other at e))
]
  where
    vacuous :
        (gs : List Flight)
        → exists (has_flight i) gs ≡ false
        → All (λ g. has_flight i g ≡ true → flies_to f.cell g ≡ true) gs
    vacuous [] n = tt
    vacuous (g ∷ gs) n = (λ h. absurd (ground arith), vacuous gs (ground arith))

none_flying :
    (n : ℕ) (fs : List Flight) → All (λ f. f.id < n) fs → exists (λ f. f.id == n) fs ≡ false
none_flying n [] h = refl
none_flying n (f ∷ fs) h = ground (arith, h.0, none_flying n fs h.1)

module _ {D : Type 0} where
  -- Calls are numbered, and one that is done is not in flight.
  pub record IsNumbered (s : WeatherService D) : Type 0 where
    pub flying : All (λ f. f.id < s.next_id) s.inflight
    pub done : All (λ l. l.id < s.next_id) s.landed
    pub apart : All (λ f. exists (has_landed f.id) s.landed ≡ false) s.inflight
    pub one_id : Distinct flight_id s.inflight

  none_landed :
      (n : ℕ) (ls : List (Landed D)) → All (λ l. l.id < n) ls → exists (has_landed n) ls ≡ false
  none_landed n [] h = refl
  none_landed n (l ∷ ls) h = ground (arith, h.0, none_landed n ls h.1)

  launch-IsNumbered :
      (cell : ℕ) (cached : Option (CachedWeather D)) (s : WeatherService D) (allowed : Bool)
      → IsNumbered s
      → IsNumbered (launch cell cached s allowed).1
  launch-IsNumbered cell cached s false n = n
  launch-IsNumbered cell cached s true n = record {
    flying = (omega arith, All-imp s.inflight (λ f h. omega arith) n.flying);
    done = All-imp s.landed (λ l h. omega arith) n.done;
    apart = (none_landed s.next_id s.landed n.done, n.apart);
    one_id = (none_flying s.next_id s.inflight n.flying, n.one_id);
  }

  -- Where a request waits for a call, none of its number is done.
  abbrev pub Pending : Began D → WeatherService D → Type 0
  Pending (hit c) s = Unit {0}
  Pending (throttled c) s = Unit {0}
  Pending (waits id c) s = exists (has_landed id) s.landed ≡ false

  launch-Pending :
      (cell : ℕ) (cached : Option (CachedWeather D)) (s : WeatherService D) (allowed : Bool)
      → IsNumbered s
      → Pending (launch cell cached s allowed).0 (launch cell cached s allowed).1
  launch-Pending cell cached s false n = tt
  launch-Pending cell cached s true n = none_landed s.next_id s.landed n.done

  pub join-Pending :
      (now cell : ℕ) (cached : Option (CachedWeather D)) (s : WeatherService D) (o : Option Flight)
      → find (flies_to cell) s.inflight ≡ o
      → IsNumbered s
      → Pending (join_or_call now cell cached s o).0 (join_or_call now cell cached s o).1
        × IsNumbered (join_or_call now cell cached s o).1
  unfolding join_or_call
  join-Pending now cell cached s (some f) e n = (
    (All-find (λ f. exists (has_landed f.id) s.landed ≡ false) (flies_to cell) s.inflight f n.apart
        e).0,
    n,
  )
  join-Pending now cell cached s none e n =
      let called = allow_call now s.cfg.max_requests_per_minute s.breaker in
      let n' : IsNumbered (record s { breaker = called.1 }) = record {
        flying = n.flying;
        done = n.done;
        apart = n.apart;
        one_id = n.one_id;
      } in
      (
        launch-Pending cell cached (record s { breaker = called.1 }) called.0 n',
        launch-IsNumbered cell cached (record s { breaker = called.1 }) called.0 n',
      )

  get_begin-Pending :
      (now cell : ℕ) (s : WeatherService D)
      → IsNumbered s
      → Pending (get_begin now cell s).0 (get_begin now cell s).1
        × IsNumbered (get_begin now cell s).1
  unfolding get_begin
  get_begin-Pending now cell s n =
      chosen (find (in_cell cell) s.cache) (is_fresh now s.cfg (find (in_cell cell) s.cache))
        (join_or_call now cell (find (in_cell cell) s.cache) s (find (flies_to cell) s.inflight))
        (join-Pending now cell (find (in_cell cell) s.cache) s (find (flies_to cell) s.inflight)
          refl n)
    where
      chosen :
          (o : Option (CachedWeather D)) (fresh : Bool) (rest : Began D × WeatherService D)
          → Pending rest.0 rest.1 × IsNumbered rest.1
          → Pending (hit_or o fresh s rest).0 (hit_or o fresh s rest).1
            × IsNumbered (hit_or o fresh s rest).1
      chosen none fresh rest h = h
      chosen (some c) true rest h = (tt, n)
      chosen (some c) false rest h = h

  -- A call that ends leaves the flights of other numbers.
  apart_after :
      (f : Flight) (l : Landed D) (ls : List (Landed D)) (fs : List Flight)
      → l.id ≡ f.id
      → All (λ g. has_flight f.id g ≡ true → flies_to f.cell g ≡ true) fs
      → All (λ g. exists (has_landed g.id) ls ≡ false) fs
      → All (λ g. exists (has_landed g.id) (l ∷ ls) ≡ false) (delete (flies_to f.cell) fs)
  apart_after f l ls [] same one h = tt
  apart_after f l ls (g ∷ fs) same one h = elim (Bool-cases (flies_to f.cell g)) [
    | inl gone ↦ rw gone (apart_after f l ls fs same one.1 h.1)
    | inr stays ↦ rw stays (ground (arith, one.0, h.0), apart_after f l ls fs same one.1 h.1)
  ]

  fetch_end-IsNumbered :
      (now id : ℕ) (f : Flight) (got : Option D) (s : WeatherService D)
      → find (has_flight id) s.inflight ≡ some f
      → IsNumbered s
      → IsNumbered (fetch_end now f got s)
  unfolding fetch_end
  fetch_end-IsNumbered now id f got s e n =
      let (below, named) =
        All-find (λ f. f.id < s.next_id) (has_flight id) s.inflight f n.flying e in
      let one : All (λ g. has_flight f.id g ≡ true → flies_to f.cell g ≡ true) s.inflight =
        subst (λ i. All (λ g. has_flight i g ≡ true → flies_to f.cell g ≡ true) s.inflight)
          (ground arith) (one_cell id f s.inflight n.one_id e) in
      record {
        flying = All-delete (λ f. f.id < s.next_id) (flies_to f.cell) s.inflight n.flying;
        done = (below, n.done);
        apart =
            apart_after f (record { id = f.id; content = got; fetched_at = now }) s.landed
              s.inflight refl one n.apart;
        one_id = Distinct-delete flight_id (flies_to f.cell) s.inflight n.one_id;
      }

  happen-IsNumbered :
      (now : ℕ) (e : Event D) (s : WeatherService D) → IsNumbered s → IsNumbered (happen now e s)
  unfolding happen
  happen-IsNumbered now (asks cell) s n = (get_begin-Pending now cell s n).1
  happen-IsNumbered now (ends id got) s n = ended (find (has_flight id) s.inflight) refl
    where
      ended :
          (o : Option Flight)
          → find (has_flight id) s.inflight ≡ o
          → IsNumbered (end_of now o got s)
      ended none e = n
      ended (some f) e = fetch_end-IsNumbered now id f got s e n
