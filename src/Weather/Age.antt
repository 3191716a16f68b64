-- ===== src/Weather/Age.antt =====
-- weather.go: how old the weather is that a request is answered with.
use aura_risk.Base.{
  ℕ, ◌-◌, ◌≤◌, ◌<◌, ◌≡◌, refl, inl, inr, subst, Bool, true, false, Option, none, some, List, [],
  ◌∷◌, leb, find, exists, All, All-find, some_eq, arith, Bool-cases,
}
use aura_risk.Weather.{
  WeatherConfig, WeatherResult, CachedWeather, Flight, Landed, WeatherService, in_cell, allow_call,
}
use aura_risk.Weather.Steps.{
  Event, asks, ends, Began, hit, throttled, waits, flies_to, has_flight, has_landed, fetch_end,
  get_begin, get_end, fallback, join_or_call, launch, hit_or, end_of, happen, happen_all, is_fresh,
  Ordered, answer, landed_answer,
}
use aura_risk.Weather.Numbering.{IsNumbered, Pending, join-Pending}

module _ {D : Type 0} where
  -- What is done under a number was fetched at a time or after it.
  abbrev Since : ℕ → ℕ → WeatherService D → Type 0
  Since start id s = All (λ l. has_landed id l ≡ true → start ≤ l.fetched_at) s.landed

  none_since :
      (start id : ℕ) (ls : List (Landed D))
      → exists (has_landed id) ls ≡ false
      → All (λ l. has_landed id l ≡ true → start ≤ l.fetched_at) ls
  none_since start id [] n = tt
  none_since start id (l ∷ ls) n =
      (λ h. absurd (ground arith), none_since start id ls (ground arith))

  launch_landed :
      (cell : ℕ) (cached : Option (CachedWeather D)) (s : WeatherService D) (allowed : Bool)
      → (launch cell cached s allowed).1.landed ≡ s.landed
  launch_landed cell cached s false = refl
  launch_landed cell cached s true = refl

  get_begin_landed :
      (now cell : ℕ) (s : WeatherService D) → (get_begin now cell s).1.landed ≡ s.landed
  unfolding get_begin join_or_call
  get_begin_landed now cell s =
      chosen (find (in_cell cell) s.cache) (is_fresh now s.cfg (find (in_cell cell) s.cache))
        (join_or_call now cell (find (in_cell cell) s.cache) s (find (flies_to cell) s.inflight))
        (joined (find (flies_to cell) s.inflight))
    where
      chosen :
          (o : Option (CachedWeather D)) (fresh : Bool) (rest : Began D × WeatherService D)
          → rest.1.landed ≡ s.landed
          → (hit_or o fresh s rest).1.landed ≡ s.landed
      chosen none fresh rest h = h
      chosen (some c) true rest h = refl
      chosen (some c) false rest h = h

      joined :
          (o : Option Flight)
          → (join_or_call now cell (find (in_cell cell) s.cache) s o).1.landed ≡ s.landed
      joined (some f) = refl
      joined none =
          launch_landed cell (find (in_cell cell) s.cache)
            (record s { breaker = (allow_call now s.cfg.max_requests_per_minute s.breaker).1 })
            (allow_call now s.cfg.max_requests_per_minute s.breaker).0

  happen-Since :
      (start id now : ℕ) (e : Event D) (s : WeatherService D)
      → start ≤ now
      → Since start id s
      → Since start id (happen now e s)
  unfolding happen fetch_end
  happen-Since start id now (asks cell) s h k = rw (get_begin_landed now cell s) k
  happen-Since start id now (ends id' got) s h k = ended (find (has_flight id') s.inflight)
    where
      ended : (o : Option Flight) → Since start id (end_of now o got s)
      ended none = k
      ended (some f) = (λ _. h, k)

  happen_all-Since :
      (start id n : ℕ) (es : List (ℕ × Event D)) (s : WeatherService D)
      → start ≤ n
      → Ordered n es
      → Since start id s
      → Since start id (happen_all es s)
  unfolding happen_all
  happen_all-Since start id n [] s h o k = k
  happen_all-Since start id n ((now, e) ∷ es) s h o k =
      happen_all-Since start id now es (happen now e s) (omega (arith, o.0)) o.1
        (happen-Since start id now e s (omega (arith, o.0)) k)

  -- An answer that is not marked stale was less than `fresh_for` old when the request began; one
  -- that is was at most `stale_for` old when it was given.
  pub record IsCurrent (cfg : WeatherConfig) (began given : ℕ) (r : WeatherResult D) : Type 0 where
    pub live : r.stale ≡ false → began - r.fetched_at < cfg.fresh_for
    pub old : r.stale ≡ true → given - r.fetched_at ≤ cfg.stale_for

  fallback-IsCurrent :
      (cfg : WeatherConfig) (began given : ℕ) (cached : Option (CachedWeather D))
      (r : WeatherResult D)
      → fallback given cfg cached ≡ some r
      → IsCurrent cfg began given r
  unfolding fallback
  fallback-IsCurrent cfg began given none r e = cc
  fallback-IsCurrent cfg began given (some c) r e =
      elim (Bool-cases (leb (given - c.fetched_at) cfg.stale_for)) [
        | inl recent ↦
            subst (IsCurrent cfg began given) (some_eq (rw recent at e))
              (record { live = λ h. cc; old = λ h. ground arith })
        | inr gone ↦ absurd (ground arith)
      ]

  abbrev Good : ℕ → WeatherConfig → Began D → WeatherService D → Type 0
  Good start cfg (hit c) s = start - c.fetched_at < cfg.fresh_for
  Good start cfg (throttled c) s = Unit {0}
  Good start cfg (waits id c) s = Since start id s

  joined-Good :
      (start : ℕ) (cfg : WeatherConfig) (cell : ℕ) (s : WeatherService D)
      (cached : Option (CachedWeather D))
      → IsNumbered s
      → Good start cfg
          (join_or_call start cell cached s (find (flies_to cell) s.inflight)).0
          (join_or_call start cell cached s (find (flies_to cell) s.inflight)).1
  unfolding join_or_call
  joined-Good start cfg cell s cached n =
      waiting (find (flies_to cell) s.inflight)
        (join-Pending start cell cached s (find (flies_to cell) s.inflight) refl n).0
    where
      launched :
          (allowed : Bool) (b : WeatherService D)
          → Pending (launch cell cached b allowed).0 (launch cell cached b allowed).1
          → Good start cfg (launch cell cached b allowed).0 (launch cell cached b allowed).1
      launched false b p = tt
      launched true b p = none_since start b.next_id b.landed p

      waiting :
          (o : Option Flight)
          → Pending (join_or_call start cell cached s o).0 (join_or_call start cell cached s o).1
          → Good start cfg
              (join_or_call start cell cached s o).0
              (join_or_call start cell cached s o).1
      waiting (some f) p = none_since start f.id s.landed p
      waiting none p =
          launched (allow_call start s.cfg.max_requests_per_minute s.breaker).0
            (record s { breaker = (allow_call start s.cfg.max_requests_per_minute s.breaker).1 }) p

  get_begin-Good :
      (start cell : ℕ) (s : WeatherService D)
      → IsNumbered s
      → Good start s.cfg (get_begin start cell s).0 (get_begin start cell s).1
  unfolding get_begin
  get_begin-Good start cell s n =
      chosen (find (in_cell cell) s.cache) (is_fresh start s.cfg (find (in_cell cell) s.cache)) refl
        (join_or_call start cell (find (in_cell cell) s.cache) s (find (flies_to cell) s.inflight))
        (joined-Good start s.cfg cell s (find (in_cell cell) s.cache) n)
    where
      chosen :
          (o : Option (CachedWeather D)) (fresh : Bool)
          → is_fresh start s.cfg o ≡ fresh
          → (rest : Began D × WeatherService D) → Good start s.cfg rest.0 rest.1
          → Good start s.cfg (hit_or o fresh s rest).0 (hit_or o fresh s rest).1
      chosen none fresh e rest h = h
      chosen (some c) true e rest h = ground arith
      chosen (some c) false e rest h = h

  landed-IsCurrent :
      (cfg : WeatherConfig) (start given : ℕ) (cached : Option (CachedWeather D)) (l : Landed D)
      (o : Option D) (r : WeatherResult D)
      → 0 < cfg.fresh_for
      → start ≤ l.fetched_at
      → l.content ≡ o
      → get_end given cfg cached l ≡ some r
      → IsCurrent cfg start given r
  unfolding get_end
  landed-IsCurrent cfg start given cached l none r p h c e =
      fallback-IsCurrent cfg start given cached r (ground arith)
  landed-IsCurrent cfg start given cached l (some d) r p h c e =
      let same : record { content = d; fetched_at = l.fetched_at; stale = false } ≡ r =
        some_eq (ground arith) in
      subst (IsCurrent cfg start given) same (record { live = λ _. omega arith; old = λ x. cc })

  -- A request at a time, whatever happens until it is answered, gets weather that was less than
  -- `fresh_for` old when it began, or weather marked stale that is at most `stale_for` old; so a
  -- caller never has older data, and never cached data past `fresh_for` that is not marked.
  pub get_begin-IsCurrent :
      (start given cell : ℕ) (s : WeatherService D) (es : List (ℕ × Event D)) (r : WeatherResult D)
      → 0 < s.cfg.fresh_for
      → IsNumbered s
      → Ordered start es
      → answer given s.cfg (get_begin start cell s).0 (happen_all es (get_begin start cell s).1)
        ≡ some r
      → IsCurrent s.cfg start given r
  unfolding answer
  get_begin-IsCurrent start given cell s es r p n o e =
      answered (get_begin start cell s).0 (get_begin-Good start cell s n) e
    where
      last : WeatherService D
      last = happen_all es (get_begin start cell s).1

      found_landed :
          (cached : Option (CachedWeather D)) (id : ℕ) (x : Option (Landed D))
          → find (has_landed id) last.landed ≡ x
          → Since start id last
          → landed_answer given s.cfg cached x ≡ some r
          → IsCurrent s.cfg start given r
      found_landed cached id none f k e = cc
      found_landed cached id (some l) f k e =
          let (since, named) =
            All-find (λ l. has_landed id l ≡ true → start ≤ l.fetched_at) (has_landed id)
              last.landed l k f in
          landed-IsCurrent s.cfg start given cached l l.content r p (since named) refl e

      answered :
          (b : Began D)
          → Good start s.cfg b (get_begin start cell s).1
          → answer given s.cfg b last ≡ some r
          → IsCurrent s.cfg start given r
      answered (hit c) g e =
          let same : record { content = c.content; fetched_at = c.fetched_at; stale = false } ≡ r =
            some_eq e in
          subst (IsCurrent s.cfg start given) same (record { live = λ _. g; old = λ x. cc })
      answered (throttled cached) g e = fallback-IsCurrent s.cfg start given cached r e
      answered (waits id cached) g e =
          found_landed cached id (find (has_landed id) last.landed) refl
            (happen_all-Since start id start es (get_begin start cell s).1 (omega arith) o g) e
