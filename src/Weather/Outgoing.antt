-- ===== src/Weather/Outgoing.antt =====
-- weather.go: how many calls go out to the provider.
use aura_risk.Base.{
  ℕ, ◌+◌, ◌-◌, ◌*◌, ◌≤◌, min, ◌≡◌, refl, inl, inr, Bool, true, false, ◌&&◌, ◌||◌, Option, none,
  some, List, [], ◌∷◌, ltb, arith, Bool-cases,
}
use aura_risk.RateLimit.{minute}
use aura_risk.RateLimit.Levels.{span}
use aura_risk.Weather.{
  WeatherConfig, Breaker, allow_call, record_result, spend, refilled, is_before, is_set,
}

-- What the breaker sees: a call is asked for, or one comes back, having failed or not.
pub data Traffic : Type 0 where
  calls : Traffic
  returns : Bool → Traffic

abbrev pub one_if : Bool → ℕ
one_if true = 1
one_if false = 0

-- How many calls go out.
unfoldable pub gone_out : WeatherConfig → List (ℕ × Traffic) → Breaker → ℕ
gone_out cfg [] b = 0
gone_out cfg ((now, calls) ∷ es) b =
    let (ok, b') = allow_call now cfg.max_requests_per_minute b in one_if ok + gone_out cfg es b'
gone_out cfg ((now, returns failed) ∷ es) b = gone_out cfg es (record_result now cfg failed b)

abbrev pub Ordered : ℕ → List (ℕ × Traffic) → Type 0
Ordered n [] = Unit {0}
Ordered n ((now, e) ∷ es) = (n ≤ now) × Ordered now es

abbrev pub last_time : ℕ → List (ℕ × Traffic) → ℕ
last_time n [] = n
last_time n ((now, e) ∷ es) = last_time now es

last_time-le : (n : ℕ) (es : List (ℕ × Traffic)) → Ordered n es → n ≤ last_time n es
last_time-le n [] o = omega arith
last_time-le n ((now, e) ∷ es) o = omega (arith, o.0, last_time-le now es o.1)

-- When the tokens were last counted, if ever.
abbrev pub Seen : ℕ → Option ℕ → Type 0
Seen now none = Unit {0}
Seen now (some t) = t ≤ now

-- The tokens there would be with no bound.
abbrev worth : ℕ → ℕ → ℕ → Option ℕ → ℕ
worth now n tokens none = tokens
worth now n tokens (some t) = tokens + (now - t) * n

-- The tokens there are at a time.
abbrev level : ℕ → ℕ → Breaker → ℕ
level now n b = min (n * minute) (worth now n b.tokens b.last_refill)

Seen-later : (start now : ℕ) (o : Option ℕ) → start ≤ now → Seen start o → Seen now o
Seen-later start now none h s = tt
Seen-later start now (some t) h s = omega (arith, s)

worth-later :
    (start now n tokens : ℕ) (o : Option ℕ)
    → start ≤ now
    → Seen start o
    → worth now n tokens o ≤ worth start n tokens o + (now - start) * n
worth-later start now n tokens none h s = omega arith
worth-later start now n tokens (some t) h s = omega (arith, span n t start now s h)

refilled-le : (now n : ℕ) (b : Breaker) → b.tokens ≤ n * minute → refilled now n b ≤ level now n b
refilled-le now n b h = ground arith

still : (now n : ℕ) → (now - now) * n ≡ 0
still now n = let none_left : now - now ≡ 0 = omega arith in rw none_left (omega arith)

-- A call that is asked for, in tokens: what goes out is paid.
record IsPaid (start now e n : ℕ) (b : Breaker) (ok : Bool) (b' : Breaker) : Type 0 where
  paid : minute * one_if ok + level now n b' + (e - now) * n ≤ level start n b + (e - start) * n
  seen : Seen now b'.last_refill
  within : b'.tokens ≤ n * minute

module _ (start now e n : ℕ) (b : Breaker) (h : start ≤ now) (k : now ≤ e)
    (s : Seen start b.last_refill) (w : b.tokens ≤ n * minute) where
  level-later : level now n b + (e - now) * n ≤ level start n b + (e - start) * n
  level-later =
      omega (arith, worth-later start now n b.tokens b.last_refill h s, span n start now e h k)

  unpaid : IsPaid start now e n b false b
  unpaid = record {
    paid = omega (arith, level-later);
    seen = Seen-later start now b.last_refill h s;
    within = w;
  }

  spend-IsPaid :
      (c : Breaker)
      → refilled now n c ≤ level now n b
      → IsPaid start now e n b (spend now n c).0 (spend now n c).1
  unfolding spend
  spend-IsPaid c most = elim (Bool-cases (ltb (refilled now n c) minute)) [
    | inl none_left ↦ rw none_left (record {
      paid = omega (arith, most, level-later, still now n);
      seen = omega arith;
      within = omega (arith, most);
    })
    | inr some_left ↦ rw some_left (record {
      paid = ground (arith, most, level-later, still now n);
      seen = omega arith;
      within = omega (arith, most);
    })
  ]

  allow_call-IsPaid : IsPaid start now e n b (allow_call now n b).0 (allow_call now n b).1
  unfolding allow_call
  allow_call-IsPaid = elim (Bool-cases (is_before now b.open_until)) [
    | inl suspended ↦ rw suspended unpaid
    | inr closed ↦ rw closed (elim (Bool-cases (is_set b.open_until && b.probing)) [
      | inl probing ↦ rw probing unpaid
      | inr idle ↦ rw idle (
          spend-IsPaid (record b { probing = b.probing || is_set b.open_until })
            (refilled-le now n b w))
    ])
  ]

record_result_kept :
    (now : ℕ) (cfg : WeatherConfig) (failed : Bool) (b : Breaker)
    → ((record_result now cfg failed b).tokens ≡ b.tokens)
      × ((record_result now cfg failed b).last_refill ≡ b.last_refill)
unfolding record_result
record_result_kept now cfg false b = (refl, refl)
record_result_kept now cfg true b = (refl, refl)

gone_out_paid :
    (cfg : WeatherConfig) (start : ℕ) (es : List (ℕ × Traffic)) (b : Breaker)
    → Ordered start es
    → Seen start b.last_refill
    → b.tokens ≤ cfg.max_requests_per_minute * minute
    → minute * gone_out cfg es b
      ≤ level start cfg.max_requests_per_minute b
        + (last_time start es - start) * cfg.max_requests_per_minute
unfolding gone_out record_result
gone_out_paid cfg start [] b o s w = omega arith
gone_out_paid cfg start ((now, calls) ∷ es) b o s w =
    let p =
      allow_call-IsPaid start now (last_time now es) cfg.max_requests_per_minute b o.0
        (last_time-le now es o.1) s w in
    omega (
      arith,
      p.paid,
      gone_out_paid cfg now es (allow_call now cfg.max_requests_per_minute b).1 o.1 p.seen p.within,
    )
gone_out_paid cfg start ((now, returns failed) ∷ es) b o s w =
    let (tokens, last) = record_result_kept now cfg failed b in
    let rest =
      gone_out_paid cfg now es (record_result now cfg failed b) o.1
        (rw last (Seen-later start now b.last_refill o.0 s)) (rw tokens w) in
    omega (
      arith,
      (rw (tokens, last) at rest),
      level-later start now (last_time now es) cfg.max_requests_per_minute b o.0
          (last_time-le now es o.1) s w,
    )

-- Of the calls asked for from a time on, whatever comes back and whatever the circuit does, at most
-- as many go out as a minute allows, and as many again for each minute until the last event.
pub gone_out-le :
    (cfg : WeatherConfig) (start : ℕ) (es : List (ℕ × Traffic)) (b : Breaker)
    → Ordered start es
    → Seen start b.last_refill
    → b.tokens ≤ cfg.max_requests_per_minute * minute
    → minute * gone_out cfg es b
      ≤ cfg.max_requests_per_minute * minute
        + (last_time start es - start) * cfg.max_requests_per_minute
gone_out-le cfg start es b o s w = omega (arith, gone_out_paid cfg start es b o s w)
