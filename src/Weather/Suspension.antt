-- ===== src/Weather/Suspension.antt =====
-- weather.go: when calls to the provider are suspended, and how many go out.
use aura_risk.Base.{
  ℕ, ◌+◌, ◌≤◌, ◌<◌, ◌≡◌, refl, true, false, some, List, [], ◌∷◌, leb, length, arith,
}
use aura_risk.RateLimit.{minute}
use aura_risk.Weather.{
  WeatherConfig, Breaker, allow_call, record_result, spend, refilled, is_before, is_set,
  circuit_open,
}

-- Calls that fail, one after another.
unfoldable pub fail_all : WeatherConfig → List ℕ → Breaker → Breaker
fail_all cfg [] b = b
fail_all cfg (t ∷ ts) b = fail_all cfg ts (record_result t cfg true b)

abbrev pub last_of : ℕ → List ℕ → ℕ
last_of t [] = t
last_of t (u ∷ us) = last_of u us

-- Open until the cooldown that began with the last failure, and no probe out.
abbrev IsOpen : WeatherConfig → ℕ → Breaker → Type 0
IsOpen cfg t b = (b.open_until ≡ some (t + cfg.breaker_cooldown)) × (b.probing ≡ false)

fail-IsOpen :
    (cfg : WeatherConfig) (t u : ℕ) (b : Breaker)
    → IsOpen cfg t b
    → IsOpen cfg u (record_result u cfg true b)
unfolding record_result
fail-IsOpen cfg t u b h = (rw (h.0) refl, refl)

stays-IsOpen :
    (cfg : WeatherConfig) (t : ℕ) (ts : List ℕ) (b : Breaker)
    → IsOpen cfg t b
    → IsOpen cfg (last_of t ts) (fail_all cfg ts b)
unfolding fail_all
stays-IsOpen cfg t [] b h = h
stays-IsOpen cfg t (u ∷ us) b h =
    stays-IsOpen cfg u us (record_result u cfg true b) (fail-IsOpen cfg t u b h)

opens :
    (cfg : WeatherConfig) (t : ℕ) (ts : List ℕ) (b : Breaker)
    → cfg.breaker_threshold ≤ b.failures + length (t ∷ ts)
    → IsOpen cfg (last_of t ts) (fail_all cfg (t ∷ ts) b)
unfolding fail_all
opens cfg t [] b h = (unfold record_result in ground arith, unfold record_result in refl)
opens cfg t (u ∷ us) b h =
    opens cfg u us (record_result t cfg true b) (unfold record_result in omega arith)

probe_allowed :
    (now n : ℕ) (b : Breaker)
    → is_before now b.open_until ≡ false
    → is_set b.open_until ≡ true
    → b.probing ≡ false
    → (allow_call now n b).0 ≡ leb minute (refilled now n b)
unfolding allow_call spend
probe_allowed now n b closed set idle = ground arith

probe_alone :
    (now later n : ℕ) (b : Breaker)
    → is_set b.open_until ≡ true
    → (allow_call now n b).0 ≡ true
    → (allow_call later n (allow_call now n b).1).0 ≡ false
unfolding allow_call spend
probe_alone now later n b set passed = ground arith

-- After consecutive failures, as many as the threshold with those counted before, the circuit is
-- open and no call is allowed until the cooldown since the last of them is over. Then a call is
-- allowed exactly if the budget has a token, and after one that is, no other until its result.
pub fail_all-allow_call :
    (cfg : WeatherConfig) (t : ℕ) (ts : List ℕ) (b : Breaker) (now n : ℕ)
    → cfg.breaker_threshold ≤ b.failures + length (t ∷ ts)
    → let failed = fail_all cfg (t ∷ ts) b in
      let reopens = last_of t ts + cfg.breaker_cooldown in
      (now < reopens → (circuit_open now failed ≡ true) × ((allow_call now n failed).0 ≡ false))
      × (reopens ≤ now
          → ((allow_call now n failed).0 ≡ leb minute (refilled now n failed))
            × ((allow_call now n failed).0 ≡ true
                → (later : ℕ) → (allow_call later n (allow_call now n failed).1).0 ≡ false))
fail_all-allow_call cfg t ts b now n h =
    let (open_until, idle) = opens cfg t ts b h in
    (
      λ early. (
        unfold circuit_open in rw open_until (ground arith),
        refused now n (fail_all cfg (t ∷ ts) b) (rw open_until (ground arith)),
      ),
      λ late. (
        probe_allowed now n (fail_all cfg (t ∷ ts) b) (rw open_until (ground arith))
            (rw open_until refl) idle,
        λ passed later.
            probe_alone now later n (fail_all cfg (t ∷ ts) b) (rw open_until refl) passed,
      ),
    )
  where
    refused :
        (now n : ℕ) (b : Breaker)
        → is_before now b.open_until ≡ true
        → (allow_call now n b).0 ≡ false
    refused now n b e = unfold allow_call in ground arith
