-- ===== src/RateLimit/Memory.antt =====
-- ratelimit.go: the limiter remembers only clients that were served recently.
use aura_risk.Base.{
  ℕ, ◌+◌, ◌*◌, ◌≤◌, ◌<◌, Option, none, some, arith, inl, inr, Option-cases, List, [], ◌∷◌,
}
use aura_risk.RateLimit.{
  RateLimiter, Bucket, minute, allow, take_token, sweep, keep_active, new_limiter,
}
use aura_risk.RateLimit.Budget.{Request, Ordered, last_time}

-- A bucket was used less than a minute before the last sweep, or after it.
abbrev pub IsRecent : Option Bucket → ℕ → Type 0
IsRecent none swept = Unit {0}
IsRecent (some b) swept = swept < b.last + minute

abbrev pub Recent : RateLimiter → Type 0
Recent l = (k : ℕ) → IsRecent (l.clients k) l.last_sweep

pub serve_all : RateLimiter → List Request → RateLimiter
serve_all l [] = l
serve_all l ((k, u) ∷ rs) = serve_all (allow l k u).0 rs

sweep-Recent : (l : RateLimiter) (now : ℕ) → Recent l → Recent (sweep now l)
unfolding sweep keep_active
sweep-Recent l now r k = elim (Option-cases (l.clients k)) [
  | inl e ↦ ground arith
  | inr (b, e) ↦ ground (arith, r k)
]

allow-Recent :
    (l : RateLimiter) (k now : ℕ) → l.last_sweep ≤ now → Recent l → Recent (allow l k now).0
unfolding allow take_token
allow-Recent l k now h r j = ground (arith, sweep-Recent l now r j, swept)
  where
    swept : (sweep now l).last_sweep ≤ now
    swept = unfold sweep in ground arith

-- A bucket left in the table was used less than two minutes before `now`.
abbrev pub UsedLately : Option Bucket → ℕ → Type 0
UsedLately none now = Unit {0}
UsedLately (some b) now = now < b.last + 2 * minute

allow-last_sweep :
    (l : RateLimiter) (k now : ℕ)
    → l.last_sweep ≤ now
    → ((allow l k now).0.last_sweep ≤ now) × (now < (allow l k now).0.last_sweep + minute)
unfolding allow take_token sweep
allow-last_sweep l k now h = (ground arith, ground arith)

Recent-lately :
    (l : RateLimiter) (j now : ℕ)
    → Recent l
    → now < l.last_sweep + minute
    → UsedLately (l.clients j) now
Recent-lately l j now r h = elim (Option-cases (l.clients j)) [
  | inl e ↦ ground arith
  | inr (b, e) ↦ ground (arith, r j)
]

serve_all_lately :
    (l : RateLimiter) (k u : ℕ) (rs : List Request)
    → Recent l
    → l.last_sweep ≤ u
    → Ordered u rs
    → (j : ℕ) → UsedLately ((serve_all l ((k, u) ∷ rs)).clients j) (last_time u rs)
unfolding serve_all
serve_all_lately l k u [] r h o j =
    Recent-lately (allow l k u).0 j u (allow-Recent l k u h r) (allow-last_sweep l k u h).1
serve_all_lately l k u ((i, v) ∷ rs) r h o j =
    serve_all_lately (allow l k u).0 i v rs (allow-Recent l k u h r)
      (omega (arith, allow-last_sweep l k u h)) o.1 j

-- After requests in the order of time, a new limiter holds a bucket only for clients that were
-- served less than two minutes before the last request.
pub serve_all-UsedLately :
    (n k u : ℕ) (rs : List Request)
    → Ordered u rs
    → (j : ℕ) → UsedLately ((serve_all (new_limiter n) ((k, u) ∷ rs)).clients j) (last_time u rs)
unfolding new_limiter
serve_all-UsedLately n k u rs o j =
    serve_all_lately (new_limiter n) k u rs (λ i. tt) (omega arith) o j
