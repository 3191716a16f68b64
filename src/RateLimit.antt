-- ===== src/RateLimit.antt =====
-- aurarisk-backend/internal/handlers/ratelimit.go: a token bucket for each client.
-- Times are nanoseconds since Go's zero time, read from a monotonic clock. A bucket's float tokens
-- are counted in parts of 1/`minute`, which makes the refill exact; float rounding is left out.
-- A client's IP is only compared, and is a number. The mutex makes each call of `allow` one step.
pub mod Levels
pub mod Budget
pub mod Memory
mod Examples
use aura_risk.Base.{
  ℕ, ◌+◌, ◌-◌, ◌*◌, ◌/◌, min, Bool, true, false, Option, none, some, ltb, leb, if◌then◌else◌, Map,
  empty, put, Result, ok, err,
}
use aura_risk.Base.Int.{ℤ, pos, negsuc}

-- time.Minute, in nanoseconds
abbrev pub minute : ℕ
minute = 60000000000

pub record Bucket : Type 0 where
  pub tokens : ℕ
  pub last : ℕ

pub record RateLimiter : Type 0 where
  pub per_minute : ℕ
  pub clients : Map Bucket
  pub last_sweep : ℕ

pub new_limiter : ℕ → RateLimiter
new_limiter n = record { per_minute = n; clients = empty; last_sweep = 0 }

-- `none` is the nil limiter.
pub new_rate_limiter : ℤ → Option RateLimiter
unfolding new_limiter
new_rate_limiter (pos n) = if leb n 0 then none else some (new_limiter n)
new_rate_limiter (negsuc n) = none

abbrev pub capacity : RateLimiter → ℕ
capacity l = l.per_minute * minute

keep_active : ℕ → Option Bucket → Option Bucket
keep_active now none = none
keep_active now (some b) = if leb minute (now - b.last) then none else some b

-- sweepLocked
sweep : ℕ → RateLimiter → RateLimiter
unfolding keep_active
sweep now l =
    if ltb (now - l.last_sweep) minute
    then l
    else record l { last_sweep = now; clients = λ k. keep_active now (l.clients k) }

bucket_or_full : ℕ → RateLimiter → Option Bucket → Bucket
bucket_or_full now l none = record { tokens = capacity l; last = now }
bucket_or_full now l (some b) = b

refill : ℕ → RateLimiter → Bucket → ℕ
refill now l b = min (capacity l) (b.tokens + (now - b.last) * l.per_minute)

-- The rest of `allow`, once the tokens are known: the limiter, the answer and the wait.
take_token : ℕ → ℕ → RateLimiter → ℕ → RateLimiter × Bool × ℕ
take_token now key l tokens =
    if ltb tokens minute
    then (
      record l { clients = put key (record { tokens = tokens; last = now }) l.clients },
      false,
      (minute - tokens) / l.per_minute,
    )
    else (
      record l { clients = put key (record { tokens = tokens - minute; last = now }) l.clients },
      true,
      0,
    )

pub allow : RateLimiter → ℕ → ℕ → RateLimiter × Bool × ℕ
allow l key now =
    let swept = sweep now l in
    take_token now key swept (refill now swept (bucket_or_full now swept (swept.clients key)))

-- math.Ceil(wait.Seconds())
abbrev retry_after : ℕ → ℕ
retry_after wait = (wait + 999999999) / 1000000000

-- What the middleware does with a request: lets it pass, or answers 429 with `Retry-After`.
pub data Verdict : Type 0 where
  next : Verdict
  rejected : ℕ → Verdict

verdict : Bool → ℕ → Verdict
verdict true wait = next
verdict false wait = rejected (retry_after wait)

-- Middleware, on the limiter that it closes over
pub middleware : Option RateLimiter → ℕ → ℕ → Option RateLimiter × Verdict
unfolding verdict
middleware none ip now = (none, next)
middleware (some l) ip now =
    let (l', passed, wait) = allow l ip now in (some l', verdict passed wait)
