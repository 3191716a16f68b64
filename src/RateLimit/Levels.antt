-- ===== src/RateLimit/Levels.antt =====
-- ratelimit.go: what a client may still spend, and how a call of `allow` changes it.
use native.Mathlib.Nat.{div-add-mod, mod-lt, add-mul, mul-le-mul_right}
use aura_risk.Base.{
  suc, ◌/◌, ◌<◌, false, ℕ, ◌+◌, ◌-◌, ◌*◌, ◌≤◌, min, ◌≡◌, ◌∙◌, ap, Bool, true, false, Option, none,
  some, leb, ◌==◌, if◌then◌else◌, arith, inl, inr, Option-cases,
}
use aura_risk.RateLimit.{
  RateLimiter, Bucket, minute, capacity, allow, sweep, bucket_or_full, refill, take_token,
}

abbrev pub bucket_level : RateLimiter → Option Bucket → ℕ → ℕ
bucket_level l none now = l.per_minute * minute
bucket_level l (some b) now = min (l.per_minute * minute) (b.tokens + (now - b.last) * l.per_minute)

-- The tokens that a client would be found to have at a time; a client with no bucket has all.
unfoldable pub level : RateLimiter → ℕ → ℕ → ℕ
level l key now = bucket_level l (l.clients key) now

abbrev pub IsSeen : Option Bucket → ℕ → Type 0
IsSeen none now = Unit {0}
IsSeen (some b) now = b.last ≤ now

-- No bucket is from the future.
abbrev pub Seen : RateLimiter → ℕ → Type 0
Seen l now = (k : ℕ) → IsSeen (l.clients k) now

pub span : (p a b c : ℕ) → a ≤ b → b ≤ c → (c - a) * p ≡ (b - a) * p + (c - b) * p
span p a b c h k = rw (← add-mul (b - a) (c - b) p) (ap (λ (x : ℕ). x * p) (omega arith))

pub refill_twice :
    (p m t a b c : ℕ)
    → a ≤ b
    → b ≤ c
    → min m (min m (t + (b - a) * p) + (c - b) * p) ≡ min m (t + (c - a) * p)
refill_twice p m t a b c h k = omega (arith, span p a b c h k)

idle_full :
    (p t a b c : ℕ) → minute ≤ b - a → b ≤ c → min (p * minute) (t + (c - a) * p) ≡ p * minute
idle_full p t a b c h k = omega (arith, mul-le-mul_right {m = minute} {n = c - a} p (omega arith))

-- A sweep at `now` drops no tokens: the buckets that it forgets were full.
sweep-level : (l : RateLimiter) (k now u : ℕ) → now ≤ u → level (sweep now l) k u ≡ level l k u
unfolding sweep level
sweep-level l k now u h = elim (Option-cases (l.clients k)) [
  | inl e ↦ ground arith
  | inr (b, e) ↦ ground (arith, idle_full l.per_minute b.tokens b.last now u)
]

sweep-rate : (now : ℕ) (l : RateLimiter) → (sweep now l).per_minute ≡ l.per_minute
unfolding sweep
sweep-rate now l = ground arith

sweep-Seen : (l : RateLimiter) (now : ℕ) → Seen l now → Seen (sweep now l) now
unfolding sweep
sweep-Seen l now s k = ground (arith, s k)

-- `allow` after the sweep.
abbrev serve : RateLimiter → ℕ → ℕ → RateLimiter × Bool × ℕ
serve l key now = take_token now key l (refill now l (bucket_or_full now l (l.clients key)))

abbrev pub cost : Bool → ℕ
cost true = minute
cost false = 0

serve-answer : (l : RateLimiter) (k now : ℕ) → (serve l k now).1 ≡ leb minute (level l k now)
unfolding take_token refill bucket_or_full level
serve-answer l k now = elim (Option-cases (l.clients k)) [
  | inl e ↦ ground arith
  | inr (b, e) ↦ ground arith
]

-- What each client may spend afterwards, at any later time.
serve-level :
    (l : RateLimiter) (k j now u : ℕ)
    → IsSeen (l.clients k) now
    → now ≤ u
    → level (serve l k now).0 j u ≡ (
        if k == j
        then min (capacity l) (level l k now - cost (serve l k now).1 + (u - now) * l.per_minute)
        else level l j u)
unfolding take_token refill bucket_or_full level
serve-level l k j now u s h = elim (Option-cases (l.clients k)) [
  | inl e ↦ ground arith
  | inr (b, e) ↦
      ground (arith, refill_twice l.per_minute (l.per_minute * minute) b.tokens b.last now u)
]

serve-Seen : (l : RateLimiter) (k now : ℕ) → Seen l now → Seen (serve l k now).0 now
unfolding take_token
serve-Seen l k now s j = ground (arith, s j)

-- A call of `allow` at `now` passes exactly if the client's level is a whole token or more.
pub allow-answer : (l : RateLimiter) (k now : ℕ) → (allow l k now).1 ≡ leb minute (level l k now)
unfolding allow
allow-answer l k now =
    serve-answer (sweep now l) k now ∙ ap (leb minute) (sweep-level l k now now (omega arith))

-- It charges that client and nobody else, whatever the sweep forgets.
pub allow-level :
    (l : RateLimiter) (k j now u : ℕ)
    → Seen l now
    → now ≤ u
    → level (allow l k now).0 j u ≡ (
        if k == j
        then min (capacity l) (level l k now - cost (allow l k now).1 + (u - now) * l.per_minute)
        else level l j u)
unfolding allow sweep
allow-level l k j now u s h =
    rw (sweep-level l k now now (omega arith), sweep-level l j now u h, sweep-rate now l) at
      (serve-level (sweep now l) k j now u (sweep-Seen l now s k) h)

pub allow-Seen : (l : RateLimiter) (k now : ℕ) → Seen l now → Seen (allow l k now).0 now
unfolding allow
allow-Seen l k now s = serve-Seen (sweep now l) k now (sweep-Seen l now s)

pub level-le : (l : RateLimiter) (k now : ℕ) → level l k now ≤ capacity l
unfolding level
level-le l k now = ground arith

pub level_refilled :
    (l : RateLimiter) (k t u : ℕ)
    → Seen l t
    → t ≤ u
    → level l k u ≤ level l k t + (u - t) * l.per_minute
unfolding level
level_refilled l k t u s h = elim (Option-cases (l.clients k)) [
  | inl e ↦ ground arith
  | inr (b, e) ↦ ground (arith, s k, span l.per_minute b.last t u)
]

pub allow-rate : (l : RateLimiter) (k now : ℕ) → (allow l k now).0.per_minute ≡ l.per_minute
unfolding allow take_token
allow-rate l k now = ground (arith, sweep-rate now l)

serve-wait :
    (l : RateLimiter) (k now : ℕ)
    → (serve l k now).1 ≡ false
    → (serve l k now).2 ≡ (minute - level l k now) / l.per_minute
unfolding take_token refill bucket_or_full level
serve-wait l k now = elim (Option-cases (l.clients k)) [
  | inl e ↦ ground arith
  | inr (b, e) ↦ ground arith
]

pub allow-wait :
    (l : RateLimiter) (k now : ℕ)
    → (allow l k now).1 ≡ false
    → (allow l k now).2 ≡ (minute - level l k now) / l.per_minute
unfolding allow sweep
allow-wait l k now h =
    rw (sweep-level l k now now (omega arith), sweep-rate now l) at
      (serve-wait (sweep now l) k now h)

waited : (p m d : ℕ) → 0 < p → m / p < d → m ≤ d * p
waited p m d h k =
    omega (arith, div-add-mod m p, mod-lt m h, mul-le-mul_right {m = suc (m / p)} {n = d} p k)

-- A refused client that waits out the answer's wait and a nanosecond, and is not served
-- in between, has a token again.
pub waited-allow :
    (l : RateLimiter) (k now u : ℕ)
    → Seen l now
    → 0 < l.per_minute
    → (allow l k now).1 ≡ false
    → now + (allow l k now).2 < u
    → (allow (allow l k now).0 k u).1 ≡ true
waited-allow l k now u s p h late = ground (
  arith,
  allow-answer l k now,
  allow-wait l k now h,
  allow-answer (allow l k now).0 k u,
  allow-level l k k now u s (omega arith),
  mul-le-mul_right {m = 1} {n = l.per_minute} minute p,
  waited l.per_minute (minute - level l k now) (u - now),
)
