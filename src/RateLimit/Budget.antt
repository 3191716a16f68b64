-- ===== src/RateLimit/Budget.antt =====
-- ratelimit.go: how many requests of a client pass, among those of all clients.
use aura_risk.Base.{
  ℕ, ◌+◌, ◌-◌, ◌*◌, ◌≤◌, min, ◌≡◌, refl, sym, ap, ap₂, subst, ◌∙◌, Bool, true, some, leb, ◌==◌,
  if◌then◌else◌, arith, inl, inr, Option-cases, List, [], ◌∷◌,
}
use aura_risk.Base.Int.{pos}
use aura_risk.RateLimit.{RateLimiter, minute, allow, new_limiter, new_rate_limiter}
use aura_risk.RateLimit.Levels.{
  level, Seen, cost, allow-answer, allow-level, allow-Seen, allow-rate, refill_twice,
}

-- A request: the client and the time.
abbrev pub Request : Type 0
Request = ℕ × ℕ

-- The requests come in the order of time, from a time on.
abbrev pub Ordered : ℕ → List Request → Type 0
Ordered t [] = Unit {0}
Ordered t ((k, u) ∷ rs) = (t ≤ u) × Ordered u rs

abbrev pub last_time : ℕ → List Request → ℕ
last_time t [] = t
last_time t ((k, u) ∷ rs) = last_time u rs

abbrev one_if : Bool → Bool → ℕ
one_if true true = 1
one_if _ _ = 0

-- How many requests of client `k` pass.
pub passed : ℕ → RateLimiter → List Request → ℕ
passed k l [] = 0
passed k l ((j, u) ∷ rs) = one_if (j == k) (allow l j u).1 + passed k (allow l j u).0 rs

Seen-later : (l : RateLimiter) (t u : ℕ) → t ≤ u → Seen l t → Seen l u
Seen-later l t u h s k = elim (Option-cases (l.clients k)) [
  | inl e ↦ ground arith
  | inr (b, e) ↦ ground (arith, s k)
]

fresh-Seen : (n t : ℕ) → Seen (new_limiter n) t
unfolding new_limiter
fresh-Seen n t k = tt

-- The answers to requests in their order.
unfoldable pub answers : RateLimiter → List Request → List Bool
answers l [] = []
answers l ((k, u) ∷ rs) = (allow l k u).1 ∷ answers (allow l k u).0 rs

-- The limiter that is promised: each client has a level at time `t`, that grows by `rate` up to
-- the capacity and that nothing forgets.
abbrev pub grown : ℕ → ℕ → ℕ → ℕ
grown rate level time = min (rate * minute) (level + time * rate)

abbrev pub ideal : ℕ → (ℕ → ℕ) → ℕ → List Request → List Bool
ideal rate levels t [] = []
ideal rate levels t ((k, u) ∷ rs) =
    let now = λ (j : ℕ). grown rate (levels j) (u - t) in
    leb minute (now k)
    ∷ ideal rate (λ j. now j - (if k == j then cost (leb minute (now k)) else 0)) u rs

-- What one call leaves of a level is what the ideal limiter leaves.
ideal_step :
    (l : RateLimiter) (levels : ℕ → ℕ) (t k u j v : ℕ)
    → Seen l u
    → t ≤ u
    → u ≤ v
    → ((j u : ℕ) → t ≤ u → level l j u ≡ grown l.per_minute (levels j) (u - t))
    → level (allow l k u).0 j v
      ≡ grown l.per_minute
          (grown l.per_minute (levels j) (u - t)
            - (if k == j then cost (leb minute (grown l.per_minute (levels k) (u - t))) else 0))
          (v - u)
ideal_step l levels t k u j v s a b h = ground (
  arith,
  allow-answer l k u,
  allow-level l k j u v s b,
  h k u a,
  h j v (omega arith),
  refill_twice l.per_minute (l.per_minute * minute) (levels j) t u v a b,
)

answers-ideal :
    (l : RateLimiter) (levels : ℕ → ℕ) (t rate : ℕ) (rs : List Request)
    → l.per_minute ≡ rate
    → Seen l t
    → Ordered t rs
    → ((j u : ℕ) → t ≤ u → level l j u ≡ grown rate (levels j) (u - t))
    → answers l rs ≡ ideal rate levels t rs
unfolding answers
answers-ideal l levels t rate [] e s o h = refl
answers-ideal l levels t rate ((k, u) ∷ rs) e s o h = ap₂ ◌∷◌ passes (
    answers-ideal (allow l k u).0 left u rate rs (allow-rate l k u ∙ e) (allow-Seen l k u seen) o.1
      λ j v b.
        subst
          (λ r.
            level (allow l k u).0 j v
            ≡ grown r
                (grown r (levels j) (u - t)
                  - (if k == j then cost (leb minute (grown r (levels k) (u - t))) else 0))
                (v - u))
          e
          (ideal_step l levels t k u j v seen o.0 b
            λ i w c. subst (λ r. level l i w ≡ grown r (levels i) (w - t)) (sym e) (h i w c)))
  where
    seen : Seen l u
    seen = Seen-later l t u o.0 s

    passes : (allow l k u).1 ≡ leb minute (grown rate (levels k) (u - t))
    passes = allow-answer l k u ∙ ap (leb minute) (h k u o.0)

    left : ℕ → ℕ
    left j =
        grown rate (levels j) (u - t)
        - (if k == j then cost (leb minute (grown rate (levels k) (u - t))) else 0)

-- Dropping idle clients changes no answer: a new limiter answers requests in the order of time
-- as the ideal limiter does in which every client begins with all `n` tokens.
pub answers-new_limiter :
    (n : ℕ) (l : RateLimiter) (t : ℕ) (rs : List Request)
    → new_rate_limiter (pos n) ≡ some l
    → Ordered t rs
    → answers l rs ≡ ideal n (λ _. n * minute) t rs
unfolding new_rate_limiter
answers-new_limiter n l t rs e o =
    subst (λ m. answers m rs ≡ ideal n (λ _. n * minute) t rs) (ground arith)
      (answers-ideal (new_limiter n) (λ _. n * minute) t n rs refl (fresh-Seen n t) o
        λ j u h. full j u)
  where
    full : (j u : ℕ) → level (new_limiter n) j u ≡ grown n (n * minute) (u - t)
    full j u = unfold level new_limiter in omega arith
