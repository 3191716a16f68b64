-- ===== src/RateLimit/Examples.antt =====
-- ratelimit.go at concrete inputs: two requests a minute.
use aura_risk.Base.{◌*◌, ◌+◌, ◌≡◌, refl, List, [], ◌∷◌, true, false, arith}
use aura_risk.RateLimit.{
  RateLimiter, minute, allow, new_limiter, new_rate_limiter, sweep, take_token, refill,
  bucket_or_full,
}
use aura_risk.RateLimit.Levels.{Seen}
use aura_risk.RateLimit.Budget.{Request, answers, ideal, answers-new_limiter}

-- Three requests of client 7 and one of client 9, and one more of 7 a minute later.
abbrev requests : List Request
requests =
    (7, minute) ∷ (7, minute + 5) ∷ (9, minute + 6) ∷ (7, minute + 7) ∷ (7, 2 * minute + 8) ∷ []

abbrev two_limiter : RateLimiter
unfolding new_limiter
two_limiter = new_limiter 2

answers_test : answers two_limiter requests ≡ true ∷ true ∷ true ∷ false ∷ true ∷ []
unfolding two_limiter answers allow sweep take_token refill bucket_or_full
answers_test = refl

answers_example : answers two_limiter requests ≡ ideal 2 (λ _. 2 * minute) 0 requests
unfolding two_limiter new_rate_limiter
answers_example = answers-new_limiter 2 two_limiter 0 requests refl (omega arith)

abbrev one_limiter : RateLimiter
unfolding new_limiter allow sweep take_token refill bucket_or_full
one_limiter = (allow (new_limiter 1) 7 minute).0

one_limiter-Seen : Seen one_limiter minute
unfolding one_limiter
one_limiter-Seen k = ground arith

abbrev more_requests : List Request
more_requests = (9, minute + 6) ∷ (7, 2 * minute + 8) ∷ []
