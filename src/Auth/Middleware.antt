-- ===== src/Auth/Middleware.antt =====
-- auth.go: bearer tokens, and the two ways of asking for them.
use aura_risk.Base.{
  ℕ, ◌≡◌, refl, ◌↔◌, inl, inr, Bool, true, false, not, ◌||◌, Option, none, some, List, [], ◌∷◌,
  ◌==◌, if◌then◌else◌, Text, codes, is_empty, ok, err, Run, Flow, ◌>>=◌, return, respond_error,
  chain, arith, Bool-cases,
}
use aura_risk.Auth.{Tables, authenticate}

-- strings.Cut at the first space, if there is one.
unfoldable pub cut_space : Text → Option (Text × Text)
cut_space [] = none
cut_space (c ∷ cs) =
    let rest = cut_space cs in
    if c == 32
    then some ([], cs)
    else elim rest [ none ↦ none | some (before, after) ↦ some (c ∷ before, after) ]

-- What the code asks of its libraries: strings.EqualFold, and a token's text as a number.
pub record Reading : Type 0 where
  pub equal_fold : Text → Text → Bool
  pub token : Text → ℕ

abbrev cut_token : Reading → Option (Text × Text) → Text
cut_token lib none = []
cut_token lib (some (scheme, token)) = if lib.equal_fold scheme (codes "Bearer") then token else []

-- bearerToken, on the Authorization header: the token, and whether there is a header.
unfoldable pub bearer_token : Reading → Text → Text × Bool
bearer_token lib [] = ([], false)
bearer_token lib (c ∷ cs) = (cut_token lib (cut_space (c ∷ cs)), true)

module _ (lib : Reading) (hash : ℕ → ℕ) (now : ℕ) where
  -- RequireAuth: the account and the device, where the request is let through.
  unfoldable pub require_auth : Text → Flow Tables (ℕ × ℕ)
  require_auth header =
      let (token, present) = bearer_token lib header in
      if not present || is_empty token
      then respond_error 401 "missing bearer token"
      else authenticate hash now (lib.token token)

  -- OptionalAuth: the same, or no identity.
  unfoldable pub optional_auth : Text → Flow Tables (Option (ℕ × ℕ))
  optional_auth header =
      let (token, present) = bearer_token lib header in
      if not present
      then return none
      else if is_empty token
      then respond_error 401 "malformed authorization header"
      else (authenticate hash now (lib.token token) >>= λ who. return (some who))

  known_ok :
      (r : Run Tables (ℕ × ℕ)) (who : ℕ × ℕ)
      → (r.0 ≡ ok who) ↔ ((chain r (λ a. return (some a))).0 ≡ ok (some who))
  known_ok (ok a, t, f) who = (λ e. cc, λ e. cc)
  known_ok (err s m, t, f) who = (λ e. cc, λ e. cc)

  anonymous_ok : (r : Run Tables (ℕ × ℕ)) → (chain r (λ a. return (some a))).0 ≡ ok none → ⊥
  anonymous_ok (ok a, t, f) e = cc
  anonymous_ok (err s m, t, f) e = cc

  -- The two middlewares know the same callers: one lets a request through as somebody exactly if
  -- the other does. The optional one lets through nobody exactly if there is no header, so an
  -- invalid token is refused by both.
  pub require_auth-optional_auth :
      (header : Text) (t : Tables) (f : List Bool)
      → ((who : ℕ × ℕ)
          → ((require_auth header t f).0 ≡ ok who) ↔ ((optional_auth header t f).0 ≡ ok (some who)))
        × (((optional_auth header t f).0 ≡ ok none) ↔ (header ≡ []))
  unfolding require_auth optional_auth bearer_token
  require_auth-optional_auth [] t f = (λ who. (λ e. cc, λ e. cc), (λ e. refl, λ e. refl))
  require_auth-optional_auth (c ∷ cs) t f =
      elim (Bool-cases (is_empty (cut_token lib (cut_space (c ∷ cs))))) [
        | inl bad ↦ (λ who. (λ e. ground arith, λ e. ground arith), (λ e. ground arith, λ e. cc))
        | inr good ↦ (
          λ who. rw good (
              known_ok (authenticate hash now (lib.token (cut_token lib (cut_space (c ∷ cs)))) t f)
                who),
          (
            λ e. absurd (
                anonymous_ok
                  (authenticate hash now (lib.token (cut_token lib (cut_space (c ∷ cs)))) t f)
                  (rw good at e)),
            λ e. cc,
          ),
        )
      ]
