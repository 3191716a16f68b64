-- ===== src/Auth/Access.antt =====
-- auth.go: who authenticates after a registration and after a logout.
use aura_risk.Base.{
  ℕ, ◌+◌, ◌<◌, ◌≡◌, refl, ◌≢◌, inl, inr, Bool, false, not, ◌&&◌, Option, none, some, List, [], ◌∷◌,
  ◌++◌, ltb, ◌==◌, find, select, ok, arith, All, Option-cases, Bool-cases, failing, later,
}
use aura_risk.Auth.{
  access, is_refresh, is_none, Token, Device, Tables, TokenPair, revoke_device, forget_push,
  has_hash, issued, issue_tokens, null_if_empty, logout, authenticate, RegisterRequest,
  register_device, access_token_ttl,
}
use aura_risk.Auth.Rotation.{Revoked, revoke_device-Revoked, device_of}

-- The rows that authenticate accepts for a hash at a time.
abbrev pub admits : ℕ → ℕ → Token → Bool
admits h now k =
    k.token_hash == h && not (is_refresh k.kind) && is_none k.revoked_at && ltb now k.expires_at

admitted-not_Revoked :
    (h now d : ℕ) (ts : List Token) (k : Token)
    → Revoked d ts
    → find (admits h now) ts ≡ some k
    → k.device_id ≢ d
admitted-not_Revoked h now d [] k r e p = cc
admitted-not_Revoked h now d (x ∷ ts) k r e p =
    ground (arith, admitted-not_Revoked h now d ts k r.1, r.0)

-- Nobody authenticates as a device whose tokens are all revoked.
pub authenticate-Revoked :
    (hash : ℕ → ℕ) (now token d : ℕ) (t : Tables) (f : List Bool) (a e : ℕ)
    → Revoked d t.tokens
    → (authenticate hash now token t f).0 ≡ ok (a, e)
    → e ≢ d
unfolding authenticate
authenticate-Revoked hash now token d t f a e r p q = elim (Bool-cases (failing f)) [
  | inl bad ↦ ground arith
  | inr good ↦ elim (Option-cases (find (admits (hash token) now) t.tokens)) [
    | inl gone ↦ ground arith
    | inr (k, found) ↦ elim (Option-cases (device_of k.device_id t.devices)) [
      | inl gone ↦ ground arith
      | inr (v, known) ↦ ground (arith, admitted-not_Revoked (hash token) now d t.tokens k r found)
    ]
  ]
]

abbrev pub PushForgotten : ℕ → List Device → Type 0
PushForgotten d = All (λ v. v.id ≡ d → (v.push_token ≡ none) × (v.push_consented_at ≡ none))

forget_push-PushForgotten : (d : ℕ) (vs : List Device) → PushForgotten d (forget_push d vs)
unfolding forget_push
forget_push-PushForgotten d [] = tt
forget_push-PushForgotten d (v ∷ vs) = (λ p. ground arith, forget_push-PushForgotten d vs)

revoke_device-others :
    (now d : ℕ) (ts : List Token)
    → select (λ k. not (k.device_id == d)) (revoke_device now d ts)
      ≡ select (λ k. not (k.device_id == d)) ts
unfolding revoke_device
revoke_device-others now d [] = refl
revoke_device-others now d (x ∷ ts) = ground (arith, revoke_device-others now d ts)

forget_push-others :
    (d : ℕ) (vs : List Device)
    → select (λ v. not (v.id == d)) (forget_push d vs) ≡ select (λ v. not (v.id == d)) vs
unfolding forget_push
forget_push-others d [] = refl
forget_push-others d (v ∷ vs) = ground (arith, forget_push-others d vs)

abbrev logged_out : ℕ → ℕ → Tables → Tables
logged_out now d t = record t {
  tokens = revoke_device now d t.tokens;
  devices = forget_push d t.devices;
}

logout-ok :
    (now d : ℕ) (t : Tables) (f : List Bool)
    → (logout now d t f).0 ≡ ok tt
    → (logout now d t f).1 ≡ logged_out now d t
unfolding logout
logout-ok now d t f e = ground arith

-- After a logout that succeeds nobody authenticates as the device at any time, the device has no
-- push token and no consent, and the tokens and devices of others are as before.
pub logout-authenticate :
    (hash : ℕ → ℕ) (now d : ℕ) (t : Tables) (f : List Bool)
    → (logout now d t f).0 ≡ ok tt
    → let t' = (logout now d t f).1 in
      ((at token a e : ℕ) (g : List Bool) → (authenticate hash at token t' g).0 ≡ ok (a, e) → e ≢ d)
      × PushForgotten d t'.devices
      × (select (λ k. not (k.device_id == d)) t'.tokens
          ≡ select (λ k. not (k.device_id == d)) t.tokens)
      × (select (λ v. not (v.id == d)) t'.devices ≡ select (λ v. not (v.id == d)) t.devices)
logout-authenticate hash now d t f done = rw (logout-ok now d t f done) (
  λ at token a e g.
      authenticate-Revoked hash at token d (logged_out now d t) g a e
        (revoke_device-Revoked now d t.tokens),
  forget_push-PushForgotten d t.devices,
  revoke_device-others now d t.tokens,
  forget_push-others d t.devices,
)

admits_new :
    (h now : ℕ) (ts us : List Token) (k : Token)
    → has_hash h ts ≡ false
    → find (admits h now) us ≡ some k
    → find (admits h now) (ts ++ us) ≡ some k
admits_new h now [] us k n e = e
admits_new h now (x ∷ ts) us k n e = ground (arith, admits_new h now ts us k)

module _ (hash : ℕ → ℕ) (now account device : ℕ) (random₁ random₂ : Option ℕ) where
  -- The tables that a registration hands to issueTokens.
  abbrev enrolled : RegisterRequest → Tables → Tables
  enrolled req t = record t {
    accounts = account ∷ t.accounts;
    devices =
        record {
          id = device;
          account_id = account;
          platform = req.platform;
          app_version = null_if_empty req.app_version;
          push_token = none;
          push_consented_at = none;
          last_seen_at = now;
        }
        ∷ t.devices;
  }

  issue_tokens-fresh :
      (t : Tables) (f : List Bool) (pair : TokenPair)
      → (issue_tokens hash now account device random₁ random₂ t f).0 ≡ ok pair
      → (has_hash (hash pair.access_token) t.tokens ≡ false)
        × ((issue_tokens hash now account device random₁ random₂ t f).1 ≡ record t {
          tokens = t.tokens ++ issued hash now device pair.access_token pair.refresh_token;
        })
        × (pair.device_id ≡ device)
        × (pair.account_id ≡ account)
        × (pair.access_expires_at ≡ now + access_token_ttl)
  unfolding issue_tokens
  issue_tokens-fresh t f pair e = ground arith

  register_device-ok :
      (req : RegisterRequest) (t : Tables) (f : List Bool) (pair : TokenPair)
      → (register_device hash now account device (some req) random₁ random₂ t f).0 ≡ ok pair
      → (has_hash (hash pair.access_token) t.tokens ≡ false)
        × ((register_device hash now account device (some req) random₁ random₂ t f).1
            ≡ record (enrolled req t) {
              tokens = t.tokens ++ issued hash now device pair.access_token pair.refresh_token;
            })
        × (pair.device_id ≡ device)
        × (pair.account_id ≡ account)
        × (pair.access_expires_at ≡ now + access_token_ttl)
  unfolding register_device
  register_device-ok req t f pair e =
      ground (arith, issue_tokens-fresh (enrolled req t) (later (later (later f))) pair)

-- A device that registers can authenticate with the access token that it is given until that
-- expires, as itself, whatever rows the tables held before.
pub register_device-authenticate :
    (hash : ℕ → ℕ) (now account device : ℕ) (req : RegisterRequest) (random₁ random₂ : Option ℕ)
    (t : Tables) (f : List Bool) (pair : TokenPair) (at : ℕ)
    → (register_device hash now account device (some req) random₁ random₂ t f).0 ≡ ok pair
    → at < pair.access_expires_at
    → let t' = (register_device hash now account device (some req) random₁ random₂ t f).1 in
      (authenticate hash at pair.access_token t' []).0 ≡ ok (account, device)
unfolding authenticate
register_device-authenticate hash now account device req random₁ random₂ t f pair at e early =
    let (new, same, own, of, expiry) =
      register_device-ok hash now account device random₁ random₂ req t f pair e in
    rw
      (
        same,
        admits_new (hash pair.access_token) at t.tokens
            (issued hash now device pair.access_token pair.refresh_token)
            (record {
              token_hash = hash pair.access_token;
              device_id = device;
              kind = access;
              expires_at = now + access_token_ttl;
              revoked_at = none;
            })
            new (ground arith),
      )
      (ground arith)
