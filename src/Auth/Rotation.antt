-- ===== src/Auth/Rotation.antt =====
-- auth.go: what RefreshTokens does with a live, a used, an expired and an unknown token.
use aura_risk.Base.{
  ℕ, ◌≤◌, ◌≡◌, refl, sym, ap, subst, ◌∙◌, ◌≢◌, inl, inr, Bool, false, Option, none, some, List, [],
  ◌∷◌, ◌++◌, ◌==◌, find, ok, err, arith, All, Option-cases, Bool-cases, Run, settle, failing, later,
  chain,
}
use aura_risk.Auth.{
  refresh, Token, Device, Tables, TokenPair, revoke_device, revoke_hash, purge, touch, issued,
  issue_tokens, with_device, Refreshed, rotated, reused, reuse_detected, rotate, revoke_all,
  refresh_row, refresh_body, answer_refresh, refresh_tokens,
}

abbrev pub row_of : ℕ → List Token → Option Token
row_of h = find (λ k. k.token_hash == h)

abbrev pub device_of : ℕ → List Device → Option Device
device_of d = find (λ v. v.id == d)

pub row_of-append :
    (h : ℕ) (ts us : List Token) (t : Token) → row_of h ts ≡ some t → row_of h (ts ++ us) ≡ some t
row_of-append h [] us t e = cc
row_of-append h (x ∷ ts) us t e = ground (arith, row_of-append h ts us t)

-- The presented row stays, as a revoked one.
pub row_of_rotated :
    (now h d : ℕ) (ts : List Token) (t : Token)
    → row_of h ts ≡ some t
    → now ≤ t.expires_at
    → row_of h (purge now d (revoke_hash now h ts)) ≡ some (record t { revoked_at = some now })
unfolding purge revoke_hash
row_of_rotated now h d [] t e live = cc
row_of_rotated now h d (x ∷ ts) t e live = ground (arith, row_of_rotated now h d ts t)

pub device_of_touched :
    (now d : ℕ) (vs : List Device) (v : Device)
    → device_of d vs ≡ some v
    → device_of d (touch now d vs) ≡ some (record v { last_seen_at = now })
unfolding touch
device_of_touched now d [] v e = cc
device_of_touched now d (x ∷ vs) v e = ground (arith, device_of_touched now d vs v)

joined :
    (row : Token) (v : Device) (vs : List Device)
    → device_of row.device_id vs ≡ some v
    → with_device vs (some row) ≡ some (row, v)
joined row v vs d = ground arith

-- The tables after a rotation.
abbrev pub rotated_tables : (ℕ → ℕ) → ℕ → ℕ → Token → TokenPair → Tables → Tables
rotated_tables hash now h row pair t = record t {
  tokens =
      purge now row.device_id (revoke_hash now h t.tokens)
      ++ issued hash now row.device_id pair.access_token pair.refresh_token;
  devices = touch now row.device_id t.devices;
}

module _ (hash : ℕ → ℕ) (now h : ℕ) (random₁ random₂ : Option ℕ) where
  issue_tokens-ok :
      (a d : ℕ) (t : Tables) (f : List Bool) (pair : TokenPair)
      → (issue_tokens hash now a d random₁ random₂ t f).0 ≡ ok pair
      → ((issue_tokens hash now a d random₁ random₂ t f).1 ≡ record t {
        tokens = t.tokens ++ issued hash now d pair.access_token pair.refresh_token;
      })
        × (pair.device_id ≡ d)
        × (pair.account_id ≡ a)
  unfolding issue_tokens
  issue_tokens-ok a d t f pair e = ground arith

  -- The tables once rotate comes to issue the new pair.
  abbrev cleared : Token → Tables → Tables
  cleared row t = record t {
    tokens = purge now row.device_id (revoke_hash now h t.tokens);
    devices = touch now row.device_id t.devices;
  }

  rotate-ok :
      (row : Token) (v : Device) (t : Tables) (f : List Bool) (pair : TokenPair)
      → (rotate hash now h random₁ random₂ row v t f).0 ≡ ok (rotated pair)
      → ((rotate hash now h random₁ random₂ row v t f).1 ≡ rotated_tables hash now h row pair t)
        × (pair.device_id ≡ row.device_id)
        × (pair.account_id ≡ v.account_id)
  unfolding rotate
  rotate-ok row v t f pair e = ground (
    arith,
    issue_tokens-ok v.account_id row.device_id (cleared row t) (later (later (later f))) pair,
  )

  -- What a successful rotation presupposes, and what it does.
  pub record IsRotation (t t' : Tables) (pair : TokenPair) : Type 0 where
    pub row : Token
    pub device : Device
    pub row_found : row_of h t.tokens ≡ some row
    pub device_found : device_of row.device_id t.devices ≡ some device
    pub was_refresh : row.kind ≡ refresh
    pub was_live : row.revoked_at ≡ none
    pub was_current : now ≤ row.expires_at
    pub own_device : pair.device_id ≡ row.device_id
    pub own_account : pair.account_id ≡ device.account_id
    pub tables : t' ≡ rotated_tables hash now h row pair t

  refresh_row-ok :
      (t : Tables) (f : List Bool) (row : Token) (v : Device) (pair : TokenPair)
      → row_of h t.tokens ≡ some row
      → device_of row.device_id t.devices ≡ some v
      → (refresh_row hash now h random₁ random₂ (some (row, v)) t f).0 ≡ ok (rotated pair)
      → IsRotation t (refresh_row hash now h random₁ random₂ (some (row, v)) t f).1 pair
  unfolding refresh_row revoke_all
  refresh_row-ok t f row v pair r d e = record {
    row = row;
    device = v;
    row_found = r;
    device_found = d;
    was_refresh = ground arith;
    was_live = ground arith;
    was_current = ground arith;
    own_device = ground (arith, rotate-ok row v t f pair);
    own_account = ground (arith, rotate-ok row v t f pair);
    tables = ground (arith, rotate-ok row v t f pair);
  }

  pub reads :
      (t : Tables) (f : List Bool) (row : Token) (v : Device)
      → failing f ≡ false
      → row_of h t.tokens ≡ some row
      → device_of row.device_id t.devices ≡ some v
      → refresh_body hash now h random₁ random₂ t f
        ≡ refresh_row hash now h random₁ random₂ (some (row, v)) t (later f)
  unfolding refresh_body
  reads t f row v good r d =
      rw (good, r)
        (ap (λ x. refresh_row hash now h random₁ random₂ x t (later f)) (joined row v t.devices d))

  refresh_body-ok :
      (t : Tables) (f : List Bool) (pair : TokenPair)
      → (refresh_body hash now h random₁ random₂ t f).0 ≡ ok (rotated pair)
      → IsRotation t (refresh_body hash now h random₁ random₂ t f).1 pair
  unfolding refresh_body
  refresh_body-ok t f pair e = elim (Bool-cases (failing f)) [
    | inl bad ↦ absurd (ground arith)
    | inr good ↦ elim (Option-cases (row_of h t.tokens)) [
      | inl gone ↦ absurd (unfold refresh_row in ground arith)
      | inr (row, r) ↦ elim (Option-cases (device_of row.device_id t.devices)) [
        | inl gone ↦ absurd (unfold refresh_row in ground arith)
        | inr (v, d) ↦
            subst (λ out. IsRotation t out.1 pair) (sym (reads t f row v good r d))
              (refresh_row-ok t (later f) row v pair r d
                (ap (λ out. out.0) (sym (reads t f row v good r d)) ∙ e))
      ]
    ]
  ]

settled-ok :
    (t : Tables) (r : Run Tables Refreshed) (pair : TokenPair)
    → (chain (settle t r) answer_refresh).0 ≡ ok pair
    → (r.0 ≡ ok (rotated pair)) × ((chain (settle t r) answer_refresh).1 ≡ r.1)
settled-ok t (err s m, t', f) pair e = cc
settled-ok t (ok reused, t', f) pair e = ground arith
settled-ok t (ok (rotated p), t', f) pair e = ground arith

-- A refresh that succeeds was given the token of a live, unexpired refresh row of a known device;
-- it revokes that row, deletes only rows of the device that expired over a day ago, and adds one
-- access and one refresh row, whatever the database's earlier calls did.
pub refresh_tokens-IsRotation :
    (hash : ℕ → ℕ) (now token : ℕ) (random₁ random₂ : Option ℕ) (t : Tables) (f : List Bool)
    (pair : TokenPair)
    → (refresh_tokens hash now (some token) random₁ random₂ t f).0 ≡ ok pair
    → IsRotation hash now
        (hash token)
        random₁
        random₂
        t
        (refresh_tokens hash now (some token) random₁ random₂ t f).1
        pair
unfolding refresh_tokens
refresh_tokens-IsRotation hash now token random₁ random₂ t f pair e =
    elim (Bool-cases (failing f)) [
      | inl bad ↦ absurd (ground arith)
      | inr good ↦
          let run = refresh_body hash now (hash token) random₁ random₂ t (later f) in
          let (done, same) = settled-ok t run pair (rw good at e) in
          rw good (
            subst (λ u. IsRotation hash now (hash token) random₁ random₂ t u pair) (sym same)
              (refresh_body-ok hash now (hash token) random₁ random₂ t (later f) pair done))
    ]

abbrev pub Revoked : ℕ → List Token → Type 0
Revoked d = All (λ k. k.device_id ≡ d → k.revoked_at ≢ none)

pub revoke_device-Revoked : (now d : ℕ) (ts : List Token) → Revoked d (revoke_device now d ts)
unfolding revoke_device
revoke_device-Revoked now d [] = tt
revoke_device-Revoked now d (x ∷ ts) = (λ p q. ground arith, revoke_device-Revoked now d ts)

-- A revoked refresh row is answered as a replay.
pub replayed :
    (hash : ℕ → ℕ) (now token : ℕ) (random₁ random₂ : Option ℕ) (t : Tables) (row : Token)
    (v : Device)
    → row_of (hash token) t.tokens ≡ some row
    → device_of row.device_id t.devices ≡ some v
    → row.kind ≡ refresh
    → row.revoked_at ≢ none
    → refresh_tokens hash now (some token) random₁ random₂ t []
      ≡ (err 401 reuse_detected, record t { tokens = revoke_device now row.device_id t.tokens }, [])
unfolding refresh_tokens revoke_all refresh_row
replayed hash now token random₁ random₂ t row v r d k n =
    rw (reads hash now (hash token) random₁ random₂ t [] row v refl r d) (ground arith)
