-- ===== src/Auth/Replay.antt =====
-- auth.go: a rotated refresh token that is presented again after other requests.
use aura_risk.Base.{
  subst, exists, true, ◌==◌, some_eq, ℕ, ◌+◌, ◌≤◌, ◌≡◌, refl, sym, ap, ◌∙◌, Bool, Option, some,
  List, [], ◌∷◌, ok, err, All,
}
use aura_risk.Auth.{
  Token, Tables, TokenPair, RegisterRequest, touch, reuse_detected, refresh_tokens, logout,
  register_device, day,
}
use aura_risk.Auth.Spent.{Spent, device_known, known_device}
use aura_risk.Auth.Keeping.{refresh_tokens-Preserves, logout-Preserves, register_device-Preserves}
use aura_risk.Auth.Rotation.{
  row_of_rotated, device_of_touched, revoke_device-Revoked, row_of, row_of-append, Revoked,
  replayed, IsRotation, refresh_tokens-IsRotation,
}

-- A request of the handlers that write the tables; the ids that the database makes are arguments.
pub data Request : Type 0 where
  refreshing : Option ℕ → Option ℕ → Option ℕ → Request
  leaving : ℕ → Request
  registering : ℕ → ℕ → Option RegisterRequest → Option ℕ → Option ℕ → Request

pub handle : (ℕ → ℕ) → ℕ → Request → List Bool → Tables → Tables
handle hash now (refreshing token random₁ random₂) f t =
    (refresh_tokens hash now token random₁ random₂ t f).1
handle hash now (leaving device) f t = (logout now device t f).1
handle hash now (registering account device req random₁ random₂) f t =
    (register_device hash now account device req random₁ random₂ t f).1

-- A request, the time at which it is handled and the failures of the database.
pub record Call : Type 0 where
  pub at : ℕ
  pub request : Request
  pub failures : List Bool

pub handle_all : (ℕ → ℕ) → List Call → Tables → Tables
handle_all hash [] t = t
handle_all hash (c ∷ cs) t = handle_all hash cs (handle hash c.at c.request c.failures t)

module _ (h d e : ℕ) (hash : ℕ → ℕ) where
  handle-Spent :
      (now : ℕ) (r : Request) (f : List Bool) (t : Tables)
      → now ≤ e + day
      → Spent h d e t
      → Spent h d e (handle hash now r f t)
  unfolding handle
  handle-Spent now (refreshing token random₁ random₂) f t soon s =
      refresh_tokens-Preserves h d e hash now soon token random₁ random₂ t f s
  handle-Spent now (leaving device) f t soon s = logout-Preserves h d e now device t f s
  handle-Spent now (registering account device req random₁ random₂) f t soon s =
      register_device-Preserves h d e hash now soon account device req random₁ random₂ t f s

  handle_all-Spent :
      (cs : List Call) (t : Tables)
      → All (λ c. c.at ≤ e + day) cs
      → Spent h d e t
      → Spent h d e (handle_all hash cs t)
  unfolding handle_all
  handle_all-Spent [] t all s = s
  handle_all-Spent (c ∷ cs) t (soon, all) s =
      handle_all-Spent cs (handle hash c.at c.request c.failures t) all
        (handle-Spent c.at c.request c.failures t soon s)

-- The tables that a rotation leaves.
rotated-Spent :
    (hash : ℕ → ℕ) (now h : ℕ) (random₁ random₂ : Option ℕ) (t t' : Tables) (pair : TokenPair)
    (row : Token)
    → row_of h t.tokens ≡ some row
    → IsRotation hash now h random₁ random₂ t t' pair
    → Spent h pair.device_id row.expires_at t'
rotated-Spent hash now h random₁ random₂ t t' pair row e r =
    let same = some_eq (sym r.row_found ∙ e) in
    rw (r.tables) (
      record (r.row) { revoked_at = some now },
      row_of-append h _ _ _
          (row_of_rotated now h (r.row).device_id t.tokens r.row r.row_found r.was_current),
      record {
        was_refresh = r.was_refresh;
        used_at = now;
        was_used = refl;
        own_device = sym r.own_device;
        expiry = ap (λ k. k.expires_at) same;
      },
      subst (λ k. exists (λ v. v.id == k) (touch now (r.row).device_id t.devices) ≡ true)
          (sym r.own_device)
          (device_known (r.row).device_id (touch now (r.row).device_id t.devices)
            (record (r.device) { last_seen_at = now })
            (device_of_touched now (r.row).device_id t.devices r.device r.device_found)),
    )

Spent-replay :
    (hash : ℕ → ℕ) (again token d e : ℕ) (random₁ random₂ : Option ℕ) (t : Tables)
    → Spent (hash token) d e t
    → let replay = refresh_tokens hash again (some token) random₁ random₂ t [] in
      (replay.0 ≡ err 401 reuse_detected) × Revoked d replay.1.tokens
Spent-replay hash again token d e random₁ random₂ t (row, found, used, known) =
    let (v, device) = known_device d t.devices known in
    let replay =
      replayed hash again token random₁ random₂ t row v found (rw (used.own_device) device)
        used.was_refresh (λ q. cc (q, used.was_used)) in
    rw (replay, used.own_device) (refl, revoke_device-Revoked again d t.tokens)

-- A refresh token was rotated, and afterwards any requests to refresh, log out or register were
-- handled, whatever of them failed, none later than a day after the rotated row's expiry. When that token
-- is then presented again, at any time, and no call of the database fails, it is refused as a
-- replay, and every token of the device is left revoked, those that later rotations issued included.
pub refresh_tokens-replay :
    (hash : ℕ → ℕ) (now again token : ℕ) (random₁ random₂ random₃ random₄ : Option ℕ) (t : Tables)
    (f : List Bool) (pair : TokenPair) (row : Token) (cs : List Call)
    → row_of (hash token) t.tokens ≡ some row
    → (refresh_tokens hash now (some token) random₁ random₂ t f).0 ≡ ok pair
    → All (λ c. c.at ≤ row.expires_at + day) cs
    → let t' = handle_all hash cs (refresh_tokens hash now (some token) random₁ random₂ t f).1 in
      let replay = refresh_tokens hash again (some token) random₃ random₄ t' [] in
      (replay.0 ≡ err 401 reuse_detected) × Revoked pair.device_id replay.1.tokens
refresh_tokens-replay hash now again token random₁ random₂ random₃ random₄ t f pair row cs found e
      soon =
    let t' = (refresh_tokens hash now (some token) random₁ random₂ t f).1 in
    Spent-replay hash again token pair.device_id row.expires_at random₃ random₄
      (handle_all hash cs t')
      (handle_all-Spent (hash token) pair.device_id row.expires_at hash cs t' soon (
        rotated-Spent hash now (hash token) random₁ random₂ t t' pair row found
          (refresh_tokens-IsRotation hash now token random₁ random₂ t f pair e)))
