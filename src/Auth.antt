-- ===== src/Auth.antt =====
-- aurarisk-backend/internal/handlers/auth.go: device registration, tokens and their rotation.
-- Times are seconds; the server's clock and the database's NOW() are one clock. Ids, raw tokens
-- made by services.NewToken and hashes are numbers, and services.HashToken is a parameter.
pub mod Rotation
pub mod Spent
pub mod Keeping
pub mod Replay
pub mod Answers
pub mod Access
pub mod Middleware
mod Examples
use aura_risk.Base.{
  ℕ, ◌+◌, ◌*◌, Bool, true, false, not, ◌&&◌, ◌||◌, Option, none, some, List, [], ◌∷◌, ◌++◌, String,
  ltb, leb, ◌==◌, if◌then◌else◌, find, exists, update, delete, Result, ok, err, Flow, ◌>>=◌, ◌>>◌,
  return, respond_error, require, query, exec, exec_unless, transaction, internal_error,
}

abbrev pub access_token_ttl : ℕ
access_token_ttl = 15 * 60

abbrev pub refresh_token_ttl : ℕ
refresh_token_ttl = 30 * 24 * 3600

abbrev pub day : ℕ
day = 24 * 3600

pub data Kind : Type 0 where
  access refresh : Kind

abbrev pub is_refresh : Kind → Bool
is_refresh access = false
is_refresh refresh = true

abbrev pub is_none : {A : Type 0} → Option A → Bool
is_none none = true
is_none (some a) = false

-- auth_tokens
pub record Token : Type 0 where
  pub token_hash : ℕ
  pub device_id : ℕ
  pub kind : Kind
  pub expires_at : ℕ
  pub revoked_at : Option ℕ

-- devices
pub record Device : Type 0 where
  pub id : ℕ
  pub account_id : ℕ
  pub platform : ℕ
  pub app_version : Option (List ℕ)
  pub push_token : Option (List ℕ)
  pub push_consented_at : Option ℕ
  pub last_seen_at : ℕ

pub record Tables : Type 0 where
  pub accounts : List ℕ
  pub devices : List Device
  pub tokens : List Token

pub record TokenPair : Type 0 where
  pub account_id : ℕ
  pub device_id : ℕ
  pub access_token : ℕ
  pub access_expires_at : ℕ
  pub refresh_token : ℕ
  pub refresh_expires_at : ℕ

-- services.NewToken: `none` when the random source fails.
abbrev pub new_token : Option ℕ → Flow Tables ℕ
new_token none = λ t f. (internal_error, t, f)
new_token (some x) = return x

-- UPDATE auth_tokens SET revoked_at = NOW() WHERE device_id = $1 AND revoked_at IS NULL
pub revoke_device : ℕ → ℕ → List Token → List Token
revoke_device now d =
    update (λ t. t.device_id == d && is_none t.revoked_at) (λ t. record t { revoked_at = some now })

-- UPDATE auth_tokens SET revoked_at = NOW() WHERE token_hash = $1
pub revoke_hash : ℕ → ℕ → List Token → List Token
revoke_hash now h = update (λ t. t.token_hash == h) (λ t. record t { revoked_at = some now })

-- DELETE FROM auth_tokens WHERE device_id = $1 AND expires_at < NOW() - INTERVAL '1 day'
pub purge : ℕ → ℕ → List Token → List Token
purge now d = delete (λ t. t.device_id == d && ltb (t.expires_at + day) now)

-- UPDATE devices SET last_seen_at = NOW() WHERE id = $1
pub touch : ℕ → ℕ → List Device → List Device
touch now d = update (λ v. v.id == d) (λ v. record v { last_seen_at = now })

-- UPDATE devices SET push_token = NULL, push_consented_at = NULL WHERE id = $1
unfoldable pub forget_push : ℕ → List Device → List Device
forget_push d =
    update (λ v. v.id == d) (λ v. record v { push_token = none; push_consented_at = none })

abbrev pub has_hash : ℕ → List Token → Bool
has_hash h = exists (λ t. t.token_hash == h)

-- The two rows that issueTokens inserts.
abbrev pub issued : (ℕ → ℕ) → ℕ → ℕ → ℕ → ℕ → List Token
issued hash now d a r =
    record {
      token_hash = hash a;
      device_id = d;
      kind = access;
      expires_at = now + access_token_ttl;
      revoked_at = none;
    }
    ∷ record {
      token_hash = hash r;
      device_id = d;
      kind = refresh;
      expires_at = now + refresh_token_ttl;
      revoked_at = none;
    }
    ∷ []

-- issueTokens; token_hash is the primary key of the table.
pub issue_tokens : (ℕ → ℕ) → ℕ → ℕ → ℕ → Option ℕ → Option ℕ → Flow Tables TokenPair
issue_tokens hash now account device random₁ random₂ = do
  a ← new_token random₁
  r ← new_token random₂
  exec_unless (λ t. has_hash (hash a) t.tokens || has_hash (hash r) t.tokens || hash a == hash r)
      (λ t. record t { tokens = t.tokens ++ issued hash now device a r })
  return (record {
    account_id = account;
    device_id = device;
    access_token = a;
    access_expires_at = now + access_token_ttl;
    refresh_token = r;
    refresh_expires_at = now + refresh_token_ttl;
  })

abbrev pub with_device : List Device → Option Token → Option (Token × Device)
with_device ds none = none
with_device ds (some t) = elim (find (λ v. v.id == t.device_id) ds) [
  | none ↦ none
  | some v ↦ some (t, v)
]

pub data Refreshed : Type 0 where
  rotated : TokenPair → Refreshed
  reused : Refreshed

abbrev pub invalid_refresh : String
invalid_refresh = "invalid refresh token"

abbrev pub reuse_detected : String
reuse_detected = "refresh token reuse detected"

abbrev pub refresh_expired : String
refresh_expired = "refresh token expired"

-- The branches of RefreshTokens on a row that is not revoked and not expired.
pub rotate : (ℕ → ℕ) → ℕ → ℕ → Option ℕ → Option ℕ → Token → Device → Flow Tables Refreshed
rotate hash now h random₁ random₂ row device = do
  exec (λ t. record t { tokens = revoke_hash now h t.tokens })
  exec (λ t. record t { tokens = purge now row.device_id t.tokens })
  exec (λ t. record t { devices = touch now row.device_id t.devices })
  pair ← issue_tokens hash now device.account_id row.device_id random₁ random₂
  return (rotated pair)

-- On a row whose token was already rotated or revoked.
pub revoke_all : ℕ → Token → Flow Tables Refreshed
unfolding revoke_device
revoke_all now row = do
  exec (λ t. record t { tokens = revoke_device now row.device_id t.tokens })
  return reused

-- After the row is read.
pub refresh_row :
    (ℕ → ℕ) → ℕ → ℕ → Option ℕ → Option ℕ → Option (Token × Device) → Flow Tables Refreshed
refresh_row hash now h random₁ random₂ none = respond_error 401 invalid_refresh
refresh_row hash now h random₁ random₂ (some (row, device)) =
    if not (is_refresh row.kind)
    then respond_error 401 invalid_refresh
    else if not (is_none row.revoked_at)
    then revoke_all now row
    else if ltb row.expires_at now
    then respond_error 401 refresh_expired
    else rotate hash now h random₁ random₂ row device

pub refresh_body : (ℕ → ℕ) → ℕ → ℕ → Option ℕ → Option ℕ → Flow Tables Refreshed
refresh_body hash now h random₁ random₂ = do
  found ← query (λ t. with_device t.devices (find (λ k. k.token_hash == h) t.tokens))
  refresh_row hash now h random₁ random₂ found

abbrev pub answer_refresh : Refreshed → Flow Tables TokenPair
answer_refresh (rotated pair) = return pair
answer_refresh reused = respond_error 401 reuse_detected

-- RefreshTokens; the request is `none` where the body does not bind or has an empty token.
pub refresh_tokens : (ℕ → ℕ) → ℕ → Option ℕ → Option ℕ → Option ℕ → Flow Tables TokenPair
refresh_tokens hash now none random₁ random₂ = respond_error 400 "refresh_token is required"
refresh_tokens hash now (some token) random₁ random₂ = do
  done ← transaction (refresh_body hash now (hash token) random₁ random₂)
  answer_refresh done

-- Logout
pub logout : ℕ → ℕ → Flow Tables (Unit {0})
unfolding revoke_device forget_push
logout now device = transaction do
  exec (λ t. record t { tokens = revoke_device now device t.tokens })
  exec (λ t. record t { devices = forget_push device t.devices })

-- The request of RegisterDevice, with the length of its app_version; the known platforms
-- are 0, 1 and 2 (ios, android, web).
pub record RegisterRequest : Type 0 where
  pub platform : ℕ
  pub app_version : List ℕ
  pub version_bytes : ℕ

abbrev pub null_if_empty : List ℕ → Option (List ℕ)
null_if_empty [] = none
null_if_empty (c ∷ cs) = some (c ∷ cs)

-- RegisterDevice; the ids that the database makes are arguments.
pub register_device :
    (ℕ → ℕ) → ℕ → ℕ → ℕ → Option RegisterRequest → Option ℕ → Option ℕ → Flow Tables TokenPair
register_device hash now account device none random₁ random₂ =
    respond_error 400 "invalid request body"
register_device hash now account device (some req) random₁ random₂ = do
  require (leb req.platform 2) 400 "platform must be ios, android, or web"
  require (leb req.version_bytes 32) 400 "app_version is too long"
  transaction do
    exec (λ t. record t { accounts = account ∷ t.accounts })
    exec (λ t. record t {
      devices =
          record {
            id = device;
            account_id = account;
            platform = req.platform;
            app_version = null_if_empty req.app_version;
            push_token = none;
            push_consented_at = none;
            last_seen_at = now;
          }
          ∷ t.devices;
    })
    issue_tokens hash now account device random₁ random₂

-- authenticate: the account and device of the caller.
pub authenticate : (ℕ → ℕ) → ℕ → ℕ → Flow Tables (ℕ × ℕ)
authenticate hash now token = do
  found ← query (λ t. with_device t.devices (
      find
        (λ k.
          k.token_hash == hash token
          && not (is_refresh k.kind)
          && is_none k.revoked_at
          && ltb now k.expires_at)
        t.tokens))
  elim found [
    | none ↦ respond_error 401 "invalid or expired access token"
    | some (row, device) ↦ return (device.account_id, row.device_id)
  ]
