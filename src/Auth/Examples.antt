-- ===== src/Auth/Examples.antt =====
-- auth.go at concrete inputs: a hash that adds 100, and a device that registers at time 1000.
use aura_risk.Base.{
  ℕ, ◌+◌, ◌≡◌, ◌≢◌, refl, List, [], ◌∷◌, Bool, true, false, none, some, ok, err, arith, select, not,
  ◌==◌,
}
use aura_risk.Auth.{
  refresh, invalid_refresh, refresh_expired, Tables, TokenPair, RegisterRequest, register_device,
  issue_tokens, refresh_tokens, refresh_body, refresh_row, rotate, revoke_hash, purge, logout,
  authenticate, reuse_detected,
}
use aura_risk.Auth.Rotation.{Revoked}
use aura_risk.Auth.Replay.{Call, refreshing, registering, handle_all, refresh_tokens-replay}
use aura_risk.Auth.Answers.{IsAnswer, refresh_tokens-IsAnswer}
use aura_risk.Base.{Text, codes, ◌↔◌}
use aura_risk.Auth.Middleware.{Reading, require_auth, optional_auth, require_auth-optional_auth}
use aura_risk.Auth.Access.{PushForgotten, register_device-authenticate, logout-authenticate}

abbrev hash : ℕ → ℕ
hash x = x + 100

abbrev no_tables : Tables
no_tables = record { accounts = []; devices = []; tokens = [] }

abbrev phone : RegisterRequest
phone = record { platform = 1; app_version = []; version_bytes = 0 }

-- Account 1, device 2, access token 3 and refresh token 4.
abbrev registered : Tables
unfolding register_device issue_tokens
registered = (register_device hash 1000 1 2 (some phone) (some 3) (some 4) no_tables []).1

abbrev pair : TokenPair
pair = record {
  account_id = 1;
  device_id = 2;
  access_token = 3;
  access_expires_at = 1900;
  refresh_token = 4;
  refresh_expires_at = 2593000;
}

register_example :
    (authenticate hash 1899 3
      (register_device hash 1000 1 2 (some phone) (some 3) (some 4) no_tables []).1
      []).0
    ≡ ok (1, 2)
unfolding register_device issue_tokens
register_example =
    register_device-authenticate hash 1000 1 2 phone (some 3) (some 4) no_tables [] pair 1899 refl
      (omega arith)

abbrev renewed : TokenPair
renewed = record {
  account_id = 1;
  device_id = 2;
  access_token = 5;
  access_expires_at = 2900;
  refresh_token = 6;
  refresh_expires_at = 2594000;
}

rotation_done : (refresh_tokens hash 2000 (some 4) (some 5) (some 6) registered []).0 ≡ ok renewed
unfolding registered refresh_tokens refresh_body refresh_row rotate issue_tokens purge revoke_hash
rotation_done = refl

-- The new refresh token is used in its turn, and somebody registers while the database fails.
abbrev afterwards : List Call
afterwards =
    record { at = 3000; request = refreshing (some 6) (some 7) (some 8); failures = [] }
    ∷ record {
      at = 4000;
      request = registering 5 6 (some phone) (some 9) (some 10);
      failures = false ∷ true ∷ [];
    }
    ∷ []

replay_example :
    let t' =
      handle_all hash afterwards
        (refresh_tokens hash 2000 (some 4) (some 5) (some 6) registered []).1 in
    let replay = refresh_tokens hash 9000000 (some 4) none none t' [] in
    (replay.0 ≡ err 401 reuse_detected) × Revoked 2 replay.1.tokens
unfolding registered
replay_example =
    refresh_tokens-replay hash 2000 9000000 4 (some 5) (some 6) none none registered [] renewed
      (record {
        token_hash = 104;
        device_id = 2;
        kind = refresh;
        expires_at = 2593000;
        revoked_at = none;
      })
      afterwards refl rotation_done (omega arith, (omega arith, tt))

answer_example :
    IsAnswer hash 2000 4 5 6 registered
      (refresh_tokens hash 2000 (some 4) (some 5) (some 6) registered []).0
      (refresh_tokens hash 2000 (some 4) (some 5) (some 6) registered []).1
unfolding registered
answer_example = refresh_tokens-IsAnswer hash 2000 4 5 6 registered refl refl refl

-- The three refusals.
refused_unknown :
    (refresh_tokens hash 2000 (some 3) (some 5) (some 6) registered []).0 ≡ err 401 invalid_refresh
unfolding registered refresh_tokens refresh_body refresh_row
refused_unknown = refl

refused_expired :
    (refresh_tokens hash 3000000 (some 4) (some 5) (some 6) registered []).0
    ≡ err 401 refresh_expired
unfolding registered refresh_tokens refresh_body refresh_row
refused_expired = refl

logout_example :
    let t' = (logout 1500 2 registered []).1 in
    ((at token a e : ℕ) (g : List Bool) → (authenticate hash at token t' g).0 ≡ ok (a, e) → e ≢ 2)
    × PushForgotten 2 t'.devices
    × (select (λ k. not (k.device_id == 2)) t'.tokens
        ≡ select (λ k. not (k.device_id == 2)) registered.tokens)
    × (select (λ v. not (v.id == 2)) t'.devices ≡ select (λ v. not (v.id == 2)) registered.devices)
unfolding logout
logout_example = logout-authenticate hash 1500 2 registered [] refl

-- A token's number is its first byte, and any scheme will do.
abbrev first_byte : Text → ℕ
first_byte [] = 0
first_byte (c ∷ cs) = c

abbrev reading : Reading
reading = record { equal_fold = λ a b. true; token = first_byte }

abbrev header : Text
header = codes "Bearer 3"

middleware_example :
    ((who : ℕ × ℕ)
      → ((require_auth reading hash 1500 header registered []).0 ≡ ok who)
        ↔ ((optional_auth reading hash 1500 header registered []).0 ≡ ok (some who)))
    × (((optional_auth reading hash 1500 header registered []).0 ≡ ok none) ↔ (header ≡ []))
middleware_example = require_auth-optional_auth reading hash 1500 header registered []
