-- ===== src/Auth/Answers.antt =====
-- auth.go: each answer of RefreshTokens and the tables it leaves.
use aura_risk.Base.{
  chain, settle, some_eq, Run, ◌⊎◌, inl, inr, ℕ, ◌+◌, ◌<◌, ◌≡◌, refl, sym, ap, subst, ◌∙◌, ◌==◌,
  ltb, true, false, none, some, List, [], ◌∷◌, Result, ok, err, arith, Bool-cases, Option-cases,
}
use aura_risk.Auth.{
  answer_refresh, Kind, access, refresh, has_hash, Token, Device, Tables, TokenPair, revoke_device,
  revoke_hash, purge, issue_tokens, with_device, invalid_refresh, reuse_detected, refresh_expired,
  rotate, refresh_row, refresh_body, refresh_tokens, access_token_ttl, refresh_token_ttl,
}
use aura_risk.Auth.Rotation.{
  row_of, device_of, reads, replayed, IsRotation, refresh_tokens-IsRotation,
}

-- The refresh row that a token's hash h stands for, and its device.
pub record IsPresented (h : ℕ) (t : Tables) (row : Token) (device : Device) : Type 0 where
  pub row_found : row_of h t.tokens ≡ some row
  pub device_found : device_of row.device_id t.devices ≡ some device
  pub was_refresh : row.kind ≡ refresh

-- The four answers, each with what it presupposes of the tables.
pub data IsAnswer (hash : ℕ → ℕ) (now token a r : ℕ) (t : Tables)
    : Result TokenPair → Tables → Type 0 where
  unknown :
      ((row : Token) (v : Device) → ¬ IsPresented (hash token) t row v)
      → IsAnswer hash now token a r t (err 401 invalid_refresh) t
  replay :
      (row : Token) (v : Device) (at : ℕ)
      → IsPresented (hash token) t row v
      → row.revoked_at ≡ some at
      → IsAnswer hash now token a r t
          (err 401 reuse_detected)
          (record t { tokens = revoke_device now row.device_id t.tokens })
  past_expiry :
      (row : Token) (v : Device)
      → IsPresented (hash token) t row v
      → row.revoked_at ≡ none
      → row.expires_at < now
      → IsAnswer hash now token a r t (err 401 refresh_expired) t
  renewed :
      (pair : TokenPair) (t' : Tables)
      → IsRotation hash now (hash token) (some a) (some r) t t' pair
      → pair.access_token ≡ a
      → pair.refresh_token ≡ r
      → IsAnswer hash now token a r t (ok pair) t'

Kind-cases : (k : Kind) → (k ≡ access) ⊎ (k ≡ refresh)
Kind-cases access = inl refl
Kind-cases refresh = inr refl

joined_none :
    (row : Token) (vs : List Device)
    → device_of row.device_id vs ≡ none
    → with_device vs (some row) ≡ none
joined_none row vs d = ground arith

still_new :
    (now d h k : ℕ) (ts : List Token)
    → has_hash k ts ≡ false
    → has_hash k (purge now d (revoke_hash now h ts)) ≡ false
unfolding purge revoke_hash
still_new now d h k [] e = e
still_new now d h k (x ∷ ts) e = ground (arith, still_new now d h k ts)

module _ (hash : ℕ → ℕ) (now token a r : ℕ) (t : Tables) where
  abbrev outcome : Run Tables TokenPair
  outcome = refresh_tokens hash now (some token) (some a) (some r) t []

  abbrev Answered : Run Tables TokenPair → Type 0
  Answered x = IsAnswer hash now token a r t x.0 x.1

  no_row : row_of (hash token) t.tokens ≡ none → outcome ≡ (err 401 invalid_refresh, t, [])
  unfolding refresh_tokens refresh_body refresh_row
  no_row e = rw e refl

  no_device :
      (row : Token)
      → row_of (hash token) t.tokens ≡ some row
      → device_of row.device_id t.devices ≡ none
      → outcome ≡ (err 401 invalid_refresh, t, [])
  unfolding refresh_tokens refresh_body refresh_row
  no_device row e d = rw e (
      ap
        (λ x.
          chain (settle t (refresh_row hash now (hash token) (some a) (some r) x t []))
            answer_refresh)
        (joined_none row t.devices d))

  module _ (row : Token) (v : Device) (e : row_of (hash token) t.tokens ≡ some row)
      (d : device_of row.device_id t.devices ≡ some v) where
    body :
        refresh_body hash now (hash token) (some a) (some r) t []
        ≡ refresh_row hash now (hash token) (some a) (some r) (some (row, v)) t []
    body = reads hash now (hash token) (some a) (some r) t [] row v refl e d

    not_refresh : row.kind ≡ access → outcome ≡ (err 401 invalid_refresh, t, [])
    unfolding refresh_tokens refresh_row
    not_refresh k = rw body (ground arith)

    late :
        row.kind ≡ refresh
        → row.revoked_at ≡ none
        → ltb row.expires_at now ≡ true
        → outcome ≡ (err 401 refresh_expired, t, [])
    unfolding refresh_tokens refresh_row
    late k u l = rw body (ground arith)

    renews :
        row.kind ≡ refresh
        → row.revoked_at ≡ none
        → ltb row.expires_at now ≡ false
        → has_hash (hash a) t.tokens ≡ false
        → has_hash (hash r) t.tokens ≡ false
        → (hash a == hash r) ≡ false
        → outcome.0
          ≡ ok (record {
            account_id = v.account_id;
            device_id = row.device_id;
            access_token = a;
            access_expires_at = now + access_token_ttl;
            refresh_token = r;
            refresh_expires_at = now + refresh_token_ttl;
          })
    unfolding refresh_tokens refresh_row rotate issue_tokens
    renews k u l new_a new_r differ = rw body (
        ground (
          arith,
          still_new now row.device_id (hash token) (hash a) t.tokens new_a,
          still_new now row.device_id (hash token) (hash r) t.tokens new_r,
        ))

  -- Where no call of the database fails, and the two new tokens' hashes are new and differ, a token that is
  -- no refresh token of a known device is refused and changes nothing; a used or revoked one is
  -- refused as a replay, and the device's live rows are revoked; an unused one is refused past its expiry and
  -- changes nothing; and any other is rotated into a pair of the two new tokens.
  pub refresh_tokens-IsAnswer :
      has_hash (hash a) t.tokens ≡ false
      → has_hash (hash r) t.tokens ≡ false
      → (hash a == hash r) ≡ false
      → IsAnswer hash now token a r t outcome.0 outcome.1
  refresh_tokens-IsAnswer new_a new_r differ = elim (Option-cases (row_of (hash token) t.tokens)) [
    | inl gone ↦ subst Answered (sym (no_row gone)) (unknown (λ row v p. cc (p.row_found, gone)))
    | inr (row, e) ↦ elim (Option-cases (device_of row.device_id t.devices)) [
      | inl gone ↦ subst Answered (sym (no_device row e gone)) (
          unknown (λ x v p. cc (
            ap (λ k. device_of k.device_id t.devices) (some_eq (sym p.row_found ∙ e)),
            p.device_found,
            gone,
          )))
      | inr (v, d) ↦ elim (Kind-cases row.kind) [
        | inl other ↦ subst Answered (sym (not_refresh row v e d other)) (
            unknown (λ x w p.
              cc (ap (λ k. k.kind) (some_eq (sym p.row_found ∙ e)), p.was_refresh, other)))
        | inr kind ↦
            let presented : IsPresented (hash token) t row v = record {
              row_found = e;
              device_found = d;
              was_refresh = kind;
            } in
            elim (Option-cases row.revoked_at) [
              | inr (at, used) ↦
                  subst Answered
                    (sym (replayed hash now token (some a) (some r) t row v e d kind (λ q. cc)))
                    (replay row v at presented used)
              | inl live ↦ elim (Bool-cases (ltb row.expires_at now)) [
                | inl past ↦
                    subst Answered (sym (late row v e d kind live past))
                      (past_expiry row v presented live (ground (arith, past)))
                | inr current ↦
                    let done = renews row v e d kind live current new_a new_r differ in
                    subst (λ x. IsAnswer hash now token a r t x outcome.1) (sym done)
                      (renewed _ outcome.1
                        (refresh_tokens-IsRotation hash now token (some a) (some r) t [] _ done)
                        refl refl)
              ]
            ]
      ]
    ]
  ]
