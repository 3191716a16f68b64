-- ===== src/Auth/Keeping.antt =====
-- auth.go: each handler keeps the row of a used refresh token, whatever the database fails at.
use aura_risk.Base.{
  ◌>>◌, return, require, leb, ◌>>=◌, exec, query, transaction, ◌||◌, not, ltb, ℕ, ◌+◌, ◌≤◌, ◌≡◌,
  inl, inr, Bool, true, Option, none, some, List, ◌∷◌, ◌==◌, arith, Bool-cases, exists, Flow,
  Preserves, require-Preserves, failing, bind-Preserves, exec-Preserves, query-Preserves,
  transaction-Preserves,
}
use aura_risk.Auth.{
  null_if_empty, has_hash, is_none, is_refresh, with_device, answer_refresh, Refreshed, rotated,
  reused, Token, Device, Tables, RegisterRequest, revoke_device, revoke_hash, purge, touch,
  forget_push, issued, issue_tokens, rotate, revoke_all, refresh_row, refresh_body, refresh_tokens,
  logout, register_device, day,
}
use aura_risk.Auth.Spent.{
  Spent, known_touched, known_forgotten, revoke_device-Spent, revoke_hash-Spent, purge-Spent,
  append-Spent,
}
use aura_risk.Auth.Rotation.{row_of}

module _ (h d e : ℕ) where
  step-Preserves :
      {A : Type 0} (g : Tables → Tables) (rest : Flow Tables A)
      → ((t : Tables) → Spent h d e t → Spent h d e (g t))
      → Preserves (Spent h d e) rest
      → Preserves (Spent h d e) (exec g >> rest)
  step-Preserves g rest keeps after =
      bind-Preserves (Spent h d e) (exec g) (λ _. rest) (exec-Preserves (Spent h d e) g keeps)
        (λ _. after)

  abbrev forgets : ℕ → Tables → Tables
  forgets k t = record t { devices = forget_push k t.devices }

  abbrev revokes : ℕ → ℕ → Tables → Tables
  revokes now k t = record t { tokens = revoke_device now k t.tokens }

  pub logout-Preserves : (now device : ℕ) → Preserves (Spent h d e) (logout now device)
  unfolding logout
  logout-Preserves now device =
      transaction-Preserves (Spent h d e) (exec (revokes now device) >> exec (forgets device)) (
        step-Preserves (revokes now device) (exec (forgets device))
          (revoke_device-Spent h d e now device)
          (exec-Preserves (Spent h d e) (forgets device) (λ t (row, found, used, known).
            (row, found, used, known_forgotten device d t.devices known))))

  module _ (hash : ℕ → ℕ) (now : ℕ) (soon : now ≤ e + day) where
    abbrev clashes : ℕ → ℕ → Tables → Bool
    clashes a r t = has_hash (hash a) t.tokens || has_hash (hash r) t.tokens || hash a == hash r

    issue_tokens-Preserves :
        (account device : ℕ) (random₁ random₂ : Option ℕ)
        → Preserves (Spent h d e) (issue_tokens hash now account device random₁ random₂)
    unfolding issue_tokens
    issue_tokens-Preserves account device none random₂ t f s = s
    issue_tokens-Preserves account device (some a) none t f s = s
    issue_tokens-Preserves account device (some a) (some r) t f s = elim (Bool-cases (failing f)) [
      | inl bad ↦ rw bad s
      | inr good ↦ elim (Bool-cases (clashes a r t)) [
        | inl clash ↦ rw (good, clash) s
        | inr fresh ↦ rw (good, fresh) (append-Spent h d e (issued hash now device a r) t s)
      ]
    ]

    abbrev rehashes : ℕ → Tables → Tables
    rehashes k t = record t { tokens = revoke_hash now k t.tokens }

    abbrev purges : ℕ → Tables → Tables
    purges k t = record t { tokens = purge now k t.tokens }

    abbrev touches : ℕ → Tables → Tables
    touches k t = record t { devices = touch now k t.devices }

    rotate-Preserves :
        (k : ℕ) (random₁ random₂ : Option ℕ) (row : Token) (v : Device)
        → Preserves (Spent h d e) (rotate hash now k random₁ random₂ row v)
    unfolding rotate
    rotate-Preserves k random₁ random₂ row v =
        let issue = issue_tokens hash now v.account_id row.device_id random₁ random₂ in
        let renew = issue >>= λ pair. return (rotated pair) in
        let last = exec (touches row.device_id) >> renew in
        step-Preserves (rehashes k) (exec (purges row.device_id) >> last)
          (revoke_hash-Spent h d e now k)
          (step-Preserves (purges row.device_id) last
            (λ t. purge-Spent h d e now row.device_id t soon)
            (step-Preserves (touches row.device_id) renew
              (λ t (r, found, used, known).
                (r, found, used, known_touched now row.device_id d t.devices known))
              (bind-Preserves (Spent h d e) issue (λ pair. return (rotated pair))
                (issue_tokens-Preserves v.account_id row.device_id random₁ random₂)
                (λ pair t f s. s))))

    revoke_all-Preserves : (row : Token) → Preserves (Spent h d e) (revoke_all now row)
    unfolding revoke_all
    revoke_all-Preserves row =
        step-Preserves (revokes now row.device_id) (return reused)
          (revoke_device-Spent h d e now row.device_id) (λ t f s. s)

    refresh_row-Preserves :
        (k : ℕ) (random₁ random₂ : Option ℕ) (found : Option (Token × Device))
        → Preserves (Spent h d e) (refresh_row hash now k random₁ random₂ found)
    unfolding refresh_row
    refresh_row-Preserves k random₁ random₂ none t f s = s
    refresh_row-Preserves k random₁ random₂ (some (row, v)) t f s =
        elim (Bool-cases (not (is_refresh row.kind))) [
          | inl other ↦ rw other s
          | inr kind ↦ elim (Bool-cases (not (is_none row.revoked_at))) [
            | inl used ↦ rw (kind, used) (revoke_all-Preserves row t f s)
            | inr live ↦ elim (Bool-cases (ltb row.expires_at now)) [
              | inl late ↦ rw (kind, live, late) s
              | inr current ↦
                  rw (kind, live, current) (rotate-Preserves k random₁ random₂ row v t f s)
            ]
          ]
        ]

    answer-Preserves : (done : Refreshed) → Preserves (Spent h d e) (answer_refresh done)
    answer-Preserves (rotated pair) t f s = s
    answer-Preserves reused t f s = s

    pub refresh_tokens-Preserves :
        (token random₁ random₂ : Option ℕ)
        → Preserves (Spent h d e) (refresh_tokens hash now token random₁ random₂)
    unfolding refresh_tokens refresh_body
    refresh_tokens-Preserves none random₁ random₂ t f s = s
    refresh_tokens-Preserves (some token) random₁ random₂ t f s =
        bind-Preserves (Spent h d e)
          (transaction (refresh_body hash now (hash token) random₁ random₂)) answer_refresh
          (transaction-Preserves (Spent h d e) (refresh_body hash now (hash token) random₁ random₂)
            (bind-Preserves (Spent h d e)
              (query (λ t. with_device t.devices (row_of (hash token) t.tokens)))
              (refresh_row hash now (hash token) random₁ random₂)
              (query-Preserves (Spent h d e)
                (λ t. with_device t.devices (row_of (hash token) t.tokens)))
              (refresh_row-Preserves (hash token) random₁ random₂)))
          answer-Preserves t f s

    abbrev opens_account : ℕ → Tables → Tables
    opens_account account t = record t { accounts = account ∷ t.accounts }

    abbrev new_device : ℕ → ℕ → RegisterRequest → Device
    new_device account device req = record {
      id = device;
      account_id = account;
      platform = req.platform;
      app_version = null_if_empty req.app_version;
      push_token = none;
      push_consented_at = none;
      last_seen_at = now;
    }

    abbrev adds_device : ℕ → ℕ → RegisterRequest → Tables → Tables
    adds_device account device req t = record t {
      devices = new_device account device req ∷ t.devices;
    }

    added_device :
        (v : Device) (vs : List Device)
        → exists (λ w. w.id == d) vs ≡ true
        → exists (λ w. w.id == d) (v ∷ vs) ≡ true
    added_device v vs known = ground (arith, known)

    pub register_device-Preserves :
        (account device : ℕ) (req : Option RegisterRequest) (random₁ random₂ : Option ℕ)
        → Preserves (Spent h d e) (register_device hash now account device req random₁ random₂)
    unfolding register_device
    register_device-Preserves account device none random₁ random₂ t f s = s
    register_device-Preserves account device (some req) random₁ random₂ t f s =
        let issue = issue_tokens hash now account device random₁ random₂ in
        let opens = opens_account account in
        let joins = adds_device account device req in
        let insert = transaction (exec opens >> (exec joins >> issue)) in
        let check = require (leb req.version_bytes 32) 400 "app_version is too long" in
        bind-Preserves (Spent h d e)
          (require (leb req.platform 2) 400 "platform must be ios, android, or web")
          (λ _. check >> insert)
          (require-Preserves (Spent h d e) (leb req.platform 2) 400
            "platform must be ios, android, or web")
          (λ _.
            bind-Preserves (Spent h d e) check (λ _. insert)
              (require-Preserves (Spent h d e) (leb req.version_bytes 32) 400
                "app_version is too long")
              (λ _. transaction-Preserves (Spent h d e) (exec opens >> (exec joins >> issue)) (
                step-Preserves opens (exec joins >> issue) (λ t s. s)
                  (step-Preserves joins issue
                    (λ t (r, found, used, known). (
                      r,
                      found,
                      used,
                      added_device (new_device account device req) t.devices known,
                    ))
                    (issue_tokens-Preserves account device random₁ random₂)))))
          t f s
