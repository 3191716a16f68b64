-- ===== src/Auth/Spent.antt =====
-- auth.go: the row of a used refresh token, and what a statement on auth_tokens or devices leaves of it.
use aura_risk.Base.{
  ℕ, ◌+◌, ◌≤◌, ◌≡◌, refl, ◌⊎◌, inl, inr, true, some, List, [], ◌∷◌, ◌++◌, ◌==◌, arith, Bool-cases,
  exists,
}
use aura_risk.Auth.{
  refresh, Token, Device, Tables, revoke_device, revoke_hash, purge, touch, forget_push, day,
}
use aura_risk.Auth.Rotation.{row_of, device_of, row_of-append}

-- The row of a used refresh token of a device.
pub record IsUsed (d e : ℕ) (row : Token) : Type 0 where
  pub was_refresh : row.kind ≡ refresh
  pub used_at : ℕ
  pub was_used : row.revoked_at ≡ some used_at
  pub own_device : row.device_id ≡ d
  pub expiry : row.expires_at ≡ e

-- The tables still have that row, and the device's.
abbrev pub Spent : ℕ → ℕ → ℕ → Tables → Type 0
Spent h d e t =
    (row : Token) × (row_of h t.tokens ≡ some row)
    × IsUsed d e row
    × (exists (λ v. v.id == d) t.devices ≡ true)

revoked_row :
    (now d h at : ℕ) (ts : List Token) (t : Token)
    → row_of h ts ≡ some t
    → t.revoked_at ≡ some at
    → row_of h (revoke_device now d ts) ≡ some t
unfolding revoke_device
revoked_row now d h at [] t e used = cc
revoked_row now d h at (x ∷ ts) t e used = ground (arith, revoked_row now d h at ts t)

used_again :
    (now k h : ℕ) (ts : List Token) (t : Token)
    → row_of h ts ≡ some t
    → (row_of h (revoke_hash now k ts) ≡ some t)
      ⊎ (row_of h (revoke_hash now k ts) ≡ some (record t { revoked_at = some now }))
unfolding revoke_hash
used_again now k h [] t e = cc
used_again now k h (x ∷ ts) t e = ground (arith, used_again now k h ts t)

not_purged :
    (now d h : ℕ) (ts : List Token) (t : Token)
    → row_of h ts ≡ some t
    → now ≤ t.expires_at + day
    → row_of h (purge now d ts) ≡ some t
unfolding purge
not_purged now d h [] t e live = cc
not_purged now d h (x ∷ ts) t e live = ground (arith, not_purged now d h ts t)

pub known_touched :
    (now k d : ℕ) (vs : List Device)
    → exists (λ v. v.id == d) vs ≡ true
    → exists (λ v. v.id == d) (touch now k vs) ≡ true
unfolding touch
known_touched now k d [] e = e
known_touched now k d (v ∷ vs) e = ground (arith, known_touched now k d vs)

pub known_forgotten :
    (k d : ℕ) (vs : List Device)
    → exists (λ v. v.id == d) vs ≡ true
    → exists (λ v. v.id == d) (forget_push k vs) ≡ true
unfolding forget_push
known_forgotten k d [] e = e
known_forgotten k d (v ∷ vs) e = ground (arith, known_forgotten k d vs)

pub device_known :
    (d : ℕ) (vs : List Device) (v : Device)
    → device_of d vs ≡ some v
    → exists (λ w. w.id == d) vs ≡ true
device_known d [] v e = absurd (cc e)
device_known d (w ∷ vs) v e = ground (arith, device_known d vs v)

pub known_device :
    (d : ℕ) (vs : List Device)
    → exists (λ v. v.id == d) vs ≡ true
    → (v : Device) × (device_of d vs ≡ some v)
known_device d [] e = absurd (cc e)
known_device d (v ∷ vs) e = elim (Bool-cases (v.id == d)) [
  | inl hit ↦ (v, rw hit refl)
  | inr miss ↦ let (w, f) = known_device d vs (rw miss at e) in (w, rw miss f)
]

module _ (h d e : ℕ) where
  pub revoke_device-Spent :
      (now k : ℕ) (t : Tables)
      → Spent h d e t
      → Spent h d e (record t { tokens = revoke_device now k t.tokens })
  revoke_device-Spent now k t (row, found, used, known) =
      (row, revoked_row now k h used.used_at t.tokens row found used.was_used, used, known)

  pub revoke_hash-Spent :
      (now k : ℕ) (t : Tables)
      → Spent h d e t
      → Spent h d e (record t { tokens = revoke_hash now k t.tokens })
  revoke_hash-Spent now k t (row, found, used, known) =
      elim (used_again now k h t.tokens row found) [
        | inl same ↦ (row, same, used, known)
        | inr again ↦ (
          record row { revoked_at = some now },
          again,
          record {
            was_refresh = used.was_refresh;
            used_at = now;
            was_used = refl;
            own_device = used.own_device;
            expiry = used.expiry;
          },
          known,
        )
      ]

  pub purge-Spent :
      (now k : ℕ) (t : Tables)
      → now ≤ e + day
      → Spent h d e t
      → Spent h d e (record t { tokens = purge now k t.tokens })
  purge-Spent now k t soon (row, found, used, known) =
      (row, not_purged now k h t.tokens row found (rw (used.expiry) soon), used, known)

  pub append-Spent :
      (ts : List Token) (t : Tables)
      → Spent h d e t
      → Spent h d e (record t { tokens = t.tokens ++ ts })
  append-Spent ts t (row, found, used, known) =
      (row, row_of-append h t.tokens ts row found, used, known)
