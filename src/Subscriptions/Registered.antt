-- ===== src/Subscriptions/Registered.antt =====
-- devices.go: a device that registers its push token has it, alone.
use aura_risk.Base.{
  ℕ, ◌≡◌, refl, ◌∙◌, true, false, not, ◌&&◌, some, List, [], ◌∷◌, ◌==◌, Text, text_eq_refl, exists,
  exists-update_key, All, Result, ok, inl, inr, Bool-cases,
}
use aura_risk.Auth.{Device}
use aura_risk.Notifier.{is_set}
use aura_risk.Notifier.Worker.{Tables}
use aura_risk.Subscriptions.Devices.{
  is_expo_push_token, has_push_token, no_push, take_from_others, give, consent_of, taken, give_push,
  move_push, register_push_token,
}
use aura_risk.Subscriptions.Owned.{give-only, take_from_others-taken}

-- The device is told when it consented, it has the token with a time of consent, and no other has it.
pub record IsRegistered (token : Text) (device : ℕ) (answer : Result ℕ) (ds : List Device)
    : Type 0 where
  pub answered : (at : ℕ) × (answer ≡ ok at)
  pub given :
      exists (λ d. d.id == device && has_push_token token d && is_set d.push_consented_at) ds ≡ true
  pub alone : All (λ d. has_push_token token d ≡ true → d.id ≡ device) ds

consent_of-exists :
    (now device : ℕ) (ds : List Device)
    → exists (λ d. d.id == device) ds ≡ true
    → (at : ℕ) × (consent_of now device ds ≡ some at)
consent_of-exists now device [] h = absurd (cc h)
consent_of-exists now device (d ∷ ds) h = elim (Bool-cases (d.id == device)) [
  | inl hit ↦ rw hit (_, refl)
  | inr miss ↦ rw miss (consent_of-exists now device ds (rw miss at h))
]

give-given :
    (now : ℕ) (token : Text) (device : ℕ) (ds : List Device)
    → exists (λ d. d.id == device) ds ≡ true
    → exists
        (λ d. d.id == device && has_push_token token d && is_set d.push_consented_at)
        (give now token device ds)
      ≡ true
give-given now token device [] h = h
give-given now token device (d ∷ ds) h = elim (Bool-cases (d.id == device)) [
  | inl hit ↦ rw (hit, hit, text_eq_refl token) refl
  | inr miss ↦ rw (miss, miss) (give-given now token device ds (rw miss at h))
]

give_push-ok :
    (now : ℕ) (token : Text) (device at : ℕ) (t : Tables)
    → consent_of now device t.devices ≡ some at
    → taken token device t.devices ≡ false
    → give_push now token device t []
      ≡ (ok at, record t { devices = give now token device t.devices }, [])
unfolding give_push
give_push-ok now token device at t e free = rw (give_push, e, free) refl

still_there :
    (token : Text) (device : ℕ) (ds : List Device)
    → exists (λ d. d.id == device) ds ≡ true
    → exists (λ d. d.id == device) (take_from_others token device ds) ≡ true
unfolding take_from_others
still_there token device ds known =
    exists-update_key (λ d. d.id) (λ d. has_push_token token d && not (d.id == device)) no_push
      device ds (λ d. refl)
    ∙ known

-- Where no call of the database fails, an Expo token, a known device and explicit consent register:
-- the constraint that tokens are unique is never in the way, whichever devices had the token before.
pub register_push_token-IsRegistered :
    (now device : ℕ) (token : Text) (t : Tables)
    → is_expo_push_token token ≡ true
    → exists (λ d. d.id == device) t.devices ≡ true
    → IsRegistered token device
        (register_push_token now device token (some true) t []).0
        (register_push_token now device token (some true) t []).1.devices
unfolding register_push_token move_push
register_push_token-IsRegistered now device token t expo known =
    let left = take_from_others token device t.devices in
    let free = take_from_others-taken token device t.devices in
    let still = still_there token device t.devices known in
    let (at, e) = consent_of-exists now device left still in
    rw (expo, give_push-ok now token device at (record t { devices = left }) e free)
      (record {
        answered = (at, refl);
        given = give-given now token device left still;
        alone = give-only now token device left free;
      })
