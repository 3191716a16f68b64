-- ===== src/Subscriptions/Owned.antt =====
-- devices.go: a push token is of one device, which consented.
use aura_risk.Base.{
  ℕ, ◌≤◌, ◌≡◌, refl, subst, Bool, true, false, not, ◌&&◌, ◌||◌, Option, List, [], ◌∷◌, ◌==◌, Text,
  text_eq, equal_texts, count_rows, update, All, All-update, Distinct, count_rows-update,
  count_rows-Distinct, Distinct-update_key, Flow, Preserves, bind-Preserves, exec-Preserves,
  transaction-Preserves, exec, inl, inr, arith, Bool-cases, Option-cases, failing, ◌>>◌,
}
use aura_risk.Auth.{Device, forget_push}
use aura_risk.Notifier.{Subscription, is_set}
use aura_risk.Notifier.Worker.{Tables}
use aura_risk.Subscriptions.Devices.{
  has_push_token, take_from_others, set_push, give, consent_of, taken, give_push, move_push,
  register_push_token, unregister_push_token, says_yes, is_expo_push_token, no_push,
}

-- Device ids are distinct, no push token is of two devices, and a device has one exactly if it has a
-- time of consent.
pub record IsOwned (ds : List Device) : Type 0 where
  pub distinct : Distinct (λ d. d.id) ds
  pub unshared : (token : Text) → count_rows (has_push_token token) ds ≤ 1
  pub consented : All (λ d. is_set d.push_token ≡ is_set d.push_consented_at) ds

-- Devices lose their tokens.
forgotten-IsOwned :
    (p : Device → Bool) (ds : List Device) → IsOwned ds → IsOwned (update p no_push ds)
forgotten-IsOwned p ds o = record {
  distinct = Distinct-update_key (λ d. d.id) p no_push ds (λ d. refl) o.distinct;
  unshared = λ token. omega (
    arith,
    o.unshared token,
    count_rows-update p no_push (has_push_token token) ds (λ d h k. absurd (cc k)),
  );
  consented =
      All-update (λ d. is_set d.push_token ≡ is_set d.push_consented_at) p no_push ds
        (λ d c h. refl) o.consented;
}

pub forget_push-IsOwned :
    (device : ℕ) (ds : List Device) → IsOwned ds → IsOwned (forget_push device ds)
unfolding forget_push
forget_push-IsOwned device ds o = forgotten-IsOwned (λ d. d.id == device) ds o

-- The device that is given a token that no other has is the only one that has it.
pub give-only :
    (now : ℕ) (token : Text) (device : ℕ) (ds : List Device)
    → taken token device ds ≡ false
    → All (λ d. has_push_token token d ≡ true → d.id ≡ device) (give now token device ds)
give-only now token device [] free = tt
give-only now token device (d ∷ ds) free =
    (λ h. ground (arith, free, h), give-only now token device ds (ground (arith, free)))

give-IsOwned :
    (now : ℕ) (token : Text) (device : ℕ) (ds : List Device)
    → taken token device ds ≡ false
    → IsOwned ds
    → IsOwned (give now token device ds)
give-IsOwned now token device ds free o = record {
  distinct = distinct;
  unshared = unshared;
  consented =
      All-update (λ d. is_set d.push_token ≡ is_set d.push_consented_at) (λ d. d.id == device)
        (set_push now token) ds (λ d c h. refl) o.consented;
}
  where
    distinct : Distinct (λ d. d.id) (give now token device ds)
    distinct =
        Distinct-update_key (λ d. d.id) (λ d. d.id == device) (set_push now token) ds (λ d. refl)
          o.distinct

    unshared : (other : Text) → count_rows (has_push_token other) (give now token device ds) ≤ 1
    unshared other = elim (Bool-cases (text_eq token other)) [
      | inl same ↦
          subst (λ t. count_rows (has_push_token t) (give now token device ds) ≤ 1)
            (equal_texts token other same)
            (count_rows-Distinct (λ d. d.id) (has_push_token token) device
              (give now token device ds) (give-only now token device ds free) distinct)
      | inr apart ↦
          let fewer =
            count_rows-update (λ d. d.id == device) (set_push now token) (has_push_token other) ds
              (λ d h k. absurd (cc (apart, k))) in
          omega (arith, fewer, o.unshared other)
    ]

-- No other device has the token once it has been taken from the others.
pub take_from_others-taken :
    (token : Text) (device : ℕ) (ds : List Device)
    → taken token device (take_from_others token device ds) ≡ false
unfolding take_from_others
take_from_others-taken token device [] = refl
take_from_others-taken token device (d ∷ ds) =
    ground (arith, take_from_others-taken token device ds)

-- The devices are owned, and a predicate holds of the subscriptions, which do not change.
abbrev pub Owned : (List Subscription → Type 0) → Tables → Type 0
Owned Q t = Q t.subscriptions × IsOwned t.devices

module _ (Q : List Subscription → Type 0) where
  give_push-Preserves :
      (now : ℕ) (token : Text) (device : ℕ) → Preserves (Owned Q) (give_push now token device)
  unfolding give_push
  give_push-Preserves now token device t f o =
      elim (Option-cases (consent_of now device t.devices)) [
        | inl e ↦ rw (give_push, e) o
        | inr (at, e) ↦ elim (Bool-cases (failing f || taken token device t.devices)) [
          | inl bad ↦ rw (give_push, e, bad) o
          | inr good ↦
              rw (give_push, e, good)
                (o.0, give-IsOwned now token device t.devices (ground (arith, good)) o.1)
        ]
      ]

  move_push-Preserves :
      (now : ℕ) (token : Text) (device : ℕ) → Preserves (Owned Q) (move_push now token device)
  unfolding move_push take_from_others
  move_push-Preserves now token device =
      let clear : Flow Tables (Unit {0}) =
        exec (λ t. record t { devices = take_from_others token device t.devices }) in
      let clear_keeps =
        exec-Preserves (Owned Q)
          (λ t. record t { devices = take_from_others token device t.devices })
          (λ t o. (
            o.0,
            forgotten-IsOwned (λ d. has_push_token token d && not (d.id == device)) t.devices o.1,
          )) in
      transaction-Preserves (Owned Q) (clear >> give_push now token device) (
        bind-Preserves (Owned Q) clear (λ _. give_push now token device) clear_keeps
          (λ _. give_push-Preserves now token device))

  pub register_push_token-Preserves :
      (now device : ℕ) (token : Text) (consent : Option Bool)
      → Preserves (Owned Q) (register_push_token now device token consent)
  unfolding register_push_token
  register_push_token-Preserves now device token consent t f o =
      elim (Bool-cases (says_yes consent)) [
        | inr no_consent ↦ rw no_consent o
        | inl yes_consent ↦ elim (Bool-cases (is_expo_push_token token)) [
          | inr strange ↦ rw (yes_consent, strange) o
          | inl fine ↦ rw (yes_consent, fine) (move_push-Preserves now token device t f o)
        ]
      ]

  pub unregister_push_token-Preserves :
      (device : ℕ) → Preserves (Owned Q) (unregister_push_token device)
  unfolding unregister_push_token
  unregister_push_token-Preserves device =
      exec-Preserves (Owned Q) (λ t. record t { devices = forget_push device t.devices })
        (λ t o. (o.0, forget_push-IsOwned device t.devices o.1))
