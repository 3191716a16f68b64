-- ===== src/Subscriptions/Devices.antt =====
-- handlers/devices.go: a device's push token, over the notifier's tables.
use aura_risk.Base.{
  ℕ, Bool, false, not, ◌&&◌, ◌||◌, Option, none, some, List, [], ◌∷◌, leb, ◌==◌, if◌then◌else◌,
  length, Text, codes, text_eq, exists, update, ok, Flow, ◌>>◌, require, exec, transaction, failing,
  later, internal_error,
}
use aura_risk.Auth.{Device, forget_push}
use aura_risk.Risk.{has_prefix}
use aura_risk.Notifier.Worker.{Tables}

-- strings.HasSuffix
abbrev pub has_suffix : Text → Text → Bool
has_suffix [] suffix = text_eq [] suffix
has_suffix (c ∷ cs) suffix = text_eq (c ∷ cs) suffix || has_suffix cs suffix

-- services.IsExpoPushToken
unfoldable pub is_expo_push_token : Text → Bool
is_expo_push_token token =
    (has_prefix token (codes "ExponentPushToken[") || has_prefix token (codes "ExpoPushToken["))
    && has_suffix token (codes "]")
    && leb (length token) 200

abbrev pub has_push_token : Text → Device → Bool
has_push_token token d = elim d.push_token [ none ↦ false | some other ↦ text_eq other token ]

abbrev pub no_push : Device → Device
no_push d = record d { push_token = none; push_consented_at = none }

-- UPDATE devices SET push_token = NULL, push_consented_at = NULL WHERE push_token = $1 AND id <> $2
unfoldable pub take_from_others : Text → ℕ → List Device → List Device
take_from_others token device = update (λ d. has_push_token token d && not (d.id == device)) no_push

abbrev pub or_now : Option ℕ → ℕ → ℕ
or_now none now = now
or_now (some at) now = at

abbrev pub set_push : ℕ → Text → Device → Device
set_push now token d = record d {
  push_token = some token;
  push_consented_at = some (or_now d.push_consented_at now);
  last_seen_at = now;
}

abbrev pub give : ℕ → Text → ℕ → List Device → List Device
give now token device = update (λ d. d.id == device) (set_push now token)

-- The push_consented_at that the UPDATE returns.
abbrev pub consent_of : ℕ → ℕ → List Device → Option ℕ
consent_of now device [] = none
consent_of now device (d ∷ ds) =
    if d.id == device then some (or_now d.push_consented_at now) else consent_of now device ds

-- The column push_token is UNIQUE: whether the UPDATE would break that.
abbrev pub taken : Text → ℕ → List Device → Bool
taken token device = exists (λ d. has_push_token token d && not (d.id == device))

-- UPDATE devices SET push_token = $1, ... WHERE id = $2 RETURNING push_consented_at: no row is an
-- error too, since Scan then gives one.
unfoldable pub give_push : ℕ → Text → ℕ → Flow Tables ℕ
give_push now token device t f = elim (consent_of now device t.devices) [
  | none ↦ (internal_error, t, later f)
  | some at ↦
      if failing f || taken token device t.devices
      then (internal_error, t, later f)
      else (ok at, record t { devices = give now token device t.devices }, later f)
]

-- Whether the request says consent: true.
abbrev pub says_yes : Option Bool → Bool
says_yes none = false
says_yes (some consent) = consent

-- The transaction of RegisterPushToken.
unfoldable pub move_push : ℕ → Text → ℕ → Flow Tables ℕ
move_push now token device = transaction do
  exec (λ t. record t { devices = take_from_others token device t.devices })
  give_push now token device

-- RegisterPushToken
unfoldable pub register_push_token : ℕ → ℕ → Text → Option Bool → Flow Tables ℕ
register_push_token now device token consent = do
  require (says_yes consent) 400 "explicit consent is required to enable push notifications"
  require (is_expo_push_token token) 400 "push_token must be an Expo push token"
  move_push now token device

-- UnregisterPushToken
unfoldable pub unregister_push_token : ℕ → Flow Tables (Unit {0})
unregister_push_token device = exec λ t. record t { devices = forget_push device t.devices }
