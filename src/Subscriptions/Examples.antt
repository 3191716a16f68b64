-- ===== src/Subscriptions/Examples.antt =====
-- Subscriptions and push tokens at concrete inputs.
use aura_risk.Base.{
  ℕ, ◌≡◌, refl, Bool, true, false, none, some, List, [], ◌∷◌, ◌⊎◌, Text, codes, find, ok, arith,
}
use aura_risk.Base.Int.{pos, negsuc}
use aura_risk.Auth.{Device}
use aura_risk.Notifier.{
  Clock, advisory, alert, Subscription, decide, notify, held_back, level_rank, quiet_hours,
}
use aura_risk.Notifier.Worker.{Tables}
use aura_risk.Subscriptions.{
  SubscriptionInput, checked, changed, mine, update_subscription, unmoved,
}
use aura_risk.Subscriptions.Devices.{is_expo_push_token, register_push_token}
use aura_risk.Subscriptions.Requests.{IsKept}
use aura_risk.Subscriptions.Kept.{
  Operation, creates, updates, deletes, registers, operate_all, operate_all-IsKept,
}
use aura_risk.Subscriptions.Alerting.{stays, update_subscription-decide}
use aura_risk.Subscriptions.Registered.{IsRegistered, register_push_token-IsRegistered}

-- A clock that knows no times.
abbrev no_clock : Clock
no_clock = record { parse = λ text. none; local = λ zone t. none }

abbrev home : SubscriptionInput
home = record {
  name = codes " Home ";
  lat = some (negsuc 1_292_065);
  lon = some (pos 36_821_946);
  min_level = advisory;
  quiet_hours = none;
  allow_emergency = true;
}

abbrev moved_home : SubscriptionInput
moved_home = record home { lat = some (negsuc 4_043_476); lon = some (pos 39_668_206) }

abbrev home_id : Text
home_id = codes "00000000-0000-0000-0000-00000000000a"

abbrev token : Text
token = codes "ExponentPushToken[abc]"

abbrev device : ℕ → Device
device n = record {
  id = n;
  account_id = 1;
  platform = 0;
  app_version = none;
  push_token = none;
  push_consented_at = none;
  last_seen_at = 0;
}

abbrev two_devices : Tables
two_devices = record { subscriptions = []; devices = device 1 ∷ device 2 ∷ []; sent = [] }

two_devices-IsKept : IsKept no_clock two_devices
two_devices-IsKept = record {
  listed = record { distinct = tt; limited = λ account. omega arith; stored = tt };
  owned = record {
    distinct = (refl, (refl, tt));
    unshared = λ t. omega arith;
    consented = (refl, (refl, tt));
  };
}

abbrev requests : List (Operation × List Bool)
requests =
    (creates 7 1 home, [])
    ∷ (registers 100 1 token (some true), [])
    ∷ (registers 200 2 token (some true), [])
    ∷ (updates home_id 1 moved_home, [])
    ∷ (deletes home_id 1, true ∷ [])
    ∷ []

requests_example : IsKept no_clock (operate_all no_clock (λ param. 7) requests two_devices)
requests_example = operate_all-IsKept no_clock (λ param. 7) requests two_devices two_devices-IsKept

-- The row of the first request, as an alert has left it.
abbrev alerted : Subscription
alerted = record {
  id = 7;
  account_id = 1;
  name = codes "Home";
  place = record { lat = negsuc 1_292_065; lon = pos 36_821_946 };
  min_level = advisory;
  quiet_start = none;
  quiet_end = none;
  quiet_timezone = none;
  allow_emergency = true;
  last_level = some alert;
  last_at = some 1000;
}

abbrev one_row : Tables
one_row = record { subscriptions = alerted ∷ []; devices = []; sent = [] }

abbrev moved_row : Subscription
moved_row = record alerted {
  place = record { lat = negsuc 4_043_476; lon = pos 39_668_206 };
  last_level = none;
  last_at = none;
}

moves : (update_subscription no_clock (λ param. 7) home_id 1 moved_home one_row []).0 ≡ ok moved_row
unfolding update_subscription checked changed unmoved level_rank
moves = refl

decide_after_move :
    (s : Subscription) × (find (mine 7 1) one_row.subscriptions ≡ some s)
    × (((stays s moved_row ≡ true)
          × (moved_row.last_level ≡ s.last_level)
          × (moved_row.last_at ≡ s.last_at))
        ⊎ ((stays s moved_row ≡ false) × (decide no_clock moved_row advisory 1500 ≡ notify)))
unfolding level_rank held_back quiet_hours
decide_after_move =
    update_subscription-decide no_clock (λ param. 7) home_id 1 moved_home one_row [] moved_row
      advisory 1500 moves refl refl

token_example :
    IsRegistered token 2
      (register_push_token 300 2 token (some true) two_devices []).0
      (register_push_token 300 2 token (some true) two_devices []).1.devices
unfolding is_expo_push_token
token_example = register_push_token-IsRegistered 300 2 token two_devices refl refl
