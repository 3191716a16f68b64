-- ===== src/Notifier/Examples.antt =====
-- The notifier at concrete inputs.
use aura_risk.Base.{
  ℕ, ◌+◌, ◌-◌, ◌%◌, ◌/◌, ◌<◌, ◌≡◌, refl, ◌≢◌, ◌↔◌, true, false, Option, none, some, [], ◌∷◌, All,
  codes, Text, arith, map,
}
use aura_risk.Base.Int.{pos}
use aura_risk.Auth.{Device}
use aura_risk.Notifier.{
  Clock, QuietHours, Subscription, advisory, alert, emergency, quiet, validate, decide, notify,
  lower, reset, held_back, level_rank, last_rank, renotify_after, time_or_zero,
}
use aura_risk.Notifier.Worker.{Environment, Tables, delivered, run_once}
use aura_risk.Notifier.Deciding.{Reached, IsNews, decide_lem}
use aura_risk.Notifier.Windows.{IsClock, IsWindow, IsMinute, validate-quiet}
use aura_risk.Notifier.Sending.{IsAllowed, run_once-IsAllowed}

-- A clock time is one byte for the hour and one for the minute; every zone is three hours ahead.
abbrev parse_pair : Text → Option (ℕ × ℕ)
parse_pair (h ∷ m ∷ []) = some (h % 24, m % 60)
parse_pair _ = none

abbrev nairobi : Clock
nairobi = record { parse = parse_pair; local = λ z t. some ((t / 3600 + 3) % 24, t / 60 % 60) }

abbrev night : QuietHours
night = record { start = 22 ∷ 0 ∷ []; stop = 6 ∷ 30 ∷ []; timezone = codes "Africa/Nairobi" }

parse_pair_bounded : (v : Text) (h m : ℕ) → parse_pair v ≡ some (h, m) → (h < 24) × (m < 60)
parse_pair_bounded [] h m e = cc
parse_pair_bounded (a ∷ []) h m e = cc
parse_pair_bounded (a ∷ b ∷ []) h m e = ground arith
parse_pair_bounded (a ∷ b ∷ c ∷ v) h m e = cc

nairobi-IsClock : IsClock nairobi
nairobi-IsClock = record {
  parsed = parse_pair_bounded;
  shown = λ z t h m e. ground arith;
  known = λ z t h m e. ((t / 3600 + 3) % 24, t / 60 % 60, refl);
}

night_example :
    (start : ℕ) × (stop : ℕ) × IsWindow nairobi night start stop
    × ((t : ℕ)
        → (minute : ℕ) × IsMinute nairobi night.timezone t minute
          × ((quiet nairobi night t ≡ true)
              ↔ ((minute + 1440 - start) % 1440 < (stop + 1440 - start) % 1440)))
unfolding validate
night_example = validate-quiet nairobi night nairobi-IsClock refl

abbrev home : Subscription
home = record {
  id = 1;
  account_id = 5;
  name = codes "Home";
  place = record { lat = pos 0; lon = pos 34 };
  min_level = advisory;
  quiet_start = some night.start;
  quiet_end = some night.stop;
  quiet_timezone = some night.timezone;
  allow_emergency = true;
  last_level = some alert;
  last_at = some 1000;
}

decide_example :
    ((decide nairobi home emergency 2000 ≡ notify) ↔ (
      Reached home emergency
      × IsNews home emergency 2000
      × (held_back nairobi home emergency 2000 ≡ false)))
    × ((decide nairobi home emergency 2000 ≡ lower) ↔ (
        Reached home emergency
        × (level_rank emergency < last_rank home.last_level)
        × (2000 - time_or_zero home.last_at < renotify_after)))
    × ((decide nairobi home emergency 2000 ≡ reset)
        ↔ ((home.last_level ≢ none) × (level_rank emergency < level_rank home.min_level)))
decide_example = decide_lem nairobi home emergency 2000

abbrev phone : Device
phone = record {
  id = 3;
  account_id = 5;
  platform = 1;
  app_version = none;
  push_token = some (codes "ExponentPushToken");
  push_consented_at = some 10;
  last_seen_at = 10;
}

abbrev subscribed : Tables
subscribed = record { subscriptions = home ∷ []; devices = phone ∷ []; sent = [] }

abbrev storm : Environment
storm = record {
  clock = nairobi;
  key = λ p. 0;
  assess = λ i. some (record { level = emergency; score = 90; tips = []; stale = false });
  send = λ i ms. some (map (λ m. delivered) ms);
}

sending_example :
    All (IsAllowed nairobi 2000 (phone ∷ [])) (run_once storm 2000 true subscribed []).1.sent
sending_example = run_once-IsAllowed storm 2000 true subscribed [] refl
