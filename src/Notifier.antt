-- ===== src/Notifier.antt =====
-- aurarisk-backend/internal/workers/notifier.go and services/quiethours.go: alerts for subscribed
-- places. Times are seconds; the worker's clock and the database's NOW() are one clock. The texts of
-- a message are left out: a message holds what they are made of. Logging and metrics are left out.
pub mod Worker
pub mod Deciding
pub mod Windows
pub mod Sending
pub mod Keeping
mod Examples
use aura_risk.Base.{
  ℕ, ◌+◌, ◌-◌, ◌*◌, Bool, true, false, not, ◌&&◌, ◌||◌, Option, none, some, List, [], ◌∷◌, ltb, leb,
  ◌==◌, if◌then◌else◌, Text, exists, select, update, map, Map, empty, put, Result, ok, err, Flow,
  ◌>>=◌, ◌>>◌, return, query, exec, failing, later, internal_error, is_empty,
}
use aura_risk.Auth.{Device, forget_push}
use aura_risk.Curation.{Place}

-- Risk levels; `other` is any string that is none of them.
pub data Level : Type 0 where
  normal advisory alert emergency other : Level

-- LevelRank, plus one: an unknown level, which ranks at -1, has 0 here.
unfoldable pub level_rank : Level → ℕ
level_rank other = 0
level_rank normal = 1
level_rank advisory = 2
level_rank alert = 3
level_rank emergency = 4

-- LevelRank of a level that may be the empty string.
unfoldable pub last_rank : Option Level → ℕ
unfolding level_rank
last_rank none = 0
last_rank (some l) = level_rank l

pub record QuietHours : Type 0 where
  pub start : Text
  pub stop : Text
  pub timezone : Text

-- What the code asks of Go's time package: the hour and minute that time.Parse reads in a clock
-- time, and those of a time in a zone, if time.LoadLocation knows it.
pub record Clock : Type 0 where
  pub parse : Text → Option (ℕ × ℕ)
  pub local : Text → ℕ → Option (ℕ × ℕ)

-- parseClock
unfoldable pub parse_clock : Clock → Text → Option ℕ
parse_clock clock value = elim (clock.parse value) [ none ↦ none | some (h, m) ↦ some (h * 60 + m) ]

-- Validate: whether it gives no error.
unfoldable pub validate : Clock → QuietHours → Bool
unfolding parse_clock
validate clock q = elim (parse_clock clock q.start) [
  | none ↦ false
  | some start ↦ elim (parse_clock clock q.stop) [
    | none ↦ false
    | some stop ↦
        not (start == stop)
        && not (is_empty q.timezone)
        && elim (clock.local q.timezone 0) [ none ↦ false | some l ↦ true ]
  ]
]

-- The comparison that ends Contains.
unfoldable pub in_window : ℕ → ℕ → ℕ → Bool
in_window start stop minute =
    if ltb start stop
    then leb start minute && ltb minute stop
    else leb start minute || ltb minute stop

-- Contains
unfoldable pub quiet : Clock → QuietHours → ℕ → Bool
unfolding in_window
quiet clock q t = elim (parse_clock clock q.start) [
  | none ↦ false
  | some start ↦ elim (parse_clock clock q.stop) [
    | none ↦ false
    | some stop ↦ elim (clock.local q.timezone t) [
      | none ↦ false
      | some (h, m) ↦ in_window start stop (h * 60 + m)
    ]
  ]
]

-- location_subscriptions, as loadSubscriptions reads them.
pub record Subscription : Type 0 where
  pub id : ℕ
  pub account_id : ℕ
  pub name : Text
  pub place : Place
  pub min_level : Level
  pub quiet_start : Option Text
  pub quiet_end : Option Text
  pub quiet_timezone : Option Text
  pub allow_emergency : Bool
  pub last_level : Option Level
  pub last_at : Option ℕ

abbrev quiet_columns : Option Text → Option Text → Option Text → Option QuietHours
quiet_columns (some a) (some b) (some z) = some (record { start = a; stop = b; timezone = z })
quiet_columns _ _ _ = none

-- The quiet hours of a row: those of which no column is null.
unfoldable pub quiet_hours : Subscription → Option QuietHours
quiet_hours s = quiet_columns s.quiet_start s.quiet_end s.quiet_timezone

abbrev pub renotify_after : ℕ
renotify_after = 12 * 3600

pub data Verdict : Type 0 where
  nothing notify lower reset : Verdict

-- A null last_notified_at is read as Go's zero time.
abbrev pub time_or_zero : Option ℕ → ℕ
time_or_zero none = 0
time_or_zero (some t) = t

abbrev pub is_set {ℓ} : {A : Type ℓ} → Option A → Bool
is_set none = false
is_set (some a) = true

abbrev pub is_emergency : Level → Bool
is_emergency emergency = true
is_emergency _ = false

abbrev quiet_at : Clock → ℕ → Option QuietHours → Bool
quiet_at clock now none = false
quiet_at clock now (some q) = quiet clock q now

-- Whether the quiet hours hold an alert back.
unfoldable pub held_back : Clock → Subscription → Level → ℕ → Bool
unfolding quiet_hours
held_back clock sub level now =
    quiet_at clock now (quiet_hours sub) && not (is_emergency level && sub.allow_emergency)

-- decide
unfoldable pub decide : Clock → Subscription → Level → ℕ → Verdict
unfolding held_back level_rank last_rank
decide clock sub level now =
    if ltb (level_rank level) (level_rank sub.min_level)
    then (if is_set sub.last_level then reset else nothing)
    else if not (is_set sub.last_level)
        || ltb (last_rank sub.last_level) (level_rank level)
        || leb renotify_after (now - time_or_zero sub.last_at)
    then (if held_back clock sub level now then nothing else notify)
    else if ltb (level_rank level) (last_rank sub.last_level)
    then lower
    else nothing
