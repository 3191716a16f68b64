-- ===== src/Subscriptions.antt =====
-- aurarisk-backend/internal/handlers/subscriptions.go and handlers/devices.go: the places that an
-- account is alerted about, and its devices' push tokens, over the notifier's tables. A statement of
-- the database is one step; a request's context is not cancelled. Places are micro-degrees, texts
-- are ASCII. A request is taken as it is decoded, and the text of a quiet hours' error is left out.
pub mod Devices
pub mod Checks
pub mod Owned
pub mod Listed
pub mod Requests
pub mod Kept
pub mod Alerting
pub mod Registered
mod Examples
use aura_risk.Base.{
  ℕ, zero, suc, ◌+◌, ◌-◌, ◌*◌, Bool, true, false, not, ◌&&◌, ◌||◌, Option, none, some, List, [],
  ◌∷◌, ◌++◌, ltb, leb, ◌==◌, if◌then◌else◌, length, Text, String, is_empty, exists, find, select,
  count_rows, update, delete, Result, ok, err, Flow, ◌>>=◌, ◌>>◌, return, respond_error, query,
  exec_returning, failing, later, internal_error,
}
use aura_risk.Base.Int.{ℤ, pos, negsuc, ltb_ℤ}
use aura_risk.Curation.{Place}
use aura_risk.Channels.{trim_space}
use aura_risk.Notifier.{
  Level, normal, advisory, alert, emergency, other, Clock, QuietHours, Subscription, validate,
  level_rank,
}
use aura_risk.Notifier.Worker.{Tables}

abbrev pub max_subscriptions_per_account : ℕ
max_subscriptions_per_account = 10

-- uuidPattern: which of its places are hexadecimal digits.
abbrev pub digits : ℕ → List Bool → List Bool
digits zero more = more
digits (suc n) more = true ∷ digits n more

abbrev pub uuid_places : List Bool
uuid_places =
    digits 8 (false ∷ digits 4 (false ∷ digits 4 (false ∷ digits 4 (false ∷ digits 12 []))))

abbrev pub is_hex : ℕ → Bool
is_hex c = leb 48 c && leb c 57 || leb 97 c && leb c 102 || leb 65 c && leb c 70

abbrev pub fits : List Bool → Text → Bool
fits [] [] = true
fits [] (c ∷ cs) = false
fits (digit ∷ ds) [] = false
fits (digit ∷ ds) (c ∷ cs) = (if digit then is_hex c else c == 45) && fits ds cs

abbrev pub match_uuid : Text → Bool
match_uuid = fits uuid_places

-- subscribableLevels
abbrev pub subscribable : Level → Bool
subscribable advisory = true
subscribable alert = true
subscribable emergency = true
subscribable _ = false

-- subscriptionInput
pub record SubscriptionInput : Type 0 where
  pub name : Text
  pub lat : Option ℤ
  pub lon : Option ℤ
  pub min_level : Level
  pub quiet_hours : Option QuietHours
  pub allow_emergency : Bool

-- A nil pointer, or a number outside -degrees and degrees.
abbrev pub outside : ℕ → Option ℤ → Bool
outside degrees none = true
outside degrees (some x) =
    ltb_ℤ x (negsuc (degrees * 1000000 - 1)) || ltb_ℤ (pos (degrees * 1000000)) x

abbrev pub valid_hours : Clock → Option QuietHours → Bool
valid_hours clock none = true
valid_hours clock (some q) = validate clock q

-- The name that validate leaves.
abbrev pub named : SubscriptionInput → SubscriptionInput
named input = record input { name = trim_space input.name }

abbrev pub faults : Clock → SubscriptionInput → Option String
faults clock input =
    if is_empty input.name || ltb 100 (length input.name)
    then some "name must be 1-100 characters"
    else if outside 90 input.lat
    then some "lat must be between -90 and 90"
    else if outside 180 input.lon
    then some "lon must be between -180 and 180"
    else if not (subscribable input.min_level)
    then some "min_level must be Advisory, Alert, or Emergency"
    else if not (valid_hours clock input.quiet_hours)
    then some "quiet hours"
    else none

-- validate, which gives the input with the name it leaves.
unfoldable pub checked : Clock → SubscriptionInput → Result SubscriptionInput
checked clock input = elim (faults clock (named input)) [
  | none ↦ ok (named input)
  | some m ↦ err 400 m
]

abbrev pub answer_with : {T A : Type 0} → Result A → Flow T A
answer_with r t f = (r, t, f)

-- *in.Lat and *in.Lon; a nil pointer would panic, which is answered as an internal error.
abbrev pub place_of : SubscriptionInput → Result Place
place_of input = elim input.lat [
  | none ↦ internal_error
  | some lat ↦ elim input.lon [
    | none ↦ internal_error
    | some lon ↦ ok (record { lat = lat; lon = lon })
  ]
]

-- The three columns of quietColumns.
abbrev pub quiet_start_of : Option QuietHours → Option Text
quiet_start_of none = none
quiet_start_of (some q) = some q.start

abbrev pub quiet_end_of : Option QuietHours → Option Text
quiet_end_of none = none
quiet_end_of (some q) = some q.stop

abbrev pub timezone_of : Option QuietHours → Option Text
timezone_of none = none
timezone_of (some q) = some q.timezone

abbrev pub new_subscription : ℕ → ℕ → SubscriptionInput → Place → Subscription
new_subscription id account input place = record {
  id = id;
  account_id = account;
  name = input.name;
  place = place;
  min_level = input.min_level;
  quiet_start = quiet_start_of input.quiet_hours;
  quiet_end = quiet_end_of input.quiet_hours;
  quiet_timezone = timezone_of input.quiet_hours;
  allow_emergency = input.allow_emergency;
  last_level = none;
  last_at = none;
}

abbrev pub of_account : ℕ → Subscription → Bool
of_account account s = s.account_id == account

abbrev pub has_room : ℕ → Tables → Bool
has_room account t =
    ltb (count_rows (of_account account) t.subscriptions) max_subscriptions_per_account

abbrev pub with_subscription : Subscription → Tables → Tables
with_subscription s t = record t { subscriptions = t.subscriptions ++ (s ∷ []) }

-- INSERT ... SELECT ... WHERE (SELECT COUNT( * ) ...) < $10 RETURNING: no row where there is no room,
-- and an error where the new id is taken.
unfoldable pub insert_subscription : Subscription → Flow Tables (Option Subscription)
insert_subscription s t f =
    if failing f
    then (internal_error, t, later f)
    else if not (has_room s.account_id t)
    then (ok none, t, later f)
    else if exists (λ r. r.id == s.id) t.subscriptions
    then (internal_error, t, later f)
    else (ok (some s), with_subscription s t, later f)

abbrev pub row_or : ℕ → String → Option Subscription → Flow Tables Subscription
row_or status message none = respond_error status message
row_or status message (some s) = return s

-- CreateSubscription, given the id that the database makes up.
unfoldable pub create_subscription : Clock → ℕ → ℕ → SubscriptionInput → Flow Tables Subscription
create_subscription clock id account input = do
  valid ← answer_with (checked clock input)
  place ← answer_with (place_of valid)
  row ← insert_subscription (new_subscription id account valid place)
  row_or 409 "subscription limit reached" row

abbrev pub same_ℤ : ℤ → ℤ → Bool
same_ℤ a b = not (ltb_ℤ a b) && not (ltb_ℤ b a)

-- lat = $4 AND lon = $5 AND min_level = $6; a level that is none of the four is not stored.
unfoldable pub unmoved : SubscriptionInput → Place → Subscription → Bool
unfolding level_rank
unmoved input place s =
    same_ℤ s.place.lat place.lat
    && same_ℤ s.place.lon place.lon
    && level_rank s.min_level == level_rank input.min_level

-- The SET clause of the UPDATE.
unfoldable pub changed : SubscriptionInput → Place → Subscription → Subscription
changed input place s = record s {
  name = input.name;
  place = place;
  min_level = input.min_level;
  quiet_start = quiet_start_of input.quiet_hours;
  quiet_end = quiet_end_of input.quiet_hours;
  quiet_timezone = timezone_of input.quiet_hours;
  allow_emergency = input.allow_emergency;
  last_level = if unmoved input place s then s.last_level else none;
  last_at = if unmoved input place s then s.last_at else none;
}

-- WHERE id = $1 AND account_id = $2
abbrev pub mine : ℕ → ℕ → Subscription → Bool
mine id account s = s.id == id && s.account_id == account

abbrev pub change_row : ℕ → ℕ → SubscriptionInput → Place → Tables → Tables
change_row id account input place t = record t {
  subscriptions = update (mine id account) (changed input place) t.subscriptions;
}

-- The row that the UPDATE returns.
abbrev pub changed_row : ℕ → ℕ → SubscriptionInput → Place → Tables → Option Subscription
changed_row id account input place t =
    find (mine id account) (change_row id account input place t).subscriptions

-- UpdateSubscription; the database reads a UUID's text as an id.
unfoldable pub update_subscription :
    Clock → (Text → ℕ) → Text → ℕ → SubscriptionInput → Flow Tables Subscription
update_subscription clock uuid param account input =
    if not (match_uuid param) then respond_error 404 "subscription not found" else do
      valid ← answer_with (checked clock input)
      place ← answer_with (place_of valid)
      row ←
          exec_returning (changed_row (uuid param) account valid place)
            (change_row (uuid param) account valid place)
      row_or 404 "subscription not found" row

abbrev pub drop_row : ℕ → ℕ → Tables → Tables
drop_row id account t = record t { subscriptions = delete (mine id account) t.subscriptions }

-- RowsAffected is 0, or not.
abbrev pub gone_or : Bool → Flow Tables (Unit {0})
gone_or true = return tt
gone_or false = respond_error 404 "subscription not found"

-- DeleteSubscription
unfoldable pub delete_subscription : (Text → ℕ) → Text → ℕ → Flow Tables (Unit {0})
delete_subscription uuid param account =
    if not (match_uuid param) then respond_error 404 "subscription not found" else do
      there ←
          exec_returning (λ t. exists (mine (uuid param) account) t.subscriptions)
            (drop_row (uuid param) account)
      gone_or there

-- ListSubscriptions: the rows are in the order of their creation.
unfoldable pub list_subscriptions : ℕ → Flow Tables (List Subscription)
list_subscriptions account = query λ t. select (of_account account) t.subscriptions
