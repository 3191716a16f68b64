-- ===== src/Notifier/Worker.antt =====
-- notifier.go: a run of the notifier. The context is not cancelled.
use aura_risk.Base.{
  logged, ℕ, Bool, true, false, ◌&&◌, Option, none, some, List, [], ◌∷◌, ◌==◌, if◌then◌else◌, Text,
  exists, select, update, map, Map, empty, put, ok, Flow, ◌>>=◌, ◌>>◌, return, query, exec,
  internal_error,
}
use aura_risk.Auth.{Device, forget_push}
use aura_risk.Curation.{Place}
use aura_risk.Notifier.{
  Level, Clock, Subscription, Verdict, nothing, notify, lower, reset, decide, is_set,
}

-- The fields of models.RiskAssessment that the notifier reads.
pub record Assessment : Type 0 where
  pub level : Level
  pub score : ℕ
  pub tips : List Text
  pub stale : Bool

-- services.PushMessage, by what alertMessage makes it of.
pub record PushMessage : Type 0 where
  pub token : Text
  pub name : Text
  pub subscription_id : ℕ
  pub level : Level
  pub score : ℕ
  pub tip : Option Text
  pub place : Place

-- services.PushTicket: its status is "ok", the device is gone, or another error.
pub data Ticket : Type 0 where
  delivered device_gone failed : Ticket

-- A call of Push.Send: the subscription, its assessment, and the messages.
pub record Sent : Type 0 where
  pub sub : Subscription
  pub assessment : Assessment
  pub messages : List PushMessage

pub record Tables : Type 0 where
  pub subscriptions : List Subscription
  pub devices : List Device
  pub sent : List Sent

-- What the notifier is given: a time library, the key that rounds coordinates to two decimals, the
-- assessor's answer and the push service's, for each subscription.
pub record Environment : Type 0 where
  pub clock : Clock
  pub key : Place → ℕ
  pub assess : ℕ → Option Assessment
  pub send : ℕ → List PushMessage → Option (List Ticket)

abbrev pub consents : Device → Bool
consents d = is_set d.push_token && is_set d.push_consented_at

-- loadSubscriptions
abbrev pub load_subscriptions : Tables → List Subscription
load_subscriptions t =
    select (λ s. exists (λ d. d.account_id == s.account_id && consents d) t.devices) t.subscriptions

abbrev pub first_tip : List Text → Option Text
first_tip [] = none
first_tip (t ∷ ts) = some t

abbrev pub alert_message : Subscription → Assessment → Text → PushMessage
alert_message sub assessment token = record {
  token = token;
  name = sub.name;
  subscription_id = sub.id;
  level = assessment.level;
  score = assessment.score;
  tip = first_tip assessment.tips;
  place = sub.place;
}

-- The id and the token of a device that the query of notify selects.
abbrev pub address : Device → List (ℕ × Text) → List (ℕ × Text)
address d more = elim d.push_token [ none ↦ more | some token ↦ (d.id, token) ∷ more ]

unfoldable pub addresses : ℕ → List Device → List (ℕ × Text)
addresses account [] = []
addresses account (d ∷ ds) =
    let more = addresses account ds in
    if d.account_id == account && is_set d.push_consented_at then address d more else more

abbrev pub touched : Bool → ℕ → Option ℕ → Option ℕ
touched true now last = some now
touched false now last = last

abbrev pub note_level : ℕ → Level → Bool → Subscription → Subscription
note_level now level touch_time s = record s {
  last_level = some level;
  last_at = touched touch_time now s.last_at;
}

-- setLastNotified
unfoldable pub set_last_notified : ℕ → ℕ → Level → Bool → Flow Tables (Unit {0})
set_last_notified now sub level touch_time = logged (
    exec λ t. record t {
      subscriptions = update (λ s. s.id == sub) (note_level now level touch_time) t.subscriptions;
    })

abbrev clear_push : ℕ → Flow Tables (Unit {0})
clear_push d = logged (exec λ t. record t { devices = forget_push d t.devices })

-- The loop over the tickets: whether one was delivered. There is a ticket for each message; where
-- there were more, the source would index past the devices, and the loop ends here.
unfoldable pub read_tickets : List (ℕ × Text) → List Ticket → Bool → Flow Tables Bool
read_tickets ds [] done = return done
read_tickets [] (t ∷ ts) done = return done
read_tickets (d ∷ ds) (delivered ∷ ts) done = read_tickets ds ts true
read_tickets (d ∷ ds) (device_gone ∷ ts) done = do clear_push d.0; read_tickets ds ts done
read_tickets (d ∷ ds) (failed ∷ ts) done = read_tickets ds ts done

abbrev pub settle_notify : ℕ → Subscription → Level → Bool → Flow Tables (Unit {0})
settle_notify now sub level true = set_last_notified now sub.id level true
settle_notify now sub level false = return tt

abbrev pub record_sent : Subscription → Assessment → List PushMessage → Flow Tables (Unit {0})
record_sent sub assessment messages t f = (
  ok tt,
  record t { sent = record { sub = sub; assessment = assessment; messages = messages } ∷ t.sent },
  f,
)

abbrev pub after_send :
    ℕ → Subscription → Level → List (ℕ × Text) → Option (List Ticket) → Flow Tables (Unit {0})
after_send now sub level to none = λ t f. (internal_error, t, f)
after_send now sub level to (some tickets) = do
  done ← read_tickets to tickets false
  settle_notify now sub level done

-- notify, once the devices are read.
unfoldable pub send_to :
    Environment → ℕ → Subscription → Assessment → List (ℕ × Text) → Flow Tables (Unit {0})
send_to env now sub assessment [] = return tt
send_to env now sub assessment (a ∷ more) = do
  let messages = map (λ d. alert_message sub assessment d.1) (a ∷ more)
  record_sent sub assessment messages
  after_send now sub assessment.level (a ∷ more) (env.send sub.id messages)

-- notify
unfoldable pub notify_devices : Environment → ℕ → Subscription → Assessment → Flow Tables (Unit {0})
notify_devices env now sub assessment = do
  to ← query (λ t. addresses sub.account_id t.devices)
  send_to env now sub assessment to

abbrev pub forget_level : Subscription → Subscription
forget_level s = record s { last_level = none; last_at = none }

abbrev pub drop_last : ℕ → Tables → Tables
drop_last sub t = record t {
  subscriptions = update (λ s. s.id == sub) forget_level t.subscriptions;
}

-- The switch of RunOnce.
unfoldable pub act : Environment → ℕ → Subscription → Assessment → Verdict → Flow Tables (Unit {0})
act env now sub assessment nothing = return tt
act env now sub assessment notify = logged (notify_devices env now sub assessment)
act env now sub assessment lower = set_last_notified now sub.id assessment.level false
act env now sub assessment reset = logged (exec (drop_last sub.id))

-- The assessment of a subscription: the run's for the place, or a new one that is not stale.
unfoldable pub fresh : Option Assessment → Option Assessment
fresh none = none
fresh (some a) = if a.stale then none else some a

unfoldable pub assessment_of : Environment → Map Assessment → Subscription → Option Assessment
unfolding fresh
assessment_of env cache sub = elim (cache (env.key sub.place)) [
  | none ↦ fresh (env.assess sub.id)
  | some a ↦ some a
]

-- The loop of RunOnce.
unfoldable pub visit_all :
    Environment → ℕ → Map Assessment → List Subscription → Flow Tables (Unit {0})
visit_all env now cache [] = return tt
visit_all env now cache (sub ∷ subs) = elim (assessment_of env cache sub) [
  | none ↦ visit_all env now cache subs
  | some a ↦
      act env now sub a (decide env.clock sub a.level now)
      >> visit_all env now (put (env.key sub.place) a cache) subs
]

-- RunOnce, given whether the advisory lock was free.
unfoldable pub run_once : Environment → ℕ → Bool → Flow Tables (Unit {0})
run_once env now false = return tt
run_once env now true = do subs ← query load_subscriptions; visit_all env now empty subs
