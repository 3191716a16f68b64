-- ===== src/Notifier/Keeping.antt =====
-- notifier.go: what a run keeps, from what its statements keep.
use aura_risk.Base.{
  logged, logged-Preserves, ℕ, Bool, true, false, Option, none, some, List, [], ◌∷◌, update, ◌==◌,
  Text, map, Map, empty, put, Preserves, bind-Preserves, query-Preserves, exec-Preserves, ◌>>◌,
  query, exec,
}
use aura_risk.Auth.{forget_push}
use aura_risk.Notifier.{Level, Subscription, Verdict, nothing, notify, lower, reset, decide}
use aura_risk.Notifier.Worker.{
  Assessment, Ticket, delivered, device_gone, failed, PushMessage, Tables, Environment,
  load_subscriptions, alert_message, addresses, note_level, set_last_notified, read_tickets,
  settle_notify, record_sent, after_send, send_to, notify_devices, drop_last, act, assessment_of,
  visit_all, run_once,
}

-- What the statements of a run, and its calls of the push service, do not break.
pub record IsStable (P : Tables → Type 0) : Type 0 where
  pub noted :
      (now sub : ℕ) (level : Level) (touch_time : Bool) (t : Tables)
      → P t
      → P (record t {
        subscriptions = update (λ s. s.id == sub) (note_level now level touch_time) t.subscriptions;
      })
  pub dropped : (sub : ℕ) (t : Tables) → P t → P (drop_last sub t)
  pub forgot :
      (device : ℕ) (t : Tables) → P t → P (record t { devices = forget_push device t.devices })
  pub told :
      (sub : Subscription) (a : Assessment) (messages : List PushMessage)
      → Preserves P (record_sent sub a messages)

module _ (P : Tables → Type 0) (stable : IsStable P) (env : Environment) (now : ℕ) where
  set_last_notified-Preserves :
      (sub : ℕ) (level : Level) (touch_time : Bool)
      → Preserves P (set_last_notified now sub level touch_time)
  unfolding set_last_notified
  set_last_notified-Preserves sub level touch_time =
      logged-Preserves P _ (exec-Preserves P _ (stable.noted now sub level touch_time))

  read_tickets-Preserves :
      (to : List (ℕ × Text)) (ts : List Ticket) (done : Bool)
      → Preserves P (read_tickets to ts done)
  unfolding read_tickets
  read_tickets-Preserves to [] done = λ t f p. p
  read_tickets-Preserves [] (x ∷ ts) done = λ t f p. p
  read_tickets-Preserves (d ∷ ds) (delivered ∷ ts) done = read_tickets-Preserves ds ts true
  read_tickets-Preserves (d ∷ ds) (failed ∷ ts) done = read_tickets-Preserves ds ts done
  read_tickets-Preserves (d ∷ ds) (device_gone ∷ ts) done =
      bind-Preserves P (logged (exec λ t. record t { devices = forget_push d.0 t.devices })) _
        (logged-Preserves P _ (exec-Preserves P _ (stable.forgot d.0)))
        (λ _. read_tickets-Preserves ds ts done)

  settle_notify-Preserves :
      (sub : Subscription) (level : Level) (done : Bool)
      → Preserves P (settle_notify now sub level done)
  settle_notify-Preserves sub level true = set_last_notified-Preserves sub.id level true
  settle_notify-Preserves sub level false = λ t f p. p

  after_send-Preserves :
      (sub : Subscription) (level : Level) (to : List (ℕ × Text)) (tickets : Option (List Ticket))
      → Preserves P (after_send now sub level to tickets)
  after_send-Preserves sub level to none = λ t f p. p
  after_send-Preserves sub level to (some tickets) =
      bind-Preserves P (read_tickets to tickets false) (settle_notify now sub level)
        (read_tickets-Preserves to tickets false) (settle_notify-Preserves sub level)

  send_to-Preserves :
      (sub : Subscription) (a : Assessment) (to : List (ℕ × Text))
      → Preserves P (send_to env now sub a to)
  unfolding send_to
  send_to-Preserves sub a [] = λ t f p. p
  send_to-Preserves sub a (x ∷ more) =
      let messages = map (λ (d : ℕ × Text). alert_message sub a d.1) (x ∷ more) in
      bind-Preserves P (record_sent sub a messages)
        (λ _. after_send now sub a.level (x ∷ more) (env.send sub.id messages))
        (stable.told sub a messages)
        (λ _. after_send-Preserves sub a.level (x ∷ more) (env.send sub.id messages))

  act-Preserves :
      (sub : Subscription) (a : Assessment) (v : Verdict) → Preserves P (act env now sub a v)
  unfolding act notify_devices
  act-Preserves sub a nothing = λ t f p. p
  act-Preserves sub a notify = logged-Preserves P _ (
      bind-Preserves P (query (λ t. addresses sub.account_id t.devices)) (send_to env now sub a)
        (query-Preserves P (λ t. addresses sub.account_id t.devices)) (send_to-Preserves sub a))
  act-Preserves sub a lower = set_last_notified-Preserves sub.id a.level false
  act-Preserves sub a reset = logged-Preserves P _ (exec-Preserves P _ (stable.dropped sub.id))

  visit_all-Preserves :
      (cache : Map Assessment) (subs : List Subscription)
      → Preserves P (visit_all env now cache subs)
  unfolding visit_all
  visit_all-Preserves cache [] = λ t f p. p
  visit_all-Preserves cache (sub ∷ subs) =
      elim (assessment_of env cache sub)
        as (λ o. Preserves P (elim o [
          | none ↦ visit_all env now cache subs
          | some a ↦
              act env now sub a (decide env.clock sub a.level now)
              >> visit_all env now (put (env.key sub.place) a cache) subs
        ])) [
          | none ↦ visit_all-Preserves cache subs
          | some a ↦
              bind-Preserves P (act env now sub a (decide env.clock sub a.level now))
                (λ _. visit_all env now (put (env.key sub.place) a cache) subs)
                (act-Preserves sub a (decide env.clock sub a.level now))
                (λ _. visit_all-Preserves (put (env.key sub.place) a cache) subs)
        ]

  -- A run of the notifier keeps what its statements keep.
  pub run_once-Preserves : (free : Bool) → Preserves P (run_once env now free)
  unfolding run_once
  run_once-Preserves false = λ t f p. p
  run_once-Preserves true =
      bind-Preserves P (query load_subscriptions) (visit_all env now empty)
        (query-Preserves P load_subscriptions) (visit_all-Preserves empty)
