-- ===== src/Notifier/Sending.antt =====
-- notifier.go: what a run sends, and to whom.
use aura_risk.Base.{
  logged, logged-Preserves, ℕ, ◌≡◌, refl, inl, inr, subst, ◌∙◌, Bool, true, false, ◌&&◌, Option,
  none, some, List, [], ◌∷◌, map, ◌==◌, if◌then◌else◌, Text, text_eq, text_eq_refl, some_eq,
  failing, later, exists, All, All-imp, All-update, Map, empty, put, Flow, Preserves,
  bind-Preserves, query-Preserves, exec-Preserves, ◌>>◌, query, exec, arith, Bool-cases,
  Option-cases,
}
use aura_risk.Auth.{Device, forget_push}
use aura_risk.Notifier.{
  Level, Clock, Subscription, Verdict, nothing, notify, lower, reset, decide, is_set,
}
use aura_risk.Notifier.Worker.{
  Assessment, Ticket, delivered, device_gone, failed, Sent, Tables, Environment, load_subscriptions,
  alert_message, addresses, set_last_notified, read_tickets, settle_notify, record_sent, after_send,
  send_to, notify_devices, drop_last, act, fresh, assessment_of, visit_all, run_once,
}

abbrev pub has_token : Text → Option Text → Bool
has_token token none = false
has_token token (some other) = text_eq token other

-- One of the devices is the account's, has the push token, and consented.
abbrev pub Held : List Device → ℕ → Text → Type 0
Held ds account token =
    exists
      (λ d. d.account_id == account && has_token token d.push_token && is_set d.push_consented_at)
      ds
    ≡ true

-- What a call of the push service may be in a run at `now`.
pub record IsAllowed (clock : Clock) (now : ℕ) (start : List Device) (s : Sent) : Type 0 where
  pub decided : decide clock s.sub s.assessment.level now ≡ notify
  pub live : s.assessment.stale ≡ false
  pub held : All (λ m. Held start s.sub.account_id m.token) s.messages

module _ (env : Environment) (now : ℕ) (start : List Device) where
  -- A device with a token that consents was one at the start.
  abbrev Backed : Device → Type 0
  Backed d =
      (token : Text)
      → d.push_token ≡ some token
      → is_set d.push_consented_at ≡ true
      → Held start d.account_id token

  record IsRunning (t : Tables) : Type 0 where
    sent : All (IsAllowed env.clock now start) t.sent
    backed : All Backed t.devices

  abbrev Reach : ℕ → List (ℕ × Text) → Type 0
  Reach account = All (λ d. Held start account d.1)

  addresses-Reach :
      (account : ℕ) (ds : List Device) → All Backed ds → Reach account (addresses account ds)
  unfolding addresses
  addresses-Reach account [] b = tt
  addresses-Reach account (d ∷ ds) b =
      elim (Bool-cases (d.account_id == account && is_set d.push_consented_at)) [
        | inr other ↦ rw other (addresses-Reach account ds b.1)
        | inl mine ↦ rw mine (elim (Option-cases d.push_token) [
          | inl e ↦ rw e (addresses-Reach account ds b.1)
          | inr (token, e) ↦ rw e (
            subst (λ a. Held start a token) (ground arith) (b.0 token e (ground arith)),
            addresses-Reach account ds b.1,
          )
        ])
      ]

  forgotten-Backed :
      (d : Device) → Backed (record d { push_token = none; push_consented_at = none })
  forgotten-Backed d token e c = cc

  forget_push-Backed : (i : ℕ) (ds : List Device) → All Backed ds → All Backed (forget_push i ds)
  unfolding forget_push
  forget_push-Backed i ds b =
      All-update Backed (λ v. v.id == i) _ ds (λ d _ _. forgotten-Backed d) b

  set_last_notified-IsRunning :
      (sub : ℕ) (level : Level) (touch_time : Bool)
      → Preserves IsRunning (set_last_notified now sub level touch_time)
  unfolding set_last_notified
  set_last_notified-IsRunning sub level touch_time =
      logged-Preserves IsRunning _
        (exec-Preserves IsRunning _ λ t r. record { sent = r.sent; backed = r.backed })

  read_tickets-IsRunning :
      (to : List (ℕ × Text)) (ts : List Ticket) (done : Bool)
      → Preserves IsRunning (read_tickets to ts done)
  unfolding read_tickets
  read_tickets-IsRunning to [] done t f r = r
  read_tickets-IsRunning [] (x ∷ ts) done t f r = r
  read_tickets-IsRunning (d ∷ ds) (delivered ∷ ts) done t f r =
      read_tickets-IsRunning ds ts true t f r
  read_tickets-IsRunning (d ∷ ds) (failed ∷ ts) done t f r = read_tickets-IsRunning ds ts done t f r
  read_tickets-IsRunning (d ∷ ds) (device_gone ∷ ts) done t f r =
      bind-Preserves IsRunning (logged (exec λ t. record t { devices = forget_push d.0 t.devices }))
        _
        (logged-Preserves IsRunning _ (
          exec-Preserves IsRunning _
            λ t r. record { sent = r.sent; backed = forget_push-Backed d.0 t.devices r.backed }))
        (λ _. read_tickets-IsRunning ds ts done) t f r

  after_send-IsRunning :
      (sub : Subscription) (level : Level) (to : List (ℕ × Text)) (tickets : Option (List Ticket))
      → Preserves IsRunning (after_send now sub level to tickets)
  after_send-IsRunning sub level to none t f r = r
  after_send-IsRunning sub level to (some tickets) t f r =
      bind-Preserves IsRunning (read_tickets to tickets false) (settle_notify now sub level)
        (read_tickets-IsRunning to tickets false) settled t f r
    where
      settled : (done : Bool) → Preserves IsRunning (settle_notify now sub level done)
      settled true t f r = set_last_notified-IsRunning sub.id level true t f r
      settled false t f r = r

  messages-Held :
      (sub : Subscription) (a : Assessment) (to : List (ℕ × Text))
      → Reach sub.account_id to
      → All (λ m. Held start sub.account_id m.token) (map (λ d. alert_message sub a d.1) to)
  messages-Held sub a [] h = tt
  messages-Held sub a (d ∷ ds) h = (h.0, messages-Held sub a ds h.1)

  send_to-IsRunning :
      (sub : Subscription) (a : Assessment) (to : List (ℕ × Text))
      → decide env.clock sub a.level now ≡ notify
      → a.stale ≡ false
      → Reach sub.account_id to
      → Preserves IsRunning (send_to env now sub a to)
  unfolding send_to
  send_to-IsRunning sub a [] d l h t f r = r
  send_to-IsRunning sub a (x ∷ more) d l h t f r =
      let messages = map (λ d. alert_message sub a d.1) (x ∷ more) in
      after_send-IsRunning sub a.level (x ∷ more) (env.send sub.id messages)
        (record_sent sub a messages t f).1 f
        (record {
          sent =
              (record { decided = d; live = l; held = messages-Held sub a (x ∷ more) h }, r.sent);
          backed = r.backed;
        })

  notify_devices-IsRunning :
      (sub : Subscription) (a : Assessment)
      → decide env.clock sub a.level now ≡ notify
      → a.stale ≡ false
      → Preserves IsRunning (notify_devices env now sub a)
  unfolding notify_devices
  notify_devices-IsRunning sub a d l t f r = elim (Bool-cases (failing f)) [
    | inl bad ↦ rw bad r
    | inr good ↦ rw good (
        send_to-IsRunning sub a (addresses sub.account_id t.devices) d l
          (addresses-Reach sub.account_id t.devices r.backed) t (later f) r)
  ]

  act-IsRunning :
      (sub : Subscription) (a : Assessment) (v : Verdict)
      → decide env.clock sub a.level now ≡ v
      → a.stale ≡ false
      → Preserves IsRunning (act env now sub a v)
  unfolding act
  act-IsRunning sub a nothing d l t f r = r
  act-IsRunning sub a notify d l t f r =
      logged-Preserves IsRunning (notify_devices env now sub a) (notify_devices-IsRunning sub a d l)
        t f r
  act-IsRunning sub a lower d l t f r = set_last_notified-IsRunning sub.id a.level false t f r
  act-IsRunning sub a reset d l t f r =
      logged-Preserves IsRunning (exec (drop_last sub.id))
        (exec-Preserves IsRunning (drop_last sub.id)
          λ t r. record { sent = r.sent; backed = r.backed })
        t f r

  abbrev Live : Map Assessment → Type 0
  Live cache = (k : ℕ) (a : Assessment) → cache k ≡ some a → a.stale ≡ false

  fresh_not_stale : (o : Option Assessment) (a : Assessment) → fresh o ≡ some a → a.stale ≡ false
  unfolding fresh
  fresh_not_stale none a e = cc
  fresh_not_stale (some b) a e = kept b.stale refl e
    where
      kept : (c : Bool) → b.stale ≡ c → (if c then none else some b) ≡ some a → a.stale ≡ false
      kept true h e = cc
      kept false h e = subst (λ x. x.stale ≡ false) (some_eq e) h

  assessment_of_not_stale :
      (cache : Map Assessment) (sub : Subscription) (a : Assessment)
      → Live cache
      → assessment_of env cache sub ≡ some a
      → a.stale ≡ false
  unfolding assessment_of
  assessment_of_not_stale cache sub a live e = kept (cache (env.key sub.place)) refl e
    where
      kept :
          (o : Option Assessment)
          → cache (env.key sub.place) ≡ o
          → (elim o [ none ↦ fresh (env.assess sub.id) | some b ↦ some b ]) ≡ some a
          → a.stale ≡ false
      kept none h e = fresh_not_stale (env.assess sub.id) a e
      kept (some b) h e = live (env.key sub.place) a (h ∙ e)

  put-Live :
      (k : ℕ) (a : Assessment) (cache : Map Assessment)
      → a.stale ≡ false
      → Live cache
      → Live (put k a cache)
  put-Live k a cache l live j b e = elim (Bool-cases (k == j)) [
    | inl hit ↦ subst (λ x. x.stale ≡ false) (some_eq (rw hit at e)) l
    | inr miss ↦ live j b (rw miss at e)
  ]

  visit_all-IsRunning :
      (cache : Map Assessment) (subs : List Subscription)
      → Live cache
      → Preserves IsRunning (visit_all env now cache subs)
  unfolding visit_all
  visit_all-IsRunning cache [] live t f r = r
  visit_all-IsRunning cache (sub ∷ subs) live t f r =
      visited (assessment_of env cache sub) refl (visit_all-IsRunning cache subs live t f r) (λ a l.
        visit_all-IsRunning (put (env.key sub.place) a cache) subs
          (put-Live (env.key sub.place) a cache l live))
    where
      visited :
          (o : Option Assessment)
          → assessment_of env cache sub ≡ o
          → IsRunning (visit_all env now cache subs t f).1
          → ((a : Assessment)
              → a.stale ≡ false
              → Preserves IsRunning (visit_all env now (put (env.key sub.place) a cache) subs))
          → let visit : Flow Tables (Unit {0}) = elim o [
            | none ↦ visit_all env now cache subs
            | some a ↦
                act env now sub a (decide env.clock sub a.level now)
                >> visit_all env now (put (env.key sub.place) a cache) subs
          ] in
            IsRunning (visit t f).1
      visited none e skipped more = skipped
      visited (some a) e skipped more =
          let l : a.stale ≡ false = assessment_of_not_stale cache sub a live e in
          bind-Preserves IsRunning (act env now sub a (decide env.clock sub a.level now))
            (λ _. visit_all env now (put (env.key sub.place) a cache) subs)
            (act-IsRunning sub a (decide env.clock sub a.level now) refl l) (λ _. more a l) t f r

  run_once-IsRunning : (free : Bool) → Preserves IsRunning (run_once env now free)
  unfolding run_once
  run_once-IsRunning false t f r = r
  run_once-IsRunning true t f r =
      bind-Preserves IsRunning (query load_subscriptions) (visit_all env now empty)
        (query-Preserves IsRunning load_subscriptions)
        (λ subs. visit_all-IsRunning empty subs (λ k a e. cc)) t f r

devices-Backed : (env : Environment) (now : ℕ) (ds : List Device) → All (Backed env now ds) ds
devices-Backed env now [] = tt
devices-Backed env now (d ∷ ds) = (
  λ token e c. ground (arith, text_eq_refl token),
  All-imp ds (λ x b token e c. ground (arith, b token e c)) (devices-Backed env now ds),
)

-- Whatever the assessor, the push service and the database do, each call of the push service that
-- a run makes is for an assessment that is not stale and on which `decide` says to notify, and all
-- its messages go to push tokens of the subscription's account whose devices consented.
pub run_once-IsAllowed :
    (env : Environment) (now : ℕ) (free : Bool) (t : Tables) (f : List Bool)
    → t.sent ≡ []
    → All (IsAllowed env.clock now t.devices) (run_once env now free t f).1.sent
run_once-IsAllowed env now free t f none_sent =
    (run_once-IsRunning env now t.devices free t f
      (record { sent = rw none_sent tt; backed = devices-Backed env now t.devices })).sent
