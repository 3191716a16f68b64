-- ===== src/Webhooks.antt =====
-- aurarisk-backend/internal/workers/webhooks.go: the outbox of newly verified reports, from which each
-- is posted to its county's webhook. `posted` logs the posts, whether or not the receiver answered.
-- The body, its signature and the text of errors are left out.
pub mod Settled
mod Examples
use aura_risk.Base.{
  limit, order_by, ℕ, zero, suc, ◌+◌, ◌*◌, ◌^◌, ◌<◌, min, ◌≡◌, Bool, true, false, not, ◌&&◌, ◌||◌,
  Option, none, some, List, [], ◌∷◌, ◌++◌, ltb, leb, ◌==◌, if◌then◌else◌, length, find, exists,
  select, update, Flow, Run, ok, err, failing, later, internal_error, ◌>>=◌, ◌>>◌, return, query,
  exec, chain,
}
use aura_risk.Curation.{ModerationStatus, pending, verified, rejected}

pub record Announced : Type 0 where
  pub id : ℕ
  pub moderation_status : ModerationStatus
  pub duplicate_of : Option ℕ
  pub county : Option ℕ
  pub status_updated_at : ℕ

-- report_webhook_deliveries
pub record Delivery : Type 0 where
  pub report_id : ℕ
  pub county : ℕ
  pub attempts : ℕ
  pub next_attempt_at : ℕ
  pub delivered_at : Option ℕ

pub record Outbox : Type 0 where
  pub reports : List Announced
  pub deliveries : List Delivery
  pub posted : List ℕ

abbrev pub webhook_lookback : ℕ
webhook_lookback = 86400

abbrev pub webhook_batch : ℕ
webhook_batch = 20

abbrev pub webhook_max_attempts : ℕ
webhook_max_attempts = 10

abbrev pub webhook_max_backoff : ℕ
webhook_max_backoff = 6 * 3600

abbrev in_counties : List ℕ → ℕ → Bool
in_counties urls c = exists (λ u. u == c) urls

abbrev pub announces : List ℕ → ℕ → Announced → ℕ → Bool
announces urls now r c =
    elim r.moderation_status [ verified ↦ true | _ ↦ false ]
    && elim r.duplicate_of [ none ↦ true | some d ↦ false ]
    && in_counties urls c
    && ltb now (r.status_updated_at + webhook_lookback)

-- INSERT ... SELECT ... ON CONFLICT (report_id) DO NOTHING, for one report.
unfoldable pub queue_one : List ℕ → ℕ → List Delivery → Announced → List Delivery
queue_one urls now ds r = elim r.county [
  | none ↦ ds
  | some c ↦
      if announces urls now r c && not (exists (λ d. d.report_id == r.id) ds)
      then ds
        ++ (record {
          report_id = r.id;
          county = c;
          attempts = 0;
          next_attempt_at = now;
          delivered_at = none;
        }
            ∷ [])
      else ds
]

unfoldable pub queue_all : List ℕ → ℕ → List Delivery → List Announced → List Delivery
queue_all urls now ds [] = ds
queue_all urls now ds (r ∷ rs) = queue_all urls now (queue_one urls now ds r) rs

unfoldable pub queue_verified : List ℕ → ℕ → Outbox → Outbox
queue_verified urls now t = record {
  reports = t.reports;
  deliveries = queue_all urls now t.deliveries t.reports;
  posted = t.posted;
}

abbrev undelivered : Option ℕ → Bool
undelivered none = true
undelivered (some at) = false

-- The WHERE of the query for due deliveries; a row of a deleted report is deleted with it.
unfoldable pub is_due : List ℕ → ℕ → Delivery → Bool
is_due urls now d =
    undelivered d.delivered_at
    && ltb d.attempts webhook_max_attempts
    && leb d.next_attempt_at now
    && in_counties urls d.county

unfoldable pub due_deliveries : List ℕ → ℕ → List Delivery → List Delivery
due_deliveries urls now ds =
    limit webhook_batch (order_by (λ d. d.next_attempt_at) (select (is_due urls now) ds))

-- min(time.Minute<<attempts, webhookMaxBackoff)
unfoldable pub webhook_backoff : ℕ → ℕ
webhook_backoff attempts = min (60 * 2 ^ attempts) webhook_max_backoff

-- The two updates of a delivery, after a post that went well or not.
unfoldable pub after_post : ℕ → Bool → ℕ → Delivery → Delivery
after_post now true attempts d = record {
  report_id = d.report_id;
  county = d.county;
  attempts = d.attempts + 1;
  next_attempt_at = d.next_attempt_at;
  delivered_at = some now;
}
after_post now false attempts d = record {
  report_id = d.report_id;
  county = d.county;
  attempts = d.attempts + 1;
  next_attempt_at = now + webhook_backoff attempts;
  delivered_at = d.delivered_at;
}

unfoldable pub set_posted : ℕ → Bool → Delivery → Outbox → Outbox
set_posted now sent due t = record {
  reports = t.reports;
  deliveries =
      update (λ d. d.report_id == due.report_id) (after_post now sent due.attempts) t.deliveries;
  posted = t.posted;
}

-- send: whether the receiver answered with success.
unfoldable pub send_webhook : ℕ → Flow Outbox Bool
send_webhook i t f = (
  ok (not (failing f)),
  record { reports = t.reports; deliveries = t.deliveries; posted = i ∷ t.posted },
  later f,
)

-- The loop over the due deliveries; a context that has ended is a query that fails.
unfoldable pub deliver_all : ℕ → List Delivery → Flow Outbox (Unit {0})
deliver_all now [] = return tt
deliver_all now (d ∷ ds) = query (λ t. tt) >> send_webhook d.report_id >>= λ sent.
    exec (set_posted now sent d) >> deliver_all now ds

-- RunOnce, once it has the lock, for the counties that have a webhook.
unfoldable pub run_once : List ℕ → ℕ → Flow Outbox (Unit {0})
run_once [] now = return tt
run_once (u ∷ urls) now =
    exec (queue_verified (u ∷ urls) now)
    >> (query (λ t. due_deliveries (u ∷ urls) now t.deliveries) >>= deliver_all now)

-- Runs at the given times, whatever their results.
unfoldable pub run_all : List ℕ → List ℕ → Outbox → List Bool → Outbox
run_all urls [] t f = t
run_all urls (now ∷ times) t f = let (r, t', f') = run_once urls now t f in run_all urls times t' f'
