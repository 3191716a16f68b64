-- ===== src/Webhooks/Examples.antt =====
-- webhooks.go at concrete inputs.
use aura_risk.Base.{◌≡◌, refl, true, false, none, some, [], ◌∷◌}
use aura_risk.Curation.{verified}
use aura_risk.Webhooks.{
  Announced, Outbox, queue_one, queue_all, queue_verified, is_due, due_deliveries, webhook_backoff,
  after_post, set_posted, send_webhook, deliver_all, run_once, run_all,
}
use aura_risk.Webhooks.Settled.{posts_of, run_all-posts_of}

abbrev flood : Announced
flood = record {
  id = 1;
  moderation_status = verified;
  duplicate_of = none;
  county = some 47;
  status_updated_at = 1000;
}

abbrev elsewhere : Announced
elsewhere = record {
  id = 2;
  moderation_status = verified;
  duplicate_of = none;
  county = some 12;
  status_updated_at = 1000;
}

abbrev empty : Outbox
empty = record { reports = flood ∷ elsewhere ∷ []; deliveries = []; posted = [] }

-- The first post fails and is made again after a minute, not before.
retried :
    (run_all
      (47 ∷ [])
      (1010 ∷ 1060 ∷ 1070 ∷ 1080 ∷ [])
      empty
      (false ∷ false ∷ false ∷ true ∷ [])).posted
    ≡ 1 ∷ 1 ∷ []
unfolding run_all run_once queue_verified queue_all queue_one due_deliveries is_due deliver_all
    set_posted send_webhook after_post webhook_backoff
retried = refl

abbrev delivered : Outbox
delivered = record {
  reports = flood ∷ elsewhere ∷ [];
  deliveries =
      record {
        report_id = 1;
        county = 47;
        attempts = 2;
        next_attempt_at = 1070;
        delivered_at = some 1070;
      }
      ∷ [];
  posted = 1 ∷ 1 ∷ [];
}

settled_example :
    posts_of 1
      (run_all (47 ∷ 12 ∷ []) (1080 ∷ 1090 ∷ []) delivered (false ∷ false ∷ false ∷ true ∷ []))
    ≡ posts_of 1 delivered
settled_example =
    run_all-posts_of 1 (47 ∷ 12 ∷ []) (1080 ∷ 1090 ∷ []) delivered
      (false ∷ false ∷ false ∷ true ∷ []) (refl, ((λ e. refl), tt))
