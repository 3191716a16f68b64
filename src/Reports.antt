-- ===== src/Reports.antt =====
-- The tables of community reports and the operations on them. Here: the rows, and what
-- aurarisk-backend/internal/handlers/reports.go stores. Below: moderation (handlers/moderation.go),
-- automatic verification (workers/verifier.go) and the county's response (handlers/responders.go).
-- An SQL statement is a function of the tables; new rows stand first. Times are seconds.
pub mod Moderation
pub mod Verifier
pub mod Response
pub mod Decisions
pub mod Trail
pub mod Rescoring
pub mod Audit
pub mod Originals
pub mod Progress
mod Examples
use aura_risk.Base.{
  limit, ℕ, ◌+◌, ◌-◌, ◌≤◌, Bool, true, false, not, ◌&&◌, ◌||◌, Option, none, some, List, [], ◌∷◌,
  map, ltb, leb, ◌==◌, if◌then◌else◌, Text, is_empty, null_if_empty, find, exists, select, update,
  Flow, Result, ok, err, ◌>>=◌, ◌>>◌, return, respond_error, require, query, exec_unless,
  transaction, zero, suc, length,
}
use aura_risk.Curation.{
  ModerationStatus, pending, verified, rejected, Actor, Category, Place, Library, NewReport,
  DuplicateCandidate, find_duplicate, same_reporter_radius, similar_text_radius,
  same_reporter_window, similar_text_window,
}

pub data ResponseStatus : Type 0 where
  open_status acknowledged resolved : ResponseStatus

pub data Source : Type 0 where
  app sms ussd : Source

-- community_reports
pub record Report : Type 0 where
  pub id : ℕ
  pub location_name : Text
  pub place : Place
  pub category : Category
  pub note : Text
  pub account_id : Option ℕ
  pub duplicate_of : Option ℕ
  pub county : Option ℕ
  pub ward : Option Text
  pub source : Source
  pub location_approximate : Bool
  pub created_at : ℕ
  pub moderation_status : ModerationStatus
  pub moderated_by : Option Actor
  pub moderation_reason : Option Text
  pub status_updated_at : ℕ
  pub verification_score : ℕ
  pub corroboration_count : ℕ
  pub response_status : ResponseStatus
  pub response_updated_at : Option ℕ
  pub acknowledged_at : Option ℕ
  pub resolved_at : Option ℕ

-- report_moderation_events
pub record ModerationEvent : Type 0 where
  pub report_id : ℕ
  pub from_status : ModerationStatus
  pub to_status : ModerationStatus
  pub actor : Actor
  pub reason : Option Text
  pub created_at : ℕ

-- report_response_events
pub record ResponseEvent : Type 0 where
  pub report_id : ℕ
  pub from_status : ResponseStatus
  pub to_status : ResponseStatus
  pub actor : ℕ
  pub note : Option Text
  pub created_at : ℕ

pub record Tables : Type 0 where
  pub reports : List Report
  pub events : List ModerationEvent
  pub responses : List ResponseEvent

abbrev pub is_pending : ModerationStatus → Bool
is_pending pending = true
is_pending _ = false

abbrev pub is_verified : ModerationStatus → Bool
is_verified verified = true
is_verified _ = false

abbrev pub is_rejected : ModerationStatus → Bool
is_rejected rejected = true
is_rejected _ = false

abbrev pub is_none {ℓ} : {A : Type ℓ} → Option A → Bool
is_none none = true
is_none (some a) = false

abbrev pub with_id : ℕ → Report → Bool
with_id i r = r.id == i

-- What the queries ask of PostGIS: ST_DWithin of two points and a distance in metres.
abbrev pub Within : Type 0
Within = Place → Place → ℕ → Bool

-- ORDER BY created_at
insert_by_age : Report → List Report → List Report
insert_by_age r [] = r ∷ []
insert_by_age r (x ∷ xs) =
    if ltb r.created_at x.created_at then r ∷ x ∷ xs else x ∷ insert_by_age r xs

pub oldest_first : List Report → List Report
unfolding insert_by_age
oldest_first [] = []
oldest_first (r ∷ rs) = insert_by_age r (oldest_first rs)

-- A row of findDuplicate's query. The age is taken by the database, and counted back from `now`.
abbrev pub candidate : ℕ → Report → DuplicateCandidate
candidate now r = record {
  id = r.id;
  duplicate_of = r.duplicate_of;
  account_id = r.account_id;
  category = r.category;
  note = r.note;
  place = r.place;
  created_at = now - (now - r.created_at);
}

abbrev pub max_ℕ : ℕ → ℕ → ℕ
max_ℕ a b = if ltb a b then b else a

-- The WHERE clause of findDuplicate.
pub is_near_recent : Within → ℕ → Place → Report → Bool
is_near_recent within now place r =
    within r.place place (max_ℕ same_reporter_radius similar_text_radius)
    && ltb now (r.created_at + max_ℕ same_reporter_window similar_text_window)
    && not (is_rejected r.moderation_status)

pub candidates : Within → ℕ → Place → List Report → List DuplicateCandidate
candidates within now place rs =
    map (candidate now) (limit 200 (oldest_first (select (is_near_recent within now place) rs)))

-- newReport
pub record Submission : Type 0 where
  pub location_name : Text
  pub place : Place
  pub category : Category
  pub note : Text
  pub account_id : Option ℕ
  pub county : Option ℕ
  pub ward : Option Text
  pub source : Source

abbrev pub is_app : Source → Bool
is_app app = true
is_app _ = false

-- The row of the INSERT, with the defaults of the schema.
unfoldable pub new_row : ℕ → ℕ → Option ℕ → Submission → Report
new_row now new_id duplicate s = record {
  id = new_id;
  location_name = s.location_name;
  place = s.place;
  category = s.category;
  note = s.note;
  account_id = s.account_id;
  duplicate_of = duplicate;
  county = s.county;
  ward = s.ward;
  source = s.source;
  location_approximate = not (is_app s.source);
  created_at = now;
  moderation_status = pending;
  moderated_by = none;
  moderation_reason = none;
  status_updated_at = now;
  verification_score = 0;
  corroboration_count = 0;
  response_status = open_status;
  response_updated_at = none;
  acknowledged_at = none;
  resolved_at = none;
}

-- findDuplicate: the report that a submission repeats.
pub duplicate_in : Library → Within → ℕ → Submission → List Report → Option ℕ
duplicate_in lib within now s rs =
    find_duplicate lib
      (record {
        account_id = s.account_id;
        category = s.category;
        note = s.note;
        place = s.place;
        created_at = now;
      })
      (candidates within now s.place rs)

-- storeReport; the id comes from the database, and is the table's primary key.
unfoldable pub store_report : Library → Within → ℕ → ℕ → Submission → Flow Tables Report
store_report lib within now new_id s = transaction do
  found ← query (λ t. duplicate_in lib within now s t.reports)
  exec_unless (λ t. exists (with_id new_id) t.reports)
      (λ t. record t { reports = new_row now new_id found s ∷ t.reports })
  return (new_row now new_id found s)
