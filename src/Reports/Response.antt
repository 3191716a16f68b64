-- ===== src/Reports/Response.antt =====
-- aurarisk-backend/internal/services/response.go and handlers/responders.go: the county's response
-- to a verified report. A note is a text of bytes, which `len` counts.
use mathlib.Core.List.{reverse}
use aura_risk.Base.{
  ℕ, Bool, true, false, ◌&&◌, Option, none, some, List, [], ◌∷◌, ltb, length, ◌==◌, if◌then◌else◌,
  Text, null_if_empty, find, exists, select, update, Flow, Result, ok, err, ◌>>=◌, ◌>>◌, return,
  respond_error, require, query, exec, transaction,
}
use aura_risk.Reports.{
  Report, ResponseStatus, open_status, acknowledged, resolved, ResponseEvent, Tables, is_verified,
  is_none, with_id,
}
use aura_risk.Reports.Moderation.{TokenHashes, match_token}

-- CanChangeResponse
unfoldable pub can_change_response : ResponseStatus → ResponseStatus → Bool
can_change_response open_status acknowledged = true
can_change_response open_status resolved = true
can_change_response acknowledged resolved = true
can_change_response _ _ = false

-- RequireResponder: the name and the county that it puts into the context.
unfoldable pub require_responder : (ℕ → ℕ) → TokenHashes → (ℕ → ℕ) → Option ℕ → Result (ℕ × ℕ)
unfolding match_token
require_responder hash [] counties token = err 503 "county responders are not configured"
require_responder hash (h ∷ hs) counties none = err 401 "missing responder token"
require_responder hash (h ∷ hs) counties (some token) =
    elim (match_token (hash token) (h ∷ hs) none) [
      | none ↦ err 401 "invalid responder token"
      | some name ↦ ok (name, counties name)
    ]

abbrev pub in_county : ℕ → Option ℕ → Bool
in_county c none = false
in_county c (some d) = d == c

-- responderScope
abbrev pub in_scope : ℕ → Report → Bool
in_scope county r =
    is_verified r.moderation_status && is_none r.duplicate_of && in_county county r.county

-- responseUpdate; the two statuses that the handler admits, `none` for any other.
pub data Move : Type 0 where
  acknowledge resolve : Move

abbrev pub target : Move → ResponseStatus
target acknowledge = acknowledged
target resolve = resolved

pub record ResponseUpdate : Type 0 where
  pub status : Option Move
  pub note : Text

abbrev pub or_now : ℕ → Option ℕ → Option ℕ
or_now now none = some now
or_now now (some t) = some t

-- The SET clause.
unfoldable pub respond_row : ℕ → Move → Report → Report
respond_row now move r = record r {
  response_status = target move;
  response_updated_at = some now;
  acknowledged_at = or_now now r.acknowledged_at;
  resolved_at = elim move [ acknowledge ↦ r.resolved_at | resolve ↦ some now ];
}

abbrev pub found_or_404 : {A : Type 0} → Option A → Flow Tables A
found_or_404 none = respond_error 404 "report not found"
found_or_404 (some a) = return a

-- The row of the INSERT into report_response_events.
abbrev pub response_event : ℕ → ℕ → ℕ → Move → Text → ResponseStatus → ResponseEvent
response_event now responder report move note current = record {
  report_id = report;
  from_status = current;
  to_status = target move;
  actor = responder;
  note = null_if_empty note;
  created_at = now;
}

-- The body of UpdateReportResponse's transaction. The message of the conflict is shortened.
unfoldable pub respond_body : ℕ → ℕ → ℕ → ℕ → Move → Text → Flow Tables (Unit {0})
respond_body now responder county report move note = do
  row ← query (λ t. find (λ r. with_id report r && in_scope county r) t.reports)
  r ← found_or_404 row
  require (can_change_response r.response_status (target move)) 409 "report cannot become that"
  exec (λ t. record t { reports = update (with_id report) (respond_row now move) t.reports })
  exec (λ t. record t {
    responses = response_event now responder report move note r.response_status ∷ t.responses;
  })

unfoldable pub respond : ℕ → ℕ → ℕ → ℕ → Move → Text → Flow Tables (Unit {0})
respond now responder county report move note =
    transaction (respond_body now responder county report move note)

-- Once the status and the note are checked.
unfoldable pub respond_at : ℕ → ℕ → ℕ → Move → Text → Option ℕ → Flow Tables (Unit {0})
respond_at now responder county move note none = respond_error 404 "report not found"
respond_at now responder county move note (some report) =
    respond now responder county report move note

-- UpdateReportResponse. The request is `none` if its body does not bind, the id if it is no UUID.
unfoldable pub update_report_response :
    ℕ → ℕ → ℕ → Option ℕ → Option ResponseUpdate → Flow Tables (Unit {0})
update_report_response now responder county id none = respond_error 400 "invalid request body"
update_report_response now responder county id (some req) = elim req.status [
  | none ↦ respond_error 400 "status must be acknowledged or resolved"
  | some move ↦
      if ltb 500 (length req.note)
      then respond_error 400 "note is too long"
      else respond_at now responder county move req.note id
]

-- ListResponseEvents; new rows stand first in the table, and the answer begins with the oldest.
unfoldable pub list_response_events : ℕ → Option ℕ → Flow Tables (List ResponseEvent)
list_response_events county none = respond_error 404 "report not found"
list_response_events county (some report) = do
  scoped ← query (λ t. exists (λ r. with_id report r && in_scope county r) t.reports)
  require scoped 404 "report not found"
  query (λ t. reverse (select (λ e. e.report_id == report) t.responses))
