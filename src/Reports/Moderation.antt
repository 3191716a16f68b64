-- ===== src/Reports/Moderation.antt =====
-- aurarisk-backend/internal/handlers/moderation.go: a moderator's decision on a report.
-- A reason is a text of bytes, which `len` counts.
use aura_risk.Base.{
  ℕ, Bool, true, false, not, ◌&&◌, Option, none, some, List, [], ◌∷◌, ◌++◌, ltb, length, ◌==◌,
  if◌then◌else◌, Text, codes, is_empty, null_if_empty, find, count_rows, update, Flow, Result, ok,
  err, ◌>>=◌, ◌>>◌, return, respond_error, query, exec, transaction,
}
use aura_risk.Curation.{ModerationStatus, pending, verified, rejected, Actor, auto, human}
use aura_risk.Reports.{Report, ModerationEvent, Tables, is_verified, is_rejected, with_id}

-- The token hashes of SetModerators, each with its moderator's name.
abbrev pub TokenHashes : Type 0
TokenHashes = List (ℕ × ℕ)

-- matchToken: every hash is compared, and the last that matches counts.
unfoldable pub match_token : ℕ → TokenHashes → Option ℕ → Option ℕ
match_token presented [] name = name
match_token presented ((h, candidate) ∷ hs) name =
    match_token presented hs (if presented == h then some candidate else name)

-- RequireModerator: the name that it puts into the context. The token is `none` when it is empty.
unfoldable pub require_moderator : (ℕ → ℕ) → TokenHashes → Option ℕ → Result ℕ
unfolding match_token
require_moderator hash [] token = err 503 "moderation is not configured"
require_moderator hash (h ∷ hs) none = err 401 "missing moderator token"
require_moderator hash (h ∷ hs) (some token) = elim (match_token (hash token) (h ∷ hs) none) [
  | none ↦ err 401 "invalid moderator token"
  | some name ↦ ok name
]

-- moderationDecision; a status that IsModerationStatus refuses is `none`.
pub record Decision : Type 0 where
  pub status : Option ModerationStatus
  pub reason : Text
  pub not_duplicate : Bool

abbrev pub decided_by : ℕ → ModerationStatus → Option Actor
decided_by moderator pending = none
decided_by moderator verified = some (human moderator)
decided_by moderator rejected = some (human moderator)

-- The SET clause of the UPDATE.
unfoldable pub decide_row : ℕ → ℕ → ModerationStatus → Decision → Report → Report
decide_row now moderator status req r = record r {
  moderation_status = status;
  moderated_by = decided_by moderator status;
  moderation_reason = null_if_empty req.reason;
  status_updated_at = now;
  duplicate_of = if req.not_duplicate then none else r.duplicate_of;
}

abbrev pub event_reason : Decision → Text
event_reason req =
    if req.not_duplicate then codes "marked not a duplicate. " ++ req.reason else req.reason

-- models.ModerationReport: the row and the reporter's other reports that moderators decided.
pub record ModerationReport : Type 0 where
  pub row : Report
  pub reporter_verified : ℕ
  pub reporter_rejected : ℕ

abbrev pub by_human : Option Actor → Bool
by_human none = false
by_human (some auto) = false
by_human (some (human m)) = true

abbrev pub same_account : Option ℕ → Option ℕ → Bool
same_account none b = false
same_account (some a) none = false
same_account (some a) (some b) = a == b

-- One of the counts in moderationReportColumns.
unfoldable pub history_count : (ModerationStatus → Bool) → Option ℕ → ℕ → List Report → ℕ
history_count test account report = count_rows λ h.
    same_account account h.account_id
    && not (h.id == report)
    && test h.moderation_status
    && by_human h.moderated_by

unfoldable pub described : List Report → Report → ModerationReport
unfolding history_count
described rs r = record {
  row = r;
  reporter_verified = history_count is_verified r.account_id r.id rs;
  reporter_rejected = history_count is_rejected r.account_id r.id rs;
}

abbrev pub found_or_404 : {A : Type 0} → Option A → Flow Tables A
found_or_404 none = respond_error 404 "report not found"
found_or_404 (some a) = return a

-- A row that Scan finds missing where it was just updated is an error of the driver.
abbrev pub found_or_500 : {A : Type 0} → Option A → Flow Tables A
found_or_500 none = respond_error 500 "internal server error"
found_or_500 (some a) = return a

-- The row of the INSERT into report_moderation_events.
abbrev pub moderation_event :
    ℕ → ℕ → ℕ → ModerationStatus → Decision → ModerationStatus → ModerationEvent
moderation_event now moderator report status req current = record {
  report_id = report;
  from_status = current;
  to_status = status;
  actor = human moderator;
  reason = null_if_empty (event_reason req);
  created_at = now;
}

-- The body of ModerateReport's transaction.
unfoldable pub moderate_body :
    ℕ → ℕ → ℕ → ModerationStatus → Decision → Flow Tables ModerationReport
moderate_body now moderator report status req = do
  current ← query (λ t. find (with_id report) t.reports)
  r ← found_or_404 current
  exec (λ t. record t {
    reports = update (with_id report) (decide_row now moderator status req) t.reports;
  })
  exec (λ t. record t {
    events = moderation_event now moderator report status req r.moderation_status ∷ t.events;
  })
  row ← query (λ t. elim (find (with_id report) t.reports) [
    | none ↦ none
    | some after ↦ some (described t.reports after)
  ])
  found_or_500 row

unfoldable pub moderate : ℕ → ℕ → ℕ → ModerationStatus → Decision → Flow Tables ModerationReport
moderate now moderator report status req =
    transaction (moderate_body now moderator report status req)

-- Once the status and the reason are checked; the id is `none` if it is no UUID.
unfoldable pub moderate_at :
    ℕ → ℕ → ModerationStatus → Decision → Option ℕ → Flow Tables ModerationReport
moderate_at now moderator status req none = respond_error 404 "report not found"
moderate_at now moderator status req (some report) = moderate now moderator report status req

unfoldable pub check_decision :
    ℕ → ℕ → Option ℕ → Decision → Option ModerationStatus → Flow Tables ModerationReport
check_decision now moderator id req none =
    respond_error 400 "status must be pending, verified, or rejected"
check_decision now moderator id req (some status) =
    if is_rejected status && is_empty req.reason
    then respond_error 400 "a reason is required to reject a report"
    else if ltb 500 (length req.reason)
    then respond_error 400 "reason is too long"
    else moderate_at now moderator status req id

-- ModerateReport. The request is `none` if its body does not bind.
unfoldable pub moderate_report : ℕ → ℕ → Option ℕ → Option Decision → Flow Tables ModerationReport
unfolding moderate_at check_decision
moderate_report now moderator id none = respond_error 400 "invalid request body"
moderate_report now moderator id (some req) = check_decision now moderator id req req.status
