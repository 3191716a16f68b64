-- ===== src/Reports/Verifier.antt =====
-- aurarisk-backend/internal/workers/verifier.go: automatic verification of pending reports.
-- A run's context is not cancelled, and the metrics are left out. ST_DWithin is a parameter.
use aura_risk.Base.{
  limit, ℕ, ◌+◌, ◌*◌, Bool, true, false, not, ◌&&◌, ◌||◌, Option, none, some, List, [], ◌∷◌, map,
  ltb, leb, length, ◌==◌, if◌then◌else◌, count_rows, exists, select, update, Flow, ◌>>=◌, ◌>>◌,
  return, query, exec, exec_returning, transaction,
}
use aura_risk.Curation.{
  pending, verified, auto, Category, same_group, Evidence, verification_score, auto_verify_score,
  corroboration_radius, corroboration_window, hour,
}
use aura_risk.Reports.{
  Report, ModerationEvent, Tables, is_pending, is_verified, is_rejected, is_none, with_id, Within,
  oldest_first,
}
use aura_risk.Reports.Moderation.{same_account, history_count}
use mathlib.Core.List.{reverse}

abbrev pub verify_lookback : ℕ
verify_lookback = 48 * hour

abbrev pub verify_batch : ℕ
verify_batch = 500

pub record PendingReport : Type 0 where
  pub id : ℕ
  pub account_id : Option ℕ
  pub category : Category

-- loadPending
unfoldable pub is_recent_pending : ℕ → Report → Bool
is_recent_pending now r =
    is_pending r.moderation_status
    && is_none r.moderated_by
    && is_none r.duplicate_of
    && ltb now (r.created_at + verify_lookback)

unfoldable pub load_pending : ℕ → List Report → List PendingReport
unfolding is_recent_pending
load_pending now rs =
    map (λ r. record { id = r.id; account_id = r.account_id; category = r.category })
      (limit verify_batch (reverse (oldest_first (select (is_recent_pending now) rs))))

-- The WHERE clause of gatherEvidence's first query, on the two rows that it joins.
unfoldable pub corroborates : Within → Category → Report → Report → Bool
corroborates within category r o =
    not (o.id == r.id)
    && is_none o.duplicate_of
    && not (is_rejected o.moderation_status)
    && same_group category o.category
    && within o.place r.place corroboration_radius
    && not o.location_approximate
    && not r.location_approximate
    && leb r.created_at (o.created_at + corroboration_window)
    && leb o.created_at (r.created_at + corroboration_window)
    && (is_none r.account_id || not (same_account r.account_id o.account_id))

-- The accounts of the corroborating rows.
unfoldable pub corroborating : Within → PendingReport → List Report → List Report → List (Option ℕ)
corroborating within p [] rs = []
corroborating within p (r ∷ more) rs =
    if r.id == p.id
    then map (λ o. o.account_id) (select (corroborates within p.category r) rs)
    else corroborating within p more rs

-- The loop over them: the distinct accounts, and how many rows have none.
unfoldable pub tally : List (Option ℕ) → List ℕ → ℕ → List ℕ × ℕ
tally [] seen anonymous = (seen, anonymous)
tally (none ∷ more) seen anonymous = tally more seen (anonymous + 1)
tally (some a ∷ more) seen anonymous =
    tally more (if exists (λ b. b == a) seen then seen else a ∷ seen) anonymous

-- The evidence on a report and the number of corroborating reports. `ready` says of a report
-- whether report_photos holds a ready photo of it.
unfoldable pub evidence_on : Within → (ℕ → Bool) → PendingReport → List Report → Evidence × ℕ
unfolding corroborating tally history_count
evidence_on within ready p rs =
    let rows = corroborating within p rs rs in
    let (accounts, anonymous) = tally rows [] 0 in
    (
      record {
        independent_reporters = length accounts;
        anonymous_corroborations = anonymous;
        has_ready_photo = ready p.id;
        signed_in = not (is_none p.account_id);
        reporter_verified = history_count is_verified p.account_id p.id rs;
        reporter_rejected = history_count is_rejected p.account_id p.id rs;
      },
      length rows,
    )

-- gatherEvidence: two statements, of which the first reads the corroborating rows.
unfoldable pub gather_evidence : Within → (ℕ → Bool) → PendingReport → Flow Tables (Evidence × ℕ)
gather_evidence within ready p = do
  rows ← query (λ t. (evidence_on within ready p t.reports).1)
  evidence ← query (λ t. (evidence_on within ready p t.reports).0)
  return (evidence, rows)

-- The WHERE clause of record's UPDATE.
abbrev pub is_open : ℕ → Report → Bool
is_open i r = with_id i r && is_pending r.moderation_status && is_none r.moderated_by

-- The SET clause.
unfoldable pub score_row : ℕ → ℕ → ℕ → Bool → Report → Report
score_row now score corroborations verify r = record r {
  verification_score = score;
  corroboration_count = corroborations;
  moderation_status = if verify then verified else r.moderation_status;
  moderated_by = if verify then some auto else r.moderated_by;
  status_updated_at = if verify then now else r.status_updated_at;
}

abbrev pub verified_event : ℕ → ℕ → ModerationEvent
verified_event now i = record {
  report_id = i;
  from_status = pending;
  to_status = verified;
  actor = auto;
  reason = some [];
  created_at = now;
}

-- The INSERT of the event, made if the report was verified and one row was updated.
abbrev pub announce : ℕ → ℕ → Bool → Flow Tables Bool
announce now i false = return false
announce now i true = do
  exec (λ t. record t { events = verified_event now i ∷ t.events })
  return true

-- The body of record's transaction. The text of the event's reason is left out.
unfoldable pub score_body : ℕ → ℕ → ℕ → ℕ → Flow Tables Bool
score_body now i score corroborations = do
  let verify = leb auto_verify_score score
  updated ←
      exec_returning (λ t. count_rows (is_open i) t.reports)
        (λ t. record t {
          reports = update (is_open i) (score_row now score corroborations verify) t.reports;
        })
  announce now i (verify && updated == 1)

-- record: whether it verified the report.
unfoldable pub record_score : ℕ → ℕ → ℕ → ℕ → Flow Tables Bool
record_score now i score corroborations = transaction (score_body now i score corroborations)

-- The loop of RunOnce: how many reports it verified.
unfoldable pub verify_each : Within → (ℕ → Bool) → ℕ → List PendingReport → ℕ → Flow Tables ℕ
verify_each within ready now [] verified_so_far = return verified_so_far
verify_each within ready now (p ∷ ps) verified_so_far = do
  (evidence, corroborations) ← gather_evidence within ready p
  done ← record_score now p.id (verification_score evidence) corroborations
  verify_each within ready now ps (if done then verified_so_far + 1 else verified_so_far)

-- The moderation queue that the metrics show.
abbrev pub queue : Tables → ℕ
queue t = count_rows (λ r. is_pending r.moderation_status && is_none r.duplicate_of) t.reports

-- RunOnce, given whether the advisory lock was free: the reports verified and the queue left.
unfoldable pub run_once : Within → (ℕ → Bool) → ℕ → Bool → Flow Tables (Option (ℕ × ℕ))
run_once within ready now false = return none
run_once within ready now true = do
  reports ← query (λ t. load_pending now t.reports)
  verified_count ← verify_each within ready now reports 0
  left ← query queue
  return (some (verified_count, left))
