-- ===== src/Reports/Trail.antt =====
-- The audit trail of reports: what moderation events tell.
use aura_risk.Base.{
  ℕ, ◌≡◌, ◌∙◌, Bool, true, List, [], ◌∷◌, ◌==◌, if◌then◌else◌, exists, update, Distinct,
  exists-update_key, Distinct-update_key, All,
}
use aura_risk.Curation.{ModerationStatus, pending}
use aura_risk.Reports.{Report, Tables, ModerationEvent, with_id}

-- The status that a report has by the events, the newest first.
abbrev pub status_after : ℕ → List ModerationEvent → ModerationStatus
status_after i [] = pending
status_after i (e ∷ es) = if e.report_id == i then e.to_status else status_after i es

-- Each event leaves from the status that the earlier ones led to.
abbrev pub Chained : List ModerationEvent → Type 0
Chained [] = Unit {0}
Chained (e ∷ es) = (e.from_status ≡ status_after e.report_id es) × Chained es

abbrev pub Explains : List ModerationEvent → Report → Type 0
Explains es r = r.moderation_status ≡ status_after r.id es

-- The audit trail: ids are distinct, events are of reports in the table and follow one another,
-- and the status of each report is the one that its last event gave it.
pub record IsAudited (t : Tables) : Type 0 where
  pub distinct : Distinct (λ r. r.id) t.reports
  pub known : All (λ e. exists (with_id e.report_id) t.reports ≡ true) t.events
  pub chained : Chained t.events
  pub explained : All (Explains t.events) t.reports

module _ (p : Report → Bool) (g : Report → Report) (same : (r : Report) → (g r).id ≡ r.id) where
  pub exists-update :
      (i : ℕ) (rs : List Report) → exists (with_id i) (update p g rs) ≡ exists (with_id i) rs
  exists-update i rs = exists-update_key (λ r. r.id) p g i rs same

  pub Distinct-update :
      (rs : List Report) → Distinct (λ r. r.id) rs → Distinct (λ r. r.id) (update p g rs)
  Distinct-update rs d = Distinct-update_key (λ r. r.id) p g rs same d

  pub known-update :
      (es : List ModerationEvent) (rs : List Report)
      → All (λ e. exists (with_id e.report_id) rs ≡ true) es
      → All (λ e. exists (with_id e.report_id) (update p g rs) ≡ true) es
  known-update [] rs k = tt
  known-update (e ∷ es) rs k = (exists-update e.report_id rs ∙ k.0, known-update es rs k.1)
