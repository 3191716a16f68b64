-- ===== src/Reports/Audit.antt =====
-- The moderation events of a report tell its status: moderation.go, verifier.go and reports.go.
use aura_risk.Base.{
  ℕ, ◌≡◌, refl, ◌⊎◌, inl, inr, subst, sym, ◌∙◌, Bool, true, false, ◌&&◌, Option, none, some, List,
  [], ◌∷◌, ltb, length, is_empty, ◌==◌, find, exists, update, All, All-find, Preserves, arith,
  Bool-cases,
}
use aura_risk.Curation.{ModerationStatus, pending, Library}
use aura_risk.Reports.{
  Report, Tables, ModerationEvent, with_id, is_rejected, Within, Submission, store_report, new_row,
  duplicate_in,
}
use aura_risk.Reports.Moderation.{
  Decision, moderation_event, decide_row, moderate_at, check_decision, moderate_report,
}
use aura_risk.Reports.Verifier.{run_once}
use aura_risk.Reports.Decisions.{IsModeration, moderate_cases}
use aura_risk.Reports.Trail.{
  status_after, Explains, IsAudited, exists-update, Distinct-update, known-update,
}
use aura_risk.Reports.Rescoring.{run_once-IsAudited}

exists-find :
    (i : ℕ) (rs : List Report) (r : Report)
    → find (with_id i) rs ≡ some r
    → exists (with_id i) rs ≡ true
exists-find i [] r e = cc
exists-find i (x ∷ rs) r e = ground (arith, exists-find i rs r)

decided_explained :
    (now moderator report : ℕ) (status : ModerationStatus) (req : Decision) (e : ModerationEvent)
    (es : List ModerationEvent) (rs : List Report)
    → e.report_id ≡ report
    → e.to_status ≡ status
    → All (Explains es) rs
    → All (Explains (e ∷ es)) (update (with_id report) (decide_row now moderator status req) rs)
unfolding decide_row
decided_explained now moderator report status req e es [] p q x = tt
decided_explained now moderator report status req e es (r ∷ rs) p q x =
    (ground arith, decided_explained now moderator report status req e es rs p q x.1)

moderation-IsAudited :
    (now moderator report : ℕ) (status : ModerationStatus) (req : Decision) (t t' : Tables)
    → IsModeration now moderator report status req t t'
    → IsAudited t
    → IsAudited t'
moderation-IsAudited now moderator report status req t t' m a = record {
  distinct = rw (m.reports) (Distinct-update (with_id report) _ same t.reports a.distinct);
  known =
      rw (m.reports, m.events)
        (
          exists-update (with_id report) _ same report t.reports
              ∙ exists-find report t.reports m.row m.row_found,
          known-update (with_id report) _ same t.events t.reports a.known,
        );
  chained = rw (m.events) (ground (arith, row_explained), a.chained);
  explained =
      rw (m.reports, m.events)
        (decided_explained now moderator report status req
          (moderation_event now moderator report status req m.row.moderation_status) t.events
          t.reports refl refl a.explained);
}
  where
    same : (r : Report) → (decide_row now moderator status req r).id ≡ r.id
    same r = unfold decide_row in refl

    row_explained : Explains t.events m.row × (with_id report m.row ≡ true)
    row_explained =
        All-find (Explains t.events) (with_id report) t.reports m.row a.explained m.row_found

moderate_at-IsAudited :
    (now moderator : ℕ) (status : ModerationStatus) (req : Decision) (id : Option ℕ)
    → Preserves IsAudited (moderate_at now moderator status req id)
unfolding moderate_at
moderate_at-IsAudited now moderator status req none t f a = a
moderate_at-IsAudited now moderator status req (some report) t f a =
    elim (moderate_cases now moderator report status req t f) [
      | inl same ↦ rw same a
      | inr m ↦ moderation-IsAudited now moderator report status req t _ m a
    ]

check_decision-IsAudited :
    (now moderator : ℕ) (id : Option ℕ) (req : Decision) (status : Option ModerationStatus)
    → Preserves IsAudited (check_decision now moderator id req status)
unfolding check_decision
check_decision-IsAudited now moderator id req none t f a = a
check_decision-IsAudited now moderator id req (some status) t f a =
    elim (Bool-cases (is_rejected status && is_empty req.reason)) [
      | inl bad ↦ rw bad a
      | inr good ↦ rw good (elim (Bool-cases (ltb 500 (length req.reason))) [
        | inl long ↦ rw long a
        | inr short ↦ rw short (moderate_at-IsAudited now moderator status req id t f a)
      ])
    ]

moderate_report-IsAudited :
    (now moderator : ℕ) (id : Option ℕ) (req : Option Decision)
    → Preserves IsAudited (moderate_report now moderator id req)
unfolding moderate_report
moderate_report-IsAudited now moderator id none t f a = a
moderate_report-IsAudited now moderator id (some req) t f a =
    check_decision-IsAudited now moderator id req req.status t f a

-- What storing a report leaves: the tables as they were, or one new row with a new id.
pub store_cases :
    (lib : Library) (within : Within) (now new_id : ℕ) (s : Submission) (t : Tables) (f : List Bool)
    → ((store_report lib within now new_id s t f).1 ≡ t)
      ⊎ ((exists (with_id new_id) t.reports ≡ false)
          × ((store_report lib within now new_id s t f).1 ≡ record t {
            reports = new_row now new_id (duplicate_in lib within now s t.reports) s ∷ t.reports;
          }))
unfolding store_report
store_cases lib within now new_id s t f = ground arith

no_events :
    (i : ℕ) (es : List ModerationEvent) (rs : List Report)
    → exists (with_id i) rs ≡ false
    → All (λ e. exists (with_id e.report_id) rs ≡ true) es
    → status_after i es ≡ pending
no_events i [] rs n k = refl
no_events i (e ∷ es) rs n k = elim (Bool-cases (e.report_id == i)) [
  | inl same ↦
      let there : exists (with_id i) rs ≡ true =
        subst (λ j. exists (with_id j) rs ≡ true) (ground arith) k.0 in
      cc
  | inr other ↦ rw other (no_events i es rs n k.1)
]

known_more :
    (r : Report) (es : List ModerationEvent) (rs : List Report)
    → All (λ e. exists (with_id e.report_id) rs ≡ true) es
    → All (λ e. exists (with_id e.report_id) (r ∷ rs) ≡ true) es
known_more r [] rs k = tt
known_more r (e ∷ es) rs k = (ground (arith, k.0), known_more r es rs k.1)

store_report-IsAudited :
    (lib : Library) (within : Within) (now new_id : ℕ) (s : Submission)
    → Preserves IsAudited (store_report lib within now new_id s)
store_report-IsAudited lib within now new_id s t f a =
    elim (store_cases lib within now new_id s t f) [
      | inl same ↦ rw same a
      | inr (new, same) ↦ rw same (record {
        distinct = (unfold new_row in new, a.distinct);
        known =
            known_more (new_row now new_id (duplicate_in lib within now s t.reports) s) t.events
              t.reports a.known;
        chained = a.chained;
        explained =
            (unfold new_row in sym (no_events new_id t.events t.reports new a.known), a.explained);
      })
    ]

-- The operations on moderation statuses, each with its time and what the environment decides:
-- a submission, a moderator's request, a run of the verifier.
pub data Operation : Type 0 where
  submits : ℕ → ℕ → Submission → Operation
  moderates : ℕ → ℕ → Option ℕ → Option Decision → Operation
  verifies : ℕ → (ℕ → Bool) → Bool → Operation

unfoldable pub operate : Library → Within → Tables → Operation → List Bool → Tables
operate lib within t (submits now new_id s) f = (store_report lib within now new_id s t f).1
operate lib within t (moderates now moderator id req) f =
    (moderate_report now moderator id req t f).1
operate lib within t (verifies now ready free) f = (run_once within ready now free t f).1

unfoldable pub operate_all : Library → Within → Tables → List (Operation × List Bool) → Tables
operate_all lib within t [] = t
operate_all lib within t ((o, f) ∷ more) = operate_all lib within (operate lib within t o f) more

operate-IsAudited :
    (lib : Library) (within : Within) (t : Tables) (o : Operation) (f : List Bool)
    → IsAudited t
    → IsAudited (operate lib within t o f)
unfolding operate
operate-IsAudited lib within t (submits now new_id s) f a =
    store_report-IsAudited lib within now new_id s t f a
operate-IsAudited lib within t (moderates now moderator id req) f a =
    moderate_report-IsAudited now moderator id req t f a
operate-IsAudited lib within t (verifies now ready free) f a =
    run_once-IsAudited within ready now free t f a

-- From audited tables every sequence of submissions, moderators' requests and verifier runs, with
-- any failures of the database among them, leads to audited tables: the status of each report is
-- the one its last event gave it, and each event leaves from the status that those before led to.
pub operate_all-IsAudited :
    (lib : Library) (within : Within) (t : Tables) (os : List (Operation × List Bool))
    → IsAudited t
    → IsAudited (operate_all lib within t os)
unfolding operate_all
operate_all-IsAudited lib within t [] a = a
operate_all-IsAudited lib within t ((o, f) ∷ os) a =
    operate_all-IsAudited lib within (operate lib within t o f) os
      (operate-IsAudited lib within t o f a)
