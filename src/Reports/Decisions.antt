-- ===== src/Reports/Decisions.antt =====
-- moderation.go and verifier.go: who decided a report, and whose decisions stand.
use aura_risk.Base.{
  ℕ, ◌+◌, ◌≡◌, refl, ◌≢◌, ◌⊎◌, inl, inr, sym, ap, ◌∙◌, Bool, true, false, ◌&&◌, Option, none, some,
  List, [], ◌∷◌, ltb, leb, length, ◌==◌, if◌then◌else◌, find, count_rows, update, All, ok, ◌>>=◌,
  query, transaction-cases, All-update, arith, Bool-cases, Option-cases, later, Preserves,
  bind-Preserves, query-Preserves, is_empty,
}
use aura_risk.Curation.{
  ModerationStatus, pending, verified, rejected, auto, auto_verify_score, verification_score,
}
use aura_risk.Reports.{Report, Tables, with_id, is_rejected, Within}
use aura_risk.Reports.Moderation.{
  Decision, ModerationReport, decide_row, moderation_event, moderate_body, moderate, moderate_at,
  check_decision, moderate_report,
}
use aura_risk.Reports.Verifier.{
  PendingReport, verified_event, is_open, score_row, score_body, record_score, verify_each,
  gather_evidence, evidence_on, run_once, load_pending, queue,
}

-- Who decided fits what was decided: a pending report is undecided, an automatic decision is
-- `verified`, and a rejection is a moderator's and has a reason.
pub record IsDecided (r : Report) : Type 0 where
  pub undecided : r.moderation_status ≡ pending → r.moderated_by ≡ none
  pub decided : r.moderated_by ≡ none → r.moderation_status ≡ pending
  pub automatic : r.moderated_by ≡ some auto → r.moderation_status ≡ verified
  pub reasoned : r.moderation_status ≡ rejected → r.moderation_reason ≢ none

abbrev pub AllDecided : Tables → Type 0
AllDecided t = All IsDecided t.reports

decide_row-IsDecided :
    (now moderator : ℕ) (status : ModerationStatus) (req : Decision) (r : Report)
    → (is_rejected status && is_empty req.reason) ≡ false
    → IsDecided (decide_row now moderator status req r)
unfolding decide_row
decide_row-IsDecided now moderator status req r h = ground arith

-- What a call of the handler leaves: the tables as they were, or the decision and its event.
pub record IsModeration (now moderator report : ℕ) (status : ModerationStatus) (req : Decision)
    (t t' : Tables) : Type 0 where
  pub row : Report
  pub row_found : find (with_id report) t.reports ≡ some row
  pub reports : t'.reports ≡ update (with_id report) (decide_row now moderator status req) t.reports
  pub responses : t'.responses ≡ t.responses
  pub events :
      t'.events ≡ moderation_event now moderator report status req row.moderation_status ∷ t.events

moderate_body-ok :
    (now moderator report : ℕ) (status : ModerationStatus) (req : Decision) (t : Tables)
    (f : List Bool) (row : Report) (a : ModerationReport)
    → find (with_id report) t.reports ≡ some row
    → (moderate_body now moderator report status req t f).0 ≡ ok a
    → IsModeration now moderator report status req t
        (moderate_body now moderator report status req t f).1
unfolding moderate_body
moderate_body-ok now moderator report status req t f row a found e = record {
  row = row;
  row_found = found;
  reports = ground arith;
  responses = ground arith;
  events = ground arith;
}

pub moderate_cases :
    (now moderator report : ℕ) (status : ModerationStatus) (req : Decision) (t : Tables)
    (f : List Bool)
    → ((moderate now moderator report status req t f).1 ≡ t)
      ⊎ IsModeration now moderator report status req t
          (moderate now moderator report status req t f).1
unfolding moderate
moderate_cases now moderator report status req t f =
    elim (transaction-cases (moderate_body now moderator report status req) t f) [
      | inl same ↦ inl same
      | inr (a, done, same, _) ↦ elim (Option-cases (find (with_id report) t.reports)) [
        | inl gone ↦ absurd (unfold moderate_body in ground arith)
        | inr (r, found) ↦
            inr (
              rw same (moderate_body-ok now moderator report status req t (later f) r a found done))
      ]
    ]

module _ (now moderator : ℕ) (req : Decision) (t : Tables) (f : List Bool) (d : AllDecided t) where
  moderate_at-AllDecided :
      (status : ModerationStatus) (id : Option ℕ)
      → (is_rejected status && is_empty req.reason) ≡ false
      → AllDecided (moderate_at now moderator status req id t f).1
  unfolding moderate_at
  moderate_at-AllDecided status none good = d
  moderate_at-AllDecided status (some report) good =
      elim (moderate_cases now moderator report status req t f) [
        | inl same ↦ rw same d
        | inr m ↦ rw (m.reports) (
            All-update IsDecided (with_id report) _ t.reports
              (λ r _ _. decide_row-IsDecided now moderator status req r good) d)
      ]

  check_decision-AllDecided :
      (id : Option ℕ) (status : Option ModerationStatus)
      → AllDecided (check_decision now moderator id req status t f).1
  unfolding check_decision
  check_decision-AllDecided id none = d
  check_decision-AllDecided id (some status) =
      elim (Bool-cases (is_rejected status && is_empty req.reason)) [
        | inl bad ↦ rw bad d
        | inr good ↦ rw good (elim (Bool-cases (ltb 500 (length req.reason))) [
          | inl long ↦ rw long d
          | inr short ↦ rw short (moderate_at-AllDecided status id good)
        ])
      ]

-- Every call of the moderation handler, whatever it answers, keeps decisions and deciders in step:
-- a rejection has a reason, a pending report has no decider, and any other has one.
pub moderate_report-AllDecided :
    (now moderator : ℕ) (id : Option ℕ) (req : Option Decision) (t : Tables) (f : List Bool)
    → AllDecided t
    → AllDecided (moderate_report now moderator id req t f).1
unfolding moderate_report
moderate_report-AllDecided now moderator id none t f d = d
moderate_report-AllDecided now moderator id (some req) t f d =
    check_decision-AllDecided now moderator req t f d id req.status

-- What one scoring leaves: the tables as they were, or the scores and perhaps an event.
pub record IsScoring (now i score corroborations : ℕ) (t t' : Tables) : Type 0 where
  pub reports :
      t'.reports
      ≡ update
          (is_open i)
          (score_row now score corroborations (leb auto_verify_score score))
          t.reports
  pub responses : t'.responses ≡ t.responses
  pub events :
      ((leb auto_verify_score score && count_rows (is_open i) t.reports == 1) ≡ false)
        × (t'.events ≡ t.events)
      ⊎ ((leb auto_verify_score score && count_rows (is_open i) t.reports == 1) ≡ true)
        × (t'.events ≡ verified_event now i ∷ t.events)

score_body-ok :
    (now i score corroborations : ℕ) (t : Tables) (f : List Bool) (a : Bool)
    → (score_body now i score corroborations t f).0 ≡ ok a
    → IsScoring now i score corroborations t (score_body now i score corroborations t f).1
unfolding score_body
score_body-ok now i score corroborations t f a e = record {
  reports = ground arith;
  responses = ground arith;
  events = ground arith;
}

pub record_score_cases :
    (now i score corroborations : ℕ) (t : Tables) (f : List Bool)
    → ((record_score now i score corroborations t f).1 ≡ t)
      ⊎ IsScoring now i score corroborations t (record_score now i score corroborations t f).1
unfolding record_score
record_score_cases now i score corroborations t f =
    elim (transaction-cases (score_body now i score corroborations) t f) [
      | inl same ↦ inl same
      | inr (a, done, same, _) ↦
          inr (rw same (score_body-ok now i score corroborations t (later f) a done))
    ]

score_row-IsDecided :
    (now i score corroborations : ℕ) (verify : Bool) (r : Report)
    → IsDecided r
    → is_open i r ≡ true
    → IsDecided (score_row now score corroborations verify r)
unfolding score_row
score_row-IsDecided now i score corroborations verify r d o = ground arith

-- What a run of the verifier may do to a row: nothing if it is decided, and otherwise score it,
-- or verify it automatically. Its identity and its response stay.
pub record IsKept (r r' : Report) : Type 0 where
  pub same_id : r'.id ≡ r.id
  pub stands : r.moderated_by ≢ none → r' ≡ r
  pub never_rejects :
      (r'.moderation_status ≡ r.moderation_status) × (r'.moderated_by ≡ r.moderated_by)
      ⊎ (r.moderation_status ≡ pending)
        × (r'.moderation_status ≡ verified)
        × (r'.moderated_by ≡ some auto)

abbrev pub Kept : List Report → List Report → Type 0
Kept [] [] = Unit {0}
Kept [] (y ∷ ys) = ⊥
Kept (x ∷ xs) [] = ⊥
Kept (x ∷ xs) (y ∷ ys) = IsKept x y × Kept xs ys

IsKept-refl : (r : Report) → IsKept r r
IsKept-refl r = record { same_id = refl; stands = λ n. refl; never_rejects = inl (refl, refl) }

Kept-refl : (rs : List Report) → Kept rs rs
Kept-refl [] = tt
Kept-refl (r ∷ rs) = (IsKept-refl r, Kept-refl rs)

IsKept-trans : (x y z : Report) → IsKept x y → IsKept y z → IsKept x z
IsKept-trans x y z a b = record {
  same_id = b.same_id ∙ a.same_id;
  stands = λ n. b.stands (λ e. n (ap (λ r. r.moderated_by) (sym (a.stands n)) ∙ e)) ∙ a.stands n;
  never_rejects = ground (arith, a.never_rejects, b.never_rejects);
}

Kept-trans : (xs ys zs : List Report) → Kept xs ys → Kept ys zs → Kept xs zs
Kept-trans [] [] [] a b = tt
Kept-trans [] [] (z ∷ zs) a b = b
Kept-trans [] (y ∷ ys) zs a b = absurd a
Kept-trans (x ∷ xs) [] zs a b = absurd a
Kept-trans (x ∷ xs) (y ∷ ys) [] a b = b
Kept-trans (x ∷ xs) (y ∷ ys) (z ∷ zs) a b =
    (IsKept-trans x y z a.0 b.0, Kept-trans xs ys zs a.1 b.1)

score_row-IsKept :
    (now i score corroborations : ℕ) (verify : Bool) (r : Report)
    → is_open i r ≡ true
    → IsKept r (score_row now score corroborations verify r)
unfolding score_row
score_row-IsKept now i score corroborations verify r o = record {
  same_id = refl;
  stands = λ n. absurd (n (ground arith));
  never_rejects = ground arith;
}

Kept-update :
    (p : Report → Bool) (g : Report → Report) (rs : List Report)
    → ((r : Report) → p r ≡ true → IsKept r (g r))
    → Kept rs (update p g rs)
Kept-update p g [] h = tt
Kept-update p g (r ∷ rs) h = (head (p r) refl, Kept-update p g rs h)
  where
    head : (b : Bool) → p r ≡ b → IsKept r (if b then g r else r)
    head true e = h r e
    head false e = IsKept-refl r

module _ (start : List Report) where
  abbrev KeptSince : Tables → Type 0
  KeptSince t = Kept start t.reports × AllDecided t

  record_score-KeptSince :
      (now i score corroborations : ℕ)
      → Preserves KeptSince (record_score now i score corroborations)
  record_score-KeptSince now i score corroborations t f k =
      elim (record_score_cases now i score corroborations t f) [
        | inl same ↦ rw same k
        | inr m ↦ rw (m.reports) (
          Kept-trans start t.reports _ k.0 (
              Kept-update (is_open i) _ t.reports
                (λ r o. score_row-IsKept now i score corroborations _ r o)),
          All-update IsDecided (is_open i) _ t.reports
              (λ r d o. score_row-IsDecided now i score corroborations _ r d o) k.1,
        )
      ]

  gather_evidence-KeptSince :
      (within : Within) (ready : ℕ → Bool) (p : PendingReport)
      → Preserves KeptSince (gather_evidence within ready p)
  unfolding gather_evidence
  gather_evidence-KeptSince within ready p =
      bind-Preserves KeptSince (query (λ t. (evidence_on within ready p t.reports).1)) _
        (query-Preserves KeptSince _)
        (λ rows.
          bind-Preserves KeptSince (query (λ t. (evidence_on within ready p t.reports).0)) _
            (query-Preserves KeptSince _) (λ evidence t f k. k))

  verify_each-KeptSince :
      (within : Within) (ready : ℕ → Bool) (now : ℕ) (ps : List PendingReport) (n : ℕ)
      → Preserves KeptSince (verify_each within ready now ps n)
  unfolding verify_each
  verify_each-KeptSince within ready now [] n t f k = k
  verify_each-KeptSince within ready now (p ∷ ps) n t f k =
      bind-Preserves KeptSince (gather_evidence within ready p)
        (λ found. record_score now p.id (verification_score found.0) found.1 >>= λ done.
          verify_each within ready now ps (if done then n + 1 else n))
        (gather_evidence-KeptSince within ready p)
        (λ found.
          bind-Preserves KeptSince (record_score now p.id (verification_score found.0) found.1)
            (λ done. verify_each within ready now ps (if done then n + 1 else n))
            (record_score-KeptSince now p.id (verification_score found.0) found.1)
            (λ done. verify_each-KeptSince within ready now ps (if done then n + 1 else n)))
        t f k

  run_once-KeptSince :
      (within : Within) (ready : ℕ → Bool) (now : ℕ) (locked : Bool)
      → Preserves KeptSince (run_once within ready now locked)
  unfolding run_once
  run_once-KeptSince within ready now false t f k = k
  run_once-KeptSince within ready now true t f k =
      bind-Preserves KeptSince (query (λ t. load_pending now t.reports)) _
        (query-Preserves KeptSince (λ t. load_pending now t.reports))
        (λ ps.
          bind-Preserves KeptSince (verify_each within ready now ps 0) _
            (verify_each-KeptSince within ready now ps 0)
            (λ n.
              bind-Preserves KeptSince (query queue) _ (query-Preserves KeptSince queue)
                (λ left t f k. k)))
        t f k

-- A run of the verifier over tables in step, on any reading of distances and photos and with any
-- failures of the database, changes no report that anyone has decided, rejects none, verifies only
-- pending ones in its own name, and leaves the tables in step.
pub run_once-Kept :
    (within : Within) (ready : ℕ → Bool) (now : ℕ) (locked : Bool) (t : Tables) (f : List Bool)
    → AllDecided t
    → let t' = (run_once within ready now locked t f).1 in Kept t.reports t'.reports × AllDecided t'
run_once-Kept within ready now locked t f d =
    run_once-KeptSince t.reports within ready now locked t f (Kept-refl t.reports, d)
