-- ===== src/Reports/Rescoring.antt =====
-- verifier.go keeps the audit trail.
use aura_risk.Base.{
  Distinct, ℕ, ◌+◌, ◌≤◌, ◌≡◌, refl, ◌⊎◌, inl, inr, subst, sym, ◌∙◌, Bool, true, false, ◌&&◌, List,
  [], ◌∷◌, leb, ◌==◌, if◌then◌else◌, count_rows, exists, update, All, All-update, ◌>>=◌, query,
  Preserves, bind-Preserves, query-Preserves, arith, Bool-cases,
}
use aura_risk.Curation.{pending, auto_verify_score, verification_score}
use aura_risk.Reports.{Report, Tables, ModerationEvent, with_id, Within}
use aura_risk.Reports.Verifier.{
  PendingReport, verified_event, is_open, score_row, record_score, verify_each, gather_evidence,
  evidence_on, run_once, load_pending, queue,
}
use aura_risk.Reports.Decisions.{record_score_cases}
use aura_risk.Reports.Trail.{
  status_after, Explains, IsAudited, exists-update, Distinct-update, known-update,
}

no_open : (i : ℕ) (rs : List Report) → exists (with_id i) rs ≡ false → count_rows (is_open i) rs ≡ 0
no_open i [] e = refl
no_open i (r ∷ rs) e = ground (arith, no_open i rs)

no_open_of :
    (i j : ℕ) (rs : List Report)
    → j ≡ i
    → exists (with_id j) rs ≡ false
    → count_rows (is_open i) rs ≡ 0
no_open_of i j rs e n = no_open i rs (subst (λ k. exists (with_id k) rs ≡ false) e n)

open_once : (i : ℕ) (rs : List Report) → Distinct (λ r. r.id) rs → count_rows (is_open i) rs ≤ 1
open_once i [] d = omega arith
open_once i (r ∷ rs) d = ground (arith, open_once i rs d.1, no_open_of i r.id rs, d.0)

open_pending :
    (i : ℕ) (es : List ModerationEvent) (rs : List Report)
    → count_rows (is_open i) rs ≡ 1
    → All (Explains es) rs
    → (status_after i es ≡ pending) × (exists (with_id i) rs ≡ true)
open_pending i es [] c x = absurd (omega arith)
open_pending i es (r ∷ rs) c x = ground (arith, open_pending i es rs, x.0, x.1)

unopened :
    (i : ℕ) (g : Report → Report) (rs : List Report)
    → count_rows (is_open i) rs ≡ 0
    → update (is_open i) g rs ≡ rs
unopened i g [] c = refl
unopened i g (r ∷ rs) c = ground (arith, unopened i g rs)

-- Rows of other reports are explained as before.
others_explained :
    (e : ModerationEvent) (es : List ModerationEvent) (rs : List Report)
    → exists (with_id e.report_id) rs ≡ false
    → All (Explains es) rs
    → All (Explains (e ∷ es)) rs
others_explained e es [] n x = tt
others_explained e es (r ∷ rs) n x = (ground arith, others_explained e es rs (ground arith) x.1)

kept_explained :
    (i : ℕ) (g : Report → Report) (e : ModerationEvent) (es : List ModerationEvent) (r : Report)
    → is_open i r ≡ false
    → (e.report_id == r.id) ≡ false
    → Explains es r
    → Explains (e ∷ es) (if is_open i r then g r else r)
kept_explained i g e es r miss other x =
    subst (Explains (e ∷ es)) (sym stays) (x ∙ sym (skips (e.report_id == r.id) other))
  where
    stays : (if is_open i r then g r else r) ≡ r
    stays = rw miss

    skips :
        (b : Bool)
        → b ≡ false
        → (if b then e.to_status else status_after r.id es) ≡ status_after r.id es
    skips b n = rw n

-- The one open row becomes verified, which the new event explains.
scored_explained :
    (now i score corroborations : ℕ) (es : List ModerationEvent) (rs : List Report)
    → Distinct (λ r. r.id) rs
    → count_rows (is_open i) rs ≡ 1
    → All (Explains es) rs
    → All
        (Explains (verified_event now i ∷ es))
        (update (is_open i) (score_row now score corroborations true) rs)
unfolding score_row
scored_explained now i score corroborations es [] d c x = tt
scored_explained now i score corroborations es (r ∷ rs) d c x = elim (Bool-cases (is_open i r)) [
  | inl hit ↦
      let none_left : count_rows (is_open i) rs ≡ 0 = ground arith in
      rw (hit, unopened i (score_row now score corroborations true) rs none_left)
        (ground arith, others_explained (verified_event now i) es rs (ground (arith, d.0)) x.1)
  | inr miss ↦ elim (Bool-cases (i == r.id)) [
    | inl same ↦ absurd (ground (arith, no_open_of i r.id rs (ground arith) d.0))
    | inr other ↦ (
      kept_explained i (score_row now score corroborations true) (verified_event now i) es r miss
          other x.0,
      scored_explained now i score corroborations es rs d.1 (ground arith) x.1,
    )
  ]
]

rescored_explained :
    (now i score corroborations : ℕ) (es : List ModerationEvent) (rs : List Report)
    → All (Explains es) rs
    → All (Explains es) (update (is_open i) (score_row now score corroborations false) rs)
unfolding score_row
rescored_explained now i score corroborations es rs x =
    All-update (Explains es) (is_open i) _ rs (λ r e o. e) x

scored_same_id :
    (now score corroborations : ℕ) (verify : Bool) (r : Report)
    → (score_row now score corroborations verify r).id ≡ r.id
unfolding score_row
scored_same_id now score corroborations verify r = refl

scored_rows :
    (now i score corroborations : ℕ) (verify : Bool) (t : Tables) (es : List ModerationEvent)
    → IsAudited t
    → (((verify && count_rows (is_open i) t.reports == 1) ≡ false) × (es ≡ t.events))
      ⊎ (((verify && count_rows (is_open i) t.reports == 1) ≡ true)
          × (es ≡ verified_event now i ∷ t.events))
    → IsAudited (record t {
      reports = update (is_open i) (score_row now score corroborations verify) t.reports;
      events = es;
    })
scored_rows now i score corroborations false t es a (inl (_, same)) = rw same (record {
  distinct =
      Distinct-update (is_open i) _ (scored_same_id now score corroborations false) t.reports
        a.distinct;
  known =
      known-update (is_open i) _ (scored_same_id now score corroborations false) t.events t.reports
        a.known;
  chained = a.chained;
  explained = rescored_explained now i score corroborations t.events t.reports a.explained;
})
scored_rows now i score corroborations true t es a (inl (miss, same)) =
    rw
      (
        same,
        unopened i (score_row now score corroborations true) t.reports
            (ground (arith, open_once i t.reports a.distinct)),
      )
      a
scored_rows now i score corroborations false t es a (inr (hit, new)) = cc
scored_rows now i score corroborations true t es a (inr (hit, new)) =
    let once : count_rows (is_open i) t.reports ≡ 1 = ground arith in
    let (was_pending, there) = open_pending i t.events t.reports once a.explained in
    rw new (record {
      distinct =
          Distinct-update (is_open i) _ (scored_same_id now score corroborations true) t.reports
            a.distinct;
      known = (
        exists-update (is_open i) _ (scored_same_id now score corroborations true) i t.reports
            ∙ there,
        known-update (is_open i) _ (scored_same_id now score corroborations true) t.events t.reports
            a.known,
      );
      chained = (sym was_pending, a.chained);
      explained =
          scored_explained now i score corroborations t.events t.reports a.distinct once
            a.explained;
    })

record_score-IsAudited :
    (now i score corroborations : ℕ) → Preserves IsAudited (record_score now i score corroborations)
record_score-IsAudited now i score corroborations t f a =
    elim (record_score_cases now i score corroborations t f) [
      | inl same ↦ rw same a
      | inr m ↦ subst IsAudited (ground arith) (
          scored_rows now i score corroborations (leb auto_verify_score score) t
            (record_score now i score corroborations t f).1.events a m.events)
    ]

gather_evidence-IsAudited :
    (within : Within) (ready : ℕ → Bool) (p : PendingReport)
    → Preserves IsAudited (gather_evidence within ready p)
unfolding gather_evidence
gather_evidence-IsAudited within ready p =
    bind-Preserves IsAudited (query (λ t. (evidence_on within ready p t.reports).1)) _
      (query-Preserves IsAudited _)
      (λ rows.
        bind-Preserves IsAudited (query (λ t. (evidence_on within ready p t.reports).0)) _
          (query-Preserves IsAudited _) (λ evidence t f k. k))

verify_each-IsAudited :
    (within : Within) (ready : ℕ → Bool) (now : ℕ) (ps : List PendingReport) (n : ℕ)
    → Preserves IsAudited (verify_each within ready now ps n)
unfolding verify_each
verify_each-IsAudited within ready now [] n t f k = k
verify_each-IsAudited within ready now (p ∷ ps) n t f k =
    bind-Preserves IsAudited (gather_evidence within ready p)
      (λ found. record_score now p.id (verification_score found.0) found.1 >>= λ done.
        verify_each within ready now ps (if done then n + 1 else n))
      (gather_evidence-IsAudited within ready p)
      (λ found.
        bind-Preserves IsAudited (record_score now p.id (verification_score found.0) found.1)
          (λ done. verify_each within ready now ps (if done then n + 1 else n))
          (record_score-IsAudited now p.id (verification_score found.0) found.1)
          (λ done. verify_each-IsAudited within ready now ps (if done then n + 1 else n)))
      t f k

pub run_once-IsAudited :
    (within : Within) (ready : ℕ → Bool) (now : ℕ) (free : Bool)
    → Preserves IsAudited (run_once within ready now free)
unfolding run_once
run_once-IsAudited within ready now false t f k = k
run_once-IsAudited within ready now true t f k =
    bind-Preserves IsAudited (query (λ t. load_pending now t.reports)) _
      (query-Preserves IsAudited (λ t. load_pending now t.reports))
      (λ ps.
        bind-Preserves IsAudited (verify_each within ready now ps 0) _
          (verify_each-IsAudited within ready now ps 0)
          (λ n.
            bind-Preserves IsAudited (query queue) _ (query-Preserves IsAudited queue)
              (λ left t f k. k)))
      t f k
