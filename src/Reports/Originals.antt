-- ===== src/Reports/Originals.antt =====
-- reports.go, moderation.go and verifier.go: what the column duplicate_of points to.
use aura_risk.Base.{
  All-limit, ℕ, ◌+◌, ◌≡◌, refl, ◌⊎◌, inl, inr, sym, ◌∙◌, Bool, true, false, ◌&&◌, Option, none,
  some, List, [], ◌∷◌, map, ltb, leb, if◌then◌else◌, exists, update, All, All-imp, All-select,
  arith, Bool-cases, Option-cases, Preserves, bind-Preserves, query-Preserves, is_empty, length,
  ◌>>=◌, query,
}
use aura_risk.Curation.{ModerationStatus, Library, original, auto_verify_score, verification_score}
use aura_risk.Curation.Duplicates.{find_duplicate-original}
use aura_risk.Reports.{
  Report, Tables, with_id, is_none, is_rejected, Within, Submission, store_report, new_row,
  duplicate_in, candidates, candidate, is_near_recent, oldest_first, insert_by_age,
}
use aura_risk.Reports.Moderation.{
  Decision, decide_row, moderate_at, check_decision, moderate_report,
}
use aura_risk.Reports.Verifier.{
  PendingReport, is_open, score_row, record_score, verify_each, gather_evidence, evidence_on,
  run_once, load_pending, queue,
}
use aura_risk.Reports.Decisions.{moderate_cases, record_score_cases}
use aura_risk.Reports.Audit.{
  Operation, submits, moderates, verifies, operate, operate_all, store_cases,
}

abbrev pub is_original : ℕ → Report → Bool
is_original d r = with_id d r && is_none r.duplicate_of

abbrev pub Points : List Report → Report → Type 0
Points rs r = (d : ℕ) → r.duplicate_of ≡ some d → exists (is_original d) rs ≡ true

-- Every duplicate points to an original: no chains, and no report that is not there.
unfoldable pub AllPoint : Tables → Type 0
AllPoint t = All (Points t.reports) t.reports

Points-more : (x : Report) (rs : List Report) (r : Report) → Points rs r → Points (x ∷ rs) r
Points-more x rs r h d e = ground (arith, h d e)

originals_here :
    (rs : List Report) → All (λ r. r.duplicate_of ≡ none → exists (is_original r.id) rs ≡ true) rs
originals_here [] = tt
originals_here (x ∷ rs) =
    (λ e. ground arith, All-imp rs (λ r h e. ground (arith, h e)) (originals_here rs))

-- What a candidate of the table stands for is an original.
stands_for :
    (now : ℕ) (rs : List Report) (r : Report)
    → Points rs r
    → (r.duplicate_of ≡ none → exists (is_original r.id) rs ≡ true)
    → exists (is_original (original (candidate now r))) rs ≡ true
stands_for now rs r h here = elim (Option-cases r.duplicate_of) [
  | inl e ↦ rw e (here e)
  | inr (d, e) ↦ rw e (h d e)
]

All-both {ℓ κ κ'} :
    {A : Type ℓ} (P : A → Type κ) (Q : A → Type κ') (xs : List A)
    → All P xs
    → All Q xs
    → All (λ x. P x × Q x) xs
All-both P Q [] p q = tt
All-both P Q (x ∷ xs) p q = ((p.0, q.0), All-both P Q xs p.1 q.1)

module _ (P : Report → Type 0) where
  insert_by_age-All : (r : Report) (rs : List Report) → P r → All P rs → All P (insert_by_age r rs)
  unfolding insert_by_age
  insert_by_age-All r [] p all = (p, tt)
  insert_by_age-All r (x ∷ rs) p all = elim (Bool-cases (ltb r.created_at x.created_at)) [
    | inl e ↦ rw e (p, all)
    | inr e ↦ rw e (all.0, insert_by_age-All r rs p all.1)
  ]

  oldest_first-All : (rs : List Report) → All P rs → All P (oldest_first rs)
  unfolding oldest_first
  oldest_first-All [] all = tt
  oldest_first-All (r ∷ rs) all = insert_by_age-All r _ all.0 (oldest_first-All rs all.1)

map-All {ℓ κ μ} :
    {A : Type ℓ} {B : Type κ} (P : B → Type μ) (g : A → B) (xs : List A)
    → All (λ x. P (g x)) xs
    → All P (map g xs)
map-All P g [] all = tt
map-All P g (x ∷ xs) all = (all.0, map-All P g xs all.1)

duplicate_in_original :
    (lib : Library) (within : Within) (now : ℕ) (s : Submission) (rs : List Report) (d : ℕ)
    → All (Points rs) rs
    → duplicate_in lib within now s rs ≡ some d
    → exists (is_original d) rs ≡ true
unfolding duplicate_in candidates
duplicate_in_original lib within now s rs d all e =
    find_duplicate-original lib Known _ _ d
      (map-All (λ c. Known (original c)) (candidate now) _
        (All-limit Stands 200 _ (
          oldest_first-All Stands _
            (All-select Stands (is_near_recent within now s.place) rs stand))))
      e
  where
    Known : ℕ → Type 0
    Known i = exists (is_original i) rs ≡ true

    Stands : Report → Type 0
    Stands r = Known (original (candidate now r))

    stand : All Stands rs
    stand =
        All-imp rs (λ r p. stands_for now rs r p.0 p.1)
          (All-both (Points rs) (λ r. r.duplicate_of ≡ none → exists (is_original r.id) rs ≡ true)
            rs all (originals_here rs))

-- An update that keeps ids and makes no duplicates keeps every pointer good.
module _ (p : Report → Bool) (g : Report → Report) (same : (r : Report) → (g r).id ≡ r.id)
    (fewer : (r : Report)
      → ((g r).duplicate_of ≡ none) ⊎ ((g r).duplicate_of ≡ r.duplicate_of)) where
  exists_original :
      (d : ℕ) (rs : List Report)
      → exists (is_original d) rs ≡ true
      → exists (is_original d) (update p g rs) ≡ true
  exists_original d [] e = e
  exists_original d (r ∷ rs) e = ground (arith, same r, fewer r, exists_original d rs)

  row-Points : (rs : List Report) (r : Report) → Points rs r → Points (update p g rs) (g r)
  row-Points rs r h d e = elim (fewer r) [
    | inl now ↦ cc
    | inr kept ↦ exists_original d rs (h d (sym kept ∙ e))
  ]

  update-Points :
      (rs xs : List Report) → All (Points rs) xs → All (Points (update p g rs)) (update p g xs)
  update-Points rs [] all = tt
  update-Points rs (x ∷ xs) all = elim (Bool-cases (p x)) [
    | inl hit ↦ rw hit (row-Points rs x all.0, update-Points rs xs all.1)
    | inr miss ↦ rw miss (λ d e. exists_original d rs (all.0 d e), update-Points rs xs all.1)
  ]

decide_row-fewer :
    (now moderator : ℕ) (status : ModerationStatus) (req : Decision) (r : Report)
    → ((decide_row now moderator status req r).duplicate_of ≡ none)
      ⊎ ((decide_row now moderator status req r).duplicate_of ≡ r.duplicate_of)
unfolding decide_row
decide_row-fewer now moderator status req r = elim (Bool-cases req.not_duplicate) [
  | inl e ↦ inl (rw e)
  | inr e ↦ inr (rw e)
]

decided_same_id :
    (now moderator : ℕ) (status : ModerationStatus) (req : Decision) (r : Report)
    → (decide_row now moderator status req r).id ≡ r.id
unfolding decide_row
decided_same_id now moderator status req r = refl

moderate_at-AllPoint :
    (now moderator : ℕ) (status : ModerationStatus) (req : Decision) (id : Option ℕ)
    → Preserves AllPoint (moderate_at now moderator status req id)
unfolding moderate_at AllPoint
moderate_at-AllPoint now moderator status req none t f a = a
moderate_at-AllPoint now moderator status req (some report) t f a =
    elim (moderate_cases now moderator report status req t f) [
      | inl same ↦ rw same a
      | inr m ↦ rw (m.reports) (
          update-Points (with_id report) (decide_row now moderator status req)
            (decided_same_id now moderator status req) (decide_row-fewer now moderator status req)
            t.reports t.reports a)
    ]

moderate_report-AllPoint :
    (now moderator : ℕ) (id : Option ℕ) (req : Option Decision)
    → Preserves AllPoint (moderate_report now moderator id req)
unfolding moderate_report check_decision
moderate_report-AllPoint now moderator id none t f a = a
moderate_report-AllPoint now moderator id (some req) t f a = checked req.status
  where
    checked :
        (status : Option ModerationStatus)
        → AllPoint (check_decision now moderator id req status t f).1
    checked none = a
    checked (some status) = elim (Bool-cases (is_rejected status && is_empty req.reason)) [
      | inl bad ↦ rw bad a
      | inr good ↦ rw good (elim (Bool-cases (ltb 500 (length req.reason))) [
        | inl long ↦ rw long a
        | inr short ↦ rw short (moderate_at-AllPoint now moderator status req id t f a)
      ])
    ]

record_score-AllPoint :
    (now i score corroborations : ℕ) → Preserves AllPoint (record_score now i score corroborations)
unfolding AllPoint
record_score-AllPoint now i score corroborations t f a =
    elim (record_score_cases now i score corroborations t f) [
      | inl same ↦ rw same a
      | inr m ↦ rw (m.reports) (
          update-Points (is_open i)
            (score_row now score corroborations (leb auto_verify_score score))
            (λ r. unfold score_row in refl) (λ r. inr (unfold score_row in refl)) t.reports
            t.reports a)
    ]

verify_each-AllPoint :
    (within : Within) (ready : ℕ → Bool) (now : ℕ) (ps : List PendingReport) (n : ℕ)
    → Preserves AllPoint (verify_each within ready now ps n)
unfolding verify_each gather_evidence
verify_each-AllPoint within ready now [] n t f a = a
verify_each-AllPoint within ready now (p ∷ ps) n t f a =
    bind-Preserves AllPoint (gather_evidence within ready p)
      (λ found. record_score now p.id (verification_score found.0) found.1 >>= λ done.
        verify_each within ready now ps (if done then n + 1 else n))
      (bind-Preserves AllPoint (query (λ t. (evidence_on within ready p t.reports).1)) _
        (query-Preserves AllPoint (λ t. (evidence_on within ready p t.reports).1))
        (λ rows.
          bind-Preserves AllPoint (query (λ t. (evidence_on within ready p t.reports).0)) _
            (query-Preserves AllPoint (λ t. (evidence_on within ready p t.reports).0))
            (λ evidence t f k. k)))
      (λ found.
        bind-Preserves AllPoint (record_score now p.id (verification_score found.0) found.1)
          (λ done. verify_each within ready now ps (if done then n + 1 else n))
          (record_score-AllPoint now p.id (verification_score found.0) found.1)
          (λ done. verify_each-AllPoint within ready now ps (if done then n + 1 else n)))
      t f a

run_once-AllPoint :
    (within : Within) (ready : ℕ → Bool) (now : ℕ) (free : Bool)
    → Preserves AllPoint (run_once within ready now free)
unfolding run_once
run_once-AllPoint within ready now false t f a = a
run_once-AllPoint within ready now true t f a =
    bind-Preserves AllPoint (query (λ t. load_pending now t.reports)) _
      (query-Preserves AllPoint (λ t. load_pending now t.reports))
      (λ ps.
        bind-Preserves AllPoint (verify_each within ready now ps 0) _
          (verify_each-AllPoint within ready now ps 0)
          (λ n.
            bind-Preserves AllPoint (query queue) _ (query-Preserves AllPoint queue)
              (λ left t f k. k)))
      t f a

store_report-AllPoint :
    (lib : Library) (within : Within) (now new_id : ℕ) (s : Submission)
    → Preserves AllPoint (store_report lib within now new_id s)
unfolding AllPoint new_row
store_report-AllPoint lib within now new_id s t f a =
    elim (store_cases lib within now new_id s t f) [
      | inl same ↦ rw same a
      | inr (new, same) ↦ rw same (
        new_points,
        All-imp t.reports
            (Points-more (new_row now new_id (duplicate_in lib within now s t.reports) s) t.reports)
            a,
      )
    ]
  where
    new_points :
        Points
          (new_row now new_id (duplicate_in lib within now s t.reports) s ∷ t.reports)
          (new_row now new_id (duplicate_in lib within now s t.reports) s)
    new_points d e =
        Points-more (new_row now new_id (duplicate_in lib within now s t.reports) s) t.reports
          (new_row now new_id (duplicate_in lib within now s t.reports) s)
          (λ d e. duplicate_in_original lib within now s t.reports d a e) d e

operate-AllPoint :
    (lib : Library) (within : Within) (t : Tables) (o : Operation) (f : List Bool)
    → AllPoint t
    → AllPoint (operate lib within t o f)
unfolding operate
operate-AllPoint lib within t (submits now new_id s) f a =
    store_report-AllPoint lib within now new_id s t f a
operate-AllPoint lib within t (moderates now moderator id req) f a =
    moderate_report-AllPoint now moderator id req t f a
operate-AllPoint lib within t (verifies now ready free) f a =
    run_once-AllPoint within ready now free t f a

-- Where every duplicate points to an original, every sequence of submissions, moderators' requests
-- and verifier runs, with any failures among them, leaves it so: a new report is never filed
-- under one that is itself a duplicate, nor under one that is not in the table.
pub operate_all-AllPoint :
    (lib : Library) (within : Within) (t : Tables) (os : List (Operation × List Bool))
    → AllPoint t
    → AllPoint (operate_all lib within t os)
unfolding operate_all
operate_all-AllPoint lib within t [] a = a
operate_all-AllPoint lib within t ((o, f) ∷ os) a =
    operate_all-AllPoint lib within (operate lib within t o f) os
      (operate-AllPoint lib within t o f a)
