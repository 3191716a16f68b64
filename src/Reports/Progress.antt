-- ===== src/Reports/Progress.antt =====
-- responders.go and response.go: a report's response only moves forward, inside the county.
use aura_risk.Base.{
  Distinct, ℕ, ◌<◌, ◌↔◌, ◌≡◌, refl, ◌≢◌, ◌⊎◌, inl, inr, subst, sym, Bool, true, false, ◌&&◌, Option,
  none, some, List, [], ◌∷◌, ltb, length, ◌==◌, if◌then◌else◌, find, some_eq, exists, update, All,
  All-find, ok, transaction-cases, arith, Bool-cases, Option-cases, later, Text,
}
use aura_risk.Reports.{
  Report, Tables, ResponseStatus, open_status, acknowledged, resolved, ResponseEvent, with_id,
}
use aura_risk.Reports.Trail.{Distinct-update}
use aura_risk.Reports.Response.{
  respond_body, response_event, Move, acknowledge, resolve, target, can_change_response,
  respond_row, respond, respond_at, in_scope, ResponseUpdate, update_report_response,
}

-- The response's timestamps fit its status.
pub record IsTimed (r : Report) : Type 0 where
  pub unanswered : r.response_status ≡ open_status → r.acknowledged_at ≡ none
  pub answered : r.response_status ≢ open_status → r.acknowledged_at ≢ none
  pub unfinished : r.response_status ≢ resolved → r.resolved_at ≡ none
  pub finished : r.response_status ≡ resolved → r.resolved_at ≢ none

abbrev pub rank : ResponseStatus → ℕ
rank open_status = 0
rank acknowledged = 1
rank resolved = 2

-- The rule of CanChangeResponse: a move is allowed exactly if it goes forward.
pub can_change_response_iff :
    (a b : ResponseStatus) → (can_change_response a b ≡ true) ↔ (rank a < rank b)
unfolding can_change_response
can_change_response_iff a b = (λ h. ground arith, λ h. ground arith)

respond_row-IsTimed :
    (now : ℕ) (move : Move) (r : Report)
    → rank r.response_status < rank (target move)
    → IsTimed r
    → IsTimed (respond_row now move r)
unfolding respond_row
respond_row-IsTimed now acknowledge r h t = ground (arith, t.unfinished)
respond_row-IsTimed now resolve r h t = ground arith

-- A row moved forward: it is a verified original of the county, and only its response changed.
pub record IsForward (county : ℕ) (r r' : Report) : Type 0 where
  pub scoped : in_scope county r ≡ true
  pub forward : rank r.response_status < rank r'.response_status
  pub same_status : r'.moderation_status ≡ r.moderation_status
  pub same_decider : r'.moderated_by ≡ r.moderated_by
  pub same_county : r'.county ≡ r.county
  pub timed : IsTimed r → IsTimed r'

-- The rows of two tables, one by one: as it was, or moved forward.
pub Advanced : ℕ → List Report → List Report → Type 0
Advanced county [] [] = Unit
Advanced county (r ∷ rs) (r' ∷ rs') = ((r' ≡ r) ⊎ IsForward county r r') × Advanced county rs rs'
Advanced county _ _ = ⊥

Advanced-refl : (county : ℕ) (rs : List Report) → Advanced county rs rs
unfolding Advanced
Advanced-refl county [] = tt
Advanced-refl county (r ∷ rs) = (inl refl, Advanced-refl county rs)

absent :
    (i : ℕ) (g : Report → Report) (rs : List Report)
    → exists (with_id i) rs ≡ false
    → update (with_id i) g rs ≡ rs
absent i g [] n = refl
absent i g (r ∷ rs) n = ground (arith, absent i g rs)

find-exists :
    (i : ℕ) (p : Report → Bool) (rs : List Report) (row : Report)
    → find (λ r. with_id i r && p r) rs ≡ some row
    → exists (with_id i) rs ≡ true
find-exists i p [] row e = cc
find-exists i p (x ∷ rs) row e = ground (arith, find-exists i p rs row)

respond_row-IsForward :
    (now county : ℕ) (move : Move) (r row : Report)
    → some r ≡ some row
    → in_scope county r ≡ true
    → can_change_response row.response_status (target move) ≡ true
    → IsForward county r (respond_row now move r)
unfolding respond_row
respond_row-IsForward now county move r row e scoped allowed =
    let forward : rank r.response_status < rank (target move) =
      (can_change_response_iff r.response_status (target move)).0 (
        subst (λ x. can_change_response x.response_status (target move) ≡ true) (sym (some_eq e))
          allowed) in
    record {
      scoped = scoped;
      forward = forward;
      same_status = refl;
      same_decider = refl;
      same_county = refl;
      timed = unfold respond_row in respond_row-IsTimed now move r forward;
    }

advance :
    (now county i : ℕ) (move : Move) (rs : List Report) (row : Report)
    → Distinct (λ r. r.id) rs
    → find (λ r. with_id i r && in_scope county r) rs ≡ some row
    → can_change_response row.response_status (target move) ≡ true
    → Advanced county rs (update (with_id i) (respond_row now move) rs)
unfolding Advanced
advance now county i move [] row d e a = cc
advance now county i move (r ∷ rs) row d e a = elim (Bool-cases (with_id i r)) [
  | inl hit ↦
      let gone : exists (with_id i) rs ≡ false =
        subst (λ j. exists (with_id j) rs ≡ false) (ground arith) d.0 in
      rw hit (elim (Bool-cases (in_scope county r)) [
        | inl scoped ↦ (
          inr (respond_row-IsForward now county move r row (rw (hit, scoped) at e) scoped a),
          rw (absent i (respond_row now move) rs gone) (Advanced-refl county rs),
        )
        | inr out ↦ absurd (ground (arith, find-exists i (in_scope county) rs row))
      ])
  | inr other ↦ rw other (inl refl, advance now county i move rs row d.1 (rw other at e) a)
]

-- What the transaction leaves: the tables as they were, or one row moved and its event.
record IsResponse (now responder county report : ℕ) (move : Move) (note : Text) (t t' : Tables)
    : Type 0 where
  row : Report
  row_found : find (λ r. with_id report r && in_scope county r) t.reports ≡ some row
  allowed : can_change_response row.response_status (target move) ≡ true
  reports : t'.reports ≡ update (with_id report) (respond_row now move) t.reports
  events : t'.events ≡ t.events
  responses :
      t'.responses ≡ response_event now responder report move note row.response_status ∷ t.responses

respond_body-ok :
    (now responder county report : ℕ) (move : Move) (note : Text) (t : Tables) (f : List Bool)
    (row : Report)
    → find (λ r. with_id report r && in_scope county r) t.reports ≡ some row
    → (respond_body now responder county report move note t f).0 ≡ ok tt
    → IsResponse now responder county report move note t
        (respond_body now responder county report move note t f).1
unfolding respond_body
respond_body-ok now responder county report move note t f row found e = record {
  row = row;
  row_found = found;
  allowed = ground arith;
  reports = ground arith;
  events = ground arith;
  responses = ground arith;
}

respond_cases :
    (now responder county report : ℕ) (move : Move) (note : Text) (t : Tables) (f : List Bool)
    → ((respond now responder county report move note t f).1 ≡ t)
      ⊎ IsResponse now responder county report move note t
          (respond now responder county report move note t f).1
unfolding respond
respond_cases now responder county report move note t f =
    elim (transaction-cases (respond_body now responder county report move note) t f) [
      | inl same ↦ inl same
      | inr (tt, done, same, _) ↦
          elim (Option-cases (find (λ r. with_id report r && in_scope county r) t.reports)) [
            | inl gone ↦ absurd (unfold respond_body in ground arith)
            | inr (r, found) ↦ inr (
                rw same
                  (respond_body-ok now responder county report move note t (later f) r found done))
          ]
    ]

-- Each event is a step forward, and leaves from where the report's earlier ones led.
abbrev pub response_after : ℕ → List ResponseEvent → ResponseStatus
response_after i [] = open_status
response_after i (e ∷ es) = if e.report_id == i then e.to_status else response_after i es

abbrev pub Forward : List ResponseEvent → Type 0
Forward [] = Unit {0}
Forward (e ∷ es) =
    (e.from_status ≡ response_after e.report_id es)
    × (rank e.from_status < rank e.to_status)
    × Forward es

abbrev pub Told : List ResponseEvent → Report → Type 0
Told es r = r.response_status ≡ response_after r.id es

-- The log of responses tells each report's response, and its timestamps fit.
pub record IsLogged (t : Tables) : Type 0 where
  pub distinct : Distinct (λ r. r.id) t.reports
  pub forward : Forward t.responses
  pub told : All (Told t.responses) t.reports
  pub timed : All IsTimed t.reports

Advanced-IsTimed :
    (county : ℕ) (rs rs' : List Report) → Advanced county rs rs' → All IsTimed rs → All IsTimed rs'
unfolding Advanced
Advanced-IsTimed county [] [] a t = tt
Advanced-IsTimed county (r ∷ rs) (r' ∷ rs') (inl same, more) (t, ts) =
    (rw same t, Advanced-IsTimed county rs rs' more ts)
Advanced-IsTimed county (r ∷ rs) (r' ∷ rs') (inr m, more) (t, ts) =
    (m.timed t, Advanced-IsTimed county rs rs' more ts)
Advanced-IsTimed county [] (r' ∷ rs') a t = absurd a
Advanced-IsTimed county (r ∷ rs) [] a t = absurd a

responded-Told :
    (now responder report : ℕ) (move : Move) (note : Text) (current : ResponseStatus)
    (es : List ResponseEvent) (rs : List Report)
    → All (Told es) rs
    → All
        (Told (response_event now responder report move note current ∷ es))
        (update (with_id report) (respond_row now move) rs)
unfolding respond_row
responded-Told now responder report move note current es [] x = tt
responded-Told now responder report move note current es (r ∷ rs) x =
    (ground (arith, x.0), responded-Told now responder report move note current es rs x.1)

respond_row_same_id : (now : ℕ) (move : Move) (r : Report) → (respond_row now move r).id ≡ r.id
unfolding respond_row
respond_row_same_id now move r = refl

module _ (now responder county report : ℕ) (move : Move) (note : Text) (t t' : Tables) where
  IsResponse-Advanced :
      IsResponse now responder county report move note t t'
      → IsLogged t
      → Advanced county t.reports t'.reports
  IsResponse-Advanced m l =
      rw (m.reports)
        (advance now county report move t.reports m.row l.distinct m.row_found m.allowed)

  IsResponse-IsLogged :
      IsResponse now responder county report move note t t' → IsLogged t → IsLogged t'
  IsResponse-IsLogged m l = record {
    distinct =
        rw (m.reports)
          (Distinct-update (with_id report) _ (respond_row_same_id now move) t.reports l.distinct);
    forward = rw (m.responses) (
      ground (arith, row_told),
      (can_change_response_iff m.row.response_status (target move)).0 m.allowed,
      l.forward,
    );
    told =
        rw (m.reports, m.responses)
          (responded-Told now responder report move note m.row.response_status t.responses t.reports
            l.told);
    timed = Advanced-IsTimed county t.reports t'.reports (IsResponse-Advanced m l) l.timed;
  }
    where
      row_told : Told t.responses m.row × ((with_id report m.row && in_scope county m.row) ≡ true)
      row_told =
          All-find (Told t.responses) (λ r. with_id report r && in_scope county r) t.reports m.row
            l.told m.row_found

-- What a call may do to the tables: step rows of the county forward, keeping the log.
abbrev pub Progressed : ℕ → Tables → Tables → Type 0
Progressed county t t' = Advanced county t.reports t'.reports × (t'.events ≡ t.events) × IsLogged t'

respond-Progressed :
    (now responder county report : ℕ) (move : Move) (note : Text) (t : Tables) (f : List Bool)
    → IsLogged t
    → Progressed county t (respond now responder county report move note t f).1
respond-Progressed now responder county report move note t f l =
    elim (respond_cases now responder county report move note t f) [
      | inl same ↦ rw same (Advanced-refl county t.reports, refl, l)
      | inr m ↦ (
        IsResponse-Advanced now responder county report move note t _ m l,
        m.events,
        IsResponse-IsLogged now responder county report move note t _ m l,
      )
    ]

respond_at-Progressed :
    (now responder county : ℕ) (move : Move) (note : Text) (id : Option ℕ) (t : Tables)
    (f : List Bool)
    → IsLogged t
    → Progressed county t (respond_at now responder county move note id t f).1
unfolding respond_at
respond_at-Progressed now responder county move note none t f l =
    (Advanced-refl county t.reports, refl, l)
respond_at-Progressed now responder county move note (some report) t f l =
    respond-Progressed now responder county report move note t f l

-- Every call of the responder's handler, whatever it answers and whatever fails, moves reports
-- only forward (open, acknowledged, resolved), only verified originals of the responder's county,
-- changes neither their moderation nor its events, and, as before it, the log of responses tells
-- each report's response and the timestamps fit it, and report ids are distinct.
pub update_report_response-Progressed :
    (now responder county : ℕ) (id : Option ℕ) (req : Option ResponseUpdate) (t : Tables)
    (f : List Bool)
    → IsLogged t
    → Progressed county t (update_report_response now responder county id req t f).1
unfolding update_report_response
update_report_response-Progressed now responder county id none t f l =
    (Advanced-refl county t.reports, refl, l)
update_report_response-Progressed now responder county id (some req) t f l =
    elim (Option-cases req.status) [
      | inl bad ↦ rw bad (Advanced-refl county t.reports, refl, l)
      | inr (move, good) ↦ rw good (elim (Bool-cases (ltb 500 (length req.note))) [
        | inl long ↦ rw long (Advanced-refl county t.reports, refl, l)
        | inr short ↦ rw short (respond_at-Progressed now responder county move req.note id t f l)
      ])
    ]
