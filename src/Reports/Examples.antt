-- ===== src/Reports/Examples.antt =====
-- The reports at concrete inputs.
use aura_risk.Base.{
  refl, Bool, true, false, none, some, List, [], ◌∷◌, codes, ◌+◌, leb, ◌&&◌, if◌then◌else◌,
}
use aura_risk.Base.Int.{pos}
use aura_risk.Curation.{Library, flooding, pending, verified, rejected, human}
use aura_risk.Reports.{Submission, Report, Tables, Within, app, open_status}
use aura_risk.Reports.Moderation.{Decision, moderate_report}
use aura_risk.Reports.Verifier.{run_once}
use aura_risk.Reports.Response.{acknowledge, ResponseUpdate, update_report_response}
use aura_risk.Reports.Decisions.{AllDecided, Kept, moderate_report-AllDecided, run_once-Kept}
use aura_risk.Reports.Trail.{IsAudited}
use aura_risk.Reports.Audit.{
  Operation, submits, moderates, verifies, operate_all, operate_all-IsAudited,
}
use aura_risk.Reports.Originals.{AllPoint, operate_all-AllPoint}
use aura_risk.Reports.Progress.{IsLogged, Progressed, update_report_response-Progressed}

-- ASCII letters, and every two places 100 m apart.
abbrev ascii : Library
ascii = record {
  to_lower = λ c. if leb 65 c && leb c 90 then c + 32 else c;
  is_word = λ c. leb 97 c && leb c 122;
  distance_meters = λ p q. 100;
}

abbrev everywhere : Within
everywhere p q metres = leb 100 metres

abbrev flood_seen : Submission
flood_seen = record {
  location_name = codes "Budalangi";
  place = record { lat = pos 0; lon = pos 34 };
  category = flooding;
  note = codes "River over the dyke";
  account_id = some 5;
  county = some 40;
  ward = none;
  source = app;
}

abbrev rejection : Decision
rejection = record { status = some rejected; reason = codes "not a flood"; not_duplicate = false }

abbrev approval : Decision
approval = record { status = some verified; reason = []; not_duplicate = false }

-- One report, waiting for a decision.
abbrev filed : Report
filed = record {
  id = 1;
  location_name = codes "Budalangi";
  place = record { lat = pos 0; lon = pos 34 };
  category = flooding;
  note = codes "River over the dyke";
  account_id = some 5;
  duplicate_of = none;
  county = some 40;
  ward = none;
  source = app;
  location_approximate = false;
  created_at = 1000;
  moderation_status = pending;
  moderated_by = none;
  moderation_reason = none;
  status_updated_at = 1000;
  verification_score = 0;
  corroboration_count = 0;
  response_status = open_status;
  response_updated_at = none;
  acknowledged_at = none;
  resolved_at = none;
}

abbrev one_report : Tables
one_report = record { reports = filed ∷ []; events = []; responses = [] }

abbrev nothing : Tables
nothing = record { reports = []; events = []; responses = [] }

one_report-AllDecided : AllDecided one_report
one_report-AllDecided = (
  record { undecided = λ e. refl; decided = λ e. refl; automatic = λ e. cc; reasoned = λ e. cc },
  tt,
)

decided_example : AllDecided (moderate_report 2000 9 (some 1) (some rejection) one_report []).1
decided_example =
    moderate_report-AllDecided 2000 9 (some 1) (some rejection) one_report [] one_report-AllDecided

verifier_example :
    Kept one_report.reports (run_once everywhere (λ i. true) 3000 true one_report []).1.reports
    × AllDecided (run_once everywhere (λ i. true) 3000 true one_report []).1
verifier_example =
    run_once-Kept everywhere (λ i. true) 3000 true one_report [] one_report-AllDecided

-- Two submissions of one text, a run of the verifier, a decision, and one whose commit fails.
abbrev history : List (Operation × List Bool)
history =
    (submits 1000 1 flood_seen, [])
    ∷ (submits 1100 2 flood_seen, [])
    ∷ (verifies 2000 (λ i. true) true, [])
    ∷ (moderates 3000 9 (some 1) (some approval), [])
    ∷ (moderates 3100 9 (some 1) (some rejection), false ∷ false ∷ false ∷ true ∷ [])
    ∷ []

history_example : IsAudited (operate_all ascii everywhere nothing history)
history_example =
    operate_all-IsAudited ascii everywhere nothing history
      (record { distinct = tt; known = tt; chained = tt; explained = tt })

pointing_example : AllPoint (operate_all ascii everywhere nothing history)
unfolding AllPoint
pointing_example = operate_all-AllPoint ascii everywhere nothing history tt

abbrev approved : Tables
approved = record one_report {
  reports = record filed { moderation_status = verified; moderated_by = some (human 9) } ∷ [];
}

abbrev seen : ResponseUpdate
seen = record { status = some acknowledge; note = codes "team on the way" }

approved-IsLogged : IsLogged approved
approved-IsLogged = record {
  distinct = (refl, tt);
  forward = tt;
  told = (refl, tt);
  timed = (
    record {
      unanswered = λ e. refl;
      answered = λ n. absurd (n refl);
      unfinished = λ n. refl;
      finished = λ e. cc;
    },
    tt,
  );
}

progress_example :
    Progressed 40 approved (update_report_response 4000 6 40 (some 1) (some seen) approved []).1
progress_example =
    update_report_response-Progressed 4000 6 40 (some 1) (some seen) approved [] approved-IsLogged
