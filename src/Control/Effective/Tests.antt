-- ===== src/Control/Effective/Tests.antt =====
-- A violation that a reader excused for a time and that a reviewer then found in order.
use amocrm_analytics.Base.{◌≡◌, refl, true, false, none, some, [], ◌∷◌, arith}
use amocrm_analytics.Control.Types.{fail, review, na, open_case}
use amocrm_analytics.Control.Cases.{rop}
use amocrm_analytics.Control.Rules.{intake_stage_rule}
use amocrm_analytics.Control.Review.{control_manual_review_allowed}
use amocrm_analytics.Control.Effective.{
  Decision, exempted_until, verified, newest_decision, AnalysisIdentity, AnalysisSummary, ready,
  analysis_projection, AssessedResult, effective_status, effective_counts,
}
use amocrm_analytics.Control.Effective.Manual.{
  ManualReviewInput, ReviewState, pending, reviewed, review_result, ensure_evidence,
  manual_review_state,
}
use amocrm_analytics.Control.Effective.Reviewed.{review_result-effective_status}

abbrev excused : Decision
excused = record {
  id = 4;
  action = exempted_until;
  observation_id = 1;
  created_at = 80;
  valid_until = some 500;
}

abbrev identity : AnalysisIdentity
identity = record {
  model = 1;
  model_sha256 = 2;
  analyzer_version = 3;
  prompt_version = 4;
  policy_version = some 5;
}

abbrev analysis : AnalysisSummary
analysis = record { status = ready; assessment_status = some fail; identity = identity }

abbrev result : AssessedResult
result = record {
  status = review;
  observation_id = 2;
  analyses = analysis ∷ [];
  case_of = some (record { status = open_case; decisions = excused ∷ [] });
}

abbrev state : ReviewState
state = record {
  row = record {
    result = result;
    rule_code = intake_stage_rule;
    awaits = false;
    says_day_end = false;
  };
  evidence = none;
}

abbrev body : ManualReviewInput
body = record {
  outcome = fail;
  trimmed_length = 30;
  reason_length = 31;
  evidence_length = 40;
  is_url = true;
  is_http = true;
  has_credentials = false;
  expected_decision_id = none;
}

abbrev state_after : ReviewState
state_after = record {
  row = record state.row {
    result = record result {
      case_of = some (record {
        status = open_case;
        decisions =
            record {
              id = 9;
              action = verified fail;
              observation_id = 2;
              created_at = 150;
              valid_until = none;
            }
            ∷ excused
            ∷ [];
      });
    };
  };
  evidence = some pending;
}

excused_in_time : effective_status (some identity) result 100 ≡ na
unfolding effective_status newest_decision analysis_projection
excused_in_time = refl

excused_no_more : effective_status (some identity) result 600 ≡ fail
unfolding effective_status newest_decision analysis_projection
excused_no_more = refl

not_configured : effective_status none result 600 ≡ review
unfolding effective_status newest_decision analysis_projection
not_configured = refl

counts_of_deal : (effective_counts (some identity) (result ∷ []) 600).unresolved_deals ≡ 1
unfolding effective_counts effective_status newest_decision analysis_projection
counts_of_deal = refl

reviews : review_result true true true rop body 9 150 state ≡ reviewed state_after
unfolding review_result newest_decision ensure_evidence control_manual_review_allowed
reviews = refl

review_result-effective_status_example :
    (effective_status (some identity) state_after.row.result 100 ≡ fail)
    × ((manual_review_state state_after.row).expected_decision_id ≡ some 9)
review_result-effective_status_example =
    review_result-effective_status true true true rop body 9 150 state state_after reviews
      (some identity) 100 (omega arith)
