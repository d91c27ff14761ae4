-- ===== src/Control/Counts.antt =====
-- The counts and the completion of a run (apps/api/src/crm-control/crm-control.logic.ts).
pub mod Decided
mod Tests
use amocrm_analytics.Base.{
  ℕ, zero, suc, ◌+◌, ◌-◌, Bool, true, false, ◌&&◌, ◌||◌, not, Option, none, some, List, [], ◌∷◌,
  ◌++◌, ltb, leb, ◌==◌, length, filter, if◌then◌else◌,
}
use amocrm_analytics.Control.Types.{
  ResultStatus, pass, fail, review, unknown, Counts, RunStatus, queued, running, completed, partial,
  is_status,
}

abbrev pub empty_control_counts : Counts
empty_control_counts = record {
  deals = 0;
  failed_deals = 0;
  violations = 0;
  review = 0;
  unknown = 0;
  passed = 0;
  review_deals = 0;
  unknown_deals = 0;
  checked_deals = 0;
  unresolved_deals = 0;
}

abbrev pub number : Bool → ℕ
number b = if b then 1 else 0

-- The `count` of `observationCounts`.
unfoldable pub count : ResultStatus → List ResultStatus → ℕ
count s [] = 0
count s (r ∷ rs) = number (is_status r s) + count s rs

unfoldable pub observation_counts : List ResultStatus → Counts
observation_counts results = record {
  deals = 1;
  failed_deals = number (ltb 0 (count fail results));
  violations = count fail results;
  review = count review results;
  unknown = count unknown results;
  passed = count pass results;
  review_deals = number (ltb 0 (count review results));
  unknown_deals = number (ltb 0 (count unknown results));
  checked_deals =
      number (count unknown results == 0 && count review results == 0 && ltb 0 (length results));
  unresolved_deals = number (ltb 0 (count fail results));
}

-- `addControlCounts`, at a value that has every key.
unfoldable pub add_control_counts : Counts → Counts → Counts
add_control_counts target value = record {
  deals = target.deals + value.deals;
  failed_deals = target.failed_deals + value.failed_deals;
  violations = target.violations + value.violations;
  review = target.review + value.review;
  unknown = target.unknown + value.unknown;
  passed = target.passed + value.passed;
  review_deals = target.review_deals + value.review_deals;
  unknown_deals = target.unknown_deals + value.unknown_deals;
  checked_deals = target.checked_deals + value.checked_deals;
  unresolved_deals = target.unresolved_deals + value.unresolved_deals;
}

pub data ReasonCode : Type 0 where
  processing run_failed no_deals unknown_results review_results missing_results run_issues :
      ReasonCode

pub record Reason : Type 0 where
  pub code : ReasonCode
  pub counted : Option ℕ

pub record Completion : Type 0 where
  pub checked : Bool
  pub remaining_results : ℕ
  pub remaining_deals : ℕ
  pub reasons : List Reason
  pub can_recheck : Bool

abbrev is_finished : RunStatus → Bool
is_finished completed = true
is_finished partial = true
is_finished _ = false

abbrev is_running : RunStatus → Bool
is_running queued = true
is_running running = true
is_running _ = false

-- `if (test) reasons.push(reason)`
abbrev push_if : Bool → ReasonCode → Option ℕ → List Reason → List Reason
push_if test c n later = if test then record { code = c; counted = n } ∷ later else later

abbrev pub no_reasons : List Reason → Bool
no_reasons [] = true
no_reasons (_ ∷ _) = false

unfoldable pub completion_reasons : RunStatus → Counts → ℕ → List Reason
completion_reasons status counts issues =
    push_if (not (is_finished status)) (if is_running status then processing else run_failed) none (
      push_if (counts.deals == 0) no_deals none (
        push_if (not (counts.unknown == 0)) unknown_results (some counts.unknown) (
          push_if (not (counts.review == 0)) review_results (some counts.review) (
            push_if
              (ltb counts.checked_deals counts.deals && (counts.unknown == 0 && counts.review == 0))
              missing_results (some (counts.deals - counts.checked_deals))
              (push_if (not (issues == 0)) run_issues (some issues) [])))))

-- `issues` is the number of remarks.
unfoldable pub control_completion : RunStatus → Counts → ℕ → Completion
unfolding completion_reasons
control_completion status counts issues = record {
  checked = no_reasons (completion_reasons status counts issues);
  remaining_results = counts.unknown + counts.review;
  remaining_deals = counts.deals - counts.checked_deals;
  reasons = completion_reasons status counts issues;
  can_recheck = not (is_running status);
}
