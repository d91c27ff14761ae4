-- ===== src/Semantic/Tests.antt =====
-- An agreement with the customer that covers the deadline of a task, and one that does not.
use amocrm_analytics.Base.{ℕ, ◌≡◌, refl, true, false, some}
use amocrm_analytics.Control.Types.{pass, fail}
use amocrm_analytics.Semantic.{
  deadline_agreement, task_stage_deadline_rule, present, at_minute, validated, Validation, Request,
  is_validated, date_covers, assess_task, assess_proposal, assess_deadline, assess_price,
  assess_facts, assess_crm_control_semantic,
}
use amocrm_analytics.Semantic.Verdicts.{
  Excuses, Accuses, assess_crm_control_semantic-Excuses, assess_crm_control_semantic-Accuses,
}

abbrev utc : ℕ → ℕ
utc t = t

-- Every fact is found, with the same date.
abbrev agreed_until : ℕ → Validation
agreed_until t = record {
  same_request = true;
  status = validated;
  finding = λ fact. some (record { state = present; date = some (at_minute t) });
}

abbrev request : Request
request = record {
  check = deadline_agreement;
  max_due_at = some 100;
  task_due_at = some 200;
  observed_at = some 50;
}

policy : Unit {0}
unfolding date_covers assess_task assess_proposal assess_deadline assess_price assess_facts
    assess_crm_control_semantic
policy = tt

covered_agreement :
    assess_crm_control_semantic utc false request (agreed_until 200) task_stage_deadline_rule ≡ pass
unfolding policy
covered_agreement = refl

late_agreement :
    assess_crm_control_semantic utc false request (agreed_until 199) task_stage_deadline_rule ≡ fail
unfolding policy
late_agreement = refl

assess_crm_control_semantic-Excuses_example :
    (true ≡ true)
    × (is_validated validated ≡ true)
    × Excuses utc (agreed_until 200).finding request deadline_agreement task_stage_deadline_rule
assess_crm_control_semantic-Excuses_example =
    assess_crm_control_semantic-Excuses utc false request (agreed_until 200)
      task_stage_deadline_rule covered_agreement

assess_crm_control_semantic-Accuses_example :
    (true ≡ true)
    × Accuses utc (agreed_until 199).finding request deadline_agreement task_stage_deadline_rule
assess_crm_control_semantic-Accuses_example =
    assess_crm_control_semantic-Accuses utc false request (agreed_until 199)
      task_stage_deadline_rule late_agreement
