-- ===== src/Control/Settings/Issues.antt =====
-- What is missing in the settings that are stored (`configurationIssues` of
-- apps/api/src/crm-control/crm-control.service.ts): the kind of each remark, without its text.
use amocrm_analytics.Base.{
  ℕ, Bool, false, ◌&&◌, not, Option, none, some, List, [], ◌∷◌, ◌++◌, ◌==◌, any, filter,
  if◌then◌else◌,
}
use amocrm_analytics.Control.Types.{StageRule}
use amocrm_analytics.Control.Deadline.{has_stage_deadline}
use amocrm_analytics.Control.Inputs.{Department, sales, StageChoice, absent, unset, chosen}
use amocrm_analytics.Control.Settings.{
  Stage, Pipeline, is_working_stage, RuleEntry, SettingsScope, Settings, find_pipeline,
  has_working_stage, is_empty,
}

pub data Issue : Type 0 where
  nothing_selected pipeline_gone stage_not_set stage_unavailable rules_outside : Issue
  types_not_set deadlines_not_set : Issue

abbrev pub needed : SettingsScope → Option Department → List StageChoice
needed scope (some sales) = scope.assigned_stage_id ∷ scope.prepared_proposal_stage_id ∷ []
needed scope _ =
    scope.new_client_stage_id ∷ scope.base_stage_id ∷ scope.prepared_proposal_stage_id
    ∷ scope.price_requested_stage_id ∷ []

abbrev pub choice_issues : Pipeline → StageChoice → List Issue
choice_issues pipeline absent = []
choice_issues pipeline unset = stage_not_set ∷ []
choice_issues pipeline (chosen id) =
    if has_working_stage pipeline id then [] else stage_unavailable ∷ []

abbrev pub all_choice_issues : Pipeline → List StageChoice → List Issue
all_choice_issues pipeline [] = []
all_choice_issues pipeline (c ∷ cs) = choice_issues pipeline c ++ all_choice_issues pipeline cs

abbrev find_rule : ℕ → List RuleEntry → Option StageRule
find_rule id [] = none
find_rule id (r ∷ rs) = if r.stage_id == id then some r.rule else find_rule id rs

abbrev is_chosen : StageChoice → ℕ → Bool
is_chosen (chosen id) stage = id == stage
is_chosen _ stage = false

abbrev open_stages : Pipeline → SettingsScope → List Stage
open_stages pipeline scope =
    filter (λ stage. is_working_stage stage && not (is_chosen scope.base_stage_id stage.id))
      pipeline.stages

abbrev has_types : Option StageRule → Bool
has_types none = false
has_types (some rule) = elim rule.allowed_task_type_ids [
  | none ↦ false
  | some ids ↦ not (is_empty ids)
]

abbrev pub issue_if : Bool → Issue → List Issue
issue_if test issue = if test then issue ∷ [] else []

abbrev pub has_outside : Pipeline → SettingsScope → Bool
has_outside pipeline scope = any (λ r. not (has_working_stage pipeline r.stage_id)) scope.rules

abbrev pub lacks_types : Pipeline → SettingsScope → Bool
lacks_types pipeline scope =
    any (λ stage. not (has_types (find_rule stage.id scope.rules))) (open_stages pipeline scope)

abbrev pub lacks_deadlines : Pipeline → SettingsScope → Bool
lacks_deadlines pipeline scope =
    any (λ stage. not (has_stage_deadline (find_rule stage.id scope.rules)))
      (open_stages pipeline scope)

unfoldable pub pipeline_issues : SettingsScope → Option Pipeline → List Issue
pipeline_issues scope none = pipeline_gone ∷ []
pipeline_issues scope (some pipeline) =
    all_choice_issues pipeline (needed scope scope.department)
    ++ issue_if (has_outside pipeline scope) rules_outside
    ++ issue_if (lacks_types pipeline scope) types_not_set
    ++ issue_if (lacks_deadlines pipeline scope) deadlines_not_set

abbrev pub scopes_issues : List Pipeline → List SettingsScope → List Issue
scopes_issues pipelines [] = []
scopes_issues pipelines (scope ∷ scopes) =
    pipeline_issues scope (find_pipeline scope.pipeline_id pipelines)
    ++ scopes_issues pipelines scopes

unfoldable pub configuration_issues : Settings → List Pipeline → List Issue
configuration_issues config pipelines =
    issue_if (is_empty config.scopes) nothing_selected ++ scopes_issues pipelines config.scopes
