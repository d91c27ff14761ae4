-- ===== src/Control/Settings.antt =====
-- The settings of the control (`isWorkingStage`, `configurationIssues`, `validateConfig` and `saveSettings`
-- of apps/api/src/crm-control/crm-control.service.ts). The tests of the shape of the JSON are Booleans, a
-- time of the day is its minute, and the catalog of the types of tasks is a parameter, `none` while
-- amoCRM does not answer.
pub mod Issues
pub mod Accepted
mod Tests
use amocrm_analytics.Base.{
  ℕ, suc, ◌+◌, Bool, true, false, ◌&&◌, ◌||◌, not, Option, none, some, List, [], ◌∷◌, ◌++◌, ltb,
  leb, ◌==◌, any, all, filter, length, if◌then◌else◌,
}
use amocrm_analytics.Control.Types.{StageRule}
use amocrm_analytics.Control.Deadline.{stage_deadline_config_error, has_stage_deadline}
use amocrm_analytics.Control.Inputs.{Department, sales, csm, StageChoice, absent, unset, chosen}
use amocrm_analytics.Control.Cases.{Role, owner, rop, manager}

pub record Stage : Type 0 where
  pub id : ℕ
  pub is_won : Bool
  pub is_lost : Bool
  pub is_intake : Bool

pub record Pipeline : Type 0 where
  pub id : ℕ
  pub stages : List Stage

unfoldable pub is_working_stage : Stage → Bool
is_working_stage stage = not stage.is_won && (not stage.is_lost && not stage.is_intake)

-- The rule of a stage, and whether it is an object whose types of tasks are numbers from 1.
pub record RuleEntry : Type 0 where
  pub stage_id : ℕ
  pub is_object : Bool
  pub types_are_valid : Bool
  pub rule : StageRule

-- `department` is `none` for a text that names none.
pub record SettingsScope : Type 0 where
  pub is_object : Bool
  pub department : Option Department
  pub pipeline_id : ℕ
  pub age_is_valid : Bool
  pub assigned_stage_id : StageChoice
  pub new_client_stage_id : StageChoice
  pub base_stage_id : StageChoice
  pub prepared_proposal_stage_id : StageChoice
  pub price_requested_stage_id : StageChoice
  pub rules_are_object : Bool
  pub rules : List RuleEntry

pub record Settings : Type 0 where
  pub is_object : Bool
  pub enabled : Bool
  pub time_of_day : Option ℕ
  pub zone_is_known : Bool
  pub workdays : List ℕ
  pub age_rule_is_valid : Bool
  pub scopes : List SettingsScope

pub data SettingsError : Type 0 where
  bad_settings bad_time bad_zone bad_workdays bad_age_rule bad_scope no_pipeline bad_scope_age :
      SettingsError
  foreign_stage bad_rules bad_rule foreign_rule bad_deadline bad_types no_catalog unknown_type :
      SettingsError
  no_scopes owner_only : SettingsError

abbrev pub find_pipeline : ℕ → List Pipeline → Option Pipeline
find_pipeline id [] = none
find_pipeline id (p ∷ ps) = if p.id == id then some p else find_pipeline id ps

abbrev pub has_working_stage : Pipeline → ℕ → Bool
has_working_stage pipeline id =
    any (λ stage. stage.id == id && is_working_stage stage) pipeline.stages

-- A stage that is chosen is a working stage of the pipeline.
abbrev pub allows : Pipeline → StageChoice → Bool
allows pipeline (chosen id) = has_working_stage pipeline id
allows pipeline _ = true

abbrev pub choices : SettingsScope → List StageChoice
choices scope =
    scope.assigned_stage_id ∷ scope.new_client_stage_id ∷ scope.base_stage_id
    ∷ scope.prepared_proposal_stage_id ∷ scope.price_requested_stage_id ∷ []

abbrev pub is_given {ℓ} : {A : Type ℓ} → Option A → Bool
is_given none = false
is_given (some a) = true

-- The loop over the rules of a scope.
unfoldable pub rules_error : Pipeline → List RuleEntry → Option SettingsError
rules_error pipeline [] = none
rules_error pipeline (r ∷ rs) =
    let rest = rules_error pipeline rs in
    if not r.is_object
    then some bad_rule
    else if not (has_working_stage pipeline r.stage_id)
    then some foreign_rule
    else if is_given (stage_deadline_config_error r.rule)
    then some bad_deadline
    else if not r.types_are_valid
    then some bad_types
    else rest

abbrev pub scope_with : SettingsScope → (seen : Bool) → Option Pipeline → Option SettingsError
scope_with scope seen none = some no_pipeline
scope_with scope seen (some pipeline) =
    if seen || not (is_given scope.department)
    then some no_pipeline
    else if not scope.age_is_valid
    then some bad_scope_age
    else if not (all (allows pipeline) (choices scope))
    then some foreign_stage
    else if not scope.rules_are_object
    then some bad_rules
    else rules_error pipeline scope.rules

unfoldable pub scope_error : List Pipeline → SettingsScope → (seen : List ℕ) → Option SettingsError
scope_error pipelines scope seen =
    if not scope.is_object
    then some bad_scope
    else scope_with scope (any (λ id. id == scope.pipeline_id) seen)
        (find_pipeline scope.pipeline_id pipelines)

abbrev pub or_else : Option SettingsError → Option SettingsError → Option SettingsError
or_else none later = later
or_else (some e) later = some e

-- The loop over the scopes, with the pipelines seen so far.
unfoldable pub scopes_error :
    List Pipeline → List SettingsScope → (seen : List ℕ) → Option SettingsError
scopes_error pipelines [] seen = none
scopes_error pipelines (scope ∷ scopes) seen =
    or_else (scope_error pipelines scope seen)
      (scopes_error pipelines scopes (scope.pipeline_id ∷ seen))

abbrev types_of_rule : Option (List ℕ) → List ℕ
types_of_rule none = []
types_of_rule (some ids) = ids

abbrev pub types_of_rules : List RuleEntry → List ℕ
types_of_rules [] = []
types_of_rules (r ∷ rs) = types_of_rule r.rule.allowed_task_type_ids ++ types_of_rules rs

-- The types of tasks that the scopes select.
unfoldable pub selected_types : List SettingsScope → List ℕ
selected_types [] = []
selected_types (scope ∷ scopes) = types_of_rules scope.rules ++ selected_types scopes

unfoldable pub types_error : (catalog : Option (List ℕ)) → List ℕ → Option SettingsError
types_error catalog [] = none
types_error none (t ∷ ts) = some no_catalog
types_error (some known) (t ∷ ts) =
    if all (λ u. any (λ k. k == u) known) (t ∷ ts) then none else some unknown_type

abbrev is_early : Option ℕ → Bool
is_early none = true
is_early (some minute) = ltb minute 1_140

abbrev pub is_empty {ℓ} : {A : Type ℓ} → List A → Bool
is_empty [] = true
is_empty (_ ∷ _) = false

unfoldable pub config_error :
    List Pipeline → (catalog : Option (List ℕ)) → Settings → Option SettingsError
config_error pipelines catalog value =
    if not value.is_object || ltb 30 (length value.scopes)
    then some bad_settings
    else if is_early value.time_of_day
    then some bad_time
    else if not value.zone_is_known
    then some bad_zone
    else if is_empty value.workdays || any (λ d. ltb d 1 || ltb 7 d) value.workdays
    then some bad_workdays
    else if not value.age_rule_is_valid
    then some bad_age_rule
    else or_else (scopes_error pipelines value.scopes []) (
        or_else (types_error catalog (selected_types value.scopes))
          (if value.enabled && is_empty value.scopes then some no_scopes else none))

pub record Stored : Type 0 where
  pub settings : Settings
  pub version : ℕ

-- `[...new Set(list)]`
abbrev distinct : List ℕ → List ℕ
distinct [] = []
distinct (d ∷ ds) = d ∷ filter (λ e. not (e == d)) (distinct ds)

abbrev pub accepted_settings : Settings → Settings
accepted_settings value = record value { workdays = distinct value.workdays }

abbrev store : Option Stored → Settings → Stored
store none value = record { settings = accepted_settings value; version = 1 }
store (some old) value = record { settings = accepted_settings value; version = suc old.version }

pub data Saved : Type 0 where
  saved : Stored → Saved
  rejected : SettingsError → Saved

abbrev is_owner : Role → Bool
is_owner owner = true
is_owner _ = false

-- `saveSettings`, before it reads the settings again.
unfoldable pub save_settings :
    List Pipeline → (catalog : Option (List ℕ)) → Role → Settings → Option Stored → Saved
save_settings pipelines catalog role value stored =
    if not (is_owner role)
    then rejected owner_only
    else elim (config_error pipelines catalog value) [
      | none ↦ saved (store stored value)
      | some e ↦ rejected e
    ]
