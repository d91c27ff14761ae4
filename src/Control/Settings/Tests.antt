-- ===== src/Control/Settings/Tests.antt =====
-- Settings for one pipeline, accepted and refused.
use amocrm_analytics.Base.{ℕ, ◌≡◌, refl, true, false, Option, none, some, List, [], ◌∷◌, any, all}
use amocrm_analytics.Control.Types.{elapsed, StageRule}
use amocrm_analytics.Control.Deadline.{stage_deadline_config_error, has_stage_deadline}
use amocrm_analytics.Control.Inputs.{sales, absent, unset, chosen}
use amocrm_analytics.Control.Cases.{owner, rop}
use amocrm_analytics.Control.Settings.{
  Pipeline, Stage, is_working_stage, SettingsScope, Settings, foreign_stage, no_pipeline,
  no_catalog, owner_only, rules_error, scope_error, scopes_error, selected_types, types_error,
  config_error, saved, rejected, save_settings, accepted_settings,
}
use amocrm_analytics.Control.Settings.Issues.{
  deadlines_not_set, types_not_set, pipeline_issues, configuration_issues,
}
use amocrm_analytics.Control.Settings.Accepted.{
  is_misfit, AreDistinct, is_known, config_error-AreDistinct,
}

abbrev working : Stage
working = record { id = 11; is_won = false; is_lost = false; is_intake = false }

abbrev won : Stage
won = record { id = 12; is_won = true; is_lost = false; is_intake = false }

abbrev pipelines : List Pipeline
pipelines = record { id = 1; stages = working ∷ won ∷ [] } ∷ []

abbrev rule : StageRule
rule = record {
  allowed_task_type_ids = some (5 ∷ []);
  deadline_mode = some elapsed;
  max_duration_hours = some 24;
  max_business_days = none;
}

abbrev scope : SettingsScope
scope = record {
  is_object = true;
  department = some sales;
  pipeline_id = 1;
  age_is_valid = true;
  assigned_stage_id = chosen 11;
  new_client_stage_id = unset;
  base_stage_id = absent;
  prepared_proposal_stage_id = absent;
  price_requested_stage_id = unset;
  rules_are_object = true;
  rules = record { stage_id = 11; is_object = true; types_are_valid = true; rule = rule } ∷ [];
}

abbrev settings : Settings
settings = record {
  is_object = true;
  enabled = true;
  time_of_day = some 1_140;
  zone_is_known = true;
  workdays = 1 ∷ 2 ∷ 2 ∷ [];
  age_rule_is_valid = true;
  scopes = scope ∷ [];
}

abbrev catalog : Option (List ℕ)
catalog = some (4 ∷ 5 ∷ [])

computed : Unit {0}
unfolding config_error scopes_error scope_error rules_error is_working_stage
    stage_deadline_config_error selected_types types_error save_settings configuration_issues
    pipeline_issues has_stage_deadline
computed = tt

fits : config_error pipelines catalog settings ≡ none
unfolding computed
fits = refl

closed_stage :
    config_error pipelines catalog
      (record settings { scopes = record scope { assigned_stage_id = chosen 12 } ∷ [] })
    ≡ some foreign_stage
unfolding computed
closed_stage = refl

twice :
    config_error pipelines catalog (record settings { scopes = scope ∷ scope ∷ [] })
    ≡ some no_pipeline
unfolding computed
twice = refl

offline : config_error pipelines none settings ≡ some no_catalog
unfolding computed
offline = refl

saves :
    save_settings pipelines catalog owner settings none
    ≡ saved (record { settings = record settings { workdays = 1 ∷ 2 ∷ [] }; version = 1 })
unfolding computed
saves = refl

refuses : save_settings pipelines catalog rop settings none ≡ rejected owner_only
unfolding computed
refuses = refl

nothing_left : configuration_issues settings pipelines ≡ []
unfolding computed
nothing_left = refl

rules_left :
    configuration_issues (record settings { scopes = record scope { rules = [] } ∷ [] }) pipelines
    ≡ types_not_set ∷ deadlines_not_set ∷ []
unfolding computed
rules_left = refl

config_error-AreDistinct_example :
    (any is_misfit (configuration_issues (accepted_settings settings) pipelines) ≡ false)
    × (AreDistinct (scope ∷ []) [] × (all (is_known catalog) (selected_types (scope ∷ [])) ≡ true))
config_error-AreDistinct_example = config_error-AreDistinct pipelines catalog settings fits
