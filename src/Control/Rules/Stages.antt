-- ===== src/Control/Rules/Stages.antt =====
-- The rules on the stage, the notes and the age of a deal.
use amocrm_analytics.Base.{
  ℕ, ◌+◌, ◌-◌, ◌*◌, Bool, true, false, ◌&&◌, ◌||◌, not, Option, none, some, List, [], ltb, any,
  filter, if◌then◌else◌,
}
use amocrm_analytics.Control.Types.{pass, fail, review, unknown, na, DeadlineMode, StageRule}
use amocrm_analytics.Control.Deadline.{day, hour, StageDeadline, stage_deadline, is_set}
use amocrm_analytics.Control.Inputs.{
  Communication, RuleInput, NoteState, current_notes, has_date, dated_within, has_text,
  next_calendar_month, MaxDealAge, calendar_month, thirty_days,
}
use amocrm_analytics.Control.Rules.{
  intake_stage_rule, stage_duration_rule, proposal_note_rule, deal_age_rule,
  price_requested_duration_rule, plain, configured_absent, awaiting_day_end, resolves_prior,
  delegated_to_price, evidence, RuleResult, add_result, Facts, is_sales, is_chosen, on_stage,
  is_end_of_day, is_unlimited, is_empty, is_exceeded, ids, communication_ids,
}

module _ (civil : ℕ → ℕ) (input : RuleInput) (facts : Facts) where
  abbrev created_result : Option ℕ → RuleResult
  created_result none = add_result facts.department intake_stage_rule unknown plain
  created_result (some created) =
      if ltb facts.observed_at created
      then add_result facts.department intake_stage_rule unknown plain
      else if ltb (civil created) (facts.day_start + 19 * hour)
      then add_result facts.department intake_stage_rule fail plain
      else add_result facts.department intake_stage_rule na resolves_prior

  unfoldable pub intake_stage : RuleResult
  intake_stage =
      on_stage
        (if is_sales facts.department
          then input.scope.assigned_stage_id
          else input.scope.new_client_stage_id)
        input.deal.stage_id (add_result facts.department intake_stage_rule na configured_absent)
        (add_result facts.department intake_stage_rule unknown plain)
        (add_result facts.department intake_stage_rule na resolves_prior)
        (if facts.before_day_end
          then add_result facts.department intake_stage_rule unknown awaiting_day_end
          else if not (is_sales facts.department)
          then add_result facts.department intake_stage_rule fail plain
          else created_result facts.created_at)

  unfoldable pub manager_notes : NoteState
  manager_notes = current_notes input.notes facts.stage_entered_at facts.observed_at true

  -- The stage has lasted too long, and notes may excuse it.
  abbrev late_stage : NoteState → RuleResult
  late_stage state =
      if state.invalid || not input.source_completeness.notes
      then add_result facts.department stage_duration_rule unknown plain
      else if is_empty state.notes
      then add_result facts.department stage_duration_rule fail plain
      else add_result facts.department stage_duration_rule review (evidence (ids state.notes) [])

  abbrev duration_by : Option ℕ → RuleResult
  duration_by none = add_result facts.department stage_duration_rule unknown plain
  duration_by (some deadline) =
      if not (is_exceeded facts.limit.mode deadline facts.observed_at)
      then add_result facts.department stage_duration_rule pass plain
      else if is_end_of_day facts.limit.mode
      then add_result facts.department stage_duration_rule fail plain
      else late_stage manager_notes

  unfoldable pub stage_duration : RuleResult
  stage_duration =
      if not (is_sales facts.department)
        && is_chosen input.scope.price_requested_stage_id input.deal.stage_id
      then add_result facts.department stage_duration_rule na delegated_to_price
      else if is_unlimited facts.limit
      then add_result facts.department stage_duration_rule na resolves_prior
      else duration_by facts.limit.deadline

  abbrev proposal_state : NoteState → RuleResult
  proposal_state state =
      if not input.source_completeness.notes
      then add_result facts.department proposal_note_rule unknown plain
      else if not (any (λ n. n.is_common && has_text n.text) input.notes)
      then add_result facts.department proposal_note_rule fail plain
      else if state.invalid
      then add_result facts.department proposal_note_rule unknown plain
      else if is_empty state.notes
      then add_result facts.department proposal_note_rule fail plain
      else add_result facts.department proposal_note_rule review (evidence (ids state.notes) [])

  unfoldable pub proposal_note : RuleResult
  proposal_note =
      on_stage input.scope.prepared_proposal_stage_id input.deal.stage_id
        (add_result facts.department proposal_note_rule na configured_absent)
        (add_result facts.department proposal_note_rule unknown plain)
        (add_result facts.department proposal_note_rule na resolves_prior)
        (if facts.before_day_end
          then add_result facts.department proposal_note_rule unknown awaiting_day_end
          else proposal_state manager_notes)

  unfoldable pub is_old : MaxDealAge → ℕ → Bool
  is_old thirty_days created = ltb (30 * day) (facts.observed_at - created)
  is_old calendar_month created =
      ltb (next_calendar_month (civil created)) (civil facts.observed_at)

  abbrev age_by : Option ℕ → RuleResult
  age_by none = add_result facts.department deal_age_rule unknown plain
  age_by (some created) =
      if ltb facts.observed_at created
      then add_result facts.department deal_age_rule unknown plain
      else add_result facts.department deal_age_rule
          (if is_old input.config.max_deal_age created then fail else pass) plain

  abbrev is_off : Option Bool → Bool
  is_off (some false) = true
  is_off _ = false

  unfoldable pub deal_age : RuleResult
  deal_age =
      if is_off input.scope.check_deal_age
      then add_result facts.department deal_age_rule na resolves_prior
      else if facts.is_base && input.config.exclude_base_from_age
      then add_result facts.department deal_age_rule na resolves_prior
      else age_by facts.created_at

  -- `hasConfiguredLimit`
  abbrev has_limit : Option StageRule → Bool
  has_limit none = false
  has_limit (some rule) =
      is_set rule.deadline_mode
      || has_date rule.max_duration_hours
      || has_date rule.max_business_days

  -- Without a limit of the stage, a price may take a day.
  unfoldable pub price_limit : StageDeadline
  price_limit =
      if has_limit facts.stage_rule
      then facts.limit
      else stage_deadline civil
          (some (record {
            allowed_task_type_ids = none;
            deadline_mode = none;
            max_duration_hours = some 24;
            max_business_days = none;
          }))
          facts.stage_entered_at

  unfoldable pub stage_communications : List Communication
  stage_communications =
      filter (λ c. dated_within facts.stage_entered_at c.created_at facts.observed_at)
        input.communications

  abbrev late_price : NoteState → List Communication → RuleResult
  late_price state calls =
      if not (is_empty state.notes) || not (is_empty calls)
      then add_result facts.department price_requested_duration_rule review
          (evidence (ids state.notes) (communication_ids calls))
      else if not input.source_completeness.notes
          || (not input.source_completeness.communications
              || (state.invalid || any (λ c. not (has_date c.created_at)) input.communications))
      then add_result facts.department price_requested_duration_rule unknown plain
      else add_result facts.department price_requested_duration_rule fail plain

  abbrev price_by : DeadlineMode → (deadline entered : Option ℕ) → RuleResult
  price_by mode (some deadline) (some entered) =
      if not (is_exceeded mode deadline facts.observed_at)
      then add_result facts.department price_requested_duration_rule pass plain
      else if is_end_of_day mode
      then add_result facts.department price_requested_duration_rule fail plain
      else late_price (current_notes input.notes facts.stage_entered_at facts.observed_at false)
          stage_communications
  price_by mode _ _ = add_result facts.department price_requested_duration_rule unknown plain

  unfoldable pub price_requested_duration : RuleResult
  price_requested_duration =
      if is_sales facts.department
      then add_result facts.department price_requested_duration_rule na resolves_prior
      else on_stage input.scope.price_requested_stage_id input.deal.stage_id
          (add_result facts.department price_requested_duration_rule na configured_absent)
          (add_result facts.department price_requested_duration_rule unknown plain)
          (add_result facts.department price_requested_duration_rule na resolves_prior)
          (if is_unlimited price_limit
            then add_result facts.department price_requested_duration_rule na resolves_prior
            else price_by price_limit.mode price_limit.deadline facts.stage_entered_at)
