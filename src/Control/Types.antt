-- ===== src/Control/Types.antt =====
-- apps/api/src/crm-control/crm-control.types.ts. Messages and rule names are texts for the reader
-- and are not modelled; identifiers of stages, tasks and notes are numbers.
use amocrm_analytics.Base.{ℕ, Bool, true, false, Option, List}

pub data ResultStatus : Type 0 where
  pass fail review unknown na : ResultStatus

pub data CaseStatus : Type 0 where
  open_case review_case disputed exempted resolved superseded : CaseStatus

pub data RunStatus : Type 0 where
  queued running completed partial failed : RunStatus

-- `other` stands for a text in the settings that names no mode.
pub data DeadlineMode : Type 0 where
  elapsed business_days end_of_day unlimited other : DeadlineMode

pub record StageRule : Type 0 where
  pub allowed_task_type_ids : Option (List ℕ)
  pub deadline_mode : Option DeadlineMode
  pub max_duration_hours : Option ℕ
  pub max_business_days : Option ℕ

pub record Counts : Type 0 where
  pub deals : ℕ
  pub failed_deals : ℕ
  pub violations : ℕ
  pub review : ℕ
  pub unknown : ℕ
  pub passed : ℕ
  pub review_deals : ℕ
  pub unknown_deals : ℕ
  pub checked_deals : ℕ
  pub unresolved_deals : ℕ

-- The equality test on statuses.
abbrev pub is_status : ResultStatus → ResultStatus → Bool
is_status ResultStatus.pass ResultStatus.pass = true
is_status ResultStatus.fail ResultStatus.fail = true
is_status ResultStatus.review ResultStatus.review = true
is_status ResultStatus.unknown ResultStatus.unknown = true
is_status ResultStatus.na ResultStatus.na = true
is_status _ _ = false
