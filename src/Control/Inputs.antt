-- ===== src/Control/Inputs.antt =====
-- What a check of a deal reads (`CrmControlRuleInput` of
-- apps/api/src/crm-control/crm-control.types.ts) and the helpers of
-- apps/api/src/crm-control/crm-control.rules.ts. Texts are lists of code points, stages, types and
-- other identifiers are numbers, and a date is an instant after 1970, or `none` if it is not valid.
pub mod Open
use amocrm_analytics.Base.{
  ℕ, ◌+◌, ◌-◌, ◌*◌, ◌/◌, ◌%◌, min, Bool, true, false, ◌&&◌, ◌||◌, not, Option, none, some, List, [],
  ◌∷◌, ltb, leb, ◌==◌, any, all, filter, if◌then◌else◌,
}
use amocrm_analytics.Calendar.{make_day, civil_date}
use amocrm_analytics.Control.Types.{ResultStatus, StageRule}
use amocrm_analytics.Control.Deadline.{day}

pub data Department : Type 0 where
  sales csm : Department

-- A stage of the settings: `null` is `absent`, and `undefined` or an empty text is `unset`.
pub data StageChoice : Type 0 where
  absent unset : StageChoice
  chosen : ℕ → StageChoice

pub record Scope : Type 0 where
  pub department : Department
  pub pipeline_id : ℕ
  pub assigned_stage_id : StageChoice
  pub new_client_stage_id : StageChoice
  pub base_stage_id : StageChoice
  pub prepared_proposal_stage_id : StageChoice
  pub price_requested_stage_id : StageChoice
  pub check_deal_age : Option Bool
  pub stage_rules : ℕ → Option StageRule

pub data MaxDealAge : Type 0 where
  calendar_month thirty_days : MaxDealAge

pub record Config : Type 0 where
  pub time_zone : ℕ
  pub max_deal_age : MaxDealAge
  pub exclude_base_from_age : Bool

pub record Deal : Type 0 where
  pub created_at : Option ℕ
  pub pipeline_id : ℕ
  pub stage_id : ℕ

-- `raw_text` is `none` if `raw` has no field `text`, and `some none` if that field is no text; an
-- empty `externalId` is `none`.
pub record Task : Type 0 where
  pub id : ℕ
  pub external_id : Option ℕ
  pub title : List ℕ
  pub type_id : Option ℕ
  pub due_at : Option ℕ
  pub is_completed : Bool
  pub raw_text : Option (Option (List ℕ))

-- `is_common` is `type === 'common'`.
pub record Note : Type 0 where
  pub id : ℕ
  pub external_id : Option ℕ
  pub is_common : Bool
  pub text : Option (List ℕ)
  pub created_at : Option ℕ

pub record Communication : Type 0 where
  pub id : ℕ
  pub created_at : Option ℕ

pub record Completeness : Type 0 where
  pub deal : Bool
  pub tasks : Bool
  pub notes : Bool
  pub stage_history : Bool
  pub communications : Bool

pub record RuleInput : Type 0 where
  pub deal : Deal
  pub tasks : List Task
  pub notes : List Note
  pub communications : List Communication
  pub stage_entered_at : Option ℕ
  pub observed_at : Option ℕ
  pub source_completeness : Completeness
  pub config : Config
  pub scope : Scope

abbrev or_else : Option ℕ → ℕ → ℕ
or_else none d = d
or_else (some n) d = n

abbrev pub task_subject : Task → ℕ
task_subject t = or_else t.external_id t.id

abbrev pub note_id : Note → ℕ
note_id n = or_else n.external_id n.id

-- The white space that `String.prototype.trim` removes.
unfoldable pub is_space : ℕ → Bool
is_space c =
    (leb 9 c && leb c 13)
    || c == 32
    || c == 160
    || c == 5760
    || (leb 8192 c && leb c 8202)
    || c == 8232
    || c == 8233
    || c == 8239
    || c == 8287
    || c == 12288
    || c == 65279

-- `trim` leaves nothing of the text.
unfoldable pub is_blank : List ℕ → Bool
is_blank text = all is_space text

abbrev shown_text : Option (Option (List ℕ)) → List ℕ → List ℕ
shown_text none title = title
shown_text (some none) title = []
shown_text (some (some text)) title = text

-- `!taskText(task)`
unfoldable pub has_no_text : Task → Bool
has_no_text t = is_blank (shown_text t.raw_text t.title)

abbrev pub has_text : Option (List ℕ) → Bool
has_text none = false
has_text (some text) = not (is_blank text)

-- `Map.set` on the list of the entries, by `taskSubject`.
unfoldable pub put_task : Task → List Task → List Task
put_task t [] = t ∷ []
put_task t (u ∷ us) =
    let rest = put_task t us in if task_subject u == task_subject t then t ∷ us else u ∷ rest

unfoldable pub put_tasks : List Task → List Task → List Task
put_tasks [] entries = entries
put_tasks (t ∷ ts) entries = put_tasks ts (put_task t entries)

unfoldable pub active_tasks : List Task → List Task
active_tasks tasks = put_tasks (filter (λ t. not t.is_completed) tasks) []

-- The same time of the day one month later, on the last day of that month if it is shorter.
unfoldable pub next_calendar_month : ℕ → ℕ
next_calendar_month civil =
    let current = civil_date (civil / day) in
    let first = civil_date (make_day current.year (current.month + 1) 1) in
    let last_day = (civil_date (make_day first.year (first.month + 1) 0)).day in
    make_day first.year first.month (min current.day last_day) * day + civil % day

-- A valid date that is not after the instant.
abbrev pub known_by : Option ℕ → ℕ → Bool
known_by none t = false
known_by (some d) t = leb d t

-- A valid date from `from` up to `to`.
abbrev pub dated_within : Option ℕ → Option ℕ → ℕ → Bool
dated_within (some from) (some d) to = leb from d && leb d to
dated_within _ _ to = false

abbrev pub has_date : Option ℕ → Bool
has_date none = false
has_date (some _) = true

pub record NoteState : Type 0 where
  pub notes : List Note
  pub invalid : Bool

-- The notes since the entry into the stage; with `manager_only`, those that a manager wrote.
unfoldable pub current_notes :
    List Note → (entered : Option ℕ) → (observed_at : ℕ) → (manager_only : Bool) → NoteState
current_notes all_notes entered observed_at manager_only =
    let candidates = filter (λ n. not manager_only || n.is_common) all_notes in
    record {
      notes =
          filter
            (λ n.
              dated_within entered n.created_at observed_at
              && (not manager_only || has_text n.text))
            candidates;
      invalid = not (has_date entered) || any (λ n. not (has_date n.created_at)) candidates;
    }
