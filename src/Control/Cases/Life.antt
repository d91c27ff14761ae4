-- ===== src/Control/Cases/Life.antt =====
-- What holds of a case through any sequence of results and decisions.
use mathlib.Core.Path.{subst}
use amocrm_analytics.Base.{
  ℕ, ◌≡◌, Bool, true, false, ◌&&◌, Option, none, some, arith, List, if◌then◌else◌,
}
use amocrm_analytics.Control.Types.{ResultStatus, exempted}
use amocrm_analytics.Control.Cases.{
  Case, CaseResult, create_review_case, is_closed, is_resolved, is_some, next_control_case_state,
  is_superseded, write_case, record_result, close_task_case, DecisionInput, Role, Action, confirm,
  exempt, dispute, after_action, decide, decided,
}

-- A case that was created with a key is active exactly while it is not closed, and another never. An
-- exemption has an end and is no confirmation, and a case has the date of its end exactly if it is resolved.
pub record IsSound (keyed : Bool) (c : Case) : Type 0 where
  pub active_iff : c.active ≡ (keyed && (if is_closed c.status then false else true))
  pub dated : c.status ≡ exempted → is_some c.exemption_until ≡ true
  pub unconfirmed : c.status ≡ exempted → c.confirmed_at ≡ none
  pub resolved_iff : is_some c.resolved_at ≡ is_resolved c.status

-- The ways in which a case begins: by a result of a run, with a key, or by a review, without one.
pub data Start : (keyed : Bool) → Case → Type 0 where
  opened_by :
      {c : Case} (result : CaseResult) (hash observed_at observation : ℕ)
      → (record_result none result hash observed_at observation).current ≡ some c
      → Start true c
  reviewed_by :
      (hash observed_at observation : ℕ)
      → Start false (create_review_case hash observed_at observation)

-- One event in the life of the case of a key.
pub data Step : Case → Case → Type 0 where
  observed :
      {c c' : Case} (result : CaseResult) (hash observed_at observation : ℕ)
      → c.active ≡ true
      → (record_result (some c) result hash observed_at observation).current ≡ some c'
      → Step c c'
  set_aside :
      {c c' : Case} (result : CaseResult) (hash observed_at observation : ℕ)
      → c.active ≡ true
      → (record_result (some c) result hash observed_at observation).set_aside ≡ some c'
      → Step c c'
  task_closed :
      {c c' : Case} (observed_at observation : ℕ)
      → close_task_case c observed_at observation ≡ c'
      → Step c c'
  ruled :
      {c c' : Case} (role : Role) (body : DecisionInput)
      (results : List (ResultStatus × ResultStatus)) (read : Case) (expected last : Option ℕ)
      (now : ℕ)
      → decide role body results read c expected last now ≡ decided c'
      → Step c c'

pub data Reach (c : Case) : Case → Type 0 where
  here : Reach c c
  next : {d e : Case} → Reach c d → Step d e → Reach c e

unfolded : Unit {0}
unfolding create_review_case record_result next_control_case_state write_case is_superseded
    close_task_case decide
unfolded = tt

Start-IsSound : {keyed : Bool} {c : Case} → Start keyed c → IsSound keyed c
unfolding unfolded
Start-IsSound (opened_by result hash observed_at observation e) = ground arith
Start-IsSound (reviewed_by hash observed_at observation) = ground arith

-- What an accepted decision writes.
decide-after_action :
    (role : Role) (body : DecisionInput) (results : List (ResultStatus × ResultStatus))
    (read row : Case) (expected last : Option ℕ) (now : ℕ) (c : Case)
    → decide role body results read row expected last now ≡ decided c
    → (after_action row body.action body.valid_until now ≡ c)
      × (is_closed row.status ≡ false)
      × (body.action ≡ exempt → is_some body.valid_until ≡ true)
unfolding decide
decide-after_action role body results read row expected last now c e =
    (ground arith, ground arith, ground arith)

after_action-IsSound :
    {keyed : Bool} (row : Case) (action : Action) (valid_until : Option ℕ) (now : ℕ)
    → is_closed row.status ≡ false
    → (action ≡ exempt → is_some valid_until ≡ true)
    → IsSound keyed row
    → IsSound keyed (after_action row action valid_until now)
after_action-IsSound row confirm valid_until now live end s = ground arith
after_action-IsSound row exempt valid_until now live end s = ground arith
after_action-IsSound row dispute valid_until now live end s = ground arith

Step-IsSound : {keyed : Bool} {c c' : Case} → Step c c' → IsSound keyed c → IsSound keyed c'
unfolding unfolded
Step-IsSound (observed result hash observed_at observation live e) s = ground arith
Step-IsSound (set_aside result hash observed_at observation live e) s = ground arith
Step-IsSound (task_closed observed_at observation e) s = ground arith
Step-IsSound {keyed = keyed} (ruled {c = c} role body results read expected last now e) s =
    let (written, live, end) = decide-after_action role body results read c expected last now _ e in
    subst (IsSound keyed) written
      (after_action-IsSound c body.action body.valid_until now live end s)

-- From its creation by a result or by a review on, through any sequence of results, closed tasks and
-- decisions: a case that a result created has its key exactly while it is neither RESOLVED nor SUPERSEDED,
-- and one that a review created never; while a case is EXEMPTED it has an end date and no confirmation; and
-- it has a date of resolution exactly while it is RESOLVED.
pub Reach-IsSound : {keyed : Bool} {c d : Case} → Start keyed c → Reach c d → IsSound keyed d
Reach-IsSound start here = Start-IsSound start
Reach-IsSound start (next r st) = Step-IsSound st (Reach-IsSound start r)
