-- ===== src/Control/Rules/Verdicts.antt =====
-- What the verdicts of the rules mean.
use amocrm_analytics.Base.{
  ℕ, ◌≤◌, ◌<◌, ◌≡◌, refl, ◌⊎◌, Bool, true, false, Option, none, some, List, [], ◌∷◌, arith,
}
use amocrm_analytics.Control.Types.{fail, StageRule}
use amocrm_analytics.Control.Deadline.{stage_deadline, rule_mode}
use amocrm_analytics.Control.Deadline.Sound.{Meets, stage_deadline-Meets}
use amocrm_analytics.Control.Inputs.{RuleInput}
use amocrm_analytics.Control.Rules.{Facts, is_end_of_day, is_exceeded, is_empty, add_result}
use amocrm_analytics.Control.Rules.Stages.{stage_duration, manager_notes}
use amocrm_analytics.Control.Rules.Evaluate.{facts_of, entry_by}

-- The stage has lasted past its deadline `d`, and no note of a manager since the entry excuses it.
pub record IsLate (civil : ℕ → ℕ) (input : RuleInput) (facts : Facts) (d : ℕ) : Type 0 where
  pub found : facts.limit.deadline ≡ some d
  pub reached : d ≤ facts.observed_at
  pub unexcused :
      (is_end_of_day facts.limit.mode ≡ true)
      ⊎ ((d < facts.observed_at)
          × (input.source_completeness.notes ≡ true)
          × ((manager_notes civil input facts).notes ≡ [])
          × ((manager_notes civil input facts).invalid ≡ false))

empty_of {ℓ} : {A : Type ℓ} (xs : List A) → is_empty xs ≡ true → xs ≡ []
empty_of [] h = refl
empty_of (x ∷ xs) h = cc

pub stage_duration-IsLate :
    (civil : ℕ → ℕ) (input : RuleInput) (facts : Facts)
    → (stage_duration civil input facts).status ≡ fail
    → (d : ℕ) × IsLate civil input facts d
unfolding stage_duration add_result is_exceeded
stage_duration-IsLate civil input facts e = ground arith

-- A deadline comes from a rule and an entry.
limited :
    (civil : ℕ → ℕ) (rule : Option StageRule) (entry : Option ℕ) (d : ℕ)
    → (stage_deadline civil rule entry).deadline ≡ some d
    → (r : StageRule) × (t : ℕ) × (rule ≡ some r)
      × (entry ≡ some t)
      × Meets civil (rule_mode (some r)) r t d
unfolding stage_deadline
limited civil none entry d e = cc
limited civil (some r) (some t) d e = (r, t, refl, refl, stage_deadline-Meets civil r t d e)
limited civil (some r) none d e = ground arith

entered :
    (complete : Bool) (entry : Option ℕ) (at t : ℕ)
    → entry_by complete entry at ≡ some t
    → (entry ≡ some t) × (t ≤ at)
entered true (some x) at t e = ground arith
entered true none at t e = cc
entered false entry at t e = cc

-- If the rule on the duration of the stage fails, then the stage has a configured limit, the entry into
-- the stage is known and not later than the check, and the check is not before an instant that is the
-- deadline of the stage by the mode of its limit; unless the limit is the end of the day, the notes were
-- read completely and no manager has written one since the entry.
pub stage_duration-Meets :
    (civil : ℕ → ℕ) (input : RuleInput) (observed_at : ℕ)
    → (stage_duration civil input (facts_of civil input observed_at)).status ≡ fail
    → (rule : StageRule) × (entry : ℕ) × (d : ℕ) × (input.scope.stage_rules input.deal.stage_id
        ≡ some rule)
      × (input.stage_entered_at ≡ some entry)
      × (entry ≤ observed_at)
      × (d ≤ observed_at)
      × Meets civil (rule_mode (some rule)) rule entry d
      × IsLate civil input (facts_of civil input observed_at) d
unfolding facts_of
stage_duration-Meets civil input observed_at e =
    let (d, late) = stage_duration-IsLate civil input (facts_of civil input observed_at) e in
    let (rule, entry, r, t, meets) = limited civil _ _ d late.found in
    let (known, before) = entered _ _ observed_at entry t in
    (rule, entry, d, r, known, before, late.reached, meets, late)
